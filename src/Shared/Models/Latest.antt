-- ===== src/Shared/Models/Latest.antt =====
-- app/shared/model_selection.py: what the selections choose.
use mathlib.Core.Path.{subst}
use mathlib.Core.List.{append_assoc, append-nil}
use adk_a2a_gke.Prelude.{
  String, ◌≡◌, refl, sym, true, false, Option, none, some, List, [], ◌∷◌, ◌++◌, All, All-append,
  All-map, ap, ◌∙◌, ◌⊎◌, Attempt, returned, raised, value_error, ◌>>=◌, returned_injective,
  bind-returned, Bool-cases, inl, inr,
}
use adk_a2a_gke.Shared.Keys.{Order, IsOrder, numbers-IsOrder, tuples-IsOrder, pairs-IsOrder}
use adk_a2a_gke.Shared.Models.{
  Digits, Key, key_order, better, best_of, the_best, model_key, select_latest_model,
}
use adk_a2a_gke.Shared.Models.Embeddings.{
  EmbeddingKey, embedding_order, classify_embedding_model, select_embedding_model,
}

key_order-IsOrder : IsOrder key_order
key_order-IsOrder =
    pairs-IsOrder tuples-IsOrder
      (pairs-IsOrder numbers-IsOrder (pairs-IsOrder numbers-IsOrder tuples-IsOrder))

embedding_order-IsOrder : IsOrder embedding_order
embedding_order-IsOrder =
    pairs-IsOrder numbers-IsOrder (pairs-IsOrder numbers-IsOrder tuples-IsOrder)

module _ {K : Type 0} (order : Order K) (key_of : String → Attempt (Option K)) where
  -- an id that does not count, or one whose key passes
  abbrev pub Passes : (K → Type 0) → String → Type 0
  Passes P id =
      (key_of id ≡ returned none) ⊎ ((key : K) × (key_of id ≡ returned (some key)) × P key)

  -- The id chosen from a list: the ids before it that count are below it, and those after it are
  -- not above it.
  pub record IsFirstBest (ids : List String) (id : String) (key : K) : Type 0 where
    pub before : List String
    pub after : List String
    pub place : ids ≡ before ++ id ∷ after
    pub counts : key_of id ≡ returned (some key)
    pub below : All (Passes (λ k. order.above key k ≡ true)) before
    pub not_above : All (Passes (λ k. order.above k key ≡ false)) after

  Holds : List String → Option (String × K) → Type 0
  Holds seen none = All (λ id. key_of id ≡ returned none) seen
  Holds seen (some (id, key)) = IsFirstBest seen id key

  module _ (h : IsOrder order) where
    -- what was not above a key is below a greater one
    below_greater :
        (key best k : K)
        → order.above key best ≡ true
        → order.above k best ≡ false
        → order.above key k ≡ true
    below_greater key best k up e = elim (Bool-cases (order.same k best)) [
      | inl s ↦ subst (λ c. order.above key c ≡ true) (sym (h.same_sound k best s)) up
      | inr s ↦ h.trans key best k up (h.total k best s e)
    ]

    overtaken :
        (seen : List String) (id best_id : String) (key best : K)
        → order.above key best ≡ true
        → key_of id ≡ returned (some key)
        → IsFirstBest seen best_id best
        → IsFirstBest (seen ++ id ∷ []) id key
    overtaken seen id best_id key best up e b = record {
      before = seen;
      after = [];
      place = refl;
      counts = e;
      below = subst (All (Passes (λ k. order.above key k ≡ true))) (sym b.place) (
          All-append _ b.before (best_id ∷ b.after)
            (All-map _ _ (λ x. later (λ k. h.trans key best k up)) b.before b.below)
            (
              inr (best, b.counts, up),
              All-map _ _ (λ x. later (λ k. below_greater key best k up)) b.after b.not_above,
            ));
      not_above = tt;
    }
      where
        later : {P Q : K → Type 0} → ((k : K) → P k → Q k) → {x : String} → Passes P x → Passes Q x
        later f (inl skipped) = inl skipped
        later f (inr (k, e, p)) = inr (k, e, f k p)

    kept :
        (seen : List String) (id best_id : String) (best : K)
        → Passes (λ k. order.above k best ≡ false) id
        → IsFirstBest seen best_id best
        → IsFirstBest (seen ++ id ∷ []) best_id best
    kept seen id best_id best p b = record {
      before = b.before;
      after = b.after ++ id ∷ [];
      place = ap (λ l. l ++ id ∷ []) b.place ∙ append_assoc b.before (best_id ∷ b.after) (id ∷ []);
      counts = b.counts;
      below = b.below;
      not_above = All-append _ b.after (id ∷ []) b.not_above (p, tt);
    }

    better-Holds :
        (seen : List String) (best : Option (String × K)) (id : String) (key : Option K)
        → Holds seen best
        → key_of id ≡ returned key
        → Holds (seen ++ id ∷ []) (better order best id key)
    unfolding better Holds
    better-Holds seen none id none b e = All-append _ seen (id ∷ []) b (e, tt)
    better-Holds seen (some (best_id, best)) id none b e = kept seen id best_id best (inl e) b
    better-Holds seen none id (some key) b e = record {
      before = seen;
      after = [];
      place = refl;
      counts = e;
      below = All-map _ _ (λ x none_of. inl none_of) seen b;
      not_above = tt;
    }
    better-Holds seen (some (best_id, best)) id (some key) b e =
        elim (Bool-cases (order.above key best)) [
          | inl up ↦ rw (up, better) (overtaken seen id best_id key best up e b)
          | inr f ↦ rw (f, better) (kept seen id best_id best (inr (key, e, f)) b)
        ]

    best_of-Holds :
        (seen ids : List String) (best r : Option (String × K))
        → Holds seen best
        → best_of order key_of best ids ≡ returned r
        → Holds (seen ++ ids) r
    unfolding best_of
    best_of-Holds seen [] best r b e =
        rw append-nil (subst (Holds seen) (returned_injective best r e) b)
    best_of-Holds seen (id ∷ ids) best r b e =
        let (key, k, rest) = bind-returned (key_of id) _ r e in
        subst (λ l. Holds l r) (append_assoc seen (id ∷ []) ids)
          (best_of-Holds (seen ++ id ∷ []) ids (better order best id key) r
            (better-Holds seen best id key b k) rest)

    best_of_total :
        (ids : List String) (best : Option (String × K))
        → All (λ id. (key : Option K) × (key_of id ≡ returned key)) ids
        → (r : Option (String × K)) × (best_of order key_of best ids ≡ returned r)
    unfolding best_of
    best_of_total [] best h = (best, refl)
    best_of_total (id ∷ ids) best ((key, e), rest) =
        rw e (best_of_total ids (better order best id key) rest)

    -- A selection returns the first best of the ids, or raises where no id counts.
    pub selects :
        (ids : List String)
        → All (λ id. (key : Option K) × (key_of id ≡ returned key)) ids
        → ((id : String) × (key : K) × IsFirstBest ids id key
            × ((best_of order key_of none ids >>= λ best. the_best order best) ≡ returned id))
          ⊎ (All (λ id. key_of id ≡ returned none) ids
              × ((best_of order key_of none ids >>= λ best. the_best order best)
                  ≡ raised value_error))
    unfolding the_best Holds
    selects ids h = go (best_of_total ids none h)
      where
        go :
            (r : Option (String × K)) × (best_of order key_of none ids ≡ returned r)
            → ((id : String) × (key : K) × IsFirstBest ids id key
                × ((best_of order key_of none ids >>= λ best. the_best order best) ≡ returned id))
              ⊎ (All (λ id. key_of id ≡ returned none) ids
                  × ((best_of order key_of none ids >>= λ best. the_best order best)
                      ≡ raised value_error))
        go (none, f) = inr (best_of-Holds [] ids none none tt f, rw f refl)
        go (some (id, key), f) =
            inl (id, key, best_of-Holds [] ids none (some (id, key)) tt f, rw f refl)

-- Where no number among the ids makes `int` raise, `select_latest_model` returns an id of the
-- family whose key (version, stable before preview, plain alias before a numbered one, numbers of
-- the suffix) is above the keys of all the family's ids before it and not below one after it; it
-- raises `ValueError` instead where no id belongs to the family.
pub select_latest_model_lem :
    (digits : Digits) (ids : List String) (family : String)
    → All (λ id. (key : Option Key) × (model_key digits family id ≡ returned key)) ids
    → ((id : String) × (key : Key) × IsFirstBest key_order (model_key digits family) ids id key
        × (select_latest_model digits ids family ≡ returned id))
      ⊎ (All (λ id. model_key digits family id ≡ returned none) ids
          × (select_latest_model digits ids family ≡ raised value_error))
unfolding select_latest_model
select_latest_model_lem digits ids family h =
    selects key_order (model_key digits family) key_order-IsOrder ids h

-- `select_embedding_model` returns in the same way the first id of the highest key (rank of the
-- family, stable before variant, numbers), or raises `ValueError` where no id is of an embedding
-- family; no number among the ids may make `int` raise.
pub select_embedding_model_lem :
    (digits : Digits) (ids : List String)
    → All
        (λ id. (key : Option EmbeddingKey) × (classify_embedding_model digits id ≡ returned key))
        ids
    → ((id : String) × (key : EmbeddingKey) × IsFirstBest embedding_order
          (classify_embedding_model digits)
          ids
          id
          key
        × (select_embedding_model digits ids ≡ returned id))
      ⊎ (All (λ id. classify_embedding_model digits id ≡ returned none) ids
          × (select_embedding_model digits ids ≡ raised value_error))
unfolding select_embedding_model
select_embedding_model_lem digits ids h =
    selects embedding_order (classify_embedding_model digits) embedding_order-IsOrder ids h
