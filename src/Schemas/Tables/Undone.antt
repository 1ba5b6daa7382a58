-- ===== src/Schemas/Tables/Undone.antt =====
-- The revisions and back. Alembic is a parameter: what it does to a database, and the objects of a
-- database, which the effect documented for each operation changes.
use mathlib.Core.Path.{fun_ext, subst}
use adk_a2a_gke.Prelude.{
  String, ◌≡◌, refl, sym, ap, ◌∙◌, false, ◌==◌, Option, none, List, [], ◌∷◌, ◌++◌, inl, inr, All,
  Attempt, returned, raised, Bool-cases, Attempt-cases, eq_iff,
}
use adk_a2a_gke.Schemas.Tables.{Operation}
use adk_a2a_gke.Schemas.Tables.Sessions.{upgrade_sessions, downgrade_sessions}
use adk_a2a_gke.Schemas.Tables.Tasks.{touch_function, upgrade_tasks, downgrade_tasks}
use adk_a2a_gke.Schemas.Tables.Hitl.{hitl_approvals, upgrade_hitl, downgrade_hitl}
use adk_a2a_gke.Schemas.Tables.Cases.{approval_cases, old_table, upgrade_cases, downgrade_cases}
use adk_a2a_gke.Schemas.Tables.Effects.{Objects, put, effect, run}

abbrev pub seen : {S T : Type 0} → (S → T) → Attempt S → Attempt T
seen f (returned s) = returned (f s)
seen f (raised e) = raised e

module _ {S : Type 0} (objects : S → Objects) (apply : Operation → S → Attempt S)
    (documented : (op : Operation) (s : S)
      → seen objects (apply op s) ≡ effect op (objects s)) where
  -- The objects after a run are those that the documented effects give.
  run-effect :
      (ops : List Operation) (s : S) → seen objects (run apply ops s) ≡ run effect ops (objects s)
  run-effect [] s = refl
  run-effect (op ∷ ops) s = elim (Attempt-cases (apply op s)) [
    | inl (r, e) ↦ rw (e, sym (documented op s), e) (run-effect ops r)
    | inr (x, e) ↦ rw (e, sym (documented op s), e) refl
  ]

-- Two functions that agree on the given names and on all others are equal.
by_names :
    {A : Type 0} (f g : String → A) (names : List String)
    → All (λ n. f n ≡ g n) names
    → ((t : String) → All (λ n. (n == t) ≡ false) names → f t ≡ g t)
    → f ≡ g
by_names f g names h others = fun_ext λ t. at_name names t h (others t)
  where
    at_name :
        (names : List String) (t : String)
        → All (λ n. f n ≡ g n) names
        → (All (λ n. (n == t) ≡ false) names → f t ≡ g t)
        → f t ≡ g t
    at_name [] t h others = others tt
    at_name (n ∷ names) t (p, h) others = elim (Bool-cases (n == t)) [
      | inl e ↦ subst (λ u. f u ≡ g u) ((eq_iff n t).0 e) p
      | inr e ↦ at_name names t h (λ hs. others (e, hs))
    ]

infixr 5 ◌&◌
abbrev pub ◌&◌ : {A B : Type 0} → A → B → A × B
p & q = (p, q)

-- the names that the revisions use
abbrev pub relation_names : List String
relation_names =
    "adk_internal_metadata" ∷ "sessions" ∷ "events" ∷ "app_states" ∷ "user_states" ∷ "tasks"
    ∷ "hitl_approvals" ∷ "approval_cases" ∷ "idx_events_app_user_session_ts"
    ∷ "idx_sessions_update_time" ∷ "idx_tasks_context_id" ∷ "idx_tasks_updated_at"
    ∷ "idx_hitl_approvals_status_created" ∷ "idx_hitl_approvals_user_pending"
    ∷ "idx_hitl_approvals_deciding" ∷ "idx_approval_cases_status_created"
    ∷ "idx_approval_cases_case" ∷ "idx_approval_cases_unexecuted" ∷ []

abbrev pub without_all : {A : Type 0} → List String → (String → Option A) → String → Option A
without_all [] f = f
without_all (n ∷ names) f = put n none (without_all names f)

objects_equal : {a b : Objects} → a.relations ≡ b.relations → a.functions ≡ b.functions → a ≡ b
objects_equal p q = λ i. record { relations = p i; functions = q i }

-- a schema without what the revisions create
abbrev pub cleared : Objects → Objects
cleared o = record {
  relations = without_all relation_names o.relations;
  functions = put touch_function none o.functions;
}

-- the upgrades to 0004 and to 0005; 0003 only grants privileges to a role
abbrev pub to_hitl : List Operation
to_hitl = upgrade_sessions ++ upgrade_tasks ++ upgrade_hitl

abbrev pub upgrades : List Operation
upgrades = to_hitl ++ upgrade_cases

abbrev pub downgrades : List Operation
downgrades = downgrade_cases ++ downgrade_hitl ++ downgrade_tasks ++ downgrade_sessions

-- the revision 0005 and back
cases_undone :
    (o : Objects)
    → run effect (upgrades ++ downgrade_cases) (cleared o) ≡ run effect to_hitl (cleared o)
unfolding upgrade_sessions upgrade_tasks upgrade_hitl upgrade_cases downgrade_cases downgrade_hitl
    downgrade_tasks downgrade_sessions hitl_approvals approval_cases old_table effect
cases_undone o = ap returned (
    objects_equal
      (by_names _ _ relation_names
        (refl & refl & refl & refl & refl & refl & refl & refl & refl & refl & refl & refl & refl
          & refl & refl & refl & refl & refl & tt)
        (λ t
            (
              e1,
              (
                e2,
                (
                  e3,
                  (
                    e4,
                    (
                      e5,
                      (
                        e6,
                        (
                          e7,
                          (
                            e8,
                            (e9, (e10, (e11, (e12, (e13, (e14, (e15, (e16, (e17, (e18, _)))))))))),
                          ),
                        ),
                      ),
                    ),
                  ),
                ),
              ),
            ).
          rw (e1, e2, e3, e4, e5, e6, e7, e8, e9, e10, e11, e12, e13, e14, e15, e16, e17, e18)
            refl))
      (by_names _ _ (touch_function ∷ []) (refl, tt) (λ t (e, _). rw e refl)))

effects_undone :
    (o : Objects) → run effect (upgrades ++ downgrades) (cleared o) ≡ returned (cleared o)
unfolding upgrade_sessions upgrade_tasks upgrade_hitl upgrade_cases downgrade_cases downgrade_hitl
    downgrade_tasks downgrade_sessions hitl_approvals approval_cases old_table effect
effects_undone o = ap returned (
    objects_equal
      (by_names _ _ relation_names
        (refl & refl & refl & refl & refl & refl & refl & refl & refl & refl & refl & refl & refl
          & refl & refl & refl & refl & refl & tt)
        (λ t
            (
              e1,
              (
                e2,
                (
                  e3,
                  (
                    e4,
                    (
                      e5,
                      (
                        e6,
                        (
                          e7,
                          (
                            e8,
                            (e9, (e10, (e11, (e12, (e13, (e14, (e15, (e16, (e17, (e18, _)))))))))),
                          ),
                        ),
                      ),
                    ),
                  ),
                ),
              ),
            ).
          rw (e1, e2, e3, e4, e5, e6, e7, e8, e9, e10, e11, e12, e13, e14, e15, e16, e17, e18)
            refl))
      (by_names _ _ (touch_function ∷ []) (refl, tt) (λ t (e, _). rw e refl)))

without_all-same :
    {A : Type 0} (names : List String) (f : String → Option A)
    → All (λ n. f n ≡ none) names
    → without_all names f ≡ f
without_all-same [] f h = refl
without_all-same (n ∷ names) f (p, h) = fun_ext λ t. elim (Bool-cases (n == t)) [
  | inl e ↦ rw (e, sym ((eq_iff n t).0 e), p) refl
  | inr e ↦ rw e (ap (λ g. g t) (without_all-same names f h))
]

-- Alembic does to the objects of a database what is documented of each operation. On a database
-- with no table or index of the names that the revisions use, and no function of theirs: the
-- revisions 0001, 0002, 0004 and 0005 apply in that order; the downgrade of 0005 then leaves the
-- tables, with their constraints, rows, triggers and referrers, the indexes and the function that
-- an upgrade to 0004 leaves; and the downgrades of all, in the reverse order, succeed and leave the
-- objects that were there at first.
pub migrations_undone :
    {S : Type 0} (objects : S → Objects) (apply : Operation → S → Attempt S)
    → ((op : Operation) (s : S) → seen objects (apply op s) ≡ effect op (objects s))
    → (s : S) → All (λ n. (objects s).relations n ≡ none) relation_names
    → (objects s).functions touch_function ≡ none
    → (seen objects (run apply (upgrades ++ downgrade_cases) s)
        ≡ seen objects (run apply to_hitl s))
      × (seen objects (run apply (upgrades ++ downgrades) s) ≡ returned (objects s))
migrations_undone objects apply documented s none_there no_function =
    let o = objects s in
    let absent : cleared o ≡ o =
      objects_equal (without_all-same relation_names o.relations none_there)
        (without_all-same (touch_function ∷ []) o.functions (no_function, tt)) in
    (
      run-effect objects apply documented (upgrades ++ downgrade_cases) s
          ∙ subst (λ q. run effect (upgrades ++ downgrade_cases) q ≡ run effect to_hitl q) absent
              (cases_undone o)
          ∙ sym (run-effect objects apply documented to_hitl s),
      run-effect objects apply documented (upgrades ++ downgrades) s
          ∙ subst (λ q. run effect (upgrades ++ downgrades) q ≡ returned q) absent
              (effects_undone o),
    )
