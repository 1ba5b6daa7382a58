-- ===== src/Shared/Secrets/Fetched.antt =====
-- app/shared/secrets.py: what was fetched stays until it is refreshed.
use mathlib.Core.Path.{subst}
use adk_a2a_gke.Prelude.{
  String, Bool, true, false, ◌≡◌, ◌≢◌, ◌⊎◌, refl, sym, ap, ◌∙◌, inl, inr, Option, none, some, List,
  [], ◌∷◌, All, lookup, lookup-insert, Attempt, returned, raised, arith, eq_iff, eq_refl,
  returned_injective,
}
use adk_a2a_gke.Shared.Secrets.{Service, Secrets, resource_name, stored, get_at, get_resource, get}

-- A call of `get`.
pub record Call : Type 0 where
  pub name : String
  pub version : String
  pub refresh : Bool

module _ (service : Service) where
  unfoldable pub get_all : List Call → Secrets → Secrets
  unfolding get
  get_all [] s = s
  get_all (c ∷ cs) s = get_all cs (get service c.name c.version c.refresh s).1

  module _ (resource value : String) where
    -- the value is in the cache
    record Holds (project : String) (s : Secrets) : Type 0 where
      pub cached : lookup resource s.cache ≡ some value
      pub same_project : s.project ≡ project

    stored-Holds :
        (project : String) (answer : Option String) (r : String) (s : Secrets)
        → Holds project s
        → r ≢ resource
        → Holds project (stored service answer r s).1
    unfolding stored
    stored-Holds project none r s h other = record {
      cached = h.cached;
      same_project = h.same_project;
    }
    stored-Holds project (some v) r s h other = record {
      cached =
          lookup-insert resource r v s.cache ∙ ground (arith, h.cached, other, eq_iff r resource);
      same_project = h.same_project;
    }

    get_at-Holds :
        (project : String) (o : Option String) (refresh : Bool) (r : String) (s : Secrets)
        → lookup r s.cache ≡ o
        → Holds project s
        → (refresh ≡ false) ⊎ (r ≢ resource)
        → Holds project (get_at service o refresh r s).1
    unfolding get_at
    get_at-Holds project (some v) false r s e h c = h
    get_at-Holds project (some v) true r s e h (inl bad) = absurd (ground (arith, bad))
    get_at-Holds project (some v) true r s e h (inr other) =
        stored-Holds project (service s.requests r) r s h other
    get_at-Holds project none refresh r s e h c =
        stored-Holds project (service s.requests r) r s h
          (λ same. cc (ap (λ x. lookup x s.cache) same, e, h.cached))

    get_resource-Holds :
        (project : String) (r : Attempt String) (refresh : Bool) (s : Secrets)
        → Holds project s
        → (refresh ≡ false) ⊎ (r ≢ returned resource)
        → Holds project (get_resource service r refresh s).1
    get_resource-Holds project (raised e) refresh s h c = h
    get_resource-Holds project (returned r) refresh s h (inl e) =
        get_at-Holds project (lookup r s.cache) refresh r s refl h (inl e)
    get_resource-Holds project (returned r) refresh s h (inr other) =
        get_at-Holds project (lookup r s.cache) refresh r s refl h
          (inr (λ same. other (ap returned same)))

    get-Holds :
        (project name version : String) (refresh : Bool) (s : Secrets)
        → Holds project s
        → (refresh ≡ false) ⊎ (resource_name project name version ≢ returned resource)
        → Holds project (get service name version refresh s).1
    unfolding get
    get-Holds project name version refresh s h c =
        subst (λ p. Holds project (get_resource service (resource_name p name version) refresh s).1)
          (sym h.same_project)
          (get_resource-Holds project (resource_name project name version) refresh s h c)

    get_all-Holds :
        (project : String) (calls : List Call) (s : Secrets)
        → Holds project s
        → All
            (λ (c : Call).
              (c.refresh ≡ false) ⊎ (resource_name project c.name c.version ≢ returned resource))
            calls
        → Holds project (get_all calls s)
    unfolding get_all
    get_all-Holds project [] s h a = h
    get_all-Holds project (c ∷ cs) s h (a, rest) =
        get_all-Holds project cs _ (get-Holds project c.name c.version c.refresh s h a) rest

    got_stored :
        (answer : Option String) (s : Secrets)
        → (stored service answer resource s).0 ≡ returned value
        → Holds s.project (stored service answer resource s).1
    unfolding stored
    got_stored none s g = absurd (cc g)
    got_stored (some v) s g = record {
      cached =
          lookup-insert resource resource v s.cache
          ∙ ground (arith, eq_refl resource, returned_injective v value g);
      same_project = refl;
    }

    got_at :
        (o : Option String) (refresh : Bool) (s : Secrets)
        → lookup resource s.cache ≡ o
        → (get_at service o refresh resource s).0 ≡ returned value
        → Holds s.project (get_at service o refresh resource s).1
    unfolding get_at
    got_at (some v) false s e g = record {
      cached = e ∙ ap some (returned_injective v value g);
      same_project = refl;
    }
    got_at (some v) true s e g = got_stored (service s.requests resource) s g
    got_at none refresh s e g = got_stored (service s.requests resource) s g

    got_resource :
        (r : Attempt String) (refresh : Bool) (s : Secrets)
        → r ≡ returned resource
        → (get_resource service r refresh s).0 ≡ returned value
        → Holds s.project (get_resource service r refresh s).1
    got_resource r refresh s e g =
        subst
          (λ x.
            (get_resource service x refresh s).0 ≡ returned value
            → Holds s.project (get_resource service x refresh s).1)
          (sym e) (got_at (lookup resource s.cache) refresh s refl) g

    again :
        (project : String) (s : Secrets) (r : Attempt String)
        → Holds project s
        → r ≡ returned resource
        → get_resource service r false s ≡ (returned value, s)
    unfolding get_at
    again project s r h e = rw (e, h.cached, get_at) refl

    got-Holds :
        (name version : String) (refresh : Bool) (s : Secrets)
        → resource_name s.project name version ≡ returned resource
        → (get service name version refresh s).0 ≡ returned value
        → Holds s.project (get service name version refresh s).1
    unfolding get
    got-Holds name version refresh s e g =
        got_resource (resource_name s.project name version) refresh s e g

  -- Once `get` returned a secret's value, calls that do not refresh that secret leave it: a later
  -- `get` of the same resource without refresh returns the same value and sends no request,
  -- whatever Secret Manager would answer by then.
  pub get_again :
      (resource value name version : String) (refresh : Bool) (s : Secrets) (calls : List Call)
      (name' version' : String)
      → resource_name s.project name version ≡ returned resource
      → resource_name s.project name' version' ≡ returned resource
      → (get service name version refresh s).0 ≡ returned value
      → All
          (λ (c : Call).
            (c.refresh ≡ false) ⊎ (resource_name s.project c.name c.version ≢ returned resource))
          calls
      → (let later = get_all calls (get service name version refresh s).1 in
          get service name' version' false later ≡ (returned value, later))
  unfolding get
  get_again resource value name version refresh s calls name' version' e e' g a =
      let start = got-Holds resource value name version refresh s e g in
      let last = get_all-Holds resource value s.project calls _ start a in
      again resource value s.project _ _ last
        (ap (λ p. resource_name p name' version') last.same_project ∙ e')
