-- ===== src/Schemas/Tables/Roles/Revoked.antt =====
-- What the revision 0003 grants, and that its downgrade takes it back. The database is a parameter:
-- the privileges that are held in it, which GRANT and REVOKE change as PostgreSQL documents.
use mathlib.Core.Path.{subst}
use adk_a2a_gke.Prelude.{
  String, ◌≡◌, refl, sym, ap, ◌∙◌, Bool, true, false, ◌==◌, ◌&&◌, not, ltb, if◌then◌else◌, Env,
  env_get, Option, List, [], ◌∷◌, ◌++◌, All, returned, raised, value_error, ◌>>=◌,
  returned_injective, arith, Bool-cases, eq_iff, inl, inr,
}
use adk_a2a_gke.Text.{strip}
use adk_a2a_gke.Schemas.Identifiers.{utf8_length}
use adk_a2a_gke.Schemas.Granted.{IsName}
use adk_a2a_gke.Schemas.Tables.Roles.{
  is_role, resolve_role, schema_name, Privilege, on_schema, on_tables, by_default, RoleStatement,
  grant, revoke, for_role, upgrade_roles, downgrade_roles,
}

abbrev pub same_privilege : Privilege → Privilege → Bool
same_privilege on_schema on_schema = true
same_privilege on_tables on_tables = true
same_privilege by_default by_default = true
same_privilege _ _ = false

-- whether a role holds a privilege on a schema
abbrev pub Held : Type 0
Held = Privilege → String → String → Bool

abbrev pub concerns : Privilege → String → String → Privilege → String → String → Bool
concerns p schema role q schema' role' =
    same_privilege p q && (schema == schema') && (role == role')

-- what PostgreSQL documents of the two statements
abbrev pub effect : RoleStatement → Held → Held
effect (grant p schema role) held q schema' role' =
    if concerns p schema role q schema' role' then true else held q schema' role'
effect (revoke p schema role) held q schema' role' =
    if concerns p schema role q schema' role' then false else held q schema' role'

abbrev pub executed : {S : Type 0} → (RoleStatement → S → S) → List RoleStatement → S → S
executed apply [] s = s
executed apply (st ∷ sts) s = executed apply sts (apply st s)

-- A statement grants to a role on a schema, and PostgreSQL reads the role's name as it stands.
pub record IsGrant (schema role : String) (st : RoleStatement) : Type 0 where
  pub privilege : Privilege
  pub grants : st ≡ grant privilege schema role
  pub is_name : IsName is_role role

accepted-IsName :
    (given role : String)
    → (if given == ""
        then returned ""
        else if not (is_role given)
        then raised value_error
        else if ltb 63 (utf8_length given)
        then raised value_error
        else returned given)
      ≡ returned role
    → (role == "") ≡ false
    → IsName is_role role
accepted-IsName given role e named = elim (Bool-cases (given == "")) [
  | inl empty ↦ absurd (
      cc
        (sym named, ap (λ r. r == "") (sym (returned_injective "" role (sym (rw empty refl) ∙ e)))))
  | inr full ↦ elim (Bool-cases (is_role given)) [
    | inr bad ↦ absurd (ground (arith, e, full, bad))
    | inl good ↦ elim (Bool-cases (ltb 63 (utf8_length given))) [
      | inl long ↦ absurd (ground (arith, e, full, good, long))
      | inr fits ↦
          subst (IsName is_role)
            (returned_injective given role (ground (arith, e, full, good, fits)))
            (record { matches = good; short = ground (arith, fits) })
    ]
  ]
]

resolve_role-IsName :
    (env : Env) (role : String)
    → resolve_role env ≡ returned role
    → (role == "") ≡ false
    → IsName is_role role
unfolding resolve_role
resolve_role-IsName env role e named =
    accepted-IsName (strip (env_get env "DB_AGENT_ROLE" "")) role e named

restored :
    (held : Held) (schema role schema' role' : String) (p : Privilege)
    → held p schema role ≡ false
    → (if (schema == schema') && (role == role')
        then false
        else (if (schema == schema') && (role == role') then true else held p schema' role'))
      ≡ held p schema' role'
restored held schema role schema' role' p h = elim (Bool-cases (schema == schema')) [
  | inr e ↦ rw e refl
  | inl e ↦ elim (Bool-cases (role == role')) [
    | inr f ↦ rw (e, f) refl
    | inl f ↦
        rw (e, f)
          (sym h
            ∙ ap (λ x. held p x role) ((eq_iff schema schema').0 e)
            ∙ ap (held p schema') ((eq_iff role role').0 f))
  ]
]

undone :
    (held : Held) (schema role : String) (q : Privilege) (schema' role' : String)
    → ((p : Privilege) → held p schema role ≡ false)
    → executed effect
        (grant on_schema schema role
          ∷ grant on_tables schema role
          ∷ grant by_default schema role
          ∷ revoke by_default schema role
          ∷ revoke on_tables schema role
          ∷ revoke on_schema schema role
          ∷ [])
        held
        q
        schema'
        role'
      ≡ held q schema' role'
undone held schema role on_schema schema' role' h =
    restored held schema role schema' role' on_schema (h on_schema)
undone held schema role on_tables schema' role' h =
    restored held schema role schema' role' on_tables (h on_tables)
undone held schema role by_default schema' role' h =
    restored held schema role schema' role' by_default (h by_default)

-- what the two directions of the revision execute
abbrev granted : String → String → List RoleStatement
granted schema role =
    grant on_schema schema role ∷ grant on_tables schema role ∷ grant by_default schema role ∷ []

abbrev taken : String → String → List RoleStatement
taken schema role =
    revoke by_default schema role ∷ revoke on_tables schema role ∷ revoke on_schema schema role ∷ []

for_role-both :
    (P : List RoleStatement → List RoleStatement → Type 0) (role dialect : String)
    (ups downs : List RoleStatement)
    → P [] []
    → ((role == "") ≡ false → P ups downs)
    → P (for_role role dialect ups) (for_role role dialect downs)
for_role-both P role dialect ups downs none_done done = elim (Bool-cases (role == "")) [
  | inl e ↦ rw e none_done
  | inr e ↦ elim (Bool-cases (dialect == "postgresql")) [
    | inl f ↦ rw (e, f) (done e)
    | inr f ↦ rw (e, f) none_done
  ]
]

module _ {S : Type 0} (held : S → Held) (apply : RoleStatement → S → S)
    (documented : (st : RoleStatement) (s : S) → held (apply st s) ≡ effect st (held s)) where
  executed-effect :
      (sts : List RoleStatement) (s : S)
      → held (executed apply sts s) ≡ executed effect sts (held s)
  executed-effect [] s = refl
  executed-effect (st ∷ sts) s =
      executed-effect sts (apply st s) ∙ ap (executed effect sts) (documented st s)

  -- Where `DB_AGENT_ROLE` gives a role that `_resolve_role` accepts, the upgrade and the downgrade
  -- of the revision 0003 both succeed, for any dialect and schema. Each statement of the upgrade is
  -- a grant on the run's schema to that role, whose name matches `_ROLE_RE` and is not longer than
  -- PostgreSQL's limit. In a database that executes GRANT and REVOKE as documented, and where the
  -- role holds nothing on that schema, what is held after the upgrade and the downgrade is what was
  -- held before, by any role on any schema.
  pub role_revoked :
      (env : Env) (dialect : String) (configured : Option String) (role : String) (s : S)
      → resolve_role env ≡ returned role
      → ((p : Privilege) → held s p (schema_name configured) role ≡ false)
      → (ups : List RoleStatement) × (downs : List RoleStatement) × (upgrade_roles env dialect
            configured
          ≡ returned ups)
        × (downgrade_roles env dialect configured ≡ returned downs)
        × All (IsGrant (schema_name configured) role) ups
        × ((q : Privilege) (schema' role' : String)
            → held (executed apply (ups ++ downs) s) q schema' role' ≡ held s q schema' role')
  unfolding upgrade_roles downgrade_roles
  role_revoked env dialect configured role s e nothing =
      let schema = schema_name configured in
      let statements = λ (f : String → String → List RoleStatement).
        ap (λ r. r >>= (λ name. returned (for_role name dialect (f schema name)))) e in
      (
        for_role role dialect (granted schema role),
        for_role role dialect (taken schema role),
        statements granted,
        statements taken,
        for_role-both (λ ups _. All (IsGrant schema role) ups) role dialect (granted schema role)
            (taken schema role) tt
            (λ named.
              let name = resolve_role-IsName env role e named in
              (
                record { privilege = on_schema; grants = refl; is_name = name },
                (
                  record { privilege = on_tables; grants = refl; is_name = name },
                  (record { privilege = by_default; grants = refl; is_name = name }, tt),
                ),
              )),
        for_role-both
            (λ ups downs.
              (q : Privilege) (schema' role' : String)
              → held (executed apply (ups ++ downs) s) q schema' role' ≡ held s q schema' role')
            role dialect (granted schema role) (taken schema role) (λ q schema' role'. refl)
            (λ _ q schema' role'.
              ap (λ h. h q schema' role')
                (executed-effect (granted schema role ++ taken schema role) s)
              ∙ undone (held s) schema role q schema' role' nothing),
      )
