-- ===== src/Tests/Roles.antt =====
-- The revision 0003 at a concrete role.
use adk_a2a_gke.Prelude.{
  String, ◌≡◌, refl, ◌==◌, if◌then◌else◌, Env, none, some, List, ◌++◌, All, returned,
}
use adk_a2a_gke.Schemas.Tables.Roles.{
  Privilege, RoleStatement, resolve_role, schema_name, upgrade_roles, downgrade_roles,
}
use adk_a2a_gke.Schemas.Tables.Roles.Revoked.{Held, effect, executed, IsGrant, role_revoked}

abbrev env : Env
env name = if name == "DB_AGENT_ROLE" then some " agents-research@p.iam" else none

-- Only the readers hold something.
abbrev before : Held
before p schema role = role == "readers"

role_revoked_example :
    (ups : List RoleStatement) × (downs : List RoleStatement) × (upgrade_roles env "postgresql"
        (some "research")
      ≡ returned ups)
    × (downgrade_roles env "postgresql" (some "research") ≡ returned downs)
    × All (IsGrant "research" "agents-research@p.iam") ups
    × ((q : Privilege) (schema' role' : String)
        → executed effect (ups ++ downs) before q schema' role' ≡ before q schema' role')
unfolding resolve_role schema_name
role_revoked_example =
    role_revoked (λ held. held) effect (λ st s. refl) env "postgresql" (some "research")
      "agents-research@p.iam" before refl (λ p. refl)
