-- ===== src/Cluster/Database/Settings.antt =====
-- app/cluster/db.py, `DatabaseConfig.from_env`: which environments are accepted.
use adk_a2a_gke.Prelude.{
  String, false, Option, none, some, ◌==◌, Env, ◌≡◌, ◌⊎◌, ◌↔◌, refl, ap, inl, inr, arith, eq_iff,
}
use adk_a2a_gke.Cluster.Config.{Integers}
use adk_a2a_gke.Cluster.Database.{
  Letters, DatabaseConfig, Refused, accepted, known, missing, refusal, checked, settings, from_env,
}

-- What a backend needs: AlloyDB an instance and a user, `url` a URL, and `none` nothing.
abbrev pub Complete : String → String → String → String → Type 0
Complete backend instance_uri iam_user url =
    (backend ≡ "none")
    ⊎ ((backend ≡ "alloydb") × ((instance_uri == "") ≡ false) × ((iam_user == "") ≡ false))
    ⊎ ((backend ≡ "url") × ((url == "") ≡ false))

refusal-none : (b i u url : String) → Complete b i u url → refusal b i u url ≡ none
unfolding refusal known missing
refusal-none b i u url (inl e) = rw e refl
refusal-none b i u url (inr (inl (e, f, g))) = rw (e, f, g) refl
refusal-none b i u url (inr (inr (e, f))) = rw (e, f) refl

refusal-Complete : (b i u url : String) → refusal b i u url ≡ none → Complete b i u url
unfolding refusal known missing
refusal-Complete b i u url e = ground (arith, eq_iff b "none", eq_iff b "alloydb", eq_iff b "url")

checked-accepted : (o : Option Refused) (c : DatabaseConfig) → checked o c ≡ accepted c → o ≡ none
unfolding checked
checked-accepted none c e = refl
checked-accepted (some r) c e = absurd (cc e)

-- `from_env` accepts an environment exactly where its backend is known and has what it needs, and
-- then returns the settings as they were read.
pub from_env_accepts :
    (z : Integers) (letters : Letters) (env : Env) (default_schema : String)
    → let c = settings z letters env default_schema in
      from_env z letters env default_schema ≡ accepted c
      ↔ Complete c.backend c.instance_uri c.iam_user c.url
unfolding from_env checked
from_env_accepts z letters env default_schema =
    let c = settings z letters env default_schema in
    let r = refusal c.backend c.instance_uri c.iam_user c.url in
    (
      λ e. refusal-Complete c.backend c.instance_uri c.iam_user c.url (checked-accepted r c e),
      λ h. ap (λ o. checked o c) (refusal-none c.backend c.instance_uri c.iam_user c.url h),
    )
