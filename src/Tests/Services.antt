-- ===== src/Tests/Services.antt =====
-- Secrets and documents at concrete services.
use adk_a2a_gke.Prelude.{
  zero, suc, String, ◌≡◌, refl, inl, true, false, some, [], ◌∷◌, ◌==◌, if◌then◌else◌, returned,
  lookup,
}
use adk_a2a_gke.Text.{strip}
use adk_a2a_gke.Shared.Secrets.{Service, Secrets, new, resource_name, get}
use adk_a2a_gke.Shared.Secrets.Fetched.{get_all, get_again}
use adk_a2a_gke.Agents.Documents.{Found, missing, content, read_document}
use adk_a2a_gke.Agents.Documents.Bounded.{IsAnswer, read_document_bounded}

-- a secret that is rotated after the first request
abbrev rotating : Service
rotating zero resource = some "old"
rotating (suc _) resource = some "new"

abbrev empty : Secrets
empty = new "p"

abbrev token : String
token = "projects/p/secrets/token/versions/latest"

rotated :
    (get rotating "token" "latest" true (get rotating "token" "latest" false empty).1).0
    ≡ returned "new"
unfolding get lookup
rotated = refl

get_again_example :
    (let later =
        get_all rotating
          (record { name = "key"; version = "2"; refresh = false } ∷ [])
          (get rotating "token" "latest" false empty).1 in
      get rotating token "1" false later ≡ (returned "old", later))
unfolding get resource_name lookup
get_again_example =
    get_again rotating token "old" "token" "latest" false empty
      (record { name = "key"; version = "2"; refresh = false } ∷ []) token "1" refl refl refl
      (inl refl, tt)

abbrev shelf : String → Found
shelf ref = if ref == "gs://b/cases/1/a.txt" then content "dossier" else missing

read_document_bounded_example :
    IsAnswer shelf (strip " gs://b/cases/1/a.txt ") (read_document shelf " gs://b/cases/1/a.txt ")
read_document_bounded_example = read_document_bounded shelf " gs://b/cases/1/a.txt "
