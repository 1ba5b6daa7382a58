-- ===== src/Agents/Documents.antt =====
-- app/agents/documents.py: a document read by reference. cloudpathlib and the store behind it are a
-- parameter: whether a path exists and what it holds, each of which may fail with a message.
pub mod Bounded
use Prim.Native.String.{[], ◌∷◌, count}
use adk_a2a_gke.Prelude.{ℕ, String, Bool, false, ◌||◌, ◌&&◌, not, ◌==◌, ltb, if◌then◌else◌}
use adk_a2a_gke.Text.{strip, starts_with, first}

pub data Found : Type 0 where
  missing : Found
  content : String → Found
  failed : String → Found

-- The mapping that `read_document` returns.
pub data Document : Type 0 where
  error : String → String → Document
  ok : String → Bool → Bool → ℕ → String → Document

abbrev pub max_chars : ℕ
max_chars = 20_000

-- `"://" in ref`
unfoldable pub has_scheme : String → Bool
unfolding starts_with
has_scheme [] = false
has_scheme (c ∷ s) = starts_with "://" (c ∷ s) || has_scheme s

unfoldable pub looks_remote : String → Bool
unfolding starts_with
looks_remote ref =
    starts_with "gs://" ref
    || starts_with "s3://" ref
    || starts_with "az://" ref
    || starts_with "https://" ref

-- `ref.startswith(ALLOWED_SCHEMES)`
unfoldable pub is_allowed : String → Bool
unfolding starts_with looks_remote
is_allowed ref = looks_remote ref || starts_with "file://" ref

unfoldable pub document : String → Found → Document
unfolding looks_remote first
document ref missing = error ref "not found"
document ref (failed message) = error ref message
document ref (content text) =
    ok ref (looks_remote ref) (ltb max_chars (count text)) (count text) (first max_chars text)

unfoldable pub read_document : (String → Found) → String → Document
unfolding strip has_scheme is_allowed document
read_document read reference =
    let ref = strip reference in
    if ref == ""
    then error reference "empty reference"
    else if has_scheme ref && not (is_allowed ref)
    then error ref "unsupported scheme; expected one of gs://, s3://, az://, https://, file://"
    else document ref (read ref)
