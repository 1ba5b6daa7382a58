-- ===== src/Shared/Logging/Payload.antt =====
-- app/shared/logging.py: how a record is written for Cloud Logging. `current_trace_ids` of
-- app/shared/telemetry.py stamps it with the active span.
pub mod Traced
use adk_a2a_gke.Prelude.{String, true, ◌==◌, if◌then◌else◌, Option, none, some, [], ◌∷◌}
use adk_a2a_gke.Json.{Json, bool, str, obj, Fields, end, field, get_field}
use adk_a2a_gke.Text.{concat}
use adk_a2a_gke.Cluster.Database.{Letters}

-- A span's ids in hexadecimal, where there is a valid span.
abbrev pub Span : Type 0
Span = Option (String × String)

unfoldable pub current_trace_ids : Span → String × String
current_trace_ids none = ("", "")
current_trace_ids (some ids) = ids

-- A loguru record; `exception` is its formatted traceback.
pub record Record (N : Type 0) : Type 0 where
  pub level : String
  pub message : String
  pub time : String
  pub file : String
  pub line : String
  pub function : String
  pub extra : Fields N
  pub exception : Option String

-- `_GCP_SEVERITY.get(level_name.upper(), "DEFAULT")`
unfoldable pub severity_of : String → String
severity_of name =
    if name == "TRACE"
    then "DEBUG"
    else if name == "DEBUG"
    then "DEBUG"
    else if name == "INFO"
    then "INFO"
    else if name == "SUCCESS"
    then "NOTICE"
    else if name == "WARNING"
    then "WARNING"
    else if name == "ERROR"
    then "ERROR"
    else if name == "CRITICAL"
    then "CRITICAL"
    else "DEFAULT"

unfoldable pub gcp_severity : Letters → String → String
unfolding severity_of
gcp_severity letters name = severity_of (letters.upper name)

unfoldable pub trace_field : String → String → String
unfolding concat
trace_field project trace_id =
    if project == "" then trace_id else concat ("projects/" ∷ project ∷ "/traces/" ∷ trace_id ∷ [])

module _ {N : Type 0} where
  -- `d[key] = value`
  unfoldable pub set_field : String → Json N → Fields N → Fields N
  set_field k v end = field k v end
  set_field k v (field j w fs) =
      let rest = set_field k v fs in if j == k then field k v fs else field j w rest

  -- `d.pop(key, "")`: what is left
  unfoldable pub without : String → Fields N → Fields N
  without k end = end
  without k (field j w fs) = let rest = without k fs in if j == k then fs else field j w rest

  -- `patch`
  unfoldable pub patch : String → Span → Record N → Record N
  unfolding current_trace_ids set_field
  patch project span r =
      let (trace_id, span_id) = current_trace_ids span in
      record r {
        extra =
            set_field "gcp_project" (str project)
              (set_field "span_id" (str span_id) (set_field "trace_id" (str trace_id) r.extra));
      }

  -- `extra.pop(key, "")` as a text, which `patch` makes it
  abbrev pub text_in : Option (Json N) → String
  text_in (some (str s)) = s
  text_in _ = ""

  -- the fields that follow in the payload
  abbrev pub traced : String → String → String → Fields N → Fields N
  traced project trace_id span_id rest =
      if trace_id == ""
      then rest
      else field "logging.googleapis.com/trace" (str (trace_field project trace_id)) (
          field "logging.googleapis.com/spanId" (str span_id)
            (field "logging.googleapis.com/trace_sampled" (bool true) rest))

  abbrev pub with_extra : Fields N → Fields N → Fields N
  with_extra end rest = rest
  with_extra (field k v fs) rest = field "extra" (obj (field k v fs)) rest

  abbrev pub with_exception : Option String → Fields N
  with_exception none = end
  with_exception (some text) = field "exception" (str text) end

  unfoldable pub build_gcp_payload : Letters → Record N → Fields N
  unfolding gcp_severity trace_field get_field without
  build_gcp_payload letters r =
      let trace_id = text_in (get_field "trace_id" r.extra) in
      let span_id = text_in (get_field "span_id" (without "trace_id" r.extra)) in
      let rest = without "span_id" (without "trace_id" r.extra) in
      let project = text_in (get_field "gcp_project" rest) in
      field "severity" (str (gcp_severity letters r.level)) (
        field "message" (str r.message) (
          field "timestamp" (str r.time) (
            field "logging.googleapis.com/sourceLocation"
              (obj (
                field "file" (str r.file)
                  (field "line" (str r.line) (field "function" (str r.function) end))))
              (traced project trace_id span_id
                (with_extra (without "gcp_project" rest) (with_exception r.exception))))))
