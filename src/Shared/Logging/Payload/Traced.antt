-- ===== src/Shared/Logging/Payload/Traced.antt =====
-- app/shared/logging.py: a record that was stamped in a span is written with the span's trace.
use adk_a2a_gke.Prelude.{
  String, false, ◌==◌, if◌then◌else◌, Option, none, some, ◌≡◌, refl, eq_iff, arith, Bool-cases, inl,
  inr, ◌∙◌,
}
use adk_a2a_gke.Json.{Json, str, Fields, end, field, get_field}
use adk_a2a_gke.Cluster.Database.{Letters}
use adk_a2a_gke.Shared.Logging.Payload.{
  Span, current_trace_ids, Record, trace_field, set_field, without, patch, traced, with_extra,
  with_exception, build_gcp_payload,
}

abbrev trace_key : String
trace_key = "logging.googleapis.com/trace"

abbrev span_key : String
span_key = "logging.googleapis.com/spanId"

module _ {N : Type 0} where
  -- setting a key and reading another, or the same
  get_field-set_field :
      (j k : String) (v : Json N) (fs : Fields N)
      → get_field j (set_field k v fs) ≡ (if k == j then some v else get_field j fs)
  unfolding get_field set_field
  get_field-set_field j k v end = refl
  get_field-set_field j k v (field i w fs) =
      ground (arith, eq_iff i k, eq_iff k j, eq_iff i j, get_field-set_field j k v fs)

  get_field-without :
      (j k : String) (fs : Fields N)
      → (k == j) ≡ false
      → get_field j (without k fs) ≡ get_field j fs
  unfolding get_field without
  get_field-without j k end e = refl
  get_field-without j k (field i w fs) e =
      ground (arith, eq_iff i k, eq_iff k j, eq_iff i j, get_field-without j k fs)

  -- the extra fields with the span's ids
  stamped : Span → Record N → Fields N
  stamped span r =
      set_field "span_id" (str (current_trace_ids span).1)
        (set_field "trace_id" (str (current_trace_ids span).0) r.extra)

  -- what `build_gcp_payload` takes out of the extra fields of a patched record
  patched_trace :
      (project : String) (span : Span) (r : Record N)
      → get_field "trace_id" (patch project span r).extra ≡ some (str (current_trace_ids span).0)
  unfolding patch stamped
  patched_trace project span r =
      get_field-set_field "trace_id" "gcp_project" (str project) (stamped span r)
      ∙ get_field-set_field "trace_id" "span_id" (str (current_trace_ids span).1)
          (set_field "trace_id" (str (current_trace_ids span).0) r.extra)
      ∙ get_field-set_field "trace_id" "trace_id" (str (current_trace_ids span).0) r.extra

  patched_span :
      (project : String) (span : Span) (r : Record N)
      → get_field "span_id" (without "trace_id" (patch project span r).extra)
        ≡ some (str (current_trace_ids span).1)
  unfolding patch stamped
  patched_span project span r =
      get_field-without "span_id" "trace_id" _ refl
      ∙ get_field-set_field "span_id" "gcp_project" (str project) (stamped span r)
      ∙ get_field-set_field "span_id" "span_id" (str (current_trace_ids span).1)
          (set_field "trace_id" (str (current_trace_ids span).0) r.extra)

  patched_project :
      (project : String) (span : Span) (r : Record N)
      → get_field "gcp_project"
          (without "span_id" (without "trace_id" (patch project span r).extra))
        ≡ some (str project)
  unfolding patch stamped
  patched_project project span r =
      get_field-without "gcp_project" "span_id" _ refl
      ∙ get_field-without "gcp_project" "trace_id" _ refl
      ∙ get_field-set_field "gcp_project" "gcp_project" (str project) (stamped span r)

  traced_lem :
      (project trace_id span_id : String) (extra : Fields N) (e : Option String)
      → (get_field trace_key (traced project trace_id span_id (with_extra extra (with_exception e)))
          ≡ (if trace_id == "" then none else some (str (trace_field project trace_id))))
        × (get_field span_key
              (traced project trace_id span_id (with_extra extra (with_exception e)))
            ≡ (if trace_id == "" then none else some (str span_id)))
  unfolding get_field
  traced_lem project trace_id span_id extra e = elim (Bool-cases (trace_id == "")) [
    | inl unset ↦ rw unset (absent extra e)
    | inr set ↦ rw set (refl, refl)
  ]
    where
      absent :
          (extra : Fields N) (e : Option String)
          → (get_field trace_key (with_extra extra (with_exception e)) ≡ none)
            × (get_field span_key (with_extra extra (with_exception e)) ≡ none)
      absent end none = (refl, refl)
      absent end (some text) = (refl, refl)
      absent (field k v fs) none = (refl, refl)
      absent (field k v fs) (some text) = (refl, refl)

  -- A record that the patcher stamped in a span is written with the span's trace, as
  -- `projects/<project>/traces/<id>` where there is a project, and with its span id; one that was
  -- stamped outside of any span has neither field, whatever its extra fields are.
  pub payload_traced :
      (letters : Letters) (project : String) (span : Span) (r : Record N)
      → (let (trace_id, span_id) = current_trace_ids span in
          let payload = build_gcp_payload letters (patch project span r) in
          (get_field trace_key payload
            ≡ (if trace_id == "" then none else some (str (trace_field project trace_id))))
          × (get_field span_key payload ≡ (if trace_id == "" then none else some (str span_id))))
  unfolding build_gcp_payload get_field patch
  payload_traced letters project span r =
      rw (patched_trace project span r, patched_span project span r, patched_project project span r)
        (traced_lem project (current_trace_ids span).0 (current_trace_ids span).1 _ r.exception)
