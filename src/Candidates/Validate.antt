-- ===== src/Candidates/Validate.antt =====
-- validate_candidate of extraction/validation.py: the candidate with its errors in order.
use mnemonic_os.Base.{
  Bool, true, false, not, Option, none, some, List, [], ◌∷◌, ◌++◌, map, select, Text, codes,
  or_text, member, starts_with, if◌then◌else◌,
}
use mnemonic_os.Candidates.Json.{
  Value, null, text, arr, nil, Fields, as_list, get, has_key, set, str_of, clean,
}
use mnemonic_os.Candidates.Components.{filled_list, match_entries, validate_components}
use mnemonic_os.Candidates.Links.{
  validate_component_links, validate_temporal_order, validate_traces,
}
use mnemonic_os.Candidates.Attribution.{
  Floats, validate_retrieval_attribution, attribution_value, Attribution, Cleaned,
}

-- `SUPPORTED_CANDIDATE_TYPES`
abbrev pub supported_candidate_types : List Text
supported_candidate_types =
    codes "source" ∷ codes "concept" ∷ codes "procedure" ∷ codes "decision" ∷ codes "incident" ∷ []

-- `SUPPORTED_CONFIDENCE`
abbrev pub supported_confidence : List Text
supported_confidence = codes "low" ∷ codes "medium" ∷ codes "high" ∷ []

pub data ValidationStatus : Type 0 where
  promotion_ready invalid : ValidationStatus

pub record ModelCandidate : Type 0 where
  pub candidate_type : Text
  pub title : Text
  pub payload : Fields
  pub validation_status : ValidationStatus
  pub validation_errors : List Text

abbrev pub required_fields : List Text
required_fields =
    codes "type"
    ∷ codes "title"
    ∷ codes "summary"
    ∷ codes "body"
    ∷ codes "confidence"
    ∷ codes "source_refs"
    ∷ codes "evidence"
    ∷ codes "components"
    ∷ []

-- `value is None or value == "" or value == []`
abbrev pub is_missing : Value → Bool
is_missing null = true
is_missing (text []) = true
is_missing (arr nil) = true
is_missing _ = false

abbrev pub missing_errors : List Text → Fields → List Text
missing_errors [] payload = []
missing_errors (key ∷ rest) payload =
    let errors = missing_errors rest payload in
    if is_missing (get key payload)
    then (codes "missing_required_field: " ++ key) ∷ errors
    else errors

abbrev pub warning_prefix : Text
warning_prefix = codes "retrieval_attribution_warning:"

abbrev pub is_hard : Text → Bool
is_hard e = not (starts_with warning_prefix e)

abbrev pub status_of : List Text → ValidationStatus
status_of [] = promotion_ready
status_of (_ ∷ _) = invalid

module _ (repr : Value → Text) where
  unfoldable pub type_errors : Fields → List Text
  type_errors payload =
      let kind = clean repr (codes "type") payload in
      if member kind supported_candidate_types
      then []
      else (codes "unsupported_type: " ++ kind) ∷ []

  unfoldable pub confidence_errors : Fields → List Text
  confidence_errors payload =
      let confidence = clean repr (codes "confidence") payload in
      if member confidence supported_confidence
      then []
      else (codes "unsupported_confidence: " ++ confidence) ∷ []

  abbrev pub ref_errors : Text → Option (List Value) → List Text
  ref_errors active_source_ref none = codes "source_refs_missing_active_source" ∷ []
  ref_errors active_source_ref (some refs) =
      if member active_source_ref (map (str_of repr) refs)
      then []
      else codes "source_refs_missing_active_source" ∷ []

  unfoldable pub source_errors : Text → Fields → List Text
  source_errors active_source_ref payload =
      ref_errors active_source_ref (as_list (get (codes "source_refs") payload))

  abbrev pub binding_errors : List Text → Option (List Value) → List Text
  binding_errors evidence_ids none = codes "evidence_missing" ∷ []
  binding_errors evidence_ids (some entries) =
      let (errors, matched) = match_entries repr evidence_ids entries in
      errors ++ (if matched then [] else codes "evidence_not_bound_to_projection" ∷ [])

  unfoldable pub evidence_errors : List Text → Fields → List Text
  evidence_errors evidence_ids payload =
      binding_errors evidence_ids (filled_list (get (codes "evidence") payload))

  -- The errors of the four checks on components, in the order of `validate_candidate`.
  unfoldable pub component_checks : List Text → Fields → List Text
  component_checks evidence_ids payload =
      let components = get (codes "components") payload in
      let (ids, errors) = validate_components repr evidence_ids components in
      errors
      ++ (validate_component_links repr components ids
          ++ (validate_temporal_order repr (get (codes "temporal_order") payload) ids
              ++ validate_traces repr (get (codes "traces") payload) ids))

  -- All that is appended to `errors` before the attribution is read.
  unfoldable pub checks : Text → List Text → Fields → List Text
  unfolding type_errors confidence_errors source_errors evidence_errors component_checks
  checks active_source_ref evidence_ids payload =
      missing_errors required_fields payload
      ++ (type_errors payload
          ++ (confidence_errors payload
              ++ (source_errors active_source_ref payload
                  ++ (evidence_errors evidence_ids payload
                      ++ component_checks evidence_ids payload))))

  -- The payload with the cleaned attribution in it.
  unfoldable pub with_attribution : (fl : Floats) → List (Attribution fl.Float) → Fields → Fields
  with_attribution fl [] payload =
      if has_key (codes "retrieval_attribution") payload
      then set (codes "retrieval_attribution") (attribution_value repr fl []) payload
      else payload
  with_attribution fl (a ∷ cleaned) payload =
      set (codes "retrieval_attribution") (attribution_value repr fl (a ∷ cleaned)) payload

  -- The candidate, once its attribution is cleaned.
  abbrev pub candidate_of :
      (fl : Floats) → Text → List Text → Fields → Option (Cleaned repr fl) → Option ModelCandidate
  candidate_of fl active_source_ref evidence_ids payload none = none
  candidate_of fl active_source_ref evidence_ids payload (some (warnings, cleaned)) =
      let errors =
        checks active_source_ref evidence_ids payload ++ map (λ w. warning_prefix ++ w) warnings in
      some (record {
        candidate_type = or_text (clean repr (codes "type") payload) (codes "unknown");
        title = or_text (clean repr (codes "title") payload) (codes "Untitled candidate");
        payload = with_attribution fl cleaned payload;
        validation_status = status_of (select is_hard errors);
        validation_errors = errors;
      })

  -- `none` where an OverflowError escapes.
  unfoldable pub validate_candidate : Floats → Text → List Text → Fields → Option ModelCandidate
  unfolding checks with_attribution validate_retrieval_attribution
  validate_candidate fl active_source_ref evidence_ids payload =
      candidate_of fl active_source_ref evidence_ids payload
        (validate_retrieval_attribution repr fl (get (codes "retrieval_attribution") payload))
