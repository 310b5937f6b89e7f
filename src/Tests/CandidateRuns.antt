-- ===== src/Tests/CandidateRuns.antt =====
-- Runs of the validation of candidates and of the gate on concrete inputs.
use mnemonic_os.Base.{
  ℕ, ◌⊎◌, ◌≡◌, refl, true, false, none, some, List, [], ◌∷◌, ◌++◌, arith, All, length, Text, codes,
  strip, strip_left, strip_right, is_empty, member, Distinct,
}
use mnemonic_os.Candidates.Json.{
  pos, Value, int, text, arr, obj, nil, cons, Fields, end, field, get, set, str_of, truthy,
}
use mnemonic_os.Candidates.Components.{
  filled_list, add_id, evidence_id, match_entries, component_evidence, shape_errors,
  component_errors, validate_each, validate_components,
}
use mnemonic_os.Candidates.Links.{
  each_link, links_of_each, validate_component_links, dangling, validate_temporal_order, each_trace,
  validate_traces, optional_list, listed,
}
use mnemonic_os.Candidates.Attribution.{
  Floats, Floated, too_large, not_a_float, Attribution, clean_entries, clean_optional, clean_object,
  confidence_of, validate_retrieval_attribution,
}
use mnemonic_os.Candidates.Overflow.{HasOverflow}
use mnemonic_os.Candidates.Validate.{
  ModelCandidate, with_attribution, promotion_ready, type_errors, confidence_errors, source_errors,
  evidence_errors, component_checks, checks, validate_candidate, warning_prefix,
}
use mnemonic_os.Candidates.Gate.{run_gate}
use mnemonic_os.Candidates.Status.{HasStatus, validate_candidate-status}
use mnemonic_os.Candidates.Passing.{run_gate-ready}
use mnemonic_os.Candidates.References.{validate_candidate-references, Each, KnownTrace}
use mnemonic_os.Candidates.Relations.{
  Converted, number, refused, Relation, keep_each, read_indices, validate_intra_source_relations,
  Sound, Fresh, validate_intra_source_relations-kept,
}

abbrev shown : Value → Text
shown v = codes "{}"

-- Every integer is a huge one, and no other value is a float.
abbrev hundredths_of : Value → Floated ℕ
hundredths_of (int n) = too_large
hundredths_of _ = not_a_float

-- Floats by their number of hundredths.
abbrev hundredths : Floats
hundredths = record {
  Float = ℕ;
  zero = 0;
  to_float = hundredths_of;
  clamp = λ x. x;
  shown = λ x. codes "0.0";
}

abbrev one : Value → Value
one v = arr (cons v nil)

abbrev word : Text → Value
word s = text s

abbrev evidence : Value
evidence = one (obj (field (codes "window_id") (word (codes "w")) end))

abbrev component : Value
component = obj (
    field (codes "component_id") (word (codes "c")) (
      field (codes "component_type") (word (codes "claim"))
        (field (codes "text") (word (codes "t")) (field (codes "evidence") evidence end))))

abbrev trace : Value
trace = obj (
    field (codes "trace_id") (word (codes "p"))
      (field (codes "component_ids") (one (word (codes "c"))) end))

-- A candidate with a component, a trace, an order, and an attribution of a wrong type.
abbrev payload : Fields
payload = field (codes "type") (word (codes "concept")) (
    field (codes "title") (word (codes "T")) (
      field (codes "summary") (word (codes "S")) (
        field (codes "body") (word (codes "B")) (
          field (codes "confidence") (word (codes "high")) (
            field (codes "source_refs") (one (word (codes "r"))) (
              field (codes "evidence") evidence (
                field (codes "components") (one component) (
                  field (codes "temporal_order") (one (word (codes "c"))) (
                    field (codes "traces") (one trace)
                      (field (codes "retrieval_attribution") (word (codes "x")) end))))))))))

abbrev known : List Text
known = codes "w" ∷ []

abbrev ready : ModelCandidate
ready = record {
  candidate_type = codes "concept";
  title = codes "T";
  payload = set (codes "retrieval_attribution") (arr nil) payload;
  validation_status = promotion_ready;
  validation_errors = (warning_prefix ++ codes "retrieval_attribution_not_list") ∷ [];
}

payload-ready : validate_candidate shown hundredths (codes "r") known payload ≡ some ready
unfolding validate_candidate checks type_errors confidence_errors source_errors evidence_errors
    component_checks validate_components validate_each component_errors shape_errors
    component_evidence match_entries evidence_id add_id validate_component_links links_of_each
    each_link validate_temporal_order dangling validate_traces each_trace
    validate_retrieval_attribution clean_entries clean_optional with_attribution truthy str_of strip
    strip_left strip_right
payload-ready = refl

-- The same payload, with an attribution whose confidence is huge.
abbrev huge : Fields
huge =
    set (codes "retrieval_attribution")
      (one (
        obj (
          field (codes "note_id") (word (codes "n")) (
            field (codes "evidence_type") (word (codes "paraphrase"))
              (field (codes "confidence") (int (pos 2)) end)))))
      payload

huge-escapes : validate_candidate shown hundredths (codes "r") known huge ≡ none
unfolding validate_candidate validate_retrieval_attribution clean_entries clean_optional
    clean_object confidence_of truthy str_of strip strip_left strip_right
huge-escapes = refl

known-Stripped : All (λ s. (strip s ≡ s) × (is_empty s ≡ false)) known
unfolding strip strip_left strip_right
known-Stripped = ((refl, refl), tt)

run_gate-ready_example :
    run_gate shown none ready.payload ≡ some (record { ok = true; errors = [] })
run_gate-ready_example =
    run_gate-ready shown hundredths (codes "r") known payload none ready known-Stripped refl
      (omega arith) payload-ready refl

validate_candidate-status_example :
    ((validate_candidate shown hundredths (codes "r") known payload ≡ none)
      × ((entries : List Value) × (optional_list (get (codes "retrieval_attribution") payload)
            ≡ listed entries)
          × HasOverflow shown hundredths entries))
    ⊎ ((c : ModelCandidate) × (warnings : List Text) × (cleaned : List (Attribution ℕ))
        × (validate_candidate shown hundredths (codes "r") known payload ≡ some c)
        × (validate_retrieval_attribution shown hundredths
              (get (codes "retrieval_attribution") payload)
            ≡ some (warnings, cleaned))
        × HasStatus shown hundredths (codes "r") known payload warnings c)
validate_candidate-status_example =
    validate_candidate-status shown hundredths (codes "r") known payload

validate_candidate-references_example :
    let ids = (validate_components shown known (get (codes "components") payload)).0 in
    Distinct ids
    × ((cs : List Value) × (filled_list (get (codes "components") payload) ≡ some cs)
        × (length ids ≡ length cs))
    × Each shown ids
        (λ raw. member (str_of shown raw) ids ≡ true)
        (optional_list (get (codes "temporal_order") payload))
    × Each shown ids (KnownTrace shown ids) (optional_list (get (codes "traces") payload))
validate_candidate-references_example =
    validate_candidate-references shown hundredths (codes "r") known payload ready payload-ready
      refl

-- Two entries, the second a repetition; a third that joins a candidate to itself.
abbrev entry : ℕ → ℕ → Value
entry a b = obj (
    field (codes "source_index") (int (pos a)) (
      field (codes "target_index") (int (pos b))
        (field (codes "relation_type") (word (codes "refines")) end)))

abbrev to_int : Value → Converted
to_int (int n) = number n
to_int _ = refused

abbrev refines : Relation
refines = record {
  source_index = 0;
  target_index = 1;
  relation_type = codes "refines";
  rationale = none;
}

abbrev entries : List Value
entries = entry 0 1 ∷ entry 0 1 ∷ entry 1 1 ∷ []

entries-kept : validate_intra_source_relations shown to_int entries 2 ≡ some (refines ∷ [])
unfolding validate_intra_source_relations keep_each read_indices truthy str_of strip strip_left
    strip_right
entries-kept = refl

validate_intra_source_relations-kept_example :
    All (Sound 2) (refines ∷ []) × Fresh [] (refines ∷ [])
validate_intra_source_relations-kept_example =
    validate_intra_source_relations-kept shown to_int entries 2 (refines ∷ []) entries-kept
