-- ===== src/Candidates/Status.antt =====
-- The status that validate_candidate of extraction/validation.py gives.
use mnemonic_os.Base.{
  ◌≡◌, refl, ap, ◌∙◌, sym, subst, ◌⊎◌, inl, inr, Option, none, some, List, [], ◌∷◌, ◌++◌, map,
  Bool-cases, select, select_every, select-append, Text, codes, member,
}
use mnemonic_os.Candidates.Json.{Value, Fields, as_list, get, str_of, clean}
use mnemonic_os.Candidates.Components.{filled_list, match_entries, validate_components}
use mnemonic_os.Candidates.Links.{
  optional_list, listed, validate_component_links, validate_temporal_order, validate_traces,
}
use mnemonic_os.Candidates.Attribution.{
  Attribution, Floats, Cleaned, validate_retrieval_attribution,
}
use mnemonic_os.Candidates.Overflow.{HasOverflow, validate_retrieval_attribution-none}
use mnemonic_os.Candidates.Validate.{
  ModelCandidate, candidate_of, ValidationStatus, invalid, missing_errors, is_missing, is_hard,
  warning_prefix, type_errors, confidence_errors, ref_errors, source_errors, binding_errors,
  evidence_errors, component_checks, checks, status_of, validate_candidate, required_fields,
  supported_candidate_types, supported_confidence,
}
use mnemonic_os.Candidates.Hard.{
  Hard, Hard-if, Hard-append, match_entries-Hard, validated_list-Hard, links_of_list-Hard,
  order_errors-Hard, traces_errors-Hard,
}

missing_errors-Hard : (keys : List Text) (payload : Fields) → Hard (missing_errors keys payload)
missing_errors-Hard [] payload = tt
missing_errors-Hard (k ∷ ks) payload = elim (Bool-cases (is_missing (get k payload))) [
  | inl e ↦ rw e (refl, missing_errors-Hard ks payload)
  | inr e ↦ rw e (missing_errors-Hard ks payload)
]

no_warnings : (warnings : List Text) → select is_hard (map (λ w. warning_prefix ++ w) warnings) ≡ []
no_warnings [] = refl
no_warnings (w ∷ ws) = no_warnings ws

module _ (repr : Value → Text) where
  ref_errors-Hard : (active : Text) (o : Option (List Value)) → Hard (ref_errors repr active o)
  ref_errors-Hard active none = (refl, tt)
  ref_errors-Hard active (some refs) = Hard-if (member active (map (str_of repr) refs)) _ refl

  binding_errors-Hard : (E : List Text) (o : Option (List Value)) → Hard (binding_errors repr E o)
  binding_errors-Hard E none = (refl, tt)
  binding_errors-Hard E (some es) =
      Hard-append _ _ (match_entries-Hard repr E es) (Hard-if (match_entries repr E es).1 _ refl)

  component_checks-Hard :
      (E : List Text) (payload : Fields) → Hard (component_checks repr E payload)
  unfolding component_checks validate_components validate_component_links validate_temporal_order
      validate_traces
  component_checks-Hard E payload =
      let components = get (codes "components") payload in
      let ids = (validate_components repr E components).0 in
      Hard-append _ _ (validated_list-Hard repr E (filled_list components)) (
        Hard-append _ _ (links_of_list-Hard repr ids (as_list components)) (
          Hard-append _ _
            (order_errors-Hard repr ids (optional_list (get (codes "temporal_order") payload)))
            (traces_errors-Hard repr ids (optional_list (get (codes "traces") payload)))))

  checks-Hard :
      (active : Text) (E : List Text) (payload : Fields) → Hard (checks repr active E payload)
  unfolding checks type_errors confidence_errors source_errors evidence_errors
  checks-Hard active E payload = Hard-append _ _ (missing_errors-Hard required_fields payload) (
      Hard-append _ _
        (Hard-if (member (clean repr (codes "type") payload) supported_candidate_types) _ refl)
        (Hard-append _ _
          (Hard-if (member (clean repr (codes "confidence") payload) supported_confidence) _ refl)
          (Hard-append _ _ (ref_errors-Hard active (as_list (get (codes "source_refs") payload))) (
            Hard-append _ _ (binding_errors-Hard E (filled_list (get (codes "evidence") payload)))
              (component_checks-Hard E payload)))))

  candidate_of-status :
      (fl : Floats) (active : Text) (E : List Text) (payload : Fields) (warnings : List Text)
      → status_of
          (select is_hard (checks repr active E payload ++ map (λ w. warning_prefix ++ w) warnings))
        ≡ status_of (checks repr active E payload)
  candidate_of-status fl active E payload warnings =
      let hard =
        select-append is_hard (checks repr active E payload)
          (map (λ w. warning_prefix ++ w) warnings) in
      ap status_of (
        hard
        ∙ ap (λ t. select is_hard (checks repr active E payload) ++ t) (no_warnings warnings)
        ∙ append_nil (select is_hard (checks repr active E payload))
        ∙ select_every is_hard (checks repr active E payload) (checks-Hard active E payload))
    where
      append_nil : (xs : List Text) → xs ++ [] ≡ xs
      append_nil [] = refl
      append_nil (x ∷ xs) = ap (λ t. x ∷ t) (append_nil xs)

  module _ (fl : Floats) (active : Text) (E : List Text) where
    -- What becomes of a candidate whose attribution is cleaned with some warnings.
    abbrev pub HasStatus : Fields → List Text → ModelCandidate → Type 0
    HasStatus payload warnings c =
        (c.validation_status ≡ status_of (checks repr active E payload))
        × (c.validation_errors
            ≡ checks repr active E payload ++ map (λ w. warning_prefix ++ w) warnings)

    -- A payload is refused by an exception, the OverflowError of `float`, only if its retrieval
    -- attribution is a list with an object whose confidence is too large for a float. Any other
    -- payload has a candidate, whose status is decided by the checks on its fields, evidence,
    -- components, order and traces alone: it is ready for promotion exactly when none of them gives
    -- an error, whatever warnings the attribution gives, all of which stay in its list of errors.
    pub validate_candidate-status :
        (payload : Fields)
        → let raw = get (codes "retrieval_attribution") payload in
          ((validate_candidate repr fl active E payload ≡ none)
            × ((entries : List Value) × (optional_list raw ≡ listed entries)
                × HasOverflow repr fl entries))
          ⊎ ((c : ModelCandidate) × (warnings : List Text) × (cleaned : List (Attribution fl.Float))
              × (validate_candidate repr fl active E payload ≡ some c)
              × (validate_retrieval_attribution repr fl raw ≡ some (warnings, cleaned))
              × HasStatus payload warnings c)
    unfolding validate_candidate
    validate_candidate-status payload =
        go (validate_retrieval_attribution repr fl (get (codes "retrieval_attribution") payload))
          refl
      where
        go :
            (o : Option (Cleaned repr fl))
            → validate_retrieval_attribution repr fl (get (codes "retrieval_attribution") payload)
              ≡ o
            → ((candidate_of repr fl active E payload o ≡ none)
                × ((entries : List Value) × (optional_list
                        (get (codes "retrieval_attribution") payload)
                      ≡ listed entries)
                    × HasOverflow repr fl entries))
              ⊎ ((c : ModelCandidate) × (warnings : List Text) × (cleaned : List
                    (Attribution fl.Float))
                  × (candidate_of repr fl active E payload o ≡ some c)
                  × (validate_retrieval_attribution repr fl
                        (get (codes "retrieval_attribution") payload)
                      ≡ some (warnings, cleaned))
                  × HasStatus payload warnings c)
        go none e = inl (refl, validate_retrieval_attribution-none repr fl _ e)
        go (some (warnings, cleaned)) e = inr (
          _,
          warnings,
          cleaned,
          refl,
          e,
          (candidate_of-status fl active E payload warnings, refl),
        )

    -- A candidate that is returned has the status that its checks give.
    pub returned-status :
        (payload : Fields) (c : ModelCandidate)
        → validate_candidate repr fl active E payload ≡ some c
        → c.validation_status ≡ status_of (checks repr active E payload)
    returned-status payload c h = elim (validate_candidate-status payload) [
      | inl (failed, _) ↦ let clash : none ≡ some c = sym failed ∙ h in absurd cc
      | inr (c', _, _, found, _, (status, _)) ↦
          let same : some c' ≡ some c = sym found ∙ h in
          subst
            (λ (o : Option ModelCandidate). status_in o ≡ status_of (checks repr active E payload))
            same status
    ]
      where
        status_in : Option ModelCandidate → ValidationStatus
        status_in none = invalid
        status_in (some x) = x.validation_status
