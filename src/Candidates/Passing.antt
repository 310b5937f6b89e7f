-- ===== src/Candidates/Passing.antt =====
-- A candidate that validate_candidate (extraction/validation.py) finds ready passes run_gate
-- (promotion/gate.py).
use mnemonic_os.Base.{
  ◌≤◌, ◌≡◌, refl, sym, ap, ◌∙◌, inl, inr, true, false, Option, none, some, List, [], ◌∷◌, ◌++◌,
  arith, Bool-cases, length, Text, codes, text_eq, text_eq_sound, member, if◌then◌else◌,
}
use mnemonic_os.Candidates.Json.{Value, Fields, end, field, as_list, get, set, has_key, clean}
use mnemonic_os.Candidates.Components.{filled_list, validate_components}
use mnemonic_os.Candidates.Links.{validate_component_links, validate_temporal_order}
use mnemonic_os.Candidates.Attribution.{Cleaned, Attribution, Floats, Attribution}
use mnemonic_os.Candidates.Validate.{
  promotion_ready, missing_errors, required_fields, type_errors, confidence_errors, source_errors,
  evidence_errors, binding_errors, component_checks, checks, status_of, validate_candidate,
  ModelCandidate, candidate_of, with_attribution, with_attribution, supported_candidate_types,
}
use mnemonic_os.Candidates.Gate.{
  PromotionPolicy, policy_of, evidence_of, ids_of_entries, entry_ids, evidence_ids_from_payload,
  unsupported_candidate_type, gate_checks, count_errors, limit_errors, items_of, component_list,
  gate_result, run_gate,
}
use mnemonic_os.Candidates.Agreement.{Stripped, append-nil, Within-append}
use mnemonic_os.Candidates.Ready.{filled_list-iterate, no_error, validated_list-Agree}
use mnemonic_os.Candidates.Status.{returned-status}

-- Another key is read as before.
get-set_other :
    (k key : Text) (v : Value) (fs : Fields)
    → text_eq k key ≡ false
    → get k (set key v fs) ≡ get k fs
get-set_other k key v end h = rw h
get-set_other k key v (field k' v' fs) h = elim (Bool-cases (text_eq key k')) [
  | inl e ↦
      let other : text_eq k k' ≡ false = ap (text_eq k) (sym (text_eq_sound key k' e)) ∙ h in
      rw (e, other)
  | inr e ↦ rw (e, get-set_other k key v fs h)
]

get-with_attribution :
    (repr : Value → Text) (fl : Floats) (k : Text) (cleaned : List (Attribution fl.Float))
    (fs : Fields)
    → text_eq k (codes "retrieval_attribution") ≡ false
    → get k (with_attribution repr fl cleaned fs) ≡ get k fs
unfolding with_attribution
get-with_attribution repr fl k [] fs h =
    elim (Bool-cases (has_key (codes "retrieval_attribution") fs)) [
      | inl e ↦ rw e (get-set_other k (codes "retrieval_attribution") _ fs h)
      | inr e ↦ rw e
    ]
get-with_attribution repr fl k (a ∷ as') fs h =
    get-set_other k (codes "retrieval_attribution") _ fs h

module _ (repr : Value → Text) (p q : Fields)
    (same : (k : Text)
      → text_eq k (codes "retrieval_attribution") ≡ false
      → get k p ≡ get k q) where
  ids_same : evidence_ids_from_payload repr p ≡ evidence_ids_from_payload repr q
  unfolding evidence_ids_from_payload evidence_of
  ids_same = rw (same (codes "evidence") refl, same (codes "components") refl)

  type_same : unsupported_candidate_type repr p ≡ unsupported_candidate_type repr q
  unfolding unsupported_candidate_type
  type_same = rw (same (codes "type") refl)

  checks_same : (ids : List Text) → gate_checks repr ids p ≡ gate_checks repr ids q
  unfolding gate_checks
  checks_same ids = rw (
    same (codes "components") refl,
    same (codes "traces") refl,
    same (codes "temporal_order") refl,
  )

  count_same : (policy : PromotionPolicy) → count_errors policy p ≡ count_errors policy q
  unfolding count_errors
  count_same policy =
      ap (λ v. limit_errors policy.max_components_per_candidate (length (items_of (as_list v))))
        (same (codes "components") refl)

  gate_result_same :
      (policy : PromotionPolicy) (o : Option (List Text))
      → gate_result repr policy p o ≡ gate_result repr policy q o
  gate_result_same policy none = refl
  gate_result_same policy (some ids) = rw (type_same, checks_same ids, count_same policy)

  -- The gate does not read the attribution.
  run_gate_same :
      (config : Option PromotionPolicy) → run_gate repr config p ≡ run_gate repr config q
  unfolding run_gate
  run_gate_same config =
      let policy = policy_of config in
      ap
        (λ r.
          if policy.enabled
          then r
          else some (record { ok = false; errors = codes "promotion_policy_disabled" ∷ [] }))
        (ap (gate_result repr policy p) ids_same
          ∙ gate_result_same policy (evidence_ids_from_payload repr q))

status_of-ready : (errors : List Text) → status_of errors ≡ promotion_ready → errors ≡ []
status_of-ready [] h = refl
status_of-ready (e ∷ es) h = cc

-- The errors of the gate and of the validation on the same parts of the payload.
module _ (repr : Value → Text) (E : List Text) (payload : Fields) (clean_ids : Stripped E) where
  abbrev components : Value
  components = get (codes "components") payload

  evidence_read :
      evidence_errors repr E payload ≡ []
      → (ids : List Text) × (evidence_of repr payload ≡ some ids)
  unfolding evidence_errors evidence_of
  evidence_read h = go (filled_list (get (codes "evidence") payload)) refl h
    where
      go :
          (o : Option (List Value))
          → filled_list (get (codes "evidence") payload) ≡ o
          → binding_errors repr E o ≡ []
          → (ids : List Text) × (evidence_of repr payload ≡ some ids)
      go none e h' = absurd cc
      go (some es) e h' = (
        entry_ids repr es,
        ap (ids_of_entries repr) (filled_list-iterate (get (codes "evidence") payload) es e),
      )

  -- What the gate collects, under which the components are judged as under `E`.
  collected :
      evidence_errors repr E payload ≡ []
      → (validate_components repr E components).1 ≡ []
      → (G : List Text) × (evidence_ids_from_payload repr payload ≡ some G)
        × (validate_components repr G components ≡ validate_components repr E components)
  unfolding evidence_ids_from_payload validate_components
  collected evidence_ok components_ok =
      let (ids, read) = evidence_read evidence_ok in
      let (cs, listed, (more, read_more, agree)) =
        validated_list-Agree repr E clean_ids (filled_list components) components_ok in
      (
        ids ++ more,
        rw (read, filled_list-iterate components cs listed, read_more),
        agree (ids ++ more) (Within-append ids more),
      )

  gate_checks-Agree :
      evidence_errors repr E payload ≡ []
      → component_checks repr E payload ≡ []
      → (G : List Text) × (evidence_ids_from_payload repr payload ≡ some G)
        × (gate_checks repr G payload ≡ [])
  unfolding component_checks gate_checks
  gate_checks-Agree evidence_ok checks_ok =
      let found = validate_components repr E components in
      let (own, rest) = append-nil found.1 _ checks_ok in
      let (links, rest') = append-nil (validate_component_links repr components found.0) _ rest in
      let (order, traces) =
        append-nil (validate_temporal_order repr (get (codes "temporal_order") payload) found.0) _
          rest' in
      let (G, read, agree) = collected evidence_ok own in
      (G, read, rw (agree, own, links, order, traces))

type_errors-gate :
    (repr : Value → Text) (payload : Fields)
    → type_errors repr payload ≡ []
    → unsupported_candidate_type repr payload ≡ []
unfolding type_errors unsupported_candidate_type
type_errors-gate repr payload h =
    let kind = clean repr (codes "type") payload in
    rw (no_error (member kind supported_candidate_types) _ h)

count_errors-few :
    (policy : PromotionPolicy) (payload : Fields)
    → length (component_list payload) ≤ policy.max_components_per_candidate
    → count_errors policy payload ≡ []
unfolding count_errors
count_errors-few policy payload few = ground arith

-- A candidate that is ready has no error of any check.
pub ready-checks :
    (repr : Value → Text) (fl : Floats) (active : Text) (E : List Text) (payload : Fields)
    (c : ModelCandidate)
    → validate_candidate repr fl active E payload ≡ some c
    → c.validation_status ≡ promotion_ready
    → checks repr active E payload ≡ []
ready-checks repr fl active E payload c found ready =
    status_of-ready (checks repr active E payload)
      (sym (returned-status repr fl active E payload c found) ∙ ready)

-- The errors about evidence and about components, where no check gives one.
pub checks-parts :
    (repr : Value → Text) (active : Text) (E : List Text) (payload : Fields)
    → checks repr active E payload ≡ []
    → (type_errors repr payload ≡ [])
      × (evidence_errors repr E payload ≡ [])
      × (component_checks repr E payload ≡ [])
unfolding checks
checks-parts repr active E payload none_failed =
    let (_, typed_on) = append-nil (missing_errors required_fields payload) _ none_failed in
    let (typed, sure_on) = append-nil (type_errors repr payload) _ typed_on in
    let (_, source_on) = append-nil (confidence_errors repr payload) _ sure_on in
    let (_, evidence_on) = append-nil (source_errors repr active payload) _ source_on in
    let (evidence_ok, checks_ok) = append-nil (evidence_errors repr E payload) _ evidence_on in
    (typed, evidence_ok, checks_ok)

-- The payload of a returned candidate differs from the one it is made of in its attribution alone.
returned-payload :
    (repr : Value → Text) (fl : Floats) (active : Text) (E : List Text) (payload : Fields)
    (c : ModelCandidate) (o : Option (Cleaned repr fl))
    → candidate_of repr fl active E payload o ≡ some c
    → (cleaned : List (Attribution fl.Float)) × (c.payload
        ≡ with_attribution repr fl cleaned payload)
returned-payload repr fl active E payload c none h = absurd cc
returned-payload repr fl active E payload c (some (warnings, cleaned)) h =
    (cleaned, sym (ap payload_in h))
  where
    payload_in : Option ModelCandidate → Fields
    payload_in none = payload
    payload_in (some x) = x.payload

-- A candidate that `validate_candidate` returns and marks as ready for promotion, against ids of the
-- projection that are stripped and not empty, passes the gate without an error and without a
-- `TypeError`, where the policy is enabled and the components are no more than its limit. The gate
-- judges the evidence by the ids in the payload itself, and reads the payload that
-- `validate_candidate` returns.
pub run_gate-ready :
    (repr : Value → Text) (fl : Floats) (active : Text) (E : List Text) (payload : Fields)
    (config : Option PromotionPolicy) (c : ModelCandidate)
    → Stripped E
    → (policy_of config).enabled ≡ true
    → length (component_list payload) ≤ (policy_of config).max_components_per_candidate
    → validate_candidate repr fl active E payload ≡ some c
    → c.validation_status ≡ promotion_ready
    → run_gate repr config c.payload ≡ some (record { ok = true; errors = [] })
unfolding validate_candidate run_gate
run_gate-ready repr fl active E payload config c clean_ids enabled few found ready =
    let (typed, evidence_ok, checks_ok) =
      checks-parts repr active E payload (ready-checks repr fl active E payload c found ready) in
    let (G, read, passed) = gate_checks-Agree repr E payload clean_ids evidence_ok checks_ok in
    let (cleaned, put) = returned-payload repr fl active E payload c _ found in
    run_gate_same repr c.payload payload
      (λ k other. ap (λ p. get k p) put ∙ get-with_attribution repr fl k cleaned payload other)
      config
    ∙ rw (
      enabled,
      read,
      type_errors-gate repr payload typed,
      passed,
      count_errors-few (policy_of config) payload few,
    )
