-- ===== src/Candidates/Gate.antt =====
-- promotion/gate.py: run_gate, which checks a candidate again before it is written to the wiki.
use mnemonic_os.Base.{
  ℕ, ltb, Bool, true, false, Option, none, some, List, [], ◌∷◌, ◌++◌, length, Text, codes, is_empty,
  or_text, member, decimal, if◌then◌else◌,
}
use mnemonic_os.Candidates.Json.{Value, Fields, as_list, as_object, get, clean, iterate}
use mnemonic_os.Candidates.Components.{validate_components}
use mnemonic_os.Candidates.Links.{
  validate_component_links, validate_temporal_order, validate_traces,
}
use mnemonic_os.Candidates.Validate.{supported_candidate_types}

-- What the gate reads of `config.promotion`; the defaults stand for a missing one.
pub record PromotionPolicy : Type 0 where
  pub enabled : Bool
  pub max_components_per_candidate : ℕ

abbrev pub default_policy : PromotionPolicy
default_policy = record { enabled = true; max_components_per_candidate = 50 }

abbrev pub policy_of : Option PromotionPolicy → PromotionPolicy
policy_of none = default_policy
policy_of (some p) = p

pub record GateResult : Type 0 where
  pub ok : Bool
  pub errors : List Text

-- The five fields of an entry of evidence that may name it.
abbrev pub evidence_keys : List Text
evidence_keys =
    codes "id"
    ∷ codes "window_id"
    ∷ codes "source_locator"
    ∷ codes "marker"
    ∷ codes "artifact_id"
    ∷ []

abbrev pub items_of : Option (List Value) → List Value
items_of none = []
items_of (some cs) = cs

-- `components if isinstance(components, list) else []`
abbrev pub component_list : Fields → List Value
component_list payload = items_of (as_list (get (codes "components") payload))

-- Check 6, for a limit and a number of components.
abbrev pub limit_errors : ℕ → ℕ → List Text
limit_errors most n =
    if ltb most n
    then (codes "component_count_exceeds_limit:" ++ (decimal n ++ (codes ">" ++ decimal most))) ∷ []
    else []

unfoldable pub count_errors : PromotionPolicy → Fields → List Text
count_errors policy payload =
    limit_errors policy.max_components_per_candidate (length (component_list payload))

module _ (repr : Value → Text) where
  unfoldable pub named_values : List Text → Fields → List Text
  named_values [] entry = []
  named_values (key ∷ keys) entry =
      let value = clean repr key entry in
      let rest = named_values keys entry in if is_empty value then rest else value ∷ rest

  abbrev pub ids_of_entry : Option Fields → List Text → List Text
  ids_of_entry none rest = rest
  ids_of_entry (some entry) rest = named_values evidence_keys entry ++ rest

  unfoldable pub entry_ids : List Value → List Text
  unfolding named_values
  entry_ids [] = []
  entry_ids (e ∷ es) = ids_of_entry (as_object e) (entry_ids es)

  abbrev pub ids_of_entries : Option (List Value) → Option (List Text)
  ids_of_entries none = none
  ids_of_entries (some entries) = some (entry_ids entries)

  -- `for entry in fields.get("evidence") or []`; `none` is a TypeError.
  unfoldable pub evidence_of : Fields → Option (List Text)
  unfolding entry_ids
  evidence_of fs = ids_of_entries (iterate (get (codes "evidence") fs))

  -- The ids of one part of the payload and of the next, where neither raises.
  abbrev pub both : Option (List Text) → Option (List Text) → Option (List Text)
  both none _ = none
  both (some ids) none = none
  both (some ids) (some more) = some (ids ++ more)

  abbrev pub ids_of_component : Option Fields → Option (List Text) → Option (List Text)
  ids_of_component none rest = rest
  ids_of_component (some fs) rest = both (evidence_of fs) rest

  unfoldable pub component_evidence_ids : List Value → Option (List Text)
  unfolding evidence_of
  component_evidence_ids [] = some []
  component_evidence_ids (c ∷ cs) = ids_of_component (as_object c) (component_evidence_ids cs)

  abbrev pub ids_of_components : Option (List Value) → Option (List Text)
  ids_of_components none = none
  ids_of_components (some cs) = component_evidence_ids cs

  -- `_evidence_ids_from_payload`
  unfoldable pub evidence_ids_from_payload : Fields → Option (List Text)
  unfolding component_evidence_ids
  evidence_ids_from_payload payload =
      both (evidence_of payload) (ids_of_components (iterate (get (codes "components") payload)))

  unfoldable pub unsupported_candidate_type : Fields → List Text
  unsupported_candidate_type payload =
      let kind = clean repr (codes "type") payload in
      if member kind supported_candidate_types
      then []
      else (codes "unsupported_candidate_type:" ++ or_text kind (codes "<empty>")) ∷ []

  -- Checks 1 to 5: traces come before the temporal order here.
  unfoldable pub gate_checks : List Text → Fields → List Text
  gate_checks evidence_ids payload =
      let components = get (codes "components") payload in
      let (ids, errors) = validate_components repr evidence_ids components in
      errors
      ++ (validate_component_links repr components ids
          ++ (validate_traces repr (get (codes "traces") payload) ids
              ++ validate_temporal_order repr (get (codes "temporal_order") payload) ids))

  abbrev pub verdict : List Text → GateResult
  verdict [] = record { ok = true; errors = [] }
  verdict (e ∷ es) = record { ok = false; errors = e ∷ es }

  abbrev pub gate_result : PromotionPolicy → Fields → Option (List Text) → Option GateResult
  gate_result policy payload none = none
  gate_result policy payload (some evidence_ids) = some (
      verdict (
        unsupported_candidate_type payload
        ++ (gate_checks evidence_ids payload ++ count_errors policy payload)))

  -- `none` is the TypeError of `_evidence_ids_from_payload`.
  unfoldable pub run_gate : Option PromotionPolicy → Fields → Option GateResult
  unfolding evidence_ids_from_payload unsupported_candidate_type gate_checks count_errors
  run_gate config payload =
      let policy = policy_of config in
      let result = gate_result policy payload (evidence_ids_from_payload payload) in
      if policy.enabled
      then result
      else some (record { ok = false; errors = codes "promotion_policy_disabled" ∷ [] })
