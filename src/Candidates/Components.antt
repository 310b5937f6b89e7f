-- ===== src/Candidates/Components.antt =====
-- _evidence_list_matches, _validate_components, _validate_component_links, _validate_temporal_order
-- and _validate_traces of extraction/validation.py. A check returns the errors that it appends, in
-- order; a set of strings is the list of what was added to it, read with `member` alone.
use mnemonic_os.Base.{
  ℕ, suc, Bool, false, ◌||◌, Option, none, some, List, [], ◌∷◌, ◌++◌, Text, codes, is_empty,
  or_text, member, decimal, if◌then◌else◌,
}
use mnemonic_os.Candidates.Json.{
  Value, arr, cons, Fields, as_list, as_object, get, or_value, str_or_empty, clean,
}

-- `SUPPORTED_COMPONENT_TYPES`
abbrev pub supported_component_types : List Text
supported_component_types =
    codes "user_request"
    ∷ codes "agent_action"
    ∷ codes "failure"
    ∷ codes "observation"
    ∷ codes "web_finding"
    ∷ codes "milestone"
    ∷ codes "instruction"
    ∷ codes "definition"
    ∷ codes "claim"
    ∷ codes "experiment"
    ∷ codes "derivation"
    ∷ codes "theorem"
    ∷ codes "example"
    ∷ codes "procedure_step"
    ∷ codes "open_question"
    ∷ []

-- `{component_id or index}` in an f-string.
abbrev pub name_or : Text → ℕ → Text
name_or id index = or_text id (decimal index)

-- A list that is not empty: the guard `not isinstance(v, list) or not v`.
abbrev pub filled_list : Value → Option (List Value)
filled_list (arr (cons v vs)) = as_list (arr (cons v vs))
filled_list _ = none

-- A component's id under `_validate_components`: the set of ids after it, and its errors.
unfoldable pub add_id : (Text → Text) → Text → Text → List Text → List Text × List Text
add_id duplicate missing id ids =
    if is_empty id
    then (ids, missing ∷ [])
    else if member id ids
    then (ids, duplicate id ∷ [])
    else (id ∷ ids, [])

module _ (repr : Value → Text) where
  -- The id under which an entry of evidence is looked up: the first of five fields that is set.
  unfoldable pub evidence_id : Fields → Text
  evidence_id entry = str_or_empty repr (
      or_value (get (codes "id") entry) (
        or_value (get (codes "window_id") entry) (
          or_value (get (codes "source_locator") entry)
            (or_value (get (codes "marker") entry) (get (codes "artifact_id") entry)))))

  -- An entry of evidence, with what the loop finds after it.
  abbrev pub match_entry : List Text → Option Fields → List Text × Bool → List Text × Bool
  match_entry evidence_ids none (errors, matched) =
      (codes "evidence_entry_not_object" ∷ errors, matched)
  match_entry evidence_ids (some entry) (errors, matched) =
      (errors, member (evidence_id entry) evidence_ids || matched)

  -- The loop of `_evidence_list_matches`: its errors, and whether an entry matches.
  unfoldable pub match_entries : List Text → List Value → List Text × Bool
  match_entries evidence_ids [] = ([], false)
  match_entries evidence_ids (entry ∷ rest) =
      match_entry evidence_ids (as_object entry) (match_entries evidence_ids rest)

  -- What is checked of the evidence of a component, of a list that is not empty.
  abbrev pub bound_errors : List Text → Text → Option (List Value) → List Text
  bound_errors evidence_ids name none = (codes "component_evidence_missing: " ++ name) ∷ []
  bound_errors evidence_ids name (some entries) =
      let (errors, matched) = match_entries evidence_ids entries in
      errors
      ++ (if matched
          then []
          else ((codes "component_evidence_not_bound_to_projection: " ++ name) ∷ []))

  unfoldable pub component_evidence : List Text → Text → Fields → List Text
  unfolding match_entries
  component_evidence evidence_ids name component =
      bound_errors evidence_ids name (filled_list (get (codes "evidence") component))

  abbrev pub component_name : ℕ → Fields → Text
  component_name index component = name_or (clean repr (codes "component_id") component) index

  -- What is checked of the type and the text of a component.
  unfoldable pub shape_errors : ℕ → Fields → List Text
  shape_errors index component =
      let kind = clean repr (codes "component_type") component in
      (if member kind supported_component_types
        then []
        else ((codes "unsupported_component_type: " ++ or_text kind (codes "<empty>")) ∷ []))
      ++ (if is_empty (clean repr (codes "text") component)
          then ((codes "component_missing_text: " ++ component_name index component) ∷ [])
          else [])

  -- What is checked of a component after its id.
  unfoldable pub component_errors : List Text → ℕ → Fields → List Text
  unfolding component_evidence shape_errors
  component_errors evidence_ids index component =
      shape_errors index component
      ++ component_evidence evidence_ids (component_name index component) component

  abbrev pub component_id_step : ℕ → Fields → List Text → List Text × List Text
  component_id_step index component =
      add_id (λ id. codes "component_duplicate_id: " ++ id)
        (codes "component_missing_id: " ++ decimal index)
        (clean repr (codes "component_id") component)

  -- A component that is an object or not, and the rest of the loop, which takes the ids.
  abbrev pub validate_one :
      List Text
      → ℕ
      → Option Fields
      → List Text
      → (List Text → List Text × List Text)
      → List Text × List Text
  validate_one evidence_ids index none ids rest =
      ((rest ids).0, (codes "component_not_object: " ++ decimal index) ∷ (rest ids).1)
  validate_one evidence_ids index (some fs) ids rest =
      let (ids', own) = component_id_step index fs ids in
      let (after, errors) = rest ids' in
      (after, own ++ (component_errors evidence_ids index fs ++ errors))

  -- The loop of `_validate_components`, on the ids that were seen before it.
  unfoldable pub validate_each : List Text → ℕ → List Value → List Text → List Text × List Text
  unfolding add_id component_errors
  validate_each evidence_ids index [] ids = (ids, [])
  validate_each evidence_ids index (c ∷ cs) ids =
      validate_one evidence_ids index (as_object c) ids (validate_each evidence_ids (suc index) cs)

  abbrev pub validated_list : List Text → Option (List Value) → List Text × List Text
  validated_list evidence_ids none = ([], codes "components_missing" ∷ [])
  validated_list evidence_ids (some cs) = validate_each evidence_ids 0 cs []

  unfoldable pub validate_components : List Text → Value → List Text × List Text
  unfolding validate_each
  validate_components evidence_ids components = validated_list evidence_ids (filled_list components)
