-- ===== src/Candidates/References.antt =====
-- What the ids in a candidate that validate_candidate (extraction/validation.py) finds ready name.
use mnemonic_os.Base.{
  ℕ, suc, ◌+◌, ◌≡◌, refl, inl, inr, true, Option, none, some, List, [], ◌∷◌, arith, All, Bool-cases,
  length, Text, codes, is_empty, member, Distinct,
}
use mnemonic_os.Candidates.Json.{Value, Fields, as_object, get, str_of}
use mnemonic_os.Candidates.Components.{
  filled_list, add_id, component_errors, component_id_step, validate_one, validate_each,
  validated_list, validate_components,
}
use mnemonic_os.Candidates.Links.{
  Optional, absent, not_list, listed, optional_list, validate_component_links, dangling,
  order_errors, validate_temporal_order, trace_members, trace_errors, each_trace, traces_errors,
  validate_traces, trace_id_step,
}
use mnemonic_os.Candidates.Attribution.{Floats}
use mnemonic_os.Candidates.Validate.{
  ModelCandidate, promotion_ready, component_checks, validate_candidate,
}
use mnemonic_os.Candidates.Agreement.{append-nil}
use mnemonic_os.Candidates.Passing.{ready-checks, checks-parts}

module _ (duplicate : Text → Text) (missing id : Text) (ids : List Text) where
  add_id-Distinct : Distinct ids → Distinct (add_id duplicate missing id ids).0
  unfolding add_id
  add_id-Distinct h = elim (Bool-cases (is_empty id)) [
    | inl e ↦ rw e h
    | inr e ↦ elim (Bool-cases (member id ids)) [ inl f ↦ rw (e, f) h | inr f ↦ rw (e, f) (f, h) ]
  ]

  -- An id is added unless an error is.
  add_id-length :
      (add_id duplicate missing id ids).1 ≡ []
      → length (add_id duplicate missing id ids).0 ≡ suc (length ids)
  unfolding add_id
  add_id-length h = ground (arith, h)

-- The ids are distinct, and there is one for each of the components.
abbrev OneForEach : ℕ → List Text × List Text → Type 0
OneForEach n (ids, errors) = Distinct ids × (errors ≡ [] → length ids ≡ n)

module _ (repr : Value → Text) (E : List Text) where
  validate_one-OneForEach :
      (index n : ℕ) (o : Option Fields) (seen : List Text)
      (rest : List Text → List Text × List Text)
      → ((s : List Text) → Distinct s → OneForEach (length s + n) (rest s))
      → Distinct seen
      → OneForEach (length seen + suc n) (validate_one repr E index o seen rest)
  validate_one-OneForEach index n none seen rest h apart = ((h seen apart).0, λ e. absurd cc)
  validate_one-OneForEach index n (some fs) seen rest h apart =
      let step = component_id_step repr index fs seen in
      let later = h step.0 (add_id-Distinct _ _ _ seen apart) in
      (
        later.0,
        λ e.
            let (own, after) = append-nil step.1 _ e in
            let (_, none_later) = append-nil (component_errors repr E index fs) _ after in
            let grown = add_id-length _ _ _ seen own in
            let same = later.1 none_later in omega (arith, grown, same),
      )

  validate_each-OneForEach :
      (cs : List Value) (index : ℕ) (seen : List Text)
      → Distinct seen
      → OneForEach (length seen + length cs) (validate_each repr E index cs seen)
  unfolding validate_each
  validate_each-OneForEach [] index seen apart = (apart, λ e. omega arith)
  validate_each-OneForEach (c ∷ cs) index seen apart =
      validate_one-OneForEach index (length cs) (as_object c) seen _
        (validate_each-OneForEach cs (suc index)) apart

  validated_list-OneForEach :
      (o : Option (List Value))
      → (validated_list repr E o).1 ≡ []
      → Distinct (validated_list repr E o).0
        × ((cs : List Value) × (o ≡ some cs) × (length (validated_list repr E o).0 ≡ length cs))
  validated_list-OneForEach none h = absurd cc
  validated_list-OneForEach (some cs) h =
      let (apart, same) = validate_each-OneForEach cs 0 [] tt in
      let sized = same h in (apart, (cs, refl, omega (arith, sized)))

module _ (repr : Value → Text) (ids : List Text) where
  abbrev pub Known : List Value → Type 0
  Known = All (λ raw. member (str_of repr raw) ids ≡ true)

  dangling-Known :
      (message : Text → Text) (raws : List Value) → dangling repr message ids raws ≡ [] → Known raws
  unfolding dangling
  dangling-Known message [] h = tt
  dangling-Known message (r ∷ rs) h = elim (Bool-cases (member (str_of repr r) ids)) [
    | inl e ↦ (e, dangling-Known message rs (ground arith))
    | inr e ↦ absurd (ground arith)
  ]

  -- A trace is an object that lists members, all of them known.
  abbrev pub KnownTrace : Value → Type 0
  KnownTrace t =
      (fs : Fields) × (raws : List Value) × (as_object t ≡ some fs)
      × (filled_list (get (codes "component_ids") fs) ≡ some raws)
      × Known raws

  trace_errors-Known :
      (index : ℕ) (o : Option Fields) (seen : List Text) (rest : List Text → List Text)
      → trace_errors repr ids index o seen rest ≡ []
      → ((fs : Fields) × (raws : List Value) × (o ≡ some fs)
          × (filled_list (get (codes "component_ids") fs) ≡ some raws)
          × Known raws)
        × ((s : List Text) × (rest s ≡ []))
  trace_errors-Known index none seen rest h = absurd cc
  trace_errors-Known index (some fs) seen rest h =
      let step = trace_id_step repr index fs seen in
      let (_, after) = append-nil step.1 _ h in
      let (members, later) = append-nil (trace_members repr ids _ (filled_list _)) _ after in
      let (raws, there, known) = trace_members-Known _ (filled_list _) members in
      ((fs, raws, refl, there, known), (step.0, later))
    where
      trace_members-Known :
          (name : Text) (o : Option (List Value))
          → trace_members repr ids name o ≡ []
          → (raws : List Value) × (o ≡ some raws) × Known raws
      trace_members-Known name none h' = absurd cc
      trace_members-Known name (some raws) h' = (raws, refl, dangling-Known _ raws h')

  each_trace-Known :
      (ts : List Value) (index : ℕ) (seen : List Text)
      → each_trace repr ids index ts seen ≡ []
      → All KnownTrace ts
  unfolding each_trace
  each_trace-Known [] index seen h = tt
  each_trace-Known (t ∷ ts) index seen h =
      let (known, (s, later)) =
        trace_errors-Known index (as_object t) seen (each_trace repr ids (suc index) ts) h in
      (known, each_trace-Known ts (suc index) s later)

  -- An optional list that is absent, or whose items are all as `P` says.
  abbrev pub Each : (Value → Type 0) → Optional → Type 0
  Each P absent = Unit
  Each P not_list = ⊥
  Each P (listed vs) = All P vs

  order_errors-Known :
      (o : Optional)
      → order_errors repr ids o ≡ []
      → Each (λ raw. member (str_of repr raw) ids ≡ true) o
  order_errors-Known absent h = tt
  order_errors-Known not_list h = absurd cc
  order_errors-Known (listed raws) h = dangling-Known _ raws h

  traces_errors-Known : (o : Optional) → traces_errors repr ids o ≡ [] → Each KnownTrace o
  traces_errors-Known absent h = tt
  traces_errors-Known not_list h = absurd cc
  traces_errors-Known (listed ts) h = each_trace-Known ts 0 [] h

-- In a candidate that is returned as ready for promotion, the ids of the components are distinct, and there is
-- one for each of its components; every id in its temporal order, where it has one, is the id of a
-- component; and every trace, where it has any, is an object that lists at least one member, all of
-- them ids of components.
pub validate_candidate-references :
    (repr : Value → Text) (fl : Floats) (active : Text) (E : List Text) (payload : Fields)
    (c : ModelCandidate)
    → validate_candidate repr fl active E payload ≡ some c
    → c.validation_status ≡ promotion_ready
    → let ids = (validate_components repr E (get (codes "components") payload)).0 in
      Distinct ids
      × ((cs : List Value) × (filled_list (get (codes "components") payload) ≡ some cs)
          × (length ids ≡ length cs))
      × Each repr ids
          (λ raw. member (str_of repr raw) ids ≡ true)
          (optional_list (get (codes "temporal_order") payload))
      × Each repr ids (KnownTrace repr ids) (optional_list (get (codes "traces") payload))
unfolding component_checks validate_components validate_temporal_order validate_traces
validate_candidate-references repr fl active E payload c found_c ready =
    let (_, _, checks_ok) =
      checks-parts repr active E payload (ready-checks repr fl active E payload c found_c ready) in
    let components = get (codes "components") payload in
    let found = validate_components repr E components in
    let (own, rest) = append-nil found.1 _ checks_ok in
    let (_, rest') = append-nil (validate_component_links repr components found.0) _ rest in
    let (order, traces) =
      append-nil (validate_temporal_order repr (get (codes "temporal_order") payload) found.0) _
        rest' in
    let (apart, one) = validated_list-OneForEach repr E (filled_list components) own in
    (
      apart,
      one,
      order_errors-Known repr found.0 (optional_list (get (codes "temporal_order") payload)) order,
      traces_errors-Known repr found.0 (optional_list (get (codes "traces") payload)) traces,
    )
