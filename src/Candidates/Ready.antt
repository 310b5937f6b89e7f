-- ===== src/Candidates/Ready.antt =====
-- A candidate that validate_candidate finds ready passes run_gate (extraction/validation.py and
-- promotion/gate.py).
use mnemonic_os.Base.{
  ℕ, suc, ◌≡◌, refl, sym, ap, ◌∙◌, Bool, true, false, Option, none, some, List, [], ◌∷◌, ◌++◌, Text,
  codes, if◌then◌else◌,
}
use mnemonic_os.Candidates.Json.{
  Value, null, bool, int, float, text, arr, obj, nil, cons, Fields, as_object, get, iterate,
}
use mnemonic_os.Candidates.Components.{
  filled_list, match_entries, bound_errors, component_evidence, component_errors, shape_errors,
  component_name, validate_one, validated_list, validate_each, component_id_step,
}
use mnemonic_os.Candidates.Gate.{
  entry_ids, evidence_of, component_evidence_ids, ids_of_entries, ids_of_component,
}
use mnemonic_os.Candidates.Agreement.{
  Stripped, Within, Within-left, Within-right, append-nil, match_entries-errors, match_entries-gate,
}

pub filled_list-iterate :
    (v : Value) (es : List Value) → filled_list v ≡ some es → iterate v ≡ some es
unfolding iterate
filled_list-iterate (arr (cons v vs)) es h = h
filled_list-iterate (arr nil) es h = cc
filled_list-iterate null es h = cc
filled_list-iterate (bool b) es h = cc
filled_list-iterate (int n) es h = cc
filled_list-iterate (float s) es h = cc
filled_list-iterate (text s) es h = cc
filled_list-iterate (obj fs) es h = cc

pub no_error : (b : Bool) (e : Text) → (if b then [] else (e ∷ [])) ≡ [] → b ≡ true
no_error true e h = refl
no_error false e h = cc

module _ (repr : Value → Text) (E : List Text) (clean_ids : Stripped E) where
  pub bound_errors-Agree :
      (name : Text) (o : Option (List Value))
      → bound_errors repr E name o ≡ []
      → (es : List Value) × (o ≡ some es)
        × ((G : List Text) → Within (entry_ids repr es) G → bound_errors repr G name o ≡ [])
  bound_errors-Agree name none h = absurd cc
  bound_errors-Agree name (some es) h =
      let (none_listed, bound) = append-nil (match_entries repr E es).0 _ h in
      let matched = no_error (match_entries repr E es).1 _ bound in
      (
        es,
        refl,
        λ G within.
            rw (match_entries-gate repr E G es clean_ids within matched)
              (rw (match_entries-errors repr E G es, none_listed)),
      )

  component_errors-Agree :
      (index : ℕ) (fs : Fields)
      → component_errors repr E index fs ≡ []
      → (ids : List Text) × (evidence_of repr fs ≡ some ids)
        × ((G : List Text) → Within ids G → component_errors repr G index fs ≡ [])
  unfolding component_errors component_evidence evidence_of
  component_errors-Agree index fs h =
      let (shaped, bound) = append-nil (shape_errors repr index fs) _ h in
      let (es, listed, agree) =
        bound_errors-Agree (component_name repr index fs) (filled_list (get (codes "evidence") fs))
          bound in
      (
        entry_ids repr es,
        ap (ids_of_entries repr) (filled_list-iterate (get (codes "evidence") fs) es listed),
        λ G within.
            ap (λ t. t ++ component_evidence repr G (component_name repr index fs) fs) shaped
            ∙ agree G within,
      )

  -- What the gate reads of components, and that it does not judge them otherwise.
  abbrev pub Agree :
      Option (List Text) → (List Text → List Text × List Text) → List Text × List Text → Type 0
  Agree collected gate found =
      (ids : List Text) × (collected ≡ some ids) × ((G : List Text) → Within ids G → gate G ≡ found)

  validate_one-Agree :
      (index : ℕ) (o : Option Fields) (seen : List Text) (collected : Option (List Text))
      (rest : List Text → List Text → List Text × List Text)
      → ((s : List Text) → (rest E s).1 ≡ [] → Agree collected (λ G. rest G s) (rest E s))
      → (validate_one repr E index o seen (rest E)).1 ≡ []
      → Agree
          (ids_of_component repr o collected)
          (λ G. validate_one repr G index o seen (rest G))
          (validate_one repr E index o seen (rest E))
  validate_one-Agree index none seen collected rest later h = absurd cc
  validate_one-Agree index (some fs) seen collected rest later h =
      let step = component_id_step repr index fs seen in
      let (no_id, after) = append-nil step.1 _ h in
      let (own, rest_clean) = append-nil (component_errors repr E index fs) _ after in
      let (ids, read, agree) = component_errors-Agree index fs own in
      let (more, read_more, agree_more) = later step.0 rest_clean in
      (
        ids ++ more,
        rw (read, read_more),
        λ G within.
            let r = rest G step.0 in
            ap (λ own'. (r.0, step.1 ++ (own' ++ r.1)))
              (agree G (Within-left ids more G within) ∙ sym own)
            ∙ ap (λ r'. (r'.0, step.1 ++ (component_errors repr E index fs ++ r'.1)))
                (agree_more G (Within-right ids more G within)),
      )

  pub validate_each-Agree :
      (cs : List Value) (index : ℕ) (seen : List Text)
      → (validate_each repr E index cs seen).1 ≡ []
      → Agree
          (component_evidence_ids repr cs)
          (λ G. validate_each repr G index cs seen)
          (validate_each repr E index cs seen)
  unfolding validate_each component_evidence_ids
  validate_each-Agree [] index seen h = ([], refl, λ G within. refl)
  validate_each-Agree (c ∷ cs) index seen h =
      validate_one-Agree index (as_object c) seen (component_evidence_ids repr cs)
        (λ G. validate_each repr G (suc index) cs) (validate_each-Agree cs (suc index)) h

  pub validated_list-Agree :
      (o : Option (List Value))
      → (validated_list repr E o).1 ≡ []
      → (cs : List Value) × (o ≡ some cs)
        × Agree
            (component_evidence_ids repr cs)
            (λ G. validated_list repr G o)
            (validated_list repr E o)
  validated_list-Agree none h = absurd cc
  validated_list-Agree (some cs) h = (cs, refl, validate_each-Agree cs 0 [] h)
