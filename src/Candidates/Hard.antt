-- ===== src/Candidates/Hard.antt =====
-- No check of extraction/validation.py but that of the attribution gives a warning: the status of a
-- candidate is that of those checks.
use mnemonic_os.Base.{
  ℕ, suc, ◌≡◌, refl, inl, inr, Bool, true, false, not, ◌&&◌, Option, none, some, List, [], ◌∷◌,
  ◌++◌, All, Bool-cases, append-All, Text, codes, is_empty, member, if◌then◌else◌,
}
use mnemonic_os.Candidates.Json.{Value, Fields, as_object, get, str_of, clean}
use mnemonic_os.Candidates.Components.{
  filled_list, add_id, match_entry, match_entries, bound_errors, component_evidence, shape_errors,
  component_errors, component_id_step, validate_one, validate_each, validated_list,
  supported_component_types,
}
use mnemonic_os.Candidates.Links.{
  Optional, absent, not_list, listed, optional_list, link_errors, each_link, optional_links,
  component_links, links_of_each, links_of_list, dangling, order_errors, trace_members,
  trace_errors, each_trace, traces_errors, link_name, trace_id_step,
}
use mnemonic_os.Candidates.Validate.{is_hard}

abbrev pub Hard : List Text → Type 0
Hard = All (λ e. is_hard e ≡ true)

pub Hard-if : (b : Bool) (e : Text) → is_hard e ≡ true → Hard (if b then [] else (e ∷ []))
Hard-if true e h = tt
Hard-if false e h = (h, tt)

Hard-if_not : (b : Bool) (e : Text) → is_hard e ≡ true → Hard (if b then (e ∷ []) else [])
Hard-if_not true e h = (h, tt)
Hard-if_not false e h = tt

pub Hard-append : (xs ys : List Text) → Hard xs → Hard ys → Hard (xs ++ ys)
Hard-append = append-All _

add_id-Hard :
    (duplicate : Text → Text) (missing id : Text) (ids : List Text)
    → is_hard missing ≡ true
    → is_hard (duplicate id) ≡ true
    → Hard (add_id duplicate missing id ids).1
unfolding add_id
add_id-Hard duplicate missing id ids h k = elim (Bool-cases (is_empty id)) [
  | inl e ↦ rw e (h, tt)
  | inr e ↦ elim (Bool-cases (member id ids)) [ inl f ↦ rw (e, f) (k, tt) | inr f ↦ rw (e, f) tt ]
]

module _ (repr : Value → Text) (E : List Text) where
  match_entry-Hard :
      (o : Option Fields) (r : List Text × Bool) → Hard r.0 → Hard (match_entry repr E o r).0
  match_entry-Hard none r h = (refl, h)
  match_entry-Hard (some fs) r h = h

  pub match_entries-Hard : (es : List Value) → Hard (match_entries repr E es).0
  unfolding match_entries
  match_entries-Hard [] = tt
  match_entries-Hard (e ∷ es) = match_entry-Hard (as_object e) _ (match_entries-Hard es)

  bound_errors-Hard : (name : Text) (o : Option (List Value)) → Hard (bound_errors repr E name o)
  bound_errors-Hard name none = (refl, tt)
  bound_errors-Hard name (some es) =
      Hard-append _ _ (match_entries-Hard es) (Hard-if (match_entries repr E es).1 _ refl)

  component_errors-Hard : (index : ℕ) (fs : Fields) → Hard (component_errors repr E index fs)
  unfolding component_errors shape_errors component_evidence
  component_errors-Hard index fs =
      Hard-append _ _
        (Hard-append _ _
          (Hard-if (member (clean repr (codes "component_type") fs) supported_component_types) _
            refl)
          (Hard-if_not (is_empty (clean repr (codes "text") fs)) _ refl))
        (bound_errors-Hard _ (filled_list (get (codes "evidence") fs)))

  validate_one-Hard :
      (index : ℕ) (o : Option Fields) (ids : List Text) (rest : List Text → List Text × List Text)
      → ((s : List Text) → Hard (rest s).1)
      → Hard (validate_one repr E index o ids rest).1
  validate_one-Hard index none ids rest h = (refl, h ids)
  validate_one-Hard index (some fs) ids rest h =
      Hard-append _ _ (add_id-Hard _ _ _ ids refl refl) (
        Hard-append _ _ (component_errors-Hard index fs)
          (h (component_id_step repr index fs ids).0))

  validate_each-Hard :
      (cs : List Value) (index : ℕ) (ids : List Text) → Hard (validate_each repr E index cs ids).1
  unfolding validate_each
  validate_each-Hard [] index ids = tt
  validate_each-Hard (c ∷ cs) index ids =
      validate_one-Hard index (as_object c) ids _ (validate_each-Hard cs (suc index))

  pub validated_list-Hard : (o : Option (List Value)) → Hard (validated_list repr E o).1
  validated_list-Hard none = (refl, tt)
  validated_list-Hard (some cs) = validate_each-Hard cs 0 []

-- What refers to components.
module _ (repr : Value → Text) (ids : List Text) where
  link_errors-Hard : (name : Text) (o : Option Fields) → Hard (link_errors repr ids name o)
  link_errors-Hard name none = (refl, tt)
  link_errors-Hard name (some fs) =
      let target = clean repr (codes "target") fs in
      Hard-if_not (not (is_empty target) && not (member target ids)) _ refl

  each_link-Hard : (name : Text) (links : List Value) → Hard (each_link repr ids name links)
  unfolding each_link
  each_link-Hard name [] = tt
  each_link-Hard name (l ∷ ls) =
      Hard-append _ _ (link_errors-Hard name (as_object l)) (each_link-Hard name ls)

  optional_links-Hard : (name : Text) (o : Optional) → Hard (optional_links repr ids name o)
  optional_links-Hard name absent = tt
  optional_links-Hard name not_list = (refl, tt)
  optional_links-Hard name (listed links) = each_link-Hard name links

  component_links-Hard : (o : Option Fields) → Hard (component_links repr ids o)
  component_links-Hard none = tt
  component_links-Hard (some fs) =
      optional_links-Hard (link_name repr fs) (optional_list (get (codes "links") fs))

  links_of_each-Hard : (cs : List Value) → Hard (links_of_each repr ids cs)
  unfolding links_of_each
  links_of_each-Hard [] = tt
  links_of_each-Hard (c ∷ cs) =
      Hard-append _ _ (component_links-Hard (as_object c)) (links_of_each-Hard cs)

  pub links_of_list-Hard : (o : Option (List Value)) → Hard (links_of_list repr ids o)
  links_of_list-Hard none = tt
  links_of_list-Hard (some cs) = links_of_each-Hard cs

  dangling-Hard :
      (message : Text → Text)
      → ((id : Text) → is_hard (message id) ≡ true)
      → (raws : List Value) → Hard (dangling repr message ids raws)
  unfolding dangling
  dangling-Hard message h [] = tt
  dangling-Hard message h (r ∷ rs) = elim (Bool-cases (member (str_of repr r) ids)) [
    | inl e ↦ rw e (dangling-Hard message h rs)
    | inr e ↦ rw e (h (str_of repr r), dangling-Hard message h rs)
  ]

  pub order_errors-Hard : (o : Optional) → Hard (order_errors repr ids o)
  order_errors-Hard absent = tt
  order_errors-Hard not_list = (refl, tt)
  order_errors-Hard (listed raws) = dangling-Hard _ (λ id. refl) raws

  trace_members-Hard :
      (name : Text) (o : Option (List Value)) → Hard (trace_members repr ids name o)
  trace_members-Hard name none = (refl, tt)
  trace_members-Hard name (some raws) = dangling-Hard _ (λ id. refl) raws

  trace_errors-Hard :
      (index : ℕ) (o : Option Fields) (seen : List Text) (rest : List Text → List Text)
      → ((s : List Text) → Hard (rest s))
      → Hard (trace_errors repr ids index o seen rest)
  trace_errors-Hard index none seen rest h = (refl, h seen)
  trace_errors-Hard index (some t) seen rest h =
      Hard-append _ _ (add_id-Hard _ _ _ seen refl refl) (
        Hard-append _ _ (trace_members-Hard _ (filled_list (get (codes "component_ids") t)))
          (h (trace_id_step repr index t seen).0))

  each_trace-Hard :
      (ts : List Value) (index : ℕ) (seen : List Text) → Hard (each_trace repr ids index ts seen)
  unfolding each_trace
  each_trace-Hard [] index seen = tt
  each_trace-Hard (t ∷ ts) index seen =
      trace_errors-Hard index (as_object t) seen _ (each_trace-Hard ts (suc index))

  pub traces_errors-Hard : (o : Optional) → Hard (traces_errors repr ids o)
  traces_errors-Hard absent = tt
  traces_errors-Hard not_list = (refl, tt)
  traces_errors-Hard (listed ts) = each_trace-Hard ts 0 []
