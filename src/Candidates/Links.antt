-- ===== src/Candidates/Links.antt =====
-- _validate_component_links, _validate_temporal_order and _validate_traces of
-- extraction/validation.py: what refers to a component refers to a known one.
use mnemonic_os.Base.{
  ℕ, suc, not, ◌&&◌, Option, none, some, List, [], ◌∷◌, ◌++◌, Text, codes, is_empty, member,
  decimal, if◌then◌else◌,
}
use mnemonic_os.Candidates.Json.{
  Value, null, Fields, as_list, as_object, get, truthy, str_of, clean,
}
use mnemonic_os.Candidates.Components.{filled_list, add_id, name_or}

-- An optional list: absent, a value of another type, or its items.
pub data Optional : Type 0 where
  absent : Optional
  not_list : Optional
  listed : List Value → Optional

abbrev pub optional_list : Value → Optional
optional_list null = absent
optional_list v = elim (as_list v) [ none ↦ not_list | some vs ↦ listed vs ]

module _ (repr : Value → Text) where
  -- A link of a component, whose name is for the message.
  abbrev pub link_errors : List Text → Text → Option Fields → List Text
  link_errors ids name none = (codes "component_link_not_object: " ++ name) ∷ []
  link_errors ids name (some link) =
      let target = clean repr (codes "target") link in
      if not (is_empty target) && not (member target ids)
      then (codes "component_link_dangling: " ++ (name ++ (codes "->" ++ target))) ∷ []
      else []

  unfoldable pub each_link : List Text → Text → List Value → List Text
  each_link ids name [] = []
  each_link ids name (link ∷ links) =
      link_errors ids name (as_object link) ++ each_link ids name links

  -- `str(component.get("component_id") or "<unknown>")`
  abbrev pub link_name : Fields → Text
  link_name component =
      let id = get (codes "component_id") component in
      if truthy id then str_of repr id else codes "<unknown>"

  abbrev pub optional_links : List Text → Text → Optional → List Text
  optional_links ids name absent = []
  optional_links ids name not_list = (codes "component_links_not_list: " ++ name) ∷ []
  optional_links ids name (listed links) = each_link ids name links

  abbrev pub component_links : List Text → Option Fields → List Text
  component_links ids none = []
  component_links ids (some component) =
      optional_links ids (link_name component) (optional_list (get (codes "links") component))

  unfoldable pub links_of_each : List Text → List Value → List Text
  unfolding each_link
  links_of_each ids [] = []
  links_of_each ids (c ∷ cs) = component_links ids (as_object c) ++ links_of_each ids cs

  abbrev pub links_of_list : List Text → Option (List Value) → List Text
  links_of_list ids none = []
  links_of_list ids (some cs) = links_of_each ids cs

  unfoldable pub validate_component_links : Value → List Text → List Text
  unfolding links_of_each
  validate_component_links components ids = links_of_list ids (as_list components)

  -- The references among `raw_ids` to no known component; `message` is the error for one.
  unfoldable pub dangling : (Text → Text) → List Text → List Value → List Text
  dangling message ids [] = []
  dangling message ids (raw ∷ raws) =
      let rest = dangling message ids raws in
      if member (str_of repr raw) ids then rest else message (str_of repr raw) ∷ rest

  abbrev pub order_errors : List Text → Optional → List Text
  order_errors ids absent = []
  order_errors ids not_list = codes "temporal_order_not_list" ∷ []
  order_errors ids (listed raws) = dangling (λ id. codes "temporal_order_dangling: " ++ id) ids raws

  unfoldable pub validate_temporal_order : Value → List Text → List Text
  unfolding dangling
  validate_temporal_order order ids = order_errors ids (optional_list order)

  -- What is checked of the members of a trace, of a list that is not empty.
  abbrev pub trace_members : List Text → Text → Option (List Value) → List Text
  trace_members ids name none = (codes "trace_components_missing: " ++ name) ∷ []
  trace_members ids name (some raws) =
      dangling (λ id. codes "trace_component_dangling: " ++ (name ++ (codes "->" ++ id))) ids raws

  abbrev pub trace_id_step : ℕ → Fields → List Text → List Text × List Text
  trace_id_step index trace =
      add_id (λ id. codes "trace_duplicate_id: " ++ id)
        (codes "trace_missing_id: " ++ decimal index) (clean repr (codes "trace_id") trace)

  -- A trace that is an object or not, and the rest of the loop, which takes the ids of traces.
  abbrev pub trace_errors :
      List Text → ℕ → Option Fields → List Text → (List Text → List Text) → List Text
  trace_errors ids index none seen rest = (codes "trace_not_object: " ++ decimal index) ∷ rest seen
  trace_errors ids index (some trace) seen rest =
      let (seen', own) = trace_id_step index trace seen in
      let name = name_or (clean repr (codes "trace_id") trace) index in
      own
      ++ (trace_members ids name (filled_list (get (codes "component_ids") trace)) ++ rest seen')

  -- The loop of `_validate_traces`, on the ids of the traces before.
  unfoldable pub each_trace : List Text → ℕ → List Value → List Text → List Text
  unfolding add_id dangling
  each_trace ids index [] seen = []
  each_trace ids index (t ∷ ts) seen =
      trace_errors ids index (as_object t) seen (each_trace ids (suc index) ts)

  abbrev pub traces_errors : List Text → Optional → List Text
  traces_errors ids absent = []
  traces_errors ids not_list = codes "traces_not_list" ∷ []
  traces_errors ids (listed ts) = each_trace ids 0 ts []

  unfoldable pub validate_traces : Value → List Text → List Text
  unfolding each_trace
  validate_traces traces ids = traces_errors ids (optional_list traces)
