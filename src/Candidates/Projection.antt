-- ===== src/Candidates/Projection.antt =====
-- projection_evidence_ids of extraction/validation.py: the ids of a packet to which evidence refers.
use mnemonic_os.Base.{not, Option, none, some, List, [], ◌∷◌, select, Text, codes, is_empty}
use mnemonic_os.Candidates.Json.{Value, Fields, as_object, get, str_or_empty, iterate}
use mnemonic_os.Candidates.Gate.{both}

module _ (repr : Value → Text) where
  -- `str(fields.get(key) or "")` for each of the keys.
  abbrev ids_under : List Text → Fields → List Text
  ids_under [] fs = []
  ids_under (k ∷ ks) fs = str_or_empty repr (get k fs) ∷ ids_under ks fs

  abbrev of_object : (Fields → Option (List Text)) → Option Fields → Option (List Text)
  of_object f none = some []
  of_object f (some fs) = f fs

  -- `for item in items`, with `f` for an item that is an object.
  abbrev each_object : (Fields → Option (List Text)) → List Value → Option (List Text)
  each_object f [] = some []
  each_object f (v ∷ vs) = both repr (of_object f (as_object v)) (each_object f vs)

  abbrev each_of : (Fields → Option (List Text)) → Option (List Value) → Option (List Text)
  each_of f none = none
  each_of f (some vs) = each_object f vs

  unfoldable pub window_ids : Fields → Option (List Text)
  window_ids window = both repr (some (ids_under (codes "window_id" ∷ []) window)) (
      both repr
        (each_of (λ span. some (ids_under (codes "source_locator" ∷ []) span))
          (iterate (get (codes "source_spans") window)))
        (each_of
          (λ marker. some (ids_under (codes "marker_text" ∷ codes "artifact_id" ∷ []) marker))
          (iterate (get (codes "artifact_markers") window))))

  abbrev snippet_ids : Fields → Option (List Text)
  snippet_ids snippet =
      some (ids_under (codes "marker" ∷ codes "artifact_id" ∷ codes "source_locator" ∷ []) snippet)

  abbrev filled_ids : Option (List Text) → Option (List Text)
  filled_ids none = none
  filled_ids (some ids) = some (select (λ id. not (is_empty id)) ids)

  -- `none` is the TypeError of a number in place of a list.
  unfoldable pub projection_evidence_ids : Fields → Option (List Text)
  unfolding window_ids
  projection_evidence_ids packet = filled_ids (
      both repr (each_of window_ids (iterate (get (codes "text_windows") packet)))
        (each_of snippet_ids (iterate (get (codes "visual_snippets") packet))))
