-- ===== src/Candidates/Attribution.antt =====
-- validate_retrieval_attribution of extraction/validation.py. Floats are a type of their own, an
-- argument: `to_float` is `float(v)`; `clamp` is `max(0.0, min(1.0, x))`. `none` stands for the
-- OverflowError of `float` that escapes.
use mnemonic_os.Base.{
  ℕ, suc, Bool, ◌&&◌, Option, none, some, List, [], ◌∷◌, ◌++◌, Text, codes, text_eq, is_empty,
  or_text, member, any, decimal, if◌then◌else◌,
}
use mnemonic_os.Candidates.Json.{
  Value, Fields, null, float, text, arr, obj, Items, nil, cons, end, field, as_object, get, clean,
}
use mnemonic_os.Candidates.Links.{Optional, absent, not_list, listed, optional_list}

-- `SUPPORTED_ATTRIBUTION_EVIDENCE_TYPES`
abbrev pub supported_evidence_types : List Text
supported_evidence_types =
    codes "paraphrase"
    ∷ codes "semantic_reliance"
    ∷ codes "task_trajectory"
    ∷ codes "correction"
    ∷ codes "contradiction"
    ∷ codes "supersession"
    ∷ []

-- What `float(v)` does: a float, a TypeError or ValueError, which is caught, or the OverflowError of a
-- huge integer, which is not.
pub data Floated (F : Type 0) : Type 0 where
  floated : F → Floated F
  not_a_float : Floated F
  too_large : Floated F

-- What the type `float` does, and the `repr` of a result.
pub record Floats : Type 1 where
  pub Float : Type 0
  pub zero : Float
  pub to_float : Value → Floated Float
  pub clamp : Float → Float
  pub shown : Float → Text

-- A cleaned entry.
pub record Attribution (F : Type 0) : Type 0 where
  pub note_id : Text
  pub evidence_type : Text
  pub confidence : F

abbrev pub key_eq : Text × Text → Text × Text → Bool
key_eq (a, b) (c, d) = text_eq a c && text_eq b d

module _ (repr : Value → Text) (fl : Floats) where
  -- The confidence of an entry and the warning it gives, before it is clamped.
  unfoldable pub confidence_of : ℕ → Value → Option (List Text × fl.Float)
  confidence_of index null = some ([], fl.zero)
  confidence_of index v = elim (fl.to_float v) [
    | floated x ↦ some ([], x)
    | not_a_float ↦
        some ((codes "retrieval_attribution_bad_confidence: " ++ decimal index) ∷ [], fl.zero)
    | too_large ↦ none
  ]

  abbrev pub cleaned_entry : Text → Text → fl.Float → Attribution fl.Float
  cleaned_entry note_id evidence_type confidence = record {
    note_id = note_id;
    evidence_type = evidence_type;
    confidence = fl.clamp confidence;
  }

  abbrev unsupported_warning : ℕ → Text → Text
  unsupported_warning index evidence_type =
      codes "retrieval_attribution_unsupported_evidence_type: "
      ++ (or_text evidence_type (codes "<empty>") ++ (codes " at " ++ decimal index))

  -- The warnings and the cleaned entries.
  abbrev pub Cleaned : Type 0
  Cleaned = List Text × List (Attribution fl.Float)

  abbrev pub warned : Text → Option Cleaned → Option Cleaned
  warned warning none = none
  warned warning (some (warnings, cleaned)) = some (warning ∷ warnings, cleaned)

  abbrev pub prepend_entry :
      Text → Text → Option (List Text × fl.Float) → Option Cleaned → Option Cleaned
  prepend_entry note_id evidence_type none rest = none
  prepend_entry note_id evidence_type (some _) none = none
  prepend_entry note_id evidence_type (some (warning, confidence)) (some (warnings, cleaned)) =
      some (warning ++ warnings, cleaned_entry note_id evidence_type confidence ∷ cleaned)

  -- What the loop does with an object, with what it does with the later entries: where the key of
  -- this one is new, and where it is not.
  unfoldable pub clean_object :
      ℕ → Fields → List (Text × Text) → (List (Text × Text) → Option Cleaned) → Option Cleaned
  unfolding confidence_of
  clean_object index fs seen later =
      let note_id = clean repr (codes "note_id") fs in
      let evidence_type = clean repr (codes "evidence_type") fs in
      let key : Text × Text = (note_id, evidence_type) in
      if is_empty note_id
      then warned (codes "retrieval_attribution_missing_note_id: " ++ decimal index) (later seen)
      else if member evidence_type supported_evidence_types
      then if any (key_eq key) seen
        then later seen
        else prepend_entry note_id evidence_type (confidence_of index (get (codes "confidence") fs))
            (later (key ∷ seen))
      else warned (unsupported_warning index evidence_type) (later seen)

  abbrev pub clean_entry :
      ℕ
      → Option Fields
      → List (Text × Text)
      → (List (Text × Text) → Option Cleaned)
      → Option Cleaned
  clean_entry index none seen later =
      warned (codes "retrieval_attribution_entry_not_object: " ++ decimal index) (later seen)
  clean_entry index (some fs) seen later = clean_object index fs seen later

  -- The loop; `seen` holds the keys of the entries before.
  unfoldable pub clean_entries : ℕ → List Value → List (Text × Text) → Option Cleaned
  unfolding clean_object
  clean_entries index [] seen = some ([], [])
  clean_entries index (entry ∷ rest) seen =
      clean_entry index (as_object entry) seen (λ keys. clean_entries (suc index) rest keys)

  unfoldable pub clean_optional : Optional → Option Cleaned
  unfolding clean_entries
  clean_optional absent = some ([], [])
  clean_optional not_list = some (codes "retrieval_attribution_not_list" ∷ [], [])
  clean_optional (listed entries) = clean_entries 0 entries []

  unfoldable pub validate_retrieval_attribution : Value → Option Cleaned
  unfolding clean_optional
  validate_retrieval_attribution raw = clean_optional (optional_list raw)

  -- The dict that is put into the payload for an entry, and the list of them.
  abbrev entry_value : Attribution fl.Float → Value
  entry_value a = obj (
      field (codes "note_id") (text a.note_id) (
        field (codes "evidence_type") (text a.evidence_type)
          (field (codes "confidence") (float (fl.shown a.confidence)) end)))

  abbrev items : List (Attribution fl.Float) → Items
  items [] = nil
  items (a ∷ rest) = cons (entry_value a) (items rest)

  abbrev pub attribution_value : List (Attribution fl.Float) → Value
  attribution_value cleaned = arr (items cleaned)
