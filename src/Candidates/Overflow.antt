-- ===== src/Candidates/Overflow.antt =====
-- When the OverflowError of `float` escapes validate_retrieval_attribution (extraction/validation.py).
use mathlib.Core.List.{Mem, mem-cons_self, mem-cons_of_mem}
use mnemonic_os.Base.{
  ℕ, suc, ◌≡◌, refl, ◌⊎◌, inl, inr, Option, none, some, arith, List, [], ◌∷◌, if-cases, any, Text,
  codes, is_empty, member,
}
use mnemonic_os.Candidates.Json.{
  Value, null, bool, int, float, text, arr, obj, Fields, as_object, get, clean,
}
use mnemonic_os.Candidates.Links.{Optional, absent, not_list, listed, optional_list}
use mnemonic_os.Candidates.Attribution.{
  too_large, Floats, Cleaned, warned, prepend_entry, confidence_of, clean_object, clean_entry,
  clean_entries, clean_optional, validate_retrieval_attribution, key_eq, supported_evidence_types,
}

module _ (repr : Value → Text) (fl : Floats) where
  -- One of some entries is an object whose confidence is too large for a float.
  abbrev pub HasOverflow : List Value → Type 0
  HasOverflow entries =
      (entry : Value) × (fs : Fields) × Mem entry entries
      × (as_object entry ≡ some fs)
      × (fl.to_float (get (codes "confidence") fs) ≡ too_large)

  warned-none : (w : Text) (o : Option (Cleaned repr fl)) → warned repr fl w o ≡ none → o ≡ none
  warned-none w none h = refl
  warned-none w (some (ws, cs)) h = absurd cc

  prepend_entry-none :
      (a b : Text) (o : Option (List Text × fl.Float)) (rest : Option (Cleaned repr fl))
      → prepend_entry repr fl a b o rest ≡ none
      → (o ≡ none) ⊎ (rest ≡ none)
  prepend_entry-none a b none rest h = inl refl
  prepend_entry-none a b (some x) none h = inr refl
  prepend_entry-none a b (some (w, x)) (some (ws, cs)) h = absurd cc

  confidence_of-none :
      (index : ℕ) (v : Value) → confidence_of repr fl index v ≡ none → fl.to_float v ≡ too_large
  unfolding confidence_of
  confidence_of-none index null h = absurd cc
  confidence_of-none index (bool b) h = ground arith
  confidence_of-none index (int n) h = ground arith
  confidence_of-none index (float s) h = ground arith
  confidence_of-none index (text s) h = ground arith
  confidence_of-none index (arr vs) h = ground arith
  confidence_of-none index (obj fs) h = ground arith

  clean_object-none :
      (index : ℕ) (fs : Fields) (seen : List (Text × Text))
      (later : List (Text × Text) → Option (Cleaned repr fl))
      → clean_object repr fl index fs seen later ≡ none
      → ((keys : List (Text × Text)) × (later keys ≡ none))
        ⊎ (fl.to_float (get (codes "confidence") fs) ≡ too_large)
  unfolding clean_object
  clean_object-none index fs seen later =
      let note_id = clean repr (codes "note_id") fs in
      let evidence_type = clean repr (codes "evidence_type") fs in
      let key : Text × Text = (note_id, evidence_type) in
      if-cases Escapes (is_empty note_id) (λ _ h. inl (seen, warned-none _ _ h))
        (λ _.
          if-cases Escapes (member evidence_type supported_evidence_types)
            (λ _.
              if-cases Escapes (any (key_eq key) seen) (λ _ h. inl (seen, h))
                (λ _ h. split key (prepend_entry-none _ _ _ _ h)))
            (λ _ h. inl (seen, warned-none _ _ h)))
    where
      Escapes : Option (Cleaned repr fl) → Type 0
      Escapes o =
          o ≡ none
          → ((keys : List (Text × Text)) × (later keys ≡ none))
            ⊎ (fl.to_float (get (codes "confidence") fs) ≡ too_large)

      split :
          (key : Text × Text)
          → (confidence_of repr fl index (get (codes "confidence") fs) ≡ none)
            ⊎ (later (key ∷ seen) ≡ none)
          → ((keys : List (Text × Text)) × (later keys ≡ none))
            ⊎ (fl.to_float (get (codes "confidence") fs) ≡ too_large)
      split key (inl e) = inr (confidence_of-none index _ e)
      split key (inr e) = inl (key ∷ seen, e)

  clean_entries-none :
      (index : ℕ) (entries : List Value) (seen : List (Text × Text))
      → clean_entries repr fl index entries seen ≡ none
      → HasOverflow entries
  unfolding clean_entries
  clean_entries-none index [] seen h = absurd cc
  clean_entries-none index (entry ∷ rest) seen h =
      go (as_object entry) refl h (λ keys. clean_entries-none (suc index) rest keys)
    where
      later_one : HasOverflow rest → HasOverflow (entry ∷ rest)
      later_one (e, fs, m, found, big) = (e, fs, mem-cons_of_mem entry m, found, big)

      here_or_later :
          (fs : Fields)
          → as_object entry ≡ some fs
          → ((keys : List (Text × Text))
              → clean_entries repr fl (suc index) rest keys ≡ none
              → HasOverflow rest)
          → ((keys : List (Text × Text)) × (clean_entries repr fl (suc index) rest keys ≡ none))
            ⊎ (fl.to_float (get (codes "confidence") fs) ≡ too_large)
          → HasOverflow (entry ∷ rest)
      here_or_later fs e again (inl (keys, k)) = later_one (again keys k)
      here_or_later fs e again (inr big) = (entry, fs, mem-cons_self, e, big)

      go :
          (o : Option Fields)
          → as_object entry ≡ o
          → clean_entry repr fl index o seen (λ keys. clean_entries repr fl (suc index) rest keys)
            ≡ none
          → ((keys : List (Text × Text))
              → clean_entries repr fl (suc index) rest keys ≡ none
              → HasOverflow rest)
          → HasOverflow (entry ∷ rest)
      go none e h' again = later_one (again seen (warned-none _ _ h'))
      go (some fs) e h' again =
          here_or_later fs e again (
            clean_object-none index fs seen (λ keys. clean_entries repr fl (suc index) rest keys)
              h')

  -- The attribution of which the cleaning lets an OverflowError escape is a list that has an entry
  -- of too large a confidence.
  pub validate_retrieval_attribution-none :
      (raw : Value)
      → validate_retrieval_attribution repr fl raw ≡ none
      → (entries : List Value) × (optional_list raw ≡ listed entries) × HasOverflow entries
  unfolding validate_retrieval_attribution clean_optional
  validate_retrieval_attribution-none raw = go (optional_list raw)
    where
      go :
          (o : Optional)
          → clean_optional repr fl o ≡ none
          → (entries : List Value) × (o ≡ listed entries) × HasOverflow entries
      go absent h = absurd cc
      go not_list h = absurd cc
      go (listed entries) h = (entries, refl, clean_entries-none 0 entries [] h)
