-- ===== src/Candidates/Agreement.antt =====
-- What a candidate that validate_candidate finds ready goes through in run_gate.
use mnemonic_os.Base.{
  ◌≡◌, refl, sym, ap, ◌∙◌, inl, inr, Bool, true, false, ◌||◌, Option, none, some, List, [], ◌∷◌,
  ◌++◌, arith, All, Bool-cases, Text, codes, is_empty, member, strip, member-append, text_eq_sound,
  text_eq_refl, text_eq,
}
use mnemonic_os.Candidates.Json.{
  Value, Fields, as_object, get, str_or_empty, or_value, truthy, clean,
}
use mnemonic_os.Candidates.Components.{match_entry, evidence_id, match_entries}
use mnemonic_os.Candidates.Gate.{ids_of_entry, evidence_keys, named_values, entry_ids}

-- The ids of the projection are stripped and not empty, as the gate reads them.
abbrev pub Stripped : List Text → Type 0
Stripped = All (λ s. (strip s ≡ s) × (is_empty s ≡ false))

pub append-nil : {A : Type 0} (xs ys : List A) → xs ++ ys ≡ [] → (xs ≡ []) × (ys ≡ [])
append-nil [] ys h = (refl, h)
append-nil (x ∷ xs) ys h = absurd (cc)

module _ (P : Text → Type 0) where
  pub member-All : (s : Text) (xs : List Text) → member s xs ≡ true → All P xs → P s
  member-All s [] h hs = absurd cc
  member-All s (x ∷ xs) h hs = elim (Bool-cases (text_eq s x)) [
    | inl e ↦ rw (text_eq_sound s x e) (hs.0)
    | inr e ↦ member-All s xs (ground arith) (hs.1)
  ]

module _ (repr : Value → Text) where
  -- The gate reads each key that names an entry.
  named_values-head :
      (k : Text) (ks : List Text) (fs : Fields)
      → is_empty (clean repr k fs) ≡ false
      → member (clean repr k fs) (named_values repr (k ∷ ks) fs) ≡ true
  unfolding named_values
  named_values-head k ks fs h = rw (h, text_eq_refl (clean repr k fs))

  named_values-tail :
      (s k : Text) (ks : List Text) (fs : Fields)
      → member s (named_values repr ks fs) ≡ true
      → member s (named_values repr (k ∷ ks) fs) ≡ true
  unfolding named_values
  named_values-tail s k ks fs h = elim (Bool-cases (is_empty (clean repr k fs))) [
    | inl e ↦ rw e h
    | inr e ↦ rw e (ground arith)
  ]

  -- A value of evidence that, as a stripped name, is among the names that the gate reads.
  abbrev Reached : List Text → Fields → Value → Type 0
  Reached ks fs v =
      strip (str_or_empty repr v) ≡ str_or_empty repr v
      → is_empty (str_or_empty repr v) ≡ false
      → member (str_or_empty repr v) (named_values repr ks fs) ≡ true

  Reached-key : (k : Text) (ks : List Text) (fs : Fields) → Reached (k ∷ ks) fs (get k fs)
  Reached-key k ks fs same filled =
      ap (λ s. member s (named_values repr (k ∷ ks) fs)) (sym same)
      ∙ named_values-head k ks fs (ap is_empty same ∙ filled)

  Reached-or :
      (k : Text) (ks : List Text) (fs : Fields) (v : Value)
      → Reached ks fs v
      → Reached (k ∷ ks) fs (or_value (get k fs) v)
  Reached-or k ks fs v rest = elim (Bool-cases (truthy (get k fs))) [
    | inl e ↦ rw e (Reached-key k ks fs)
    | inr e ↦
        rw e (λ same filled. named_values-tail (str_or_empty repr v) k ks fs (rest same filled))
  ]

  evidence_id-Reached :
      (fs : Fields)
      → strip (evidence_id repr fs) ≡ evidence_id repr fs
      → is_empty (evidence_id repr fs) ≡ false
      → member (evidence_id repr fs) (named_values repr evidence_keys fs) ≡ true
  unfolding evidence_id
  evidence_id-Reached fs = Reached-or (codes "id") _ fs _ (
      Reached-or (codes "window_id") _ fs _ (
        Reached-or (codes "source_locator") _ fs _
          (Reached-or (codes "marker") _ fs _ (Reached-key (codes "artifact_id") [] fs))))

-- The set `xs` is within the set `ys`.
abbrev pub Within : List Text → List Text → Type 0
Within xs ys = (s : Text) → member s xs ≡ true → member s ys ≡ true

or_right : (a : Bool) {b : Bool} → b ≡ true → (a || b) ≡ true
or_right true e = refl
or_right false e = e

pub Within-left : (xs ys zs : List Text) → Within (xs ++ ys) zs → Within xs zs
Within-left xs ys zs h s m = h s (member-append s xs ys ∙ ground (arith))

pub Within-right : (xs ys zs : List Text) → Within (xs ++ ys) zs → Within ys zs
Within-right xs ys zs h s m = h s (member-append s xs ys ∙ or_right (member s xs) m)

pub Within-append : (xs ys : List Text) → Within ys (xs ++ ys)
Within-append xs ys s m = member-append s xs ys ∙ or_right (member s xs) m

module _ (repr : Value → Text) (E G : List Text) where
  match_entry-errors :
      (o : Option Fields) (a b : List Text × Bool)
      → a.0 ≡ b.0
      → (match_entry repr G o a).0 ≡ (match_entry repr E o b).0
  match_entry-errors none a b h = ap (λ t. codes "evidence_entry_not_object" ∷ t) h
  match_entry-errors (some fs) a b h = h

  pub match_entries-errors :
      (es : List Value) → (match_entries repr G es).0 ≡ (match_entries repr E es).0
  unfolding match_entries
  match_entries-errors [] = refl
  match_entries-errors (e ∷ es) = match_entry-errors (as_object e) _ _ (match_entries-errors es)

  match_entry-gate :
      (o : Option Fields) (a b : List Text × Bool) (ids : List Text)
      → Stripped E
      → Within (ids_of_entry repr o ids) G
      → (Within ids G → b.1 ≡ true → a.1 ≡ true)
      → (match_entry repr E o b).1 ≡ true
      → (match_entry repr G o a).1 ≡ true
  match_entry-gate none a b ids clean_ids within rest h = rest within h
  match_entry-gate (some fs) a b ids clean_ids within rest h =
      elim (Bool-cases (member (evidence_id repr fs) E)) [
        | inl e ↦
            let (same, filled) = member-All _ (evidence_id repr fs) E e clean_ids in
            let named = Within-left (named_values repr evidence_keys fs) ids G within in
            rw (named (evidence_id repr fs) (evidence_id-Reached repr fs same filled))
        | inr e ↦
            let left = Within-right (named_values repr evidence_keys fs) ids G within in
            let later = rest left (ground arith) in ground (arith, later)
      ]

  -- Evidence that matches the stripped ids `E` matches what the gate collects from it.
  pub match_entries-gate :
      (es : List Value)
      → Stripped E
      → Within (entry_ids repr es) G
      → (match_entries repr E es).1 ≡ true
      → (match_entries repr G es).1 ≡ true
  unfolding match_entries entry_ids
  match_entries-gate [] clean_ids within h = absurd cc
  match_entries-gate (e ∷ es) clean_ids within h =
      match_entry-gate (as_object e) _ _ (entry_ids repr es) clean_ids within
        (match_entries-gate es clean_ids) h
