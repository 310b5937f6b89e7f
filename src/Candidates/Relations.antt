-- ===== src/Candidates/Relations.antt =====
-- validate_intra_source_relations and projection_evidence_ids of extraction/validation.py.
use mnemonic_os.Base.{
  ℕ, ltb, leb, ◌==◌, ◌<◌, ◌≡◌, ◌≢◌, refl, subst, inl, inr, Bool, true, false, not, ◌&&◌, ◌||◌, ◌⊎◌,
  Option, none, some, List, [], ◌∷◌, arith, All, Bool-cases, any, Text, codes, text_eq, is_empty,
  member, if◌then◌else◌,
}
use mnemonic_os.Candidates.Json.{ℤ, pos, negsuc, Value, null, bool, Fields, as_object, get, clean}

-- What `int(v)` does: a number, a TypeError or ValueError, which is caught, or the OverflowError of
-- an infinite float, which is not.
pub data Converted : Type 0 where
  number : ℤ → Converted
  refused : Converted
  overflow : Converted

-- A relation between two candidates, by their indices.
pub record Relation : Type 0 where
  pub source_index : ℕ
  pub target_index : ℕ
  pub relation_type : Text
  pub rationale : Option Text

-- `SUPPORTED_INTRA_RELATION_TYPES`
abbrev pub supported_relation_types : List Text
supported_relation_types =
    codes "owner"
    ∷ codes "repo"
    ∷ codes "active_decision"
    ∷ codes "linked_decision"
    ∷ codes "linked_procedure"
    ∷ codes "linked_project"
    ∷ codes "linked_note"
    ∷ codes "entity"
    ∷ codes "about"
    ∷ codes "related_to"
    ∷ codes "part_of"
    ∷ codes "depends_on"
    ∷ codes "derived_from"
    ∷ codes "refines"
    ∷ codes "supersedes"
    ∷ codes "before"
    ∷ codes "after"
    ∷ codes "caused_by"
    ∷ codes "resolved_by"
    ∷ codes "evidence_for"
    ∷ codes "similar_to"
    ∷ codes "contrasts_with"
    ∷ codes "part_of_chain"
    ∷ codes "attempts_to_solve"
    ∷ codes "failed_due_to"
    ∷ codes "supports_solution"
    ∷ codes "derived_from_attempt"
    ∷ []

-- The keys `(src, tgt, rel)` of two relations are equal.
abbrev pub same_key : Relation → Relation → Bool
same_key a b =
    a.source_index == b.source_index
    && (a.target_index == b.target_index && text_eq a.relation_type b.relation_type)

-- `str(v or "").strip()` of the rationale, which is kept where it is not empty.
abbrev rationale_of : Text → Option Text
rationale_of [] = none
rationale_of (c ∷ s) = some (c ∷ s)

-- The entry `{src, tgt, rel}` passes the tests on its numbers and its type.
abbrev pub is_valid : ℕ → Relation → Bool
is_valid candidate_count r =
    not (r.source_index == r.target_index)
    && (not (
          ltb 0 candidate_count
          && (leb candidate_count r.source_index || leb candidate_count r.target_index))
        && member r.relation_type supported_relation_types)

-- The two conversions, the source's first: `overflow` where one of them escapes, `refused` where one
-- is caught or a number is negative.
pub data Indices : Type 0 where
  indices : ℕ → ℕ → Indices
  dropped : Indices
  escaped : Indices

abbrev pub both_indices : Converted → Converted → Indices
both_indices overflow _ = escaped
both_indices refused _ = dropped
both_indices (number _) overflow = escaped
both_indices (number _) refused = dropped
both_indices (number (pos a)) (number (pos b)) = indices a b
both_indices (number (negsuc _)) (number _) = dropped
both_indices (number (pos _)) (number (negsuc _)) = dropped

-- An index that is None or a Boolean is dropped before it is converted.
abbrev pub is_index : Value → Bool
is_index null = false
is_index (bool _) = false
is_index _ = true

module _ (repr : Value → Text) (to_int : Value → Converted) where
  unfoldable pub read_indices : Fields → Indices
  read_indices entry =
      let src = get (codes "source_index") entry in
      let tgt = get (codes "target_index") entry in
      if (is_index src && is_index tgt) && not (is_empty (clean repr (codes "relation_type") entry))
      then both_indices (to_int src) (to_int tgt)
      else dropped

  abbrev pub relation : Fields → ℕ → ℕ → Relation
  relation entry a b = record {
    source_index = a;
    target_index = b;
    relation_type = clean repr (codes "relation_type") entry;
    rationale = rationale_of (clean repr (codes "rationale") entry);
  }

  -- A relation that is put in front of what the loop gives after it.
  abbrev pub prepend : Relation → Option (List Relation) → Option (List Relation)
  prepend r none = none
  prepend r (some rs) = some (r ∷ rs)

  -- A relation read from an entry, and the rest of the loop, which takes the relations kept.
  abbrev pub keep :
      ℕ
      → Fields
      → Indices
      → List Relation
      → (List Relation → Option (List Relation))
      → Option (List Relation)
  keep count entry escaped seen rest = none
  keep count entry dropped seen rest = rest seen
  keep count entry (indices a b) seen rest =
      let r = relation entry a b in
      if is_valid count r && not (any (same_key r) seen)
      then prepend r (rest (r ∷ seen))
      else rest seen

  abbrev pub keep_entry :
      ℕ
      → Option Fields
      → List Relation
      → (List Relation → Option (List Relation))
      → Option (List Relation)
  keep_entry count none seen rest = rest seen
  keep_entry count (some entry) seen rest = keep count entry (read_indices entry) seen rest

  -- The loop; `none` is an OverflowError.
  unfoldable pub keep_each : ℕ → List Value → List Relation → Option (List Relation)
  unfolding read_indices
  keep_each count [] seen = some []
  keep_each count (v ∷ vs) seen = keep_entry count (as_object v) seen (keep_each count vs)

  unfoldable pub validate_intra_source_relations : List Value → ℕ → Option (List Relation)
  unfolding keep_each
  validate_intra_source_relations relations candidate_count = keep_each candidate_count relations []

-- What a kept relation satisfies.
abbrev pub Sound : ℕ → Relation → Type 0
Sound candidate_count r =
    (r.source_index ≢ r.target_index)
    × (member r.relation_type supported_relation_types ≡ true)
    × ((candidate_count ≡ 0)
        ⊎ ((r.source_index < candidate_count) × (r.target_index < candidate_count)))

-- No two relations have the same key, and none has that of one in `seen`.
abbrev pub Fresh : List Relation → List Relation → Type 0
Fresh seen [] = Unit
Fresh seen (r ∷ rs) = (any (same_key r) seen ≡ false) × Fresh (r ∷ seen) rs

-- The tests on two indices, with the test on the type beside them.
valid_parts :
    (count a b : ℕ) (m : Bool)
    → (not (a == b) && (not (ltb 0 count && (leb count a || leb count b)) && m)) ≡ true
    → (a ≢ b) × (m ≡ true) × ((count ≡ 0) ⊎ ((a < count) × (b < count)))
valid_parts count a b m h = (
  λ e. ground (arith, e),
  ground arith,
  elim (Bool-cases (ltb 0 count)) [
    | inl e ↦ inr (ground arith, ground arith)
    | inr e ↦ inl (ground arith)
  ],
)

is_valid-Sound : (count : ℕ) (r : Relation) → is_valid count r ≡ true → Sound count r
is_valid-Sound count r h =
    valid_parts count r.source_index r.target_index
      (member r.relation_type supported_relation_types) h

and_split : (a b : Bool) → (a && not b) ≡ true → (a ≡ true) × (b ≡ false)
and_split true false h = (refl, refl)
and_split true true h = cc
and_split false b h = cc

module _ (repr : Value → Text) (to_int : Value → Converted) (count : ℕ) where
  -- What the loop gives after the relations `seen`.
  abbrev Kept : List Relation → Option (List Relation) → Type 0
  Kept seen none = Unit
  Kept seen (some rs) = All (Sound count) rs × Fresh seen rs

  prepend-Kept :
      (r : Relation) (seen : List Relation) (o : Option (List Relation))
      → Sound count r
      → any (same_key r) seen ≡ false
      → Kept (r ∷ seen) o
      → Kept seen (prepend repr to_int r o)
  prepend-Kept r seen none sound new h = tt
  prepend-Kept r seen (some rs) sound new h = ((sound, h.0), (new, h.1))

  keep-Kept :
      (entry : Fields) (i : Indices) (seen : List Relation)
      (rest : List Relation → Option (List Relation))
      → ((s : List Relation) → Kept s (rest s))
      → Kept seen (keep repr to_int count entry i seen rest)
  keep-Kept entry escaped seen rest h = tt
  keep-Kept entry dropped seen rest h = h seen
  keep-Kept entry (indices a b) seen rest h =
      let r = relation repr to_int entry a b in
      elim (Bool-cases (is_valid count r && not (any (same_key r) seen))) [
        | inl e ↦
            let (valid, new) = and_split (is_valid count r) (any (same_key r) seen) e in
            rw e (
              prepend-Kept r seen (rest (r ∷ seen)) (is_valid-Sound count r valid) new
                (h (r ∷ seen)))
        | inr e ↦ rw e (h seen)
      ]

  keep_entry-Kept :
      (o : Option Fields) (seen : List Relation) (rest : List Relation → Option (List Relation))
      → ((s : List Relation) → Kept s (rest s))
      → Kept seen (keep_entry repr to_int count o seen rest)
  keep_entry-Kept none seen rest h = h seen
  keep_entry-Kept (some entry) seen rest h =
      keep-Kept entry (read_indices repr to_int entry) seen rest h

  keep_each-Kept :
      (vs : List Value) (seen : List Relation) → Kept seen (keep_each repr to_int count vs seen)
  unfolding keep_each
  keep_each-Kept [] seen = (tt, tt)
  keep_each-Kept (v ∷ vs) seen = keep_entry-Kept (as_object v) seen _ (keep_each-Kept vs)

-- Every relation that is kept joins two different candidates by a supported type, with both indices
-- below the number of candidates where there are any; and no two that are kept have the same ends
-- and type.
pub validate_intra_source_relations-kept :
    (repr : Value → Text) (to_int : Value → Converted) (relations : List Value) (count : ℕ)
    (kept : List Relation)
    → validate_intra_source_relations repr to_int relations count ≡ some kept
    → All (Sound count) kept × Fresh [] kept
unfolding validate_intra_source_relations
validate_intra_source_relations-kept repr to_int relations count kept h =
    subst (Kept repr to_int count []) h (keep_each-Kept repr to_int count relations [])
