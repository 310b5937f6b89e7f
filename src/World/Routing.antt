-- ===== src/World/Routing.antt =====
-- world/routing.py: the notes related to a note.
use mnemonic_os.Base.{
  ℕ, ◌+◌, Bool, true, false, not, ◌&&◌, ◌||◌, List, [], ◌∷◌, map, Text, text_eq, any, ltb, ◌==◌,
  if◌then◌else◌, ◌≡◌, All, Bool-cases, inl, inr,
}
use mnemonic_os.Base.Sorting.{order_by, order_by-All}
use mnemonic_os.World.Models.{GameEntry, WorldSnapshot}

-- `a < b` on Python strings.
abbrev pub text_lt : Text → Text → Bool
text_lt [] [] = false
text_lt [] (_ ∷ _) = true
text_lt (_ ∷ _) [] = false
text_lt (a ∷ s) (b ∷ t) = ltb a b || ((a == b) && text_lt s t)

-- `set(xs).intersection(ys)` is not empty.
abbrev pub meets : List Text → List Text → Bool
meets xs ys = any (λ x. any (text_eq x) ys) xs

-- The score of a candidate, for an entry.
unfoldable pub relation_score : GameEntry → GameEntry → ℕ
relation_score entry candidate =
    (if meets entry.source_refs candidate.source_refs then 3 else 0)
    + ((if meets entry.tags candidate.tags then 2 else 0)
        + (if text_eq candidate.section_key entry.section_key then 1 else 0))

-- The order of the key `(-score, note_id)`.
abbrev pub better : ℕ × Text → ℕ × Text → Bool
better (s, a) (t, b) = ltb t s || ((s == t) && not (text_lt b a))

-- The loop of `related_note_ids`.
unfoldable pub scored_candidates : GameEntry → List GameEntry → List (ℕ × Text)
scored_candidates entry [] = []
scored_candidates entry (c ∷ cs) =
    let rest = scored_candidates entry cs in
    let score = relation_score entry c in
    if text_eq c.note_id entry.note_id
    then rest
    else if score == 0
    then rest
    else (score, c.note_id) ∷ rest

abbrev second : ℕ × Text → Text
second (_, id) = id

unfoldable pub related_note_ids : GameEntry → WorldSnapshot → List Text
unfolding scored_candidates
related_note_ids entry snapshot =
    map second (order_by better (scored_candidates entry snapshot.note_entries))

-- What is listed of each candidate: that it is not the entry, and that its score is not zero.
scored_candidates-All :
    (entry : GameEntry) (cs : List GameEntry)
    → All (λ (_, id). text_eq id entry.note_id ≡ false) (scored_candidates entry cs)
unfolding scored_candidates
scored_candidates-All entry [] = tt
scored_candidates-All entry (c ∷ cs) =
    let rest = scored_candidates-All entry cs in
    elim (Bool-cases (text_eq c.note_id entry.note_id)) [
      | inl e ↦ rw e rest
      | inr e ↦ elim (Bool-cases (relation_score entry c == 0)) [
        | inl f ↦ rw (e, f) rest
        | inr f ↦ rw (e, f) (e, rest)
      ]
    ]

map-second-All :
    (P : Text → Type 0) (xs : List (ℕ × Text)) → All (λ (_, id). P id) xs → All P (map second xs)
map-second-All P [] h = tt
map-second-All P ((s, id) ∷ xs) h = (h.0, map-second-All P xs h.1)

-- An entry is never among the notes related to it.
pub related_note_ids-others :
    (entry : GameEntry) (snapshot : WorldSnapshot)
    → All (λ id. text_eq id entry.note_id ≡ false) (related_note_ids entry snapshot)
unfolding related_note_ids
related_note_ids-others entry snapshot =
    map-second-All _ (order_by better (scored_candidates entry snapshot.note_entries)) (
      order_by-All better _ (scored_candidates entry snapshot.note_entries)
        (scored_candidates-All entry snapshot.note_entries))
