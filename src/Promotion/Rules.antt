-- ===== src/Promotion/Rules.antt =====
-- What the rules of promotion/decisions.py guarantee together.
use mnemonic_os.Base.{
  ℕ, ◌≤◌, ◌≡◌, refl, String, Text, Bool, true, false, not, ◌&&◌, ◌||◌, Option, none, some, List, [],
  ◌∷◌, ltb, ◌==◌, arith,
}
use mnemonic_os.Promotion.Decide.{
  Confidence, Decision, new, confirm, update, review, rejected, Match, Scores, Config, NoteRow,
  Body, DuplicateState, Candidate, rank, longer_than, confidence_refused, resolve,
  time_weighted_conflict, body_is_novel, decide_match, decide,
}

-- A decision names a note exactly if it writes to one, and then it is the first match.
abbrev pub IsTargeted : List Match → Decision → Option String → Type 0
IsTargeted matches new target = target ≡ none
IsTargeted matches rejected target = target ≡ none
IsTargeted matches review target = ⊥
IsTargeted [] confirm target = ⊥
IsTargeted (top ∷ _) confirm target = target ≡ some top.note_id
IsTargeted [] update target = ⊥
IsTargeted (top ∷ _) update target = target ≡ some top.note_id

resolve-IsTargeted :
    (cfg : Config) (new_rank old_rank : ℕ) (gap : Option ℕ) (top : Match) (rivals : List Match)
    → let d = resolve cfg new_rank old_rank gap top in
      IsTargeted (top ∷ rivals) d.decision d.target_note_id
unfolding resolve
resolve-IsTargeted cfg new_rank old_rank gap top rivals = ground arith

conflict-IsTargeted :
    (cfg : Config) (top : Match) (rivals : List Match) (row : Option NoteRow) (c : Confidence)
    → let d = time_weighted_conflict cfg top row c in
      IsTargeted (top ∷ rivals) d.decision d.target_note_id
unfolding time_weighted_conflict
conflict-IsTargeted cfg top rivals none c = refl
conflict-IsTargeted cfg top rivals (some row) c =
    resolve-IsTargeted cfg (rank c) (rank row.confidence) row.time_gap top rivals

decide_match-IsTargeted :
    (scores : Scores) (cfg : Config) (candidate : Candidate) (dup : DuplicateState) (top : Match)
    (rivals : List Match) (row : Option NoteRow) (novel : Bool)
    → let d = decide_match scores cfg candidate dup top rivals row novel in
      IsTargeted (top ∷ rivals) d.decision d.target_note_id
unfolding decide_match
decide_match-IsTargeted scores cfg candidate dup top rivals row novel =
    ground (arith, conflict-IsTargeted cfg top rivals row candidate.confidence)

-- Whatever the candidate and the notes are, `decide` answers new, confirm, update or rejected, and
-- never review; it names a target exactly for confirm and update, and that is the first match, of
-- which there is one then.
pub decide-IsTargeted :
    (scores : Scores) (cfg : Config) (token_set : Text → List Text)
    (note_row : String → Option NoteRow) (note_body : String → Body) (candidate : Candidate)
    (dup : DuplicateState) (matches : List Match)
    → let d = decide scores cfg token_set note_row note_body candidate dup matches in
      IsTargeted matches d.decision d.target_note_id
unfolding decide
decide-IsTargeted scores cfg token_set note_row note_body candidate dup [] = ground arith
decide-IsTargeted scores cfg token_set note_row note_body candidate dup (top ∷ rivals) = ground (
  arith,
  decide_match-IsTargeted scores cfg candidate dup top rivals (note_row top.note_id)
      (body_is_novel token_set candidate.body (note_body top.note_id)),
)

abbrev pub is_rejected : Decision → Bool
is_rejected rejected = true
is_rejected _ = false

conflict_not_rejected :
    (cfg : Config) (top : Match) (row : Option NoteRow) (c : Confidence)
    → is_rejected (time_weighted_conflict cfg top row c).decision ≡ false
unfolding time_weighted_conflict resolve
conflict_not_rejected cfg top none c = refl
conflict_not_rejected cfg top (some row) c = ground arith

decide_match_not_rejected :
    (scores : Scores) (cfg : Config) (candidate : Candidate) (dup : DuplicateState) (top : Match)
    (rivals : List Match) (row : Option NoteRow) (novel : Bool)
    → is_rejected (decide_match scores cfg candidate dup top rivals row novel).decision ≡ false
unfolding decide_match
decide_match_not_rejected scores cfg candidate dup top rivals row novel =
    ground (arith, conflict_not_rejected cfg top row candidate.confidence)

-- A candidate is rejected exactly if its confidence is low, or direct writes want high confidence
-- and its confidence is not high: the matches, the scores and the notes play no part.
pub decide-rejected :
    (scores : Scores) (cfg : Config) (token_set : Text → List Text)
    (note_row : String → Option NoteRow) (note_body : String → Body) (candidate : Candidate)
    (dup : DuplicateState) (matches : List Match)
    → is_rejected (decide scores cfg token_set note_row note_body candidate dup matches).decision
      ≡ confidence_refused cfg candidate.confidence
unfolding decide
decide-rejected scores cfg token_set note_row note_body candidate dup [] = ground arith
decide-rejected scores cfg token_set note_row note_body candidate dup (top ∷ rivals) = ground (
  arith,
  decide_match_not_rejected scores cfg candidate dup top rivals (note_row top.note_id)
      (body_is_novel token_set candidate.body (note_body top.note_id)),
)

abbrev pub is_update : Decision → Bool
is_update update = true
is_update _ = false

abbrev pub is_confirm : Decision → Bool
is_confirm confirm = true
is_confirm _ = false

-- The table of `_time_weighted_conflict` by one rule: a candidate that is not of low rank replaces
-- the note if the note ranks lower, or ranks the same and is stale, or both rank high and the gap is
-- more than a glitch; otherwise it confirms the note.
pub resolve-eq_table :
    (cfg : Config) (new_rank old_rank : ℕ) (gap : Option ℕ) (top : Match)
    → 1 ≤ new_rank
    → new_rank ≤ 2
    → old_rank ≤ 2
    → let d = resolve cfg new_rank old_rank gap top in
      let replaces =
        ltb old_rank new_rank
        || (old_rank == new_rank
            && (longer_than gap cfg.conflict_stale_threshold_days
                || (new_rank == 2 && longer_than gap cfg.conflict_glitch_threshold_days))) in
      (is_update d.decision ≡ replaces) × (is_confirm d.decision ≡ not replaces)
unfolding resolve
resolve-eq_table cfg new_rank old_rank gap top low_end high_end old_end = ground arith

longer_than_mono :
    (gap gap' days : ℕ)
    → gap ≤ gap'
    → longer_than (some gap) days ≡ true
    → longer_than (some gap') days ≡ true
longer_than_mono gap gap' days h e = ground arith

-- The older the note, the more readily it is replaced: a conflict that is resolved by an update
-- stays so when the note is older.
pub resolve_mono :
    (cfg : Config) (new_rank old_rank gap gap' : ℕ) (top : Match)
    → gap ≤ gap'
    → is_update (resolve cfg new_rank old_rank (some gap) top).decision ≡ true
    → is_update (resolve cfg new_rank old_rank (some gap') top).decision ≡ true
unfolding resolve
resolve_mono cfg new_rank old_rank gap gap' top h e = ground (
  arith,
  longer_than_mono gap gap' cfg.conflict_stale_threshold_days h,
  longer_than_mono gap gap' cfg.conflict_glitch_threshold_days h,
)
