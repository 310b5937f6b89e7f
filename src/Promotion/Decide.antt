-- ===== src/Promotion/Decide.antt =====
-- `decide`, `_time_weighted_conflict` and `_body_is_novel` of promotion/decisions.py.
-- A score is a float of which the code takes only comparisons with three literals: here scores are
-- numbers of some unit, with the literals as a record. A time gap is in seconds, `none` for `inf`.
-- The lookups in the database and the file system are arguments: the matches that
-- `find_existing_candidates` gives, the row of a note, and its body.
use mnemonic_os.Base.{
  ℕ, ◌*◌, String, Text, Bool, true, false, not, ◌&&◌, ◌||◌, Option, none, some, List, [], ◌∷◌, ◌++◌,
  ltb, leb, ◌==◌, if◌then◌else◌, codes, text_eq, any, length, select, strip,
}

-- `other` is any text but the three levels.
pub data Confidence : Type 0 where
  low medium high other : Confidence

pub data Decision : Type 0 where
  new confirm update review rejected : Decision

pub record PromotionDecision : Type 0 where
  pub decision : Decision
  pub target_note_id : Option String
  pub reason : Text

-- The fields of `CandidateMatch` (bridge.py) that are read.
pub record Match : Type 0 where
  pub note_id : String
  pub score : ℕ
  pub reason : Text

-- 0.55, 0.90 and 0.98 in the unit of the scores.
pub record Scores : Type 0 where
  pub plausible : ℕ
  pub clear : ℕ
  pub strong : ℕ

-- The fields of `PromotionConfig` (config.py) that are read.
pub record Config : Type 0 where
  pub min_confidence_for_direct_write : Confidence
  pub auto_review_on_conflict : Bool
  pub conflict_stale_threshold_days : ℕ
  pub conflict_glitch_threshold_days : ℕ

-- `row["confidence"] or "medium"` and the time gap of `row["updated_at"]`.
pub record NoteRow : Type 0 where
  pub confidence : Confidence
  pub time_gap : Option ℕ

-- What `_body_is_novel` finds of the note's body.
pub data Body : Type 0 where
  no_row no_path no_file : Body
  text : Text → Body

-- `duplicate_state`, by whether it is in `_NEAR_DUPLICATE_STATES`.
pub data DuplicateState : Type 0 where
  canonical_duplicate lsh_duplicate : DuplicateState
  not_near : DuplicateState

abbrev pub near_duplicate : DuplicateState → Bool
near_duplicate canonical_duplicate = true
near_duplicate lsh_duplicate = true
near_duplicate not_near = false

abbrev duplicate_name : DuplicateState → Text
duplicate_name canonical_duplicate = codes "canonical_duplicate"
duplicate_name lsh_duplicate = codes "lsh_duplicate"
duplicate_name not_near = []

-- `_CONFIDENCE_RANK.get(confidence, 1)`
abbrev pub rank : Confidence → ℕ
rank low = 0
rank medium = 1
rank high = 2
rank other = 1

abbrev pub is_low : Confidence → Bool
is_low low = true
is_low _ = false

abbrev pub is_high : Confidence → Bool
is_high high = true
is_high _ = false

abbrev decided : Decision → Option String → Text → PromotionDecision
decided d target why = record { decision = d; target_note_id = target; reason = why }

-- `gap > days`, with `inf` above every number of days.
abbrev pub longer_than : Option ℕ → ℕ → Bool
longer_than none days = true
longer_than (some seconds) days = ltb (days * 86400) seconds

-- The part of `_time_weighted_conflict` below the lookup of the note: by the two ranks.
unfoldable pub resolve : Config → ℕ → ℕ → Option ℕ → Match → PromotionDecision
resolve cfg new_rank old_rank gap top =
    if new_rank == 0
    then decided new none (codes "conflict_low_confidence_new:" ++ top.reason)
    else if new_rank == 2
    then (if old_rank == 2
        then (if longer_than gap cfg.conflict_stale_threshold_days
            then decided update (some top.note_id)
                (codes "conflict_supersedes_stale:" ++ top.reason)
            else if longer_than gap cfg.conflict_glitch_threshold_days
            then decided update (some top.note_id)
                (codes "conflict_supersedes_contested:" ++ top.reason)
            else decided confirm (some top.note_id) (codes "conflict_corroborates:" ++ top.reason))
        else if old_rank == 1
        then decided update (some top.note_id)
            (codes "conflict_supersedes_contested:" ++ top.reason)
        else decided update (some top.note_id) (codes "conflict_supersedes_archive:" ++ top.reason))
    else if old_rank == 2
    then decided confirm (some top.note_id) (codes "conflict_corroborates:" ++ top.reason)
    else if old_rank == 1
    then (if longer_than gap cfg.conflict_stale_threshold_days
        then decided update (some top.note_id) (codes "conflict_supersedes_stale:" ++ top.reason)
        else decided confirm (some top.note_id) (codes "conflict_corroborates:" ++ top.reason))
    else decided update (some top.note_id) (codes "conflict_supersedes_archive:" ++ top.reason)

-- `_time_weighted_conflict`, on the row that the SELECT gives.
unfoldable pub time_weighted_conflict :
    Config → Match → Option NoteRow → Confidence → PromotionDecision
unfolding resolve
time_weighted_conflict cfg top none new_confidence =
    decided new none (codes "conflict_note_missing")
time_weighted_conflict cfg top (some row) new_confidence =
    resolve cfg (rank new_confidence) (rank row.confidence) row.time_gap top

-- Python's sets of tokens, as lists with no repetition.
abbrev pub intersection : List Text → List Text → List Text
intersection xs ys = select (λ x. any (text_eq x) ys) xs

abbrev pub union : List Text → List Text → List Text
union xs ys = xs ++ select (λ y. not (any (text_eq y) xs)) ys

-- `_body_is_novel`. `token_set` is `_token_set`, by the `re` module.
-- The ratio of two sizes is below 0.70 if ten times the one is below seven times the other.
unfoldable pub body_is_novel : (Text → List Text) → Text → Body → Bool
unfolding strip
body_is_novel token_set candidate body = elim (strip candidate) [
  | [] ↦ false
  | _ ↦ elim body [
    | text existing ↦ elim (token_set existing) [
      | [] ↦ true
      | t ∷ ts ↦
          ltb (10 * length (intersection (t ∷ ts) (token_set candidate)))
            (7 * length (union (t ∷ ts) (token_set candidate)))
    ]
    | _ ↦ true
  ]
]

-- The candidate's fields that the rules read: `body` is stripped.
pub record Candidate : Type 0 where
  pub confidence : Confidence
  pub body : Text

abbrev pub has_rivals : List Match → Bool
has_rivals [] = false
has_rivals (_ ∷ _) = true

-- Rule 1, on the confidence alone.
abbrev pub confidence_refused : Config → Confidence → Bool
confidence_refused cfg c =
    is_low c || (is_high cfg.min_confidence_for_direct_write && not (is_high c))

-- The rules of `decide` below the first match `top`.
unfoldable pub decide_match :
    Scores
    → Config
    → Candidate
    → DuplicateState
    → Match
    → List Match
    → Option NoteRow
    → Bool
    → PromotionDecision
unfolding time_weighted_conflict
decide_match scores cfg candidate dup top rivals row novel =
    if near_duplicate dup && leb scores.clear top.score
    then decided confirm (some top.note_id)
        (codes "near_duplicate_corroboration:" ++ duplicate_name dup)
    else if cfg.auto_review_on_conflict && (ltb top.score scores.clear && has_rivals rivals)
    then time_weighted_conflict cfg top row candidate.confidence
    else if leb scores.strong top.score
    then (if novel
        then decided update (some top.note_id)
            (codes "strong_match_with_new_content:" ++ top.reason)
        else decided confirm (some top.note_id) (codes "strong_match:" ++ top.reason))
    else if leb scores.plausible top.score
    then decided update (some top.note_id) (codes "near_match:" ++ top.reason)
    else decided new none (codes "similarity_too_weak")

-- `decide`: `note_row` and `note_body` are the lookups of a note by its id.
unfoldable pub decide :
    Scores
    → Config
    → (Text → List Text)
    → (String → Option NoteRow)
    → (String → Body)
    → Candidate
    → DuplicateState
    → List Match
    → PromotionDecision
unfolding decide_match body_is_novel
decide scores cfg token_set note_row note_body candidate dup matches =
    if confidence_refused cfg candidate.confidence
    then decided rejected none (codes "low_confidence")
    else elim matches [
      | [] ↦ decided new none (codes "no_near_match")
      | top ∷ rivals ↦
          decide_match scores cfg candidate dup top rivals (note_row top.note_id)
            (body_is_novel token_set candidate.body (note_body top.note_id))
    ]
