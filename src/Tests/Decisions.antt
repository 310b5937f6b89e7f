-- ===== src/Tests/Decisions.antt =====
-- Decisions on concrete candidates.
use mnemonic_os.Base.{
  ◌≡◌, String, Text, true, not, ◌&&◌, ◌||◌, Option, some, List, [], ◌∷◌, codes, arith, ltb, ◌==◌,
}
use mnemonic_os.Promotion.Decide.{
  medium, high, not_near, Match, Scores, Config, NoteRow, Body, text, Candidate, longer_than,
  resolve, decide,
}
use mnemonic_os.Promotion.Rules.{
  IsTargeted, is_update, is_confirm, decide-IsTargeted, resolve-eq_table,
}

-- Scores in hundredths.
abbrev scores : Scores
scores = record { plausible = 55; clear = 90; strong = 98 }

abbrev config : Config
config = record {
  min_confidence_for_direct_write = medium;
  auto_review_on_conflict = true;
  conflict_stale_threshold_days = 90;
  conflict_glitch_threshold_days = 7;
}

abbrev first : Match
first = record { note_id = "n1"; score = 70; reason = codes "title" }

abbrev second : Match
second = record { note_id = "n2"; score = 60; reason = codes "tag" }

abbrev candidate : Candidate
candidate = record { confidence = high; body = codes "new words" }

abbrev note_row : String → Option NoteRow
note_row _ = some (record { confidence = medium; time_gap = some 86400 })

abbrev note_body : String → Body
note_body _ = text (codes "old words")

abbrev whole : Text → List Text
whole s = s ∷ []

decide-IsTargeted_example :
    IsTargeted
      (first ∷ second ∷ [])
      (decide scores config whole note_row note_body candidate not_near
        (first ∷ second ∷ [])).decision
      (decide scores config whole note_row note_body candidate not_near
        (first ∷ second ∷ [])).target_note_id
decide-IsTargeted_example =
    decide-IsTargeted scores config whole note_row note_body candidate not_near
      (first ∷ second ∷ [])

resolve-eq_table_example :
    let d = resolve config 2 2 (some 864000) first in
    let replaces =
      ltb 2 2
      || (2 == 2
          && (longer_than (some 864000) config.conflict_stale_threshold_days
              || (2 == 2 && longer_than (some 864000) config.conflict_glitch_threshold_days))) in
    (is_update d.decision ≡ replaces) × (is_confirm d.decision ≡ not replaces)
resolve-eq_table_example =
    resolve-eq_table config 2 2 (some 864000) first (omega arith) (omega arith) (omega arith)
