-- ===== src/Queue/Marks.antt =====
-- The UPDATE statements of a run: `mark_processing`, `requeue_orphaned_processing`,
-- `mark_finished`, `update_window_checkpoint` and `mark_error`.
use mnemonic_os.Base.{
  ℕ, ◌+◌, String, Text, Bool, true, ◌&&◌, Option, none, some, List, leb, ◌==◌, coalesce,
  count_where, update_where, if◌then◌else◌, str_eq,
}
use mnemonic_os.Queue.{Status, pending, processing, error, Row, is_pending, is_processing}

-- `WHERE id = ? AND status = 'pending'`
abbrev pub claimable : ℕ → Row → Bool
claimable queue_id r = r.id == queue_id && is_pending r.status

abbrev pub claim : ℕ → Row → Row
claim now r = record r {
  status = processing;
  attempt_count = r.attempt_count + 1;
  started_at = some now;
  finished_at = none;
  last_error = none;
}

-- The result is `cursor.rowcount == 1`.
unfoldable pub mark_processing : ℕ → ℕ → List Row → Bool × List Row
mark_processing now queue_id rows =
    (count_where (claimable queue_id) rows == 1, update_where (claimable queue_id) (claim now) rows)

-- `started_at IS NULL OR started_at <= datetime('now', '-S seconds')`
abbrev pub started_before : ℕ → ℕ → Option ℕ → Bool
started_before now older_than none = true
started_before now older_than (some started) = leb (started + older_than) now

abbrev pub orphaned : ℕ → ℕ → Row → Bool
orphaned now older_than r = is_processing r.status && started_before now older_than r.started_at

abbrev pub requeue : Row → Row
requeue r = record r { status = pending; started_at = none }

unfoldable pub requeue_orphaned_processing : ℕ → ℕ → List Row → ℕ × List Row
requeue_orphaned_processing now older_than rows = (
  count_where (orphaned now older_than) rows,
  update_where (orphaned now older_than) requeue rows,
)

abbrev pub current_schema_version : String
current_schema_version = "1.1"

-- The keyword arguments of `mark_finished`; the two JSON values are texts already.
pub record Finish : Type 0 where
  pub status : Status
  pub duplicate_state : Option String
  pub projection_metadata : String
  pub window_count : ℕ
  pub artifact_count : ℕ
  pub visual_snippet_count : ℕ
  pub candidate_count : ℕ
  pub validation_error_count : ℕ
  pub intra_source_relations : Option String
  pub extraction_schema_version : Option String
  pub extraction_model_version : Option String

-- `extraction_schema_version or CURRENT_SCHEMA_VERSION`
abbrev schema_version_or_current : Option String → String
schema_version_or_current none = current_schema_version
schema_version_or_current (some v) = if str_eq v "" then current_schema_version else v

abbrev pub finish : ℕ → Finish → Row → Row
finish now f r = record r {
  status = f.status;
  duplicate_state = f.duplicate_state;
  finished_at = some now;
  last_error = none;
  projection_metadata_json = f.projection_metadata;
  window_count = f.window_count;
  artifact_count = f.artifact_count;
  visual_snippet_count = f.visual_snippet_count;
  candidate_count = f.candidate_count;
  validation_error_count = f.validation_error_count;
  intra_source_relations_json = elim f.intra_source_relations [ none ↦ "[]" | some j ↦ j ];
  extraction_schema_version = some (schema_version_or_current f.extraction_schema_version);
  extraction_model_version = coalesce f.extraction_model_version r.extraction_model_version;
}

unfoldable pub mark_finished : ℕ → ℕ → Finish → List Row → List Row
mark_finished now queue_id f = update_where (λ r. r.id == queue_id) (finish now f)

unfoldable pub update_window_checkpoint : ℕ → ℕ → List Row → List Row
update_window_checkpoint queue_id completed =
    update_where (λ r. r.id == queue_id) (λ r. record r { completed_window_count = completed })

unfoldable pub mark_error : ℕ → ℕ → Text → List Row → List Row
mark_error now queue_id message =
    update_where (λ r. r.id == queue_id)
      (λ r. record r { status = error; finished_at = some now; last_error = some message })
