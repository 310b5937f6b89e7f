-- ===== src/Tests/Samples.antt =====
-- Rows of the extraction queue and requests for it.
use mnemonic_os.Base.{ℕ, Text, Option, none, some, [], codes}
use mnemonic_os.Queue.{Row, Table, Status, pending, processing, processed, error, artifact}
use mnemonic_os.Queue.Enqueue.{Request}
use mnemonic_os.Queue.Marks.{Finish}

abbrev pub row_of : ℕ → Status → ℕ → Option ℕ → Option ℕ → Option Text → Row
row_of id status attempts started finished last_error = record {
  id = id;
  source_kind = artifact;
  archive_id = some "a1";
  conversation_id = none;
  episode_id = none;
  bridge_id = "job:backfill";
  session_id = none;
  task_id = none;
  duplicate_state = none;
  status = status;
  attempt_count = attempts;
  queued_at = 0;
  started_at = started;
  finished_at = finished;
  last_error = last_error;
  projection_metadata_json = "{}";
  window_count = 0;
  artifact_count = 0;
  visual_snippet_count = 0;
  candidate_count = 0;
  validation_error_count = 0;
  intra_source_relations_json = "[]";
  content_hash = none;
  extraction_schema_version = none;
  extraction_model_version = none;
  revisit_of_queue_id = none;
  revisit_reason = none;
  revisit_context_json = none;
  completed_window_count = 0;
}

abbrev pub waiting : Row
waiting = row_of 1 pending 0 none none none

abbrev pub stuck : Row
stuck = row_of 2 processing 3 (some 1000) none none

abbrev pub timed_out : Row
timed_out = row_of 3 error 5 (some 1000) (some 2000) (some (codes "timeout: too long"))

abbrev pub timed_out_once : Row
timed_out_once = row_of 4 error 1 (some 1000) (some 2000) (some (codes "timeout: too long"))

abbrev pub done : Finish
done = record {
  status = processed;
  duplicate_state = none;
  projection_metadata = "{}";
  window_count = 1;
  artifact_count = 0;
  visual_snippet_count = 0;
  candidate_count = 2;
  validation_error_count = 0;
  intra_source_relations = none;
  extraction_schema_version = none;
  extraction_model_version = none;
}

abbrev pub empty_table : Table
empty_table = record { rows = []; next_id = 1 }

abbrev pub archived : Request
archived = record {
  source_kind = "artifact";
  archive_id = some "a1";
  conversation_id = none;
  episode_id = none;
  bridge_id = none;
  session_id = none;
  task_id = none;
  content_hash = some "h1";
}
