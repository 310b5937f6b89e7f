-- ===== src/Queue.antt =====
-- The extraction queue: src/second_brain/extraction/queue.py over the table `extraction_queue`
-- of migrations/014 to 029. A statement on the table is a function on the list of its rows.
-- `datetime('now')` is an argument, in seconds; a JSON column is its text.
pub mod Source
pub mod Enqueue
pub mod Marks
pub mod Lanes
pub mod Claiming
pub mod LaneOrder
pub mod Conflicts
pub mod Upserting
pub mod InFlight
use mnemonic_os.Base.{ℕ, String, Text, Bool, true, false, Option, List}

-- The values that the CHECK on the column `source_kind` admits.
pub data SourceKind : Type 0 where
  artifact episode session : SourceKind

-- The values that the CHECK on the column admits.
pub data Status : Type 0 where
  pending processing processed skipped error : Status

pub record Row : Type 0 where
  pub id : ℕ
  pub source_kind : SourceKind
  pub archive_id : Option String
  pub conversation_id : Option String
  pub episode_id : Option String
  pub bridge_id : String
  pub session_id : Option String
  pub task_id : Option String
  pub duplicate_state : Option String
  pub status : Status
  pub attempt_count : ℕ
  pub queued_at : ℕ
  pub started_at : Option ℕ
  pub finished_at : Option ℕ
  pub last_error : Option Text
  pub projection_metadata_json : String
  pub window_count : ℕ
  pub artifact_count : ℕ
  pub visual_snippet_count : ℕ
  pub candidate_count : ℕ
  pub validation_error_count : ℕ
  pub intra_source_relations_json : String
  pub content_hash : Option String
  pub extraction_schema_version : Option String
  pub extraction_model_version : Option String
  pub revisit_of_queue_id : Option ℕ
  pub revisit_reason : Option String
  pub revisit_context_json : Option String
  pub completed_window_count : ℕ

-- AUTOINCREMENT gives `next_id` to the next row.
pub record Table : Type 0 where
  pub rows : List Row
  pub next_id : ℕ

abbrev pub is_pending : Status → Bool
is_pending pending = true
is_pending _ = false

abbrev pub is_processing : Status → Bool
is_processing processing = true
is_processing _ = false

abbrev pub is_error : Status → Bool
is_error error = true
is_error _ = false

abbrev pub kind_eq : SourceKind → SourceKind → Bool
kind_eq artifact artifact = true
kind_eq episode episode = true
kind_eq session session = true
kind_eq _ _ = false

-- `_row_to_item` and `ExtractionQueueItem`: the columns that leave the module.
pub record Item : Type 0 where
  pub id : ℕ
  pub source_kind : SourceKind
  pub archive_id : Option String
  pub conversation_id : Option String
  pub episode_id : Option String
  pub bridge_id : Option String
  pub session_id : Option String
  pub task_id : Option String
  pub duplicate_state : Option String
  pub status : Status
  pub attempt_count : ℕ
  pub last_error : Option Text
  pub content_hash : Option String
  pub revisit_of_queue_id : Option ℕ
  pub revisit_reason : Option String
  pub revisit_context_json : Option String

unfoldable pub row_to_item : Row → Item
row_to_item r = record {
  id = r.id;
  source_kind = r.source_kind;
  archive_id = r.archive_id;
  conversation_id = r.conversation_id;
  episode_id = r.episode_id;
  bridge_id = Option.some r.bridge_id;
  session_id = r.session_id;
  task_id = r.task_id;
  duplicate_state = r.duplicate_state;
  status = r.status;
  attempt_count = r.attempt_count;
  last_error = r.last_error;
  content_hash = r.content_hash;
  revisit_of_queue_id = r.revisit_of_queue_id;
  revisit_reason = r.revisit_reason;
  revisit_context_json = r.revisit_context_json;
}
