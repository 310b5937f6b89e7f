-- ===== src/Queue/Enqueue.antt =====
-- `enqueue_extraction`: an upsert on the source, and the row read back.
use mnemonic_os.Base.{
  ℕ, suc, String, Bool, true, false, not, Option, none, some, [], ◌∷◌, ◌++◌, str_eq, coalesce, any,
  update_where, if◌then◌else◌,
}
use mnemonic_os.Queue.{
  SourceKind, Status, pending, processing, processed, Row, Table, Item, row_to_item,
}
use mnemonic_os.Queue.Source.{
  Result, ok, raised, check_failed, no_queued_row, validate_source, check_source, conflicts,
  select_queue_row,
}

-- The keyword arguments of `enqueue_extraction`.
pub record Request : Type 0 where
  pub source_kind : String
  pub archive_id : Option String
  pub conversation_id : Option String
  pub episode_id : Option String
  pub bridge_id : Option String
  pub session_id : Option String
  pub task_id : Option String
  pub content_hash : Option String

-- The row that the INSERT would add: the given columns, and the defaults of the table.
unfoldable pub new_row : ℕ → ℕ → SourceKind → Request → Row
new_row now id kind req = record {
  id = id;
  source_kind = kind;
  archive_id = req.archive_id;
  conversation_id = req.conversation_id;
  episode_id = req.episode_id;
  bridge_id = elim req.bridge_id [ none ↦ "job:backfill" | some b ↦ b ];
  session_id = req.session_id;
  task_id = req.task_id;
  duplicate_state = none;
  status = pending;
  attempt_count = 0;
  queued_at = now;
  started_at = none;
  finished_at = none;
  last_error = none;
  projection_metadata_json = "{}";
  window_count = 0;
  artifact_count = 0;
  visual_snippet_count = 0;
  candidate_count = 0;
  validation_error_count = 0;
  intra_source_relations_json = "[]";
  content_hash = req.content_hash;
  extraction_schema_version = none;
  extraction_model_version = none;
  revisit_of_queue_id = none;
  revisit_reason = none;
  revisit_context_json = none;
  completed_window_count = 0;
}

-- Both hashes are known and differ: the second WHEN of the CASE.
abbrev pub hash_changed : Option String → Option String → Bool
hash_changed none _ = false
hash_changed (some _) none = false
hash_changed (some new) (some old) = not (str_eq new old)

-- The CASE of `ON CONFLICT DO UPDATE`, on whether the hash has changed.
unfoldable pub upsert_status : Bool → Status → Status
upsert_status changed processing = processing
upsert_status true _ = pending
upsert_status false processed = processed
upsert_status false _ = pending

-- `excluded.bridge_id` is never NULL: the INSERT has put the default in its place.
unfoldable pub upsert_row : Row → Row → Row
unfolding upsert_status
upsert_row excluded r = record r {
  bridge_id = excluded.bridge_id;
  session_id = coalesce excluded.session_id r.session_id;
  task_id = coalesce excluded.task_id r.task_id;
  content_hash = coalesce excluded.content_hash r.content_hash;
  status = upsert_status (hash_changed excluded.content_hash r.content_hash) r.status;
  last_error = none;
}

unfoldable pub upsert : Row → Table → Table
unfolding upsert_row conflicts
upsert new t =
    let clash = conflicts new.source_kind new.archive_id new.conversation_id new.episode_id in
    if any clash t.rows
    then record t { rows = update_where clash (upsert_row new) t.rows }
    else record { rows = t.rows ++ (new ∷ []); next_id = suc t.next_id }

abbrev read_back : Option Row → Result Item
read_back none = raised no_queued_row
read_back (some r) = ok (row_to_item r)

-- The INSERT of a row that passes the CHECK, and the SELECT after it.
unfoldable pub insert_and_read : ℕ → SourceKind → Request → Table → Result Item × Table
unfolding upsert
insert_and_read now kind req t =
    let t' = upsert (new_row now t.next_id kind req) t in
    (
      read_back (select_queue_row kind req.archive_id req.conversation_id req.episode_id t'.rows),
      t',
    )

unfoldable pub enqueue_extraction : ℕ → Request → Table → Result Item × Table
unfolding insert_and_read
enqueue_extraction now req t =
    elim (validate_source req.source_kind req.archive_id req.conversation_id req.episode_id) [
      | raised failure ↦ (raised failure, t)
      | ok kind ↦
          if check_source kind req.archive_id req.conversation_id req.episode_id
          then insert_and_read now kind req t
          else (raised check_failed, t)
    ]
