-- ===== src/Queue/Upserting.antt =====
-- What `enqueue_extraction` of extraction/queue.py does to the table, and what it reads back.
use mnemonic_os.Base.{ℕ, ◌≡◌, String, true, Option, length, length-update_where}
use mnemonic_os.Queue.{SourceKind, Table, row_to_item}
use mnemonic_os.Queue.Source.{ok, validate_source, check_source, select_queue_row}
use mnemonic_os.Queue.Enqueue.{
  Request, new_row, upsert_row, upsert, insert_and_read, enqueue_extraction,
}
use mnemonic_os.Queue.Conflicts.{
  queued_row, clash, fresh, upsert-taken, insert_and_read-eq, clash-upserted,
}

enqueue_extraction-insert :
    (now : ℕ) (req : Request) (t : Table) (kind : SourceKind)
    → validate_source req.source_kind req.archive_id req.conversation_id req.episode_id ≡ ok kind
    → check_source kind req.archive_id req.conversation_id req.episode_id ≡ true
    → enqueue_extraction now req t ≡ insert_and_read now kind req t
unfolding enqueue_extraction
enqueue_extraction-insert now req t kind valid passes =
    rw (valid, enqueue_extraction) (rw (passes, enqueue_extraction))

-- For a request that passes the validation and the CHECK of the table, `enqueue_extraction` always
-- answers, and with the row of its source: the new row where the source had none, and otherwise
-- the old row after the ON CONFLICT update. The error "failed to read queued extraction row" does
-- not occur.
pub enqueue_extraction-answers :
    (now : ℕ) (req : Request) (t : Table) (kind : SourceKind)
    → validate_source req.source_kind req.archive_id req.conversation_id req.episode_id ≡ ok kind
    → check_source kind req.archive_id req.conversation_id req.episode_id ≡ true
    → (enqueue_extraction now req t).0
      ≡ ok (
          row_to_item (
            queued_row
              (new_row now t.next_id kind req)
              (select_queue_row kind req.archive_id req.conversation_id req.episode_id t.rows)))
enqueue_extraction-answers now req t kind valid passes =
    rw (enqueue_extraction-insert now req t kind valid passes)
      (insert_and_read-eq now kind req t passes)

-- A request of the same source again, at any later time and with any other fields, adds no row.
pub enqueue_extraction-again :
    (now now' : ℕ) (req : Request) (b s k h : Option String) (t : Table) (kind : SourceKind)
    → validate_source req.source_kind req.archive_id req.conversation_id req.episode_id ≡ ok kind
    → check_source kind req.archive_id req.conversation_id req.episode_id ≡ true
    → let again = record req { bridge_id = b; session_id = s; task_id = k; content_hash = h } in
      let t' = (enqueue_extraction now req t).1 in
      length (enqueue_extraction now' again t').1.rows ≡ length t'.rows
unfolding insert_and_read
enqueue_extraction-again now now' req b s k h t kind valid passes =
    let again : Request = record req {
      bridge_id = b;
      session_id = s;
      task_id = k;
      content_hash = h;
    } in
    let t' : Table = upsert (new_row now t.next_id kind req) t in
    rw (enqueue_extraction-insert now req t kind valid passes) (
      rw (enqueue_extraction-insert now' again t' kind valid passes) (
        rw (upsert-taken now' kind again t' passes (clash-upserted now kind req t passes)) (
          length-update_where (clash now' t'.next_id kind again)
            (upsert_row (fresh now' t'.next_id kind again)) t'.rows)))
