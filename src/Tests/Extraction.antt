-- ===== src/Tests/Extraction.antt =====
-- Runs of the extraction queue.
use mnemonic_os.Base.{
  ◌≤◌, ◌≡◌, refl, ◌≢◌, true, false, none, some, List, [], ◌∷◌, ◌++◌, arith, length, count_where,
  take, codes,
}
use mnemonic_os.Queue.{Row, pending, processed, artifact, row_to_item}
use mnemonic_os.Queue.Source.{
  ok, select_queue_row, validate_source, validate_parts, archived_source, kind_of, check_source,
}
use mnemonic_os.Queue.Enqueue.{Request, new_row, enqueue_extraction}
use mnemonic_os.Queue.Marks.{mark_processing, requeue_orphaned_processing}
use mnemonic_os.Queue.Lanes.{Archive, pending_items, pending_quick_items, pending_slow_items}
use mnemonic_os.Queue.Claiming.{
  Event, take_item, finish_item, wins, wins-le_one, mark_processing-excludes,
}
use mnemonic_os.Queue.LaneOrder.{pending_items-quick_then_slow}
use mnemonic_os.Queue.Conflicts.{queued_row}
use mnemonic_os.Queue.Upserting.{enqueue_extraction-answers, enqueue_extraction-again}
use mnemonic_os.Queue.InFlight.{in_flight, enqueue_extraction-processing}
use mnemonic_os.Tests.Samples.{waiting, stuck, done, empty_table, archived}

abbrev rows : List Row
rows = waiting ∷ stuck ∷ []

abbrev two_workers : List Event
two_workers = take_item 10 1 ∷ take_item 11 1 ∷ finish_item 20 1 done ∷ take_item 30 1 ∷ []

processed_kept : processed ≢ pending
processed_kept e = ground (arith, e)

wins-le_one_example : wins 1 two_workers rows ≤ 1
wins-le_one_example = wins-le_one 1 two_workers rows (processed_kept, tt)

mark_processing-excludes_example :
    (mark_processing 500 1 (requeue_orphaned_processing 400 1000 (mark_processing 10 1 rows).1).1).0
    ≡ false
mark_processing-excludes_example =
    mark_processing-excludes 1 10 400 500 1000 rows refl (unfold mark_processing in refl)
      (omega arith)

abbrev pdf : Archive
pdf = ("a1", some (codes ".PDF")) ∷ []

pending_items-quick_then_slow_example :
    pending_items pdf 5 rows
    ≡ take 5
        (pending_quick_items pdf (length rows) rows ++ pending_slow_items pdf (length rows) rows)
pending_items-quick_then_slow_example = pending_items-quick_then_slow pdf 5 rows

archived-valid :
    validate_source archived.source_kind archived.archive_id archived.conversation_id
      archived.episode_id
    ≡ ok artifact
unfolding validate_source validate_parts archived_source kind_of
archived-valid = refl

archived-checked :
    check_source artifact archived.archive_id archived.conversation_id archived.episode_id ≡ true
unfolding check_source
archived-checked = refl

enqueue_extraction-answers_example :
    (enqueue_extraction 7 archived empty_table).0
    ≡ ok (
        row_to_item (
          queued_row (new_row 7 1 artifact archived) (
            select_queue_row artifact archived.archive_id archived.conversation_id
              archived.episode_id [])))
enqueue_extraction-answers_example =
    enqueue_extraction-answers 7 archived empty_table artifact archived-valid archived-checked

abbrev archived_again : Request
archived_again = record archived {
  bridge_id = some "b";
  session_id = none;
  task_id = none;
  content_hash = some "h2";
}

enqueue_extraction-again_example :
    length
      (enqueue_extraction 9 archived_again (enqueue_extraction 7 archived empty_table).1).1.rows
    ≡ length (enqueue_extraction 7 archived empty_table).1.rows
enqueue_extraction-again_example =
    enqueue_extraction-again 7 9 archived (some "b") none none (some "h2") empty_table artifact
      archived-valid archived-checked

enqueue_extraction-processing_example :
    count_where
      (in_flight 2)
      (enqueue_extraction 7 archived (record { rows = rows; next_id = 3 })).1.rows
    ≡ count_where (in_flight 2) rows
enqueue_extraction-processing_example =
    enqueue_extraction-processing 7 archived (record { rows = rows; next_id = 3 }) 2
