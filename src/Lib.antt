-- ===== src/Lib.antt =====
-- MnemonicOS: a wiki of notes that a daemon keeps by jobs. Sessions and documents are put on an
-- extraction queue, a worker extracts candidates from them, a promotion step decides what each
-- candidate does to the wiki, maintenance jobs keep the wiki in order, and a game shows it.
--
-- The parts, and the files that model them (paths from the root of the repository):
--   Base       shared names, Boolean tests over the native numbers, lists as SQL reads them, ORDER BY.
--   Queue      src/second_brain/extraction/queue.py over the table `extraction_queue` of migrations/.
--              A row is a record with a field for each column; a statement is a function on the
--              list of rows.
--              Source: _validate_source, _select_queue_row, source_ref_id. Enqueue:
--              enqueue_extraction. Marks: mark_processing, requeue_orphaned_processing,
--              mark_finished, update_window_checkpoint, mark_error. Lanes: pending_items,
--              pending_quick_items, pending_slow_items. Claiming, LaneOrder,
--              Conflicts, Upserting and InFlight: theorems.
--   Retry      _retry_failed_extractions_job of src/second_brain/jobs.py on the rows of Queue: its
--              three SELECTs, the verdict on each failed row, and its loops of UPDATEs. Updates,
--              Effect, Counts and Backoff: theorems.
--   Promotion  src/second_brain/promotion/decisions.py: decide, _time_weighted_conflict,
--              _body_is_novel (Decide). Rules: theorems.
--   Candidates src/second_brain/extraction/validation.py and promotion/gate.py over JSON values (Json:
--              what isinstance, truth, dict.get and str do with them). Components:
--              _evidence_list_matches, _validate_components. Links: _validate_component_links,
--              _validate_temporal_order, _validate_traces. Attribution:
--              validate_retrieval_attribution. Validate: validate_candidate. Gate: run_gate.
--              Relations: validate_intra_source_relations. Projection: projection_evidence_ids.
--              Agreement, Ready, Hard, Overflow, Status, Passing and References: theorems.
--   Chunking   src/second_brain/text_processing.py (Units: _unit_spans, chunk_text_by_units; Terms:
--              cjk_ngrams, query_terms, prepare_fts_text) and projection/chunker.py (Windows:
--              iter_text_windows). Spans, Ngrams and Coverage: theorems.
--   Daemon     src/second_brain/daemon_jobs.py (Cron: _field_matches, CronSchedule, due_jobs) and
--              the class Scheduler of src/second_brain/daemon.py (Scheduler: one constructor of Step
--              for each atomic action of a thread), and what its class Daemon does to the queue at
--              startup and on shutdown (Restart). CronLaws, Exclusion and Recovery: theorems.
--   Jobs       run_job and the other jobs of src/second_brain/jobs.py, with the table job_runs
--              (Ledger: _open_job_run, _close_job_run; Wiki, Run: the jobs). Closing, OpenRuns,
--              DryRun and Embedding: theorems.
--   World      src/mnemonicos_game: data/models.py (Models), world/routing.py (Routing),
--              world/tilemap.py (Library, Hall, Vault). Grid, Crates and Shelves: theorems.
--   Orchestrator  src/second_brain/orchestrator.py (Requests: the inferred kind, temporality and
--              budget; Task: begin_task, mark_failure; Finish: finish_task) over emission.py (Packet:
--              packet_stable_ids and what reads a packet; Emission: render_emission,
--              should_auto_retry, retry_cutoff_reason; Markdown: the rendering). Results holds the
--              result of begin_task. Passes, Cutoff and StableIds: theorems.
--   Identity   src/second_brain/artifact_identity.py (Hashing: shingles, simhash and its buckets;
--              Overlap: the two scores, as fractions; Classify: classify_post_parse_identity,
--              write_identity_buckets, update_archive_identity). Buckets and Best: theorems.
--   Tests      runs of the above on concrete inputs.
--
-- How they interact: the scheduler fires the jobs of the registry, each by run_job; the job
-- process_extraction_queue claims the rows that mark_processing hands out; what it extracts is judged
-- by validate_candidate, and again by run_gate before promotion decides on it; the job
-- retry_failed_extractions puts failed rows back. Artifacts are classed by their identity and cut
-- into windows before extraction. begin_task resolves the context of a task, and mark_failure begins
-- it again after a failure.
--
-- State: a table is a list of rows, in the order of insertion, with the next id of AUTOINCREMENT
-- where rows are added. A time is a number of seconds, in the schedules of minutes, and the current
-- time is an argument. A JSON value is a tree where its shape is judged (Candidates), and
-- elsewhere its text or the record that it is made from. An exception is a
-- constructor of a result type. Coordinates, ids and counts are the native numbers; where the source
-- subtracts, the left side is not the smaller, or a maximum with 1 is taken of the difference. A score
-- is a fraction of two counts (Identity), compared exactly.
--
-- Bounds: the search of next_after has the 370 days of the source, 532801 minutes, as its fuel;
-- `none` is the ValueError of the source past that deadline. The digits of a number have one step
-- more than the number itself; the loops of _unit_spans and chunk_text_by_units have the length of
-- what they read, and end on it. All other loops are recursion on a list.
--
-- Arguments, for code that is not part of the repository or not modelled here: the calendar
-- (`datetime`), the tokens of `re`, casefold, int, the floats and the repr of a JSON list or object,
-- the lookups of notes, runtime.py and bridge.py under the orchestrator, and the callees of the jobs
-- (the record Callees), which return or raise and do not write job_runs. A callee of those branches of
-- run_job that open their run without committing it says besides whether it has rolled back the open
-- transaction, in which case the opened run is gone (run_uncommitted).
--
-- Not modelled: what does input and output (sockets, processes, HTTP, files, drawing), the
-- providers of language models and embeddings, the floating-point scores of retrieval and trust,
-- parsing of documents, and the reports extraction_status and collect_status_snapshot.
pub mod Base
pub mod Queue
pub mod Retry
pub mod Promotion
pub mod Candidates
pub mod Chunking
pub mod Daemon
pub mod Jobs
pub mod World
pub mod Orchestrator
pub mod Identity
pub mod Tests
