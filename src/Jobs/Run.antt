-- ===== src/Jobs/Run.antt =====
-- The jobs of jobs.py that have a function of their own, and `run_job`, which chooses among all. What
-- `_retry_failed_extractions_job` does to the queue is modelled in Retry.antt.
use mnemonic_os.Base.{
  length, not, Text, ℕ, ◌+◌, String, Bool, Option, none, some, List, [], ◌∷◌, ◌++◌, if◌then◌else◌,
  codes,
}
use mnemonic_os.Jobs.Ledger.{
  num, World, Outcome, returned, raised, JobRunResult, Ran, run_logged, log_returned,
}
use mnemonic_os.Jobs.Callees.{Callees, Call, Job, after_call, is_returned, job_named}
use mnemonic_os.Jobs.Wiki.{
  health_report_job, importance_scoring_job, rerank_training_job, lifecycle_audit_job,
  graph_rebuild_job, raw_revisitation_job, cluster_validation_job, pattern_discovery_job,
  neighbor_backfill_job, passive_feedback_job,
}

module _ {S : Type 0} (now : ℕ) (c : Callees S) (dry_run : Bool) where
  -- `_process_extraction_queue_job`
  unfoldable pub extraction_queue_body : S → Ran × S
  extraction_queue_body = after_call (c.process_extraction_queue dry_run) (λ stats. stats)

  unfoldable pub extraction_queue_job : World S → Outcome JobRunResult × World S
  unfolding run_logged extraction_queue_body
  extraction_queue_job = run_logged now "process_extraction_queue" dry_run extraction_queue_body

  -- `_process_promotion_queue_job`
  unfoldable pub promotion_queue_body : S → Ran × S
  promotion_queue_body = after_call (c.process_promotion_queue dry_run) (λ stats. stats)

  unfoldable pub promotion_queue_job : World S → Outcome JobRunResult × World S
  unfolding run_logged promotion_queue_body
  promotion_queue_job = run_logged now "process_promotion_queue" dry_run promotion_queue_body

  -- `_wiki_auto_resolve_review_job`
  unfoldable pub auto_resolve_body : S → Ran × S
  auto_resolve_body = after_call (c.run_auto_resolve dry_run) (λ stats. stats)

  unfoldable pub auto_resolve_job : World S → Outcome JobRunResult × World S
  unfolding run_logged auto_resolve_body
  auto_resolve_job = run_logged now "wiki_auto_resolve_review" dry_run auto_resolve_body

  -- The body of the loop of `_expire_stale_episodes_job`: a dry run ends no episode.
  abbrev end_one : ℕ → Call S (Unit {0})
  end_one e s = if dry_run then (returned tt, s) else c.end_episode e s

  -- The loop, with the numbers of episodes closed and failed.
  unfoldable pub expire_each : List ℕ → ℕ → ℕ → S → (ℕ × ℕ) × S
  expire_each [] closed errors s = ((closed, errors), s)
  expire_each (e ∷ es) closed errors s =
      let (r, s') = end_one e s in
      expire_each es (if is_returned r then closed + 1 else closed)
        (if is_returned r then errors else errors + 1) s'

  -- `_expire_stale_episodes_job` writes nothing to `job_runs`.
  unfoldable pub expire_stale_episodes_job : World S → Outcome JobRunResult × World S
  unfolding expire_each
  expire_stale_episodes_job w =
      let ((closed, errors), s) = expire_each (c.stale_episodes w.rest) 0 0 w.rest in
      (
        returned (record {
          job_name = "expire_stale_episodes";
          status = "ok";
          stats = ("closed", num closed) ∷ ("errors", num errors) ∷ [];
        }),
        record w { rest = s },
      )

  -- `_status_report_job`: the snapshot is taken before the run is opened.
  unfoldable pub status_report_job : World S → Outcome JobRunResult × World S
  unfolding log_returned
  status_report_job w =
      let (r, s) = c.collect_status w.rest in
      log_returned now "status_report" dry_run (λ stats. stats) r (record w { rest = s })

  -- The branch "sync_vault_incremental" of `run_job`: the run is opened when the sync has returned.
  unfoldable pub sync_vault_job : World S → Outcome JobRunResult × World S
  unfolding log_returned
  sync_vault_job w =
      let (r, s) = c.sync_vault w.rest in
      log_returned now "sync_vault_incremental" dry_run
        (λ result.
          ("scanned_paths", num result.scanned_paths)
          ∷ ("synced_notes", num result.synced_notes)
          ∷ ("deleted_notes", num result.deleted_notes)
          ∷ ("parse_errors", num result.parse_errors)
          ∷ [])
        r (record w { rest = s })

  -- The loop of `_embed_backfill`, with the number of chunks embedded. An exception rolls back what
  -- the loop has written, and keeps the number.
  unfoldable pub embed_each : List ℕ → ℕ → S → S → (ℕ × Option Text) × S
  embed_each [] n before s = ((n, none), s)
  embed_each (chunk ∷ chunks) n before s =
      let (r, s') = c.embed_chunk chunk s in
      elim r [ returned _ ↦ embed_each chunks (n + 1) before s' | raised e ↦ ((n, some e), before) ]

  -- The live run of `_embed_backfill`, once its chunks are read.
  unfoldable pub embed_chunks : List ℕ → S → Ran × S
  unfolding embed_each
  embed_chunks chunks s =
      let (r, s') = c.build_provider s in
      elim r [
        | raised e ↦
            (record { stats = ("archive_chunks_embedded", num 0) ∷ []; failure = some e }, s')
        | returned _ ↦
            let ((n, failure), s'') = embed_each chunks 0 s' s' in
            (record { stats = ("archive_chunks_embedded", num n) ∷ []; failure = failure }, s'')
      ]

  -- `_embed_backfill`
  unfoldable pub embed_backfill_body : S → Ran × S
  unfolding embed_chunks
  embed_backfill_body s =
      if not c.embeddings_enabled
      then (
        record {
          stats = ("archive_chunks_embedded", num 0) ∷ ("embeddings_disabled", num 1) ∷ [];
          failure = none;
        },
        s,
      )
      else if dry_run
      then (
        record {
          stats =
              ("archive_chunks_embedded", num 0)
              ∷ ("archive_chunks_pending", num (length (c.chunks_to_embed s)))
              ∷ [];
          failure = none;
        },
        s,
      )
      else embed_chunks (c.chunks_to_embed s) s

  unfoldable pub embed_backfill_job : World S → Outcome JobRunResult × World S
  unfolding run_logged embed_backfill_body
  embed_backfill_job = run_logged now "embed_backfill" dry_run embed_backfill_body

  -- `_retry_failed_extractions_job`, by what its `try` block does.
  unfoldable pub retry_body : S → Ran × S
  retry_body = after_call (c.retry_failed dry_run) (λ stats. stats)

  unfoldable pub retry_job : World S → Outcome JobRunResult × World S
  unfolding run_logged retry_body
  retry_job = run_logged now "retry_failed_extractions" dry_run retry_body

  unfoldable pub run_known : Job → World S → Outcome JobRunResult × World S
  run_known Job.extraction_queue = extraction_queue_job
  run_known Job.promotion_queue = promotion_queue_job
  run_known Job.expire_stale_episodes = expire_stale_episodes_job
  run_known Job.embed_backfill = embed_backfill_job
  run_known Job.status_report = status_report_job
  run_known Job.sync_vault_incremental = sync_vault_job
  run_known Job.wiki_health_report = health_report_job now c dry_run
  run_known Job.wiki_importance_scoring = importance_scoring_job now c dry_run
  run_known Job.rerank_training = rerank_training_job now c dry_run
  run_known Job.wiki_lifecycle_audit = lifecycle_audit_job now c dry_run
  run_known Job.wiki_graph_rebuild = graph_rebuild_job now c dry_run
  run_known Job.wiki_raw_revisitation = raw_revisitation_job now c dry_run
  run_known Job.wiki_cluster_validation = cluster_validation_job now c dry_run
  run_known Job.wiki_pattern_discovery = pattern_discovery_job now c dry_run
  run_known Job.wiki_embedding_neighbor_backfill = neighbor_backfill_job now c dry_run
  run_known Job.wiki_derive_passive_feedback = passive_feedback_job now c dry_run
  run_known Job.wiki_auto_resolve_review = auto_resolve_job
  run_known Job.retry_failed_extractions = retry_job

  -- What `run_job` does with the outcome of its tests; no test holds of an unsupported name.
  unfoldable pub run_selected : String → Option Job → World S → Outcome JobRunResult × World S
  unfolding run_known
  run_selected name (some job) w = run_known job w
  run_selected name none w = (raised (codes "unsupported job: " ++ codes name), w)

  unfoldable pub run_job : String → World S → Outcome JobRunResult × World S
  unfolding run_selected
  run_job name w = run_selected name (job_named name) w
