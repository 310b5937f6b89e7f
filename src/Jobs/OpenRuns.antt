-- ===== src/Jobs/OpenRuns.antt =====
-- No job of jobs.py leaves its run in `job_runs` open.
use mnemonic_os.Base.{
  ℕ, ◌+◌, String, Bool, true, false, Option, none, some, List, [], ◌∷◌, ◌++◌, ◌≡◌, refl, ap, arith,
  count_where,
}
use mnemonic_os.Jobs.Ledger.{
  Stats, started, ok, error, JobRun, World, Outcome, returned, raised, JobRunResult, open_job_run,
  close_job_run, log_returned,
}
use mnemonic_os.Jobs.Callees.{Callees, Job, job_name, job_named}
use mnemonic_os.Jobs.Run.{
  expire_stale_episodes_job, status_report_job, sync_vault_job, run_known, run_selected, run_job,
}
use mnemonic_os.Jobs.Closing.{
  FreshId, closed_run, update_where-append_fresh, is_logged, Appended, Logged, erases_run,
  run_known-appends,
}

abbrev pub is_open : JobRun → Bool
is_open r = elim r.status [ started ↦ true | ok ↦ false | error ↦ false ]

count_where-append :
    {A : Type 0} (p : A → Bool) (xs ys : List A)
    → count_where p (xs ++ ys) ≡ count_where p xs + count_where p ys
count_where-append p [] ys = omega arith
count_where-append p (x ∷ xs) ys = ground (arith, count_where-append p xs ys)

closed_run-is_open :
    (now : ℕ) (dry_run : Bool) (name : String) (id : ℕ) (out : Outcome JobRunResult) (stats : Stats)
    → is_open (closed_run now dry_run name id out stats) ≡ false
closed_run-is_open now dry_run name id (returned r) stats = refl
closed_run-is_open now dry_run name id (raised e) stats = refl

module _ {S : Type 0} (now : ℕ) (dry_run : Bool) where
  Appended-open_runs :
      (name : String) (w : World S) (r : Outcome JobRunResult × World S)
      → Appended now dry_run name w r
      → count_where is_open r.1.runs ≡ count_where is_open w.runs
  Appended-open_runs name w (out, w') (stats, e) = grind (
    arith,
    ap (count_where is_open) e,
    count_where-append is_open w.runs (closed_run now dry_run name w.next_id out stats ∷ []),
    closed_run-is_open now dry_run name w.next_id out stats,
  )

  Logged-open_runs :
      (undone : Bool) (name : String) (w : World S) (r : Outcome JobRunResult × World S)
      → Logged now dry_run undone name w r
      → count_where is_open r.1.runs ≡ count_where is_open w.runs
  Logged-open_runs true name w (out, w') (same, _) = ap (count_where is_open) same
  Logged-open_runs false name w r appended = Appended-open_runs name w r appended

  log_returned-open_runs :
      {A : Type 0} (name : String) (fill : A → Stats) (out : Outcome A) (w : World S)
      → FreshId w
      → count_where is_open (log_returned now name dry_run fill out w).1.runs
        ≡ count_where is_open w.runs
  unfolding log_returned open_job_run close_job_run
  log_returned-open_runs name fill (raised e) w fresh = refl
  log_returned-open_runs name fill (returned a) w fresh =
      Appended-open_runs name w (log_returned now name dry_run fill (returned a) w)
        (fill a, update_where-append_fresh _ w.next_id w.runs _ fresh refl)

  logged-open_runs :
      (c : Callees S) (job : Job) (w : World S)
      → FreshId w
      → is_logged job ≡ true
      → count_where is_open (run_known now c dry_run job w).1.runs ≡ count_where is_open w.runs
  logged-open_runs c job w fresh l =
      Logged-open_runs (erases_run now dry_run c job w.rest) (job_name job) w
        (run_known now c dry_run job w) (run_known-appends now dry_run c job w fresh l)

  run_known-open_runs :
      (c : Callees S) (job : Job) (w : World S)
      → FreshId w
      → count_where is_open (run_known now c dry_run job w).1.runs ≡ count_where is_open w.runs
  unfolding run_known expire_stale_episodes_job status_report_job sync_vault_job
  run_known-open_runs c Job.expire_stale_episodes w fresh = refl
  run_known-open_runs c Job.status_report w fresh =
      log_returned-open_runs "status_report" (λ stats. stats) (c.collect_status w.rest).0
        (record w { rest = (c.collect_status w.rest).1 }) fresh
  run_known-open_runs c Job.sync_vault_incremental w fresh =
      log_returned-open_runs "sync_vault_incremental" _ (c.sync_vault w.rest).0
        (record w { rest = (c.sync_vault w.rest).1 }) fresh
  run_known-open_runs c Job.promotion_queue w fresh =
      logged-open_runs c Job.promotion_queue w fresh refl
  run_known-open_runs c Job.extraction_queue w fresh =
      logged-open_runs c Job.extraction_queue w fresh refl
  run_known-open_runs c Job.embed_backfill w fresh =
      logged-open_runs c Job.embed_backfill w fresh refl
  run_known-open_runs c Job.wiki_health_report w fresh =
      logged-open_runs c Job.wiki_health_report w fresh refl
  run_known-open_runs c Job.wiki_importance_scoring w fresh =
      logged-open_runs c Job.wiki_importance_scoring w fresh refl
  run_known-open_runs c Job.rerank_training w fresh =
      logged-open_runs c Job.rerank_training w fresh refl
  run_known-open_runs c Job.wiki_lifecycle_audit w fresh =
      logged-open_runs c Job.wiki_lifecycle_audit w fresh refl
  run_known-open_runs c Job.wiki_graph_rebuild w fresh =
      logged-open_runs c Job.wiki_graph_rebuild w fresh refl
  run_known-open_runs c Job.wiki_raw_revisitation w fresh =
      logged-open_runs c Job.wiki_raw_revisitation w fresh refl
  run_known-open_runs c Job.wiki_cluster_validation w fresh =
      logged-open_runs c Job.wiki_cluster_validation w fresh refl
  run_known-open_runs c Job.wiki_pattern_discovery w fresh =
      logged-open_runs c Job.wiki_pattern_discovery w fresh refl
  run_known-open_runs c Job.wiki_embedding_neighbor_backfill w fresh =
      logged-open_runs c Job.wiki_embedding_neighbor_backfill w fresh refl
  run_known-open_runs c Job.wiki_derive_passive_feedback w fresh =
      logged-open_runs c Job.wiki_derive_passive_feedback w fresh refl
  run_known-open_runs c Job.wiki_auto_resolve_review w fresh =
      logged-open_runs c Job.wiki_auto_resolve_review w fresh refl
  run_known-open_runs c Job.retry_failed_extractions w fresh =
      logged-open_runs c Job.retry_failed_extractions w fresh refl

  selected-open_runs :
      (c : Callees S) (name : String) (job : Option Job) (w : World S)
      → FreshId w
      → count_where is_open (run_selected now c dry_run name job w).1.runs
        ≡ count_where is_open w.runs
  unfolding run_selected
  selected-open_runs c name none w fresh = refl
  selected-open_runs c name (some job) w fresh = run_known-open_runs c job w fresh

  -- If the ids in `job_runs` are all below the next one, then whatever the name and whatever the
  -- callees do, `run_job` leaves as many runs open as it found: a run that it opens is closed, also
  -- when the job raises, or is rolled back by the callee.
  pub run_job-open_runs :
      (c : Callees S) (name : String) (w : World S)
      → FreshId w
      → count_where is_open (run_job now c dry_run name w).1.runs ≡ count_where is_open w.runs
  unfolding run_job run_selected
  run_job-open_runs c name w fresh = selected-open_runs c name (job_named name) w fresh
