-- ===== src/Jobs/DryRun.antt =====
-- What a dry run of the jobs of jobs.py does to the state, the table `job_runs` aside.
use mnemonic_os.Base.{
  ℕ, String, Text, Bool, true, false, Option, none, some, List, [], ◌∷◌, ◌≡◌, ◌∙◌, refl, sym,
}
use mnemonic_os.Jobs.Ledger.{
  Stats, World, Outcome, returned, raised, Ran, open_job_run, close_job_run, settle,
  run_uncommitted, log_returned,
}
use mnemonic_os.Jobs.Callees.{Callees, Job}
use mnemonic_os.Jobs.Wiki.{
  importance_scoring_body, importance_scoring_job, rerank_training_body, rerank_training_job,
  neighbor_backfill_body, neighbor_backfill_job,
}
use mnemonic_os.Jobs.Run.{expire_each, expire_stale_episodes_job, sync_vault_job, run_known}

module _ {S : Type 0} (now : ℕ) where
  settle-rest :
      (name : String) (id : ℕ) (stats : Stats) (failure : Option Text) (w : World S)
      → (settle now name id (record { stats = stats; failure = failure }) w).1.rest ≡ w.rest
  unfolding settle close_job_run
  settle-rest name id stats none w = refl
  settle-rest name id stats (some e) w = refl

  run_uncommitted-rest :
      (name : String) (dry_run : Bool) (body : S → (Ran × Bool) × S) (w : World S)
      → (run_uncommitted now name dry_run body w).1.rest ≡ (body w.rest).1
  unfolding run_uncommitted open_job_run
  run_uncommitted-rest name dry_run body w =
      settle-rest name w.next_id (body w.rest).0.0.stats (body w.rest).0.0.failure _

  log_returned-rest :
      {A : Type 0} (name : String) (dry_run : Bool) (fill : A → Stats) (out : Outcome A)
      (w : World S)
      → (log_returned now name dry_run fill out w).1.rest ≡ w.rest
  unfolding log_returned open_job_run close_job_run
  log_returned-rest name dry_run fill (raised e) w = refl
  log_returned-rest name dry_run fill (returned a) w = refl

  sync_vault-rest :
      (c : Callees S) (dry_run : Bool) (w : World S)
      → (sync_vault_job now c dry_run w).1.rest ≡ (c.sync_vault w.rest).1
  unfolding sync_vault_job
  sync_vault-rest c dry_run w =
      log_returned-rest "sync_vault_incremental" dry_run _ (c.sync_vault w.rest).0 _

  neighbor_backfill-rest :
      (c : Callees S) (dry_run : Bool) (w : World S)
      → (neighbor_backfill_job now c dry_run w).1.rest
        ≡ (c.run_embedding_neighbor_backfill w.rest).1
  unfolding neighbor_backfill_job neighbor_backfill_body
  neighbor_backfill-rest c dry_run w =
      run_uncommitted-rest "wiki_embedding_neighbor_backfill" dry_run
        (neighbor_backfill_body now c dry_run) w

  -- A dry run of the vault's sync, and one of the neighbour backfill, leave the state, `job_runs`
  -- aside, as a live run of them leaves it.
  pub run_known-ignores_dry_run :
      (c : Callees S) (w : World S)
      → ((run_known now c true Job.sync_vault_incremental w).1.rest
          ≡ (run_known now c false Job.sync_vault_incremental w).1.rest)
        × ((run_known now c true Job.wiki_embedding_neighbor_backfill w).1.rest
            ≡ (run_known now c false Job.wiki_embedding_neighbor_backfill w).1.rest)
  unfolding run_known
  run_known-ignores_dry_run c w = (
    sync_vault-rest c true w ∙ sym (sync_vault-rest c false w),
    neighbor_backfill-rest c true w ∙ sym (neighbor_backfill-rest c false w),
  )

  expire_each-dry_run :
      (c : Callees S) (es : List ℕ) (closed errors : ℕ) (s : S)
      → (expire_each now c true es closed errors s).1 ≡ s
  unfolding expire_each
  expire_each-dry_run c [] closed errors s = refl
  expire_each-dry_run c (e ∷ es) closed errors s = expire_each-dry_run c es _ _ s

  -- A dry run of the expiry of episodes, of the importance scoring and of the rerank training
  -- leaves the state, `job_runs` aside, as it was.
  pub run_known-dry_run :
      (c : Callees S) (w : World S)
      → ((run_known now c true Job.expire_stale_episodes w).1.rest ≡ w.rest)
        × ((run_known now c true Job.wiki_importance_scoring w).1.rest ≡ w.rest)
        × ((run_known now c true Job.rerank_training w).1.rest ≡ w.rest)
  unfolding run_known expire_stale_episodes_job importance_scoring_job importance_scoring_body
      rerank_training_job rerank_training_body
  run_known-dry_run c w = (
    expire_each-dry_run c (c.stale_episodes w.rest) 0 0 w.rest,
    run_uncommitted-rest "wiki_importance_scoring" true (importance_scoring_body now c true) w,
    run_uncommitted-rest "rerank_training" true (rerank_training_body now c true) w,
  )
