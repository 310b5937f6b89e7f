-- ===== src/Jobs/Closing.antt =====
-- What the jobs of jobs.py leave in `job_runs`, and what a dry run of them does.
use mnemonic_os.Base.{
  ℕ, ◌<◌, String, Text, Bool, true, false, Option, none, some, List, [], ◌∷◌, ◌++◌, ◌==◌, ◌≡◌, refl,
  arith, All, update_where, if◌then◌else◌, ==_iff,
}
use mnemonic_os.Jobs.Ledger.{
  Stats, ok, error, JobRun, World, Outcome, returned, raised, JobRunResult, Ran, mode_of,
  open_job_run, close_job_run, settle, run_logged, run_uncommitted,
}
use mnemonic_os.Jobs.Callees.{Callees, Job, job_name}
use mnemonic_os.Jobs.Wiki.{
  health_report_job, importance_scoring_job, rerank_training_job, lifecycle_audit_job,
  graph_rebuild_job, raw_revisitation_job, cluster_validation_job, pattern_discovery_job,
  neighbor_backfill_job, passive_feedback_job, health_report_body, importance_scoring_body,
  rerank_training_body, lifecycle_audit_body, graph_rebuild_body, raw_revisitation_body,
  cluster_validation_body, pattern_discovery_body, neighbor_backfill_body, passive_feedback_body,
  score_notes, train,
}
use mnemonic_os.Jobs.Run.{
  extraction_queue_job, promotion_queue_job, auto_resolve_job, embed_backfill_job, retry_job,
  run_known, extraction_queue_body, promotion_queue_body, auto_resolve_body, embed_backfill_body,
  retry_body,
}

-- The ids of the runs were all given before the next one.
abbrev pub FreshId : {S : Type 0} → World S → Type 0
FreshId w = All (λ r. r.id < w.next_id) w.runs

-- A run that was closed: the outcome gives its status, its text and, when the job returned, its stats.
abbrev pub closed_run : ℕ → Bool → String → ℕ → Outcome JobRunResult → Stats → JobRun
closed_run now dry_run name id (returned r) stats = record {
  id = id;
  job_name = name;
  mode = mode_of dry_run;
  status = ok;
  finished_at = some now;
  stats = r.stats;
  error_text = none;
}
closed_run now dry_run name id (raised e) stats = record {
  id = id;
  job_name = name;
  mode = mode_of dry_run;
  status = error;
  finished_at = some now;
  stats = stats;
  error_text = some e;
}

pub update_where-append_fresh :
    (f : JobRun → JobRun) (n : ℕ) (rs : List JobRun) (r : JobRun)
    → All (λ x. x.id < n) rs
    → r.id ≡ n
    → update_where (λ x. x.id == n) f (rs ++ (r ∷ [])) ≡ rs ++ (f r ∷ [])
update_where-append_fresh f n [] r h e = grind (arith, ==_iff)
update_where-append_fresh f n (x ∷ rs) r (hx, h) e =
    let rest = update_where-append_fresh f n rs r h e in grind (arith, rest, ==_iff)

pub update_where-fresh :
    (f : JobRun → JobRun) (n : ℕ) (rs : List JobRun)
    → All (λ x. x.id < n) rs
    → update_where (λ x. x.id == n) f rs ≡ rs
update_where-fresh f n [] h = refl
update_where-fresh f n (x ∷ rs) (hx, h) =
    let rest = update_where-fresh f n rs h in grind (arith, rest, ==_iff)

-- The jobs that open their run before they do anything: all but three.
abbrev pub is_logged : Job → Bool
is_logged Job.expire_stale_episodes = false
is_logged Job.status_report = false
is_logged Job.sync_vault_incremental = false
is_logged _ = true

module _ {S : Type 0} (now : ℕ) (dry_run : Bool) where
  -- What a job leaves that opened a run and closed it.
  abbrev pub Appended : String → World S → Outcome JobRunResult × World S → Type 0
  Appended name w (out, w') =
      (stats : Stats) × (w'.runs ≡ w.runs ++ (closed_run now dry_run name w.next_id out stats ∷ []))

  settle-appends :
      (name : String) (st : Stats) (failure : Option Text) (s : S) (w : World S)
      → FreshId w
      → Appended name w (
          settle now name w.next_id
            (record { stats = st; failure = failure })
            (record ((open_job_run name (mode_of dry_run) w).1) { rest = s }))
  unfolding settle open_job_run close_job_run
  settle-appends name st none s w fresh =
      (st, update_where-append_fresh _ w.next_id w.runs _ fresh refl)
  settle-appends name st (some e) s w fresh =
      (st, update_where-append_fresh _ w.next_id w.runs _ fresh refl)

  -- A job that opens a run, tries its body and closes the run.
  run_logged-appends :
      (name : String) (body : S → Ran × S) (w : World S)
      → FreshId w
      → Appended name w (run_logged now name dry_run body w)
  unfolding run_logged open_job_run
  run_logged-appends name body w fresh =
      settle-appends name (body w.rest).0.stats (body w.rest).0.failure (body w.rest).1 w fresh

  -- What a job leaves that has opened a run: where it is rolled back, no run and no id is used;
  -- otherwise that run is appended, and closed.
  abbrev pub Logged : Bool → String → World S → Outcome JobRunResult × World S → Type 0
  Logged true name w (out, w') = (w'.runs ≡ w.runs) × (w'.next_id ≡ w.next_id)
  Logged false name w r = Appended name w r

  settle-undone :
      (name : String) (st : Stats) (failure : Option Text) (s : S) (w : World S)
      → FreshId w
      → Logged true name w (
          settle now name w.next_id
            (record { stats = st; failure = failure })
            (record w { rest = s }))
  unfolding settle close_job_run
  settle-undone name st none s w fresh = (update_where-fresh _ w.next_id w.runs fresh, refl)
  settle-undone name st (some e) s w fresh = (update_where-fresh _ w.next_id w.runs fresh, refl)

  -- A branch that opens a run without committing it.
  run_uncommitted-logs :
      (name : String) (body : S → (Ran × Bool) × S) (w : World S)
      → FreshId w
      → Logged (body w.rest).0.1 name w (run_uncommitted now name dry_run body w)
  unfolding run_uncommitted open_job_run
  run_uncommitted-logs name body w fresh = go (body w.rest).0.1
    where
      go :
          (undone : Bool)
          → Logged undone name w (
              settle now name w.next_id
                (body w.rest).0.0
                (record (if undone then w else (open_job_run name (mode_of dry_run) w).1) {
                  rest = (body w.rest).1;
                }))
      go true =
          settle-undone name (body w.rest).0.0.stats (body w.rest).0.0.failure (body w.rest).1 w
            fresh
      go false =
          settle-appends name (body w.rest).0.0.stats (body w.rest).0.0.failure (body w.rest).1 w
            fresh

  -- Whether a job's callee rolls back the transaction of its run: only where the run is opened in
  -- the transaction that the callee works in.
  abbrev pub erases_run : Callees S → Job → S → Bool
  erases_run c Job.wiki_health_report s = (c.wiki_health dry_run s).0.1
  erases_run c Job.wiki_importance_scoring s = (score_notes now c dry_run s).0.1
  erases_run c Job.rerank_training s = (train now c dry_run s).0.1
  erases_run c Job.wiki_lifecycle_audit s = (c.audit_lifecycle_states dry_run s).0.1
  erases_run c Job.wiki_graph_rebuild s = (c.rebuild_wiki_graph dry_run s).0.1
  erases_run c Job.wiki_raw_revisitation s = (c.run_raw_revisitation dry_run s).0.1
  erases_run c Job.wiki_cluster_validation s = (c.run_cluster_validation dry_run s).0.1
  erases_run c Job.wiki_pattern_discovery s = (c.run_pattern_discovery dry_run s).0.1
  erases_run c Job.wiki_embedding_neighbor_backfill s = (c.run_embedding_neighbor_backfill s).0.1
  erases_run c Job.wiki_derive_passive_feedback s = (c.derive_passive_feedback dry_run s).0.1
  erases_run c _ s = false

  -- If the ids in `job_runs` are all below the next one, a job other than the expiry of episodes,
  -- the status report and the vault's sync does one of two things. Where its callee rolls back the
  -- transaction in which the run was opened, which only the branches that open it uncommitted
  -- allow, `job_runs` has the rows of before and the id is not used, whether the job then returns
  -- or raises. Otherwise exactly one run is appended, under the job's own name and mode and closed:
  -- as ok with the stats of the result when the job returns, as error with the exception's text
  -- when it raises.
  pub run_known-appends :
      (c : Callees S) (job : Job) (w : World S)
      → FreshId w
      → is_logged job ≡ true
      → Logged (erases_run c job w.rest) (job_name job) w (run_known now c dry_run job w)
  unfolding run_known job_name extraction_queue_job promotion_queue_job auto_resolve_job
      embed_backfill_job retry_job health_report_job importance_scoring_job rerank_training_job
      lifecycle_audit_job graph_rebuild_job raw_revisitation_job cluster_validation_job
      pattern_discovery_job neighbor_backfill_job passive_feedback_job health_report_body
      importance_scoring_body rerank_training_body lifecycle_audit_body graph_rebuild_body
      raw_revisitation_body cluster_validation_body pattern_discovery_body neighbor_backfill_body
      passive_feedback_body
  run_known-appends c Job.promotion_queue w fresh l =
      run_logged-appends "process_promotion_queue" (promotion_queue_body now c dry_run) w fresh
  run_known-appends c Job.extraction_queue w fresh l =
      run_logged-appends "process_extraction_queue" (extraction_queue_body now c dry_run) w fresh
  run_known-appends c Job.embed_backfill w fresh l =
      run_logged-appends "embed_backfill" (embed_backfill_body now c dry_run) w fresh
  run_known-appends c Job.wiki_health_report w fresh l =
      run_uncommitted-logs "wiki_health_report" (health_report_body now c dry_run) w fresh
  run_known-appends c Job.wiki_importance_scoring w fresh l =
      run_uncommitted-logs "wiki_importance_scoring" (importance_scoring_body now c dry_run) w fresh
  run_known-appends c Job.rerank_training w fresh l =
      run_uncommitted-logs "rerank_training" (rerank_training_body now c dry_run) w fresh
  run_known-appends c Job.wiki_lifecycle_audit w fresh l =
      run_uncommitted-logs "wiki_lifecycle_audit" (lifecycle_audit_body now c dry_run) w fresh
  run_known-appends c Job.wiki_graph_rebuild w fresh l =
      run_uncommitted-logs "wiki_graph_rebuild" (graph_rebuild_body now c dry_run) w fresh
  run_known-appends c Job.wiki_raw_revisitation w fresh l =
      run_uncommitted-logs "wiki_raw_revisitation" (raw_revisitation_body now c dry_run) w fresh
  run_known-appends c Job.wiki_cluster_validation w fresh l =
      run_uncommitted-logs "wiki_cluster_validation" (cluster_validation_body now c dry_run) w fresh
  run_known-appends c Job.wiki_pattern_discovery w fresh l =
      run_uncommitted-logs "wiki_pattern_discovery" (pattern_discovery_body now c dry_run) w fresh
  run_known-appends c Job.wiki_embedding_neighbor_backfill w fresh l =
      run_uncommitted-logs "wiki_embedding_neighbor_backfill" (neighbor_backfill_body now c dry_run)
        w fresh
  run_known-appends c Job.wiki_derive_passive_feedback w fresh l =
      run_uncommitted-logs "wiki_derive_passive_feedback" (passive_feedback_body now c dry_run) w
        fresh
  run_known-appends c Job.wiki_auto_resolve_review w fresh l =
      run_logged-appends "wiki_auto_resolve_review" (auto_resolve_body now c dry_run) w fresh
  run_known-appends c Job.retry_failed_extractions w fresh l =
      run_logged-appends "retry_failed_extractions" (retry_body now c dry_run) w fresh
  run_known-appends c Job.expire_stale_episodes w fresh l = ground (arith, l)
  run_known-appends c Job.status_report w fresh l = ground (arith, l)
  run_known-appends c Job.sync_vault_incremental w fresh l = ground (arith, l)
