-- ===== src/Tests/JobRuns.antt =====
-- Runs of the jobs, with callees that count their calls.
use mnemonic_os.Base.{ℕ, suc, ◌≡◌, refl, true, false, none, [], ◌∷◌, codes, count_where}
use mnemonic_os.Jobs.Ledger.{num, World, returned, raised}
use mnemonic_os.Jobs.Callees.{Callees, Call, SharedCall, Job, job_name}
use mnemonic_os.Jobs.Run.{run_known, run_job}
use mnemonic_os.Jobs.Closing.{Appended, Logged, run_known-appends}
use mnemonic_os.Jobs.OpenRuns.{is_open, run_job-open_runs}
use mnemonic_os.Base.{Text, some, ◌⊎◌, List, length}
use mnemonic_os.Jobs.Run.{embed_chunks}
use mnemonic_os.Jobs.Embedding.{embedded, Embeds, FailsAfter, embed_chunks-AllOrNothing}
use mnemonic_os.Jobs.DryRun.{run_known-ignores_dry_run}

abbrev counted : {A : Type 0} → A → Call ℕ A
counted a calls = (returned a, suc calls)

-- A call that leaves the open transaction, and one that rolls it back.
abbrev kept : {A : Type 0} → A → SharedCall ℕ A
kept a calls = ((returned a, false), suc calls)

abbrev undone : {A : Type 0} → A → SharedCall ℕ A
undone a calls = ((returned a, true), suc calls)

-- The passive feedback rolls back and returns. Callees that return, but for the promotion queue, which raises.
abbrev callees : Callees ℕ
callees = record {
  process_extraction_queue = λ _. counted (("processed", num 2) ∷ []);
  process_promotion_queue = λ _ calls. (raised (codes "no model"), suc calls);
  run_auto_resolve = λ _. counted [];
  retry_failed = λ _. counted [];
  embeddings_enabled = true;
  chunks_to_embed = λ _. 7 ∷ 8 ∷ [];
  build_provider = counted tt;
  embed_chunk = λ _ calls. (raised (codes "no server"), suc calls);
  collect_status = counted [];
  stale_episodes = λ _. 1 ∷ 2 ∷ [];
  end_episode = λ _. counted tt;
  sync_vault =
      counted (record { scanned_paths = 3; synced_notes = 1; deleted_notes = 0; parse_errors = 0 });
  wiki_health = λ _. kept (record { total_notes = 3; orphan_note_count = 1; dedup_pairs = 0 });
  write_overview_and_active = counted tt;
  compute_importance_scores = kept 3;
  train_rerank_model = kept (record { sample_count = 0; fallback = true; weights = 4 });
  audit_lifecycle_states = λ _. kept (record {
    notes_scanned = 3;
    advanced_to_verified = 0;
    advanced_to_canonical = 0;
    drift_flagged = 0;
  });
  rebuild_wiki_graph = λ _. kept (record {
    notes_scanned = 3;
    notes_rebuilt = 3;
    stale_edges_pruned = 0;
    orphan_nodes_pruned = 0;
  });
  run_raw_revisitation =
      λ _. kept (record { sources_requeued = 0; sources_skipped = 0; context_injected_count = 0 });
  run_cluster_validation = λ _. kept (record {
    clusters_processed = 0;
    links_confirmed = 0;
    links_removed = 0;
    merge_reviews_created = 0;
    patterns_named = 0;
  });
  run_pattern_discovery = λ _. kept (record {
    channel_2_candidates = 0;
    channel_3_candidates = 0;
    archetypes_confirmed = 0;
    archetypes_rejected = 0;
    edges_updated = 0;
  });
  run_embedding_neighbor_backfill = kept 5;
  derive_passive_feedback = λ _. undone (record {
    inline_processed = 0;
    post_hoc_processed = 0;
    feedback_written = 0;
    trust_updated = 0;
    freshness_updated = 0;
    skipped = 0;
    errors = codes "no note" ∷ [];
  });
}

abbrev start : World ℕ
start = record { runs = []; next_id = 1; rest = 0 }

run_job-open_runs_example :
    count_where is_open (run_job 50 callees false "process_promotion_queue" start).1.runs
    ≡ count_where is_open start.runs
run_job-open_runs_example = run_job-open_runs 50 false callees "process_promotion_queue" start tt

-- The run of the passive feedback is lost, and the job returns.
run_known-appends_example :
    Logged 50 false true
      (job_name Job.wiki_derive_passive_feedback)
      start
      (run_known 50 callees false Job.wiki_derive_passive_feedback start)
run_known-appends_example =
    run_known-appends 50 false callees Job.wiki_derive_passive_feedback start tt refl

promotion-Appended :
    Appended 50 false
      (job_name Job.promotion_queue)
      start
      (run_known 50 callees false Job.promotion_queue start)
promotion-Appended = run_known-appends 50 false callees Job.promotion_queue start tt refl

run_known-ignores_dry_run_example :
    ((run_known 50 callees true Job.sync_vault_incremental start).1.rest
      ≡ (run_known 50 callees false Job.sync_vault_incremental start).1.rest)
    × ((run_known 50 callees true Job.wiki_embedding_neighbor_backfill start).1.rest
        ≡ (run_known 50 callees false Job.wiki_embedding_neighbor_backfill start).1.rest)
run_known-ignores_dry_run_example = run_known-ignores_dry_run 50 callees start

embed_chunks-AllOrNothing_example :
    let (ran, after) = embed_chunks 50 callees false (7 ∷ 8 ∷ []) 0 in
    ((ran.failure ≡ none) × (ran.stats ≡ embedded 2) × Embeds callees (7 ∷ 8 ∷ []) 1 after)
    ⊎ ((e : Text) × (done : List ℕ) × (ran.failure ≡ some e)
        × FailsAfter callees (7 ∷ 8 ∷ []) done 1 e
        × (ran.stats ≡ embedded (length done))
        × (after ≡ 1))
embed_chunks-AllOrNothing_example = embed_chunks-AllOrNothing 50 callees (7 ∷ 8 ∷ []) 0 refl
