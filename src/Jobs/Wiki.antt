-- ===== src/Jobs/Wiki.antt =====
-- The branches of `run_job` (jobs.py) that call maintenance.py and trust.py.
use mnemonic_os.Base.{ℕ, Text, Bool, true, false, Option, none, some, List, [], ◌∷◌, if◌then◌else◌}
use mnemonic_os.Jobs.Ledger.{
  num, flag, texts, Stats, World, Outcome, returned, raised, JobRunResult, Ran, run_uncommitted,
}
use mnemonic_os.Jobs.Callees.{Callees, SharedCall, Health, RerankModel, after_shared}

module _ {S : Type 0} (now : ℕ) (c : Callees S) (dry_run : Bool) where
  abbrev health_stats : Health → Stats
  health_stats h =
      ("wiki_total_notes", num h.total_notes)
      ∷ ("wiki_orphan_notes", num h.orphan_note_count)
      ∷ ("semantic_dedup_candidates", num h.dedup_pairs)
      ∷ []

  -- The reports of a live run are written after `stats` is filled.
  abbrev write_reports : Stats → S → Ran × S
  write_reports stats s =
      let (r, s') = c.write_overview_and_active s in
      (record { stats = stats; failure = elim r [ returned _ ↦ none | raised e ↦ some e ] }, s')

  -- A dry run writes no reports.
  abbrev report : Outcome Health → S → Ran × S
  report (raised e) s = (record { stats = []; failure = some e }, s)
  report (returned h) s =
      let written = write_reports (health_stats h) s in
      if dry_run then (record { stats = health_stats h; failure = none }, s) else written

  -- "wiki_health_report"
  unfoldable pub health_report_body : S → (Ran × Bool) × S
  health_report_body s =
      let ((r, undone), s') = c.wiki_health dry_run s in
      let (ran, s'') = report r s' in ((ran, undone), s'')

  unfoldable pub health_report_job : World S → Outcome JobRunResult × World S
  unfolding run_uncommitted health_report_body
  health_report_job = run_uncommitted now "wiki_health_report" dry_run health_report_body

  -- A dry run makes no call.
  abbrev pub score_notes : SharedCall S ℕ
  score_notes s = if dry_run then ((returned 0, false), s) else c.compute_importance_scores s

  -- "wiki_importance_scoring"
  unfoldable pub importance_scoring_body : S → (Ran × Bool) × S
  importance_scoring_body =
      after_shared score_notes (λ scored. ("importance_notes_scored", num scored) ∷ [])

  unfoldable pub importance_scoring_job : World S → Outcome JobRunResult × World S
  unfolding run_uncommitted importance_scoring_body
  importance_scoring_job =
      run_uncommitted now "wiki_importance_scoring" dry_run importance_scoring_body

  abbrev rerank_stats : Option RerankModel → Stats
  rerank_stats none = ("sample_count", num 0) ∷ ("fallback", flag true) ∷ []
  rerank_stats (some m) =
      ("sample_count", num m.sample_count)
      ∷ ("fallback", flag m.fallback)
      ∷ ("weight_count", num m.weights)
      ∷ []

  -- A dry run makes no call, and has no model.
  abbrev pub train : SharedCall S (Option RerankModel)
  train s =
      let ((r, undone), s') = c.train_rerank_model s in
      if dry_run
      then ((returned none, false), s)
      else ((elim r [ returned m ↦ returned (some m) | raised e ↦ raised e ], undone), s')

  -- "rerank_training"
  unfoldable pub rerank_training_body : S → (Ran × Bool) × S
  rerank_training_body = after_shared train rerank_stats

  unfoldable pub rerank_training_job : World S → Outcome JobRunResult × World S
  unfolding run_uncommitted rerank_training_body
  rerank_training_job = run_uncommitted now "rerank_training" dry_run rerank_training_body

  -- "wiki_lifecycle_audit"
  unfoldable pub lifecycle_audit_body : S → (Ran × Bool) × S
  lifecycle_audit_body = after_shared (c.audit_lifecycle_states dry_run) (λ r.
      ("notes_scanned", num r.notes_scanned)
      ∷ ("advanced_to_verified", num r.advanced_to_verified)
      ∷ ("advanced_to_canonical", num r.advanced_to_canonical)
      ∷ ("drift_flagged", num r.drift_flagged)
      ∷ [])

  unfoldable pub lifecycle_audit_job : World S → Outcome JobRunResult × World S
  unfolding run_uncommitted lifecycle_audit_body
  lifecycle_audit_job = run_uncommitted now "wiki_lifecycle_audit" dry_run lifecycle_audit_body

  -- "wiki_graph_rebuild"
  unfoldable pub graph_rebuild_body : S → (Ran × Bool) × S
  graph_rebuild_body = after_shared (c.rebuild_wiki_graph dry_run) (λ r.
      ("notes_scanned", num r.notes_scanned)
      ∷ ("notes_rebuilt", num r.notes_rebuilt)
      ∷ ("stale_edges_pruned", num r.stale_edges_pruned)
      ∷ ("orphan_nodes_pruned", num r.orphan_nodes_pruned)
      ∷ [])

  unfoldable pub graph_rebuild_job : World S → Outcome JobRunResult × World S
  unfolding run_uncommitted graph_rebuild_body
  graph_rebuild_job = run_uncommitted now "wiki_graph_rebuild" dry_run graph_rebuild_body

  -- "wiki_raw_revisitation"
  unfoldable pub raw_revisitation_body : S → (Ran × Bool) × S
  raw_revisitation_body = after_shared (c.run_raw_revisitation dry_run) (λ r.
      ("sources_requeued", num r.sources_requeued)
      ∷ ("sources_skipped", num r.sources_skipped)
      ∷ ("context_injected_count", num r.context_injected_count)
      ∷ [])

  unfoldable pub raw_revisitation_job : World S → Outcome JobRunResult × World S
  unfolding run_uncommitted raw_revisitation_body
  raw_revisitation_job = run_uncommitted now "wiki_raw_revisitation" dry_run raw_revisitation_body

  -- "wiki_cluster_validation"
  unfoldable pub cluster_validation_body : S → (Ran × Bool) × S
  cluster_validation_body = after_shared (c.run_cluster_validation dry_run) (λ r.
      ("clusters_processed", num r.clusters_processed)
      ∷ ("links_confirmed", num r.links_confirmed)
      ∷ ("links_removed", num r.links_removed)
      ∷ ("merge_reviews_created", num r.merge_reviews_created)
      ∷ ("patterns_named", num r.patterns_named)
      ∷ [])

  unfoldable pub cluster_validation_job : World S → Outcome JobRunResult × World S
  unfolding run_uncommitted cluster_validation_body
  cluster_validation_job =
      run_uncommitted now "wiki_cluster_validation" dry_run cluster_validation_body

  -- "wiki_pattern_discovery"
  unfoldable pub pattern_discovery_body : S → (Ran × Bool) × S
  pattern_discovery_body = after_shared (c.run_pattern_discovery dry_run) (λ r.
      ("channel_2_candidates", num r.channel_2_candidates)
      ∷ ("channel_3_candidates", num r.channel_3_candidates)
      ∷ ("archetypes_confirmed", num r.archetypes_confirmed)
      ∷ ("archetypes_rejected", num r.archetypes_rejected)
      ∷ ("edges_updated", num r.edges_updated)
      ∷ [])

  unfoldable pub pattern_discovery_job : World S → Outcome JobRunResult × World S
  unfolding run_uncommitted pattern_discovery_body
  pattern_discovery_job =
      run_uncommitted now "wiki_pattern_discovery" dry_run pattern_discovery_body

  -- "wiki_embedding_neighbor_backfill": the callee is not told of a dry run.
  unfoldable pub neighbor_backfill_body : S → (Ran × Bool) × S
  neighbor_backfill_body =
      after_shared c.run_embedding_neighbor_backfill
        (λ links. ("neighbor_links_asserted", num links) ∷ [])

  unfoldable pub neighbor_backfill_job : World S → Outcome JobRunResult × World S
  unfolding run_uncommitted neighbor_backfill_body
  neighbor_backfill_job =
      run_uncommitted now "wiki_embedding_neighbor_backfill" dry_run neighbor_backfill_body

  abbrev errors_listed : List Text → Stats
  errors_listed [] = []
  errors_listed (e ∷ es) = ("errors", texts (e ∷ es)) ∷ []

  -- "wiki_derive_passive_feedback": `errors` is listed only if there are any.
  unfoldable pub passive_feedback_body : S → (Ran × Bool) × S
  passive_feedback_body = after_shared (c.derive_passive_feedback dry_run) (λ r.
      ("inline_processed", num r.inline_processed)
      ∷ ("post_hoc_processed", num r.post_hoc_processed)
      ∷ ("feedback_written", num r.feedback_written)
      ∷ ("trust_updated", num r.trust_updated)
      ∷ ("freshness_updated", num r.freshness_updated)
      ∷ ("skipped", num r.skipped)
      ∷ errors_listed r.errors)

  unfoldable pub passive_feedback_job : World S → Outcome JobRunResult × World S
  unfolding run_uncommitted passive_feedback_body
  passive_feedback_job =
      run_uncommitted now "wiki_derive_passive_feedback" dry_run passive_feedback_body
