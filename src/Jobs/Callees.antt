-- ===== src/Jobs/Callees.antt =====
-- What the jobs of jobs.py call in other modules, their results, and the names of the jobs.
use mnemonic_os.Base.{
  ℕ, String, Text, Bool, true, false, Option, none, some, List, [], ◌∷◌, if◌then◌else◌, str_eq,
}
use mnemonic_os.Jobs.Ledger.{Stats, Outcome, returned, raised, Ran}

-- `LifecycleAuditResult`, `GraphRebuildResult`, `RevisitationResult`, `ClusterValidationResult`,
-- `PatternDiscoveryResult` and `PassiveFeedbackResult` of maintenance.py, `SyncResult` of models.py,
-- as far as the jobs read them.
pub record SyncResult : Type 0 where
  pub scanned_paths : ℕ
  pub synced_notes : ℕ
  pub deleted_notes : ℕ
  pub parse_errors : ℕ

pub record LifecycleAuditResult : Type 0 where
  pub notes_scanned : ℕ
  pub advanced_to_verified : ℕ
  pub advanced_to_canonical : ℕ
  pub drift_flagged : ℕ

pub record GraphRebuildResult : Type 0 where
  pub notes_scanned : ℕ
  pub notes_rebuilt : ℕ
  pub stale_edges_pruned : ℕ
  pub orphan_nodes_pruned : ℕ

pub record RevisitationResult : Type 0 where
  pub sources_requeued : ℕ
  pub sources_skipped : ℕ
  pub context_injected_count : ℕ

pub record ClusterValidationResult : Type 0 where
  pub clusters_processed : ℕ
  pub links_confirmed : ℕ
  pub links_removed : ℕ
  pub merge_reviews_created : ℕ
  pub patterns_named : ℕ

pub record PatternDiscoveryResult : Type 0 where
  pub channel_2_candidates : ℕ
  pub channel_3_candidates : ℕ
  pub archetypes_confirmed : ℕ
  pub archetypes_rejected : ℕ
  pub edges_updated : ℕ

pub record PassiveFeedbackResult : Type 0 where
  pub inline_processed : ℕ
  pub post_hoc_processed : ℕ
  pub feedback_written : ℕ
  pub trust_updated : ℕ
  pub freshness_updated : ℕ
  pub skipped : ℕ
  pub errors : List Text

-- The three numbers that `wiki_health_report` takes of the wiki.
pub record Health : Type 0 where
  pub total_notes : ℕ
  pub orphan_note_count : ℕ
  pub dedup_pairs : ℕ

-- `RerankModel` (trust.py), with the number of its weights.
pub record RerankModel : Type 0 where
  pub sample_count : ℕ
  pub fallback : Bool
  pub weights : ℕ

abbrev pub Call : Type 0 → Type 0 → Type 0
Call S A = S → Outcome A × S

-- A call on the connection in whose open transaction the run stands. The Boolean says whether the
-- callee has rolled that transaction back, which it can do whether it raises or catches.
abbrev pub SharedCall : Type 0 → Type 0 → Type 0
SharedCall S A = S → (Outcome A × Bool) × S

-- What the jobs call. A Boolean argument is `dry_run`, where the callee is given it.
pub record Callees (S : Type 0) : Type 0 where
  pub process_extraction_queue : Bool → Call S Stats
  pub process_promotion_queue : Bool → Call S Stats
  pub run_auto_resolve : Bool → Call S Stats
  pub retry_failed : Bool → Call S Stats
  pub embeddings_enabled : Bool
  pub chunks_to_embed : S → List ℕ
  pub build_provider : Call S (Unit {0})
  pub embed_chunk : ℕ → Call S (Unit {0})
  pub collect_status : Call S Stats
  pub stale_episodes : S → List ℕ
  pub end_episode : ℕ → Call S (Unit {0})
  pub sync_vault : Call S SyncResult
  pub wiki_health : Bool → SharedCall S Health
  pub write_overview_and_active : Call S (Unit {0})
  pub compute_importance_scores : SharedCall S ℕ
  pub train_rerank_model : SharedCall S RerankModel
  pub audit_lifecycle_states : Bool → SharedCall S LifecycleAuditResult
  pub rebuild_wiki_graph : Bool → SharedCall S GraphRebuildResult
  pub run_raw_revisitation : Bool → SharedCall S RevisitationResult
  pub run_cluster_validation : Bool → SharedCall S ClusterValidationResult
  pub run_pattern_discovery : Bool → SharedCall S PatternDiscoveryResult
  pub run_embedding_neighbor_backfill : SharedCall S ℕ
  pub derive_passive_feedback : Bool → SharedCall S PassiveFeedbackResult

pub data Job : Type 0 where
  extraction_queue promotion_queue expire_stale_episodes embed_backfill status_report : Job
  sync_vault_incremental wiki_health_report wiki_importance_scoring rerank_training : Job
  wiki_lifecycle_audit wiki_graph_rebuild wiki_raw_revisitation wiki_cluster_validation : Job
  wiki_pattern_discovery wiki_embedding_neighbor_backfill wiki_derive_passive_feedback : Job
  wiki_auto_resolve_review retry_failed_extractions : Job

unfoldable pub job_name : Job → String
job_name extraction_queue = "process_extraction_queue"
job_name promotion_queue = "process_promotion_queue"
job_name expire_stale_episodes = "expire_stale_episodes"
job_name embed_backfill = "embed_backfill"
job_name status_report = "status_report"
job_name sync_vault_incremental = "sync_vault_incremental"
job_name wiki_health_report = "wiki_health_report"
job_name wiki_importance_scoring = "wiki_importance_scoring"
job_name rerank_training = "rerank_training"
job_name wiki_lifecycle_audit = "wiki_lifecycle_audit"
job_name wiki_graph_rebuild = "wiki_graph_rebuild"
job_name wiki_raw_revisitation = "wiki_raw_revisitation"
job_name wiki_cluster_validation = "wiki_cluster_validation"
job_name wiki_pattern_discovery = "wiki_pattern_discovery"
job_name wiki_embedding_neighbor_backfill = "wiki_embedding_neighbor_backfill"
job_name wiki_derive_passive_feedback = "wiki_derive_passive_feedback"
job_name wiki_auto_resolve_review = "wiki_auto_resolve_review"
job_name retry_failed_extractions = "retry_failed_extractions"

-- The jobs in the order of the tests of `run_job`.
abbrev pub all_jobs : List Job
all_jobs =
    extraction_queue ∷ promotion_queue ∷ expire_stale_episodes ∷ embed_backfill ∷ status_report
    ∷ sync_vault_incremental ∷ wiki_health_report ∷ wiki_importance_scoring ∷ rerank_training
    ∷ wiki_lifecycle_audit ∷ wiki_graph_rebuild ∷ wiki_raw_revisitation ∷ wiki_cluster_validation
    ∷ wiki_pattern_discovery ∷ wiki_embedding_neighbor_backfill ∷ wiki_derive_passive_feedback
    ∷ wiki_auto_resolve_review ∷ retry_failed_extractions ∷ []

job_among : String → List Job → Option Job
unfolding job_name
job_among name [] = none
job_among name (j ∷ js) =
    let rest = job_among name js in if str_eq name (job_name j) then some j else rest

-- The tests `job_name == "…"` of `run_job`.
unfoldable pub job_named : String → Option Job
unfolding job_among
job_named name = job_among name all_jobs

abbrev pub is_returned : {A : Type 0} → Outcome A → Bool
is_returned (returned _) = true
is_returned (raised _) = false

module _ {S : Type 0} where
  -- A `try` block that makes one call, and then fills `stats` from what it returns.
  abbrev pub after_call : {A : Type 0} → Call S A → (A → Stats) → S → Ran × S
  after_call call fill s =
      let (r, s') = call s in
      (
        elim r [
          | returned a ↦ record { stats = fill a; failure = none }
          | raised e ↦ record { stats = []; failure = some e }
        ],
        s',
      )

  -- The same, for a call on the connection of the run.
  abbrev pub after_shared : {A : Type 0} → SharedCall S A → (A → Stats) → S → (Ran × Bool) × S
  after_shared call fill s =
      let ((r, undone), s') = call s in
      (
        (
          elim r [
            | returned a ↦ record { stats = fill a; failure = none }
            | raised e ↦ record { stats = []; failure = some e }
          ],
          undone,
        ),
        s',
      )
