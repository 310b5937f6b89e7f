-- ===== src/Tests/TaskRuns.antt =====
-- Runs of the orchestrator on a runtime that counts its calls.
use mnemonic_os.Base.{
  ℕ, suc, ◌==◌, ◌≡◌, ◌⊎◌, refl, true, false, none, some, List, [], ◌∷◌, All, Text, codes, member,
  Distinct, strip, if◌then◌else◌,
}
use mnemonic_os.Jobs.Ledger.{raised, returned}
use mnemonic_os.Chunking.Terms.{join}
use mnemonic_os.Orchestrator.Packet.{
  RuntimeMemory, MemoryPacket, AssessmentDirective, Resolved, append_new, all_packet_memories,
  first_value, first_chain_id, anchor_note_ids, relation_target,
}
use mnemonic_os.Orchestrator.Emission.{
  Patterns, RetryArguments, Emission, render_emission, build_followup_query, followup_of,
  compact_intent, should_auto_retry, immediate,
}
use mnemonic_os.Orchestrator.Requests.{
  TaskRequest, OrchestratorConfig, FailureRequest, Recorded, retries_allowed,
}
use mnemonic_os.Orchestrator.Markdown.{split_lines, memory_lines}
use mnemonic_os.Orchestrator.Results.{ContextResult}
use mnemonic_os.Orchestrator.Task.{
  Runtime, after_one_pass, after_two_passes, first_emission, begin_task, refresh_request,
  failure_record, mark_failure,
}
use mnemonic_os.Orchestrator.Passes.{Passes, begin_task-Passes, mark_failure-once, ResolvedOnce}
use mnemonic_os.Orchestrator.StableIds.{render_emission-Distinct}

abbrev memory : Text → RuntimeMemory
memory id = record {
  id = id;
  title = id;
  type = codes "procedure";
  summary = [];
  chain_id = none;
  freshness_state = none;
  lifecycle_state = none;
  branch_id = none;
}

abbrev packet : List RuntimeMemory → MemoryPacket
packet ms = record {
  primary_memories = ms;
  same_episode_context = [];
  related_by_topic = [];
  related_by_timeline = [];
  related_by_similarity = [];
  related_by_contrast = [];
  archive_context = [];
  contradictions = [];
  assessment_reservoir = [];
  warnings = [];
}

abbrev directive : Text → AssessmentDirective
directive policy = record {
  retrieval_state = codes "partial";
  completion_state = codes "partial";
  recommendation = codes "use";
  verification_action = codes "none";
  emission_profile = codes "full";
  selected_branch_ids = [];
  deferred_branch_ids = [];
  missing_roles = codes "fix" ∷ [];
  followup_query_policy = policy;
  fresh_pipeline_threshold = codes "none";
}

abbrev resolved : ℕ → Text → List RuntimeMemory → Resolved
resolved id policy ms = record {
  task_id = codes "t";
  session_id = codes "s";
  retrieval_state = codes "partial";
  recommendation = codes "use";
  verification_action = codes "none";
  memory_packet = packet ms;
  query_id = id;
  assessment_directive = some (directive policy);
}

abbrev first : Resolved
first = resolved 0 immediate (memory (codes "a") ∷ [])

abbrev second : Resolved
second = resolved 1 (codes "none") (memory (codes "a") ∷ memory (codes "b") ∷ [])

abbrev re : Patterns
re = record { intent_tokens = λ s. s ∷ []; error_signature = λ s. none }

-- The first call finds little and asks for more, the later ones find a second memory.
abbrev runtime : Runtime ℕ
runtime = record {
  resolve_task_context = λ req n. ((if n == 0 then returned first else returned second), suc n);
  record_outcome =
      λ req n. (returned (record { status = codes "accepted"; candidate_note_ids = [] }), n);
  patterns = re;
  lower = λ s. s;
}

abbrev config : OrchestratorConfig
config = record {
  default_token_budget = 3000;
  research_token_budget = 5000;
  max_focused_retries = 1;
}

abbrev request : TaskRequest
request = record {
  bridge_id = codes "b";
  task_text = codes "q";
  session_id = codes "s";
  task_id = codes "t";
  task_kind = codes "coding";
  temporality = none;
  token_budget = none;
  workspace = none;
  project = none;
  repo = none;
  tags = [];
  auto_retry = true;
  max_focused_retries = 1;
}

abbrev answer : ContextResult
answer = after_two_passes runtime config request first (codes "q fix a") second

two_passes : begin_task runtime config request 0 ≡ (returned answer, 2)
unfolding begin_task first_emission render_emission build_followup_query followup_of compact_intent
    join strip anchor_note_ids append_new all_packet_memories first_chain_id first_value
    relation_target should_auto_retry retries_allowed
two_passes = refl

begin_task-Passes_example : Passes config request answer
begin_task-Passes_example = begin_task-Passes runtime config request 0 2 answer two_passes

abbrev failure : FailureRequest
failure = record {
  bridge_id = codes "b";
  session_id = codes "s";
  task_id = codes "t";
  failure_text = codes "q";
  task_kind = codes "coding";
  query_id = none;
  retrieval_state = none;
}

abbrev refreshed : ContextResult
refreshed = after_one_pass runtime config (refresh_request failure) first

failure-answered : mark_failure runtime config failure 0 ≡ (returned refreshed, 1)
unfolding mark_failure begin_task first_emission render_emission should_auto_retry refresh_request
failure-answered = refl

mark_failure-once_example :
    ((e : Text) × (t : ℕ) × (runtime.record_outcome (failure_record failure) 0 ≡ (raised e, t))
      × (mark_failure runtime config failure 0 ≡ (raised e, t)))
    ⊎ ((recorded : Recorded) × (t : ℕ) × (runtime.record_outcome (failure_record failure) 0
          ≡ (returned recorded, t))
        × ResolvedOnce runtime config failure t (mark_failure runtime config failure 0))
mark_failure-once_example = mark_failure-once runtime config failure 0

abbrev arguments : RetryArguments
arguments = record {
  auto_retry_allowed = false;
  max_focused_retries = 1;
  retry_attempt = 1;
  previous_ids = codes "a" ∷ [];
  previous_queries = codes "q" ∷ [];
}

abbrev emission : Resolved → Emission
emission r = render_emission re r (codes "q") arguments

render_emission-Distinct_example :
    Distinct (emission second).stable_ids
    × Distinct (emission second).new_ids
    × All (λ id. member id arguments.previous_ids ≡ false) (emission second).new_ids
render_emission-Distinct_example = render_emission-Distinct re second (codes "q") arguments

lines-split : split_lines [] (97 ∷ 13 ∷ 10 ∷ 98 ∷ 10 ∷ 10 ∷ []) ≡ codes "a" ∷ codes "b" ∷ [] ∷ []
unfolding split_lines
lines-split = refl

memory-rendered :
    memory_lines (record (memory (codes "a")) { freshness_state = some (codes "stale") })
    ≡ codes "**a** (procedure) [stale]" ∷ [] ∷ []
unfolding memory_lines
memory-rendered = refl
