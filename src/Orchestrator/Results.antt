-- ===== src/Orchestrator/Results.antt =====
-- orchestrator.py: the result of begin_task and its retrieval passes, with their Markdown.
use mnemonic_os.Base.{map, ℕ, Bool, Option, none, some, List, Text, is_empty, if◌then◌else◌}
use mnemonic_os.Orchestrator.Packet.{MemoryPacket}
use mnemonic_os.Orchestrator.Emission.{Emission}
use mnemonic_os.Orchestrator.Markdown.{PassLine, render_composed_markdown}

-- An element of `retrieval_passes`.
pub record Pass : Type 0 where
  pub pass_index : ℕ
  pub query_id : ℕ
  pub query_text : Text
  pub emission : Emission
  pub new_ids : List Text
  pub cutoff_reason : Option Text

pub record AutoRetrySummary : Type 0 where
  pub attempted : Bool
  pub attempt_count : ℕ
  pub new_ids : List Text
  pub cutoff_reason : Option Text

-- `OrchestratorContextResult`
pub record ContextResult : Type 0 where
  pub context_markdown : Text
  pub task_id : Text
  pub session_id : Text
  pub memory_packet : MemoryPacket
  pub query_id : ℕ
  pub task_kind : Text
  pub temporality : Text
  pub emission : Emission
  pub retrieval_passes : List Pass
  pub final_pass_index : ℕ
  pub auto_retry_summary : AutoRetrySummary

abbrev pass_line : Pass → PassLine
pass_line p = record {
  pass_index = p.pass_index;
  query_id = p.query_id;
  followup_query = p.emission.followup_query;
  new_ids = p.new_ids;
  emission_new_ids = p.emission.new_ids;
  cutoff_reason = p.cutoff_reason;
}

-- `render_composed_markdown`, on the passes.
unfoldable pub markdown_of : Emission → List Pass → ℕ → Option Text → Text
unfolding render_composed_markdown
markdown_of e passes final_pass_index cutoff =
    render_composed_markdown e (map pass_line passes) final_pass_index cutoff

-- `if cutoff: retry_emission["retry_control"]["cutoff_reason"] = cutoff`
unfoldable pub with_cutoff : Option Text → Emission → Emission
with_cutoff none e = e
with_cutoff (some reason) e =
    if is_empty reason
    then e
    else record e { retry_control = record e.retry_control { cutoff_reason = some reason } }
