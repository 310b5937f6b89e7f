-- ===== src/Orchestrator/Cutoff.antt =====
-- What the second pass of begin_task (orchestrator.py) finds, or why it stops: retry_cutoff_reason of
-- emission.py in its place.
use mnemonic_os.Base.{
  ℕ, ◌<◌, ◌≡◌, ◌⊎◌, true, false, Option, none, some, List, Text, text_eq, is_empty,
}
use mnemonic_os.Orchestrator.Emission.{Emission, immediate, none_in}
use mnemonic_os.Orchestrator.Requests.{TaskRequest, OrchestratorConfig}
use mnemonic_os.Orchestrator.Results.{ContextResult}
use mnemonic_os.Orchestrator.Task.{Runtime}

-- A reason that says something, or none, some new ids, and no immediate query past the limit.
abbrev Judged : List Text → Emission → ℕ → ℕ → Option Text → Type 0
Judged new_ids second limit attempt o =
    ((reason : Text) × (o ≡ some reason) × (is_empty reason ≡ false))
    ⊎ ((o ≡ none)
        × (none_in new_ids ≡ false)
        × ((attempt < limit) ⊎ (text_eq second.followup_query_policy immediate ≡ false)))

-- The answer of a task that was retried: cut off for a reason that its summary and its emission both
-- give, or with new ids.
abbrev pub CutOrFound : TaskRequest → ContextResult → Type 0
CutOrFound req r =
    ((reason : Text) × (r.auto_retry_summary.cutoff_reason ≡ some reason)
      × (r.emission.retry_control.cutoff_reason ≡ some reason))
    ⊎ ((r.auto_retry_summary.cutoff_reason ≡ none)
        × (none_in r.auto_retry_summary.new_ids ≡ false)
        × ((1 < req.max_focused_retries)
            ⊎ (text_eq r.emission.followup_query_policy immediate ≡ false)))

module _ {S : Type 0} (rt : Runtime S) (cfg : OrchestratorConfig) (req : TaskRequest) where
  abbrev Retried : ContextResult → Type 0
  Retried r = r.auto_retry_summary.attempted ≡ true → CutOrFound req r
