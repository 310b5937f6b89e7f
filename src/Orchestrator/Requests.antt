-- ===== src/Orchestrator/Requests.antt =====
-- orchestrator.py: the requests, and what is inferred of them.
use mnemonic_os.Base.{
  ℕ, ltb, ◌==◌, Bool, ◌||◌, Option, none, some, List, [], ◌∷◌, any, Text, codes, starts_with,
  is_empty, member, if◌then◌else◌,
}

-- `OrchestratorTaskRequest`
pub record TaskRequest : Type 0 where
  pub bridge_id : Text
  pub task_text : Text
  pub session_id : Text
  pub task_id : Text
  pub task_kind : Text
  pub temporality : Option Text
  pub token_budget : Option ℕ
  pub workspace : Option Text
  pub project : Option Text
  pub repo : Option Text
  pub tags : List Text
  pub auto_retry : Bool
  pub max_focused_retries : ℕ

-- `ResolveTaskContextRequest`
pub record ResolveRequest : Type 0 where
  pub bridge_id : Text
  pub session_id : Text
  pub task_id : Text
  pub task_text : Text
  pub task_kind : Text
  pub temporality : Text
  pub token_budget : ℕ
  pub workspace : Option Text
  pub project : Option Text
  pub repo : Option Text
  pub tags : List Text

pub record OrchestratorConfig : Type 0 where
  pub default_token_budget : ℕ
  pub research_token_budget : ℕ
  pub max_focused_retries : ℕ

-- `OrchestratorFailureRequest`
pub record FailureRequest : Type 0 where
  pub bridge_id : Text
  pub session_id : Text
  pub task_id : Text
  pub failure_text : Text
  pub task_kind : Text
  pub query_id : Option ℕ
  pub retrieval_state : Option Text

-- `RecordOutcomeRequest`
pub record RecordRequest : Type 0 where
  pub bridge_id : Text
  pub session_id : Text
  pub task_id : Text
  pub outcome_type : Text
  pub status : Text
  pub summary : Text
  pub task_kind : Text
  pub query_id : Option ℕ
  pub retrieval_state : Option Text
  pub recommendation : Option Text
  pub useful_ids : List Text
  pub misleading_ids : List Text
  pub fresh_sources_checked : List Text

-- `RecordOutcomeResult`
pub record Recorded : Type 0 where
  pub status : Text
  pub candidate_note_ids : List Text

-- `kw in lower`
abbrev pub contains : Text → Text → Bool
contains kw [] = is_empty kw
contains kw (c ∷ s) = starts_with kw (c ∷ s) || contains kw s

abbrev debugging_kw : List Text
debugging_kw =
    codes "debug"
    ∷ codes "fix"
    ∷ codes "error"
    ∷ codes "bug"
    ∷ codes "traceback"
    ∷ codes "exception"
    ∷ codes "crash"
    ∷ codes "fail"
    ∷ codes "broken"
    ∷ codes "issue"
    ∷ codes "problem"
    ∷ []

abbrev coding_kw : List Text
coding_kw =
    codes "implement"
    ∷ codes "build"
    ∷ codes "create"
    ∷ codes "write"
    ∷ codes "add"
    ∷ codes "refactor"
    ∷ codes "test"
    ∷ codes "code"
    ∷ codes "function"
    ∷ codes "class"
    ∷ []

abbrev architecture_kw : List Text
architecture_kw =
    codes "architect"
    ∷ codes "design"
    ∷ codes "structure"
    ∷ codes "plan"
    ∷ codes "schema"
    ∷ codes "model"
    ∷ codes "system"
    ∷ codes "pattern"
    ∷ codes "integrate"
    ∷ []

abbrev research_kw : List Text
research_kw =
    codes "research"
    ∷ codes "investigate"
    ∷ codes "explain"
    ∷ codes "what is"
    ∷ codes "how does"
    ∷ codes "how do"
    ∷ codes "why"
    ∷ codes "understand"
    ∷ codes "overview"
    ∷ codes "describe"
    ∷ []

-- `_infer_task_kind`, of the lowered text.
unfoldable pub infer_task_kind : Text → Text
infer_task_kind lower =
    let has = λ (kws : List Text). any (λ kw. contains kw lower) kws in
    if has debugging_kw
    then codes "debugging"
    else if has coding_kw
    then codes "coding"
    else if has architecture_kw
    then codes "architecture"
    else if has research_kw
    then codes "research"
    else codes "general"

abbrev current_kinds : List Text
current_kinds = codes "coding" ∷ codes "debugging" ∷ codes "testing" ∷ codes "implementation" ∷ []

unfoldable pub infer_temporality : Text → Text
infer_temporality task_kind =
    if member task_kind current_kinds then codes "current" else codes "mixed"

abbrev budget_by_kind : Text → OrchestratorConfig → ℕ
budget_by_kind task_kind cfg =
    if member task_kind (codes "architecture" ∷ codes "research" ∷ codes "knowledge" ∷ [])
    then cfg.research_token_budget
    else cfg.default_token_budget

-- `_infer_token_budget`
unfoldable pub infer_token_budget : Text → Option ℕ → OrchestratorConfig → ℕ
infer_token_budget task_kind none cfg = budget_by_kind task_kind cfg
infer_token_budget task_kind (some explicit) cfg =
    if ltb 0 explicit then explicit else budget_by_kind task_kind cfg

abbrev pub default_max_focused_retries : ℕ
default_max_focused_retries = 1

-- The configured limit, where the request has the default one.
unfoldable pub retries_allowed : OrchestratorConfig → TaskRequest → ℕ
retries_allowed cfg req =
    if req.max_focused_retries == default_max_focused_retries
    then cfg.max_focused_retries
    else req.max_focused_retries
