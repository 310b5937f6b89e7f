-- ===== src/Orchestrator/Task.antt =====
-- orchestrator.py: begin_task and mark_failure. What runtime.py does is an argument.
use mnemonic_os.Base.{
  max, Bool, true, false, not, ◌&&◌, Option, none, some, [], ◌∷◌, Text, codes, text_eq, is_empty,
  or_text, strip, if◌then◌else◌,
}
use mnemonic_os.Jobs.Ledger.{Outcome, returned, raised}
use mnemonic_os.Orchestrator.Packet.{Resolved}
use mnemonic_os.Orchestrator.Emission.{
  Patterns, FollowupQuery, Emission, render_emission, should_auto_retry, retry_cutoff_reason,
}
use mnemonic_os.Orchestrator.Results.{Pass, ContextResult, markdown_of, with_cutoff}
use mnemonic_os.Orchestrator.Requests.{
  TaskRequest, ResolveRequest, OrchestratorConfig, FailureRequest, RecordRequest, Recorded,
  infer_task_kind, infer_temporality, infer_token_budget, default_max_focused_retries,
  retries_allowed,
}

-- `resolve_task_context` and `record_outcome`, on a state of the program, and `str.lower`.
pub record Runtime (S : Type 0) : Type 0 where
  pub resolve_task_context : ResolveRequest → S → Outcome Resolved × S
  pub record_outcome : RecordRequest → S → Outcome Recorded × S
  pub patterns : Patterns
  pub lower : Text → Text

-- The suggested query of an emission, stripped; "" where it has none.
abbrev pub focused_query_of : Option FollowupQuery → Text
focused_query_of none = []
focused_query_of (some q) = strip q.suggested_query

abbrev or_inferred : Option Text → Text → Text
or_inferred none inferred = inferred
or_inferred (some t) inferred = or_text t inferred

module _ {S : Type 0} (rt : Runtime S) (cfg : OrchestratorConfig) (req : TaskRequest) where
  abbrev pub task_kind_of : Text
  task_kind_of = or_text req.task_kind (infer_task_kind (rt.lower req.task_text))

  abbrev pub temporality_of : Text
  temporality_of = or_inferred req.temporality (infer_temporality task_kind_of)

  unfoldable pub resolve_request : Text → ResolveRequest
  unfolding infer_task_kind infer_temporality infer_token_budget
  resolve_request text = record {
    bridge_id = req.bridge_id;
    session_id = req.session_id;
    task_id = req.task_id;
    task_text = text;
    task_kind = task_kind_of;
    temporality = temporality_of;
    token_budget = infer_token_budget task_kind_of req.token_budget cfg;
    workspace = req.workspace;
    project = req.project;
    repo = req.repo;
    tags = req.tags;
  }

  unfoldable pub first_emission : Resolved → Emission
  unfolding render_emission retries_allowed
  first_emission result = render_emission rt.patterns result req.task_text (record {
    auto_retry_allowed = req.auto_retry;
    max_focused_retries = retries_allowed cfg req;
    retry_attempt = 0;
    previous_ids = [];
    previous_queries = req.task_text ∷ [];
  })

  abbrev pub first_pass : Resolved → Pass
  first_pass result = record {
    pass_index = 1;
    query_id = result.query_id;
    query_text = req.task_text;
    emission = first_emission result;
    new_ids = (first_emission result).stable_ids;
    cutoff_reason = none;
  }

  abbrev pub after_one_pass : Resolved → ContextResult
  after_one_pass result = record {
    context_markdown = markdown_of (first_emission result) (first_pass result ∷ []) 1 none;
    task_id = result.task_id;
    session_id = result.session_id;
    memory_packet = result.memory_packet;
    query_id = result.query_id;
    task_kind = task_kind_of;
    temporality = temporality_of;
    emission = first_emission result;
    retrieval_passes = first_pass result ∷ [];
    final_pass_index = 1;
    auto_retry_summary = record {
      attempted = false;
      attempt_count = 0;
      new_ids = [];
      cutoff_reason = none;
    };
  }

  -- The emission of the second pass takes the limit of the request, as the source does.
  unfoldable pub retry_emission : Resolved → Text → Resolved → Emission
  unfolding render_emission
  retry_emission result focused_query retried =
      render_emission rt.patterns retried focused_query (record {
        auto_retry_allowed = false;
        max_focused_retries = req.max_focused_retries;
        retry_attempt = 1;
        previous_ids = (first_emission result).stable_ids;
        previous_queries = req.task_text ∷ focused_query ∷ [];
      })

  unfoldable pub cutoff_of : Resolved → Text → Resolved → Option Text
  unfolding retry_cutoff_reason
  cutoff_of result focused_query retried =
      retry_cutoff_reason (first_emission result) (retry_emission result focused_query retried)
        (req.task_text ∷ focused_query ∷ []) (max 1 req.max_focused_retries) 1

  unfoldable pub after_two_passes : Resolved → Text → Resolved → ContextResult
  unfolding retry_emission cutoff_of with_cutoff
  after_two_passes result focused_query retried =
      let cutoff = cutoff_of result focused_query retried in
      let emission = with_cutoff cutoff (retry_emission result focused_query retried) in
      let second : Pass = record {
        pass_index = 2;
        query_id = retried.query_id;
        query_text = focused_query;
        emission = emission;
        new_ids = emission.new_ids;
        cutoff_reason = cutoff;
      } in
      record {
        context_markdown = markdown_of emission (first_pass result ∷ second ∷ []) 2 cutoff;
        task_id = retried.task_id;
        session_id = retried.session_id;
        memory_packet = retried.memory_packet;
        query_id = retried.query_id;
        task_kind = task_kind_of;
        temporality = temporality_of;
        emission = emission;
        retrieval_passes = first_pass result ∷ second ∷ [];
        final_pass_index = 2;
        auto_retry_summary = record {
          attempted = true;
          attempt_count = 1;
          new_ids = emission.new_ids;
          cutoff_reason = cutoff;
        };
      }

  abbrev pub second_result : Resolved → Text → Outcome Resolved × S → Outcome ContextResult × S
  second_result result focused_query (raised e, s) = (raised e, s)
  second_result result focused_query (returned retried, s) =
      (returned (after_two_passes result focused_query retried), s)

  -- A second pass is made where the first emission asks for it by a query of its own.
  abbrev pub retries : Resolved → Text → Bool
  retries result focused_query =
      should_auto_retry (first_emission result)
      && (not (is_empty focused_query) && not (text_eq focused_query req.task_text))

  abbrev pub first_result : Outcome Resolved × S → Outcome ContextResult × S
  first_result (raised e, s) = (raised e, s)
  first_result (returned result, s) =
      let focused_query = focused_query_of (first_emission result).followup_query in
      let again =
        second_result result focused_query
          (rt.resolve_task_context (resolve_request focused_query) s) in
      if retries result focused_query then again else (returned (after_one_pass result), s)

  unfoldable pub begin_task : S → Outcome ContextResult × S
  unfolding resolve_request first_emission after_two_passes should_auto_retry
  begin_task s = first_result (rt.resolve_task_context (resolve_request req.task_text) s)

-- The request that `mark_failure` makes for the next attempt, with the defaults of the class.
unfoldable pub refresh_request : FailureRequest → TaskRequest
refresh_request req = record {
  bridge_id = req.bridge_id;
  task_text = req.failure_text;
  session_id = req.session_id;
  task_id = req.task_id;
  task_kind = req.task_kind;
  temporality = none;
  token_budget = none;
  workspace = none;
  project = none;
  repo = none;
  tags = [];
  auto_retry = false;
  max_focused_retries = default_max_focused_retries;
}

unfoldable pub failure_record : FailureRequest → RecordRequest
failure_record req = record {
  bridge_id = req.bridge_id;
  session_id = req.session_id;
  task_id = req.task_id;
  outcome_type = codes "intermediate_failure";
  status = codes "failure";
  summary = req.failure_text;
  task_kind = req.task_kind;
  query_id = req.query_id;
  retrieval_state = req.retrieval_state;
  recommendation = none;
  useful_ids = [];
  misleading_ids = [];
  fresh_sources_checked = [];
}

module _ {S : Type 0} (rt : Runtime S) (cfg : OrchestratorConfig) (req : FailureRequest) where
  abbrev pub after_record : Outcome Recorded × S → Outcome ContextResult × S
  after_record (raised e, s) = (raised e, s)
  after_record (returned r, s) = begin_task rt cfg (refresh_request req) s

  unfoldable pub mark_failure : S → Outcome ContextResult × S
  unfolding begin_task refresh_request failure_record
  mark_failure s = after_record (rt.record_outcome (failure_record req) s)
