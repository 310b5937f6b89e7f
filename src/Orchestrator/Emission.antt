-- ===== src/Orchestrator/Emission.antt =====
-- emission.py: render_emission, should_auto_retry, retry_cutoff_reason. What `re` finds is an
-- argument. The fields that only copy the result (provenance, debug) are left out.
use mnemonic_os.Base.{
  ℕ, ltb, leb, Bool, true, false, not, ◌&&◌, ◌||◌, Option, none, some, List, [], ◌∷◌, ◌++◌, select,
  take, Text, codes, text_eq, is_empty, member, strip, if◌then◌else◌,
}
use mnemonic_os.Chunking.Terms.{join}
use mnemonic_os.Orchestrator.Packet.{
  Contradiction, MemoryPacket, RuntimeMemory, AssessmentDirective, Resolved, SelectedPacket,
  packet_stable_ids, first_chain_id, first_branch_id, anchor_note_ids, relation_target,
  selected_packet_view,
}

-- `intent_tokens` is `re.findall` on the lowered text, `error_signature` is `_error_signature`.
pub record Patterns : Type 0 where
  pub intent_tokens : Text → List Text
  pub error_signature : Text → Option Text

pub record Anchors : Type 0 where
  pub original_intent : Text
  pub note_ids : List Text
  pub chain_id : Option Text
  pub branch_id : Option Text
  pub error_signature : Option Text
  pub relation_target : Option Text

pub record FollowupQuery : Type 0 where
  pub policy : Text
  pub threshold : Text
  pub missing_roles : List Text
  pub anchors : Anchors
  pub suggested_query : Text
  pub repeats_previous_query : Bool

pub record RetryControl : Type 0 where
  pub auto_retry_allowed : Bool
  pub max_focused_retries : ℕ
  pub retry_attempt : ℕ
  pub cutoff_reason : Option Text

pub record Emission : Type 0 where
  pub task_id : Text
  pub session_id : Text
  pub retrieval_state : Text
  pub completion_state : Text
  pub recommendation : Text
  pub verification_action : Text
  pub emission_profile : Text
  pub fresh_pipeline_threshold : Text
  pub followup_query_policy : Text
  pub selected_packet : SelectedPacket
  pub archive_context : List RuntimeMemory
  pub warnings : List Text
  pub contradictions : List Contradiction
  pub missing_roles : List Text
  pub followup_query : Option FollowupQuery
  pub retry_control : RetryControl
  pub stable_ids : List Text
  pub new_ids : List Text
  pub query_id : ℕ

abbrev stop_words : List Text
stop_words =
    codes "the"
    ∷ codes "a"
    ∷ codes "an"
    ∷ codes "to"
    ∷ codes "for"
    ∷ codes "with"
    ∷ codes "how"
    ∷ codes "do"
    ∷ codes "we"
    ∷ codes "please"
    ∷ codes "can"
    ∷ codes "you"
    ∷ []

unfoldable pub compact_intent : Patterns → Text → Text
unfolding join
compact_intent re text =
    join (codes " ") (take 8 (select (λ t. not (member t stop_words)) (re.intent_tokens text)))

-- `value or ""`
abbrev text_or_empty : Option Text → Text
text_or_empty none = []
text_or_empty (some s) = s

abbrev chain_term : Option Text → Text
chain_term none = []
chain_term (some s) = if is_empty s then [] else codes "chain_id:" ++ s

abbrev pub immediate : Text
immediate = codes "immediate_focused_requery"

-- The query that is built where the policy asks for one.
unfoldable pub followup_of :
    Patterns → AssessmentDirective → MemoryPacket → Text → List Text → FollowupQuery
unfolding compact_intent join strip
followup_of re d packet original_task_text previous_queries =
    let note_ids = anchor_note_ids packet d in
    let chain_id = first_chain_id packet in
    let target = relation_target packet note_ids in
    let intent = compact_intent re original_task_text in
    let terms =
      intent ∷ join (codes " ") d.missing_roles ∷ chain_term chain_id ∷ text_or_empty target ∷ [] in
    let joined = strip (join (codes " ") (select (λ t. not (is_empty t)) terms)) in
    let suggested_query = if is_empty joined then strip original_task_text else joined in
    record {
      policy = d.followup_query_policy;
      threshold = d.fresh_pipeline_threshold;
      missing_roles = d.missing_roles;
      anchors = record {
        original_intent = intent;
        note_ids = note_ids;
        chain_id = chain_id;
        branch_id = first_branch_id packet d;
        error_signature = re.error_signature original_task_text;
        relation_target = target;
      };
      suggested_query = suggested_query;
      repeats_previous_query = member suggested_query previous_queries;
    }

-- `_build_followup_query`
unfoldable pub build_followup_query :
    Patterns → Option AssessmentDirective → MemoryPacket → Text → List Text → Option FollowupQuery
build_followup_query re none packet original_task_text previous_queries = none
build_followup_query re (some d) packet original_task_text previous_queries =
    if text_eq d.followup_query_policy (codes "none")
    then none
    else some (followup_of re d packet original_task_text previous_queries)

-- `_directive_value`: the directive's field, or the fallback where there is no directive.
abbrev pub directive_value : Option AssessmentDirective → (AssessmentDirective → Text) → Text → Text
directive_value none f fallback = fallback
directive_value (some d) f fallback = f d

abbrev roles_of : Option AssessmentDirective → List Text
roles_of none = []
roles_of (some d) = d.missing_roles

-- The keyword arguments of `render_emission` on retries.
pub record RetryArguments : Type 0 where
  pub auto_retry_allowed : Bool
  pub max_focused_retries : ℕ
  pub retry_attempt : ℕ
  pub previous_ids : List Text
  pub previous_queries : List Text

unfoldable pub render_emission : Patterns → Resolved → Text → RetryArguments → Emission
unfolding build_followup_query packet_stable_ids selected_packet_view
render_emission re result original_task_text args =
    let d = result.assessment_directive in
    let packet = result.memory_packet in
    let packet_ids = packet_stable_ids packet in
    record {
      task_id = result.task_id;
      session_id = result.session_id;
      retrieval_state = directive_value d (λ x. x.retrieval_state) result.retrieval_state;
      completion_state = directive_value d (λ x. x.completion_state) [];
      recommendation = directive_value d (λ x. x.recommendation) result.recommendation;
      verification_action =
          directive_value d (λ x. x.verification_action) result.verification_action;
      emission_profile = directive_value d (λ x. x.emission_profile) [];
      fresh_pipeline_threshold = directive_value d (λ x. x.fresh_pipeline_threshold) (codes "none");
      followup_query_policy = directive_value d (λ x. x.followup_query_policy) (codes "none");
      selected_packet = selected_packet_view packet d;
      archive_context = packet.archive_context;
      warnings = packet.warnings;
      contradictions = packet.contradictions;
      missing_roles = roles_of d;
      followup_query = build_followup_query re d packet original_task_text args.previous_queries;
      retry_control = record {
        auto_retry_allowed = args.auto_retry_allowed;
        max_focused_retries = args.max_focused_retries;
        retry_attempt = args.retry_attempt;
        cutoff_reason = none;
      };
      stable_ids = packet_ids;
      new_ids = select (λ id. not (member id args.previous_ids)) packet_ids;
      query_id = result.query_id;
    }

abbrev has_cutoff : Option Text → Bool
has_cutoff none = false
has_cutoff (some s) = not (is_empty s)

abbrev asks_now : Option FollowupQuery → Bool
asks_now none = false
asks_now (some q) = text_eq q.policy immediate

unfoldable pub should_auto_retry : Emission → Bool
should_auto_retry e =
    e.retry_control.auto_retry_allowed
    && (asks_now e.followup_query
        && (ltb e.retry_control.retry_attempt e.retry_control.max_focused_retries
            && not (has_cutoff e.retry_control.cutoff_reason)))

abbrev pub texts_eq : List Text → List Text → Bool
texts_eq [] [] = true
texts_eq [] (_ ∷ _) = false
texts_eq (_ ∷ _) [] = false
texts_eq (x ∷ xs) (y ∷ ys) = text_eq x y && texts_eq xs ys

abbrev pub none_in : List Text → Bool
none_in [] = true
none_in (_ ∷ _) = false

abbrev pub repeats : Option FollowupQuery → List Text → Bool
repeats none previous_queries = false
repeats (some q) previous_queries =
    not (is_empty q.suggested_query) && member q.suggested_query previous_queries

abbrev pub terminal_states : List Text
terminal_states =
    codes "insufficient_no_hit" ∷ codes "insufficient_stale" ∷ codes "insufficient_contested" ∷ []

unfoldable pub retry_cutoff_reason : Emission → Emission → List Text → ℕ → ℕ → Option Text
retry_cutoff_reason first second previous_queries max_focused_retries retry_attempt =
    let new_ids = select (λ id. not (member id first.stable_ids)) second.stable_ids in
    let again = text_eq second.followup_query_policy immediate in
    if none_in second.stable_ids || none_in new_ids
    then some (codes "no_new_ids")
    else if repeats second.followup_query previous_queries
    then some (codes "same_suggested_query")
    else if text_eq second.fresh_pipeline_threshold first.fresh_pipeline_threshold
        && (texts_eq second.missing_roles first.missing_roles && again)
    then some (codes "same_threshold_and_roles")
    else if member second.retrieval_state terminal_states
    then some (codes "terminal_insufficient_state")
    else if leb max_focused_retries retry_attempt && again
    then some (codes "retry_budget_exhausted")
    else none
