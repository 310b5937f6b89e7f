-- ===== src/Orchestrator/Finish.antt =====
-- orchestrator.py: finish_task and _extract_writeback_fields. What runtime.py and bridge.py do is an
-- argument.
use mnemonic_os.Base.{
  ℕ, Option, none, some, List, [], ◌∷◌, ◌++◌, Text, codes, text_eq, or_text, if◌then◌else◌,
}
use mnemonic_os.Jobs.Ledger.{Outcome, returned, raised}
use mnemonic_os.Orchestrator.Requests.{RecordRequest, Recorded}

-- `OrchestratorOutcomeRequest`
pub record OutcomeRequest : Type 0 where
  pub bridge_id : Text
  pub session_id : Text
  pub task_id : Text
  pub status : Text
  pub outcome_type : Text
  pub summary : Text
  pub query_id : Option ℕ
  pub retrieval_state : Option Text
  pub recommendation : Option Text
  pub useful_ids : List Text
  pub misleading_ids : List Text
  pub fresh_sources_checked : List Text
  pub note_type : Option Text
  pub title : Option Text
  pub writeback_intent : Option Text

-- A memory item: each field as `str` gives it, "" where it is missing or false.
pub record MemoryItem : Type 0 where
  pub type : Text
  pub title : Text
  pub body : Text

-- `SummaryEnvelope`
pub record Envelope : Type 0 where
  pub metadata : List (Text × Text)
  pub memory_items : List MemoryItem

-- `DecideWritebackRequest`
pub record WritebackRequest : Type 0 where
  pub bridge_id : Text
  pub session_id : Text
  pub task_id : Text
  pub note_type : Text
  pub title : Text
  pub summary_text : Text
  pub task_kind : Text
  pub retrieval_state : Option Text
  pub writeback_intent : Option Text
  pub fresh_sources_checked : List Text

-- `DecideWritebackResult`
pub record Decided : Type 0 where
  pub decision : Text
  pub targets : List Text
  pub candidates : List Text
  pub reason : Text

-- `OrchestratorWritebackResult`
pub record WritebackResult : Type 0 where
  pub task_id : Text
  pub session_id : Text
  pub outcome_status : Text
  pub candidate_note_ids : List Text
  pub decision : Text
  pub targets : List Text
  pub candidates : List Text
  pub reason : Text

pub record Writeback (S : Type 0) : Type 0 where
  pub record_outcome : RecordRequest → S → Outcome Recorded × S
  pub decide_writeback : WritebackRequest → S → Outcome Decided × S
  pub parse_summary : Text → Outcome Envelope

-- `hint or other`
abbrev pub hint_or : Option Text → Text → Text
hint_or none other = other
hint_or (some hint) other = or_text hint other

-- `meta.get(key, default)`
abbrev get_or : Text → Text → List (Text × Text) → Text
get_or key default [] = default
get_or key default ((k, v) ∷ meta) =
    let rest = get_or key default meta in if text_eq key k then v else rest

-- The type, the title and the body of the note.
pub record WritebackFields : Type 0 where
  pub note_type : Text
  pub title : Text
  pub summary_text : Text

module _ (req : OutcomeRequest) where
  abbrev default_title : Text
  default_title = codes "Session " ++ req.task_id

  abbrev fields_of_items : List (Text × Text) → List MemoryItem → WritebackFields
  fields_of_items metadata [] = record {
    note_type = hint_or req.note_type (get_or (codes "type") (codes "concept") metadata);
    title = hint_or req.title (get_or (codes "title") default_title metadata);
    summary_text = req.summary;
  }
  fields_of_items metadata (first ∷ rest) = record {
    note_type = hint_or req.note_type (or_text first.type (codes "concept"));
    title = hint_or req.title (or_text first.title default_title);
    summary_text = or_text first.body req.summary;
  }

  -- `_extract_writeback_fields`: an exception of the parser is caught.
  unfoldable pub extract_writeback_fields : Outcome Envelope → WritebackFields
  extract_writeback_fields (returned e) = fields_of_items e.metadata e.memory_items
  extract_writeback_fields (raised _) = record {
    note_type = hint_or req.note_type (codes "concept");
    title = hint_or req.title default_title;
    summary_text = req.summary;
  }

  unfoldable pub outcome_record : RecordRequest
  outcome_record = record {
    bridge_id = req.bridge_id;
    session_id = req.session_id;
    task_id = req.task_id;
    outcome_type = req.outcome_type;
    status = req.status;
    summary = req.summary;
    task_kind = req.outcome_type;
    query_id = req.query_id;
    retrieval_state = req.retrieval_state;
    recommendation = req.recommendation;
    useful_ids = req.useful_ids;
    misleading_ids = req.misleading_ids;
    fresh_sources_checked = req.fresh_sources_checked;
  }

  unfoldable pub writeback_request : WritebackFields → WritebackRequest
  writeback_request fields = record {
    bridge_id = req.bridge_id;
    session_id = req.session_id;
    task_id = req.task_id;
    note_type = fields.note_type;
    title = fields.title;
    summary_text = fields.summary_text;
    task_kind = req.outcome_type;
    retrieval_state = req.retrieval_state;
    writeback_intent = req.writeback_intent;
    fresh_sources_checked = req.fresh_sources_checked;
  }

  abbrev pub after_decision :
      {S : Type 0} → Recorded → Outcome Decided × S → Outcome WritebackResult × S
  after_decision recorded (raised e, s) = (raised e, s)
  after_decision recorded (returned d, s) = (
    returned (record {
      task_id = req.task_id;
      session_id = req.session_id;
      outcome_status = recorded.status;
      candidate_note_ids = recorded.candidate_note_ids;
      decision = d.decision;
      targets = d.targets;
      candidates = d.candidates;
      reason = d.reason;
    }),
    s,
  )

  abbrev pub after_outcome :
      {S : Type 0} → Writeback S → Outcome Recorded × S → Outcome WritebackResult × S
  after_outcome wb (raised e, s) = (raised e, s)
  after_outcome wb (returned recorded, s) =
      let fields = extract_writeback_fields (wb.parse_summary req.summary) in
      after_decision recorded (wb.decide_writeback (writeback_request fields) s)

  unfoldable pub finish_task : {S : Type 0} → Writeback S → S → Outcome WritebackResult × S
  unfolding extract_writeback_fields outcome_record writeback_request
  finish_task wb s = after_outcome wb (wb.record_outcome outcome_record s)
