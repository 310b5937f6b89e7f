-- ===== src/Orchestrator/Packet.antt =====
-- The memory packet of models.py, as emission.py reads it, and the parts of emission.py that read it.
use mnemonic_os.Base.{
  ℕ, Bool, true, false, not, ◌&&◌, ◌||◌, Option, none, some, List, [], ◌∷◌, ◌++◌, select, take,
  Text, codes, text_eq, member, starts_with, any, if◌then◌else◌,
}

pub record RuntimeMemory : Type 0 where
  pub id : Text
  pub title : Text
  pub type : Text
  pub summary : Text
  pub chain_id : Option Text
  pub freshness_state : Option Text
  pub lifecycle_state : Option Text
  pub branch_id : Option Text

-- A dict of `assessment_reservoir`: `item_ids` holds the items that are strings.
pub record Branch : Type 0 where
  pub branch_id : Option Text
  pub item_ids : List Text

-- A dict of `contradictions`: the ids it gives, as `str` writes them, and its severity or "".
pub record Contradiction : Type 0 where
  pub item_ids : List Text
  pub severity : Text

pub record MemoryPacket : Type 0 where
  pub primary_memories : List RuntimeMemory
  pub same_episode_context : List RuntimeMemory
  pub related_by_topic : List RuntimeMemory
  pub related_by_timeline : List RuntimeMemory
  pub related_by_similarity : List RuntimeMemory
  pub related_by_contrast : List RuntimeMemory
  pub archive_context : List RuntimeMemory
  pub contradictions : List Contradiction
  pub assessment_reservoir : List Branch
  pub warnings : List Text

pub record AssessmentDirective : Type 0 where
  pub retrieval_state : Text
  pub completion_state : Text
  pub recommendation : Text
  pub verification_action : Text
  pub emission_profile : Text
  pub selected_branch_ids : List Text
  pub deferred_branch_ids : List Text
  pub missing_roles : List Text
  pub followup_query_policy : Text
  pub fresh_pipeline_threshold : Text

-- `ResolveTaskContextResult`
pub record Resolved : Type 0 where
  pub task_id : Text
  pub session_id : Text
  pub retrieval_state : Text
  pub recommendation : Text
  pub verification_action : Text
  pub memory_packet : MemoryPacket
  pub query_id : ℕ
  pub assessment_directive : Option AssessmentDirective

-- `_all_packet_memories`
unfoldable pub all_packet_memories : MemoryPacket → List RuntimeMemory
all_packet_memories p =
    p.primary_memories
    ++ (p.same_episode_context
        ++ (p.related_by_topic
            ++ (p.related_by_timeline
                ++ (p.related_by_similarity ++ (p.related_by_contrast ++ p.archive_context)))))

-- `for id in new: if id not in ids: ids.append(id)`
unfoldable pub append_new : List Text → List Text → List Text
append_new ids [] = ids
append_new ids (x ∷ xs) =
    let longer = append_new (ids ++ (x ∷ [])) xs in
    let same = append_new ids xs in if member x ids then same else longer

abbrev pub memory_ids : List RuntimeMemory → List Text
memory_ids [] = []
memory_ids (m ∷ ms) = m.id ∷ memory_ids ms

abbrev pub branch_items : List Branch → List Text
branch_items [] = []
branch_items (b ∷ bs) = b.item_ids ++ branch_items bs

unfoldable pub packet_stable_ids : MemoryPacket → List Text
unfolding append_new all_packet_memories
packet_stable_ids p =
    append_new [] (memory_ids (all_packet_memories p) ++ branch_items p.assessment_reservoir)

-- `if text` for an optional string: None and "" are false.
abbrev pub filled : Option Text → Option Text
filled none = none
filled (some []) = none
filled (some (c ∷ s)) = some (c ∷ s)

abbrev pub first_of : Option Text → Option Text → Option Text
first_of none b = b
first_of (some a) _ = some a

-- `_first_value`
unfoldable pub first_value : List (Option Text) → Option Text
first_value [] = none
first_value (v ∷ vs) = first_of (filled v) (first_value vs)

abbrev chain_ids : List RuntimeMemory → List (Option Text)
chain_ids [] = []
chain_ids (m ∷ ms) = m.chain_id ∷ chain_ids ms

unfoldable pub first_chain_id : MemoryPacket → Option Text
unfolding first_value all_packet_memories
first_chain_id p = first_value (chain_ids (all_packet_memories p))

abbrev branch_ids : List RuntimeMemory → List (Option Text)
branch_ids [] = []
branch_ids (m ∷ ms) = m.branch_id ∷ branch_ids ms

abbrev known : List Text → List (Option Text)
known [] = []
known (b ∷ bs) = some b ∷ known bs

-- `_first_branch_id`
unfoldable pub first_branch_id : MemoryPacket → AssessmentDirective → Option Text
unfolding first_value all_packet_memories
first_branch_id p d =
    first_of (first_value (known (d.selected_branch_ids ++ d.deferred_branch_ids)))
      (first_value (branch_ids (all_packet_memories p)))

-- A memory of a branch that is neither selected nor deferred is no anchor.
abbrev in_other_branch : AssessmentDirective → Option Text → Bool
in_other_branch d none = false
in_other_branch d (some b) =
    not (member b d.selected_branch_ids) && not (member b d.deferred_branch_ids)

abbrev none_selected : List Text → Bool
none_selected [] = true
none_selected (_ ∷ _) = false

-- `_anchor_note_ids`
unfoldable pub anchor_note_ids : MemoryPacket → AssessmentDirective → List Text
unfolding append_new all_packet_memories
anchor_note_ids p d =
    let kept =
      select
        (λ m. none_selected d.selected_branch_ids || not (in_other_branch d (filled m.branch_id)))
        (all_packet_memories p) in
    take 8 (append_new [] (memory_ids kept))

abbrev note_prefixes : List Text
note_prefixes = codes "procedure/" ∷ codes "decision/" ∷ codes "incident/" ∷ codes "concept/" ∷ []

abbrev first_where : (Text → Bool) → List Text → Option Text
first_where p [] = none
first_where p (x ∷ xs) = let rest = first_where p xs in if p x then some x else rest

abbrev first_procedure : List RuntimeMemory → Option Text
first_procedure [] = none
first_procedure (m ∷ ms) =
    let rest = first_procedure ms in if text_eq m.type (codes "procedure") then some m.id else rest

abbrev head : List Text → Option Text
head [] = none
head (x ∷ _) = some x

-- `_relation_target`
unfoldable pub relation_target : MemoryPacket → List Text → Option Text
unfolding all_packet_memories
relation_target p note_ids =
    first_of (first_where (λ id. any (λ prefix. starts_with prefix id) note_prefixes) note_ids)
      (first_of (first_procedure (all_packet_memories p)) (head note_ids))

-- `include` of `_selected_packet_view`
abbrev pub included : List Text → RuntimeMemory → Bool
included selected m =
    none_selected selected || (elim m.branch_id [ none ↦ true | some b ↦ member b selected ])

-- The memories that `_selected_packet_view` shows, by their slot.
pub record SelectedPacket : Type 0 where
  pub primary_memories : List RuntimeMemory
  pub same_episode_context : List RuntimeMemory
  pub related_by_topic : List RuntimeMemory
  pub related_by_timeline : List RuntimeMemory
  pub related_by_similarity : List RuntimeMemory
  pub related_by_contrast : List RuntimeMemory

abbrev selected_ids : Option AssessmentDirective → List Text
selected_ids none = []
selected_ids (some d) = d.selected_branch_ids

unfoldable pub selected_packet_view : MemoryPacket → Option AssessmentDirective → SelectedPacket
selected_packet_view p directive =
    let shown = select (included (selected_ids directive)) in
    record {
      primary_memories = shown p.primary_memories;
      same_episode_context = shown p.same_episode_context;
      related_by_topic = shown p.related_by_topic;
      related_by_timeline = shown p.related_by_timeline;
      related_by_similarity = shown p.related_by_similarity;
      related_by_contrast = shown p.related_by_contrast;
    }
