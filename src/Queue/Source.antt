-- ===== src/Queue/Source.antt =====
-- Which source a row or a request names: `_validate_source`, the CHECK on the table, the keys of
-- its two unique indexes, `_select_queue_row`, `queue_row_to_source_ref` and `source_ref_id`.
use mnemonic_os.Base.{
  String, Bool, false, not, ◌&&◌, ◌||◌, Option, none, some, List, str_eq, sql_eq, is_none, is_some,
  find_where, if◌then◌else◌, Text, codes, ◌++◌,
}
use mnemonic_os.Queue.{SourceKind, artifact, episode, session, Row, Item, kind_eq}

-- `ValueError`, `sqlite3.IntegrityError` and the `RuntimeError` of `enqueue_extraction`.
pub data Failure : Type 0 where
  unsupported_kind archive_required no_conversation_accepted : Failure
  conversation_required no_archive_accepted : Failure
  check_failed no_queued_row : Failure

pub data Result {ℓ} (A : Type ℓ) : Type ℓ where
  ok : A → Result A
  raised : Failure → Result A

-- Python's truth of a `str | None`.
abbrev pub truthy : Option String → Bool
truthy none = false
truthy (some s) = not (str_eq s "")

-- `_validate_source` on one of the kinds that have an archive.
unfoldable pub archived_source : Option String → Option String → Option String → Option Failure
archived_source archive_id conversation_id episode_id =
    if not (truthy archive_id)
    then some archive_required
    else if truthy conversation_id || truthy episode_id
    then some no_conversation_accepted
    else none

episode_source : Option String → Option String → Option String → Option Failure
episode_source archive_id conversation_id episode_id =
    if not (truthy conversation_id) || not (truthy episode_id)
    then some conversation_required
    else if truthy archive_id
    then some no_archive_accepted
    else none

-- The three texts that `_validate_source` admits.
unfoldable pub kind_of : String → Option SourceKind
kind_of s =
    if str_eq s "artifact"
    then some artifact
    else if str_eq s "episode"
    then some episode
    else if str_eq s "session"
    then some session
    else none

-- The rest of `_validate_source`; `none` is a plain return.
unfoldable pub validate_parts :
    SourceKind → Option String → Option String → Option String → Option Failure
unfolding archived_source episode_source
validate_parts artifact a c e = archived_source a c e
validate_parts session a c e = archived_source a c e
validate_parts episode a c e = episode_source a c e

-- `_validate_source`, with the kind that the text names for a plain return.
unfoldable pub validate_source :
    String → Option String → Option String → Option String → Result SourceKind
unfolding validate_parts
validate_source text a c e = elim (kind_of text) [
  | none ↦ raised unsupported_kind
  | some kind ↦ elim (validate_parts kind a c e) [ none ↦ ok kind | some f ↦ raised f ]
]

-- The CHECK of the table on its source columns (migration 016).
unfoldable pub check_source : SourceKind → Option String → Option String → Option String → Bool
check_source artifact a c e = is_some a && (is_none c && is_none e)
check_source session a c e = is_some a && (is_none c && is_none e)
check_source episode a c e = is_none a && (is_some c && is_some e)

-- A row on which a new row of this source would break one of the unique indexes of migration 024.
unfoldable pub conflicts : SourceKind → Option String → Option String → Option String → Row → Bool
conflicts kind a c e r =
    kind_eq kind r.source_kind
    && (is_none r.revisit_of_queue_id
        && (sql_eq a r.archive_id || (sql_eq c r.conversation_id && sql_eq e r.episode_id)))

-- `_select_queue_row`
unfoldable pub select_queue_row :
    SourceKind → Option String → Option String → Option String → List Row → Option Row
select_queue_row kind (some a) c e rows =
    find_where
      (λ r.
        kind_eq kind r.source_kind
        && (sql_eq (some a) r.archive_id && is_none r.revisit_of_queue_id))
      rows
select_queue_row kind none c e rows =
    find_where
      (λ r.
        kind_eq kind r.source_kind
        && (sql_eq c r.conversation_id && (sql_eq e r.episode_id && is_none r.revisit_of_queue_id)))
      rows

-- `SourceRef` (projection/pipeline_models.py)
pub record SourceRef : Type 0 where
  pub kind : SourceKind
  pub archive_id : Option String
  pub conversation_id : Option String
  pub episode_id : Option String

unfoldable pub queue_row_to_source_ref : Item → SourceRef
queue_row_to_source_ref item = dispatch item.source_kind
  where
    archived : SourceRef
    archived = record {
      kind = item.source_kind;
      archive_id = item.archive_id;
      conversation_id = none;
      episode_id = none;
    }

    dispatch : SourceKind → SourceRef
    dispatch artifact = archived
    dispatch session = archived
    dispatch _ = record {
      kind = item.source_kind;
      archive_id = none;
      conversation_id = item.conversation_id;
      episode_id = item.episode_id;
    }

-- An f-string prints `None` for a missing part.
abbrev shown : Option String → Text
shown none = codes "None"
shown (some s) = codes s

unfoldable pub source_ref_id : Item → Text
source_ref_id item =
    if truthy item.archive_id
    then shown item.archive_id
    else codes "episode/" ++ (shown item.conversation_id ++ (codes "/" ++ shown item.episode_id))
