-- ===== src/Retry.antt =====
-- `_retry_failed_extractions_job` of src/second_brain/jobs.py, over the rows of the extraction
-- queue, with its constants and `_timeout_retry_delay_minutes`. Times are in seconds.
-- `julianday` is a float of days in the source; here it is exact.
pub mod Updates
pub mod Effect
pub mod Counts
pub mod Backoff
use mnemonic_os.Base.{
  ℕ, suc, ◌+◌, ◌-◌, ◌*◌, ◌/◌, ◌^◌, min, max, Text, Bool, true, false, not, ◌&&◌, ◌||◌, Option, none,
  some, List, [], ◌∷◌, ◌++◌, map, ltb, leb, ◌==◌, if◌then◌else◌, codes, starts_with, lower_char,
  length, select, count_where, update_where,
}
use mathlib.Core.Option
use mnemonic_os.Base.Sorting.{order_by}
use mnemonic_os.Queue.{Row, pending, error, is_pending, is_processing, is_error}

abbrev pub stale_processing_timeout_minutes : ℕ
stale_processing_timeout_minutes = 150

abbrev pub stale_processing_tombstone_attempts : ℕ
stale_processing_tombstone_attempts = 3

abbrev pub max_pending_silent_attempts : ℕ
max_pending_silent_attempts = 10

abbrev pub timeout_retry_base_minutes : ℕ
timeout_retry_base_minutes = 60

abbrev pub timeout_retry_max_minutes : ℕ
timeout_retry_max_minutes = 24 * 60

abbrev pub max_timeout_attempts : ℕ
max_timeout_attempts = 5

-- `max(0, attempt_count - 1)` is the truncated difference.
unfoldable pub timeout_retry_delay_minutes : ℕ → ℕ
timeout_retry_delay_minutes attempt_count =
    min (timeout_retry_base_minutes * 2 ^ (attempt_count - 1)) timeout_retry_max_minutes

-- `stats` of the job.
pub record Stats : Type 0 where
  pub retried : ℕ
  pub skipped_tombstoned : ℕ
  pub timeout_backoff_waiting : ℕ
  pub timeout_tombstoned : ℕ
  pub stale_processing_reset : ℕ
  pub stale_processing_tombstoned : ℕ
  pub pending_silent_tombstoned : ℕ

-- `last_error LIKE 'tombstoned:%'`: LIKE ignores the case of ASCII letters, and is no match on NULL.
abbrev pub like_tombstoned : Option Text → Bool
like_tombstoned none = false
like_tombstoned (some s) = starts_with (codes "tombstoned:") (map lower_char s)

-- The SELECT of `error_rows`.
abbrev pub is_open_error : Row → Bool
is_open_error r = is_error r.status && not (like_tombstoned r.last_error)

-- The SELECT COUNT of `tombstoned_count`.
abbrev pub is_tombstoned : Row → Bool
is_tombstoned r = is_error r.status && like_tombstoned r.last_error

-- `finished_at ASC NULLS LAST, id ASC`
abbrev pub error_before : Row → Row → Bool
error_before r s = null_last r.finished_at s.finished_at
  where
    null_last : Option ℕ → Option ℕ → Bool
    null_last none none = leb r.id s.id
    null_last none (some _) = false
    null_last (some _) none = true
    null_last (some a) (some b) = if a == b then leb r.id s.id else ltb a b

-- `str(row["last_error"] or "")`
abbrev pub error_text : Option Text → Text
error_text none = []
error_text (some s) = s

-- `CAST((julianday('now') - julianday(finished_at)) * 1440 AS INTEGER)`, for a failure in the past.
abbrev pub minutes_since_failure : ℕ → Option ℕ → Option ℕ
minutes_since_failure now none = none
minutes_since_failure now (some finished) = some ((now - finished) / 60)

abbrev pub waited_less : Option ℕ → ℕ → Bool
waited_less none delay = false
waited_less (some waited) delay = ltb waited delay

pub data Verdict : Type 0 where
  retry tombstone_timeout wait : Verdict

-- The body of the loop over `error_rows`: which list, or count, the row goes to.
unfoldable pub judge : ℕ → Row → Verdict
judge now r =
    if not (starts_with (codes "timeout:") (error_text r.last_error))
    then retry
    else if leb max_timeout_attempts r.attempt_count
    then tombstone_timeout
    else if waited_less (minutes_since_failure now r.finished_at)
        (timeout_retry_delay_minutes r.attempt_count)
    then wait
    else retry

abbrev pub is_retry : Verdict → Bool
is_retry retry = true
is_retry _ = false

abbrev pub is_tombstone_timeout : Verdict → Bool
is_tombstone_timeout tombstone_timeout = true
is_tombstone_timeout _ = false

abbrev pub is_wait : Verdict → Bool
is_wait wait = true
is_wait _ = false

-- The loop: `rows`, `timeout_tombstone_rows` and `stats["timeout_backoff_waiting"]`.
unfoldable pub sort_errors : ℕ → List Row → List Row → List Row → ℕ → List Row × List Row × ℕ
sort_errors now [] rows timeouts waiting = (rows, timeouts, waiting)
sort_errors now (r ∷ rs) rows timeouts waiting =
    let v = judge now r in
    sort_errors now rs (if is_retry v then rows ++ (r ∷ []) else rows)
      (if is_tombstone_timeout v then timeouts ++ (r ∷ []) else timeouts)
      (if is_wait v then waiting + 1 else waiting)

unfoldable pub effective_stale_minutes : ℕ → ℕ
effective_stale_minutes max_extraction_item_seconds =
    max stale_processing_timeout_minutes (max_extraction_item_seconds / 60 + 30)

-- `started_at < datetime('now', '-M minutes')`; a NULL is no match.
abbrev pub started_earlier : ℕ → ℕ → Option ℕ → Bool
started_earlier now minutes none = false
started_earlier now minutes (some started) = ltb (started + minutes * 60) now

-- The SELECT of `stale_rows`.
abbrev pub is_stale : ℕ → ℕ → Row → Bool
is_stale now minutes r = is_processing r.status && started_earlier now minutes r.started_at

abbrev pub no_error : Option Text → Bool
no_error none = true
no_error (some _) = false

-- The SELECT of `silent_pending_rows`.
abbrev pub is_silent : Row → Bool
is_silent r =
    is_pending r.status
    && (no_error r.last_error && leb max_pending_silent_attempts r.attempt_count)

abbrev pub started_before : Row → Row → Bool
started_before r s = order r.started_at s.started_at
  where
    order : Option ℕ → Option ℕ → Bool
    order none _ = true
    order (some _) none = false
    order (some a) (some b) = leb a b

-- `attempt_count DESC, id ASC`
abbrev pub silent_before : Row → Row → Bool
silent_before r s =
    if r.attempt_count == s.attempt_count
    then leb r.id s.id
    else ltb s.attempt_count r.attempt_count

abbrev pub reset : Row → Row
reset r = record r { status = pending; last_error = none; started_at = none; finished_at = none }

abbrev pub timeout_message : Text
timeout_message =
    codes
      "tombstoned: timed out on 5 attempts — raise max_extraction_item_seconds or lower max_vlm_artifacts_per_item, then retry-extraction manually. Last: "

abbrev pub stale_message : Text
stale_message = codes "tombstoned: stale processing — worker did not complete after 3 attempts"

abbrev pub silent_message : Text
silent_message =
    codes
      "tombstoned: pending item exceeded max silent attempts (10) — repeatedly killed without error"

-- `'…' || last_error` is NULL on a NULL.
abbrev pub bury_timeout : ℕ → Row → Row
bury_timeout now r = record r {
  finished_at = some now;
  last_error = Option.map (λ s. timeout_message ++ s) r.last_error;
}

abbrev pub bury : ℕ → Text → Row → Row
bury now message r = record r { status = error; finished_at = some now; last_error = some message }

abbrev pub gave_up : Row → Bool
gave_up r = leb stale_processing_tombstone_attempts r.attempt_count

-- The UPDATE of one of `stale_rows`: the attempts are those that the SELECT has read.
abbrev pub settle_stale : ℕ → Row → Row → Row
settle_stale now read r = if gave_up read then bury now stale_message r else reset r

-- A `for` loop over the rows of a SELECT.
unfoldable pub for_each {ℓ} : {S : Type ℓ} → (Row → S → S) → List Row → S → S
for_each body [] state = state
for_each body (read ∷ selected) state = for_each body selected (body read state)

-- `UPDATE … WHERE id = ?`
unfoldable pub update_id : ℕ → (Row → Row) → List Row → List Row
update_id id f = update_where (λ r. r.id == id) f

-- The four lists that the SELECTs have given, and the counts taken on the way.
pub record Plan : Type 0 where
  pub rows : List Row
  pub timeout_tombstone_rows : List Row
  pub stale_rows : List Row
  pub silent_pending_rows : List Row
  pub waiting : ℕ
  pub tombstoned : ℕ

unfoldable pub make_plan : ℕ → ℕ → List Row → Plan
make_plan now max_seconds table =
    let (rows, timeouts, waiting) =
      sort_errors now (order_by error_before (select is_open_error table)) [] [] 0 in
    record {
      rows = rows;
      timeout_tombstone_rows = timeouts;
      stale_rows =
          order_by started_before
            (select (is_stale now (effective_stale_minutes max_seconds)) table);
      silent_pending_rows = order_by silent_before (select is_silent table);
      waiting = waiting;
      tombstoned = count_where is_tombstoned table;
    }

unfoldable pub initial_stats : Plan → Stats
initial_stats p = record {
  retried = 0;
  skipped_tombstoned = p.tombstoned;
  timeout_backoff_waiting = p.waiting;
  timeout_tombstoned = 0;
  stale_processing_reset = 0;
  stale_processing_tombstoned = 0;
  pending_silent_tombstoned = 0;
}

-- The count of the loop over `stale_rows`, in both kinds of run.
unfoldable pub count_stale : Row → Stats → Stats
count_stale read st =
    if gave_up read
    then record st { stale_processing_tombstoned = st.stale_processing_tombstoned + 1 }
    else record st { stale_processing_reset = st.stale_processing_reset + 1 }

-- The `else` branch: a dry run.
unfoldable pub dry_stats : Plan → Stats → Stats
unfolding for_each count_stale
dry_stats p st =
    let st' = for_each count_stale p.stale_rows (record st {
      retried = length p.rows;
      timeout_tombstoned = length p.timeout_tombstone_rows;
    }) in
    record st' { pending_silent_tombstoned = length p.silent_pending_rows }

abbrev pub Live : Type 0
Live = Stats × List Row

-- The bodies of the four loops of a live run.
unfoldable pub retry_one : Row → Live → Live
unfolding update_id
retry_one read (st, table) = (record st { retried = st.retried + 1 }, update_id read.id reset table)

unfoldable pub bury_timeout_one : ℕ → Row → Live → Live
unfolding update_id
bury_timeout_one now read (st, table) = (
  record st { timeout_tombstoned = st.timeout_tombstoned + 1 },
  update_id read.id (bury_timeout now) table,
)

unfoldable pub settle_one : ℕ → Row → Live → Live
unfolding update_id count_stale
settle_one now read (st, table) =
    (count_stale read st, update_id read.id (settle_stale now read) table)

unfoldable pub bury_silent_one : ℕ → Row → Live → Live
unfolding update_id
bury_silent_one now read (st, table) = (
  record st { pending_silent_tombstoned = st.pending_silent_tombstoned + 1 },
  update_id read.id (bury now silent_message) table,
)

unfoldable pub carry_out : ℕ → Plan → Live → Live
unfolding for_each retry_one bury_timeout_one settle_one bury_silent_one
carry_out now p live = for_each (bury_silent_one now) p.silent_pending_rows (
    for_each (settle_one now) p.stale_rows
      (for_each (bury_timeout_one now) p.timeout_tombstone_rows (for_each retry_one p.rows live)))

-- The statements of the `try` block between the opening and the closing of the job run.
unfoldable pub retry_failed_extractions : ℕ → ℕ → Bool → List Row → Stats × List Row
unfolding make_plan initial_stats dry_stats carry_out
retry_failed_extractions now max_seconds dry_run table =
    let p = make_plan now max_seconds table in
    if dry_run
    then (dry_stats p (initial_stats p), table)
    else carry_out now p (initial_stats p, table)
