-- ===== src/Daemon/Restart.antt =====
-- `Daemon._reset_stale_processing_items` and `Daemon._mark_processing_items_as_error` of
-- src/second_brain/daemon.py on the rows of the extraction queue. The handlers that only log an
-- exception of the database are left out.
use mnemonic_os.Base.{
  ℕ, Bool, some, none, List, ◌==◌, if◌then◌else◌, codes, Text, count_where, update_where,
}
use mnemonic_os.Queue.{Row, pending, error, is_processing}

-- `WHERE status = 'processing'`
abbrev pub in_processing : Row → Bool
in_processing r = is_processing r.status

abbrev pub back_to_pending : Row → Row
back_to_pending r = record r { status = pending; finished_at = none; last_error = none }

-- At startup.
unfoldable pub reset_stale_processing_items : List Row → List Row
reset_stale_processing_items rows =
    if count_where in_processing rows == 0
    then rows
    else update_where in_processing back_to_pending rows

abbrev pub shutdown_message : Text
shutdown_message = codes "daemon shutdown: item was still processing at exit"

abbrev pub fail_at_exit : ℕ → Row → Row
fail_at_exit now r = record r {
  status = error;
  finished_at = some now;
  last_error = some shutdown_message;
}

-- On shutdown.
unfoldable pub mark_processing_items_as_error : ℕ → List Row → List Row
mark_processing_items_as_error now rows = update_where in_processing (fail_at_exit now) rows
