-- ===== src/Retry/Counts.antt =====
-- What a run of `_retry_failed_extractions_job` reports, live and dry.
use mnemonic_os.Base.{ℕ, ◌+◌, ◌≡◌, refl, sym, ap, ◌∙◌, true, false, List, [], ◌∷◌, arith, length}
use mnemonic_os.Queue.{Row}
use mnemonic_os.Retry.{
  Stats, Live, Plan, make_plan, initial_stats, count_stale, dry_stats, retry_one, bury_timeout_one,
  settle_one, bury_silent_one, carry_out, for_each, retry_failed_extractions,
}

retry_one-stats :
    (rows : List Row) (live : Live)
    → (for_each retry_one rows live).0 ≡ record live.0 { retried = live.0.retried + length rows }
unfolding for_each retry_one
retry_one-stats [] live = ground arith
retry_one-stats (r ∷ rows) live = retry_one-stats rows (retry_one r live) ∙ ground arith

bury_timeout_one-stats :
    (now : ℕ) (rows : List Row) (live : Live)
    → (for_each (bury_timeout_one now) rows live).0
      ≡ record live.0 { timeout_tombstoned = live.0.timeout_tombstoned + length rows }
unfolding for_each bury_timeout_one
bury_timeout_one-stats now [] live = ground arith
bury_timeout_one-stats now (r ∷ rows) live =
    bury_timeout_one-stats now rows (bury_timeout_one now r live) ∙ ground arith

bury_silent_one-stats :
    (now : ℕ) (rows : List Row) (live : Live)
    → (for_each (bury_silent_one now) rows live).0
      ≡ record live.0 { pending_silent_tombstoned = live.0.pending_silent_tombstoned + length rows }
unfolding for_each bury_silent_one
bury_silent_one-stats now [] live = ground arith
bury_silent_one-stats now (r ∷ rows) live =
    bury_silent_one-stats now rows (bury_silent_one now r live) ∙ ground arith

settle_one-stats :
    (now : ℕ) (rows : List Row) (live : Live)
    → (for_each (settle_one now) rows live).0 ≡ for_each count_stale rows live.0
unfolding for_each settle_one
settle_one-stats now [] live = refl
settle_one-stats now (r ∷ rows) live = settle_one-stats now rows (settle_one now r live)

count_stale-keeps :
    (rows : List Row) (st : Stats)
    → (for_each count_stale rows st).pending_silent_tombstoned ≡ st.pending_silent_tombstoned
unfolding for_each count_stale
count_stale-keeps [] st = refl
count_stale-keeps (r ∷ rows) st = count_stale-keeps rows (count_stale r st) ∙ ground arith

carry_out-stats :
    (now : ℕ) (p : Plan) (st : Stats) (table : List Row)
    → let st' = for_each count_stale p.stale_rows (record st {
      retried = st.retried + length p.rows;
      timeout_tombstoned = st.timeout_tombstoned + length p.timeout_tombstone_rows;
    }) in
      (carry_out now p (st, table)).0 ≡ record st' {
        pending_silent_tombstoned = st'.pending_silent_tombstoned + length p.silent_pending_rows;
      }
unfolding carry_out
carry_out-stats now p st table = rw (
  bury_silent_one-stats now p.silent_pending_rows,
  settle_one-stats now p.stale_rows,
  bury_timeout_one-stats now p.timeout_tombstone_rows,
  retry_one-stats p.rows,
)

started : (p : Plan) → Stats
unfolding initial_stats
started p = record (initial_stats p) {
  retried = length p.rows;
  timeout_tombstoned = length p.timeout_tombstone_rows;
}

started-eq :
    (p : Plan)
    → record (initial_stats p) {
      retried = (initial_stats p).retried + length p.rows;
      timeout_tombstoned = (initial_stats p).timeout_tombstoned + length p.timeout_tombstone_rows;
    }
      ≡ started p
unfolding started
started-eq p = ground arith

dry_stats-carry_out :
    (now : ℕ) (p : Plan) (table : List Row)
    → dry_stats p (initial_stats p) ≡ (carry_out now p (initial_stats p, table)).0
unfolding dry_stats started
dry_stats-carry_out now p table =
    let st' : Stats = for_each count_stale p.stale_rows (started p) in
    ground (arith, count_stale-keeps p.stale_rows (started p))
    ∙ ap
        (λ st.
          let st' = for_each count_stale p.stale_rows st in
          record st' {
            pending_silent_tombstoned =
                st'.pending_silent_tombstoned + length p.silent_pending_rows;
          })
        (sym (started-eq p))
    ∙ sym (carry_out-stats now p (initial_stats p) table)

-- A dry run changes no row, and reports the very counts that a live run reports.
pub retry_failed_extractions-dry_run :
    (now max_seconds : ℕ) (table : List Row)
    → retry_failed_extractions now max_seconds true table
      ≡ ((retry_failed_extractions now max_seconds false table).0, table)
unfolding retry_failed_extractions
retry_failed_extractions-dry_run now max_seconds table =
    ap (λ st. (st, table)) (dry_stats-carry_out now (make_plan now max_seconds table) table)
