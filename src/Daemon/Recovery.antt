-- ===== src/Daemon/Recovery.antt =====
-- What a restart of the daemon does to the items that were in processing.
use mnemonic_os.Base.{
  ℕ, ◌+◌, ◌≡◌, refl, ◌∙◌, inl, inr, Bool, false, List, [], ◌∷◌, map, arith, ◌==◌, if◌then◌else◌,
  Bool-cases, any, count_where, update_where,
}
use mnemonic_os.Queue.{Row, is_pending}
use mnemonic_os.Retry.{reset, judge, retry_failed_extractions}
use mnemonic_os.Retry.Updates.{UniqueIds}
use mnemonic_os.Retry.Effect.{settled, retry_failed_extractions-settles}
use mnemonic_os.Daemon.Restart.{
  in_processing, back_to_pending, reset_stale_processing_items, fail_at_exit,
  mark_processing_items_as_error,
}

abbrev pub waits : Row → Bool
waits r = is_pending r.status

reset_where :
    (rows : List Row)
    → let after = update_where in_processing back_to_pending rows in
      (count_where in_processing after ≡ 0)
      × (count_where waits after ≡ count_where waits rows + count_where in_processing rows)
reset_where [] = (refl, omega arith)
reset_where (r ∷ rows) = ground (arith, reset_where rows)

-- After the reset at startup no row is in processing, and there are as many more pending rows as
-- there were rows in processing: each is visible to the queries again.
pub reset_stale_processing_items-clears :
    (rows : List Row)
    → (count_where in_processing (reset_stale_processing_items rows) ≡ 0)
      × (count_where waits (reset_stale_processing_items rows)
          ≡ count_where waits rows + count_where in_processing rows)
unfolding reset_stale_processing_items
reset_stale_processing_items-clears rows = ground (arith, reset_where rows)

any-mark :
    (now id : ℕ) (rows : List Row)
    → any (λ s. s.id == id) (update_where in_processing (fail_at_exit now) rows)
      ≡ any (λ s. s.id == id) rows
any-mark now id [] = refl
any-mark now id (r ∷ rows) = ground (arith, any-mark now id rows)

UniqueIds-mark :
    (now : ℕ) (rows : List Row)
    → UniqueIds rows
    → UniqueIds (update_where in_processing (fail_at_exit now) rows)
UniqueIds-mark now [] u = tt
UniqueIds-mark now (r ∷ rows) u = elim (Bool-cases (in_processing r)) [
  | inl e ↦ rw e (any-mark now r.id rows ∙ u.0, UniqueIds-mark now rows u.1)
  | inr e ↦ rw e (any-mark now r.id rows ∙ u.0, UniqueIds-mark now rows u.1)
]

settled-failed_at_exit :
    (now later max_seconds : ℕ) (r : Row)
    → settled later max_seconds (fail_at_exit now r) ≡ reset (fail_at_exit now r)
unfolding settled judge
settled-failed_at_exit now later max_seconds r = ground arith

-- What a shutdown and the next run of the retry job make of one row.
abbrev pub resumed : ℕ → ℕ → ℕ → Row → Row
resumed now later max_seconds r =
    if in_processing r then reset (fail_at_exit now r) else settled later max_seconds r

map-mark :
    (now later max_seconds : ℕ) (rows : List Row)
    → map (settled later max_seconds) (update_where in_processing (fail_at_exit now) rows)
      ≡ map (resumed now later max_seconds) rows
map-mark now later max_seconds [] = refl
map-mark now later max_seconds (r ∷ rows) = elim (Bool-cases (in_processing r)) [
  | inl e ↦
      rw (e, map-mark now later max_seconds rows, settled-failed_at_exit now later max_seconds r)
  | inr e ↦ rw (e, map-mark now later max_seconds rows)
]

-- Under unique ids, a row that is in processing when the daemon shuts down is pending again after
-- the next live run of the retry job, whatever its attempts are: it is not buried. Every other row
-- is settled as without the shutdown.
pub mark_processing_items_as_error-retried :
    (now later max_seconds : ℕ) (rows : List Row)
    → UniqueIds rows
    → (retry_failed_extractions later max_seconds false (mark_processing_items_as_error now rows)).1
      ≡ map (resumed now later max_seconds) rows
unfolding mark_processing_items_as_error
mark_processing_items_as_error-retried now later max_seconds rows u =
    retry_failed_extractions-settles later max_seconds
      (update_where in_processing (fail_at_exit now) rows) (UniqueIds-mark now rows u)
    ∙ map-mark now later max_seconds rows
