-- ===== src/Retry/Effect.antt =====
-- What a live run of `_retry_failed_extractions_job` does to each row.
use mnemonic_os.Base.{
  ℕ, ◌≡◌, refl, ap, ◌∙◌, Bool, false, ◌&&◌, List, [], ◌∷◌, map, arith, if◌then◌else◌, select,
}
use mnemonic_os.Base.Sorting.{order_by}
use mnemonic_os.Queue.{Row}
use mnemonic_os.Retry.{
  Stats, Plan, Verdict, retry, tombstone_timeout, wait, judge, is_retry, is_tombstone_timeout,
  is_open_error, is_stale, is_silent, error_before, started_before, silent_before, reset, bury,
  bury_timeout, settle_stale, silent_message, effective_stale_minutes, make_plan, initial_stats,
  retry_one, bury_timeout_one, settle_one, bury_silent_one, carry_out, retry_failed_extractions,
}
use mnemonic_os.Retry.Updates.{
  UniqueIds, matching, touch, for_each-touch, touch-selected, matching-plan, matching-ordered,
  UniqueIds-matching, map_cong_All, All-imp, sort_errors-rows, sort_errors-timeouts,
}

-- An open error by the verdict on it.
abbrev pub after_verdict : ℕ → Verdict → Row → Row
after_verdict now retry r = reset r
after_verdict now tombstone_timeout r = bury_timeout now r
after_verdict now wait r = r

-- What a live run makes of one row, by the row alone.
unfoldable pub settled : ℕ → ℕ → Row → Row
settled now max_seconds r =
    if is_open_error r
    then after_verdict now (judge now r) r
    else if is_stale now (effective_stale_minutes max_seconds) r
    then settle_stale now r r
    else if is_silent r
    then bury now silent_message r
    else r

module _ {ℓ} {A B C : Type ℓ} where
  map-map : (g : B → C) (f : A → B) (xs : List A) → map g (map f xs) ≡ map (λ x. g (f x)) xs
  map-map g f [] = refl
  map-map g f (x ∷ xs) = ap (λ t. g (f x) ∷ t) (map-map g f xs)

module _ (now max_seconds : ℕ) (table : List Row) where
  abbrev plan : Plan
  plan = make_plan now max_seconds table

  abbrev minutes : ℕ
  minutes = effective_stale_minutes max_seconds

  -- The four loops, as one function on a row.
  abbrev touched : Row → Row
  touched r =
      touch (λ _. bury now silent_message) plan.silent_pending_rows
        (touch (settle_stale now) plan.stale_rows (
          touch (λ _. bury_timeout now) plan.timeout_tombstone_rows
            (touch (λ _. reset) plan.rows r)))

  carry_out-touched : (st : Stats) → (carry_out now plan (st, table)).1 ≡ map touched table
  unfolding carry_out
  carry_out-touched st =
      rw
        (
          for_each-touch (λ _. bury now silent_message) (bury_silent_one now)
              (λ read s t. unfold bury_silent_one in refl) plan.silent_pending_rows,
          for_each-touch (settle_stale now) (settle_one now) (λ read s t. unfold settle_one in refl)
              plan.stale_rows,
          for_each-touch (λ _. bury_timeout now) (bury_timeout_one now)
              (λ read s t. unfold bury_timeout_one in refl) plan.timeout_tombstone_rows,
          for_each-touch (λ _. reset) retry_one (λ read s t. unfold retry_one in refl) plan.rows,
        )
        (simp map-map)

  rows-matching :
      (r : Row)
      → matching r.id table ≡ r ∷ []
      → matching r.id plan.rows ≡ (if is_open_error r && is_retry (judge now r) then r ∷ [] else [])
  unfolding make_plan
  rows-matching r h =
      ap (matching r.id)
        (sort_errors-rows now (order_by error_before (select is_open_error table)) [] [] 0)
      ∙ matching-plan error_before is_open_error (λ s. is_retry (judge now s)) r table h

  timeouts-matching :
      (r : Row)
      → matching r.id table ≡ r ∷ []
      → matching r.id plan.timeout_tombstone_rows
        ≡ (if is_open_error r && is_tombstone_timeout (judge now r) then r ∷ [] else [])
  unfolding make_plan
  timeouts-matching r h =
      ap (matching r.id)
        (sort_errors-timeouts now (order_by error_before (select is_open_error table)) [] [] 0)
      ∙ matching-plan error_before is_open_error (λ s. is_tombstone_timeout (judge now s)) r table h

  stale-matching :
      (r : Row)
      → matching r.id table ≡ r ∷ []
      → matching r.id plan.stale_rows ≡ (if is_stale now minutes r then r ∷ [] else [])
  unfolding make_plan
  stale-matching r h = matching-ordered started_before (is_stale now minutes) r table h

  silent-matching :
      (r : Row)
      → matching r.id table ≡ r ∷ []
      → matching r.id plan.silent_pending_rows ≡ (if is_silent r then r ∷ [] else [])
  unfolding make_plan
  silent-matching r h = matching-ordered silent_before is_silent r table h

  abbrev retried : Row → Bool
  retried s = is_open_error s && is_retry (judge now s)

  abbrev timed_out : Row → Bool
  timed_out s = is_open_error s && is_tombstone_timeout (judge now s)

  abbrev once : Row → Row
  once r = if retried r then reset r else r

  abbrev twice : Row → Row
  twice r = if timed_out r then bury_timeout now (once r) else once r

  abbrev thrice : Row → Row
  thrice r = if is_stale now minutes r then settle_stale now r (twice r) else twice r

  -- The four tests never hold of one row together, so the loops do not meet.
  once_to_settled :
      (r : Row)
      → (if is_silent r then bury now silent_message (thrice r) else thrice r)
        ≡ settled now max_seconds r
  unfolding settled
  once_to_settled r = ground arith

  touched-settled : (r : Row) → matching r.id table ≡ r ∷ [] → touched r ≡ settled now max_seconds r
  touched-settled r h =
      ap
        (λ x.
          touch (λ _. bury now silent_message) plan.silent_pending_rows
            (touch (settle_stale now) plan.stale_rows
              (touch (λ _. bury_timeout now) plan.timeout_tombstone_rows x)))
        (touch-selected (λ _. reset) (λ _ _. refl) retried r plan.rows r refl (rows-matching r h))
      ∙ ap
          (λ x.
            touch (λ _. bury now silent_message) plan.silent_pending_rows
              (touch (settle_stale now) plan.stale_rows x))
          (touch-selected (λ _. bury_timeout now) (λ _ _. refl) timed_out r
            plan.timeout_tombstone_rows (once r) (ground arith) (timeouts-matching r h))
      ∙ ap (touch (λ _. bury now silent_message) plan.silent_pending_rows) (
          touch-selected (settle_stale now) (λ s x. ground arith) (is_stale now minutes) r
            plan.stale_rows (twice r) (ground arith) (stale-matching r h))
      ∙ touch-selected (λ _. bury now silent_message) (λ _ _. refl) is_silent r
          plan.silent_pending_rows (thrice r) (ground arith) (silent-matching r h)
      ∙ once_to_settled r

-- Under unique ids a live run makes of each row what `settled` says, by that row alone: an open
-- error is retried, buried or left to wait by its verdict, a row stuck in processing is reset or
-- buried by its attempts, a silently failing pending row is buried, and every other row is kept.
pub retry_failed_extractions-settles :
    (now max_seconds : ℕ) (table : List Row)
    → UniqueIds table
    → (retry_failed_extractions now max_seconds false table).1 ≡ map (settled now max_seconds) table
unfolding retry_failed_extractions
retry_failed_extractions-settles now max_seconds table u =
    carry_out-touched now max_seconds table (initial_stats (make_plan now max_seconds table))
    ∙ map_cong_All (touched now max_seconds table) (settled now max_seconds) table (
        All-imp table (λ r h. touched-settled now max_seconds table r h)
          (UniqueIds-matching table u))
