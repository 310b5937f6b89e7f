-- ===== src/Queue/LaneOrder.antt =====
-- The lanes of extraction/queue.py: taking the quick half and then the slow half of the queue is
-- taking the whole queue.
use mnemonic_os.Base.{
  ℕ, ◌+◌, ◌≤◌, ◌≡◌, sym, ap, ◌∙◌, Bool, true, false, not, ◌&&◌, List, ◌++◌, arith, length, take,
  select, length-select, select-select, take_all, take-map, count_where-le_length,
}
use mathlib.Core.Path.{fun_ext}
use mathlib.Core.List.{map-append}
use mnemonic_os.Base.Sorting.{
  order_by, length-order_by, order_by_same, select-All, select-not-All, order_by-split,
}
use mnemonic_os.Queue.{Row, is_pending, row_to_item}
use mnemonic_os.Queue.Lanes.{
  Archive, lane, quick_lane, slow_lane, before, is_quick, is_slow, pending_items,
  pending_quick_items, pending_slow_items,
}

module _ (archive : Archive) where
  is_slow-not : (r : Row) → is_slow archive r ≡ not (is_quick archive r)
  unfolding is_slow is_quick
  is_slow-not r = ground arith

  lane-quick : (r : Row) → is_quick archive r ≡ true → lane archive r ≡ quick_lane r
  unfolding lane quick_lane is_quick
  lane-quick r h = ground arith

  lane-slow : (r : Row) → is_quick archive r ≡ false → lane archive r ≡ slow_lane archive r + 2
  unfolding lane slow_lane is_quick
  lane-slow r h = ground arith

  lane-quick_le : (r : Row) → is_quick archive r ≡ true → lane archive r ≤ 1
  unfolding lane is_quick
  lane-quick_le r h = ground arith

  before-apart :
      (r s : Row)
      → is_quick archive r ≡ true
      → is_quick archive s ≡ false
      → (before (lane archive) r s ≡ true) × (before (lane archive) s r ≡ false)
  unfolding before
  before-apart r s hr hs = ground (arith, lane-quick_le r hr, lane-slow s hs)

  before-quick :
      (r s : Row)
      → is_quick archive r ≡ true
      → is_quick archive s ≡ true
      → before (lane archive) r s ≡ before quick_lane r s
  unfolding before
  before-quick r s hr hs = ground (arith, lane-quick r hr, lane-quick s hs)

  before-slow :
      (r s : Row)
      → is_quick archive r ≡ false
      → is_quick archive s ≡ false
      → before (lane archive) r s ≡ before (slow_lane archive) r s
  unfolding before
  before-slow r s hr hs = ground (arith, lane-slow r hr, lane-slow s hs)

  abbrev pending_rows : List Row → List Row
  pending_rows = select (λ r. is_pending r.status)

  sorted_quick :
      (rows : List Row)
      → order_by (before (lane archive)) (select (is_quick archive) (pending_rows rows))
        ≡ order_by
            (before quick_lane)
            (select (λ r. is_pending r.status && is_quick archive r) rows)
  sorted_quick rows =
      order_by_same (λ r. is_quick archive r ≡ true) (before (lane archive)) (before quick_lane)
        before-quick (select (is_quick archive) (pending_rows rows))
        (select-All (is_quick archive) (pending_rows rows))
      ∙ ap (order_by (before quick_lane))
          (select-select (λ r. is_pending r.status) (is_quick archive) rows)

  sorted_slow :
      (rows : List Row)
      → order_by
          (before (lane archive))
          (select (λ r. not (is_quick archive r)) (pending_rows rows))
        ≡ order_by
            (before (slow_lane archive))
            (select (λ r. is_pending r.status && is_slow archive r) rows)
  sorted_slow rows =
      order_by_same (λ r. is_quick archive r ≡ false) (before (lane archive))
        (before (slow_lane archive)) before-slow
        (select (λ r. not (is_quick archive r)) (pending_rows rows))
        (select-not-All (is_quick archive) (pending_rows rows))
      ∙ ap (order_by (before (slow_lane archive))) (
          select-select (λ r. is_pending r.status) (λ r. not (is_quick archive r)) rows
          ∙ ap (λ p. select (λ r. is_pending r.status && p r) rows)
              (fun_ext (λ r. sym (is_slow-not r))))

  take_sorted :
      (b : Row → Row → Bool) (p : Row → Bool) (rows : List Row)
      → take (length rows) (order_by b (select p rows)) ≡ order_by b (select p rows)
  take_sorted b p rows = take_all (length rows) (order_by b (select p rows)) (
      omega (
        arith,
        length-order_by b (select p rows),
        length-select p rows,
        count_where-le_length p rows,
      ))

  -- With any limit, `pending_items` gives the first items of all that `pending_quick_items` gives
  -- followed by all that `pending_slow_items` gives: the two queries part the pending rows, none is
  -- in both or in neither, and the order within each is the order of the whole.
  pub pending_items-quick_then_slow :
      (limit : ℕ) (rows : List Row)
      → pending_items archive limit rows
        ≡ take limit (
            pending_quick_items archive (length rows) rows
            ++ pending_slow_items archive (length rows) rows)
  unfolding pending_items pending_quick_items pending_slow_items
  pending_items-quick_then_slow limit rows =
      rw
        (
          take_sorted (before quick_lane) (λ r. is_pending r.status && is_quick archive r) rows,
          take_sorted (before (slow_lane archive)) (λ r. is_pending r.status && is_slow archive r)
              rows,
          ← sorted_quick rows,
          ← sorted_slow rows,
          ← map-append,
          ← order_by-split (before (lane archive)) (is_quick archive) before-apart
              (pending_rows rows),
        )
        (take-map row_to_item limit (order_by (before (lane archive)) (pending_rows rows)))
