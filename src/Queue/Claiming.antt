-- ===== src/Queue/Claiming.antt =====
-- What `mark_processing` guarantees to the workers that share the queue: extraction/queue.py and
-- the comment in its docstring on at most one subprocess for an item.
use mnemonic_os.Base.{
  ℕ, ◌+◌, ◌≤◌, ◌<◌, ◌≡◌, refl, ◌≢◌, ◌⊎◌, inl, inr, Text, true, false, ◌&&◌, List, [], ◌∷◌, arith,
  ◌==◌, if◌then◌else◌, Bool-cases, count_where, update_where, count_where-le,
  count_where-update_where_zero,
}
use mnemonic_os.Queue.{Row, pending}
use mnemonic_os.Queue.Marks.{
  Finish, claimable, claim, finish, mark_processing, requeue_orphaned_processing, mark_finished,
  update_window_checkpoint, mark_error,
}

-- What the threads and subprocesses of the daemon do to the table.
pub data Event : Type 0 where
  take_item : ℕ → ℕ → Event
  finish_item : ℕ → ℕ → Finish → Event
  fail_item : ℕ → ℕ → Text → Event
  checkpoint : ℕ → ℕ → Event
  reap : ℕ → ℕ → Event

pub apply : Event → List Row → List Row
apply (take_item now id) rows = (mark_processing now id rows).1
apply (finish_item now id f) rows = mark_finished now id f rows
apply (fail_item now id message) rows = mark_error now id message rows
apply (checkpoint id n) rows = update_window_checkpoint id n rows
apply (reap now older_than) rows = (requeue_orphaned_processing now older_than rows).1

-- 1 if the event is a claim of the item that succeeds.
pub won : ℕ → Event → List Row → ℕ
won q (take_item now id) rows = if q == id && (mark_processing now id rows).0 then 1 else 0
won q _ rows = 0

-- How often the item is handed to a worker in the course of the events.
pub wins : ℕ → List Event → List Row → ℕ
wins q [] rows = 0
wins q (e ∷ es) rows = won q e rows + wins q es (apply e rows)

-- No event of the trace puts a row back to pending.
abbrev pub NoRequeue : List Event → Type 0
NoRequeue [] = Unit
NoRequeue (reap _ _ ∷ es) = ⊥
NoRequeue (finish_item _ _ f ∷ es) = (f.status ≢ pending) × NoRequeue es
NoRequeue (_ ∷ es) = NoRequeue es

abbrev pub claimable_count : ℕ → List Row → ℕ
claimable_count q rows = count_where (claimable q) rows

claimable-claim :
    (q : ℕ) (now id : ℕ) (rows : List Row)
    → claimable_count q rows ≡ 0
    → claimable_count q (mark_processing now id rows).1 ≡ 0
unfolding mark_processing
claimable-claim q now id rows =
    count_where-update_where_zero (claimable q) (claimable id) (claim now) (λ r e k. ground arith)
      rows

claimable-claim_self :
    (q now : ℕ) (rows : List Row) → claimable_count q (mark_processing now q rows).1 ≡ 0
unfolding mark_processing
claimable-claim_self q now [] = refl
claimable-claim_self q now (r ∷ rows) = ground (arith, claimable-claim_self q now rows)

claimable-finish :
    (q : ℕ) (now id : ℕ) (f : Finish) (rows : List Row)
    → f.status ≢ pending
    → claimable_count q rows ≡ 0
    → claimable_count q (mark_finished now id f rows) ≡ 0
unfolding mark_finished
claimable-finish q now id f rows kept =
    count_where-update_where_zero (claimable q) (λ r. r.id == id) (finish now f)
      (λ r e k. ground arith) rows

claimable-fail :
    (q : ℕ) (now id : ℕ) (message : Text) (rows : List Row)
    → claimable_count q rows ≡ 0
    → claimable_count q (mark_error now id message rows) ≡ 0
unfolding mark_error
claimable-fail q now id message rows =
    count_where-update_where_zero (claimable q) (λ r. r.id == id) _ (λ r e k. ground arith) rows

claimable-checkpoint :
    (q : ℕ) (id n : ℕ) (rows : List Row)
    → claimable_count q rows ≡ 0
    → claimable_count q (update_window_checkpoint id n rows) ≡ 0
unfolding update_window_checkpoint
claimable-checkpoint q id n rows =
    count_where-update_where_zero (claimable q) (λ r. r.id == id) _ (λ r e k. ground arith) rows

won_zero :
    (q now id : ℕ) (rows : List Row)
    → claimable_count q rows ≡ 0
    → won q (take_item now id) rows ≡ 0
unfolding won mark_processing
won_zero q now id rows h = elim (Bool-cases (q == id)) [ inl e ↦ ground (arith, h) | inr e ↦ rw e ]

-- Once no row is claimable as `q`, it stays so until a row is put back.
claimable-apply :
    (q : ℕ) (e : Event) (rows : List Row)
    → NoRequeue (e ∷ [])
    → claimable_count q rows ≡ 0
    → claimable_count q (apply e rows) ≡ 0
unfolding apply
claimable-apply q (take_item now id) rows k h = claimable-claim q now id rows h
claimable-apply q (finish_item now id f) rows k h = claimable-finish q now id f rows k.0 h
claimable-apply q (fail_item now id message) rows k h = claimable-fail q now id message rows h
claimable-apply q (checkpoint id n) rows k h = claimable-checkpoint q id n rows h
claimable-apply q (reap now older_than) rows k h = absurd k

NoRequeue-split :
    (e : Event) (es : List Event) → NoRequeue (e ∷ es) → NoRequeue (e ∷ []) × NoRequeue es
NoRequeue-split (take_item now id) es k = (tt, k)
NoRequeue-split (finish_item now id f) es k = ((k.0, tt), k.1)
NoRequeue-split (fail_item now id message) es k = (tt, k)
NoRequeue-split (checkpoint id n) es k = (tt, k)
NoRequeue-split (reap now older_than) es k = absurd k

won-zero : (q : ℕ) (e : Event) (rows : List Row) → claimable_count q rows ≡ 0 → won q e rows ≡ 0
unfolding won
won-zero q (take_item now id) rows h = unfold won in won_zero q now id rows h
won-zero q _ rows h = refl

wins_zero :
    (q : ℕ) (es : List Event) (rows : List Row)
    → NoRequeue es
    → claimable_count q rows ≡ 0
    → wins q es rows ≡ 0
unfolding wins
wins_zero q [] rows k h = refl
wins_zero q (e ∷ es) rows k h = omega (
  arith,
  won-zero q e rows h,
  wins_zero q es (apply e rows) (NoRequeue-split e es k).1
      (claimable-apply q e rows (NoRequeue-split e es k).0 h),
)

-- A claim that is won leaves nothing to claim under its id.
won-claimable :
    (q : ℕ) (e : Event) (rows : List Row)
    → (won q e rows ≡ 0) ⊎ ((won q e rows ≡ 1) × (claimable_count q (apply e rows) ≡ 0))
unfolding won apply
won-claimable q (take_item now id) rows = elim (Bool-cases (q == id)) [
  | inl e ↦ ground (arith, claimable-claim_self q now rows)
  | inr e ↦ ground arith
]
won-claimable q _ rows = inl refl

-- However claims, results, failures and checkpoints of any workers interleave, an item is handed
-- out at most once as long as no row is put back to pending.
pub wins-le_one : (q : ℕ) (es : List Event) (rows : List Row) → NoRequeue es → wins q es rows ≤ 1
unfolding wins
wins-le_one q [] rows k = omega arith
wins-le_one q (e ∷ es) rows k = elim (won-claimable q e rows) [
  | inl lost ↦ omega (arith, lost, wins-le_one q es (apply e rows) (NoRequeue-split e es k).1)
  | inr (w, gone) ↦ omega (arith, w, wins_zero q es (apply e rows) (NoRequeue-split e es k).1 gone)
]

abbrev pub id_count : ℕ → List Row → ℕ
id_count q rows = count_where (λ r. r.id == q) rows

-- Under an id of which there is one row, the reaper before its time leaves a fresh claim alone.
reaped-claimable :
    (q now now' older_than : ℕ) (rows : List Row)
    → now' < now + older_than
    → id_count q rows ≡ claimable_count q rows
    → claimable_count q
        (requeue_orphaned_processing now' older_than (mark_processing now q rows).1).1
      ≡ 0
unfolding mark_processing requeue_orphaned_processing
reaped-claimable q now now' older_than [] early only = refl
reaped-claimable q now now' older_than (r ∷ rows) early only = ground (
  arith,
  count_where-le (claimable q) (λ r. r.id == q) (λ r h. ground arith) rows,
  reaped-claimable q now now' older_than rows early,
)

-- Under an id of which there is one row, a worker that has won the item keeps it for `older_than`
-- seconds: after a reaper that runs before then, a second claim of the item is refused.
pub mark_processing-excludes :
    (q now now' later older_than : ℕ) (rows : List Row)
    → id_count q rows ≡ 1
    → (mark_processing now q rows).0 ≡ true
    → now' < now + older_than
    → (mark_processing later q
        (requeue_orphaned_processing now' older_than (mark_processing now q rows).1).1).0
      ≡ false
unfolding mark_processing
mark_processing-excludes q now now' later older_than rows one win early =
    ground (arith, reaped-claimable q now now' older_than rows early (ground arith))

-- Under an id of which there is at most one row, a claim that is refused changes nothing.
pub mark_processing-refused :
    (q now : ℕ) (rows : List Row)
    → id_count q rows ≤ 1
    → (mark_processing now q rows).0 ≡ false
    → (mark_processing now q rows).1 ≡ rows
unfolding mark_processing
mark_processing-refused q now rows one refused = unchanged rows (none_claimable)
  where
    none_claimable : claimable_count q rows ≡ 0
    none_claimable =
        ground (arith, count_where-le (claimable q) (λ r. r.id == q) (λ r h. ground arith) rows)

    unchanged :
        (rs : List Row) → claimable_count q rs ≡ 0 → update_where (claimable q) (claim now) rs ≡ rs
    unchanged [] h = refl
    unchanged (r ∷ rs) h = ground (arith, unchanged rs)
