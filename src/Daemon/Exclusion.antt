-- ===== src/Daemon/Exclusion.antt =====
-- What the locks of `Scheduler` (daemon.py) guarantee, and what `_running` does not.
use mnemonic_os.Base.{
  ℕ, ◌+◌, ◌≤◌, ◌≡◌, refl, ap, ◌↔◌, inl, inr, Bool, true, false, ◌&&◌, none, List, [], ◌∷◌, ◌++◌,
  arith, ◌==◌, if◌then◌else◌, Bool-cases, count_where, elem,
}
use mnemonic_os.Daemon.Scheduler.{
  Phase, acquired, working, finished, released, Thread, State, acquire, register, store_result,
  release, pop, Step, acquires, registers, completes, releases, pops, Reach, here, next, init,
  spawn_job, start_job, started, tick,
}

abbrev pub holds : Phase → Bool
holds released = false
holds _ = true

-- A thread that has the lock of the job.
abbrev pub holder : ℕ → Thread → Bool
holder j t = t.job == j && holds t.phase

abbrev pub holders : ℕ → List Thread → ℕ
holders j ts = count_where (holder j) ts

abbrev pub lock_count : Bool → ℕ
lock_count true = 1
lock_count false = 0

-- The lock of a job is held by one thread, or free and held by none.
pub record IsExclusive (s : State) : Type 0 where
  pub at : (j : ℕ) → holders j s.threads ≡ lock_count (s.locked j)

holders-append : (j : ℕ) (xs ys : List Thread) → holders j (xs ++ ys) ≡ holders j xs + holders j ys
holders-append j [] ys = omega arith
holders-append j (x ∷ xs) ys = ground (arith, holders-append j xs ys)

IsExclusive-init : (known : List ℕ) → IsExclusive (init known)
unfolding init
IsExclusive-init known = record { at = λ j. refl }

Step-IsExclusive : {s u : State} → Step s u → IsExclusive s → IsExclusive u
Step-IsExclusive {s} {u} (acquires job spawned free e) h = record {
  at = λ j. rw e (unfold acquire in ground (arith, h.at j));
}
Step-IsExclusive {s} {u} (registers xs ys t e p eu) h = record {
  at = λ j. rw eu (
      unfold register in
      ground (
        arith,
        h.at j,
        holders-append j xs (t ∷ ys),
        holders-append j xs ((record t { phase = working }) ∷ ys),
      ));
}
Step-IsExclusive {s} {u} (completes xs ys t result e p eu) h = record {
  at = λ j. rw eu (
      unfold store_result in
      ground (
        arith,
        h.at j,
        holders-append j xs (t ∷ ys),
        holders-append j xs ((record t { phase = finished }) ∷ ys),
      ));
}
Step-IsExclusive {s} {u} (releases xs ys t e p eu) h = record {
  at = λ j. rw eu (
      unfold release in
      ground (
        arith,
        h.at j,
        holders-append j xs (t ∷ ys),
        holders-append j xs ((record t { phase = released }) ∷ ys),
      ));
}
Step-IsExclusive {s} {u} (pops xs ys t e p eu) h = record {
  at = λ j.
      rw eu (
        unfold pop in ground (arith, h.at j, holders-append j xs (t ∷ ys), holders-append j xs ys));
}

Reach-IsExclusive : {s u : State} → IsExclusive s → Reach s u → IsExclusive u
Reach-IsExclusive h here = h
Reach-IsExclusive h (next r st) = Step-IsExclusive st (Reach-IsExclusive h r)

lock_count-le : (b : Bool) → lock_count b ≤ 1
lock_count-le true = omega arith
lock_count-le false = omega arith

-- However the actions of the scheduler, of the socket's callers and of the jobs' threads
-- interleave, no job is ever run by two threads at once, and its lock is held exactly while one
-- thread runs it.
pub holders-le_one :
    (known : List ℕ) (s : State) (j : ℕ)
    → Reach (init known) s
    → (holders j s.threads ≤ 1) × ((s.locked j ≡ true) ↔ (holders j s.threads ≡ 1))
holders-le_one known s j r =
    let h : IsExclusive s = Reach-IsExclusive (IsExclusive-init known) r in
    (
      omega (arith, h.at j, lock_count-le (s.locked j)),
      (λ e. ground (arith, h.at j), λ e. ground (arith, h.at j)),
    )

spawn_job-Reach : (job : ℕ) (s : State) → s.locked job ≡ false → Reach s (spawn_job job s)
unfolding spawn_job acquire
spawn_job-Reach job s free = next (next here (acquires job true free refl)) (
    registers [] s.threads
      (record { id = s.next_thread; job = job; spawned = true; phase = acquired }) refl refl refl)

Reach-trans : {s t u : State} → Reach s t → Reach t u → Reach s u
Reach-trans r here = r
Reach-trans r (next q st) = next (Reach-trans r q) st

if_free : (job : ℕ) (s : State) → Reach s (if s.locked job then s else spawn_job job s)
if_free job s = elim (Bool-cases (s.locked job)) [
  | inl e ↦ rw e here
  | inr e ↦ rw e (spawn_job-Reach job s e)
]

-- Whatever jobs are due, `tick` is a sequence of the actions of `Step`.
pub tick-Reach : (due : List ℕ) (s : State) → Reach s (tick due s)
unfolding tick
tick-Reach [] s = here
tick-Reach (job ∷ due) s =
    Reach-trans (if_free job s) (tick-Reach due (if s.locked job then s else spawn_job job s))

-- `start_job`, whatever it replies, is a sequence of the actions of `Step`, and it replies that the
-- job is started if and only if the job is known and its lock is free.
pub start_job-Reach :
    (job : ℕ) (s : State)
    → Reach s (start_job job s).1
      × (((start_job job s).0 ≡ started job) ↔ ((elem job s.known ≡ true) × (s.locked job ≡ false)))
unfolding start_job
start_job-Reach job s = elim (Bool-cases (elem job s.known)) [
  | inl e ↦ elim (Bool-cases (s.locked job)) [
    | inl l ↦ rw (e, l) (here, ground arith)
    | inr l ↦ rw (e, l) (spawn_job-Reach job s l, ground arith)
  ]
  | inr e ↦ rw e (here, ground arith)
]

-- Between `job_lock.release()` and `_running.pop(job_name)` of a thread another run of the same
-- job may start. From any state in which a spawned thread has released the lock of its job and not
-- yet popped its entry, and the lock is free, a state can be reached in which the job's lock is
-- held and a spawned thread of the job exists, while `_running` has no entry for the job.
pub pop-loses_running :
    (xs ys : List Thread) (t : Thread) (s : State)
    → s.threads ≡ xs ++ (t ∷ ys)
    → t.phase ≡ released
    → t.spawned ≡ true
    → s.locked t.job ≡ false
    → (u : State) × Reach s u
      × (u.locked t.job ≡ true)
      × (u.running t.job ≡ none)
      × (1 ≤ count_where (λ x. x.job == t.job && x.spawned) u.threads)
pop-loses_running xs ys t s e p sp free =
    let new : Thread = record {
      id = s.next_thread;
      job = t.job;
      spawned = true;
      phase = working;
    } in
    (
      record (pop t (spawn_job t.job s)) { threads = (new ∷ xs) ++ ys },
      next (spawn_job-Reach t.job s free)
          (pops (new ∷ xs) ys t (unfold spawn_job in ap (λ l. new ∷ l) e) p refl),
      unfold pop spawn_job register acquire in ground arith,
      unfold pop spawn_job register acquire in ground arith,
      ground arith,
    )
