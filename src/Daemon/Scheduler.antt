-- ===== src/Daemon/Scheduler.antt =====
-- `Scheduler` of src/second_brain/daemon.py: the per-job locks, the dictionary `_running` of
-- threads, and what each thread does to them. Jobs are numbers, the places of their names in
-- `registry.job_names()`; a lock is the fact that it is held. What a job does is not part of this
-- state: a run ends with a payload "ok" (true) or "error" (false).
use mnemonic_os.Base.{
  ℕ, suc, ◌≡◌, Bool, true, false, not, Option, none, some, List, [], ◌∷◌, ◌++◌, ◌==◌, if◌then◌else◌,
  elem, select, is_some,
}

-- Where a thread stands in `_run_job_in_thread`, or a caller in `run_job_now`: it has the lock; it
-- is in `_running` and runs; it has stored its result; it has released the lock in `finally`.
pub data Phase : Type 0 where
  acquired working finished released : Phase

pub record Thread : Type 0 where
  pub id : ℕ
  pub job : ℕ
  -- spawned by `_spawn_job`, not a caller of `run_job_now`
  pub spawned : Bool
  pub phase : Phase

pub record State : Type 0 where
  pub known : List ℕ
  pub locked : ℕ → Bool
  pub running : ℕ → Option ℕ
  pub progress : ℕ → Bool
  pub last_results : ℕ → Option Bool
  pub threads : List Thread
  pub next_thread : ℕ

abbrev pub update {ℓ} : {V : Type ℓ} → (ℕ → V) → ℕ → V → ℕ → V
update f k v j = if k == j then v else f j

-- The job of which progress is kept, "process_extraction_queue".
abbrev pub extraction : ℕ
extraction = 0

-- `job_lock.acquire(blocking=False)` on a free lock.
unfoldable pub acquire : ℕ → Bool → State → State
acquire job spawned s = record s {
  locked = update s.locked job true;
  threads =
      (record { id = s.next_thread; job = job; spawned = spawned; phase = acquired }) ∷ s.threads;
  next_thread = suc s.next_thread;
}

-- `self._running[job_name] = t` in `_spawn_job`; a caller of `run_job_now` is not entered. Then the
-- progress dictionary of the extraction job.
unfoldable pub register : Thread → State → State
register t s = record s {
  running = if t.spawned then update s.running t.job (some t.id) else s.running;
  progress = if t.job == extraction then update s.progress t.job true else s.progress;
}

-- `self._last_results[job_name] = payload`, on either way out of the `try`.
unfoldable pub store_result : Thread → Bool → State → State
store_result t result s = record s { last_results = update s.last_results t.job (some result) }

-- `job_lock.release()`
unfoldable pub release : Thread → State → State
release t s = record s { locked = update s.locked t.job false }

-- `self._running.pop(job_name, None)`, which `run_job_now` has not, and
-- `self._job_progress.pop(job_name, None)`.
unfoldable pub pop : Thread → State → State
pop t s = record s {
  running = if t.spawned then update s.running t.job none else s.running;
  progress = update s.progress t.job false;
}

-- One atomic action of one thread. The lock of a job is taken only while it is free.
pub data Step (s u : State) : Type 0 where
  acquires :
      (job : ℕ) (spawned : Bool) → s.locked job ≡ false → u ≡ acquire job spawned s → Step s u
  registers :
      (xs ys : List Thread) (t : Thread)
      → s.threads ≡ xs ++ (t ∷ ys)
      → t.phase ≡ acquired
      → u ≡ record (register t s) { threads = xs ++ ((record t { phase = working }) ∷ ys) }
      → Step s u
  completes :
      (xs ys : List Thread) (t : Thread) (result : Bool)
      → s.threads ≡ xs ++ (t ∷ ys)
      → t.phase ≡ working
      → u ≡ record (store_result t result s) {
        threads = xs ++ ((record t { phase = finished }) ∷ ys);
      }
      → Step s u
  releases :
      (xs ys : List Thread) (t : Thread)
      → s.threads ≡ xs ++ (t ∷ ys)
      → t.phase ≡ finished
      → u ≡ record (release t s) { threads = xs ++ ((record t { phase = released }) ∷ ys) }
      → Step s u
  pops :
      (xs ys : List Thread) (t : Thread)
      → s.threads ≡ xs ++ (t ∷ ys)
      → t.phase ≡ released
      → u ≡ record (pop t s) { threads = xs ++ ys }
      → Step s u

pub data Reach (s : State) : State → Type 0 where
  here : Reach s s
  next : {t u : State} → Reach s t → Step t u → Reach s u

-- `Scheduler.__init__`
unfoldable pub init : List ℕ → State
init known = record {
  known = known;
  locked = λ _. false;
  running = λ _. none;
  progress = λ _. false;
  last_results = λ _. none;
  threads = [];
  next_thread = 0;
}

-- `_spawn_job`, after the lock is taken: the new thread enters itself in `_running`.
unfoldable pub spawn_job : ℕ → State → State
unfolding acquire register
spawn_job job s =
    let t : Thread = record { id = s.next_thread; job = job; spawned = true; phase = acquired } in
    record (register t (acquire job true s)) {
      threads = (record t { phase = working }) ∷ s.threads;
    }

-- The reply of `start_job`. A busy reply lists the jobs of `_running`, here in the order of their
-- names, in the source in the order in which they were entered.
pub data Reply : Type 0 where
  unknown_job : ℕ → Reply
  busy : ℕ → List ℕ → Reply
  started : ℕ → Reply

unfoldable pub start_job : ℕ → State → Reply × State
unfolding spawn_job
start_job job s =
    if not (elem job s.known)
    then (unknown_job job, s)
    else if s.locked job
    then (busy job (select (λ j. is_some (s.running j)) s.known), s)
    else (started job, spawn_job job s)

-- `tick`, on the jobs that `due_jobs` gives: a job that runs still is skipped.
unfoldable pub tick : List ℕ → State → State
unfolding spawn_job
tick [] s = s
tick (job ∷ due) s = tick due (if s.locked job then s else spawn_job job s)
