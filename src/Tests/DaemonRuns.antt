-- ===== src/Tests/DaemonRuns.antt =====
-- Runs of the cron schedules and of the scheduler.
use mnemonic_os.Base.{
  strip, zero, suc, Bool, map, ℕ, ◌+◌, ◌*◌, ◌/◌, ◌%◌, ◌≤◌, ◌<◌, ◌≡◌, ◌↔◌, refl, true, false, ◌&&◌,
  none, some, List, [], ◌∷◌, arith, codes, All, ◌==◌, select, count_where, elem,
}
use mnemonic_os.Candidates.Json.{pos, negsuc}
use mnemonic_os.Daemon.Cron.{
  Moment, Schedule, Entry, Due, matches, field_matches, simple_matches, next_after, search_from,
  due_jobs, is_due, parse_int,
}
use mnemonic_os.Daemon.CronLaws.{
  names, step_field, next_after-found, next_after-least, due_jobs-fired, matches-weekday_step,
}
use mnemonic_os.Daemon.Scheduler.{State, Thread, released, Reach, init, tick, start_job, started}
use mnemonic_os.Queue.{Row}
use mnemonic_os.Retry.{retry_failed_extractions}
use mnemonic_os.Daemon.Restart.{mark_processing_items_as_error}
use mnemonic_os.Daemon.Recovery.{resumed, mark_processing_items_as_error-retried}
use mnemonic_os.Tests.Samples.{waiting, stuck, timed_out}
use mnemonic_os.Daemon.Exclusion.{
  holders, holders-le_one, tick-Reach, start_job-Reach, pop-loses_running,
}

-- Days of 1440 minutes in a month without end; the first is a Monday.
abbrev calendar : ℕ → Moment
calendar m = record {
  minute = m % 60;
  hour = (m / 60) % 24;
  day = m / 1440 + 1;
  month = 1;
  weekday = (m / 1440) % 7;
}

-- Every minute.
abbrev always : Schedule
always = record {
  minute = codes "*";
  hour = codes "*";
  day = codes "*";
  month = codes "*";
  weekday = codes "*";
}

-- `5 * * * *`
abbrev hourly : Schedule
hourly = record always { minute = codes "5" }

hourly-next : next_after calendar hourly 0 ≡ some 5
unfolding next_after search_from matches field_matches simple_matches strip parse_int
hourly-next = refl

next_after-least_example : matches hourly (calendar 3) ≡ some false
next_after-least_example =
    next_after-least calendar hourly 0 5 3 hourly-next (omega arith) (omega arith)

hourly-hit : matches hourly (calendar 5) ≡ some true
unfolding matches field_matches simple_matches strip parse_int
hourly-hit = refl

hourly-answers : (k : ℕ) → 0 < k * 60 → k ≤ 5 → (b : Bool) × (matches hourly (calendar k) ≡ some b)
unfolding matches field_matches simple_matches strip parse_int
hourly-answers zero lo hi = (false, refl)
hourly-answers (suc zero) lo hi = (false, refl)
hourly-answers (suc (suc zero)) lo hi = (false, refl)
hourly-answers (suc (suc (suc zero))) lo hi = (false, refl)
hourly-answers (suc (suc (suc (suc zero)))) lo hi = (false, refl)
hourly-answers (suc (suc (suc (suc (suc zero))))) lo hi = (true, refl)
hourly-answers (suc (suc (suc (suc (suc (suc k)))))) lo hi = absurd (omega arith)

next_after-found_example : (t : ℕ) × (next_after calendar hourly 0 ≡ some t) × (t ≤ 5)
next_after-found_example =
    next_after-found calendar hourly 0 5 (omega arith) (omega arith) hourly-hit hourly-answers

abbrev entries : List Entry
entries =
    (record { name = 0; cron = always; next_due = 1 })
    ∷ (record { name = 1; cron = hourly; next_due = 5 })
    ∷ []

abbrev fired_first : Due
fired_first = record {
  fired = 0 ∷ [];
  entries =
      (record { name = 0; cron = always; next_due = 3 })
      ∷ (record { name = 1; cron = hourly; next_due = 5 })
      ∷ [];
}

entries-due : due_jobs calendar 120 entries ≡ some fired_first
unfolding due_jobs next_after search_from matches field_matches simple_matches strip parse_int
entries-due = refl

due_jobs-fired_example :
    (fired_first.fired ≡ names (select (is_due 120) entries))
    × (names fired_first.entries ≡ names entries)
    × All (λ e. 120 < e.next_due * 60) fired_first.entries
due_jobs-fired_example = due_jobs-fired calendar 120 entries fired_first entries-due

-- `* * * * */2`
abbrev every_second_weekday : Schedule
every_second_weekday = record always { weekday = step_field 2 }

any_time : (current : ℕ) → field_matches false (codes "*") current (calendar 0) ≡ some true
unfolding field_matches simple_matches strip
any_time current = refl

matches-weekday_step_example : matches every_second_weekday (calendar 0) ≡ some (1 % 2 == 0)
matches-weekday_step_example =
    matches-weekday_step every_second_weekday (calendar 0) 2 (omega arith) (omega arith) refl
      (any_time 0) (any_time 0) (any_time 1) (any_time 1)

abbrev two_jobs : List ℕ
two_jobs = 0 ∷ 1 ∷ []

holders-le_one_example :
    (holders 1 (tick (1 ∷ []) (init two_jobs)).threads ≤ 1)
    × (((tick (1 ∷ []) (init two_jobs)).locked 1 ≡ true)
        ↔ (holders 1 (tick (1 ∷ []) (init two_jobs)).threads ≡ 1))
holders-le_one_example =
    holders-le_one two_jobs (tick (1 ∷ []) (init two_jobs)) 1 (tick-Reach (1 ∷ []) (init two_jobs))

start_job-Reach_example :
    Reach (init two_jobs) (start_job 1 (init two_jobs)).1
    × (((start_job 1 (init two_jobs)).0 ≡ started 1)
        ↔ ((elem 1 (init two_jobs).known ≡ true) × ((init two_jobs).locked 1 ≡ false)))
start_job-Reach_example = start_job-Reach 1 (init two_jobs)

-- A thread that has released the lock of job 1 and has not popped its entry yet.
abbrev last_run : Thread
last_run = record { id = 0; job = 1; spawned = true; phase = released }

abbrev between : State
between = record {
  known = two_jobs;
  locked = λ _. false;
  running = λ _. some 0;
  progress = λ _. false;
  last_results = λ _. some true;
  threads = last_run ∷ [];
  next_thread = 1;
}

pop-loses_running_example :
    (u : State) × Reach between u
    × (u.locked 1 ≡ true)
    × (u.running 1 ≡ none)
    × (1 ≤ count_where (λ x. x.job == 1 && x.spawned) u.threads)
pop-loses_running_example = pop-loses_running [] [] last_run between refl refl refl refl

abbrev queue : List Row
queue = waiting ∷ stuck ∷ timed_out ∷ []

mark_processing_items_as_error-retried_example :
    (retry_failed_extractions 9000 1800 false (mark_processing_items_as_error 5000 queue)).1
    ≡ map (resumed 5000 9000 1800) queue
mark_processing_items_as_error-retried_example =
    mark_processing_items_as_error-retried 5000 9000 1800 queue (refl, (refl, (refl, tt)))

ints-read :
    (parse_int (codes " -5 ") ≡ some (negsuc 4))
    × (parse_int (codes "+1_0") ≡ some (pos 10))
    × (parse_int (codes "1__0") ≡ none)
    × (parse_int (codes "") ≡ none)
unfolding parse_int strip
ints-read = (refl, refl, refl, refl)
