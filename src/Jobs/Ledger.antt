-- ===== src/Jobs/Ledger.antt =====
-- `_open_job_run` and `_close_job_run` of jobs.py, `JobRunResult` of models.py, and the pattern
-- "open, try, close as ok or as error, raise again" of the jobs, with the run committed before the
-- `try` block (`run_logged`) or not (`run_uncommitted`).
use mnemonic_os.Base.{
  ℕ, suc, String, Text, Bool, Option, none, some, List, [], ◌∷◌, ◌++◌, ◌==◌, if◌then◌else◌,
  update_where,
}

-- A value of `stats`: a number, a truth value, or a list of strings.
pub data Stat : Type 0 where
  num : ℕ → Stat
  flag : Bool → Stat
  texts : List Text → Stat

abbrev pub Stats : Type 0
Stats = List (String × Stat)

-- The values that the CHECK on `job_runs.status` admits.
pub data RunStatus : Type 0 where
  started ok error : RunStatus

-- A row of `job_runs`, without `started_at`, which nothing reads.
pub record JobRun : Type 0 where
  pub id : ℕ
  pub job_name : String
  pub mode : String
  pub status : RunStatus
  pub finished_at : Option ℕ
  pub stats : Stats
  pub error_text : Option Text

-- The database as the jobs see it: `job_runs`, and the rest.
pub record World (S : Type 0) : Type 0 where
  pub runs : List JobRun
  pub next_id : ℕ
  pub rest : S

pub data Outcome (A : Type 0) : Type 0 where
  returned : A → Outcome A
  raised : Text → Outcome A

-- `JobRunResult`; `review_items_created` is empty in every job.
pub record JobRunResult : Type 0 where
  pub job_name : String
  pub status : String
  pub stats : Stats

-- `"dry-run" if dry_run else "live"`
abbrev pub mode_of : Bool → String
mode_of dry_run = if dry_run then "dry-run" else "live"

module _ {S : Type 0} where
  unfoldable pub open_job_run : String → String → World S → ℕ × World S
  open_job_run job_name mode w = (
    w.next_id,
    record w {
      runs =
          w.runs
          ++ ((record {
            id = w.next_id;
            job_name = job_name;
            mode = mode;
            status = started;
            finished_at = none;
            stats = [];
            error_text = none;
          })
              ∷ []);
      next_id = suc w.next_id;
    },
  )

  unfoldable pub close_job_run : ℕ → ℕ → RunStatus → Stats → Option Text → World S → World S
  close_job_run now job_id status stats error_text w = record w {
    runs =
        update_where (λ r. r.id == job_id)
          (λ r. record r {
            status = status;
            finished_at = some now;
            stats = stats;
            error_text = error_text;
          })
          w.runs;
  }

-- What the statements of a `try` block leave: the `stats` gathered so far, and the exception.
pub record Ran : Type 0 where
  pub stats : Stats
  pub failure : Option Text

module _ {S : Type 0} where
  -- The end of a job: `_close_job_run` as ok and the result, or as error and the exception again.
  unfoldable pub settle : ℕ → String → ℕ → Ran → World S → Outcome JobRunResult × World S
  unfolding close_job_run
  settle now job_name job_id ran w = elim ran.failure [
    | none ↦ (
      returned (record { job_name = job_name; status = "ok"; stats = ran.stats }),
      close_job_run now job_id ok ran.stats none w,
    )
    | some e ↦ (raised e, close_job_run now job_id error ran.stats (some e) w)
  ]

  -- The jobs that open their run in a `with connection` of its own.
  unfoldable pub run_logged :
      ℕ → String → Bool → (S → Ran × S) → World S → Outcome JobRunResult × World S
  unfolding settle open_job_run
  run_logged now job_name dry_run body w =
      let (job_id, w') = open_job_run job_name (mode_of dry_run) w in
      let (ran, s) = body w'.rest in settle now job_name job_id ran (record w' { rest = s })

  -- A branch of `run_job` opens its run and commits nothing, then works on the same connection. The
  -- Boolean is true where an exception has left a `with connection` of the callee before anything
  -- was committed: the rollback takes the opened run and its id with it, and the closing of the run
  -- is an UPDATE of no row, or of an older row of that id.
  unfoldable pub run_uncommitted :
      ℕ → String → Bool → (S → (Ran × Bool) × S) → World S → Outcome JobRunResult × World S
  unfolding settle open_job_run
  run_uncommitted now job_name dry_run body w =
      let (job_id, w') = open_job_run job_name (mode_of dry_run) w in
      let ((ran, undone), s) = body w'.rest in
      settle now job_name job_id ran (record (if undone then w else w') { rest = s })

  -- The jobs that make their call first: only when it has returned is the run opened, and closed.
  unfoldable pub log_returned :
      {A : Type 0}
      → ℕ
      → String
      → Bool
      → (A → Stats)
      → Outcome A
      → World S
      → Outcome JobRunResult × World S
  unfolding open_job_run close_job_run
  log_returned now job_name dry_run fill (raised e) w = (raised e, w)
  log_returned now job_name dry_run fill (returned a) w =
      let (job_id, w') = open_job_run job_name (mode_of dry_run) w in
      (
        returned (record { job_name = job_name; status = "ok"; stats = fill a }),
        close_job_run now job_id ok (fill a) none w',
      )
