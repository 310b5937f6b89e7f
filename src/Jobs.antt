-- ===== src/Jobs.antt =====
-- src/second_brain/jobs.py: the jobs that the daemon runs and the table `job_runs` in which they
-- record themselves. What a job calls in other modules is a field of `Callees`: a function on the
-- rest of the state that returns or raises.
pub mod Ledger
pub mod Callees
pub mod Wiki
pub mod Run
pub mod Closing
pub mod OpenRuns
pub mod DryRun
pub mod Embedding
