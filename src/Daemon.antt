-- ===== src/Daemon.antt =====
-- The daemon: when jobs fall due (daemon_jobs.py) and how they are run (daemon.py).
pub mod Cron
pub mod CronLaws
pub mod Scheduler
pub mod Exclusion
pub mod Restart
pub mod Recovery
