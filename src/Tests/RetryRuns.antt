-- ===== src/Tests/RetryRuns.antt =====
-- Runs of the retry job.
use mnemonic_os.Base.{
  ◌-◌, ◌*◌, ◌^◌, ltb, leb, if◌then◌else◌, ◌≡◌, refl, true, false, List, [], ◌∷◌, map,
}
use mnemonic_os.Queue.{Row}
use mnemonic_os.Retry.{
  judge, retry, wait, tombstone_timeout, effective_stale_minutes, is_tombstoned,
  retry_failed_extractions,
}
use mnemonic_os.Retry.Effect.{settled, retry_failed_extractions-settles}
use mnemonic_os.Retry.Counts.{retry_failed_extractions-dry_run}
use mnemonic_os.Retry.Backoff.{judge-backoff, settled-final}
use mnemonic_os.Tests.Samples.{waiting, stuck, timed_out, timed_out_once}

abbrev table : List Row
table = waiting ∷ stuck ∷ timed_out ∷ timed_out_once ∷ []

retry_failed_extractions-settles_example :
    (retry_failed_extractions 100000 1800 false table).1 ≡ map (settled 100000 1800) table
retry_failed_extractions-settles_example =
    retry_failed_extractions-settles 100000 1800 table (refl, (refl, (refl, (refl, tt))))

retry_failed_extractions-dry_run_example :
    retry_failed_extractions 100000 1800 true table
    ≡ ((retry_failed_extractions 100000 1800 false table).0, table)
retry_failed_extractions-dry_run_example = retry_failed_extractions-dry_run 100000 1800 table

judge-backoff_example : judge 100000 timed_out_once ≡ (
    if leb 5 1
    then tombstone_timeout
    else if ltb (100000 - 2000) (3600 * 2 ^ (1 - 1))
    then wait
    else retry)
judge-backoff_example = judge-backoff 100000 2000 timed_out_once refl refl

settled-final_example :
    (is_tombstoned (settled 100000 1800 timed_out) ≡ true)
    × (settled 200000 1800 (settled 100000 1800 timed_out) ≡ settled 100000 1800 timed_out)
settled-final_example =
    settled-final 100000 200000 1800 timed_out (unfold judge effective_stale_minutes in refl)
