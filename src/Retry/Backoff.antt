-- ===== src/Retry/Backoff.antt =====
-- The retry policy of `_retry_failed_extractions_job`: how long a timed-out item waits, and which
-- items are never touched.
use native.Mathlib.Nat.{pow-suc}
use mnemonic_os.Base.{
  ℕ, zero, suc, ◌+◌, ◌-◌, ◌*◌, ◌/◌, ◌^◌, ◌≤◌, ◌<◌, min, ◌≡◌, refl, Text, Bool, true, ltb, leb,
  if◌then◌else◌, ◌&&◌, ◌||◌, some, arith, codes, starts_with, Bool-cases, inl, inr, Option-cases,
}
use mnemonic_os.Queue.{Row, processing}
use mnemonic_os.Retry.{
  judge, retry, tombstone_timeout, timeout_retry_delay_minutes, effective_stale_minutes, error_text,
  wait, timeout_retry_base_minutes, is_open_error, is_tombstoned, is_tombstone_timeout, gave_up,
  is_stale, is_silent,
}
use mnemonic_os.Retry.Effect.{settled}

pow_pos : (n : ℕ) → 1 ≤ 2 ^ n
pow_pos zero = omega arith
pow_pos (suc n) = omega (arith, pow-suc 2 n, pow_pos n)

-- The wait starts at one hour, doubles with each further attempt, and stops at one day.
pub timeout_retry_delay_minutes-doubles :
    (n : ℕ)
    → (timeout_retry_delay_minutes 1 ≡ 60)
      × (timeout_retry_delay_minutes (n + 2) ≡ min (2 * timeout_retry_delay_minutes (n + 1)) 1440)
      × (60 ≤ timeout_retry_delay_minutes n)
      × (timeout_retry_delay_minutes n ≤ 1440)
unfolding timeout_retry_delay_minutes
timeout_retry_delay_minutes-doubles n =
    let e : n + 2 - 1 ≡ suc n = omega arith in
    let e' : n + 1 - 1 ≡ n = omega arith in
    (refl, rw (e, e', pow-suc 2 n) (omega arith), omega (arith, pow_pos (n - 1)), omega arith)

-- Below five attempts the cap of a day is never reached.
small_delay :
    (n : ℕ) → n < 5 → timeout_retry_delay_minutes n ≡ timeout_retry_base_minutes * 2 ^ (n - 1)
unfolding timeout_retry_delay_minutes
small_delay zero h = refl
small_delay (suc zero) h = refl
small_delay (suc (suc zero)) h = refl
small_delay (suc (suc (suc zero))) h = refl
small_delay (suc (suc (suc (suc zero)))) h = refl
small_delay (suc (suc (suc (suc (suc n))))) h = absurd (omega (arith, h))

in_seconds : (x p : ℕ) → ltb (x / 60) (60 * p) ≡ ltb x (3600 * p)
in_seconds x p = ground arith

-- A timed-out item with a known time of failure is given up from the fifth attempt on, however long
-- it has waited; before, it waits one hour after the first attempt, two after the second, four after
-- the third and eight after the fourth, and is then retried. The cap of a day is never reached.
pub judge-backoff :
    (now failed : ℕ) (r : Row)
    → starts_with (codes "timeout:") (error_text r.last_error) ≡ true
    → r.finished_at ≡ some failed
    → judge now r ≡ (
        if leb 5 r.attempt_count
        then tombstone_timeout
        else if ltb (now - failed) (3600 * 2 ^ (r.attempt_count - 1))
        then wait
        else retry)
unfolding judge
judge-backoff now failed r timeout e = elim (Bool-cases (leb 5 r.attempt_count)) [
  | inl h ↦ rw (timeout, h) refl
  | inr h ↦
      rw
        (
          timeout,
          h,
          e,
          small_delay r.attempt_count (ground (arith, h)),
          in_seconds (now - failed) (2 ^ (r.attempt_count - 1)),
        )
        refl
]

-- An item in processing is left as it is for the `max_seconds` that its extraction may take, and
-- for 29 minutes more.
pub settled-in_budget :
    (now max_seconds started : ℕ) (r : Row)
    → r.status ≡ processing
    → r.started_at ≡ some started
    → now ≤ started + max_seconds + 1740
    → settled now max_seconds r ≡ r
unfolding settled effective_stale_minutes
settled-in_budget now max_seconds started r s e early = ground arith

settled-tombstoned :
    (now max_seconds : ℕ) (r : Row) → is_tombstoned r ≡ true → settled now max_seconds r ≡ r
unfolding settled
settled-tombstoned now max_seconds r h = ground arith

-- The rows that a run gives up: an item that has timed out too often, one that has been stuck in
-- processing too often, and one that has failed silently too often.
abbrev pub given_up : ℕ → ℕ → Row → Bool
given_up now max_seconds r =
    (is_open_error r && is_tombstone_timeout (judge now r))
    || ((is_stale now (effective_stale_minutes max_seconds) r && gave_up r) || is_silent r)

timeout_has_error :
    (now : ℕ) (r : Row) → judge now r ≡ tombstone_timeout → (e : Text) × (r.last_error ≡ some e)
unfolding judge
timeout_has_error now r h = elim (Option-cases r.last_error) [
  | inl e ↦ ground arith
  | inr found ↦ found
]

given_up-tombstoned :
    (now max_seconds : ℕ) (r : Row)
    → given_up now max_seconds r ≡ true
    → is_tombstoned (settled now max_seconds r) ≡ true
unfolding settled
given_up-tombstoned now max_seconds r h = ground (arith, timeout_has_error now r)

-- Giving up is final: a row that a run gives up carries a tombstone, and no later run changes it.
pub settled-final :
    (now later max_seconds : ℕ) (r : Row)
    → given_up now max_seconds r ≡ true
    → (is_tombstoned (settled now max_seconds r) ≡ true)
      × (settled later max_seconds (settled now max_seconds r) ≡ settled now max_seconds r)
settled-final now later max_seconds r h =
    let t : is_tombstoned (settled now max_seconds r) ≡ true =
      given_up-tombstoned now max_seconds r h in
    (t, settled-tombstoned later max_seconds (settled now max_seconds r) t)
