-- ===== src/Daemon/CronLaws.antt =====
-- What `CronSchedule.next_after` and `JobRegistry.due_jobs` of daemon_jobs.py guarantee.
use mnemonic_os.Base.{
  ℕ, zero, suc, ◌+◌, ◌*◌, ◌/◌, ◌%◌, ◌≤◌, ◌<◌, ◌≡◌, refl, ap, ◌∙◌, inl, inr, Bool, true, false,
  Option, none, some, List, [], ◌∷◌, arith, ◌==◌, if◌then◌else◌, Bool-cases, Option-cases, All,
  select, map, Text,
}
use mnemonic_os.Daemon.Cron.{
  Moment, Schedule, Entry, Due, matches, field_matches, search_from, candidates, next_after, is_due,
  fire, due_jobs,
}

search_from-first :
    (test : ℕ → Option Bool) (left candidate t : ℕ)
    → search_from test left candidate ≡ some t
    → (test t ≡ some true) × (candidate ≤ t) × (t < candidate + left)
unfolding search_from
search_from-first test zero candidate t h = cc
search_from-first test (suc left) candidate t h =
    ground (arith, search_from-first test left (candidate + 1) t)

search_from-least :
    (test : ℕ → Option Bool) (left candidate t m : ℕ)
    → search_from test left candidate ≡ some t
    → candidate ≤ m
    → m < t
    → test m ≡ some false
unfolding search_from
search_from-least test zero candidate t m h lo hi = cc
search_from-least test (suc left) candidate t m h lo hi =
    ground (arith, search_from-least test left (candidate + 1) t m)

-- `next_after` gives a minute that matches the schedule, after the given time and at most 370 days
-- and a minute later.
pub next_after-matches :
    (datetime : ℕ → Moment) (s : Schedule) (base t : ℕ)
    → next_after datetime s base ≡ some t
    → (matches s (datetime t) ≡ some true) × (base < t * 60) × (t * 60 ≤ base + 370 * 86400 + 60)
unfolding next_after
next_after-matches datetime s base t h =
    let (hit, lo, hi) =
      search_from-first (λ m. matches s (datetime m)) candidates (base / 60 + 1) t h in
    (hit, omega arith, omega arith)

-- No minute between the given time and the one that `next_after` gives matches the schedule: no run
-- is skipped.
pub next_after-least :
    (datetime : ℕ → Moment) (s : Schedule) (base t m : ℕ)
    → next_after datetime s base ≡ some t
    → base < m * 60
    → m < t
    → matches s (datetime m) ≡ some false
unfolding next_after
next_after-least datetime s base t m h after earlier =
    search_from-least (λ m. matches s (datetime m)) candidates (base / 60 + 1) t m h (omega arith)
      earlier

abbrev pub names : List Entry → List ℕ
names = map (λ (e : Entry). e.name)

fire-some :
    (datetime : ℕ → Moment) (now : ℕ) (e : Entry) (o : Option Due) (d : Due)
    → fire datetime now e o ≡ some d
    → (d' : Due) × (o ≡ some d')
      × (d.fired ≡ (if is_due now e then e.name ∷ d'.fired else d'.fired))
      × (names d.entries ≡ e.name ∷ names d'.entries)
      × (All (λ x. now < x.next_due * 60) d'.entries → All (λ x. now < x.next_due * 60) d.entries)
fire-some datetime now e none d h = cc
fire-some datetime now e (some d') d h = elim (Bool-cases (is_due now e)) [
  | inl due ↦ elim (Option-cases (next_after datetime e.cron now)) [
    | inl stuck ↦ ground arith
    | inr (t, next) ↦
        let later = next_after-matches datetime e.cron now t next in
        let eq : d ≡ record {
          fired = e.name ∷ d'.fired;
          entries = (record e { next_due = t }) ∷ d'.entries;
        } =
          ground arith in
        (d', refl, rw (eq, due), rw eq, λ all. rw eq (later.1, all))
  ]
  | inr not_due ↦
      let eq : d ≡ record d' { entries = e ∷ d'.entries } = ground arith in
      (d', refl, rw (eq, not_due), rw eq, λ all. rw eq (ground arith, all))
]

-- If no schedule raises, `due_jobs` fires exactly the jobs whose time has come, each once however
-- many of its times were missed, keeps every entry, and leaves none of them due.
pub due_jobs-fired :
    (datetime : ℕ → Moment) (now : ℕ) (es : List Entry) (d : Due)
    → due_jobs datetime now es ≡ some d
    → (d.fired ≡ names (select (is_due now) es))
      × (names d.entries ≡ names es)
      × All (λ e. now < e.next_due * 60) d.entries
unfolding due_jobs
due_jobs-fired datetime now [] d h =
    let eq : d ≡ record { fired = []; entries = [] } = ground arith in (rw eq, rw eq, rw eq tt)
due_jobs-fired datetime now (e ∷ es) d h =
    let (d', rest, fired, kept, future) = fire-some datetime now e (due_jobs datetime now es) d h in
    let (ih_fired, ih_kept, ih_future) = due_jobs-fired datetime now es d' rest in
    (
      fired ∙ elim (Bool-cases (is_due now e)) [
        | inl due ↦ rw due (ap (λ t. e.name ∷ t) ih_fired)
        | inr later ↦ rw later ih_fired
      ],
      kept ∙ ap (λ t. e.name ∷ t) ih_kept,
      future ih_future,
    )

-- The field `*/n` of one digit.
abbrev pub step_field : ℕ → Text
step_field n = b'*' ∷ b'/' ∷ (b'0' + n) ∷ []

step_matches_day :
    (n current : ℕ) (dt : Moment)
    → 1 ≤ n
    → n ≤ 9
    → field_matches true (step_field n) current dt ≡ some (current % n == 0)
unfolding field_matches
step_matches_day n current dt lo hi = digit n lo hi
  where
    digit :
        (k : ℕ)
        → 1 ≤ k
        → k ≤ 9
        → field_matches true (step_field k) current dt ≡ some (current % k == 0)
    digit zero lo hi = absurd (omega arith)
    digit (suc zero) lo hi = refl
    digit (suc (suc zero)) lo hi = refl
    digit (suc (suc (suc zero))) lo hi = refl
    digit (suc (suc (suc (suc zero)))) lo hi = refl
    digit (suc (suc (suc (suc (suc zero))))) lo hi = refl
    digit (suc (suc (suc (suc (suc (suc zero)))))) lo hi = refl
    digit (suc (suc (suc (suc (suc (suc (suc zero))))))) lo hi = refl
    digit (suc (suc (suc (suc (suc (suc (suc (suc zero)))))))) lo hi = refl
    digit (suc (suc (suc (suc (suc (suc (suc (suc (suc zero))))))))) lo hi = refl
    digit (suc (suc (suc (suc (suc (suc (suc (suc (suc (suc k)))))))))) lo hi = absurd (omega arith)

-- A step in the field of the weekday is taken over the day of the month. Where the other four
-- fields match, `*/n` there, for a digit `n`, matches exactly the days of the month that `n`
-- divides, whatever the weekday is.
pub matches-weekday_step :
    (s : Schedule) (dt : Moment) (n : ℕ)
    → 1 ≤ n
    → n ≤ 9
    → s.weekday ≡ step_field n
    → field_matches false s.minute dt.minute dt ≡ some true
    → field_matches false s.hour dt.hour dt ≡ some true
    → field_matches false s.day dt.day dt ≡ some true
    → field_matches false s.month dt.month dt ≡ some true
    → matches s dt ≡ some (dt.day % n == 0)
unfolding matches
matches-weekday_step s dt n lo hi w minute hour day month =
    rw (minute, hour, day, month, w) (step_matches_day n dt.day dt lo hi)

search_from-found :
    (test : ℕ → Option Bool) (left candidate m : ℕ)
    → candidate ≤ m
    → m < candidate + left
    → test m ≡ some true
    → ((k : ℕ) → candidate ≤ k → k ≤ m → (b : Bool) × (test k ≡ some b))
    → (t : ℕ) × (search_from test left candidate ≡ some t) × (t ≤ m)
unfolding search_from
search_from-found test zero candidate m lo hi hit answers = absurd (omega arith)
search_from-found test (suc left) candidate m lo hi hit answers = go (test candidate) refl (λ below.
    search_from-found test left (candidate + 1) m (omega arith) (omega arith) hit
      (λ k klo khi. answers k (omega arith) khi))
  where
    go :
        (r : Option Bool)
        → test candidate ≡ r
        → (candidate < m → (t : ℕ) × (search_from test left (candidate + 1) ≡ some t) × (t ≤ m))
        → (t : ℕ) × (search_from test (suc left) candidate ≡ some t) × (t ≤ m)
    go none e rest = let (b, answer) = answers candidate (omega arith) lo in cc
    go (some true) e rest = (candidate, rw (e, search_from), lo)
    go (some false) e rest = elim (Bool-cases (candidate == m)) [
      | inl same ↦ let at : candidate ≡ m = ground arith in cc (ap test at)
      | inr other ↦ rw (e, search_from) (rest (ground arith))
    ]

-- If some minute after the given time and at most 370 days later matches the schedule, and no field
-- raises at a minute up to it, `next_after` gives a minute, and none later than that one.
pub next_after-found :
    (datetime : ℕ → Moment) (s : Schedule) (base m : ℕ)
    → base < m * 60
    → m * 60 ≤ base + 370 * 86400
    → matches s (datetime m) ≡ some true
    → ((k : ℕ) → base < k * 60 → k ≤ m → (b : Bool) × (matches s (datetime k) ≡ some b))
    → (t : ℕ) × (next_after datetime s base ≡ some t) × (t ≤ m)
unfolding next_after
next_after-found datetime s base m after within hit answers =
    search_from-found (λ k. matches s (datetime k)) candidates (base / 60 + 1) m (omega arith)
      (omega arith) hit (λ k lo hi. answers k (omega arith) hi)
