-- ===== src/Daemon/Cron.antt =====
-- `_field_matches`, `CronSchedule` and `JobRegistry.due_jobs` of src/second_brain/daemon_jobs.py.
-- A time is a number of minutes (of seconds where said so); `datetime` gives the parts of a minute
-- and is an argument. `int` is read on ASCII digits, with its signs,
-- its underscores and the spaces around.
use mnemonic_os.Base.{
  ℕ, zero, suc, ◌+◌, ◌-◌, ◌*◌, ◌/◌, ◌%◌, Text, Bool, true, false, not, ◌&&◌, ◌||◌, Option, none,
  some, List, [], ◌∷◌, leb, ◌==◌, if◌then◌else◌, codes, text_eq, starts_with, elem, map, strip,
}
use mathlib.Core.Option
use mnemonic_os.Candidates.Json.{ℤ, pos, negsuc}

-- The parts of a minute in UTC: `weekday` counts from Monday, 0.
pub record Moment : Type 0 where
  pub minute : ℕ
  pub hour : ℕ
  pub day : ℕ
  pub month : ℕ
  pub weekday : ℕ

-- `_cron_dow_matches`
unfoldable pub cron_dow_matches : ℕ → Moment → Bool
cron_dow_matches value dt = (dt.weekday + 1) % 7 == value

is_digit : ℕ → Bool
is_digit c = leb b'0' c && leb c b'9'

-- The digits of a number, with single underscores between them; `due` is true where a digit must
-- come next.
int_from : Bool → ℕ → Text → Option ℕ
unfolding is_digit
int_from due n [] = if due then none else some n
int_from due n (c ∷ s) =
    let rest = int_from (not (is_digit c)) (if is_digit c then n * 10 + (c - b'0') else n) s in
    if is_digit c || (c == b'_' && not due) then rest else none

abbrev negate : ℕ → ℤ
negate zero = pos zero
negate (suc n) = negsuc n

-- A sign and the digits.
signed : Text → Option ℤ
unfolding int_from
signed [] = none
signed (c ∷ s) =
    if c == b'-'
    then Option.map negate (int_from true 0 s)
    else Option.map pos (int_from true 0 (if c == b'+' then s else c ∷ s))

-- `int(text)`, which strips the text; `none` is its ValueError.
unfoldable pub parse_int : Text → Option ℤ
unfolding signed strip
parse_int text = signed (strip text)

-- `field.split(",")`
unfoldable pub split_commas : Text → List Text
split_commas [] = [] ∷ []
split_commas (c ∷ s) = elim (split_commas s) [
  | [] ↦ [] ∷ []
  | part ∷ parts ↦ if c == b',' then [] ∷ part ∷ parts else (c ∷ part) ∷ parts
]

abbrev drop_two : Text → Text
drop_two [] = []
drop_two (_ ∷ []) = []
drop_two (_ ∷ _ ∷ s) = s

-- `field.startswith("*/")`: `int(field[2:])`, and `step > 0 and current % step == 0`.
abbrev step_matches : ℕ → Option ℤ → Option Bool
step_matches current none = none
step_matches current (some (pos zero)) = some false
step_matches current (some (pos (suc step))) = some (current % suc step == 0)
step_matches current (some (negsuc _)) = some false

-- No part of a time is negative.
abbrev exact_matches : Bool → ℕ → Moment → Option ℤ → Option Bool
exact_matches is_dow current dt none = none
exact_matches true current dt (some (pos n)) = some (cron_dow_matches n dt)
exact_matches false current dt (some (pos n)) = some (current == n)
exact_matches _ current dt (some (negsuc _)) = some false

-- `any(…)` stops at the first part that matches, and raises at one that does.
abbrev any_matches : List (Option Bool) → Option Bool
any_matches [] = some false
any_matches (none ∷ rest) = none
any_matches (some true ∷ rest) = some true
any_matches (some false ∷ rest) = any_matches rest

-- A field with no comma.
unfoldable pub simple_matches : Bool → Text → ℕ → Moment → Option Bool
unfolding strip cron_dow_matches parse_int
simple_matches is_dow field current dt =
    let f = strip field in
    if text_eq f (codes "*")
    then some true
    else if starts_with (codes "*/") f
    then step_matches current (parse_int (drop_two f))
    else exact_matches is_dow current dt (parse_int f)

-- `_field_matches`; a part of a list has no comma of its own.
unfoldable pub field_matches : Bool → Text → ℕ → Moment → Option Bool
unfolding strip simple_matches split_commas
field_matches is_dow field current dt =
    let f = strip field in
    if text_eq f (codes "*") || starts_with (codes "*/") f
    then simple_matches is_dow f current dt
    else if elem b',' f
    then any_matches (map (λ part. simple_matches is_dow part current dt) (split_commas f))
    else simple_matches is_dow f current dt

-- `CronSchedule`: the five parts of the expression.
pub record Schedule : Type 0 where
  pub minute : Text
  pub hour : Text
  pub day : Text
  pub month : Text
  pub weekday : Text

-- `and` on results that may raise.
abbrev pub and_then : Option Bool → Option Bool → Option Bool
and_then none b = none
and_then (some false) b = some false
and_then (some true) b = b

-- `CronSchedule.matches`: the field of the weekday is matched with `dt.day` as the current value.
unfoldable pub matches : Schedule → Moment → Option Bool
matches s dt = and_then (field_matches false s.minute dt.minute dt) (
    and_then (field_matches false s.hour dt.hour dt) (
      and_then (field_matches false s.day dt.day dt) (
        and_then (field_matches false s.month dt.month dt)
          (field_matches true s.weekday dt.day dt))))

-- The loop of `next_after` over the candidates left up to the deadline; `none` is a `ValueError`.
unfoldable pub search_from : (ℕ → Option Bool) → ℕ → ℕ → Option ℕ
search_from test zero candidate = none
search_from test (suc left) candidate = elim (test candidate) [
  | none ↦ none
  | some true ↦ some candidate
  | some false ↦ search_from test left (candidate + 1)
]

-- From the first candidate to 370 days later, both included.
abbrev pub candidates : ℕ
candidates = 370 * 1440 + 1

-- `next_after`, from a time in seconds to a time in minutes.
unfoldable pub next_after : (ℕ → Moment) → Schedule → ℕ → Option ℕ
unfolding search_from
next_after datetime s base = search_from (λ m. matches s (datetime m)) candidates (base / 60 + 1)

-- `JobEntry`, with the name as a number and the time of `next_due` in minutes.
pub record Entry : Type 0 where
  pub name : ℕ
  pub cron : Schedule
  pub next_due : ℕ

pub record Due : Type 0 where
  pub fired : List ℕ
  pub entries : List Entry

-- `entry.next_due <= now_utc`, of a due time in minutes and a time in seconds.
abbrev pub is_due : ℕ → Entry → Bool
is_due now e = leb (e.next_due * 60) now

-- One round of the loop of `due_jobs`; `none` is a `ValueError` of `next_after`.
abbrev pub fire : (ℕ → Moment) → ℕ → Entry → Option Due → Option Due
fire datetime now e none = none
fire datetime now e (some d) =
    if is_due now e
    then elim (next_after datetime e.cron now) [
      | none ↦ none
      | some t ↦
          some
            (record { fired = e.name ∷ d.fired; entries = (record e { next_due = t }) ∷ d.entries })
    ]
    else some (record d { entries = e ∷ d.entries })

-- `due_jobs`, over the entries in the order of their names.
unfoldable pub due_jobs : (ℕ → Moment) → ℕ → List Entry → Option Due
due_jobs datetime now [] = some (record { fired = []; entries = [] })
due_jobs datetime now (e ∷ es) = fire datetime now e (due_jobs datetime now es)
