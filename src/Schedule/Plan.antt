-- ===== src/Schedule/Plan.antt =====
-- `parseSchedule`, `matches` and `next`. `time.ParseDuration` is a parameter.
use ooth.Prelude.{
  ℕ, suc, ◌+◌, Bool, false, not, ◌||◌, ◌&&◌, Option, none, some, List, [], ◌∷◌, ltb, ◌==◌,
  if◌then◌else◌, Result, ok, err, ◌>>=◌,
}
use ooth.Prelude.Signed.{pos}
use ooth.Prelude.Texts.{Text, codes, fields, starts_with}
use ooth.Prelude.Maps.{lookup}
use ooth.Prelude.Bits.{has_bit}
use ooth.Schedule.Field.{FieldError, cron_field}
use ooth.Schedule.Times.{Time, Duration, minute, truncate_minute, Calendar}

pub data ScheduleError : Type 0 where
  not_positive wrong_field_count : ScheduleError
  bad_field : ℕ → FieldError → ScheduleError

-- The bit sets of the five fields, and `wildDays`.
pub record Plan : Type 0 where
  pub interval : ℕ
  pub minutes : ℕ
  pub hours : ℕ
  pub days : ℕ
  pub months : ℕ
  pub weekdays : ℕ
  pub wild_day : Bool
  pub wild_weekday : Bool

abbrev pub empty_plan : Plan
empty_plan = record {
  interval = 0;
  minutes = 0;
  hours = 0;
  days = 0;
  months = 0;
  weekdays = 0;
  wild_day = false;
  wild_weekday = false;
}

abbrev pub aliases : List (Text × Text)
aliases =
    (codes "@yearly", codes "0 0 1 1 *")
    ∷ (codes "@annually", codes "0 0 1 1 *")
    ∷ (codes "@monthly", codes "0 0 1 * *")
    ∷ (codes "@weekly", codes "0 0 * * 0")
    ∷ (codes "@daily", codes "0 0 * * *")
    ∷ (codes "@midnight", codes "0 0 * * *")
    ∷ (codes "@hourly", codes "0 * * * *")
    ∷ []

abbrev pub month_names : List Text
month_names =
    codes "jan"
    ∷ codes "feb"
    ∷ codes "mar"
    ∷ codes "apr"
    ∷ codes "may"
    ∷ codes "jun"
    ∷ codes "jul"
    ∷ codes "aug"
    ∷ codes "sep"
    ∷ codes "oct"
    ∷ codes "nov"
    ∷ codes "dec"
    ∷ []

abbrev pub weekday_names : List Text
weekday_names =
    codes "sun"
    ∷ codes "mon"
    ∷ codes "tue"
    ∷ codes "wed"
    ∷ codes "thu"
    ∷ codes "fri"
    ∷ codes "sat"
    ∷ []

unfoldable pub expanded : Text → Text
unfolding lookup
expanded expression = elim (lookup expression aliases) [ some e ↦ e | none ↦ expression ]

-- A field's own error, with its position.
abbrev pub at_field : ℕ → Result FieldError ℕ → Result ScheduleError ℕ
at_field index (ok mask) = ok mask
at_field index (err e) = err (bad_field index e)

unfoldable pub cron_plan : List Text → Result ScheduleError Plan
unfolding cron_field starts_with
cron_plan (a ∷ b ∷ c ∷ d ∷ e ∷ []) = do
  minutes ← at_field 1 (cron_field a 0 59 [])
  hours ← at_field 2 (cron_field b 0 23 [])
  days ← at_field 3 (cron_field c 1 31 [])
  months ← at_field 4 (cron_field d 1 12 month_names)
  weekdays ← at_field 5 (cron_field e 0 7 weekday_names)
  ok (record {
    interval = 0;
    minutes = minutes;
    hours = hours;
    days = days;
    months = months;
    weekdays = weekdays;
    wild_day = starts_with (codes "*") c;
    wild_weekday = starts_with (codes "*") e;
  })
cron_plan _ = err wrong_field_count

-- The interval that `time.ParseDuration` read.
unfoldable pub interval_plan : Duration → Result ScheduleError Plan
interval_plan (pos (suc n)) = ok (record empty_plan { interval = suc n })
interval_plan _ = err not_positive

unfoldable pub parse_schedule : (Text → Option Duration) → Text → Result ScheduleError Plan
parse_schedule parse_duration [] = ok empty_plan
parse_schedule parse_duration (c ∷ s) = elim (parse_duration (c ∷ s)) [
  | some interval ↦ interval_plan interval
  | none ↦ cron_plan (fields (expanded (c ∷ s)))
]

-- Sunday is weekday 0, and bit 7 as well.
unfoldable pub weekday_matches : Plan → Calendar → Bool
weekday_matches plan now =
    has_bit plan.weekdays now.weekday || (now.weekday == 0 && has_bit plan.weekdays 7)

unfoldable pub days_match : Plan → Calendar → Bool
unfolding weekday_matches
days_match plan now =
    if not plan.wild_day && not plan.wild_weekday
    then has_bit plan.days now.day || weekday_matches plan now
    else has_bit plan.days now.day && weekday_matches plan now

unfoldable pub matches : Plan → Calendar → Bool
unfolding days_match
matches plan now =
    has_bit plan.minutes now.minute_of_hour
    && has_bit plan.hours now.hour
    && has_bit plan.months now.month
    && days_match plan now

-- The zero time stands for "never".
unfoldable pub next : Plan → Time → Time
next plan now =
    if ltb 0 plan.interval
    then now + plan.interval
    else if not (plan.minutes == 0)
    then truncate_minute now + minute
    else 0
