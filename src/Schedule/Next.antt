-- ===== src/Schedule/Next.antt =====
-- The end-to-end meaning of a cron expression, and when a plan is due next.
use ooth.Prelude.{
  ℕ, zero, suc, ◌+◌, ◌%◌, ◌≤◌, ◌<◌, ◌≡◌, ◌≢◌, ◌⊎◌, ◌↔◌, inl, inr, Bool, true, false, not, ◌&&◌,
  ◌||◌, List, [], ◌∷◌, Option, Result, ok, err, Option-cases, >>=-eq-ok, arith, if◌then◌else◌,
  &&-iff, ||-iff, ==_iff, ◌==◌,
}
use ooth.Prelude.Signed.{pos, negsuc}
use ooth.Prelude.Texts.{Text, codes, fields, split, starts_with}
use ooth.Prelude.Bits.{has_bit}
use ooth.Schedule.Times.{Time, Duration, minute, Calendar}
use ooth.Schedule.Field.{cron_field}
use ooth.Schedule.Cover.{Covered, cron_field-Covered, cron_field-ne-zero}
use ooth.Schedule.Plan.{
  Plan, parse_schedule, expanded, cron_plan, at_field, interval_plan, next, matches, month_names,
  weekday_names, weekday_matches, days_match,
}

at_field-ok : (i : ℕ) (r : Result _ ℕ) {m : ℕ} → at_field i r ≡ ok m → r ≡ ok m
at_field-ok i (ok m) h = cc
at_field-ok i (err e) h = cc

abbrev pub wild : Text → Bool
wild = starts_with (codes "*")

-- What an accepted expression of five fields leaves in the plan.
record IsCron (a b c d e : Text) (plan : Plan) : Type 0 where
  elapsed : plan.interval ≡ 0
  minutes : cron_field a 0 59 [] ≡ ok plan.minutes
  hours : cron_field b 0 23 [] ≡ ok plan.hours
  days : cron_field c 1 31 [] ≡ ok plan.days
  months : cron_field d 1 12 month_names ≡ ok plan.months
  weekdays : cron_field e 0 7 weekday_names ≡ ok plan.weekdays
  wild_day : plan.wild_day ≡ wild c
  wild_weekday : plan.wild_weekday ≡ wild e

cron_plan-IsCron :
    (a b c d e : Text) (plan : Plan)
    → cron_plan (a ∷ b ∷ c ∷ d ∷ e ∷ []) ≡ ok plan
    → IsCron a b c d e plan
unfolding cron_plan
cron_plan-IsCron a b c d e plan h0 =
    let (m1, e1, h1) = >>=-eq-ok (at_field 1 (cron_field a 0 59 [])) _ h0 in
    let (m2, e2, h2) = >>=-eq-ok (at_field 2 (cron_field b 0 23 [])) _ h1 in
    let (m3, e3, h3) = >>=-eq-ok (at_field 3 (cron_field c 1 31 [])) _ h2 in
    let (m4, e4, h4) = >>=-eq-ok (at_field 4 (cron_field d 1 12 month_names)) _ h3 in
    let (m5, e5, h5) = >>=-eq-ok (at_field 5 (cron_field e 0 7 weekday_names)) _ h4 in
    let r1 = at_field-ok 1 (cron_field a 0 59 []) e1 in
    let r2 = at_field-ok 2 (cron_field b 0 23 []) e2 in
    let r3 = at_field-ok 3 (cron_field c 1 31 []) e3 in
    let r4 = at_field-ok 4 (cron_field d 1 12 month_names) e4 in
    let r5 = at_field-ok 5 (cron_field e 0 7 weekday_names) e5 in
    record {
      elapsed = cc h5;
      minutes = cc (r1, h5);
      hours = cc (r2, h5);
      days = cc (r3, h5);
      months = cc (r4, h5);
      weekdays = cc (r5, h5);
      wild_day = cc h5;
      wild_weekday = cc h5;
    }

-- The day rule of cron: both day fields, unless neither begins with `*`: then one is enough.
abbrev DayRule : Bool → Bool → Type 0 → Type 0 → Type 0
DayRule false false day weekday = day ⊎ weekday
DayRule _ _ day weekday = day × weekday

day_rule_iff :
    {D W : Type 0} (x y a b : Bool)
    → (a ≡ true) ↔ D
    → (b ≡ true) ↔ W
    → ((if not x && not y then a || b else a && b) ≡ true) ↔ DayRule x y D W
day_rule_iff false false a b f g = ||-iff a b f g
day_rule_iff false true a b f g = &&-iff a b f g
day_rule_iff true y a b f g = &&-iff a b f g

-- An expression of five fields, read as cron describes it; Sunday is 0 and 7.
abbrev pub CronMeans : Text → Text → Text → Text → Text → Calendar → Type 0
CronMeans a b c d e now =
    ((Covered 0 59 [] (split b',' a) now.minute_of_hour × Covered 0 23 [] (split b',' b) now.hour)
      × Covered 1 12 month_names (split b',' d) now.month)
    × DayRule (wild c) (wild e) (Covered 1 31 [] (split b',' c) now.day) (
        Covered 0 7 weekday_names (split b',' e) now.weekday
        ⊎ ((now.weekday ≡ 0) × Covered 0 7 weekday_names (split b',' e) 7))

module _ (a b c d e : Text) (plan : Plan) (now : Calendar)
    (accepted : cron_plan (a ∷ b ∷ c ∷ d ∷ e ∷ []) ≡ ok plan) where
  weekday_matches_iff : (weekday_matches plan now ≡ true) ↔ (
      Covered 0 7 weekday_names (split b',' e) now.weekday
      ⊎ ((now.weekday ≡ 0) × Covered 0 7 weekday_names (split b',' e) 7))
  unfolding weekday_matches
  weekday_matches_iff =
      let f = (cron_plan-IsCron a b c d e plan accepted).weekdays in
      let covered =
        cron_field-Covered 0 7 weekday_names (omega arith) (omega arith) (omega arith) e
          plan.weekdays in
      ||-iff (has_bit plan.weekdays now.weekday) _ (covered now.weekday f)
        (&&-iff (now.weekday == 0) (has_bit plan.weekdays 7) (==_iff now.weekday 0) (covered 7 f))

  -- A plan that was read from five fields matches a local time exactly when the expression names it:
  -- the minute, the hour and the month are covered, and the day is covered by the day rule of cron.
  pub matches-CronMeans : (matches plan now ≡ true) ↔ CronMeans a b c d e now
  unfolding matches days_match
  matches-CronMeans =
      let p = cron_plan-IsCron a b c d e plan accepted in
      let minutes =
        cron_field-Covered 0 59 [] (omega arith) (omega arith) (omega arith) a plan.minutes
          now.minute_of_hour p.minutes in
      let hours =
        cron_field-Covered 0 23 [] (omega arith) (omega arith) (omega arith) b plan.hours now.hour
          p.hours in
      let days =
        cron_field-Covered 1 31 [] (omega arith) (omega arith) (omega arith) c plan.days now.day
          p.days in
      let months =
        cron_field-Covered 1 12 month_names (omega arith) (omega arith) (omega arith) d plan.months
          now.month p.months in
      let m = has_bit plan.minutes now.minute_of_hour in
      let h = has_bit plan.hours now.hour in
      &&-iff (m && h && has_bit plan.months now.month) _
        (&&-iff (m && h) _ (&&-iff m h minutes hours) months)
        (rw (p.wild_day, p.wild_weekday)
          (day_rule_iff (wild c) (wild e) (has_bit plan.days now.day) (weekday_matches plan now)
            days weekday_matches_iff))

-- A plan that will run again: by its interval, or by its minutes.
abbrev pub IsLive : Plan → Type 0
IsLive plan = (0 < plan.interval) ⊎ (plan.minutes ≢ 0)

cron_plan-IsLive : (l : List Text) {plan : Plan} → cron_plan l ≡ ok plan → IsLive plan
cron_plan-IsLive (a ∷ b ∷ c ∷ d ∷ e ∷ []) {plan} h =
    let p = cron_plan-IsCron a b c d e plan h in
    inr (
      cron_field-ne-zero 0 59 [] (omega arith) (omega arith) (omega arith) a plan.minutes p.minutes)
cron_plan-IsLive [] h = unfold cron_plan in cc h
cron_plan-IsLive _ h = unfold cron_plan in cc h

interval_plan-IsLive : (d : Duration) {plan : Plan} → interval_plan d ≡ ok plan → IsLive plan
unfolding interval_plan
interval_plan-IsLive (pos zero) h = cc
interval_plan-IsLive (pos (suc n)) h = inl (ground arith)
interval_plan-IsLive (negsuc n) h = cc

parse_schedule-IsLive :
    (parse_duration : Text → Option Duration) (c : ℕ) (s : Text) (plan : Plan)
    → parse_schedule parse_duration (c ∷ s) ≡ ok plan
    → IsLive plan
unfolding parse_schedule
parse_schedule-IsLive parse_duration c s plan h = elim (Option-cases (parse_duration (c ∷ s))) [
  | inl e ↦ cron_plan-IsLive (fields (expanded (c ∷ s))) (rw (e, parse_schedule) at h)
  | inr (d, e) ↦ interval_plan-IsLive d (rw (e, parse_schedule) at h)
]

-- A schedule that is read from a non-empty text has a next time after now; where it is no
-- interval, that time is a whole minute, at most one minute ahead.
pub parse_schedule-next :
    (parse_duration : Text → Option Duration) (c : ℕ) (s : Text) (plan : Plan) (now : Time)
    → parse_schedule parse_duration (c ∷ s) ≡ ok plan
    → (now < next plan now)
      × (plan.interval ≡ 0 → (next plan now % minute ≡ 0) × (next plan now ≤ now + minute))
unfolding next
parse_schedule-next parse_duration c s plan now h =
    let live = parse_schedule-IsLive parse_duration c s plan h in
    (ground arith, λ e. (ground arith, ground arith))
