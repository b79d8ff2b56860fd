-- ===== src/Schedule/Samples.antt =====
-- Concrete schedules: tests of the parser and the instances of the theorems.
use ooth.Prelude.{
  ◌%◌, ◌^◌, ◌-◌, ◌≤◌, ◌<◌, ◌+◌, ◌≡◌, refl, true, false, Option, none, [], ◌∷◌, ok, err, arith, ◌↔◌,
}
use ooth.Prelude.Texts.{
  Text, codes, fields, field_parts, push_word, split, cut, atoi, starts_with, is_space,
}
use ooth.Prelude.Maps.{lookup}
use ooth.Prelude.Bits.{has_bit}
use ooth.Schedule.Times.{Duration, Calendar, minute}
use ooth.Schedule.Field.{
  out_of_range, bad_step, step_without_range, descending, cron_field, mark_items, mark_span, mark,
  item_span, base_span, field_value, lower, index_of, all_digits, numeric_value, positive_step,
  ascending,
}
use ooth.Schedule.Cover.{Covered, cron_field-Covered, cron_field-InLimits}
use ooth.Schedule.Plan.{
  Plan, parse_schedule, expanded, cron_plan, interval_plan, matches, next, bad_field,
}
use ooth.Schedule.Next.{CronMeans, matches-CronMeans, parse_schedule-next}

-- Unfolding this name unfolds all that reading an expression computes with.
reading : Unit {0}
unfolding parse_schedule expanded cron_plan interval_plan fields field_parts push_word is_space
    lookup cron_field mark_items mark_span mark item_span base_span field_value lower index_of
    all_digits positive_step numeric_value ascending split cut atoi starts_with
reading = tt

no_durations : Text → Option Duration
no_durations s = none

quarter_mask : cron_field (codes "*/15") 0 59 [] ≡ ok (1 + 2 ^ 15 + 2 ^ 30 + 2 ^ 45)
unfolding reading
quarter_mask = refl

list_mask : cron_field (codes "1,4-8/2") 0 59 [] ≡ ok (2 + 2 ^ 4 + 2 ^ 6 + 2 ^ 8)
unfolding reading
list_mask = refl

reversed_range : cron_field (codes "9-5") 0 23 [] ≡ err descending
unfolding reading
reversed_range = refl

single_step : cron_field (codes "5/2") 0 23 [] ≡ err step_without_range
unfolding reading
single_step = refl

signed_step : cron_field (codes "*/+5") 0 59 [] ≡ err bad_step
unfolding reading
signed_step = refl

above_limit : parse_schedule no_durations (codes "60 * * * *") ≡ err (bad_field 1 out_of_range)
unfolding reading no_durations
above_limit = refl

abbrev office_hours : Plan
office_hours = record {
  interval = 0;
  minutes = 1 + 2 ^ 15 + 2 ^ 30 + 2 ^ 45;
  hours = 2 ^ 18 - 2 ^ 9;
  days = 2 ^ 32 - 2;
  months = 2 ^ 13 - 2;
  weekdays = 62;
  wild_day = true;
  wild_weekday = false;
}

office_hours_parsed :
    cron_plan (codes "*/15" ∷ codes "9-17" ∷ codes "*" ∷ codes "*" ∷ codes "MON-FRI" ∷ [])
    ≡ ok office_hours
unfolding reading
office_hours_parsed = refl

daily_parsed : (plan : Plan) × (parse_schedule no_durations (codes "@daily") ≡ ok plan)
unfolding reading no_durations
daily_parsed = (
  record {
    interval = 0;
    minutes = 1;
    hours = 1;
    days = 2 ^ 32 - 2;
    months = 2 ^ 13 - 2;
    weekdays = 255;
    wild_day = true;
    wild_weekday = true;
  },
  refl,
)

abbrev tuesday_noon : Calendar
tuesday_noon = record { minute_of_hour = 30; hour = 12; day = 3; month = 2; weekday = 2 }

cron_field-Covered_example :
    (has_bit (1 + 2 ^ 15 + 2 ^ 30 + 2 ^ 45) 30 ≡ true)
    ↔ Covered 0 59 [] (split b',' (codes "*/15")) 30
cron_field-Covered_example =
    cron_field-Covered 0 59 [] (omega arith) (omega arith) (omega arith) (codes "*/15") _ 30
      quarter_mask

cron_field-InLimits_example : (0 ≤ 8) × (8 ≤ 59)
unfolding has_bit
cron_field-InLimits_example =
    cron_field-InLimits 0 59 [] (omega arith) (omega arith) (omega arith) (codes "1,4-8/2") _ 8
      list_mask refl

matches-CronMeans_example :
    (matches office_hours tuesday_noon ≡ true)
    ↔ CronMeans (codes "*/15") (codes "9-17") (codes "*") (codes "*") (codes "MON-FRI") tuesday_noon
matches-CronMeans_example =
    matches-CronMeans (codes "*/15") (codes "9-17") (codes "*") (codes "*") (codes "MON-FRI")
      office_hours tuesday_noon office_hours_parsed

parse_schedule-next_example :
    (1_000 < next daily_parsed.0 1_000)
    × (daily_parsed.0.interval ≡ 0
        → (next daily_parsed.0 1_000 % minute ≡ 0) × (next daily_parsed.0 1_000 ≤ 1_000 + minute))
parse_schedule-next_example =
    parse_schedule-next no_durations b'@' (codes "daily") daily_parsed.0 1_000 daily_parsed.1
