-- ===== src/Schedule/Times.antt =====
-- Go's `time.Time` and `time.Duration`, as nanoseconds. A time counts from Go's zero time, which is
-- 0; a duration of the configuration is an integer.
use ooth.Prelude.{ℕ, suc, ◌+◌, ◌-◌, ◌%◌, Bool, leb, ◌==◌}
use ooth.Prelude.Signed.{ℤ, pos, negsuc}

abbrev pub Time : Type 0
Time = ℕ

abbrev pub Duration : Type 0
Duration = ℤ

abbrev pub millisecond : ℕ
millisecond = 1_000_000

abbrev pub second : ℕ
second = 1_000_000_000

abbrev pub minute : ℕ
minute = 60_000_000_000

abbrev pub unset : Time → Bool
unset t = t == 0

-- `now.Sub(since) >= d`
abbrev pub reached : Time → Time → Duration → Bool
reached now since (pos d) = leb (since + d) now
reached now since (negsuc d) = leb since (now + suc d)

-- `t.Truncate(time.Minute)`: Go rounds down in the time since its zero time.
abbrev pub truncate_minute : Time → Time
truncate_minute t = t - t % minute

-- The local calendar fields of a time.
pub record Calendar : Type 0 where
  pub minute_of_hour : ℕ
  pub hour : ℕ
  pub day : ℕ
  pub month : ℕ
  pub weekday : ℕ
