-- ===== src/Protocol/Wire/Accepted.antt =====
-- What `ParseEvent` lets through.
use ooth.Prelude.{◌≡◌, ◌⊎◌, refl, true, false, ok, Option, >>=-eq-ok, arith}
use ooth.Prelude.Signed.{ℤ, pos, ltb_ℤ, leb_ℤ}
use ooth.Prelude.Texts.{Text, codes, atoi, text_eq_iff}
use ooth.Protocol.Wire.{
  WireEvent, Fields, field, valid_value, parse_fields, read_time, read_duration, parse_ready,
  parse_start, parse_end, parse_typed, parse_event,
}

-- An event as the protocol has them: after the epoch, of one of three types, with an identifier unless
-- it is `ready`, and with a duration, which is not negative, only if it is `end`.
pub record IsWellFormed (e : WireEvent) : Type 0 where
  pub stamped : leb_ℤ e.time (pos 0) ≡ false
  pub lasting : ltb_ℤ e.duration (pos 0) ≡ false
  pub typed :
      ((e.type ≡ codes "ready") × (e.duration ≡ pos 0))
      ⊎ ((valid_value e.id ≡ true)
          × (((e.type ≡ codes "start") × (e.duration ≡ pos 0)) ⊎ (e.type ≡ codes "end")))

read_time-positive : (o : Option ℤ) (t : ℤ) → read_time o ≡ ok t → leb_ℤ t (pos 0) ≡ false
unfolding read_time
read_time-positive o t h = ground arith

parse_typed-IsWellFormed :
    (m : Fields) (event e : WireEvent)
    → leb_ℤ event.time (pos 0) ≡ false
    → event.duration ≡ pos 0
    → parse_typed m event ≡ ok e
    → IsWellFormed e
unfolding parse_typed parse_ready parse_start parse_end read_duration
parse_typed-IsWellFormed m event e t d h = ground (
  arith,
  text_eq_iff event.type (codes "ready"),
  text_eq_iff event.type (codes "start"),
  text_eq_iff event.type (codes "end"),
)

-- Every line that is accepted is an event of the protocol: after the epoch, of one of three types, with
-- a valid identifier unless it is `ready`, and with a duration, which is not negative, only if it is
-- `end`.
pub parse_event-IsWellFormed :
    (line : Text) (e : WireEvent) → parse_event line ≡ ok e → IsWellFormed e
unfolding parse_event
parse_event-IsWellFormed line e h =
    let (m, read, later) = >>=-eq-ok (parse_fields line) _ h in
    let (t, stamp, typed) = >>=-eq-ok (read_time (atoi (field (codes "ts") m))) _ later in
    parse_typed-IsWellFormed m _ e (read_time-positive _ t stamp) refl typed
