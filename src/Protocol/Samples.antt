-- ===== src/Protocol/Samples.antt =====
-- Concrete lines of the protocol, and the instances of the theorems.
use ooth.Prelude.{◌≡◌, refl, ok, err, ◌>>=◌, true, arith}
use ooth.Prelude.Signed.{pos}
use ooth.Prelude.Texts.{
  codes, fields, field_parts, push_word, is_space, cut, atoi, unsigned, digits_value, is_digit,
  in_int64,
}
use ooth.Prelude.Maps.{lookup, insert}
use ooth.Protocol.Wire.{
  WireEvent, bad_version, field, valid_char, valid_value, put_field, put_fields, parse_fields,
  read_time, parse_typed, parse_ready, parse_start, parse_event, write_event,
}
use ooth.Protocol.Wire.RoundTrip.{end_event, event_of, parse_event-write_event}
use ooth.Protocol.Wire.Accepted.{IsWellFormed, parse_event-IsWellFormed}

abbrev start : WireEvent
start = record { type = codes "start"; time = pos 17; id = codes "a1"; duration = pos 0 }

-- Unfolding this name unfolds all that reading a line computes with.
reading_line : Unit {0}
unfolding parse_event parse_fields put_fields put_field field valid_value valid_char read_time
    parse_typed parse_ready parse_start fields field_parts push_word is_space cut atoi unsigned
    digits_value is_digit in_int64 lookup insert
reading_line = tt

start_read : parse_event (codes "v=1 event=start ts=17 id=a1") ≡ ok start
unfolding reading_line
start_read = refl

other_version : parse_event (codes "v=2 event=ready ts=17") ≡ err bad_version
unfolding reading_line
other_version = refl

identifier_valid : valid_value (codes "a1") ≡ true
unfolding valid_value valid_char
identifier_valid = refl

parse_event-write_event_example :
    (write_event (event_of (end_event 17 (codes "a1") 5)) >>= parse_event)
    ≡ ok (event_of (end_event 17 (codes "a1") 5))
parse_event-write_event_example =
    parse_event-write_event (end_event 17 (codes "a1") 5)
      ((omega arith, omega arith), (identifier_valid, omega arith))

parse_event-IsWellFormed_example : IsWellFormed start
parse_event-IsWellFormed_example =
    parse_event-IsWellFormed (codes "v=1 event=start ts=17 id=a1") start start_read
