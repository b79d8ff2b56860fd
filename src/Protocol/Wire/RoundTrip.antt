-- ===== src/Protocol/Wire/RoundTrip.antt =====
-- What `WriteEvent` writes, `ParseEvent` reads.
use ooth.Prelude.{
  ℕ, leb, ltb, ◌<◌, ◌≡◌, ◌^◌, refl, true, false, not, List, [], ◌∷◌, ◌++◌, all, All, ok, ◌>>=◌,
  arith,
}
use ooth.Prelude.Signed.{pos}
use ooth.Prelude.Texts.{Text, codes, cut, is_space}
use ooth.Prelude.Maps.{lookup, insert}
use ooth.Protocol.Wire.{
  WireEvent, field, valid_char, valid_value, put_field, put_fields, parse_fields, read_time,
  read_duration, parse_ready, parse_start, parse_end, parse_typed, parse_event, format_int,
  end_field, write_event,
}
use ooth.Protocol.Wire.Decimal.{atoi-format_int, format_int-valid_value}
use ooth.Protocol.Wire.Words.{IsWord, join, fields-join, append-nil}

-- The three events of the protocol, each with what it carries.
pub data Sendable : Type 0 where
  ready_event : ℕ → Sendable
  start_event : ℕ → Text → Sendable
  end_event : ℕ → Text → ℕ → Sendable

abbrev pub event_of : Sendable → WireEvent
event_of (ready_event t) = record { type = codes "ready"; time = pos t; id = []; duration = pos 0 }
event_of (start_event t id) = record {
  type = codes "start";
  time = pos t;
  id = id;
  duration = pos 0;
}
event_of (end_event t id d) = record { type = codes "end"; time = pos t; id = id; duration = pos d }

-- Whether its times are in the range of int64, the timestamp after 0, and its identifier a value.
abbrev pub IsSendable : Sendable → Type 0
IsSendable (ready_event t) = (0 < t) × (t < 2 ^ 63)
IsSendable (start_event t id) = ((0 < t) × (t < 2 ^ 63)) × (valid_value id ≡ true)
IsSendable (end_event t id d) = ((0 < t) × (t < 2 ^ 63)) × ((valid_value id ≡ true) × (d < 2 ^ 63))

valid_chars-solid : (v : Text) → all valid_char v ≡ true → all (λ c. not (is_space c)) v ≡ true
unfolding valid_char is_space
valid_chars-solid [] h = refl
valid_chars-solid (c ∷ v) h = ground (arith, valid_chars-solid v)

valid_value-solid : (v : Text) → valid_value v ≡ true → all (λ c. not (is_space c)) v ≡ true
unfolding valid_value
valid_value-solid v h = valid_chars-solid v (ground arith)

-- The fields of an event, in the order in which they are written.
abbrev words_of : Sendable → List Text
words_of (ready_event t) =
    codes "v=1" ∷ codes "event=ready" ∷ (codes "ts=" ++ format_int (pos t)) ∷ []
words_of (start_event t id) =
    codes "v=1"
    ∷ codes "event=start"
    ∷ (codes "ts=" ++ format_int (pos t))
    ∷ (codes "id=" ++ id)
    ∷ []
words_of (end_event t id d) =
    codes "v=1"
    ∷ codes "event=end"
    ∷ (codes "ts=" ++ format_int (pos t))
    ∷ (codes "id=" ++ id)
    ∷ (codes "duration_ns=" ++ format_int (pos d))
    ∷ []

number-solid : (n : ℕ) → all (λ c. not (is_space c)) (format_int (pos n)) ≡ true
number-solid n = valid_value-solid (format_int (pos n)) (format_int-valid_value n)

number-IsWord : (t : ℕ) → IsWord (codes "ts=" ++ format_int (pos t))
unfolding is_space
number-IsWord t = record { filled = refl; solid = number-solid t }

words-IsWord : (e : Sendable) → IsSendable e → All IsWord (words_of e)
unfolding is_space
words-IsWord (ready_event t) h = (
  record { filled = refl; solid = refl },
  (record { filled = refl; solid = refl }, (number-IsWord t, tt)),
)
words-IsWord (start_event t id) h = (
  record { filled = refl; solid = refl },
  (
    record { filled = refl; solid = refl },
    (number-IsWord t, (record { filled = refl; solid = valid_value-solid id h.1 }, tt)),
  ),
)
words-IsWord (end_event t id d) h = (
  record { filled = refl; solid = refl },
  (
    record { filled = refl; solid = refl },
    (
      number-IsWord t,
      (
        record { filled = refl; solid = valid_value-solid id h.1.0 },
        (record { filled = refl; solid = number-solid d }, tt),
      ),
    ),
  ),
)

written : (e : Sendable) → IsSendable e → write_event (event_of e) ≡ ok (join (words_of e))
unfolding write_event end_field
written (ready_event t) h = rw (append-nil (format_int (pos t))) refl
written (start_event t id) h = rw h.1 (rw (append-nil id) refl)
written (end_event t id d) h = rw h.1.0 refl

leb-zero : (t : ℕ) → 0 < t → leb t 0 ≡ false
leb-zero t h = ground arith

ltb-zero : (d : ℕ) → ltb d 0 ≡ false
ltb-zero d = ground arith

-- The constant values are valid.
constants_valid :
    ((valid_value (codes "1") ≡ true) × (valid_value (codes "ready") ≡ true))
    × ((valid_value (codes "start") ≡ true) × (valid_value (codes "end") ≡ true))
unfolding valid_value valid_char
constants_valid = ((refl, refl), (refl, refl))

read_back : (e : Sendable) → IsSendable e → parse_event (join (words_of e)) ≡ ok (event_of e)
unfolding parse_event parse_fields put_fields put_field cut field lookup insert parse_typed
    parse_ready parse_start parse_end read_time read_duration
read_back (ready_event t) h =
    rw (fields-join (words_of (ready_event t)) (words-IsWord (ready_event t) h)) (
      rw (constants_valid.0.0, constants_valid.0.1, format_int-valid_value t, atoi-format_int t h.1)
        (rw (leb-zero t h.0) refl))
read_back (start_event t id) h =
    rw (fields-join (words_of (start_event t id)) (words-IsWord (start_event t id) h)) (
      rw (constants_valid.0.0, constants_valid.1.0, format_int-valid_value t, h.1)
        (rw (atoi-format_int t h.0.1) (rw (leb-zero t h.0.0) (rw h.1 refl))))
read_back (end_event t id d) h =
    rw (fields-join (words_of (end_event t id d)) (words-IsWord (end_event t id d) h)) (
      rw
        (
          constants_valid.0.0,
          constants_valid.1.1,
          format_int-valid_value t,
          h.1.0,
          format_int-valid_value d,
        )
        (rw (atoi-format_int t h.0.1)
          (rw (leb-zero t h.0.0) (rw h.1.0 (rw (atoi-format_int d h.1.1) (rw (ltb-zero d) refl))))))

-- An event of the protocol, whose times are below 2^63, whose timestamp is not 0, and whose identifier
-- is a value, is written, and the line that is written is read as the same event.
pub parse_event-write_event :
    (e : Sendable) → IsSendable e → (write_event (event_of e) >>= parse_event) ≡ ok (event_of e)
parse_event-write_event e h = rw (written e h) (read_back e h)
