-- ===== src/Protocol/Wire.antt =====
-- `Event`, `WriteEvent`, `ParseEvent`, `parseFields` and `validValue`: one line of the protocol.
pub mod Decimal
pub mod Words
pub mod RoundTrip
pub mod Accepted
use ooth.Prelude.{
  ℕ, zero, suc, ◌+◌, ◌/◌, ◌%◌, Bool, true, false, not, ◌||◌, ◌&&◌, Option, none, some, List, [],
  ◌∷◌, ◌++◌, leb, ltb, ◌==◌, if◌then◌else◌, is_empty, all, length, Result, ok, err, ◌>>=◌, ◌>>◌,
  refuse_if,
}
use ooth.Prelude.Signed.{ℤ, pos, negsuc, leb_ℤ, ltb_ℤ}
use ooth.Prelude.Texts.{Text, codes, text_eq, fields, cut, atoi}
use ooth.Prelude.Maps.{lookup, insert}

pub record WireEvent : Type 0 where
  pub type : Text
  pub time : ℤ
  pub id : Text
  pub duration : ℤ

-- The errors of both directions, without their text.
pub data WireError : Type 0 where
  bad_field : Text → WireError
  bad_version bad_time bad_ready bad_id bad_duration unexpected unknown_type : WireError

abbrev pub Fields : Type 0
Fields = List (Text × Text)

-- `fields[key]`, which is the empty string for an absent key.
unfoldable pub field : Text → Fields → Text
field key m = elim (lookup key m) [ none ↦ [] | some value ↦ value ]

unfoldable pub valid_char : ℕ → Bool
valid_char c = not (leb c b' ' || ltb b'~' c || c == b'=')

unfoldable pub valid_value : Text → Bool
valid_value value = not (is_empty value) && all valid_char value

unfoldable pub put_field : Text → Option (Text × Text) → Fields → Result WireError Fields
put_field token none m = err (bad_field token)
put_field token (some (key, value)) m =
    if is_empty key || not (valid_value value) || not (is_empty (field key m))
    then err (bad_field token)
    else ok (insert key value m)

unfoldable pub put_fields : List Text → Fields → Result WireError Fields
put_fields [] m = ok m
put_fields (token ∷ tokens) m = do m' ← put_field token (cut b'=' token) m; put_fields tokens m'

unfoldable pub parse_fields : Text → Result WireError Fields
parse_fields line = do
  m ← put_fields (fields line) []
  refuse_if (not (text_eq (field (codes "v") m) (codes "1"))) bad_version
  ok m

unfoldable pub read_time : Option ℤ → Result WireError ℤ
read_time none = err bad_time
read_time (some t) = if leb_ℤ t (pos 0) then err bad_time else ok t

unfoldable pub read_duration : Option ℤ → Result WireError ℤ
read_duration none = err bad_duration
read_duration (some d) = if ltb_ℤ d (pos 0) then err bad_duration else ok d

unfoldable pub parse_ready : Fields → WireEvent → Result WireError WireEvent
parse_ready m event = do refuse_if (not (length m == 3)) bad_ready; ok event

unfoldable pub parse_start : Fields → WireEvent → Result WireError WireEvent
parse_start m event = do
  refuse_if (not (valid_value event.id)) bad_id
  refuse_if (not (length m == 4)) unexpected
  ok event

unfoldable pub parse_end : Fields → WireEvent → Result WireError WireEvent
parse_end m event = do
  refuse_if (not (valid_value event.id)) bad_id
  duration ← read_duration (atoi (field (codes "duration_ns") m))
  refuse_if (not (length m == 5)) unexpected
  ok (record event { duration = duration })

-- The `switch` on the type.
unfoldable pub parse_typed : Fields → WireEvent → Result WireError WireEvent
parse_typed m event =
    if text_eq event.type (codes "ready")
    then parse_ready m event
    else if text_eq event.type (codes "start")
    then parse_start m event
    else if text_eq event.type (codes "end")
    then parse_end m event
    else err unknown_type

unfoldable pub parse_event : Text → Result WireError WireEvent
parse_event line = do
  m ← parse_fields line
  time ← read_time (atoi (field (codes "ts") m))
  parse_typed m (record {
    type = field (codes "event") m;
    time = time;
    id = field (codes "id") m;
    duration = pos 0;
  })

abbrev pub last_digit : ℕ → ℕ
last_digit n = b'0' + n % 10

-- `%d`: the decimal digits of a number, in front of some text. Its fuel is the number itself.
unfoldable pub digits : ℕ → ℕ → Text → Text
digits zero n rest = rest
digits (suc fuel) n rest =
    let more = digits fuel (n / 10) (last_digit n ∷ rest) in
    if n / 10 == 0 then last_digit n ∷ rest else more

unfoldable pub format_int : ℤ → Text
format_int (pos n) = digits (suc n) n []
format_int (negsuc n) = b'-' ∷ digits (suc (suc n)) (suc n) []

unfoldable pub end_field : WireEvent → Text
end_field event =
    if text_eq event.type (codes "end")
    then codes " duration_ns=" ++ format_int event.duration
    else []

-- What `WriteEvent` hands to its writer, without the newline that ends it.
unfoldable pub write_event : WireEvent → Result WireError Text
write_event event =
    let head = λ (rest : Text).
      codes "v=1 event=" ++ event.type ++ codes " ts=" ++ format_int event.time ++ rest in
    if text_eq event.type (codes "start") || text_eq event.type (codes "end")
    then (if valid_value event.id
        then ok (head (codes " id=" ++ event.id ++ end_field event))
        else err bad_id)
    else ok (head [])
