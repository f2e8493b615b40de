-- ===== src/Events/Examples.antt =====
-- The decoder and the splitter on concrete inputs: tests by evaluation, and the theorems at an input.
use assembled_watchtower.Base.{
  List, Bool, true, if◌then◌else◌, ◌==◌, arith, ◌≡◌, refl, [], ◌∷◌, ◌++◌, Option, none, some, false,
  Str, codes, Str-discrete, ℕ_discrete, has,
}
use assembled_watchtower.Base.Time.{Time, zero_time}
use assembled_watchtower.Json.{
  Json, Fields, null, text, number, array, object, field, no_fields, no_items, item, read_texts,
}
use assembled_watchtower.Json.Numbers.{parse_uint, parse_digits, all_digits, is_digit}
use assembled_watchtower.Ids.Decimal.{value_from}
use assembled_watchtower.Events.Types.{Event, agent_state_change}
use assembled_watchtower.Events.Timestamps.{
  strict_timestamp, take_date_time, take_fraction, take_digits, take_byte, drop_digits, zone,
  two_digits,
}
use assembled_watchtower.Events.Fields.{
  get, walk_json, bounded, str, str_value, uint, uint_value, pointer, uint_ptr, valid, state,
  state_ptr, all_new, strings_value, strings_arr, time_value, time_val,
}
use assembled_watchtower.Events.Decode.{
  schema, all_allowed, require_fields, fields_of, common, decode_agent_state_change, decode_type,
  decode,
}
use assembled_watchtower.Events.Lines.{
  index_newline, take, drop_return, split_physical_line, IsSplit, split_physical_line-IsSplit,
}
use assembled_watchtower.Events.Readers.{IsWellFormed}
use assembled_watchtower.Events.WellFormed.{decode-IsWellFormed}
use assembled_watchtower.Events.Stream.{stream, stream_from, line_event, decode_line, line_invalid}
use assembled_watchtower.Events.Delivery.{collect, AreOf, EndsAt, stream_delivers}
use assembled_watchtower.Events.Encoding.{event_json}
use assembled_watchtower.Events.Complete.{AreTimesPrinted, decode-event_json}

-- Every time is the same here.
abbrev parse : Str → Option Time
parse s = some zero_time

abbrev break_fields : Fields → Fields
break_fields rest = field (codes "event_id") (text (codes "e")) (
    field (codes "ts") (text (codes "2026-01-02T03:04:05.5+01:00")) (
      field (codes "type") (text (codes "agent_state_change")) (
        field (codes "agent_id") (text (codes "a")) (
          field (codes "previous_state") null (
            field (codes "previous_state_duration_sec") (number (codes "60")) (
              field (codes "new_state") (text (codes "on_break"))
                (field (codes "queue_ids") (array (item (text (codes "q")) no_items)) rest)))))))

abbrev on_break : Event
on_break = agent_state_change (record {
  common = record {
    event_id = codes "e";
    timestamp = zero_time;
    type = codes "agent_state_change";
  };
  agent_id = codes "a";
  previous_state = none;
  new_state = codes "on_break";
  previous_state_duration_sec = some 60;
  queue_ids = codes "q" ∷ [];
})

decoding : Unit {0}
unfolding parse_uint parse_digits all_digits is_digit value_from strict_timestamp take_date_time
    take_fraction take_digits take_byte drop_digits zone two_digits get walk_json bounded str
    str_value uint uint_value pointer uint_ptr valid state state_ptr all_new strings_value
    strings_arr time_value time_val schema all_allowed require_fields fields_of common
    decode_agent_state_change decode_type decode has Str-discrete ℕ_discrete read_texts
decoding = tt

decodes : decode parse (object (break_fields no_fields)) ≡ some on_break
unfolding decoding
decodes = refl

-- A field twice is an error.
refuses_repetition :
    decode parse (object (break_fields (field (codes "agent_id") (text (codes "a")) no_fields)))
    ≡ none
unfolding decoding
refuses_repetition = refl

decode-IsWellFormed_example : IsWellFormed on_break
decode-IsWellFormed_example =
    decode-IsWellFormed parse (object (break_fields no_fields)) on_break decodes

-- A carriage return goes with the newline behind it.
abbrev two_lines : Str
two_lines = codes "ab" ++ 13 ∷ 10 ∷ codes "c"

splits : split_physical_line two_lines false ≡ (4, some (codes "ab"))
unfolding split_physical_line index_newline take drop_return
splits = refl

split_physical_line-IsSplit_example : IsSplit two_lines false (split_physical_line two_lines false)
split_physical_line-IsSplit_example = split_physical_line-IsSplit two_lines false

on_break-IsWellFormed : IsWellFormed on_break
on_break-IsWellFormed = decode-IsWellFormed parse (object (break_fields no_fields)) on_break decodes

-- Every time is printed in the same way.
abbrev print : Time → Str
print t = codes "2026-01-02T03:04:05.5+01:00"

times_printed : AreTimesPrinted parse print on_break
unfolding AreTimesPrinted decoding
times_printed = (refl, refl)

decode-event_json_example : decode parse (event_json print on_break) ≡ some on_break
decode-event_json_example =
    decode-event_json parse print on_break on_break-IsWellFormed times_printed

abbrev blank : Str → Bool
blank [] = true
blank (c ∷ s) = false

-- The reader of JSON knows one text.
abbrev read_break : Str → Option Json
read_break [] = none
read_break (c ∷ s) = if c == b'{' then some (object (break_fields no_fields)) else none

-- The second line is no JSON.
abbrev two_given : List Str
two_given = codes "{}" ∷ codes "x" ∷ codes "{}" ∷ []

stops_at_two :
    (stream blank read_break parse (codes "f") collect false [] two_given).1 ≡ some (line_invalid 2)
unfolding decoding stream stream_from line_event decode_line
stops_at_two = refl

stream_delivers_example :
    AreOf blank read_break parse
      (codes "f")
      0
      two_given
      (stream blank read_break parse (codes "f") collect false [] two_given).0
    × EndsAt blank read_break parse
        (codes "f")
        0
        two_given
        (stream blank read_break parse (codes "f") collect false [] two_given).0
        (stream blank read_break parse (codes "f") collect false [] two_given).1
stream_delivers_example =
    stream_delivers blank read_break parse (codes "f") false two_given refl (omega arith)
