-- ===== src/Events/Fields.antt =====
-- The readers of one field of an event's object. A field that is missing reads as an empty text,
-- which is no JSON value: only nullable fields tell it from null, and both are refused elsewhere.
-- `none` is an error.
use assembled_watchtower.Base.{
  ℕ, List, [], ◌∷◌, Option, none, some, Bool, true, not, ◌&&◌, ◌||◌, ltb, if◌then◌else◌, same, Str,
  codes, Str-discrete, has, is_empty, length,
}
use assembled_watchtower.Base.Time.{Time}
use assembled_watchtower.Json.{
  Json, Items, Fields, null, boolean, number, text, array, object, no_items, item, no_fields, field,
  read_texts,
}
use assembled_watchtower.Json.Numbers.{parse_uint}
use assembled_watchtower.Events.Types.{State}
use assembled_watchtower.Events.Timestamps.{strict_timestamp}

-- The map that an object is decoded to: the last field with a key.
unfoldable pub get : Str → Fields → Option Json
get k no_fields = none
get k (field j v fs) = elim (get k fs) [
  | some w ↦ some w
  | none ↦ if same Str-discrete j k then some v else none
]

-- `walkJSON` finds no field twice in any object.
unfoldable mutual
  pub walk_json : Json → Bool
  walk_json null = true
  walk_json (boolean b) = true
  walk_json (number s) = true
  walk_json (text s) = true
  walk_json (array xs) = walk_items xs
  walk_json (object fs) = walk_fields [] fs

  pub walk_items : Items → Bool
  walk_items no_items = true
  walk_items (item j xs) = walk_json j && walk_items xs

  pub walk_fields : List Str → Fields → Bool
  walk_fields seen no_fields = true
  walk_fields seen (field k j fs) =
      not (has Str-discrete k seen) && (walk_json j && walk_fields (k ∷ seen) fs)

-- A text of 1 to 256 bytes.
unfoldable pub bounded : Str → Bool
bounded s = not (is_empty s) && not (ltb 256 (length s))

unfoldable pub str_value : Option Json → Option Str
str_value (some (text s)) = if bounded s then some s else none
str_value _ = none

unfoldable pub str : Fields → Str → Option Str
str o k = str_value (get k o)

unfoldable pub uint_value : Option Json → Option ℕ
uint_value (some (number s)) = parse_uint s
uint_value _ = none

unfoldable pub uint : Fields → Str → Option ℕ
uint o k = uint_value (get k o)

-- The nil pointer for null, and else what a reader reads.
unfoldable pub pointer {ℓ} : {A : Type ℓ} → Option Json → Option A → Option (Option A)
pointer (some null) read = some none
pointer _ (some a) = some (some a)
pointer _ none = none

unfoldable pub uint_ptr : Fields → Str → Option (Option ℕ)
uint_ptr o k = pointer (get k o) (uint o k)

-- `valid` of a state.
unfoldable pub valid : State → Bool
valid s =
    same Str-discrete s (codes "available")
    || same Str-discrete s (codes "on_call")
    || same Str-discrete s (codes "on_break")
    || same Str-discrete s (codes "in_meeting")

unfoldable pub state : Fields → Str → Option State
state o k = elim (str o k) [ none ↦ none | some s ↦ if valid s then some s else none ]

unfoldable pub state_ptr : Fields → Str → Option (Option State)
state_ptr o k = pointer (get k o) (state o k)

unfoldable pub boolean_value : Option Json → Option Bool
boolean_value (some (boolean b)) = some b
boolean_value _ = none

unfoldable pub boolean_of : Fields → Str → Option Bool
boolean_of o k = boolean_value (get k o)

-- The loop of `stringsArr`, with the values seen.
unfoldable pub all_new : List Str → List Str → Bool
all_new seen [] = true
all_new seen (s ∷ ss) = bounded s && (not (has Str-discrete s seen) && all_new (s ∷ seen) ss)

-- A nil slice is an empty one.
unfoldable pub strings_value : Bool → Option Json → Option (List Str)
strings_value nullable (some null) = if nullable then some [] else none
strings_value nullable (some (array xs)) = elim (read_texts xs) [
  | none ↦ none
  | some ss ↦ if all_new [] ss then some ss else none
]
strings_value nullable _ = none

unfoldable pub strings_arr : Fields → Str → Bool → Option (List Str)
strings_arr o k nullable = strings_value nullable (get k o)

-- `time.Parse(time.RFC3339Nano, value)` is a parameter.
module _ (parse : Str → Option Time) where
  unfoldable pub time_value : Option Json → Option Time
  time_value (some (text s)) = if strict_timestamp s then parse s else none
  time_value _ = none

  unfoldable pub time_val : Fields → Str → Option Time
  time_val o k = time_value (get k o)

  unfoldable pub time_ptr : Fields → Str → Option (Option Time)
  time_ptr o k = pointer (get k o) (time_val o k)
