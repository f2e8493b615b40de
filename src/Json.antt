-- ===== src/Json.antt =====
-- JSON values as encoding/json reads them: a text that the decoder accepts is taken as its value,
-- and a `json.RawMessage` as the value of its text. Shared by internal/rules and internal/events.
pub mod Numbers
use assembled_watchtower.Base.{
  ℕ, List, [], ◌∷◌, Option, none, some, Bool, true, false, ◌&&◌, leb, if◌then◌else◌, same, Str,
  Str-discrete, map, ◌+◌, ◌≡◌, refl, arith,
}

-- A number keeps its text, which has the grammar of JSON numbers. An object keeps its fields in
-- order, those with equal keys too.
mutual
  pub data Json : Type 0 where
    null : Json
    boolean : Bool → Json
    number : Str → Json
    text : Str → Json
    array : Items → Json
    object : Fields → Json

  pub data Items : Type 0 where
    no_items : Items
    item : Json → Items → Items

  pub data Fields : Type 0 where
    no_fields : Fields
    field : Str → Json → Fields → Fields

-- An ASCII letter in lower case.
unfoldable pub lower : ℕ → ℕ
lower c = if leb b'A' c && leb c b'Z' then (c + 32) else c

-- How encoding/json matches a key with a struct's field: without regard to case. (It also takes
-- U+017F for `s` and U+212A for `k`, which are left out.)
unfoldable pub folds_to : Str → Str → Bool
unfolding lower
folds_to key name = same Str-discrete (map lower key) (map lower name)

-- The last field with a key that matches, which is the one that a struct is left with.
unfoldable pub last_field : Str → Fields → Option Json
last_field name no_fields = none
last_field name (field k v fs) = elim (last_field name fs) [
  | some w ↦ some w
  | none ↦ if folds_to k name then some v else none
]

unfoldable pub texts : List Str → Items
texts [] = no_items
texts (s ∷ ss) = item (text s) (texts ss)

-- A `[]string`: null leaves an element empty.
unfoldable pub read_texts : Items → Option (List Str)
read_texts no_items = some []
read_texts (item (text s) xs) = elim (read_texts xs) [ none ↦ none | some ss ↦ some (s ∷ ss) ]
read_texts (item null xs) = elim (read_texts xs) [ none ↦ none | some ss ↦ some ([] ∷ ss) ]
read_texts (item _ xs) = none

unfoldable pub read_text : Json → Option Str
read_text (text s) = some s
read_text _ = none

unfoldable pub read_boolean : Json → Option Bool
read_boolean (boolean b) = some b
read_boolean _ = none

pub read-texts : (ss : List Str) → read_texts (texts ss) ≡ some ss
unfolding read_texts texts
read-texts [] = refl
read-texts (s ∷ ss) = ground (arith, read-texts ss)
