-- ===== src/Ids.antt =====
-- Identifiers: `canonicalParts` and `stableID`, which internal/conditions/conditions.go,
-- internal/alerts/alerts.go and internal/notifications/notifications.go each declare with the same
-- body, and the parts of strconv and encoding/hex that they call.
pub mod Decimal
pub mod Parts
mod Examples
use assembled_watchtower.Base.{
  ℕ, zero, suc, ◌+◌, ◌-◌, ◌/◌, ◌%◌, List, [], ◌∷◌, ◌++◌, Str, codes, ltb, if◌then◌else◌, length, ℤ,
  pos, negsuc, ◌≡◌, refl,
}

-- The digits of `n` in front of `acc`, last digit first, on fuel.
unfoldable pub decimal : ℕ → ℕ → Str → Str
decimal zero n acc = acc
decimal (suc fuel) n acc =
    let rest = decimal fuel (n / 10) ((b'0' + n % 10) ∷ acc) in
    if ltb n 10 then (b'0' + n) ∷ acc else rest

-- `strconv.FormatUint(n, 10)` and `strconv.Itoa(n)` of a length: `n + 1` rounds are enough.
unfoldable pub format_uint : ℕ → Str
unfolding decimal
format_uint n = decimal (suc n) n []

-- `strconv.FormatInt(n, 10)`
unfoldable pub format_int : ℤ → Str
unfolding format_uint
format_int (pos n) = format_uint n
format_int (negsuc n) = b'-' ∷ format_uint (suc n)

unfoldable pub canonical_parts : List Str → Str
unfolding format_uint
canonical_parts [] = []
canonical_parts (part ∷ parts) =
    format_uint (length part) ++ (b':' ∷ (part ++ canonical_parts parts))

unfoldable pub hex_digit : ℕ → ℕ
hex_digit n = if ltb n 10 then b'0' + n else b'a' + (n - 10)

-- `hex.EncodeToString`
unfoldable pub hex_encode : Str → Str
unfolding hex_digit
hex_encode [] = []
hex_encode (b ∷ bs) = hex_digit (b / 16) ∷ hex_digit (b % 16) ∷ hex_encode bs

unfoldable pub stable_id : Str → Str → Str
unfolding hex_encode
stable_id prefix value = prefix ++ (b'_' ∷ hex_encode value)

stable_id_test :
    stable_id (codes "alert-series") (canonical_parts (codes "r" ∷ codes "queue" ∷ []))
    ≡ codes "alert-series_313a72353a7175657565"
unfolding stable_id canonical_parts
stable_id_test = refl
