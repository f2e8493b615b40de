-- ===== src/Rules/Wire.antt =====
-- The JSON form of rules: internal/rules/json.go and internal/rules/decode.go.
pub mod Encode
pub mod Decode
pub mod Definitions
pub mod Operands
pub mod RoundTrip
pub mod Examples
