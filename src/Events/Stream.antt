-- ===== src/Events/Stream.antt =====
-- `Stream`: the loop over the lines of a reader. What bufio's scanner yields, with
-- `splitPhysicalLine`, is a list of lines and whether it ended with an error. The test for a blank
-- text (`TrimSpace`) and the reading of a line as one JSON value are parameters.
use assembled_watchtower.Base.{
  ℕ, List, [], ◌∷◌, Option, none, some, Bool, ltb, if◌then◌else◌, ◌⊎◌, inl, inr, Str, length,
  inc_u64,
}
use assembled_watchtower.Base.Do.{◌>>=◌}
use assembled_watchtower.Base.Time.{Time}
use assembled_watchtower.Json.{Json}
use assembled_watchtower.Events.Types.{Event}
use assembled_watchtower.Events.Decode.{decode}

pub record OccurrenceId : Type 0 where
  pub stream_id : Str
  pub line : ℕ

pub record Envelope : Type 0 where
  pub id : OccurrenceId
  pub line : ℕ
  pub event : Event
  pub raw : Str

abbrev pub max_line_bytes : ℕ
max_line_bytes = 16777216

-- Each error but the first names a line.
pub data StreamError : Type 0 where
  stream_id_missing : StreamError
  line_too_long : ℕ → StreamError
  line_empty : ℕ → StreamError
  line_invalid : ℕ → StreamError
  callback_failed : ℕ → StreamError
  reading_failed : ℕ → StreamError

module _ (blank : Str → Bool) (read : Str → Option Json) (parse : Str → Option Time) where
  unfoldable pub decode_line : Str → Option Event
  decode_line l = read l >>= decode parse

  -- The tests on a line, and its event.
  unfoldable pub line_event : ℕ → Str → StreamError ⊎ Event
  line_event n l =
      if ltb max_line_bytes (length l)
      then inl (line_too_long n)
      else if blank l
      then inl (line_empty n)
      else elim (decode_line l) [ none ↦ inl (line_invalid n) | some e ↦ inr e ]

  module _ {S : Type 0} (id : Str) (fn : S → Envelope → S × Bool) (failed : Bool) where
    -- The loop after `line` lines, with the callback's state; `false` is the callback's error.
    unfoldable pub stream_from : ℕ → S → List Str → S × Option StreamError
    stream_from line s [] = (s, if failed then some (reading_failed (inc_u64 line)) else none)
    stream_from line s (l ∷ ls) =
        let n = inc_u64 line in
        elim (line_event n l) [
          | inl e ↦ (s, some e)
          | inr e ↦
              let (s', ok) = fn s (record {
                id = record { stream_id = id; line = n };
                line = n;
                event = e;
                raw = l;
              }) in
              let rest = stream_from n s' ls in if ok then rest else (s', some (callback_failed n))
        ]

    unfoldable pub stream : S → List Str → S × Option StreamError
    stream s lines = if blank id then (s, some stream_id_missing) else stream_from 0 s lines
