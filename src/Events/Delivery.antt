-- ===== src/Events/Delivery.antt =====
-- What `Stream` delivers: the lines in order, up to the line of the error.
use assembled_watchtower.Base.{
  ℕ, suc, ◌+◌, ◌<◌, List, [], ◌∷◌, ◌++◌, append_assoc, append-nil, Option, none, some, Bool, true,
  false, inl, inr, Str, length, inc_u64, u64_mod, Sum-cases, arith, ◌≡◌, refl, sym, ◌∙◌,
}
use assembled_watchtower.Base.Time.{Time}
use assembled_watchtower.Json.{Json}
use assembled_watchtower.Events.Types.{Event}
use assembled_watchtower.Events.Stream.{
  Envelope, StreamError, stream_id_missing, line_too_long, line_empty, line_invalid,
  callback_failed, reading_failed, decode_line, line_event, stream_from, stream,
}

-- A callback that keeps what it is given.
abbrev pub collect : List Envelope → Envelope → List Envelope × Bool
collect es e = (es ++ e ∷ [], true)

-- The line that an error names.
unfoldable pub line_of : StreamError → ℕ
line_of stream_id_missing = 0
line_of (line_too_long n) = n
line_of (line_empty n) = n
line_of (line_invalid n) = n
line_of (callback_failed n) = n
line_of (reading_failed n) = n

module _ (blank : Str → Bool) (read : Str → Option Json) (parse : Str → Option Time)
    (id : Str) where
  -- Envelopes of the first of the lines behind `n` others: numbered from `n + 1`, each with its
  -- line and the line's event.
  abbrev pub AreOf : ℕ → List Str → List Envelope → Type 0
  AreOf n ls [] = Unit
  AreOf n [] (e ∷ es) = ⊥
  AreOf n (l ∷ ls) (e ∷ es) =
      (e.line ≡ suc n)
      × (e.id ≡ record { stream_id = id; line = suc n })
      × (e.raw ≡ l)
      × (decode_line blank read parse l ≡ some e.event)
      × AreOf (suc n) ls es

  -- Without an error all lines are delivered, and an error names the line behind those delivered.
  abbrev pub EndsAt : ℕ → List Str → List Envelope → Option StreamError → Type 0
  EndsAt n ls es none = length es ≡ length ls
  EndsAt n ls es (some e) = line_of e ≡ suc (n + length es)

  record IsDelivered (n : ℕ) (ls : List Str) (xs : List Envelope)
      (p : List Envelope × Option StreamError) : Type 0 where
    es : List Envelope
    split : p.0 ≡ xs ++ es
    envelopes : AreOf n ls es
    ending : EndsAt n ls es p.1

  line_event-line :
      (n : ℕ) (l : Str) (e : StreamError) → line_event blank read parse n l ≡ inl e → line_of e ≡ n
  unfolding line_event line_of
  line_event-line n l stream_id_missing h = ground (arith, h)
  line_event-line n l (line_too_long m) h = ground (arith, h)
  line_event-line n l (line_empty m) h = ground (arith, h)
  line_event-line n l (line_invalid m) h = ground (arith, h)
  line_event-line n l (callback_failed m) h = ground (arith, h)
  line_event-line n l (reading_failed m) h = ground (arith, h)

  line_event-decoded :
      (n : ℕ) (l : Str) (e : Event)
      → line_event blank read parse n l ≡ inr e
      → decode_line blank read parse l ≡ some e
  unfolding line_event
  line_event-decoded n l e h = ground (arith, h)

  EndsAt-cons :
      (n : ℕ) (l : Str) (ls : List Str) (e : Envelope) (es : List Envelope)
      (err : Option StreamError)
      → EndsAt (suc n) ls es err
      → EndsAt n (l ∷ ls) (e ∷ es) err
  EndsAt-cons n l ls e es none h = omega (arith, h)
  EndsAt-cons n l ls e es (some x) h = omega (arith, h)

  next_line : (n : ℕ) → n + 1 < u64_mod → inc_u64 n ≡ suc n
  next_line n h = omega (arith, h)

  stream_from-IsDelivered :
      (failed : Bool) (n : ℕ) (xs : List Envelope) (ls : List Str)
      → n + length ls + 1 < u64_mod
      → IsDelivered n ls xs (stream_from blank read parse id collect failed n xs ls)
  unfolding stream_from
  stream_from-IsDelivered true n xs [] b = record {
    es = [];
    split = sym (append-nil xs);
    envelopes = tt;
    ending = unfold line_of in omega (arith, b);
  }
  stream_from-IsDelivered false n xs [] b = record {
    es = [];
    split = sym (append-nil xs);
    envelopes = tt;
    ending = refl;
  }
  stream_from-IsDelivered failed n xs (l ∷ ls) b =
      let up : inc_u64 n ≡ suc n = next_line n (omega (arith, b)) in
      elim (Sum-cases (line_event blank read parse (suc n) l)) [
        | inl (e, h) ↦
            rw (stream_from, up, h)
              (record {
                es = [];
                split = sym (append-nil xs);
                envelopes = tt;
                ending = omega (arith, line_event-line (suc n) l e h);
              })
        | inr (e, h) ↦
            let rest =
              stream_from-IsDelivered failed (suc n) (xs ++ given e ∷ []) ls (omega (arith, b)) in
            rw (stream_from, up, h, up)
              (record {
                es = given e ∷ rest.es;
                split = rest.split ∙ append_assoc xs (given e ∷ []) rest.es;
                envelopes = (refl, refl, refl, line_event-decoded (suc n) l e h, rest.envelopes);
                ending = EndsAt-cons n l ls (given e) rest.es _ rest.ending;
              })
      ]
    where
      given : Event → Envelope
      given e = record {
        id = record { stream_id = id; line = suc n };
        line = suc n;
        event = e;
        raw = l;
      }

  -- `Stream` with a stream ID that is not blank and a callback that keeps what it is given: it is
  -- given the first of the lines in order, each once, with its number from 1, its text and its
  -- event; these are all the lines if there is no error, and else the error names the line behind
  -- them. (The lines are fewer than a uint64 counts.)
  pub stream_delivers :
      (failed : Bool) (lines : List Str)
      → blank id ≡ false
      → length lines + 1 < u64_mod
      → AreOf 0 lines (stream blank read parse id collect failed [] lines).0
        × EndsAt 0 lines
            (stream blank read parse id collect failed [] lines).0
            (stream blank read parse id collect failed [] lines).1
  unfolding stream
  stream_delivers failed lines named b =
      let d = stream_from-IsDelivered failed 0 [] lines (omega (arith, b)) in
      rw (named, d.split) (d.envelopes, d.ending)
