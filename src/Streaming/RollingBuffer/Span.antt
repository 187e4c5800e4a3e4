-- ===== src/Streaming/RollingBuffer/Span.antt =====
-- What the properties of app/streaming/rolling_buffer.py say of a filled buffer.
use cma_real_time_coaching.Prelude.{
  ℕ, ◌+◌, ◌≡◌, refl, ap, ◌∙◌, sym, subst, none, some, List, [], ◌∷◌, All, arith, length,
}
use cma_real_time_coaching.Rtp.Types.{AudioChunkEvent}
use cma_real_time_coaching.Streaming.RollingBuffer.{
  RollingAudioBuffer, FloatMethods, cutoff, chunk_start_seconds, event_end, first_event, last_event,
  map_event, end_seconds, last_sequence_held, duration_seconds,
}
use cma_real_time_coaching.Streaming.RollingBuffer.Window.{Chain, Reaches, Filled}

-- The ends of a chain.
record Spans (t : FloatMethods) (es : List AudioChunkEvent) (m u : ℕ) : Type 0 where
  head : AudioChunkEvent
  first : first_event es ≡ some head
  last_number : map_event (λ e. e.sequence_number) (last_event es) ≡ some m
  last_end : map_event (event_end t) (last_event es) ≡ some u
  count : m + 1 ≡ head.sequence_number + length es

Chain-Spans :
    (t : FloatMethods) (m u : ℕ) (es : List AudioChunkEvent) → Chain t es m u → Spans t es m u
Chain-Spans t m u [] c = absurd c
Chain-Spans t m u (e ∷ []) (a, b) = record {
  head = e;
  first = refl;
  last_number = ap some a;
  last_end = ap some b;
  count = omega arith;
}
Chain-Spans t m u (e ∷ f ∷ es) (a, b, c) =
    let v = Chain-Spans t m u (f ∷ es) c in
    let number : some f.sequence_number ≡ some v.head.sequence_number =
      ap (map_event (λ x. x.sequence_number)) v.first in
    record {
      head = e;
      first = refl;
      last_number = v.last_number;
      last_end = v.last_end;
      count = ground (arith, number, v.count, a);
    }

-- The first chunk of a list has the property.
head-All :
    (P : AudioChunkEvent → Type 0) (es : List AudioChunkEvent) (e : AudioChunkEvent)
    → first_event es ≡ some e
    → All P es
    → P e
head-All P [] e h a = cc
head-All P (x ∷ es) e h a =
    subst (λ o. elim o as (λ y. Type 0) [ none ↦ Unit | some y ↦ P y ]) h a.0

-- What a filled buffer reports. Its first chunk is `head`: the number of the last chunk and the end that `append`
-- compares with are those of the newest chunk it holds, its chunks have all the numbers from the first to the last, its
-- duration is that of the end less the start of `head`, and `head` ends after the end less the window.
pub record Reports (t : FloatMethods) (b : RollingAudioBuffer) (f : Filled t b) : Type 0 where
  pub head : AudioChunkEvent
  pub first : first_event b.events ≡ some head
  pub last_number : last_sequence_held b ≡ b.last_sequence
  pub last_end : end_seconds t b ≡ b.last_end_seconds
  pub count : f.number + 1 ≡ head.sequence_number + length b.events
  pub lasts : duration_seconds t b ≡ some (t.minus f.end (chunk_start_seconds t head))
  pub reaches : Reaches t (cutoff t b.window_seconds f.end) head

-- A filled buffer reports as the number and the end of its newest chunk those that `append` compares with; it holds as
-- many chunks as there are numbers from its first to its last; its duration is that end less the start of its first
-- chunk; and the first chunk ends after that end less the window.
pub Filled-Reports : (t : FloatMethods) (b : RollingAudioBuffer) (f : Filled t b) → Reports t b f
Filled-Reports t b f = record {
  head = v.head;
  first = v.first;
  last_number = v.last_number ∙ sym f.last_number;
  last_end = v.last_end ∙ sym f.last_end;
  count = v.count;
  lasts = rw (v.last_end, v.first) refl;
  reaches =
      head-All (Reaches t (cutoff t b.window_seconds f.end)) b.events v.head v.first f.reaches;
}
  where
    v : Spans t b.events f.number f.end
    v = Chain-Spans t f.number f.end b.events f.chain
