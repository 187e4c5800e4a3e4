-- ===== src/Streaming/Tests.antt =====
-- Runs of a buffer of app/streaming/rolling_buffer.py with a window of one second.
mod Fed
use cma_real_time_coaching.Prelude.{
  ℕ, ◌+◌, ◌*◌, ◌==◌, ◌&&◌, if◌then◌else◌, replicate, ◌≡◌, refl, inl, inr, none, some, [], ◌∷◌,
  arith, nat_eq, string_eq,
}
use cma_real_time_coaching.Prelude.Int.{sub_ℕ}
use cma_real_time_coaching.Rtp.Types.{AudioChunkEvent}
use cma_real_time_coaching.Streaming.RollingBuffer
use cma_real_time_coaching.Streaming.RollingBuffer.{
  RollingAudioBuffer, FloatMethods, AppendError, event_end, create, append, appended, refused,
}
use cma_real_time_coaching.Streaming.RollingBuffer.Window.{Grows, Filled, IsRolling, Appends}
use cma_real_time_coaching.Streaming.RollingBuffer.Append.{append-Appends}
use cma_real_time_coaching.Streaming.RollingBuffer.Span.{Reports, Filled-Reports}
use cma_real_time_coaching.Streaming.RollingBuffer.Feed.{IsExact, Feeds, Taken, Timeline-Feeds}

abbrev chunk_of : ℕ → ℕ → ℕ → AudioChunkEvent
chunk_of number start duration = record {
  tenant_id = "acme";
  call_id = "call-7";
  sequence_number = number;
  received_at_utc = 0;
  chunk_start_samples = start;
  chunk_duration_samples = duration;
  sample_rate_hz = 16000;
  channel_count = 1;
  codec_name = "pcm_s16le";
  audio_bytes = replicate (2 * duration) 0;
}

-- Times as counts of samples at 16000 a second, exactly.
abbrev exact : FloatMethods
exact = record {
  divide = λ samples rate. if rate == 1 then 16000 * samples else samples;
  plus = λ a b. a + b;
  minus = λ a b. sub_ℕ a b;
}

exact-Grows : Grows exact
exact-Grows x d = omega arith

exact-IsExact : IsExact exact
exact-IsExact k n h = omega arith

-- The same, but that one sum is rounded up.
abbrev rounding_up : ℕ → ℕ → FloatMethods
rounding_up x y = record exact { plus = λ a b. if a == x && b == y then a + b + 1 else a + b }

abbrev empty_buffer : RollingAudioBuffer
empty_buffer = record {
  window_seconds = 1;
  events = [];
  tenant_id = none;
  call_id = none;
  sample_rate_hz = none;
  channel_count = none;
  codec_name = none;
  last_sequence = none;
  last_end_seconds = none;
}

created : create 1 ≡ some empty_buffer
unfolding create
created = refl

abbrev two_chunks : RollingAudioBuffer
two_chunks = record empty_buffer {
  events = chunk_of 3 0 9000 ∷ chunk_of 4 9000 9000 ∷ [];
  tenant_id = some "acme";
  call_id = some "call-7";
  sample_rate_hz = some 16000;
  channel_count = some 1;
  codec_name = some "pcm_s16le";
  last_sequence = some 4;
  last_end_seconds = some 18000;
}

abbrev two_chunks_filled : Filled exact two_chunks
two_chunks_filled = record {
  number = 4;
  end = 18000;
  last_number = refl;
  last_end = refl;
  chain = (refl, omega arith, (refl, refl));
  bound = ((refl, refl, refl, refl, refl), ((refl, refl, refl, refl, refl), tt));
  reaches = (refl, (refl, tt));
}

two_chunks-IsRolling : IsRolling exact two_chunks
two_chunks-IsRolling = (omega arith, inr two_chunks_filled)

-- The first chunk ends at 9000, before the second of 16000 samples that ends at 27000.
evicts_one :
    append exact (chunk_of 5 18000 9000) two_chunks
    ≡ appended (record two_chunks {
      events = chunk_of 4 9000 9000 ∷ chunk_of 5 18000 9000 ∷ [];
      last_sequence = some 5;
      last_end_seconds = some 27000;
    })
unfolding append RollingBuffer.append_after RollingBuffer.validate_next
    RollingBuffer.validate_binding RollingBuffer.store RollingBuffer.evict
evicts_one = refl

-- If the sum of 0.2 and 0.1 is rounded up, as it is, the chunk of 1600 samples that starts at 0.3 is refused.
contiguous_is_refused :
    append (rounding_up 3200 1600) (chunk_of 5 4800 1600) (record two_chunks {
      events = chunk_of 4 3200 1600 ∷ [];
      last_end_seconds = some (event_end (rounding_up 3200 1600) (chunk_of 4 3200 1600));
    })
    ≡ refused AppendError.overlapping
unfolding append RollingBuffer.append_after RollingBuffer.validate_next
    RollingBuffer.validate_binding
contiguous_is_refused = refl

append-Appends_example :
    Appends exact two_chunks
      (chunk_of 5 18000 9000)
      (append exact (chunk_of 5 18000 9000) two_chunks)
append-Appends_example =
    append-Appends exact two_chunks (chunk_of 5 18000 9000) exact-Grows two_chunks-IsRolling refl

-- A chunk of one second, and a shorter one.
Timeline-Feeds_example :
    (c : RollingAudioBuffer) × Feeds exact empty_buffer
      (chunk_of 0 0 16000 ∷ chunk_of 1 16000 1 ∷ [])
      c
    × Taken exact "acme" "call-7" 2 c
Timeline-Feeds_example =
    Timeline-Feeds exact "acme" "call-7" 0 0 2 16001 (chunk_of 0 0 16000 ∷ chunk_of 1 16000 1 ∷ [])
      empty_buffer exact-Grows exact-IsExact ((omega arith, inl (refl, refl)), inl refl)
      ((refl, refl, refl, refl, refl), ((refl, refl, refl, refl, refl), tt)) (refl, (refl, tt))
      (1, refl, tt) (omega arith)
      (refl, refl, omega arith, refl, (refl, refl, omega arith, refl, (refl, refl)))

Filled-Reports_example : Reports exact two_chunks two_chunks_filled
Filled-Reports_example = Filled-Reports exact two_chunks two_chunks_filled
