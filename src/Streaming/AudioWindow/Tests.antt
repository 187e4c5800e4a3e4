-- ===== src/Streaming/AudioWindow/Tests.antt =====
-- A window of one second, of two chunks of two frames at a rate of three frames a second.
use cma_real_time_coaching.Prelude.{ℕ, ◌≡◌, refl, [], ◌∷◌, arith, List, nat_eq, string_eq}
use cma_real_time_coaching.Prelude.Int.{ℤ}
use cma_real_time_coaching.Rtp.Types.{AudioChunkEvent}
use cma_real_time_coaching.Streaming.AudioWindow.{
  AsrAudioWindow, Built, build_from, canonical_audio_codec_name, any_incomplete, join_bytes,
  first_sequence_from, window_of,
}
use cma_real_time_coaching.Streaming.AudioWindow.Build.{Promises, build_from-Promises}

abbrev chunk : ℕ → ℕ → List ℕ → AudioChunkEvent
chunk number start bytes = record {
  tenant_id = "acme";
  call_id = "call-7";
  sequence_number = number;
  received_at_utc = 0;
  chunk_start_samples = start;
  chunk_duration_samples = 2;
  sample_rate_hz = 3;
  channel_count = 1;
  codec_name = "pcm_s16";
  audio_bytes = bytes;
}

abbrev first_chunk : AudioChunkEvent
first_chunk = chunk 5 0 (1 ∷ 2 ∷ 3 ∷ 4 ∷ [])

abbrev second_chunk : AudioChunkEvent
second_chunk = chunk 6 2 (5 ∷ 6 ∷ 7 ∷ 8 ∷ [])

abbrev expected : AsrAudioWindow
expected = record {
  tenant_id = "acme";
  call_id = "call-7";
  first_sequence = 5;
  last_sequence = 6;
  start_samples = ℤ.pos 1;
  end_samples = 4;
  duration_samples = 3;
  sample_rate_hz = 3;
  channel_count = 1;
  codec_name = "pcm_s16le";
  pcm_bytes = 3 ∷ 4 ∷ 5 ∷ 6 ∷ 7 ∷ 8 ∷ [];
}

builds_expected : build_from (λ s. s) 1 (first_chunk ∷ second_chunk ∷ []) ≡ Built.built expected
unfolding build_from canonical_audio_codec_name any_incomplete join_bytes first_sequence_from
    window_of
builds_expected = refl

build_from-Promises_example : Promises 1 first_chunk (first_chunk ∷ second_chunk ∷ []) expected
build_from-Promises_example =
    build_from-Promises (λ s. s) 1 first_chunk (second_chunk ∷ []) expected (omega arith)
      builds_expected
