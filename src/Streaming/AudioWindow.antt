-- ===== src/Streaming/AudioWindow.antt =====
-- `AudioWindowBuilder` of app/streaming/audio_window.py: the chunks of a rolling buffer become one window of PCM
-- audio. Times are counts of samples, as in the chunks; a window of whole seconds has a whole number of frames.
pub mod Build
mod Tests
use cma_real_time_coaching.Prelude.{
  ℕ, ◌+◌, ◌-◌, ◌*◌, ◌/◌, ◌%◌, Bool, true, false, not, ◌||◌, Option, none, some, List, [], ◌∷◌, ◌++◌,
  String, ◌==◌, ltb, nat_eq, string_eq, if◌then◌else◌, length, drop,
}
use cma_real_time_coaching.Prelude.Int.{ℤ, sub_ℕ}
use cma_real_time_coaching.Rtp.Types.{AudioChunkEvent}
use cma_real_time_coaching.Streaming.RollingBuffer.{RollingAudioBuffer}

pub record AsrAudioWindow : Type 0 where
  pub tenant_id : String
  pub call_id : String
  pub first_sequence : ℕ
  pub last_sequence : ℕ
  pub start_samples : ℤ
  pub end_samples : ℕ
  pub duration_samples : ℕ
  pub sample_rate_hz : ℕ
  pub channel_count : ℕ
  pub codec_name : String
  pub pcm_bytes : List ℕ

-- The errors that `build` raises.
pub data WindowError : Type 0 where
  empty_buffer empty_codec_name unsupported_codec incomplete_frames : WindowError

pub data Built : Type 0 where
  built : AsrAudioWindow → Built
  refused : WindowError → Built

-- `canonical_audio_codec_name` of app/events/models.py
unfoldable pub canonical_audio_codec_name : (String → String) → String → Option String
canonical_audio_codec_name strip value =
    let cleaned = strip value in
    if cleaned == ""
    then none
    else if cleaned == "pcm_s16" || cleaned == "pcm_s16le"
    then some "pcm_s16le"
    else some cleaned

-- `_BYTES_PER_SAMPLE * channel_count`
abbrev pub frame_size_of : AudioChunkEvent → ℕ
frame_size_of e = 2 * e.channel_count

abbrev pub frames_of : ℕ → AudioChunkEvent → ℕ
frames_of frame_size e = length e.audio_bytes / frame_size

-- Some chunk has bytes that are not whole frames.
unfoldable pub any_incomplete : ℕ → List AudioChunkEvent → Bool
any_incomplete frame_size [] = false
any_incomplete frame_size (e ∷ es) =
    not (length e.audio_bytes % frame_size == 0) || any_incomplete frame_size es

-- b"".join(event.audio_bytes for event in events)
unfoldable pub join_bytes : List AudioChunkEvent → List ℕ
join_bytes [] = []
join_bytes (e ∷ es) = e.audio_bytes ++ join_bytes es

abbrev pub smaller : ℕ → ℕ → ℕ
smaller a b = if ltb b a then b else a

-- The loop that passes over the skipped frames, with what it has found so far.
unfoldable pub first_sequence_from : ℕ → ℕ → ℕ → List AudioChunkEvent → ℕ
first_sequence_from frame_size skipped_frames first_sequence [] = first_sequence
first_sequence_from frame_size skipped_frames first_sequence (e ∷ es) =
    let rest =
      first_sequence_from frame_size (skipped_frames - frames_of frame_size e)
        (e.sequence_number + 1) es in
    if ltb skipped_frames (frames_of frame_size e) then first_sequence else rest

abbrev pub last_of : AudioChunkEvent → List AudioChunkEvent → AudioChunkEvent
last_of e [] = e
last_of e (f ∷ es) = last_of f es

-- How many frames of the chunks the window retains.
abbrev pub available_frames : AudioChunkEvent → List AudioChunkEvent → ℕ
available_frames first events = length (join_bytes events) / frame_size_of first

abbrev pub retained_frames : ℕ → AudioChunkEvent → List AudioChunkEvent → ℕ
retained_frames window_seconds first events =
    smaller (available_frames first events) (window_seconds * first.sample_rate_hz)

-- last.chunk_start_seconds + last.chunk_duration_seconds
abbrev pub end_samples_of : AudioChunkEvent → ℕ
end_samples_of e = e.chunk_start_samples + e.chunk_duration_samples

-- `build`, after its checks, of the chunks `first` and `others`
unfoldable pub window_of : ℕ → String → AudioChunkEvent → List AudioChunkEvent → AsrAudioWindow
unfolding join_bytes first_sequence_from
window_of window_seconds codec_name first others =
    let events = first ∷ others in
    let frame_size = frame_size_of first in
    let retained = retained_frames window_seconds first events in
    let skipped = available_frames first events - retained in
    let last = last_of first others in
    record {
      tenant_id = first.tenant_id;
      call_id = first.call_id;
      first_sequence = first_sequence_from frame_size skipped first.sequence_number events;
      last_sequence = last.sequence_number;
      start_samples = sub_ℕ (end_samples_of last) retained;
      end_samples = end_samples_of last;
      duration_samples = retained;
      sample_rate_hz = first.sample_rate_hz;
      channel_count = first.channel_count;
      codec_name = codec_name;
      pcm_bytes = drop (skipped * frame_size) (join_bytes events);
    }

-- `build`, of the chunks of the buffer
unfoldable pub build_from : (String → String) → ℕ → List AudioChunkEvent → Built
unfolding canonical_audio_codec_name any_incomplete window_of
build_from strip window_seconds [] = Built.refused WindowError.empty_buffer
build_from strip window_seconds (first ∷ others) =
    elim (canonical_audio_codec_name strip first.codec_name) [
      | none ↦ Built.refused WindowError.empty_codec_name
      | some codec_name ↦
          if codec_name == "pcm_s16le"
          then (if any_incomplete (frame_size_of first) (first ∷ others)
              then Built.refused WindowError.incomplete_frames
              else Built.built (window_of window_seconds codec_name first others))
          else Built.refused WindowError.unsupported_codec
    ]

-- `build`
abbrev pub build : (String → String) → RollingAudioBuffer → Built
build strip buffer = build_from strip buffer.window_seconds buffer.events
