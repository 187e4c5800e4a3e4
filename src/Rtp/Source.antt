-- ===== src/Rtp/Source.antt =====
-- The methods of app/audio_ingress/rtp.py that work on one `_ActiveRTPSource`: queueing chunks,
-- draining the reorder buffer, expiring gaps, and trimming the fingerprint history.
-- A method returns how it ends and the source as it then is. Each `while` loop has fuel, and ends
-- with `hangs` when it is used up; the callers give as much as the loop can need.
use cma_real_time_coaching.Prelude.{
  ℕ, zero, suc, ◌+◌, ◌*◌, ◌/◌, Bool, true, false, not, ◌&&◌, ◌||◌, Option, none, some, List, [],
  ◌∷◌, ◌++◌, ◌==◌, ltb, leb, if◌then◌else◌, length, take, drop, replicate, nat_eq, is_empty,
}
use cma_real_time_coaching.Prelude.Dict
use cma_real_time_coaching.Prelude.Dict.{Dict}
use cma_real_time_coaching.Rtp.Types.{
  RtpMediaPacket, AudioChunkEvent, ActiveRtpSource, RtpAdapterConfig, Outcome, continues, fails,
  output_queue_full, rtp_timestamp_mismatch, reorder_window_exceeded, output_sample_rate_hz,
  output_chunk_bytes,
}
use cma_real_time_coaching.Rtp.Sequence.{sequence_distance, advance_sequence, advance_timestamp}
use cma_real_time_coaching.Rtp.G711.{decode_g711_payload, upsample_pcm16_8khz_to_16khz}

-- The rest of a method runs if what stands before it did not fail.
abbrev pub and_then :
    Outcome × ActiveRtpSource
    → (ActiveRtpSource → Outcome × ActiveRtpSource)
    → Outcome × ActiveRtpSource
and_then (continues, s) rest = rest s
and_then (fails r, s) rest = (fails r, s)
and_then (Outcome.raises, s) rest = (Outcome.raises, s)
and_then (Outcome.hangs, s) rest = (Outcome.hangs, s)

-- `AudioChunkEvent(…)`: its validators refuse empty audio and a duration of zero.
unfoldable pub make_chunk : RtpAdapterConfig → ActiveRtpSource → List ℕ → Option AudioChunkEvent
make_chunk config s payload =
    let sample_count = length payload / 2 in
    if is_empty payload || sample_count == 0
    then none
    else some (record {
      tenant_id = config.tenant_id;
      call_id = config.call_id;
      sequence_number = s.emitted_chunk_count;
      received_at_utc = s.latest_arrived_at_utc;
      chunk_start_samples = s.emitted_sample_count;
      chunk_duration_samples = sample_count;
      sample_rate_hz = output_sample_rate_hz;
      channel_count = 1;
      codec_name = "pcm_s16le";
      audio_bytes = payload;
    })

queue_made : Option AudioChunkEvent → List ℕ → ActiveRtpSource → Outcome × ActiveRtpSource
queue_made none payload s = (Outcome.raises, s)
queue_made (some chunk) payload s = (
  continues,
  record s {
    output_queue = s.output_queue ++ chunk ∷ [];
    emitted_sample_count = s.emitted_sample_count + length payload / 2;
    emitted_chunk_count = s.emitted_chunk_count + 1;
  },
)

-- `_queue_chunk`
unfoldable pub queue_chunk : RtpAdapterConfig → List ℕ → ActiveRtpSource → Outcome × ActiveRtpSource
unfolding make_chunk queue_made
queue_chunk config payload s =
    if leb config.max_output_chunks (length s.output_queue)
    then (fails output_queue_full, s)
    else queue_made (make_chunk config s payload) payload s

-- `_emit_complete_chunks`
unfoldable pub emit_complete_chunks :
    ℕ → RtpAdapterConfig → ActiveRtpSource → Outcome × ActiveRtpSource
emit_complete_chunks zero config s = (Outcome.hangs, s)
emit_complete_chunks (suc fuel) config s = elim (leb output_chunk_bytes (length s.pcm_buffer)) [
  | false ↦ (continues, s)
  | true ↦
      and_then
        (queue_chunk config (take output_chunk_bytes s.pcm_buffer)
          (record s { pcm_buffer = drop output_chunk_bytes s.pcm_buffer }))
        (emit_complete_chunks fuel config)
]

-- The loop takes 64000 bytes in each round.
abbrev pub emit_fuel : ActiveRtpSource → ℕ
emit_fuel s = suc (length s.pcm_buffer / 64000)

-- `_flush_final_chunk`
unfoldable pub flush_final_chunk : RtpAdapterConfig → ActiveRtpSource → Outcome × ActiveRtpSource
unfolding queue_chunk
flush_final_chunk config s =
    if is_empty s.pcm_buffer
    then (continues, s)
    else queue_chunk config s.pcm_buffer (record s { pcm_buffer = [] })

-- `decode_g711_payload` and then `upsample_pcm16_8khz_to_16khz`, either of which may raise.
unfoldable pub packet_audio : RtpMediaPacket → Option (List ℕ)
packet_audio p = elim (decode_g711_payload p.codec p.payload) [
  | none ↦ none
  | some decoded ↦ upsample_pcm16_8khz_to_16khz decoded
]

-- A source to which the audio of a packet has been added.
abbrev pub extend_with : RtpMediaPacket → List ℕ → ActiveRtpSource → ActiveRtpSource
extend_with p audio s = record s {
  pcm_buffer = s.pcm_buffer ++ audio;
  decoded_input_sample_count = s.decoded_input_sample_count + length p.payload;
  expected_sequence_number = advance_sequence s.expected_sequence_number 1;
  expected_rtp_timestamp = advance_timestamp s.expected_rtp_timestamp (length p.payload);
}

-- The body of the loop of `_drain_contiguous`, for a packet that has been popped.
unfoldable pub deliver :
    RtpAdapterConfig → RtpMediaPacket → ActiveRtpSource → Outcome × ActiveRtpSource
deliver config p s =
    if not (p.rtp_timestamp == s.expected_rtp_timestamp)
    then (fails rtp_timestamp_mismatch, s)
    else elim (packet_audio p) [
      | none ↦ (Outcome.raises, s)
      | some audio ↦ let s' = extend_with p audio s in emit_complete_chunks (emit_fuel s') config s'
    ]

-- What `_drain_contiguous` does when the expected packet is not there.
unfoldable pub note_gap : ActiveRtpSource → ActiveRtpSource
note_gap s =
    if is_empty s.packet_buffer
    then record s { gap_started_monotonic_seconds = none }
    else elim s.gap_started_monotonic_seconds [
      | none ↦ record s { gap_started_monotonic_seconds = some s.last_arrival_monotonic_seconds }
      | some t ↦ s
    ]

abbrev pub pop_expected : ActiveRtpSource → ActiveRtpSource
pop_expected s = record s { packet_buffer = Dict.remove s.expected_sequence_number s.packet_buffer }

-- `_drain_contiguous`
unfoldable pub drain_contiguous : ℕ → RtpAdapterConfig → ActiveRtpSource → Outcome × ActiveRtpSource
drain_contiguous zero config s = (Outcome.hangs, s)
drain_contiguous (suc fuel) config s = elim (Dict.get s.expected_sequence_number s.packet_buffer) [
  | none ↦ (continues, note_gap s)
  | some p ↦ and_then (deliver config p (pop_expected s)) (drain_contiguous fuel config)
]

-- Each round takes a packet out.
abbrev pub drain_fuel : ActiveRtpSource → ℕ
drain_fuel s = suc (length s.packet_buffer)

-- `min(state.packet_buffer, key=…)`: the first key at the least distance from `expected`.
unfoldable pub nearest : ℕ → ℕ → Dict ℕ RtpMediaPacket → ℕ
nearest expected best [] = best
nearest expected best ((k, p) ∷ d) =
    nearest expected
      (if ltb (sequence_distance k expected) (sequence_distance best expected) then k else best) d

abbrev pub nearest_key : ℕ → Dict ℕ RtpMediaPacket → ℕ
nearest_key expected [] = expected
nearest_key expected ((k, p) ∷ d) = nearest expected k d

-- Silence for `missing` packets: two bytes for each of 2 * samples_per_packet samples.
abbrev pub fill_gap : ℕ → ActiveRtpSource → ActiveRtpSource
fill_gap missing s =
    let samples = s.start.media_format.samples_per_packet in
    record s {
      missing_sequence_count = s.missing_sequence_count + missing;
      pcm_buffer = s.pcm_buffer ++ replicate (2 * (missing * samples * 2)) 0;
      expected_sequence_number = advance_sequence s.expected_sequence_number missing;
      expected_rtp_timestamp = advance_timestamp s.expected_rtp_timestamp (missing * samples);
    }

-- The part of the loop of `_expire_gap` that gives up on the missing packets.
unfoldable pub skip_missing : RtpAdapterConfig → ℕ → ActiveRtpSource → Outcome × ActiveRtpSource
skip_missing config now s =
    let missing =
      sequence_distance (nearest_key s.expected_sequence_number s.packet_buffer)
        s.expected_sequence_number in
    if missing == 0 || ltb config.max_reorder_packets missing
    then (fails reorder_window_exceeded, s)
    else let s' = fill_gap missing s in
      and_then (emit_complete_chunks (emit_fuel s') config s')
        (λ t. (continues, record t { gap_started_monotonic_seconds = some now }))

-- `now - gap_started < max_jitter_wait`, or no gap noted: the loop waits for the missing packets.
abbrev pub still_waiting : RtpAdapterConfig → ℕ → Option ℕ → Bool
still_waiting config now none = true
still_waiting config now (some t) = ltb now (t + config.max_jitter_wait_seconds)

-- `_expire_gap`
unfoldable pub expire_gap :
    ℕ → RtpAdapterConfig → ℕ → Bool → ActiveRtpSource → Outcome × ActiveRtpSource
expire_gap zero config now force s = (Outcome.hangs, s)
expire_gap (suc fuel) config now force s = elim (is_empty s.packet_buffer) [
  | true ↦ (continues, s)
  | false ↦ elim (Dict.contains s.expected_sequence_number s.packet_buffer) [
    | true ↦ and_then (drain_contiguous (drain_fuel s) config s) (expire_gap fuel config now force)
    | false ↦ elim (not force && still_waiting config now s.gap_started_monotonic_seconds) [
      | true ↦ (continues, s)
      | false ↦ and_then (skip_missing config now s) (expire_gap fuel config now force)
    ]
  ]
]

-- Two rounds for each packet: one that fills the gap before it, and one that takes it out.
abbrev pub expire_fuel : ActiveRtpSource → ℕ
expire_fuel s = 2 * length s.packet_buffer + 2

-- The first fingerprint whose packet is no longer in the buffer.
unfoldable pub removable : Dict ℕ (List ℕ) → Dict ℕ RtpMediaPacket → Option ℕ
removable [] buffer = none
removable ((k, f) ∷ d) buffer = if not (Dict.contains k buffer) then some k else removable d buffer

-- `_trim_fingerprint_history`
unfoldable pub trim_fingerprint_history :
    ℕ → ℕ → Dict ℕ RtpMediaPacket → Dict ℕ (List ℕ) → Dict ℕ (List ℕ)
trim_fingerprint_history zero limit buffer d = d
trim_fingerprint_history (suc fuel) limit buffer d = elim (ltb limit (length d)) [
  | false ↦ d
  | true ↦ elim (removable d buffer) [
    | none ↦ d
    | some k ↦ trim_fingerprint_history fuel limit buffer (Dict.remove k d)
  ]
]
