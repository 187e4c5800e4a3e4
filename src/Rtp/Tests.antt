-- ===== src/Rtp/Tests.antt =====
-- Runs of the adapter of app/audio_ingress/rtp.py on one small call: two samples in a packet, numbers
-- that wrap around, and a packet that comes before the one it follows.
mod Calls
use cma_real_time_coaching.Prelude.{
  ltb, ℕ, ◌≡◌, refl, Option, none, some, List, [], ◌∷◌, String, arith, length, inl, inr, All, ◌+◌,
  ◌*◌, ◌/◌, ◌≤◌, ◌<◌, map, replicate, length-replicate, is_empty, nat_eq, string_eq, list_eq, false,
  true,
}
use cma_real_time_coaching.Prelude.Dict
use cma_real_time_coaching.Rtp.Source
use cma_real_time_coaching.Rtp.Adapter
use cma_real_time_coaching.Rtp.G711
use cma_real_time_coaching.Rtp.Ingress
use cma_real_time_coaching.Rtp.Sequence
use cma_real_time_coaching.Rtp.Types.{
  RtpCodec, RtpPayloadFormat, ScopedRtpControl, RtpMediaStart, RtpMediaPacket, StartIsValid,
  PacketIsValid, IsPrintable, ActiveRtpSource, RtpAdapterConfig, RtpMediaIngressAdapter,
}
use cma_real_time_coaching.Rtp.Adapter.{new, initialize, out_of_scope}
use cma_real_time_coaching.Rtp.Lifecycle.{Call, starts, accepts, run, step, at, advance, end}
use cma_real_time_coaching.Rtp.Ingress.{accept_packet}
use cma_real_time_coaching.Rtp.Lifecycle.Order.{InOrder, IsValidCall, source-InOrder}
use cma_real_time_coaching.Rtp.Lifecycle.Run.{run-new-InOrder}
use cma_real_time_coaching.Rtp.Ingress.Store.{IsReady}
use cma_real_time_coaching.Rtp.Ingress.Total.{Handled, with_packet, accept_packet-Handled}
use cma_real_time_coaching.Rtp.Lifecycle.Advance.{advance-Handled}
use cma_real_time_coaching.Rtp.Lifecycle.End.{Ended, end-Ended}
use cma_real_time_coaching.Rtp.Invariant.{Ends}
use cma_real_time_coaching.Rtp.Invariant.Emit.{Done, emit_complete_chunks-Ends}
use cma_real_time_coaching.Rtp.Invariant.Contiguous.{Drained, drain_contiguous-Ends}
use cma_real_time_coaching.Rtp.Invariant.Gap.{Skipped, skip_missing-Ends}
use cma_real_time_coaching.Rtp.Invariant.Expire.{Expired, expire_gap-Ends}
use cma_real_time_coaching.Rtp.Sequence.{sequence_distance, advance_sequence, advance-distance}
use cma_real_time_coaching.Rtp.G711.{
  decode_sample, decode_mulaw, decode_alaw, decode_g711_payload, upsample_pcm16_8khz_to_16khz,
}
use cma_real_time_coaching.Rtp.G711.Samples.{
  on_line, mulaw_magnitude, alaw_segment, decode_sample-bounds, decode_mulaw-companding,
  decode_alaw-companding,
}
use cma_real_time_coaching.Rtp.G711.Payload.{samples_of, twice, packet_pcm}
use cma_real_time_coaching.Prelude.Int.{pos, pos_part, neg_part, ◌-ℤ◌, ltb_ℤ}

abbrev settings : RtpAdapterConfig
settings = record {
  tenant_id = "acme";
  call_id = "call-7";
  max_reorder_packets = 2;
  max_jitter_wait_seconds = 5;
  max_output_chunks = 4;
  duplicate_history_limit = 8;
}

abbrev kept_whole : String → String
kept_whole s = s

abbrev no_digest : List ℕ → List ℕ
no_digest b = b

abbrev control_at : ℕ → ScopedRtpControl
control_at t = record {
  tenant_id = "acme";
  call_id = "call-7";
  source_generation = 1;
  arrival_monotonic_seconds = t;
  arrived_at_utc = t;
}

abbrev opening : RtpMediaStart
opening = record {
  control = control_at 0;
  media_format = record { codec = RtpCodec.pcmu; payload_type = 0; samples_per_packet = 2 };
  initial_sequence_number = 65535;
  initial_rtp_timestamp = 4294967294;
  ssrc = none;
}

abbrev packet_at : ℕ → ℕ → ℕ → RtpMediaPacket
packet_at t sequence timestamp = record {
  control = control_at t;
  sequence_number = sequence;
  rtp_timestamp = timestamp;
  payload_type = 0;
  codec = RtpCodec.pcmu;
  payload = 255 ∷ 0 ∷ [];
  ssrc = none;
}

abbrev created : RtpMediaIngressAdapter
created = record {
  config = settings;
  active = none;
  completed = none;
  highest_source_generation = none;
  completed_source_generation = none;
}

abbrev first_packet : RtpMediaPacket
first_packet = packet_at 1 65535 4294967294

abbrev late_packet : RtpMediaPacket
late_packet = packet_at 3 0 0

abbrev early_packet : RtpMediaPacket
early_packet = packet_at 2 1 2

abbrev calls : List Call
calls = starts opening ∷ accepts (some first_packet) ∷ accepts (some early_packet) ∷ []

opening-StartIsValid : StartIsValid opening
opening-StartIsValid = record {
  sequence_bound = omega arith;
  timestamp_bound = omega arith;
  payload_type_bound = omega arith;
  samples_min = omega arith;
  samples_max = omega arith;
}

first_packet-PacketIsValid : PacketIsValid first_packet
first_packet-PacketIsValid = record {
  sequence_bound = omega arith;
  timestamp_bound = omega arith;
  payload_type_bound = omega arith;
  ssrc_bound = omega arith;
  payload_min = omega arith;
  payload_max = omega arith;
  payload_bytes = (omega arith, (omega arith, tt));
}

early_packet-PacketIsValid : PacketIsValid early_packet
early_packet-PacketIsValid = record {
  sequence_bound = omega arith;
  timestamp_bound = omega arith;
  payload_type_bound = omega arith;
  ssrc_bound = omega arith;
  payload_min = omega arith;
  payload_max = omega arith;
  payload_bytes = (omega arith, (omega arith, tt));
}

late_packet-PacketIsValid : PacketIsValid late_packet
late_packet-PacketIsValid = record {
  sequence_bound = omega arith;
  timestamp_bound = omega arith;
  payload_type_bound = omega arith;
  ssrc_bound = omega arith;
  payload_min = omega arith;
  payload_max = omega arith;
  payload_bytes = (omega arith, (omega arith, tt));
}

calls-AreValid : All IsValidCall calls
calls-AreValid = (
  opening-StartIsValid,
  (
    (first_packet-PacketIsValid, (omega arith, omega arith, omega arith, omega arith, omega arith)),
    (
      (
        early_packet-PacketIsValid,
        (omega arith, omega arith, omega arith, omega arith, omega arith),
      ),
      tt,
    ),
  ),
)

created_lem : new kept_whole settings ≡ some created
unfolding new
created_lem = refl

run-new-InOrder_example : InOrder (run no_digest calls created)
run-new-InOrder_example =
    run-new-InOrder kept_whole no_digest settings created calls created_lem calls-AreValid

abbrev source_or : ActiveRtpSource → Option ActiveRtpSource → ActiveRtpSource
source_or s none = s
source_or s (some t) = t

abbrev blank : ActiveRtpSource
blank = record {
  start = opening;
  expected_sequence_number = 0;
  expected_rtp_timestamp = 0;
  last_arrival_monotonic_seconds = 0;
  latest_arrived_at_utc = 0;
  packet_buffer = [];
  packet_fingerprints = [];
  pcm_buffer = [];
  output_queue = [];
  gap_started_monotonic_seconds = none;
  accepted_packet_count = 0;
  duplicate_packet_count = 0;
  reordered_packet_count = 0;
  missing_sequence_count = 0;
  rejected_packet_count = 0;
  latest_rejection_reason = none;
  decoded_input_sample_count = 0;
  emitted_chunk_count = 0;
  emitted_sample_count = 0;
}

abbrev waiting : RtpMediaIngressAdapter
waiting = run no_digest calls created

abbrev waiting_source : ActiveRtpSource
waiting_source = source_or blank waiting.active

-- The packet 1 waits, while 0 is expected.
waiting_source_lem :
    (waiting.active ≡ some waiting_source)
    × (length waiting_source.packet_buffer ≡ 1)
    × (out_of_scope waiting.config (control_at 4) ≡ false)
    × (1 ≡ waiting_source.start.source_generation)
    × (waiting_source.last_arrival_monotonic_seconds ≤ 4)
    × (Dict.contains waiting_source.expected_sequence_number waiting_source.packet_buffer ≡ false)
    × (is_empty waiting_source.packet_buffer ≡ false)
unfolding Dict.get Dict.put Dict.remove Dict.contains run step Source.deliver Source.packet_audio
    Source.drain_contiguous Source.emit_complete_chunks Source.expire_gap Source.queue_chunk
    Source.make_chunk Source.flush_final_chunk Source.nearest Source.note_gap Source.removable
    Source.skip_missing Source.trim_fingerprint_history Adapter.diagnostics_of Adapter.fail
    Adapter.initialize Adapter.out_of_scope Adapter.rejection Adapter.result Adapter.start
    Adapter.start_unless_active Adapter.stateless_rejection G711.decode_g711_payload
    G711.pack_samples G711.pack_sample G711.decode_sample G711.decode_mulaw G711.decode_alaw
    G711.upsample_pcm16_8khz_to_16khz G711.duplicate_samples Ingress.packet_fingerprint
    Ingress.to_bytes Ingress.accept_fingerprinted Ingress.accept_known Ingress.accept_new
    Ingress.accept_on Ingress.accept_packet Ingress.accept_valid Ingress.drain_and_expire
    Ingress.finish_accept Ingress.generation_reason Ingress.store_packet Ingress.validate_packet
    Sequence.sequence_distance Sequence.advance_sequence Sequence.advance_timestamp
waiting_source_lem = (refl, refl, refl, refl, omega arith, refl, refl)

waiting_source-IsReady : IsReady waiting.config waiting_source
waiting_source-IsReady =
    source-InOrder waiting waiting_source_lem.0
      (run-new-InOrder kept_whole no_digest settings created calls created_lem calls-AreValid)

few_packets : 2 * length waiting_source.packet_buffer + 1 < 4
few_packets = omega (arith, waiting_source_lem.1)

one_packet : length waiting_source.packet_buffer < 2
one_packet = omega (arith, waiting_source_lem.1)

accept_packet-Handled_example :
    Handled waiting
      (with_packet waiting late_packet [] 0 waiting_source)
      waiting_source
      (accept_packet no_digest (some late_packet) waiting)
accept_packet-Handled_example =
    accept_packet-Handled no_digest waiting waiting_source late_packet waiting_source_lem.0
      waiting_source-IsReady late_packet-PacketIsValid
      (omega arith, omega arith, omega arith, omega arith, omega arith)

advance-Handled_example :
    Handled waiting waiting_source.packet_buffer waiting_source (advance (at 9) waiting)
advance-Handled_example =
    advance-Handled waiting waiting_source waiting_source_lem.0 waiting_source-IsReady (at 9)

end-Ended_example : Ended waiting waiting_source (end (control_at 4) waiting)
end-Ended_example =
    end-Ended waiting waiting_source (control_at 4) waiting_source_lem.0 waiting_source-IsReady
      waiting_source_lem.2 waiting_source_lem.3 waiting_source_lem.4

expire_gap-Ends_example :
    Ends
      (Expired waiting.config 9 true waiting_source)
      (Source.expire_gap 4 waiting.config 9 true waiting_source)
expire_gap-Ends_example =
    expire_gap-Ends waiting.config 9 true 4 waiting_source (inr few_packets)
      waiting_source-IsReady.sound waiting_source-IsReady.small waiting_source-IsReady.noted

skip_missing-Ends_example :
    Ends
      (Skipped waiting.config waiting_source waiting_source-IsReady.sound waiting_source_lem.5
        waiting_source_lem.6)
      (Source.skip_missing waiting.config 9 waiting_source)
skip_missing-Ends_example =
    skip_missing-Ends waiting.config waiting_source waiting_source-IsReady.sound
      waiting_source_lem.5 waiting_source_lem.6 9

drain_contiguous-Ends_example :
    Ends
      (Drained waiting.config 0 waiting_source)
      (Source.drain_contiguous 2 waiting.config waiting_source)
drain_contiguous-Ends_example =
    drain_contiguous-Ends waiting.config 2 waiting_source one_packet waiting_source-IsReady.sound
      waiting_source-IsReady.small

abbrev zero_byte : ℕ
zero_byte = 0

abbrev long_audio : ActiveRtpSource
long_audio = record blank { pcm_buffer = replicate 64001 zero_byte }

long_audio_lem : length long_audio.pcm_buffer / 64000 < 2
long_audio_lem = omega (arith, length-replicate {0} 64001 zero_byte)

emit_complete_chunks-Ends_example :
    Ends (Done settings long_audio) (Source.emit_complete_chunks 2 settings long_audio)
emit_complete_chunks-Ends_example =
    emit_complete_chunks-Ends settings 2 long_audio long_audio_lem (omega arith)

packet_pcm_example :
    (pcm : List ℕ) × (out : List ℕ) × (decode_g711_payload RtpCodec.pcma (213 ∷ 42 ∷ []) ≡ some pcm)
    × (upsample_pcm16_8khz_to_16khz pcm ≡ some out)
    × (length out ≡ 8)
    × (samples_of out ≡ twice (map (decode_sample RtpCodec.pcma) (213 ∷ 42 ∷ [])))
packet_pcm_example =
    packet_pcm RtpCodec.pcma (213 ∷ 42 ∷ []) (omega arith, (omega arith, tt)) (omega arith)
      (omega arith)

decode_sample-bounds_example :
    (pos_part (decode_sample RtpCodec.pcmu 0) ≤ 32767)
    × (neg_part (decode_sample RtpCodec.pcmu 0) ≤ 32767)
decode_sample-bounds_example = decode_sample-bounds RtpCodec.pcmu 0 (omega arith)

decode_mulaw-companding_example :
    (ltb_ℤ (decode_mulaw 3) (decode_mulaw 127) ≡ ltb 3 127)
    × (decode_mulaw 3 ≡ pos 0 -ℤ pos (mulaw_magnitude 3))
    × (decode_mulaw 131 ≡ pos 0 -ℤ decode_mulaw 3)
decode_mulaw-companding_example = decode_mulaw-companding 3 127 (omega arith) (omega arith)

decode_alaw-companding_example :
    (ltb_ℤ (decode_alaw (on_line 131)) (decode_alaw (on_line 255)) ≡ ltb 3 127)
    × (decode_alaw (on_line 3) ≡ pos 0 -ℤ pos (alaw_segment 3))
    × (decode_alaw (on_line 131) ≡ pos 0 -ℤ decode_alaw (on_line 3))
decode_alaw-companding_example = decode_alaw-companding 3 127 (omega arith) (omega arith)

advance-distance_example :
    (advance_sequence 65530 (sequence_distance 4 65530) ≡ 4)
    × (sequence_distance (advance_sequence 65530 12) 65530 ≡ 12)
advance-distance_example = advance-distance 4 65530 12 (omega arith) (omega arith) (omega arith)
