-- ===== src/Rtp/Tests/Calls.antt =====
-- Runs of single methods of app/audio_ingress/rtp.py: a second source, a drain, a full history, and a
-- source generation of 2^64.
use cma_real_time_coaching.Prelude.{
  ℕ, ◌≤◌, ◌<◌, ◌≡◌, ◌⊎◌, refl, true, none, some, List, [], ◌∷◌, arith, length, nat_eq, string_eq,
  list_eq,
}
use cma_real_time_coaching.Prelude.Dict
use cma_real_time_coaching.Prelude.Dict.{Dict}
use cma_real_time_coaching.Rtp.Types.{
  ScopedRtpControl, RtpMediaStart, RtpMediaPacket, AudioChunkEvent, ActiveRtpSource,
  RtpMediaIngressAdapter, Reply,
}
use cma_real_time_coaching.Rtp.Source
use cma_real_time_coaching.Rtp.Adapter
use cma_real_time_coaching.Rtp.G711
use cma_real_time_coaching.Rtp.Ingress
use cma_real_time_coaching.Rtp.Sequence
use cma_real_time_coaching.Rtp.Lifecycle.{accepts, run, step, drain_audio_chunks}
use cma_real_time_coaching.Rtp.Lifecycle.Drains.{Drains, drain_audio_chunks-Drains}
use cma_real_time_coaching.Rtp.Lifecycle.Generations.{by_start, by_replacement, opened-newer}
use cma_real_time_coaching.Rtp.Ingress.{accept_packet, validate_packet}
use cma_real_time_coaching.Rtp.Ingress.Overflow.{accept_packet-raises}
use cma_real_time_coaching.Rtp.Ingress.History.{trim_fingerprint_history-bound}
use cma_real_time_coaching.Rtp.Source.{removable, trim_fingerprint_history}
use cma_real_time_coaching.Rtp.Tests.{
  no_digest, control_at, opening, packet_at, created, first_packet, blank,
}

abbrev later_control : ScopedRtpControl
later_control = record (control_at 9) { source_generation = 2 }

abbrev later_opening : RtpMediaStart
later_opening = record opening { control = later_control }

opened-newer_example : 1 < 2
unfolding Dict.get Dict.put Dict.remove Dict.contains run step Source.deliver Source.packet_audio
    Source.drain_contiguous Source.emit_complete_chunks Source.expire_gap Source.queue_chunk
    Source.make_chunk Source.flush_final_chunk Source.nearest Source.note_gap Source.removable
    Source.skip_missing Source.trim_fingerprint_history Adapter.diagnostics_of Adapter.fail
    Adapter.initialize Adapter.out_of_scope Adapter.rejection Adapter.result Adapter.start
    Adapter.start_unless_active Adapter.stateless_rejection G711.decode_g711_payload
    G711.pack_samples G711.pack_sample G711.decode_sample G711.decode_mulaw G711.decode_alaw
    G711.upsample_pcm16_8khz_to_16khz G711.duplicate_samples Ingress.packet_fingerprint
    Ingress.to_bytes Ingress.accept_fingerprinted Ingress.accept_known Ingress.accept_new
    Ingress.accept_on Ingress.accept_packet Ingress.accept_valid Ingress.drain_and_expire
    Ingress.finish_accept Ingress.generation_reason Ingress.store_packet Ingress.validate_packet
    Sequence.sequence_distance Sequence.advance_sequence Sequence.advance_timestamp
    Adapter.replace_source Adapter.release_audio_state
opened-newer_example =
    opened-newer no_digest (accepts (some first_packet) ∷ []) created by_start by_replacement
      opening later_opening refl refl

abbrev chunk_at : ℕ → AudioChunkEvent
chunk_at n = record {
  tenant_id = "acme";
  call_id = "call-7";
  sequence_number = n;
  received_at_utc = 0;
  chunk_start_samples = n;
  chunk_duration_samples = 1;
  sample_rate_hz = 16000;
  channel_count = 1;
  codec_name = "pcm_s16le";
  audio_bytes = 0 ∷ 1 ∷ [];
}

abbrev queued : ActiveRtpSource
queued = record blank { output_queue = chunk_at 0 ∷ chunk_at 1 ∷ chunk_at 2 ∷ [] }

abbrev finished : RtpMediaIngressAdapter
finished = record created { completed = some queued }

drain_audio_chunks-Drains_example :
    Drains 2 finished queued (drain_audio_chunks "acme" "call-7" 1 2 finished)
drain_audio_chunks-Drains_example = drain_audio_chunks-Drains 2 finished queued (omega arith) refl

abbrev prints : Dict ℕ (List ℕ)
prints = (1, 10 ∷ []) ∷ (2, 20 ∷ []) ∷ (3, 30 ∷ []) ∷ []

abbrev held_packets : Dict ℕ RtpMediaPacket
held_packets = (1, packet_at 1 1 2) ∷ []

held : Dict.contains 1 held_packets ≡ true
unfolding Dict.contains
held = refl

trim_fingerprint_history-bound_example :
    ((length (trim_fingerprint_history 4 1 held_packets prints) ≤ 1)
      ⊎ (removable (trim_fingerprint_history 4 1 held_packets prints) held_packets ≡ none))
    × (Dict.get 1 (trim_fingerprint_history 4 1 held_packets prints) ≡ Dict.get 1 prints)
trim_fingerprint_history-bound_example =
    trim_fingerprint_history-bound 4 1 held_packets prints 1 (omega arith) held

abbrev huge_control : ScopedRtpControl
huge_control = record (control_at 9) { source_generation = 18446744073709551616 }

abbrev huge_source : ActiveRtpSource
huge_source = record blank { start = record opening { control = huge_control } }

abbrev huge_adapter : RtpMediaIngressAdapter
huge_adapter = record created { active = some huge_source }

abbrev huge_packet : RtpMediaPacket
huge_packet = record first_packet { control = huge_control }

huge_packet_passes : validate_packet huge_adapter huge_source huge_packet ≡ none
unfolding validate_packet Adapter.out_of_scope
huge_packet_passes = refl

accept_packet-raises_example :
    accept_packet no_digest (some huge_packet) huge_adapter ≡ (Reply.raises, huge_adapter)
accept_packet-raises_example =
    accept_packet-raises no_digest huge_adapter huge_source huge_packet refl huge_packet_passes
      (omega arith)
