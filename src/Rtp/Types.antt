-- ===== src/Rtp/Types.antt =====
-- The data of app/audio_ingress/rtp.py: statuses, reasons, controls, packets and the source state.
-- Seconds on the monotonic clock are a number of clock ticks; a duration that the code computes
-- by a division is kept as the two numbers divided.
use cma_real_time_coaching.Prelude.{
  ℕ, ◌≤◌, ◌<◌, ◌^◌, none, some, Bool, true, false, ◌&&◌, Option, List, String, ◌==◌, opt_beq,
  length, All, nat_eq, string_eq,
}
use cma_real_time_coaching.Prelude.Dict.{Dict}

abbrev pub output_sample_rate_hz : ℕ
output_sample_rate_hz = 16000

-- int(16000 * 2.0 * 2)
abbrev pub output_chunk_bytes : ℕ
output_chunk_bytes = 64000

abbrev pub max_rtp_payload_bytes : ℕ
max_rtp_payload_bytes = 4096

pub data RtpCodec : Type 0 where
  pcma pcmu : RtpCodec

pub data RtpIngressStatus : Type 0 where
  started accepted buffered duplicate completed reset rejected overloaded : RtpIngressStatus

pub data RtpIngressReason : Type 0 where
  started packet_accepted packet_buffered exact_duplicate ended duplicate_end reset :
      RtpIngressReason
  start_required active_source_exists stale_source_generation : RtpIngressReason
  source_generation_mismatch scope_mismatch format_mismatch ssrc_mismatch : RtpIngressReason
  malformed_packet payload_size_mismatch arrival_time_regression stale_sequence : RtpIngressReason
  conflicting_duplicate reorder_window_exceeded rtp_timestamp_mismatch : RtpIngressReason
  output_queue_full : RtpIngressReason

abbrev pub codec_beq : RtpCodec → RtpCodec → Bool
codec_beq RtpCodec.pcma RtpCodec.pcma = true
codec_beq RtpCodec.pcmu RtpCodec.pcmu = true
codec_beq _ _ = false

pub record RtpPayloadFormat : Type 0 where
  pub codec : RtpCodec
  pub payload_type : ℕ
  pub samples_per_packet : ℕ

-- The fields that START, media packets and END share.
pub record ScopedRtpControl : Type 0 where
  pub tenant_id : String
  pub call_id : String
  pub source_generation : ℕ
  pub arrival_monotonic_seconds : ℕ
  pub arrived_at_utc : ℕ

pub record RtpMediaStart : Type 0 where
  pub control : ScopedRtpControl
  pub open control use *
  pub media_format : RtpPayloadFormat
  pub initial_sequence_number : ℕ
  pub initial_rtp_timestamp : ℕ
  pub ssrc : Option ℕ

pub record RtpMediaPacket : Type 0 where
  pub control : ScopedRtpControl
  pub open control use *
  pub sequence_number : ℕ
  pub rtp_timestamp : ℕ
  pub payload_type : ℕ
  pub codec : RtpCodec
  pub payload : List ℕ
  pub ssrc : Option ℕ

abbrev pub or_zero : Option ℕ → ℕ
or_zero none = 0
or_zero (some n) = n

-- The bounds that the model's validators put on a packet.
pub record PacketIsValid (p : RtpMediaPacket) : Type 0 where
  pub sequence_bound : p.sequence_number < 65536
  pub timestamp_bound : p.rtp_timestamp < 4294967296
  pub payload_type_bound : p.payload_type ≤ 127
  pub ssrc_bound : or_zero p.ssrc < 4294967296
  pub payload_min : 1 ≤ length p.payload
  pub payload_max : length p.payload ≤ 4096
  pub payload_bytes : All (λ b. b < 256) p.payload

-- The numbers of a packet fit the widths at which `_packet_fingerprint` writes them. Of the source
-- generation no validator bounds the size.
abbrev pub IsPrintable : RtpMediaPacket → Type 0
IsPrintable p =
    (p.source_generation < 2 ^ 64)
    × (p.sequence_number < 65536)
    × (p.rtp_timestamp < 4294967296)
    × (p.payload_type ≤ 127)
    × (or_zero p.ssrc < 4294967296)

-- The bounds of START, those of its media format included.
pub record StartIsValid (c : RtpMediaStart) : Type 0 where
  pub sequence_bound : c.initial_sequence_number < 65536
  pub timestamp_bound : c.initial_rtp_timestamp < 4294967296
  pub payload_type_bound : c.media_format.payload_type ≤ 127
  pub samples_min : 1 ≤ c.media_format.samples_per_packet
  pub samples_max : c.media_format.samples_per_packet ≤ 960

abbrev pub control_beq : ScopedRtpControl → ScopedRtpControl → Bool
control_beq a b =
    a.tenant_id == b.tenant_id
    && a.call_id == b.call_id
    && a.source_generation == b.source_generation
    && a.arrival_monotonic_seconds == b.arrival_monotonic_seconds
    && a.arrived_at_utc == b.arrived_at_utc

abbrev pub format_beq : RtpPayloadFormat → RtpPayloadFormat → Bool
format_beq a b =
    codec_beq a.codec b.codec
    && a.payload_type == b.payload_type
    && a.samples_per_packet == b.samples_per_packet

-- `control == self._active.start`, field by field.
pub start_beq : RtpMediaStart → RtpMediaStart → Bool
start_beq a b =
    control_beq a.control b.control
    && format_beq a.media_format b.media_format
    && a.initial_sequence_number == b.initial_sequence_number
    && a.initial_rtp_timestamp == b.initial_rtp_timestamp
    && opt_beq a.ssrc b.ssrc

-- AudioChunkEvent of app/events/models.py: the start and the duration are counts of samples, to be
-- divided by `sample_rate_hz`.
pub record AudioChunkEvent : Type 0 where
  pub tenant_id : String
  pub call_id : String
  pub sequence_number : ℕ
  pub received_at_utc : ℕ
  pub chunk_start_samples : ℕ
  pub chunk_duration_samples : ℕ
  pub sample_rate_hz : ℕ
  pub channel_count : ℕ
  pub codec_name : String
  pub audio_bytes : List ℕ

pub record RtpIngressDiagnostics : Type 0 where
  pub accepted_packet_count : ℕ
  pub duplicate_packet_count : ℕ
  pub reordered_packet_count : ℕ
  pub missing_sequence_count : ℕ
  pub rejected_packet_count : ℕ
  pub latest_rejection_reason : Option RtpIngressReason
  -- to be divided by the 8000 samples of a second
  pub decoded_pcm_duration_samples : ℕ
  pub emitted_chunk_count : ℕ
  pub packet_buffer_depth : ℕ
  pub output_queue_depth : ℕ

pub record RtpIngressAcceptance : Type 0 where
  pub status : RtpIngressStatus
  pub reason : RtpIngressReason
  pub diagnostics : RtpIngressDiagnostics

-- `_ActiveRTPSource`. A fingerprint is the digest's bytes.
pub record ActiveRtpSource : Type 0 where
  pub start : RtpMediaStart
  pub expected_sequence_number : ℕ
  pub expected_rtp_timestamp : ℕ
  pub last_arrival_monotonic_seconds : ℕ
  pub latest_arrived_at_utc : ℕ
  pub packet_buffer : Dict ℕ RtpMediaPacket
  pub packet_fingerprints : Dict ℕ (List ℕ)
  pub pcm_buffer : List ℕ
  pub output_queue : List AudioChunkEvent
  pub gap_started_monotonic_seconds : Option ℕ
  pub accepted_packet_count : ℕ
  pub duplicate_packet_count : ℕ
  pub reordered_packet_count : ℕ
  pub missing_sequence_count : ℕ
  pub rejected_packet_count : ℕ
  pub latest_rejection_reason : Option RtpIngressReason
  pub decoded_input_sample_count : ℕ
  pub emitted_chunk_count : ℕ
  pub emitted_sample_count : ℕ

-- What `__init__` fixes, its ids stripped.
pub record RtpAdapterConfig : Type 0 where
  pub tenant_id : String
  pub call_id : String
  pub max_reorder_packets : ℕ
  pub max_jitter_wait_seconds : ℕ
  pub max_output_chunks : ℕ
  pub duplicate_history_limit : ℕ

pub record RtpMediaIngressAdapter : Type 0 where
  pub config : RtpAdapterConfig
  pub active : Option ActiveRtpSource
  pub completed : Option ActiveRtpSource
  pub highest_source_generation : Option ℕ
  pub completed_source_generation : Option ℕ

-- How a method on the source ends: `None`, a reason, an exception, or (in the model) no fuel left.
pub data Outcome : Type 0 where
  continues : Outcome
  fails : RtpIngressReason → Outcome
  raises : Outcome
  hangs : Outcome

-- What a call of the adapter gives back.
pub data Reply : Type 0 where
  replies : RtpIngressAcceptance → Reply
  raises : Reply
  hangs : Reply
