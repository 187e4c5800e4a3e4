-- ===== src/Rtp/Invariant.antt =====
-- What holds of one RTP source (app/audio_ingress/rtp.py, `_ActiveRTPSource`) between two calls, and
-- what it means that a method ends well.
pub mod Emit
pub mod Plays
pub mod Drain
pub mod Contiguous
pub mod Gap
pub mod Expire
use cma_real_time_coaching.Prelude.{
  ℕ, zero, suc, ◌+◌, ◌*◌, ◌%◌, ◌≤◌, ◌<◌, ◌≡◌, ◌⊎◌, List, [], ◌∷◌, ◌++◌, length, All, arith, nat_eq,
  is_empty, Option, some, true,
}
use cma_real_time_coaching.Prelude.Dict.{Dict, Distinct}
use cma_real_time_coaching.Rtp.Types.{
  RtpIngressReason, RtpMediaPacket, RtpMediaStart, AudioChunkEvent, ActiveRtpSource,
  RtpAdapterConfig, StartIsValid, IsPrintable, Outcome, continues, fails,
}
use cma_real_time_coaching.Rtp.Sequence.{sequence_distance}
use cma_real_time_coaching.Rtp.Source.{and_then}

-- The chunks are numbered from `n` to `m` and their samples from `t` to `u`, with no gap or
-- overlap, and each has the two bytes of each of its samples, at least one.
abbrev pub Timeline : ℕ → ℕ → List AudioChunkEvent → ℕ → ℕ → Type 0
Timeline n t [] m u = (n ≡ m) × (t ≡ u)
Timeline n t (c ∷ cs) m u =
    (c.sequence_number ≡ n)
    × (c.chunk_start_samples ≡ t)
    × (1 ≤ c.chunk_duration_samples)
    × (length c.audio_bytes ≡ 2 * c.chunk_duration_samples)
    × Timeline (n + 1) (t + c.chunk_duration_samples) cs m u

pub Timeline-snoc :
    (n t : ℕ) (cs : List AudioChunkEvent) (m u : ℕ) (c : AudioChunkEvent)
    → Timeline n t cs m u
    → c.sequence_number ≡ m
    → c.chunk_start_samples ≡ u
    → 1 ≤ c.chunk_duration_samples
    → length c.audio_bytes ≡ 2 * c.chunk_duration_samples
    → Timeline n t (cs ++ c ∷ []) (m + 1) (u + c.chunk_duration_samples)
Timeline-snoc n t [] m u c (a, b) p q r l =
    (omega arith, omega arith, r, l, (omega arith, omega arith))
Timeline-snoc n t (x ∷ cs) m u c h p q r l =
    (h.0, h.1, h.2, h.3, Timeline-snoc (n + 1) (t + x.chunk_duration_samples) cs m u c h.4 p q r l)

-- An entry of the reorder buffer: under its own number, with the payload that the format asks for.
abbrev pub Stored : RtpMediaStart → ℕ × RtpMediaPacket → Type 0
Stored c (k, p) =
    (p.sequence_number ≡ k)
    × (k < 65536)
    × (length p.payload ≡ c.media_format.samples_per_packet)
    × All (λ b. b < 256) p.payload
    × IsPrintable p

-- At most `max_reorder_packets` ahead of the expected number.
abbrev pub Near : RtpAdapterConfig → ℕ → ℕ × RtpMediaPacket → Type 0
Near config expected (k, p) = sequence_distance k expected ≤ config.max_reorder_packets

-- The accounts of a source: samples and bytes, the media clock, the packets, the sequence numbers.
pub record Accounts (s : ActiveRtpSource) : Type 0 where
  pub samples :
      4
        * (s.decoded_input_sample_count
            + s.missing_sequence_count * s.start.media_format.samples_per_packet)
      ≡ 2 * s.emitted_sample_count + length s.pcm_buffer
  pub clock :
      s.expected_rtp_timestamp
      ≡ (s.start.initial_rtp_timestamp
          + s.decoded_input_sample_count
          + s.missing_sequence_count * s.start.media_format.samples_per_packet)
        % 4294967296
  pub packets :
      s.decoded_input_sample_count
        + length s.packet_buffer * s.start.media_format.samples_per_packet
      ≡ s.accepted_packet_count * s.start.media_format.samples_per_packet
  pub sequence :
      (s.expected_sequence_number + length s.packet_buffer) % 65536
      ≡ (s.start.initial_sequence_number + s.accepted_packet_count + s.missing_sequence_count)
        % 65536
  pub sequence_bound : s.expected_sequence_number < 65536

-- What the methods keep, also between two rounds of a loop.
pub record IsSound (config : RtpAdapterConfig) (s : ActiveRtpSource) : Type 0 where
  pub format : StartIsValid s.start
  pub accounts : Accounts s
  pub queue_bound : length s.output_queue ≤ config.max_output_chunks
  pub first_number : ℕ
  pub first_sample : ℕ
  pub timeline :
      Timeline first_number first_sample s.output_queue s.emitted_chunk_count s.emitted_sample_count
  pub stored : All (Stored s.start) s.packet_buffer
  pub distinct : Distinct s.packet_buffer
  pub near : All (Near config s.expected_sequence_number) s.packet_buffer

-- A source with other times of arrival, gap, fingerprints and counters of what is no audio.
abbrev pub touched :
    ActiveRtpSource
    → ℕ
    → ℕ
    → Option ℕ
    → Dict ℕ (List ℕ)
    → ℕ
    → ℕ
    → Option RtpIngressReason
    → ActiveRtpSource
touched s arrival utc gap fingerprints duplicates rejected reason = record s {
  last_arrival_monotonic_seconds = arrival;
  latest_arrived_at_utc = utc;
  gap_started_monotonic_seconds = gap;
  packet_fingerprints = fingerprints;
  duplicate_packet_count = duplicates;
  rejected_packet_count = rejected;
  latest_rejection_reason = reason;
}

pub touched-IsSound :
    (config : RtpAdapterConfig) (s : ActiveRtpSource) (arrival utc : ℕ) (gap : Option ℕ)
    (fingerprints : Dict ℕ (List ℕ)) (duplicates rejected : ℕ) (reason : Option RtpIngressReason)
    → IsSound config s
    → IsSound config (touched s arrival utc gap fingerprints duplicates rejected reason)
touched-IsSound config s arrival utc gap fingerprints duplicates rejected reason v = record {
  format = v.format;
  accounts = record {
    samples = v.accounts.samples;
    clock = v.accounts.clock;
    packets = v.accounts.packets;
    sequence = v.accounts.sequence;
    sequence_bound = v.accounts.sequence_bound;
  };
  queue_bound = v.queue_bound;
  first_number = v.first_number;
  first_sample = v.first_sample;
  timeline = v.timeline;
  stored = v.stored;
  distinct = v.distinct;
  near = v.near;
}

-- While packets wait in the buffer, the time is noted since when they do.
abbrev pub GapNoted : ActiveRtpSource → Type 0
GapNoted s =
    (is_empty s.packet_buffer ≡ true) ⊎ ((t : ℕ) × (s.gap_started_monotonic_seconds ≡ some t))

-- The two ways in which a source of valid packets is given up.
abbrev pub GivesUp : RtpIngressReason → Type 0
GivesUp r = (r ≡ RtpIngressReason.output_queue_full) ⊎ (r ≡ RtpIngressReason.rtp_timestamp_mismatch)

-- The method ends, raises nothing, and leaves a source with `P` or gives the source up.
abbrev pub Ends : (ActiveRtpSource → Type 0) → Outcome × ActiveRtpSource → Type 0
Ends P (continues, s) = P s
Ends P (fails r, s) = GivesUp r
Ends P (Outcome.raises, s) = ⊥
Ends P (Outcome.hangs, s) = ⊥

-- The rest of a method may rely on what holds after its first part.
pub Ends-and_then :
    (P Q : ActiveRtpSource → Type 0) (m : Outcome × ActiveRtpSource)
    (rest : ActiveRtpSource → Outcome × ActiveRtpSource)
    → Ends P m
    → ((s : ActiveRtpSource) → P s → Ends Q (rest s))
    → Ends Q (and_then m rest)
Ends-and_then P Q (continues, s) rest h k = k s h
Ends-and_then P Q (fails r, s) rest h k = h
Ends-and_then P Q (Outcome.raises, s) rest h k = h
Ends-and_then P Q (Outcome.hangs, s) rest h k = h

pub Ends-map :
    (P Q : ActiveRtpSource → Type 0) (m : Outcome × ActiveRtpSource)
    → Ends P m
    → ((s : ActiveRtpSource) → P s → Q s)
    → Ends Q m
Ends-map P Q (continues, s) h k = k s h
Ends-map P Q (fails r, s) h k = h
Ends-map P Q (Outcome.raises, s) h k = h
Ends-map P Q (Outcome.hangs, s) h k = h
