-- ===== src/Rtp/Ingress.antt =====
-- `accept_packet` of `RTPMediaIngressAdapter` (app/audio_ingress/rtp.py), with `_validate_packet`,
-- `_generation_reason` and `_packet_fingerprint`. SHA-256 is the parameter `sha256`.
pub mod Store
pub mod Total
pub mod Overflow
pub mod History
use cma_real_time_coaching.Prelude.{
  ℕ, zero, suc, ◌+◌, ◌/◌, ◌%◌, ◌^◌, Bool, false, not, ◌||◌, Option, none, some, List, [], ◌∷◌, ◌++◌,
  ◌==◌, ltb, leb, if◌then◌else◌, length, nat_eq, string_eq, list_eq, opt_beq,
}
use cma_real_time_coaching.Prelude.Dict
use cma_real_time_coaching.Rtp.Types.{
  RtpCodec, RtpIngressStatus, RtpIngressReason, RtpMediaPacket, ActiveRtpSource,
  RtpMediaIngressAdapter, Outcome, continues, fails, Reply, codec_beq, or_zero,
}
use cma_real_time_coaching.Rtp.Sequence.{sequence_distance}
use cma_real_time_coaching.Rtp.Source.{
  and_then, drain_contiguous, drain_fuel, expire_gap, expire_fuel, trim_fingerprint_history,
}
use cma_real_time_coaching.Rtp.Adapter.{
  Step, result, stateless_rejection, rejection, fail, out_of_scope, or_else,
}

-- `value.to_bytes(width, "big")`: the digits, highest first, or an error if they do not fit.
pub big_endian : ℕ → ℕ → List ℕ
big_endian zero value = []
big_endian (suc width) value = value / 256 ^ width % 256 ∷ big_endian width value

unfoldable pub to_bytes : ℕ → ℕ → Option (List ℕ)
unfolding big_endian
to_bytes width value = if leb (256 ^ width) value then none else some (big_endian width value)

infixl 5 ◌>>=◌
abbrev ◌>>=◌ : Option (List ℕ) → (List ℕ → Option (List ℕ)) → Option (List ℕ)
none >>= f = none
some b >>= f = f b

-- codec.value.encode("ascii")
abbrev pub codec_name : RtpCodec → List ℕ
codec_name RtpCodec.pcma = b'P' ∷ b'C' ∷ b'M' ∷ b'A' ∷ []
codec_name RtpCodec.pcmu = b'P' ∷ b'C' ∷ b'M' ∷ b'U' ∷ []

-- `_packet_fingerprint`: `none` is the OverflowError of `to_bytes`.
unfoldable pub packet_fingerprint : (List ℕ → List ℕ) → RtpMediaPacket → Option (List ℕ)
packet_fingerprint sha256 p = do
  generation ← to_bytes 8 p.source_generation
  sequence ← to_bytes 2 p.sequence_number
  timestamp ← to_bytes 4 p.rtp_timestamp
  payload_type ← to_bytes 1 p.payload_type
  ssrc ← to_bytes 4 (or_zero p.ssrc)
  some (
      sha256 (
        generation
        ++ sequence
        ++ timestamp
        ++ payload_type
        ++ codec_name p.codec
        ++ ssrc
        ++ p.payload))

-- `_generation_reason`
unfoldable pub generation_reason : Option ActiveRtpSource → ℕ → RtpIngressReason
generation_reason none generation = RtpIngressReason.source_generation_mismatch
generation_reason (some s) generation =
    if ltb generation s.start.source_generation
    then RtpIngressReason.stale_source_generation
    else RtpIngressReason.source_generation_mismatch

-- `_validate_packet`
unfoldable pub validate_packet :
    RtpMediaIngressAdapter → ActiveRtpSource → RtpMediaPacket → Option RtpIngressReason
unfolding out_of_scope generation_reason
validate_packet a s p =
    let format = s.start.media_format in
    if out_of_scope a.config p.control
    then some RtpIngressReason.scope_mismatch
    else if not (p.source_generation == s.start.source_generation)
    then some (generation_reason a.active p.source_generation)
    else if not (p.payload_type == format.payload_type) || not (codec_beq p.codec format.codec)
    then some RtpIngressReason.format_mismatch
    else if not (opt_beq p.ssrc s.start.ssrc)
    then some RtpIngressReason.ssrc_mismatch
    else if not (length p.payload == format.samples_per_packet)
    then some RtpIngressReason.payload_size_mismatch
    else if ltb p.arrival_monotonic_seconds s.last_arrival_monotonic_seconds
    then some RtpIngressReason.arrival_time_regression
    else none

-- The end of `accept_packet`, on the outcome of draining and expiring.
unfoldable pub finish_accept : ℕ → Outcome × ActiveRtpSource → RtpMediaIngressAdapter → Step
finish_accept sequence (continues, s) a =
    if Dict.contains sequence s.packet_buffer
    then result RtpIngressStatus.buffered RtpIngressReason.packet_buffered
        (record a { active = some s })
    else result RtpIngressStatus.accepted RtpIngressReason.packet_accepted
        (record a { active = some s })
finish_accept sequence (fails r, s) a = fail r (record a { active = some s })
finish_accept sequence (Outcome.raises, s) a = (Reply.raises, record a { active = some s })
finish_accept sequence (Outcome.hangs, s) a = (Reply.hangs, record a { active = some s })

-- The source with the packet stored and counted, before draining.
unfoldable pub store_packet :
    RtpMediaIngressAdapter → RtpMediaPacket → List ℕ → ℕ → ActiveRtpSource → ActiveRtpSource
store_packet a p fingerprint distance s =
    let buffer = Dict.put p.sequence_number p s.packet_buffer in
    let fingerprints = Dict.put p.sequence_number fingerprint s.packet_fingerprints in
    record s {
      packet_buffer = buffer;
      packet_fingerprints =
          trim_fingerprint_history (suc (length fingerprints)) a.config.duplicate_history_limit
            buffer fingerprints;
      accepted_packet_count = s.accepted_packet_count + 1;
      latest_arrived_at_utc = p.arrived_at_utc;
      last_arrival_monotonic_seconds = p.arrival_monotonic_seconds;
      reordered_packet_count =
          if ltb 0 distance then s.reordered_packet_count + 1 else s.reordered_packet_count;
      gap_started_monotonic_seconds =
          if ltb 0 distance
          then or_else s.gap_started_monotonic_seconds (some p.arrival_monotonic_seconds)
          else s.gap_started_monotonic_seconds;
    }

-- `_drain_contiguous`, and `_expire_gap` if that did not fail.
unfoldable pub drain_and_expire :
    RtpMediaIngressAdapter → ℕ → Bool → ActiveRtpSource → Outcome × ActiveRtpSource
drain_and_expire a now force s =
    and_then (drain_contiguous (drain_fuel s) a.config s)
      (λ t. expire_gap (expire_fuel t) a.config now force t)

-- The packet is new: its place in the sequence decides.
unfoldable pub accept_new :
    RtpMediaPacket → List ℕ → ActiveRtpSource → RtpMediaIngressAdapter → Step
unfolding finish_accept store_packet drain_and_expire
accept_new p fingerprint s a =
    let distance = sequence_distance p.sequence_number s.expected_sequence_number in
    if leb 32768 distance
    then rejection RtpIngressReason.stale_sequence a
    else if ltb a.config.max_reorder_packets distance
    then rejection RtpIngressReason.reorder_window_exceeded a
    else finish_accept p.sequence_number
        (drain_and_expire a p.arrival_monotonic_seconds false
          (store_packet a p fingerprint distance s))
        a

-- A packet or a fingerprint with this sequence number is known.
unfoldable pub accept_known : List ℕ → List ℕ → ActiveRtpSource → RtpMediaIngressAdapter → Step
accept_known known fingerprint s a =
    if known == fingerprint
    then result RtpIngressStatus.duplicate RtpIngressReason.exact_duplicate (record a {
      active = some (record s { duplicate_packet_count = s.duplicate_packet_count + 1 });
    })
    else rejection RtpIngressReason.conflicting_duplicate a

-- `buffered` and `previous` are what the two dictionaries hold at the sequence number.
unfoldable pub accept_fingerprinted :
    (List ℕ → List ℕ)
    → Option RtpMediaPacket
    → Option (List ℕ)
    → RtpMediaPacket
    → List ℕ
    → ActiveRtpSource
    → RtpMediaIngressAdapter
    → Step
unfolding accept_known accept_new
accept_fingerprinted sha256 (some buffered) previous p fingerprint s a =
    elim (packet_fingerprint sha256 buffered) [
      | none ↦ (Reply.raises, a)
      | some known ↦ accept_known known fingerprint s a
    ]
accept_fingerprinted sha256 none (some previous) p fingerprint s a =
    accept_known previous fingerprint s a
accept_fingerprinted sha256 none none p fingerprint s a = accept_new p fingerprint s a

unfoldable pub accept_valid :
    (List ℕ → List ℕ) → RtpMediaPacket → ActiveRtpSource → RtpMediaIngressAdapter → Step
unfolding accept_fingerprinted
accept_valid sha256 p s a = elim (packet_fingerprint sha256 p) [
  | none ↦ (Reply.raises, a)
  | some fingerprint ↦
      accept_fingerprinted sha256 (Dict.get p.sequence_number s.packet_buffer)
        (Dict.get p.sequence_number s.packet_fingerprints) p fingerprint s a
]

unfoldable pub accept_on :
    (List ℕ → List ℕ) → RtpMediaPacket → Option ActiveRtpSource → RtpMediaIngressAdapter → Step
unfolding accept_valid validate_packet
accept_on sha256 p none a = stateless_rejection RtpIngressReason.start_required a
accept_on sha256 p (some s) a = elim (validate_packet a s p) [
  | some reason ↦ rejection reason a
  | none ↦ accept_valid sha256 p s a
]

-- `accept_packet`: `none` is an object that is no `RTPMediaPacket`.
unfoldable pub accept_packet :
    (List ℕ → List ℕ) → Option RtpMediaPacket → RtpMediaIngressAdapter → Step
unfolding accept_on
accept_packet sha256 none a = rejection RtpIngressReason.malformed_packet a
accept_packet sha256 (some p) a = accept_on sha256 p a.active a
