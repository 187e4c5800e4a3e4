-- ===== src/Rtp/Ingress/Total.antt =====
-- `accept_packet` on an adapter whose source is in order: it answers, keeps the source in order, and
-- what it puts out is the audio of packets in sequence, with silence for those given up.
use Prim.Native.Nat.{◌^◌}
use cma_real_time_coaching.Prelude.{
  ℕ, ◌+◌, ◌<◌, ◌≡◌, refl, sym, ap, ◌⊎◌, inl, inr, false, Bool-cases, Option, some, none, List, [],
  ◌++◌, ◌==◌, length, arith, nat_eq, list_eq, ltb, leb, ltb-false, Option-cases, subst, append-nil,
}
use cma_real_time_coaching.Prelude.Dict
use cma_real_time_coaching.Prelude.Dict.{Dict, All-get, get-contains}
use cma_real_time_coaching.Rtp.Types.{
  RtpMediaPacket, ActiveRtpSource, RtpAdapterConfig, RtpMediaIngressAdapter, RtpIngressReason,
  RtpIngressStatus, PacketIsValid, IsPrintable, Outcome, continues, fails, Reply, replies, or_zero,
}
use cma_real_time_coaching.Rtp.Sequence.{sequence_distance}
use cma_real_time_coaching.Rtp.Adapter.{Step, result, rejection, fail, note_rejection, map_source}
use cma_real_time_coaching.Rtp.Invariant.{Stored, GivesUp, Ends}
use cma_real_time_coaching.Rtp.Invariant.Plays.{Slot, Follows, render, samples_of_packet}
use cma_real_time_coaching.Rtp.Invariant.Emit.{stream}
use cma_real_time_coaching.Rtp.Invariant.Expire.{Expired}
use cma_real_time_coaching.Rtp.Ingress.{
  to_bytes, big_endian, codec_name, packet_fingerprint, validate_packet, store_packet,
  finish_accept, accept_new, accept_known, accept_fingerprinted, accept_valid, accept_on,
  accept_packet,
}
use cma_real_time_coaching.Rtp.Ingress.Store.{
  IsReady, recount-IsReady, store_packet-IsSound, drain_and_expire-Ends,
}

-- The call returns: it raises nothing, and its loops end.
abbrev pub Answers : Reply → Type 0
Answers (replies r) = Unit
Answers Reply.raises = ⊥
Answers Reply.hangs = ⊥

abbrev pub reason_of : Reply → Option RtpIngressReason
reason_of (replies r) = some r.reason
reason_of Reply.raises = none
reason_of Reply.hangs = none

-- From `s` to `t` the stream of audio has grown by packets of `d`, in sequence, and by silence.
pub record Heard (config : RtpAdapterConfig) (d : Dict ℕ RtpMediaPacket) (s t : ActiveRtpSource)
    : Type 0 where
  pub slots : List Slot
  pub follows :
      Follows d
        (samples_of_packet s)
        config.max_reorder_packets
        s.expected_sequence_number
        s.expected_rtp_timestamp
        slots
        t.expected_sequence_number
        t.expected_rtp_timestamp
  pub output : stream t ≡ stream s ++ render (samples_of_packet s) slots

-- A call on an adapter with the source `s` has answered. The source goes on, in order; or it has been
-- given up, for a full queue or a wrong timestamp, as the reply says.
pub record Handled (a : RtpMediaIngressAdapter) (d : Dict ℕ RtpMediaPacket) (s : ActiveRtpSource)
    (r : Step) : Type 0 where
  pub answers : Answers r.0
  pub same_config : r.1.config ≡ a.config
  pub source :
      ((t : ActiveRtpSource) × (r.1.active ≡ some t) × IsReady a.config t × Heard a.config d s t)
      ⊎ ((r.1.active ≡ none) × (x : RtpIngressReason) × GivesUp x × (reason_of r.0 ≡ some x))

-- `to_bytes` raises nothing on a number that fits.
to_bytes_fits :
    (width value : ℕ) → value < 256 ^ width → (b : List ℕ) × (to_bytes width value ≡ some b)
unfolding to_bytes
to_bytes_fits width value h = elim (Bool-cases (leb (256 ^ width) value)) [
  | inl big ↦ absurd (ground arith)
  | inr small ↦ (big_endian width value, rw small)
]

module _ (sha256 : List ℕ → List ℕ) where
  pub packet_fingerprint_lem :
      (p : RtpMediaPacket) → IsPrintable p → (f : List ℕ) × (packet_fingerprint sha256 p ≡ some f)
  unfolding packet_fingerprint
  packet_fingerprint_lem p (g, s, t, y, r) =
      let (b0, e0) = to_bytes_fits 8 p.source_generation (omega (arith, g)) in
      let (b1, e1) = to_bytes_fits 2 p.sequence_number (omega (arith, s)) in
      let (b2, e2) = to_bytes_fits 4 p.rtp_timestamp (omega (arith, t)) in
      let (b3, e3) = to_bytes_fits 1 p.payload_type (omega (arith, y)) in
      let (b4, e4) = to_bytes_fits 4 (or_zero p.ssrc) (omega (arith, r)) in
      (
        sha256 (b0 ++ b1 ++ b2 ++ b3 ++ codec_name p.codec ++ b4 ++ p.payload),
        rw (e0, e1, e2, e3, e4),
      )

-- The ways in which a call leaves an active source.
module _ (a : RtpMediaIngressAdapter) (d : Dict ℕ RtpMediaPacket) (s : ActiveRtpSource)
    (v : IsReady a.config s) where
  -- A source that differs in the counters of duplicates and rejections has put out nothing.
  counted-Heard :
      (n m : ℕ) (r : Option RtpIngressReason)
      → Heard a.config d s (record s {
        duplicate_packet_count = n;
        rejected_packet_count = m;
        latest_rejection_reason = r;
      })
  counted-Heard n m r = record {
    slots = [];
    follows = (refl, refl);
    output = sym (append-nil (stream s));
  }

  pub rejection-Handled : a.active ≡ some s → (x : RtpIngressReason) → Handled a d s (rejection x a)
  unfolding rejection
  rejection-Handled active x = record {
    answers = tt;
    same_config = refl;
    source = inl (
      note_rejection x s,
      ap (map_source (note_rejection x)) active,
      recount-IsReady a.config s s.duplicate_packet_count (s.rejected_packet_count + 1) (some x) v,
      counted-Heard s.duplicate_packet_count (s.rejected_packet_count + 1) (some x),
    );
  }

  pub accept_known-Handled :
      a.active ≡ some s
      → (known fingerprint : List ℕ) → Handled a d s (accept_known known fingerprint s a)
  unfolding accept_known result
  accept_known-Handled active known fingerprint = elim (Bool-cases (known == fingerprint)) [
    | inl same ↦ rw same (record {
      answers = tt;
      same_config = refl;
      source = inl (
        _,
        refl,
        recount-IsReady a.config s (s.duplicate_packet_count + 1) s.rejected_packet_count
            s.latest_rejection_reason v,
        counted-Heard (s.duplicate_packet_count + 1) s.rejected_packet_count
            s.latest_rejection_reason,
      );
    })
    | inr other ↦ rw other (rejection-Handled active RtpIngressReason.conflicting_duplicate)
  ]

-- The end of `accept_packet`, after a new packet has been stored.
module _ (a : RtpMediaIngressAdapter) (p : RtpMediaPacket) (fingerprint : List ℕ) (distance : ℕ)
    (s : ActiveRtpSource) where
  abbrev stored_source : ActiveRtpSource
  stored_source = store_packet a p fingerprint distance s

  abbrev pub with_packet : Dict ℕ RtpMediaPacket
  with_packet = Dict.put p.sequence_number p s.packet_buffer

  going_on :
      (status : RtpIngressStatus) (reason : RtpIngressReason) (now : ℕ) (t : ActiveRtpSource)
      → Expired a.config now false stored_source t
      → Handled a with_packet s (result status reason (record a { active = some t }))
  unfolding store_packet result
  going_on status reason now t e = record {
    answers = tt;
    same_config = refl;
    source = inl (
      t,
      refl,
      record { sound = e.kept.sound; small = e.kept.small; noted = e.noted },
      record {
        slots = e.kept.plays.slots;
        follows = e.kept.plays.follows;
        output = e.kept.plays.output;
      },
    );
  }

  finish_accept-Handled :
      (now : ℕ) (m : Outcome × ActiveRtpSource)
      → Ends (Expired a.config now false stored_source) m
      → Handled a with_packet s (finish_accept p.sequence_number m a)
  unfolding finish_accept fail
  finish_accept-Handled now (continues, t) e =
      elim (Bool-cases (Dict.contains p.sequence_number t.packet_buffer)) [
        | inl held ↦
            rw held (going_on RtpIngressStatus.buffered RtpIngressReason.packet_buffered now t e)
        | inr gone ↦
            rw gone (going_on RtpIngressStatus.accepted RtpIngressReason.packet_accepted now t e)
      ]
  finish_accept-Handled now (fails x, t) e = record {
    answers = tt;
    same_config = refl;
    source = inr (refl, x, e, refl);
  }
  finish_accept-Handled now (Outcome.raises, t) e = absurd e
  finish_accept-Handled now (Outcome.hangs, t) e = absurd e

validate_packet-size :
    (a : RtpMediaIngressAdapter) (s : ActiveRtpSource) (p : RtpMediaPacket)
    → validate_packet a s p ≡ none
    → length p.payload ≡ s.start.media_format.samples_per_packet
unfolding validate_packet
validate_packet-size a s p h = ground arith

module _ (sha256 : List ℕ → List ℕ) (a : RtpMediaIngressAdapter) (s : ActiveRtpSource)
    (p : RtpMediaPacket) (active : a.active ≡ some s) (v : IsReady a.config s)
    (valid : PacketIsValid p) (printable : IsPrintable p) where
  abbrev buffer_after : Dict ℕ RtpMediaPacket
  buffer_after = Dict.put p.sequence_number p s.packet_buffer

  refused : (x : RtpIngressReason) → Handled a buffer_after s (rejection x a)
  refused = rejection-Handled a buffer_after s v active

  accept_new-Handled :
      (fingerprint : List ℕ)
      → length p.payload ≡ s.start.media_format.samples_per_packet
      → Dict.get p.sequence_number s.packet_buffer ≡ none
      → Handled a buffer_after s (accept_new p fingerprint s a)
  unfolding accept_new
  accept_new-Handled fingerprint size new = elim (Bool-cases (leb 32768 distance)) [
    | inl old ↦ rw (old, accept_new) (refused RtpIngressReason.stale_sequence)
    | inr ahead ↦ elim (Bool-cases (ltb a.config.max_reorder_packets distance)) [
      | inl far ↦ rw (ahead, far, accept_new) (refused RtpIngressReason.reorder_window_exceeded)
      | inr near ↦
          rw (ahead, near, accept_new)
            (finish_accept-Handled a p fingerprint distance s p.arrival_monotonic_seconds _ (
              drain_and_expire-Ends a p.arrival_monotonic_seconds false
                (store_packet a p fingerprint distance s)
                (store_packet-IsSound a p fingerprint distance s v.sound new valid printable size
                  (ltb-false _ _ near))
                v.small))
    ]
  ]
    where
      distance : ℕ
      distance = sequence_distance p.sequence_number s.expected_sequence_number

  accept_fingerprinted-Handled :
      (buffered : Option RtpMediaPacket) (previous : Option (List ℕ)) (fingerprint : List ℕ)
      → length p.payload ≡ s.start.media_format.samples_per_packet
      → Dict.get p.sequence_number s.packet_buffer ≡ buffered
      → Handled a buffer_after s (accept_fingerprinted sha256 buffered previous p fingerprint s a)
  unfolding accept_fingerprinted
  accept_fingerprinted-Handled (some b) previous fingerprint size e =
      let own = All-get (Stored s.start) p.sequence_number s.packet_buffer b v.sound.stored e in
      let (known, k) = packet_fingerprint_lem sha256 b own.4 in
      rw (k, accept_fingerprinted)
        (accept_known-Handled a buffer_after s v active known fingerprint)
  accept_fingerprinted-Handled none (some f) fingerprint size e =
      accept_known-Handled a buffer_after s v active f fingerprint
  accept_fingerprinted-Handled none none fingerprint size e = accept_new-Handled fingerprint size e

  accept_on-Handled : Handled a buffer_after s (accept_on sha256 p (some s) a)
  unfolding accept_on accept_valid
  accept_on-Handled = elim (Option-cases (validate_packet a s p)) [
    | inr (reason, e) ↦ rw (e, accept_on) (refused reason)
    | inl e ↦
        let (fingerprint, f) = packet_fingerprint_lem sha256 p printable in
        rw (e, f, accept_on, accept_valid)
          (accept_fingerprinted-Handled (Dict.get p.sequence_number s.packet_buffer)
            (Dict.get p.sequence_number s.packet_fingerprints) fingerprint
            (validate_packet-size a s p e) refl)
  ]

  -- `accept_packet`, on an active source in order and any packet that the model's validators admit,
  -- with a source generation below 2^64, answers: no exception, no endless loop. The source goes on,
  -- in order, and its audio has grown by the audio of buffered packets in the order of their sequence
  -- numbers and timestamps, the new packet among those that may have been heard, with silence of 1 to
  -- `max_reorder_packets` packets where some were given up; or it has been given up, for a full
  -- queue or a wrong timestamp, which is the reason of the reply.
  pub accept_packet-Handled : Handled a buffer_after s (accept_packet sha256 (some p) a)
  unfolding accept_packet
  accept_packet-Handled =
      subst (λ o. Handled a buffer_after s (accept_on sha256 p o a)) (sym active) accept_on-Handled
