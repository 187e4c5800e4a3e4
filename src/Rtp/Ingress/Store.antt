-- ===== src/Rtp/Ingress/Store.antt =====
-- Storing a new packet keeps the source sound, and so does what `accept_packet` does after it.
use cma_real_time_coaching.Prelude.{
  ℕ, suc, ◌*◌, ◌≤◌, ◌<◌, ◌≡◌, refl, sym, ap, inr, Bool, Option, none, List, length, arith, nat_eq,
}
use cma_real_time_coaching.Prelude.Dict
use cma_real_time_coaching.Prelude.Dict.{All-put, put-Distinct, length-put_new}
use cma_real_time_coaching.Rtp.Types.{
  RtpMediaPacket, ActiveRtpSource, RtpAdapterConfig, RtpMediaIngressAdapter, PacketIsValid,
  IsPrintable, RtpIngressReason,
}
use cma_real_time_coaching.Rtp.Sequence.{sequence_distance}
use cma_real_time_coaching.Rtp.Source.{drain_fuel, expire_fuel}
use cma_real_time_coaching.Rtp.Invariant.{
  IsSound, touched-IsSound, Stored, Near, GapNoted, Ends, Ends-and_then, Ends-map,
}
use cma_real_time_coaching.Rtp.Invariant.Contiguous.{Drained, drain_contiguous-Ends}
use cma_real_time_coaching.Rtp.Invariant.Expire.{Expired, Expired-after, expire_gap-Ends}
use cma_real_time_coaching.Rtp.Ingress.{store_packet, drain_and_expire}

-- A sound source between two calls: less than a chunk of audio waits, and a gap's start is noted.
pub record IsReady (config : RtpAdapterConfig) (s : ActiveRtpSource) : Type 0 where
  pub sound : IsSound config s
  pub small : length s.pcm_buffer < 64000
  pub noted : GapNoted s

module _ (a : RtpMediaIngressAdapter) (p : RtpMediaPacket) (fingerprint : List ℕ) (distance : ℕ)
    (s : ActiveRtpSource) (v : IsSound a.config s)
    (new : Dict.get p.sequence_number s.packet_buffer ≡ none) (valid : PacketIsValid p)
    (printable : IsPrintable p) (size : length p.payload ≡ s.start.media_format.samples_per_packet)
    (near : sequence_distance p.sequence_number s.expected_sequence_number
      ≤ a.config.max_reorder_packets) where
  grown : length (Dict.put p.sequence_number p s.packet_buffer) ≡ suc (length s.packet_buffer)
  grown = length-put_new p.sequence_number p s.packet_buffer new

  pub store_packet-IsSound : IsSound a.config (store_packet a p fingerprint distance s)
  unfolding store_packet
  store_packet-IsSound = record {
    format = v.format;
    accounts = record {
      samples = v.accounts.samples;
      clock = v.accounts.clock;
      packets = omega (
        arith,
        v.accounts.packets,
        ap (λ (n : ℕ). n * s.start.media_format.samples_per_packet) grown,
      );
      sequence = omega (arith, v.accounts.sequence, grown);
      sequence_bound = v.accounts.sequence_bound;
    };
    queue_bound = v.queue_bound;
    first_number = v.first_number;
    first_sample = v.first_sample;
    timeline = v.timeline;
    stored =
        All-put (Stored s.start) p.sequence_number p s.packet_buffer
          (refl, valid.sequence_bound, size, valid.payload_bytes, printable)
          (λ j e.
            (sym e, omega (arith, e, valid.sequence_bound), size, valid.payload_bytes, printable))
          v.stored;
    distinct = put-Distinct p.sequence_number p s.packet_buffer v.distinct;
    near =
        All-put (Near a.config s.expected_sequence_number) p.sequence_number p s.packet_buffer near
          (λ j e. rw e near) v.near;
  }

-- Draining and expiring, from a sound source: it ends well, and where packets are left the wait for
-- the missing ones is not over.
pub drain_and_expire-Ends :
    (a : RtpMediaIngressAdapter) (now : ℕ) (force : Bool) (s : ActiveRtpSource)
    → IsSound a.config s
    → length s.pcm_buffer < 64000
    → Ends (Expired a.config now force s) (drain_and_expire a now force s)
unfolding drain_and_expire
drain_and_expire-Ends a now force s v small =
    Ends-and_then (Drained a.config 0 s) (Expired a.config now force s) _ _
      (drain_contiguous-Ends a.config (drain_fuel s) s (omega arith) v small)
      (λ t d.
        Ends-map (Expired a.config now force t) (Expired a.config now force s) _
          (expire_gap-Ends a.config now force (expire_fuel t) t (inr (omega arith)) d.kept.sound
            d.kept.small d.noted)
          (λ u x. Expired-after a.config now force s t u d.kept x))

-- The counters of duplicates and rejections may change, and so may the times of arrival.
pub recount-IsReady :
    (config : RtpAdapterConfig) (s : ActiveRtpSource) (n m : ℕ) (r : Option RtpIngressReason)
    → IsReady config s
    → IsReady config (record s {
      duplicate_packet_count = n;
      rejected_packet_count = m;
      latest_rejection_reason = r;
    })
recount-IsReady config s n m r k = record {
  sound =
      touched-IsSound config s s.last_arrival_monotonic_seconds s.latest_arrived_at_utc
        s.gap_started_monotonic_seconds s.packet_fingerprints n m r k.sound;
  small = k.small;
  noted = k.noted;
}

pub IsReady-arrival :
    (config : RtpAdapterConfig) (s : ActiveRtpSource) (now utc : ℕ)
    → IsReady config s
    → IsReady config
        (record s { last_arrival_monotonic_seconds = now; latest_arrived_at_utc = utc })
IsReady-arrival config s now utc k = record {
  sound =
      touched-IsSound config s now utc s.gap_started_monotonic_seconds s.packet_fingerprints
        s.duplicate_packet_count s.rejected_packet_count s.latest_rejection_reason k.sound;
  small = k.small;
  noted = k.noted;
}
