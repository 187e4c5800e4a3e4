-- ===== src/Rtp/Lifecycle/End.antt =====
-- `end` on an adapter whose source is in order.
use cma_real_time_coaching.Prelude.{
  ℕ, ◌+◌, ◌-◌, ◌*◌, ◌≤◌, ◌≡◌, refl, sym, ap, ◌∙◌, subst, ◌⊎◌, inl, inr, true, false, some, none, [],
  length, arith, nat_eq, nat_beq_iff, ltb, is_empty-true,
}
use cma_real_time_coaching.Prelude.Dict.{Dict}
use cma_real_time_coaching.Rtp.Types.{
  ActiveRtpSource, RtpAdapterConfig, RtpMediaIngressAdapter, RtpMediaPacket, RtpMediaStart,
  RtpIngressReason, ScopedRtpControl, Outcome, continues, fails,
}
use cma_real_time_coaching.Rtp.Adapter.{Step, fail, out_of_scope}
use cma_real_time_coaching.Rtp.Source.{expire_fuel}
use cma_real_time_coaching.Rtp.Invariant.{Ends, Ends-and_then, Ends-map, Timeline, GivesUp}
use cma_real_time_coaching.Rtp.Invariant.Emit.{Emitted, flush_final_chunk-Ends}
use cma_real_time_coaching.Rtp.Invariant.Drain.{Emitted-IsSound}
use cma_real_time_coaching.Rtp.Invariant.Expire.{Expired, expire_gap-Ends}
use cma_real_time_coaching.Rtp.Invariant.Plays.{samples_of_packet}
use cma_real_time_coaching.Rtp.Ingress.Store.{IsReady, IsReady-arrival}
use cma_real_time_coaching.Rtp.Ingress.Total.{Heard, Answers, reason_of}
use cma_real_time_coaching.Rtp.Lifecycle.{end, end_on, finish_end, flush}

-- A source that has ended: nothing waits in its buffers, and its chunks are all the audio there is.
-- Its packets and the missing ones make up the samples, two for each sample of a packet.
pub record Complete (config : RtpAdapterConfig) (s t : ActiveRtpSource) : Type 0 where
  pub no_packets : t.packet_buffer ≡ []
  pub no_audio : t.pcm_buffer ≡ []
  pub heard : Heard config s.packet_buffer s t
  pub all_samples :
      t.emitted_sample_count
      ≡ 2 * (t.accepted_packet_count + t.missing_sequence_count) * samples_of_packet t
  pub first_number : ℕ
  pub first_sample : ℕ
  pub timeline :
      Timeline first_number first_sample t.output_queue t.emitted_chunk_count t.emitted_sample_count

module _ (a : RtpMediaIngressAdapter) (now : ℕ) (s : ActiveRtpSource) where
  emptied : (t : ActiveRtpSource) → Expired a.config now true s t → t.packet_buffer ≡ []
  emptied t e = elim e.waiting [
    | inl none_left ↦ is_empty-true t.packet_buffer none_left
    | inr (waits, _) ↦ cc
  ]

  flushed :
      (t u : ActiveRtpSource)
      → Expired a.config now true s t
      → Emitted a.config t u
      → u.pcm_buffer ≡ []
      → Complete a.config s u
  flushed t u e m nothing =
      let v = Emitted-IsSound a.config t u e.kept.sound m in
      let no_packets : u.packet_buffer ≡ [] = m.packets.same_buffer ∙ emptied t e in
      record {
        no_packets = no_packets;
        no_audio = nothing;
        heard = record {
          slots = e.kept.plays.slots;
          follows = rw (m.packets.same_expected, m.packets.same_clock) e.kept.plays.follows;
          output = m.same_stream ∙ e.kept.plays.output;
        };
        all_samples = omega (
          arith,
          v.accounts.samples,
          v.accounts.packets,
          ap length nothing,
          ap (λ (d : Dict ℕ RtpMediaPacket). length d * samples_of_packet u) no_packets,
        );
        first_number = v.first_number;
        first_sample = v.first_sample;
        timeline = v.timeline;
      }

  pub flush-Ends :
      IsReady a.config s → Ends (λ t. Complete a.config s t × (t.start ≡ s.start)) (flush a now s)
  unfolding flush
  flush-Ends k =
      Ends-and_then (Expired a.config now true s) (λ t. Complete a.config s t × (t.start ≡ s.start))
        _ _
        (expire_gap-Ends a.config now true (expire_fuel s) s (inr (omega arith)) k.sound k.small
          k.noted)
        (λ t e.
          Ends-map (λ u. Emitted a.config t u × (u.pcm_buffer ≡ []))
            (λ u. Complete a.config s u × (u.start ≡ s.start)) _
            (flush_final_chunk-Ends a.config t
              (2 * (t.decoded_input_sample_count + t.missing_sequence_count * samples_of_packet t)
                - t.emitted_sample_count)
              (omega (arith, e.kept.sound.accounts.samples)) e.kept.sound.queue_bound)
            (λ u (m, nothing).
              (flushed t u e m nothing, m.packets.same_start ∙ e.kept.plays.same_start)))

-- What `end` has to give for a source `s` that has not ended: its completion, or its loss.
pub record Ended (a : RtpMediaIngressAdapter) (s : ActiveRtpSource) (r : Step) : Type 0 where
  pub answers : Answers r.0
  pub inactive : r.1.active ≡ none
  pub outcome :
      ((t : ActiveRtpSource) × (r.1.completed ≡ some t)
        × (r.1.completed_source_generation ≡ some s.start.source_generation)
        × (reason_of r.0 ≡ some RtpIngressReason.ended)
        × Complete a.config s t)
      ⊎ ((x : RtpIngressReason) × GivesUp x × (reason_of r.0 ≡ some x))

module _ (a : RtpMediaIngressAdapter) (s : ActiveRtpSource) where
  unmarked : ActiveRtpSource → ActiveRtpSource
  unmarked t = record t { packet_fingerprints = [] }

  unmarked-Complete :
      (t : ActiveRtpSource) → Complete a.config s t → Complete a.config s (unmarked t)
  unfolding unmarked
  unmarked-Complete t k = record {
    no_packets = k.no_packets;
    no_audio = k.no_audio;
    heard = record { slots = k.heard.slots; follows = k.heard.follows; output = k.heard.output };
    all_samples = k.all_samples;
    first_number = k.first_number;
    first_sample = k.first_sample;
    timeline = k.timeline;
  }

  finish_end-Ended :
      (m : Outcome × ActiveRtpSource)
      → Ends (λ t. Complete a.config s t × (t.start ≡ s.start)) m
      → Ended a s (finish_end m a)
  unfolding finish_end fail unmarked
  finish_end-Ended (continues, t) (k, e) = record {
    answers = tt;
    inactive = refl;
    outcome = inl (
      unmarked t,
      refl,
      ap (λ (c : RtpMediaStart). some c.source_generation) e,
      refl,
      unmarked-Complete t k,
    );
  }
  finish_end-Ended (fails x, t) e = record {
    answers = tt;
    inactive = refl;
    outcome = inr (x, e, refl);
  }
  finish_end-Ended (Outcome.raises, t) e = absurd e
  finish_end-Ended (Outcome.hangs, t) e = absurd e

module _ (a : RtpMediaIngressAdapter) (s : ActiveRtpSource) (c : ScopedRtpControl)
    (active : a.active ≡ some s) (k : IsReady a.config s) where
  abbrev late : ActiveRtpSource
  late = record s { latest_arrived_at_utc = c.arrived_at_utc }

  flushed_late :
      (m : Outcome × ActiveRtpSource)
      → Ends (λ t. Complete a.config late t × (t.start ≡ late.start)) m
      → Ends (λ t. Complete a.config s t × (t.start ≡ s.start)) m
  flushed_late m h = Ends-map _ _ m h (λ t (k, e). (
    record {
      no_packets = k.no_packets;
      no_audio = k.no_audio;
      heard = record { slots = k.heard.slots; follows = k.heard.follows; output = k.heard.output };
      all_samples = k.all_samples;
      first_number = k.first_number;
      first_sample = k.first_sample;
      timeline = k.timeline;
    },
    e,
  ))

  in_order :
      c.source_generation ≡ s.start.source_generation
      → s.last_arrival_monotonic_seconds ≤ c.arrival_monotonic_seconds
      → end_on c (some s) a
        ≡ finish_end
            (flush a c.arrival_monotonic_seconds
              (record s { latest_arrived_at_utc = c.arrived_at_utc }))
            a
  unfolding end_on
  in_order generation time = rw ((nat_beq_iff _ _).1 generation, not_before, end_on)
    where
      not_before : ltb c.arrival_monotonic_seconds s.last_arrival_monotonic_seconds ≡ false
      not_before = ground arith

  -- `end`, in scope, for the generation of the active source and at no earlier time than the last
  -- arrival, always ends the source: it answers, and either the source is complete (every buffered
  -- packet and every gap has gone out in sequence, nothing is left in the two buffers, the samples
  -- queued are two for each sample of the packets accepted and missing, and the chunks that nobody has
  -- drained are numbered and timed without a gap), or it is given up for the reason that is replied.
  pub end-Ended :
      out_of_scope a.config c ≡ false
      → c.source_generation ≡ s.start.source_generation
      → s.last_arrival_monotonic_seconds ≤ c.arrival_monotonic_seconds
      → Ended a s (end c a)
  unfolding end
  end-Ended scope generation time =
      rw (scope, end)
        (subst (λ o. Ended a s (end_on c o a)) (sym active)
          (rw (in_order generation time) (
            finish_end-Ended a s _ (
              flushed_late _ (
                flush-Ends a c.arrival_monotonic_seconds
                  (record s { latest_arrived_at_utc = c.arrived_at_utc })
                  (IsReady-arrival a.config s s.last_arrival_monotonic_seconds c.arrived_at_utc
                    k))))))
