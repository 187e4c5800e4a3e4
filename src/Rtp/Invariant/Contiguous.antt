-- ===== src/Rtp/Invariant/Contiguous.antt =====
-- The loop of `_drain_contiguous`: with a round for each packet it ends, raises nothing, keeps the
-- source sound, and puts out packets in order, unless the source is given up.
use cma_real_time_coaching.Prelude.{
  ℕ, zero, suc, ◌+◌, ◌≤◌, ◌<◌, ◌≡◌, sym, subst, inl, inr, Option, some, none, Option-cases, length,
  arith, Bool-cases, is_empty, nat_eq,
}
use cma_real_time_coaching.Prelude.Dict
use cma_real_time_coaching.Prelude.Dict.{
  Dict, Distinct, contains-get, length-remove, remove-Distinct, remove-All_ne, All-remove, All-get,
}
use cma_real_time_coaching.Rtp.Types.{RtpMediaPacket, ActiveRtpSource, RtpAdapterConfig, continues}
use cma_real_time_coaching.Rtp.Source.{and_then, pop_expected, deliver, note_gap, drain_contiguous}
use cma_real_time_coaching.Rtp.Invariant.{
  IsSound, touched-IsSound, GapNoted, Ends, Ends-and_then, Ends-map,
}
use cma_real_time_coaching.Rtp.Invariant.Plays.{
  Plays, Plays-refl, Plays-trans, Hears, Hears-refl, Hears-trans,
}
use cma_real_time_coaching.Rtp.Invariant.Drain.{Delivered, deliver-Ends}

module _ (config : RtpAdapterConfig) where
  -- A sound source with less than a chunk of audio, which is `n` packets or more short of `s`.
  pub record Kept (n : ℕ) (s t : ActiveRtpSource) : Type 0 where
    pub sound : IsSound config t
    pub plays : Plays config s t
    pub small : length t.pcm_buffer < 64000
    pub fewer : n + length t.packet_buffer ≤ length s.packet_buffer

  pub Kept-refl :
      (s : ActiveRtpSource) → IsSound config s → length s.pcm_buffer < 64000 → Kept 0 s s
  Kept-refl s v h = record {
    sound = v;
    plays = Plays-refl config s;
    small = h;
    fewer = omega arith;
  }

  pub Kept-trans : (n m : ℕ) (s t u : ActiveRtpSource) → Kept n s t → Kept m t u → Kept n s u
  Kept-trans n m s t u a b = record {
    sound = b.sound;
    plays = Plays-trans config s t u a.plays b.plays;
    small = b.small;
    fewer = omega (arith, a.fewer, b.fewer);
  }

  abbrev pub with_gap : Option ℕ → ActiveRtpSource → ActiveRtpSource
  with_gap g s = record s { gap_started_monotonic_seconds = g }

  pub with_gap-Kept :
      (n : ℕ) (g : Option ℕ) (s t : ActiveRtpSource) → Kept n s t → Kept n s (with_gap g t)
  with_gap-Kept n g s t k = record {
    sound =
        touched-IsSound config t t.last_arrival_monotonic_seconds t.latest_arrived_at_utc g
          t.packet_fingerprints t.duplicate_packet_count t.rejected_packet_count
          t.latest_rejection_reason k.sound;
    plays = record {
      slots = k.plays.slots;
      follows = k.plays.follows;
      output = k.plays.output;
      within = k.plays.within;
      same_start = k.plays.same_start;
      same_arrival = k.plays.same_arrival;
    };
    small = k.small;
    fewer = k.fewer;
  }

  note_gap_form : (s : ActiveRtpSource) → (g : Option ℕ) × (note_gap s ≡ with_gap g s)
  unfolding note_gap
  note_gap_form s = elim (Bool-cases (is_empty s.packet_buffer)) [
    | inl empty ↦ (none, rw (empty, note_gap))
    | inr full ↦ elim (Option-cases s.gap_started_monotonic_seconds) [
      | inl unset ↦ (some s.last_arrival_monotonic_seconds, ground arith)
      | inr (t, since) ↦ (s.gap_started_monotonic_seconds, ground arith)
    ]
  ]

  pub weaker : (s t : ActiveRtpSource) → Kept 1 s t → Kept 0 s t
  weaker s t k = record {
    sound = k.sound;
    plays = k.plays;
    small = k.small;
    fewer = omega (arith, k.fewer);
  }

  -- ... the expected packet is not in the buffer, and what was put out are packets, no silence.
  pub record Drained (n : ℕ) (s t : ActiveRtpSource) : Type 0 where
    pub kept : Kept n s t
    pub waits : Dict.get t.expected_sequence_number t.packet_buffer ≡ none
    pub noted : GapNoted t
    pub hears : Hears config s t

  Delivered-Kept :
      (s : ActiveRtpSource) (v : IsSound config s) (p : RtpMediaPacket)
      (here : Dict.get s.expected_sequence_number s.packet_buffer ≡ some p) (t : ActiveRtpSource)
      → Delivered config s v p here t
      → Kept 1 s t
  Delivered-Kept s v p here t d = record {
    sound = d.0;
    plays = d.1;
    small = d.2;
    fewer = omega (arith, d.3);
  }

  drain_stop :
      (fuel : ℕ) (s : ActiveRtpSource)
      → Dict.get s.expected_sequence_number s.packet_buffer ≡ none
      → drain_contiguous (suc fuel) config s ≡ (continues, note_gap s)
  unfolding drain_contiguous
  drain_stop fuel s e = rw (e, drain_contiguous)

  drain_go :
      (fuel : ℕ) (s : ActiveRtpSource) (p : RtpMediaPacket)
      → Dict.get s.expected_sequence_number s.packet_buffer ≡ some p
      → drain_contiguous (suc fuel) config s
        ≡ and_then (deliver config p (pop_expected s)) (drain_contiguous fuel config)
  unfolding drain_contiguous
  drain_go fuel s p e = rw (e, drain_contiguous)

  note_gap-GapNoted : (s : ActiveRtpSource) → GapNoted (note_gap s)
  unfolding note_gap
  note_gap-GapNoted s = elim (Bool-cases (is_empty s.packet_buffer)) [
    | inl empty ↦ inl (rw (empty, note_gap) empty)
    | inr full ↦ elim (Option-cases s.gap_started_monotonic_seconds) [
      | inl unset ↦ inr (s.last_arrival_monotonic_seconds, ground arith)
      | inr (t, since) ↦ inr (t, ground arith)
    ]
  ]

  note_gap-Drained :
      (s : ActiveRtpSource)
      → IsSound config s
      → length s.pcm_buffer < 64000
      → Dict.get s.expected_sequence_number s.packet_buffer ≡ none
      → Drained 0 s (note_gap s)
  note_gap-Drained s v small gone =
      let (g, e) = note_gap_form s in
      subst (Drained 0 s) (sym e) (record {
        kept = with_gap-Kept 0 g s s (Kept-refl s v small);
        waits = gone;
        noted = subst GapNoted e (note_gap-GapNoted s);
        hears = Hears-refl config s g;
      })

  -- `_drain_contiguous` on a sound source with less than a chunk of audio ends within a round for each
  -- buffered packet and one more, and raises nothing. It gives the source up for a full queue or a wrong
  -- timestamp, or the source is sound, its audio grown by buffered packets in sequence and by no silence, the
  -- expected packet is not in the buffer, and if others are, the start of their wait is noted.
  pub drain_contiguous-Ends :
      (fuel : ℕ) (s : ActiveRtpSource)
      → length s.packet_buffer < fuel
      → IsSound config s
      → length s.pcm_buffer < 64000
      → Ends (Drained 0 s) (drain_contiguous fuel config s)
  drain_contiguous-Ends zero s h v small = absurd (omega arith)
  drain_contiguous-Ends (suc fuel) s h v small =
      elim (Option-cases (Dict.get s.expected_sequence_number s.packet_buffer)) [
        | inl gone ↦ rw (drain_stop fuel s gone) (note_gap-Drained s v small gone)
        | inr (p, here) ↦ rw (drain_go fuel s p here) (
            Ends-and_then (Delivered config s v p here) (Drained 0 s) _ _
              (deliver-Ends config s v p here)
              (λ t d.
                let k = Delivered-Kept s v p here t d in
                Ends-map (Drained 0 t) (Drained 0 s) _
                  (drain_contiguous-Ends fuel t (omega (arith, k.fewer)) k.sound k.small)
                  (λ u r. record {
                    kept = weaker s u (Kept-trans 1 0 s t u k r.kept);
                    waits = r.waits;
                    noted = r.noted;
                    hears = Hears-trans config s t u d.4 r.hears;
                  })))
      ]

  -- With the expected packet in the buffer at least one packet goes out.
  pub drain_some :
      (fuel : ℕ) (s : ActiveRtpSource)
      → length s.packet_buffer < fuel
      → IsSound config s
      → (p : RtpMediaPacket) → Dict.get s.expected_sequence_number s.packet_buffer ≡ some p
      → Ends (Drained 1 s) (drain_contiguous fuel config s)
  drain_some zero s h v p here = absurd (omega arith)
  drain_some (suc fuel) s h v p here = rw (drain_go fuel s p here) (
      Ends-and_then (Delivered config s v p here) (Drained 1 s) _ _ (deliver-Ends config s v p here)
        (λ t d.
          let k = Delivered-Kept s v p here t d in
          Ends-map (Drained 0 t) (Drained 1 s) _
            (drain_contiguous-Ends fuel t (omega (arith, k.fewer)) k.sound k.small)
            (λ u r. record {
              kept = Kept-trans 1 0 s t u k r.kept;
              waits = r.waits;
              noted = r.noted;
              hears = Hears-trans config s t u d.4 r.hears;
            })))
