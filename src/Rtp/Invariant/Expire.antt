-- ===== src/Rtp/Invariant/Expire.antt =====
-- The loop of `_expire_gap`: with two rounds for each packet it ends, raises nothing, keeps the source
-- sound, and never meets a gap wider than the reorder window. With `force` it empties the buffer.
use cma_real_time_coaching.Prelude.{
  ℕ, zero, suc, ◌+◌, ◌*◌, ◌<◌, ◌≡◌, ◌⊎◌, inl, inr, Bool, true, false, Bool-cases, not, ◌&&◌,
  is_empty, length, arith, nat_eq,
}
use cma_real_time_coaching.Prelude.Dict
use cma_real_time_coaching.Prelude.Dict.{contains-get}
use cma_real_time_coaching.Rtp.Types.{ActiveRtpSource, RtpAdapterConfig, continues}
use cma_real_time_coaching.Rtp.Source.{
  and_then, drain_contiguous, drain_fuel, skip_missing, still_waiting, expire_gap,
}
use cma_real_time_coaching.Rtp.Invariant.{IsSound, GapNoted, Ends, Ends-and_then, Ends-map}
use cma_real_time_coaching.Rtp.Invariant.Contiguous.{
  Kept, Drained, Kept-refl, Kept-trans, weaker, drain_some,
}
use cma_real_time_coaching.Rtp.Invariant.Gap.{Skipped, skip_missing-Ends}

module _ (config : RtpAdapterConfig) (now : ℕ) (force : Bool) where
  expire_empty :
      (fuel : ℕ) (s : ActiveRtpSource)
      → is_empty s.packet_buffer ≡ true
      → expire_gap (suc fuel) config now force s ≡ (continues, s)
  unfolding expire_gap
  expire_empty fuel s e = rw (e, expire_gap)

  expire_drain :
      (fuel : ℕ) (s : ActiveRtpSource)
      → is_empty s.packet_buffer ≡ false
      → Dict.contains s.expected_sequence_number s.packet_buffer ≡ true
      → expire_gap (suc fuel) config now force s
        ≡ and_then (drain_contiguous (drain_fuel s) config s) (expire_gap fuel config now force)
  unfolding expire_gap
  expire_drain fuel s e h = rw (e, h, expire_gap)

  abbrev waits : ActiveRtpSource → Bool
  waits s = not force && still_waiting config now s.gap_started_monotonic_seconds

  expire_wait :
      (fuel : ℕ) (s : ActiveRtpSource)
      → is_empty s.packet_buffer ≡ false
      → Dict.contains s.expected_sequence_number s.packet_buffer ≡ false
      → waits s ≡ true
      → expire_gap (suc fuel) config now force s ≡ (continues, s)
  unfolding expire_gap
  expire_wait fuel s e h w = rw (e, expire_gap) (rw (h, expire_gap) (rw (w, expire_gap)))

  expire_skip :
      (fuel : ℕ) (s : ActiveRtpSource)
      → is_empty s.packet_buffer ≡ false
      → Dict.contains s.expected_sequence_number s.packet_buffer ≡ false
      → waits s ≡ false
      → expire_gap (suc fuel) config now force s
        ≡ and_then (skip_missing config now s) (expire_gap fuel config now force)
  unfolding expire_gap
  expire_skip fuel s e h w = rw (e, expire_gap) (rw (h, expire_gap) (rw (w, expire_gap)))

  -- Two rounds for each packet, or one less where the expected packet is there.
  abbrev pub Enough : ℕ → ActiveRtpSource → Type 0
  Enough fuel s =
      ((Dict.contains s.expected_sequence_number s.packet_buffer ≡ true)
        × (2 * length s.packet_buffer < fuel))
      ⊎ (2 * length s.packet_buffer + 1 < fuel)

  spare :
      (fuel : ℕ) (s : ActiveRtpSource)
      → Enough (suc fuel) s
      → Dict.contains s.expected_sequence_number s.packet_buffer ≡ false
      → 2 * length s.packet_buffer < fuel
  spare fuel s (inl (c, l)) f = cc
  spare fuel s (inr l) f = omega arith

  -- A sound source. Where packets are left, the call was not forced, and the wait is not over.
  pub record Expired (s t : ActiveRtpSource) : Type 0 where
    pub kept : Kept config 0 s t
    pub noted : GapNoted t
    pub waiting :
        (is_empty t.packet_buffer ≡ true)
        ⊎ ((waits t ≡ true) × (Dict.contains t.expected_sequence_number t.packet_buffer ≡ false))

  pub Expired-after : (s t u : ActiveRtpSource) → Kept config 0 s t → Expired t u → Expired s u
  Expired-after s t u k x = record {
    kept = Kept-trans config 0 0 s t u k x.kept;
    noted = x.noted;
    waiting = x.waiting;
  }

  -- `_expire_gap` on a sound source with less than a chunk of audio, whose gap is noted, ends within two
  -- rounds for each buffered packet and two more, and raises nothing. It gives the source up for a full
  -- queue or a wrong timestamp, never for a gap wider than the reorder window; or the source is still
  -- sound, its audio grown by buffered packets in sequence and silence, and the buffer is empty, unless
  -- the call was not forced, the expected packet is not there, and its wait is not over.
  pub expire_gap-Ends :
      (fuel : ℕ) (s : ActiveRtpSource)
      → Enough fuel s
      → IsSound config s
      → length s.pcm_buffer < 64000
      → GapNoted s
      → Ends (Expired s) (expire_gap fuel config now force s)
  expire_gap-Ends zero s h v small gap = absurd (omega arith)
  expire_gap-Ends (suc fuel) s h v small gap = elim (Bool-cases (is_empty s.packet_buffer)) [
    | inl e ↦
        rw (expire_empty fuel s e)
          (record { kept = Kept-refl config s v small; noted = gap; waiting = inl e })
    | inr e ↦ elim (Bool-cases (Dict.contains s.expected_sequence_number s.packet_buffer)) [
      | inl c ↦
          let (p, here) = contains-get s.expected_sequence_number s.packet_buffer c in
          rw (expire_drain fuel s e c) (
            Ends-and_then (Drained config 1 s) (Expired s) _ _
              (drain_some config (drain_fuel s) s (omega arith) v p here)
              (λ t k.
                Ends-map (Expired t) (Expired s) _
                  (expire_gap-Ends fuel t (inr (omega (arith, k.kept.fewer))) k.kept.sound
                    k.kept.small k.noted)
                  (λ u x. Expired-after s t u (weaker config s t k.kept) x)))
      | inr c ↦ elim (Bool-cases (waits s)) [
        | inl w ↦
            rw (expire_wait fuel s e c w)
              (record { kept = Kept-refl config s v small; noted = gap; waiting = inr (w, c) })
        | inr w ↦ rw (expire_skip fuel s e c w) (
            Ends-and_then (Skipped config s v c e) (Expired s) _ _
              (skip_missing-Ends config s v c e now)
              (λ t k.
                Ends-map (Expired t) (Expired s) _
                  (expire_gap-Ends fuel t
                    (inl (k.found, omega (arith, spare fuel s h c, k.kept.fewer))) k.kept.sound
                    k.kept.small k.noted)
                  (λ u x. Expired-after s t u k.kept x)))
      ]
    ]
  ]
