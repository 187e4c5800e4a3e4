-- ===== src/Rtp/Ingress/History.antt =====
-- `_trim_fingerprint_history` of app/audio_ingress/rtp.py.
use cma_real_time_coaching.Prelude.{
  ℕ, zero, suc, ◌<◌, ◌≤◌, ◌≡◌, ◌≢◌, refl, ◌∙◌, ◌⊎◌, inl, inr, Option-cases, none, some, List, [],
  ◌∷◌, arith, ltb, ltb-false, true, false, Bool-cases, length, nat_eq, ◌==◌, nat_beq_iff, subst,
}
use cma_real_time_coaching.Prelude.Dict
use cma_real_time_coaching.Prelude.Dict.{Dict, contains-get, length-remove, get-remove_ne}
use cma_real_time_coaching.Rtp.Types.{RtpMediaPacket}
use cma_real_time_coaching.Rtp.Source.{removable, trim_fingerprint_history}

-- The key that is to be removed is in the history, and its packet is not in the buffer.
removable_lem :
    (d : Dict ℕ (List ℕ)) (buffer : Dict ℕ RtpMediaPacket) (k : ℕ)
    → removable d buffer ≡ some k
    → ((f : List ℕ) × (Dict.get k d ≡ some f)) × (Dict.contains k buffer ≡ false)
unfolding removable Dict.get
removable_lem [] buffer k e = absurd (ground (arith, e))
removable_lem ((j, f) ∷ d) buffer k e = elim (Bool-cases (Dict.contains j buffer)) [
  | inl there ↦
      let (known, gone) = removable_lem d buffer k (ground (arith, e)) in
      elim (Bool-cases (j == k)) [
        | inl same ↦ ((f, ground arith), gone)
        | inr other ↦ ((known.0, ground (arith, known.1)), gone)
      ]
  | inr gone ↦
      let same : j ≡ k = ground (arith, e) in
      ((f, ground (arith, nat_beq_iff j k)), subst (λ x. Dict.contains x buffer ≡ false) same gone)
]

-- Once the rounds are over the history is within its limit, or there is nothing left to remove: with a
-- round for each fingerprint and one more the loop comes to its end. The fingerprint of a packet in
-- the buffer is kept.
pub trim_fingerprint_history-bound :
    (fuel limit : ℕ) (buffer : Dict ℕ RtpMediaPacket) (d : Dict ℕ (List ℕ)) (held : ℕ)
    → length d < fuel
    → Dict.contains held buffer ≡ true
    → ((length (trim_fingerprint_history fuel limit buffer d) ≤ limit)
        ⊎ (removable (trim_fingerprint_history fuel limit buffer d) buffer ≡ none))
      × (Dict.get held (trim_fingerprint_history fuel limit buffer d) ≡ Dict.get held d)
unfolding trim_fingerprint_history
trim_fingerprint_history-bound zero limit buffer d held h there = absurd (omega arith)
trim_fingerprint_history-bound (suc fuel) limit buffer d held h there =
    elim (Bool-cases (ltb limit (length d))) [
      | inr small ↦ rw (small, trim_fingerprint_history) (inl (ltb-false _ _ small), refl)
      | inl large ↦ elim (Option-cases (removable d buffer)) [
        | inl nothing ↦ rw (large, nothing, trim_fingerprint_history) (inr nothing, refl)
        | inr (k, e) ↦
            let ((f, known), gone) = removable_lem d buffer k e in
            let other : k ≢ held =
              λ q. ground (arith, subst (λ x. Dict.contains x buffer ≡ false) q gone) in
            let (bound, keeps) =
              trim_fingerprint_history-bound fuel limit buffer (Dict.remove k d) held
                (omega (arith, length-remove k d f known)) there in
            rw (large, e, trim_fingerprint_history) (bound, keeps ∙ get-remove_ne k held d other)
      ]
    ]
