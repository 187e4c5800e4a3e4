-- ===== src/Rtp/Ingress/Overflow.antt =====
-- `_packet_fingerprint` (app/audio_ingress/rtp.py) on a source generation that 8 bytes do not hold.
use Prim.Native.Nat.{◌^◌}
use cma_real_time_coaching.Prelude.{
  ℕ, ◌≤◌, ◌≡◌, refl, sym, subst, none, some, List, arith, leb, true,
}
use cma_real_time_coaching.Rtp.Types.{
  RtpMediaPacket, ActiveRtpSource, RtpMediaIngressAdapter, Reply,
}
use cma_real_time_coaching.Rtp.Ingress.{
  to_bytes, packet_fingerprint, validate_packet, accept_valid, accept_on, accept_packet,
}

to_bytes_overflow : (width value : ℕ) → 256 ^ width ≤ value → to_bytes width value ≡ none
unfolding to_bytes
to_bytes_overflow width value h =
    let big : leb (256 ^ width) value ≡ true = ground arith in rw big refl

-- A packet that `_validate_packet` passes, of a source generation of 2^64 or more, makes
-- `accept_packet` raise, whatever the digest, and leaves the adapter as it was.
pub accept_packet-raises :
    (sha256 : List ℕ → List ℕ) (a : RtpMediaIngressAdapter) (s : ActiveRtpSource)
    (p : RtpMediaPacket)
    → a.active ≡ some s
    → validate_packet a s p ≡ none
    → 18446744073709551616 ≤ p.source_generation
    → accept_packet sha256 (some p) a ≡ (Reply.raises, a)
unfolding accept_packet accept_on accept_valid packet_fingerprint
accept_packet-raises sha256 a s p active passes big =
    subst (λ o. accept_on sha256 p o a ≡ (Reply.raises, a)) (sym active)
      (rw
        (
          passes,
          to_bytes_overflow 8 p.source_generation (omega (arith, big)),
          accept_on,
          accept_valid,
          packet_fingerprint,
        )
        refl)
