-- ===== src/Rtp/G711.antt =====
-- The G.711 decoders of app/audio_ingress/rtp.py (`_decode_mulaw`, `_decode_alaw`,
-- `decode_g711_payload`) and `upsample_pcm16_8khz_to_16khz`. Bytes are numbers below 256, and
-- `none` is a raised error.
pub mod Samples
pub mod Payload
use Prim.Native.Nat.{bit_and, bit_xor}
use cma_real_time_coaching.Prelude.{
  ℕ, zero, suc, ◌+◌, ◌-◌, ◌*◌, ◌/◌, ◌%◌, ◌^◌, Bool, ◌||◌, Option, none, some, List, [], ◌∷◌, ◌++◌,
  map, ◌==◌, ltb, if◌then◌else◌, length, nat_eq, is_empty,
}
use cma_real_time_coaching.Prelude.Int.{ℤ, pos, negsuc, sub_ℕ}
use cma_real_time_coaching.Rtp.Types.{RtpCodec, pcma, pcmu, max_rtp_payload_bytes}

-- -n
abbrev pub negate : ℕ → ℤ
negate n = sub_ℕ 0 n

unfoldable pub decode_mulaw : ℕ → ℤ
decode_mulaw value =
    let decoded : ℕ = 255 - value % 256 in
    let sign = bit_and decoded 0x80 in
    let exponent = bit_and (decoded / 16) 0x07 in
    let mantissa = bit_and decoded 0x0F in
    let sample = (mantissa * 8 + 0x84) * 2 ^ exponent - 0x84 in
    if sign == 0 then pos sample else negate sample

alaw_magnitude : ℕ → ℕ → ℕ
alaw_magnitude zero mantissa = mantissa * 16 + 8
alaw_magnitude (suc zero) mantissa = mantissa * 16 + 0x108
alaw_magnitude (suc (suc e)) mantissa = (mantissa * 16 + 0x108) * 2 ^ suc e

unfoldable pub decode_alaw : ℕ → ℤ
unfolding alaw_magnitude
decode_alaw value =
    let decoded = bit_xor value 0x55 in
    let sign = bit_and decoded 0x80 in
    let exponent = bit_and (decoded / 16) 0x07 in
    let mantissa = bit_and decoded 0x0F in
    let sample = alaw_magnitude exponent mantissa in if sign == 0 then negate sample else pos sample

unfoldable pub decode_sample : RtpCodec → ℕ → ℤ
decode_sample pcma value = decode_alaw value
decode_sample pcmu value = decode_mulaw value

-- One value of `struct.pack("<h", …)`: two bytes, the low one first, or an error out of range.
unfoldable pub pack_sample : ℤ → Option (List ℕ)
pack_sample (pos n) = if ltb n 32768 then some (n % 256 ∷ n / 256 ∷ []) else none
pack_sample (negsuc n) =
    if ltb n 32768 then some ((65535 - n) % 256 ∷ (65535 - n) / 256 ∷ []) else none

abbrev both : Option (List ℕ) → Option (List ℕ) → Option (List ℕ)
both none r = none
both (some a) none = none
both (some a) (some b) = some (a ++ b)

unfoldable pub pack_samples : List ℤ → Option (List ℕ)
pack_samples [] = some []
pack_samples (x ∷ xs) = both (pack_sample x) (pack_samples xs)

unfoldable pub decode_g711_payload : RtpCodec → List ℕ → Option (List ℕ)
decode_g711_payload codec payload =
    if is_empty payload || ltb max_rtp_payload_bytes (length payload)
    then none
    else pack_samples (map (decode_sample codec) payload)

-- The loop over pairs of bytes.
unfoldable pub duplicate_samples : List ℕ → List ℕ
duplicate_samples [] = []
duplicate_samples (low ∷ []) = []
duplicate_samples (low ∷ high ∷ rest) = low ∷ high ∷ low ∷ high ∷ duplicate_samples rest

unfoldable pub upsample_pcm16_8khz_to_16khz : List ℕ → Option (List ℕ)
unfolding duplicate_samples
upsample_pcm16_8khz_to_16khz pcm =
    if is_empty pcm || (if length pcm % 2 == 0 then Bool.false else Bool.true)
    then none
    else some (duplicate_samples pcm)
