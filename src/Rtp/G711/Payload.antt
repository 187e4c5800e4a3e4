-- ===== src/Rtp/G711/Payload.antt =====
-- What a payload decodes to, read back as signed 16-bit samples, and how the upsampling doubles it.
use cma_real_time_coaching.Prelude.{
  ℕ, suc, ◌+◌, ◌-◌, ◌*◌, ◌/◌, ◌%◌, ◌<◌, ◌≤◌, ◌≡◌, refl, ap, ◌∙◌, ◌⊎◌, none, some, List, [], ◌∷◌,
  map, arith, ltb, if◌then◌else◌, length, All,
}
use cma_real_time_coaching.Prelude.Int.{ℤ, pos, negsuc, pos_part, neg_part}
use cma_real_time_coaching.Rtp.Types.{RtpCodec}
use cma_real_time_coaching.Rtp.G711.{
  decode_sample, pack_sample, pack_samples, decode_g711_payload, duplicate_samples,
  upsample_pcm16_8khz_to_16khz,
}
use cma_real_time_coaching.Rtp.G711.Samples.{decode_sample-bounds}

-- The signed value of a little-endian pair of bytes.
abbrev pub sample_of : ℕ → ℕ → ℤ
sample_of low high =
    if ltb (low + 256 * high) 32768
    then pos (low + 256 * high)
    else negsuc (65535 - (low + 256 * high))

abbrev pub samples_of : List ℕ → List ℤ
samples_of [] = []
samples_of (low ∷ []) = []
samples_of (low ∷ high ∷ rest) = sample_of low high ∷ samples_of rest

abbrev pub twice : List ℤ → List ℤ
twice [] = []
twice (x ∷ xs) = x ∷ x ∷ twice xs

abbrev pub Fits : ℤ → Type 0
Fits x = (pos_part x ≤ 32767) × (neg_part x ≤ 32767)

-- The two bytes of a packed value, which read back as the value.
pack_sample_lem :
    (x : ℤ)
    → Fits x
    → (low : ℕ) × (high : ℕ) × (pack_sample x ≡ some (low ∷ high ∷ [])) × (sample_of low high ≡ x)
unfolding pack_sample
pack_sample_lem (pos n) h = (n % 256, n / 256, ground arith, ground arith)
pack_sample_lem (negsuc n) h = ((65535 - n) % 256, (65535 - n) / 256, ground arith, ground arith)

pack_samples_lem :
    (xs : List ℤ)
    → All Fits xs
    → (pcm : List ℕ) × (pack_samples xs ≡ some pcm)
      × (length pcm ≡ 2 * length xs)
      × (samples_of pcm ≡ xs)
unfolding pack_samples
pack_samples_lem [] h = ([], refl, refl, refl)
pack_samples_lem (x ∷ xs) (h, hs) =
    let (low, high, e, v) = pack_sample_lem x h in
    let (rest, e', l, v') = pack_samples_lem xs hs in
    (low ∷ high ∷ rest, rw (e, e'), omega arith, λ i. v i ∷ v' i)

map-Fits :
    (codec : RtpCodec) (payload : List ℕ)
    → All (λ b. b < 256) payload
    → All Fits (map (decode_sample codec) payload)
map-Fits codec [] h = tt
map-Fits codec (b ∷ bs) h = (decode_sample-bounds codec b h.0, map-Fits codec bs h.1)

length-map : (codec : RtpCodec) (bs : List ℕ) → length (map (decode_sample codec) bs) ≡ length bs
length-map codec [] = refl
length-map codec (b ∷ bs) = ap suc (length-map codec bs)

-- A payload of 1 to 4096 bytes decodes to two bytes for each, which read back, as little-endian
-- signed samples, are the decoder's values in order.
pub decode_g711_payload_lem :
    (codec : RtpCodec) (payload : List ℕ)
    → All (λ b. b < 256) payload
    → 1 ≤ length payload
    → length payload ≤ 4096
    → (pcm : List ℕ) × (decode_g711_payload codec payload ≡ some pcm)
      × (length pcm ≡ 2 * length payload)
      × (samples_of pcm ≡ map (decode_sample codec) payload)
unfolding decode_g711_payload
decode_g711_payload_lem codec [] bytes h l = absurd (omega arith)
decode_g711_payload_lem codec (b ∷ bs) bytes h l =
    let (pcm, e, n, v) = pack_samples_lem _ (map-Fits codec (b ∷ bs) bytes) in
    (pcm, ground arith, omega (arith, length-map codec bs), v)

length-duplicate :
    (n : ℕ) (pcm : List ℕ) → length pcm ≡ 2 * n → length (duplicate_samples pcm) ≡ 4 * n
unfolding duplicate_samples
length-duplicate n [] e = omega arith
length-duplicate n (a ∷ []) e = absurd (omega arith)
length-duplicate n (a ∷ b ∷ r) e = omega (arith, length-duplicate (n - 1) r (omega arith))

samples-duplicate : (pcm : List ℕ) → samples_of (duplicate_samples pcm) ≡ twice (samples_of pcm)
unfolding duplicate_samples
samples-duplicate [] = refl
samples-duplicate (a ∷ []) = refl
samples-duplicate (a ∷ b ∷ r) =
    ap (λ (t : List ℤ). sample_of a b ∷ sample_of a b ∷ t) (samples-duplicate r)

upsample_lem :
    (pcm : List ℕ) (n : ℕ)
    → length pcm ≡ 2 * n
    → 1 ≤ n
    → upsample_pcm16_8khz_to_16khz pcm ≡ some (duplicate_samples pcm)
unfolding upsample_pcm16_8khz_to_16khz
upsample_lem [] n e h = absurd (omega arith)
upsample_lem (a ∷ pcm) n e h = ground arith

-- The two stages together: the output of a packet, four bytes for each byte of its payload, whose
-- samples are the decoded values, each one twice.
pub packet_pcm :
    (codec : RtpCodec) (payload : List ℕ)
    → All (λ b. b < 256) payload
    → 1 ≤ length payload
    → length payload ≤ 4096
    → (pcm : List ℕ) × (out : List ℕ) × (decode_g711_payload codec payload ≡ some pcm)
      × (upsample_pcm16_8khz_to_16khz pcm ≡ some out)
      × (length out ≡ 4 * length payload)
      × (samples_of out ≡ twice (map (decode_sample codec) payload))
packet_pcm codec payload bytes h l =
    let (pcm, e, n, v) = decode_g711_payload_lem codec payload bytes h l in
    (
      pcm,
      duplicate_samples pcm,
      e,
      upsample_lem pcm (length payload) n h,
      length-duplicate (length payload) pcm n,
      samples-duplicate pcm ∙ ap twice v,
    )

-- Every other length is refused.
pub decode_g711_payload-error :
    (codec : RtpCodec) (payload : List ℕ)
    → (length payload ≡ 0) ⊎ (4096 < length payload)
    → decode_g711_payload codec payload ≡ none
unfolding decode_g711_payload
decode_g711_payload-error codec [] h = refl
decode_g711_payload-error codec (b ∷ bs) h = ground arith
