-- ===== src/Rtp/G711/Samples.antt =====
-- What the two decoders give on each of the 256 bytes.
use Prim.Native.Nat.{bit_xor}
use cma_real_time_coaching.Prelude.{
  ℕ, ◌+◌, ◌<◌, ◌≤◌, ◌≡◌, refl, Bool, true, ◌&&◌, arith, ltb, leb, not, ◌*◌, ◌-◌, ◌/◌, ◌%◌, ◌^◌,
  nat_beq, nat_eq, if◌then◌else◌, all_below, all_below_sound,
}
use cma_real_time_coaching.Prelude.Int.{ℤ, pos, ltb_ℤ, pos_part, neg_part, ◌-ℤ◌}
use cma_real_time_coaching.Rtp.Types.{RtpCodec, pcma, pcmu}
use cma_real_time_coaching.Rtp.G711.{decode_mulaw, decode_alaw, decode_sample}

abbrev within : ℕ → ℤ → Bool
within n x = leb (pos_part x) n && leb (neg_part x) n

abbrev opposite : ℤ → ℤ → Bool
opposite x y = nat_beq (pos_part x) (neg_part y) && nat_beq (neg_part x) (pos_part y)

mulaw_table : all_below 256 (λ v. within 32124 (decode_mulaw v)) ≡ true
unfolding all_below decode_mulaw
mulaw_table = refl

alaw_table : all_below 256 (λ v. within 32256 (decode_alaw v)) ≡ true
unfolding all_below decode_alaw
alaw_table = refl

-- The function keeps the order of the two numbers, strictly.
abbrev ordered : (ℕ → ℤ) → ℕ → ℕ → Bool
ordered f x y = if ltb_ℤ (f x) (f y) then ltb x y else not (ltb x y)

-- The magnitudes that the standard G.711 gives: eight segments of sixteen steps, which double from one to the next. Of
-- mu-law for a code below 128, of A-law for a code of the upper half, less 128, with its even bits not inverted.
abbrev pub mulaw_magnitude : ℕ → ℕ
mulaw_magnitude x = ((2 * (15 - x % 16) + 33) * 2 ^ (7 - x / 16) - 33) * 4

abbrev pub alaw_segment : ℕ → ℕ
alaw_segment x = (2 * (x % 16) + (if ltb x 16 then 1 else 33)) * 2 ^ (x / 16 - 1) * 8

mulaw_order_table : all_below 128 (λ x. all_below 128 (ordered decode_mulaw x)) ≡ true
unfolding all_below decode_mulaw
mulaw_order_table = refl

mulaw_lower_table : all_below 128 (λ v. opposite (pos (mulaw_magnitude v)) (decode_mulaw v)) ≡ true
unfolding all_below decode_mulaw
mulaw_lower_table = refl

mulaw_sign_table : all_below 128 (λ v. opposite (decode_mulaw v) (decode_mulaw (v + 128))) ≡ true
unfolding all_below decode_mulaw
mulaw_sign_table = refl

-- The A-law code of a byte whose even bits are inverted on the line.
abbrev pub on_line : ℕ → ℕ
on_line code = bit_xor code 0x55

alaw_order_table :
    all_below 128 (λ x. all_below 128 (ordered (λ c. decode_alaw (on_line (c + 128))) x)) ≡ true
unfolding all_below decode_alaw
alaw_order_table = refl

alaw_lower_table :
    all_below 128 (λ c. opposite (pos (alaw_segment c)) (decode_alaw (on_line c))) ≡ true
unfolding all_below decode_alaw
alaw_lower_table = refl

alaw_sign_table :
    all_below 128 (λ c. opposite (decode_alaw (on_line c)) (decode_alaw (on_line (c + 128)))) ≡ true
unfolding all_below decode_alaw
alaw_sign_table = refl

negation_of : (x y : ℤ) → opposite x y ≡ true → y ≡ pos 0 -ℤ x
unfolding ◌-ℤ◌
negation_of x y h = ground arith

within_bounds : (n : ℕ) (x : ℤ) → within n x ≡ true → (pos_part x ≤ n) × (neg_part x ≤ n)
within_bounds n x h = ground arith

ordered-ltb : (f : ℕ → ℤ) (x y : ℕ) → ordered f x y ≡ true → ltb_ℤ (f x) (f y) ≡ ltb x y
ordered-ltb f x y h = ground arith

-- Every byte decodes to a value that a signed 16-bit sample holds.
pub decode_sample-bounds :
    (codec : RtpCodec) (value : ℕ)
    → value < 256
    → (pos_part (decode_sample codec value) ≤ 32767)
      × (neg_part (decode_sample codec value) ≤ 32767)
unfolding decode_sample
decode_sample-bounds pcma value h =
    let b = within_bounds 32256 (decode_alaw value) (all_below_sound 256 _ value alaw_table h) in
    (omega (arith, b.0), omega (arith, b.1))
decode_sample-bounds pcmu value h =
    let b = within_bounds 32124 (decode_mulaw value) (all_below_sound 256 _ value mulaw_table h) in
    (omega (arith, b.0), omega (arith, b.1))

-- The mu-law decoder, on any two of the lower 128 codes: they decode in the order of the codes, strictly; a lower code
-- decodes to minus the magnitude of the standard, and the code 128 above it to the negation of that.
pub decode_mulaw-companding :
    (x y : ℕ)
    → x < 128
    → y < 128
    → (ltb_ℤ (decode_mulaw x) (decode_mulaw y) ≡ ltb x y)
      × (decode_mulaw x ≡ pos 0 -ℤ pos (mulaw_magnitude x))
      × (decode_mulaw (x + 128) ≡ pos 0 -ℤ decode_mulaw x)
decode_mulaw-companding x y p q = (
  ordered-ltb decode_mulaw x y
      (all_below_sound 128 _ y (all_below_sound 128 _ x mulaw_order_table p) q),
  negation_of _ _ (all_below_sound 128 _ x mulaw_lower_table p),
  negation_of _ _ (all_below_sound 128 _ x mulaw_sign_table p),
)

-- The A-law decoder, on any two codes below 128, where the even bits of a code are inverted on the line: the codes 128
-- above them decode in the order of the codes, strictly; a lower code decodes to minus the magnitude of the standard,
-- and the code 128 above it to the negation of that.
pub decode_alaw-companding :
    (x y : ℕ)
    → x < 128
    → y < 128
    → (ltb_ℤ (decode_alaw (on_line (x + 128))) (decode_alaw (on_line (y + 128))) ≡ ltb x y)
      × (decode_alaw (on_line x) ≡ pos 0 -ℤ pos (alaw_segment x))
      × (decode_alaw (on_line (x + 128)) ≡ pos 0 -ℤ decode_alaw (on_line x))
decode_alaw-companding x y p q = (
  ordered-ltb (λ c. decode_alaw (on_line (c + 128))) x y
      (all_below_sound 128 _ y (all_below_sound 128 _ x alaw_order_table p) q),
  negation_of _ _ (all_below_sound 128 _ x alaw_lower_table p),
  negation_of _ _ (all_below_sound 128 _ x alaw_sign_table p),
)
