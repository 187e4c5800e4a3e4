-- ===== src/Diarization/IdentityTracker/Names.antt =====
-- `f"CALL_SPEAKER_{ordinal:04d}"` of app/diarization/identity_tracker.py: decimal digits, at least four, of which
-- different ordinals have different ones.
use cma_real_time_coaching.Prelude.{
  ℕ, zero, suc, ◌+◌, ◌-◌, ◌*◌, ◌/◌, ◌%◌, ◌≤◌, ◌<◌, ◌≡◌, refl, ap, sym, ◌∙◌, Bool-cases, inl, inr,
  [], ◌∷◌, ◌++◌, ◌==◌, nat_eq, nat_beq_iff, if◌then◌else◌, length, drop, replicate, arith,
}
use cma_real_time_coaching.Prelude.Text.{Text, codes}

-- The digits of a number below the fuel.
unfoldable pub digits : ℕ → ℕ → Text
digits zero n = []
digits (suc fuel) n =
    let front = digits fuel (n / 10) in (if n / 10 == 0 then [] else front) ++ (48 + n % 10) ∷ []

-- At least four digits.
unfoldable pub padded : Text → Text
padded ds = replicate (4 - length ds) 48 ++ ds

unfoldable pub global_name : ℕ → Text
unfolding digits padded
global_name ordinal = codes "CALL_SPEAKER_" ++ padded (digits (suc ordinal) ordinal)

-- The number that digits stand for, after `acc`.
unfoldable value : ℕ → Text → ℕ
value acc [] = acc
value acc (c ∷ cs) = value (acc * 10 + (c - 48)) cs

value-append : (acc : ℕ) (xs ys : Text) → value acc (xs ++ ys) ≡ value (value acc xs) ys
unfolding value
value-append acc [] ys = refl
value-append acc (x ∷ xs) ys = value-append (acc * 10 + (x - 48)) xs ys

value-replicate : (k : ℕ) → value 0 (replicate k 48) ≡ 0
unfolding value
value-replicate zero = refl
value-replicate (suc k) = value-replicate k

value-digits : (fuel n : ℕ) → n < fuel → value 0 (digits fuel n) ≡ n
unfolding digits value
value-digits zero n h = absurd (omega (arith, h))
value-digits (suc fuel) n h = elim (Bool-cases (n / 10 == 0)) [
  | inl small ↦ let q = (nat_beq_iff (n / 10) 0).0 small in rw (small, digits) (omega (arith, q))
  | inr large ↦
      let q : 1 ≤ n / 10 = ground (arith, large) in
      rw (large, digits)
        (value-append 0 (digits fuel (n / 10)) ((48 + n % 10) ∷ [])
          ∙ omega (arith, value-digits fuel (n / 10) (omega (arith, h, q))))
]

value-padded : (ds : Text) → value 0 (padded ds) ≡ value 0 ds
unfolding padded
value-padded ds =
    value-append 0 (replicate (4 - length ds) 48) ds
    ∙ ap (λ a. value a ds) (value-replicate (4 - length ds))

-- Different ordinals have different names.
pub global_name-injective : (m n : ℕ) → global_name m ≡ global_name n → m ≡ n
unfolding global_name
global_name-injective m n e =
    let ordinal : (k : ℕ) → value 0 (drop 13 (global_name k)) ≡ k =
      λ k. value-padded (digits (suc k) k) ∙ value-digits (suc k) k (omega arith) in
    sym (ordinal m) ∙ ap (λ t. value 0 (drop 13 t)) e ∙ ordinal n
