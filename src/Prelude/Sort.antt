-- ===== src/Prelude/Sort.antt =====
-- Python's `sorted` and `list.sort`, which are stable: an insertion sort by a test that says whether
-- its first argument may stand before its second. Ascending, `before x y` is `key(x) <= key(y)`; with
-- `reverse=True` it is `key(y) <= key(x)`, since equal elements keep their order then too.
use mathlib.Core.List.{Perm}
use mathlib.Core.List.Perm
use mathlib.Core.List.{length as length_unary}
use mathlib.Core.Nat.{ℕ as ℕ_unary, zero as zero_unary, suc as suc_unary}
use cma_real_time_coaching.Prelude.{
  ℕ, suc, ◌≡◌, refl, ap, sym, ◌∙◌, Bool, true, false, Bool-cases, inl, inr, List, [], ◌∷◌,
  if◌then◌else◌, length, All, All-map,
}

native : ℕ_unary → ℕ
native zero_unary = 0
native (suc_unary n) = suc (native n)

native-length {ℓ} : {A : Type ℓ} (xs : List A) → native (length_unary xs) ≡ length xs
unfolding native
native-length [] = refl
native-length (x ∷ xs) = ap suc (native-length xs)

-- A rearranged list is as long as it was.
pub perm-length {ℓ} : {A : Type ℓ} {xs ys : List A} → Perm xs ys → length xs ≡ length ys
perm-length {A} {xs} {ys} p =
    sym (native-length xs) ∙ ap native (Perm.length-eq p) ∙ native-length ys

module _ {ℓ} {A : Type ℓ} (before : A → A → Bool) where
  unfoldable pub insort : A → List A → List A
  insort x [] = x ∷ []
  insort x (y ∷ ys) = if before x y then x ∷ y ∷ ys else y ∷ insort x ys

  unfoldable pub sort : List A → List A
  unfolding insort
  sort [] = []
  sort (x ∷ xs) = insort x (sort xs)

  -- Each element may stand before all that come after it.
  abbrev pub IsSorted : List A → Type 0
  IsSorted [] = Unit
  IsSorted (x ∷ xs) = All (λ y. before x y ≡ true) xs × IsSorted xs

  -- Of two elements one may stand before the other, and the test is transitive.
  pub record IsPreorder : Type ℓ where
    pub total : (x y : A) → before x y ≡ false → before y x ≡ true
    pub trans : (x y z : A) → before x y ≡ true → before y z ≡ true → before x z ≡ true

  pub length-insort : (x : A) (xs : List A) → length (insort x xs) ≡ suc (length xs)
  unfolding insort
  length-insort x [] = refl
  length-insort x (y ∷ ys) = elim (Bool-cases (before x y)) [
    | inl yes_before ↦ rw (yes_before, insort) refl
    | inr after ↦ rw (after, insort) (ap suc (length-insort x ys))
  ]

  pub length-sort : (xs : List A) → length (sort xs) ≡ length xs
  unfolding sort
  length-sort [] = refl
  length-sort (x ∷ xs) = length-insort x (sort xs) ∙ ap suc (length-sort xs)

  insort-perm : (x : A) (xs : List A) → Perm (insort x xs) (x ∷ xs)
  unfolding insort
  insort-perm x [] = Perm.refl (x ∷ [])
  insort-perm x (y ∷ ys) = elim (Bool-cases (before x y)) [
    | inl yes_before ↦ rw (yes_before, insort) (Perm.refl (x ∷ y ∷ ys))
    | inr after ↦
        rw (after, insort) (Perm.trans (Perm.cons y (insort-perm x ys)) (Perm.swap x y ys))
  ]

  -- Sorting rearranges.
  pub sort-perm : (xs : List A) → Perm (sort xs) xs
  unfolding sort
  sort-perm [] = Perm.refl []
  sort-perm (x ∷ xs) = Perm.trans (insort-perm x (sort xs)) (Perm.cons x (sort-perm xs))

  module _ {κ} (P : A → Type κ) where
    pub All-insort : (x : A) (xs : List A) → P x → All P xs → All P (insort x xs)
    unfolding insort
    All-insort x [] p a = (p, tt)
    All-insort x (y ∷ ys) p a = elim (Bool-cases (before x y)) [
      | inl yes_before ↦ rw (yes_before, insort) (p, a)
      | inr after ↦ rw (after, insort) (a.0, All-insort x ys p a.1)
    ]

    pub All-sort : (xs : List A) → All P xs → All P (sort xs)
    unfolding sort
    All-sort [] a = tt
    All-sort (x ∷ xs) a = All-insort x (sort xs) a.0 (All-sort xs a.1)

    insort-All : (x : A) (xs : List A) → All P (insort x xs) → P x × All P xs
    unfolding insort
    insort-All x [] = λ a. a
    insort-All x (y ∷ ys) = elim (Bool-cases (before x y)) [
      | inl yes_before ↦ rw (yes_before, insort) (λ a. a)
      | inr after ↦ rw (after, insort) (λ a. let (p, q) = insort-All x ys a.1 in (p, (a.0, q)))
    ]

    -- What holds of the sorted elements holds of the elements.
    pub sort-All : (xs : List A) → All P (sort xs) → All P xs
    unfolding sort
    sort-All [] a = tt
    sort-All (x ∷ xs) a = let (p, q) = insort-All x (sort xs) a in (p, sort-All xs q)

  module _ (order : IsPreorder) where
    pub insort-IsSorted : (x : A) (xs : List A) → IsSorted xs → IsSorted (insort x xs)
    unfolding insort
    insort-IsSorted x [] s = (tt, tt)
    insort-IsSorted x (y ∷ ys) s = elim (Bool-cases (before x y)) [
      | inl yes_before ↦
          rw (yes_before, insort)
            ((yes_before, All-map _ _ ys (λ z h. order.trans x y z yes_before h) s.0), s)
      | inr after ↦
          rw (after, insort)
            (
              All-insort (λ z. before y z ≡ true) x ys (order.total x y after) s.0,
              insort-IsSorted x ys s.1,
            )
    ]

    pub sort-IsSorted : (xs : List A) → IsSorted (sort xs)
    unfolding sort
    sort-IsSorted [] = tt
    sort-IsSorted (x ∷ xs) = insort-IsSorted x (sort xs) (sort-IsSorted xs)

  -- Any two elements are related, in either order of a symmetric relation.
  module _ {κ} (R : A → A → Type κ) where
    abbrev pub Apart : List A → Type κ
    Apart [] = Unit
    Apart (x ∷ xs) = All (R x) xs × Apart xs

    module _ (symmetric : (x y : A) → R x y → R y x) where
      pub insort-Apart : (x : A) (xs : List A) → All (R x) xs → Apart xs → Apart (insort x xs)
      unfolding insort
      insort-Apart x [] r a = (tt, tt)
      insort-Apart x (y ∷ ys) r a = elim (Bool-cases (before x y)) [
        | inl yes_before ↦ rw (yes_before, insort) (r, a)
        | inr after ↦
            rw (after, insort)
              (All-insort (R y) x ys (symmetric x y r.0) a.0, insort-Apart x ys r.1 a.1)
      ]

      pub sort-Apart : (xs : List A) → Apart xs → Apart (sort xs)
      unfolding sort
      sort-Apart [] a = tt
      sort-Apart (x ∷ xs) a = insort-Apart x (sort xs) (All-sort (R x) xs a.0) (sort-Apart xs a.1)
