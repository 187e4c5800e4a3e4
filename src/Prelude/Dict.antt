-- ===== src/Prelude/Dict.antt =====
-- Python's `dict` and `OrderedDict`: an association list in the order of insertion. A key that is
-- written again keeps its place; `remove` takes out one entry, as keys are distinct.
use cma_real_time_coaching.Prelude.{
  suc, ◌≡◌, refl, ◌≢◌, Bool, true, false, Option, none, some, List, [], ◌∷◌, arith, Eq, ◌==◌,
  if◌then◌else◌, length, All, All-map, Bool-cases, inl, inr, subst, sym, ◌∙◌,
}

abbrev pub Dict {ℓ κ} : Type ℓ → Type κ → Type (ℓ ⊔ κ)
Dict K V = List (K × V)

module _ {ℓ κ} {K : Type ℓ} {V : Type κ} ⦃e : Eq K⦄ where
  -- d.get(k)
  unfoldable pub get : K → Dict K V → Option V
  get k [] = none
  get k ((j, v) ∷ d) = if j == k then some v else get k d

  -- k in d
  unfoldable pub contains : K → Dict K V → Bool
  contains k [] = false
  contains k ((j, v) ∷ d) = if j == k then true else contains k d

  -- d[k] = v
  unfoldable pub put : K → V → Dict K V → Dict K V
  put k v [] = (k, v) ∷ []
  put k v ((j, w) ∷ d) = if j == k then (j, v) ∷ d else (j, w) ∷ put k v d

  -- del d[k], d.pop(k, None)
  unfoldable pub remove : K → Dict K V → Dict K V
  remove k [] = []
  remove k ((j, v) ∷ d) = if j == k then d else (j, v) ∷ remove k d

  pub get-contains : (k : K) (d : Dict K V) → get k d ≡ none → contains k d ≡ false
  unfolding get contains
  get-contains k [] h = refl
  get-contains k ((j, v) ∷ d) h = ground (arith, get-contains k d)

  pub contains-get : (k : K) (d : Dict K V) → contains k d ≡ true → (v : V) × (get k d ≡ some v)
  unfolding get contains
  contains-get k [] h = elim (Bool-cases false) [
    | inl x ↦ absurd (ground arith)
    | inr x ↦ absurd (ground arith)
  ]
  contains-get k ((j, v) ∷ d) h = elim (Bool-cases (j == k)) [
    | inl same ↦ (v, ground arith)
    | inr other ↦ let (w, p) = contains-get k d (ground arith) in (w, ground arith)
  ]

  pub get-put :
      (k j : K) (v : V) (d : Dict K V) → get j (put k v d) ≡ (if k == j then some v else get j d)
  unfolding get put
  get-put k j v [] = refl
  get-put k j v ((i, w) ∷ d) =
      ground (arith, e.beq_iff i k, e.beq_iff i j, e.beq_iff k j, get-put k j v d)

  pub get-remove_ne : (k j : K) (d : Dict K V) → k ≢ j → get j (remove k d) ≡ get j d
  unfolding get remove
  get-remove_ne k j [] h = refl
  get-remove_ne k j ((i, w) ∷ d) h =
      ground (arith, e.beq_iff i k, e.beq_iff i j, get-remove_ne k j d h)

  pub length-remove :
      (k : K) (d : Dict K V) (v : V) → get k d ≡ some v → suc (length (remove k d)) ≡ length d
  unfolding get remove
  length-remove k [] v h = ground arith
  length-remove k ((j, w) ∷ d) v h = ground (arith, length-remove k d v)

  pub length-put_new :
      (k : K) (v : V) (d : Dict K V) → get k d ≡ none → length (put k v d) ≡ suc (length d)
  unfolding get put
  length-put_new k v [] h = refl
  length-put_new k v ((j, w) ∷ d) h = ground (arith, length-put_new k v d)

entry-eq {ℓ κ} :
    {K : Type ℓ} {V : Type κ} (j k : K) (w v : V) → j ≡ k → w ≡ v → ◌≡◌ {A = K × V} (j, w) (k, v)
entry-eq j k w v p q = λ i. (p i, q i)

module _ {ℓ κ μ} {K : Type ℓ} {V : Type κ} ⦃e : Eq K⦄ (P : K × V → Type μ) where
  pub All-get : (k : K) (d : Dict K V) (v : V) → All P d → get k d ≡ some v → P (k, v)
  unfolding get
  All-get k [] v a h = absurd (ground arith)
  All-get k ((j, w) ∷ d) v a h = elim (Bool-cases (j == k)) [
    | inl same ↦ subst P (entry-eq j k w v ((e.beq_iff j k).0 same) (ground arith)) a.0
    | inr other ↦ All-get k d v a.1 (ground arith)
  ]

  pub All-remove : (k : K) (d : Dict K V) → All P d → All P (remove k d)
  unfolding remove
  All-remove k [] a = a
  All-remove k ((j, w) ∷ d) a = elim (Bool-cases (j == k)) [
    | inl same ↦ rw (same) a.1
    | inr other ↦ rw (other) (a.0, All-remove k d a.1)
  ]

  pub All-put :
      (k : K) (v : V) (d : Dict K V)
      → P (k, v)
      → ((j : K) → j ≡ k → P (j, v))
      → All P d
      → All P (put k v d)
  unfolding put
  All-put k v [] p q a = (p, tt)
  All-put k v ((j, w) ∷ d) p q a = elim (Bool-cases (j == k)) [
    | inl same ↦ rw (same) (q j ((e.beq_iff j k).0 same), a.1)
    | inr other ↦ rw (other) (a.0, All-put k v d p q a.1)
  ]

-- Every key stands once.
abbrev pub Distinct {ℓ κ} : {K : Type ℓ} {V : Type κ} ⦃e : Eq K⦄ → Dict K V → Type 0
Distinct [] = Unit
Distinct ((k, v) ∷ d) = (contains k d ≡ false) × Distinct d

module _ {ℓ κ} {K : Type ℓ} {V : Type κ} ⦃e : Eq K⦄ where
  contains-remove-false :
      (j k : K) (d : Dict K V) → contains j d ≡ false → contains j (remove k d) ≡ false
  unfolding contains remove
  contains-remove-false j k [] h = refl
  contains-remove-false j k ((i, v) ∷ d) h = ground (arith, contains-remove-false j k d)

  pub remove-Distinct : (k : K) (d : Dict K V) → Distinct d → Distinct (remove k d)
  unfolding remove
  remove-Distinct k [] h = tt
  remove-Distinct k ((j, v) ∷ d) h = elim (Bool-cases (j == k)) [
    | inl same ↦ rw same h.1
    | inr other ↦ rw other (contains-remove-false j k d h.0, remove-Distinct k d h.1)
  ]

  contains-put_ne : (j k : K) (v : V) (d : Dict K V) → j ≢ k → contains j (put k v d) ≡ contains j d
  unfolding contains put
  contains-put_ne j k v [] h = ground (arith, e.beq_iff k j)
  contains-put_ne j k v ((i, w) ∷ d) h = ground (arith, contains-put_ne j k v d h)

  pub put-Distinct : (k : K) (v : V) (d : Dict K V) → Distinct d → Distinct (put k v d)
  unfolding put contains
  put-Distinct k v [] h = (refl, tt)
  put-Distinct k v ((j, w) ∷ d) h = elim (Bool-cases (j == k)) [
    | inl same ↦ rw same h
    | inr other ↦
        rw other (
          contains-put_ne j k v d (λ q. ground (arith, e.beq_iff j k)) ∙ h.0,
          put-Distinct k v d h.1,
        )
  ]

  pub not_contains-All : (k : K) (d : Dict K V) → contains k d ≡ false → All (λ x. x.0 ≢ k) d
  unfolding contains
  not_contains-All k [] h = tt
  not_contains-All k ((j, v) ∷ d) h =
      ((λ q. ground (arith, e.beq_iff j k)), not_contains-All k d (ground arith))

  -- After a removal no entry has the key.
  pub remove-All_ne : (k : K) (d : Dict K V) → Distinct d → All (λ x. x.0 ≢ k) (remove k d)
  unfolding remove
  remove-All_ne k [] h = tt
  remove-All_ne k ((j, v) ∷ d) h = elim (Bool-cases (j == k)) [
    | inl same ↦
        rw same
          (subst (λ x. All (λ y. y.0 ≢ x) d) ((e.beq_iff j k).0 same) (not_contains-All j d h.0))
    | inr other ↦ rw other ((λ q. ground (arith, e.beq_iff j k)), remove-All_ne k d h.1)
  ]

  get_not_contains : (k : K) (d : Dict K V) → contains k d ≡ false → get k d ≡ none
  unfolding get contains
  get_not_contains k [] h = refl
  get_not_contains k ((j, v) ∷ d) h = ground (arith, get_not_contains k d)

  pub get-remove_self : (k : K) (d : Dict K V) → Distinct d → get k (remove k d) ≡ none
  unfolding get remove
  get-remove_self k [] h = refl
  get-remove_self k ((j, v) ∷ d) h = elim (Bool-cases (j == k)) [
    | inl same ↦
        rw same (subst (λ x. get x d ≡ none) ((e.beq_iff j k).0 same) (get_not_contains j d h.0))
    | inr other ↦ rw other (rw other (get-remove_self k d h.1))
  ]

  -- What is found after a removal was there before.
  pub get-remove-some :
      (j k : K) (d : Dict K V) (v : V) → Distinct d → get j (remove k d) ≡ some v → get j d ≡ some v
  get-remove-some j k d v h g = elim (Bool-cases (k == j)) [
    | inl same ↦ absurd (
        ground (
          arith,
          subst (λ x. get x (remove k d) ≡ none) ((e.beq_iff k j).0 same) (get-remove_self k d h),
        ))
    | inr other ↦ sym (get-remove_ne k j d (λ q. ground (arith, e.beq_iff k j))) ∙ g
  ]

  contains_weaken :
      (k : K) (x : K × V) (d : Dict K V) → contains k d ≡ true → contains k (x ∷ d) ≡ true
  unfolding contains
  contains_weaken k (j, v) d h = ground arith

  contains_first : (k : K) (v : V) (d : Dict K V) → contains k ((k, v) ∷ d) ≡ true
  unfolding contains
  contains_first k v d = ground (arith, (e.beq_iff k k).1 refl)

  -- Every key of a dictionary is found in it.
  pub keys_found : (d : Dict K V) → All (λ x. contains x.0 d ≡ true) d
  keys_found [] = tt
  keys_found ((j, v) ∷ d) =
      (contains_first j v d, All-map _ _ d (λ x h. contains_weaken x.0 (j, v) d h) (keys_found d))
