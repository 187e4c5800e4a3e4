-- ===== src/Prelude/Index.antt =====
-- A dictionary of values under a text that each value carries: `{key(v): v for v in values}`.
use cma_real_time_coaching.Prelude.{
  ◌≡◌, refl, sym, ◌∙◌, Bool, false, ◌||◌, List, [], ◌∷◌, map, String, ◌==◌, string_eq, arith, All,
  subst,
}
use cma_real_time_coaching.Prelude.Dict
use cma_real_time_coaching.Prelude.Dict.{Dict, Distinct, All-put, put-Distinct}

-- label in labels
unfoldable pub includes : String → List String → Bool
includes label [] = false
includes label (l ∷ ls) = l == label || includes label ls

-- No text stands twice.
abbrev pub AllDifferent : List String → Type 0
AllDifferent [] = Unit
AllDifferent (l ∷ ls) = (includes l ls ≡ false) × AllDifferent ls

module _ {ℓ} {V : Type ℓ} where
  abbrev pub keys : Dict String V → List String
  keys [] = []
  keys ((k, v) ∷ d) = k ∷ keys d

  abbrev pub values : Dict String V → List V
  values [] = []
  values ((k, v) ∷ d) = v ∷ values d

  contains-includes : (k : String) (d : Dict String V) → Dict.contains k d ≡ includes k (keys d)
  unfolding Dict.contains includes
  contains-includes k [] = refl
  contains-includes k ((j, v) ∷ d) = ground (arith, contains-includes k d)

  pub keys-AllDifferent : (d : Dict String V) → Distinct d → AllDifferent (keys d)
  keys-AllDifferent [] h = tt
  keys-AllDifferent ((k, v) ∷ d) h = (sym (contains-includes k d) ∙ h.0, keys-AllDifferent d h.1)

  pub keys-All : (P : String → Type 0) (d : Dict String V) → All (λ x. P x.0) d → All P (keys d)
  keys-All P [] h = tt
  keys-All P ((k, v) ∷ d) h = (h.0, keys-All P d h.1)

  module _ (key : V → String) where
    -- The values, put in one after the other.
    unfoldable pub index_into : List V → Dict String V → Dict String V
    index_into [] d = d
    index_into (v ∷ vs) d = index_into vs (Dict.put (key v) v d)

    -- A dictionary whose keys are distinct, belong to their values, and have a property.
    pub record Indexes (P : String → Type 0) (d : Dict String V) : Type 0 where
      pub distinct : Distinct d
      pub keyed : All (λ x. key x.1 ≡ x.0) d
      pub own : All (λ x. P x.0) d

    pub put-Indexes :
        (P : String → Type 0) (k : String) (v : V) (d : Dict String V)
        → P k
        → key v ≡ k
        → Indexes P d
        → Indexes P (Dict.put k v d)
    put-Indexes P k v d p e h = record {
      distinct = put-Distinct k v d h.distinct;
      keyed = All-put (λ x. key x.1 ≡ x.0) k v d e (λ j q. e ∙ sym q) h.keyed;
      own = All-put (λ x. P x.0) k v d p (λ j q. subst P (sym q) p) h.own;
    }

    pub index_into-Indexes :
        (P : String → Type 0) (vs : List V) (d : Dict String V)
        → All (λ v. P (key v)) vs
        → Indexes P d
        → Indexes P (index_into vs d)
    unfolding index_into
    index_into-Indexes P [] d a h = h
    index_into-Indexes P (v ∷ vs) d a h =
        index_into-Indexes P vs (Dict.put (key v) v d) a.1 (put-Indexes P (key v) v d a.0 refl h)

    pub empty-Indexes : (P : String → Type 0) → Indexes P []
    empty-Indexes P = record { distinct = tt; keyed = tt; own = tt }

    pub map-values : (d : Dict String V) → All (λ x. key x.1 ≡ x.0) d → map key (values d) ≡ keys d
    map-values [] h = refl
    map-values ((k, v) ∷ d) h = λ i. h.0 i ∷ map-values d h.1 i
