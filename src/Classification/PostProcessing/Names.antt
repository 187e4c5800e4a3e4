-- ===== src/Classification/PostProcessing/Names.antt =====
-- The names of the labels that `canonicalize_classification_result` (app/classification/postprocessing.py) gives.
use cma_real_time_coaching.Prelude.{
  ◌≡◌, ◌≢◌, refl, ap, sym, subst, ◌∙◌, ◌⊎◌, inl, inr, false, Bool-cases, ◌||◌, Option, some,
  Option-cases, List, [], ◌∷◌, String, ◌==◌, string_eq, arith, All,
}
use cma_real_time_coaching.Prelude.Dict
use cma_real_time_coaching.Prelude.Dict.{Dict, Distinct, All-remove, remove-Distinct, remove-All_ne}
use cma_real_time_coaching.Prelude.Index.{
  includes, keys, values, keys-AllDifferent, keys-All, Indexes, put-Indexes, empty-Indexes,
  map-values,
}
use cma_real_time_coaching.Events.Labels.{canonical_label, any_action}
use cma_real_time_coaching.Events.Labels.Canonical.{IsCanonical, Canonical, label-IsCanonical}
use cma_real_time_coaching.Events.Models.{ClassificationLabel, ClassificationResultEvent}
use cma_real_time_coaching.Calls.Labels.Accumulated.{same-AllDifferent}
use cma_real_time_coaching.Calls.State.{names_of}
use cma_real_time_coaching.Classification.PostProcessing.{
  Values, canonical_values, improves, best_by_name, common_names, restrict, has_both, final_labels,
  canonicalize_classification_result,
}

abbrev name_key : ClassificationLabel → String
name_key l = l.name

best_by_name-Indexes :
    (normalize : String → Option String)
    → ((label name : String) → normalize label ≡ some name → IsCanonical name)
    → (known : Dict String ClassificationLabel) (labels : List ClassificationLabel)
    → Indexes name_key IsCanonical known
    → Indexes name_key IsCanonical (best_by_name normalize known labels)
unfolding best_by_name
best_by_name-Indexes normalize canonical known [] h = h
best_by_name-Indexes normalize canonical known (l ∷ ls) h = elim (Option-cases (normalize l.name)) [
  | inl unknown ↦ rw (unknown, best_by_name) (best_by_name-Indexes normalize canonical known ls h)
  | inr (name, e) ↦ elim (Bool-cases (improves l (Dict.get name known))) [
    | inr worse ↦ rw (e, worse, best_by_name) (best_by_name-Indexes normalize canonical known ls h)
    | inl better ↦
        rw (e, better, best_by_name)
          (best_by_name-Indexes normalize canonical (Dict.put name (record l { name = name }) known)
            ls
            (put-Indexes name_key IsCanonical name (record l { name = name }) known
              (canonical l.name name e) refl h))
  ]
]

module _ (names : List String) where
  restrict-All :
      (P : String × ClassificationLabel → Type 0) (d : Dict String ClassificationLabel)
      → All P d
      → All P (restrict names d)
  unfolding restrict
  restrict-All P [] a = tt
  restrict-All P ((k, v) ∷ d) a = elim (Bool-cases (includes k names)) [
    | inl kept ↦ rw (kept, restrict) (a.0, restrict-All P d a.1)
    | inr dropped ↦ rw (dropped, restrict) (restrict-All P d a.1)
  ]

  contains-restrict :
      (j : String) (d : Dict String ClassificationLabel)
      → Dict.contains j d ≡ false
      → Dict.contains j (restrict names d) ≡ false
  unfolding restrict Dict.contains
  contains-restrict j [] e = refl
  contains-restrict j ((k, v) ∷ d) e = ground (arith, e, contains-restrict j d)

  restrict-Distinct :
      (d : Dict String ClassificationLabel) → Distinct d → Distinct (restrict names d)
  unfolding restrict
  restrict-Distinct [] h = tt
  restrict-Distinct ((k, v) ∷ d) h = elim (Bool-cases (includes k names)) [
    | inl kept ↦ rw (kept, restrict) (contains-restrict k d h.0, restrict-Distinct d h.1)
    | inr dropped ↦ rw (dropped, restrict) (restrict-Distinct d h.1)
  ]

  restrict-Indexes :
      (P : String → Type 0) (d : Dict String ClassificationLabel)
      → Indexes name_key P d
      → Indexes name_key P (restrict names d)
  restrict-Indexes P d h = record {
    distinct = restrict-Distinct d h.distinct;
    keyed = restrict-All (λ x. name_key x.1 ≡ x.0) d h.keyed;
    own = restrict-All (λ x. P x.0) d h.own;
  }

remove-Indexes :
    (P : String → Type 0) (k : String) (d : Dict String ClassificationLabel)
    → Indexes name_key P d
    → Indexes name_key P (Dict.remove k d)
remove-Indexes P k d h = record {
  distinct = remove-Distinct k d h.distinct;
  keyed = All-remove (λ x. name_key x.1 ≡ x.0) k d h.keyed;
  own = All-remove (λ x. P x.0) k d h.own;
}

includes_other :
    (ls : List String) → All (λ l. l ≢ "no_action") ls → includes "no_action" ls ≡ false
unfolding includes
includes_other [] a = refl
includes_other (l ∷ ls) a = elim (Bool-cases (l == "no_action")) [
  | inl same ↦ absurd (a.0 ((string_eq.beq_iff l "no_action").0 same))
  | inr other ↦ ap (λ b. b || includes "no_action" ls) other ∙ includes_other ls a.1
]

any_action-false :
    (d : Dict String ClassificationLabel)
    → any_action (keys d) ≡ false
    → All (λ x. x.0 ≡ "no_action") d
unfolding any_action
any_action-false [] e = tt
any_action-false ((k, v) ∷ d) e = (
  (string_eq.beq_iff k "no_action").0 (ground (arith, e)),
  any_action-false d (ground (arith, e)),
)

indexed-Canonical :
    (d : Dict String ClassificationLabel)
    → Indexes name_key IsCanonical d
    → (includes "no_action" (keys d) ≡ false) ⊎ (keys d ≡ "no_action" ∷ [])
    → Canonical (names_of (values d))
indexed-Canonical d h i = subst Canonical (sym (map-values name_key d h.keyed)) (record {
  known = keys-All IsCanonical d h.own;
  different = keys-AllDifferent d h.distinct;
  idle_alone = i;
})

-- Of labels that are all `no_action`, none is left or it is alone.
all_idle :
    (d : Dict String ClassificationLabel)
    → Indexes name_key IsCanonical d
    → All (λ x. x.0 ≡ "no_action") d
    → (includes "no_action" (keys d) ≡ false) ⊎ (keys d ≡ "no_action" ∷ [])
unfolding includes
all_idle d h a =
    elim (same-AllDifferent (keys d) (keys-All (λ l. l ≡ "no_action") d a)
      (keys-AllDifferent d h.distinct)) [
        | inl nothing ↦ inl (ap (includes "no_action") nothing)
        | inr alone ↦ inr alone
      ]

final_labels-Canonical :
    (p t : Values) (labels : Dict String ClassificationLabel)
    → Indexes name_key IsCanonical labels
    → Canonical (names_of (values (final_labels p t labels)))
unfolding final_labels
final_labels-Canonical p t labels h = elim (Bool-cases (any_action (keys labels))) [
  | inl active ↦ elim (Bool-cases (has_both p t)) [
    | inl both ↦
        rw (active, both, final_labels)
          (removed (restrict (common_names p t) labels)
            (restrict-Indexes (common_names p t) IsCanonical labels h))
    | inr not_both ↦ rw (active, not_both, final_labels) (removed labels h)
  ]
  | inr idle ↦
      let a = any_action-false labels idle in
      elim (Bool-cases (has_both p t)) [
        | inl both ↦
            let shared = restrict (common_names p t) labels in
            let k = restrict-Indexes (common_names p t) IsCanonical labels h in
            rw (idle, both, final_labels)
              (indexed-Canonical shared k (
                all_idle shared k
                  (restrict-All (common_names p t) (λ x. x.0 ≡ "no_action") labels a)))
        | inr not_both ↦
            rw (idle, not_both, final_labels) (indexed-Canonical labels h (all_idle labels h a))
      ]
]
  where
    removed :
        (d : Dict String ClassificationLabel)
        → Indexes name_key IsCanonical d
        → Canonical (names_of (values (Dict.remove "no_action" d)))
    removed d k =
        indexed-Canonical (Dict.remove "no_action" d) (remove-Indexes IsCanonical "no_action" d k) (
          inl (
            includes_other (keys (Dict.remove "no_action" d)) (
              keys-All (λ l. l ≢ "no_action") (Dict.remove "no_action" d)
                (remove-All_ne "no_action" d k.distinct))))

-- Whatever `str.strip` and `str.casefold` give, the labels of a result after `canonicalize_classification_result` have
-- canonical names, none of them twice, and `no_action` only if it is the only one.
pub canonicalize_classification_result-Canonical :
    (strip casefold : String → String) (result : ClassificationResultEvent)
    → Canonical (names_of (canonicalize_classification_result strip casefold result).labels)
unfolding canonicalize_classification_result
canonicalize_classification_result-Canonical strip casefold result =
    let normalize = canonical_label strip casefold in
    final_labels-Canonical (canonical_values normalize [] result.probabilities)
      (canonical_values normalize [] result.thresholds) (best_by_name normalize [] result.labels)
      (best_by_name-Indexes normalize (label-IsCanonical strip casefold) [] result.labels
        (empty-Indexes name_key IsCanonical))
