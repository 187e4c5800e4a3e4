-- ===== src/Classification/PostProcessing/Strongest.antt =====
-- The labels that `merge_classification_views` (app/classification/postprocessing.py) takes from the two views.
use cma_real_time_coaching.Prelude.{
  ℕ, ◌≤◌, ◌≡◌, ap, sym, subst, ◌∙◌, ◌⊎◌, inl, inr, true, false, Bool-cases, Option, none, some,
  Option-cases, List, [], ◌∷◌, String, string_eq, arith, All, ltb, ltb-true, ltb-false,
  if◌then◌else◌,
}
use cma_real_time_coaching.Prelude.Dict
use cma_real_time_coaching.Prelude.Dict.{Dict}
use cma_real_time_coaching.Prelude.Index.{includes}
use cma_real_time_coaching.Events.Models.{ClassificationLabel, ClassificationResultEvent}
use cma_real_time_coaching.Classification.PostProcessing.{
  by_name, active_names, stronger, merge_labels, merge_values, common_names, has_both, labels_in,
  merge_classification_views,
}

-- The score of a label, if there is one, is at most `n`.
abbrev pub AtMost : ℕ → Option ClassificationLabel → Type 0
AtMost n none = Unit
AtMost n (some l) = l.score ≤ n

-- A label that one of the views has under the name, with a score that neither exceeds.
pub record IsStrongest (delta context : Dict String ClassificationLabel) (l : ClassificationLabel)
    : Type 0 where
  pub name : String
  pub from_view : (Dict.get name delta ≡ some l) ⊎ (Dict.get name context ≡ some l)
  pub over_delta : AtMost l.score (Dict.get name delta)
  pub over_context : AtMost l.score (Dict.get name context)

-- The choice between two labels.
abbrev pub Chosen :
    Option ClassificationLabel → Option ClassificationLabel → ClassificationLabel → Type 0
Chosen a b l = ((a ≡ some l) ⊎ (b ≡ some l)) × AtMost l.score a × AtMost l.score b

some_inj : (a l : ClassificationLabel) → some a ≡ some l → a ≡ l
some_inj a l e = ap (λ o. elim o as (λ x. ClassificationLabel) [ none ↦ a | some x ↦ x ]) e

pub stronger-Chosen :
    (a b : Option ClassificationLabel) (l : ClassificationLabel)
    → stronger a b ≡ some l
    → Chosen a b l
stronger-Chosen none none l e = cc
stronger-Chosen none (some b) l e =
    (inr e, tt, subst (λ x. b.score ≤ x.score) (some_inj b l e) (omega arith))
stronger-Chosen (some a) none l e =
    (inl e, subst (λ x. a.score ≤ x.score) (some_inj a l e) (omega arith), tt)
stronger-Chosen (some a) (some b) l e = elim (Bool-cases (ltb a.score b.score)) [
  | inl less ↦
      let q : b ≡ l = some_inj b l (ap (λ c. some (if c then b else a)) (sym less) ∙ e) in
      (
        inr (ap some q),
        subst (λ x. a.score ≤ x.score) q (omega (arith, ltb-true a.score b.score less)),
        subst (λ x. b.score ≤ x.score) q (omega arith),
      )
  | inr enough ↦
      let q : a ≡ l = some_inj a l (ap (λ c. some (if c then b else a)) (sym enough) ∙ e) in
      (
        inl (ap some q),
        subst (λ x. a.score ≤ x.score) q (omega arith),
        subst (λ x. b.score ≤ x.score) q (omega (arith, ltb-false a.score b.score enough)),
      )
]

merge_labels-IsStrongest :
    (delta context : Dict String ClassificationLabel) (names : List String)
    → All (IsStrongest delta context) (merge_labels delta context names)
unfolding merge_labels
merge_labels-IsStrongest delta context [] = tt
merge_labels-IsStrongest delta context (name ∷ names) =
    elim (Option-cases (stronger (Dict.get name delta) (Dict.get name context))) [
      | inl nothing ↦ rw (nothing, merge_labels) (merge_labels-IsStrongest delta context names)
      | inr (l, e) ↦
          let (v, d, c) = stronger-Chosen (Dict.get name delta) (Dict.get name context) l e in
          rw (e, merge_labels)
            (
              record { name = name; from_view = v; over_delta = d; over_context = c },
              merge_labels-IsStrongest delta context names,
            )
    ]

labels_in-All :
    (P : ClassificationLabel → Type 0) (names : List String) (ls : List ClassificationLabel)
    → All P ls
    → All P (labels_in names ls)
unfolding labels_in
labels_in-All P names [] a = tt
labels_in-All P names (l ∷ ls) a = elim (Bool-cases (includes l.name names)) [
  | inl kept ↦ rw (kept, labels_in) (a.0, labels_in-All P names ls a.1)
  | inr dropped ↦ rw (dropped, labels_in) (labels_in-All P names ls a.1)
]

-- Each label of the merged result is a label that one of the two results has under some name, with a score that is
-- not exceeded by the label of either result under that name.
pub merge_classification_views-IsStrongest :
    (delta context : ClassificationResultEvent)
    → All
        (IsStrongest (by_name delta.labels) (by_name context.labels))
        (merge_classification_views delta context).result.labels
unfolding merge_classification_views
merge_classification_views-IsStrongest delta context =
    let d = by_name delta.labels in
    let c = by_name context.labels in
    let p = merge_values true delta.probabilities context.probabilities in
    let t = merge_values false delta.thresholds context.thresholds in
    let a = merge_labels-IsStrongest d c (active_names d c) in
    elim (Bool-cases (has_both p t)) [
      | inl both ↦
          rw (both, merge_classification_views)
            (labels_in-All (IsStrongest d c) (common_names p t) _ a)
      | inr not_both ↦ rw (not_both, merge_classification_views) a
    ]
