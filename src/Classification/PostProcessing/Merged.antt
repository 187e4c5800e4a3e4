-- ===== src/Classification/PostProcessing/Merged.antt =====
-- The names of the labels that `merge_classification_views` (app/classification/postprocessing.py) gives, and of
-- their sources.
use cma_real_time_coaching.Prelude.{
  ◌≡◌, refl, ap, ◌∙◌, ◌⊎◌, inl, inr, true, false, Bool-cases, Option, none, some, Option-cases,
  List, [], ◌∷◌, ◌++◌, String, ◌==◌, string_eq, arith, All, All-map, All-append, if◌then◌else◌,
}
use cma_real_time_coaching.Prelude.Dict
use cma_real_time_coaching.Prelude.Dict.{Dict, All-get, get-contains}
use cma_real_time_coaching.Prelude.Sort.{All-sort}
use cma_real_time_coaching.Prelude.Index.{includes, keys, index_into-Indexes, empty-Indexes}
use cma_real_time_coaching.Events.Labels.{any_action, only_actions}
use cma_real_time_coaching.Events.Models.{
  ClassificationLabel, ClassificationResultEvent, ClassificationViewSource,
}
use cma_real_time_coaching.Calls.Labels.{not_among}
use cma_real_time_coaching.Calls.State.{names_of}
use cma_real_time_coaching.Classification.PostProcessing.{
  by_name, name_before, active_names, stronger, merge_labels, merge_values, common_names, has_both,
  labels_in, label_sources, restrict, merge_classification_views, Values,
}
use cma_real_time_coaching.Classification.PostProcessing.Strongest.{
  IsStrongest, stronger-Chosen, merge_classification_views-IsStrongest,
}

-- Those of the second list that the first one has.
unfoldable pub among : List String → List String → List String
unfolding includes
among known [] = []
among known (l ∷ ls) = let rest = among known ls in if includes l known then l ∷ rest else rest

-- All names, or those that have a probability and a threshold, if there are any of both.
abbrev pub measured : Values → Values → List String → List String
measured probabilities thresholds names =
    if has_both probabilities thresholds
    then among (common_names probabilities thresholds) names
    else names

names_of-labels_in :
    (known : List String) (ls : List ClassificationLabel)
    → names_of (labels_in known ls) ≡ among known (names_of ls)
unfolding labels_in among
names_of-labels_in known [] = refl
names_of-labels_in known (l ∷ ls) = elim (Bool-cases (includes l.name known)) [
  | inl kept ↦ rw (kept, labels_in, among) (ap (◌∷◌ l.name) (names_of-labels_in known ls))
  | inr dropped ↦ rw (dropped, labels_in, among) (names_of-labels_in known ls)
]

keys-restrict :
    (known : List String) (d : Dict String ClassificationViewSource)
    → keys (restrict known d) ≡ among known (keys d)
unfolding restrict among
keys-restrict known [] = refl
keys-restrict known ((k, v) ∷ d) = elim (Bool-cases (includes k known)) [
  | inl kept ↦ rw (kept, restrict, among) (ap (◌∷◌ k) (keys-restrict known d))
  | inr dropped ↦ rw (dropped, restrict, among) (keys-restrict known d)
]

keys-label_sources :
    (delta context : Dict String ClassificationLabel) (names : List String)
    → keys (label_sources delta context names) ≡ names
unfolding label_sources
keys-label_sources delta context [] = refl
keys-label_sources delta context (n ∷ names) = ap (◌∷◌ n) (keys-label_sources delta context names)

keys-contained :
    (d : Dict String ClassificationLabel) → All (λ n. Dict.contains n d ≡ true) (keys d)
unfolding Dict.contains
keys-contained [] = tt
keys-contained ((k, v) ∷ d) = (
  ground (arith, string_eq.beq_iff k k),
  All-map (λ n. Dict.contains n d ≡ true) (λ n. Dict.contains n ((k, v) ∷ d) ≡ true) (keys d)
      (λ n h. ground (arith, h)) (keys-contained d),
)

module _ (P : String → Type 0) where
  not_among-All : (known ls : List String) → All P ls → All P (not_among known ls)
  unfolding not_among
  not_among-All known [] a = tt
  not_among-All known (l ∷ ls) a = elim (Bool-cases (includes l known)) [
    | inl kept ↦ rw (kept, not_among) (not_among-All known ls a.1)
    | inr dropped ↦ rw (dropped, not_among) (a.0, not_among-All known ls a.1)
  ]

  only_actions-All : (ls : List String) → All P ls → All P (only_actions ls)
  unfolding only_actions
  only_actions-All [] a = tt
  only_actions-All (l ∷ ls) a = elim (Bool-cases (l == "no_action")) [
    | inl idle ↦ rw (idle, only_actions) (only_actions-All ls a.1)
    | inr action ↦ rw (action, only_actions) (a.0, only_actions-All ls a.1)
  ]

module _ (delta context : Dict String ClassificationLabel) where
  -- One of the views has the name.
  abbrev InView : String → Type 0
  InView n = (Dict.contains n delta ≡ true) ⊎ (Dict.contains n context ≡ true)

  active_names-InView : All InView (active_names delta context)
  unfolding active_names
  active_names-InView =
      let names = keys delta ++ not_among (keys delta) (keys context) in
      let a : All InView names =
        All-append InView (keys delta) (not_among (keys delta) (keys context))
          (All-map (λ n. Dict.contains n delta ≡ true) InView (keys delta) (λ n h. inl h)
            (keys-contained delta))
          (not_among-All InView (keys delta) (keys context) (
            All-map (λ n. Dict.contains n context ≡ true) InView (keys context) (λ n h. inr h)
              (keys-contained context))) in
      elim (Bool-cases (any_action names)) [
        | inl active ↦
            rw (active, active_names)
              (All-sort name_before InView (only_actions names) (only_actions-All InView names a))
        | inr idle ↦ rw (idle, active_names) (All-sort name_before InView names a)
      ]

  stronger-none : (a b : Option ClassificationLabel) → stronger a b ≡ none → (a ≡ none) × (b ≡ none)
  stronger-none none none e = (refl, refl)
  stronger-none none (some b) e = cc
  stronger-none (some a) none e = cc
  stronger-none (some a) (some b) e = cc

  none-absurd :
      (n : String) → InView n → stronger (Dict.get n delta) (Dict.get n context) ≡ none → ⊥
  none-absurd n v e =
      let (a, b) = stronger-none (Dict.get n delta) (Dict.get n context) e in
      elim v [
        | inl h ↦ ground (arith, h, get-contains n delta a)
        | inr h ↦ ground (arith, h, get-contains n context b)
      ]

  module _ (delta_keyed : All (λ x. x.1.name ≡ x.0) delta)
      (context_keyed : All (λ x. x.1.name ≡ x.0) context) where
    names_of-merge_labels :
        (names : List String)
        → All InView names
        → names_of (merge_labels delta context names) ≡ names
    unfolding merge_labels
    names_of-merge_labels [] a = refl
    names_of-merge_labels (n ∷ names) a =
        elim (Option-cases (stronger (Dict.get n delta) (Dict.get n context))) [
          | inl nothing ↦ absurd (none-absurd n a.0 nothing)
          | inr (l, e) ↦
              let (v, _, _) = stronger-Chosen (Dict.get n delta) (Dict.get n context) l e in
              let q : l.name ≡ n = elim v [
                | inl h ↦ All-get (λ x. x.1.name ≡ x.0) n delta l delta_keyed h
                | inr h ↦ All-get (λ x. x.1.name ≡ x.0) n context l context_keyed h
              ] in
              rw (e, merge_labels) (λ i. q i ∷ names_of-merge_labels names a.1 i)
        ]

abbrev AnyName : String → Type 0
AnyName n = Unit

All-unit : (ls : List ClassificationLabel) → All (λ l. AnyName l.name) ls
All-unit [] = tt
All-unit (l ∷ ls) = (tt, All-unit ls)

by_name-keyed : (ls : List ClassificationLabel) → All (λ x. x.1.name ≡ x.0) (by_name ls)
by_name-keyed ls =
    (index_into-Indexes (λ l. l.name) AnyName ls [] (All-unit ls)
      (empty-Indexes (λ l. l.name) AnyName)).keyed

-- Of two results: the names of the labels of the merged result are the active names of the two in their order,
-- without those that lack a probability or a threshold if there are any of both; the sources are given for the same
-- names in this order; and each label is one that a result has under some name, whose score neither exceeds there.
pub merge_classification_views-Merges :
    (delta context : ClassificationResultEvent)
    → let m = merge_classification_views delta context in
      let names =
        measured
          (merge_values true delta.probabilities context.probabilities)
          (merge_values false delta.thresholds context.thresholds)
          (active_names (by_name delta.labels) (by_name context.labels)) in
      (names_of m.result.labels ≡ names)
      × (keys m.sources ≡ names)
      × All (IsStrongest (by_name delta.labels) (by_name context.labels)) m.result.labels
unfolding merge_classification_views
merge_classification_views-Merges delta context =
    let d = by_name delta.labels in
    let c = by_name context.labels in
    let p = merge_values true delta.probabilities context.probabilities in
    let t = merge_values false delta.thresholds context.thresholds in
    let names = active_names d c in
    let e =
      names_of-merge_labels d c (by_name-keyed delta.labels) (by_name-keyed context.labels) names
        (active_names-InView d c) in
    let s = keys-label_sources d c names in
    elim (Bool-cases (has_both p t)) [
      | inl both ↦ (
        rw (both, merge_classification_views)
            (names_of-labels_in (common_names p t) (merge_labels d c names)
              ∙ ap (among (common_names p t)) e),
        rw (both, merge_classification_views)
            (keys-restrict (common_names p t) (label_sources d c names)
              ∙ ap (among (common_names p t)) s),
        merge_classification_views-IsStrongest delta context,
      )
      | inr not_both ↦ (
        rw (not_both, merge_classification_views) e,
        rw (not_both, merge_classification_views) s,
        merge_classification_views-IsStrongest delta context,
      )
    ]
