-- ===== src/Classification/Contrast/Suppressed.antt =====
-- What `apply_classification_contrast_guards` (app/classification/postprocessing.py) leaves of the labels.
use cma_real_time_coaching.Prelude.{
  ◌≡◌, refl, ap, sym, ◌∙◌, inl, inr, true, false, Bool-cases, not, ◌||◌, ◌&&◌, List, [], ◌∷◌,
  String, ◌==◌, string_eq, arith, All,
}
use cma_real_time_coaching.Prelude.Text.{Text}
use cma_real_time_coaching.Prelude.Index.{includes, AllDifferent}
use cma_real_time_coaching.Events.Labels.Canonical.{IsCanonical, Canonical}
use cma_real_time_coaching.Events.Models.{ClassificationLabel, ClassificationResultEvent}
use cma_real_time_coaching.Calls.State.{names_of}
use cma_real_time_coaching.Classification.Contrast.{
  CharacterMethods, normalize_turkish, any_signal, price_information_signals,
  price_objection_signals, other_labels, apply_classification_contrast_guards,
}

module _ (name : String) where
  other_labels-gone :
      (ls : List ClassificationLabel) → includes name (names_of (other_labels name ls)) ≡ false
  unfolding other_labels includes
  other_labels-gone [] = refl
  other_labels-gone (l ∷ ls) = ground (arith, other_labels-gone ls)

  other_labels-includes :
      (n : String) (ls : List ClassificationLabel)
      → includes n (names_of ls) ≡ false
      → includes n (names_of (other_labels name ls)) ≡ false
  unfolding other_labels includes
  other_labels-includes n [] e = refl
  other_labels-includes n (l ∷ ls) e = ground (arith, e, other_labels-includes n ls)

  other_labels-All :
      (P : String → Type 0) (ls : List ClassificationLabel)
      → All P (names_of ls)
      → All P (names_of (other_labels name ls))
  unfolding other_labels
  other_labels-All P [] a = tt
  other_labels-All P (l ∷ ls) a = elim (Bool-cases (l.name == name)) [
    | inl same ↦ rw (same, other_labels) (other_labels-All P ls a.1)
    | inr other ↦ rw (other, other_labels) (a.0, other_labels-All P ls a.1)
  ]

  other_labels-AllDifferent :
      (ls : List ClassificationLabel)
      → AllDifferent (names_of ls)
      → AllDifferent (names_of (other_labels name ls))
  unfolding other_labels
  other_labels-AllDifferent [] d = tt
  other_labels-AllDifferent (l ∷ ls) d = elim (Bool-cases (l.name == name)) [
    | inl same ↦ rw (same, other_labels) (other_labels-AllDifferent ls d.1)
    | inr other ↦
        rw (other, other_labels)
          (other_labels-includes l.name ls d.0, other_labels-AllDifferent ls d.1)
  ]

suppressed-Canonical :
    (ls : List ClassificationLabel)
    → includes "price_objection" (names_of ls) ≡ true
    → Canonical (names_of ls)
    → Canonical (names_of (other_labels "price_objection" ls))
unfolding includes
suppressed-Canonical ls h c = record {
  known = other_labels-All "price_objection" IsCanonical ls c.known;
  different = other_labels-AllDifferent "price_objection" ls c.different;
  idle_alone = elim c.idle_alone [
    | inl e ↦ inl (other_labels-includes "price_objection" "no_action" ls e)
    | inr e ↦ inl (ground (arith, sym h ∙ ap (includes "price_objection") e))
  ];
}

-- Of a text and a result whose labels are canonical, none twice and `no_action` only alone: they are so afterwards,
-- and `price_objection` is among them exactly if it was and the text does not ask for a price, or objects to one.
pub apply_classification_contrast_guards-Canonical :
    (m : CharacterMethods) (text : Text) (result : ClassificationResultEvent)
    → Canonical (names_of result.labels)
    → let after = names_of (apply_classification_contrast_guards m text result).result.labels in
      let normalized = normalize_turkish m text in
      Canonical after
      × (includes "price_objection" after ≡ (
          includes "price_objection" (names_of result.labels)
          && (not (any_signal price_information_signals normalized)
              || any_signal price_objection_signals normalized)))
unfolding apply_classification_contrast_guards
apply_classification_contrast_guards-Canonical m text result c =
    let present = includes "price_objection" (names_of result.labels) in
    let query = any_signal price_information_signals (normalize_turkish m text) in
    let objection = any_signal price_objection_signals (normalize_turkish m text) in
    elim (Bool-cases present) [
      | inr absent ↦ rw (absent, apply_classification_contrast_guards) (c, absent)
      | inl there ↦ elim (Bool-cases query) [
        | inr no_query ↦ rw (there, no_query, apply_classification_contrast_guards) (c, there)
        | inl asks ↦ elim (Bool-cases objection) [
          | inl objects ↦ rw (there, asks, objects, apply_classification_contrast_guards) (c, there)
          | inr plain ↦
              rw (there, asks, plain, apply_classification_contrast_guards)
                (
                  suppressed-Canonical result.labels there c,
                  other_labels-gone "price_objection" result.labels,
                )
        ]
      ]
    ]
