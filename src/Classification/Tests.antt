-- ===== src/Classification/Tests.antt =====
-- The results of two views of a transcript, and of a text that asks for a price.
use cma_real_time_coaching.Prelude.{
  ℕ, ◌≡◌, refl, inl, not, true, false, none, some, List, [], ◌∷◌, String, All, ◌==◌, nat_eq, ◌||◌,
  ◌&&◌,
}
use cma_real_time_coaching.Prelude.Dict
use cma_real_time_coaching.Prelude.Sort.{sort, insort}
use cma_real_time_coaching.Prelude.Text.{codes, lstrip, rstrip}
use cma_real_time_coaching.Streaming.TranscriptReconciler.Suffix.{without_marks}
use cma_real_time_coaching.Prelude.Index.{includes, keys, index_into}
use cma_real_time_coaching.Events.Labels.{canonical_label, any_action, only_actions}
use cma_real_time_coaching.Events.Labels.Canonical.{Canonical}
use cma_real_time_coaching.Events.Models.{
  CoachingAction, ClassificationLabel, ClassificationResultEvent, ClassificationViewSource,
}
use cma_real_time_coaching.Calls.Labels.{not_among}
use cma_real_time_coaching.Calls.State.{names_of}
use cma_real_time_coaching.Classification.Contrast.{
  CharacterMethods, price_information_signals, price_objection_signals, sub_runs, normalize_turkish,
  occurs, any_signal, other_labels, apply_classification_contrast_guards,
}
use cma_real_time_coaching.Classification.Contrast.Suppressed.{
  apply_classification_contrast_guards-Canonical,
}
use cma_real_time_coaching.Classification.PostProcessing.{
  canonical_values, best_by_name, common_names, restrict, final_labels,
  canonicalize_classification_result, by_name, active_names, merge_labels, source_of, label_sources,
  merge_values, labels_in, merge_classification_views,
}
use cma_real_time_coaching.Classification.PostProcessing.Names.{
  canonicalize_classification_result-Canonical,
}
use cma_real_time_coaching.Classification.PostProcessing.Merged.{
  measured, merge_classification_views-Merges,
}
use cma_real_time_coaching.Classification.PostProcessing.Strongest.{IsStrongest}

abbrev label : String → ℕ → ClassificationLabel
label name score = record { name = name; score = score }

abbrev result :
    List ClassificationLabel → List (String × ℕ) → CoachingAction → ClassificationResultEvent
result labels probabilities action = record {
  tenant_id = "acme";
  call_id = "call-1";
  transcript_event_id = "e1";
  labels = labels;
  action = action;
  model_id = "m";
  threshold_profile_id = none;
  probabilities = probabilities;
  thresholds = ("no_action", 5) ∷ ("price_objection", 5) ∷ ("cancellation_risk", 5) ∷ [];
  processing_time_ms = some 7;
  is_provisional = false;
  created_at_utc = 0;
}

abbrev delta : ClassificationResultEvent
delta =
    result (label "price_objection" 6 ∷ label "no_action" 9 ∷ [])
      (("price_objection", 6) ∷ ("no_action", 9) ∷ []) CoachingAction.template_action

abbrev context : ClassificationResultEvent
context =
    result (label "price_objection" 8 ∷ label "cancellation_risk" 7 ∷ [])
      (("price_objection", 8) ∷ ("cancellation_risk", 7) ∷ []) CoachingAction.rag_action

canonical_delta :
    names_of (canonicalize_classification_result (λ s. s) (λ s. s) delta).labels
    ≡ "price_objection" ∷ []
unfolding canonicalize_classification_result canonical_values best_by_name final_labels common_names
    restrict canonical_label any_action includes Dict.get Dict.put Dict.contains Dict.remove
canonical_delta = refl

merged_views :
    ((merge_classification_views delta context).result.labels
      ≡ label "cancellation_risk" 7 ∷ label "price_objection" 8 ∷ [])
    × ((merge_classification_views delta context).sources
        ≡ ("cancellation_risk", ClassificationViewSource.bounded_context)
          ∷ ("price_objection", ClassificationViewSource.both)
          ∷ [])
    × ((merge_classification_views delta context).result.action ≡ CoachingAction.rag_action)
    × ((merge_classification_views delta context).result.processing_time_ms ≡ some 14)
unfolding merge_classification_views active_names merge_labels label_sources source_of merge_values
    labels_in common_names restrict not_among any_action only_actions includes index_into sort
    insort Dict.get Dict.put Dict.contains
merged_views = (refl, refl, refl, refl)

canonicalize_classification_result-Canonical_example :
    Canonical (names_of (canonicalize_classification_result (λ s. s) (λ s. s) delta).labels)
canonicalize_classification_result-Canonical_example =
    canonicalize_classification_result-Canonical (λ s. s) (λ s. s) delta

merge_classification_views-Merges_example :
    let m = merge_classification_views delta context in
    let names =
      measured
        (merge_values true delta.probabilities context.probabilities)
        (merge_values false delta.thresholds context.thresholds)
        (active_names (by_name delta.labels) (by_name context.labels)) in
    (names_of m.result.labels ≡ names)
    × (keys m.sources ≡ names)
    × All (IsStrongest (by_name delta.labels) (by_name context.labels)) m.result.labels
merge_classification_views-Merges_example = merge_classification_views-Merges delta context

abbrev ascii : CharacterMethods
ascii = record {
  casefold = λ t. t;
  nfkd = λ t. t;
  is_combining = λ c. false;
  is_word = λ c. not (c == 32) && not (c == 44);
  is_space = λ c. c == 32;
}

abbrev objecting : ClassificationResultEvent
objecting =
    result (label "price_objection" 6 ∷ []) (("price_objection", 6) ∷ [])
      CoachingAction.template_action

objecting-Canonical : Canonical (names_of objecting.labels)
unfolding includes
objecting-Canonical = record { known = (refl, tt); different = (refl, tt); idle_alone = inl refl }

price_query :
    (names_of
        (apply_classification_contrast_guards ascii
          (codes "peki, kac  lira")
          objecting).result.labels
      ≡ [])
    × (names_of
          (apply_classification_contrast_guards ascii
            (codes "kac lira, cok pahali")
            objecting).result.labels
        ≡ "price_objection" ∷ [])
unfolding apply_classification_contrast_guards normalize_turkish sub_runs any_signal occurs
    other_labels includes without_marks lstrip rstrip
price_query = (refl, refl)

apply_classification_contrast_guards-Canonical_example :
    let after =
      names_of
        (apply_classification_contrast_guards ascii (codes "kac lira") objecting).result.labels in
    let normalized = normalize_turkish ascii (codes "kac lira") in
    Canonical after
    × (includes "price_objection" after ≡ (
        includes "price_objection" (names_of objecting.labels)
        && (not (any_signal price_information_signals normalized)
            || any_signal price_objection_signals normalized)))
apply_classification_contrast_guards-Canonical_example =
    apply_classification_contrast_guards-Canonical ascii (codes "kac lira") objecting
      objecting-Canonical
