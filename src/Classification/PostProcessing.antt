-- ===== src/Classification/PostProcessing.antt =====
-- app/classification/postprocessing.py: results under canonical names, and the results of two views merged. Scores
-- are numbers. The names that two dictionaries share are a set in the code, whose order is not fixed; here they
-- stand in the order of the first.
pub mod Merged
pub mod Names
pub mod Strongest
use cma_real_time_coaching.Prelude.{
  ℕ, ◌+◌, Bool, true, false, not, ◌&&◌, Option, none, some, List, [], ◌∷◌, ◌++◌, String, ◌==◌,
  string_eq, ltb, if◌then◌else◌, is_empty,
}
use cma_real_time_coaching.Prelude.Dict
use cma_real_time_coaching.Prelude.Dict.{Dict}
use cma_real_time_coaching.Prelude.Sort.{sort}
use cma_real_time_coaching.Prelude.Text.{codes}
use cma_real_time_coaching.Prelude.Index.{includes, keys, values, index_into}
use cma_real_time_coaching.Events.Labels.{canonical_label, any_action, only_actions}
use cma_real_time_coaching.Events.Models.{
  CoachingAction, ClassificationLabel, ClassificationResultEvent, ClassificationViewSource,
}
use cma_real_time_coaching.Calls.Labels.{is_truthy, not_among}
use cma_real_time_coaching.Calls.Suggestions.Rank.{text_le}

abbrev pub Values : Type 0
Values = Dict String ℕ

abbrev pub larger : ℕ → ℕ → ℕ
larger a b = if ltb a b then b else a

abbrev pub lesser : ℕ → ℕ → ℕ
lesser a b = if ltb b a then b else a

abbrev pub or_zero : Option ℕ → ℕ
or_zero none = 0
or_zero (some n) = n

-- The loop of `_canonical_values`
unfoldable pub canonical_values : (String → Option String) → Values → Values → Values
canonical_values normalize normalized [] = normalized
canonical_values normalize normalized ((label, value) ∷ rest) = elim (normalize label) [
  | none ↦ canonical_values normalize normalized rest
  | some name ↦
      canonical_values normalize
        (Dict.put name (larger value (or_zero (Dict.get name normalized))) normalized) rest
]

-- previous is None or label.score > previous.score
abbrev pub improves : ClassificationLabel → Option ClassificationLabel → Bool
improves label none = true
improves label (some previous) = ltb previous.score label.score

-- The first loop of `canonicalize_classification_result`
unfoldable pub best_by_name :
    (String → Option String)
    → Dict String ClassificationLabel
    → List ClassificationLabel
    → Dict String ClassificationLabel
best_by_name normalize known [] = known
best_by_name normalize known (label ∷ labels) = elim (normalize label.name) [
  | none ↦ best_by_name normalize known labels
  | some name ↦
      best_by_name normalize
        (if improves label (Dict.get name known)
          then Dict.put name (record label { name = name }) known
          else known)
        labels
]

-- set(probabilities).intersection(thresholds)
unfoldable pub common_names : Values → Values → List String
common_names [] thresholds = []
common_names ((name, p) ∷ probabilities) thresholds =
    let rest = common_names probabilities thresholds in
    if Dict.contains name thresholds then name ∷ rest else rest

-- {name: value for name, value in entries.items() if name in names}
unfoldable pub restrict {ℓ} : {V : Type ℓ} → List String → Dict String V → Dict String V
unfolding includes
restrict names [] = []
restrict names ((name, v) ∷ d) =
    let rest = restrict names d in if includes name names then (name, v) ∷ rest else rest

-- `if probabilities and thresholds`
abbrev pub has_both : Values → Values → Bool
has_both probabilities thresholds = not (is_empty probabilities) && not (is_empty thresholds)

-- The values of the common names, if both dictionaries have any.
abbrev pub restrict_values : Values → Values → Values → Values
restrict_values probabilities thresholds d =
    if has_both probabilities thresholds
    then restrict (common_names probabilities thresholds) d
    else d

-- `labels_by_name` at the end of `canonicalize_classification_result`
unfoldable pub final_labels :
    Values → Values → Dict String ClassificationLabel → Dict String ClassificationLabel
unfolding common_names restrict any_action
final_labels probabilities thresholds labels =
    let shared =
      if has_both probabilities thresholds
      then restrict (common_names probabilities thresholds) labels
      else labels in
    if any_action (keys labels) then Dict.remove "no_action" shared else shared

-- `canonicalize_classification_result`
unfoldable pub canonicalize_classification_result :
    (String → String) → (String → String) → ClassificationResultEvent → ClassificationResultEvent
unfolding canonical_values best_by_name final_labels common_names restrict
canonicalize_classification_result strip casefold result =
    let normalize = canonical_label strip casefold in
    let probabilities = canonical_values normalize [] result.probabilities in
    let thresholds = canonical_values normalize [] result.thresholds in
    record result {
      labels =
          values (final_labels probabilities thresholds (best_by_name normalize [] result.labels));
      probabilities = restrict_values probabilities thresholds probabilities;
      thresholds = restrict_values probabilities thresholds thresholds;
    }

-- {label.name: label for label in labels}
abbrev pub by_name : List ClassificationLabel → Dict String ClassificationLabel
by_name labels = index_into (λ l. l.name) labels []

abbrev pub name_before : String → String → Bool
name_before a b = text_le (codes a) (codes b)

-- sorted(active_names)
unfoldable pub active_names :
    Dict String ClassificationLabel → Dict String ClassificationLabel → List String
unfolding not_among any_action only_actions
active_names delta_labels context_labels =
    let names = keys delta_labels ++ not_among (keys delta_labels) (keys context_labels) in
    sort name_before (if any_action names then only_actions names else names)

-- `max` of the labels that there are, by their scores: the first of two that are equal.
abbrev pub stronger :
    Option ClassificationLabel → Option ClassificationLabel → Option ClassificationLabel
stronger none context = context
stronger (some delta) none = some delta
stronger (some delta) (some context) =
    some (if ltb delta.score context.score then context else delta)

-- `merged_labels`; each name is of one of the views.
unfoldable pub merge_labels :
    Dict String ClassificationLabel
    → Dict String ClassificationLabel
    → List String
    → List ClassificationLabel
merge_labels delta context [] = []
merge_labels delta context (name ∷ names) =
    let rest = merge_labels delta context names in
    elim (stronger (Dict.get name delta) (Dict.get name context)) [
      | none ↦ rest
      | some label ↦ label ∷ rest
    ]

-- `label_sources`
unfoldable pub source_of :
    Dict String ClassificationLabel
    → Dict String ClassificationLabel
    → String
    → ClassificationViewSource
source_of delta context name =
    if Dict.contains name delta
    then (if Dict.contains name context
        then ClassificationViewSource.both
        else ClassificationViewSource.delta)
    else ClassificationViewSource.bounded_context

unfoldable pub label_sources :
    Dict String ClassificationLabel
    → Dict String ClassificationLabel
    → List String
    → Dict String ClassificationViewSource
unfolding source_of
label_sources delta context [] = []
label_sources delta context (name ∷ names) =
    (name, source_of delta context name) ∷ label_sources delta context names

abbrev pub merged_value : Bool → Option ℕ → ℕ → ℕ
merged_value maximum none value = value
merged_value true (some known) value = larger known value
merged_value false (some known) value = lesser known value

-- `_merge_values`
unfoldable pub merge_values : Bool → Values → Values → Values
merge_values maximum merged [] = merged
merge_values maximum merged ((label, value) ∷ rest) =
    merge_values maximum
      (Dict.put label (merged_value maximum (Dict.get label merged) value) merged) rest

-- `_ACTION_STRENGTH`
abbrev pub action_strength : CoachingAction → ℕ
action_strength CoachingAction.no_action = 0
action_strength CoachingAction.template_action = 1
action_strength CoachingAction.rag_action = 2
action_strength CoachingAction.escalate = 3

abbrev pub add_times : Option ℕ → Option ℕ → Option ℕ
add_times none none = none
add_times none (some b) = some b
add_times (some a) none = some a
add_times (some a) (some b) = some (a + b)

-- [label for label in labels if label.name in names]
unfoldable pub labels_in : List String → List ClassificationLabel → List ClassificationLabel
unfolding includes
labels_in names [] = []
labels_in names (l ∷ ls) =
    let rest = labels_in names ls in if includes l.name names then l ∷ rest else rest

pub record MergedViews : Type 0 where
  pub result : ClassificationResultEvent
  pub sources : Dict String ClassificationViewSource

-- `merge_classification_views`
unfoldable pub merge_classification_views :
    ClassificationResultEvent → ClassificationResultEvent → MergedViews
unfolding active_names merge_labels label_sources merge_values labels_in common_names restrict
merge_classification_views delta context =
    let delta_labels = by_name delta.labels in
    let context_labels = by_name context.labels in
    let names = active_names delta_labels context_labels in
    let labels = merge_labels delta_labels context_labels names in
    let sources = label_sources delta_labels context_labels names in
    let probabilities = merge_values true delta.probabilities context.probabilities in
    let thresholds = merge_values false delta.thresholds context.thresholds in
    let common = common_names probabilities thresholds in
    record {
      result = record context {
        labels = if has_both probabilities thresholds then labels_in common labels else labels;
        action =
            if ltb (action_strength delta.action) (action_strength context.action)
            then context.action
            else delta.action;
        threshold_profile_id =
            if is_truthy context.threshold_profile_id
            then context.threshold_profile_id
            else delta.threshold_profile_id;
        probabilities = restrict_values probabilities thresholds probabilities;
        thresholds = restrict_values probabilities thresholds thresholds;
        processing_time_ms = add_times delta.processing_time_ms context.processing_time_ms;
      };
      sources = if has_both probabilities thresholds then restrict common sources else sources;
    }
