-- ===== src/Calls/Labels.antt =====
-- The labels of a call (app/calls/models.py): `record_detected_labels` and
-- `_upsert_label_revision_diagnostic`.
pub mod Accumulated
pub mod Timeline
pub mod Persistence
use cma_real_time_coaching.Prelude.{
  ℕ, Bool, true, false, not, ◌&&◌, Option, none, some, List, [], ◌∷◌, ◌++◌, map, String, ◌==◌, leb,
  if◌then◌else◌, is_empty, nat_eq, string_eq,
}
use cma_real_time_coaching.Prelude.Dict
use cma_real_time_coaching.Prelude.Dict.{Dict}
use cma_real_time_coaching.Prelude.Sort.{sort}
use cma_real_time_coaching.Prelude.Index.{includes, values, index_into}
use cma_real_time_coaching.Events.Labels.{canonical_labels, only_actions, collect}
use cma_real_time_coaching.Rtp.Adapter.{or_else}
use cma_real_time_coaching.Events.Models.{
  CoachingSuggestionSource, ClassificationViewSource, source_beq,
}
use cma_real_time_coaching.Calls.Types.{
  CallDetectedLabelMetadata, CallRevisionLabelEvidence, CallRevisionLabelDiagnostic, CallState,
  TextMethods,
}

abbrev pub is_rule : CoachingSuggestionSource → Bool
is_rule CoachingSuggestionSource.rule = true
is_rule _ = false

-- `_combined_source`
unfoldable pub combined_source :
    CoachingSuggestionSource → CoachingSuggestionSource → CoachingSuggestionSource
combined_source first second =
    if source_beq first second then first else CoachingSuggestionSource.both

-- An identifier counts if it is there and not empty.
abbrev pub is_truthy : Option String → Bool
is_truthy none = false
is_truthy (some s) = not (s == "")

-- `new if source is not RULE and new else previous`
abbrev pub newer : CoachingSuggestionSource → Option String → Option String → Option String
newer source new previous = if not (is_rule source) && is_truthy new then new else previous

-- `new if source is not RULE else None`
abbrev pub unless_rule : CoachingSuggestionSource → Option String → Option String
unless_rule source new = if is_rule source then none else new

abbrev pub labels_of : List CallDetectedLabelMetadata → List String
labels_of = map (λ m. m.label)

-- What a call of `record_detected_labels` says of each label.
pub record Detection : Type 0 where
  pub transcript_revision : ℕ
  pub source : CoachingSuggestionSource
  pub model_id : Option String
  pub threshold_profile_id : Option String
  pub classification_view_sources : Dict String ClassificationViewSource

-- The metadata of a label after the detection.
abbrev pub detected :
    Detection → String → Option CallDetectedLabelMetadata → CallDetectedLabelMetadata
detected d label none = record {
  label = label;
  first_detected_revision = d.transcript_revision;
  latest_detected_revision = d.transcript_revision;
  source = d.source;
  model_id = unless_rule d.source d.model_id;
  threshold_profile_id = unless_rule d.source d.threshold_profile_id;
}
detected d label (some previous) = record previous {
  latest_detected_revision = d.transcript_revision;
  source = combined_source previous.source d.source;
  model_id = newer d.source d.model_id previous.model_id;
  threshold_profile_id = newer d.source d.threshold_profile_id previous.threshold_profile_id;
}

-- The loop over the incoming labels.
unfoldable pub detect_each :
    Detection
    → List String
    → Dict String CallDetectedLabelMetadata
    → Dict String CallDetectedLabelMetadata
detect_each d [] known = known
detect_each d (label ∷ labels) known =
    detect_each d labels (Dict.put label (detected d label (Dict.get label known)) known)

-- `[item for item in self.detected_labels if item.label != "no_action"]`
unfoldable pub business_items : List CallDetectedLabelMetadata → List CallDetectedLabelMetadata
business_items [] = []
business_items (m ∷ ms) =
    let rest = business_items ms in if not (m.label == "no_action") then m ∷ rest else rest

-- `[label for label in cleaned if label == "no_action"]`
unfoldable pub only_idle : List String → List String
only_idle [] = []
only_idle (l ∷ ls) = let rest = only_idle ls in if l == "no_action" then l ∷ rest else rest

-- The labels that come in, and the items that they are added to.
unfoldable pub incoming : List String → List CallDetectedLabelMetadata → List String
unfolding only_idle
incoming cleaned items =
    let business = only_actions cleaned in
    if not (is_empty business)
    then business
    else if not (is_empty items)
    then []
    else only_idle cleaned

unfoldable pub existing :
    List String → List CallDetectedLabelMetadata → List CallDetectedLabelMetadata
unfolding business_items
existing cleaned items =
    if not (is_empty (only_actions cleaned)) then business_items items else items

-- The evidence of a label in a revision, after the detection.
abbrev pub evident :
    Detection → String → Option CallRevisionLabelEvidence → CallRevisionLabelEvidence
evident d label none = record {
  label = label;
  source = d.source;
  model_id = newer d.source d.model_id none;
  threshold_profile_id = newer d.source d.threshold_profile_id none;
  classification_view =
      if is_rule d.source then none else Dict.get label d.classification_view_sources;
}
evident d label (some previous) = record {
  label = label;
  source = combined_source previous.source d.source;
  model_id = newer d.source d.model_id previous.model_id;
  threshold_profile_id = newer d.source d.threshold_profile_id previous.threshold_profile_id;
  classification_view =
      if is_rule d.source
      then previous.classification_view
      else or_else (Dict.get label d.classification_view_sources) previous.classification_view;
}

unfoldable pub evidence_each :
    Detection
    → List String
    → Dict String CallRevisionLabelEvidence
    → Dict String CallRevisionLabelEvidence
evidence_each d [] known = known
evidence_each d (label ∷ labels) known =
    evidence_each d labels (Dict.put label (evident d label (Dict.get label known)) known)

-- `next((item for item in timeline if item.transcript_revision == revision), None)`
unfoldable pub diagnostic_at :
    ℕ → List CallRevisionLabelDiagnostic → Option CallRevisionLabelDiagnostic
diagnostic_at revision [] = none
diagnostic_at revision (x ∷ xs) =
    if x.transcript_revision == revision then some x else diagnostic_at revision xs

-- `(item for item in timeline if item.transcript_revision != revision)`
unfoldable pub other_diagnostics :
    ℕ → List CallRevisionLabelDiagnostic → List CallRevisionLabelDiagnostic
other_diagnostics revision [] = []
other_diagnostics revision (x ∷ xs) =
    let rest = other_diagnostics revision xs in
    if not (x.transcript_revision == revision) then x ∷ rest else rest

abbrev pub earlier_labels : Option CallRevisionLabelDiagnostic → List String
earlier_labels none = []
earlier_labels (some x) = x.newly_accumulated_labels

abbrev pub earlier_evidence : Option CallRevisionLabelDiagnostic → List CallRevisionLabelEvidence
earlier_evidence none = []
earlier_evidence (some x) = x.evidence

-- `dict.fromkeys(labels)`
abbrev pub unique : List String → List String
unique labels = collect (λ l. some l) [] labels

-- `[label for label in labels if label not in known]`
unfoldable pub not_among : List String → List String → List String
not_among known [] = []
not_among known (l ∷ ls) =
    let rest = not_among known ls in if not (includes l known) then l ∷ rest else rest

abbrev pub diagnostic_of :
    Detection
    → List String
    → List String
    → List String
    → Option CallRevisionLabelDiagnostic
    → CallRevisionLabelDiagnostic
diagnostic_of d active labels newly earlier = record {
  transcript_revision = d.transcript_revision;
  current_labels = active;
  newly_accumulated_labels = unique (earlier_labels earlier ++ newly);
  evidence =
      values (evidence_each d labels (index_into (λ e. e.label) (earlier_evidence earlier) []));
}

abbrev pub by_revision : CallRevisionLabelDiagnostic → CallRevisionLabelDiagnostic → Bool
by_revision x y = leb x.transcript_revision y.transcript_revision

-- `_upsert_label_revision_diagnostic`
unfoldable pub upsert_label_revision_diagnostic :
    Detection → List String → List String → CallState → CallState
upsert_label_revision_diagnostic d labels newly s = record s {
  label_revision_timeline = sort by_revision (
      other_diagnostics d.transcript_revision s.label_revision_timeline
      ++ diagnostic_of d s.active_labels labels newly
          (diagnostic_at d.transcript_revision s.label_revision_timeline)
        ∷ []);
}

-- `record_detected_labels`
unfoldable pub record_detected_labels :
    TextMethods → Detection → List String → CallState → CallState
unfolding upsert_label_revision_diagnostic incoming existing
record_detected_labels t d labels s =
    let cleaned = canonical_labels t.strip t.casefold labels in
    let new = incoming cleaned s.detected_labels in
    upsert_label_revision_diagnostic d new (not_among (labels_of s.detected_labels) new) (record s {
      detected_labels =
          values
            (detect_each d new (index_into (λ m. m.label) (existing cleaned s.detected_labels) []));
    })
