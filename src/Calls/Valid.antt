-- ===== src/Calls/Valid.antt =====
-- What holds of the state of a call after any calls of its methods (app/calls/models.py). The fields of
-- the record are what the validators of `CallState` and of its metadata ask, and more.
pub mod Steps
use cma_real_time_coaching.Prelude.{
  ℕ, ◌≡◌, refl, ap, ◌∙◌, subst, sym, Bool, true, false, Bool-cases, not, inl, inr, Option, none,
  some, Option-cases, List, [], ◌∷◌, ◌++◌, map, String, ◌==◌, string_eq, arith, All, All-map,
  All-append, leb, length, if◌then◌else◌,
}
use cma_real_time_coaching.Prelude.Int.{ℤ, pos_part}
use cma_real_time_coaching.Prelude.Index.{includes, AllDifferent, values, index_into}
use cma_real_time_coaching.Prelude.Sort.{sort, IsSorted, sort-IsSorted, All-sort}
use cma_real_time_coaching.Events.Models.{CoachingSuggestionEvent, is_confirmed}
use cma_real_time_coaching.Events.Labels.{canonical_labels}
use cma_real_time_coaching.Events.Labels.Canonical.{
  IsCanonical, Canonical, canonical_labels-Canonical, AllDifferent-snoc,
}
use cma_real_time_coaching.Calls.Types.{
  CallCoachingMetadata, CallDetectedLabelMetadata, CallRevisionLabelDiagnostic, CallState,
  CallError, Result, TextMethods,
}
use cma_real_time_coaching.Calls.Labels.{
  Detection, labels_of, incoming, existing, not_among, detect_each, record_detected_labels,
  upsert_label_revision_diagnostic,
}
use cma_real_time_coaching.Calls.Labels.Accumulated.{incoming-All, detect_each-Canonical}
use cma_real_time_coaching.Calls.Labels.Timeline.{
  IsValidDiagnostic, Increasing, not_among-All, upsert-Increasing,
}
use cma_real_time_coaching.Calls.Suggestions.{
  Attribution, Admission, id_of, in_scope, without, replace, find_suggestion, metadata_of,
  updated_by, detection_of, record_label, confirm, weakest, enter, evict, candidate_of, compete,
  admit, admit_coaching_suggestion, apply_coaching_suggestion, update_coaching_suggestion,
  withdrawable, withdraw_coaching_suggestion,
}
use cma_real_time_coaching.Calls.Suggestions.Active.{
  AreRanked, find_suggestion-id, enter-AreRanked, append-AreRanked, without-AreRanked,
  replace-AreRanked, update-AreRanked,
}
use cma_real_time_coaching.Calls.Suggestions.Rank.{
  ranks_before, ranks_before-IsPreorder, rank_le, coaching_rank,
}
use cma_real_time_coaching.Calls.State.{
  Call, admitted_state, initial, transcribe, apply_audio_chunk, apply_transcript,
  update_active_labels, mark_classification_attempt, classified, apply_classification,
  mark_suggestion_shown, mark_coaching_triggered, settle, attempt, run,
}

pub record IsValid (t : TextMethods) (s : CallState) : Type 0 where
  pub active : Canonical s.active_labels
  pub accumulated : Canonical (labels_of s.detected_labels)
  pub diagnostics : All IsValidDiagnostic s.label_revision_timeline
  pub increasing : Increasing s.label_revision_timeline
  pub shown : AllDifferent s.shown_suggestion_ids
  pub ranked : AreRanked t s.active_coaching_suggestions s.coaching_suggestions

-- The result of a call is an error, or a valid state.
abbrev pub Results : TextMethods → Result CallState → Type 0
Results t (Result.ok s) = IsValid t s
Results t (Result.err e) = Unit

pub record_detected_labels-IsValid :
    (t : TextMethods) (d : Detection) (labels : List String) (s : CallState)
    → IsValid t s
    → IsValid t (record_detected_labels t d labels s)
unfolding record_detected_labels upsert_label_revision_diagnostic
record_detected_labels-IsValid t d labels s v =
    let c = canonical_labels-Canonical t.strip t.casefold labels in
    let cleaned = canonical_labels t.strip t.casefold labels in
    let new = incoming cleaned s.detected_labels in
    let known = incoming-All cleaned s.detected_labels c.known in
    let u =
      upsert-Increasing d new (not_among (labels_of s.detected_labels) new) s v.active known
        (not_among-All IsCanonical (labels_of s.detected_labels) new known) v.diagnostics
        v.increasing in
    record {
      active = v.active;
      shown = v.shown;
      ranked = v.ranked;
      accumulated = detect_each-Canonical d cleaned s.detected_labels c.known v.accumulated;
      diagnostics = u.0;
      increasing = u.1;
    }

record_label-IsValid :
    (t : TextMethods) (d : Detection) (label : Option String) (s : CallState)
    → IsValid t s
    → IsValid t (record_label t d label s)
record_label-IsValid t d none s v = v
record_label-IsValid t d (some label) s v = record_detected_labels-IsValid t d (label ∷ []) s v

-- A valid state with other suggestions, if they are ranked.
with_suggestions :
    (t : TextMethods) (s : CallState) (active every history : List CallCoachingMetadata)
    → IsValid t s
    → AreRanked t active every
    → IsValid t (record s {
      active_coaching_suggestions = active;
      coaching_suggestions = every;
      coaching_suggestion_history = history;
    })
with_suggestions t s active every history v r = record {
  active = v.active;
  accumulated = v.accumulated;
  diagnostics = v.diagnostics;
  increasing = v.increasing;
  shown = v.shown;
  ranked = r;
}

-- The validity of a state speaks of six of its parts.
abbrev pub Agree : CallState → CallState → Type 0
Agree s u =
    (s.active_labels ≡ u.active_labels)
    × (s.detected_labels ≡ u.detected_labels)
    × (s.label_revision_timeline ≡ u.label_revision_timeline)
    × (s.shown_suggestion_ids ≡ u.shown_suggestion_ids)
    × (s.active_coaching_suggestions ≡ u.active_coaching_suggestions)
    × (s.coaching_suggestions ≡ u.coaching_suggestions)

abbrev pub all_same : (s : CallState) → Agree s s
all_same s = (refl, refl, refl, refl, refl, refl)

pub Agree-IsValid : (t : TextMethods) (s u : CallState) → Agree s u → IsValid t s → IsValid t u
Agree-IsValid t s u (a, d, l, h, c, e) v = record {
  active = subst Canonical a v.active;
  accumulated = subst (λ x. Canonical (labels_of x)) d v.accumulated;
  diagnostics = subst (All IsValidDiagnostic) l v.diagnostics;
  increasing = subst Increasing l v.increasing;
  shown = subst AllDifferent h v.shown;
  ranked =
      subst (λ x. AreRanked t x u.coaching_suggestions) c
        (subst (AreRanked t s.active_coaching_suggestions) e v.ranked);
}

confirm-IsValid :
    (t : TextMethods) (event : CoachingSuggestionEvent) (a : Attribution) (s : CallState)
    → IsValid t s
    → IsValid t (confirm t event a s)
unfolding confirm
confirm-IsValid t event a s v = elim (Bool-cases (is_confirmed event.lifecycle)) [
  | inl confirmed ↦
      rw (confirmed, confirm)
        (Agree-IsValid t (record_label t (detection_of event a) event.label_id s) _
          (all_same (record_label t (detection_of event a) event.label_id s))
          (record_label-IsValid t (detection_of event a) event.label_id s v))
  | inr other ↦ rw (other, confirm) v
]

pub apply_coaching_suggestion-IsValid :
    (t : TextMethods) (event : CoachingSuggestionEvent) (a : Attribution) (s : CallState)
    → IsValid t s
    → Results t (apply_coaching_suggestion t event a s)
unfolding apply_coaching_suggestion
apply_coaching_suggestion-IsValid t event a s v =
    let m = metadata_of event a (length s.coaching_suggestions) in
    let active = s.active_coaching_suggestions in
    let history = s.coaching_suggestion_history in
    elim (Bool-cases (in_scope t s event.tenant_id event.call_id)) [
      | inr other ↦ rw (other, apply_coaching_suggestion) tt
      | inl same ↦
          elim (Option-cases (find_suggestion event.suggestion_id s.coaching_suggestions)) [
            | inl new ↦
                rw (same, new, apply_coaching_suggestion)
                  (confirm-IsValid t event a _ (
                    with_suggestions t s active (s.coaching_suggestions ++ m ∷ []) history v
                      (append-AreRanked t active s.coaching_suggestions v.ranked m)))
            | inr (known, e) ↦
                rw (same, e, apply_coaching_suggestion)
                  (confirm-IsValid t event a _ (
                    with_suggestions t s active
                      (replace event.suggestion_id m s.coaching_suggestions) history v
                      (replace-AreRanked t active s.coaching_suggestions v.ranked
                        event.suggestion_id m refl)))
          ]
    ]

enter-IsValid :
    (t : TextMethods) (event : CoachingSuggestionEvent) (a : Attribution) (m : CallCoachingMetadata)
    (s : CallState)
    → IsValid t s
    → IsValid t (enter t event a m s)
unfolding enter
enter-IsValid t event a m s v = confirm-IsValid t event a _ (
    with_suggestions t s (sort (ranks_before t.casefold) (s.active_coaching_suggestions ++ m ∷ []))
      (s.coaching_suggestions ++ m ∷ []) s.coaching_suggestion_history v
      (enter-AreRanked t s.active_coaching_suggestions s.coaching_suggestions v.ranked m))

evict-IsValid :
    (t : TextMethods) (m : CallCoachingMetadata) (s : CallState)
    → IsValid t s
    → IsValid t (evict m s)
unfolding evict
evict-IsValid t m s v =
    with_suggestions t s (without m.suggestion_id s.active_coaching_suggestions)
      s.coaching_suggestions (s.coaching_suggestion_history ++ m ∷ []) v
      (without-AreRanked t s.active_coaching_suggestions s.coaching_suggestions v.ranked
        m.suggestion_id)

compete-IsValid :
    (t : TextMethods) (event : CoachingSuggestionEvent) (a : Attribution) (s : CallState)
    (active : List CallCoachingMetadata)
    → IsValid t s
    → IsValid t (compete t event a s active).state
unfolding compete
compete-IsValid t event a s [] v = enter-IsValid t event a (candidate_of event a s) s v
compete-IsValid t event a s (x ∷ xs) v =
    let c = candidate_of event a s in
    let w = weakest t x xs in
    elim (Bool-cases (rank_le (coaching_rank t.casefold c) (coaching_rank t.casefold w))) [
      | inl no_better ↦ rw (no_better, compete) v
      | inr better ↦
          rw (better, compete) (enter-IsValid t event a c (evict w s) (evict-IsValid t w s v))
    ]

admit-IsValid :
    (t : TextMethods) (event : CoachingSuggestionEvent) (a : Attribution) (maximum : ℕ)
    (s : CallState)
    → IsValid t s
    → IsValid t (admit t event a maximum s).state
unfolding admit
admit-IsValid t event a maximum s v =
    elim (Bool-cases (leb maximum (length s.active_coaching_suggestions))) [
      | inr room ↦ rw (room, admit) (enter-IsValid t event a (candidate_of event a s) s v)
      | inl full ↦ rw (full, admit) (compete-IsValid t event a s s.active_coaching_suggestions v)
    ]

pub admit_coaching_suggestion-IsValid :
    (t : TextMethods) (event : CoachingSuggestionEvent) (a : Attribution) (maximum : ℤ)
    (s : CallState)
    → IsValid t s
    → Results t (admitted_state (admit_coaching_suggestion t event a maximum s))
unfolding admit_coaching_suggestion
admit_coaching_suggestion-IsValid t event a maximum s v =
    elim (Bool-cases (leb (pos_part maximum) 0)) [
      | inl none_allowed ↦ rw (none_allowed, admit_coaching_suggestion) tt
      | inr some_allowed ↦ elim (Bool-cases (in_scope t s event.tenant_id event.call_id)) [
        | inl same ↦
            rw (some_allowed, same, admit_coaching_suggestion)
              (admit-IsValid t event a (pos_part maximum) s v)
        | inr other ↦ rw (some_allowed, other, admit_coaching_suggestion) tt
      ]
    ]

pub update_coaching_suggestion-IsValid :
    (t : TextMethods) (event : CoachingSuggestionEvent) (a : Attribution) (s : CallState)
    → IsValid t s
    → Results t (update_coaching_suggestion t event a s)
unfolding update_coaching_suggestion
update_coaching_suggestion-IsValid t event a s v =
    let i = event.suggestion_id in
    let active = s.active_coaching_suggestions in
    elim (Bool-cases (in_scope t s event.tenant_id event.call_id)) [
      | inr other ↦ rw (other, update_coaching_suggestion) tt
      | inl same ↦ elim (Option-cases (find_suggestion i active)) [
        | inl missing ↦ rw (same, missing, update_coaching_suggestion) tt
        | inr (m, e) ↦
            let u = updated_by event a m in
            let same_id = find_suggestion-id i active m e in
            rw (same, e, update_coaching_suggestion)
              (confirm-IsValid t event a _ (
                with_suggestions t s (sort (ranks_before t.casefold) (replace i u active))
                  (replace i u s.coaching_suggestions) s.coaching_suggestion_history v
                  (replace-AreRanked t _ s.coaching_suggestions
                    (update-AreRanked t active s.coaching_suggestions v.ranked i u same_id) i u
                    same_id)))
      ]
    ]

withdrawable-id :
    (i : String) (s : CallState) (m : CallCoachingMetadata)
    → withdrawable i s ≡ some m
    → m.suggestion_id ≡ i
unfolding withdrawable
withdrawable-id i s m e = elim (Option-cases (find_suggestion i s.active_coaching_suggestions)) [
  | inl missing ↦ find_suggestion-id i s.coaching_suggestions m (ground (arith, e, missing))
  | inr (n, f) ↦ find_suggestion-id i s.active_coaching_suggestions m (ground (arith, e, f))
]

pub withdraw_coaching_suggestion-IsValid :
    (t : TextMethods) (i : String) (s : CallState)
    → IsValid t s
    → IsValid t (withdraw_coaching_suggestion i s).1
unfolding withdraw_coaching_suggestion
withdraw_coaching_suggestion-IsValid t i s v = elim (Option-cases (withdrawable i s)) [
  | inl missing ↦ rw (missing, withdraw_coaching_suggestion) v
  | inr (m, e) ↦
      rw (e, withdraw_coaching_suggestion)
        (with_suggestions t s _ _ _ v (
          replace-AreRanked t _ s.coaching_suggestions
            (without-AreRanked t s.active_coaching_suggestions s.coaching_suggestions v.ranked i) i
            _ (withdrawable-id i s m e)))
]
