-- ===== src/Calls/State/Progress.antt =====
-- What only grows over the calls of `CallState` (app/calls/models.py).
use cma_real_time_coaching.Prelude.{
  ℕ, ◌≤◌, refl, Bool-cases, inl, inr, Option, some, List, [], ◌∷◌, String, ◌==◌, string_eq, arith,
  ltb, ltb-true, ltb-false,
}
use cma_real_time_coaching.Prelude.Int.{ℤ, pos, pos_part, ltb_ℤ}
use cma_real_time_coaching.Prelude.Index.{includes}
use cma_real_time_coaching.Prelude.Text.{Text}
use cma_real_time_coaching.Rtp.Types.{AudioChunkEvent}
use cma_real_time_coaching.Events.Models.{
  TranscriptEvent, TranscriptKind, ClassificationResultEvent, CoachingSuggestionSource,
}
use cma_real_time_coaching.Calls.Types.{CallState, Result, TextMethods}
use cma_real_time_coaching.Calls.Labels.{record_detected_labels, upsert_label_revision_diagnostic}
use cma_real_time_coaching.Calls.Suggestions.{in_scope}
use cma_real_time_coaching.Calls.State.{
  Call, ClassificationContext, names_of, is_negative, any_negative, transcribe, apply_audio_chunk,
  apply_transcript, update_active_labels, mark_classification_attempt, classified,
  apply_classification, mark_suggestion_shown, mark_coaching_triggered, settle, attempt, run,
}
use cma_real_time_coaching.Calls.Labels.Persistence.{record_detected_labels-Keeps}
use cma_real_time_coaching.Calls.State.Growth.{
  Grown, Grown-trans, Fixed-Grown, record_detected_labels-Grown, unchanged, GrownTo,
  apply_coaching_suggestion-Grown, admit_coaching_suggestion-Grown,
  update_coaching_suggestion-Grown, withdraw_coaching_suggestion-Grown,
}

apply_audio_chunk-Grown :
    (t : TextMethods) (event : AudioChunkEvent) (s : CallState)
    → GrownTo s (apply_audio_chunk t event s)
unfolding apply_audio_chunk
apply_audio_chunk-Grown t event s = elim (Bool-cases (in_scope t s event.tenant_id event.call_id)) [
  | inr other ↦ rw (other, apply_audio_chunk) tt
  | inl same ↦ elim (Bool-cases (ltb_ℤ s.last_audio_sequence (pos event.sequence_number))) [
    | inr early ↦ rw (same, early, apply_audio_chunk) tt
    | inl later ↦
        rw (same, later, apply_audio_chunk)
          (record {
            tenant = refl;
            call = refl;
            revision = omega arith;
            audio = omega (arith, ltb-true _ _ later);
            suggestions = omega arith;
            history = omega arith;
            labels = λ l b e. e;
          })
  ]
]

transcribe-Grown :
    (t : TextMethods) (kind : TranscriptKind) (text : Text) (revision : ℕ) (s : CallState)
    → s.transcript_revision ≤ revision
    → Grown s (record (transcribe t kind text s) { transcript_revision = revision })
transcribe-Grown t TranscriptKind.partial text revision s h = record {
  tenant = refl;
  call = refl;
  revision = h;
  audio = omega arith;
  suggestions = omega arith;
  history = omega arith;
  labels = λ l b e. e;
}
transcribe-Grown t TranscriptKind.stable text revision s h = record {
  tenant = refl;
  call = refl;
  revision = h;
  audio = omega arith;
  suggestions = omega arith;
  history = omega arith;
  labels = λ l b e. e;
}
transcribe-Grown t TranscriptKind.final text revision s h = record {
  tenant = refl;
  call = refl;
  revision = h;
  audio = omega arith;
  suggestions = omega arith;
  history = omega arith;
  labels = λ l b e. e;
}

apply_transcript-Grown :
    (t : TextMethods) (event : TranscriptEvent) (s : CallState)
    → GrownTo s (apply_transcript t event s)
unfolding apply_transcript
apply_transcript-Grown t event s = elim (Bool-cases (in_scope t s event.tenant_id event.call_id)) [
  | inr other ↦ rw (other, apply_transcript) tt
  | inl same ↦ elim (Bool-cases (ltb event.revision s.transcript_revision)) [
    | inl older ↦ rw (same, older, apply_transcript) tt
    | inr newer ↦
        rw (same, newer, apply_transcript)
          (transcribe-Grown t event.kind event.text event.revision s
            (ltb-false event.revision s.transcript_revision newer))
  ]
]

update_active_labels-Grown :
    (t : TextMethods) (labels : List String) (s : CallState)
    → Grown s (update_active_labels t labels s)
unfolding update_active_labels
update_active_labels-Grown t labels s = Fixed-Grown s _ (unchanged s) (λ l b e. e)

mark_classification_attempt-Grown :
    (revision : ℤ) (source : Option ℤ) (s : CallState)
    → GrownTo s (mark_classification_attempt revision source s)
unfolding mark_classification_attempt
mark_classification_attempt-Grown revision source s = elim (Bool-cases (is_negative revision)) [
  | inl below ↦ rw (below, mark_classification_attempt) tt
  | inr fine ↦ elim (Bool-cases (any_negative source)) [
    | inl below ↦ rw (fine, below, mark_classification_attempt) tt
    | inr also_fine ↦
        rw (fine, also_fine, mark_classification_attempt)
          (Fixed-Grown s _ (unchanged s) (λ l b e. e))
  ]
]

classified-Grown :
    (t : TextMethods) (event : ClassificationResultEvent) (c : ClassificationContext)
    (s : CallState)
    → Grown s (classified t event c s)
unfolding classified update_active_labels record_detected_labels upsert_label_revision_diagnostic
classified-Grown t event c s =
    let names = names_of event.labels in
    Fixed-Grown s _ (unchanged s) (
      record_detected_labels-Keeps t
        (record {
          transcript_revision = pos_part c.transcript_revision;
          source = CoachingSuggestionSource.classification;
          model_id = some event.model_id;
          threshold_profile_id = event.threshold_profile_id;
          classification_view_sources = c.label_view_sources;
        })
        names (update_active_labels t names s))

after_attempt-Grown :
    (t : TextMethods) (event : ClassificationResultEvent) (c : ClassificationContext)
    (s : CallState) (r : Result CallState)
    → GrownTo s r
    → GrownTo s (elim r [
      | Result.err e ↦ Result.err e
      | Result.ok marked ↦ Result.ok (classified t event c marked)
    ])
after_attempt-Grown t event c s (Result.ok u) g = Grown-trans s u _ g (classified-Grown t event c u)
after_attempt-Grown t event c s (Result.err e) g = tt

apply_classification-Grown :
    (t : TextMethods) (event : ClassificationResultEvent) (c : ClassificationContext)
    (s : CallState)
    → GrownTo s (apply_classification t event c s)
unfolding apply_classification
apply_classification-Grown t event c s =
    elim (Bool-cases (in_scope t s event.tenant_id event.call_id)) [
      | inr other ↦ rw (other, apply_classification) tt
      | inl same ↦
          rw (same, apply_classification)
            (after_attempt-Grown t event c s
              (mark_classification_attempt c.transcript_revision c.source_sequence s)
              (mark_classification_attempt-Grown c.transcript_revision c.source_sequence s))
    ]

mark_suggestion_shown-Grown :
    (t : TextMethods) (i : String) (s : CallState) → GrownTo s (mark_suggestion_shown t i s)
unfolding mark_suggestion_shown
mark_suggestion_shown-Grown t i s = elim (Bool-cases (t.strip i == "")) [
  | inl blank ↦ rw (blank, mark_suggestion_shown) tt
  | inr some_text ↦ elim (Bool-cases (includes (t.strip i) s.shown_suggestion_ids)) [
    | inl known ↦
        rw (some_text, known, mark_suggestion_shown) (Fixed-Grown s _ (unchanged s) (λ l b e. e))
    | inr new ↦
        rw (some_text, new, mark_suggestion_shown) (Fixed-Grown s _ (unchanged s) (λ l b e. e))
  ]
]

mark_coaching_triggered-Grown :
    (current : ℤ) (s : CallState) → GrownTo s (mark_coaching_triggered current s)
unfolding mark_coaching_triggered
mark_coaching_triggered-Grown current s = elim (Bool-cases (is_negative current)) [
  | inl below ↦ rw (below, mark_coaching_triggered) tt
  | inr fine ↦ rw (fine, mark_coaching_triggered) (Fixed-Grown s _ (unchanged s) (λ l b e. e))
]

attempt-Grown : (t : TextMethods) (c : Call) (s : CallState) → GrownTo s (attempt t c s)
attempt-Grown t (Call.audio_chunk event) s = apply_audio_chunk-Grown t event s
attempt-Grown t (Call.transcript event) s = apply_transcript-Grown t event s
attempt-Grown t (Call.active_labels labels) s = update_active_labels-Grown t labels s
attempt-Grown t (Call.detected_labels d labels) s = record_detected_labels-Grown t d labels s
attempt-Grown t (Call.classification_attempt revision source) s =
    mark_classification_attempt-Grown revision source s
attempt-Grown t (Call.classification event c) s = apply_classification-Grown t event c s
attempt-Grown t (Call.apply_suggestion event a) s = apply_coaching_suggestion-Grown t event a s
attempt-Grown t (Call.admit_suggestion event a maximum) s =
    admit_coaching_suggestion-Grown t event a maximum s
attempt-Grown t (Call.update_suggestion event a) s = update_coaching_suggestion-Grown t event a s
attempt-Grown t (Call.withdraw_suggestion i) s = withdraw_coaching_suggestion-Grown i s
attempt-Grown t (Call.suggestion_shown i) s = mark_suggestion_shown-Grown t i s
attempt-Grown t (Call.coaching_triggered current) s = mark_coaching_triggered-Grown current s

settle-Grown : (s : CallState) (r : Result CallState) → GrownTo s r → Grown s (settle s r)
settle-Grown s (Result.ok u) g = g
settle-Grown s (Result.err e) g = Fixed-Grown s s (unchanged s) (λ l b e. e)

-- After any calls of its methods, whether they raise or not, the state is of the same tenant and call, its
-- revision and its last audio sequence are no less than before, no fewer suggestions are known or past, and
-- each label detected before is detected still, but perhaps `no_action`.
pub run-Grown : (t : TextMethods) (cs : List Call) (s : CallState) → Grown s (run t cs s)
unfolding run
run-Grown t [] s = Fixed-Grown s s (unchanged s) (λ l b e. e)
run-Grown t (c ∷ cs) s =
    let u = settle s (attempt t c s) in
    Grown-trans s u (run t cs u) (settle-Grown s (attempt t c s) (attempt-Grown t c s))
      (run-Grown t cs u)
