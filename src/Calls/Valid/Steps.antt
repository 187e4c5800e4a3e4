-- ===== src/Calls/Valid/Steps.antt =====
-- Every method of `CallState` (app/calls/models.py) keeps the state valid, so it is valid after any calls.
use cma_real_time_coaching.Prelude.{
  ℕ, refl, Bool-cases, inl, inr, Option, some, List, [], ◌∷◌, String, ◌==◌, string_eq, ltb,
}
use cma_real_time_coaching.Prelude.Int.{ℤ, pos, pos_part, ltb_ℤ}
use cma_real_time_coaching.Prelude.Index.{includes}
use cma_real_time_coaching.Rtp.Types.{AudioChunkEvent}
use cma_real_time_coaching.Events.Models.{
  TranscriptEvent, TranscriptKind, ClassificationResultEvent, CoachingSuggestionSource,
}
use cma_real_time_coaching.Prelude.Text.{Text}
use cma_real_time_coaching.Events.Labels.Canonical.{canonical_labels-Canonical, AllDifferent-snoc}
use cma_real_time_coaching.Calls.Types.{CallState, Result, TextMethods}
use cma_real_time_coaching.Calls.Labels.{Detection, record_detected_labels}
use cma_real_time_coaching.Calls.Suggestions.{in_scope}
use cma_real_time_coaching.Calls.State.{
  Call, ClassificationContext, names_of, is_negative, any_negative, initial, transcribe,
  apply_audio_chunk, apply_transcript, update_active_labels, mark_classification_attempt,
  classified, apply_classification, mark_suggestion_shown, mark_coaching_triggered, settle, attempt,
  run,
}
use cma_real_time_coaching.Calls.Valid.{
  IsValid, Results, all_same, Agree-IsValid, record_detected_labels-IsValid,
  apply_coaching_suggestion-IsValid, admit_coaching_suggestion-IsValid,
  update_coaching_suggestion-IsValid, withdraw_coaching_suggestion-IsValid,
}

apply_audio_chunk-IsValid :
    (t : TextMethods) (event : AudioChunkEvent) (s : CallState)
    → IsValid t s
    → Results t (apply_audio_chunk t event s)
unfolding apply_audio_chunk
apply_audio_chunk-IsValid t event s v =
    elim (Bool-cases (in_scope t s event.tenant_id event.call_id)) [
      | inr other ↦ rw (other, apply_audio_chunk) tt
      | inl same ↦ elim (Bool-cases (ltb_ℤ s.last_audio_sequence (pos event.sequence_number))) [
        | inl later ↦ rw (same, later, apply_audio_chunk) (Agree-IsValid t s _ (all_same s) v)
        | inr early ↦ rw (same, early, apply_audio_chunk) tt
      ]
    ]

transcribe-IsValid :
    (t : TextMethods) (kind : TranscriptKind) (text : Text) (revision : ℕ) (s : CallState)
    → IsValid t s
    → IsValid t (record (transcribe t kind text s) { transcript_revision = revision })
transcribe-IsValid t TranscriptKind.partial text revision s v = Agree-IsValid t s _ (all_same s) v
transcribe-IsValid t TranscriptKind.stable text revision s v = Agree-IsValid t s _ (all_same s) v
transcribe-IsValid t TranscriptKind.final text revision s v = Agree-IsValid t s _ (all_same s) v

apply_transcript-IsValid :
    (t : TextMethods) (event : TranscriptEvent) (s : CallState)
    → IsValid t s
    → Results t (apply_transcript t event s)
unfolding apply_transcript
apply_transcript-IsValid t event s v =
    elim (Bool-cases (in_scope t s event.tenant_id event.call_id)) [
      | inr other ↦ rw (other, apply_transcript) tt
      | inl same ↦ elim (Bool-cases (ltb event.revision s.transcript_revision)) [
        | inl older ↦ rw (same, older, apply_transcript) tt
        | inr newer ↦
            rw (same, newer, apply_transcript)
              (transcribe-IsValid t event.kind event.text event.revision s v)
      ]
    ]

update_active_labels-IsValid :
    (t : TextMethods) (labels : List String) (s : CallState)
    → IsValid t s
    → IsValid t (update_active_labels t labels s)
unfolding update_active_labels
update_active_labels-IsValid t labels s v = record {
  active = canonical_labels-Canonical t.strip t.casefold labels;
  accumulated = v.accumulated;
  diagnostics = v.diagnostics;
  increasing = v.increasing;
  shown = v.shown;
  ranked = v.ranked;
}

mark_classification_attempt-IsValid :
    (t : TextMethods) (revision : ℤ) (source : Option ℤ) (s : CallState)
    → IsValid t s
    → Results t (mark_classification_attempt revision source s)
unfolding mark_classification_attempt
mark_classification_attempt-IsValid t revision source s v =
    elim (Bool-cases (is_negative revision)) [
      | inl below ↦ rw (below, mark_classification_attempt) tt
      | inr fine ↦ elim (Bool-cases (any_negative source)) [
        | inl below ↦ rw (fine, below, mark_classification_attempt) tt
        | inr also_fine ↦
            rw (fine, also_fine, mark_classification_attempt) (Agree-IsValid t s _ (all_same s) v)
      ]
    ]

classified-IsValid :
    (t : TextMethods) (event : ClassificationResultEvent) (c : ClassificationContext)
    (s : CallState)
    → IsValid t s
    → IsValid t (classified t event c s)
unfolding classified
classified-IsValid t event c s v =
    let names = names_of event.labels in
    let d : Detection = record {
      transcript_revision = pos_part c.transcript_revision;
      source = CoachingSuggestionSource.classification;
      model_id = some event.model_id;
      threshold_profile_id = event.threshold_profile_id;
      classification_view_sources = c.label_view_sources;
    } in
    let labelled = record_detected_labels t d names (update_active_labels t names s) in
    Agree-IsValid t labelled _ (all_same labelled) (
      record_detected_labels-IsValid t d names (update_active_labels t names s)
        (update_active_labels-IsValid t names s v))

after_attempt :
    (t : TextMethods) (event : ClassificationResultEvent) (c : ClassificationContext)
    (r : Result CallState)
    → Results t r
    → Results t (elim r [
      | Result.err e ↦ Result.err e
      | Result.ok marked ↦ Result.ok (classified t event c marked)
    ])
after_attempt t event c (Result.ok s) v = classified-IsValid t event c s v
after_attempt t event c (Result.err e) v = tt

apply_classification-IsValid :
    (t : TextMethods) (event : ClassificationResultEvent) (c : ClassificationContext)
    (s : CallState)
    → IsValid t s
    → Results t (apply_classification t event c s)
unfolding apply_classification
apply_classification-IsValid t event c s v =
    elim (Bool-cases (in_scope t s event.tenant_id event.call_id)) [
      | inr other ↦ rw (other, apply_classification) tt
      | inl same ↦
          rw (same, apply_classification)
            (after_attempt t event c
              (mark_classification_attempt c.transcript_revision c.source_sequence s)
              (mark_classification_attempt-IsValid t c.transcript_revision c.source_sequence s v))
    ]

mark_suggestion_shown-IsValid :
    (t : TextMethods) (identifier : String) (s : CallState)
    → IsValid t s
    → Results t (mark_suggestion_shown t identifier s)
unfolding mark_suggestion_shown
mark_suggestion_shown-IsValid t identifier s v = elim (Bool-cases (t.strip identifier == "")) [
  | inl blank ↦ rw (blank, mark_suggestion_shown) tt
  | inr some_text ↦ elim (Bool-cases (includes (t.strip identifier) s.shown_suggestion_ids)) [
    | inl known ↦ rw (some_text, known, mark_suggestion_shown) v
    | inr new ↦
        rw (some_text, new, mark_suggestion_shown)
          (record {
            active = v.active;
            accumulated = v.accumulated;
            diagnostics = v.diagnostics;
            increasing = v.increasing;
            shown = AllDifferent-snoc s.shown_suggestion_ids (t.strip identifier) v.shown new;
            ranked = v.ranked;
          })
  ]
]

mark_coaching_triggered-IsValid :
    (t : TextMethods) (current : ℤ) (s : CallState)
    → IsValid t s
    → Results t (mark_coaching_triggered current s)
unfolding mark_coaching_triggered
mark_coaching_triggered-IsValid t current s v = elim (Bool-cases (is_negative current)) [
  | inl below ↦ rw (below, mark_coaching_triggered) tt
  | inr fine ↦ rw (fine, mark_coaching_triggered) (Agree-IsValid t s _ (all_same s) v)
]

-- Every method of a valid state that does not raise leaves a valid state.
attempt-IsValid :
    (t : TextMethods) (c : Call) (s : CallState) → IsValid t s → Results t (attempt t c s)
attempt-IsValid t (Call.audio_chunk event) s v = apply_audio_chunk-IsValid t event s v
attempt-IsValid t (Call.transcript event) s v = apply_transcript-IsValid t event s v
attempt-IsValid t (Call.active_labels labels) s v = update_active_labels-IsValid t labels s v
attempt-IsValid t (Call.detected_labels d labels) s v =
    record_detected_labels-IsValid t d labels s v
attempt-IsValid t (Call.classification_attempt revision source) s v =
    mark_classification_attempt-IsValid t revision source s v
attempt-IsValid t (Call.classification event c) s v = apply_classification-IsValid t event c s v
attempt-IsValid t (Call.apply_suggestion event a) s v =
    apply_coaching_suggestion-IsValid t event a s v
attempt-IsValid t (Call.admit_suggestion event a maximum) s v =
    admit_coaching_suggestion-IsValid t event a maximum s v
attempt-IsValid t (Call.update_suggestion event a) s v =
    update_coaching_suggestion-IsValid t event a s v
attempt-IsValid t (Call.withdraw_suggestion i) s v = withdraw_coaching_suggestion-IsValid t i s v
attempt-IsValid t (Call.suggestion_shown i) s v = mark_suggestion_shown-IsValid t i s v
attempt-IsValid t (Call.coaching_triggered current) s v =
    mark_coaching_triggered-IsValid t current s v

settle-IsValid :
    (t : TextMethods) (s : CallState) (r : Result CallState)
    → IsValid t s
    → Results t r
    → IsValid t (settle s r)
settle-IsValid t s (Result.ok u) v w = w
settle-IsValid t s (Result.err e) v w = v

-- After any calls of its methods, whether they raise or not, a valid state is valid: its active and detected
-- labels are canonical, none twice and `no_action` only alone; its timeline has one valid diagnostic for each
-- revision, in their order; no suggestion is marked as shown twice; and its active suggestions stand by rank,
-- each listed among all suggestions.
pub run-IsValid :
    (t : TextMethods) (cs : List Call) (s : CallState) → IsValid t s → IsValid t (run t cs s)
unfolding run
run-IsValid t [] s v = v
run-IsValid t (c ∷ cs) s v =
    run-IsValid t cs (settle s (attempt t c s))
      (settle-IsValid t s (attempt t c s) v (attempt-IsValid t c s v))

-- The state that a call begins with is valid.
pub initial-IsValid :
    (t : TextMethods) (tenant_id call_id : String) → IsValid t (initial tenant_id call_id)
unfolding includes
initial-IsValid t tenant_id call_id = record {
  active = record { known = tt; different = tt; idle_alone = inl refl };
  accumulated = record { known = tt; different = tt; idle_alone = inl refl };
  diagnostics = tt;
  increasing = tt;
  shown = tt;
  ranked = record { sorted = tt; listed = tt };
}
