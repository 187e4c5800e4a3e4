-- ===== src/Calls/State.antt =====
-- The methods of `CallState` (app/calls/models.py) outside its labels and suggestions, and all of its
-- methods as steps: a call to one that raises leaves the state as it was. The validators of the fields
-- (`validate_assignment`) have no definition of their own; `Calls.Valid` shows what they ask.
pub mod Words
pub mod Growth
pub mod Progress
use cma_real_time_coaching.Prelude.{
  ℕ, Bool, true, false, not, ◌+◌, ◌||◌, Option, none, some, List, [], ◌∷◌, ◌++◌, map, String, ◌==◌,
  ltb, leb, list_eq, nat_eq, if◌then◌else◌, string_eq,
}
use cma_real_time_coaching.Prelude.Dict.{Dict}
use cma_real_time_coaching.Prelude.Int.{ℤ, pos, pos_part, ltb_ℤ}
use cma_real_time_coaching.Prelude.Index.{includes}
use cma_real_time_coaching.Prelude.Text.{Text, clean, strip_text, ends_with, non_empty, join}
use cma_real_time_coaching.Rtp.Types.{AudioChunkEvent}
use cma_real_time_coaching.Events.Labels.{canonical_labels}
use cma_real_time_coaching.Events.Models.{
  TranscriptEvent, TranscriptKind, ClassificationLabel, ClassificationResultEvent,
  ClassificationViewSource, CoachingSuggestionEvent, CoachingSuggestionSource,
}
use cma_real_time_coaching.Calls.Types.{
  CallDetectedLabelMetadata, CallRevisionLabelDiagnostic, CallState, CallError, Result, TextMethods,
}
use cma_real_time_coaching.Calls.Labels.{Detection, record_detected_labels}
use cma_real_time_coaching.Calls.Suggestions.{
  Attribution, Admission, in_scope, apply_coaching_suggestion, admit_coaching_suggestion,
  update_coaching_suggestion, withdraw_coaching_suggestion,
}

abbrev pub initial : String → String → CallState
initial tenant_id call_id = record {
  tenant_id = tenant_id;
  call_id = call_id;
  stable_transcript = [];
  partial_transcript = [];
  last_audio_sequence = ℤ.negsuc 0;
  active_labels = [];
  detected_labels = [];
  label_revision_timeline = [];
  shown_suggestion_ids = [];
  last_coaching_trigger_seconds = none;
  transcript_revision = 0;
  classification_model_id = none;
  classification_threshold_profile_id = none;
  classification_transcript_revision = none;
  classification_source_sequence = none;
  classification_inference_time_ms = none;
  classification_context_sentence_count = none;
  classification_preceding_sentence_count = none;
  classification_delta_word_count = none;
  classification_delta_inference_ran = false;
  classification_context_inference_ran = false;
  classification_delta_inference_time_ms = none;
  classification_context_inference_time_ms = none;
  classification_delta_labels = [];
  classification_context_labels = [];
  coaching_suggestions = [];
  active_coaching_suggestions = [];
  coaching_suggestion_history = [];
  coaching_transcript_revision = none;
}

-- `apply_audio_chunk`
unfoldable pub apply_audio_chunk : TextMethods → AudioChunkEvent → CallState → Result CallState
apply_audio_chunk t event s =
    if in_scope t s event.tenant_id event.call_id
    then if ltb_ℤ s.last_audio_sequence (pos event.sequence_number)
      then Result.ok (record s { last_audio_sequence = pos event.sequence_number })
      else Result.err CallError.audio_sequence_not_greater
    else Result.err CallError.scope_mismatch

-- The stable transcript after `_append_stable`
unfoldable pub append_stable : (ℕ → Bool) → Text → Text → Text
unfolding ends_with non_empty join
append_stable is_space text stable =
    let cleaned = clean is_space text in
    if stable == cleaned || ends_with stable (b' ' ∷ cleaned)
    then stable
    else join (non_empty (strip_text is_space stable ∷ cleaned ∷ []))

-- The three branches of `apply_transcript`
abbrev pub transcribe : TextMethods → TranscriptKind → Text → CallState → CallState
transcribe t TranscriptKind.partial text s = record s { partial_transcript = text }
transcribe t TranscriptKind.stable text s = record s {
  stable_transcript = append_stable t.is_space text s.stable_transcript;
}
transcribe t TranscriptKind.final text s = record s {
  stable_transcript = append_stable t.is_space text s.stable_transcript;
  partial_transcript = [];
}

-- `apply_transcript`
unfoldable pub apply_transcript : TextMethods → TranscriptEvent → CallState → Result CallState
unfolding append_stable
apply_transcript t event s =
    if in_scope t s event.tenant_id event.call_id
    then if ltb event.revision s.transcript_revision
      then Result.err CallError.revision_is_older
      else Result.ok
          (record (transcribe t event.kind event.text s) { transcript_revision = event.revision })
    else Result.err CallError.scope_mismatch

-- `update_active_labels`
unfoldable pub update_active_labels : TextMethods → List String → CallState → CallState
update_active_labels t labels s = record s {
  active_labels = canonical_labels t.strip t.casefold labels;
}

abbrev pub is_negative : ℤ → Bool
is_negative z = ltb_ℤ z (pos 0)

abbrev pub any_negative : Option ℤ → Bool
any_negative none = false
any_negative (some z) = is_negative z

abbrev pub natural : Option ℤ → Option ℕ
natural none = none
natural (some z) = some (pos_part z)

-- `mark_classification_attempt`
unfoldable pub mark_classification_attempt : ℤ → Option ℤ → CallState → Result CallState
mark_classification_attempt revision source_sequence s =
    if is_negative revision
    then Result.err CallError.negative_revision
    else if any_negative source_sequence
    then Result.err CallError.negative_source_sequence
    else Result.ok (record s {
      classification_transcript_revision = some (pos_part revision);
      classification_source_sequence = natural source_sequence;
    })

-- The keyword arguments of `apply_classification`; no sources for the views are an empty dictionary.
pub record ClassificationContext : Type 0 where
  pub transcript_revision : ℤ
  pub source_sequence : Option ℤ
  pub context_sentence_count : Option ℕ
  pub preceding_sentence_count : Option ℕ
  pub delta_word_count : Option ℕ
  pub delta_inference_ran : Bool
  pub context_inference_ran : Bool
  pub delta_inference_time_ms : Option ℕ
  pub context_inference_time_ms : Option ℕ
  pub delta_labels : List String
  pub context_labels : List String
  pub label_view_sources : Dict String ClassificationViewSource

abbrev pub names_of : List ClassificationLabel → List String
names_of = map (λ l. l.name)

-- `apply_classification` after its checks, from the state with the attempt marked.
unfoldable pub classified :
    TextMethods → ClassificationResultEvent → ClassificationContext → CallState → CallState
unfolding update_active_labels record_detected_labels
classified t event c s =
    let names = names_of event.labels in
    let labelled =
      record_detected_labels t
        (record {
          transcript_revision = pos_part c.transcript_revision;
          source = CoachingSuggestionSource.classification;
          model_id = some event.model_id;
          threshold_profile_id = event.threshold_profile_id;
          classification_view_sources = c.label_view_sources;
        })
        names (update_active_labels t names s) in
    record labelled {
      classification_model_id = some event.model_id;
      classification_threshold_profile_id = event.threshold_profile_id;
      classification_inference_time_ms = event.processing_time_ms;
      classification_context_sentence_count = c.context_sentence_count;
      classification_preceding_sentence_count = c.preceding_sentence_count;
      classification_delta_word_count = c.delta_word_count;
      classification_delta_inference_ran = c.delta_inference_ran;
      classification_context_inference_ran = c.context_inference_ran;
      classification_delta_inference_time_ms = c.delta_inference_time_ms;
      classification_context_inference_time_ms = c.context_inference_time_ms;
      classification_delta_labels = canonical_labels t.strip t.casefold c.delta_labels;
      classification_context_labels = canonical_labels t.strip t.casefold c.context_labels;
    }

-- `apply_classification`
unfoldable pub apply_classification :
    TextMethods → ClassificationResultEvent → ClassificationContext → CallState → Result CallState
unfolding mark_classification_attempt
apply_classification t event c s =
    if in_scope t s event.tenant_id event.call_id
    then elim (mark_classification_attempt c.transcript_revision c.source_sequence s) [
      | Result.err e ↦ Result.err e
      | Result.ok marked ↦ Result.ok (classified t event c marked)
    ]
    else Result.err CallError.scope_mismatch

pub record CallClassificationMetadata : Type 0 where
  pub active_labels : List String
  pub model_id : Option String
  pub threshold_profile_id : Option String
  pub transcript_revision : Option ℕ
  pub source_sequence : Option ℕ
  pub inference_time_ms : Option ℕ
  pub detected_labels : List CallDetectedLabelMetadata
  pub context_sentence_count : Option ℕ
  pub preceding_sentence_count : Option ℕ
  pub delta_word_count : Option ℕ
  pub revision_label_timeline : List CallRevisionLabelDiagnostic
  pub delta_inference_ran : Bool
  pub context_inference_ran : Bool
  pub delta_inference_time_ms : Option ℕ
  pub context_inference_time_ms : Option ℕ
  pub delta_labels : List String
  pub context_labels : List String

-- `classification_metadata`, with the validator of its active labels
abbrev pub classification_metadata : TextMethods → CallState → CallClassificationMetadata
classification_metadata t s = record {
  active_labels = canonical_labels t.strip t.casefold s.active_labels;
  model_id = s.classification_model_id;
  threshold_profile_id = s.classification_threshold_profile_id;
  transcript_revision = s.classification_transcript_revision;
  source_sequence = s.classification_source_sequence;
  inference_time_ms = s.classification_inference_time_ms;
  detected_labels = s.detected_labels;
  context_sentence_count = s.classification_context_sentence_count;
  preceding_sentence_count = s.classification_preceding_sentence_count;
  delta_word_count = s.classification_delta_word_count;
  revision_label_timeline = s.label_revision_timeline;
  delta_inference_ran = s.classification_delta_inference_ran;
  context_inference_ran = s.classification_context_inference_ran;
  delta_inference_time_ms = s.classification_delta_inference_time_ms;
  context_inference_time_ms = s.classification_context_inference_time_ms;
  delta_labels = s.classification_delta_labels;
  context_labels = s.classification_context_labels;
}

-- `mark_suggestion_shown`
unfoldable pub mark_suggestion_shown : TextMethods → String → CallState → Result CallState
unfolding includes
mark_suggestion_shown t suggestion_id s =
    let cleaned = t.strip suggestion_id in
    if cleaned == ""
    then Result.err CallError.empty_suggestion_id
    else Result.ok (
        if includes cleaned s.shown_suggestion_ids
        then s
        else record s { shown_suggestion_ids = s.shown_suggestion_ids ++ cleaned ∷ [] })

-- The test of `can_trigger_coaching`, for times that are not negative.
abbrev pub has_cooled : ℤ → ℤ → Option ℕ → Bool
has_cooled current cooldown none = true
has_cooled current cooldown (some last) = leb (pos_part cooldown + last) (pos_part current)

-- `can_trigger_coaching`
unfoldable pub can_trigger_coaching : ℤ → ℤ → CallState → Result Bool
can_trigger_coaching current cooldown s =
    if is_negative current || is_negative cooldown
    then Result.err CallError.negative_time
    else Result.ok (has_cooled current cooldown s.last_coaching_trigger_seconds)

-- `mark_coaching_triggered`
unfoldable pub mark_coaching_triggered : ℤ → CallState → Result CallState
mark_coaching_triggered current s =
    if is_negative current
    then Result.err CallError.negative_time
    else Result.ok (record s { last_coaching_trigger_seconds = some (pos_part current) })

-- A call of a method that changes the state.
pub data Call : Type 0 where
  audio_chunk : AudioChunkEvent → Call
  transcript : TranscriptEvent → Call
  active_labels : List String → Call
  detected_labels : Detection → List String → Call
  classification_attempt : ℤ → Option ℤ → Call
  classification : ClassificationResultEvent → ClassificationContext → Call
  apply_suggestion : CoachingSuggestionEvent → Attribution → Call
  admit_suggestion : CoachingSuggestionEvent → Attribution → ℤ → Call
  update_suggestion : CoachingSuggestionEvent → Attribution → Call
  withdraw_suggestion : String → Call
  suggestion_shown : String → Call
  coaching_triggered : ℤ → Call

-- The state after a call that had this result; an error leaves the state before it.
abbrev pub settle : CallState → Result CallState → CallState
settle s (Result.ok after) = after
settle s (Result.err e) = s

abbrev pub admitted_state : Result Admission → Result CallState
admitted_state (Result.ok a) = Result.ok a.state
admitted_state (Result.err e) = Result.err e

abbrev pub attempt : TextMethods → Call → CallState → Result CallState
attempt t (Call.audio_chunk event) s = apply_audio_chunk t event s
attempt t (Call.transcript event) s = apply_transcript t event s
attempt t (Call.active_labels labels) s = Result.ok (update_active_labels t labels s)
attempt t (Call.detected_labels d labels) s = Result.ok (record_detected_labels t d labels s)
attempt t (Call.classification_attempt revision source) s =
    mark_classification_attempt revision source s
attempt t (Call.classification event c) s = apply_classification t event c s
attempt t (Call.apply_suggestion event a) s = apply_coaching_suggestion t event a s
attempt t (Call.admit_suggestion event a maximum) s =
    admitted_state (admit_coaching_suggestion t event a maximum s)
attempt t (Call.update_suggestion event a) s = update_coaching_suggestion t event a s
attempt t (Call.withdraw_suggestion identifier) s =
    Result.ok (withdraw_coaching_suggestion identifier s).1
attempt t (Call.suggestion_shown identifier) s = mark_suggestion_shown t identifier s
attempt t (Call.coaching_triggered current) s = mark_coaching_triggered current s

-- Calls, one after the other.
unfoldable pub run : TextMethods → List Call → CallState → CallState
run t [] s = s
run t (c ∷ cs) s = run t cs (settle s (attempt t c s))
