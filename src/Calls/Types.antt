-- ===== src/Calls/Types.antt =====
-- The data of app/calls/models.py: the metadata of labels and suggestions, and `CallState`.
use cma_real_time_coaching.Prelude.{ℕ, Bool, Option, List, String}
use cma_real_time_coaching.Prelude.Int.{ℤ}
use cma_real_time_coaching.Prelude.Text.{Text}
use cma_real_time_coaching.Events.Models.{
  CoachingAction, SuggestionPriority, CoachingSuggestionSource, CoachingSuggestionLifecycle,
  ClassificationViewSource,
}

pub record CallDetectedLabelMetadata : Type 0 where
  pub label : String
  pub first_detected_revision : ℕ
  pub latest_detected_revision : ℕ
  pub source : CoachingSuggestionSource
  pub model_id : Option String
  pub threshold_profile_id : Option String

pub record CallRevisionLabelEvidence : Type 0 where
  pub label : String
  pub source : CoachingSuggestionSource
  pub model_id : Option String
  pub threshold_profile_id : Option String
  pub classification_view : Option ClassificationViewSource

pub record CallRevisionLabelDiagnostic : Type 0 where
  pub transcript_revision : ℕ
  pub current_labels : List String
  pub newly_accumulated_labels : List String
  pub evidence : List CallRevisionLabelEvidence

pub record CallCoachingMetadata : Type 0 where
  pub suggestion_id : String
  pub action : CoachingAction
  pub priority : SuggestionPriority
  pub source : CoachingSuggestionSource
  pub lifecycle : CoachingSuggestionLifecycle
  pub label_id : Option String
  pub transcript_revision : ℕ
  pub display_order : ℕ
  pub created_at_utc : ℕ
  pub model_id : Option String
  pub threshold_profile_id : Option String

pub record CallState : Type 0 where
  pub tenant_id : String
  pub call_id : String
  pub stable_transcript : Text
  pub partial_transcript : Text
  pub last_audio_sequence : ℤ
  pub active_labels : List String
  pub detected_labels : List CallDetectedLabelMetadata
  pub label_revision_timeline : List CallRevisionLabelDiagnostic
  pub shown_suggestion_ids : List String
  pub last_coaching_trigger_seconds : Option ℕ
  pub transcript_revision : ℕ
  pub classification_model_id : Option String
  pub classification_threshold_profile_id : Option String
  pub classification_transcript_revision : Option ℕ
  pub classification_source_sequence : Option ℕ
  pub classification_inference_time_ms : Option ℕ
  pub classification_context_sentence_count : Option ℕ
  pub classification_preceding_sentence_count : Option ℕ
  pub classification_delta_word_count : Option ℕ
  pub classification_delta_inference_ran : Bool
  pub classification_context_inference_ran : Bool
  pub classification_delta_inference_time_ms : Option ℕ
  pub classification_context_inference_time_ms : Option ℕ
  pub classification_delta_labels : List String
  pub classification_context_labels : List String
  pub coaching_suggestions : List CallCoachingMetadata
  pub active_coaching_suggestions : List CallCoachingMetadata
  pub coaching_suggestion_history : List CallCoachingMetadata
  pub coaching_transcript_revision : Option ℕ

-- The texts that a `ValueError` of the methods can have.
pub data CallError : Type 0 where
  scope_mismatch audio_sequence_not_greater revision_is_older : CallError
  negative_revision negative_source_sequence : CallError
  maximum_not_positive suggestion_not_active empty_suggestion_id negative_time : CallError

-- What a method gives back: a value, or the error that it raises.
pub data Result (A : Type 0) : Type 0 where
  ok : A → Result A
  err : CallError → Result A

-- What the methods use of `str`: `strip`, `casefold`, and which code points are white space.
pub record TextMethods : Type 0 where
  pub strip : String → String
  pub casefold : String → String
  pub is_space : ℕ → Bool
