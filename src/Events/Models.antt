-- ===== src/Events/Models.antt =====
-- The events of app/events/models.py that the call state takes. Times in seconds are counts of ticks,
-- scores are numbers in a fixed unit, the time of creation is a number.
use cma_real_time_coaching.Prelude.{ℕ, Bool, true, false, Option, List, String}
use cma_real_time_coaching.Prelude.Text.{Text}

pub data TranscriptKind : Type 0 where
  partial stable final : TranscriptKind

pub data CoachingAction : Type 0 where
  no_action template_action rag_action escalate : CoachingAction

pub data SuggestionPriority : Type 0 where
  low medium high critical : SuggestionPriority

pub data CoachingSuggestionSource : Type 0 where
  rule classification both llm : CoachingSuggestionSource

pub data CoachingSuggestionLifecycle : Type 0 where
  provisional confirmed withdrawn : CoachingSuggestionLifecycle

-- `ClassificationViewSource` of app/events/labels.py
pub data ClassificationViewSource : Type 0 where
  delta bounded_context both : ClassificationViewSource

abbrev pub source_beq : CoachingSuggestionSource → CoachingSuggestionSource → Bool
source_beq CoachingSuggestionSource.rule CoachingSuggestionSource.rule = true
source_beq CoachingSuggestionSource.classification CoachingSuggestionSource.classification = true
source_beq CoachingSuggestionSource.both CoachingSuggestionSource.both = true
source_beq CoachingSuggestionSource.llm CoachingSuggestionSource.llm = true
source_beq _ _ = false

abbrev pub is_confirmed : CoachingSuggestionLifecycle → Bool
is_confirmed CoachingSuggestionLifecycle.confirmed = true
is_confirmed _ = false

pub record TranscriptEvent : Type 0 where
  pub tenant_id : String
  pub call_id : String
  pub event_id : String
  pub kind : TranscriptKind
  pub text : Text
  pub start_seconds : ℕ
  pub end_seconds : ℕ
  pub revision : ℕ
  pub created_at_utc : ℕ
  pub source_chunk_sequence : Option ℕ

pub record ClassificationLabel : Type 0 where
  pub name : String
  pub score : ℕ

pub record ClassificationResultEvent : Type 0 where
  pub tenant_id : String
  pub call_id : String
  pub transcript_event_id : String
  pub labels : List ClassificationLabel
  pub action : CoachingAction
  pub model_id : String
  pub threshold_profile_id : Option String
  pub probabilities : List (String × ℕ)
  pub thresholds : List (String × ℕ)
  pub processing_time_ms : Option ℕ
  pub is_provisional : Bool
  pub created_at_utc : ℕ

pub record CoachingSuggestionEvent : Type 0 where
  pub tenant_id : String
  pub call_id : String
  pub suggestion_id : String
  pub source_transcript_event_id : String
  pub action : CoachingAction
  pub priority : SuggestionPriority
  pub source : CoachingSuggestionSource
  pub lifecycle : CoachingSuggestionLifecycle
  pub label_id : Option String
  pub title : String
  pub suggestion : String
  pub evidence_ids : List String
  pub expires_after_seconds : Option ℕ
  pub created_at_utc : ℕ
