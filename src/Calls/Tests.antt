-- ===== src/Calls/Tests.antt =====
-- A call on which the theorems about app/calls/models.py are tried.
use cma_real_time_coaching.Prelude.{
  ℕ, ◌≤◌, ◌<◌, ◌≡◌, refl, true, false, Option, none, some, List, [], ◌∷◌, ◌++◌, String, ◌==◌,
  nat_eq, arith, ◌⊎◌, length, map,
}
use cma_real_time_coaching.Prelude.Int.{pos}
use cma_real_time_coaching.Prelude.Index.{includes}
use cma_real_time_coaching.Prelude.Sort.{sort, insort}
use cma_real_time_coaching.Events.Validation.{ensure_same_identifier}
use cma_real_time_coaching.Prelude.Text.{Text, split, codes}
use cma_real_time_coaching.Events.Models.{
  TranscriptEvent, TranscriptKind, CoachingSuggestionEvent, CoachingAction, SuggestionPriority,
  CoachingSuggestionSource, CoachingSuggestionLifecycle,
}
use cma_real_time_coaching.Calls.Types.{CallState, TextMethods}
use cma_real_time_coaching.Calls.Suggestions.{
  Attribution, detection_of, id_of, candidate_of, without, admit, admit_coaching_suggestion,
  compete, enter, evict, weakest, confirm, lesser, withdraw_coaching_suggestion,
}
use cma_real_time_coaching.Calls.Suggestions.Limit.{
  Refused, Replaced, Entered, admit-Decides, admit-length,
}
use cma_real_time_coaching.Calls.Suggestions.Withdrawal.{
  Withdrawn, withdraw_coaching_suggestion-cases,
}
use cma_real_time_coaching.Calls.State.{Call, initial, append_stable, run}
use cma_real_time_coaching.Calls.State.Words.{append_stable-words}
use cma_real_time_coaching.Calls.State.Growth.{Grown}
use cma_real_time_coaching.Calls.State.Progress.{run-Grown}
use cma_real_time_coaching.Calls.Valid.{IsValid}
use cma_real_time_coaching.Calls.Valid.Steps.{run-IsValid, initial-IsValid}

abbrev plain : TextMethods
plain = record { strip = λ s. s; casefold = λ s. s; is_space = λ c. c == 32 }

abbrev said : TranscriptKind → String → ℕ → TranscriptEvent
said kind text revision = record {
  tenant_id = "acme";
  call_id = "call-1";
  event_id = "e";
  kind = kind;
  text = codes text;
  start_seconds = 0;
  end_seconds = 1;
  revision = revision;
  created_at_utc = 0;
  source_chunk_sequence = none;
}

abbrev suggestion : String → SuggestionPriority → Option String → CoachingSuggestionEvent
suggestion identifier priority label = record {
  tenant_id = "acme";
  call_id = "call-1";
  suggestion_id = identifier;
  source_transcript_event_id = "e";
  action = CoachingAction.template_action;
  priority = priority;
  source = CoachingSuggestionSource.rule;
  lifecycle = CoachingSuggestionLifecycle.confirmed;
  label_id = label;
  title = "t";
  suggestion = "s";
  evidence_ids = [];
  expires_after_seconds = none;
  created_at_utc = 7;
}

abbrev at_revision : ℕ → Attribution
at_revision revision = record {
  transcript_revision = revision;
  model_id = none;
  threshold_profile_id = none;
}

abbrev calls : List Call
calls =
    Call.transcript (said TranscriptKind.stable "a b" 1)
    ∷ Call.admit_suggestion (suggestion "s1" SuggestionPriority.medium (some "complaint"))
        (at_revision 1) (pos 1)
    ∷ Call.admit_suggestion (suggestion "s2" SuggestionPriority.high (some "churn_risk"))
        (at_revision 1) (pos 1)
    ∷ Call.transcript (said TranscriptKind.partial "old" 0)
    ∷ Call.detected_labels
        (detection_of (suggestion "s1" SuggestionPriority.medium none) (at_revision 1))
        ("price_objection" ∷ [])
    ∷ Call.suggestion_shown "s1"
    ∷ Call.withdraw_suggestion "s2"
    ∷ []

abbrev fresh : CallState
fresh = initial "acme" "call-1"

-- The state with one active suggestion.
abbrev with_one : CallState
with_one =
    run plain
      (Call.admit_suggestion (suggestion "s1" SuggestionPriority.medium none) (at_revision 1)
          (pos 1)
        ∷ [])
      fresh

better_replaces :
    map id_of
      (admit plain
        (suggestion "s2" SuggestionPriority.high none)
        (at_revision 1)
        1
        with_one).state.active_coaching_suggestions
    ≡ "s2" ∷ []
unfolding admit compete enter evict weakest lesser without confirm sort insort run
    admit_coaching_suggestion ensure_same_identifier
better_replaces = refl

worse_is_refused :
    (admit plain (suggestion "s2" SuggestionPriority.low none) (at_revision 9) 1 with_one).admitted
    ≡ false
unfolding admit compete enter evict weakest lesser without confirm sort insort run
    admit_coaching_suggestion ensure_same_identifier
worse_is_refused = refl

run-IsValid_example : IsValid plain (run plain calls fresh)
run-IsValid_example = run-IsValid plain calls fresh (initial-IsValid plain "acme" "call-1")

run-Grown_example : Grown fresh (run plain calls fresh)
run-Grown_example = run-Grown plain calls fresh

admit-Decides_example :
    let r = admit plain (suggestion "s2" SuggestionPriority.high none) (at_revision 1) 1 with_one in
    let c = candidate_of (suggestion "s2" SuggestionPriority.high none) (at_revision 1) with_one in
    ((length with_one.active_coaching_suggestions < 1)
      × (r.admitted ≡ true)
      × (r.replaced ≡ none)
      × Entered plain with_one c with_one.active_coaching_suggestions
          with_one.coaching_suggestion_history r.state)
    ⊎ ((1 ≤ length with_one.active_coaching_suggestions)
        × (Refused plain with_one c r ⊎ Replaced plain with_one c r))
admit-Decides_example =
    admit-Decides plain (suggestion "s2" SuggestionPriority.high none) (at_revision 1) 1 with_one
      (omega arith)

admit-length_example :
    length
      (admit plain
        (suggestion "s2" SuggestionPriority.high none)
        (at_revision 1)
        1
        with_one).state.active_coaching_suggestions
    ≤ 1
unfolding admit compete enter evict weakest lesser without confirm sort insort run
    admit_coaching_suggestion ensure_same_identifier
admit-length_example =
    admit-length plain (suggestion "s2" SuggestionPriority.high none) (at_revision 1) 1 1 with_one
      (omega arith) (omega arith) (omega arith)

withdraw_coaching_suggestion-cases_example :
    (((withdraw_coaching_suggestion "s1" with_one).0 ≡ false)
      × ((withdraw_coaching_suggestion "s1" with_one).1 ≡ with_one)
      × (includes "s1" (map id_of with_one.active_coaching_suggestions) ≡ false)
      × (includes "s1" (map id_of with_one.coaching_suggestions) ≡ false))
    ⊎ (((withdraw_coaching_suggestion "s1" with_one).0 ≡ true)
        × Withdrawn "s1" with_one (withdraw_coaching_suggestion "s1" with_one).1)
withdraw_coaching_suggestion-cases_example = withdraw_coaching_suggestion-cases "s1" with_one

append_stable-words_example :
    ((append_stable (λ c. c == 32) (codes "b c") (codes "a") ≡ codes "a")
      × (front : List Text) × (split (λ c. c == 32) (codes "a")
          ≡ front ++ split (λ c. c == 32) (codes "b c")))
    ⊎ (split (λ c. c == 32) (append_stable (λ c. c == 32) (codes "b c") (codes "a"))
        ≡ split (λ c. c == 32) (codes "a") ++ split (λ c. c == 32) (codes "b c"))
append_stable-words_example = append_stable-words (λ c. c == 32) refl (codes "b c") (codes "a")
