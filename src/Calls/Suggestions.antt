-- ===== src/Calls/Suggestions.antt =====
-- The coaching suggestions of a call (app/calls/models.py): those that are shown, in the order of their
-- rank, all that there were, and those that left.
pub mod Rank
pub mod Active
pub mod Limit
pub mod Withdrawal
use cma_real_time_coaching.Prelude.{
  ℕ, Bool, true, false, not, Option, none, some, List, [], ◌∷◌, ◌++◌, map, String, ◌==◌, leb,
  if◌then◌else◌, string_eq, length,
}
use cma_real_time_coaching.Prelude.Int.{ℤ, pos_part}
use cma_real_time_coaching.Prelude.Sort.{sort}
use cma_real_time_coaching.Events.Validation.{ensure_same_identifier}
use cma_real_time_coaching.Events.Models.{
  CoachingSuggestionEvent, CoachingSuggestionLifecycle, is_confirmed,
}
use cma_real_time_coaching.Calls.Types.{
  CallCoachingMetadata, CallState, CallError, Result, TextMethods,
}
use cma_real_time_coaching.Calls.Labels.{Detection, unless_rule, record_detected_labels}
use cma_real_time_coaching.Calls.Suggestions.Rank.{rank_le, coaching_rank, ranks_before}

-- The keyword arguments that go with an event.
pub record Attribution : Type 0 where
  pub transcript_revision : ℕ
  pub model_id : Option String
  pub threshold_profile_id : Option String

abbrev pub is_some : Option String → Bool
is_some none = false
is_some (some s) = true

-- `_ensure_same_scope`, of the identifiers of an event
abbrev pub in_scope : TextMethods → CallState → String → String → Bool
in_scope t s tenant call =
    if is_some (ensure_same_identifier t.strip (s.tenant_id ∷ tenant ∷ []))
    then is_some (ensure_same_identifier t.strip (s.call_id ∷ call ∷ []))
    else false

abbrev pub id_of : CallCoachingMetadata → String
id_of m = m.suggestion_id

-- [item for item in items if item.suggestion_id != identifier]
unfoldable pub without : String → List CallCoachingMetadata → List CallCoachingMetadata
without identifier [] = []
without identifier (m ∷ ms) =
    let rest = without identifier ms in
    if not (m.suggestion_id == identifier) then m ∷ rest else rest

-- [updated if item.suggestion_id == identifier else item for item in items]
unfoldable pub replace :
    String → CallCoachingMetadata → List CallCoachingMetadata → List CallCoachingMetadata
replace identifier updated [] = []
replace identifier updated (m ∷ ms) =
    (if m.suggestion_id == identifier then updated else m) ∷ replace identifier updated ms

-- next((item for item in items if item.suggestion_id == identifier), None)
unfoldable pub find_suggestion : String → List CallCoachingMetadata → Option CallCoachingMetadata
find_suggestion identifier [] = none
find_suggestion identifier (m ∷ ms) =
    if m.suggestion_id == identifier then some m else find_suggestion identifier ms

-- The metadata of an event that comes as number `display_order`.
abbrev pub metadata_of : CoachingSuggestionEvent → Attribution → ℕ → CallCoachingMetadata
metadata_of event a display_order = record {
  suggestion_id = event.suggestion_id;
  action = event.action;
  priority = event.priority;
  source = event.source;
  lifecycle = event.lifecycle;
  label_id = event.label_id;
  transcript_revision = a.transcript_revision;
  display_order = display_order;
  created_at_utc = event.created_at_utc;
  model_id = unless_rule event.source a.model_id;
  threshold_profile_id = unless_rule event.source a.threshold_profile_id;
}

-- The metadata `existing`, with what the event says now.
abbrev pub updated_by :
    CoachingSuggestionEvent → Attribution → CallCoachingMetadata → CallCoachingMetadata
updated_by event a existing = record existing {
  action = event.action;
  priority = event.priority;
  source = event.source;
  lifecycle = event.lifecycle;
  label_id = event.label_id;
  transcript_revision = a.transcript_revision;
  created_at_utc = event.created_at_utc;
  model_id = unless_rule event.source a.model_id;
  threshold_profile_id = unless_rule event.source a.threshold_profile_id;
}

abbrev pub detection_of : CoachingSuggestionEvent → Attribution → Detection
detection_of event a = record {
  transcript_revision = a.transcript_revision;
  source = event.source;
  model_id = a.model_id;
  threshold_profile_id = a.threshold_profile_id;
  classification_view_sources = [];
}

abbrev pub record_label : TextMethods → Detection → Option String → CallState → CallState
record_label t d none s = s
record_label t d (some label) s = record_detected_labels t d (label ∷ []) s

-- What a confirmed event does to the labels and the revision of coaching.
unfoldable pub confirm : TextMethods → CoachingSuggestionEvent → Attribution → CallState → CallState
confirm t event a s =
    let labelled = record_label t (detection_of event a) event.label_id s in
    if is_confirmed event.lifecycle
    then record labelled { coaching_transcript_revision = some a.transcript_revision }
    else s

-- `apply_coaching_suggestion`
unfoldable pub apply_coaching_suggestion :
    TextMethods → CoachingSuggestionEvent → Attribution → CallState → Result CallState
unfolding find_suggestion replace confirm
apply_coaching_suggestion t event a s =
    let metadata = metadata_of event a (length s.coaching_suggestions) in
    let suggestions : List CallCoachingMetadata =
      elim (find_suggestion event.suggestion_id s.coaching_suggestions) [
        | some known ↦ replace event.suggestion_id metadata s.coaching_suggestions
        | none ↦ s.coaching_suggestions ++ metadata ∷ []
      ] in
    if in_scope t s event.tenant_id event.call_id
    then Result.ok (confirm t event a (record s { coaching_suggestions = suggestions }))
    else Result.err CallError.scope_mismatch

unfoldable pub lesser :
    TextMethods → CallCoachingMetadata → CallCoachingMetadata → CallCoachingMetadata
lesser t m n = if rank_le (coaching_rank t.casefold m) (coaching_rank t.casefold n) then m else n

-- `min(items, key=_coaching_rank)`: the first of the least, in the list of `m` and those that follow.
unfoldable pub weakest :
    TextMethods → CallCoachingMetadata → List CallCoachingMetadata → CallCoachingMetadata
unfolding lesser
weakest t m [] = m
weakest t m (x ∷ xs) = weakest t (lesser t m x) xs

-- What `admit_coaching_suggestion` returns, and the state it leaves.
pub record Admission : Type 0 where
  pub admitted : Bool
  pub replaced : Option CallCoachingMetadata
  pub state : CallState

-- The end of `admit_coaching_suggestion`, when there is room for the candidate.
unfoldable pub enter :
    TextMethods
    → CoachingSuggestionEvent
    → Attribution
    → CallCoachingMetadata
    → CallState
    → CallState
unfolding confirm
enter t event a candidate s = confirm t event a (record s {
  coaching_suggestions = s.coaching_suggestions ++ candidate ∷ [];
  active_coaching_suggestions =
      sort (ranks_before t.casefold) (s.active_coaching_suggestions ++ candidate ∷ []);
})

-- The state without its weakest active suggestion, which goes to the history.
unfoldable pub evict : CallCoachingMetadata → CallState → CallState
unfolding without
evict m s = record s {
  active_coaching_suggestions = without m.suggestion_id s.active_coaching_suggestions;
  coaching_suggestion_history = s.coaching_suggestion_history ++ m ∷ [];
}

-- The candidate that an event brings.
abbrev pub candidate_of : CoachingSuggestionEvent → Attribution → CallState → CallCoachingMetadata
candidate_of event a s = metadata_of event a (length s.coaching_suggestions)

abbrev pub welcome : TextMethods → CoachingSuggestionEvent → Attribution → CallState → Admission
welcome t event a s = record {
  admitted = true;
  replaced = none;
  state = enter t event a (candidate_of event a s) s;
}

-- The candidate against the weakest of the active suggestions, which are given. Where `min` would have
-- none of them, the model replaces none; this is the case of a maximum of 0 alone, which is refused.
unfoldable pub compete :
    TextMethods
    → CoachingSuggestionEvent
    → Attribution
    → CallState
    → List CallCoachingMetadata
    → Admission
unfolding enter evict
compete t event a s [] = welcome t event a s
compete t event a s (x ∷ xs) =
    let candidate = candidate_of event a s in
    let w = weakest t x xs in
    if rank_le (coaching_rank t.casefold candidate) (coaching_rank t.casefold w)
    then record { admitted = false; replaced = none; state = s }
    else record {
      admitted = true;
      replaced = some w;
      state = enter t event a candidate (evict w s);
    }

-- `admit_coaching_suggestion` after its checks.
unfoldable pub admit :
    TextMethods → CoachingSuggestionEvent → Attribution → ℕ → CallState → Admission
unfolding compete
admit t event a maximum s =
    if leb maximum (length s.active_coaching_suggestions)
    then compete t event a s s.active_coaching_suggestions
    else welcome t event a s

-- `admit_coaching_suggestion`
unfoldable pub admit_coaching_suggestion :
    TextMethods → CoachingSuggestionEvent → Attribution → ℤ → CallState → Result Admission
unfolding admit
admit_coaching_suggestion t event a maximum s =
    if leb (pos_part maximum) 0
    then Result.err CallError.maximum_not_positive
    else if in_scope t s event.tenant_id event.call_id
    then Result.ok (admit t event a (pos_part maximum) s)
    else Result.err CallError.scope_mismatch

-- `update_coaching_suggestion`
unfoldable pub update_coaching_suggestion :
    TextMethods → CoachingSuggestionEvent → Attribution → CallState → Result CallState
unfolding find_suggestion replace confirm
update_coaching_suggestion t event a s =
    if in_scope t s event.tenant_id event.call_id
    then elim (find_suggestion event.suggestion_id s.active_coaching_suggestions) [
      | none ↦ Result.err CallError.suggestion_not_active
      | some present ↦
          let updated = updated_by event a present in
          Result.ok (
            confirm t event a (record s {
              active_coaching_suggestions =
                  sort (ranks_before t.casefold)
                    (replace event.suggestion_id updated s.active_coaching_suggestions);
              coaching_suggestions = replace event.suggestion_id updated s.coaching_suggestions;
            }))
    ]
    else Result.err CallError.scope_mismatch

-- The suggestion that `withdraw_coaching_suggestion` finds: an active one first.
unfoldable pub withdrawable : String → CallState → Option CallCoachingMetadata
unfolding find_suggestion
withdrawable identifier s = elim (find_suggestion identifier s.active_coaching_suggestions) [
  | some m ↦ some m
  | none ↦ find_suggestion identifier s.coaching_suggestions
]

-- `withdraw_coaching_suggestion`
unfoldable pub withdraw_coaching_suggestion : String → CallState → Bool × CallState
unfolding withdrawable without replace
withdraw_coaching_suggestion identifier s = elim (withdrawable identifier s) [
  | none ↦ (false, s)
  | some present ↦
      let gone = record present { lifecycle = CoachingSuggestionLifecycle.withdrawn } in
      (
        true,
        record s {
          active_coaching_suggestions = without identifier s.active_coaching_suggestions;
          coaching_suggestions = replace identifier gone s.coaching_suggestions;
          coaching_suggestion_history = s.coaching_suggestion_history ++ gone ∷ [];
        },
      )
]
