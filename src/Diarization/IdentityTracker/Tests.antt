-- ===== src/Diarization/IdentityTracker/Tests.antt =====
-- Two windows of a call with two speakers.
use cma_real_time_coaching.Prelude.{
  ℕ, ◌≡◌, refl, Option, none, some, List, [], ◌∷◌, String, string_eq, list_eq, nat_eq, map,
}
use cma_real_time_coaching.Prelude.Dict
use cma_real_time_coaching.Prelude.Sort.{sort, insort}
use cma_real_time_coaching.Prelude.Text.{Text, codes}
use cma_real_time_coaching.Diarization.Models.{DiarizationTurn, SpeakerRole, turn_beq}
use cma_real_time_coaching.Diarization.IdentityTracker.Names.{global_name, digits, padded}
use cma_real_time_coaching.Diarization.IdentityTracker.{
  pair_eq, Result, SpeakerIdentityTrackingRequest, new_call, SpeakerIdentityTracker, Answer,
  text_in, add_all, local_ids_of, key_in, turns_error, validate_turns, overlap_of, add_overlaps,
  totals_of, intervals_of, candidates_of, assign, match_speakers, allocate_each, identify,
  intervals_of_turns, trim_windows, process_window, last_window, turns_beq, track_after, track_call,
  track,
}
use cma_real_time_coaching.Diarization.IdentityTracker.Assignment.{Assigned, identify-Assigned}
use cma_real_time_coaching.Diarization.IdentityTracker.Tracking.{Leaves, track-Leaves}

abbrev turn : String → ℕ → ℕ → DiarizationTurn
turn speaker start end = record {
  tenant_id = "acme";
  call_id = "call-1";
  start_seconds = start;
  end_seconds = end;
  local_speaker_ids = codes speaker ∷ [];
  global_speaker_id = none;
  global_speaker_ids = [];
  role = SpeakerRole.unknown;
  speaker_confidence = none;
  role_confidence = none;
}

abbrev request : ℕ → ℕ → List DiarizationTurn → SpeakerIdentityTrackingRequest
request start end turns = record {
  tenant_id = "acme";
  call_id = "call-1";
  window_start_seconds = start;
  window_end_seconds = end;
  turns = turns;
}

abbrev empty_tracker : SpeakerIdentityTracker
empty_tracker = record { max_local_speakers = 2; history_window_limit = 3; states = [] }

abbrev first_request : SpeakerIdentityTrackingRequest
first_request = request 0 10 (turn "A" 0 4 ∷ turn "B" 5 9 ∷ [])

-- The second window calls the speakers by each other's names.
abbrev second_turns : List DiarizationTurn
second_turns = turn "B" 1 4 ∷ turn "A" 5 9 ∷ []

abbrev answer_or : Result Answer → Answer
answer_or (Result.ok a) = a
answer_or (Result.err e) = record { turns = []; tracker = empty_tracker }

abbrev globals : Answer → List (Option Text)
globals a = map (λ t. t.global_speaker_id) a.turns

abbrev after_first : Answer
after_first = answer_or (track first_request empty_tracker)

first_speakers :
    globals after_first ≡ some (codes "CALL_SPEAKER_0001") ∷ some (codes "CALL_SPEAKER_0002") ∷ []
unfolding track validate_turns turns_error key_in local_ids_of add_all text_in track_call
    last_window process_window identify match_speakers totals_of intervals_of candidates_of assign
    allocate_each global_name digits padded intervals_of_turns trim_windows sort insort Dict.get
    Dict.put Dict.contains
first_speakers = refl

second_speakers :
    globals (answer_or (track (request 1 11 second_turns) after_first.tracker))
    ≡ some (codes "CALL_SPEAKER_0001") ∷ some (codes "CALL_SPEAKER_0002") ∷ []
unfolding track validate_turns turns_error key_in local_ids_of add_all text_in track_call
    last_window track_after turns_beq turn_beq process_window identify match_speakers totals_of
    add_overlaps overlap_of intervals_of candidates_of assign allocate_each global_name digits
    padded intervals_of_turns trim_windows sort insort Dict.get Dict.put Dict.contains
second_speakers = refl

identify-Assigned_example :
    Assigned
      (codes "A" ∷ codes "B" ∷ [])
      new_call
      (identify (codes "A" ∷ codes "B" ∷ []) second_turns new_call)
identify-Assigned_example =
    identify-Assigned (codes "A" ∷ codes "B" ∷ []) second_turns new_call
      (record { named = tt; seen = tt })

track-Leaves_example : Leaves first_request empty_tracker after_first
unfolding track validate_turns turns_error key_in local_ids_of add_all text_in track_call
    last_window process_window identify match_speakers totals_of intervals_of candidates_of assign
    allocate_each global_name digits padded intervals_of_turns trim_windows sort insort Dict.get
    Dict.put Dict.contains
track-Leaves_example = track-Leaves first_request empty_tracker after_first tt refl
