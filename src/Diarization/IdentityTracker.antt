-- ===== src/Diarization/IdentityTracker.antt =====
-- `SpeakerIdentityTracker` of app/diarization/identity_tracker.py: the speakers of each window of a call, matched
-- with those of the windows before by the time that they share. Times are counts of ticks, and a request is
-- one that its own checks accept. A look-up of a key that is never missing gives 0 or an empty text where
-- there would be a `KeyError`; that the keys are there is shown in Assignment.
pub mod Names
pub mod Assignment
pub mod Tracking
mod Tests
use cma_real_time_coaching.Prelude.{
  ℕ, suc, ◌+◌, ◌≡◌, ◌↔◌, ap, ◌-◌, Bool, true, false, not, ◌&&◌, ◌||◌, Option, none, some, List, [],
  ◌∷◌, ◌++◌, map, String, ◌==◌, Eq, ltb, leb, list_beq, list_eq, nat_eq, string_eq, if◌then◌else◌,
  length, drop, arith,
}
use cma_real_time_coaching.Prelude.Dict
use cma_real_time_coaching.Prelude.Dict.{Dict}
use cma_real_time_coaching.Prelude.Sort.{sort}
use cma_real_time_coaching.Prelude.Text.{Text}
use cma_real_time_coaching.Calls.Suggestions.Rank.{text_le}
use cma_real_time_coaching.Diarization.Models.{DiarizationTurn, turn_beq}
use cma_real_time_coaching.Diarization.IdentityTracker.Names.{global_name}

pub pair_beq_iff {ℓ κ} :
    {A : Type ℓ} {B : Type κ} ⦃e : Eq A⦄ ⦃f : Eq B⦄ (x y : A × B)
    → ((x.0 == y.0 && x.1 == y.1) ≡ true) ↔ (x ≡ y)
pair_beq_iff ⦃e⦄ ⦃f⦄ x y = (
  (λ h.
      let p : x.0 ≡ y.0 = (e.beq_iff x.0 y.0).0 (ground (arith, h)) in
      let q : x.1 ≡ y.1 = (f.beq_iff x.1 y.1).0 (ground (arith, h)) in λ i. (p i, q i)),
  (λ p.
      ground
        (arith, (e.beq_iff x.0 y.0).1 (ap (λ z. z.0) p), (f.beq_iff x.1 y.1).1 (ap (λ z. z.1) p))),
)

-- Pairs, as keys.
instance abbrev pub pair_eq {ℓ κ} : {A : Type ℓ} {B : Type κ} ⦃e : Eq A⦄ ⦃f : Eq B⦄ → Eq (A × B)
pair_eq = record { agrees = λ x y. x.0 == y.0 && x.1 == y.1; beq_iff = pair_beq_iff }

pub data TrackingError : Type 0 where
  invalid_scope invalid_window scope_mismatch turn_outside_window duplicate_or_conflicting_turn :
      TrackingError
  too_many_local_speakers non_monotonic_window conflicting_reprocess : TrackingError

pub data Result (A : Type 0) : Type 0 where
  ok : A → Result A
  err : TrackingError → Result A

pub record SpeakerIdentityTrackingRequest : Type 0 where
  pub tenant_id : String
  pub call_id : String
  pub window_start_seconds : ℕ
  pub window_end_seconds : ℕ
  pub turns : List DiarizationTurn

-- `__post_init__` of a request: the error that it raises, if any.
unfoldable pub request_error :
    (String → String) → SpeakerIdentityTrackingRequest → Option TrackingError
request_error strip r =
    if strip r.tenant_id == "" || strip r.call_id == ""
    then some TrackingError.invalid_scope
    else if leb r.window_end_seconds r.window_start_seconds
    then some TrackingError.invalid_window
    else none

-- `_TrackedInterval`
pub record TrackedInterval : Type 0 where
  pub global_speaker_id : Text
  pub start_seconds : ℕ
  pub end_seconds : ℕ

-- `_ProcessedWindow`
pub record ProcessedWindow : Type 0 where
  pub start_seconds : ℕ
  pub end_seconds : ℕ
  pub input_turns : List DiarizationTurn
  pub output_turns : List DiarizationTurn
  pub intervals : List TrackedInterval

-- `_CallTrackingState`
pub record CallTrackingState : Type 0 where
  pub next_global_ordinal : ℕ
  pub creation_order : Dict Text ℕ
  pub windows : List ProcessedWindow

abbrev pub new_call : CallTrackingState
new_call = record { next_global_ordinal = 1; creation_order = []; windows = [] }

abbrev pub Scope : Type 0
Scope = String × String

pub record SpeakerIdentityTracker : Type 0 where
  pub max_local_speakers : ℕ
  pub history_window_limit : ℕ
  pub states : Dict Scope CallTrackingState

-- `__init__`: `none` is its `ValueError`.
unfoldable pub create : ℕ → ℕ → Option SpeakerIdentityTracker
create max_local_speakers history_window_limit =
    if max_local_speakers == 0 || history_window_limit == 0
    then none
    else some (record {
      max_local_speakers = max_local_speakers;
      history_window_limit = history_window_limit;
      states = [];
    })

-- text in texts
unfoldable pub text_in : Text → List Text → Bool
text_in t [] = false
text_in t (x ∷ xs) = x == t || text_in t xs

-- A set, as a list, with the texts added that it does not have.
unfoldable pub add_all : List Text → List Text → List Text
unfolding text_in
add_all known [] = known
add_all known (t ∷ ts) = if text_in t known then add_all known ts else add_all (known ++ t ∷ []) ts

-- The set of the local identifiers of turns, with those of `known`.
unfoldable pub local_ids_of : List Text → List DiarizationTurn → List Text
unfolding add_all
local_ids_of known [] = known
local_ids_of known (t ∷ ts) = local_ids_of (add_all known t.local_speaker_ids) ts

-- `key` of `_validate_turns`
pub record TurnKey : Type 0 where
  pub start_seconds : ℕ
  pub end_seconds : ℕ
  pub local_speaker_ids : List Text

abbrev pub key_of : DiarizationTurn → TurnKey
key_of t = record {
  start_seconds = t.start_seconds;
  end_seconds = t.end_seconds;
  local_speaker_ids = sort text_le t.local_speaker_ids;
}

-- key in seen
unfoldable pub key_in : TurnKey → List TurnKey → Bool
key_in k [] = false
key_in k (x ∷ xs) =
    (x.start_seconds == k.start_seconds
      && (x.end_seconds == k.end_seconds && x.local_speaker_ids == k.local_speaker_ids))
    || key_in k xs

-- The loop of `_validate_turns`: the error that it raises, if any.
unfoldable pub turns_error :
    SpeakerIdentityTrackingRequest → List TurnKey → List DiarizationTurn → Option TrackingError
unfolding key_in
turns_error r seen [] = none
turns_error r seen (t ∷ ts) =
    if not (t.tenant_id == r.tenant_id && t.call_id == r.call_id)
    then some TrackingError.scope_mismatch
    else if ltb t.start_seconds r.window_start_seconds || ltb r.window_end_seconds t.end_seconds
    then some TrackingError.turn_outside_window
    else if key_in (key_of t) seen
    then some TrackingError.duplicate_or_conflicting_turn
    else turns_error r (key_of t ∷ seen) ts

-- `<=` of tuples of texts
abbrev pub texts_le : List Text → List Text → Bool
texts_le [] ys = true
texts_le (x ∷ xs) [] = false
texts_le (x ∷ xs) (y ∷ ys) = let rest = texts_le xs ys in if x == y then rest else text_le x y

-- The key of the sorting in `_validate_turns`
abbrev pub turn_before : DiarizationTurn → DiarizationTurn → Bool
turn_before a b =
    if a.start_seconds == b.start_seconds
    then (if a.end_seconds == b.end_seconds
        then texts_le a.local_speaker_ids b.local_speaker_ids
        else ltb a.end_seconds b.end_seconds)
    else ltb a.start_seconds b.start_seconds

-- `_validate_turns`
unfoldable pub validate_turns : ℕ → SpeakerIdentityTrackingRequest → Result (List DiarizationTurn)
unfolding turns_error local_ids_of
validate_turns max_local_speakers r = elim (turns_error r [] r.turns) [
  | some e ↦ Result.err e
  | none ↦
      if ltb max_local_speakers (length (local_ids_of [] r.turns))
      then Result.err TrackingError.too_many_local_speakers
      else Result.ok (sort turn_before r.turns)
]

-- The time that a turn shares with an interval.
abbrev pub shared_time : DiarizationTurn → TrackedInterval → ℕ
shared_time t i =
    (if leb t.end_seconds i.end_seconds then t.end_seconds else i.end_seconds)
    - (if leb i.start_seconds t.start_seconds then t.start_seconds else i.start_seconds)

-- `overlap`: the sum over the turns of the speaker.
unfoldable pub overlap_of : Text → List DiarizationTurn → TrackedInterval → ℕ
unfolding text_in
overlap_of local_id [] i = 0
overlap_of local_id (t ∷ ts) i =
    let rest = overlap_of local_id ts i in
    if text_in local_id t.local_speaker_ids then shared_time t i + rest else rest

abbrev pub Totals : Type 0
Totals = Dict (Text × Text) ℕ

abbrev pub or_zero : Option ℕ → ℕ
or_zero none = 0
or_zero (some n) = n

-- The inner loop of `_match_speakers`, over the intervals
unfoldable pub add_overlaps : Text → List DiarizationTurn → List TrackedInterval → Totals → Totals
unfolding overlap_of
add_overlaps local_id turns [] totals = totals
add_overlaps local_id turns (i ∷ is) totals =
    let overlap = overlap_of local_id turns i in
    let key : Text × Text = (local_id, i.global_speaker_id) in
    add_overlaps local_id turns is (
      if ltb 0 overlap
      then Dict.put key (or_zero (Dict.get key totals) + overlap) totals
      else totals)

-- The outer loop, over the local identifiers
unfoldable pub totals_of : List Text → List DiarizationTurn → List TrackedInterval → Totals → Totals
unfolding add_overlaps
totals_of [] turns intervals totals = totals
totals_of (l ∷ ls) turns intervals totals =
    totals_of ls turns intervals (add_overlaps l turns intervals totals)

-- The intervals of all windows
unfoldable pub intervals_of : List ProcessedWindow → List TrackedInterval
intervals_of [] = []
intervals_of (w ∷ ws) = w.intervals ++ intervals_of ws

pub record Candidate : Type 0 where
  pub overlap : ℕ
  pub order : ℕ
  pub local_id : Text
  pub global_id : Text

-- `<=` of the candidates' tuples, which begin with the negated overlap
abbrev pub candidate_before : Candidate → Candidate → Bool
candidate_before a b =
    if a.overlap == b.overlap
    then (if a.order == b.order
        then (if a.local_id == b.local_id
            then text_le a.global_id b.global_id
            else text_le a.local_id b.local_id)
        else ltb a.order b.order)
    else ltb b.overlap a.overlap

unfoldable pub candidates_of : Dict Text ℕ → Totals → List Candidate
candidates_of creation_order [] = []
candidates_of creation_order (((l, g), overlap) ∷ totals) =
    record {
      overlap = overlap;
      order = or_zero (Dict.get g creation_order);
      local_id = l;
      global_id = g;
    }
    ∷ candidates_of creation_order totals

abbrev pub Mapping : Type 0
Mapping = Dict Text Text

-- The last loop of `_match_speakers`
unfoldable pub assign : List Candidate → List Text → Mapping → Mapping
unfolding text_in
assign [] used mapping = mapping
assign (c ∷ cs) used mapping =
    if not (Dict.contains c.local_id mapping) && not (text_in c.global_id used)
    then assign cs (used ++ c.global_id ∷ []) (Dict.put c.local_id c.global_id mapping)
    else assign cs used mapping

-- `_match_speakers`
unfoldable pub match_speakers : List Text → List DiarizationTurn → CallTrackingState → Mapping
unfolding totals_of intervals_of candidates_of assign
match_speakers local_ids turns state =
    assign
      (sort candidate_before (
        candidates_of state.creation_order
          (totals_of local_ids turns (intervals_of state.windows) [])))
      [] []

-- The speakers of a window, and the state of the call after they have got their identifiers.
pub record Identified : Type 0 where
  pub mapping : Mapping
  pub state : CallTrackingState

-- The state after `_allocate_global_id`
abbrev pub next_state : CallTrackingState → CallTrackingState
next_state state = record state {
  next_global_ordinal = suc state.next_global_ordinal;
  creation_order =
      Dict.put (global_name state.next_global_ordinal) state.next_global_ordinal
        state.creation_order;
}

-- The loop of `track` that calls `_allocate_global_id` for those that are not matched
unfoldable pub allocate_each : List Text → Mapping → CallTrackingState → Identified
unfolding global_name
allocate_each [] mapping state = record { mapping = mapping; state = state }
allocate_each (l ∷ ls) mapping state =
    if Dict.contains l mapping
    then allocate_each ls mapping state
    else allocate_each ls (Dict.put l (global_name state.next_global_ordinal) mapping)
        (next_state state)

unfoldable pub identify : List Text → List DiarizationTurn → CallTrackingState → Identified
unfolding match_speakers allocate_each
identify local_ids turns state =
    allocate_each local_ids (match_speakers local_ids turns state) state

abbrev pub or_empty : Option Text → Text
or_empty none = []
or_empty (some t) = t

-- mapping[local_id]
abbrev pub resolve : Mapping → Text → Text
resolve mapping local_id = or_empty (Dict.get local_id mapping)

abbrev pub single : Mapping → List Text → Option Text
single mapping (l ∷ []) = some (resolve mapping l)
single mapping _ = none

abbrev pub identified_turn : Mapping → DiarizationTurn → DiarizationTurn
identified_turn mapping t = record t {
  global_speaker_id = single mapping t.local_speaker_ids;
  global_speaker_ids = map (resolve mapping) t.local_speaker_ids;
}

abbrev pub intervals_of_turn : Mapping → DiarizationTurn → List Text → List TrackedInterval
intervals_of_turn mapping t [] = []
intervals_of_turn mapping t (l ∷ ls) =
    record {
      global_speaker_id = resolve mapping l;
      start_seconds = t.start_seconds;
      end_seconds = t.end_seconds;
    }
    ∷ intervals_of_turn mapping t ls

unfoldable pub intervals_of_turns : Mapping → List DiarizationTurn → List TrackedInterval
intervals_of_turns mapping [] = []
intervals_of_turns mapping (t ∷ ts) =
    intervals_of_turn mapping t t.local_speaker_ids ++ intervals_of_turns mapping ts

-- `del state.windows[:-limit]`, if there are more, for a limit of at least 1, as the constructor asks.
unfoldable pub trim_windows : ℕ → List ProcessedWindow → List ProcessedWindow
trim_windows limit windows =
    if ltb limit (length windows) then drop (length windows - limit) windows else windows

-- What `track` returns for the call, and the call's state.
pub record Tracked : Type 0 where
  pub turns : List DiarizationTurn
  pub state : CallTrackingState

-- `track`, after its checks
unfoldable pub process_window :
    ℕ → SpeakerIdentityTrackingRequest → List DiarizationTurn → CallTrackingState → Tracked
unfolding local_ids_of identify intervals_of_turns trim_windows
process_window limit r turns state =
    let found = identify (sort text_le (local_ids_of [] turns)) turns state in
    let output = map (identified_turn found.mapping) turns in
    record {
      turns = output;
      state = record found.state {
        windows = trim_windows limit (
            found.state.windows
            ++ record {
              start_seconds = r.window_start_seconds;
              end_seconds = r.window_end_seconds;
              input_turns = turns;
              output_turns = output;
              intervals = intervals_of_turns found.mapping turns;
            }
              ∷ []);
      };
    }

unfoldable pub last_window : List ProcessedWindow → Option ProcessedWindow
last_window [] = none
last_window (w ∷ []) = some w
last_window (w ∷ v ∷ ws) = last_window (v ∷ ws)

unfoldable pub turns_beq : List DiarizationTurn → List DiarizationTurn → Bool
unfolding turn_beq
turns_beq [] [] = true
turns_beq [] (y ∷ ys) = false
turns_beq (x ∷ xs) [] = false
turns_beq (x ∷ xs) (y ∷ ys) = turn_beq x y && turns_beq xs ys

-- The checks of `track` against the last window of the call
unfoldable pub track_after :
    ℕ
    → SpeakerIdentityTrackingRequest
    → List DiarizationTurn
    → CallTrackingState
    → ProcessedWindow
    → Result Tracked
unfolding process_window turns_beq
track_after limit r turns state last =
    if r.window_start_seconds == last.start_seconds && r.window_end_seconds == last.end_seconds
    then (if turns_beq turns last.input_turns
        then Result.ok (record { turns = last.output_turns; state = state })
        else Result.err TrackingError.conflicting_reprocess)
    else if leb r.window_start_seconds last.start_seconds
    then Result.err TrackingError.non_monotonic_window
    else Result.ok (process_window limit r turns state)

unfoldable pub track_call :
    ℕ → SpeakerIdentityTrackingRequest → List DiarizationTurn → CallTrackingState → Result Tracked
unfolding last_window track_after process_window
track_call limit r turns state = elim (last_window state.windows) [
  | none ↦ Result.ok (process_window limit r turns state)
  | some last ↦ track_after limit r turns state last
]

abbrev pub known_call : Option CallTrackingState → CallTrackingState
known_call none = new_call
known_call (some state) = state

abbrev pub scope_of : SpeakerIdentityTrackingRequest → Scope
scope_of r = (r.tenant_id, r.call_id)

-- The turns that `track` returns, with the tracker after it.
pub record Answer : Type 0 where
  pub turns : List DiarizationTurn
  pub tracker : SpeakerIdentityTracker

-- `track`. A call without windows is never refused, so that an error leaves the states as they were.
unfoldable pub track : SpeakerIdentityTrackingRequest → SpeakerIdentityTracker → Result Answer
unfolding validate_turns track_call
track r k = elim (validate_turns k.max_local_speakers r) [
  | Result.err e ↦ Result.err e
  | Result.ok turns ↦
      elim (track_call k.history_window_limit r turns
        (known_call (Dict.get (scope_of r) k.states))) [
          | Result.err e ↦ Result.err e
          | Result.ok done ↦ Result.ok (record {
            turns = done.turns;
            tracker = record k { states = Dict.put (scope_of r) done.state k.states };
          })
        ]
]

abbrev pub is_blank : (String → String) → Scope → Bool
is_blank strip scope = strip scope.0 == "" || strip scope.1 == ""

-- `reset`
unfoldable pub reset :
    (String → String) → Scope → SpeakerIdentityTracker → Result (Bool × SpeakerIdentityTracker)
reset strip scope k =
    if is_blank strip scope
    then Result.err TrackingError.invalid_scope
    else Result.ok (Dict.contains scope k.states, record k { states = Dict.remove scope k.states })

abbrev pub windows_of : Option CallTrackingState → List ProcessedWindow
windows_of none = []
windows_of (some state) = state.windows

-- `retained_window_count`
abbrev pub retained_window_count : Scope → SpeakerIdentityTracker → ℕ
retained_window_count scope k = length (windows_of (Dict.get scope k.states))
