-- ===== src/Diarization/IdentityTracker/Tracking.antt =====
-- `track` (app/diarization/identity_tracker.py), by the calls that the tracker holds.
use cma_real_time_coaching.Prelude.{
  ℕ, ◌-◌, ◌≤◌, ◌≡◌, ◌≢◌, refl, ap, sym, subst, ◌∙◌, true, false, Bool-cases, inl, inr, ◌⊎◌, ◌&&◌,
  some, Option-cases, List, [], ◌∷◌, ◌++◌, ◌==◌, list_eq, nat_eq, string_eq, list_beq_iff,
  if◌then◌else◌, length, length-drop, All, All-append, All-drop, arith, ltb, ltb-true, ltb-false,
  leb,
}
use cma_real_time_coaching.Prelude.Dict
use cma_real_time_coaching.Prelude.Dict.{
  Dict, Distinct, All-put, All-get, contains-get, get-put, get-remove_ne, get-remove_self,
}
use cma_real_time_coaching.Prelude.Sort.{sort, sort-All}
use cma_real_time_coaching.Prelude.Text.{Text}
use cma_real_time_coaching.Calls.Suggestions.Rank.{text_le}
use cma_real_time_coaching.Diarization.Models.{DiarizationTurn}
use cma_real_time_coaching.Diarization.IdentityTracker.{
  pair_eq, pair_beq_iff, TrackingError, Result, SpeakerIdentityTrackingRequest, ProcessedWindow,
  CallTrackingState, Scope, SpeakerIdentityTracker, Mapping, text_in, add_all, local_ids_of,
  validate_turns, identify, or_empty, resolve, intervals_of_turn, intervals_of_turns, trim_windows,
  Tracked, process_window, last_window, turns_beq, track_after, track_call, known_call, scope_of,
  Answer, track,
}
use cma_real_time_coaching.Diarization.IdentityTracker.Assignment.{
  IsCreated, IsTracking, identify-Assigned,
}

module _ (P : Text → Type 0) where
  text_in-property : (t : Text) (known : List Text) → text_in t known ≡ true → All P known → P t
  unfolding text_in
  text_in-property t [] e a = cc
  text_in-property t (x ∷ xs) e a = elim (Bool-cases (x == t)) [
    | inl same ↦ subst P ((list_beq_iff x t).0 same) a.0
    | inr other ↦ text_in-property t xs (ground (arith, e, other)) a.1
  ]

  All-first : (xs ys : List Text) → All P (xs ++ ys) → All P xs × All P ys
  All-first [] ys a = (tt, a)
  All-first (x ∷ xs) ys a = let (p, q) = All-first xs ys a.1 in ((a.0, p), q)

  add_all-All : (known ts : List Text) → All P (add_all known ts) → All P known × All P ts
  unfolding add_all
  add_all-All known [] = λ a. (a, tt)
  add_all-All known (t ∷ ts) = elim (Bool-cases (text_in t known)) [
    | inl old ↦
        rw (old, add_all)
          (λ a. let (p, q) = add_all-All known ts a in (p, (text_in-property t known old p, q)))
    | inr new ↦
        rw (new, add_all)
          (λ a.
            let (p, q) = add_all-All (known ++ t ∷ []) ts a in
            let (u, v) = All-first known (t ∷ []) p in (u, (v.0, q)))
  ]

  local_ids_of-All :
      (known : List Text) (ts : List DiarizationTurn)
      → All P (local_ids_of known ts)
      → All P known × All (λ t. All P t.local_speaker_ids) ts
  unfolding local_ids_of
  local_ids_of-All known [] a = (a, tt)
  local_ids_of-All known (t ∷ ts) a =
      let (p, q) = local_ids_of-All (add_all known t.local_speaker_ids) ts a in
      let (u, v) = add_all-All known t.local_speaker_ids p in (u, (v, q))

-- The look-up of a mapped speaker gives an identifier of the mapping.
resolve-property :
    (P : Text → Type 0) (m : Mapping) (l : Text)
    → All (λ x. P x.1) m
    → Dict.contains l m ≡ true
    → P (resolve m l)
resolve-property P m l a c =
    let (g, e) = contains-get l m c in
    subst (λ o. P (or_empty o)) (sym e) (All-get (λ x. P x.1) l m g a e)

intervals_of_turns-All :
    (P : Text → Type 0) (m : Mapping) (ts : List DiarizationTurn)
    → All (λ x. P x.1) m
    → All (λ t. All (λ l. Dict.contains l m ≡ true) t.local_speaker_ids) ts
    → All (λ i. P i.global_speaker_id) (intervals_of_turns m ts)
unfolding intervals_of_turns
intervals_of_turns-All P m [] a c = tt
intervals_of_turns-All P m (t ∷ ts) a c =
    All-append (λ i. P i.global_speaker_id) (intervals_of_turn m t t.local_speaker_ids)
      (intervals_of_turns m ts) (each t.local_speaker_ids c.0) (intervals_of_turns-All P m ts a c.1)
  where
    each :
        (ls : List Text)
        → All (λ l. Dict.contains l m ≡ true) ls
        → All (λ i. P i.global_speaker_id) (intervals_of_turn m t ls)
    each [] d = tt
    each (l ∷ ls) d = (resolve-property P m l a d.0, each ls d.1)

trim_windows-length :
    (limit : ℕ) (ws : List ProcessedWindow) → length (trim_windows limit ws) ≤ limit
unfolding trim_windows
trim_windows-length limit ws = elim (Bool-cases (ltb limit (length ws))) [
  | inl many ↦
      rw (many, trim_windows)
        (omega (arith, length-drop (length ws - limit) ws, ltb-true limit (length ws) many))
  | inr few ↦ rw (few, trim_windows) (ltb-false limit (length ws) few)
]

trim_windows-All :
    (P : ProcessedWindow → Type 0) (limit : ℕ) (ws : List ProcessedWindow)
    → All P ws
    → All P (trim_windows limit ws)
unfolding trim_windows
trim_windows-All P limit ws a = elim (Bool-cases (ltb limit (length ws))) [
  | inl many ↦ rw (many, trim_windows) (All-drop P (length ws - limit) ws a)
  | inr few ↦ rw (few, trim_windows) a
]

-- A call that is tracked, with no more windows than the limit.
abbrev pub IsHeld : ℕ → CallTrackingState → Type 0
IsHeld limit s = IsTracking s × (length s.windows ≤ limit)

process_window-IsHeld :
    (limit : ℕ) (r : SpeakerIdentityTrackingRequest) (turns : List DiarizationTurn)
    (s : CallTrackingState)
    → IsTracking s
    → IsHeld limit (process_window limit r turns s).state
unfolding process_window
process_window-IsHeld limit r turns s h =
    let ls = sort text_le (local_ids_of [] turns) in
    let found = identify ls turns s in
    let a = identify-Assigned ls turns s h in
    let created = λ (g : Text). IsCreated found.state.creation_order g in
    let known =
      (local_ids_of-All (λ l. Dict.contains l found.mapping ≡ true) [] turns
        (sort-All text_le (λ l. Dict.contains l found.mapping ≡ true) (local_ids_of [] turns)
          a.complete)).1 in
    let inner = λ (w : ProcessedWindow). All (λ i. created i.global_speaker_id) w.intervals in
    (
      record {
        named = a.tracking.named;
        seen = trim_windows-All inner limit _ (
            All-append inner found.state.windows _ a.tracking.seen
              (intervals_of_turns-All created found.mapping turns a.created known, tt));
      },
      trim_windows-length limit _,
    )

-- What holds of a result, if it is not an error.
abbrev Succeeds : {A : Type 0} → (A → Type 0) → Result A → Type 0
Succeeds P (Result.ok a) = P a
Succeeds P (Result.err e) = Unit

track_after-IsHeld :
    (limit : ℕ) (r : SpeakerIdentityTrackingRequest) (turns : List DiarizationTurn)
    (s : CallTrackingState) (last : ProcessedWindow)
    → IsHeld limit s
    → Succeeds (λ t. IsHeld limit t.state) (track_after limit r turns s last)
unfolding track_after
track_after-IsHeld limit r turns s last h =
    elim (Bool-cases
      (r.window_start_seconds == last.start_seconds && r.window_end_seconds == last.end_seconds)) [
        | inl same ↦ elim (Bool-cases (turns_beq turns last.input_turns)) [
          | inl again ↦ rw (same, again, track_after) h
          | inr other ↦ rw (same, other, track_after) tt
        ]
        | inr moved ↦ elim (Bool-cases (leb r.window_start_seconds last.start_seconds)) [
          | inl back ↦ rw (moved, back, track_after) tt
          | inr forward ↦
              rw (moved, forward, track_after) (process_window-IsHeld limit r turns s h.0)
        ]
      ]

track_call-IsHeld :
    (limit : ℕ) (r : SpeakerIdentityTrackingRequest) (turns : List DiarizationTurn)
    (s : CallTrackingState)
    → IsHeld limit s
    → Succeeds (λ t. IsHeld limit t.state) (track_call limit r turns s)
unfolding track_call
track_call-IsHeld limit r turns s h = elim (Option-cases (last_window s.windows)) [
  | inl first ↦ rw (first, track_call) (process_window-IsHeld limit r turns s h.0)
  | inr (last, e) ↦ rw (e, track_call) (track_after-IsHeld limit r turns s last h)
]

-- Every call that the tracker holds is tracked, with no more windows than the limit.
abbrev pub IsTracker : SpeakerIdentityTracker → Type 0
IsTracker k = All (λ x. IsHeld k.history_window_limit x.1) k.states

known_call-IsHeld :
    (scope : Scope) (k : SpeakerIdentityTracker)
    → IsTracker k
    → IsHeld k.history_window_limit (known_call (Dict.get scope k.states))
known_call-IsHeld scope k h = elim (Option-cases (Dict.get scope k.states)) [
  | inl new ↦
      subst (λ o. IsHeld k.history_window_limit (known_call o)) (sym new)
        (record { named = tt; seen = tt }, omega arith)
  | inr (s, e) ↦
      subst (λ o. IsHeld k.history_window_limit (known_call o)) (sym e)
        (All-get (λ x. IsHeld k.history_window_limit x.1) scope k.states s h e)
]

-- What `track` leaves: a tracker as before, with the calls of all other scopes as they were.
abbrev pub Leaves : SpeakerIdentityTrackingRequest → SpeakerIdentityTracker → Answer → Type 0
Leaves r k a =
    IsTracker a.tracker
    × ((scope : Scope)
        → scope ≢ scope_of r
        → Dict.get scope a.tracker.states ≡ Dict.get scope k.states)

answer-Leaves :
    (r : SpeakerIdentityTrackingRequest) (k : SpeakerIdentityTracker) (turns : List DiarizationTurn)
    (d : Result Tracked)
    → IsTracker k
    → Succeeds (λ t. IsHeld k.history_window_limit t.state) d
    → Succeeds (Leaves r k) (elim d [
      | Result.err e ↦ Result.err e
      | Result.ok done ↦ Result.ok (record {
        turns = done.turns;
        tracker = record k { states = Dict.put (scope_of r) done.state k.states };
      })
    ])
answer-Leaves r k turns (Result.err e) h p = tt
answer-Leaves r k turns (Result.ok done) h p = (
  All-put (λ x. IsHeld k.history_window_limit x.1) (scope_of r) done.state k.states p (λ j q. p) h,
  (λ scope other.
      let differs : (scope_of r == scope) ≡ false = elim (Bool-cases (scope_of r == scope)) [
        | inl same ↦ absurd (other (sym ((pair_beq_iff (scope_of r) scope).0 same)))
        | inr fine ↦ fine
      ] in
      get-put (scope_of r) scope done.state k.states
      ∙ ap (λ b. if b then some done.state else Dict.get scope k.states) differs),
)

result-cases :
    (v : Result (List DiarizationTurn))
    → ((e : TrackingError) × (v ≡ Result.err e))
      ⊎ ((ts : List DiarizationTurn) × (v ≡ Result.ok ts))
result-cases (Result.err e) = inl (e, refl)
result-cases (Result.ok ts) = inr (ts, refl)

track-Succeeds :
    (r : SpeakerIdentityTrackingRequest) (k : SpeakerIdentityTracker)
    → IsTracker k
    → Succeeds (Leaves r k) (track r k)
unfolding track
track-Succeeds r k h = elim (result-cases (validate_turns k.max_local_speakers r)) [
  | inl (e, wrong) ↦ rw (wrong, track) tt
  | inr (turns, fine) ↦
      rw (fine, track)
        (answer-Leaves r k turns
          (track_call k.history_window_limit r turns (known_call (Dict.get (scope_of r) k.states)))
          h
          (track_call-IsHeld k.history_window_limit r turns
            (known_call (Dict.get (scope_of r) k.states)) (known_call-IsHeld (scope_of r) k h)))
]

-- If every call that the tracker holds is tracked and has no more windows than the limit, this is so after a request
-- that succeeds, and the calls of all other scopes are as they were.
pub track-Leaves :
    (r : SpeakerIdentityTrackingRequest) (k : SpeakerIdentityTracker) (a : Answer)
    → IsTracker k
    → track r k ≡ Result.ok a
    → Leaves r k a
track-Leaves r k a h e = subst (Succeeds (Leaves r k)) e (track-Succeeds r k h)
