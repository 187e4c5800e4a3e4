-- ===== src/Streaming/TranscriptReconciler.antt =====
-- `TranscriptReconciler` (app/streaming/transcript_reconciler.py): the transcripts of overlapping windows
-- become one stable transcript and a partial one. Times are counts of ticks, in which the two settings are
-- given too; the factories of identifiers and times are asked once for each event, and are functions of its
-- revision here.
pub mod Suffix
pub mod Words
pub mod Overlap
pub mod Numbering
pub mod Finalized
mod Tests
use cma_real_time_coaching.Prelude.{
  ℕ, suc, ◌+◌, ◌||◌, Bool, true, false, not, ◌&&◌, Option, none, some, List, [], ◌∷◌, ◌++◌, map,
  String, ◌==◌, ltb, leb, list_eq, nat_eq, string_eq, if◌then◌else◌, is_empty,
}
use cma_real_time_coaching.Prelude.Sort.{sort}
use cma_real_time_coaching.Prelude.Text.{Text, clean, non_empty, join}
use cma_real_time_coaching.Events.Models.{TranscriptEvent, TranscriptKind}
use cma_real_time_coaching.Streaming.TranscriptReconciler.Suffix.{WordMethods, new_suffix}

pub record WindowTranscriptionSegment : Type 0 where
  pub text : Text
  pub relative_start_seconds : ℕ
  pub relative_end_seconds : ℕ
  pub absolute_start_seconds : ℕ
  pub absolute_end_seconds : ℕ

-- The fields of `WindowTranscriptionResult` that the reconciler reads.
pub record WindowTranscriptionResult : Type 0 where
  pub tenant_id : String
  pub call_id : String
  pub last_sequence : ℕ
  pub window_end_seconds : ℕ
  pub segments : List WindowTranscriptionSegment

-- The arguments of the constructor.
pub record ReconcilerConfig : Type 0 where
  pub words : WordMethods
  pub stable_region_seconds : ℕ
  pub timestamp_tolerance_seconds : ℕ
  pub event_id_factory : ℕ → String
  pub utc_datetime_factory : ℕ → ℕ

pub record TranscriptReconciler : Type 0 where
  pub tenant_id : Option String
  pub call_id : Option String
  pub stable_transcript : Text
  pub partial_transcript : Text
  pub partial_start_seconds : Option ℕ
  pub partial_end_seconds : Option ℕ
  pub partial_source_sequence : Option ℕ
  pub finalize_start_seconds : ℕ
  pub finalize_end_seconds : ℕ
  pub finalize_source_sequence : Option ℕ
  pub last_sequence : Option ℕ
  pub last_window_end_seconds : Option ℕ
  pub stable_end_seconds : Option ℕ
  pub revision : ℕ

-- The errors that the methods raise.
pub data ReconcilerError : Type 0 where
  mismatched_tenant_id mismatched_call_id last_sequence_decreases window_end_decreases :
      ReconcilerError
  not_bound : ReconcilerError

-- The events of a call, and the state after it.
pub record Outcome : Type 0 where
  pub events : List TranscriptEvent
  pub state : TranscriptReconciler

pub data Attempt : Type 0 where
  done : Outcome → Attempt
  failed : ReconcilerError → Attempt

-- `clear`
abbrev pub cleared : TranscriptReconciler
cleared = record {
  tenant_id = none;
  call_id = none;
  stable_transcript = [];
  partial_transcript = [];
  partial_start_seconds = none;
  partial_end_seconds = none;
  partial_source_sequence = none;
  finalize_start_seconds = 0;
  finalize_end_seconds = 0;
  finalize_source_sequence = none;
  last_sequence = none;
  last_window_end_seconds = none;
  stable_end_seconds = none;
  revision = 0;
}

-- value or default, of a number that may be missing
abbrev pub or_number : Option ℕ → ℕ → ℕ
or_number none default = default
or_number (some n) default = if n == 0 then default else n

abbrev pub max_of : ℕ → ℕ → ℕ
max_of a b = if ltb a b then b else a

-- A test of a value, if there is one.
abbrev pub any_of : (ℕ → Bool) → Option ℕ → Bool
any_of test none = false
any_of test (some n) = test n

abbrev pub other_text : Option String → String → Bool
other_text none s = false
other_text (some r) s = not (s == r)

abbrev pub is_unbound : Option String → Bool
is_unbound none = true
is_unbound (some s) = false

-- The assignments at the start of `_validate_scope_and_order`
abbrev pub bind_scope : WindowTranscriptionResult → TranscriptReconciler → TranscriptReconciler
bind_scope r s =
    if is_unbound s.tenant_id
    then record s { tenant_id = some r.tenant_id; call_id = some r.call_id }
    else s

-- `_validate_scope_and_order`: the error, if there is one.
unfoldable pub scope_and_order_error :
    WindowTranscriptionResult → TranscriptReconciler → Option ReconcilerError
scope_and_order_error r s =
    if other_text s.tenant_id r.tenant_id
    then some ReconcilerError.mismatched_tenant_id
    else if not (is_unbound s.tenant_id) && other_text s.call_id r.call_id
    then some ReconcilerError.mismatched_call_id
    else if any_of (ltb r.last_sequence) s.last_sequence
    then some ReconcilerError.last_sequence_decreases
    else if any_of (ltb r.window_end_seconds) s.last_window_end_seconds
    then some ReconcilerError.window_end_decreases
    else none

-- The key of the sorting.
abbrev pub starts_before : WindowTranscriptionSegment → WindowTranscriptionSegment → Bool
starts_before x y =
    if x.absolute_start_seconds == y.absolute_start_seconds
    then leb x.absolute_end_seconds y.absolute_end_seconds
    else ltb x.absolute_start_seconds y.absolute_start_seconds

-- segment.absolute_end_seconds <= cutoff + tolerance, where the cutoff is the end of the window less the
-- stable region
abbrev pub has_settled : ReconcilerConfig → ℕ → WindowTranscriptionSegment → Bool
has_settled c window_end x =
    leb (x.absolute_end_seconds + c.stable_region_seconds)
      (window_end + c.timestamp_tolerance_seconds)

abbrev pub same_segment : WindowTranscriptionSegment → WindowTranscriptionSegment → Bool
same_segment x y =
    x.text == y.text
    && (x.relative_start_seconds == y.relative_start_seconds
        && (x.relative_end_seconds == y.relative_end_seconds
            && (x.absolute_start_seconds == y.absolute_start_seconds
                && x.absolute_end_seconds == y.absolute_end_seconds)))

-- [x for x in segments if test(x)]
unfoldable pub select :
    (WindowTranscriptionSegment → Bool)
    → List WindowTranscriptionSegment
    → List WindowTranscriptionSegment
select test [] = []
select test (x ∷ xs) = let rest = select test xs in if test x then x ∷ rest else rest

-- x in segments
unfoldable pub is_in : WindowTranscriptionSegment → List WindowTranscriptionSegment → Bool
is_in x [] = false
is_in x (y ∷ ys) = same_segment x y || is_in x ys

abbrev pub stable_segments :
    ReconcilerConfig → WindowTranscriptionResult → List WindowTranscriptionSegment
stable_segments c r = select (has_settled c r.window_end_seconds) (sort starts_before r.segments)

abbrev pub partial_segments :
    ReconcilerConfig → WindowTranscriptionResult → List WindowTranscriptionSegment
partial_segments c r =
    select (λ x. not (is_in x (stable_segments c r))) (sort starts_before r.segments)

-- `_join_segment_text`
unfoldable pub join_segment_text : (ℕ → Bool) → List WindowTranscriptionSegment → Text
unfolding join non_empty
join_segment_text is_space segments = join (non_empty (map (λ x. clean is_space x.text) segments))

-- `_join_text`
unfoldable pub join_text : Text → Text → Text
unfolding join non_empty
join_text first second = join (non_empty (first ∷ second ∷ []))

-- `_segment_times`, of a first segment and those that follow
unfoldable pub earliest : WindowTranscriptionSegment → List WindowTranscriptionSegment → ℕ
earliest x [] = x.absolute_start_seconds
earliest x (y ∷ ys) =
    let rest = earliest y ys in
    if leb x.absolute_start_seconds rest then x.absolute_start_seconds else rest

unfoldable pub latest : WindowTranscriptionSegment → List WindowTranscriptionSegment → ℕ
latest x [] = x.absolute_end_seconds
latest x (y ∷ ys) =
    let rest = latest y ys in
    if leb rest x.absolute_end_seconds then x.absolute_end_seconds else rest

-- The times of segments, `none` if there are no segments.
abbrev pub segments_start : List WindowTranscriptionSegment → Option ℕ
segments_start [] = none
segments_start (x ∷ xs) = some (earliest x xs)

abbrev pub segments_end : List WindowTranscriptionSegment → Option ℕ
segments_end [] = none
segments_end (x ∷ xs) = some (latest x xs)

abbrev pub known_or_zero : Option ℕ → ℕ
known_or_zero none = 0
known_or_zero (some n) = n

-- `_make_event_from_times`, of a state that is bound to the call
unfoldable pub make_event :
    ReconcilerConfig
    → String
    → String
    → TranscriptKind
    → Text
    → ℕ
    → ℕ
    → Option ℕ
    → TranscriptReconciler
    → Outcome
make_event c tenant call kind text start end source s = record {
  events =
      record {
        tenant_id = tenant;
        call_id = call;
        event_id = c.event_id_factory (suc s.revision);
        kind = kind;
        text = text;
        start_seconds = start;
        end_seconds = max_of start end;
        revision = suc s.revision;
        created_at_utc = c.utc_datetime_factory (suc s.revision);
        source_chunk_sequence = source;
      }
      ∷ [];
  state = record s { revision = suc s.revision };
}

-- `_clear_partial`
unfoldable pub clear_partial : TranscriptReconciler → TranscriptReconciler
clear_partial s = record s {
  finalize_start_seconds = or_number s.partial_start_seconds 0;
  finalize_end_seconds = or_number s.partial_end_seconds 0;
  finalize_source_sequence = s.partial_source_sequence;
  partial_transcript = [];
  partial_start_seconds = none;
  partial_end_seconds = none;
  partial_source_sequence = none;
}

-- A time is not past the end of the stable transcript, by more than the tolerance.
abbrev pub is_committed : ReconcilerConfig → Option ℕ → Option ℕ → Bool
is_committed c time none = false
is_committed c time (some stable_end) =
    any_of (λ t. leb t (stable_end + c.timestamp_tolerance_seconds)) time

-- The text that `ingest` adds to the stable transcript.
unfoldable pub new_stable_text :
    ReconcilerConfig → WindowTranscriptionResult → TranscriptReconciler → Text
unfolding new_suffix join_segment_text
new_stable_text c r s =
    let segments = stable_segments c r in
    if is_committed c (segments_end segments) s.stable_end_seconds
    then []
    else new_suffix c.words s.stable_transcript (join_segment_text c.words.is_space segments)
        (is_committed c (segments_start segments) s.stable_end_seconds)

abbrev pub advance_stable_end : Option ℕ → TranscriptReconciler → TranscriptReconciler
advance_stable_end none s = s
advance_stable_end (some end) s = record s {
  stable_end_seconds = some (max_of (or_number s.stable_end_seconds end) end);
}

-- The first half of `ingest`: the segments that have settled.
unfoldable pub ingest_stable :
    ReconcilerConfig → WindowTranscriptionResult → TranscriptReconciler → Outcome
unfolding new_stable_text join_text make_event
ingest_stable c r s =
    let segments = stable_segments c r in
    let text = new_stable_text c r s in
    let made =
      make_event c r.tenant_id r.call_id TranscriptKind.stable text
        (known_or_zero (segments_start segments)) (known_or_zero (segments_end segments))
        (some r.last_sequence)
        (record s { stable_transcript = join_text s.stable_transcript text }) in
    let after : Outcome = if is_empty text then record { events = []; state = s } else made in
    record { events = after.events; state = advance_stable_end (segments_end segments) after.state }

-- The second half: the segments that have not.
unfoldable pub ingest_partial :
    ReconcilerConfig → WindowTranscriptionResult → TranscriptReconciler → Outcome
unfolding join_segment_text make_event clear_partial
ingest_partial c r s =
    let segments = partial_segments c r in
    let text = join_segment_text c.words.is_space segments in
    if text == s.partial_transcript
    then record { events = []; state = s }
    else if is_empty text
    then record { events = []; state = clear_partial (record s { partial_transcript = text }) }
    else make_event c r.tenant_id r.call_id TranscriptKind.partial text
        (known_or_zero (segments_start segments)) (known_or_zero (segments_end segments))
        (some r.last_sequence)
        (record s {
          partial_transcript = text;
          partial_start_seconds = segments_start segments;
          partial_end_seconds = segments_end segments;
          partial_source_sequence = some r.last_sequence;
        })

-- `ingest`, after its validation
unfoldable pub ingest_valid :
    ReconcilerConfig → WindowTranscriptionResult → TranscriptReconciler → Outcome
unfolding ingest_stable ingest_partial
ingest_valid c r s =
    let first = ingest_stable c r (bind_scope r s) in
    let second = ingest_partial c r first.state in
    record {
      events = first.events ++ second.events;
      state = record second.state {
        last_sequence = some r.last_sequence;
        last_window_end_seconds = some r.window_end_seconds;
      };
    }

-- `ingest`
unfoldable pub ingest :
    ReconcilerConfig → WindowTranscriptionResult → TranscriptReconciler → Attempt
unfolding scope_and_order_error ingest_valid
ingest c r s = elim (scope_and_order_error r s) [
  | some e ↦ Attempt.failed e
  | none ↦ Attempt.done (ingest_valid c r s)
]

-- The text of the last event: whether it may overlap is read from `_finalize_start_seconds`, which
-- `_clear_partial` has not yet set for this partial transcript.
unfoldable pub final_text : ReconcilerConfig → TranscriptReconciler → Text
unfolding new_suffix
final_text c s =
    new_suffix c.words s.stable_transcript s.partial_transcript
      (is_committed c (some s.finalize_start_seconds) s.stable_end_seconds)

-- The state of `finalize` before it makes its event.
abbrev pub settled : Text → TranscriptReconciler → TranscriptReconciler
settled text s = record s {
  stable_transcript = join_text s.stable_transcript text;
  stable_end_seconds =
      some (max_of (or_number s.stable_end_seconds s.finalize_end_seconds) s.finalize_end_seconds);
}

-- The end of `finalize`, of a state that is bound, with its partial transcript cleared.
unfoldable pub finish : ReconcilerConfig → Text → String → String → TranscriptReconciler → Outcome
unfolding join_text make_event
finish c text tenant call s =
    make_event c tenant call TranscriptKind.final text s.finalize_start_seconds
      s.finalize_end_seconds s.finalize_source_sequence (settled text s)

-- Only a state that is bound to a call has a partial transcript. Of another one the code raises after it has cleared
-- the partial transcript and joined the text; here it raises at once.
abbrev pub finish_bound :
    ReconcilerConfig → Text → Option String → Option String → TranscriptReconciler → Attempt
finish_bound c text (some tenant) (some call) s = Attempt.done (finish c text tenant call s)
finish_bound c text _ _ s = Attempt.failed ReconcilerError.not_bound

-- `finalize`: no events are its `None`.
unfoldable pub finalize : ReconcilerConfig → TranscriptReconciler → Attempt
unfolding final_text clear_partial finish
finalize c s =
    if is_empty s.partial_transcript
    then Attempt.done (record { events = []; state = s })
    else if is_empty (final_text c s)
    then Attempt.done (record { events = []; state = clear_partial s })
    else finish_bound c (final_text c s) s.tenant_id s.call_id (clear_partial s)

-- The calls of the pipeline.
pub data Step : Type 0 where
  ingested : WindowTranscriptionResult → Step
  finalized : Step

abbrev pub attempt : ReconcilerConfig → Step → TranscriptReconciler → Attempt
attempt c (Step.ingested r) s = ingest c r s
attempt c Step.finalized s = finalize c s

-- The events and the state after an attempt; a failed one leaves the state before it.
abbrev pub outcome_of : TranscriptReconciler → Attempt → Outcome
outcome_of s (Attempt.done o) = o
outcome_of s (Attempt.failed e) = record { events = []; state = s }

-- All events of the steps, and the state after them.
unfoldable pub run : ReconcilerConfig → List Step → TranscriptReconciler → Outcome
unfolding ingest finalize
run c [] s = record { events = []; state = s }
run c (x ∷ xs) s =
    let first = outcome_of s (attempt c x s) in
    let rest = run c xs first.state in
    record { events = first.events ++ rest.events; state = rest.state }
