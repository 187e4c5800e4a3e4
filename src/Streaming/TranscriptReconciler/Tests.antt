-- ===== src/Streaming/TranscriptReconciler/Tests.antt =====
-- Windows of a call, given to a reconciler of app/streaming/transcript_reconciler.py with a stable region of 5 and a
-- tolerance of 0.
use cma_real_time_coaching.Prelude.{
  ℕ, ◌≤◌, ◌≡◌, refl, true, some, List, [], ◌∷◌, ◌++◌, String, ◌==◌, nat_eq, arith, map, drop,
}
use cma_real_time_coaching.Prelude.Sort.{sort, insort}
use cma_real_time_coaching.Prelude.Text.{Text, split, split_from, join, non_empty, codes}
use cma_real_time_coaching.Events.Models.{TranscriptEvent}
use cma_real_time_coaching.Streaming.TranscriptReconciler.Suffix.{
  WordMethods, without_marks, exact_overlap, existing_sizes, overlap, new_suffix,
}
use cma_real_time_coaching.Streaming.TranscriptReconciler.{
  TranscriptReconciler, ReconcilerConfig, WindowTranscriptionResult, WindowTranscriptionSegment,
  Attempt, Step, cleared, select, is_in, join_segment_text, join_text, earliest, latest, make_event,
  clear_partial, new_stable_text, ingest_stable, ingest_partial, ingest_valid, ingest,
  scope_and_order_error, final_text, finish, finalize, run,
}
use cma_real_time_coaching.Streaming.TranscriptReconciler.Words.{committed_words, run-words}
use cma_real_time_coaching.Streaming.TranscriptReconciler.Overlap.{
  IsLargest, normalized, shorter, new_suffix-IsLargest,
}
use cma_real_time_coaching.Streaming.TranscriptReconciler.Numbering.{Continues, run-cleared}
use cma_real_time_coaching.Streaming.TranscriptReconciler.Finalized.{finalize-twice, finalize-stale}

abbrev plain_words : WordMethods
plain_words = record {
  is_space = λ c. c == 32;
  casefold = λ t. t;
  is_mark = λ c. c == 46;
  matches = λ a b. 0;
}

abbrev config : ReconcilerConfig
config = record {
  words = plain_words;
  stable_region_seconds = 5;
  timestamp_tolerance_seconds = 0;
  event_id_factory = λ n. "event";
  utc_datetime_factory = λ n. n;
}

abbrev spoken : String → ℕ → ℕ → WindowTranscriptionSegment
spoken text start end = record {
  text = codes text;
  relative_start_seconds = start;
  relative_end_seconds = end;
  absolute_start_seconds = start;
  absolute_end_seconds = end;
}

abbrev window : ℕ → ℕ → List WindowTranscriptionSegment → WindowTranscriptionResult
window number end segments = record {
  tenant_id = "acme";
  call_id = "call-1";
  last_sequence = number;
  window_end_seconds = end;
  segments = segments;
}

abbrev first_window : WindowTranscriptionResult
first_window = window 1 10 (spoken "yes." 0 1 ∷ [])

-- The same word, much later.
abbrev second_window : WindowTranscriptionResult
second_window = window 2 20 (spoken "yes." 18 19 ∷ [])

abbrev third_window : WindowTranscriptionResult
third_window = window 3 30 (spoken "yes." 18 19 ∷ spoken "no" 20 21 ∷ [])

abbrev texts : List TranscriptEvent → List Text
texts = map (λ e. e.text)

-- The second word is not in the transcript, if the call ends while it is partial.
repeat_is_lost :
    texts
      (run config
        (Step.ingested first_window ∷ Step.ingested second_window ∷ Step.finalized ∷ [])
        cleared).events
    ≡ codes "yes." ∷ codes "yes." ∷ []
unfolding run ingest scope_and_order_error ingest_valid ingest_stable ingest_partial new_stable_text
    new_suffix overlap exact_overlap existing_sizes join_text join_segment_text make_event
    clear_partial finalize final_text finish earliest latest select is_in sort insort split
    split_from join non_empty without_marks
repeat_is_lost = refl

repeat_is_lost_in :
    (run config
      (Step.ingested first_window ∷ Step.ingested second_window ∷ Step.finalized ∷ [])
      cleared).state.stable_transcript
    ≡ codes "yes."
unfolding run ingest scope_and_order_error ingest_valid ingest_stable ingest_partial new_stable_text
    new_suffix overlap exact_overlap existing_sizes join_text join_segment_text make_event
    clear_partial finalize final_text finish earliest latest select is_in sort insort split
    split_from join non_empty without_marks
repeat_is_lost_in = refl

-- It is, if it settles before.
repeat_is_kept :
    (run config
      (Step.ingested first_window
        ∷ Step.ingested second_window
        ∷ Step.ingested third_window
        ∷ Step.finalized
        ∷ [])
      cleared).state.stable_transcript
    ≡ codes "yes. yes. no"
unfolding run ingest scope_and_order_error ingest_valid ingest_stable ingest_partial new_stable_text
    new_suffix overlap exact_overlap existing_sizes join_text join_segment_text make_event
    clear_partial finalize final_text finish earliest latest select is_in sort insort split
    split_from join non_empty without_marks
repeat_is_kept = refl

abbrev steps : List Step
steps =
    Step.ingested second_window
    ∷ Step.ingested first_window
    ∷ Step.ingested third_window
    ∷ Step.finalized
    ∷ []

abbrev after_first : TranscriptReconciler
after_first = (run config (Step.ingested first_window ∷ []) cleared).state

run-words_example :
    split (λ c. c == 32) (run config steps after_first).state.stable_transcript
    ≡ split (λ c. c == 32) after_first.stable_transcript
      ++ committed_words (λ c. c == 32) (run config steps after_first).events
run-words_example = run-words config refl steps after_first

new_suffix-IsLargest_example :
    (size : ℕ) × (1 ≤ size)
    × IsLargest
        (normalized plain_words (codes "a b."))
        (normalized plain_words (codes "b c"))
        (shorter plain_words (codes "a b.") (codes "b c"))
        size
    × (split (λ c. c == 32) (new_suffix plain_words (codes "a b.") (codes "b c") true)
        ≡ drop size (split (λ c. c == 32) (codes "b c")))
unfolding split split_from without_marks
new_suffix-IsLargest_example =
    new_suffix-IsLargest plain_words (codes "a b.") (codes "b c") 1 refl (omega arith) (omega arith)
      refl

run-cleared_example :
    Continues "acme" "call-1" 0 (run config (Step.ingested first_window ∷ steps) cleared)
run-cleared_example = run-cleared config first_window steps

abbrev pending : TranscriptReconciler
pending = record cleared {
  tenant_id = some "acme";
  call_id = some "call-1";
  stable_transcript = codes "yes.";
  stable_end_seconds = some 1;
  partial_transcript = codes "yes. no";
  partial_start_seconds = some 18;
}

finalize-twice_example :
    finalize config (clear_partial pending)
    ≡ Attempt.done (record { events = []; state = clear_partial pending })
unfolding finalize clear_partial
finalize-twice_example =
    finalize-twice config (clear_partial pending)
      (record { events = []; state = clear_partial pending }) refl

-- A partial transcript that repeats the last word of the stable one, and starts long after it.
abbrev repeating : TranscriptReconciler
repeating = record pending { partial_transcript = codes "yes" }

finalize-stale_example :
    finalize config (record repeating { partial_start_seconds = some 18 })
    ≡ Attempt.done (record {
      events = [];
      state = clear_partial (record repeating { partial_start_seconds = some 18 });
    })
unfolding split split_from without_marks
finalize-stale_example =
    finalize-stale config repeating 1 (some 18) refl refl refl (omega arith) (omega arith) refl
