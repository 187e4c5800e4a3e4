-- ===== src/Streaming/Tests/Fed.antt =====
-- The events of a reconciler of app/streaming/transcript_reconciler.py, applied to a call.
use cma_real_time_coaching.Prelude.{ℕ, ◌≤◌, ◌≡◌, refl, [], ◌∷◌, ◌==◌, nat_eq, string_eq}
use cma_real_time_coaching.Prelude.Text.{codes}
use cma_real_time_coaching.Events.Validation.{ensure_same_identifier}
use cma_real_time_coaching.Calls.Types.{CallState, Result, TextMethods}
use cma_real_time_coaching.Calls.State.{initial}
use cma_real_time_coaching.Streaming.TranscriptReconciler.{
  ReconcilerConfig, WindowTranscriptionResult, WindowTranscriptionSegment, Step, cleared, run,
}
use cma_real_time_coaching.Streaming.Feed.{apply_each, apply_each-run}

abbrev plain : TextMethods
plain = record { strip = λ s. s; casefold = λ s. s; is_space = λ c. c == 32 }

abbrev config : ReconcilerConfig
config = record {
  words = record {
    is_space = λ c. c == 32;
    casefold = λ t. t;
    is_mark = λ c. c == 46;
    matches = λ a b. 0;
  };
  stable_region_seconds = 5;
  timestamp_tolerance_seconds = 0;
  event_id_factory = λ n. "event";
  utc_datetime_factory = λ n. n;
}

abbrev heard : WindowTranscriptionSegment
heard = record {
  text = codes "yes.";
  relative_start_seconds = 0;
  relative_end_seconds = 1;
  absolute_start_seconds = 0;
  absolute_end_seconds = 1;
}

abbrev window : ℕ → ℕ → WindowTranscriptionResult
window number end = record {
  tenant_id = "acme";
  call_id = "call-1";
  last_sequence = number;
  window_end_seconds = end;
  segments = heard ∷ [];
}

apply_each-run_example :
    (u : CallState) × (apply_each plain
        (run config (Step.ingested (window 1 3) ∷ Step.ingested (window 2 10) ∷ []) cleared).events
        (initial "acme" "call-1")
      ≡ Result.ok u)
    × (u.transcript_revision
        ≤ (run config
            (Step.ingested (window 1 3) ∷ Step.ingested (window 2 10) ∷ [])
            cleared).state.revision)
unfolding ensure_same_identifier
apply_each-run_example =
    apply_each-run plain config (window 1 3) (Step.ingested (window 2 10) ∷ [])
      (initial "acme" "call-1") refl refl
