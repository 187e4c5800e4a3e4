-- ===== src/Streaming/TranscriptReconciler/Finalized.antt =====
-- `finalize` (app/streaming/transcript_reconciler.py), done twice, and the time by which it decides on an overlap.
use cma_real_time_coaching.Prelude.{
  ℕ, ◌≤◌, length, false, ◌≡◌, refl, ap, subst, ◌∙◌, true, Bool-cases, inl, inr, Option, none, some,
  String, [], arith, is_empty,
}
use cma_real_time_coaching.Prelude.Text.{Text, split}
use cma_real_time_coaching.Streaming.TranscriptReconciler.Suffix.{new_suffix}
use cma_real_time_coaching.Streaming.TranscriptReconciler.Overlap.{
  OverlapsAt, normalized, shorter, new_suffix-repeated,
}
use cma_real_time_coaching.Streaming.TranscriptReconciler.{
  TranscriptReconciler, ReconcilerConfig, Outcome, Attempt, clear_partial, make_event, final_text,
  is_committed, finish, finish_bound, finalize,
}

-- No partial transcript is left by what succeeds.
abbrev LeavesNone : Attempt → Type 0
LeavesNone (Attempt.done o) = is_empty o.state.partial_transcript ≡ true
LeavesNone (Attempt.failed e) = Unit

finish_bound-LeavesNone :
    (c : ReconcilerConfig) (text : Text) (t a : Option String) (s : TranscriptReconciler)
    → is_empty s.partial_transcript ≡ true
    → LeavesNone (finish_bound c text t a s)
unfolding finish make_event
finish_bound-LeavesNone c text (some t) (some a) s e = e
finish_bound-LeavesNone c text none (some a) s e = tt
finish_bound-LeavesNone c text none none s e = tt
finish_bound-LeavesNone c text (some t) none s e = tt

finalize-LeavesNone : (c : ReconcilerConfig) (s : TranscriptReconciler) → LeavesNone (finalize c s)
unfolding finalize clear_partial
finalize-LeavesNone c s = elim (Bool-cases (is_empty s.partial_transcript)) [
  | inl nothing ↦ rw (nothing, finalize) nothing
  | inr pending ↦ elim (Bool-cases (is_empty (final_text c s))) [
    | inl known ↦ rw (pending, known, finalize) refl
    | inr new ↦
        rw (pending, new, finalize)
          (finish_bound-LeavesNone c (final_text c s) s.tenant_id s.call_id (clear_partial s) refl)
  ]
]

-- After a call of `finalize` that succeeds, another gives no event and changes nothing.
pub finalize-twice :
    (c : ReconcilerConfig) (s : TranscriptReconciler) (o : Outcome)
    → finalize c s ≡ Attempt.done o
    → finalize c o.state ≡ Attempt.done (record { events = []; state = o.state })
unfolding finalize
finalize-twice c s o e =
    let none_left : is_empty o.state.partial_transcript ≡ true =
      subst LeavesNone e (finalize-LeavesNone c s) in
    rw (none_left, finalize) refl

-- The start of the partial transcript has no part in whether its text may overlap.
final_text-stale :
    (c : ReconcilerConfig) (s : TranscriptReconciler) (stable_end : ℕ)
    → s.stable_end_seconds ≡ some stable_end
    → s.finalize_start_seconds ≡ 0
    → final_text c s ≡ new_suffix c.words s.stable_transcript s.partial_transcript true
unfolding final_text
final_text-stale c s stable_end e z =
    let within : is_committed c (some 0) (some stable_end) ≡ true = ground arith in
    ap (new_suffix c.words s.stable_transcript s.partial_transcript) (
      ap (λ x. is_committed c (some s.finalize_start_seconds) x) e
      ∙ ap (λ x. is_committed c (some x) (some stable_end)) z
      ∙ within)

abbrev pub word_count : ReconcilerConfig → TranscriptReconciler → ℕ
word_count c s = length (split c.words.is_space s.partial_transcript)

-- If the stable transcript has an end, and ends with all the normalized words of the partial transcript, of which
-- there is one at least, and no clearing of a partial transcript has left another start than 0, then `finalize` gives
-- no event and leaves the stable transcript as it is, wherever the partial transcript starts.
pub finalize-stale :
    (c : ReconcilerConfig) (s : TranscriptReconciler) (stable_end : ℕ) (start : Option ℕ)
    → s.stable_end_seconds ≡ some stable_end
    → s.finalize_start_seconds ≡ 0
    → is_empty s.partial_transcript ≡ false
    → 1 ≤ word_count c s
    → word_count c s ≤ shorter c.words s.stable_transcript s.partial_transcript
    → OverlapsAt
        (normalized c.words s.stable_transcript)
        (normalized c.words s.partial_transcript)
        (word_count c s)
    → let pending = record s { partial_start_seconds = start } in
      finalize c pending ≡ Attempt.done (record { events = []; state = clear_partial pending })
unfolding finalize
finalize-stale c s stable_end start e z pending some_word fits o =
    let p = record s { partial_start_seconds = start } in
    let gone : final_text c p ≡ [] =
      final_text-stale c p stable_end e z
      ∙ new_suffix-repeated c.words s.stable_transcript s.partial_transcript some_word fits o in
    rw (pending, gone, finalize) refl
