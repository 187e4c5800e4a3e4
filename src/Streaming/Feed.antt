-- ===== src/Streaming/Feed.antt =====
-- The events of the reconciler, applied to the state of the call in their order, as `_execute_chunks` of
-- app/streaming/pipeline.py does (`call_state.apply_transcript(event)`).
use cma_real_time_coaching.Prelude.{
  ℕ, suc, ◌+◌, ◌≤◌, ◌≡◌, refl, sym, subst, true, Bool-cases, inl, inr, String, List, [], ◌∷◌, ltb,
  ltb-true, length, arith,
}
use cma_real_time_coaching.Prelude.Text.{Text}
use cma_real_time_coaching.Events.Models.{TranscriptEvent, TranscriptKind}
use cma_real_time_coaching.Calls.Types.{CallState, Result, TextMethods}
use cma_real_time_coaching.Calls.Suggestions.{in_scope}
use cma_real_time_coaching.Calls.State.{transcribe, apply_transcript}
use cma_real_time_coaching.Streaming.TranscriptReconciler.{
  ReconcilerConfig, WindowTranscriptionResult, Step, cleared, run,
}
use cma_real_time_coaching.Streaming.TranscriptReconciler.Numbering.{Numbered, run-cleared}

-- The events, until one is refused.
unfoldable pub apply_each : TextMethods → List TranscriptEvent → CallState → Result CallState
apply_each t [] s = Result.ok s
apply_each t (e ∷ es) s = elim (apply_transcript t e s) [
  | Result.err x ↦ Result.err x
  | Result.ok u ↦ apply_each t es u
]

transcribe-scope :
    (t : TextMethods) (kind : TranscriptKind) (text : Text) (s : CallState) (tenant call : String)
    → in_scope t s tenant call ≡ true
    → in_scope t (transcribe t kind text s) tenant call ≡ true
transcribe-scope t TranscriptKind.partial text s tenant call h = h
transcribe-scope t TranscriptKind.stable text s tenant call h = h
transcribe-scope t TranscriptKind.final text s tenant call h = h

accepts :
    (t : TextMethods) (e : TranscriptEvent) (s : CallState)
    → in_scope t s e.tenant_id e.call_id ≡ true
    → s.transcript_revision ≤ e.revision
    → apply_transcript t e s
      ≡ Result.ok (record (transcribe t e.kind e.text s) { transcript_revision = e.revision })
unfolding apply_transcript
accepts t e s h l = elim (Bool-cases (ltb e.revision s.transcript_revision)) [
  | inl older ↦ absurd (omega (arith, ltb-true e.revision s.transcript_revision older, l))
  | inr newer ↦ rw (h, newer, apply_transcript) refl
]

-- Numbered events of the call are all applied, if the call's state is not past their first revision.
apply_each-Numbered :
    (t : TextMethods) (tenant call : String) (r : ℕ) (es : List TranscriptEvent) (s : CallState)
    → in_scope t s tenant call ≡ true
    → s.transcript_revision ≤ r
    → Numbered tenant call r es
    → (u : CallState) × (apply_each t es s ≡ Result.ok u) × (u.transcript_revision ≤ r + length es)
unfolding apply_each
apply_each-Numbered t tenant call r [] s h l n = (s, refl, omega (arith, l))
apply_each-Numbered t tenant call r (e ∷ es) s h l (a, b, q, n) =
    let scope =
      subst (λ x. in_scope t s x e.call_id ≡ true) (sym a)
        (subst (λ x. in_scope t s tenant x ≡ true) (sym b) h) in
    let after : CallState = record (transcribe t e.kind e.text s) {
      transcript_revision = e.revision;
    } in
    let (u, f, m) =
      apply_each-Numbered t tenant call (suc r) es after
        (transcribe-scope t e.kind e.text s tenant call h) (omega (arith, q)) n in
    rw (accepts t e s scope (omega (arith, l, q)), apply_each) (u, f, omega (arith, m))

-- The state of a call that is at revision 0 and in the scope of the first result refuses none of the events that the
-- reconciler makes, from a cleared state, over any steps of which the first ingests that result.
pub apply_each-run :
    (t : TextMethods) (c : ReconcilerConfig) (r : WindowTranscriptionResult) (xs : List Step)
    (s : CallState)
    → in_scope t s r.tenant_id r.call_id ≡ true
    → s.transcript_revision ≡ 0
    → (u : CallState) × (apply_each t (run c (Step.ingested r ∷ xs) cleared).events s ≡ Result.ok u)
      × (u.transcript_revision ≤ (run c (Step.ingested r ∷ xs) cleared).state.revision)
apply_each-run t c r xs s h z =
    let o = run c (Step.ingested r ∷ xs) cleared in
    let k = run-cleared c r xs in
    let (u, f, m) =
      apply_each-Numbered t r.tenant_id r.call_id 0 o.events s h (omega (arith, z)) k.numbered in
    (u, f, omega (arith, m, k.revision))
