-- ===== src/Streaming/TranscriptReconciler/Numbering.antt =====
-- The events of `TranscriptReconciler` (app/streaming/transcript_reconciler.py) are numbered without a gap, and
-- belong to the call that the reconciler is bound to.
use cma_real_time_coaching.Prelude.{
  ℕ, suc, ◌+◌, ◌≡◌, refl, ap, sym, subst, ◌∙◌, false, Bool-cases, inl, inr, Option, none, some,
  Option-cases, String, List, [], ◌∷◌, ◌++◌, ◌==◌, string_eq, list_eq, nat_eq, if◌then◌else◌,
  is_empty, length, length-append, arith,
}
use cma_real_time_coaching.Prelude.Text.{Text}
use cma_real_time_coaching.Events.Models.{TranscriptEvent, TranscriptKind}
use cma_real_time_coaching.Streaming.TranscriptReconciler.{
  TranscriptReconciler, ReconcilerConfig, WindowTranscriptionResult, Outcome, Attempt, Step,
  cleared, segments_end, stable_segments, partial_segments, bind_scope, is_unbound, other_text,
  scope_and_order_error, join_segment_text, make_event, clear_partial, new_stable_text,
  advance_stable_end, ingest_stable, ingest_partial, ingest_valid, ingest, final_text, finish,
  finish_bound, finalize, attempt, outcome_of, run,
}

-- The events are of the call, and have the revisions after `r`, one after the other.
abbrev pub Numbered : String → String → ℕ → List TranscriptEvent → Type 0
Numbered tenant call r [] = Unit
Numbered tenant call r (e ∷ es) =
    (e.tenant_id ≡ tenant)
    × (e.call_id ≡ call)
    × (e.revision ≡ suc r)
    × Numbered tenant call (suc r) es

abbrev pub IsBoundTo : String → String → TranscriptReconciler → Type 0
IsBoundTo tenant call s = (s.tenant_id ≡ some tenant) × (s.call_id ≡ some call)

-- The outcome continues the numbering from revision `r`.
pub record Continues (tenant call : String) (r : ℕ) (o : Outcome) : Type 0 where
  pub bound : IsBoundTo tenant call o.state
  pub numbered : Numbered tenant call r o.events
  pub revision : o.state.revision ≡ r + length o.events

Numbered-append :
    (tenant call : String) (r : ℕ) (es fs : List TranscriptEvent)
    → Numbered tenant call r es
    → Numbered tenant call (r + length es) fs
    → Numbered tenant call r (es ++ fs)
Numbered-append tenant call r [] fs h k = subst (λ x. Numbered tenant call x fs) (omega arith) k
Numbered-append tenant call r (e ∷ es) fs h k = (
  h.0,
  h.1,
  h.2,
  Numbered-append tenant call (suc r) es fs h.3
      (subst (λ x. Numbered tenant call x fs) (omega arith) k),
)

module _ (tenant call : String) where
  Continues-trans :
      (r : ℕ) (o p : Outcome)
      → Continues tenant call r o
      → Continues tenant call o.state.revision p
      → Continues tenant call r (record { events = o.events ++ p.events; state = p.state })
  Continues-trans r o p h k = record {
    bound = k.bound;
    numbered =
        Numbered-append tenant call r o.events p.events h.numbered
          (subst (λ x. Numbered tenant call x p.events) h.revision k.numbered);
    revision = omega (arith, k.revision, h.revision, length-append o.events p.events);
  }

  idle :
      (s : TranscriptReconciler)
      → IsBoundTo tenant call s
      → Continues tenant call s.revision (record { events = []; state = s })
  idle s b = record { bound = b; numbered = tt; revision = omega arith }

  module _ (c : ReconcilerConfig) where
    make_event-Continues :
        (kind : TranscriptKind) (text : Text) (start end : ℕ) (source : Option ℕ)
        (s : TranscriptReconciler)
        → IsBoundTo tenant call s
        → Continues tenant call s.revision (make_event c tenant call kind text start end source s)
    unfolding make_event
    make_event-Continues kind text start end source s b = record {
      bound = b;
      numbered = (refl, refl, refl, tt);
      revision = omega arith;
    }

    advance-Continues :
        (r : ℕ) (end : Option ℕ) (o : Outcome)
        → Continues tenant call r o
        → Continues tenant call r
            (record { events = o.events; state = advance_stable_end end o.state })
    advance-Continues r none o h = record {
      bound = h.bound;
      numbered = h.numbered;
      revision = h.revision;
    }
    advance-Continues r (some end) o h = record {
      bound = h.bound;
      numbered = h.numbered;
      revision = h.revision;
    }

    finish_bound-Continues :
        (text : Text) (t a : Option String) (s : TranscriptReconciler)
        → t ≡ some tenant
        → a ≡ some call
        → IsBoundTo tenant call s
        → (o : Outcome) × (finish_bound c text t a s ≡ Attempt.done o)
          × Continues tenant call s.revision o
    unfolding finish
    finish_bound-Continues text t a s e f b = (
      finish c text tenant call s,
      (λ i. finish_bound c text (e i) (f i) s),
      make_event-Continues TranscriptKind.final text _ _ _ _ b,
    )

    -- Finalizing a reconciler that is bound to a call does not fail, and continues the numbering.
    pub finalize-Continues :
        (s : TranscriptReconciler)
        → IsBoundTo tenant call s
        → (o : Outcome) × (finalize c s ≡ Attempt.done o) × Continues tenant call s.revision o
    unfolding finalize clear_partial
    finalize-Continues s b = elim (Bool-cases (is_empty s.partial_transcript)) [
      | inl nothing ↦ rw (nothing, finalize) (record { events = []; state = s }, refl, idle s b)
      | inr pending ↦ elim (Bool-cases (is_empty (final_text c s))) [
        | inl known ↦
            rw (pending, known, finalize)
              (record { events = []; state = clear_partial s }, refl, idle (clear_partial s) b)
        | inr new ↦
            rw (pending, new, finalize)
              (finish_bound-Continues (final_text c s) s.tenant_id s.call_id (clear_partial s) b.0
                b.1 b)
      ]
    ]

    -- What holds of the outcome of an attempt.
    abbrev ContinuesAll : ℕ → Attempt → Type 0
    ContinuesAll r (Attempt.done o) = Continues tenant call r o
    ContinuesAll r (Attempt.failed e) = Unit

    module _ (r : WindowTranscriptionResult) (e : r.tenant_id ≡ tenant) (f : r.call_id ≡ call) where
      ingest_stable-Continues :
          (s : TranscriptReconciler)
          → IsBoundTo tenant call s
          → Continues tenant call s.revision (ingest_stable c r s)
      unfolding ingest_stable
      ingest_stable-Continues s b = elim (Bool-cases (is_empty (new_stable_text c r s))) [
        | inl nothing ↦
            rw (nothing, ingest_stable)
              (advance-Continues s.revision (segments_end (stable_segments c r))
                (record { events = []; state = s }) (idle s b))
        | inr something ↦
            rw (something, e, f, ingest_stable)
              (advance-Continues s.revision (segments_end (stable_segments c r)) _
                (make_event-Continues TranscriptKind.stable (new_stable_text c r s) _ _ _ _ b))
      ]

      ingest_partial-Continues :
          (s : TranscriptReconciler)
          → IsBoundTo tenant call s
          → Continues tenant call s.revision (ingest_partial c r s)
      unfolding ingest_partial clear_partial
      ingest_partial-Continues s b =
          let text = join_segment_text c.words.is_space (partial_segments c r) in
          elim (Bool-cases (text == s.partial_transcript)) [
            | inl same ↦ rw (same, ingest_partial) (idle s b)
            | inr new ↦ elim (Bool-cases (is_empty text)) [
              | inl nothing ↦
                  rw (new, nothing, ingest_partial)
                    (idle (clear_partial (record s { partial_transcript = text })) b)
              | inr something ↦
                  rw (new, something, e, f, ingest_partial)
                    (make_event-Continues TranscriptKind.partial text _ _ _ _ b)
            ]
          ]

      ingest_valid-Continues :
          (s : TranscriptReconciler)
          → IsBoundTo tenant call (bind_scope r s)
          → Continues tenant call (bind_scope r s).revision (ingest_valid c r s)
      unfolding ingest_valid
      ingest_valid-Continues s b =
          let first = ingest_stable c r (bind_scope r s) in
          let second = ingest_partial c r first.state in
          let h = ingest_stable-Continues (bind_scope r s) b in
          let k = ingest_partial-Continues first.state h.bound in
          let whole = Continues-trans (bind_scope r s).revision first second h k in
          record { bound = whole.bound; numbered = whole.numbered; revision = whole.revision }

    -- A result that is let in by a bound reconciler is of its call.
    admitted-same :
        (r : WindowTranscriptionResult) (s : TranscriptReconciler)
        → IsBoundTo tenant call s
        → scope_and_order_error r s ≡ none
        → (r.tenant_id ≡ tenant) × (r.call_id ≡ call)
    unfolding scope_and_order_error
    admitted-same r s b e =
        let t : other_text (some tenant) r.tenant_id ≡ false =
          elim (Bool-cases (other_text (some tenant) r.tenant_id)) [
            | inr same ↦ same
            | inl other ↦ absurd (ground (arith, ap (λ x. other_text x r.tenant_id) b.0 ∙ other, e))
          ] in
        let bound = ap is_unbound b.0 in
        let a : other_text (some call) r.call_id ≡ false =
          elim (Bool-cases (other_text (some call) r.call_id)) [
            | inr same ↦ same
            | inl other ↦ absurd (
                ground (
                  arith,
                  ap (λ x. other_text x r.tenant_id) b.0 ∙ t,
                  bound,
                  ap (λ x. other_text x r.call_id) b.1 ∙ other,
                  e,
                ))
          ] in
        (
          (string_eq.beq_iff r.tenant_id tenant).0 (ground (arith, t)),
          (string_eq.beq_iff r.call_id call).0 (ground (arith, a)),
        )

    bind-bound :
        (r : WindowTranscriptionResult) (s : TranscriptReconciler)
        → IsBoundTo tenant call s
        → bind_scope r s ≡ s
    bind-bound r s b =
        ap
          (λ u.
            if is_unbound u
            then record s { tenant_id = some r.tenant_id; call_id = some r.call_id }
            else s)
          b.0

    ingest-Continues :
        (r : WindowTranscriptionResult) (s : TranscriptReconciler)
        → IsBoundTo tenant call s
        → ContinuesAll s.revision (ingest c r s)
    unfolding ingest
    ingest-Continues r s b = elim (Option-cases (scope_and_order_error r s)) [
      | inr (e, wrong) ↦ rw (wrong, ingest) tt
      | inl fine ↦
          let (t, a) = admitted-same r s b fine in
          let same = bind-bound r s b in
          rw (fine, ingest)
            (subst (λ u. Continues tenant call u.revision (ingest_valid c r s)) same
              (ingest_valid-Continues r t a s (subst (IsBoundTo tenant call) (sym same) b)))
    ]

    outcome-Continues :
        (s : TranscriptReconciler) (a : Attempt)
        → IsBoundTo tenant call s
        → ContinuesAll s.revision a
        → Continues tenant call s.revision (outcome_of s a)
    outcome-Continues s (Attempt.done o) b h = h
    outcome-Continues s (Attempt.failed e) b h = idle s b

    attempt-Continues :
        (x : Step) (s : TranscriptReconciler)
        → IsBoundTo tenant call s
        → ContinuesAll s.revision (attempt c x s)
    attempt-Continues (Step.ingested r) s b = ingest-Continues r s b
    attempt-Continues Step.finalized s b =
        let (o, e, h) = finalize-Continues s b in subst (ContinuesAll s.revision) (sym e) h

    -- Over any steps from a reconciler that is bound to a call, failed ones included, it stays bound to it, and all
    -- events belong to the call and are numbered from the revision before, without a gap.
    pub run-Continues :
        (xs : List Step) (s : TranscriptReconciler)
        → IsBoundTo tenant call s
        → Continues tenant call s.revision (run c xs s)
    unfolding run
    run-Continues [] s b = idle s b
    run-Continues (x ∷ xs) s b =
        let first = outcome_of s (attempt c x s) in
        let h = outcome-Continues s (attempt c x s) b (attempt-Continues x s b) in
        Continues-trans s.revision first (run c xs first.state) h
          (run-Continues xs first.state h.bound)

-- Over any steps of which the first ingests a result, from a cleared reconciler, all events belong to the call of
-- that result and are numbered from 1 on, without a gap.
pub run-cleared :
    (c : ReconcilerConfig) (r : WindowTranscriptionResult) (xs : List Step)
    → Continues r.tenant_id r.call_id 0 (run c (Step.ingested r ∷ xs) cleared)
unfolding run ingest scope_and_order_error
run-cleared c r xs =
    let first = ingest_valid c r cleared in
    let h = ingest_valid-Continues r.tenant_id r.call_id c r refl refl cleared (refl, refl) in
    Continues-trans r.tenant_id r.call_id 0 first (run c xs first.state) h
      (run-Continues r.tenant_id r.call_id c xs first.state h.bound)
