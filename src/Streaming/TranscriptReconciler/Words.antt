-- ===== src/Streaming/TranscriptReconciler/Words.antt =====
-- The words of the transcript that `TranscriptReconciler` (app/streaming/transcript_reconciler.py) holds, and
-- those of the events that it gives.
use cma_real_time_coaching.Prelude.{
  ℕ, ◌≡◌, refl, ap, sym, ◌∙◌, Bool, true, false, Bool-cases, inl, inr, ◌||◌, Option, none, some,
  Option-cases, String, List, [], ◌∷◌, ◌++◌, append-nil, append_assoc, map, ◌==◌, list_eq, nat_eq,
  if◌then◌else◌, is_empty, drop, All-drop,
}
use cma_real_time_coaching.Prelude.Text.{Text, split, split-join, split-IsWord_all, split-non_empty}
use cma_real_time_coaching.Events.Models.{TranscriptEvent, TranscriptKind}
use cma_real_time_coaching.Streaming.TranscriptReconciler.Suffix.{
  WordMethods, normalize_word, overlap, new_suffix,
}
use cma_real_time_coaching.Streaming.TranscriptReconciler.{
  TranscriptReconciler, ReconcilerConfig, WindowTranscriptionResult, Outcome, Attempt, Step,
  segments_end, stable_segments, partial_segments, bind_scope, is_unbound, scope_and_order_error,
  join_segment_text, join_text, make_event, clear_partial, new_stable_text, advance_stable_end,
  ingest_stable, ingest_partial, ingest_valid, ingest, final_text, finish, finish_bound, finalize,
  attempt, outcome_of, run,
}

-- The words of an event, if it is of the stable transcript.
abbrev pub committed : (ℕ → Bool) → TranscriptKind → Text → List Text
committed is_space TranscriptKind.partial text = []
committed is_space TranscriptKind.stable text = split is_space text
committed is_space TranscriptKind.final text = split is_space text

-- The words of the stable and final events, one after the other.
unfoldable pub committed_words : (ℕ → Bool) → List TranscriptEvent → List Text
committed_words is_space [] = []
committed_words is_space (e ∷ es) = committed is_space e.kind e.text ++ committed_words is_space es

committed_words-append :
    (is_space : ℕ → Bool) (es fs : List TranscriptEvent)
    → committed_words is_space (es ++ fs)
      ≡ committed_words is_space es ++ committed_words is_space fs
unfolding committed_words
committed_words-append is_space [] fs = refl
committed_words-append is_space (e ∷ es) fs =
    ap (◌++◌ (committed is_space e.kind e.text)) (committed_words-append is_space es fs)
    ∙ sym (
        append_assoc (committed is_space e.kind e.text) (committed_words is_space es)
          (committed_words is_space fs))

module _ (w : WordMethods) (blank : w.is_space b' ' ≡ true) where
  -- If the space character is white space: the words of the new suffix are those of the candidate from some
  -- place on.
  pub new_suffix-drop :
      (existing candidate : Text) (allow_overlap : Bool)
      → (n : ℕ) × (split w.is_space (new_suffix w existing candidate allow_overlap)
          ≡ drop n (split w.is_space candidate))
  unfolding new_suffix
  new_suffix-drop existing candidate false = (0, refl)
  new_suffix-drop existing candidate true =
      let ne = map (normalize_word w) (split w.is_space existing) in
      let nc = map (normalize_word w) (split w.is_space candidate) in
      elim (Bool-cases (is_empty ne || is_empty nc)) [
        | inl nothing ↦ rw (nothing, new_suffix) (0, refl)
        | inr both ↦
            rw (both, new_suffix)
              (
                overlap w ne nc,
                split-join w.is_space blank (drop (overlap w ne nc) (split w.is_space candidate)) (
                    All-drop _ (overlap w ne nc) (split w.is_space candidate)
                      (split-IsWord_all w.is_space candidate)),
              )
      ]

module _ (c : ReconcilerConfig) (blank : c.words.is_space b' ' ≡ true) where
  -- The words of the stable transcript after an outcome are those before, and those of its events.
  abbrev pub Accounts : TranscriptReconciler → Outcome → Type 0
  Accounts s o =
      split c.words.is_space o.state.stable_transcript
      ≡ split c.words.is_space s.stable_transcript ++ committed_words c.words.is_space o.events

  same-Accounts :
      (s : TranscriptReconciler) (o : Outcome)
      → o.state.stable_transcript ≡ s.stable_transcript
      → committed_words c.words.is_space o.events ≡ []
      → Accounts s o
  same-Accounts s o e f =
      ap (split c.words.is_space) e
      ∙ sym (
          ap (◌++◌ (split c.words.is_space s.stable_transcript)) f
          ∙ append-nil (split c.words.is_space s.stable_transcript))

  join_text-words :
      (stable text : Text)
      → split c.words.is_space (join_text stable text)
        ≡ split c.words.is_space stable ++ (split c.words.is_space text ++ [])
  unfolding join_text
  join_text-words stable text =
      split-non_empty c.words.is_space blank stable text
      ∙ ap (◌++◌ (split c.words.is_space stable)) (sym (append-nil (split c.words.is_space text)))

  advance-stable :
      (end : Option ℕ) (s : TranscriptReconciler)
      → (advance_stable_end end s).stable_transcript ≡ s.stable_transcript
  advance-stable none s = refl
  advance-stable (some end) s = refl

  bind-stable :
      (r : WindowTranscriptionResult) (s : TranscriptReconciler)
      → (bind_scope r s).stable_transcript ≡ s.stable_transcript
  bind-stable r s = elim (Bool-cases (is_unbound s.tenant_id)) [
    | inl new ↦
        ap
          (λ b.
            (if b
              then record s { tenant_id = some r.tenant_id; call_id = some r.call_id }
              else s).stable_transcript)
          new
    | inr old ↦
        ap
          (λ b.
            (if b
              then record s { tenant_id = some r.tenant_id; call_id = some r.call_id }
              else s).stable_transcript)
          old
  ]

  ingest_stable-Accounts :
      (r : WindowTranscriptionResult) (s : TranscriptReconciler) → Accounts s (ingest_stable c r s)
  unfolding ingest_stable make_event committed_words
  ingest_stable-Accounts r s = elim (Bool-cases (is_empty (new_stable_text c r s))) [
    | inl nothing ↦
        rw (nothing, ingest_stable)
          (same-Accounts s
            (record {
              events = [];
              state = advance_stable_end (segments_end (stable_segments c r)) s;
            })
            (advance-stable (segments_end (stable_segments c r)) s) refl)
    | inr something ↦
        rw (something, ingest_stable)
          (ap (split c.words.is_space) (advance-stable (segments_end (stable_segments c r)) _)
            ∙ join_text-words s.stable_transcript (new_stable_text c r s))
  ]

  ingest_partial-Accounts :
      (r : WindowTranscriptionResult) (s : TranscriptReconciler) → Accounts s (ingest_partial c r s)
  unfolding ingest_partial make_event clear_partial committed_words
  ingest_partial-Accounts r s =
      let text = join_segment_text c.words.is_space (partial_segments c r) in
      elim (Bool-cases (text == s.partial_transcript)) [
        | inl same ↦
            rw (same, ingest_partial)
              (same-Accounts s (record { events = []; state = s }) refl refl)
        | inr new ↦ elim (Bool-cases (is_empty text)) [
          | inl nothing ↦
              rw (new, nothing, ingest_partial)
                (sym (append-nil (split c.words.is_space s.stable_transcript)))
          | inr something ↦
              rw (new, something, ingest_partial)
                (sym (append-nil (split c.words.is_space s.stable_transcript)))
        ]
      ]

  Accounts-trans :
      (s : TranscriptReconciler) (o p : Outcome)
      → Accounts s o
      → Accounts o.state p
      → Accounts s (record { events = o.events ++ p.events; state = p.state })
  Accounts-trans s o p h k =
      k
      ∙ ap (λ x. x ++ committed_words c.words.is_space p.events) h
      ∙ append_assoc (split c.words.is_space s.stable_transcript)
          (committed_words c.words.is_space o.events) (committed_words c.words.is_space p.events)
      ∙ ap (◌++◌ (split c.words.is_space s.stable_transcript))
          (sym (committed_words-append c.words.is_space o.events p.events))

  ingest_valid-Accounts :
      (r : WindowTranscriptionResult) (s : TranscriptReconciler) → Accounts s (ingest_valid c r s)
  unfolding ingest_valid
  ingest_valid-Accounts r s =
      let first = ingest_stable c r (bind_scope r s) in
      let second = ingest_partial c r first.state in
      Accounts-trans (bind_scope r s) first second (ingest_stable-Accounts r (bind_scope r s))
        (ingest_partial-Accounts r first.state)
      ∙ ap
          (λ x.
            split c.words.is_space x
            ++ committed_words c.words.is_space (first.events ++ second.events))
          (bind-stable r s)

  -- What holds of the outcome of an attempt.
  abbrev AccountsAll : TranscriptReconciler → Attempt → Type 0
  AccountsAll s (Attempt.done o) = Accounts s o
  AccountsAll s (Attempt.failed e) = Unit

  ingest-Accounts :
      (r : WindowTranscriptionResult) (s : TranscriptReconciler) → AccountsAll s (ingest c r s)
  unfolding ingest
  ingest-Accounts r s = elim (Option-cases (scope_and_order_error r s)) [
    | inl fine ↦ rw (fine, ingest) (ingest_valid-Accounts r s)
    | inr (e, wrong) ↦ rw (wrong, ingest) tt
  ]

  finish_bound-Accounts :
      (text : Text) (t a : Option String) (s : TranscriptReconciler)
      → AccountsAll s (finish_bound c text t a s)
  unfolding finish make_event committed_words
  finish_bound-Accounts text (some t) (some a) s = join_text-words s.stable_transcript text
  finish_bound-Accounts text none (some a) s = tt
  finish_bound-Accounts text none none s = tt
  finish_bound-Accounts text (some t) none s = tt

  finalize-Accounts : (s : TranscriptReconciler) → AccountsAll s (finalize c s)
  unfolding finalize clear_partial committed_words
  finalize-Accounts s = elim (Bool-cases (is_empty s.partial_transcript)) [
    | inl nothing ↦
        rw (nothing, finalize) (same-Accounts s (record { events = []; state = s }) refl refl)
    | inr pending ↦ elim (Bool-cases (is_empty (final_text c s))) [
      | inl known ↦
          rw (pending, known, finalize)
            (same-Accounts s (record { events = []; state = clear_partial s }) refl refl)
      | inr new ↦
          rw (pending, new, finalize)
            (finish_bound-Accounts (final_text c s) s.tenant_id s.call_id (clear_partial s))
    ]
  ]

  attempt-Accounts : (x : Step) (s : TranscriptReconciler) → AccountsAll s (attempt c x s)
  attempt-Accounts (Step.ingested r) s = ingest-Accounts r s
  attempt-Accounts Step.finalized s = finalize-Accounts s

  outcome-Accounts :
      (s : TranscriptReconciler) (a : Attempt) → AccountsAll s a → Accounts s (outcome_of s a)
  unfolding committed_words
  outcome-Accounts s (Attempt.done o) h = h
  outcome-Accounts s (Attempt.failed e) h =
      same-Accounts s (record { events = []; state = s }) refl refl

  -- If the space character is white space: over any steps, failed ones included, the words of the stable
  -- transcript are those before the steps, and then those of the stable and final events in their order.
  pub run-words :
      (xs : List Step) (s : TranscriptReconciler)
      → split c.words.is_space (run c xs s).state.stable_transcript
        ≡ split c.words.is_space s.stable_transcript
          ++ committed_words c.words.is_space (run c xs s).events
  unfolding run committed_words
  run-words [] s = same-Accounts s (record { events = []; state = s }) refl refl
  run-words (x ∷ xs) s =
      let first = outcome_of s (attempt c x s) in
      Accounts-trans s first (run c xs first.state)
        (outcome-Accounts s (attempt c x s) (attempt-Accounts x s)) (run-words xs first.state)
