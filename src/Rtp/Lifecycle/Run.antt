-- ===== src/Rtp/Lifecycle/Run.antt =====
-- Any sequence of calls keeps the adapter's active source in order.
use cma_real_time_coaching.Prelude.{
  ℕ, suc, zero, ◌+◌, ◌≡◌, sym, subst, inl, inr, Bool, false, Bool-cases, Option, some, none,
  Option-cases, List, [], ◌∷◌, All, drop, arith, nat_eq, string_eq, String, ltb, not, ◌||◌, ◌==◌,
  length-drop, nat_beq_iff, ltb-false, opt_beq,
}
use cma_real_time_coaching.Rtp.Types.{
  ActiveRtpSource, AudioChunkEvent, RtpAdapterConfig, RtpMediaIngressAdapter, RtpIngressReason,
  ScopedRtpControl,
}
use cma_real_time_coaching.Rtp.Adapter.{
  new, out_of_scope, release_audio_state, stateless_rejection, or_else,
}
use cma_real_time_coaching.Rtp.Invariant.{Timeline}
use cma_real_time_coaching.Rtp.Ingress.{generation_reason}
use cma_real_time_coaching.Rtp.Ingress.Store.{IsReady}
use cma_real_time_coaching.Rtp.Lifecycle.{
  Call, starts, replaces, accepts, advances, ends, resets, drains, end, end_on, reset,
  drain_audio_chunks, drain_from, set_drained, step, run,
}
use cma_real_time_coaching.Rtp.Lifecycle.End.{end-Ended}
use cma_real_time_coaching.Rtp.Lifecycle.Order.{
  ActiveInOrder, InOrder, IsValidCall, rejection-InOrder, source-InOrder, start-InOrder,
  replace_source-InOrder, accept_packet-InOrder, advance-InOrder,
}

end_on-InOrder :
    (c : ScopedRtpControl) (a : RtpMediaIngressAdapter) (s : ActiveRtpSource)
    → out_of_scope a.config c ≡ false
    → a.active ≡ some s
    → InOrder a
    → InOrder (end c a).1
unfolding end end_on
end_on-InOrder c a s inside active h =
    elim (Bool-cases (c.source_generation == s.start.source_generation)) [
      | inr other ↦
          back (rw other (rejection-InOrder (generation_reason a.active c.source_generation) a h))
      | inl same ↦
          elim (Bool-cases (ltb c.arrival_monotonic_seconds s.last_arrival_monotonic_seconds)) [
            | inl early ↦ back (
                rw (same, early, end_on)
                  (rejection-InOrder RtpIngressReason.arrival_time_regression a h))
            | inr on_time ↦
                rw
                  ((end-Ended a s c active (source-InOrder a active h) inside
                    ((nat_beq_iff _ _).0 same) (ltb-false _ _ on_time)).inactive)
                  tt
          ]
    ]
  where
    back : InOrder (end_on c (some s) a).1 → InOrder (end c a).1
    back k = rw (inside, end) (subst (λ o. InOrder (end_on c o a).1) (sym active) k)

end_idle :
    (c : ScopedRtpControl) (a : RtpMediaIngressAdapter) → InOrder a → InOrder (end_on c none a).1
unfolding end_on stateless_rejection
end_idle c a h =
    elim (Bool-cases (opt_beq (some c.source_generation) a.completed_source_generation)) [
      | inl again ↦ rw (again, end_on) h
      | inr unknown ↦ rw (unknown, end_on) h
    ]

end-InOrder : (c : ScopedRtpControl) (a : RtpMediaIngressAdapter) → InOrder a → InOrder (end c a).1
unfolding end
end-InOrder c a h = elim (Bool-cases (out_of_scope a.config c)) [
  | inl out ↦ rw (out, end) (rejection-InOrder RtpIngressReason.scope_mismatch a h)
  | inr inside ↦ elim (Option-cases a.active) [
    | inl idle ↦
        rw (inside, end) (subst (λ o. InOrder (end_on c o a).1) (sym idle) (end_idle c a h))
    | inr (s, active) ↦ end_on-InOrder c a s inside active h
  ]
]

-- Chunks taken off the front leave a timeline.
Timeline-drop :
    (k n t : ℕ) (cs : List AudioChunkEvent) (m u : ℕ)
    → Timeline n t cs m u
    → (n' : ℕ) × (t' : ℕ) × Timeline n' t' (drop k cs) m u
Timeline-drop zero n t cs m u h = (n, t, h)
Timeline-drop (suc k) n t [] m u h = (n, t, h)
Timeline-drop (suc k) n t (c ∷ cs) m u h =
    Timeline-drop k (n + 1) (t + c.chunk_duration_samples) cs m u h.4

drop-IsReady :
    (config : RtpAdapterConfig) (k : ℕ) (s : ActiveRtpSource)
    → IsReady config s
    → IsReady config (record s { output_queue = drop k s.output_queue })
drop-IsReady config k s r =
    let (n, t, line) =
      Timeline-drop k v.first_number v.first_sample s.output_queue _ _ v.timeline in
    record {
      sound = record {
        format = v.format;
        accounts = record {
          samples = v.accounts.samples;
          clock = v.accounts.clock;
          packets = v.accounts.packets;
          sequence = v.accounts.sequence;
          sequence_bound = v.accounts.sequence_bound;
        };
        queue_bound = omega (arith, v.queue_bound, length-drop k s.output_queue);
        first_number = n;
        first_sample = t;
        timeline = line;
        stored = v.stored;
        distinct = v.distinct;
        near = v.near;
      };
      small = r.small;
      noted = r.noted;
    }
  where
    open r use {sound as v}

module _ (tenant call : String) (generation limit : ℕ) (a : RtpMediaIngressAdapter) where
  abbrev foreign : ActiveRtpSource → Bool
  foreign s =
      not (tenant == a.config.tenant_id)
      || not (call == a.config.call_id)
      || not (generation == s.start.source_generation)

  drain_active :
      (s : ActiveRtpSource)
      → a.active ≡ some s
      → InOrder a
      → InOrder (drain_from tenant call generation limit (some s) a).1
  unfolding drain_from
  drain_active s active h = elim (Bool-cases (foreign s)) [
    | inl other ↦ rw (other, drain_from) h
    | inr own ↦
        rw (own, drain_from)
          (subst
            (λ o. InOrder (set_drained o (record s { output_queue = drop limit s.output_queue }) a))
            (sym active) (drop-IsReady a.config limit s (source-InOrder a active h)))
  ]

  drain_completed :
      (o : Option ActiveRtpSource)
      → a.active ≡ none
      → InOrder a
      → InOrder (drain_from tenant call generation limit o a).1
  unfolding drain_from
  drain_completed none idle h = h
  drain_completed (some s) idle h = elim (Bool-cases (foreign s)) [
    | inl other ↦ rw (other, drain_from) h
    | inr own ↦
        rw (own, drain_from)
          (subst
            (λ o. InOrder (set_drained o (record s { output_queue = drop limit s.output_queue }) a))
            (sym idle) h)
  ]

  drain_audio_chunks-InOrder :
      InOrder a → InOrder (drain_audio_chunks tenant call generation limit a).1
  unfolding drain_audio_chunks
  drain_audio_chunks-InOrder h = elim (Bool-cases (limit == 0)) [
    | inl nothing ↦ rw (nothing, drain_audio_chunks) h
    | inr some_chunks ↦ elim (Option-cases a.active) [
      | inl idle ↦
          rw (some_chunks, drain_audio_chunks)
            (drain_completed (or_else a.active a.completed) idle h)
      | inr (s, active) ↦
          rw (some_chunks, drain_audio_chunks)
            (subst
              (λ o. InOrder (drain_from tenant call generation limit (or_else o a.completed) a).1)
              (sym active) (drain_active s active h))
    ]
  ]

-- Every call with valid arguments keeps the active source in order.
step-InOrder :
    (sha256 : List ℕ → List ℕ) (c : Call) (a : RtpMediaIngressAdapter)
    → IsValidCall c
    → InOrder a
    → InOrder (step sha256 c a)
unfolding step reset release_audio_state
step-InOrder sha256 (starts c) a v h = start-InOrder c a v h
step-InOrder sha256 (replaces c) a v h = replace_source-InOrder c a v h
step-InOrder sha256 (accepts p) a v h = accept_packet-InOrder sha256 p a v h
step-InOrder sha256 (advances t) a v h = advance-InOrder t a h
step-InOrder sha256 (ends c) a v h = end-InOrder c a h
step-InOrder sha256 resets a v h = tt
step-InOrder sha256 (drains tenant call generation limit) a v h =
    drain_audio_chunks-InOrder tenant call generation limit a h

new-InOrder :
    (strip : String → String) (c : RtpAdapterConfig) (a : RtpMediaIngressAdapter)
    → new strip c ≡ some a
    → InOrder a
unfolding new
new-InOrder strip c a e =
    let idle : a.active ≡ none = ground (arith, e) in subst (ActiveInOrder a.config) (sym idle) tt

run-InOrder :
    (sha256 : List ℕ → List ℕ) (calls : List Call) (a : RtpMediaIngressAdapter)
    → All IsValidCall calls
    → InOrder a
    → InOrder (run sha256 calls a)
unfolding run
run-InOrder sha256 [] a v h = h
run-InOrder sha256 (c ∷ cs) a v h =
    run-InOrder sha256 cs (step sha256 c a) v.1 (step-InOrder sha256 c a v.0 h)

-- After any calls with valid arguments, generations below 2^64 among them, on a new adapter, its active source, if it has one, is in
-- order: the samples decoded, made up as silence, queued and still in the PCM buffer balance; so do the
-- packets accepted, delivered and buffered, the expected timestamp and the expected sequence number;
-- the queue is within `max_output_chunks`, and its chunks are numbered and timed without a gap; less
-- than a chunk of audio waits; the buffered packets have distinct numbers within the reorder window;
-- and if there are any, the start of the gap before them is noted.
pub run-new-InOrder :
    (strip : String → String) (sha256 : List ℕ → List ℕ) (config : RtpAdapterConfig)
    (a : RtpMediaIngressAdapter) (calls : List Call)
    → new strip config ≡ some a
    → All IsValidCall calls
    → InOrder (run sha256 calls a)
run-new-InOrder strip sha256 config a calls e v =
    run-InOrder sha256 calls a v (new-InOrder strip config a e)
