-- ===== src/Rtp/Lifecycle/Drains.antt =====
-- `drain_audio_chunks` (app/audio_ingress/rtp.py) hands out the queue from its front.
use cma_real_time_coaching.Prelude.{
  ℕ, zero, suc, ◌≤◌, ◌-◌, ◌≡◌, refl, sym, subst, Option, none, some, List, [], ◌∷◌, ◌++◌, arith,
  true, false, ◌==◌, length, take, drop, take-append-drop, nat_eq, string_eq, nat_beq_iff,
  length-drop,
}
use cma_real_time_coaching.Rtp.Types.{AudioChunkEvent, ActiveRtpSource, RtpMediaIngressAdapter}
use cma_real_time_coaching.Rtp.Adapter.{or_else}
use cma_real_time_coaching.Rtp.Lifecycle.{set_drained, drain_from, drain_audio_chunks}

length-take_bound : (n : ℕ) (cs : List AudioChunkEvent) → length (take n cs) ≤ n
length-take_bound zero cs = omega arith
length-take_bound (suc n) [] = omega arith
length-take_bound (suc n) (c ∷ cs) = omega (arith, length-take_bound n cs)

-- What a drain of at most `limit` chunks from the source `s` gives back and leaves.
pub record Drains (limit : ℕ) (a : RtpMediaIngressAdapter) (s : ActiveRtpSource)
    (r : Option (List AudioChunkEvent) × RtpMediaIngressAdapter) : Type 0 where
  pub chunks : List AudioChunkEvent
  pub rest : List AudioChunkEvent
  pub returned : r.0 ≡ some chunks
  pub in_order : chunks ++ rest ≡ s.output_queue
  pub at_most : length chunks ≤ limit
  pub all_if_fewer : length rest ≡ length s.output_queue - limit
  pub source : or_else r.1.active r.1.completed ≡ some (record s { output_queue = rest })
  pub same_generation : r.1.highest_source_generation ≡ a.highest_source_generation

set_drained_lem :
    (o : Option ActiveRtpSource) (s : ActiveRtpSource) (a : RtpMediaIngressAdapter)
    → o ≡ a.active
    → (or_else (set_drained o s a).active (set_drained o s a).completed ≡ some s)
      × ((set_drained o s a).highest_source_generation ≡ a.highest_source_generation)
unfolding set_drained
set_drained_lem none s a e = (subst (λ o. or_else o (some s) ≡ some s) e refl, refl)
set_drained_lem (some t) s a e = (refl, refl)

-- The source is the one that is asked for.
drain_from_own :
    (limit : ℕ) (a : RtpMediaIngressAdapter) (s : ActiveRtpSource)
    → Drains limit a s
        (drain_from a.config.tenant_id a.config.call_id s.start.source_generation limit (some s) a)
unfolding drain_from
drain_from_own limit a s =
    let tenant : (a.config.tenant_id == a.config.tenant_id) ≡ true =
      (string_eq.beq_iff _ _).1 refl in
    let call : (a.config.call_id == a.config.call_id) ≡ true = (string_eq.beq_iff _ _).1 refl in
    let generation : (s.start.source_generation == s.start.source_generation) ≡ true =
      (nat_beq_iff _ _).1 refl in
    let (source, same) =
      set_drained_lem a.active (record s { output_queue = drop limit s.output_queue }) a refl in
    rw (tenant, call, generation, drain_from)
      (record {
        chunks = take limit s.output_queue;
        rest = drop limit s.output_queue;
        returned = refl;
        in_order = take-append-drop limit s.output_queue;
        at_most = length-take_bound limit s.output_queue;
        all_if_fewer = length-drop limit s.output_queue;
        source = source;
        same_generation = same;
      })

-- In the adapter's scope, for the generation of the source that is active or else completed, and for a
-- limit of at least 1, `drain_audio_chunks` gives the first `limit` chunks of the queue, or all if there
-- are fewer, leaves the others in the same order, and changes nothing else of the source.
pub drain_audio_chunks-Drains :
    (limit : ℕ) (a : RtpMediaIngressAdapter) (s : ActiveRtpSource)
    → 1 ≤ limit
    → or_else a.active a.completed ≡ some s
    → Drains limit a s
        (drain_audio_chunks a.config.tenant_id a.config.call_id s.start.source_generation limit a)
unfolding drain_audio_chunks
drain_audio_chunks-Drains limit a s some_limit here =
    let positive : (limit == 0) ≡ false = ground arith in
    rw (positive, drain_audio_chunks)
      (subst
        (λ o.
          Drains limit a s
            (drain_from a.config.tenant_id a.config.call_id s.start.source_generation limit o a))
        (sym here) (drain_from_own limit a s))
