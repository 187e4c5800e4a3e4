-- ===== src/Rtp/Lifecycle.antt =====
-- The rest of the methods of `RTPMediaIngressAdapter` (app/audio_ingress/rtp.py): `advance`, `end`,
-- `reset` and `drain_audio_chunks`, and the adapter's calls as one step function.
pub mod Advance
pub mod End
pub mod Order
pub mod Run
pub mod Drains
pub mod Generations
use cma_real_time_coaching.Prelude.{
  ℕ, Bool, true, false, not, ◌||◌, Option, none, some, List, [], ◌∷◌, String, ◌==◌, ltb,
  if◌then◌else◌, take, drop, nat_eq, string_eq, opt_beq,
}
use cma_real_time_coaching.Rtp.Types.{
  RtpIngressStatus, RtpIngressReason, RtpMediaStart, RtpMediaPacket, ScopedRtpControl,
  AudioChunkEvent, ActiveRtpSource, RtpMediaIngressAdapter, Outcome, continues, fails, Reply,
}
use cma_real_time_coaching.Rtp.Source.{and_then, expire_gap, expire_fuel, flush_final_chunk}
use cma_real_time_coaching.Rtp.Adapter.{
  Step, result, stateless_rejection, rejection, fail, out_of_scope, release_audio_state, reply_with,
  or_else, start, replace_source,
}
use cma_real_time_coaching.Rtp.Ingress.{generation_reason, accept_packet}

-- A float that a caller hands in: a time on the clock, or one that no clock shows.
pub data Seconds : Type 0 where
  at : ℕ → Seconds
  negative not_finite : Seconds

-- `not isfinite(t) or t < last`
abbrev pub regresses : Seconds → ℕ → Bool
regresses (at t) last = ltb t last
regresses negative last = true
regresses not_finite last = true

abbrev pub ticks : Seconds → ℕ
ticks (at t) = t
ticks _ = 0

finish_advance : Outcome × ActiveRtpSource → RtpMediaIngressAdapter → Step
finish_advance (continues, s) a =
    result RtpIngressStatus.accepted RtpIngressReason.packet_accepted (record a { active = some s })
finish_advance (fails r, s) a = fail r (record a { active = some s })
finish_advance (Outcome.raises, s) a = (Reply.raises, record a { active = some s })
finish_advance (Outcome.hangs, s) a = (Reply.hangs, record a { active = some s })

unfoldable pub advance_on : Seconds → Option ActiveRtpSource → RtpMediaIngressAdapter → Step
unfolding finish_advance
advance_on now none a = stateless_rejection RtpIngressReason.start_required a
advance_on now (some s) a =
    if regresses now s.last_arrival_monotonic_seconds
    then rejection RtpIngressReason.arrival_time_regression a
    else let s' = record s { last_arrival_monotonic_seconds = ticks now } in
      finish_advance (expire_gap (expire_fuel s') a.config (ticks now) false s') a

unfoldable pub advance : Seconds → RtpMediaIngressAdapter → Step
unfolding advance_on
advance now a = advance_on now a.active a

finish_end : Outcome × ActiveRtpSource → RtpMediaIngressAdapter → Step
finish_end (continues, s) a =
    let t = record s { packet_fingerprints = [] } in
    (
      reply_with RtpIngressStatus.completed RtpIngressReason.ended (some t),
      record a {
        completed_source_generation = some s.start.source_generation;
        completed = some t;
        active = none;
      },
    )
finish_end (fails r, s) a = fail r (record a { active = some s })
finish_end (Outcome.raises, s) a = (Reply.raises, record a { active = some s })
finish_end (Outcome.hangs, s) a = (Reply.hangs, record a { active = some s })

-- The buffered packets go out, gaps and all, and then the rest of the PCM buffer.
unfoldable pub flush : RtpMediaIngressAdapter → ℕ → ActiveRtpSource → Outcome × ActiveRtpSource
flush a now s =
    and_then (expire_gap (expire_fuel s) a.config now true s) (flush_final_chunk a.config)

unfoldable pub end_on : ScopedRtpControl → Option ActiveRtpSource → RtpMediaIngressAdapter → Step
unfolding finish_end flush
end_on c none a =
    if opt_beq (some c.source_generation) a.completed_source_generation
    then (reply_with RtpIngressStatus.duplicate RtpIngressReason.duplicate_end a.completed, a)
    else stateless_rejection RtpIngressReason.start_required a
end_on c (some s) a =
    if not (c.source_generation == s.start.source_generation)
    then rejection (generation_reason a.active c.source_generation) a
    else if ltb c.arrival_monotonic_seconds s.last_arrival_monotonic_seconds
    then rejection RtpIngressReason.arrival_time_regression a
    else finish_end
        (flush a c.arrival_monotonic_seconds
          (record s { latest_arrived_at_utc = c.arrived_at_utc }))
        a

unfoldable pub end : ScopedRtpControl → RtpMediaIngressAdapter → Step
unfolding end_on
end c a =
    if out_of_scope a.config c
    then rejection RtpIngressReason.scope_mismatch a
    else end_on c a.active a

unfoldable pub reset : RtpMediaIngressAdapter → Step
reset a = (
  reply_with RtpIngressStatus.reset RtpIngressReason.reset none,
  record (release_audio_state a) { completed_source_generation = none },
)

-- The queue of the source that is being drained, put back in its place.
unfoldable pub set_drained :
    Option ActiveRtpSource → ActiveRtpSource → RtpMediaIngressAdapter → RtpMediaIngressAdapter
set_drained none s a = record a { completed = some s }
set_drained (some t) s a = record a { active = some s }

unfoldable pub drain_from :
    String
    → String
    → ℕ
    → ℕ
    → Option ActiveRtpSource
    → RtpMediaIngressAdapter
    → Option (List AudioChunkEvent) × RtpMediaIngressAdapter
unfolding set_drained
drain_from tenant call generation limit none a = (some [], a)
drain_from tenant call generation limit (some s) a =
    if not (tenant == a.config.tenant_id)
      || not (call == a.config.call_id)
      || not (generation == s.start.source_generation)
    then (some [], a)
    else (
      some (take limit s.output_queue),
      set_drained a.active (record s { output_queue = drop limit s.output_queue }) a,
    )

-- `drain_audio_chunks`: a limit of zero raises (`none`). The loop pops at most `limit` chunks off
-- the left end of the queue.
unfoldable pub drain_audio_chunks :
    String
    → String
    → ℕ
    → ℕ
    → RtpMediaIngressAdapter
    → Option (List AudioChunkEvent) × RtpMediaIngressAdapter
unfolding drain_from
drain_audio_chunks tenant call generation limit a =
    if limit == 0
    then (none, a)
    else drain_from tenant call generation limit (or_else a.active a.completed) a

-- A call of the adapter, and what it does to the adapter.
pub data Call : Type 0 where
  starts : RtpMediaStart → Call
  replaces : RtpMediaStart → Call
  accepts : Option RtpMediaPacket → Call
  advances : Seconds → Call
  ends : ScopedRtpControl → Call
  resets : Call
  drains : String → String → ℕ → ℕ → Call

unfoldable pub step : (List ℕ → List ℕ) → Call → RtpMediaIngressAdapter → RtpMediaIngressAdapter
unfolding start replace_source accept_packet advance end reset drain_audio_chunks
step sha256 (starts c) a = (start c a).1
step sha256 (replaces c) a = (replace_source c a).1
step sha256 (accepts p) a = (accept_packet sha256 p a).1
step sha256 (advances t) a = (advance t a).1
step sha256 (ends c) a = (end c a).1
step sha256 resets a = (reset a).1
step sha256 (drains tenant call generation limit) a =
    (drain_audio_chunks tenant call generation limit a).1

unfoldable pub run : (List ℕ → List ℕ) → List Call → RtpMediaIngressAdapter → RtpMediaIngressAdapter
unfolding step
run sha256 [] a = a
run sha256 (c ∷ cs) a = run sha256 cs (step sha256 c a)
