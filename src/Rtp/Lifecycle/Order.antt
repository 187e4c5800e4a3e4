-- ===== src/Rtp/Lifecycle/Order.antt =====
-- `start`, `replace_source`, `accept_packet` and `advance` keep the adapter's active source in order.
use cma_real_time_coaching.Prelude.{
  ℕ, ◌+◌, ◌≡◌, refl, sym, subst, inl, inr, Bool-cases, Option, some, none, Option-cases, List,
  arith, nat_eq, string_eq,
}
use cma_real_time_coaching.Prelude.Dict.{Dict}
use cma_real_time_coaching.Rtp.Types.{
  start_beq, ActiveRtpSource, RtpAdapterConfig, RtpMediaIngressAdapter, RtpMediaPacket,
  RtpMediaStart, RtpIngressReason, StartIsValid, PacketIsValid, IsPrintable,
}
use cma_real_time_coaching.Rtp.Adapter.{
  Step, start, replace_source, start_unless_active, initialize, rejection, note_rejection,
  map_source, out_of_scope, is_stale, release_audio_state, result, stateless_rejection,
}
use cma_real_time_coaching.Rtp.Ingress.{accept_packet, accept_on}
use cma_real_time_coaching.Rtp.Ingress.Store.{IsReady, recount-IsReady}
use cma_real_time_coaching.Rtp.Ingress.Total.{Handled, accept_packet-Handled}
use cma_real_time_coaching.Rtp.Lifecycle.{
  Seconds, Call, starts, replaces, accepts, advance, advance_on,
}
use cma_real_time_coaching.Rtp.Lifecycle.Advance.{advance-Handled}

-- The active source, if there is one, is in order.
abbrev pub ActiveInOrder : RtpAdapterConfig → Option ActiveRtpSource → Type 0
ActiveInOrder config none = Unit
ActiveInOrder config (some s) = IsReady config s

abbrev pub InOrder : RtpMediaIngressAdapter → Type 0
InOrder a = ActiveInOrder a.config a.active

-- The controls and packets have passed their validators, and a packet's generation fits 8 bytes.
abbrev pub IsValidCall : Call → Type 0
IsValidCall (starts c) = StartIsValid c
IsValidCall (replaces c) = StartIsValid c
IsValidCall (accepts (some p)) = PacketIsValid p × IsPrintable p
IsValidCall _ = Unit

-- A new source is in order.
initialize-InOrder :
    (c : RtpMediaStart) (a : RtpMediaIngressAdapter) → StartIsValid c → InOrder (initialize c a)
unfolding initialize
initialize-InOrder c a v = record {
  sound = record {
    format = v;
    accounts = record {
      samples = omega arith;
      clock = omega (arith, v.timestamp_bound);
      packets = omega arith;
      sequence = omega arith;
      sequence_bound = v.sequence_bound;
    };
    queue_bound = omega arith;
    first_number = 0;
    first_sample = 0;
    timeline = (refl, refl);
    stored = tt;
    distinct = tt;
    near = tt;
  };
  small = omega arith;
  noted = inl refl;
}

pub rejection-InOrder :
    (x : RtpIngressReason) (a : RtpMediaIngressAdapter) → InOrder a → InOrder (rejection x a).1
unfolding rejection
rejection-InOrder x a h = go a.active h
  where
    go :
        (o : Option ActiveRtpSource)
        → ActiveInOrder a.config o
        → ActiveInOrder a.config (map_source (note_rejection x) o)
    go none k = tt
    go (some s) k =
        recount-IsReady a.config s s.duplicate_packet_count (s.rejected_packet_count + 1) (some x) k

start_unless_active-InOrder :
    (o : Option ActiveRtpSource) (c : RtpMediaStart) (a : RtpMediaIngressAdapter)
    → StartIsValid c
    → InOrder a
    → InOrder (start_unless_active o c a).1
unfolding start_unless_active stateless_rejection result
start_unless_active-InOrder (some s) c a v h = elim (Bool-cases (start_beq c s.start)) [
  | inl same ↦ rw same h
  | inr other ↦ rw other (rejection-InOrder RtpIngressReason.active_source_exists a h)
]
start_unless_active-InOrder none c a v h =
    elim (Bool-cases (is_stale a.highest_source_generation c.source_generation)) [
      | inl stale ↦ rw stale h
      | inr fresh ↦ rw fresh (initialize-InOrder c a v)
    ]

pub start-InOrder :
    (c : RtpMediaStart) (a : RtpMediaIngressAdapter)
    → StartIsValid c
    → InOrder a
    → InOrder (start c a).1
unfolding start stateless_rejection
start-InOrder c a v h = elim (Bool-cases (out_of_scope a.config c.control)) [
  | inl out ↦ rw (out, start) h
  | inr inside ↦ rw (inside, start) (start_unless_active-InOrder a.active c a v h)
]

pub replace_source-InOrder :
    (c : RtpMediaStart) (a : RtpMediaIngressAdapter)
    → StartIsValid c
    → InOrder a
    → InOrder (replace_source c a).1
unfolding replace_source result release_audio_state
replace_source-InOrder c a v h = elim (Bool-cases (out_of_scope a.config c.control)) [
  | inl out ↦ rw (out, replace_source) (rejection-InOrder RtpIngressReason.scope_mismatch a h)
  | inr inside ↦ elim (Bool-cases (is_stale a.highest_source_generation c.source_generation)) [
    | inl stale ↦
        rw (inside, stale, replace_source)
          (rejection-InOrder RtpIngressReason.stale_source_generation a h)
    | inr fresh ↦
        rw (inside, fresh, replace_source)
          (initialize-InOrder c (record a { active = none; completed = none }) v)
  ]
]

-- A call that has been handled leaves the adapter in order.
Handled-InOrder :
    {a : RtpMediaIngressAdapter} {d : Dict ℕ RtpMediaPacket} {s : ActiveRtpSource} {r : Step}
    → Handled a d s r
    → InOrder r.1
Handled-InOrder {a = a} {r = r} h = elim h.source [
  | inl (t, e, k, _) ↦ rw (e, h.same_config) k
  | inr (e, _, _, _) ↦ rw e tt
]

pub source-InOrder :
    (a : RtpMediaIngressAdapter) {s : ActiveRtpSource}
    → a.active ≡ some s
    → InOrder a
    → IsReady a.config s
source-InOrder a e h = subst (ActiveInOrder a.config) e h

pub accept_packet-InOrder :
    (sha256 : List ℕ → List ℕ) (p : Option RtpMediaPacket) (a : RtpMediaIngressAdapter)
    → IsValidCall (accepts p)
    → InOrder a
    → InOrder (accept_packet sha256 p a).1
unfolding accept_packet accept_on stateless_rejection
accept_packet-InOrder sha256 none a v h = rejection-InOrder RtpIngressReason.malformed_packet a h
accept_packet-InOrder sha256 (some p) a v h = elim (Option-cases a.active) [
  | inl idle ↦ subst (λ o. InOrder (accept_on sha256 p o a).1) (sym idle) h
  | inr (s, active) ↦
      Handled-InOrder
        (accept_packet-Handled sha256 a s p active (source-InOrder a active h) v.0 v.1)
]

pub advance-InOrder :
    (now : Seconds) (a : RtpMediaIngressAdapter) → InOrder a → InOrder (advance now a).1
unfolding advance advance_on stateless_rejection
advance-InOrder now a h = elim (Option-cases a.active) [
  | inl idle ↦ subst (λ o. InOrder (advance_on now o a).1) (sym idle) h
  | inr (s, active) ↦ Handled-InOrder (advance-Handled a s active (source-InOrder a active h) now)
]
