-- ===== src/Rtp/Lifecycle/Advance.antt =====
-- `advance` on an adapter whose source is in order.
use cma_real_time_coaching.Prelude.{
  ℕ, ◌≡◌, refl, sym, subst, inl, inr, false, Bool-cases, some, arith, nat_eq,
}
use cma_real_time_coaching.Rtp.Types.{
  ActiveRtpSource, RtpMediaIngressAdapter, RtpIngressReason, Outcome, continues, fails,
}
use cma_real_time_coaching.Rtp.Adapter.{result, fail}
use cma_real_time_coaching.Rtp.Source.{expire_fuel}
use cma_real_time_coaching.Rtp.Invariant.{Ends}
use cma_real_time_coaching.Rtp.Invariant.Expire.{Expired, expire_gap-Ends}
use cma_real_time_coaching.Rtp.Ingress.Store.{IsReady, IsReady-arrival}
use cma_real_time_coaching.Rtp.Ingress.Total.{Handled, rejection-Handled}
use cma_real_time_coaching.Rtp.Lifecycle.{
  Seconds, regresses, ticks, advance, advance_on, finish_advance,
}

module _ (a : RtpMediaIngressAdapter) (s : ActiveRtpSource) (active : a.active ≡ some s)
    (v : IsReady a.config s) where
  abbrev arrived : ℕ → ActiveRtpSource
  arrived now = record s { last_arrival_monotonic_seconds = now }

  finish_advance-Handled :
      (now : ℕ) (m : Outcome × ActiveRtpSource)
      → Ends (Expired a.config now false (arrived now)) m
      → Handled a s.packet_buffer s (finish_advance m a)
  unfolding finish_advance result fail
  finish_advance-Handled now (continues, t) e = record {
    answers = tt;
    same_config = refl;
    source = inl (
      t,
      refl,
      record { sound = e.kept.sound; small = e.kept.small; noted = e.noted },
      record {
        slots = e.kept.plays.slots;
        follows = e.kept.plays.follows;
        output = e.kept.plays.output;
      },
    );
  }
  finish_advance-Handled now (fails x, t) e = record {
    answers = tt;
    same_config = refl;
    source = inr (refl, x, e, refl);
  }
  finish_advance-Handled now (Outcome.raises, t) e = absurd e
  finish_advance-Handled now (Outcome.hangs, t) e = absurd e

  advance_on-Handled : (now : Seconds) → Handled a s.packet_buffer s (advance_on now (some s) a)
  unfolding advance_on
  advance_on-Handled now = elim (Bool-cases (regresses now s.last_arrival_monotonic_seconds)) [
    | inl back ↦
        rw (back, advance_on)
          (rejection-Handled a s.packet_buffer s v active RtpIngressReason.arrival_time_regression)
    | inr onward ↦
        let w = IsReady-arrival a.config s (ticks now) s.latest_arrived_at_utc v in
        rw (onward, advance_on)
          (finish_advance-Handled (ticks now) _ (
            expire_gap-Ends a.config (ticks now) false (expire_fuel (arrived (ticks now)))
              (arrived (ticks now)) (inr (omega arith)) w.sound w.small w.noted))
  ]

  -- `advance`, on an active source in order and for any float, answers; the source goes on, in order,
  -- its audio grown by buffered packets in sequence and by silence, or it has been given up.
  pub advance-Handled : (now : Seconds) → Handled a s.packet_buffer s (advance now a)
  unfolding advance
  advance-Handled now =
      subst (λ o. Handled a s.packet_buffer s (advance_on now o a)) (sym active)
        (advance_on-Handled now)
