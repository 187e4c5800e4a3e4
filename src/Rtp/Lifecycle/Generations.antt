-- ===== src/Rtp/Lifecycle/Generations.antt =====
-- The generations of sources that an adapter of app/audio_ingress/rtp.py has had.
use cma_real_time_coaching.Prelude.{
  ℕ, ◌≤◌, ◌<◌, ◌≡◌, refl, inl, inr, subst, Option, Option-cases, none, some, List, [], ◌∷◌, arith,
  String, drop, false, Bool-cases, nat_eq,
}
use cma_real_time_coaching.Rtp.Types.{
  ActiveRtpSource, RtpMediaPacket, RtpIngressReason, RtpMediaStart, RtpMediaIngressAdapter,
  ScopedRtpControl, Outcome, continues, fails,
}
use cma_real_time_coaching.Rtp.Adapter.{
  Step, or_else, start, replace_source, start_unless_active, initialize, release_audio_state,
  result, rejection, stateless_rejection, fail, fail_source, is_stale, out_of_scope,
}
use cma_real_time_coaching.Rtp.Ingress.Total.{reason_of}
use cma_real_time_coaching.Rtp.Ingress.{
  finish_accept, validate_packet, packet_fingerprint, accept_packet, accept_on, accept_valid,
  accept_fingerprinted, accept_known, accept_new,
}
use cma_real_time_coaching.Rtp.Lifecycle.{
  regresses, Call, starts, replaces, accepts, advances, ends, resets, drains, Seconds,
  finish_advance, advance_on, advance, finish_end, end_on, end, reset, set_drained, drain_from,
  drain_audio_chunks, step, run,
}

abbrev generation : RtpMediaIngressAdapter → Option ℕ
generation a = a.highest_source_generation

fail_source_same :
    (x : RtpIngressReason) (o : Option ActiveRtpSource) (a : RtpMediaIngressAdapter)
    → generation (fail_source x o a).1 ≡ generation a
unfolding fail_source
fail_source_same x none a = refl
fail_source_same x (some s) a = refl

fail_same :
    (x : RtpIngressReason) (a : RtpMediaIngressAdapter) → generation (fail x a).1 ≡ generation a
unfolding fail
fail_same x a = fail_source_same x a.active a

finish_accept_same :
    (n : ℕ) (m : Outcome × ActiveRtpSource) (a : RtpMediaIngressAdapter)
    → generation (finish_accept n m a).1 ≡ generation a
unfolding finish_accept result
finish_accept_same n (continues, s) a = ground arith
finish_accept_same n (fails r, s) a = fail_same r (record a { active = some s })
finish_accept_same n (Outcome.raises, s) a = refl
finish_accept_same n (Outcome.hangs, s) a = refl

accept_new_same :
    (p : RtpMediaPacket) (f : List ℕ) (s : ActiveRtpSource) (a : RtpMediaIngressAdapter)
    → generation (accept_new p f s a).1 ≡ generation a
unfolding accept_new rejection
accept_new_same p f s a = grind (arith, finish_accept_same)

accept_known_same :
    (k f : List ℕ) (s : ActiveRtpSource) (a : RtpMediaIngressAdapter)
    → generation (accept_known k f s a).1 ≡ generation a
unfolding accept_known rejection result
accept_known_same k f s a = ground arith

module _ (sha256 : List ℕ → List ℕ) where
  accept_fingerprinted_same :
      (b : Option RtpMediaPacket) (o : Option (List ℕ)) (p : RtpMediaPacket) (f : List ℕ)
      (s : ActiveRtpSource) (a : RtpMediaIngressAdapter)
      → generation (accept_fingerprinted sha256 b o p f s a).1 ≡ generation a
  unfolding accept_fingerprinted
  accept_fingerprinted_same (some b) o p f s a = elim (Option-cases (packet_fingerprint sha256 b)) [
    | inl e ↦ rw (e, accept_fingerprinted) refl
    | inr (k, e) ↦ rw (e, accept_fingerprinted) (accept_known_same k f s a)
  ]
  accept_fingerprinted_same none (some k) p f s a = accept_known_same k f s a
  accept_fingerprinted_same none none p f s a = accept_new_same p f s a

  accept_on_same :
      (p : RtpMediaPacket) (o : Option ActiveRtpSource) (a : RtpMediaIngressAdapter)
      → generation (accept_on sha256 p o a).1 ≡ generation a
  unfolding accept_on accept_valid stateless_rejection rejection
  accept_on_same p none a = refl
  accept_on_same p (some s) a = elim (Option-cases (validate_packet a s p)) [
    | inr (x, e) ↦ rw (e, accept_on) refl
    | inl e ↦ elim (Option-cases (packet_fingerprint sha256 p)) [
      | inl n ↦ rw (e, n, accept_on, accept_valid) refl
      | inr (f, k) ↦ rw (e, k, accept_on, accept_valid) (accept_fingerprinted_same _ _ p f s a)
    ]
  ]

  accept_packet_same :
      (p : Option RtpMediaPacket) (a : RtpMediaIngressAdapter)
      → generation (accept_packet sha256 p a).1 ≡ generation a
  unfolding accept_packet rejection
  accept_packet_same none a = refl
  accept_packet_same (some p) a = accept_on_same p a.active a

finish_advance_same :
    (m : Outcome × ActiveRtpSource) (a : RtpMediaIngressAdapter)
    → generation (finish_advance m a).1 ≡ generation a
unfolding finish_advance result
finish_advance_same (continues, s) a = refl
finish_advance_same (fails r, s) a = fail_same r (record a { active = some s })
finish_advance_same (Outcome.raises, s) a = refl
finish_advance_same (Outcome.hangs, s) a = refl

advance_same :
    (t : Seconds) (o : Option ActiveRtpSource) (a : RtpMediaIngressAdapter)
    → generation (advance_on t o a).1 ≡ generation a
unfolding advance_on rejection stateless_rejection
advance_same t none a = refl
advance_same t (some s) a = elim (Bool-cases (regresses t s.last_arrival_monotonic_seconds)) [
  | inl back ↦ rw (back, advance_on) refl
  | inr onward ↦ rw (onward, advance_on) (finish_advance_same _ a)
]

finish_end_same :
    (m : Outcome × ActiveRtpSource) (a : RtpMediaIngressAdapter)
    → generation (finish_end m a).1 ≡ generation a
unfolding finish_end
finish_end_same (continues, s) a = refl
finish_end_same (fails r, s) a = fail_same r (record a { active = some s })
finish_end_same (Outcome.raises, s) a = refl
finish_end_same (Outcome.hangs, s) a = refl

end_same :
    (c : ScopedRtpControl) (o : Option ActiveRtpSource) (a : RtpMediaIngressAdapter)
    → generation (end_on c o a).1 ≡ generation a
unfolding end_on rejection stateless_rejection
end_same c none a = ground arith
end_same c (some s) a = grind (arith, finish_end_same)

set_drained_same :
    (o : Option ActiveRtpSource) (s : ActiveRtpSource) (a : RtpMediaIngressAdapter)
    → generation (set_drained o s a) ≡ generation a
unfolding set_drained
set_drained_same none s a = refl
set_drained_same (some t) s a = refl

drain_same :
    (tenant call : String) (number limit : ℕ) (o : Option ActiveRtpSource)
    (a : RtpMediaIngressAdapter)
    → generation (drain_from tenant call number limit o a).1 ≡ generation a
unfolding drain_from
drain_same tenant call number limit none a = refl
drain_same tenant call number limit (some s) a =
    ground
      (arith, set_drained_same a.active (record s { output_queue = drop limit s.output_queue }) a)

-- Generations only grow: none is below any other, and `some n` is up to `some m` for `n` up to `m`.
abbrev pub UpTo : Option ℕ → Option ℕ → Type 0
UpTo none m = Unit
UpTo (some n) none = ⊥
UpTo (some n) (some m) = n ≤ m

UpTo-refl : (n : Option ℕ) → UpTo n n
UpTo-refl none = tt
UpTo-refl (some n) = omega arith

UpTo-trans : (n m k : Option ℕ) → UpTo n m → UpTo m k → UpTo n k
UpTo-trans none m k a b = tt
UpTo-trans (some n) none k a b = absurd a
UpTo-trans (some n) (some m) none a b = absurd b
UpTo-trans (some n) (some m) (some k) a b = omega arith

same-UpTo : (n m : Option ℕ) → m ≡ n → UpTo n m
same-UpTo n m e = rw e (UpTo-refl n)

fresh_UpTo : (o : Option ℕ) (n : ℕ) → is_stale o n ≡ false → UpTo o (some n)
fresh_UpTo none n e = tt
fresh_UpTo (some m) n e = ground arith

start_UpTo :
    (o : Option ActiveRtpSource) (c : RtpMediaStart) (a : RtpMediaIngressAdapter)
    → UpTo (generation a) (generation (start_unless_active o c a).1)
unfolding start_unless_active rejection stateless_rejection result initialize
start_UpTo (some s) c a = same-UpTo _ _ (ground arith)
start_UpTo none c a = elim (Bool-cases (is_stale (generation a) c.source_generation)) [
  | inl stale ↦ rw (stale, start_unless_active) (UpTo-refl (generation a))
  | inr fresh ↦
      rw (fresh, start_unless_active) (fresh_UpTo (generation a) c.source_generation fresh)
]

any_start_UpTo :
    (c : RtpMediaStart) (a : RtpMediaIngressAdapter)
    → UpTo (generation a) (generation (start c a).1)
unfolding start stateless_rejection
any_start_UpTo c a = elim (Bool-cases (out_of_scope a.config c.control)) [
  | inl out ↦ rw (out, start) (UpTo-refl (generation a))
  | inr inside ↦ rw (inside, start) (start_UpTo a.active c a)
]

replace_UpTo :
    (c : RtpMediaStart) (a : RtpMediaIngressAdapter)
    → UpTo (generation a) (generation (replace_source c a).1)
unfolding replace_source rejection result initialize release_audio_state
replace_UpTo c a = elim (Bool-cases (out_of_scope a.config c.control)) [
  | inl out ↦ rw (out, replace_source) (UpTo-refl (generation a))
  | inr inside ↦ elim (Bool-cases (is_stale (generation a) c.source_generation)) [
    | inl stale ↦ rw (inside, stale, replace_source) (UpTo-refl (generation a))
    | inr fresh ↦
        rw (inside, fresh, replace_source) (fresh_UpTo (generation a) c.source_generation fresh)
  ]
]

step-UpTo :
    (sha256 : List ℕ → List ℕ) (c : Call) (a : RtpMediaIngressAdapter)
    → UpTo (generation a) (generation (step sha256 c a))
unfolding step start stateless_rejection advance end rejection reset release_audio_state
    drain_audio_chunks
step-UpTo sha256 (starts c) a = any_start_UpTo c a
step-UpTo sha256 (replaces c) a = replace_UpTo c a
step-UpTo sha256 (accepts p) a = same-UpTo _ _ (accept_packet_same sha256 p a)
step-UpTo sha256 (advances t) a = same-UpTo _ _ (advance_same t a.active a)
step-UpTo sha256 (ends c) a = same-UpTo _ _ (ground (arith, end_same c a.active a))
step-UpTo sha256 resets a = UpTo-refl (generation a)
step-UpTo sha256 (drains tenant call number limit) a =
    same-UpTo _ _
      (ground (arith, drain_same tenant call number limit (or_else a.active a.completed) a))

run-UpTo :
    (sha256 : List ℕ → List ℕ) (calls : List Call) (a : RtpMediaIngressAdapter)
    → UpTo (generation a) (generation (run sha256 calls a))
unfolding run
run-UpTo sha256 [] a = UpTo-refl (generation a)
run-UpTo sha256 (c ∷ cs) a =
    UpTo-trans _ _ _ (step-UpTo sha256 c a) (run-UpTo sha256 cs (step sha256 c a))

-- The two calls that bring in a source.
pub data Opening : Type 0 where
  by_start by_replacement : Opening

abbrev pub open_source : Opening → RtpMediaStart → RtpMediaIngressAdapter → Step
open_source by_start c a = start c a
open_source by_replacement c a = replace_source c a

unless_active_opened :
    (o : Option ActiveRtpSource) (c : RtpMediaStart) (a : RtpMediaIngressAdapter)
    → reason_of (start_unless_active o c a).0 ≡ some RtpIngressReason.started
    → (is_stale (generation a) c.source_generation ≡ false)
      × (generation (start_unless_active o c a).1 ≡ some c.source_generation)
unfolding start_unless_active rejection stateless_rejection result initialize
unless_active_opened (some s) c a e = ground (arith, e)
unless_active_opened none c a e = ground (arith, e)

-- A call that replies `started` had a generation above all before it, which is then the highest.
opened :
    (how : Opening) (c : RtpMediaStart) (a : RtpMediaIngressAdapter)
    → reason_of (open_source how c a).0 ≡ some RtpIngressReason.started
    → (is_stale (generation a) c.source_generation ≡ false)
      × (generation (open_source how c a).1 ≡ some c.source_generation)
unfolding start replace_source rejection stateless_rejection result initialize release_audio_state
opened by_start c a e = ground (arith, e, unless_active_opened a.active c a)
opened by_replacement c a e = ground (arith, e)

above : (n m : ℕ) (o : Option ℕ) → UpTo (some n) o → is_stale o m ≡ false → n < m
above n m none u e = absurd u
above n m (some k) u e = ground arith

-- If a call of `start` or `replace_source` has replied `started`, then, whatever calls come after it, no
-- other is replied `started` unless its generation is above that of the first.
pub opened-newer :
    (sha256 : List ℕ → List ℕ) (calls : List Call) (a : RtpMediaIngressAdapter)
    (how how_later : Opening) (c later : RtpMediaStart)
    → reason_of (open_source how c a).0 ≡ some RtpIngressReason.started
    → reason_of (open_source how_later later (run sha256 calls (open_source how c a).1)).0
      ≡ some RtpIngressReason.started
    → c.source_generation < later.source_generation
opened-newer sha256 calls a how how_later c later e f =
    let b = (open_source how c a).1 in
    above c.source_generation later.source_generation (generation (run sha256 calls b))
      (subst (λ o. UpTo o (generation (run sha256 calls b))) (opened how c a e).1
        (run-UpTo sha256 calls b))
      (opened how_later later (run sha256 calls b) f).0
