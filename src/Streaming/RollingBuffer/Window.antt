-- ===== src/Streaming/RollingBuffer/Window.antt =====
-- A rolling buffer holds the chunks of one call and format that reach into its window, in sequence.
use cma_real_time_coaching.Prelude.{
  ℕ, ◌+◌, ◌≤◌, ◌≡◌, ◌≢◌, opt_beq_iff, refl, sym, subst, ap, ◌⊎◌, inl, inr, none, some, List, [],
  ◌∷◌, ◌++◌, All, arith, false, true, Bool-cases, Option-cases, ltb, ltb-false, nat_eq, string_eq,
  nat_beq_iff, ◌==◌,
}
use cma_real_time_coaching.Prelude.Int.{ℤ, pos, negsuc}
use cma_real_time_coaching.Rtp.Types.{AudioChunkEvent}
use cma_real_time_coaching.Streaming.RollingBuffer.{
  RollingAudioBuffer, FloatMethods, at_most, cutoff, chunk_start_seconds, chunk_duration_seconds,
  AppendError, Appended, appended, refused, event_end, validate_binding, validate_next, evict,
  store,
}

-- Chunks with consecutive numbers, none starting before the one before it has ended; the last has the
-- number `m` and ends at `u`.
abbrev pub Chain : FloatMethods → List AudioChunkEvent → ℕ → ℕ → Type 0
Chain t [] m u = ⊥
Chain t (e ∷ []) m u = (e.sequence_number ≡ m) × (event_end t e ≡ u)
Chain t (e ∷ f ∷ es) m u =
    (f.sequence_number ≡ e.sequence_number + 1)
    × (event_end t e ≤ chunk_start_seconds t f)
    × Chain t (f ∷ es) m u

-- The chunk belongs to the call and has the format that the buffer is bound to.
abbrev pub Bound : RollingAudioBuffer → AudioChunkEvent → Type 0
Bound b e =
    (b.tenant_id ≡ some e.tenant_id)
    × (b.call_id ≡ some e.call_id)
    × (b.sample_rate_hz ≡ some e.sample_rate_hz)
    × (b.channel_count ≡ some e.channel_count)
    × (b.codec_name ≡ some e.codec_name)

-- The chunk ends after the start of the window.
abbrev pub Reaches : FloatMethods → ℤ → AudioChunkEvent → Type 0
Reaches t cut e = at_most (event_end t e) cut ≡ false

-- The window does not vanish in the rounding at the end of the chunk: what is left of that time without the window
-- is less.
abbrev pub KeepsWindow : FloatMethods → ℕ → AudioChunkEvent → Type 0
KeepsWindow t window e = Reaches t (cutoff t window (event_end t e)) e

-- A sum of floats that are not negative is no less than the first.
abbrev pub Grows : FloatMethods → Type 0
Grows t = (x d : ℕ) → x ≤ t.plus x d

-- A buffer into which a chunk has been put: number and end of the last one.
pub record Filled (t : FloatMethods) (b : RollingAudioBuffer) : Type 0 where
  pub number : ℕ
  pub end : ℕ
  pub last_number : b.last_sequence ≡ some number
  pub last_end : b.last_end_seconds ≡ some end
  pub chain : Chain t b.events number end
  pub bound : All (Bound b) b.events
  pub reaches : All (Reaches t (cutoff t b.window_seconds end)) b.events

-- A buffer that is empty and bound to nothing, or filled; its window is not empty.
abbrev pub IsRolling : FloatMethods → RollingAudioBuffer → Type 0
IsRolling t b = (1 ≤ b.window_seconds) × (((b.events ≡ []) × (b.last_sequence ≡ none)) ⊎ Filled t b)

-- What `append` has to accept.
abbrev pub Fits : FloatMethods → RollingAudioBuffer → AudioChunkEvent → Type 0
Fits t b e =
    (b.last_sequence ≡ none)
    ⊎ (Bound b e
        × (n : ℕ) × (u : ℕ) × (b.last_sequence ≡ some n)
        × (b.last_end_seconds ≡ some u)
        × (e.sequence_number ≡ n + 1)
        × (u ≤ chunk_start_seconds t e))

module _ (t : FloatMethods) where
  pub Chain-snoc :
      (es : List AudioChunkEvent) (e : AudioChunkEvent) (m u : ℕ)
      → Chain t es m u
      → e.sequence_number ≡ m + 1
      → u ≤ chunk_start_seconds t e
      → Chain t (es ++ e ∷ []) e.sequence_number (event_end t e)
  Chain-snoc [] e m u h p q = absurd h
  Chain-snoc (x ∷ []) e m u (a, b) p q = (omega arith, omega arith, (refl, refl))
  Chain-snoc (x ∷ y ∷ es) e m u (a, b, c) p q = (a, b, Chain-snoc (y ∷ es) e m u c p q)

  at_most-later : (x y : ℕ) (cut : ℤ) → x ≤ y → at_most x cut ≡ false → at_most y cut ≡ false
  at_most-later x y (pos z) h e = ground (arith, h, e)
  at_most-later x y (negsuc z) h e = refl

  module _ (grows : Grows t) where
    -- What comes after a chunk that reaches into the window does so too.
    Chain-Reaches :
        (cut : ℤ) (m u : ℕ) (e : AudioChunkEvent) (es : List AudioChunkEvent)
        → Chain t (e ∷ es) m u
        → Reaches t cut e
        → All (Reaches t cut) (e ∷ es)
    Chain-Reaches cut m u e [] c r = (r, tt)
    Chain-Reaches cut m u e (f ∷ es) (a, b, c) r =
        let no_less = grows (chunk_start_seconds t f) (chunk_duration_seconds t f) in
        (
          r,
          Chain-Reaches cut m u f es c
              (at_most-later (event_end t e) (event_end t f) cut (omega (arith, b, no_less)) r),
        )

-- A list of chunks, next to what eviction leaves of it.
pub record Evicts (P : AudioChunkEvent → Type 0) (t : FloatMethods) (cut : ℤ) (m u : ℕ)
    (es rest : List AudioChunkEvent) : Type 0 where
  pub gone : List AudioChunkEvent
  pub split : gone ++ rest ≡ es
  pub over : All (λ e. at_most (event_end t e) cut ≡ true) gone
  pub chain : Chain t rest m u
  pub kept : All P rest
  pub reaches : All (Reaches t cut) rest

module _ (P : AudioChunkEvent → Type 0) (t : FloatMethods) (grows : Grows t) (cut : ℤ) (m u : ℕ)
    (last_stays : at_most u cut ≡ false) where
  -- The loop stops at a chunk that reaches into the window.
  evict_stop :
      (e : AudioChunkEvent) (es : List AudioChunkEvent)
      → Chain t (e ∷ es) m u
      → All P (e ∷ es)
      → at_most (event_end t e) cut ≡ false
      → Evicts P t cut m u (e ∷ es) (evict t cut (e ∷ es))
  unfolding evict
  evict_stop e es c a new =
      rw (new, evict)
        (record {
          gone = [];
          split = refl;
          over = tt;
          chain = c;
          kept = a;
          reaches = Chain-Reaches t grows cut m u e es c new;
        })

  -- Eviction takes chunks off the front, those that end before the window; the last one is kept.
  evict-Evicts :
      (es : List AudioChunkEvent)
      → Chain t es m u
      → All P es
      → Evicts P t cut m u es (evict t cut es)
  unfolding evict
  evict-Evicts [] c a = absurd c
  evict-Evicts (e ∷ []) c a =
      evict_stop e [] c a (subst (λ x. at_most x cut ≡ false) (sym c.1) last_stays)
  evict-Evicts (e ∷ f ∷ es) c a = elim (Bool-cases (at_most (event_end t e) cut)) [
    | inr new ↦ evict_stop e (f ∷ es) c a new
    | inl old ↦
        let v = evict-Evicts (f ∷ es) c.2 a.1 in
        rw (old, evict)
          (record {
            gone = e ∷ v.gone;
            split = ap (◌∷◌ e) v.split;
            over = (old, v.over);
            chain = v.chain;
            kept = v.kept;
            reaches = v.reaches;
          })
  ]

-- The buffer after `e` has been put in: in order, and with the old chunks and `e`, less those from the
-- front that end before the window.
pub record Stores (t : FloatMethods) (b : RollingAudioBuffer) (e : AudioChunkEvent)
    (c : RollingAudioBuffer) : Type 0 where
  pub rolling : IsRolling t c
  pub bound_to : Bound c e
  pub same_window : c.window_seconds ≡ b.window_seconds
  pub number_last : c.last_sequence ≡ some e.sequence_number
  pub end_last : c.last_end_seconds ≡ some (event_end t e)
  pub gone : List AudioChunkEvent
  pub split : gone ++ c.events ≡ b.events ++ e ∷ []
  pub over :
      All (λ x. at_most (event_end t x) (cutoff t b.window_seconds (event_end t e)) ≡ true) gone

-- `append` has put a chunk in that fits, or it has refused one that does not, for a reason that is no
-- failed assertion.
pub record Appends (t : FloatMethods) (b : RollingAudioBuffer) (e : AudioChunkEvent) (r : Appended)
    : Type 0 where
  pub outcome :
      (Fits t b e × (c : RollingAudioBuffer) × (r ≡ appended c) × Stores t b e c)
      ⊎ (¬ Fits t b e × (x : AppendError) × (r ≡ refused x) × (x ≢ AppendError.assertion_failed))

-- Storing a chunk in a bound buffer whose chunks, with it, are in sequence.
pub store-Stores :
    (t : FloatMethods) (grows : Grows t) (b : RollingAudioBuffer) (e : AudioChunkEvent)
    → 1 ≤ b.window_seconds
    → KeepsWindow t b.window_seconds e
    → Bound b e
    → Chain t (b.events ++ e ∷ []) e.sequence_number (event_end t e)
    → All (Bound b) (b.events ++ e ∷ [])
    → Stores t b e (store t e b)
unfolding store
store-Stores t grows b e w keeps own c a =
    let v =
      evict-Evicts (Bound b) t grows (cutoff t b.window_seconds (event_end t e)) e.sequence_number
        (event_end t e) keeps (b.events ++ e ∷ []) c a in
    record {
      rolling = (
        w,
        inr (record {
          number = e.sequence_number;
          end = event_end t e;
          last_number = refl;
          last_end = refl;
          chain = v.chain;
          bound = v.kept;
          reaches = v.reaches;
        }),
      );
      bound_to = own;
      same_window = refl;
      number_last = refl;
      end_last = refl;
      gone = v.gone;
      split = v.split;
      over = v.over;
    }

-- `_validate_binding` passes the chunks of the call and format of the buffer, and no others.
binding-Bound :
    (b : RollingAudioBuffer) (e : AudioChunkEvent) → validate_binding e b ≡ none → Bound b e
unfolding validate_binding
binding-Bound b e h = (
  sym ((opt_beq_iff (some e.tenant_id) b.tenant_id).0 (ground (arith, h))),
  sym ((opt_beq_iff (some e.call_id) b.call_id).0 (ground (arith, h))),
  sym ((opt_beq_iff (some e.sample_rate_hz) b.sample_rate_hz).0 (ground (arith, h))),
  sym ((opt_beq_iff (some e.channel_count) b.channel_count).0 (ground (arith, h))),
  sym ((opt_beq_iff (some e.codec_name) b.codec_name).0 (ground (arith, h))),
)

Bound-binding :
    (b : RollingAudioBuffer) (e : AudioChunkEvent) → Bound b e → validate_binding e b ≡ none
unfolding validate_binding
Bound-binding b e (t, c, r, n, k) = ground (
  arith,
  (opt_beq_iff (some e.tenant_id) b.tenant_id).1 (sym t),
  (opt_beq_iff (some e.call_id) b.call_id).1 (sym c),
  (opt_beq_iff (some e.sample_rate_hz) b.sample_rate_hz).1 (sym r),
  (opt_beq_iff (some e.channel_count) b.channel_count).1 (sym n),
  (opt_beq_iff (some e.codec_name) b.codec_name).1 (sym k),
)

binding_error :
    (b : RollingAudioBuffer) (e : AudioChunkEvent) (x : AppendError)
    → validate_binding e b ≡ some x
    → x ≢ AppendError.assertion_failed
unfolding validate_binding
binding_error b e x h = λ q. ground (arith, h, q)

-- The chunk is of the buffer's call and format, the next in number, and starts no earlier than `u`.
abbrev pub Next : FloatMethods → RollingAudioBuffer → AudioChunkEvent → ℕ → ℕ → Type 0
Next t b e n u = Bound b e × (e.sequence_number ≡ n + 1) × (u ≤ chunk_start_seconds t e)

pub validate_next-decides :
    (t : FloatMethods) (n u : ℕ) (b : RollingAudioBuffer) (e : AudioChunkEvent)
    → b.last_end_seconds ≡ some u
    → ((validate_next t n e b ≡ none) × Next t b e n u)
      ⊎ ((x : AppendError) × (validate_next t n e b ≡ some x)
          × (x ≢ AppendError.assertion_failed)
          × ¬ Next t b e n u)
unfolding validate_next
validate_next-decides t n u b e end = elim (Option-cases (validate_binding e b)) [
  | inr (x, h) ↦ inr (
    x,
    rw (h, validate_next) refl,
    binding_error b e x h,
    λ k. ground (arith, h, Bound-binding b e k.0),
  )
  | inl h ↦ elim (Bool-cases (e.sequence_number == n + 1)) [
    | inr other ↦ inr (
      AppendError.sequence_mismatch,
      rw (h, other, validate_next) refl,
      (λ q. cc),
      (λ k. ground (arith, other, k.1)),
    )
    | inl next ↦ elim (Bool-cases (ltb (chunk_start_seconds t e) u)) [
      | inl early ↦ inr (
        AppendError.overlapping,
        rw (h, next, end, early, validate_next) refl,
        (λ q. cc),
        (λ k. ground (arith, early, k.2)),
      )
      | inr on_time ↦ inl (
        rw (h, next, end, on_time, validate_next) refl,
        (binding-Bound b e h, (nat_beq_iff _ _).0 next, ltb-false _ _ on_time),
      )
    ]
  ]
]
