-- ===== src/Streaming/RollingBuffer/Feed.antt =====
-- The chunks that app/audio_ingress/rtp.py puts out, given to app/streaming/rolling_buffer.py.
use cma_real_time_coaching.Prelude.{
  ℕ, ◌+◌, ◌*◌, ◌≤◌, ◌≡◌, refl, sym, ap, ◌∙◌, subst, ◌⊎◌, inl, inr, none, some, List, [], ◌∷◌, All,
  arith, String, nat_eq,
}
use cma_real_time_coaching.Rtp.Types.{AudioChunkEvent}
use cma_real_time_coaching.Rtp.Invariant.{Timeline}
use cma_real_time_coaching.Streaming.RollingBuffer.{
  RollingAudioBuffer, FloatMethods, appended, append, chunk_start_seconds, event_end,
}
use cma_real_time_coaching.Streaming.RollingBuffer.Window.{
  Bound, IsRolling, Fits, Grows, KeepsWindow,
}
use cma_real_time_coaching.Streaming.RollingBuffer.Append.{append-Appends}

-- The chunks of one adapter: its tenant and call, and the format that `_queue_chunk` writes.
abbrev pub OfCall : String → String → AudioChunkEvent → Type 0
OfCall tenant call e =
    (e.tenant_id ≡ tenant)
    × (e.call_id ≡ call)
    × (e.sample_rate_hz ≡ 16000)
    × (e.channel_count ≡ 1)
    × (e.codec_name ≡ "pcm_s16le")

-- Every chunk is put in, one after the other.
pub data Feeds (t : FloatMethods)
    : RollingAudioBuffer → List AudioChunkEvent → RollingAudioBuffer → Type 0 where
  done : {b : RollingAudioBuffer} → Feeds t b [] b
  then :
      {b c d : RollingAudioBuffer} {e : AudioChunkEvent} {es : List AudioChunkEvent}
      → append t e b ≡ appended c
      → Feeds t c es d
      → Feeds t b (e ∷ es) d

-- Two numbers of whole seconds at the rate of 16000 that are at most 2^53 together have an exact sum.
abbrev pub IsExact : FloatMethods → Type 0
IsExact t =
    (k n : ℕ)
    → k + n ≤ 9007199254740992
    → t.plus (t.divide (16000 * k) 16000) (t.divide (16000 * n) 16000)
      ≡ t.divide (16000 * (k + n)) 16000

-- All chunks but the last are of whole seconds, as the full chunks of the RTP adapter are.
abbrev pub WholeSeconds : List AudioChunkEvent → Type 0
WholeSeconds [] = Unit
WholeSeconds (e ∷ []) = Unit
WholeSeconds (e ∷ g ∷ es) = (n : ℕ) × (e.chunk_duration_samples ≡ 16000 * n) × WholeSeconds (g ∷ es)

-- The buffer holds nothing, or it is bound to the call and its last chunk has the number before `n`, and ends at a
-- float with the property.
abbrev pub Holds : FloatMethods → String → String → ℕ → (ℕ → Type 0) → RollingAudioBuffer → Type 0
Holds t tenant call n P b =
    IsRolling t b
    × ((b.last_sequence ≡ none)
        ⊎ ((d : AudioChunkEvent) × OfCall tenant call d
            × Bound b d
            × (n ≡ d.sequence_number + 1)
            × (b.last_sequence ≡ some d.sequence_number)
            × (b.last_end_seconds ≡ some (event_end t d))
            × P (event_end t d)))

-- The buffer is ready for a chunk of the call with the number `n` that starts after `k` seconds.
abbrev pub Awaits : FloatMethods → String → String → ℕ → ℕ → RollingAudioBuffer → Type 0
Awaits t tenant call n k b = Holds t tenant call n (λ x. x ≤ t.divide (16000 * k) 16000) b

-- The last chunk put in is of the call and has the number before `n`.
abbrev pub Taken : FloatMethods → String → String → ℕ → RollingAudioBuffer → Type 0
Taken t tenant call n b = Holds t tenant call n (λ x. Unit) b

Awaits-Taken :
    (t : FloatMethods) (tenant call : String) (n k : ℕ) (b : RollingAudioBuffer)
    → Awaits t tenant call n k b
    → Taken t tenant call n b
Awaits-Taken t tenant call n k b (r, inl unbound) = (r, inl unbound)
Awaits-Taken t tenant call n k b (r, inr (d, own, bound, next, last, end, start)) =
    (r, inr (d, own, bound, next, last, end, tt))

start-eq :
    (t : FloatMethods) (e : AudioChunkEvent) (k : ℕ)
    → e.sample_rate_hz ≡ 16000
    → e.chunk_start_samples ≡ 16000 * k
    → chunk_start_seconds t e ≡ t.divide (16000 * k) 16000
start-eq t e k r s = rw (r, s) refl

awaited-Fits :
    (t : FloatMethods) (tenant call : String) (n k : ℕ) (b : RollingAudioBuffer)
    (e : AudioChunkEvent)
    → Awaits t tenant call n k b
    → OfCall tenant call e
    → e.sequence_number ≡ n
    → e.chunk_start_samples ≡ 16000 * k
    → Fits t b e
awaited-Fits t tenant call n k b e (w, inl unbound) own p q = inl unbound
awaited-Fits t tenant call n k b e (w, inr (d, other, bound, next, last, end, start)) own p q =
    inr (
      (cc, cc, cc, cc, cc),
      d.sequence_number,
      event_end t d,
      last,
      end,
      omega arith,
      omega (arith, start, start-eq t e k own.2 q),
    )

-- Whatever fits is put in, and is then the last chunk.
fed-Holds :
    (t : FloatMethods) (P : ℕ → Type 0) (tenant call : String) (b : RollingAudioBuffer)
    (e : AudioChunkEvent)
    → Grows t
    → IsRolling t b
    → KeepsWindow t b.window_seconds e
    → OfCall tenant call e
    → Fits t b e
    → P (event_end t e)
    → (c : RollingAudioBuffer) × (append t e b ≡ appended c)
      × (c.window_seconds ≡ b.window_seconds)
      × Holds t tenant call (e.sequence_number + 1) P c
fed-Holds t P tenant call b e grows rolling keeps own fits ends =
    elim ((append-Appends t b e grows rolling keeps).outcome) [
      | inr (misfit, _, _, _) ↦ absurd (misfit fits)
      | inl (_, c, h, v) ↦ (
        c,
        h,
        v.same_window,
        (v.rolling, inr (e, own, v.bound_to, refl, v.number_last, v.end_last, ends)),
      )
    ]

Timeline-le : (n t : ℕ) (es : List AudioChunkEvent) (m u : ℕ) → Timeline n t es m u → t ≤ u
Timeline-le n t [] m u (p, q) = omega (arith, q)
Timeline-le n t (e ∷ es) m u h =
    omega (arith, Timeline-le (n + 1) (t + e.chunk_duration_samples) es m u h.4)

-- A chunk of whole seconds ends where the next one starts.
whole-end :
    (t : FloatMethods) (e : AudioChunkEvent) (k n : ℕ)
    → IsExact t
    → e.sample_rate_hz ≡ 16000
    → e.chunk_start_samples ≡ 16000 * k
    → e.chunk_duration_samples ≡ 16000 * n
    → k + n ≤ 9007199254740992
    → event_end t e ≤ t.divide (16000 * (k + n)) 16000
whole-end t e k n exact r s d h =
    let same : event_end t e ≡ t.divide (16000 * (k + n)) 16000 = rw (r, s, d) (exact k n h) in
    omega (arith, same)

-- Where a sum of floats is no less than the first, and whole seconds up to 2^53 have exact sums: a buffer that awaits
-- the first of a timeline of chunks of the call, as the RTP adapter queues them, all but the last of whole seconds,
-- which start on a second and end by 2^53 seconds, and at whose ends the window does not vanish by rounding, takes them
-- all in, one after the other. Afterwards it holds chunks of the call up to the number before the next, or nothing.
pub Timeline-Feeds :
    (t : FloatMethods) (tenant call : String) (n k m u : ℕ) (es : List AudioChunkEvent)
    (b : RollingAudioBuffer)
    → Grows t
    → IsExact t
    → Awaits t tenant call n k b
    → All (OfCall tenant call) es
    → All (KeepsWindow t b.window_seconds) es
    → WholeSeconds es
    → u ≤ 16000 * 9007199254740992
    → Timeline n (16000 * k) es m u
    → (c : RollingAudioBuffer) × Feeds t b es c × Taken t tenant call m c
Timeline-Feeds t tenant call n k m u [] b grows exact a own keeps whole short (p, q) =
    (b, done, subst (λ j. Taken t tenant call j b) p (Awaits-Taken t tenant call n k b a))
Timeline-Feeds t tenant call n k m u (e ∷ []) b grows exact a own keeps whole short
      (number, start, _, _, (p, q)) =
    let (c, h, _, after) =
      fed-Holds t (λ x. Unit) tenant call b e grows a.0 keeps.0 own.0
        (awaited-Fits t tenant call n k b e a own.0 number start) tt in
    (c, then h done, subst (λ j. Taken t tenant call j c) (ap (λ j. j + 1) number ∙ p) after)
Timeline-Feeds t tenant call n k m u (e ∷ g ∷ es) b grows exact a own keeps (s, d, whole) short
      (number, start, some_samples, bytes, rest) =
    let from : Timeline (n + 1) (16000 * (k + s)) (g ∷ es) m u =
      subst (λ x. Timeline (n + 1) x (g ∷ es) m u) (ap (λ x. 16000 * k + x) d ∙ sum k s) rest in
    let bound : k + s ≤ 9007199254740992 =
      omega (arith, Timeline-le (n + 1) (16000 * (k + s)) (g ∷ es) m u from, short) in
    let (c, h, window, after) =
      fed-Holds t (λ x. x ≤ t.divide (16000 * (k + s)) 16000) tenant call b e grows a.0 keeps.0
        own.0 (awaited-Fits t tenant call n k b e a own.0 number start)
        (whole-end t e k s exact own.0.2 start d bound) in
    let (c', feeds, taken) =
      Timeline-Feeds t tenant call (n + 1) (k + s) m u (g ∷ es) c grows exact
        (subst (λ j. Awaits t tenant call (j + 1) (k + s) c) number after) own.1
        (subst (λ w. All (KeepsWindow t w) (g ∷ es)) (sym window) keeps.1) whole short from in
    (c', then h feeds, taken)
  where
    sum : (k s : ℕ) → 16000 * k + 16000 * s ≡ 16000 * (k + s)
    sum k s = omega arith
