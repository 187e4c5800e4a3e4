-- ===== src/Streaming/RollingBuffer/Append.antt =====
-- `append` of app/streaming/rolling_buffer.py, on every buffer and chunk.
use cma_real_time_coaching.Prelude.{
  ◌≤◌, ◌≡◌, refl, sym, subst, inl, inr, none, some, [], ◌∷◌, All-append, arith,
}
use cma_real_time_coaching.Rtp.Types.{AudioChunkEvent}
use cma_real_time_coaching.Streaming.RollingBuffer.{
  RollingAudioBuffer, FloatMethods, bind, store, append_after, append,
}
use cma_real_time_coaching.Streaming.RollingBuffer.Window.{
  Grows, KeepsWindow, Chain-snoc, Bound, Filled, IsRolling, Fits, Appends, store-Stores, Next,
  validate_next-decides,
}

module _ (t : FloatMethods) (grows : Grows t) (b : RollingAudioBuffer) (e : AudioChunkEvent)
    (some_window : 1 ≤ b.window_seconds) (keeps : KeepsWindow t b.window_seconds e) where
  -- The first chunk binds the buffer.
  append_first : b.events ≡ [] → b.last_sequence ≡ none → Appends t b e (append_after t none e b)
  unfolding append_after bind
  append_first empty unbound =
      let v =
        store-Stores t grows (bind e b) e some_window keeps (refl, refl, refl, refl, refl)
          (rw empty (refl, refl)) (rw empty ((refl, refl, refl, refl, refl), tt)) in
      record {
        outcome = inl (
          inl unbound,
          store t e (bind e b),
          refl,
          record {
            rolling = v.rolling;
            bound_to = v.bound_to;
            same_window = v.same_window;
            number_last = v.number_last;
            end_last = v.end_last;
            gone = v.gone;
            split = v.split;
            over = v.over;
          },
        );
      }

  -- A chunk that fits is the next one after the last.
  Fits-Next : (f : Filled t b) → Fits t b e → Next t b e f.number f.end
  Fits-Next f (inl unbound) = cc
  Fits-Next f (inr (bound, n, u, last, end, next, after)) =
      (bound, ground (arith, last, f.last_number, next), ground (arith, end, f.last_end, after))

  append_next : (f : Filled t b) → Appends t b e (append_after t (some f.number) e b)
  unfolding append_after
  append_next f = elim (validate_next-decides t f.number f.end b e f.last_end) [
    | inr (x, h, k, other) ↦
        rw (h, append_after)
          (record { outcome = inr ((λ fits. other (Fits-Next f fits)), x, refl, k) })
    | inl (h, (bound, next, after)) ↦
        rw (h, append_after)
          (record {
            outcome = inl (
              inr (bound, f.number, f.end, f.last_number, f.last_end, next, after),
              store t e b,
              refl,
              store-Stores t grows b e some_window keeps bound
                  (Chain-snoc t b.events e f.number f.end f.chain next after)
                  (All-append (Bound b) b.events (e ∷ []) f.bound (bound, tt)),
            );
          })
  ]

-- Where a sum of floats is no less than the first: `append`, on a buffer that is empty or holds the chunks in its
-- window in sequence, and for a chunk at whose end the window does not vanish by rounding, puts the chunk in exactly if
-- it fits: if it is the first, or if it has the buffer's call and format, the next number, and starts no earlier than
-- the last chunk ends, as floats. Then the buffer is again of that kind, and holds the old chunks and the new one in
-- order, less some at the front that end before the window. Any other chunk is refused with an error, and no assertion
-- fails.
pub append-Appends :
    (t : FloatMethods) (b : RollingAudioBuffer) (e : AudioChunkEvent)
    → Grows t
    → IsRolling t b
    → KeepsWindow t b.window_seconds e
    → Appends t b e (append t e b)
unfolding append
append-Appends t b e grows (w, inl (empty, unbound)) r =
    subst (λ o. Appends t b e (append_after t o e b)) (sym unbound)
      (append_first t grows b e w r empty unbound)
append-Appends t b e grows (w, inr f) r =
    subst (λ o. Appends t b e (append_after t o e b)) (sym f.last_number)
      (append_next t grows b e w r f)
