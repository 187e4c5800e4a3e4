-- ===== src/Streaming/AudioWindow/Build.antt =====
-- The window of `AudioWindowBuilder.build` (app/streaming/audio_window.py): the last frames of the chunks, no more
-- than fit in the window, and the chunk that has the first of them.
use native.Mathlib.Nat.{div-add-mod', mul-div_cancel, add-mul}
use cma_real_time_coaching.Prelude.{
  ℕ, ◌+◌, ◌-◌, ◌*◌, ◌/◌, ◌%◌, ◌≤◌, ◌<◌, ◌≡◌, refl, ap, sym, subst, ◌∙◌, false, Bool-cases, inl, inr,
  Option-cases, List, [], ◌∷◌, ◌++◌, String, ◌==◌, ltb, ltb-true, ltb-false, nat_eq, string_eq,
  length, length-append, length-drop, drop, take, take-append-drop, arith,
}
use cma_real_time_coaching.Rtp.Types.{AudioChunkEvent}
use cma_real_time_coaching.Streaming.AudioWindow.{
  AsrAudioWindow, Built, canonical_audio_codec_name, frame_size_of, frames_of, any_incomplete,
  join_bytes, smaller, first_sequence_from, available_frames, retained_frames, window_of,
  build_from,
}

-- Chunks numbered from `n` on, without a gap.
abbrev pub NumberedFrom : ℕ → List AudioChunkEvent → Type 0
NumberedFrom n [] = Unit
NumberedFrom n (e ∷ es) = (e.sequence_number ≡ n) × NumberedFrom (n + 1) es

-- The frames of all chunks.
unfoldable pub total_frames : ℕ → List AudioChunkEvent → ℕ
total_frames frame_size [] = 0
total_frames frame_size (e ∷ es) = frames_of frame_size e + total_frames frame_size es

-- Frame number `k` of the chunks, from 0 on, is in the chunk with the sequence number.
abbrev pub Holds : ℕ → List AudioChunkEvent → ℕ → ℕ → Type 0
Holds frame_size es k number =
    (before : List AudioChunkEvent) × (e : AudioChunkEvent) × (after : List AudioChunkEvent) × (es
      ≡ before ++ e ∷ after)
    × (e.sequence_number ≡ number)
    × (total_frames frame_size before ≤ k)
    × (k < total_frames frame_size before + frames_of frame_size e)

first_sequence_from-Holds :
    (f k n : ℕ) (es : List AudioChunkEvent)
    → NumberedFrom n es
    → k < total_frames f es
    → Holds f es k (first_sequence_from f k n es)
unfolding first_sequence_from total_frames
first_sequence_from-Holds f k n [] c h = absurd (omega (arith, h))
first_sequence_from-Holds f k n (e ∷ es) c h = elim (Bool-cases (ltb k (frames_of f e))) [
  | inl here ↦
      rw (here, first_sequence_from)
        ([], e, es, refl, c.0, omega arith, omega (arith, ltb-true k (frames_of f e) here))
  | inr later ↦
      let m = ltb-false k (frames_of f e) later in
      let (before, g, after, p, q, low, high) =
        first_sequence_from-Holds f (k - frames_of f e) (e.sequence_number + 1) es
          (subst (λ x. NumberedFrom (x + 1) es) (sym c.0) c.1) (omega (arith, h, m)) in
      rw (later, first_sequence_from)
        (e ∷ before, g, after, ap (◌∷◌ e) p, q, omega (arith, low, m), omega (arith, high, m))
]

-- Bytes in whole frames.
length-join_bytes :
    (f : ℕ) (es : List AudioChunkEvent)
    → any_incomplete f es ≡ false
    → length (join_bytes es) ≡ total_frames f es * f
unfolding any_incomplete join_bytes total_frames
length-join_bytes f [] h = omega arith
length-join_bytes f (e ∷ es) h =
    let rest = length-join_bytes f es (ground (arith, h)) in
    let whole : length e.audio_bytes % f ≡ 0 = ground (arith, h) in
    let q = div-add-mod' (length e.audio_bytes) f in
    let sum = add-mul (frames_of f e) (total_frames f es) f in
    omega (arith, length-append e.audio_bytes (join_bytes es), rest, whole, q, sum)

drop-front : (n : ℕ) (xs : List ℕ) → (front : List ℕ) × (xs ≡ front ++ drop n xs)
drop-front n xs = (take n xs, sym (take-append-drop n xs))

-- What `build` promises of a window: PCM audio, whose bytes are the last of the chunks' bytes and are the retained
-- frames; these are as many as there are, or as fit.
pub record Promises (window_seconds : ℕ) (first : AudioChunkEvent) (events : List AudioChunkEvent)
    (a : AsrAudioWindow) : Type 0 where
  pub codec : a.codec_name ≡ "pcm_s16le"
  pub retained :
      a.duration_samples
      ≡ smaller (total_frames (frame_size_of first) events) (window_seconds * first.sample_rate_hz)
  pub size : length a.pcm_bytes ≡ a.duration_samples * frame_size_of first
  pub suffix : (front : List ℕ) × (join_bytes events ≡ front ++ a.pcm_bytes)
  pub first_frame :
      NumberedFrom first.sequence_number events
      → 1 ≤ a.duration_samples
      → Holds
          (frame_size_of first)
          events
          (total_frames (frame_size_of first) events - a.duration_samples)
          a.first_sequence

module _ (w : ℕ) (first : AudioChunkEvent) (others : List AudioChunkEvent)
    (some_channel : 1 ≤ first.channel_count)
    (complete : any_incomplete (frame_size_of first) (first ∷ others) ≡ false) where
  available-total :
      available_frames first (first ∷ others) ≡ total_frames (frame_size_of first) (first ∷ others)
  available-total =
      ap (λ x. x / frame_size_of first)
        (length-join_bytes (frame_size_of first) (first ∷ others) complete)
      ∙ mul-div_cancel (total_frames (frame_size_of first) (first ∷ others))
          (omega (arith, some_channel))

  smaller_le : (a b : ℕ) → smaller a b ≤ a
  smaller_le a b = ground arith

  window_of-Promises : Promises w first (first ∷ others) (window_of w "pcm_s16le" first others)
  unfolding window_of
  window_of-Promises =
      let f = frame_size_of first in
      let events = first ∷ others in
      let a = available_frames first events in
      let r = retained_frames w first events in
      let l = length-drop ((a - r) * f) (join_bytes events) in
      let b = length-join_bytes f events complete in
      let less = smaller_le a (w * first.sample_rate_hz) in
      let parts : a ≡ a - r + r = omega (arith, less) in
      let bytes : length (join_bytes events) ≡ a * f = b ∙ ap (λ x. x * f) (sym available-total) in
      record {
        codec = refl;
        retained = ap (λ x. smaller x (w * first.sample_rate_hz)) available-total;
        size = omega (arith, l, bytes, add-mul (a - r) r f, ap (λ x. x * f) parts);
        suffix = drop-front ((a - r) * f) (join_bytes events);
        first_frame = λ numbered some_frame.
            subst
              (λ x.
                Holds f events (x - r) (first_sequence_from f (a - r) first.sequence_number events))
              available-total
              (first_sequence_from-Holds f (a - r) first.sequence_number events numbered
                (omega (arith, available-total, some_frame, less)));
      }

-- Of chunks with at least one channel, a window that `build` makes is PCM audio, its bytes are the last of the
-- chunks' bytes and are the retained frames, which are all or as many as fit, and, if the chunks are numbered
-- without a gap and some frame is retained, its first sequence number is that of the chunk with its first frame.
pub build_from-Promises :
    (strip : String → String) (w : ℕ) (first : AudioChunkEvent) (others : List AudioChunkEvent)
    (a : AsrAudioWindow)
    → 1 ≤ first.channel_count
    → build_from strip w (first ∷ others) ≡ Built.built a
    → Promises w first (first ∷ others) a
unfolding build_from
build_from-Promises strip w first others a h e =
    elim (Option-cases (canonical_audio_codec_name strip first.codec_name)) [
      | inl blank ↦ absurd (ground (arith, e, blank))
      | inr (codec, q) ↦ elim (Bool-cases (codec == "pcm_s16le")) [
        | inr other ↦ absurd (ground (arith, e, q, other))
        | inl pcm ↦ elim (Bool-cases (any_incomplete (frame_size_of first) (first ∷ others))) [
          | inl broken ↦ absurd (ground (arith, e, q, pcm, broken))
          | inr complete ↦
              let same : window_of w codec first others ≡ a = ground (arith, e, q, pcm, complete) in
              subst (Promises w first (first ∷ others)) same (
                subst (λ x. Promises w first (first ∷ others) (window_of w x first others))
                  (sym ((string_eq.beq_iff codec "pcm_s16le").0 pcm))
                  (window_of-Promises w first others h complete))
        ]
      ]
    ]
