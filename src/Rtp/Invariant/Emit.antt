-- ===== src/Rtp/Invariant/Emit.antt =====
-- `_queue_chunk` and `_emit_complete_chunks` keep the accounts, the bound of the queue and the
-- timeline; the loop ends with less than a chunk in the PCM buffer.
use cma_real_time_coaching.Prelude.{
  ℕ, zero, suc, ◌+◌, ◌*◌, ◌/◌, ◌≤◌, ◌<◌, ◌≡◌, refl, sym, ap, ◌∙◌, ◌⊎◌, inl, inr, List, [], ◌∷◌,
  ◌++◌, length, take, drop, arith, true, false, Bool-cases, leb, length-append, length-take_le,
  leb-true, leb-false, length-drop, take-append-drop, append_assoc, append-nil, is_empty,
  is_empty-true, is_empty-false,
}
use cma_real_time_coaching.Rtp.Types.{
  RtpIngressReason, AudioChunkEvent, ActiveRtpSource, RtpAdapterConfig, output_sample_rate_hz,
  continues, fails,
}
use cma_real_time_coaching.Rtp.Source.{
  and_then, queue_chunk, emit_complete_chunks, flush_final_chunk,
}
use cma_real_time_coaching.Rtp.Invariant.{Timeline, Timeline-snoc, Ends, Ends-and_then, Ends-map}

-- What the source has to say about the packets, which emitting does not touch.
pub record SamePackets (s t : ActiveRtpSource) : Type 0 where
  pub same_start : t.start ≡ s.start
  pub same_expected : t.expected_sequence_number ≡ s.expected_sequence_number
  pub same_clock : t.expected_rtp_timestamp ≡ s.expected_rtp_timestamp
  pub same_buffer : t.packet_buffer ≡ s.packet_buffer
  pub same_missing : t.missing_sequence_count ≡ s.missing_sequence_count
  pub same_decoded : t.decoded_input_sample_count ≡ s.decoded_input_sample_count
  pub same_accepted : t.accepted_packet_count ≡ s.accepted_packet_count
  pub same_arrival : t.last_arrival_monotonic_seconds ≡ s.last_arrival_monotonic_seconds
  pub same_gap : t.gap_started_monotonic_seconds ≡ s.gap_started_monotonic_seconds

-- The bytes of the queued chunks, in order.
abbrev pub queued_bytes : List AudioChunkEvent → List ℕ
queued_bytes [] = []
queued_bytes (c ∷ cs) = c.audio_bytes ++ queued_bytes cs

-- All audio that has been made and that nobody has drained.
abbrev pub stream : ActiveRtpSource → List ℕ
stream s = queued_bytes s.output_queue ++ s.pcm_buffer

pub queued_bytes-append :
    (cs ds : List AudioChunkEvent) → queued_bytes (cs ++ ds) ≡ queued_bytes cs ++ queued_bytes ds
queued_bytes-append [] ds = refl
queued_bytes-append (c ∷ cs) ds =
    ap (◌++◌ c.audio_bytes) (queued_bytes-append cs ds)
    ∙ sym (append_assoc c.audio_bytes (queued_bytes cs) (queued_bytes ds))

stream-snoc :
    (cs : List AudioChunkEvent) (c : AudioChunkEvent) (rest pcm : List ℕ)
    → c.audio_bytes ++ rest ≡ pcm
    → queued_bytes (cs ++ c ∷ []) ++ rest ≡ queued_bytes cs ++ pcm
stream-snoc cs c rest pcm e =
    simp (queued_bytes-append, append-nil, append_assoc) (ap (◌++◌ (queued_bytes cs)) e)

pub SamePackets-trans :
    {s t u : ActiveRtpSource} → SamePackets s t → SamePackets t u → SamePackets s u
SamePackets-trans a b = record {
  same_start = b.same_start ∙ a.same_start;
  same_expected = b.same_expected ∙ a.same_expected;
  same_clock = b.same_clock ∙ a.same_clock;
  same_buffer = b.same_buffer ∙ a.same_buffer;
  same_missing = b.same_missing ∙ a.same_missing;
  same_decoded = b.same_decoded ∙ a.same_decoded;
  same_accepted = b.same_accepted ∙ a.same_accepted;
  same_arrival = b.same_arrival ∙ a.same_arrival;
  same_gap = b.same_gap ∙ a.same_gap;
}

SamePackets-refl : (s : ActiveRtpSource) → SamePackets s s
SamePackets-refl s = record {
  same_start = refl;
  same_expected = refl;
  same_clock = refl;
  same_buffer = refl;
  same_missing = refl;
  same_decoded = refl;
  same_accepted = refl;
  same_arrival = refl;
  same_gap = refl;
}

module _ (config : RtpAdapterConfig) where
  -- A source that has emitted, next to the one before.
  pub record Emitted (s t : ActiveRtpSource) : Type 0 where
    pub packets : SamePackets s t
    pub same_stream : stream t ≡ stream s
    pub byte_count :
        2 * t.emitted_sample_count + length t.pcm_buffer
        ≡ 2 * s.emitted_sample_count + length s.pcm_buffer
    pub queue_bound : length t.output_queue ≤ config.max_output_chunks
    pub timeline :
        (n u : ℕ)
        → Timeline n u s.output_queue s.emitted_chunk_count s.emitted_sample_count
        → Timeline n u t.output_queue t.emitted_chunk_count t.emitted_sample_count

  -- The queue and the counters after a chunk has been added.
  abbrev pub with_chunk : List ℕ → ActiveRtpSource → ActiveRtpSource
  with_chunk payload t = record t {
    output_queue = t.output_queue ++ chunk ∷ [];
    emitted_sample_count = t.emitted_sample_count + length payload / 2;
    emitted_chunk_count = t.emitted_chunk_count + 1;
  }
    where
      chunk : AudioChunkEvent
      chunk = record {
        tenant_id = config.tenant_id;
        call_id = config.call_id;
        sequence_number = t.emitted_chunk_count;
        received_at_utc = t.latest_arrived_at_utc;
        chunk_start_samples = t.emitted_sample_count;
        chunk_duration_samples = length payload / 2;
        sample_rate_hz = output_sample_rate_hz;
        channel_count = 1;
        codec_name = "pcm_s16le";
        audio_bytes = payload;
      }

  -- The three ends of `_queue_chunk` on a payload of at least two bytes: a full queue, or a chunk more.
  pub queue_chunk_cases :
      (payload : List ℕ) (t : ActiveRtpSource)
      → 2 ≤ length payload
      → (queue_chunk config payload t ≡ (fails RtpIngressReason.output_queue_full, t))
        ⊎ ((length t.output_queue < config.max_output_chunks)
            × (queue_chunk config payload t ≡ (continues, with_chunk payload t)))
  unfolding queue_chunk
  queue_chunk_cases [] t h = absurd (omega arith)
  queue_chunk_cases (b ∷ bs) t h =
      elim (Bool-cases (leb config.max_output_chunks (length t.output_queue))) [
        | inl full ↦ inl (rw full)
        | inr room ↦ inr (ground arith, ground arith)
      ]

  abbrev with_rest : ActiveRtpSource → List ℕ → ActiveRtpSource
  with_rest s rest = record s { pcm_buffer = rest }

  -- An even, positive number of bytes off the front of the PCM buffer becomes a chunk.
  with_chunk-Emitted :
      (payload rest : List ℕ) (s : ActiveRtpSource) (half : ℕ)
      → length payload ≡ 2 * half
      → 1 ≤ half
      → payload ++ rest ≡ s.pcm_buffer
      → length s.output_queue < config.max_output_chunks
      → Emitted s (with_chunk payload (with_rest s rest))
  with_chunk-Emitted payload rest s half e h cut room = record {
    packets = record {
      same_start = refl;
      same_expected = refl;
      same_clock = refl;
      same_buffer = refl;
      same_missing = refl;
      same_decoded = refl;
      same_accepted = refl;
      same_arrival = refl;
      same_gap = refl;
    };
    same_stream = stream-snoc s.output_queue _ rest s.pcm_buffer cut;
    byte_count = omega (arith, ap length cut, length-append payload rest);
    queue_bound = omega (arith, length-append s.output_queue (_ ∷ []));
    timeline =
        λ n u h'. Timeline-snoc n u s.output_queue _ _ _ h' refl refl (omega arith) (omega arith);
  }

  Emitted-refl :
      (s : ActiveRtpSource) → length s.output_queue ≤ config.max_output_chunks → Emitted s s
  Emitted-refl s h = record {
    packets = SamePackets-refl s;
    same_stream = refl;
    byte_count = refl;
    queue_bound = h;
    timeline = λ n u k. k;
  }

  Emitted-trans : {s t u : ActiveRtpSource} → Emitted s t → Emitted t u → Emitted s u
  Emitted-trans a b = record {
    packets = SamePackets-trans a.packets b.packets;
    same_stream = b.same_stream ∙ a.same_stream;
    byte_count = b.byte_count ∙ a.byte_count;
    queue_bound = b.queue_bound;
    timeline = λ n u k. b.timeline n u (a.timeline n u k);
  }

  -- With one chunk taken off, and with less than a chunk left.
  abbrev Cut : ActiveRtpSource → ActiveRtpSource → Type 0
  Cut s t = Emitted s t × (length t.pcm_buffer + 64000 ≡ length s.pcm_buffer)

  abbrev pub Done : ActiveRtpSource → ActiveRtpSource → Type 0
  Done s t = Emitted s t × (length t.pcm_buffer < 64000)

  emit_small :
      (fuel : ℕ) (s : ActiveRtpSource)
      → leb 64000 (length s.pcm_buffer) ≡ false
      → emit_complete_chunks (suc fuel) config s ≡ (continues, s)
  unfolding emit_complete_chunks
  emit_small fuel s h = rw (h, emit_complete_chunks)

  emit_large :
      (fuel : ℕ) (s : ActiveRtpSource)
      → leb 64000 (length s.pcm_buffer) ≡ true
      → emit_complete_chunks (suc fuel) config s
        ≡ and_then
            (queue_chunk config (take 64000 s.pcm_buffer) (with_rest s (drop 64000 s.pcm_buffer)))
            (emit_complete_chunks fuel config)
  unfolding emit_complete_chunks
  emit_large fuel s h = rw (h, emit_complete_chunks)

  queue_first :
      (s : ActiveRtpSource)
      → leb 64000 (length s.pcm_buffer) ≡ true
      → Ends
          (Cut s)
          (queue_chunk config (take 64000 s.pcm_buffer) (with_rest s (drop 64000 s.pcm_buffer)))
  queue_first s large =
      let long : length (take 64000 s.pcm_buffer) ≡ 2 * 32000 =
        length-take_le 64000 s.pcm_buffer (leb-true 64000 _ large) in
      elim (queue_chunk_cases (take 64000 s.pcm_buffer) (with_rest s (drop 64000 s.pcm_buffer))
        (omega (arith, long))) [
          | inl full ↦ rw full (inl refl)
          | inr (room, made) ↦ rw made (
            with_chunk-Emitted (take 64000 s.pcm_buffer) (drop 64000 s.pcm_buffer) s 32000 long
                (omega arith) (take-append-drop 64000 s.pcm_buffer) room,
            omega (arith, length-drop 64000 s.pcm_buffer, leb-true 64000 _ large),
          )
        ]

  -- `_emit_complete_chunks` on a queue within its limit ends within a round for each whole chunk of
  -- audio and one more, and raises nothing. Its chunks follow those of the queue in number and time, the
  -- queue and the PCM buffer together hold the same bytes as before, less than a chunk is left in the
  -- buffer, and the queue is within its limit; or it fails for a full queue or a wrong timestamp.
  pub emit_complete_chunks-Ends :
      (fuel : ℕ) (s : ActiveRtpSource)
      → length s.pcm_buffer / 64000 < fuel
      → length s.output_queue ≤ config.max_output_chunks
      → Ends (Done s) (emit_complete_chunks fuel config s)
  emit_complete_chunks-Ends zero s h q = absurd (omega arith)
  emit_complete_chunks-Ends (suc fuel) s h q = elim (Bool-cases (leb 64000 (length s.pcm_buffer))) [
    | inr small ↦ rw (emit_small fuel s small) (Emitted-refl s q, leb-false 64000 _ small)
    | inl large ↦ rw (emit_large fuel s large) (
        Ends-and_then (Cut s) (Done s) _ _ (queue_first s large) (λ t (made, shorter).
          Ends-map (Done t) (Done s) _
            (emit_complete_chunks-Ends fuel t (omega (arith, leb-true 64000 _ large))
              made.queue_bound)
            (λ u (more, done). (Emitted-trans made more, done))))
  ]

  flush_empty :
      (s : ActiveRtpSource)
      → is_empty s.pcm_buffer ≡ true
      → flush_final_chunk config s ≡ (continues, s)
  unfolding flush_final_chunk
  flush_empty s e = rw e

  flush_rest :
      (s : ActiveRtpSource)
      → is_empty s.pcm_buffer ≡ false
      → flush_final_chunk config s ≡ queue_chunk config s.pcm_buffer (with_rest s [])
  unfolding flush_final_chunk
  flush_rest s e = rw e

  -- The last chunk, of what is left in the PCM buffer.
  pub flush_final_chunk-Ends :
      (s : ActiveRtpSource) (half : ℕ)
      → length s.pcm_buffer ≡ 2 * half
      → length s.output_queue ≤ config.max_output_chunks
      → Ends (λ t. Emitted s t × (t.pcm_buffer ≡ [])) (flush_final_chunk config s)
  flush_final_chunk-Ends s half e q = elim (Bool-cases (is_empty s.pcm_buffer)) [
    | inl nothing ↦
        rw (flush_empty s nothing) (Emitted-refl s q, is_empty-true s.pcm_buffer nothing)
    | inr rest ↦
        let two : 1 ≤ half = omega (arith, e, is_empty-false s.pcm_buffer rest) in
        elim (queue_chunk_cases s.pcm_buffer (with_rest s []) (omega (arith, e, two))) [
          | inl full ↦ rw (flush_rest s rest, full) (inl refl)
          | inr (room, made) ↦
              rw (flush_rest s rest, made)
                (
                  with_chunk-Emitted s.pcm_buffer [] s half e two (append-nil s.pcm_buffer) room,
                  refl,
                )
        ]
  ]
