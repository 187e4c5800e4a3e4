-- ===== src/Rtp/Invariant/Drain.antt =====
-- `_drain_contiguous`: each round takes the expected packet out and adds its audio; the loop ends
-- with the source sound, unless a packet's timestamp is wrong or the queue is full.
use cma_real_time_coaching.Prelude.{
  ℕ, suc, ◌+◌, ◌*◌, ◌%◌, ◌<◌, ◌≡◌, ◌≢◌, refl, sym, ap, subst, ◌∙◌, inl, inr, some, List, [], ◌∷◌,
  ◌++◌, length, All, arith, Bool-cases, ◌==◌, length-append, append_assoc, append-nil, nat_eq,
  nat_beq_iff, All-map, All-zip,
}
use cma_real_time_coaching.Prelude.Dict
use cma_real_time_coaching.Prelude.Dict.{
  Distinct, length-remove, get-remove-some, remove-Distinct, remove-All_ne, All-remove, All-get,
}
use cma_real_time_coaching.Rtp.Types.{
  RtpMediaPacket, ActiveRtpSource, RtpAdapterConfig, StartIsValid,
}
use cma_real_time_coaching.Rtp.Sequence.{
  advance_sequence, advance_timestamp, distance-advance, distance_pos, advance_sequence-bound,
  advance_sequence-mod, advance_timestamp-mod,
}
use cma_real_time_coaching.Rtp.G711.Payload.{packet_pcm}
use cma_real_time_coaching.Rtp.Source.{packet_audio, extend_with, pop_expected, deliver, emit_fuel}
use cma_real_time_coaching.Rtp.Invariant.{IsSound, Stored, Near, Ends, Ends-map}
use cma_real_time_coaching.Rtp.Invariant.Plays.{Hears, heard, Plays, or_silent}
use cma_real_time_coaching.Rtp.Invariant.Emit.{
  Emitted, Done, stream, queued_bytes, emit_complete_chunks-Ends,
}

-- What the buffer holds at the expected number: the packet itself, the rest of the buffer, and the
-- audio of the packet.
module _ (config : RtpAdapterConfig) (s : ActiveRtpSource) (v : IsSound config s)
    (p : RtpMediaPacket) (here : Dict.get s.expected_sequence_number s.packet_buffer ≡ some p) where
  own : Stored s.start (s.expected_sequence_number, p)
  own = All-get (Stored s.start) s.expected_sequence_number s.packet_buffer p v.stored here

  shorter : suc (length (pop_expected s).packet_buffer) ≡ length s.packet_buffer
  shorter = length-remove s.expected_sequence_number s.packet_buffer p here

  Near-step :
      (x : ℕ × RtpMediaPacket)
      → (Near config s.expected_sequence_number x × Stored s.start x)
        × (x.0 ≢ s.expected_sequence_number)
      → Near config (advance_sequence s.expected_sequence_number 1) x
  Near-step (k, q) ((near, stored), other) =
      let far =
        distance_pos k s.expected_sequence_number stored.1 v.accounts.sequence_bound other in
      omega (
        arith,
        distance-advance k s.expected_sequence_number 1 stored.1 v.accounts.sequence_bound far,
        near,
      )

  still-Near :
      All
        (Near config (advance_sequence s.expected_sequence_number 1))
        (pop_expected s).packet_buffer
  still-Near = All-map _ _ (pop_expected s).packet_buffer Near-step (
      All-zip _ _ _
        (All-zip _ _ _
          (All-remove (Near config s.expected_sequence_number) s.expected_sequence_number
            s.packet_buffer v.near)
          (All-remove (Stored s.start) s.expected_sequence_number s.packet_buffer v.stored))
        (remove-All_ne s.expected_sequence_number s.packet_buffer v.distinct))

  clock_after :
      advance_timestamp s.expected_rtp_timestamp (length p.payload)
      ≡ (s.start.initial_rtp_timestamp
          + s.decoded_input_sample_count
          + s.missing_sequence_count * s.start.media_format.samples_per_packet
          + length p.payload)
        % 4294967296
  clock_after = advance_timestamp-mod _ _ _ v.accounts.clock

  pub extend_with-IsSound :
      (audio : List ℕ)
      → length audio ≡ 4 * length p.payload
      → IsSound config (extend_with p audio (pop_expected s))
  extend_with-IsSound audio e = record {
    format = v.format;
    accounts = record {
      samples = omega (arith, v.accounts.samples, length-append s.pcm_buffer audio, e);
      clock = clock_after ∙ ap (λ (n : ℕ). n % 4294967296) (omega arith);
      packets = omega (
        arith,
        v.accounts.packets,
        ap (λ (n : ℕ). n * s.start.media_format.samples_per_packet) shorter,
        own.2,
      );
      sequence =
          advance_sequence-mod s.expected_sequence_number 1 (length (pop_expected s).packet_buffer)
          ∙ ap (λ (n : ℕ). n % 65536) (omega (arith, shorter))
          ∙ v.accounts.sequence;
      sequence_bound = advance_sequence-bound s.expected_sequence_number 1;
    };
    queue_bound = v.queue_bound;
    first_number = v.first_number;
    first_sample = v.first_sample;
    timeline = v.timeline;
    stored = All-remove (Stored s.start) s.expected_sequence_number s.packet_buffer v.stored;
    distinct = remove-Distinct s.expected_sequence_number s.packet_buffer v.distinct;
    near = still-Near;
  }

module _ (config : RtpAdapterConfig) where
  pub Emitted-IsSound :
      (s t : ActiveRtpSource) → IsSound config s → Emitted config s t → IsSound config t
  Emitted-IsSound s t v e = record {
    format = subst StartIsValid (sym p.same_start) v.format;
    accounts = record {
      samples =
          rw (p.same_start, p.same_missing, p.same_decoded) (v.accounts.samples ∙ sym e.byte_count);
      clock = rw (p.same_clock, p.same_start, p.same_missing, p.same_decoded) v.accounts.clock;
      packets =
          rw (p.same_start, p.same_buffer, p.same_accepted, p.same_decoded) v.accounts.packets;
      sequence =
          rw (p.same_expected, p.same_buffer, p.same_start, p.same_accepted, p.same_missing)
            v.accounts.sequence;
      sequence_bound = rw p.same_expected v.accounts.sequence_bound;
    };
    queue_bound = e.queue_bound;
    first_number = v.first_number;
    first_sample = v.first_sample;
    timeline = e.timeline v.first_number v.first_sample v.timeline;
    stored = rw (p.same_start, p.same_buffer) v.stored;
    distinct = rw p.same_buffer v.distinct;
    near = rw (p.same_expected, p.same_buffer) v.near;
  }
    where
      open e use {packets as p}

-- The packet that is expected, its audio and its timestamp.
module _ (config : RtpAdapterConfig) (s : ActiveRtpSource) (v : IsSound config s)
    (p : RtpMediaPacket) (here : Dict.get s.expected_sequence_number s.packet_buffer ≡ some p) where
  packet_audio_lem :
      (audio : List ℕ) × (packet_audio p ≡ some audio) × (length audio ≡ 4 * length p.payload)
  unfolding packet_audio
  packet_audio_lem =
      let own = own config s v p here in
      let (pcm, out, d, u, l, _) =
        packet_pcm p.codec p.payload own.3 (omega (arith, own.2, v.format.samples_min))
          (omega (arith, own.2, v.format.samples_max)) in
      (out, rw (d, packet_audio) u, l)

  -- What delivering the packet leaves: a sound source with one packet less.
  abbrev pub Delivered : ActiveRtpSource → Type 0
  Delivered t =
      IsSound config t
      × Plays config s t
      × (length t.pcm_buffer < 64000)
      × (suc (length t.packet_buffer) ≡ length s.packet_buffer)
      × Hears config s t

  Played :
      (audio : List ℕ) (t : ActiveRtpSource)
      → packet_audio p ≡ some audio
      → p.rtp_timestamp ≡ s.expected_rtp_timestamp
      → Emitted config (extend_with p audio (pop_expected s)) t
      → Hears config s t
  Played audio t heard_audio on_time e = record {
    plays = record {
      slots = heard p ∷ [];
      follows = (here, on_time, (sym e.packets.same_expected, sym e.packets.same_clock));
      output =
          e.same_stream
          ∙ sym (append_assoc (queued_bytes s.output_queue) s.pcm_buffer audio)
          ∙ ap (◌++◌ (stream s))
              (sym (append-nil audio) ∙ ap (λ x. or_silent x ++ []) (sym heard_audio));
      within = λ k q h.
          get-remove-some k s.expected_sequence_number s.packet_buffer q v.distinct
            (rw (← e.packets.same_buffer) h);
      same_start = e.packets.same_start;
      same_arrival = e.packets.same_arrival;
    };
    heard = tt;
  }

  delivered :
      (audio : List ℕ) (t : ActiveRtpSource)
      → packet_audio p ≡ some audio
      → length audio ≡ 4 * length p.payload
      → p.rtp_timestamp ≡ s.expected_rtp_timestamp
      → Emitted config (extend_with p audio (pop_expected s)) t
      → length t.pcm_buffer < 64000
      → Delivered t
  delivered audio t heard_audio l on_time e small = (
    Emitted-IsSound config (extend_with p audio (pop_expected s)) t
        (extend_with-IsSound config s v p here audio l) e,
    (Played audio t heard_audio on_time e).plays,
    small,
    rw e.packets.same_buffer (shorter config s v p here),
    Played audio t heard_audio on_time e,
  )

  pub deliver-Ends : Ends Delivered (deliver config p (pop_expected s))
  unfolding deliver
  deliver-Ends = elim (Bool-cases (p.rtp_timestamp == s.expected_rtp_timestamp)) [
    | inr wrong ↦ rw (wrong, deliver) (inr refl)
    | inl on_time ↦
        let (audio, e, l) = packet_audio_lem in
        let s' = extend_with p audio (pop_expected s) in
        rw (on_time, e, deliver)
          (Ends-map (Done config s') Delivered _
            (emit_complete_chunks-Ends config (emit_fuel s') s' (omega arith) v.queue_bound)
            (λ t (made, small). delivered audio t e l ((nat_beq_iff _ _).0 on_time) made small))
  ]
