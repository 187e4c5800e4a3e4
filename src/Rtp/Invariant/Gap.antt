-- ===== src/Rtp/Invariant/Gap.antt =====
-- The part of `_expire_gap` that gives up on missing packets: the nearest packet lies within the
-- reorder window, silence stands in for the packets before it, and it is then the expected one.
use cma_real_time_coaching.Prelude.{
  ℕ, ◌+◌, ◌*◌, ◌%◌, ◌≤◌, ◌<◌, ◌≡◌, refl, sym, ap, ◌∙◌, inl, inr, some, List, [], ◌∷◌, ◌++◌, length,
  All, arith, true, false, Bool-cases, ◌==◌, ◌||◌, is_empty, length-append, length-replicate,
  append_assoc, append-nil, nat_eq, All-map, All-zip, ltb, if◌then◌else◌, replicate,
}
use cma_real_time_coaching.Prelude.Dict
use cma_real_time_coaching.Prelude.Dict.{
  Dict, Distinct, contains-get, length-remove, remove-Distinct, remove-All_ne, All-remove, All-get,
  keys_found, not_contains-All,
}
use cma_real_time_coaching.Rtp.Types.{RtpMediaPacket, ActiveRtpSource, RtpAdapterConfig, continues}
use cma_real_time_coaching.Rtp.Sequence.{
  sequence_distance, advance_sequence, distance-advance, advance-distance, distance_pos,
  advance_sequence-bound, advance_sequence-mod, advance_timestamp-mod,
}
use cma_real_time_coaching.Rtp.Source.{
  and_then, emit_complete_chunks, emit_fuel, nearest, nearest_key, fill_gap, skip_missing,
}
use cma_real_time_coaching.Rtp.Invariant.{IsSound, Near, GapNoted, Ends, Ends-and_then}
use cma_real_time_coaching.Rtp.Invariant.Plays.{lost}
use cma_real_time_coaching.Rtp.Invariant.Emit.{
  Done, stream, queued_bytes, emit_complete_chunks-Ends,
}
use cma_real_time_coaching.Rtp.Invariant.Drain.{Emitted-IsSound}
use cma_real_time_coaching.Rtp.Invariant.Contiguous.{Kept, with_gap, with_gap-Kept}

-- The search for the nearest packet: what holds of every key holds of the nearest.
module _ (Q : ℕ → Type 0) (expected : ℕ) where
  nearest-holds :
      (best : ℕ) (d : Dict ℕ RtpMediaPacket)
      → Q best
      → All (λ x. Q x.0) d
      → Q (nearest expected best d)
  unfolding nearest
  nearest-holds best [] q h = q
  nearest-holds best ((k, p) ∷ d) q h =
      elim (Bool-cases (ltb (sequence_distance k expected) (sequence_distance best expected))) [
        | inl closer ↦ rw closer (nearest-holds k d h.0 h.1)
        | inr farther ↦ rw farther (nearest-holds best d q h.1)
      ]

-- No key is nearer than the nearest.
nearest-le :
    (expected best : ℕ) (d : Dict ℕ RtpMediaPacket)
    → (sequence_distance (nearest expected best d) expected ≤ sequence_distance best expected)
      × All
          (λ x.
            sequence_distance (nearest expected best d) expected ≤ sequence_distance x.0 expected)
          d
unfolding nearest
nearest-le expected best [] = (omega arith, tt)
nearest-le expected best ((k, p) ∷ d) =
    let test = ltb (sequence_distance k expected) (sequence_distance best expected) in
    let b : ℕ = if test then k else best in
    let (x, y) = nearest-le expected b d in
    let (u, w) = pick_le in (omega (arith, x, u), (omega (arith, x, w), y))
  where
    pick_le :
        (sequence_distance
            (if ltb (sequence_distance k expected) (sequence_distance best expected)
              then k
              else best)
            expected
          ≤ sequence_distance best expected)
        × (sequence_distance
              (if ltb (sequence_distance k expected) (sequence_distance best expected)
                then k
                else best)
              expected
            ≤ sequence_distance k expected)
    pick_le = ground arith

-- A gap in front of the buffer: the expected packet is not there, and others are.
module _ (config : RtpAdapterConfig) (s : ActiveRtpSource) (v : IsSound config s)
    (missing_expected : Dict.contains s.expected_sequence_number s.packet_buffer ≡ false)
    (some_there : is_empty s.packet_buffer ≡ false) where
  abbrev gap_key : ℕ
  gap_key = nearest_key s.expected_sequence_number s.packet_buffer

  abbrev missing : ℕ
  missing = sequence_distance gap_key s.expected_sequence_number

  nearest_key-holds : (Q : ℕ → Type 0) → All (λ x. Q x.0) s.packet_buffer → Q gap_key
  nearest_key-holds Q h = go s.packet_buffer some_there h
    where
      go :
          (d : Dict ℕ RtpMediaPacket)
          → is_empty d ≡ false
          → All (λ x. Q x.0) d
          → Q (nearest_key s.expected_sequence_number d)
      go [] e a = absurd (ground arith)
      go ((k, p) ∷ d) e a = nearest-holds Q s.expected_sequence_number k d a.0 a.1

  gap_key_found : Dict.contains gap_key s.packet_buffer ≡ true
  gap_key_found =
      nearest_key-holds (λ k. Dict.contains k s.packet_buffer ≡ true) (keys_found s.packet_buffer)

  nearest_key-le :
      All (λ x. missing ≤ sequence_distance x.0 s.expected_sequence_number) s.packet_buffer
  nearest_key-le = go s.packet_buffer
    where
      go :
          (d : Dict ℕ RtpMediaPacket)
          → All
              (λ x.
                sequence_distance
                  (nearest_key s.expected_sequence_number d)
                  s.expected_sequence_number
                ≤ sequence_distance x.0 s.expected_sequence_number)
              d
      go [] = tt
      go ((k, p) ∷ d) = nearest-le s.expected_sequence_number k d

  gap_bounds : (gap_key < 65536) × (1 ≤ missing) × (missing ≤ config.max_reorder_packets)
  gap_bounds =
      nearest_key-holds
        (λ k.
          (k < 65536)
          × (1 ≤ sequence_distance k s.expected_sequence_number)
          × (sequence_distance k s.expected_sequence_number ≤ config.max_reorder_packets))
        (All-map _ _ s.packet_buffer
          (λ x ((near, stored), other). (
            stored.1,
            distance_pos x.0 s.expected_sequence_number stored.1 v.accounts.sequence_bound other,
            near,
          ))
          (All-zip _ _ _ (All-zip _ _ _ v.near v.stored)
            (not_contains-All s.expected_sequence_number s.packet_buffer missing_expected)))

  abbrev silent : ℕ
  silent = 0

  abbrev silence : List ℕ
  silence = replicate (2 * (missing * s.start.media_format.samples_per_packet * 2)) silent

  -- The sequence numbers after `missing` of them have been given up.
  later :
      (s.expected_sequence_number + missing + length s.packet_buffer) % 65536
      ≡ (s.start.initial_sequence_number
          + s.accepted_packet_count
          + (s.missing_sequence_count + missing))
        % 65536
  later = omega (arith, v.accounts.sequence)

  still-Near :
      All (Near config (advance_sequence s.expected_sequence_number missing)) s.packet_buffer
  still-Near =
      All-map _ _ s.packet_buffer
        (λ x ((near, stored), farther). omega (
          arith,
          near,
          distance-advance x.0 s.expected_sequence_number missing stored.1 v.accounts.sequence_bound
              farther,
        ))
        (All-zip _ _ _ (All-zip _ _ _ v.near v.stored) nearest_key-le)

  fill_gap-IsSound : IsSound config (fill_gap missing s)
  fill_gap-IsSound = record {
    format = v.format;
    accounts = record {
      samples = omega (
        arith,
        v.accounts.samples,
        length-append s.pcm_buffer silence,
        length-replicate {0} (2 * (missing * s.start.media_format.samples_per_packet * 2)) silent,
      );
      clock =
          advance_timestamp-mod _ _ _ v.accounts.clock
          ∙ ap (λ (n : ℕ). n % 4294967296) (omega arith);
      packets = v.accounts.packets;
      sequence =
          advance_sequence-mod s.expected_sequence_number missing (length s.packet_buffer) ∙ later;
      sequence_bound = advance_sequence-bound s.expected_sequence_number missing;
    };
    queue_bound = v.queue_bound;
    first_number = v.first_number;
    first_sample = v.first_sample;
    timeline = v.timeline;
    stored = v.stored;
    distinct = v.distinct;
    near = still-Near;
  }

  -- After the gap has been filled the nearest packet is the expected one.
  filled_expected :
      Dict.contains (advance_sequence s.expected_sequence_number missing) s.packet_buffer ≡ true
  filled_expected =
      rw
        (advance-distance gap_key s.expected_sequence_number 0 gap_bounds.0
          v.accounts.sequence_bound (omega arith)).0
        gap_key_found

  -- What skipping the missing packets leaves.
  pub record Skipped (t : ActiveRtpSource) : Type 0 where
    pub kept : Kept config 0 s t
    pub noted : GapNoted t
    pub found : Dict.contains t.expected_sequence_number t.packet_buffer ≡ true

  filled-Skipped :
      (now : ℕ) (t : ActiveRtpSource)
      → Done config (fill_gap missing s) t
      → Skipped (with_gap config (some now) t)
  filled-Skipped now t (e, small) = record {
    kept = with_gap-Kept config 0 (some now) s t (record {
      sound = Emitted-IsSound config (fill_gap missing s) t fill_gap-IsSound e;
      plays = record {
        slots = lost missing ∷ [];
        follows =
            (gap_bounds.1, gap_bounds.2, (sym e.packets.same_expected, sym e.packets.same_clock));
        output =
            e.same_stream
            ∙ sym (append_assoc (queued_bytes s.output_queue) s.pcm_buffer silence)
            ∙ ap (◌++◌ (stream s)) (sym (append-nil silence));
        within = λ k p h. rw (← e.packets.same_buffer) h;
        same_start = e.packets.same_start;
        same_arrival = e.packets.same_arrival;
      };
      small = small;
      fewer = rw e.packets.same_buffer (omega arith);
    });
    noted = inr (now, refl);
    found = rw (e.packets.same_expected, e.packets.same_buffer) filled_expected;
  }

  skip_missing-eq :
      (now : ℕ)
      → skip_missing config now s
        ≡ and_then
            (emit_complete_chunks (emit_fuel (fill_gap missing s)) config (fill_gap missing s))
            (λ t. (continues, with_gap config (some now) t))
  unfolding skip_missing
  skip_missing-eq now =
      let in_window : (missing == 0 || ltb config.max_reorder_packets missing) ≡ false =
        ground (arith, gap_bounds.1, gap_bounds.2) in
      rw (in_window, skip_missing)

  -- On a sound source whose buffer has packets but not the expected one, the rest of the loop of
  -- `_expire_gap` raises nothing and finds a gap of 1 to `max_reorder_packets` packets. It fills it with
  -- their silence, leaves the source sound, and then the expected packet is in the buffer; or it gives
  -- the source up for a full queue or a wrong timestamp.
  pub skip_missing-Ends : (now : ℕ) → Ends Skipped (skip_missing config now s)
  skip_missing-Ends now = rw (skip_missing-eq now) (
      Ends-and_then (Done config (fill_gap missing s)) Skipped _ _
        (emit_complete_chunks-Ends config (emit_fuel (fill_gap missing s)) (fill_gap missing s)
          (omega arith) v.queue_bound)
        (filled-Skipped now))
