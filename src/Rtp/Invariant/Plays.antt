-- ===== src/Rtp/Invariant/Plays.antt =====
-- The audio that a source puts out, as an abstract sequence of slots: packets in the order of their
-- sequence numbers and timestamps, and silence for those that were lost.
use cma_real_time_coaching.Prelude.{
  ℕ, ◌*◌, ◌≤◌, ◌≡◌, refl, sym, ap, subst, ◌∙◌, Option, some, none, List, [], ◌∷◌, ◌++◌, length,
  replicate, append_assoc, append-nil, nat_eq,
}
use cma_real_time_coaching.Prelude.Dict
use cma_real_time_coaching.Prelude.Dict.{Dict}
use cma_real_time_coaching.Rtp.Types.{
  RtpMediaPacket, RtpMediaStart, ActiveRtpSource, RtpAdapterConfig,
}
use cma_real_time_coaching.Rtp.Sequence.{advance_sequence, advance_timestamp}
use cma_real_time_coaching.Rtp.Source.{packet_audio}
use cma_real_time_coaching.Rtp.Invariant.Emit.{stream}

pub data Slot : Type 0 where
  heard : RtpMediaPacket → Slot
  lost : ℕ → Slot

-- Packets only, no silence.
abbrev pub AllHeard : List Slot → Type 0
AllHeard [] = Unit
AllHeard (heard p ∷ rest) = AllHeard rest
AllHeard (lost n ∷ rest) = ⊥

AllHeard-append : (xs ys : List Slot) → AllHeard xs → AllHeard ys → AllHeard (xs ++ ys)
AllHeard-append [] ys a b = b
AllHeard-append (heard p ∷ xs) ys a b = AllHeard-append xs ys a b
AllHeard-append (lost n ∷ xs) ys a b = absurd a

abbrev pub or_silent : Option (List ℕ) → List ℕ
or_silent none = []
or_silent (some audio) = audio

-- The bytes of the slots, where a packet stands for `samples` input samples.
abbrev pub render : ℕ → List Slot → List ℕ
render samples [] = []
render samples (heard p ∷ rest) = or_silent (packet_audio p) ++ render samples rest
render samples (lost n ∷ rest) = replicate (2 * (n * samples * 2)) 0 ++ render samples rest

-- The slots lead from the sequence number `e` and the timestamp `t` to `f` and `u`: each packet is
-- in the buffer under the number expected there, and carries the timestamp expected there; a loss
-- is of 1 to `most` packets.
abbrev pub Follows : Dict ℕ RtpMediaPacket → ℕ → ℕ → ℕ → ℕ → List Slot → ℕ → ℕ → Type 0
Follows d samples most e t [] f u = (e ≡ f) × (t ≡ u)
Follows d samples most e t (heard p ∷ rest) f u =
    (Dict.get e d ≡ some p)
    × (p.rtp_timestamp ≡ t)
    × Follows d samples most (advance_sequence e 1) (advance_timestamp t (length p.payload)) rest f
        u
Follows d samples most e t (lost n ∷ rest) f u =
    (1 ≤ n)
    × (n ≤ most)
    × Follows d samples most (advance_sequence e n) (advance_timestamp t (n * samples)) rest f u

-- Everything in `c` is in `d` too.
abbrev pub Within : Dict ℕ RtpMediaPacket → Dict ℕ RtpMediaPacket → Type 0
Within c d = (k : ℕ) (p : RtpMediaPacket) → Dict.get k c ≡ some p → Dict.get k d ≡ some p

Follows-append :
    (c d : Dict ℕ RtpMediaPacket) (samples most : ℕ) (e t : ℕ) (xs : List Slot) (f u : ℕ)
    (ys : List Slot) (g w : ℕ)
    → Within c d
    → Follows d samples most e t xs f u
    → Follows c samples most f u ys g w
    → Follows d samples most e t (xs ++ ys) g w
Follows-append c d samples most e t [] f u [] g w h (p, q) (r, s) = (p ∙ r, q ∙ s)
Follows-append c d samples most e t [] f u (heard y ∷ ys) g w h (p, q) k = (
  h e y (rw p k.0),
  k.1 ∙ sym q,
  Follows-append c d samples most (advance_sequence e 1) (advance_timestamp t (length y.payload)) []
      (advance_sequence f 1) (advance_timestamp u (length y.payload)) ys g w h
      (ap (λ x. advance_sequence x 1) p, ap (λ x. advance_timestamp x (length y.payload)) q) k.2,
)
Follows-append c d samples most e t [] f u (lost n ∷ ys) g w h (p, q) k = (
  k.0,
  k.1,
  Follows-append c d samples most (advance_sequence e n) (advance_timestamp t (n * samples)) []
      (advance_sequence f n) (advance_timestamp u (n * samples)) ys g w h
      (ap (λ x. advance_sequence x n) p, ap (λ x. advance_timestamp x (n * samples)) q) k.2,
)
Follows-append c d samples most e t (heard p ∷ xs) f u ys g w h j k = (
  j.0,
  j.1,
  Follows-append c d samples most (advance_sequence e 1) (advance_timestamp t (length p.payload)) xs
      f u ys g w h j.2 k,
)
Follows-append c d samples most e t (lost n ∷ xs) f u ys g w h j k = (
  j.0,
  j.1,
  Follows-append c d samples most (advance_sequence e n) (advance_timestamp t (n * samples)) xs f u
      ys g w h j.2 k,
)

render-append : (n : ℕ) (xs ys : List Slot) → render n (xs ++ ys) ≡ render n xs ++ render n ys
render-append n [] ys = refl
render-append n (heard p ∷ xs) ys =
    ap (◌++◌ (or_silent (packet_audio p))) (render-append n xs ys)
    ∙ sym (append_assoc (or_silent (packet_audio p)) (render n xs) (render n ys))
render-append n (lost m ∷ xs) ys =
    ap (◌++◌ (replicate (2 * (m * n * 2)) 0)) (render-append n xs ys)
    ∙ sym (append_assoc (replicate (2 * (m * n * 2)) 0) (render n xs) (render n ys))

abbrev pub samples_of_packet : ActiveRtpSource → ℕ
samples_of_packet s = s.start.media_format.samples_per_packet

-- The method has put out the slots, in order, after what was there, and has added no packet.
pub record Plays (config : RtpAdapterConfig) (s t : ActiveRtpSource) : Type 0 where
  pub slots : List Slot
  pub follows :
      Follows s.packet_buffer
        (samples_of_packet s)
        config.max_reorder_packets
        s.expected_sequence_number
        s.expected_rtp_timestamp
        slots
        t.expected_sequence_number
        t.expected_rtp_timestamp
  pub output : stream t ≡ stream s ++ render (samples_of_packet s) slots
  pub within : Within t.packet_buffer s.packet_buffer
  pub same_start : t.start ≡ s.start
  pub same_arrival : t.last_arrival_monotonic_seconds ≡ s.last_arrival_monotonic_seconds

-- What the method has put out are packets, no silence.
pub record Hears (config : RtpAdapterConfig) (s t : ActiveRtpSource) : Type 0 where
  pub plays : Plays config s t
  pub heard : AllHeard plays.slots

module _ (config : RtpAdapterConfig) where
  pub Plays-refl : (s : ActiveRtpSource) → Plays config s s
  Plays-refl s = record {
    slots = [];
    follows = (refl, refl);
    output = sym (append-nil (stream s));
    within = λ k p h. h;
    same_start = refl;
    same_arrival = refl;
  }

  -- The method has put out these slots.
  abbrev PlaysSlots : ActiveRtpSource → ActiveRtpSource → List Slot → Type 0
  PlaysSlots s t xs = (plays : Plays config s t) × (plays.slots ≡ xs)

  joined :
      (s t u : ActiveRtpSource) (a : Plays config s t) (b : Plays config t u)
      → PlaysSlots s u (a.slots ++ b.slots)
  joined s t u a b = (
    record {
      slots = a.slots ++ b.slots;
      follows =
          Follows-append t.packet_buffer s.packet_buffer (samples_of_packet s)
            config.max_reorder_packets _ _ a.slots _ _ b.slots _ _ a.within a.follows
            (rw (← a.same_start) b.follows);
      output =
          b.output
          ∙ ap (λ x. x ++ render (samples_of_packet t) b.slots) a.output
          ∙ ap
              (λ (c : RtpMediaStart).
                (stream s ++ render (samples_of_packet s) a.slots)
                ++ render c.media_format.samples_per_packet b.slots)
              a.same_start
          ∙ append_assoc (stream s) _ _
          ∙ ap (◌++◌ (stream s)) (sym (render-append (samples_of_packet s) a.slots b.slots));
      within = λ k p h. a.within k p (b.within k p h);
      same_start = b.same_start ∙ a.same_start;
      same_arrival = b.same_arrival ∙ a.same_arrival;
    },
    refl,
  )

  pub Plays-trans :
      (s t u : ActiveRtpSource) → Plays config s t → Plays config t u → Plays config s u
  Plays-trans s t u a b = (joined s t u a b).0

  pub Hears-trans :
      (s t u : ActiveRtpSource) → Hears config s t → Hears config t u → Hears config s u
  Hears-trans s t u a b =
      let (plays, e) = joined s t u a.plays b.plays in
      record {
        plays = plays;
        heard =
            subst AllHeard (sym e) (AllHeard-append a.plays.slots b.plays.slots a.heard b.heard);
      }

  -- Only the start of the gap is another.
  pub Hears-refl :
      (s : ActiveRtpSource) (g : Option ℕ)
      → Hears config s (record s { gap_started_monotonic_seconds = g })
  Hears-refl s g = record {
    plays = record {
      slots = [];
      follows = (refl, refl);
      output = sym (append-nil (stream s));
      within = λ k p h. h;
      same_start = refl;
      same_arrival = refl;
    };
    heard = tt;
  }
