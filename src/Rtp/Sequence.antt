-- ===== src/Rtp/Sequence.antt =====
-- Modular arithmetic of RTP sequence numbers and timestamps (`_sequence_distance`,
-- `_advance_sequence`, `_advance_timestamp`).
use cma_real_time_coaching.Prelude.{ℕ, ◌+◌, ◌-◌, ◌%◌, ◌≤◌, ◌<◌, ◌≡◌, ◌≢◌, arith}

-- Python's `%` of a negative number: the modulus is added first, as `expected` is below it.
unfoldable pub sequence_distance : ℕ → ℕ → ℕ
sequence_distance sequence expected = (sequence + 65536 - expected) % 65536

unfoldable pub advance_sequence : ℕ → ℕ → ℕ
advance_sequence sequence count = (sequence + count) % 65536

unfoldable pub advance_timestamp : ℕ → ℕ → ℕ
advance_timestamp timestamp samples = (timestamp + samples) % 4294967296

-- Advancing the expected number by its distance from a sequence number leads to that number, and the
-- distance from an advanced number is the count, for numbers and a count below 65536.
pub advance-distance :
    (sequence expected count : ℕ)
    → sequence < 65536
    → expected < 65536
    → count < 65536
    → (advance_sequence expected (sequence_distance sequence expected) ≡ sequence)
      × (sequence_distance (advance_sequence expected count) expected ≡ count)
unfolding sequence_distance advance_sequence
advance-distance sequence expected count a b c = (omega arith, omega arith)

-- Advancing past `count` numbers brings a packet that is further ahead closer by `count`.
pub distance-advance :
    (sequence expected count : ℕ)
    → sequence < 65536
    → expected < 65536
    → count ≤ sequence_distance sequence expected
    → sequence_distance sequence (advance_sequence expected count) + count
      ≡ sequence_distance sequence expected
unfolding sequence_distance advance_sequence
distance-advance sequence expected count a b h = omega arith

pub advance_sequence-bound : (expected count : ℕ) → advance_sequence expected count < 65536
unfolding advance_sequence
advance_sequence-bound expected count = omega arith

pub advance_sequence-mod :
    (expected count rest : ℕ)
    → (advance_sequence expected count + rest) % 65536 ≡ (expected + count + rest) % 65536
unfolding advance_sequence
advance_sequence-mod expected count rest = omega arith

pub advance_timestamp-mod :
    (timestamp total samples : ℕ)
    → timestamp ≡ total % 4294967296
    → advance_timestamp timestamp samples ≡ (total + samples) % 4294967296
unfolding advance_timestamp
advance_timestamp-mod timestamp total samples h = omega arith

pub distance_pos :
    (sequence expected : ℕ)
    → sequence < 65536
    → expected < 65536
    → sequence ≢ expected
    → 1 ≤ sequence_distance sequence expected
unfolding sequence_distance
distance_pos sequence expected a b h = omega arith
