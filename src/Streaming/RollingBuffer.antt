-- ===== src/Streaming/RollingBuffer.antt =====
-- `RollingAudioBuffer` of app/streaming/rolling_buffer.py. Its times are floats, whose arithmetic rounds: a float that
-- is not negative stands as its place in the order of the floats from 0.0 on, so that floats compare as numbers do, and
-- the operations on them are parameters. The seconds of a chunk are its samples divided by its rate, as the RTP adapter
-- computes them. The window is a whole number of seconds.
pub mod Window
pub mod Append
pub mod Feed
pub mod Span
use cma_real_time_coaching.Prelude.{
  ℕ, ◌+◌, Bool, false, not, Option, none, some, List, [], ◌∷◌, ◌++◌, String, ◌==◌, ltb, leb,
  opt_beq, if◌then◌else◌, nat_eq, string_eq,
}
use cma_real_time_coaching.Prelude.Int.{ℤ, pos, negsuc}
use cma_real_time_coaching.Rtp.Types.{AudioChunkEvent}

pub record RollingAudioBuffer : Type 0 where
  pub window_seconds : ℕ
  pub events : List AudioChunkEvent
  pub tenant_id : Option String
  pub call_id : Option String
  pub sample_rate_hz : Option ℕ
  pub channel_count : Option ℕ
  pub codec_name : Option String
  pub last_sequence : Option ℕ
  pub last_end_seconds : Option ℕ

-- Division of whole numbers, and the sum and the difference of floats that are not negative; a negative difference is
-- a negative place.
pub record FloatMethods : Type 0 where
  pub divide : ℕ → ℕ → ℕ
  pub plus : ℕ → ℕ → ℕ
  pub minus : ℕ → ℕ → ℤ

-- float <= float, where the second may be negative
abbrev pub at_most : ℕ → ℤ → Bool
at_most x (pos y) = leb x y
at_most x (negsuc y) = false

-- The exceptions of `append`: `ValueError` with one of its texts, or a failed `assert`.
pub data AppendError : Type 0 where
  tenant_mismatch call_mismatch sample_rate_mismatch channel_count_mismatch : AppendError
  codec_mismatch sequence_mismatch overlapping assertion_failed : AppendError

pub data Appended : Type 0 where
  appended : RollingAudioBuffer → Appended
  refused : AppendError → Appended

-- `__init__`
unfoldable pub create : ℕ → Option RollingAudioBuffer
create window_seconds =
    if window_seconds == 0
    then none
    else some (record {
      window_seconds = window_seconds;
      events = [];
      tenant_id = none;
      call_id = none;
      sample_rate_hz = none;
      channel_count = none;
      codec_name = none;
      last_sequence = none;
      last_end_seconds = none;
    })

-- `chunk_start_seconds` and `chunk_duration_seconds` of a chunk
abbrev pub chunk_start_seconds : FloatMethods → AudioChunkEvent → ℕ
chunk_start_seconds m e = m.divide e.chunk_start_samples e.sample_rate_hz

abbrev pub chunk_duration_seconds : FloatMethods → AudioChunkEvent → ℕ
chunk_duration_seconds m e = m.divide e.chunk_duration_samples e.sample_rate_hz

-- `_event_end`
abbrev pub event_end : FloatMethods → AudioChunkEvent → ℕ
event_end m e = m.plus (chunk_start_seconds m e) (chunk_duration_seconds m e)

-- `_bind`
unfoldable pub bind : AudioChunkEvent → RollingAudioBuffer → RollingAudioBuffer
bind e b = record b {
  tenant_id = some e.tenant_id;
  call_id = some e.call_id;
  sample_rate_hz = some e.sample_rate_hz;
  channel_count = some e.channel_count;
  codec_name = some e.codec_name;
}

-- `_validate_binding`
unfoldable pub validate_binding : AudioChunkEvent → RollingAudioBuffer → Option AppendError
validate_binding e b =
    if not (opt_beq (some e.tenant_id) b.tenant_id)
    then some AppendError.tenant_mismatch
    else if not (opt_beq (some e.call_id) b.call_id)
    then some AppendError.call_mismatch
    else if not (opt_beq (some e.sample_rate_hz) b.sample_rate_hz)
    then some AppendError.sample_rate_mismatch
    else if not (opt_beq (some e.channel_count) b.channel_count)
    then some AppendError.channel_count_mismatch
    else if not (opt_beq (some e.codec_name) b.codec_name)
    then some AppendError.codec_mismatch
    else none

-- The checks of `append` on a buffer that is bound.
unfoldable pub validate_next :
    FloatMethods → ℕ → AudioChunkEvent → RollingAudioBuffer → Option AppendError
unfolding validate_binding
validate_next m last e b = elim (validate_binding e b) [
  | some error ↦ some error
  | none ↦
      if not (e.sequence_number == last + 1)
      then some AppendError.sequence_mismatch
      else elim b.last_end_seconds [
        | none ↦ some AppendError.assertion_failed
        | some end ↦
            if ltb (chunk_start_seconds m e) end then some AppendError.overlapping else none
      ]
]

-- `self._last_end_seconds - self.window_seconds`, of a last end
abbrev pub cutoff : FloatMethods → ℕ → ℕ → ℤ
cutoff m window_seconds last_end = m.minus last_end (m.divide window_seconds 1)

-- The loop of `_evict_old_events`
unfoldable pub evict : FloatMethods → ℤ → List AudioChunkEvent → List AudioChunkEvent
evict m cut [] = []
evict m cut (e ∷ es) =
    let rest = evict m cut es in if at_most (event_end m e) cut then rest else e ∷ es

-- The end of `append`, `_evict_old_events` included.
unfoldable pub store : FloatMethods → AudioChunkEvent → RollingAudioBuffer → RollingAudioBuffer
unfolding evict
store m e b = record b {
  events = evict m (cutoff m b.window_seconds (event_end m e)) (b.events ++ e ∷ []);
  last_sequence = some e.sequence_number;
  last_end_seconds = some (event_end m e);
}

unfoldable pub append_after :
    FloatMethods → Option ℕ → AudioChunkEvent → RollingAudioBuffer → Appended
unfolding bind store validate_next
append_after m none e b = appended (store m e (bind e b))
append_after m (some last) e b = elim (validate_next m last e b) [
  | some error ↦ refused error
  | none ↦ appended (store m e b)
]

unfoldable pub append : FloatMethods → AudioChunkEvent → RollingAudioBuffer → Appended
unfolding append_after
append m e b = append_after m b.last_sequence e b

unfoldable pub clear : RollingAudioBuffer → RollingAudioBuffer
clear b = record b {
  events = [];
  tenant_id = none;
  call_id = none;
  sample_rate_hz = none;
  channel_count = none;
  codec_name = none;
  last_sequence = none;
  last_end_seconds = none;
}

-- `self._events[0]` and `self._events[-1]`
abbrev pub first_event : List AudioChunkEvent → Option AudioChunkEvent
first_event [] = none
first_event (e ∷ es) = some e

abbrev pub last_event : List AudioChunkEvent → Option AudioChunkEvent
last_event [] = none
last_event (e ∷ []) = some e
last_event (e ∷ f ∷ es) = last_event (f ∷ es)

abbrev pub map_event : (AudioChunkEvent → ℕ) → Option AudioChunkEvent → Option ℕ
map_event f none = none
map_event f (some e) = some (f e)

-- The properties `start_seconds`, `end_seconds`, `first_sequence`, `last_sequence` and
-- `duration_seconds`.
abbrev pub start_seconds : FloatMethods → RollingAudioBuffer → Option ℕ
start_seconds m b = map_event (chunk_start_seconds m) (first_event b.events)

abbrev pub end_seconds : FloatMethods → RollingAudioBuffer → Option ℕ
end_seconds m b = map_event (event_end m) (last_event b.events)

abbrev pub first_sequence : RollingAudioBuffer → Option ℕ
first_sequence b = map_event (λ e. e.sequence_number) (first_event b.events)

abbrev pub last_sequence_held : RollingAudioBuffer → Option ℕ
last_sequence_held b = map_event (λ e. e.sequence_number) (last_event b.events)

abbrev pub difference : FloatMethods → Option ℕ → Option ℕ → Option ℤ
difference m (some end) (some start) = some (m.minus end start)
difference m _ _ = none

abbrev pub duration_seconds : FloatMethods → RollingAudioBuffer → Option ℤ
duration_seconds m b = difference m (end_seconds m b) (start_seconds m b)
