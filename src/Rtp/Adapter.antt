-- ===== src/Rtp/Adapter.antt =====
-- `RTPMediaIngressAdapter` of app/audio_ingress/rtp.py: its methods, as functions from the adapter
-- to a reply and the adapter as it then is. SHA-256 is a parameter, as is `str.strip`.
use cma_real_time_coaching.Prelude.{
  ℕ, ◌+◌, Bool, true, false, not, ◌||◌, Option, none, some, [], ◌==◌, leb, if◌then◌else◌, length,
  nat_eq, string_eq, String, list_eq,
}
use cma_real_time_coaching.Rtp.Types.{
  RtpIngressStatus, RtpIngressReason, RtpMediaStart, ScopedRtpControl, ActiveRtpSource,
  RtpAdapterConfig, RtpMediaIngressAdapter, RtpIngressDiagnostics, Reply, replies, start_beq,
}

-- `__init__`, over `str.strip`; the limit on waiting is a count of ticks, so it is finite and not
-- negative.
unfoldable pub new : (String → String) → RtpAdapterConfig → Option RtpMediaIngressAdapter
new strip c =
    if strip c.tenant_id == "" || strip c.call_id == ""
    then none
    else if c.max_reorder_packets == 0
        || leb 32768 c.max_reorder_packets
        || c.max_output_chunks == 0
        || c.duplicate_history_limit == 0
    then none
    else some (record {
      config = record c { tenant_id = strip c.tenant_id; call_id = strip c.call_id };
      active = none;
      completed = none;
      highest_source_generation = none;
      completed_source_generation = none;
    })

-- `_diagnostics`
unfoldable pub diagnostics_of : Option ActiveRtpSource → RtpIngressDiagnostics
diagnostics_of none = record {
  accepted_packet_count = 0;
  duplicate_packet_count = 0;
  reordered_packet_count = 0;
  missing_sequence_count = 0;
  rejected_packet_count = 0;
  latest_rejection_reason = none;
  decoded_pcm_duration_samples = 0;
  emitted_chunk_count = 0;
  packet_buffer_depth = 0;
  output_queue_depth = 0;
}
diagnostics_of (some s) = record {
  accepted_packet_count = s.accepted_packet_count;
  duplicate_packet_count = s.duplicate_packet_count;
  reordered_packet_count = s.reordered_packet_count;
  missing_sequence_count = s.missing_sequence_count;
  rejected_packet_count = s.rejected_packet_count;
  latest_rejection_reason = s.latest_rejection_reason;
  decoded_pcm_duration_samples = s.decoded_input_sample_count;
  emitted_chunk_count = s.emitted_chunk_count;
  packet_buffer_depth = length s.packet_buffer;
  output_queue_depth = length s.output_queue;
}

-- Python's `a or b` on optional sources.
abbrev pub or_else {ℓ} : {A : Type ℓ} → Option A → Option A → Option A
or_else none b = b
or_else (some a) b = some a

-- The property `diagnostics`
unfoldable pub diagnostics : RtpMediaIngressAdapter → RtpIngressDiagnostics
unfolding diagnostics_of
diagnostics a = diagnostics_of (or_else a.active a.completed)

abbrev pub reply_with : RtpIngressStatus → RtpIngressReason → Option ActiveRtpSource → Reply
reply_with status reason s =
    replies (record { status = status; reason = reason; diagnostics = diagnostics_of s })

abbrev pub Step : Type 0
Step = Reply × RtpMediaIngressAdapter

-- `_result`
unfoldable pub result : RtpIngressStatus → RtpIngressReason → RtpMediaIngressAdapter → Step
result status reason a = (reply_with status reason a.active, a)

-- `_stateless_rejection`
unfoldable pub stateless_rejection : RtpIngressReason → RtpMediaIngressAdapter → Step
stateless_rejection reason a = (reply_with RtpIngressStatus.rejected reason none, a)

abbrev pub note_rejection : RtpIngressReason → ActiveRtpSource → ActiveRtpSource
note_rejection reason s = record s {
  rejected_packet_count = s.rejected_packet_count + 1;
  latest_rejection_reason = some reason;
}

abbrev pub map_source :
    (ActiveRtpSource → ActiveRtpSource) → Option ActiveRtpSource → Option ActiveRtpSource
map_source f none = none
map_source f (some s) = some (f s)

-- `_rejection`
unfoldable pub rejection : RtpIngressReason → RtpMediaIngressAdapter → Step
rejection reason a =
    let s = map_source (note_rejection reason) a.active in
    (reply_with RtpIngressStatus.rejected reason s, record a { active = s })

-- The four `clear()` calls.
abbrev pub cleared : ActiveRtpSource → ActiveRtpSource
cleared s = record s {
  packet_buffer = [];
  packet_fingerprints = [];
  pcm_buffer = [];
  output_queue = [];
}

abbrev pub is_full : RtpIngressReason → Bool
is_full RtpIngressReason.output_queue_full = true
is_full _ = false

unfoldable pub fail_source :
    RtpIngressReason → Option ActiveRtpSource → RtpMediaIngressAdapter → Step
fail_source reason none a = (
  reply_with (if is_full reason then RtpIngressStatus.overloaded else RtpIngressStatus.rejected)
      reason none,
  a,
)
fail_source reason (some s) a =
    let t = cleared (note_rejection reason s) in
    (
      reply_with (if is_full reason then RtpIngressStatus.overloaded else RtpIngressStatus.rejected)
          reason (some t),
      record a { completed = some t; active = none },
    )

-- `_fail`
unfoldable pub fail : RtpIngressReason → RtpMediaIngressAdapter → Step
unfolding fail_source
fail reason a = fail_source reason a.active a

-- `_initialize`
unfoldable pub initialize : RtpMediaStart → RtpMediaIngressAdapter → RtpMediaIngressAdapter
initialize c a = record a {
  active = some (record {
    start = c;
    expected_sequence_number = c.initial_sequence_number;
    expected_rtp_timestamp = c.initial_rtp_timestamp;
    last_arrival_monotonic_seconds = c.arrival_monotonic_seconds;
    latest_arrived_at_utc = c.arrived_at_utc;
    packet_buffer = [];
    packet_fingerprints = [];
    pcm_buffer = [];
    output_queue = [];
    gap_started_monotonic_seconds = none;
    accepted_packet_count = 0;
    duplicate_packet_count = 0;
    reordered_packet_count = 0;
    missing_sequence_count = 0;
    rejected_packet_count = 0;
    latest_rejection_reason = none;
    decoded_input_sample_count = 0;
    emitted_chunk_count = 0;
    emitted_sample_count = 0;
  });
  completed = none;
  highest_source_generation = some c.source_generation;
  completed_source_generation = none;
}

-- `_release_audio_state`: the objects that are cleared are dropped at once, so only the two
-- references change.
unfoldable pub release_audio_state : RtpMediaIngressAdapter → RtpMediaIngressAdapter
release_audio_state a = record a { active = none; completed = none }

-- `_scope_reason(control) is not None`
unfoldable pub out_of_scope : RtpAdapterConfig → ScopedRtpControl → Bool
out_of_scope config c = not (c.tenant_id == config.tenant_id) || not (c.call_id == config.call_id)

-- `self._highest_source_generation is not None and generation <= self._highest_source_generation`
abbrev pub is_stale : Option ℕ → ℕ → Bool
is_stale none generation = false
is_stale (some highest) generation = leb generation highest

unfoldable pub start_unless_active :
    Option ActiveRtpSource → RtpMediaStart → RtpMediaIngressAdapter → Step
unfolding result rejection stateless_rejection initialize
start_unless_active (some s) c a =
    if start_beq c s.start
    then result RtpIngressStatus.duplicate RtpIngressReason.active_source_exists a
    else rejection RtpIngressReason.active_source_exists a
start_unless_active none c a =
    if is_stale a.highest_source_generation c.source_generation
    then stateless_rejection RtpIngressReason.stale_source_generation a
    else result RtpIngressStatus.started RtpIngressReason.started (initialize c a)

unfoldable pub start : RtpMediaStart → RtpMediaIngressAdapter → Step
unfolding start_unless_active out_of_scope
start c a =
    if out_of_scope a.config c.control
    then stateless_rejection RtpIngressReason.scope_mismatch a
    else start_unless_active a.active c a

unfoldable pub replace_source : RtpMediaStart → RtpMediaIngressAdapter → Step
unfolding result rejection initialize release_audio_state out_of_scope
replace_source c a =
    if out_of_scope a.config c.control
    then rejection RtpIngressReason.scope_mismatch a
    else if is_stale a.highest_source_generation c.source_generation
    then rejection RtpIngressReason.stale_source_generation a
    else result RtpIngressStatus.started RtpIngressReason.started
        (initialize c (release_audio_state a))
