-- ===== src/Lib.antt =====
-- CallMetric Live ASR: real-time transcription and coaching of calls (app/). Telephony audio enters as
-- RTP packets, which app/audio_ingress/rtp.py puts in sequence, decodes and cuts into chunks of two
-- seconds; the chunks feed the streaming transcription, and its transcripts the call state and the
-- coaching. This library models the RTP ingress, the rolling buffer that keeps its
-- chunks, the windows that are cut from it for transcription, the reconciler that makes one transcript of
-- the windows' transcripts, and the state of the call, which takes its events and the labels and
-- suggestions that come of them.
--
-- The program and the files:
--   Prelude and below        what all share: tests, lists, integers and Python dicts as association lists
--   Rtp/Types                the enums, the controls and packets, `_ActiveRTPSource`, the configuration
--   Rtp/Sequence             `_sequence_distance`, `_advance_sequence`, `_advance_timestamp`
--   Rtp/G711                 `decode_g711_payload`, `upsample_pcm16_8khz_to_16khz`, the two decoders
--   Rtp/Source               the methods on one source: `_queue_chunk`, `_emit_complete_chunks`,
--                            `_flush_final_chunk`, `_drain_contiguous`, `_expire_gap` and
--                            `_trim_fingerprint_history`
--   Rtp/Adapter              `__init__`, `start`, `replace_source` and the replies of the adapter
--   Rtp/Ingress              `_packet_fingerprint`, `_validate_packet` and `accept_packet`
--   Rtp/Lifecycle            `advance`, `end`, `reset`, `drain_audio_chunks`, and calls as steps
--   Rtp/Invariant and below  the invariant of a source, and each loop of it
--   Streaming/RollingBuffer  `RollingAudioBuffer` of app/streaming/rolling_buffer.py: `append`, `clear` and
--                            the properties; the files below it hold its invariant, `append` as a whole,
--                            the chunks of the RTP ingress fed into it, and what it reports
--   Streaming/AudioWindow    `AudioWindowBuilder` of app/streaming/audio_window.py, and below it what `build`
--                            promises of a window
--   Streaming/TranscriptReconciler  `TranscriptReconciler` of app/streaming/transcript_reconciler.py; below it
--                            Suffix has `_new_suffix`, and Words, Overlap, Numbering and Finalized are proofs
--   Streaming/Feed           the reconciler's events applied to the state of the call, as in
--                            app/streaming/pipeline.py
--   Streaming/Tests and Tests below the others  runs of small buffers, windows and transcripts
--   Calls/Types              the records of app/calls/models.py, its errors and its parameters
--   Calls/Labels             `record_detected_labels` and `_upsert_label_revision_diagnostic`
--   Calls/Suggestions        the methods of `CallState` for coaching suggestions, and their rank
--   Calls/State              the other methods of `CallState`, and calls of all of them in sequence
--   Calls/Valid              the invariant of the state, for every method
--   Calls/Tests              a small call
--   Diarization/Models       `DiarizationTurn` of app/diarization/models.py
--   Diarization/IdentityTracker  `SpeakerIdentityTracker` of app/diarization/identity_tracker.py; below it Names has
--                            the identifiers of speakers, and Assignment and Tracking are proofs
--   Classification/Contrast  `apply_classification_contrast_guards` of app/classification/postprocessing.py and
--                            the words that it looks for
--   Classification/PostProcessing  `canonicalize_classification_result` and `merge_classification_views` of
--                            app/classification/postprocessing.py; below it Names, Merged and Strongest are
--                            proofs
--   Events/Models            the events of app/events/models.py that the call state takes
--   Events/Validation        `_ensure_same_identifier` of app/events/validation.py
--   Events/Labels            `canonical_label` and `canonical_labels` of app/events/labels.py
--   Events/Tests             a run on a few labels
--   Rtp/Tests and below      runs on small calls
--
-- How the code is modelled. A method of the adapter is a function from its arguments and the adapter to
-- a reply and the adapter afterwards; the two references `_active` and `_completed` never name one
-- source at once, so each holds its own. A method on a source returns how it ends (it continues, fails
-- for a reason, raises, or has used up its fuel) and the source. A `while` loop has fuel: for
-- `_emit_complete_chunks` a round for each 64000 bytes and one more, for `_drain_contiguous` a round for
-- each buffered packet and one more, for `_expire_gap` two for each buffered packet and two more, for
-- `_trim_fingerprint_history` one for each fingerprint and one more. Bytes are numbers below 256;
-- `bytearray`, `deque` and `tuple` are lists. Times of the monotonic clock are whole ticks, so
-- `now - gap < wait` is written `now < gap + wait`; the offset and the duration of a chunk are kept as
-- counts of samples, which the code divides by 16000. UTC times are opaque numbers. What pydantic checks
-- before a call (field bounds, bytes) are the hypotheses StartIsValid and PacketIsValid; of the
-- validators of `AudioChunkEvent` those that refuse empty audio and an empty duration are modelled, as
-- the others always hold here. The fixed fields `sample_rate_hz` and `channel_count` of
-- `RTPPayloadFormat` are left out.
--
-- `append` of the rolling buffer gives back the new buffer or the error that it raises, before which it
-- has changed nothing. Its times are floats that are not negative, each of which stands as its place in the order of
-- the floats from 0.0 on, so that they compare as numbers do; division, sum and difference of them are parameters,
-- since they round. Its window is a whole number of seconds.
--
-- A method of `CallState` is a function from its arguments and the state to the state afterwards, or to
-- the error that it raises, before which it has changed nothing. A transcript is a list of code points.
-- Seconds are whole ticks and scores are numbers; an integer that the code tests for a sign is a ℤ. The
-- lists of metadata are lists of records; `{item.label: item for item in ...}` is a dict as an association
-- list; `list.sort` is a stable insertion sort. The assignments run the validators of the fields, of which
-- the model has none: that the labels are canonical, and the identifiers shown and the labels of a
-- diagnostic unique, is part of the invariant, and the numbers that they ask not to be negative are
-- natural here.
--
-- The reconciler's `ingest` and `finalize` give their events and the state, or the error that is raised. A
-- cutoff `end <= window_end - region + tolerance` is written with sums on both sides. The ratio of a
-- `SequenceMatcher` is the fraction that it is computed from, and fractions are compared by their products,
-- which is how the floats compare, as the sizes are small.
--
-- The speaker tracker is a function from a request and the tracker to the turns and the tracker, or to the error.
-- Its times are ticks too, so that shared times add up exactly; the identifiers of speakers are lists of code
-- points, which compare as texts do. `checkpoint` and `restore` are left out, since what they are for, the copy that
-- later changes do not reach, is nothing that values without a store can tell.
--
-- A window of audio has its times as counts of samples, exact where the code has floats; its start can be negative,
-- as in the code. The
-- window of the buffer is a whole number of seconds, and `round` has nothing to do.
--
-- Parameters: the digest of SHA-256, of which nothing is asked; `str.strip` and
-- `str.casefold`; which code points are white space, and which are punctuation or symbols; the number of
-- elements that `SequenceMatcher` matches, of which nothing is asked; the identifiers and times that the
-- factories of the reconciler give; the decomposition NFKD, the combining marks and what `\w` matches; the arithmetic of floats in the
-- rolling buffer, of which is asked that a sum is no less than its first part, and that whole seconds have exact sums.
--
-- Not modelled: the rest of app/ (the coaching coordinator and its rules, the rest of diarization and of classification,
-- ingestion, retrieval), which works on the events and the state modelled here; sockets, devices,
-- databases, external models and the dashboards.
mod Prelude
pub mod Rtp
pub mod Streaming
pub mod Events
pub mod Calls
pub mod Diarization
pub mod Classification
