-- ===== src/Diarization/Models.antt =====
-- The turns of app/diarization/models.py. Times are counts of ticks, scores are numbers; the identifiers of speakers
-- are texts, which the code sorts.
use cma_real_time_coaching.Prelude.{
  ℕ, Bool, true, false, ◌&&◌, Option, List, String, ◌==◌, opt_beq, list_eq, nat_eq, string_eq,
}
use cma_real_time_coaching.Prelude.Text.{Text}

pub data SpeakerRole : Type 0 where
  agent customer unknown overlap : SpeakerRole

abbrev pub role_beq : SpeakerRole → SpeakerRole → Bool
role_beq SpeakerRole.agent SpeakerRole.agent = true
role_beq SpeakerRole.customer SpeakerRole.customer = true
role_beq SpeakerRole.unknown SpeakerRole.unknown = true
role_beq SpeakerRole.overlap SpeakerRole.overlap = true
role_beq _ _ = false

pub record DiarizationTurn : Type 0 where
  pub tenant_id : String
  pub call_id : String
  pub start_seconds : ℕ
  pub end_seconds : ℕ
  pub local_speaker_ids : List Text
  pub global_speaker_id : Option Text
  pub global_speaker_ids : List Text
  pub role : SpeakerRole
  pub speaker_confidence : Option ℕ
  pub role_confidence : Option ℕ

-- `==` of turns
unfoldable pub turn_beq : DiarizationTurn → DiarizationTurn → Bool
turn_beq a b =
    a.tenant_id == b.tenant_id
    && (a.call_id == b.call_id
        && (a.start_seconds == b.start_seconds
            && (a.end_seconds == b.end_seconds
                && (a.local_speaker_ids == b.local_speaker_ids
                    && (opt_beq a.global_speaker_id b.global_speaker_id
                        && (a.global_speaker_ids == b.global_speaker_ids
                            && (role_beq a.role b.role
                                && (opt_beq a.speaker_confidence b.speaker_confidence
                                    && opt_beq a.role_confidence b.role_confidence))))))))
