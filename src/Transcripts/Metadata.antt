-- ===== src/Transcripts/Metadata.antt =====
-- meetily-core/src/audio/common.rs: metadata.json, whose writers each set the fields they know.
use meetily_local.Common.{Bool, true, false, Option, none, some, String, ℕ, Float}

pub record DeviceInfo : Type 0 where
  pub microphone : Option String
  pub system_audio : Option String

pub record MeetingMetadata (f : Float) : Type 0 where
  pub version : Option String
  pub meeting_id : Option String
  pub meeting_name : Option String
  pub created_at : Option String
  pub completed_at : Option String
  pub retranscribed_at : Option String
  pub duration_seconds : Option f.F
  pub devices : Option DeviceInfo
  pub audio_file : Option String
  pub transcript_file : Option String
  pub sample_rate : Option ℕ
  pub status : Option String
  pub origin : Option String
  pub auto_refined_at : Option String

-- What metadata.json holds: no JSON, JSON that is no object, or an object, of which the fields of
-- `MeetingMetadata` are kept here.
pub data MetadataFile (f : Float) : Type 0 where
  unreadable other : MetadataFile f
  fields : MeetingMetadata f → MetadataFile f

-- The new value, if there is one.
abbrev pub set_or {ℓ} : {A : Type ℓ} → Option A → Option A → Option A
set_or none old = old
set_or (some a) old = some a

module _ {f : Float} where
  unfoldable pub merge : MeetingMetadata f → MeetingMetadata f → MeetingMetadata f
  merge updates existing = record {
    version = set_or updates.version existing.version;
    meeting_id = set_or updates.meeting_id existing.meeting_id;
    meeting_name = set_or updates.meeting_name existing.meeting_name;
    created_at = set_or updates.created_at existing.created_at;
    completed_at = set_or updates.completed_at existing.completed_at;
    retranscribed_at = set_or updates.retranscribed_at existing.retranscribed_at;
    duration_seconds = set_or updates.duration_seconds existing.duration_seconds;
    devices = set_or updates.devices existing.devices;
    audio_file = set_or updates.audio_file existing.audio_file;
    transcript_file = set_or updates.transcript_file existing.transcript_file;
    sample_rate = set_or updates.sample_rate existing.sample_rate;
    status = set_or updates.status existing.status;
    origin = set_or updates.origin existing.origin;
    auto_refined_at = set_or updates.auto_refined_at existing.auto_refined_at;
  }

  unfoldable pub updated :
      MeetingMetadata f → MeetingMetadata f → Option (MetadataFile f) → MetadataFile f
  unfolding merge
  updated updates fallback none = fields fallback
  updated updates fallback (some unreadable) = fields fallback
  updated updates fallback (some other) = other
  updated updates fallback (some (fields existing)) = fields (merge updates existing)

  -- The file and whether the call succeeds: the temporary file can be written and takes its place.
  unfoldable pub write_metadata :
      Bool
      → MeetingMetadata f
      → MeetingMetadata f
      → Option (MetadataFile f)
      → Option (MetadataFile f) × Bool
  unfolding updated
  write_metadata true updates fallback file = (some (updated updates fallback file), true)
  write_metadata false updates fallback file = (file, false)
