-- ===== src/Transcripts/Session.antt =====
-- meetily-core/src/audio/recording_saver.rs: a recording's folder from the start of the accumulation
-- to the last save, or to its removal when the start fails. `I` is the incremental saver, which
-- Saver models; what only logs is left out.
pub mod Start
pub mod Stop
pub mod Discard
pub mod Saved
pub mod Discarded
use mathlib.Core.Option
use meetily_local.Common.{
  ℕ, Bool, true, false, not, ◌&&◌, ◌||◌, Option, none, some, String, List, [], ◌∷◌, Float,
  if◌then◌else◌, codes, is_some, ◌⊎◌, inl, inr, ◌==◌,
}
use meetily_local.Recording.Service.{TranscriptSegment}
use meetily_local.Transcripts.{
  Platform, Folder, sort_segments_chronologically, write_transcripts_json,
  load_transcripts_from_folder,
}
use meetily_local.Transcripts.JournalWriter.{
  JournalWriter, WriterTurn, run_turns, idle, add_segment,
}
use meetily_local.Transcripts.Metadata.{
  DeviceInfo, MeetingMetadata, MetadataFile, set_or, write_metadata,
}

-- The session's directory: its transcript is in the writer's folder. `checkpoints` are the stems of
-- the files in `.checkpoints`, if it can be listed.
pub record Directory (f : Float) : Type 0 where
  pub metadata_file : Option (MetadataFile f)
  pub checkpoints : Option (List (Option (List ℕ)))

-- The saver, the task that writes its journal, and the directory. `transcript_segments` is the
-- writer's list.
pub record RecordingSaver (f : Float) (I : Type 0) : Type 0 where
  pub incremental_saver : Option I
  pub meeting_folder : Option String
  pub meeting_name : Option String
  pub meeting_id : Option String
  pub metadata : Option (MeetingMetadata f)
  pub is_saving : Bool
  pub accumulation_task : Bool
  pub journal_sender : Bool
  pub journal_task : Bool
  pub writer : JournalWriter f
  pub directory : Directory f

module _ {f : Float} {I : Type 0} where
  unfoldable pub set_meeting_name : Option String → RecordingSaver f I → RecordingSaver f I
  set_meeting_name name s = record s { meeting_name = name }

  unfoldable pub set_meeting_id : Option String → RecordingSaver f I → RecordingSaver f I
  set_meeting_id id s = record s { meeting_id = id }

  abbrev write_if_folder :
      Bool → MeetingMetadata f → Option String → RecordingSaver f I → RecordingSaver f I
  write_if_folder works metadata none s = s
  write_if_folder works metadata (some folder) s = record s {
    directory = record s.directory {
      metadata_file = (write_metadata works metadata metadata s.directory.metadata_file).0;
    };
  }

  abbrev with_devices :
      Bool → DeviceInfo → Option (MeetingMetadata f) → RecordingSaver f I → RecordingSaver f I
  with_devices works devices none s = s
  with_devices works devices (some metadata) s =
      let known = record metadata { devices = some devices } in
      write_if_folder works known s.meeting_folder (record s { metadata = some known })

  -- `works`: metadata.json can be written.
  unfoldable pub set_device_info :
      Bool → Option String → Option String → RecordingSaver f I → RecordingSaver f I
  unfolding write_metadata
  set_device_info works mic_name sys_name s =
      with_devices works (record { microphone = mic_name; system_audio = sys_name }) s.metadata s
