-- ===== src/Transcripts/Session/Start.antt =====
-- meetily-core/src/audio/recording_saver.rs: start_accumulation and initialize_meeting_folder.
use meetily_local.Common.{Bool, true, false, Option, none, some, String, [], Float, if◌then◌else◌}
use meetily_local.Transcripts.Metadata.{MeetingMetadata, MetadataFile, write_metadata}
use meetily_local.Transcripts.Session.{Directory, RecordingSaver}

-- What the start of an accumulation meets: the path of the folder, if it can be made; the
-- incremental saver, if it can; the time as text; and whether metadata.json can be written.
pub record Beginning (I : Type 0) : Type 0 where
  pub created : Option String
  pub new_saver : Option I
  pub now : String
  pub metadata_works : Bool

unfoldable pub initial_metadata : {f : Float} → String → Bool → String → MeetingMetadata f
initial_metadata meeting_name create_checkpoints now = record {
  version = some "1.0";
  meeting_id = none;
  meeting_name = some meeting_name;
  created_at = some now;
  completed_at = none;
  retranscribed_at = none;
  duration_seconds = none;
  devices = some (record { microphone = none; system_audio = none });
  audio_file = some (if create_checkpoints then "audio.mp4" else "");
  transcript_file = some "transcripts.json";
  sample_rate = some 48000;
  status = some "recording";
  origin = some "recording";
  auto_refined_at = none;
}

abbrev fresh_directory : {f : Float} → Bool → Directory f
fresh_directory create_checkpoints = record {
  metadata_file = none;
  checkpoints = if create_checkpoints then some [] else none;
}

module _ {f : Float} {I : Type 0} where
  -- The folder is new: what follows the metadata's write.
  abbrev journal_started :
      String
      → MeetingMetadata f
      → Option (MetadataFile f) × Bool
      → RecordingSaver f I
      → RecordingSaver f I × Bool
  journal_started folder metadata (file, false) s =
      (record s { directory = record s.directory { metadata_file = file } }, false)
  journal_started folder metadata (file, true) s = (
    record s {
      directory = record s.directory { metadata_file = file };
      journal_sender = true;
      journal_task = true;
      meeting_folder = some folder;
      metadata = some metadata;
      writer = record s.writer { queue = []; dirty = false };
    },
    true,
  )

  -- What follows the creation of the folder.
  unfoldable pub folder_created :
      Beginning I → String → Bool → String → RecordingSaver f I → RecordingSaver f I × Bool
  unfolding initial_metadata write_metadata
  folder_created b meeting_name create_checkpoints folder s =
      let metadata = initial_metadata meeting_name create_checkpoints b.now in
      let s' = record s {
        directory = fresh_directory create_checkpoints;
        writer = record s.writer { folder = record { json = none; journal = none } };
      } in
      let written = write_metadata b.metadata_works metadata metadata none in
      let plain = journal_started folder metadata written s' in
      if create_checkpoints
      then elim b.new_saver [
        | none ↦ (s', false)
        | some saver ↦
            journal_started folder metadata written (record s' { incremental_saver = some saver })
      ]
      else plain

  -- The saver and whether the call succeeds.
  unfoldable pub initialize_meeting_folder :
      Beginning I → String → Bool → RecordingSaver f I → RecordingSaver f I × Bool
  unfolding folder_created
  initialize_meeting_folder b meeting_name create_checkpoints s = elim b.created [
    | none ↦ (s, false)
    | some folder ↦ folder_created b meeting_name create_checkpoints folder s
  ]

  abbrev initialize_if_named :
      Beginning I → Bool → Option String → RecordingSaver f I → RecordingSaver f I
  initialize_if_named b auto_save none s = s
  initialize_if_named b auto_save (some name) s = (initialize_meeting_folder b name auto_save s).0

  unfoldable pub start_accumulation : Beginning I → Bool → RecordingSaver f I → RecordingSaver f I
  unfolding initialize_meeting_folder
  start_accumulation b auto_save s = record (initialize_if_named b auto_save s.meeting_name s) {
    accumulation_task = true;
    is_saving = true;
  }
