-- ===== src/Transcripts/Session/Stop.antt =====
-- meetily-core/src/audio/recording_saver.rs: stop_and_save.
use mathlib.Core.Option
use meetily_local.Common.{
  ℕ, Bool, true, false, Option, none, some, String, List, [], ◌∷◌, Float, if◌then◌else◌, ◌⊎◌, inl,
  inr,
}
use meetily_local.Recording.Service.{TranscriptSegment}
use meetily_local.Transcripts.{
  Platform, Folder, sort_segments_chronologically, write_transcripts_json,
}
use meetily_local.Transcripts.JournalWriter.{WriterTurn, run_turns}
use meetily_local.Transcripts.Metadata.{MeetingMetadata, MetadataFile, set_or, write_metadata}
use meetily_local.Transcripts.Session.{RecordingSaver}

-- What a stop meets: what the accumulation adds to the incremental saver and the turns of the
-- journal's task before the waits end; whether transcripts.json can be written, is there afterwards,
-- and the journal can be removed; the end of the audio; the time and whether metadata.json can be
-- written.
pub record SaveOutcome (f : Float) (I : Type 0) : Type 0 where
  pub accumulated : I → I
  pub drained : List (ℕ × WriterTurn f)
  pub now : ℕ
  pub transcripts_work : Bool
  pub verified : Bool
  pub removed : Bool
  pub finalize : I → Option String
  pub completed_at : String
  pub metadata_works : Bool

pub data SaveError : Type 0 where
  transcripts_not_saved not_verified audio_not_finalized metadata_not_updated : SaveError

abbrev pub without_journal : {f : Float} → Bool → Folder f → Folder f
without_journal true folder = record folder { journal = none }
without_journal false folder = folder

abbrev pub last_end : {f : Float} → List (TranscriptSegment f) → Option f.F
last_end [] = none
last_end (t ∷ []) = t.audio_end_time
last_end (t ∷ u ∷ ts) = last_end (u ∷ ts)

module _ {f : Float} {I : Type 0} (p : Platform f) where
  unfoldable pub stop_journal_writer :
      List (ℕ × WriterTurn f) → RecordingSaver f I → RecordingSaver f I
  unfolding run_turns
  stop_journal_writer turns s =
      let w = run_turns p turns s.writer in
      record s {
        journal_sender = false;
        journal_task = false;
        writer = if s.journal_task then w else s.writer;
      }

  -- The files after `write_transcripts_json` of the saver, and whether it succeeds.
  unfoldable pub write_transcripts : SaveOutcome f I → RecordingSaver f I → Folder f × Bool
  unfolding sort_segments_chronologically write_transcripts_json
  write_transcripts e s =
      write_transcripts_json e.transcripts_work e.now
        (sort_segments_chronologically p s.writer.segments) s.writer.folder

  -- The files, and the error with which the stop ends there.
  unfoldable pub checked : SaveOutcome f I → Folder f × Bool → Folder f × Option SaveError
  checked e (folder, false) = (folder, some transcripts_not_saved)
  checked e (folder, true) =
      if e.verified then (without_journal e.removed folder, none) else (folder, some not_verified)

  abbrev pub placed :
      Option String
      → Folder f × Option SaveError
      → RecordingSaver f I
      → RecordingSaver f I × Option SaveError
  placed none files s = (s, none)
  placed (some path) (folder, error) s =
      (record s { writer = record s.writer { folder = folder } }, error)

  unfoldable pub save_transcripts :
      SaveOutcome f I → RecordingSaver f I → RecordingSaver f I × Option SaveError
  unfolding write_transcripts checked
  save_transcripts e s = placed s.meeting_folder (checked e (write_transcripts e s)) s

  unfoldable pub completed_metadata :
      SaveOutcome f I
      → Option f.F
      → List (TranscriptSegment f)
      → MeetingMetadata f
      → MeetingMetadata f
  completed_metadata e duration segments metadata = record metadata {
    status = some "completed";
    completed_at = some e.completed_at;
    duration_seconds = set_or duration (last_end segments);
  }

  -- metadata.json, and whether the stop goes on.
  unfoldable pub update_metadata :
      SaveOutcome f I
      → Option f.F
      → Option String
      → Option (MeetingMetadata f)
      → RecordingSaver f I
      → Option (MetadataFile f) × Bool
  unfolding completed_metadata write_metadata
  update_metadata e duration none metadata s = (s.directory.metadata_file, true)
  update_metadata e duration (some folder) none s = (s.directory.metadata_file, true)
  update_metadata e duration (some folder) (some metadata) s =
      let done = completed_metadata e duration s.writer.segments metadata in
      write_metadata e.metadata_works done done s.directory.metadata_file

  abbrev pub announced :
      String
      → Option (MetadataFile f) × Bool
      → RecordingSaver f I
      → RecordingSaver f I × (SaveError ⊎ Option String)
  announced audio (file, false) s = (
    record s { directory = record s.directory { metadata_file = file } },
    inl metadata_not_updated,
  )
  announced audio (file, true) s = (
    record s {
      directory = record s.directory { metadata_file = file };
      writer = record s.writer { segments = [] };
    },
    inr (some audio),
  )

  unfoldable pub finish_audio :
      SaveOutcome f I
      → Option f.F
      → Option I
      → RecordingSaver f I
      → RecordingSaver f I × (SaveError ⊎ Option String)
  unfolding update_metadata
  finish_audio e duration none s = (s, inr none)
  finish_audio e duration (some saver) s = elim (e.finalize saver) [
    | none ↦ (s, inl audio_not_finalized)
    | some audio ↦ announced audio (update_metadata e duration s.meeting_folder s.metadata s) s
  ]

  abbrev pub after_transcripts :
      SaveOutcome f I
      → Option f.F
      → RecordingSaver f I × Option SaveError
      → RecordingSaver f I × (SaveError ⊎ Option String)
  after_transcripts e duration (s, some error) = (s, inl error)
  after_transcripts e duration (s, none) = finish_audio e duration s.incremental_saver s

  -- Everything up to the last transcripts.json.
  unfoldable pub stop_tasks : SaveOutcome f I → RecordingSaver f I → RecordingSaver f I
  unfolding stop_journal_writer
  stop_tasks e s = stop_journal_writer e.drained (record s {
    is_saving = false;
    accumulation_task = false;
    incremental_saver =
        if s.accumulation_task
        then Option.map e.accumulated s.incremental_saver
        else s.incremental_saver;
  })

  -- The path of the audio, if audio was saved.
  unfoldable pub stop_and_save :
      SaveOutcome f I
      → Option f.F
      → RecordingSaver f I
      → RecordingSaver f I × (SaveError ⊎ Option String)
  unfolding stop_tasks save_transcripts finish_audio
  stop_and_save e duration s = after_transcripts e duration (save_transcripts e (stop_tasks e s))
