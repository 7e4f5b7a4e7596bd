-- ===== src/Transcripts/Session/Discard.antt =====
-- meetily-core/src/audio/recording_saver.rs: discard_empty_session.
use meetily_local.Common.{
  ℕ, Bool, true, false, not, ◌&&◌, ◌||◌, Option, none, some, List, [], ◌∷◌, Float, if◌then◌else◌,
  codes, ◌==◌,
}
use meetily_local.Recording.Service.{TranscriptSegment}
use meetily_local.Transcripts.{Platform, load_transcripts_from_folder}
use meetily_local.Transcripts.Session.{RecordingSaver}

abbrev pub starts_with : List ℕ → List ℕ → Bool
starts_with [] name = true
starts_with (c ∷ cs) [] = false
starts_with (c ∷ cs) (d ∷ ds) = if c == d then starts_with cs ds else false

unfoldable pub has_checkpoint_audio : Option (List (Option (List ℕ))) → Bool
has_checkpoint_audio none = false
has_checkpoint_audio (some []) = false
has_checkpoint_audio (some (none ∷ names)) = has_checkpoint_audio (some names)
has_checkpoint_audio (some (some name ∷ names)) =
    let rest = has_checkpoint_audio (some names) in starts_with (codes "audio_chunk_") name || rest

abbrev pub is_none_or_empty : {f : Float} → Option (List (TranscriptSegment f)) → Bool
is_none_or_empty none = false
is_none_or_empty (some []) = true
is_none_or_empty (some (t ∷ ts)) = false

module _ {f : Float} {I : Type 0} (p : Platform f) where
  unfoldable pub session_is_empty : RecordingSaver f I → Bool
  unfolding has_checkpoint_audio load_transcripts_from_folder
  session_is_empty s =
      not (has_checkpoint_audio s.directory.checkpoints)
      && is_none_or_empty (load_transcripts_from_folder p s.writer.folder)

  -- `works`: the directory can be removed; then nothing is left of it. Also whether it was discarded.
  unfoldable pub discard_empty_session : Bool → RecordingSaver f I → RecordingSaver f I × Bool
  unfolding session_is_empty
  discard_empty_session works s =
      let files = if works then record { json = none; journal = none } else s.writer.folder in
      let directory =
        if works then record { metadata_file = none; checkpoints = none } else s.directory in
      let discarded = record s {
        meeting_folder = none;
        metadata = none;
        incremental_saver = none;
        journal_sender = false;
        journal_task = false;
        is_saving = false;
        writer = record { segments = []; queue = []; dirty = false; folder = files };
        directory = directory;
      } in
      elim s.meeting_folder [
        | none ↦ (s, false)
        | some folder ↦ if session_is_empty s then (discarded, true) else (s, false)
      ]
