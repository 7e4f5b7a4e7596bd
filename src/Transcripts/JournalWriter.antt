-- ===== src/Transcripts/JournalWriter.antt =====
-- meetily-core/src/audio/recording_saver.rs: the task that appends segments to the journal and
-- rebuilds transcripts.json now and then, beside the calls that send it segments.
pub mod Kept
pub mod Load
pub mod Crash
use meetily_local.Common.{
  ℕ, Bool, true, false, ◌&&◌, Option, none, some, List, [], ◌∷◌, ◌++◌, Float, if◌then◌else◌,
}
use meetily_local.Recording.Service.{TranscriptSegment, upsert}
use meetily_local.Transcripts.{
  Platform, Folder, Appending, append_transcript_journal_line, sort_segments_chronologically,
  write_transcripts_json,
}

-- `segments` is shared with the saver; `queue` is the channel to the task.
pub record JournalWriter (f : Float) : Type 0 where
  pub segments : List (TranscriptSegment f)
  pub queue : List (TranscriptSegment f)
  pub dirty : Bool
  pub folder : Folder f

-- What happens next: a segment is added, the task receives one, or its sleep ends, which the code
-- looks at only when it finds the channel empty. The sleep's end is possible with a segment in the channel
-- too: one may be added before the task looks at the shared list.
pub data WriterTurn (f : Float) : Type 0 where
  added : TranscriptSegment f → WriterTurn f
  received : Appending → WriterTurn f
  debounced : Bool → WriterTurn f

module _ {f : Float} where
  -- `add_transcript_segment`, with the task alive.
  unfoldable pub add_segment : TranscriptSegment f → JournalWriter f → JournalWriter f
  unfolding upsert
  add_segment segment w = record w {
    segments = upsert f segment w.segments;
    queue = w.queue ++ segment ∷ [];
  }

module _ {f : Float} (p : Platform f) where
  unfoldable pub receive_from :
      Appending → ℕ → List (TranscriptSegment f) → JournalWriter f → JournalWriter f
  unfolding append_transcript_journal_line
  receive_from a now [] w = w
  receive_from a now (t ∷ ts) w = record w {
    queue = ts;
    dirty = true;
    folder = record w.folder {
      journal = (append_transcript_journal_line p a (some now) t w.folder.journal).0;
    };
  }

  unfoldable pub rebuild_transcripts_json : Bool → ℕ → JournalWriter f → JournalWriter f
  unfolding sort_segments_chronologically write_transcripts_json
  rebuild_transcripts_json works now w = record w {
    folder =
        (write_transcripts_json works now (sort_segments_chronologically p w.segments) w.folder).0;
    dirty = false;
  }

  unfoldable pub turn : ℕ → WriterTurn f → JournalWriter f → JournalWriter f
  unfolding add_segment receive_from rebuild_transcripts_json
  turn now (added segment) w = add_segment segment w
  turn now (received a) w = receive_from a now w.queue w
  turn now (debounced works) w =
      let rebuilt = rebuild_transcripts_json works now w in if w.dirty then rebuilt else w

  -- Each with the time at which it happens.
  unfoldable pub run_turns : List (ℕ × WriterTurn f) → JournalWriter f → JournalWriter f
  unfolding turn
  run_turns [] w = w
  run_turns ((now, t) ∷ ts) w = run_turns ts (turn now t w)

-- A recording's start: nothing is held and the folder has no transcript.
abbrev pub idle : (f : Float) → JournalWriter f
idle f = record {
  segments = [];
  queue = [];
  dirty = false;
  folder = record { json = none; journal = none };
}
