-- ===== src/Transcripts/Session/Saved.antt =====
-- What a stop leaves in the folder.
use meetily_local.Common.{
  ℕ, ◌≡◌, refl, sym, ap, ◌∙◌, subst, Bool, true, false, Option, none, some, String, List, [], ◌∷◌,
  ◌++◌, append-nil, arith, Float, inl, inr, length, length-append, if◌then◌else◌, Bool-cases,
  Option-cases,
}
use meetily_local.Recording.Service.{TranscriptSegment}
use meetily_local.Transcripts.{
  Platform, Folder, sort_segments_chronologically, write_transcripts_json,
  load_transcripts_from_folder, json_segments, object, replay_transcript_journal,
}
use meetily_local.Transcripts.Order.{HaveIds, Ranked}
use meetily_local.Transcripts.Lines.{Readable, ReadBack, journal_of}
use meetily_local.Transcripts.Replay.{replay-journal_of}
use meetily_local.Transcripts.JournalWriter.{JournalWriter, WriterTurn, turn, run_turns, idle}
use meetily_local.Transcripts.JournalWriter.Kept.{
  added_by, Working, sorted_after, HasJournal, Journaled, idle-Journaled, run_turns-Journaled,
}
use meetily_local.Transcripts.JournalWriter.Load.{load_json, load_either}
use meetily_local.Transcripts.JournalWriter.Crash.{Reads, Journaled-ReadsBetween}
use meetily_local.Transcripts.Metadata.{MetadataFile}
use meetily_local.Transcripts.Session.{RecordingSaver}
use meetily_local.Transcripts.Session.Stop.{
  SaveOutcome, SaveError, stop_and_save, stop_tasks, stop_journal_writer, save_transcripts,
  write_transcripts, checked, finish_audio, update_metadata, announced, after_transcripts, placed,
}

module _ {f : Float} {I : Type 0} (p : Platform f) (e : SaveOutcome f I)
    (duration : Option f.F) where
  finish_audio-folder :
      (s : RecordingSaver f I) (saver : Option I)
      → (finish_audio p e duration saver s).0.writer.folder ≡ s.writer.folder
  unfolding finish_audio
  finish_audio-folder s none = refl
  finish_audio-folder s (some saver) = elim (Option-cases (e.finalize saver)) [
    | inl h ↦ rw (finish_audio, h) refl
    | inr (audio, h) ↦
        rw (finish_audio, h)
          (announces audio (update_metadata p e duration s.meeting_folder s.metadata s))
  ]
    where
      announces :
          (audio : String) (m : Option (MetadataFile f) × Bool)
          → (announced p audio m s).0.writer.folder ≡ s.writer.folder
      announces audio (file, true) = refl
      announces audio (file, false) = refl

  after_transcripts-folder :
      (s : RecordingSaver f I) (error : Option SaveError)
      → (after_transcripts p e duration (s, error)).0.writer.folder ≡ s.writer.folder
  after_transcripts-folder s none = finish_audio-folder s s.incremental_saver
  after_transcripts-folder s (some error) = refl

  -- What comes after transcripts.json leaves the transcript's files.
  stop_and_save-folder :
      (s : RecordingSaver f I) (path : String)
      → s.meeting_folder ≡ some path
      → (stop_and_save p e duration s).0.writer.folder
        ≡ (checked p e (write_transcripts p e (stop_tasks p e s))).0
  unfolding stop_and_save save_transcripts stop_tasks stop_journal_writer
  stop_and_save-folder s path h =
      let t = stop_tasks p e s in
      let (folder, error) = checked p e (write_transcripts p e t) in
      ap (λ o. (after_transcripts p e duration (placed p o (folder, error) t)).0.writer.folder) h
      ∙ after_transcripts-folder (record t { writer = record t.writer { folder = folder } }) error

module _ {f : Float} where
  -- Nothing is left between two prefixes, of which the first is the whole.
  whole_prefix :
      (whole seen : List (TranscriptSegment f))
      → ((rest : List (TranscriptSegment f)) × (seen ≡ whole ++ rest))
      → ((rest : List (TranscriptSegment f)) × (whole ≡ seen ++ rest))
      → seen ≡ whole
  whole_prefix whole seen (rest, g) ([], h) = sym (h ∙ append-nil seen)
  whole_prefix whole seen (rest, g) (t ∷ ts, h) = absurd (
      omega
        (arith, ap length g, ap length h, length-append whole rest, length-append seen (t ∷ ts)))

  run_turns-append :
      (p : Platform f) (ts us : List (ℕ × WriterTurn f)) (w : JournalWriter f)
      → run_turns p (ts ++ us) w ≡ run_turns p us (run_turns p ts w)
  unfolding run_turns
  run_turns-append p [] us w = refl
  run_turns-append p ((now, t) ∷ ts) us w = run_turns-append p ts us (turn p now t w)

module _ {f : Float} {I : Type 0} (p : Platform f) (e : SaveOutcome f I) where
  -- The folder after the last write, if the journal has all segments or is not there.
  module _ (last : ℕ) (sent : List (TranscriptSegment f)) (w : JournalWriter f) (ranked : Ranked p)
      (readable : Readable p) (h : HaveIds sent) (b : ReadBack p sent) (q : w.queue ≡ [])
      (v : Journaled p last sent w) where
    all : sent ≡ v.popped
    all = v.sent_split ∙ ap (λ ts. v.popped ++ ts) q ∙ append-nil v.popped

    unchanged : Reads p sent (load_transcripts_from_folder p w.folder)
    unchanged =
        let (seen, before, after, reads) =
          Journaled-ReadsBetween p last sent w ranked readable h b v in
        subst (λ ts. Reads p ts (load_transcripts_from_folder p w.folder))
          (whole_prefix v.popped seen before
              (subst (λ ts. (rest : List (TranscriptSegment f)) × (ts ≡ seen ++ rest)) all after)
            ∙ sym all)
          reads

    written_folder : Folder f
    written_folder = record w.folder {
      json = some (
        object (some (some (json_segments 0 (sort_segments_chronologically p w.segments)))),
        some e.now,
      );
    }

    replayed : replay_transcript_journal p (journal_of p v.popped) ≡ some (sorted_after p sent)
    replayed =
        ap (λ ts. replay_transcript_journal p (journal_of p ts)) (sym all)
        ∙ replay-journal_of p sent ranked readable h b

    in_json : Option (List (TranscriptSegment f))
    in_json = some (json_segments 0 (sort_segments_chronologically p w.segments))

    is_json : in_json ≡ some (json_segments 0 (sorted_after p sent))
    unfolding in_json
    is_json = ap (λ ts. some (json_segments 0 (sort_segments_chronologically p ts))) v.held

    kept :
        HasJournal p last v.popped w.folder.journal
        → Reads p sent (load_transcripts_from_folder p written_folder)
    unfolding written_folder in_json
    kept (inl (e', g)) = inr (
        load_json p readable written_folder
          (json_segments 0 (sort_segments_chronologically p w.segments)) e.now refl g
        ∙ is_json)
    kept (inr (m, g, l)) =
        elim (load_either p readable written_folder (journal_of p v.popped) (sorted_after p sent)
          (json_segments 0 (sort_segments_chronologically p w.segments)) e.now m refl replayed g) [
            | inl r ↦ inl r
            | inr r ↦ inr (r ∙ is_json)
          ]

    without :
        Reads p sent (load_transcripts_from_folder p (record written_folder { journal = none }))
    unfolding written_folder in_json
    without = inr (
        load_json p readable (record written_folder { journal = none })
          (json_segments 0 (sort_segments_chronologically p w.segments)) e.now refl refl
        ∙ is_json)

    pub checked-Reads :
        let segments = sort_segments_chronologically p w.segments in
        Reads p sent (
          load_transcripts_from_folder p
            (checked p e (write_transcripts_json e.transcripts_work e.now segments w.folder)).0)
    unfolding checked write_transcripts_json written_folder
    checked-Reads = elim (Bool-cases e.transcripts_work) [
      | inl t ↦ elim (Bool-cases e.verified) [
        | inl y ↦ elim (Bool-cases e.removed) [
          | inl r ↦ rw (t, y, r) without
          | inr r ↦ rw (t, y, r) (kept v.has_journal)
        ]
        | inr y ↦ rw (t, y) (kept v.has_journal)
      ]
      | inr t ↦ rw t unchanged
    ]

module _ {f : Float} {I : Type 0} (p : Platform f) where
  stop_tasks-writer :
      (e : SaveOutcome f I) (turns : List (ℕ × WriterTurn f)) (s : RecordingSaver f I)
      → s.journal_task ≡ true
      → s.writer ≡ run_turns p turns (idle f)
      → (stop_tasks p e s).writer ≡ run_turns p (turns ++ e.drained) (idle f)
  unfolding stop_tasks stop_journal_writer
  stop_tasks-writer e turns s t w =
      ap (λ b. if b then run_turns p e.drained s.writer else s.writer) t
      ∙ ap (run_turns p e.drained) w
      ∙ sym (run_turns-append p turns e.drained (idle f))

  written_by :
      (e : SaveOutcome f I) (s : RecordingSaver f I) (w : JournalWriter f)
      → (stop_tasks p e s).writer ≡ w
      → (checked p e (write_transcripts p e (stop_tasks p e s))).0
        ≡ (checked p e (
            write_transcripts_json e.transcripts_work e.now
              (sort_segments_chronologically p w.segments)
              w.folder)).0
  unfolding write_transcripts
  written_by e s w h =
      ap
        (λ u.
          (checked p e (
            write_transcripts_json e.transcripts_work e.now
              (sort_segments_chronologically p u.segments) u.folder)).0)
        h

  -- A stop after a recording into its folder, in which all appends to the journal worked, at times
  -- that grow, and the journal's task came to the end of its channel, of segments that carry 64-bit
  -- numbers and read back as they were written, with times that are not NaN, into a folder whose
  -- files can be read: whatever else fails, the last transcripts.json, its verification, the removal
  -- of the journal, the audio or the metadata, what is loaded from the folder afterwards has, for
  -- each sequence number, the segment that was added last, in chronological order: the segments
  -- themselves where the journal is read, and without their source where transcripts.json is, as
  -- after a stop that succeeds.
  pub stop_and_save-load :
      (e : SaveOutcome f I) (duration : Option f.F) (turns : List (ℕ × WriterTurn f))
      (s : RecordingSaver f I) (path : String)
      → Ranked p
      → Readable p
      → s.meeting_folder ≡ some path
      → s.journal_task ≡ true
      → s.writer ≡ run_turns p turns (idle f)
      → Working p 0 (turns ++ e.drained)
      → (run_turns p (turns ++ e.drained) (idle f)).queue ≡ []
      → HaveIds (added_by p (turns ++ e.drained))
      → ReadBack p (added_by p (turns ++ e.drained))
      → Reads p
          (added_by p (turns ++ e.drained))
          (load_transcripts_from_folder p (stop_and_save p e duration s).0.writer.folder)
  stop_and_save-load e duration turns s path ranked readable m t w ok q h b =
      let (last, v) =
        run_turns-Journaled p 0 [] (turns ++ e.drained) (idle f) ok (idle-Journaled p) in
      let end = run_turns p (turns ++ e.drained) (idle f) in
      subst
        (λ folder.
          Reads p (added_by p (turns ++ e.drained)) (load_transcripts_from_folder p folder))
        (sym (
          stop_and_save-folder p e duration s path m
          ∙ written_by e s end (stop_tasks-writer e turns s t w)))
        (checked-Reads p e last (added_by p (turns ++ e.drained)) end ranked readable h b q v)
