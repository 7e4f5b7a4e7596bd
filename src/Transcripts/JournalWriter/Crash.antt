-- ===== src/Transcripts/JournalWriter/Crash.antt =====
-- What a reader of the folder finds at any moment.
use meetily_local.Common.{
  ℕ, ◌≡◌, ◌⊎◌, refl, sym, ap, ◌∙◌, subst, Option, none, some, List, [], ◌∷◌, ◌++◌, append-nil,
  Float, inl, inr,
}
use meetily_local.Recording.Service.{TranscriptSegment}
use meetily_local.Transcripts.{
  Platform, Folder, sort_segments_chronologically, load_transcripts_from_folder, json_segments,
  replay_transcript_journal,
}
use meetily_local.Transcripts.Order.{HaveIds, Ranked}
use meetily_local.Transcripts.Lines.{Readable, ReadBack, journal_of}
use meetily_local.Transcripts.Replay.{replay-journal_of}
use meetily_local.Transcripts.JournalWriter.{JournalWriter, WriterTurn, run_turns, idle}
use meetily_local.Transcripts.JournalWriter.Kept.{
  added_by, Working, sorted_after, HasJournal, IsNewer, Rebuilt, Journaled, idle-Journaled,
  run_turns-Journaled,
}
use meetily_local.Transcripts.JournalWriter.Load.{
  load_empty, load_json, load_journal, load_newer, load_either,
}

module _ {f : Float} (p : Platform f) where
  -- What a reader gets for segments: themselves from the journal, their JSON from transcripts.json.
  abbrev pub Reads : List (TranscriptSegment f) → Option (List (TranscriptSegment f)) → Type 0
  Reads ts loaded =
      (loaded ≡ some (sorted_after p ts)) ⊎ (loaded ≡ some (json_segments 0 (sorted_after p ts)))

  -- The reader's segments are all that were added up to some moment not before `popped`.
  abbrev pub ReadsBetween :
      List (TranscriptSegment f) → List (TranscriptSegment f) → Folder f → Type 0
  ReadsBetween popped sent folder =
      (seen : List (TranscriptSegment f)) × ((rest : List (TranscriptSegment f)) × (seen
          ≡ popped ++ rest))
      × ((rest : List (TranscriptSegment f)) × (sent ≡ seen ++ rest))
      × Reads seen (load_transcripts_from_folder p folder)

  HaveIds-prefix : (ts us : List (TranscriptSegment f)) → HaveIds (ts ++ us) → HaveIds ts
  HaveIds-prefix [] us h = tt
  HaveIds-prefix (t ∷ ts) us h = (h.0, HaveIds-prefix ts us h.1)

  ReadBack-prefix : (ts us : List (TranscriptSegment f)) → ReadBack p (ts ++ us) → ReadBack p ts
  ReadBack-prefix [] us h = tt
  ReadBack-prefix (t ∷ ts) us h = (h.0, ReadBack-prefix ts us h.1)

  sorted_nil : sorted_after p [] ≡ []
  unfolding sort_segments_chronologically
  sorted_nil = refl

  reads_popped :
      (popped sent queue : List (TranscriptSegment f)) (folder : Folder f)
      → sent ≡ popped ++ queue
      → load_transcripts_from_folder p folder ≡ some (sorted_after p popped)
      → ReadsBetween popped sent folder
  reads_popped popped sent queue folder e h =
      (popped, ([], sym (append-nil popped)), (queue, e), inl h)

  pub Journaled-ReadsBetween :
      (last : ℕ) (sent : List (TranscriptSegment f)) (w : JournalWriter f)
      → Ranked p
      → Readable p
      → HaveIds sent
      → ReadBack p sent
      → (v : Journaled p last sent w) → ReadsBetween v.popped sent w.folder
  Journaled-ReadsBetween last sent w ranked readable h b v = go v.has_journal v.json
    where
      parts : HaveIds (v.popped ++ w.queue) × ReadBack p (v.popped ++ w.queue)
      parts = (subst HaveIds v.sent_split h, subst (ReadBack p) v.sent_split b)

      replayed :
          replay_transcript_journal p (journal_of p v.popped) ≡ some (sorted_after p v.popped)
      replayed =
          replay-journal_of p v.popped ranked readable (HaveIds-prefix v.popped w.queue parts.0)
            (ReadBack-prefix v.popped w.queue parts.1)

      from_journal :
          load_transcripts_from_folder p w.folder ≡ some (sorted_after p v.popped)
          → ReadsBetween v.popped sent w.folder
      from_journal e = reads_popped v.popped sent w.queue w.folder v.sent_split e

      from_json :
          (r : Rebuilt p last sent v.popped w.folder)
          → ((rest : List (TranscriptSegment f)) × (r.known ≡ v.popped ++ rest))
          → load_transcripts_from_folder p w.folder
            ≡ some (json_segments 0 (sorted_after p r.known))
          → ReadsBetween v.popped sent w.folder
      from_json r known e = (r.known, known, (r.later, r.split), inr e)

      newer :
          (r : Rebuilt p last sent v.popped w.folder) (m : ℕ)
          → w.folder.journal ≡ some (journal_of p v.popped, some m)
          → ((rest : List (TranscriptSegment f)) × (r.known ≡ v.popped ++ rest))
            ⊎ IsNewer p r.at w.folder.journal
          → ReadsBetween v.popped sent w.folder
      newer r m e (inr l) = from_journal (
          load_newer p readable w.folder (journal_of p v.popped) (sorted_after p v.popped)
            (json_segments 0 (sorted_after p r.known)) r.at m r.is_json replayed e
            (subst (IsNewer p r.at) e l))
      newer r m e (inl known) =
          elim (load_either p readable w.folder (journal_of p v.popped) (sorted_after p v.popped)
            (json_segments 0 (sorted_after p r.known)) r.at m r.is_json replayed e) [
              | inl q ↦ from_journal q
              | inr q ↦ from_json r known q
            ]

      go :
          HasJournal p last v.popped w.folder.journal
          → (w.folder.json ≡ none) ⊎ Rebuilt p last sent v.popped w.folder
          → ReadsBetween v.popped sent w.folder
      go (inl (e, g)) (inl q) =
          reads_popped v.popped sent w.queue w.folder v.sent_split (
            load_empty p readable w.folder q g ∙ ap some (sym (ap (sorted_after p) e ∙ sorted_nil)))
      go (inl (e, g)) (inr r) =
          from_json r (r.known, ap (λ ts. ts ++ r.known) (sym e))
            (load_json p readable w.folder (json_segments 0 (sorted_after p r.known)) r.at r.is_json
              g)
      go (inr (m, e, l)) (inl q) = from_journal (
          load_journal p readable w.folder (journal_of p v.popped) (sorted_after p v.popped) m q
            replayed e)
      go (inr (m, e, l)) (inr r) = newer r m e r.covers

  -- A recording that is cut off at any moment, all appends of which worked, the rebuilds or not, at
  -- times that grow, of segments that carry 64-bit numbers and read back as they were written, with
  -- times that are not NaN, into a folder whose files can be read: what is loaded from the folder has,
  -- in chronological order, the segments that were held at some moment since the last one that
  -- reached the journal, for each sequence number the one that was added last until then; those
  -- still in the channel may be missing. They are the segments themselves where the journal is read,
  -- and the segments without their source where transcripts.json is.
  pub run_turns-load :
      (turns : List (ℕ × WriterTurn f))
      → Ranked p
      → Readable p
      → Working p 0 turns
      → HaveIds (added_by p turns)
      → ReadBack p (added_by p turns)
      → let w = run_turns p turns (idle f) in
        (popped : List (TranscriptSegment f)) × (added_by p turns ≡ popped ++ w.queue)
        × ReadsBetween popped (added_by p turns) w.folder
  run_turns-load turns ranked readable ok h b =
      let (last, v) = run_turns-Journaled p 0 [] turns (idle f) ok (idle-Journaled p) in
      (
        v.popped,
        v.sent_split,
        Journaled-ReadsBetween last (added_by p turns) (run_turns p turns (idle f)) ranked readable
            h b v,
      )
