-- ===== src/Transcripts/JournalWriter/Kept.antt =====
-- What the folder holds at any moment.
use meetily_local.Common.{
  ℕ, ◌≤◌, ◌<◌, ◌≡◌, ◌⊎◌, refl, sym, ap, ◌∙◌, subst, Bool, true, false, Option, none, some, List, [],
  ◌∷◌, ◌++◌, append_assoc, append-nil, arith, Float, inl, inr, if◌then◌else◌,
}
use meetily_local.Recording.Service.{TranscriptSegment, upsert}
use meetily_local.Transcripts.{
  Platform, Folder, whole, append_transcript_journal_line, journal_line,
  sort_segments_chronologically, write_transcripts_json, json_segments, object,
}
use meetily_local.Transcripts.Order.{upsert_all}
use meetily_local.Transcripts.Lines.{journal_of}
use meetily_local.Transcripts.Replay.{upsert_all-append}
use meetily_local.Transcripts.JournalWriter.{
  JournalWriter, WriterTurn, added, received, debounced, turn, run_turns, idle, add_segment,
  receive_from, rebuild_transcripts_json,
}

module _ {f : Float} (p : Platform f) where
  -- The segments that were added, in their order.
  abbrev pub added_by : List (ℕ × WriterTurn f) → List (TranscriptSegment f)
  added_by [] = []
  added_by ((now, added t) ∷ ts) = t ∷ added_by ts
  added_by ((now, _) ∷ ts) = added_by ts

  -- Times that grow, and appends that work.
  abbrev Works : WriterTurn f → Type 0
  Works (added t) = Unit
  Works (received a) = a ≡ whole
  Works (debounced works) = Unit

  abbrev pub Working : ℕ → List (ℕ × WriterTurn f) → Type 0
  Working last [] = Unit
  Working last ((now, t) ∷ ts) = (last < now) × Works t × Working now ts

  abbrev pub sorted_after : List (TranscriptSegment f) → List (TranscriptSegment f)
  sorted_after ts = sort_segments_chronologically p (upsert_all ts [])

  -- The journal has the segments that were received.
  abbrev pub HasJournal : ℕ → List (TranscriptSegment f) → Option (List ℕ × Option ℕ) → Type 0
  HasJournal last popped j =
      ((popped ≡ []) × (j ≡ none))
      ⊎ ((m : ℕ) × (j ≡ some (journal_of p popped, some m)) × (m ≤ last))

  abbrev pub IsNewer : ℕ → Option (List ℕ × Option ℕ) → Type 0
  IsNewer m none = ⊥
  IsNewer m (some (text, none)) = ⊥
  IsNewer m (some (text, some k)) = m < k

  -- transcripts.json has the segments that were added when it was rebuilt: all that the journal has,
  -- or else the journal is newer.
  pub record Rebuilt (last : ℕ) (sent popped : List (TranscriptSegment f)) (folder : Folder f)
      : Type 0 where
    pub known : List (TranscriptSegment f)
    pub later : List (TranscriptSegment f)
    pub at : ℕ
    pub split : sent ≡ known ++ later
    pub is_json :
        folder.json ≡ some (object (some (some (json_segments 0 (sorted_after known)))), some at)
    pub past : at ≤ last
    pub covers :
        ((rest : List (TranscriptSegment f)) × (known ≡ popped ++ rest)) ⊎ IsNewer at folder.journal

  pub record Journaled (last : ℕ) (sent : List (TranscriptSegment f)) (w : JournalWriter f)
      : Type 0 where
    pub popped : List (TranscriptSegment f)
    pub sent_split : sent ≡ popped ++ w.queue
    pub held : w.segments ≡ upsert_all sent []
    pub has_journal : HasJournal last popped w.folder.journal
    pub json : (w.folder.json ≡ none) ⊎ Rebuilt last sent popped w.folder

  pub idle-Journaled : Journaled 0 [] (idle f)
  idle-Journaled = record {
    popped = [];
    sent_split = refl;
    held = refl;
    has_journal = inl (refl, refl);
    json = inl refl;
  }

  later-Rebuilt :
      (last now : ℕ) (sent popped : List (TranscriptSegment f)) (folder : Folder f)
      → last < now
      → Rebuilt last sent popped folder
      → Rebuilt now sent popped folder
  later-Rebuilt last now sent popped folder l r = record {
    known = r.known;
    later = r.later;
    at = r.at;
    split = r.split;
    is_json = r.is_json;
    past = omega (arith, l, r.past);
    covers = r.covers;
  }

  add-Rebuilt :
      (last now : ℕ) (sent popped : List (TranscriptSegment f)) (t : TranscriptSegment f)
      (folder : Folder f)
      → last < now
      → Rebuilt last sent popped folder
      → Rebuilt now (sent ++ t ∷ []) popped folder
  add-Rebuilt last now sent popped t folder l r = record {
    known = r.known;
    later = r.later ++ t ∷ [];
    at = r.at;
    split = ap (λ s. s ++ t ∷ []) r.split ∙ append_assoc r.known r.later (t ∷ []);
    is_json = r.is_json;
    past = omega (arith, l, r.past);
    covers = r.covers;
  }

  HasJournal-later :
      (last now : ℕ) (popped : List (TranscriptSegment f)) (j : Option (List ℕ × Option ℕ))
      → last < now
      → HasJournal last popped j
      → HasJournal now popped j
  HasJournal-later last now popped j l (inl e) = inl e
  HasJournal-later last now popped j l (inr (m, e, b)) = inr (m, e, omega (arith, l, b))

  add-Journaled :
      (last now : ℕ) (sent : List (TranscriptSegment f)) (t : TranscriptSegment f)
      (w : JournalWriter f)
      → last < now
      → Journaled last sent w
      → Journaled now (sent ++ t ∷ []) (turn p now (added t) w)
  unfolding turn add_segment
  add-Journaled last now sent t w l v = record {
    popped = v.popped;
    sent_split = ap (λ s. s ++ t ∷ []) v.sent_split ∙ append_assoc v.popped w.queue (t ∷ []);
    held = ap (upsert f t) v.held ∙ sym (upsert_all-append sent (t ∷ []) []);
    has_journal = HasJournal-later last now v.popped w.folder.journal l v.has_journal;
    json = elim v.json [
      | inl e ↦ inl e
      | inr r ↦ inr (add-Rebuilt last now sent v.popped t w.folder l r)
    ];
  }

  journal_of-append :
      (ts : List (TranscriptSegment f)) (t : TranscriptSegment f)
      → journal_of p (ts ++ t ∷ []) ≡ journal_of p ts ++ journal_line p t
  journal_of-append [] t = append-nil (journal_line p t)
  journal_of-append (s ∷ ts) t =
      ap (λ l. journal_line p s ++ l) (journal_of-append ts t)
      ∙ sym (append_assoc (journal_line p s) (journal_of p ts) (journal_line p t))

  appended :
      (last now : ℕ) (popped : List (TranscriptSegment f)) (t : TranscriptSegment f)
      (j : Option (List ℕ × Option ℕ))
      → HasJournal last popped j
      → (append_transcript_journal_line p whole (some now) t j).0
        ≡ some (journal_of p (popped ++ t ∷ []), some now)
  unfolding append_transcript_journal_line
  appended last now popped t j (inl (e, g)) =
      rw (e, g) (ap (λ l. some (l, some now)) (sym (append-nil (journal_line p t))))
  appended last now popped t j (inr (m, e, b)) =
      rw e (ap (λ l. some (l, some now)) (sym (journal_of-append popped t)))

  receive-Journaled :
      (last now : ℕ) (sent q : List (TranscriptSegment f)) (w : JournalWriter f)
      → last < now
      → w.queue ≡ q
      → Journaled last sent w
      → Journaled now sent (receive_from p whole now q w)
  unfolding receive_from
  receive-Journaled last now sent [] w l e v = record {
    popped = v.popped;
    sent_split = v.sent_split;
    held = v.held;
    has_journal = HasJournal-later last now v.popped w.folder.journal l v.has_journal;
    json = elim v.json [
      | inl e ↦ inl e
      | inr r ↦ inr (later-Rebuilt last now sent v.popped w.folder l r)
    ];
  }
  receive-Journaled last now sent (t ∷ ts) w l e v =
      let journal = appended last now v.popped t w.folder.journal v.has_journal in
      record {
        popped = v.popped ++ t ∷ [];
        sent_split =
            v.sent_split ∙ ap (λ q. v.popped ++ q) e ∙ sym (append_assoc v.popped (t ∷ []) ts);
        held = v.held;
        has_journal = inr (now, journal, omega arith);
        json = elim v.json [
          | inl e ↦ inl e
          | inr r ↦ inr (record {
            known = r.known;
            later = r.later;
            at = r.at;
            split = r.split;
            is_json = r.is_json;
            past = omega (arith, l, r.past);
            covers = inr (subst (IsNewer r.at) (sym journal) (omega (arith, l, r.past)));
          })
        ];
      }

  Journaled-later :
      (last now : ℕ) (sent : List (TranscriptSegment f)) (w : JournalWriter f)
      → last < now
      → Journaled last sent w
      → Journaled now sent w
  Journaled-later last now sent w l v = record {
    popped = v.popped;
    sent_split = v.sent_split;
    held = v.held;
    has_journal = HasJournal-later last now v.popped w.folder.journal l v.has_journal;
    json = elim v.json [
      | inl e ↦ inl e
      | inr r ↦ inr (later-Rebuilt last now sent v.popped w.folder l r)
    ];
  }

  rebuild-Journaled :
      (last now : ℕ) (sent : List (TranscriptSegment f)) (works : Bool) (w : JournalWriter f)
      → last < now
      → Journaled last sent w
      → Journaled now sent (rebuild_transcripts_json p works now w)
  unfolding rebuild_transcripts_json write_transcripts_json
  rebuild-Journaled last now sent false w l v = record {
    popped = v.popped;
    sent_split = v.sent_split;
    held = v.held;
    has_journal = HasJournal-later last now v.popped w.folder.journal l v.has_journal;
    json = elim v.json [
      | inl e ↦ inl e
      | inr r ↦ inr (later-Rebuilt last now sent v.popped w.folder l r)
    ];
  }
  rebuild-Journaled last now sent true w l v = record {
    popped = v.popped;
    sent_split = v.sent_split;
    held = v.held;
    has_journal = HasJournal-later last now v.popped w.folder.journal l v.has_journal;
    json = inr (record {
      known = sent;
      later = [];
      at = now;
      split = sym (append-nil sent);
      is_json =
          ap
            (λ ts. some (
              object (some (some (json_segments 0 (sort_segments_chronologically p ts)))),
              some now,
            ))
            v.held;
      past = omega arith;
      covers = inl (w.queue, v.sent_split);
    });
  }

  either :
      (now : ℕ) (sent : List (TranscriptSegment f)) (b : Bool) (w w' : JournalWriter f)
      → Journaled now sent w
      → Journaled now sent w'
      → Journaled now sent (if b then w else w')
  either now sent true w w' h g = h
  either now sent false w w' h g = g

  pub run_turns-Journaled :
      (last : ℕ) (sent : List (TranscriptSegment f)) (turns : List (ℕ × WriterTurn f))
      (w : JournalWriter f)
      → Working last turns
      → Journaled last sent w
      → (now : ℕ) × Journaled now (sent ++ added_by turns) (run_turns p turns w)
  unfolding run_turns turn
  run_turns-Journaled last sent [] w ok v =
      (last, subst (λ s. Journaled last s w) (sym (append-nil sent)) v)
  run_turns-Journaled last sent ((now, added t) ∷ ts) w ok v =
      let (end, r) =
        run_turns-Journaled now (sent ++ t ∷ []) ts (turn p now (added t) w) ok.2
          (add-Journaled last now sent t w ok.0 v) in
      (
        end,
        subst (λ s. Journaled end s (run_turns p ts (turn p now (added t) w)))
            (append_assoc sent (t ∷ []) (added_by ts)) r,
      )
  run_turns-Journaled last sent ((now, received a) ∷ ts) w ok v =
      run_turns-Journaled now sent ts (receive_from p a now w.queue w) ok.2 (
        subst (λ b. Journaled now sent (receive_from p b now w.queue w)) (sym ok.1)
          (receive-Journaled last now sent w.queue w ok.0 refl v))
  run_turns-Journaled last sent ((now, debounced works) ∷ ts) w ok v =
      run_turns-Journaled now sent ts (turn p now (debounced works) w) ok.2 (
        either now sent w.dirty (rebuild_transcripts_json p works now w) w
          (rebuild-Journaled last now sent works w ok.0 v) (Journaled-later last now sent w ok.0 v))
