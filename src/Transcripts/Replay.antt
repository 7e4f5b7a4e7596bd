-- ===== src/Transcripts/Replay.antt =====
-- What the replay of the journal gives.
use mathlib.Core.Option
use meetily_local.Common.{
  ℕ, ◌<◌, ◌≡◌, ◌≢◌, refl, sym, ap, ◌∙◌, true, false, Bool, Option, none, some, List, [], ◌∷◌, ◌++◌,
  arith, Float, Bool-cases, inl, inr, same_text, length, take, append-nil,
}
use meetily_local.Recording.Service.{TranscriptSegment, upsert, same_id}
use meetily_local.Transcription.Worker.Hallucination.{trim}
use meetily_local.Transcripts.{
  Platform, journal_replay_key, insert_key, insert_parsed, into_values, journal_line,
  replay_transcript_journal, read_journal, replay_text, sort_segments_chronologically, lines,
  replay_lines,
}
use meetily_local.Transcripts.Order.{
  HasId, HaveIds, Lacks, Distinct, upsert_all, Ranked, sort_segments_unique,
}
use meetily_local.Transcripts.Lines.{
  IsOneLine, Readable, ReadsBack, ReadBack, journal_of, text_of_journal, insert_all,
  from_utf8-journal_of, take-journal_line, replay_lines-torn, replay_lines-journal_of,
}
use meetily_local.Transcripts.Keys.{same_key}

same_id_sound : (f : Float) (i j : Option ℕ) → same_id f i j ≡ true → i ≡ j
same_id_sound f none none h = refl
same_id_sound f none (some j) h = absurd (ground (arith, h))
same_id_sound f (some i) none h = absurd (ground (arith, h))
same_id_sound f (some i) (some j) h = ap some (ground (arith, h))

same_id_refl : (f : Float) (i j : Option ℕ) → i ≡ j → same_id f i j ≡ true
same_id_refl f none none h = refl
same_id_refl f none (some j) h = absurd (ground (arith, h))
same_id_refl f (some i) none h = absurd (ground (arith, h))
same_id_refl f (some i) (some j) h = ground (arith, h)

module _ {f : Float} where
  abbrev tagged : List (TranscriptSegment f) → List (List ℕ × TranscriptSegment f)
  tagged [] = []
  tagged (t ∷ ts) = (journal_replay_key t, t) ∷ tagged ts

  into_values-tagged : (ts : List (TranscriptSegment f)) → into_values (tagged ts) ≡ ts
  into_values-tagged [] = refl
  into_values-tagged (t ∷ ts) = ap (◌∷◌ t) (into_values-tagged ts)

  same_key-same_id :
      (s t : TranscriptSegment f)
      → HasId s
      → HasId t
      → same_text (journal_replay_key s) (journal_replay_key t)
        ≡ same_id f s.sequence_id t.sequence_id
  same_key-same_id s t (n, e, h) (m, g, k) = same_key s t n m e g h k ∙ sym (rw (e, g) refl)

  insert_key-tagged :
      (t : TranscriptSegment f) (ts : List (TranscriptSegment f))
      → HasId t
      → HaveIds ts
      → insert_key (journal_replay_key t) t (tagged ts) ≡ tagged (upsert f t ts)
  unfolding insert_key upsert
  insert_key-tagged t [] h hs = refl
  insert_key-tagged t (s ∷ ts) h hs = elim (Bool-cases (same_id f s.sequence_id t.sequence_id)) [
    | inl e ↦ rw (same_key-same_id s t hs.0 h, e) refl
    | inr e ↦
        rw (same_key-same_id s t hs.0 h, e)
          (ap (◌∷◌ (journal_replay_key s, s)) (insert_key-tagged t ts h hs.1))
  ]

  pub HaveIds-upsert :
      (t : TranscriptSegment f) (ts : List (TranscriptSegment f))
      → HasId t
      → HaveIds ts
      → HaveIds (upsert f t ts)
  unfolding upsert
  HaveIds-upsert t [] h hs = (h, tt)
  HaveIds-upsert t (s ∷ ts) h hs = elim (Bool-cases (same_id f s.sequence_id t.sequence_id)) [
    | inl e ↦ rw e (h, hs.1)
    | inr e ↦ rw e (hs.0, HaveIds-upsert t ts h hs.1)
  ]

  Lacks-upsert :
      (i : Option ℕ) (t : TranscriptSegment f) (ts : List (TranscriptSegment f))
      → t.sequence_id ≢ i
      → Lacks i ts
      → Lacks i (upsert f t ts)
  unfolding upsert
  Lacks-upsert i t [] n l = (n, tt)
  Lacks-upsert i t (s ∷ ts) n l = elim (Bool-cases (same_id f s.sequence_id t.sequence_id)) [
    | inl e ↦ rw e (n, l.1)
    | inr e ↦ rw e (l.0, Lacks-upsert i t ts n l.1)
  ]

  Lacks-along : (i j : Option ℕ) (ts : List (TranscriptSegment f)) → i ≡ j → Lacks i ts → Lacks j ts
  Lacks-along i j [] e l = tt
  Lacks-along i j (t ∷ ts) e l = ((λ q. l.0 (q ∙ sym e)), Lacks-along i j ts e l.1)

  Distinct-upsert :
      (t : TranscriptSegment f) (ts : List (TranscriptSegment f))
      → Distinct ts
      → Distinct (upsert f t ts)
  unfolding upsert
  Distinct-upsert t [] d = (tt, tt)
  Distinct-upsert t (s ∷ ts) d = elim (Bool-cases (same_id f s.sequence_id t.sequence_id)) [
    | inl e ↦ rw e (
      Lacks-along s.sequence_id t.sequence_id ts (same_id_sound f s.sequence_id t.sequence_id e)
          d.0,
      d.1,
    )
    | inr e ↦ rw e (
      Lacks-upsert s.sequence_id t ts
          (λ q. differ e (same_id_refl f s.sequence_id t.sequence_id (sym q))) d.0,
      Distinct-upsert t ts d.1,
    )
  ]
    where
      differ : {b : Bool} → b ≡ false → b ≡ true → ⊥
      differ e g = ground (arith, e, g)

  pub upsert_all-HaveIds :
      (ts held : List (TranscriptSegment f))
      → HaveIds ts
      → HaveIds held
      → HaveIds (upsert_all ts held)
  upsert_all-HaveIds [] held h k = k
  upsert_all-HaveIds (t ∷ ts) held h k =
      upsert_all-HaveIds ts (upsert f t held) h.1 (HaveIds-upsert t held h.0 k)

  pub upsert_all-Distinct :
      (ts held : List (TranscriptSegment f)) → Distinct held → Distinct (upsert_all ts held)
  upsert_all-Distinct [] held d = d
  upsert_all-Distinct (t ∷ ts) held d =
      upsert_all-Distinct ts (upsert f t held) (Distinct-upsert t held d)

  pub upsert_all-append :
      (ts us held : List (TranscriptSegment f))
      → upsert_all (ts ++ us) held ≡ upsert_all us (upsert_all ts held)
  upsert_all-append [] us held = refl
  upsert_all-append (t ∷ ts) us held = upsert_all-append ts us (upsert f t held)

none_left :
    {f : Float} (p : Platform f) (m : List (List ℕ × TranscriptSegment f))
    → replay_lines p (lines []) m ≡ m
unfolding replay_lines lines
none_left p m = refl

module _ {f : Float} (p : Platform f) where
  insert_all-tagged :
      (ts held : List (TranscriptSegment f))
      → HaveIds ts
      → HaveIds held
      → insert_all p ts (tagged held) ≡ tagged (upsert_all ts held)
  unfolding insert_parsed
  insert_all-tagged [] held h k = refl
  insert_all-tagged (t ∷ ts) held h k =
      ap (insert_all p ts) (insert_key-tagged t held h.0 k)
      ∙ insert_all-tagged ts (upsert f t held) h.1 (HaveIds-upsert t held h.0 k)

  replay_text-sorted :
      (ts : List (TranscriptSegment f)) (text : List ℕ)
      → Ranked p
      → Readable p
      → HaveIds ts
      → replay_lines p (lines text) [] ≡ insert_all p ts []
      → replay_text p text ≡ sort_segments_chronologically p (upsert_all ts [])
  unfolding replay_text
  replay_text-sorted ts text ranked r h e =
      let held = upsert_all ts [] in
      ap (λ m. sort_segments_chronologically p (p.values (into_values m)))
        (e ∙ insert_all-tagged ts [] h tt)
      ∙ ap (λ us. sort_segments_chronologically p (p.values us)) (into_values-tagged held)
      ∙ sym (
          sort_segments_unique p ranked (r.shuffles held) (upsert_all-HaveIds ts [] h tt)
            (upsert_all-Distinct ts [] tt))

  replay_read :
      (bytes : List ℕ)
      → Readable p
      → replay_transcript_journal p bytes ≡ Option.map (replay_text p) (p.from_utf8 bytes)
  unfolding replay_transcript_journal read_journal
  replay_read bytes r = rw r.has_journal refl

  -- Segments that carry 64-bit numbers and read back as they were written, times that are not NaN, a
  -- journal that can be read: the replay of the journal they were appended to, one after the other,
  -- gives the segments that `add_transcript_segment` holds after them, in chronological order.
  pub replay-journal_of :
      (ts : List (TranscriptSegment f))
      → Ranked p
      → Readable p
      → HaveIds ts
      → ReadBack p ts
      → replay_transcript_journal p (journal_of p ts)
        ≡ some (sort_segments_chronologically p (upsert_all ts []))
  replay-journal_of ts ranked r h b =
      ap (replay_transcript_journal p) (sym (append-nil (journal_of p ts)))
      ∙ replay_read (journal_of p ts ++ []) r
      ∙ ap (Option.map (replay_text p)) (
          from_utf8-journal_of p ts [] r
          ∙ ap (Option.map (λ rest. text_of_journal p ts ++ rest)) r.empty)
      ∙ ap some (
          replay_text-sorted ts (text_of_journal p ts ++ []) ranked r h
            (replay_lines-journal_of p ts [] [] b ∙ none_left p (insert_all p ts [])))

  torn_text :
      (ts : List (TranscriptSegment f)) (o : Option (List ℕ))
      → Ranked p
      → Readable p
      → HaveIds ts
      → ReadBack p ts
      → ((left : List ℕ)
          → o ≡ some left
          → IsOneLine left × (p.from_str (trim p.is_whitespace left) ≡ none))
      → Option.map (replay_text p) (Option.map (λ rest. text_of_journal p ts ++ rest) o)
        ≡ Option.map (λ left. sort_segments_chronologically p (upsert_all ts [])) o
  torn_text ts none ranked r h b g = refl
  torn_text ts (some left) ranked r h b g =
      let (line, unparsed) = g left refl in
      ap some (
        replay_text-sorted ts (text_of_journal p ts ++ left) ranked r h
          (replay_lines-torn p ts left b line unparsed))

  -- The journal of segments that carry 64-bit numbers and read back as they were written, with times
  -- that are not NaN, in a file that can be read, and after it a last line that a crash cut short
  -- after `n` bytes, before the end of its JSON: if what is left of the line is UTF-8, the replay
  -- gives the segments that were appended before it, in chronological order; if the cut is inside a
  -- character, the whole replay fails, and gives none of them.
  pub replay-torn :
      (ts : List (TranscriptSegment f)) (t : TranscriptSegment f) (n : ℕ)
      → Ranked p
      → Readable p
      → HaveIds ts
      → ReadBack p ts
      → ReadsBack p t
      → n < length (p.as_bytes (p.to_string t))
      → replay_transcript_journal p (journal_of p ts ++ take n (journal_line p t))
        ≡ Option.map
            (λ left. sort_segments_chronologically p (upsert_all ts []))
            (p.from_utf8 (take n (journal_line p t)))
  replay-torn ts t n ranked r h b g l =
      let cut = take n (journal_line p t) in
      replay_read (journal_of p ts ++ cut) r
      ∙ ap (Option.map (replay_text p)) (from_utf8-journal_of p ts cut r)
      ∙ torn_text ts (p.from_utf8 cut) ranked r h b
          (λ left e. g.torn n left l (ap p.from_utf8 (sym (take-journal_line p t n r l)) ∙ e))
