-- ===== src/Transcripts/Session/Discarded.antt =====
-- When a session's folder is removed.
use mathlib.Core.Option
use mathlib.Core.List.{Permᴰ}
use mathlib.Core.Bool.{false≢true}
use meetily_local.Common.{
  ℕ, suc, ◌≡◌, ◌≢◌, ◌⊎◌, ◌||◌, codes, refl, sym, ap, ◌∙◌, subst, Bool, true, false, not, ◌&&◌,
  Option, none, some, List, [], ◌∷◌, ◌++◌, arith, Float, inl, inr, length, Bool-cases, Option-cases,
  ltb,
}
use meetily_local.Common.Sorting.{sort_by-perm}
use meetily_local.Recording.Service.{TranscriptSegment, upsert, same_id}
use meetily_local.Transcripts.{
  Platform, sort_segments_chronologically, load_transcripts_from_folder, json_segments, is_later,
}
use meetily_local.Transcripts.Order.{HaveIds, upsert_all, Ranked}
use meetily_local.Transcripts.Lines.{Readable, ReadBack}
use meetily_local.Transcripts.JournalWriter.{WriterTurn, run_turns, idle}
use meetily_local.Transcripts.JournalWriter.Kept.{added_by, Working, sorted_after}
use meetily_local.Transcripts.JournalWriter.Crash.{Reads, run_turns-load}
use meetily_local.Transcripts.Session.{RecordingSaver}
use meetily_local.Transcripts.Session.Discard.{
  starts_with, has_checkpoint_audio, session_is_empty, discard_empty_session, is_none_or_empty,
}

both : (a b : Bool) → not a && b ≡ true → (a ≡ false) × (b ≡ true)
both a b h = ground (arith, h)

module _ {f : Float} where
  length-perm : {xs ys : List (TranscriptSegment f)} → Permᴰ xs ys → length xs ≡ length ys
  length-perm Permᴰ.nil = refl
  length-perm (Permᴰ.cons e q) = ap suc (length-perm q)
  length-perm (Permᴰ.swap e g) = refl
  length-perm (Permᴰ.trans q r) = length-perm q ∙ length-perm r

  upsert-length :
      (t : TranscriptSegment f) (ts : List (TranscriptSegment f))
      → ltb 0 (length (upsert f t ts)) ≡ true
  unfolding upsert
  upsert-length t [] = refl
  upsert-length t (s ∷ ts) = elim (Bool-cases (same_id f s.sequence_id t.sequence_id)) [
    | inl e ↦ rw e (ground arith)
    | inr e ↦ rw e (ground arith)
  ]

  upsert_all-length :
      (ts held : List (TranscriptSegment f))
      → ltb 0 (length held) ≡ true
      → ltb 0 (length (upsert_all ts held)) ≡ true
  upsert_all-length [] held h = h
  upsert_all-length (t ∷ ts) held h = upsert_all-length ts (upsert f t held) (upsert-length t held)

  length-json_segments :
      (i : ℕ) (ts : List (TranscriptSegment f)) → length (json_segments i ts) ≡ length ts
  unfolding json_segments
  length-json_segments i [] = refl
  length-json_segments i (t ∷ ts) = ap suc (length-json_segments (suc i) ts)

module _ {f : Float} (p : Platform f) where
  sorted_after-length :
      (ts : List (TranscriptSegment f)) → length (sorted_after p ts) ≡ length (upsert_all ts [])
  unfolding sort_segments_chronologically
  sorted_after-length ts = sym (length-perm (sort_by-perm (is_later p) (upsert_all ts [])))

  no_segments : (ts : List (TranscriptSegment f)) → length (upsert_all ts []) ≡ 0 → ts ≡ []
  no_segments [] h = refl
  no_segments (t ∷ ts) h =
      absurd (ground (arith, h, upsert_all-length ts (upsert f t []) (upsert-length t [])))

  -- An empty transcript that is read is that of no segments.
  reads_nothing :
      (seen : List (TranscriptSegment f)) (loaded : Option (List (TranscriptSegment f)))
      → Reads p seen loaded
      → is_none_or_empty loaded ≡ true
      → seen ≡ []
  reads_nothing seen none r h = absurd (false≢true h)
  reads_nothing seen (some (t ∷ ts)) r h = absurd (false≢true h)
  reads_nothing seen (some []) (inl e) h =
      no_segments seen
        (sym (sorted_after-length seen) ∙ ap length (sym (Option.some-injective _ _ e)))
  reads_nothing seen (some []) (inr e) h = no_segments seen (
      sym (sorted_after-length seen)
      ∙ sym (length-json_segments 0 (sorted_after p seen))
      ∙ ap length (sym (Option.some-injective _ _ e)))

  nothing_popped :
      (popped seen queue sent : List (TranscriptSegment f))
      → seen ≡ []
      → ((rest : List (TranscriptSegment f)) × (seen ≡ popped ++ rest))
      → sent ≡ popped ++ queue
      → sent ≡ queue
  nothing_popped [] seen queue sent h before e = e
  nothing_popped (t ∷ ts) seen queue sent h (rest, b) e =
      absurd (ground (arith, ap length h, ap length b))

-- What a listing of the checkpoints' directory shows: no entry whose name can be read starts so.
abbrev pub NoneNamed : List ℕ → List (Option (List ℕ)) → Type 0
NoneNamed start [] = Unit
NoneNamed start (none ∷ names) = NoneNamed start names
NoneNamed start (some name ∷ names) =
    ((rest : List ℕ) → name ≢ start ++ rest) × NoneNamed start names

starts_with-append : (start rest : List ℕ) → starts_with start (start ++ rest) ≡ true
starts_with-append [] rest = refl
starts_with-append (c ∷ cs) rest = ground (arith, starts_with-append cs rest)

no_chunks :
    (names : List (Option (List ℕ)))
    → has_checkpoint_audio (some names) ≡ false
    → NoneNamed (codes "audio_chunk_") names
unfolding has_checkpoint_audio
no_chunks [] h = tt
no_chunks (none ∷ names) h = no_chunks names h
no_chunks (some name ∷ names) h =
    let (other, rest) =
      neither (starts_with (codes "audio_chunk_") name) (has_checkpoint_audio (some names)) h in
    (
      (λ more e. false≢true (
          sym other
          ∙ ap (starts_with (codes "audio_chunk_")) e
          ∙ starts_with-append (codes "audio_chunk_") more)),
      no_chunks names rest,
    )
  where
    neither : (a b : Bool) → a || b ≡ false → (a ≡ false) × (b ≡ false)
    neither a b g = ground (arith, g)

module _ {f : Float} {I : Type 0} (p : Platform f) where
  discarded :
      (works : Bool) (s : RecordingSaver f I)
      → (discard_empty_session p works s).1 ≡ true
      → session_is_empty p s ≡ true
  unfolding discard_empty_session
  discarded works s h = elim (Option-cases s.meeting_folder) [
    | inl e ↦ absurd (false≢true (rw e at h))
    | inr (path, e) ↦ elim (Bool-cases (session_is_empty p s)) [
      | inl g ↦ g
      | inr g ↦ absurd (false≢true (rw (e, g) at h))
    ]
  ]

  -- After a recording in which all appends to the journal worked, at times that grow, of segments that
  -- carry 64-bit numbers and read back as they were written, with times that are not NaN, into a
  -- folder whose files can be read: the folder is discarded only if all segments that were added are
  -- still in the channel of the journal's task, and the directory of checkpoints, where it can be
  -- listed, has no entry with a readable name that starts with `audio_chunk_`. A directory that
  -- cannot be listed does not keep the folder.
  pub discard_empty_session-safe :
      (works : Bool) (turns : List (ℕ × WriterTurn f)) (s : RecordingSaver f I)
      (names : List (Option (List ℕ)))
      → Ranked p
      → Readable p
      → s.writer ≡ run_turns p turns (idle f)
      → Working p 0 turns
      → HaveIds (added_by p turns)
      → ReadBack p (added_by p turns)
      → (s.directory.checkpoints ≡ none) ⊎ (s.directory.checkpoints ≡ some names)
      → (discard_empty_session p works s).1 ≡ true
      → (added_by p turns ≡ s.writer.queue)
        × ((s.directory.checkpoints ≡ none) ⊎ NoneNamed (codes "audio_chunk_") names)
  unfolding session_is_empty
  discard_empty_session-safe works turns s names ranked readable w ok h b listing d =
      let (clear, empty) =
        both (has_checkpoint_audio s.directory.checkpoints)
          (is_none_or_empty (load_transcripts_from_folder p s.writer.folder))
          (discarded works s d) in
      let (popped, split, (seen, before, after, reads)) =
        run_turns-load p turns ranked readable ok h b in
      (
        nothing_popped p popped seen (run_turns p turns (idle f)).queue (added_by p turns)
              (reads_nothing p seen
                (load_transcripts_from_folder p (run_turns p turns (idle f)).folder) reads
                (subst (λ u. is_none_or_empty (load_transcripts_from_folder p u.folder) ≡ true) w
                  empty))
              before split
            ∙ ap (λ u. u.queue) (sym w),
        elim listing [
          | inl e ↦ inl e
          | inr e ↦ inr (no_chunks names (ap has_checkpoint_audio (sym e) ∙ clear))
        ],
      )
