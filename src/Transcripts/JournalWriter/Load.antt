-- ===== src/Transcripts/JournalWriter/Load.antt =====
-- Which of the two files is read.
use meetily_local.Common.{
  ℕ, ◌<◌, ◌≡◌, ◌⊎◌, refl, none, some, List, [], arith, Float, Bool-cases, inl, inr, ltb, length,
  ◌||◌,
}
use meetily_local.Recording.Service.{TranscriptSegment}
use meetily_local.Transcripts.{
  Platform, Folder, load_transcripts_from_folder, object, replay_transcript_journal, prefer,
  journal_is_fresher, is_newer, json_part, parse_document,
}
use meetily_local.Transcripts.Lines.{Readable}

module _ {f : Float} (p : Platform f) (r : Readable p) where
  -- Which of the two is read.
  pub load_empty :
      (folder : Folder f)
      → folder.json ≡ none
      → folder.journal ≡ none
      → load_transcripts_from_folder p folder ≡ some []
  unfolding load_transcripts_from_folder prefer json_part
  load_empty folder e g = rw (e, g) refl

  pub load_json :
      (folder : Folder f) (segments : List (TranscriptSegment f)) (m : ℕ)
      → folder.json ≡ some (object (some (some segments)), some m)
      → folder.journal ≡ none
      → load_transcripts_from_folder p folder ≡ some segments
  unfolding load_transcripts_from_folder prefer json_part parse_document
  load_json folder segments m e g = rw (e, r.has_json, g) refl

  pub load_journal :
      (folder : Folder f) (contents : List ℕ) (replayed : List (TranscriptSegment f)) (m : ℕ)
      → folder.json ≡ none
      → replay_transcript_journal p contents ≡ some replayed
      → folder.journal ≡ some (contents, some m)
      → load_transcripts_from_folder p folder ≡ some replayed
  unfolding load_transcripts_from_folder prefer json_part journal_is_fresher
  load_journal folder contents replayed m e q g = rw (e, g, q) refl

  pub load_newer :
      (folder : Folder f) (contents : List ℕ) (replayed : List (TranscriptSegment f))
      (segments : List (TranscriptSegment f)) (m k : ℕ)
      → folder.json ≡ some (object (some (some segments)), some m)
      → replay_transcript_journal p contents ≡ some replayed
      → folder.journal ≡ some (contents, some k)
      → m < k
      → load_transcripts_from_folder p folder ≡ some replayed
  unfolding load_transcripts_from_folder prefer json_part parse_document journal_is_fresher is_newer
  load_newer folder contents replayed segments m k e q g l =
      rw (e, r.has_json, g, q) (ground (arith, l))

  pub load_either :
      (folder : Folder f) (contents : List ℕ) (replayed : List (TranscriptSegment f))
      (segments : List (TranscriptSegment f)) (m k : ℕ)
      → folder.json ≡ some (object (some (some segments)), some m)
      → replay_transcript_journal p contents ≡ some replayed
      → folder.journal ≡ some (contents, some k)
      → (load_transcripts_from_folder p folder ≡ some replayed)
        ⊎ (load_transcripts_from_folder p folder ≡ some segments)
  unfolding load_transcripts_from_folder prefer json_part parse_document journal_is_fresher
  load_either folder contents replayed segments m k e q g =
      elim (Bool-cases (is_newer (some k) (some m) || ltb (length segments) (length replayed))) [
        | inl h ↦ inl (rw (e, r.has_json, g, q, h) refl)
        | inr h ↦ inr (rw (e, r.has_json, g, q, h) refl)
      ]
