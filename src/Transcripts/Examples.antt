-- ===== src/Transcripts/Examples.antt =====
-- Tests of the transcript's files.
use Prim.Native.Nat.{compare}
use mathlib.Core.Option
use meetily_local.Common.{
  ℕ, suc, zero, ◌^◌, ◌<◌, ◌≡◌, ◌≢◌, refl, ap, subst, ◌⊎◌, inr, codes, true, false, ◌||◌, Option,
  none, some, List, [], ◌∷◌, ◌++◌, arith, milliseconds, ltb, ◌==◌, if◌then◌else◌, same_text, length,
  take,
}
use meetily_local.Common.Sorting.{perm_self}
use meetily_local.Recording.Service.{TranscriptSegment, upsert}
use meetily_local.Transcription.Worker.Hallucination.{trim}
use meetily_local.Transcripts.{
  Platform, whole, replay_transcript_journal, sort_segments_chronologically,
  load_transcripts_from_folder, journal_line,
}
use meetily_local.Transcripts.Order.{HaveIds, upsert_all, Ranked}
use meetily_local.Transcripts.Lines.{IsOneLine, Readable, ReadsBack, ReadBack, journal_of}
use meetily_local.Transcripts.Replay.{replay-journal_of, replay-torn}
use meetily_local.Transcripts.JournalWriter.{
  WriterTurn, added, received, debounced, run_turns, idle,
}
use meetily_local.Transcripts.JournalWriter.Kept.{added_by, Working}
use meetily_local.Transcripts.JournalWriter.Crash.{Reads, ReadsBetween, run_turns-load}
use meetily_local.Transcripts.Session.{RecordingSaver}
use meetily_local.Transcripts.Session.Stop.{SaveOutcome, stop_and_save}
use meetily_local.Transcripts.Session.Saved.{stop_and_save-load}
use meetily_local.Transcripts.Session.Discard.{discard_empty_session}
use meetily_local.Transcripts.Session.Discarded.{NoneNamed, discard_empty_session-safe}

abbrev said : ℕ → ℕ → ℕ → TranscriptSegment milliseconds
said n text start = record {
  id = [];
  text = text ∷ [];
  timestamp = none;
  audio_start_time = some start;
  audio_end_time = none;
  duration = none;
  display_time = none;
  confidence = none;
  sequence_id = some n;
  speaker = none;
  voice_profile_id = none;
  source = none;
}

-- "{a}", "{b}" and "{c}", and a parser for these.
abbrev braced : List ℕ → List ℕ
braced text = b'{' ∷ text ++ b'}' ∷ []

abbrev parsed :
    List (TranscriptSegment milliseconds) → List ℕ → Option (TranscriptSegment milliseconds)
parsed [] line = none
parsed (t ∷ ts) line =
    let rest = parsed ts line in if same_text (braced t.text) line then some t else rest

abbrev three : List (TranscriptSegment milliseconds)
three = said 1 b'a' 20 ∷ said 0 b'b' 10 ∷ said 1 b'c' 20 ∷ []

-- Texts are ASCII.
abbrev platform : Platform milliseconds
platform = record {
  partial_cmp = λ a b. some (compare a b);
  f64_max = 2 ^ 1024;
  is_whitespace = λ c. c == 32 || ltb c 14;
  to_string = λ t. braced t.text;
  from_str = parsed three;
  as_bytes = λ s. s;
  from_utf8 = some;
  reads_json = true;
  reads_journal = true;
  values = λ ts. ts;
}

ranked : Ranked platform
ranked = ((λ a. a), λ a b. refl)

readable : Readable platform
readable = record {
  shuffles = λ ts. perm_self ts;
  concatenates = λ s t. refl;
  empty = refl;
  decodes = λ text bytes. refl;
  has_json = refl;
  has_journal = refl;
}

three_ids : HaveIds three
three_ids = ((1, refl, omega arith), ((0, refl, omega arith), ((1, refl, omega arith), tt)))

reads_back :
    (n c start : ℕ)
    → platform.from_str (b'{' ∷ c ∷ b'}' ∷ []) ≡ some (said n c start)
    → c ≢ 10
    → trim platform.is_whitespace (b'{' ∷ c ∷ b'}' ∷ []) ≡ b'{' ∷ c ∷ b'}' ∷ []
    → platform.from_str (trim platform.is_whitespace (b'{' ∷ c ∷ [])) ≡ none
    → ReadsBack platform (said n c start)
unfolding trim
reads_back n c start back solid trimmed torn = record {
  back = back;
  one_line = ((λ e. omega (arith, e)), (solid, ((λ e. omega (arith, e)), tt)));
  trimmed = trimmed;
  nonempty = λ e. omega (arith, ap length e);
  torn = λ n left l e.
      subst (λ s. IsOneLine s × (platform.from_str (trim platform.is_whitespace s) ≡ none))
        (Option.some-injective _ _ e) (torn_at torn solid n l);
}
  where
    torn_at :
        platform.from_str (trim platform.is_whitespace (b'{' ∷ c ∷ [])) ≡ none
        → c ≢ 10
        → (k : ℕ) → k < 3
        → IsOneLine (take k (b'{' ∷ c ∷ b'}' ∷ []))
          × (platform.from_str (trim platform.is_whitespace (take k (b'{' ∷ c ∷ b'}' ∷ []))) ≡ none)
    torn_at h n zero l = (tt, refl)
    torn_at h n (suc zero) l = (((λ e. omega (arith, e)), tt), refl)
    torn_at h n (suc (suc zero)) l = (((λ e. omega (arith, e)), (n, tt)), h)
    torn_at h n (suc (suc (suc k))) l = absurd (omega (arith, l))

three-ReadBack : ReadBack platform three
unfolding trim
three-ReadBack = (
  reads_back 1 b'a' 20 refl (λ e. omega (arith, e)) refl refl,
  (
    reads_back 0 b'b' 10 refl (λ e. omega (arith, e)) refl refl,
    (reads_back 1 b'c' 20 refl (λ e. omega (arith, e)) refl refl, tt),
  ),
)

replay-journal_of_example :
    replay_transcript_journal platform (journal_of platform three)
    ≡ some (sort_segments_chronologically platform (upsert_all three []))
replay-journal_of_example =
    replay-journal_of platform three ranked readable three_ids three-ReadBack

replayed :
    sort_segments_chronologically platform (upsert_all three [])
    ≡ said 0 b'b' 10 ∷ said 1 b'c' 20 ∷ []
unfolding sort_segments_chronologically upsert
replayed = refl

abbrev two : List (TranscriptSegment milliseconds)
two = said 1 b'a' 20 ∷ said 0 b'b' 10 ∷ []

replay-torn_example :
    replay_transcript_journal platform
      (journal_of platform two ++ take 2 (journal_line platform (said 1 b'c' 20)))
    ≡ some (sort_segments_chronologically platform (upsert_all two []))
replay-torn_example =
    replay-torn platform two (said 1 b'c' 20) 2 ranked readable (three_ids.0, (three_ids.1.0, tt))
      (three-ReadBack.0, (three-ReadBack.1.0, tt)) three-ReadBack.1.1.0 (omega arith)

abbrev turns : List (ℕ × WriterTurn milliseconds)
turns =
    (1, added (said 1 b'a' 20))
    ∷ (2, received whole)
    ∷ (3, added (said 0 b'b' 10))
    ∷ (4, debounced true)
    ∷ (5, received whole)
    ∷ (6, added (said 1 b'c' 20))
    ∷ []

turns-Working : Working platform 0 turns
turns-Working = (
  omega arith,
  tt,
  (
    omega arith,
    refl,
    (omega arith, tt, (omega arith, tt, (omega arith, refl, (omega arith, tt, tt)))),
  ),
)

run_turns-load_example :
    let w = run_turns platform turns (idle milliseconds) in
    (popped : List (TranscriptSegment milliseconds)) × (added_by platform turns ≡ popped ++ w.queue)
    × ReadsBetween platform popped (added_by platform turns) w.folder
run_turns-load_example =
    run_turns-load platform turns ranked readable turns-Working three_ids three-ReadBack

abbrev saver : List (ℕ × WriterTurn milliseconds) → RecordingSaver milliseconds Unit
saver ts = record {
  incremental_saver = some tt;
  meeting_folder = some "meeting";
  meeting_name = some "meeting";
  meeting_id = none;
  metadata = none;
  is_saving = true;
  accumulation_task = true;
  journal_sender = true;
  journal_task = true;
  writer = run_turns platform ts (idle milliseconds);
  directory = record { metadata_file = none; checkpoints = some (some (codes "notes") ∷ []) };
}

-- The disk is full when the recording stops.
abbrev full_disk : SaveOutcome milliseconds Unit
full_disk = record {
  accumulated = λ i. i;
  drained = (7, received whole) ∷ [];
  now = 8;
  transcripts_work = false;
  verified = false;
  removed = false;
  finalize = λ i. none;
  completed_at = "";
  metadata_works = false;
}

all-Working : Working platform 0 (turns ++ full_disk.drained)
all-Working = (
  omega arith,
  tt,
  (
    omega arith,
    refl,
    (
      omega arith,
      tt,
      (omega arith, tt, (omega arith, refl, (omega arith, tt, (omega arith, refl, tt)))),
    ),
  ),
)

drained_all : (run_turns platform (turns ++ full_disk.drained) (idle milliseconds)).queue ≡ []
unfolding run_turns
drained_all = refl

stop_and_save-load_example : Reads platform three (
    load_transcripts_from_folder platform
      (stop_and_save platform full_disk none (saver turns)).0.writer.folder)
stop_and_save-load_example =
    stop_and_save-load platform full_disk none turns (saver turns) "meeting" ranked readable refl
      refl refl all-Working drained_all three_ids three-ReadBack

-- A segment that the journal's task has not received yet.
abbrev waiting : List (ℕ × WriterTurn milliseconds)
waiting = (1, added (said 1 b'a' 20)) ∷ []

discards : (discard_empty_session platform true (saver waiting)).1 ≡ true
unfolding discard_empty_session run_turns
discards = refl

discard_empty_session-safe_example :
    (added_by platform waiting ≡ (saver waiting).writer.queue)
    × (((saver waiting).directory.checkpoints ≡ none)
        ⊎ NoneNamed (codes "audio_chunk_") (some (codes "notes") ∷ []))
discard_empty_session-safe_example =
    discard_empty_session-safe platform true waiting (saver waiting) (some (codes "notes") ∷ [])
      ranked readable refl (omega arith, tt, tt) (three_ids.0, tt) (three-ReadBack.0, tt) (inr refl)
      discards
