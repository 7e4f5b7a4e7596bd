-- ===== src/Transcripts.antt =====
-- meetily-core/src/audio/common.rs: the transcript of a recording in its folder, as the journal that
-- grows with every segment and as transcripts.json. What only logs is left out.
pub mod Order
pub mod Lines
mod Keys
pub mod Replay
pub mod JournalWriter
pub mod Metadata
pub mod Session
mod Examples
use Prim.Native.Nat.{Ordering}
use mathlib.Core.Option
use meetily_local.Common.{
  ℕ, suc, ◌+◌, ◌-◌, ◌^◌, Bool, true, false, not, ◌&&◌, ◌||◌, Option, none, some, List, [], ◌∷◌,
  ◌++◌, map, if◌then◌else◌, ltb, length, take, codes, Float, ◌==◌,
}
use meetily_local.Common.Sorting.{sort_by}
use meetily_local.Saver.{digits_within}
use meetily_local.Common.{same_text}
use meetily_local.Transcription.Worker.Hallucination.{trim}
use meetily_local.Recording.Service.{TranscriptSegment}

-- What the code is given: the comparison of times and the greatest one, white space, the JSON of a
-- segment on one line and its parser, UTF-8, whether the files of the folder can be read, and the
-- order in which a hash map gives its values.
pub record Platform (f : Float) : Type 0 where
  pub partial_cmp : f.F → f.F → Option Ordering
  pub f64_max : f.F
  pub is_whitespace : ℕ → Bool
  pub to_string : TranscriptSegment f → List ℕ
  pub from_str : List ℕ → Option (TranscriptSegment f)
  pub as_bytes : List ℕ → List ℕ
  pub from_utf8 : List ℕ → Option (List ℕ)
  pub reads_json : Bool
  pub reads_journal : Bool
  pub values : List (TranscriptSegment f) → List (TranscriptSegment f)

abbrev pub unwrap_or {ℓ} : {A : Type ℓ} → A → Option A → A
unwrap_or d none = d
unwrap_or d (some a) = a

abbrev pub u64_max : ℕ
u64_max = 2 ^ 64 - 1

abbrev pub newline : ℕ
newline = 10

abbrev pub join_line : ℕ → List (List ℕ) → List (List ℕ)
join_line c [] = (c ∷ []) ∷ []
join_line c (l ∷ ls) = (c ∷ l) ∷ ls

-- `str::lines`. It drops a carriage return before the line's end too, which `trim` does here.
unfoldable pub lines : List ℕ → List (List ℕ)
lines [] = []
lines (c ∷ cs) = let rest = lines cs in if c == newline then [] ∷ rest else join_line c rest

-- How an append to the journal ends: the line is written whole, the file cannot be opened, or the
-- write fails when some bytes have reached the file.
pub data Appending : Type 0 where
  whole unopened : Appending
  cut : ℕ → Appending

abbrev pub text_of : Option (List ℕ × Option ℕ) → List ℕ
text_of none = []
text_of (some (text, modified)) = text

module _ {f : Float} where
  -- A later element's key goes after an earlier one's: `Ordering::Greater` of the comparison.
  unfoldable pub is_later : Platform f → TranscriptSegment f → TranscriptSegment f → Bool
  is_later p a b =
      let a_time = unwrap_or p.f64_max a.audio_start_time in
      let b_time = unwrap_or p.f64_max b.audio_start_time in
      let by_id = ltb (unwrap_or u64_max b.sequence_id) (unwrap_or u64_max a.sequence_id) in
      elim (p.partial_cmp a_time b_time) [
        | none ↦ by_id
        | some o ↦ elim o [ Ordering.lt ↦ false | Ordering.eq ↦ by_id | Ordering.gt ↦ true ]
      ]

  unfoldable pub sort_segments_chronologically :
      Platform f → List (TranscriptSegment f) → List (TranscriptSegment f)
  unfolding is_later sort_by
  sort_segments_chronologically p segments = sort_by (is_later p) segments

  unfoldable pub journal_replay_key : TranscriptSegment f → List ℕ
  unfolding digits_within
  journal_replay_key segment = elim segment.sequence_id [
    | some sequence_id ↦ codes "seq:" ++ digits_within 20 sequence_id
    | none ↦ codes "id:" ++ segment.id
  ]

  -- The bytes that are appended.
  unfoldable pub journal_line : Platform f → TranscriptSegment f → List ℕ
  journal_line p segment = p.as_bytes (p.to_string segment ++ newline ∷ [])

  -- The file after the append, at the time `now`, and whether it reports success.
  unfoldable pub append_transcript_journal_line :
      Platform f
      → Appending
      → Option ℕ
      → TranscriptSegment f
      → Option (List ℕ × Option ℕ)
      → Option (List ℕ × Option ℕ) × Bool
  unfolding journal_line
  append_transcript_journal_line p whole now segment journal =
      (some (text_of journal ++ journal_line p segment, now), true)
  append_transcript_journal_line p unopened now segment journal = (journal, false)
  append_transcript_journal_line p (cut n) now segment journal =
      (some (text_of journal ++ take n (journal_line p segment), now), false)

  -- `HashMap::insert`
  unfoldable pub insert_key :
      List ℕ
      → TranscriptSegment f
      → List (List ℕ × TranscriptSegment f)
      → List (List ℕ × TranscriptSegment f)
  insert_key key segment [] = (key, segment) ∷ []
  insert_key key segment ((k, s) ∷ by_key) =
      let rest = insert_key key segment by_key in
      if same_text k key then (key, segment) ∷ by_key else (k, s) ∷ rest

  unfoldable pub insert_parsed :
      Option (TranscriptSegment f)
      → List (List ℕ × TranscriptSegment f)
      → List (List ℕ × TranscriptSegment f)
  unfolding insert_key journal_replay_key
  insert_parsed none by_key = by_key
  insert_parsed (some segment) by_key = insert_key (journal_replay_key segment) segment by_key

  unfoldable pub replay_line :
      Platform f
      → List ℕ
      → List (List ℕ × TranscriptSegment f)
      → List (List ℕ × TranscriptSegment f)
  unfolding insert_parsed
  replay_line p [] by_key = by_key
  replay_line p (c ∷ cs) by_key = insert_parsed (p.from_str (c ∷ cs)) by_key

  unfoldable pub replay_lines :
      Platform f
      → List (List ℕ)
      → List (List ℕ × TranscriptSegment f)
      → List (List ℕ × TranscriptSegment f)
  unfolding replay_line trim
  replay_lines p [] by_key = by_key
  replay_lines p (l ∷ ls) by_key = replay_lines p ls (replay_line p (trim p.is_whitespace l) by_key)

  abbrev pub into_values : List (List ℕ × TranscriptSegment f) → List (TranscriptSegment f)
  into_values [] = []
  into_values ((k, s) ∷ by_key) = s ∷ into_values by_key

  -- `read_to_string` of the journal: the file cannot be read, or its bytes are not UTF-8.
  unfoldable pub read_journal : Platform f → List ℕ → Option (List ℕ)
  read_journal p bytes = if p.reads_journal then p.from_utf8 bytes else none

  unfoldable pub replay_text : Platform f → List ℕ → List (TranscriptSegment f)
  unfolding sort_segments_chronologically replay_lines lines
  replay_text p contents =
      sort_segments_chronologically p (p.values (into_values (replay_lines p (lines contents) [])))

  -- From the bytes of the journal; `none` for the error that they cannot be read as a text.
  unfoldable pub replay_transcript_journal :
      Platform f → List ℕ → Option (List (TranscriptSegment f))
  unfolding read_journal replay_text
  replay_transcript_journal p bytes = Option.map (replay_text p) (read_journal p bytes)

  -- The JSON of a segment in transcripts.json, as it reads back: it has no source.
  unfoldable pub json_segment : ℕ → TranscriptSegment f → TranscriptSegment f
  json_segment i s = record s { sequence_id = some (unwrap_or i s.sequence_id); source = none }

  unfoldable pub json_segments : ℕ → List (TranscriptSegment f) → List (TranscriptSegment f)
  unfolding json_segment
  json_segments i [] = []
  json_segments i (s ∷ ss) = json_segment i s ∷ json_segments (suc i) ss

-- What transcripts.json holds, if it can be read, with the segments as they are parsed, `none` where
-- they are refused. Text that is not UTF-8 is `malformed` too.
pub data Document (f : Float) : Type 0 where
  malformed scalar : Document f
  object : Option (Option (List (TranscriptSegment f))) → Document f
  array : Option (List (TranscriptSegment f)) → Document f

-- The transcript's files in a meeting folder, the journal as its bytes, each with the time at which it was modified.
pub record Folder (f : Float) : Type 0 where
  pub json : Option (Document f × Option ℕ)
  pub journal : Option (List ℕ × Option ℕ)

unfoldable pub is_newer : Option ℕ → Option ℕ → Bool
is_newer (some j) (some t) = ltb t j
is_newer (some j) none = false
is_newer none t = false

module _ {f : Float} where
  unfoldable pub parse_document : Document f → Option (List (TranscriptSegment f))
  parse_document malformed = none
  parse_document scalar = some []
  parse_document (object none) = some []
  parse_document (object (some segments)) = segments
  parse_document (array segments) = segments

  unfoldable pub json_part :
      Platform f → Option (Document f × Option ℕ) → Option (List (TranscriptSegment f))
  unfolding parse_document
  json_part p none = some []
  json_part p (some (document, modified)) = if p.reads_json then parse_document document else none

  unfoldable pub journal_is_fresher :
      Option (Document f × Option ℕ)
      → Option ℕ
      → List (TranscriptSegment f)
      → List (TranscriptSegment f)
      → Bool
  unfolding is_newer
  journal_is_fresher none journal_mtime journal_segments segments = true
  journal_is_fresher (some (document, json_mtime)) journal_mtime journal_segments segments =
      is_newer journal_mtime json_mtime || ltb (length segments) (length journal_segments)

  unfoldable pub prefer :
      Platform f
      → Folder f
      → List (TranscriptSegment f)
      → Option (List ℕ × Option ℕ)
      → Option (List (TranscriptSegment f))
  unfolding replay_transcript_journal journal_is_fresher
  prefer p folder segments none = some segments
  prefer p folder segments (some (contents, modified)) =
      Option.map
        (λ journal_segments.
          if journal_is_fresher folder.json modified journal_segments segments
          then journal_segments
          else segments)
        (replay_transcript_journal p contents)

  -- `none` for an error: transcripts.json cannot be read or does not parse, or the journal cannot be
  -- read.
  unfoldable pub load_transcripts_from_folder :
      Platform f → Folder f → Option (List (TranscriptSegment f))
  unfolding json_part prefer
  load_transcripts_from_folder p folder = elim (json_part p folder.json) [
    | none ↦ none
    | some segments ↦ prefer p folder segments folder.journal
  ]

  -- The folder and whether the call succeeds: the temporary file can be written and takes the
  -- place of transcripts.json at the time `now`, or transcripts.json stays.
  unfoldable pub write_transcripts_json :
      Bool → ℕ → List (TranscriptSegment f) → Folder f → Folder f × Bool
  unfolding json_segments
  write_transcripts_json true now segments folder = (
    record folder { json = some (object (some (some (json_segments 0 segments))), some now) },
    true,
  )
  write_transcripts_json false now segments folder = (folder, false)
