-- ===== src/Batch/Transcribe.antt =====
-- meetily-core/src/audio/common.rs: run_batch_transcription and create_transcript_segments, for import
-- and retranscription. The speech engine, the diarizer and the flag that cancels are arguments; what
-- reports progress or only logs is left out.
pub mod Numbered
use meetily_local.Common.{
  ℕ, zero, suc, ◌+◌, ◌-◌, ◌*◌, Bool, true, false, not, ◌&&◌, ◌||◌, Option, none, some, String, List,
  [], ◌∷◌, ◌++◌, map, ltb, leb, if◌then◌else◌, Float, length, ◌==◌,
}
use meetily_local.Recording.Service.{TranscriptSegment}
use meetily_local.Transcription.Echo.{Unicode}
use meetily_local.Transcription.Worker.Hallucination.{trim, is_empty, is_likely_hallucination}
use meetily_local.Batch.{SpeechSegment, sample_rate, split_segment_at_silence}

pub record BatchTranscript (f : Float) : Type 0 where
  pub text : List ℕ
  pub start_ms : f.F
  pub end_ms : f.F
  pub speaker : Option String
  pub voice_profile_id : Option String
  pub sequence_id : ℕ

-- What the batch is given. `transcribe` answers the segment at an index, with the prompt; `diarize`
-- the transcript with a number, with the hint of the offline pass, if there is a diarizer;
-- `cancelled` is the flag before the segment at an index, and `char_len` the bytes of a character.
pub record BatchTools (f : Float) : Type 0 where
  pub unicode : Unicode
  pub char_len : ℕ → ℕ
  pub transcribe : ℕ → SpeechSegment f → Option (List ℕ) → Option (List ℕ × f.F)
  pub diarize : Option (ℕ → SpeechSegment f → Option ℕ → Option (String × Option String))
  pub hint : ℕ → Option ℕ
  pub cancelled : ℕ → Bool
  pub rms : List f.F → f.F
  pub f32_max : f.F

pub data BatchError : Type 0 where
  cancelled_batch : BatchError
  transcription_failed : ℕ → BatchError

pub data BatchResult (f : Float) : Type 0 where
  failed : BatchError → BatchResult f
  transcribed : List (BatchTranscript f) → BatchResult f

abbrev pub max_segment_samples : ℕ
max_segment_samples = 25 * sample_rate

module _ {f : Float} (t : BatchTools f) where
  unfoldable pub processable_segments : List (SpeechSegment f) → List (SpeechSegment f)
  unfolding split_segment_at_silence
  processable_segments [] = []
  processable_segments (s ∷ ss) =
      let rest = processable_segments ss in
      if ltb max_segment_samples (length s.samples)
      then split_segment_at_silence f t.rms t.f32_max s max_segment_samples ++ rest
      else s ∷ rest

  abbrev byte_len : List ℕ → ℕ
  byte_len [] = 0
  byte_len (c ∷ cs) = t.char_len c + byte_len cs

  -- `split_off` at the first character's boundary that is at `cut` or after it; all, if there is none.
  unfoldable pub tail_from : ℕ → List ℕ → Option (List ℕ)
  tail_from cut [] = none
  tail_from cut (c ∷ cs) =
      let rest = tail_from (cut - t.char_len c) cs in if cut == 0 then some (c ∷ cs) else rest

  abbrev or_all : List ℕ → Option (List ℕ) → List ℕ
  or_all cs none = cs
  or_all cs (some tail) = tail

  -- The end of the accepted text, which is the next prompt.
  unfoldable pub extend_context : List ℕ → List ℕ → List ℕ
  unfolding tail_from
  extend_context trimmed context =
      let whole = if is_empty context then trimmed else context ++ 32 ∷ trimmed in
      if ltb 600 (byte_len whole)
      then or_all whole (tail_from (byte_len whole - 600) whole)
      else whole

  abbrev speaker_of : Option (String × Option String) → Option String × Option String
  speaker_of none = (none, none)
  speaker_of (some (label, profile)) = (some label, profile)

  abbrev diarized :
      Option (ℕ → SpeechSegment f → Option ℕ → Option (String × Option String))
      → ℕ
      → SpeechSegment f
      → Option ℕ
      → Option String × Option String
  diarized none sequence_id segment forced = (none, none)
  diarized (some process) sequence_id segment forced =
      speaker_of (process sequence_id segment forced)

  unfoldable pub transcript_of : ℕ → SpeechSegment f → ℕ → List ℕ → BatchTranscript f
  transcript_of i segment sequence_id text =
      let (speaker, voice_profile_id) = diarized t.diarize sequence_id segment (t.hint i) in
      record {
        text = text;
        start_ms = segment.start_timestamp_ms;
        end_ms = segment.end_timestamp_ms;
        speaker = speaker;
        voice_profile_id = voice_profile_id;
        sequence_id = sequence_id;
      }

  -- The text is kept.
  unfoldable pub is_accepted : List ℕ → f.F → Bool
  unfolding is_likely_hallucination trim
  is_accepted text conf =
      not (is_likely_hallucination f t.unicode text conf)
      && not (is_empty (trim t.unicode.is_whitespace text))

  abbrev pub prompt_of : List ℕ → Option (List ℕ)
  prompt_of [] = none
  prompt_of (c ∷ cs) = some (c ∷ cs)

  -- From segment `i` on, after `done` transcripts.
  unfoldable pub transcribe_from :
      ℕ → List (SpeechSegment f) → List (BatchTranscript f) → List ℕ → BatchResult f
  unfolding is_accepted transcript_of extend_context
  transcribe_from i [] done context =
      if t.cancelled i then failed cancelled_batch else transcribed done
  transcribe_from i (s ∷ ss) done context =
      let skipped = transcribe_from (suc i) ss done context in
      let accepted = λ (text : List ℕ).
        transcribe_from (suc i) ss (done ++ transcript_of i s (length done) text ∷ [])
          (extend_context (trim t.unicode.is_whitespace text) context) in
      if t.cancelled i
      then failed cancelled_batch
      else if ltb (length s.samples) 1600
      then skipped
      else elim (t.transcribe i s (prompt_of context)) [
        | none ↦ failed (transcription_failed i)
        | some (text, conf) ↦ if is_accepted text conf then accepted text else skipped
      ]

  unfoldable pub run_batch_transcription : Bool → List (SpeechSegment f) → BatchResult f
  unfolding processable_segments transcribe_from
  run_batch_transcription cancelled_before speech_segments =
      if cancelled_before
      then failed cancelled_batch
      else transcribe_from 0 (processable_segments speech_segments) [] []

-- `new_id` and `now` are the fresh id and the time, which each segment asks for.
unfoldable pub create_transcript_segments :
    {f : Float}
    → Unicode
    → (ℕ → List ℕ)
    → (ℕ → String)
    → ℕ
    → List (BatchTranscript f)
    → List (TranscriptSegment f)
unfolding trim
create_transcript_segments u new_id now k [] = []
create_transcript_segments {f} u new_id now k (t ∷ ts) =
    let start_seconds = f.div t.start_ms (f.literal 1000 0) in
    let end_seconds = f.div t.end_ms (f.literal 1000 0) in
    let segment : TranscriptSegment f = record {
      id = new_id k;
      text = trim u.is_whitespace t.text;
      timestamp = some (now k);
      audio_start_time = some start_seconds;
      audio_end_time = some end_seconds;
      duration = some (f.sub end_seconds start_seconds);
      display_time = none;
      confidence = none;
      sequence_id = some t.sequence_id;
      speaker = t.speaker;
      voice_profile_id = t.voice_profile_id;
      source = none;
    } in
    segment ∷ create_transcript_segments u new_id now (suc k) ts
