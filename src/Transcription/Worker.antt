-- ===== src/Transcription/Worker.antt =====
-- meetily-core/src/audio/transcription/worker.rs: the serial worker that transcribes the segments of
-- a recording, filters the results and publishes what is left. The engine, the diarizer, the clock
-- and the arithmetic of f32 and f64 are arguments; texts are lists of code points. The text of an
-- error is left out.
pub mod Hallucination
pub mod Sending
pub mod Numbering
mod Examples
use meetily_local.Common.{
  ℕ, zero, suc, ◌+◌, ◌-◌, ◌%◌, ◌^◌, Bool, true, false, not, ◌&&◌, ◌||◌, Option, none, some, String,
  List, [], ◌∷◌, ◌++◌, length, take, drop, leb, ltb, ◌==◌, if◌then◌else◌, Float,
}
use meetily_local.Recording.Session.{DeviceType, microphone, system, AudioChunk}
use meetily_local.Transcription.Echo.{
  Unicode, AcceptedSegment, EchoDecision, accept, drop_as_mic_echo, check, record_segment,
}
use meetily_local.Transcription.Worker.Hallucination.{trim, is_empty, is_likely_hallucination}

pub data TranscriptionError : Type 0 where
  model_not_loaded : TranscriptionError
  audio_too_short : ℕ → ℕ → TranscriptionError
  engine_failed : TranscriptionError
  unsupported_language : String → TranscriptionError

-- `default_speaker_for_source`: the tag and the label.
unfoldable pub default_speaker_for_source : DeviceType → String × String
default_speaker_for_source microphone = ("mic", "Me")
default_speaker_for_source system = ("system", "Speaker")

module _ (f : Float) where
  open f use {F, literal, of_usize, add, div, le, lt}

  -- A speaker's turn in a segment, from a sample to another.
  pub record Turn : Type 0 where
    pub start : ℕ
    pub end : ℕ
    pub embedding : Option (List F)

  pub record PendingChunk : Type 0 where
    pub chunk : AudioChunk F
    pub embedding : Option (List F)

  -- What whisper answers: a text, its confidence and whether it is partial.
  pub data EngineAnswer : Type 0 where
    answered : List ℕ → F → Bool → EngineAnswer
    no_model_loaded failed_otherwise : EngineAnswer

  pub record DiarizationResult : Type 0 where
    pub label : String
    pub voice_profile_id : Option String

  -- The diarizer: `speaker_turns` and `process` answer `none` if their task panics or fails.
  pub record Diarizer : Type 0 where
    pub speaker_turns : List F → Option (List Turn)
    pub process : ℕ → List F → Option (List F) → Option DiarizationResult

  -- What a chunk meets: the engine, the resampler, the mean of the squares, the diarizer and the
  -- clock.
  pub record Surroundings : Type 0 where
    pub is_model_loaded : Bool
    pub resample : List F → ℕ → Option (List F)
    pub energy : List F → F
    pub transcribe : List F → EngineAnswer
    pub diarizer : Option Diarizer
    pub format_current_timestamp : String

  pub record TranscriptUpdate : Type 0 where
    pub text : List ℕ
    pub timestamp : String
    pub source : String
    pub sequence_id : ℕ
    pub chunk_start_time : F
    pub is_partial : Bool
    pub confidence : F
    pub audio_start_time : F
    pub audio_end_time : F
    pub duration : F
    pub speaker : Option String
    pub voice_profile_id : Option String

  -- What the worker sends: to the transcript bus, and as events of the sink, whose answers are
  -- only logged.
  pub data Sent : Type 0 where
    published : TranscriptUpdate → Sent
    transcript_update : TranscriptUpdate → Sent
    speech_detected : Sent
    transcription_error transcription_warning : TranscriptionError → Sent

  -- The echo buffer, `SEQUENCE_COUNTER`, `SPEECH_DETECTED_EMITTED`, and all that was sent.
  pub record WorkerState : Type 0 where
    pub echo_buffer : List (AcceptedSegment f)
    pub sequence_counter : ℕ
    pub speech_detected_emitted : Bool
    pub sent : List Sent

  unfoldable pub reset_speech_detected_flag : WorkerState → WorkerState
  reset_speech_detected_flag w = record w { speech_detected_emitted = false }

  sends : List Sent → WorkerState → WorkerState
  sends es w = record w { sent = w.sent ++ es }

  -- The chunk of a turn.
  unfoldable pub turn_chunk : AudioChunk F → Turn → PendingChunk
  turn_chunk chunk turn = record {
    chunk = record chunk {
      samples = take (turn.end - turn.start) (drop turn.start chunk.samples);
      timestamp = add chunk.timestamp (div (of_usize turn.start) (of_usize chunk.sample_rate));
    };
    embedding = turn.embedding;
  }

  abbrev pub turn_chunks : AudioChunk F → List Turn → List PendingChunk
  turn_chunks chunk [] = []
  turn_chunks chunk (t ∷ ts) = turn_chunk chunk t ∷ turn_chunks chunk ts

  unfoldable pub split_turns : AudioChunk F → Option (List Turn) → List PendingChunk
  unfolding turn_chunk
  split_turns chunk none = record { chunk = chunk; embedding = none } ∷ []
  split_turns chunk (some []) = record { chunk = chunk; embedding = none } ∷ []
  split_turns chunk (some (t ∷ [])) = record { chunk = chunk; embedding = t.embedding } ∷ []
  split_turns chunk (some (t ∷ s ∷ ts)) = turn_chunks chunk (t ∷ s ∷ ts)

  unfoldable pub split_chunk_by_speaker : Option Diarizer → AudioChunk F → List PendingChunk
  unfolding split_turns
  split_chunk_by_speaker none chunk = record { chunk = chunk; embedding = none } ∷ []
  split_chunk_by_speaker (some d) chunk = split_turns chunk (d.speaker_turns chunk.samples)

  -- A text with its confidence, if there is one, and whether it is partial; or an error.
  pub data Transcribed : Type 0 where
    ok : List ℕ → Option F → Bool → Transcribed
    err : TranscriptionError → Transcribed

  abbrev pub is_system : DeviceType → Bool
  is_system microphone = false
  is_system system = true

  module _ (u : Unicode) where
    -- The engine's answer, and the events that are sent with it.
    unfoldable pub answer : EngineAnswer → Transcribed × List Sent
    answer (answered text confidence partial) =
        (ok (trim u.is_whitespace text) (some confidence) partial, [])
    answer no_model_loaded = (err model_not_loaded, [])
    answer failed_otherwise = (err engine_failed, transcription_error engine_failed ∷ [])

    unfoldable pub transcribe_samples :
        Surroundings → AudioChunk F → Option (List F) → Transcribed × List Sent
    unfolding answer
    transcribe_samples env chunk none = (err engine_failed, [])
    transcribe_samples env chunk (some []) = (err (audio_too_short 0 1600), [])
    transcribe_samples env chunk (some (x ∷ xs)) =
        if is_system chunk.device_type && lt (env.energy (x ∷ xs)) (literal 5 4)
        then (ok [] (some (literal 1 0)) false, [])
        else answer (env.transcribe (x ∷ xs))

    unfoldable pub transcribe_chunk_with_provider :
        Surroundings → AudioChunk F → Transcribed × List Sent
    unfolding transcribe_samples
    transcribe_chunk_with_provider env chunk = transcribe_samples env chunk (
        if chunk.sample_rate == 16000
        then some chunk.samples
        else env.resample chunk.samples chunk.sample_rate)

    -- An error of the transcription: only an engine failure is shown.
    unfoldable pub warning : TranscriptionError → List Sent
    warning (audio_too_short samples minimum) = []
    warning model_not_loaded = []
    warning engine_failed = transcription_warning engine_failed ∷ []
    warning (unsupported_language l) = transcription_warning (unsupported_language l) ∷ []

    abbrev pub unwrap_or : Option F → F → F
    unwrap_or none d = d
    unwrap_or (some c) d = c

    -- Not empty, confident enough, and no invented phrase.
    unfoldable pub is_kept : List ℕ → Option F → Bool
    is_kept text confidence =
        not (is_empty (trim u.is_whitespace text))
        && ((elim confidence [ none ↦ true | some c ↦ le (literal 3 1) c ])
            && not (is_likely_hallucination f u text (unwrap_or confidence (literal 1 0))))

    -- The diarizer's result for a chunk: with the embedding of the turn, or else its samples.
    unfoldable pub diarize : Option Diarizer → ℕ → PendingChunk → Option DiarizationResult
    diarize none id item = none
    diarize (some d) id item = elim item.embedding [
      | none ↦ d.process id item.chunk.samples none
      | some e ↦ d.process id [] (some e)
    ]

    unfoldable pub speaker_of : DeviceType → Option DiarizationResult → String × Option String
    unfolding default_speaker_for_source
    speaker_of source none = ((default_speaker_for_source source).1, none)
    speaker_of source (some r) = (r.label, r.voice_profile_id)

    unfoldable pub update_of :
        Surroundings → PendingChunk → List ℕ → Option F → Bool → ℕ → TranscriptUpdate
    unfolding diarize speaker_of default_speaker_for_source
    update_of env item text confidence partial id =
        let chunk = item.chunk in
        let duration = div (of_usize (length chunk.samples)) (of_usize chunk.sample_rate) in
        let (speaker_label, voice_profile_id) =
          speaker_of chunk.device_type (diarize env.diarizer id item) in
        record {
          text = text;
          timestamp = env.format_current_timestamp;
          source = (default_speaker_for_source chunk.device_type).0;
          sequence_id = id;
          chunk_start_time = chunk.timestamp;
          is_partial = partial;
          confidence = unwrap_or confidence (literal 85 2);
          audio_start_time = chunk.timestamp;
          audio_end_time = add chunk.timestamp duration;
          duration = duration;
          speaker = some speaker_label;
          voice_profile_id = voice_profile_id;
        }

    -- A segment that is not suppressed.
    unfoldable pub emit : DeviceType → TranscriptUpdate → WorkerState → WorkerState
    emit source t w = record {
      echo_buffer =
          record_segment f u source t.text t.audio_start_time t.audio_end_time w.echo_buffer;
      sequence_counter = (w.sequence_counter + 1) % 2 ^ 64;
      speech_detected_emitted = true;
      sent =
          w.sent
          ++ ((if w.speech_detected_emitted then [] else speech_detected ∷ [])
              ++ published t ∷ transcript_update t ∷ []);
    }

    -- A segment that is kept is checked for an echo.
    unfoldable pub emit_unless_echo :
        DeviceType
        → TranscriptUpdate
        → WorkerState
        → EchoDecision × List (AcceptedSegment f)
        → WorkerState
    unfolding emit
    emit_unless_echo source t w (drop_as_mic_echo, buffer) = record w { echo_buffer = buffer }
    emit_unless_echo source t w (accept, buffer) = emit source t (record w { echo_buffer = buffer })

    unfoldable pub process_transcript :
        Surroundings → PendingChunk → WorkerState → Transcribed × List Sent → WorkerState
    unfolding sends update_of emit_unless_echo is_kept warning
    process_transcript env item w (err e, es) = sends (es ++ warning e) w
    process_transcript env item w (ok text confidence partial, es) =
        let t = update_of env item text confidence partial w.sequence_counter in
        let w' = sends es w in
        if is_kept text confidence
        then emit_unless_echo item.chunk.device_type t w' (
            check f u item.chunk.device_type text t.audio_start_time t.audio_end_time
              w'.echo_buffer)
        else w'

    unfoldable pub process_chunk : Surroundings → PendingChunk → WorkerState → WorkerState
    unfolding process_transcript transcribe_chunk_with_provider
    process_chunk env item w =
        if not env.is_model_loaded
        then w
        else process_transcript env item w (transcribe_chunk_with_provider env item.chunk)

    -- The pending chunks of a segment, each with what it meets.
    unfoldable pub process_all : List (Surroundings × PendingChunk) → WorkerState → WorkerState
    process_all [] w = w
    process_all ((env, item) ∷ rest) w = process_all rest (process_chunk env item w)
