-- ===== src/Transcription/Worker/Examples.antt =====
-- The theorems of the transcription worker at concrete inputs, and tests.
use meetily_local.Common.{
  ℕ, ◌≤◌, ◌≡◌, refl, true, false, none, some, List, [], ◌∷◌, length, min, codes, milliseconds,
  arith,
}
use meetily_local.Recording.Session.{DeviceType, microphone, system}
use meetily_local.Transcription.Echo.{
  rows, row_cells, range, intervals_overlap, threshold, similarity_ratio, join_words, find_match,
  prune, is_cross_source_match, below_floor, word_count, decide_segment, split_whitespace,
  normalize_for_comparison, levenshtein_distance, check, record_segment, push_segment, keep_last,
}
use meetily_local.Transcription.Echo.Examples.{ascii, said}
use meetily_local.Transcription.Worker.{
  EngineAnswer, answered, failed_otherwise, Surroundings, PendingChunk, WorkerState, process_all,
  reset_speech_detected_flag, process_chunk, process_transcript, transcribe_chunk_with_provider,
  transcribe_samples, answer, sends, update_of, emit, emit_unless_echo, is_kept, warning, diarize,
  speaker_of, default_speaker_for_source,
}
use meetily_local.Transcription.Worker.Hallucination.{
  trim, trim_start, trim_end, is_likely_hallucination, bracket_only, normalized_phrase,
  without_dots,
}
use meetily_local.Transcription.Worker.Sending.{bus, announcements, sequence_ids}
use meetily_local.Transcription.Worker.Numbering.{Numbers, process_all-Numbers, announced_once}

abbrev hearing : EngineAnswer milliseconds → Surroundings milliseconds
hearing a = record {
  is_model_loaded = true;
  resample = λ samples rate. some samples;
  energy = λ samples. 900;
  transcribe = λ samples. a;
  diarizer = none;
  format_current_timestamp = "12:00:00";
}

abbrev chunk_of : DeviceType → ℕ → PendingChunk milliseconds
chunk_of source timestamp = record {
  chunk = record {
    samples = 1 ∷ 2 ∷ 3 ∷ [];
    sample_rate = 1;
    timestamp = timestamp;
    chunk_id = 0;
    device_type = source;
  };
  embedding = none;
}

-- What the system plays, its copy in the microphone, a failure of the engine, and an answer.
abbrev items : List (Surroundings milliseconds × PendingChunk milliseconds)
items =
    (hearing (answered said 900 false), chunk_of system 10000)
    ∷ (hearing (answered said 900 false), chunk_of microphone 11000)
    ∷ (hearing failed_otherwise, chunk_of microphone 14000)
    ∷ (hearing (answered (codes " yes ") 900 false), chunk_of microphone 15000)
    ∷ []

abbrev starting : WorkerState milliseconds
starting = record {
  echo_buffer = [];
  sequence_counter = 7;
  speech_detected_emitted = true;
  sent = [];
}

process_all-Numbers_example :
    (n : ℕ) × (n ≤ 4)
    × Numbers milliseconds starting (process_all milliseconds ascii items starting) n
process_all-Numbers_example = process_all-Numbers milliseconds ascii items starting (omega arith)

announced_once_example :
    announcements milliseconds
      (process_all milliseconds ascii items (reset_speech_detected_flag milliseconds starting)).sent
    ≡ min 1 (
        length (
          bus milliseconds
            (process_all milliseconds ascii items
              (reset_speech_detected_flag milliseconds starting)).sent))
announced_once_example = announced_once milliseconds ascii items starting refl

-- The copy is suppressed, and the failure is shown.
two_published :
    sequence_ids milliseconds
      (bus milliseconds (process_all milliseconds ascii items starting).sent)
    ≡ 7 ∷ 8 ∷ []
unfolding process_all process_chunk process_transcript transcribe_chunk_with_provider
    transcribe_samples answer sends update_of emit emit_unless_echo is_kept warning diarize
    speaker_of default_speaker_for_source trim trim_start trim_end is_likely_hallucination
    bracket_only normalized_phrase without_dots check find_match prune is_cross_source_match
    decide_segment similarity_ratio intervals_overlap threshold below_floor word_count
    split_whitespace join_words normalize_for_comparison levenshtein_distance rows row_cells range
    record_segment push_segment keep_last bus
two_published = refl
