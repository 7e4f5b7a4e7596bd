-- ===== src/Batch/Examples.antt =====
-- Tests of the batch transcription.
use meetily_local.Common.{
  ℕ, ◌≡◌, refl, false, none, some, List, [], ◌∷◌, codes, replicate, concat, arith, milliseconds,
  ltb,
}
use meetily_local.Recording.Session.{microphone}
use meetily_local.Batch.{SpeechSegment, split_segment_at_silence}
use meetily_local.Batch.Pieces.{samples_of, Sized, split_segment_at_silence-Sized}
use meetily_local.Batch.Transcribe.{
  BatchTranscript, BatchTools, transcribed, run_batch_transcription, processable_segments,
}
use meetily_local.Batch.Transcribe.Numbered.{Made, run_batch_transcription-Made}

abbrev loudness : List ℕ → ℕ
loudness [] = 0
loudness (x ∷ xs) = x

abbrev spoken_for : ℕ → SpeechSegment milliseconds
spoken_for n = record {
  samples = replicate n 5;
  start_timestamp_ms = 0;
  end_timestamp_ms = n;
  confidence = 900;
  source = microphone;
}

split_segment_at_silence-Sized_example :
    let pieces = split_segment_at_silence milliseconds loudness 9000 (spoken_for 20) 10 in
    (concat (samples_of milliseconds loudness 9000 pieces) ≡ replicate 20 5)
    × Sized milliseconds loudness 9000 64010 pieces
split_segment_at_silence-Sized_example =
    split_segment_at_silence-Sized milliseconds loudness 9000 (spoken_for 20) 10 (omega arith)
      (omega arith)

-- The engine hears "hi" in every segment.
abbrev tools : BatchTools milliseconds
tools = record {
  unicode = record {
    to_lowercase = λ cs. cs;
    is_alphanumeric = λ c. ltb 96 c;
    is_whitespace = λ c. ltb c 33;
  };
  char_len = λ c. 1;
  transcribe = λ i s prompt. some (codes "hi", 900);
  diarize = none;
  hint = λ i. none;
  cancelled = λ i. false;
  rms = loudness;
  f32_max = 9000;
}

abbrev hi : ℕ → ℕ → BatchTranscript milliseconds
hi id end = record {
  text = codes "hi";
  start_ms = 0;
  end_ms = end;
  speaker = none;
  voice_profile_id = none;
  sequence_id = id;
}

abbrev three : List (SpeechSegment milliseconds)
three = spoken_for 1600 ∷ spoken_for 10 ∷ spoken_for 1700 ∷ []

heard : run_batch_transcription tools false three ≡ transcribed (hi 0 1600 ∷ hi 1 1700 ∷ [])
unfolding run_batch_transcription
heard = refl

run_batch_transcription-Made_example :
    Made tools 0 (processable_segments tools three) 0 (hi 0 1600 ∷ hi 1 1700 ∷ [])
run_batch_transcription-Made_example =
    run_batch_transcription-Made tools false three (hi 0 1600 ∷ hi 1 1700 ∷ []) heard
