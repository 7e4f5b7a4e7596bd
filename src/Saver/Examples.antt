-- ===== src/Saver/Examples.antt =====
-- The theorems of the saver at concrete inputs, and tests.
use mathlib.Core.List.Permᴰ
use meetily_local.Common.{
  ℕ, ◌*◌, ◌≡◌, refl, true, Option, none, some, List, [], ◌∷◌, ◌++◌, arith, concat, sum_lengths,
  codes,
}
use meetily_local.Saver.{
  Entry, foreign, Disk, written, write_failed, new, add_chunk, save_checkpoint, save_samples,
  pcm_files, checkpoint_name, pad3, finalize,
}
use meetily_local.Saver.Audio.{add_all, chunks_of}
use meetily_local.Saver.Recovery.{Legacy, succeeded, recover_audio_from_checkpoints}
use meetily_local.Saver.Recovery.Crash.{from_saved, recover-add_all}
use meetily_local.Saver.Finish.{outcome, finalize-outcome}

abbrev good : Disk ℕ
good = record { write = written; rename_works = true }

abbrev full : Disk ℕ
full = record { write = write_failed (7 ∷ []); rename_works = true }

-- One sample per second and one channel: an interval of 30 samples.
abbrev half_interval : List ℕ
half_interval = 1 ∷ 2 ∷ 3 ∷ 4 ∷ 5 ∷ 6 ∷ 7 ∷ 8 ∷ 9 ∷ 10 ∷ 11 ∷ 12 ∷ 13 ∷ 14 ∷ 15 ∷ []

-- The first save fails, the second succeeds, and a chunk remains.
abbrev calls : List (Disk ℕ × List ℕ)
calls = (good, half_interval) ∷ (full, half_interval) ∷ (good, half_interval) ∷ (good, 1 ∷ []) ∷ []

abbrev readme : List (Entry ℕ)
readme = foreign "readme" ∷ []

third_name : checkpoint_name 3 ≡ codes "audio_chunk_003.f32"
unfolding checkpoint_name pad3
third_name = refl

large_name : checkpoint_name 1234 ≡ codes "audio_chunk_1234.f32"
unfolding checkpoint_name pad3
large_name = refl

after_calls :
    let (s, es) = add_all calls (new 1 1) readme in
    (s.checkpoint_count ≡ 1) × (s.checkpoint_buffer ≡ (1 ∷ []) ∷ [])
unfolding add_all new add_chunk save_checkpoint save_samples
after_calls = (refl, refl)

-- An encoder that needs some input.
abbrev encode : List (List ℕ) → Option (List ℕ)
encode [] = none
encode (c ∷ cs) = some (concat (c ∷ cs))

finalize-outcome_example :
    let (s, es') = add_all calls (new 1 1) readme in
    (pieces : List (List ℕ)) × (concat pieces ≡ chunks_of calls)
    × (finalize good some encode s es' ≡ outcome encode pieces)
unfolding pcm_files add_all new add_chunk save_checkpoint save_samples
finalize-outcome_example =
    finalize-outcome calls 1 1 readme good some encode refl (omega arith) (omega arith)
      (omega arith) (omega arith) refl refl (λ es. (es, refl, Permᴰ.refl (pcm_files es)))

-- The system has no ffmpeg for the old format.
abbrev no_tools : Legacy
no_tools = record { canonicalize = some; writes_list = true; ffmpeg = none }

recover-add_all_example :
    let (s, es') = add_all calls (new 1 1) readme in
    (saved : List (List ℕ)) × (concat saved ++ concat s.checkpoint_buffer ≡ chunks_of calls)
    × (recover_audio_from_checkpoints 0 sum_lengths
          (λ n. 30 * n)
          (λ pieces. succeeded)
          no_tools
          (some "audio.mp4")
          some
          (some [])
          (some es')
        ≡ from_saved 0 sum_lengths (λ pieces. succeeded) "audio.mp4" saved)
unfolding pcm_files add_all new add_chunk save_checkpoint save_samples
recover-add_all_example =
    recover-add_all 0 sum_lengths (λ n. 30 * n) (λ pieces. succeeded) no_tools "audio.mp4" some
      calls 1 1 readme refl (omega arith) (omega arith) (omega arith) (omega arith)
      (λ es. (es, refl, Permᴰ.refl (pcm_files es)))
