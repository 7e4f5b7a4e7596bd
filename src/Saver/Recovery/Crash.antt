-- ===== src/Saver/Recovery/Crash.antt =====
-- A recording that is cut off after any of its chunks, and recovered.
use meetily_local.Common.{
  ℕ, suc, ◌^◌, ◌≤◌, ◌<◌, ◌≡◌, refl, ap, ◌∙◌, Option, some, String, List, [], ◌∷◌, ◌++◌, length,
  concat, arith,
}
use meetily_local.Saver.{Entry, Disk, new, pcm_files}
use meetily_local.Saver.Files.{numbered}
use meetily_local.Saver.Audio.{add_all, chunks_of, add_all-numbered}
use meetily_local.Saver.Sorting.{Lists, list_checkpoint_files-numbered, contents-numbered}
use meetily_local.Saver.Recovery.{
  Recovered, encode_panicked, Ran, Legacy, no_audio, after_run, recover_files, recover_listed,
  recover_audio_from_checkpoints,
}

module _ {F : Type 0} where
  length-numbered : (k : ℕ) (cs : List (List F)) → length (numbered k cs) ≡ length cs
  length-numbered k [] = refl
  length-numbered k (c ∷ cs) = ap suc (length-numbered (suc k) cs)

module _ {F D : Type 0} where
  -- What comes of the pieces that were saved.
  abbrev pub from_saved :
      D → (List (List F) → D) → (List (List F) → Ran) → String → List (List F) → Recovered D
  from_saved zero_seconds duration encode output [] = no_audio zero_seconds
  from_saved zero_seconds duration encode output (c ∷ cs) =
      after_run encode_panicked (length (c ∷ cs)) (duration (c ∷ cs)) output (encode (c ∷ cs))

  recover_files-numbered :
      (zero_seconds : D) (duration : List (List F) → D) (seconds : ℕ → D)
      (encode : List (List F) → Ran) (tools : Legacy) (output : String) (cs : List (List F))
      → recover_files zero_seconds duration seconds encode tools (some output) (numbered 0 cs) []
        ≡ from_saved zero_seconds duration encode output cs
  unfolding recover_files
  recover_files-numbered zero_seconds duration seconds encode tools output [] = refl
  recover_files-numbered zero_seconds duration seconds encode tools output (c ∷ cs) =
      cc (length-numbered 1 cs, contents-numbered 1 cs)

  -- A recording of fewer than 2^32 chunks from a directory without checkpoints is cut off after any
  -- of them, whatever the disk answered, with at most 1000 checkpoints: recovery gives the encoder
  -- the saved pieces, which followed by the buffer that the crash lost are the samples of all
  -- chunks in their order; without a piece it reports that there is no audio.
  pub recover-add_all :
      (zero_seconds : D) (duration : List (List F) → D) (seconds : ℕ → D)
      (encode : List (List F) → Ran) (tools : Legacy) (output : String)
      (listing : List (Entry F) → Option (List (Entry F))) (calls : List (Disk F × List F))
      (sample_rate channels : ℕ) (es : List (Entry F))
      → pcm_files es ≡ []
      → 0 < sample_rate
      → 0 < channels
      → length calls < 2 ^ 32
      → (add_all calls (new sample_rate channels) es).0.checkpoint_count ≤ 1000
      → ((es : List (Entry F)) → Lists listing es)
      → let (s, es') = add_all calls (new sample_rate channels) es in
        (saved : List (List F)) × (concat saved ++ concat s.checkpoint_buffer ≡ chunks_of calls)
        × (recover_audio_from_checkpoints zero_seconds duration seconds encode tools
              (some output)
              listing
              (some [])
              (some es')
            ≡ from_saved zero_seconds duration encode output saved)
  unfolding recover_audio_from_checkpoints recover_listed
  recover-add_all zero_seconds duration seconds encode tools output listing calls sample_rate
        channels es empty r c b k lists =
      let after = add_all calls (new sample_rate channels) es in
      let (saved, files, count, whole) =
        add_all-numbered calls sample_rate channels es empty r c b in
      (
        saved,
        whole,
        ap
              (λ fs.
                recover_listed zero_seconds duration seconds encode tools (some output) fs
                  (some []))
              (list_checkpoint_files-numbered listing after.1 saved (lists after.1) files
                (omega (arith, count, k)))
            ∙ recover_files-numbered zero_seconds duration seconds encode tools output saved,
      )
