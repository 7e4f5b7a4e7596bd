-- ===== src/Saver/Finish.antt =====
-- The end of a recording: its last save, and what the encoder is given.
use meetily_local.Common.{
  ℕ, suc, ◌+◌, ◌^◌, ◌≤◌, ◌<◌, ◌≡◌, refl, sym, ap, ◌∙◌, Bool, true, false, Option, none, some, List,
  [], ◌∷◌, ◌++◌, append-nil, arith, length, concat,
}
use meetily_local.Saver.{
  Entry, Saver, Disk, written, new, pcm_files, list_checkpoint_files, finalize, Finished, encoded,
  no_checkpoints, encode_error, cleared, save_checkpoint, encode_files, encode_saved,
  save_remaining, save_samples,
}
use meetily_local.Saver.Files.{numbered}
use meetily_local.Saver.Audio.{
  After, Holds, add_all, chunks_of, add_all-Holds, save_checkpoint-After,
}
use meetily_local.Saver.Sorting.{Lists, list_checkpoint_files-numbered, contents-numbered}

module _ {F : Type 0} where
  -- A disk that works.
  save_checkpoint-works :
      (disk : Disk F) (s : Saver F) (es : List (Entry F))
      → disk.write ≡ written
      → disk.rename_works ≡ true
      → (save_checkpoint disk s es).2 ≡ true
  unfolding save_checkpoint save_samples
  save_checkpoint-works disk s es w r = go (concat s.checkpoint_buffer)
    where
      go : (xs : List F) → (save_samples disk xs s es).2 ≡ true
      go [] = refl
      go (x ∷ xs) = rw (w, r) refl

  cleared-works : (t : Saver F × List (Entry F) × Bool) → t.2 ≡ true → (cleared t).2 ≡ true
  unfolding cleared
  cleared-works (s, es, true) h = refl
  cleared-works (s, es, false) h = absurd (ground (arith, h))

module _ {F Out : Type 0} where
  -- What the encoder makes of the pieces.
  abbrev pub outcome : (List (List F) → Option Out) → List (List F) → Finished Out
  outcome encode [] = no_checkpoints
  outcome encode (c ∷ cs) = elim (encode (c ∷ cs)) [ none ↦ encode_error | some out ↦ encoded out ]

  encode_saved-outcome :
      (listing : List (Entry F) → Option (List (Entry F))) (encode : List (List F) → Option Out)
      (s : Saver F) (es : List (Entry F)) (cs : List (List F))
      → s.checkpoint_count ≡ length cs
      → list_checkpoint_files listing es ≡ some (numbered 0 cs)
      → encode_saved listing encode (s, es, true) ≡ outcome encode cs
  unfolding encode_saved encode_files
  encode_saved-outcome listing encode s es [] e l = rw e refl
  encode_saved-outcome listing encode s es (c ∷ cs) e l =
      rw (l, e) (ground (arith, contents-numbered 1 cs))

  encode_cleared :
      (listing : List (Entry F) → Option (List (Entry F))) (encode : List (List F) → Option Out)
      (s : Saver F) (samples : List F) (added : ℕ) (t : Saver F × List (Entry F) × Bool)
      → added ≤ 1000
      → ((es : List (Entry F)) → Lists listing es)
      → t.2 ≡ true
      → After s samples added t
      → (pieces : List (List F)) × (concat pieces ≡ samples)
        × (encode_saved listing encode t ≡ outcome encode pieces)
  encode_cleared listing encode s samples added (t, es, false) b p ok v =
      absurd (ground (arith, ok))
  encode_cleared listing encode s samples added (t, es, true) b p ok (v, empty, same) = (
    v.saved,
    sym (append-nil (concat v.saved))
        ∙ ap (λ bs. concat v.saved ++ concat bs) (sym (empty refl))
        ∙ v.whole,
    encode_saved-outcome listing encode t es v.saved v.counted (
        list_checkpoint_files-numbered listing es v.saved (p es) v.files (omega (arith, v.few, b))),
  )

  finalize-Holds :
      (disk : Disk F) (listing : List (Entry F) → Option (List (Entry F)))
      (encode : List (List F) → Option Out) (s : Saver F) (es : List (Entry F)) (samples : List F)
      (added : ℕ)
      → disk.write ≡ written
      → disk.rename_works ≡ true
      → ((es : List (Entry F)) → Lists listing es)
      → s.checkpoint_count < 1000
      → Holds s es samples added
      → (pieces : List (List F)) × (concat pieces ≡ samples)
        × (finalize disk listing encode s es ≡ outcome encode pieces)
  unfolding finalize save_remaining
  finalize-Holds disk listing encode s es samples added w r p b v = go s.checkpoint_buffer refl
    where
      tight : Holds s es samples (length v.saved)
      tight = record {
        saved = v.saved;
        files = v.files;
        counted = v.counted;
        few = omega arith;
        whole = v.whole;
      }

      go :
          (bs : List (List F))
          → s.checkpoint_buffer ≡ bs
          → (pieces : List (List F)) × (concat pieces ≡ samples)
            × (encode_saved listing encode (save_remaining disk bs s es) ≡ outcome encode pieces)
      go [] e =
          encode_cleared listing encode s samples (length v.saved) (s, es, true)
            (omega (arith, v.counted)) p refl (tight, (λ h. e), refl)
      go (c ∷ cs) e =
          encode_cleared listing encode s samples (suc (length v.saved))
            (cleared (save_checkpoint disk s es)) (omega (arith, v.counted)) p
            (cleared-works (save_checkpoint disk s es) (save_checkpoint-works disk s es w r))
            (save_checkpoint-After disk s es samples (length v.saved) (omega (arith, v.counted))
              tight)

  -- For a recording of fewer than 2^32 chunks from a directory without checkpoints, whatever the
  -- disk answered during it: if it made fewer than 1000 checkpoints and the last save succeeds, the encoder is given pieces that together
  -- are the samples of all chunks in their order, however the directory lists its checkpoints;
  -- without pieces the call reports that there are no checkpoints.
  pub finalize-outcome :
      (calls : List (Disk F × List F)) (sample_rate channels : ℕ) (es : List (Entry F))
      (disk : Disk F) (listing : List (Entry F) → Option (List (Entry F)))
      (encode : List (List F) → Option Out)
      → pcm_files es ≡ []
      → 0 < sample_rate
      → 0 < channels
      → length calls < 2 ^ 32
      → (add_all calls (new sample_rate channels) es).0.checkpoint_count < 1000
      → disk.write ≡ written
      → disk.rename_works ≡ true
      → ((es : List (Entry F)) → Lists listing es)
      → let (s, es') = add_all calls (new sample_rate channels) es in
        (pieces : List (List F)) × (concat pieces ≡ chunks_of calls)
        × (finalize disk listing encode s es' ≡ outcome encode pieces)
  unfolding new
  finalize-outcome calls sample_rate channels es disk listing encode empty r c b k w ok p =
      let start : Holds (new sample_rate channels) es [] 0 = record {
        saved = [];
        files = empty;
        counted = refl;
        few = omega arith;
        whole = refl;
      } in
      let after = add_all calls (new sample_rate channels) es in
      finalize-Holds disk listing encode after.0 after.1 (chunks_of calls) (0 + length calls) w ok p
        k (add_all-Holds calls (new sample_rate channels) es [] 0 (omega arith) (grind arith) start)
