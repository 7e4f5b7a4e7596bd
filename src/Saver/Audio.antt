-- ===== src/Saver/Audio.antt =====
-- Where the samples of a recording are between two calls.
use meetily_local.Common.{
  ℕ, suc, ◌+◌, ◌^◌, ◌≤◌, ◌<◌, ◌≡◌, refl, sym, subst, ap, ◌∙◌, Bool, true, false, List, [], ◌∷◌,
  ◌++◌, append-nil, append_assoc, arith, length, length-append, concat, concat-append, sum_lengths,
  leb, Bool-cases, inl, inr,
}
use native.Mathlib.Nat.{add-zero}
use meetily_local.Saver.{
  Entry, pcm, Saver, Disk, WriteAnswer, written, write_failed, new, write_part, without,
  rename_part, save_checkpoint, save_samples, cleared, add_chunk, pcm_files,
}
use meetily_local.Saver.Files.{
  numbered, Below, numbered-append, numbered-Below, pcm_files-write_part, pcm_files-without,
  pcm_files-append,
}

-- After `added` chunks with these samples: the checkpoints are numbered from 0 in order, and their
-- samples, followed by those in the buffer, are all that was added.
pub record Holds {F : Type 0} (s : Saver F) (es : List (Entry F)) (samples : List F) (added : ℕ)
    : Type 0 where
  pub saved : List (List F)
  pub files : pcm_files es ≡ numbered 0 saved
  pub counted : s.checkpoint_count ≡ length saved
  pub few : length saved ≤ added
  pub whole : concat saved ++ concat s.checkpoint_buffer ≡ samples

module _ {F : Type 0} where
  renamed :
      (cs : List (List F)) (c : List F) (es : List (Entry F))
      → pcm_files es ≡ numbered 0 cs
      → pcm_files (rename_part (length cs) c (write_part (length cs) c es))
        ≡ numbered 0 (cs ++ c ∷ [])
  unfolding rename_part pcm_files
  renamed cs c es h =
      let n = length cs in
      let es' = write_part n c es in
      let same : pcm_files es' ≡ numbered 0 cs = pcm_files-write_part n c es ∙ h in
      let below : Below n (pcm_files es') =
        subst (Below n) (sym same) (numbered-Below 0 n cs (omega arith)) in
      ground (
        arith,
        pcm_files-append (without n es') (pcm n c ∷ []),
        pcm_files-without n es' below,
        same,
        numbered-append 0 cs c,
      )

  abbrev pub After : Saver F → List F → ℕ → Saver F × List (Entry F) × Bool → Type 0
  After s samples added (s', es', ok) =
      Holds s' es' samples added
      × (ok ≡ true → s'.checkpoint_buffer ≡ [])
      × (s'.checkpoint_interval_samples ≡ s.checkpoint_interval_samples)

  save_some-After :
      (disk : Disk F) (w : WriteAnswer F) (r : Bool) (x : F) (xs : List F) (s : Saver F)
      (es : List (Entry F)) (samples : List F) (added : ℕ)
      → disk.write ≡ w
      → disk.rename_works ≡ r
      → concat s.checkpoint_buffer ≡ x ∷ xs
      → added + 1 < 2 ^ 32
      → Holds s es samples added
      → After s samples (suc added) (cleared (save_samples disk (x ∷ xs) s es))
  unfolding cleared save_samples
  save_some-After disk (write_failed left) r x xs s es samples added e f c b v =
      rw (e, save_samples)
        (
          record {
            saved = v.saved;
            files = pcm_files-write_part s.checkpoint_count left es ∙ v.files;
            counted = v.counted;
            few = omega arith;
            whole = v.whole;
          },
          (λ h. cc),
          refl,
        )
  save_some-After disk written false x xs s es samples added e f c b v =
      rw (e, f, save_samples)
        (
          record {
            saved = v.saved;
            files = pcm_files-write_part s.checkpoint_count (x ∷ xs) es ∙ v.files;
            counted = v.counted;
            few = omega arith;
            whole = v.whole;
          },
          (λ h. cc),
          refl,
        )
  save_some-After disk written true x xs s es samples added e f c b v =
      rw (e, f, save_samples)
        (
          record {
            saved = v.saved ++ (x ∷ xs) ∷ [];
            files = rw v.counted (renamed v.saved (x ∷ xs) es v.files);
            counted = ground (arith, v.counted, v.few, length-append v.saved ((x ∷ xs) ∷ []));
            few = omega (arith, v.few, length-append v.saved ((x ∷ xs) ∷ []));
            whole =
                append-nil (concat (v.saved ++ (x ∷ xs) ∷ []))
                ∙ concat-append v.saved ((x ∷ xs) ∷ [])
                ∙ ap (◌++◌ (concat v.saved)) (append-nil (x ∷ xs) ∙ sym c)
                ∙ v.whole;
          },
          (λ h. refl),
          refl,
        )

  -- A save that succeeds moves the buffer to the checkpoints; one that fails changes neither.
  pub save_checkpoint-After :
      (disk : Disk F) (s : Saver F) (es : List (Entry F)) (samples : List F) (added : ℕ)
      → added + 1 < 2 ^ 32
      → Holds s es samples added
      → After s samples (suc added) (cleared (save_checkpoint disk s es))
  unfolding save_checkpoint cleared
  save_checkpoint-After disk s es samples added b v = go (concat s.checkpoint_buffer) refl
    where
      go :
          (xs : List F)
          → concat s.checkpoint_buffer ≡ xs
          → After s samples (suc added) (cleared (save_samples disk xs s es))
      go [] e = (
        record {
          saved = v.saved;
          files = v.files;
          counted = v.counted;
          few = omega (arith, v.few);
          whole = ap (◌++◌ (concat v.saved)) (sym e) ∙ v.whole;
        },
        (λ h. refl),
        refl,
      )
      go (x ∷ xs) e =
          save_some-After disk disk.write disk.rename_works x xs s es samples added refl refl e b v

  pushed :
      (s : Saver F) (es : List (Entry F)) (samples chunk : List F) (added : ℕ)
      → Holds s es samples added
      → Holds
          (record s { checkpoint_buffer = s.checkpoint_buffer ++ chunk ∷ [] })
          es
          (samples ++ chunk)
          added
  pushed s es samples chunk added v = record {
    saved = v.saved;
    files = v.files;
    counted = v.counted;
    few = v.few;
    whole =
        ap (◌++◌ (concat v.saved)) (
          concat-append s.checkpoint_buffer (chunk ∷ [])
          ∙ ap (◌++◌ (concat s.checkpoint_buffer)) (append-nil chunk))
        ∙ sym (append_assoc (concat v.saved) (concat s.checkpoint_buffer) chunk)
        ∙ ap (λ (xs : List F). xs ++ chunk) v.whole;
  }

  weaker :
      (s : Saver F) (es : List (Entry F)) (samples : List F) (added : ℕ)
      → Holds s es samples added
      → Holds s es samples (suc added)
  weaker s es samples added v = record {
    saved = v.saved;
    files = v.files;
    counted = v.counted;
    few = omega (arith, v.few);
    whole = v.whole;
  }

  pub add_chunk-Holds :
      (disk : Disk F) (chunk : List F) (s : Saver F) (es : List (Entry F)) (samples : List F)
      (added : ℕ)
      → added + 1 < 2 ^ 32
      → 0 < s.checkpoint_interval_samples
      → Holds s es samples added
      → let (s', es', ok) = add_chunk disk chunk s es in
        Holds s' es' (samples ++ chunk) (suc added)
        × (ok ≡ true → sum_lengths s'.checkpoint_buffer < s'.checkpoint_interval_samples)
        × (s'.checkpoint_interval_samples ≡ s.checkpoint_interval_samples)
  unfolding add_chunk
  add_chunk-Holds disk chunk s es samples added b i v =
      let t = record s { checkpoint_buffer = s.checkpoint_buffer ++ chunk ∷ [] } in
      let w = pushed s es samples chunk added v in
      elim (Bool-cases (leb s.checkpoint_interval_samples (sum_lengths t.checkpoint_buffer))) [
        | inl full ↦
            let (h, empty, same) = save_checkpoint-After disk t es (samples ++ chunk) added b w in
            rw full (h, (λ o. ground (arith, empty o, i, same)), same)
        | inr room ↦ rw room (weaker t es (samples ++ chunk) added w, (λ o. ground arith), refl)
      ]

  cleared-empties :
      (t : Saver F × List (Entry F) × Bool)
      → (cleared t).2 ≡ true
      → (cleared t).0.checkpoint_buffer ≡ []
  unfolding cleared
  cleared-empties (s, es, true) o = refl
  cleared-empties (s, es, false) o = absurd (ground (arith, o))

  -- Whatever is in the buffer and whatever the disk answers, an `add_chunk` that succeeds leaves less
  -- than an interval of samples in the buffer.
  add_chunk-interval :
      (disk : Disk F) (chunk : List F) (s : Saver F) (es : List (Entry F))
      → 0 < s.checkpoint_interval_samples
      → (add_chunk disk chunk s es).2 ≡ true
      → sum_lengths (add_chunk disk chunk s es).0.checkpoint_buffer < s.checkpoint_interval_samples
  unfolding add_chunk
  add_chunk-interval disk chunk s es i o =
      let t = record s { checkpoint_buffer = s.checkpoint_buffer ++ chunk ∷ [] } in
      elim (Bool-cases (leb s.checkpoint_interval_samples (sum_lengths t.checkpoint_buffer))) [
        | inl full ↦
            let o' : (cleared (save_checkpoint disk t es)).2 ≡ true = rw (full) at o in
            rw (full, cleared-empties (save_checkpoint disk t es) o') i
        | inr room ↦ rw room (ground (arith, room))
      ]

module _ {F : Type 0} where
  -- The chunks of a recording, each with the disk's answers. A failed call is logged, and the
  -- recording goes on.
  unfoldable pub add_all :
      List (Disk F × List F) → Saver F → List (Entry F) → Saver F × List (Entry F)
  add_all [] s es = (s, es)
  add_all ((disk, chunk) ∷ rest) s es =
      let (s', es', ok) = add_chunk disk chunk s es in add_all rest s' es'

  abbrev pub chunks_of : List (Disk F × List F) → List F
  chunks_of [] = []
  chunks_of ((disk, chunk) ∷ rest) = chunk ++ chunks_of rest

  pub add_all-Holds :
      (calls : List (Disk F × List F)) (s : Saver F) (es : List (Entry F)) (samples : List F)
      (added : ℕ)
      → added + length calls < 2 ^ 32
      → 0 < s.checkpoint_interval_samples
      → Holds s es samples added
      → Holds
          (add_all calls s es).0
          (add_all calls s es).1
          (samples ++ chunks_of calls)
          (added + length calls)
  unfolding add_all
  add_all-Holds [] s es samples added b i v = rw (append-nil samples, add-zero added) v
  add_all-Holds ((disk, chunk) ∷ rest) s es samples added b i v =
      let (w, few, same) = add_chunk-Holds disk chunk s es samples added (omega arith) i v in
      let next = add_chunk disk chunk s es in
      let more : added + suc (length rest) ≡ suc added + length rest = omega arith in
      rw (← append_assoc samples chunk (chunks_of rest), more)
        (add_all-Holds rest next.0 next.1 (samples ++ chunk) (suc added) (omega arith) (rw same i)
          w)

  -- However the disk answers during a recording of fewer than 2^32 chunks, from a directory without
  -- checkpoints: the checkpoints are numbered from 0 in the order in which they were written, and
  -- their samples, followed by those in the buffer, are those of the chunks.
  pub add_all-numbered :
      (calls : List (Disk F × List F)) (sample_rate channels : ℕ) (es : List (Entry F))
      → pcm_files es ≡ []
      → 0 < sample_rate
      → 0 < channels
      → length calls < 2 ^ 32
      → let (s, es') = add_all calls (new sample_rate channels) es in
        (saved : List (List F)) × (pcm_files es' ≡ numbered 0 saved)
        × (s.checkpoint_count ≡ length saved)
        × (concat saved ++ concat s.checkpoint_buffer ≡ chunks_of calls)
  unfolding new
  add_all-numbered calls sample_rate channels es empty r c b =
      let start : Holds (new sample_rate channels) es [] 0 = record {
        saved = [];
        files = empty;
        counted = refl;
        few = omega arith;
        whole = refl;
      } in
      let v =
        add_all-Holds calls (new sample_rate channels) es [] 0 (omega arith) (grind arith) start in
      (v.saved, v.files, v.counted, v.whole)
