-- ===== src/Saver/Files.antt =====
-- The checkpoints of a directory, as a save changes it.
use meetily_local.Common.{ℕ, suc, ◌+◌, ◌≤◌, ◌<◌, ◌≡◌, refl, List, [], ◌∷◌, ◌++◌, arith, length}
use meetily_local.Saver.{Entry, pcm, part, foreign, write_part, without, pcm_files}

module _ {F : Type 0} where
  -- Checkpoints numbered from `k`, in order.
  abbrev pub numbered : ℕ → List (List F) → List (ℕ × List F)
  numbered k [] = []
  numbered k (c ∷ cs) = (k, c) ∷ numbered (suc k) cs

  pub numbered-append :
      (k : ℕ) (cs : List (List F)) (c : List F)
      → numbered k (cs ++ c ∷ []) ≡ numbered k cs ++ (k + length cs, c) ∷ []
  numbered-append k [] c = ground arith
  numbered-append k (d ∷ cs) c = ground (arith, numbered-append (suc k) cs c)

  abbrev pub Below : ℕ → List (ℕ × List F) → Type 0
  Below n [] = Unit
  Below n ((k, c) ∷ fs) = (k < n) × Below n fs

  pub numbered-Below : (k n : ℕ) (cs : List (List F)) → k + length cs ≤ n → Below n (numbered k cs)
  numbered-Below k n [] h = tt
  numbered-Below k n (c ∷ cs) h = (omega arith, numbered-Below (suc k) n cs (omega arith))

  pub pcm_files-write_part :
      (n : ℕ) (c : List F) (es : List (Entry F)) → pcm_files (write_part n c es) ≡ pcm_files es
  unfolding pcm_files write_part
  pcm_files-write_part n c [] = refl
  pcm_files-write_part n c (pcm k d ∷ es) = ground (arith, pcm_files-write_part n c es)
  pcm_files-write_part n c (part k d ∷ es) = ground (arith, pcm_files-write_part n c es)
  pcm_files-write_part n c (foreign t ∷ es) = pcm_files-write_part n c es

  pub pcm_files-without :
      (n : ℕ) (es : List (Entry F))
      → Below n (pcm_files es)
      → pcm_files (without n es) ≡ pcm_files es
  unfolding pcm_files without
  pcm_files-without n [] h = refl
  pcm_files-without n (pcm k d ∷ es) h = ground (arith, pcm_files-without n es h.1)
  pcm_files-without n (part k d ∷ es) h = ground (arith, pcm_files-without n es h)
  pcm_files-without n (foreign t ∷ es) h = pcm_files-without n es h

  pub pcm_files-append :
      (es fs : List (Entry F)) → pcm_files (es ++ fs) ≡ pcm_files es ++ pcm_files fs
  unfolding pcm_files
  pcm_files-append [] fs = refl
  pcm_files-append (pcm k d ∷ es) fs = ground (arith, pcm_files-append es fs)
  pcm_files-append (part k d ∷ es) fs = pcm_files-append es fs
  pcm_files-append (foreign t ∷ es) fs = pcm_files-append es fs
