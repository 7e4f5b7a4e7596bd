-- ===== src/Saver.antt =====
-- meetily-core/src/audio/incremental_saver.rs: the audio of a recording as numbered checkpoint
-- files, written every 30 seconds and encoded once at the end. The checkpoints directory holds the
-- entries that the saver makes and foreign ones; what the file system answers to a call, and the
-- order in which it lists a directory, are arguments, and so is the encoder.
pub mod Names
pub mod Files
pub mod Audio
pub mod Sorting
pub mod Finish
pub mod Recovery
mod Examples
use mathlib.Core.Option
use Prim.Native.Nat.{compare, Ordering}
use meetily_local.Common.{
  ℕ, zero, suc, ◌+◌, ◌-◌, ◌*◌, ◌/◌, ◌%◌, ◌^◌, Bool, true, false, Option, none, some, String, List,
  [], ◌∷◌, ◌++◌, length, leb, ltb, ◌==◌, if◌then◌else◌, codes, replicate, sum_lengths, concat,
}

-- A decimal number of at most ten digits, as a `u32` has.
unfoldable pub digits_within : ℕ → ℕ → List ℕ
digits_within zero n = []
digits_within (suc f) n =
    let rest = digits_within f (n / 10) in
    if ltb n 10 then (48 + n) ∷ [] else rest ++ (48 + n % 10) ∷ []

-- `{:03}`
unfoldable pub pad3 : ℕ → List ℕ
unfolding digits_within
pad3 n = let d = digits_within 10 n in replicate (3 - length d) 48 ++ d

-- `audio_chunk_{:03}.f32`
unfoldable pub checkpoint_name : ℕ → List ℕ
checkpoint_name n = codes "audio_chunk_" ++ (pad3 n ++ codes ".f32")

-- The order of paths in one directory: that of the bytes of their names.
unfoldable pub compare_bytes : List ℕ → List ℕ → Ordering
compare_bytes [] [] = Ordering.eq
compare_bytes [] (b ∷ bs) = Ordering.lt
compare_bytes (a ∷ r) [] = Ordering.gt
compare_bytes (a ∷ r) (b ∷ bs) = elim (compare a b) [
  | Ordering.lt ↦ Ordering.lt
  | Ordering.eq ↦ compare_bytes r bs
  | Ordering.gt ↦ Ordering.gt
]

abbrev pub is_greater_name : Ordering → Bool
is_greater_name Ordering.gt = true
is_greater_name _ = false

-- A checkpoint (its number and samples), a file that is being written (`.f32.part`), or another.
pub data Entry (F : Type 0) : Type 0 where
  pcm : ℕ → List F → Entry F
  part : ℕ → List F → Entry F
  foreign : String → Entry F

pub record Saver (F : Type 0) : Type 0 where
  pub checkpoint_buffer : List (List F)
  pub checkpoint_interval_samples : ℕ
  pub checkpoint_count : ℕ
  pub sample_rate : ℕ
  pub channels : ℕ

-- What the file system answers: a write succeeds, or leaves a part of the file; the rename
-- succeeds or not.
pub data WriteAnswer (F : Type 0) : Type 0 where
  written : WriteAnswer F
  write_failed : List F → WriteAnswer F

pub record Disk (F : Type 0) : Type 0 where
  pub write : WriteAnswer F
  pub rename_works : Bool

module _ {F : Type 0} where
  -- `new`, where the checkpoints directory exists and the format file can be written.
  unfoldable pub new : ℕ → ℕ → Saver F
  new sample_rate channels = record {
    checkpoint_buffer = [];
    checkpoint_interval_samples = sample_rate * 30 * channels;
    checkpoint_count = 0;
    sample_rate = sample_rate;
    channels = channels;
  }

  -- `std::fs::write` of the temporary file.
  unfoldable pub write_part : ℕ → List F → List (Entry F) → List (Entry F)
  write_part n samples [] = part n samples ∷ []
  write_part n samples (pcm k c ∷ es) = pcm k c ∷ write_part n samples es
  write_part n samples (foreign s ∷ es) = foreign s ∷ write_part n samples es
  write_part n samples (part k c ∷ es) =
      let rest = write_part n samples es in if k == n then part n samples ∷ es else part k c ∷ rest

  -- `std::fs::rename` of the temporary file over the checkpoint.
  unfoldable pub without : ℕ → List (Entry F) → List (Entry F)
  without n [] = []
  without n (pcm k c ∷ es) = let rest = without n es in if k == n then rest else pcm k c ∷ rest
  without n (part k c ∷ es) = let rest = without n es in if k == n then rest else part k c ∷ rest
  without n (foreign s ∷ es) = foreign s ∷ without n es

  unfoldable pub rename_part : ℕ → List F → List (Entry F) → List (Entry F)
  rename_part n samples es = without n es ++ pcm n samples ∷ []

  -- The state, the directory, and whether the call succeeded.
  unfoldable pub save_samples :
      Disk F → List F → Saver F → List (Entry F) → Saver F × List (Entry F) × Bool
  save_samples disk [] s es = (s, es, true)
  save_samples disk (x ∷ xs) s es = elim disk.write [
    | write_failed left ↦ (s, write_part s.checkpoint_count left es, false)
    | written ↦
        let es' = write_part s.checkpoint_count (x ∷ xs) es in
        if disk.rename_works
        then (
          record s { checkpoint_count = (s.checkpoint_count + 1) % 2 ^ 32 },
          rename_part s.checkpoint_count (x ∷ xs) es',
          true,
        )
        else (s, es', false)
  ]

  unfoldable pub save_checkpoint :
      Disk F → Saver F → List (Entry F) → Saver F × List (Entry F) × Bool
  unfolding save_samples
  save_checkpoint disk s es = save_samples disk (concat s.checkpoint_buffer) s es

  pub cleared : Saver F × List (Entry F) × Bool → Saver F × List (Entry F) × Bool
  cleared (s, es, true) = (record s { checkpoint_buffer = [] }, es, true)
  cleared (s, es, false) = (s, es, false)

  unfoldable pub add_chunk :
      Disk F → List F → Saver F → List (Entry F) → Saver F × List (Entry F) × Bool
  unfolding cleared
  add_chunk disk chunk s es =
      let t = record s { checkpoint_buffer = s.checkpoint_buffer ++ chunk ∷ [] } in
      if leb s.checkpoint_interval_samples (sum_lengths t.checkpoint_buffer)
      then cleared (save_checkpoint disk t es)
      else (t, es, true)

  -- The last save, of a buffer that is not empty.
  unfoldable pub save_remaining :
      Disk F → List (List F) → Saver F → List (Entry F) → Saver F × List (Entry F) × Bool
  unfolding cleared save_checkpoint
  save_remaining disk [] s es = (s, es, true)
  save_remaining disk (c ∷ cs) s es = cleared (save_checkpoint disk s es)

  -- The checkpoints of a directory's listing, sorted by name.
  unfoldable pub pcm_files : List (Entry F) → List (ℕ × List F)
  pcm_files [] = []
  pcm_files (pcm n c ∷ es) = (n, c) ∷ pcm_files es
  pcm_files (part n c ∷ es) = pcm_files es
  pcm_files (foreign s ∷ es) = pcm_files es

  unfoldable pub insert_file : ℕ × List F → List (ℕ × List F) → List (ℕ × List F)
  insert_file (n, c) [] = (n, c) ∷ []
  insert_file (n, c) ((k, d) ∷ fs) =
      let rest = insert_file (n, c) fs in
      if is_greater_name (compare_bytes (checkpoint_name n) (checkpoint_name k))
      then (k, d) ∷ rest
      else (n, c) ∷ (k, d) ∷ fs

  unfoldable pub sort_files : List (ℕ × List F) → List (ℕ × List F)
  sort_files [] = []
  sort_files (f ∷ fs) = insert_file f (sort_files fs)

  -- `list_checkpoint_files`; `listing` is what `read_dir` gives, if it works, in its order.
  unfoldable pub list_checkpoint_files :
      (List (Entry F) → Option (List (Entry F))) → List (Entry F) → Option (List (ℕ × List F))
  unfolding pcm_files sort_files
  list_checkpoint_files listing es = Option.map (λ ls. sort_files (pcm_files ls)) (listing es)

  abbrev pub contents : List (ℕ × List F) → List (List F)
  contents [] = []
  contents ((n, c) ∷ fs) = c ∷ contents fs

pub data Finished (Out : Type 0) : Type 0 where
  encoded : Out → Finished Out
  save_error no_checkpoints list_error no_files encode_error : Finished Out

module _ {F Out : Type 0} where
  -- `encode_checkpoints`: the encoder, with the check that its output exists, gives `none` if it
  -- fails.
  unfoldable pub encode_files :
      (List (List F) → Option Out) → Option (List (ℕ × List F)) → Finished Out
  encode_files encode none = list_error
  encode_files encode (some []) = no_files
  encode_files encode (some (f ∷ fs)) = elim (encode (contents (f ∷ fs))) [
    | none ↦ encode_error
    | some out ↦ encoded out
  ]

  unfoldable pub encode_saved :
      (List (Entry F) → Option (List (Entry F)))
      → (List (List F) → Option Out)
      → Saver F × List (Entry F) × Bool
      → Finished Out
  unfolding encode_files
  encode_saved listing encode (s, es, false) = save_error
  encode_saved listing encode (s, es, true) =
      if s.checkpoint_count == 0
      then no_checkpoints
      else encode_files encode (list_checkpoint_files listing es)

  -- The clean-up of the directory afterwards cannot fail the call.
  unfoldable pub finalize :
      Disk F
      → (List (Entry F) → Option (List (Entry F)))
      → (List (List F) → Option Out)
      → Saver F
      → List (Entry F)
      → Finished Out
  unfolding encode_saved save_remaining
  finalize disk listing encode s es =
      encode_saved listing encode (save_remaining disk s.checkpoint_buffer s es)
