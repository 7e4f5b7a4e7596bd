-- ===== src/Saver/Recovery.antt =====
-- meetily-core/src/audio/incremental_saver.rs: the recovery of a recording from the checkpoints that
-- a crash left, and their clean-up. The files of the old format, the encoders and what the system
-- answers are arguments; the message of a status is left out, and `D` is its duration in f64.
pub mod Crash
use meetily_local.Common.{
  ℕ, zero, suc, ◌%◌, ◌^◌, Bool, true, false, Option, none, some, String, List, [], ◌∷◌, length,
  if◌then◌else◌,
}
use meetily_local.Saver.{Entry, list_checkpoint_files, contents}

pub record AudioRecoveryStatus (D : Type 0) : Type 0 where
  pub status : String
  pub chunk_count : ℕ
  pub estimated_duration_seconds : D
  pub audio_file_path : Option String

pub data RecoveryError : Type 0 where
  read_failed invalid_path encode_panicked canonicalize_failed list_write_failed ffmpeg_not_found
        merge_panicked :
      RecoveryError

pub data Recovered (D : Type 0) : Type 0 where
  recovered : AudioRecoveryStatus D → Recovered D
  failed : RecoveryError → Recovered D

-- A task that runs an encoder: it panics, or says whether it succeeded.
pub data Ran : Type 0 where
  panicked : Ran
  succeeded failed_to_run : Ran

-- What the path for the old format uses: the paths of its checkpoints, ffmpeg on their list.
pub record Legacy : Type 0 where
  pub canonicalize : String → Option String
  pub writes_list : Bool
  pub ffmpeg : Option (List String → Ran)

module _ {D : Type 0} where
  abbrev pub no_audio : D → Recovered D
  no_audio zero_seconds = recovered (record {
    status = "none";
    chunk_count = 0;
    estimated_duration_seconds = zero_seconds;
    audio_file_path = none;
  })

  -- The status after an encoder ran.
  unfoldable pub after_run : RecoveryError → ℕ → D → String → Ran → Recovered D
  after_run panic count duration output panicked = failed panic
  after_run panic count duration output succeeded = recovered (record {
    status = "success";
    chunk_count = count % 2 ^ 32;
    estimated_duration_seconds = duration;
    audio_file_path = some output;
  })
  after_run panic count duration output failed_to_run = recovered (record {
    status = "failed";
    chunk_count = count % 2 ^ 32;
    estimated_duration_seconds = duration;
    audio_file_path = none;
  })

abbrev pub canonical_paths : (String → Option String) → List String → Option (List String)
canonical_paths canonicalize [] = some []
canonical_paths canonicalize (p ∷ ps) = elim (canonicalize p) [
  | none ↦ none
  | some q ↦ elim (canonical_paths canonicalize ps) [ none ↦ none | some qs ↦ some (q ∷ qs) ]
]

module _ {D : Type 0} where
  unfoldable pub recover_legacy : (ℕ → D) → Legacy → String → List String → Recovered D
  unfolding after_run
  recover_legacy seconds tools output files = elim (canonical_paths tools.canonicalize files) [
    | none ↦ failed canonicalize_failed
    | some paths ↦
        if tools.writes_list
        then (elim tools.ffmpeg [
          | none ↦ failed ffmpeg_not_found
          | some run ↦
              after_run merge_panicked (length files) (seconds (length files)) output (run paths)
        ])
        else failed list_write_failed
  ]

module _ {F D : Type 0} where
  -- The files of both formats are listed; the current one comes first.
  unfoldable pub recover_files :
      D
      → (List (List F) → D)
      → (ℕ → D)
      → (List (List F) → Ran)
      → Legacy
      → Option String
      → List (ℕ × List F)
      → List String
      → Recovered D
  unfolding recover_legacy after_run
  recover_files zero_seconds duration seconds encode tools output [] [] = no_audio zero_seconds
  recover_files zero_seconds duration seconds encode tools none (f ∷ fs) legacy =
      failed invalid_path
  recover_files zero_seconds duration seconds encode tools none [] (l ∷ ls) = failed invalid_path
  recover_files zero_seconds duration seconds encode tools (some output) (f ∷ fs) legacy =
      after_run encode_panicked (length (f ∷ fs)) (duration (contents (f ∷ fs))) output
        (encode (contents (f ∷ fs)))
  recover_files zero_seconds duration seconds encode tools (some output) [] (l ∷ ls) =
      recover_legacy seconds tools output (l ∷ ls)

  -- `none` for a listing is an error of `read_dir`.
  unfoldable pub recover_listed :
      D
      → (List (List F) → D)
      → (ℕ → D)
      → (List (List F) → Ran)
      → Legacy
      → Option String
      → Option (List (ℕ × List F))
      → Option (List String)
      → Recovered D
  unfolding recover_files
  recover_listed zero_seconds duration seconds encode tools output none legacy = failed read_failed
  recover_listed zero_seconds duration seconds encode tools output (some files) none =
      failed read_failed
  recover_listed zero_seconds duration seconds encode tools output (some files) (some legacy) =
      recover_files zero_seconds duration seconds encode tools output files legacy

  unfoldable pub recover_audio_from_checkpoints :
      D
      → (List (List F) → D)
      → (ℕ → D)
      → (List (List F) → Ran)
      → Legacy
      → Option String
      → (List (Entry F) → Option (List (Entry F)))
      → Option (List String)
      → Option (List (Entry F))
      → Recovered D
  unfolding recover_listed list_checkpoint_files
  recover_audio_from_checkpoints zero_seconds duration seconds encode tools output listing legacy
        none =
      no_audio zero_seconds
  recover_audio_from_checkpoints zero_seconds duration seconds encode tools output listing legacy
        (some es) =
      recover_listed zero_seconds duration seconds encode tools output
        (list_checkpoint_files listing es) legacy
