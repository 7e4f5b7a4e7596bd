-- ===== src/Batch.antt =====
-- meetily-core/src/audio/common.rs: the splitting of long speech segments for import and
-- retranscription. `rms` is the loudness of a window.
pub mod Pieces
pub mod Transcribe
mod Examples
use meetily_local.Common.{
  ℕ, zero, suc, ◌+◌, ◌-◌, ◌*◌, ◌/◌, ◌≤◌, Bool, true, false, Option, none, some, List, [], ◌∷◌, ◌++◌,
  ltb, leb, if◌then◌else◌, Float, length, take, drop, min, max,
}
use meetily_local.Recording.Session.{DeviceType}

pub record SpeechSegment (f : Float) : Type 0 where
  pub samples : List f.F
  pub start_timestamp_ms : f.F
  pub end_timestamp_ms : f.F
  pub confidence : f.F
  pub source : DeviceType

abbrev pub sample_rate : ℕ
sample_rate = 16000

abbrev pub energy_window : ℕ
energy_window = sample_rate / 10

abbrev pub search_radius : ℕ
search_radius = sample_rate * 3

abbrev pub fallback_overlap : ℕ
fallback_overlap = sample_rate

-- How often the search window moves: while a window that starts at `start` ends by `end`.
abbrev pub windows : ℕ → ℕ → ℕ
windows start end =
    if leb (start + energy_window) end
    then suc ((end - (start + energy_window)) / (sample_rate / 100))
    else 0

module _ (f : Float) (rms : List f.F → f.F) (f32_max : f.F) where
  abbrev pub quieter : ℕ → f.F → ℕ × f.F → ℕ × f.F
  quieter idx loudness (best_split, best_rms) =
      if f.lt loudness best_rms then (idx + energy_window / 2, loudness) else (best_split, best_rms)

  unfoldable pub scan_windows : List f.F → ℕ → ℕ → ℕ × f.F → ℕ × f.F
  scan_windows samples zero idx best = best
  scan_windows samples (suc r) idx best =
      scan_windows samples r (idx + sample_rate / 100)
        (quieter idx (rms (take energy_window (drop idx samples))) best)

  -- The quietest window around the target, and how loud it is.
  unfoldable pub best_split : List f.F → ℕ → ℕ → ℕ × f.F
  unfolding scan_windows
  best_split samples max_samples pos =
      let total = length samples in
      let target = pos + max_samples in
      let search_start = max (target - search_radius) (pos + sample_rate) in
      let search_end = min (target + search_radius) (total - energy_window) in
      scan_windows samples (windows search_start search_end) search_start
        (min target total, f32_max)

  unfoldable pub chunk_end : List f.F → ℕ → ℕ → ℕ
  unfolding best_split
  chunk_end samples max_samples pos =
      let (split_at, best_rms) = best_split samples max_samples pos in
      if f.lt (f.literal 2 2) best_rms
      then min (split_at + fallback_overlap) (length samples)
      else split_at

  abbrev pub piece : SpeechSegment f → ℕ → ℕ → f.F → SpeechSegment f
  piece segment pos end end_ms =
      let ms_per_sample =
        f.div (f.sub segment.end_timestamp_ms segment.start_timestamp_ms)
          (f.of_usize (length segment.samples)) in
      record segment {
        samples = take (end - pos) (drop pos segment.samples);
        start_timestamp_ms =
            f.add segment.start_timestamp_ms (f.mul (f.of_usize pos) ms_per_sample);
        end_timestamp_ms = end_ms;
      }

  abbrev pub end_ms : SpeechSegment f → ℕ → f.F
  end_ms segment end = f.add segment.start_timestamp_ms (
      f.mul (f.of_usize end) (
        f.div (f.sub segment.end_timestamp_ms segment.start_timestamp_ms)
          (f.of_usize (length segment.samples))))

  -- On fuel: the samples that are left.
  unfoldable pub split_from : ℕ → SpeechSegment f → ℕ → ℕ → List (SpeechSegment f)
  unfolding chunk_end
  split_from zero segment max_samples pos = []
  split_from (suc fuel) segment max_samples pos =
      let total = length segment.samples in
      let end = chunk_end segment.samples max_samples pos in
      let rest = split_from fuel segment max_samples end in
      if ltb pos total
      then if leb (total - pos) max_samples
        then piece segment pos total segment.end_timestamp_ms ∷ []
        else piece segment pos end (end_ms segment end) ∷ rest
      else []

  unfoldable pub split_segment_at_silence : SpeechSegment f → ℕ → List (SpeechSegment f)
  unfolding split_from
  split_segment_at_silence segment max_samples =
      let total = length segment.samples in
      let split = split_from total segment max_samples 0 in
      if leb total max_samples then segment ∷ [] else split
