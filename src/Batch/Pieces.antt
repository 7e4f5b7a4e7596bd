-- ===== src/Batch/Pieces.antt =====
-- The pieces of a segment.
use meetily_local.Common.{
  ℕ, zero, suc, ◌+◌, ◌-◌, ◌*◌, ◌≤◌, ◌<◌, ◌≡◌, refl, sym, ap, ◌∙◌, false, List, [], ◌∷◌, ◌++◌,
  append-nil, ltb, leb, Bool-cases, inl, inr, Float, length, take, drop, min, max, take-append-drop,
  drop-drop, length-drop, length-take, take-length, concat, arith,
}
use meetily_local.Batch.{
  SpeechSegment, energy_window, windows, quieter, scan_windows, best_split, chunk_end, piece,
  end_ms, split_from, split_segment_at_silence,
}

module _ (f : Float) (rms : List f.F → f.F) (f32_max : f.F) where
  abbrev Between : ℕ → ℕ → ℕ × f.F → Type 0
  Between low high best = (low < best.0) × (best.0 ≤ high)

  quieter-Between :
      (low high idx : ℕ) (loudness : f.F) (best : ℕ × f.F)
      → low < idx + 800
      → idx + 800 ≤ high
      → Between low high best
      → Between low high (quieter f rms f32_max idx loudness best)
  quieter-Between low high idx loudness (split, level) l h b =
      elim (Bool-cases (f.lt loudness level)) [ inl e ↦ rw e (l, h) | inr e ↦ rw e b ]

  scan_windows-Between :
      (samples : List f.F) (low high r idx : ℕ) (best : ℕ × f.F)
      → low < idx + 800
      → (0 < r → idx + r * 160 + 640 ≤ high)
      → Between low high best
      → Between low high (scan_windows f rms f32_max samples r idx best)
  unfolding scan_windows
  scan_windows-Between samples low high zero idx best l h b = b
  scan_windows-Between samples low high (suc r) idx best l h b =
      let fits : idx + suc r * 160 + 640 ≤ high = h (omega arith) in
      scan_windows-Between samples low high r (idx + 160)
        (quieter f rms f32_max idx (rms (take energy_window (drop idx samples))) best)
        (omega (arith, l)) (λ q. omega (arith, fits))
        (quieter-Between low high idx (rms (take energy_window (drop idx samples))) best l
          (omega (arith, fits)) b)

  windows-fit :
      (start end high : ℕ)
      → end ≤ high
      → 0 < windows start end
      → start + windows start end * 160 + 640 ≤ high
  windows-fit start end high h q = ground (arith, h, q)

  best_split-Between :
      (samples : List f.F) (max_samples pos : ℕ)
      → 0 < max_samples
      → pos + max_samples < length samples
      → Between pos
          (min (pos + max_samples + 48000) (length samples))
          (best_split f rms f32_max samples max_samples pos)
  unfolding best_split
  best_split-Between samples max_samples pos m h =
      let start = max (pos + max_samples - 48000) (pos + 16000) in
      let end = min (pos + max_samples + 48000) (length samples - 1600) in
      let high = min (pos + max_samples + 48000) (length samples) in
      scan_windows-Between samples pos high (windows start end) start
        (min (pos + max_samples) (length samples), f32_max) (omega arith)
        (windows-fit start end high (omega arith)) (omega (arith, m, h), omega (arith, h))

  -- A piece ends after its start, within the segment and at most four seconds after the target.
  chunk_end-bounds :
      (samples : List f.F) (max_samples pos : ℕ)
      → 0 < max_samples
      → pos + max_samples < length samples
      → let end = chunk_end f rms f32_max samples max_samples pos in
        (pos < end) × (end ≤ length samples) × (end ≤ pos + max_samples + 64000)
  unfolding chunk_end
  chunk_end-bounds samples max_samples pos m h =
      let (l, u) = best_split-Between samples max_samples pos m h in
      let (split_at, best_rms) = best_split f rms f32_max samples max_samples pos in
      elim (Bool-cases (f.lt (f.literal 2 2) best_rms)) [
        | inl e ↦ rw e (omega (arith, l, h), omega arith, omega (arith, u))
        | inr e ↦ rw e (l, omega (arith, u), omega (arith, u))
      ]

  abbrev pub samples_of : List (SpeechSegment f) → List (List f.F)
  samples_of [] = []
  samples_of (s ∷ ss) = s.samples ∷ samples_of ss

  -- No piece is empty or longer than `most`.
  abbrev pub Sized : ℕ → List (SpeechSegment f) → Type 0
  Sized most [] = Unit
  Sized most (s ∷ ss) = (0 < length s.samples) × (length s.samples ≤ most) × Sized most ss

  drop_all : (xs : List f.F) (n : ℕ) → length xs ≤ n → drop n xs ≡ []
  drop_all [] zero h = refl
  drop_all [] (suc n) h = refl
  drop_all (a ∷ xs) zero h = absurd (omega (arith, h))
  drop_all (a ∷ xs) (suc n) h = drop_all xs n (omega (arith, h))

  rest_of :
      (xs : List f.F) (pos end : ℕ)
      → pos < end
      → take (end - pos) (drop pos xs) ++ drop end xs ≡ drop pos xs
  rest_of xs pos end l =
      let e : pos + (end - pos) ≡ end = omega (arith, l) in
      ap (λ n. take (end - pos) (drop pos xs) ++ drop n xs) (sym e)
      ∙ ap (λ ys. take (end - pos) (drop pos xs) ++ ys) (sym (drop-drop (end - pos) pos xs))
      ∙ take-append-drop (end - pos) (drop pos xs)

  length-piece :
      (xs : List f.F) (pos end : ℕ)
      → end ≤ length xs
      → length (take (end - pos) (drop pos xs)) ≡ end - pos
  length-piece xs pos end h =
      omega (arith, h, length-take (end - pos) (drop pos xs), length-drop pos xs)

  Split : SpeechSegment f → ℕ → ℕ → List (SpeechSegment f) → Type 0
  Split segment most pos pieces =
      (concat (samples_of pieces) ≡ drop pos segment.samples) × Sized most pieces

  split_from-Split :
      (fuel : ℕ) (segment : SpeechSegment f) (max_samples pos : ℕ)
      → 0 < max_samples
      → length segment.samples ≤ pos + fuel
      → Split segment
          (max_samples + 64000)
          pos
          (split_from f rms f32_max fuel segment max_samples pos)
  unfolding split_from Split
  split_from-Split zero segment max_samples pos m h =
      (sym (drop_all segment.samples pos (omega (arith, h))), tt)
  split_from-Split (suc fuel) segment max_samples pos m h = elim (Bool-cases (ltb pos total)) [
    | inl e ↦ elim (Bool-cases (leb (total - pos) max_samples)) [
      | inl g ↦ rw (e, g) (last (ground (arith, e)) (ground (arith, g)))
      | inr g ↦
          let bounds = chunk_end-bounds segment.samples max_samples pos m (ground (arith, e, g)) in
          let rest = split_from-Split fuel segment max_samples end m (omega (arith, h, bounds.0)) in
          rw (e, g) (more bounds.0 bounds.1 bounds.2 rest)
    ]
    | inr e ↦ rw e (sym (drop_all segment.samples pos (ground (arith, e))), tt)
  ]
    where
      total : ℕ
      total = length segment.samples

      end : ℕ
      end = chunk_end f rms f32_max segment.samples max_samples pos

      last :
          pos < total
          → total - pos ≤ max_samples
          → Split segment
              (max_samples + 64000)
              pos
              (piece f rms f32_max segment pos total segment.end_timestamp_ms ∷ [])
      last l g =
          let n : length (take (total - pos) (drop pos segment.samples)) ≡ total - pos =
            length-piece segment.samples pos total (omega arith) in
          (
            append-nil (take (total - pos) (drop pos segment.samples))
                ∙ ap (λ n. take n (drop pos segment.samples))
                    (sym (length-drop pos segment.samples))
                ∙ take-length (drop pos segment.samples),
            (omega (arith, n, l), omega (arith, n, g), tt),
          )

      more :
          pos < end
          → end ≤ total
          → end ≤ pos + max_samples + 64000
          → Split segment
              (max_samples + 64000)
              end
              (split_from f rms f32_max fuel segment max_samples end)
          → Split segment (max_samples + 64000) pos (
              piece f rms f32_max segment pos end (end_ms f rms f32_max segment end)
              ∷ split_from f rms f32_max fuel segment max_samples end)
      more l u b rest =
          let n : length (take (end - pos) (drop pos segment.samples)) ≡ end - pos =
            length-piece segment.samples pos end u in
          (
            ap (λ ys. take (end - pos) (drop pos segment.samples) ++ ys) rest.0
                ∙ rest_of segment.samples pos end l,
            (omega (arith, n, l), omega (arith, n, b), rest.1),
          )

  -- A segment that is longer than `max_samples` samples, which is not 0, for any arithmetic: the pieces
  -- together are its samples, each once and in their order, and none is empty or more than 64000 samples
  -- (four seconds) longer than `max_samples`.
  pub split_segment_at_silence-Sized :
      (segment : SpeechSegment f) (max_samples : ℕ)
      → 0 < max_samples
      → max_samples < length segment.samples
      → let pieces = split_segment_at_silence f rms f32_max segment max_samples in
        (concat (samples_of pieces) ≡ segment.samples) × Sized (max_samples + 64000) pieces
  unfolding split_segment_at_silence Split
  split_segment_at_silence-Sized segment max_samples m h =
      let long : leb (length segment.samples) max_samples ≡ false = ground (arith, h) in
      rw long (split_from-Split (length segment.samples) segment max_samples 0 m (omega arith))
