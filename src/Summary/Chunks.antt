-- ===== src/Summary/Chunks.antt =====
-- How the chunks of a text lie in it.
use Prim.Native.Nat.{min, max}
use meetily_local.Common.{
  ℕ, zero, suc, ◌+◌, ◌-◌, ◌≤◌, ◌<◌, ◌≡◌, ◌≢◌, refl, subst, ap, ◌∙◌, false, Option, none, some, List,
  [], ◌∷◌, ◌++◌, append-nil, arith, length, length-take, length-drop, drop, take-append-drop,
  take-length, drop-drop, drop-take, leb, ◌==◌, if◌then◌else◌, Bool-cases, inl, inr,
}
use meetily_local.Summary.{
  rfind_period, rfind_space, slice, snapped_end, actual_end, next_start, chunk_loop, chunk_chars,
  chunk_text, chunk_size_chars, overlap_chars,
}

-- From character `start` on, the chunks are pieces of the text of at most `size` characters. A
-- chunk starts within the one before or where that one ends, at most `overlap` characters before its
-- end, and the last one reaches the end of the text.
pub data Covers (size overlap : ℕ) (text : List ℕ) : ℕ → List (List ℕ) → Type 0 where
  last :
      {start : ℕ}
      → start < length text
      → length text ≤ start + size
      → Covers size overlap text start (slice start (length text) text ∷ [])
  more :
      {start : ℕ} {rest : List (List ℕ)} (end next : ℕ)
      → start < next
      → next ≤ end
      → end ≤ next + overlap
      → end ≤ start + size
      → end ≤ length text
      → Covers size overlap text next rest
      → Covers size overlap text start (slice start end text ∷ rest)

-- An index, if there is one, with room for `k` characters.
abbrev Fits : ℕ → ℕ → Option ℕ → Type 0
Fits k n none = Unit
Fits k n (some i) = i + k ≤ n

rfind_period_bound : (cs : List ℕ) → Fits 2 (length cs) (rfind_period cs)
unfolding rfind_period
rfind_period_bound [] = tt
rfind_period_bound (c ∷ []) = tt
rfind_period_bound (c ∷ d ∷ cs) = step (rfind_period (d ∷ cs)) (rfind_period_bound (d ∷ cs))
  where
    step :
        (r : Option ℕ)
        → Fits 2 (suc (length cs)) r
        → Fits 2 (suc (suc (length cs))) (elim r [
          | some i ↦ some (suc i)
          | none ↦ if c == 46 then (if d == 32 then some 0 else none) else none
        ])
    step (some i) h = omega (arith, h)
    step none h = ground arith

rfind_space_bound : (cs : List ℕ) → Fits 1 (length cs) (rfind_space cs)
unfolding rfind_space
rfind_space_bound [] = tt
rfind_space_bound (c ∷ cs) = step (rfind_space cs) (rfind_space_bound cs)
  where
    step :
        (r : Option ℕ)
        → Fits 1 (length cs) r
        → Fits 1
            (suc (length cs))
            (elim r [ some i ↦ some (suc i) | none ↦ if c == 32 then some 0 else none ])
    step (some i) h = omega (arith, h)
    step none h = ground arith

snapped_end_bounds :
    (start end : ℕ) (piece : List ℕ)
    → start < end
    → length piece ≤ end - start
    → (start < snapped_end start end piece) × (snapped_end start end piece ≤ end)
unfolding snapped_end
snapped_end_bounds start end piece h b =
    step (rfind_period piece) (rfind_space piece) (rfind_period_bound piece)
      (rfind_space_bound piece)
  where
    snap : Option ℕ → Option ℕ → ℕ
    snap p q = elim p [
      | some last_period ↦ start + last_period + 2
      | none ↦ elim q [ some last_space ↦ start + last_space + 1 | none ↦ end ]
    ]

    step :
        (p q : Option ℕ)
        → Fits 2 (length piece) p
        → Fits 1 (length piece) q
        → (start < snap p q) × (snap p q ≤ end)
    step (some i) q u v = (omega arith, omega (arith, u))
    step none (some i) u v = (omega arith, omega (arith, v))
    step none none u v = (h, omega arith)

actual_end_bounds :
    (start end : ℕ) (text : List ℕ)
    → start < end
    → (start < actual_end start end text) × (actual_end start end text ≤ end)
unfolding actual_end
actual_end_bounds start end text h = ground (
  arith,
  snapped_end_bounds start end (slice start end text) h
      (omega (arith, length-take (end - start) (drop start text))),
)

-- The last chunk is not snapped.
reaches :
    (start end : ℕ) (text : List ℕ)
    → length text ≤ end
    → end ≤ length text
    → actual_end start end text ≡ length text
unfolding actual_end
reaches start end text h b = ground arith

chunk_loop-Covers :
    (fuel size overlap : ℕ) (text : List ℕ) (start : ℕ)
    → 0 < size
    → start < length text
    → length text ≤ start + fuel
    → Covers size overlap text start (chunk_loop fuel size overlap text start)
unfolding chunk_loop
chunk_loop-Covers zero size overlap text start s h f = absurd (omega arith)
chunk_loop-Covers (suc fuel) size overlap text start s h f =
    let end = min (start + size) (length text) in
    let (low, high) = actual_end_bounds start end text (omega arith) in
    let stop = actual_end start end text in
    elim (Bool-cases (leb (length text) end)) [
      | inl done ↦
          let whole : stop ≡ length text = reaches start end text (ground arith) (omega arith) in
          rw (done, whole) (last h (ground arith))
      | inr go ↦ rw go (
          more stop (next_start overlap start stop) (omega arith) (omega arith) (omega arith)
            (omega arith) (omega arith)
            (chunk_loop-Covers fuel size overlap text (next_start overlap start stop) s
              (ground arith) (omega arith)))
    ]

slice_whole : (text : List ℕ) → slice 0 (length text) text ≡ text
slice_whole text = ground (arith, take-length text)

-- A text that is not empty and a budget that is not zero give chunks that cover the text: nothing
-- falls between two of them, none is longer than the budget in characters, and the loop ends.
pub chunk_text-Covers :
    (rough_token_count : List ℕ → ℕ) (scale : ℕ → ℕ → ℕ → ℕ) (text : List ℕ)
    (chunk_size overlap : ℕ)
    → text ≢ []
    → 0 < chunk_size
    → Covers
        (chunk_size_chars rough_token_count scale text chunk_size)
        (overlap_chars rough_token_count scale text overlap)
        text
        0
        (chunk_text rough_token_count scale text chunk_size overlap)
unfolding chunk_text chunk_chars
chunk_text-Covers rough_token_count scale [] chunk_size overlap h b = absurd (h refl)
chunk_text-Covers rough_token_count scale (c ∷ cs) chunk_size overlap h b =
    let size = chunk_size_chars rough_token_count scale (c ∷ cs) chunk_size in
    let o = overlap_chars rough_token_count scale (c ∷ cs) overlap in
    let some_size : (chunk_size == 0) ≡ false = ground arith in
    elim (Bool-cases (leb (length (c ∷ cs)) size)) [
      | inl one ↦
          rw (some_size, one)
            (subst (λ t. Covers size o (c ∷ cs) 0 (t ∷ [])) (slice_whole (c ∷ cs))
              (last (omega arith) (ground arith)))
      | inr many ↦
          rw (some_size, many)
            (chunk_loop-Covers (length (c ∷ cs)) size o (c ∷ cs) 0 (omega arith) (omega arith)
              (omega arith))
    ]

-- Pieces with the number of characters to leave out at the front of each.
abbrev pub pieces : List (ℕ × List ℕ) → List (List ℕ)
pieces [] = []
pieces ((n, c) ∷ ps) = c ∷ pieces ps

abbrev pub join : List (ℕ × List ℕ) → List ℕ
join [] = []
join ((n, c) ∷ ps) = drop n c ++ join ps

drop-slice :
    (start seen end : ℕ) (text : List ℕ)
    → start ≤ seen
    → drop (seen - start) (slice start end text) ≡ slice seen end text
drop-slice start seen end text h = ground (
  arith,
  drop-take (seen - start) (end - start) (drop start text),
  drop-drop (seen - start) start text,
)

slice_rest : (seen : ℕ) (text : List ℕ) → slice seen (length text) text ≡ drop seen text
slice_rest seen text = ground (arith, length-drop seen text, take-length (drop seen text))

slice_then_drop :
    (seen end : ℕ) (text : List ℕ)
    → slice seen end text ++ drop (max seen end) text ≡ drop seen text
slice_then_drop seen end text =
    ground (arith, take-append-drop (end - seen) (drop seen text), drop-drop (end - seen) seen text)

join_from :
    {size overlap : ℕ} {text : List ℕ} {start : ℕ} {chunks : List (List ℕ)} (seen : ℕ)
    → start ≤ seen
    → seen ≤ length text
    → Covers size overlap text start chunks
    → (ps : List (ℕ × List ℕ)) × (pieces ps ≡ chunks) × (join ps ≡ drop seen text)
join_from {text = text} {start = start} seen h b (last l e) = (
  (seen - start, slice start (length text) text) ∷ [],
  refl,
  append-nil (drop (seen - start) (slice start (length text) text))
      ∙ drop-slice start seen (length text) text h
      ∙ slice_rest seen text,
)
join_from {text = text} {start = start} seen h b (more end next n e o s t rest) =
    let (ps, same, whole) =
      join_from (max seen end) (omega (arith, h, n, e)) (omega (arith, b, t)) rest in
    (
      (seen - start, slice start end text) ∷ ps,
      ap (◌∷◌ (slice start end text)) same,
      ap (◌++◌ (drop (seen - start) (slice start end text))) whole
          ∙ ap (λ c. c ++ drop (max seen end) text) (drop-slice start seen end text h)
          ∙ slice_then_drop seen end text,
    )

-- Joined again, each without the characters that it shares with those before, the chunks are the
-- text: no character is lost, for any text and any budget that is not zero.
pub join-chunk_text :
    (rough_token_count : List ℕ → ℕ) (scale : ℕ → ℕ → ℕ → ℕ) (text : List ℕ)
    (chunk_size overlap : ℕ)
    → 0 < chunk_size
    → (ps : List (ℕ × List ℕ)) × (pieces ps
        ≡ chunk_text rough_token_count scale text chunk_size overlap)
      × (join ps ≡ text)
unfolding chunk_text
join-chunk_text rough_token_count scale [] chunk_size overlap b = ([], refl, refl)
join-chunk_text rough_token_count scale (c ∷ cs) chunk_size overlap b =
    join_from 0 (omega arith) (omega arith) (
      chunk_text-Covers rough_token_count scale (c ∷ cs) chunk_size overlap
        (λ e. absurd (ground (arith, e))) b)

snapped_end-period :
    (start end i : ℕ) (piece : List ℕ)
    → rfind_period piece ≡ some i
    → snapped_end start end piece ≡ start + i + 2
unfolding snapped_end
snapped_end-period start end i piece e = rw (e, snapped_end) refl

actual_end-again :
    (start end boundary : ℕ) (text : List ℕ)
    → start + 2 ≤ boundary
    → end < length text
    → rfind_period (slice start end text) ≡ some (boundary - 2 - start)
    → actual_end start end text ≡ boundary
unfolding actual_end
actual_end-again start end boundary text low room found =
    ground (arith, snapped_end-period start end (boundary - 2 - start) (slice start end text) found)

-- A chunk that starts within the overlap before a sentence boundary, whose window has no later one
-- and does not reach the end of the text, is cut at that boundary, and the next chunk starts only
-- one character later.
chunk_loop-again :
    (fuel size overlap start boundary : ℕ) (text : List ℕ)
    → start + 2 ≤ boundary
    → boundary ≤ start + overlap
    → start + size < length text
    → rfind_period (slice start (start + size) text) ≡ some (boundary - 2 - start)
    → chunk_loop (suc fuel) size overlap text start
      ≡ slice start boundary text ∷ chunk_loop fuel size overlap text (suc start)
unfolding chunk_loop
chunk_loop-again fuel size overlap start boundary text low seen room found =
    let window : min (start + size) (length text) ≡ start + size = omega arith in
    let going : leb (length text) (start + size) ≡ false = ground arith in
    let same : actual_end start (start + size) text ≡ boundary =
      actual_end-again start (start + size) boundary text low room found in
    let next : max (boundary - overlap) (start + 1) ≡ suc start = omega arith in
    rw (window, going, same, next) refl
