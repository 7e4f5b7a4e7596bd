-- ===== src/Summary.antt =====
-- meetily-core/src/summary/processor.rs: the split of a transcript into overlapping chunks for the
-- language model. A text is the list of its characters, and a byte offset, which always is one of a
-- whole character, is the index of that character. The estimates in f64 are arguments.
pub mod Chunks
mod Examples
use Prim.Native.Nat.{min, max}
use meetily_local.Common.{
  ℕ, zero, suc, ◌+◌, ◌-◌, Bool, true, false, Option, none, some, List, [], ◌∷◌, length, take, drop,
  leb, ltb, ◌==◌, if◌then◌else◌,
}

-- `slice.rfind(". ")` and `slice.rfind(' ')`
unfoldable pub rfind_period : List ℕ → Option ℕ
rfind_period [] = none
rfind_period (c ∷ []) = none
rfind_period (c ∷ d ∷ cs) = elim (rfind_period (d ∷ cs)) [
  | some i ↦ some (suc i)
  | none ↦ if c == 46 then (if d == 32 then some 0 else none) else none
]

unfoldable pub rfind_space : List ℕ → Option ℕ
rfind_space [] = none
rfind_space (c ∷ cs) = elim (rfind_space cs) [
  | some i ↦ some (suc i)
  | none ↦ if c == 32 then some 0 else none
]

-- `&text[start..end]`
abbrev pub slice : ℕ → ℕ → List ℕ → List ℕ
slice start end text = take (end - start) (drop start text)

-- The end of a chunk that does not reach the end of the text.
unfoldable pub snapped_end : ℕ → ℕ → List ℕ → ℕ
unfolding rfind_period rfind_space
snapped_end start end piece = elim (rfind_period piece) [
  | some last_period ↦ start + last_period + 2
  | none ↦ elim (rfind_space piece) [ some last_space ↦ start + last_space + 1 | none ↦ end ]
]

unfoldable pub actual_end : ℕ → ℕ → List ℕ → ℕ
unfolding snapped_end
actual_end start end text =
    if ltb end (length text) then snapped_end start end (slice start end text) else end

-- `start_char` of the next chunk.
abbrev pub next_start : ℕ → ℕ → ℕ → ℕ
next_start overlap_chars start end = max (end - overlap_chars) (start + 1)

-- The loop, on fuel.
unfoldable pub chunk_loop : ℕ → ℕ → ℕ → List ℕ → ℕ → List (List ℕ)
unfolding actual_end
chunk_loop zero size overlap text start = []
chunk_loop (suc fuel) size overlap text start =
    let end_char = min (start + size) (length text) in
    let actual = actual_end start end_char text in
    let rest = chunk_loop fuel size overlap text (next_start overlap start actual) in
    slice start actual text ∷ (if leb (length text) end_char then [] else rest)

unfoldable pub chunk_chars : ℕ → ℕ → List ℕ → List (List ℕ)
unfolding chunk_loop
chunk_chars size overlap text =
    if leb (length text) size then text ∷ [] else chunk_loop (length text) size overlap text 0

-- `rough_token_count`, and the characters for a number of tokens: `scale tokens total_chars
-- total_tokens` is `(tokens as f64 * chars_per_token).ceil() as usize`.
module _ (rough_token_count : List ℕ → ℕ) (scale : ℕ → ℕ → ℕ → ℕ) where
  abbrev pub chunk_size_chars : List ℕ → ℕ → ℕ
  chunk_size_chars text tokens = max (scale tokens (length text) (max (rough_token_count text) 1)) 1

  abbrev pub overlap_chars : List ℕ → ℕ → ℕ
  overlap_chars text tokens = scale tokens (length text) (max (rough_token_count text) 1)

  unfoldable pub chunk_text : List ℕ → ℕ → ℕ → List (List ℕ)
  unfolding chunk_chars
  chunk_text [] chunk_size_tokens overlap_tokens = []
  chunk_text (c ∷ cs) chunk_size_tokens overlap_tokens =
      if chunk_size_tokens == 0
      then []
      else chunk_chars (chunk_size_chars (c ∷ cs) chunk_size_tokens)
          (overlap_chars (c ∷ cs) overlap_tokens) (c ∷ cs)
