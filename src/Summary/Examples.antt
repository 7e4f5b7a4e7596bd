-- ===== src/Summary/Examples.antt =====
-- The theorems of the chunks at concrete inputs, and tests.
use meetily_local.Common.{ℕ, ◌/◌, ◌*◌, ◌+◌, ◌≡◌, refl, List, [], ◌∷◌, length, codes, arith}
use meetily_local.Summary.{
  chunk_text, chunk_size_chars, overlap_chars, chunk_chars, chunk_loop, actual_end, snapped_end,
  rfind_period, rfind_space,
}
use meetily_local.Summary.Chunks.{Covers, chunk_text-Covers, pieces, join, join-chunk_text}

-- A token to three characters.
abbrev thirds : List ℕ → ℕ
thirds text = (length text + 2) / 3

abbrev by_thirds : ℕ → ℕ → ℕ → ℕ
by_thirds tokens total_chars total_tokens = (tokens * total_chars + 2) / total_tokens

abbrev minutes : List ℕ
minutes = codes "We met. It was long and odd"

snaps_to_sentence_and_word :
    chunk_text thirds by_thirds minutes 4 1
    ≡ codes "We met. "
      ∷ codes "t. "
      ∷ codes ". "
      ∷ codes " It was "
      ∷ codes "as long and "
      ∷ codes "nd odd"
      ∷ []
unfolding chunk_text chunk_chars chunk_loop actual_end snapped_end rfind_period rfind_space
snaps_to_sentence_and_word = refl

chunk_text-Covers_example :
    Covers
      (chunk_size_chars thirds by_thirds minutes 4)
      (overlap_chars thirds by_thirds minutes 1)
      minutes
      0
      (chunk_text thirds by_thirds minutes 4 1)
chunk_text-Covers_example =
    chunk_text-Covers thirds by_thirds minutes 4 1 (λ e. ground (arith, e)) (omega arith)

join-chunk_text_example :
    (ps : List (ℕ × List ℕ)) × (pieces ps ≡ chunk_text thirds by_thirds minutes 4 1)
    × (join ps ≡ minutes)
join-chunk_text_example = join-chunk_text thirds by_thirds minutes 4 1 (omega arith)
