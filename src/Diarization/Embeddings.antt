-- ===== src/Diarization/Embeddings.antt =====
-- meetily-core/src/speaker_diarization/embedding_math.rs: vectors of f32, whose square root is an
-- argument.
use mathlib.Core.Option
use meetily_local.Common.{
  Option, none, some, List, [], ◌∷◌, map, length, ◌==◌, Float, if◌then◌else◌,
}

module _ (f : Float) (sqrt : f.F → f.F) where
  abbrev pub sum_from : f.F → List f.F → f.F
  sum_from acc [] = acc
  sum_from acc (a ∷ as') = sum_from (f.add acc a) as'

  abbrev pub products : List f.F → List f.F → List f.F
  products [] ys = []
  products (a ∷ xs) [] = []
  products (a ∷ xs) (b ∷ ys) = f.mul a b ∷ products xs ys

  -- `none` is the panic of the assertion on the lengths, in a build with debug assertions.
  unfoldable pub dot : List f.F → List f.F → Option f.F
  dot a b = if length a == length b then some (sum_from (f.literal 0 0) (products a b)) else none

  unfoldable pub l2_normalize : List f.F → List f.F
  l2_normalize v =
      let norm = sqrt (sum_from (f.literal 0 0) (products v v)) in
      let inv = f.div (f.literal 1 0) norm in
      if f.lt (f.literal 1 8) norm then map (λ a. f.mul a inv) v else v

  unfoldable pub cosine_distance : List f.F → List f.F → Option f.F
  unfolding dot
  cosine_distance a b = Option.map (λ similarity. f.sub (f.literal 1 0) similarity) (dot a b)
