-- ===== src/Common/Bytes.antt =====
-- Texts as lists of code points.
use Prim.Native.Nat.{ℕ}
use mathlib.Core.Path.{◌≡◌, refl}
use mathlib.Core.Logic.{inl, inr}
use mathlib.Core.Bool.{Bool, true, false}
use native.Mathlib.Omega.{arith}
use meetily_local.Common.Tests.{◌==◌, if◌then◌else◌, Bool-cases}
use Prim.Native.Char.{code}
use Prim.Native.String.{String}
use mathlib.Core.List.{List, [], ◌∷◌}

-- The code points of a text: its bytes, if it is ASCII.
abbrev pub codes : String → List ℕ
codes String.[] = []
codes (String.◌∷◌ c s) = code c ∷ codes s

abbrev pub same_text : List ℕ → List ℕ → Bool
same_text [] [] = true
same_text [] (d ∷ ds) = false
same_text (c ∷ cs) [] = false
same_text (c ∷ cs) (d ∷ ds) = if c == d then same_text cs ds else false

pub same_text_refl : (a : List ℕ) → same_text a a ≡ true
same_text_refl [] = refl
same_text_refl (x ∷ a) = ground (arith, same_text_refl a)

pub same_text_sound : (a b : List ℕ) → same_text a b ≡ true → a ≡ b
same_text_sound [] [] h = refl
same_text_sound [] (y ∷ b) h = absurd (ground (arith, h))
same_text_sound (x ∷ a) [] h = absurd (ground (arith, h))
same_text_sound (x ∷ a) (y ∷ b) h = elim (Bool-cases (x == y)) [
  | inl e ↦
      let same : x ≡ y = ground arith in
      let rest : a ≡ b = same_text_sound a b (ground (arith, h, e)) in cc (same, rest)
  | inr e ↦ absurd (ground (arith, h, e))
]
