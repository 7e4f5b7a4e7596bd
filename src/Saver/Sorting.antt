-- ===== src/Saver/Sorting.antt =====
-- The order in which a directory's checkpoints are listed.
use mathlib.Core.Option
use mathlib.Core.List.{Permᴰ}
use meetily_local.Common.{
  ℕ, suc, ◌+◌, ◌≤◌, ◌<◌, ◌≡◌, ◌≢◌, ◌⊎◌, refl, sym, subst, ap, ◌∙◌, true, false, Option, some, List,
  [], ◌∷◌, arith, length, ltb, if◌then◌else◌, Bool-cases, inl, inr,
}
use meetily_local.Saver.{Entry, pcm_files, insert_file, sort_files, list_checkpoint_files, contents}
use meetily_local.Saver.Names.{name_greater}
use meetily_local.Saver.Files.{numbered}

ltb-true : (n k : ℕ) → n < k → ltb n k ≡ true
ltb-true n k h = ground arith

ltb-false : (n k : ℕ) → k ≤ n → ltb n k ≡ false
ltb-false n k h = ground arith

from_ltb : (n k : ℕ) → ltb n k ≡ true → n < k
from_ltb n k h = ground arith

from_ltb_not : (n k : ℕ) → ltb n k ≡ false → k ≤ n
from_ltb_not n k h = ground arith

module _ {F : Type 0} where
  -- Numbers below a thousand.
  abbrev AreSmall : List (ℕ × List F) → Type 0
  AreSmall [] = Unit
  AreSmall ((n, c) ∷ fs) = (n < 1000) × AreSmall fs

  abbrev Lacks : ℕ → List (ℕ × List F) → Type 0
  Lacks n [] = Unit
  Lacks n ((k, c) ∷ fs) = (n ≢ k) × Lacks n fs

  abbrev Distinct : List (ℕ × List F) → Type 0
  Distinct [] = Unit
  Distinct ((k, c) ∷ fs) = Lacks k fs × Distinct fs

  -- The same sort by the numbers themselves.
  insert_number : ℕ × List F → List (ℕ × List F) → List (ℕ × List F)
  insert_number (n, c) [] = (n, c) ∷ []
  insert_number (n, c) ((k, d) ∷ fs) =
      let rest = insert_number (n, c) fs in if ltb k n then (k, d) ∷ rest else (n, c) ∷ (k, d) ∷ fs

  sort_numbers : List (ℕ × List F) → List (ℕ × List F)
  sort_numbers [] = []
  sort_numbers (f ∷ fs) = insert_number f (sort_numbers fs)

  AreSmall-insert_number :
      (f : ℕ × List F) (fs : List (ℕ × List F))
      → f.0 < 1000
      → AreSmall fs
      → AreSmall (insert_number f fs)
  unfolding insert_number
  AreSmall-insert_number (n, c) [] h a = (h, tt)
  AreSmall-insert_number (n, c) ((k, d) ∷ fs) h a =
      ground (arith, AreSmall-insert_number (n, c) fs h a.1)

  insert_file-insert_number :
      (f : ℕ × List F) (fs : List (ℕ × List F))
      → f.0 < 1000
      → AreSmall fs
      → insert_file f fs ≡ insert_number f fs
  unfolding insert_file insert_number
  insert_file-insert_number (n, c) [] h a = refl
  insert_file-insert_number (n, c) ((k, d) ∷ fs) h a =
      ground (arith, name_greater n k h a.0, insert_file-insert_number (n, c) fs h a.1)

  AreSmall-sort_numbers : (fs : List (ℕ × List F)) → AreSmall fs → AreSmall (sort_numbers fs)
  unfolding sort_numbers
  AreSmall-sort_numbers [] a = tt
  AreSmall-sort_numbers (f ∷ fs) a =
      AreSmall-insert_number f (sort_numbers fs) a.0 (AreSmall-sort_numbers fs a.1)

  sort_files-sort_numbers : (fs : List (ℕ × List F)) → AreSmall fs → sort_files fs ≡ sort_numbers fs
  unfolding sort_files sort_numbers
  sort_files-sort_numbers [] a = refl
  sort_files-sort_numbers (f ∷ fs) a =
      ap (insert_file f) (sort_files-sort_numbers fs a.1)
      ∙ insert_file-insert_number f (sort_numbers fs) a.0 (AreSmall-sort_numbers fs a.1)

  insert_number-over :
      (n k : ℕ) (c d : List F) (fs : List (ℕ × List F))
      → ltb k n ≡ true
      → insert_number (n, c) ((k, d) ∷ fs) ≡ (k, d) ∷ insert_number (n, c) fs
  unfolding insert_number
  insert_number-over n k c d fs h = rw h refl

  insert_number-under :
      (n k : ℕ) (c d : List F) (fs : List (ℕ × List F))
      → ltb k n ≡ false
      → insert_number (n, c) ((k, d) ∷ fs) ≡ (n, c) ∷ (k, d) ∷ fs
  unfolding insert_number
  insert_number-under n k c d fs h = rw h refl

  -- Two insertions where the first number is less.
  insert_number_swap_lt :
      (n k : ℕ) (c d : List F) (fs : List (ℕ × List F))
      → n < k
      → insert_number (n, c) (insert_number (k, d) fs)
        ≡ insert_number (k, d) (insert_number (n, c) fs)
  unfolding insert_number
  insert_number_swap_lt n k c d [] e = ground arith
  insert_number_swap_lt n k c d ((j, x) ∷ fs) e =
      go (insert_number_swap_lt n k c d fs e) (Bool-cases (ltb j n)) (Bool-cases (ltb j k))
    where
      all : List (ℕ × List F)
      all = (j, x) ∷ fs

      go :
          insert_number (n, c) (insert_number (k, d) fs)
            ≡ insert_number (k, d) (insert_number (n, c) fs)
          → (ltb j n ≡ true) ⊎ (ltb j n ≡ false)
          → (ltb j k ≡ true) ⊎ (ltb j k ≡ false)
          → insert_number (n, c) (insert_number (k, d) all)
            ≡ insert_number (k, d) (insert_number (n, c) all)
      go rest (inl a) (inl b) =
          ap (insert_number (n, c)) (insert_number-over k j d x fs b)
          ∙ insert_number-over n j c x (insert_number (k, d) fs) a
          ∙ ap (◌∷◌ (j, x)) rest
          ∙ sym (insert_number-over k j d x (insert_number (n, c) fs) b)
          ∙ ap (insert_number (k, d)) (sym (insert_number-over n j c x fs a))
      go rest (inl a) (inr b) = absurd (omega (arith, from_ltb j n a, from_ltb_not j k b, e))
      go rest (inr a) (inl b) =
          ap (insert_number (n, c)) (insert_number-over k j d x fs b)
          ∙ insert_number-under n j c x (insert_number (k, d) fs) a
          ∙ ap (◌∷◌ (n, c)) (sym (insert_number-over k j d x fs b))
          ∙ sym (insert_number-over k n d c all (ltb-true n k e))
          ∙ ap (insert_number (k, d)) (sym (insert_number-under n j c x fs a))
      go rest (inr a) (inr b) =
          ap (insert_number (n, c)) (insert_number-under k j d x fs b)
          ∙ insert_number-under n k c d all (ltb-false k n (omega (arith, e)))
          ∙ ap (◌∷◌ (n, c)) (sym (insert_number-under k j d x fs b))
          ∙ sym (insert_number-over k n d c all (ltb-true n k e))
          ∙ ap (insert_number (k, d)) (sym (insert_number-under n j c x fs a))

  insert_number_swap :
      (n k : ℕ) (c d : List F) (fs : List (ℕ × List F))
      → n ≢ k
      → insert_number (n, c) (insert_number (k, d) fs)
        ≡ insert_number (k, d) (insert_number (n, c) fs)
  insert_number_swap n k c d fs e = elim (Bool-cases (ltb n k)) [
    | inl h ↦ insert_number_swap_lt n k c d fs (ground arith)
    | inr h ↦ sym (insert_number_swap_lt k n d c fs (ground arith))
  ]

  Lacks-perm : {xs ys : List (ℕ × List F)} (n : ℕ) → Permᴰ xs ys → Lacks n xs → Lacks n ys
  Lacks-perm n Permᴰ.nil h = tt
  Lacks-perm n (Permᴰ.cons e p) h = ((λ q. h.0 (q ∙ ap (λ f. f.0) (sym e))), Lacks-perm n p h.1)
  Lacks-perm n (Permᴰ.swap e f) h =
      ((λ q. h.1.0 (q ∙ ap (λ g. g.0) (sym f))), ((λ q. h.0 (q ∙ ap (λ g. g.0) (sym e))), h.1.1))
  Lacks-perm n (Permᴰ.trans p q) h = Lacks-perm n q (Lacks-perm n p h)

  AreSmall-perm : {xs ys : List (ℕ × List F)} → Permᴰ xs ys → AreSmall xs → AreSmall ys
  AreSmall-perm Permᴰ.nil h = tt
  AreSmall-perm (Permᴰ.cons e p) h =
      (subst (λ n. n < 1000) (ap (λ f. f.0) e) h.0, AreSmall-perm p h.1)
  AreSmall-perm (Permᴰ.swap e f) h = (
    subst (λ n. n < 1000) (ap (λ g. g.0) f) h.1.0,
    (subst (λ n. n < 1000) (ap (λ g. g.0) e) h.0, h.1.1),
  )
  AreSmall-perm (Permᴰ.trans p q) h = AreSmall-perm q (AreSmall-perm p h)

  Distinct-perm : {xs ys : List (ℕ × List F)} → Permᴰ xs ys → Distinct xs → Distinct ys
  Distinct-perm Permᴰ.nil h = tt
  Distinct-perm (Permᴰ.cons {l₁ = xs} e p) h =
      (Lacks-perm _ p (subst (λ n. Lacks n xs) (ap (λ f. f.0) e) h.0), Distinct-perm p h.1)
  Distinct-perm (Permᴰ.swap {l = l} e f) h =
      let back = ap (λ g. g.0) e in
      let front = ap (λ g. g.0) f in
      (
        ((λ q. h.0.0 (back ∙ sym q ∙ sym front)), subst (λ n. Lacks n l) front h.1.0),
        (subst (λ n. Lacks n l) back h.0.1, h.1.1),
      )
  Distinct-perm (Permᴰ.trans p q) h = Distinct-perm q (Distinct-perm p h)

  sort_numbers-perm :
      {xs ys : List (ℕ × List F)} → Permᴰ xs ys → Distinct xs → sort_numbers xs ≡ sort_numbers ys
  unfolding sort_numbers
  sort_numbers-perm Permᴰ.nil d = refl
  sort_numbers-perm (Permᴰ.cons e p) d = cc (e, sort_numbers-perm p d.1)
  sort_numbers-perm (Permᴰ.swap {a = x} {b = y} {l = l} e f) d =
      cc (e, f, insert_number_swap x.0 y.0 x.1 y.1 (sort_numbers l) d.0.0)
  sort_numbers-perm (Permᴰ.trans p q) d =
      sort_numbers-perm p d ∙ sort_numbers-perm q (Distinct-perm p d)

  -- Files that are numbered in order are already sorted.
  insert_number_first :
      (k : ℕ) (c : List F) (cs : List (List F))
      → insert_number (k, c) (numbered (suc k) cs) ≡ (k, c) ∷ numbered (suc k) cs
  unfolding insert_number
  insert_number_first k c [] = refl
  insert_number_first k c (d ∷ cs) =
      insert_number-under k (suc k) c d (numbered (suc (suc k)) cs) (ground arith)

  sort_numbers-numbered :
      (k : ℕ) (cs : List (List F)) → sort_numbers (numbered k cs) ≡ numbered k cs
  unfolding sort_numbers
  sort_numbers-numbered k [] = refl
  sort_numbers-numbered k (c ∷ cs) =
      ap (insert_number (k, c)) (sort_numbers-numbered (suc k) cs) ∙ insert_number_first k c cs

  AreSmall-numbered : (k : ℕ) (cs : List (List F)) → k + length cs ≤ 1000 → AreSmall (numbered k cs)
  AreSmall-numbered k [] h = tt
  AreSmall-numbered k (c ∷ cs) h = (omega arith, AreSmall-numbered (suc k) cs (omega arith))

  Lacks-numbered : (n k : ℕ) (cs : List (List F)) → n < k → Lacks n (numbered k cs)
  Lacks-numbered n k [] h = tt
  Lacks-numbered n k (c ∷ cs) h =
      ((λ e. omega (arith, e, h)), Lacks-numbered n (suc k) cs (omega arith))

  Distinct-numbered : (k : ℕ) (cs : List (List F)) → Distinct (numbered k cs)
  Distinct-numbered k [] = tt
  Distinct-numbered k (c ∷ cs) =
      (Lacks-numbered k (suc k) cs (omega arith), Distinct-numbered (suc k) cs)

  pub contents-numbered : (k : ℕ) (cs : List (List F)) → contents (numbered k cs) ≡ cs
  contents-numbered k [] = refl
  contents-numbered k (c ∷ cs) = ap (◌∷◌ c) (contents-numbered (suc k) cs)

  -- The listing works and has the checkpoints of the directory, in any order.
  abbrev pub Lists : (List (Entry F) → Option (List (Entry F))) → List (Entry F) → Type 0
  Lists listing es =
      (ls : List (Entry F)) × (listing es ≡ some ls) × Permᴰ (pcm_files es) (pcm_files ls)

  -- In whatever order the directory lists them, at most a thousand checkpoints come out in order.
  pub list_checkpoint_files-numbered :
      (listing : List (Entry F) → Option (List (Entry F))) (es : List (Entry F))
      (cs : List (List F))
      → Lists listing es
      → pcm_files es ≡ numbered 0 cs
      → length cs ≤ 1000
      → list_checkpoint_files listing es ≡ some (numbered 0 cs)
  unfolding list_checkpoint_files
  list_checkpoint_files-numbered listing es cs (ls, l, p) e b =
      let small = AreSmall-numbered 0 cs (omega arith) in
      let q : Permᴰ (numbered 0 cs) (pcm_files ls) = subst (λ fs. Permᴰ fs (pcm_files ls)) e p in
      ap (Option.map (λ fs. sort_files (pcm_files fs))) l
      ∙ ap some (
          sort_files-sort_numbers (pcm_files ls) (AreSmall-perm q small)
          ∙ sym (sort_numbers-perm q (Distinct-numbered 0 cs))
          ∙ sort_numbers-numbered 0 cs)
