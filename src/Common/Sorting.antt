-- ===== src/Common/Sorting.antt =====
-- A stable insertion sort by a test that says which of two elements goes later.
use mathlib.Core.Path.{◌≡◌, refl, sym, ap, ◌∙◌, subst}
use mathlib.Core.Logic.{◌⊎◌, inl, inr}
use mathlib.Core.Bool.{Bool, true, false}
use mathlib.Core.List.{List, [], ◌∷◌, Permᴰ}
use native.Mathlib.Omega.{arith}
use meetily_local.Common.Tests.{if◌then◌else◌, Bool-cases}

pub perm_self {ℓ} : {A : Type ℓ} (xs : List A) → Permᴰ xs xs
perm_self [] = Permᴰ.nil
perm_self (x ∷ xs) = Permᴰ.cons refl (perm_self xs)

module _ {ℓ} {A : Type ℓ} (later : A → A → Bool) where
  unfoldable pub insert_by : A → List A → List A
  insert_by x [] = x ∷ []
  insert_by x (y ∷ ys) = let rest = insert_by x ys in if later x y then y ∷ rest else x ∷ y ∷ ys

  -- `slice::sort_by`
  unfoldable pub sort_by : List A → List A
  unfolding insert_by
  sort_by [] = []
  sort_by (x ∷ xs) = insert_by x (sort_by xs)

  pub insert_by-perm : (x : A) (ys : List A) → Permᴰ (x ∷ ys) (insert_by x ys)
  unfolding insert_by
  insert_by-perm x [] = Permᴰ.cons refl Permᴰ.nil
  insert_by-perm x (y ∷ ys) = elim (Bool-cases (later x y)) [
    | inl e ↦ rw e (Permᴰ.trans (Permᴰ.swap refl refl) (Permᴰ.cons refl (insert_by-perm x ys)))
    | inr e ↦ rw e (perm_self (x ∷ y ∷ ys))
  ]

  pub sort_by-perm : (xs : List A) → Permᴰ xs (sort_by xs)
  unfolding sort_by
  sort_by-perm [] = Permᴰ.nil
  sort_by-perm (x ∷ xs) =
      Permᴰ.trans (Permᴰ.cons refl (sort_by-perm xs)) (insert_by-perm x (sort_by xs))

  abbrev pub IsSorted : List A → Type 0
  IsSorted [] = Unit
  IsSorted (x ∷ []) = Unit
  IsSorted (x ∷ y ∷ ys) = (later x y ≡ false) × IsSorted (y ∷ ys)

  module _ (asym : (a b : A) → later a b ≡ true → later b a ≡ false) where
    insert_by-IsSorted : (x : A) (ys : List A) → IsSorted ys → IsSorted (insert_by x ys)
    unfolding insert_by
    insert_by-IsSorted x [] h = tt
    insert_by-IsSorted x (y ∷ []) h = elim (Bool-cases (later x y)) [
      | inl e ↦ rw e (asym x y e, tt)
      | inr e ↦ rw e (e, tt)
    ]
    insert_by-IsSorted x (y ∷ z ∷ ys) h = elim (Bool-cases (later x y)) [
      | inl e ↦ elim (Bool-cases (later x z)) [
        | inl g ↦
            let kept : IsSorted (insert_by x (z ∷ ys)) = insert_by-IsSorted x (z ∷ ys) h.1 in
            rw (e, g) (h.0, (rw g at kept))
        | inr g ↦ rw (e, g) (asym x y e, (g, h.1))
      ]
      | inr e ↦ rw e (e, h)
    ]

    pub sort_by-IsSorted : (xs : List A) → IsSorted (sort_by xs)
    unfolding sort_by
    sort_by-IsSorted [] = tt
    sort_by-IsSorted (x ∷ xs) = insert_by-IsSorted x (sort_by xs) (sort_by-IsSorted xs)

    module _ (trans : (a b c : A) → later a b ≡ true → later b c ≡ true → later a c ≡ true) where
      over : (x y : A) (ys : List A) → later x y ≡ true → insert_by x (y ∷ ys) ≡ y ∷ insert_by x ys
      unfolding insert_by
      over x y ys h = rw h refl

      under : (x y : A) (ys : List A) → later x y ≡ false → insert_by x (y ∷ ys) ≡ x ∷ y ∷ ys
      unfolding insert_by
      under x y ys h = rw h refl

      -- The order of two insertions does not matter, if one element goes later than the other.
      swap_later :
          (x y : A) (zs : List A)
          → later y x ≡ true
          → insert_by x (insert_by y zs) ≡ insert_by y (insert_by x zs)
      unfolding insert_by
      swap_later x y [] h = rw (h, asym y x h) refl
      swap_later x y (z ∷ zs) h =
          go (swap_later x y zs h) (Bool-cases (later x z)) (Bool-cases (later y z))
        where
          all : List A
          all = z ∷ zs

          go :
              insert_by x (insert_by y zs) ≡ insert_by y (insert_by x zs)
              → (later x z ≡ true) ⊎ (later x z ≡ false)
              → (later y z ≡ true) ⊎ (later y z ≡ false)
              → insert_by x (insert_by y all) ≡ insert_by y (insert_by x all)
          go rest (inl a) (inl b) =
              ap (insert_by x) (over y z zs b)
              ∙ over x z (insert_by y zs) a
              ∙ ap (◌∷◌ z) rest
              ∙ sym (over y z (insert_by x zs) b)
              ∙ ap (insert_by y) (sym (over x z zs a))
          go rest (inl a) (inr b) =
              let c : later y z ≡ true = trans y x z h a in absurd (ground (arith, b, c))
          go rest (inr a) (inl b) =
              ap (insert_by x) (over y z zs b)
              ∙ under x z (insert_by y zs) a
              ∙ ap (◌∷◌ x) (sym (over y z zs b))
              ∙ sym (over y x all h)
              ∙ ap (insert_by y) (sym (under x z zs a))
          go rest (inr a) (inr b) =
              ap (insert_by x) (under y z zs b)
              ∙ under x y all (asym y x h)
              ∙ ap (◌∷◌ x) (sym (under y z zs b))
              ∙ sym (over y x all h)
              ∙ ap (insert_by y) (sym (under x z zs a))

      abbrev pub Apart : A → A → Type 0
      Apart x y = (later x y ≡ true) ⊎ (later y x ≡ true)

      insert_by_swap :
          (x y : A) (zs : List A)
          → Apart x y
          → insert_by x (insert_by y zs) ≡ insert_by y (insert_by x zs)
      insert_by_swap x y zs (inl h) = sym (swap_later y x zs h)
      insert_by_swap x y zs (inr h) = swap_later x y zs h

      abbrev pub AllApart : A → List A → Type 0
      AllApart x [] = Unit
      AllApart x (y ∷ ys) = Apart x y × AllApart x ys

      abbrev pub Pairwise : List A → Type 0
      Pairwise [] = Unit
      Pairwise (x ∷ xs) = AllApart x xs × Pairwise xs

      along : {a b c d : A} → a ≡ c → b ≡ d → Apart a b → Apart c d
      along {a} {d = d} e f h = subst (λ z. Apart z d) e (subst (λ z. Apart a z) f h)

      flip : {a b : A} → Apart a b → Apart b a
      flip (inl h) = inr h
      flip (inr h) = inl h

      AllApart-perm : (x : A) {xs ys : List A} → Permᴰ xs ys → AllApart x xs → AllApart x ys
      AllApart-perm x Permᴰ.nil h = tt
      AllApart-perm x (Permᴰ.cons e p) h = (along refl e h.0, AllApart-perm x p h.1)
      AllApart-perm x (Permᴰ.swap e f) h = (along refl f h.1.0, (along refl e h.0, h.1.1))
      AllApart-perm x (Permᴰ.trans p r) h = AllApart-perm x r (AllApart-perm x p h)

      Pairwise-perm : {xs ys : List A} → Permᴰ xs ys → Pairwise xs → Pairwise ys
      Pairwise-perm Permᴰ.nil h = tt
      Pairwise-perm (Permᴰ.cons {b = y} {l₂ = ys} e p) h =
          (subst (λ z. AllApart z ys) e (AllApart-perm _ p h.0), Pairwise-perm p h.1)
      Pairwise-perm (Permᴰ.swap {l = l} e f) h = (
        (flip (along e f h.0.0), subst (λ z. AllApart z l) f h.1.0),
        (subst (λ z. AllApart z l) e h.0.1, h.1.1),
      )
      Pairwise-perm (Permᴰ.trans p q) h = Pairwise-perm q (Pairwise-perm p h)

      -- In whatever order elements come, of which one of any two goes later, they come out the same.
      pub sort_by_unique : {xs ys : List A} → Permᴰ xs ys → Pairwise xs → sort_by xs ≡ sort_by ys
      unfolding sort_by
      sort_by_unique Permᴰ.nil h = refl
      sort_by_unique (Permᴰ.cons e p) h = cc (e, sort_by_unique p h.1)
      sort_by_unique (Permᴰ.swap {a = x} {b = y} {l = l} e f) h =
          cc (e, f, insert_by_swap x y (sort_by l) h.0.0)
      sort_by_unique (Permᴰ.trans p q) h = sort_by_unique p h ∙ sort_by_unique q (Pairwise-perm p h)
