-- ===== src/Diarization/Clusters/Nearest.antt =====
-- The neighbours that are kept are the nearest ones.
use meetily_local.Common.{
  ℕ, zero, suc, ◌+◌, ◌≤◌, ◌<◌, ◌≡◌, ◌≢◌, ap, subst, Bool, true, false, not, ◌||◌, Option, none,
  some, arith, ◌==◌, if◌then◌else◌, Float, Bool-cases, inl, inr,
}
use meetily_local.Diarization.Clusters.{Clustering, closer, nearest_from, nearest_neighbour}

-- Exact arithmetic without NaN, as far as the merges need it: an order, and averages that are not
-- less than what both numbers are not less than.
pub record IsExact (f : Float) : Type 1 where
  pub IsSize : f.F → Type 0
  pub one : IsSize (f.literal 1 0)
  pub sum : (a b : f.F) → IsSize a → IsSize b → IsSize (f.add a b)
  pub asym : (a b : f.F) → f.lt a b ≡ true → f.lt b a ≡ false
  pub trans : (a b c : f.F) → f.lt a b ≡ false → f.lt b c ≡ false → f.lt a c ≡ false
  pub le_lt : (a b : f.F) → f.le a b ≡ true → f.lt b a ≡ false
  pub average :
      (s t a b d : f.F)
      → IsSize s
      → IsSize t
      → f.lt a d ≡ false
      → f.lt b d ≡ false
      → f.lt (f.div (f.add (f.mul s a) (f.mul t b)) (f.add s t)) d ≡ false

module _ (f : Float) (x : IsExact f) where
  irrefl : (a : f.F) → f.lt a a ≡ false
  irrefl a = elim (Bool-cases (f.lt a a)) [ inl e ↦ x.asym a a e | inr e ↦ e ]

  -- A neighbour is not farther than `d`.
  abbrev pub Within : f.F → Option (ℕ × f.F) → Type 0
  Within d none = ⊥
  Within d (some (j, b)) = f.lt d b ≡ false

  closer-Within :
      (d c : f.F) (j : ℕ) (best : Option (ℕ × f.F)) → Within d best → Within d (closer f j c best)
  closer-Within d c j none h = absurd h
  closer-Within d c j (some (t, b)) h = elim (Bool-cases (f.lt c b)) [
    | inl e ↦ rw e (x.trans d b c h (x.asym c b e))
    | inr e ↦ rw e h
  ]

  closer-own : (d : f.F) (j : ℕ) (best : Option (ℕ × f.F)) → Within d (closer f j d best)
  closer-own d j none = irrefl d
  closer-own d j (some (t, b)) = elim (Bool-cases (f.lt d b)) [
    | inl e ↦ rw e (irrefl d)
    | inr e ↦ rw e e
  ]

  module _ (dist : ℕ → ℕ → f.F) (active : ℕ → Bool) (i : ℕ) where
    nearest_from-keeps :
        (d : f.F) (r j : ℕ) (best : Option (ℕ × f.F))
        → Within d best
        → Within d (nearest_from f dist active i r j best)
    unfolding nearest_from
    nearest_from-keeps d zero j best h = h
    nearest_from-keeps d (suc r) j best h =
        nearest_from-keeps d r (suc j)
          (if not (active j) || (j == i) then best else closer f j (dist i j) best)
          (elim (Bool-cases (not (active j) || (j == i))) [
            | inl e ↦ rw e h
            | inr e ↦ rw e (closer-Within d (dist i j) j best h)
          ])

    pub nearest_from-Within :
        (r j k : ℕ) (best : Option (ℕ × f.F))
        → j ≤ k
        → k < j + r
        → active k ≡ true
        → k ≢ i
        → Within (dist i k) (nearest_from f dist active i r j best)
    unfolding nearest_from
    nearest_from-Within zero j k best l u a n = absurd (omega (arith, l, u))
    nearest_from-Within (suc r) j k best l u a n = elim (Bool-cases (k == j)) [
      | inl e ↦
          let same : k ≡ j = ground (arith, e) in
          let b : (not (active j) || (j == i)) ≡ false =
            ground (arith, ap active same, a, same, n) in
          nearest_from-keeps (dist i k) r (suc j)
            (if not (active j) || (j == i) then best else closer f j (dist i j) best)
            (rw b (
              subst (λ t. Within (dist i k) (closer f j (dist i t) best)) same
                (closer-own (dist i k) j best)))
      | inr e ↦
          nearest_from-Within r (suc j) k
            (if not (active j) || (j == i) then best else closer f j (dist i j) best)
            (ground (arith, l, e)) (omega (arith, u)) a n
    ]

  abbrev pub Nearest : ℕ → Clustering f → Type 0
  Nearest n s =
      (k j : ℕ)
      → s.active k ≡ true
      → s.active j ≡ true
      → j < n
      → j ≢ k
      → Within (s.dist k j) (s.nn k)

  pub nearest_neighbour-Within :
      (n k j : ℕ) (dist : ℕ → ℕ → f.F) (active : ℕ → Bool)
      → active k ≡ true
      → active j ≡ true
      → j < n
      → j ≢ k
      → Within (dist k j) (nearest_neighbour f n k dist active)
  unfolding nearest_neighbour
  nearest_neighbour-Within n k j dist active a b l d =
      rw a (nearest_from-Within dist active k n 0 j none (omega arith) (omega (arith, l)) b d)
