-- ===== src/Diarization/Clusters/Merging.antt =====
-- What the merges keep: the groups.
use mathlib.Core.Bool.{false≢true}
use meetily_local.Common.{
  ℕ, zero, suc, ◌+◌, ◌≤◌, ◌<◌, ◌≡◌, ◌≢◌, refl, sym, ap, ◌∙◌, subst, Bool, true, false, ◌&&◌, ◌||◌,
  Option, none, some, List, [], ◌∷◌, ◌++◌, arith, ◌==◌, ltb, if◌then◌else◌, Float, Bool-cases, inl,
  inr,
}
use meetily_local.Diarization.Clusters.{
  Clustering, update, closest_from, merge_clusters, merge_loop, singletons,
}
use meetily_local.Diarization.Clusters.Neighbours.{
  ArePair, AllAim, closest_from-ArePair, merge_clusters-AllAim, still,
}

abbrev pub has : ℕ → List ℕ → Bool
has m [] = false
has m (x ∷ xs) = (m == x) || has m xs

has-append : (m : ℕ) (xs ys : List ℕ) → has m (xs ++ ys) ≡ has m xs || has m ys
has-append m [] ys = refl
has-append m (x ∷ xs) ys = ground (arith, has-append m xs ys)

-- The number of clusters among the first `n`.
abbrev pub count : (ℕ → Bool) → ℕ → ℕ
count active zero = 0
count active (suc n) = (if active n then 1 else 0) + count active n

count-same :
    (active : ℕ → Bool) (j n : ℕ) → n ≤ j → count (update j false active) n ≡ count active n
count-same active j zero h = refl
count-same active j (suc n) h =
    let e : (n == j) ≡ false = ground (arith, h) in
    rw (e, count-same active j n (omega (arith, h))) refl

-- One fewer after a merge.
count-update :
    (active : ℕ → Bool) (j n : ℕ)
    → active j ≡ true
    → j < n
    → suc (count (update j false active) n) ≡ count active n
count-update active j zero a h = absurd (omega (arith, h))
count-update active j (suc n) a h = elim (Bool-cases (n == j)) [
  | inl e ↦
      let same : n ≡ j = ground (arith, e) in
      let b : active n ≡ true = ap active same ∙ a in
      rw (e, b, count-same active j n (omega (arith, same))) (omega arith)
  | inr e ↦
      let less : j < n = ground (arith, e, h) in
      let ih = count-update active j n a less in
      rw e (bump (if active n then 1 else 0) (count (update j false active) n) (count active n) ih)
]
  where
    bump : (x y z : ℕ) → suc y ≡ z → suc (x + y) ≡ x + z
    bump x y z e = omega (arith, e)

none_counted : (active : ℕ → Bool) (n k : ℕ) → count active n ≡ 0 → k < n → active k ≡ false
none_counted active zero k e l = absurd (omega (arith, l))
none_counted active (suc n) k e l = elim (Bool-cases (k == n)) [
  | inl q ↦ let same : k ≡ n = ground (arith, q) in ap active same ∙ ground (arith, e)
  | inr q ↦ none_counted active n k (ground (arith, e)) (ground (arith, q, l))
]

module _ (f : Float) where
  -- `rep` gives each embedding the cluster that it is in: the active clusters are those that are in
  -- themselves.
  pub record Grouped (n : ℕ) (s : Clustering f) (rep : ℕ → ℕ) : Type 0 where
    pub is_active : (k : ℕ) → k < n → s.active k ≡ (rep k == k)
    pub inside : (k : ℕ) → n ≤ k → s.active k ≡ false
    pub bound : (m : ℕ) → m < n → rep m < n
    pub fixed : (m : ℕ) → m < n → rep (rep m) ≡ rep m
    pub contents : (k m : ℕ) → s.active k ≡ true → has m (s.members k) ≡ (ltb m n && (rep m == k))

  pub singletons-Grouped :
      (n : ℕ) (distance : ℕ → ℕ → f.F) → Grouped n (singletons f n distance) (λ m. m)
  unfolding singletons
  singletons-Grouped n distance = record {
    is_active = λ k l. ground (arith, l);
    inside = λ k l. ground (arith, l);
    bound = λ m l. l;
    fixed = λ m l. refl;
    contents = λ k m a. ground (arith, a);
  }

  pub active-bound :
      (n : ℕ) (s : Clustering f) (rep : ℕ → ℕ) (k : ℕ) → Grouped n s rep → s.active k ≡ true → k < n
  active-bound n s rep k g a = elim (Bool-cases (ltb k n)) [
    | inl e ↦ ground (arith, e)
    | inr e ↦ absurd (false≢true (sym (g.inside k (ground (arith, e))) ∙ a))
  ]

  abbrev pub joined : ℕ → ℕ → (ℕ → ℕ) → ℕ → ℕ
  joined i j rep m = if rep m == j then i else rep m

  merged_contents :
      (n i j : ℕ) (s : Clustering f) (rep : ℕ → ℕ)
      → s.active i ≡ true
      → s.active j ≡ true
      → j ≢ i
      → Grouped n s rep
      → (k m : ℕ) → update j false s.active k ≡ true
      → has m (update j [] (update i (s.members i ++ s.members j) s.members) k)
        ≡ (ltb m n && (joined i j rep m == k))
  merged_contents n i j s rep a b d g k m c =
      let (other, was) = still f s.active j k c in
      elim (Bool-cases (k == i)) [
        | inl e ↦
            let same : k ≡ i = ground (arith, e) in
            rw (other, e)
              (ground (
                arith,
                has-append m (s.members i) (s.members j),
                g.contents i m a,
                g.contents j m b,
                d,
                same,
              ))
        | inr e ↦ rw (other, e) (ground (arith, g.contents k m was, e, other))
      ]

  pub merge_clusters-Grouped :
      (n i j : ℕ) (s : Clustering f) (rep : ℕ → ℕ)
      → s.active i ≡ true
      → s.active j ≡ true
      → j ≢ i
      → Grouped n s rep
      → Grouped n (merge_clusters f n i j s) (joined i j rep)
  unfolding merge_clusters
  merge_clusters-Grouped n i j s rep a b d g =
      let li = active-bound n s rep i g a in
      let lj = active-bound n s rep j g b in
      let ri : rep i ≡ i = ground (arith, g.is_active i li, a) in
      let rj : rep j ≡ j = ground (arith, g.is_active j lj, b) in
      record {
        is_active = λ k l. ground (arith, g.is_active k l, ri, rj, d);
        inside = λ k l. ground (arith, g.inside k l);
        bound = λ m l. ground (arith, g.bound m l, li);
        fixed = λ m l. ground (arith, g.fixed m l, ri, d);
        contents = merged_contents n i j s rep a b d g;
      }

  -- No pair is left that is closer than the greatest distance.
  abbrev pub Stops : f.F → Option (ℕ × ℕ × f.F) → Type 0
  Stops max_distance none = Unit
  Stops max_distance (some (i, j, d)) = f.le max_distance d ≡ true

  all_off :
      (s : Clustering f) (rep : ℕ → ℕ) (n k : ℕ)
      → Grouped n s rep
      → count s.active n ≡ 0
      → s.active k ≡ false
  all_off s rep n k g c = elim (Bool-cases (ltb k n)) [
    | inl e ↦ none_counted s.active n k c (ground (arith, e))
    | inr e ↦ g.inside k (ground (arith, e))
  ]

  no_pair :
      (s : Clustering f) (n : ℕ) (best : Option (ℕ × ℕ × f.F))
      → ArePair f s best
      → ((k : ℕ) → s.active k ≡ false)
      → best ≡ none
  no_pair s n none h z = refl
  no_pair s n (some (i, j, d)) h z = absurd (false≢true (sym (z i) ∙ h.0))

  -- What the loop ends with.
  pub merge_loop-Grouped :
      (fuel n : ℕ) (max_distance : f.F) (s : Clustering f) (rep : ℕ → ℕ)
      → AllAim f s
      → Grouped n s rep
      → count s.active n ≤ fuel
      → let end = merge_loop f fuel n max_distance s in
        ((rep' : ℕ → ℕ) × Grouped n end rep') × Stops max_distance (closest_from f end n 0 none)
  unfolding merge_loop
  merge_loop-Grouped zero n max_distance s rep h g c =
      let none_left : (k : ℕ) → s.active k ≡ false = λ k. all_off s rep n k g (omega (arith, c)) in
      (
        (rep, g),
        subst (Stops max_distance)
            (sym (
              no_pair s n (closest_from f s n 0 none) (closest_from-ArePair f s n 0 none h tt)
                none_left))
            tt,
      )
  merge_loop-Grouped (suc fuel) n max_distance s rep h g c =
      go (closest_from f s n 0 none) refl (closest_from-ArePair f s n 0 none h tt) (λ i j a b d.
        merge_loop-Grouped fuel n max_distance (merge_clusters f n i j s) (joined i j rep)
          (merge_clusters-AllAim f n i j s h) (merge_clusters-Grouped n i j s rep a b d g)
          (less i j b))
    where
      less : (i j : ℕ) → s.active j ≡ true → count (merge_clusters f n i j s).active n ≤ fuel
      less i j b = omega (arith, count-update s.active j n b (active-bound n s rep j g b), c)

      go :
          (o : Option (ℕ × ℕ × f.F))
          → closest_from f s n 0 none ≡ o
          → ArePair f s o
          → ((i j : ℕ)
              → s.active i ≡ true
              → s.active j ≡ true
              → j ≢ i
              → let end = merge_loop f fuel n max_distance (merge_clusters f n i j s) in
                ((rep' : ℕ → ℕ) × Grouped n end rep')
                × Stops max_distance (closest_from f end n 0 none))
          → let end = merge_loop f (suc fuel) n max_distance s in
            ((rep' : ℕ → ℕ) × Grouped n end rep') × Stops max_distance (closest_from f end n 0 none)
      go none e p next = rw (merge_loop, e) ((rep, g), rw e tt)
      go (some (i, j, d)) e p next = elim (Bool-cases (f.le max_distance d)) [
        | inl q ↦ rw (merge_loop, e, q) ((rep, g), rw e q)
        | inr q ↦ rw (merge_loop, e, q) (next i j p.0 p.1 p.2)
      ]
