-- ===== src/Diarization/Clusters/Cut.antt =====
-- Where the merges stop.
use meetily_local.Common.{
  ℕ, zero, suc, ◌+◌, ◌≤◌, ◌<◌, ◌≡◌, ◌≢◌, refl, sym, ap, ◌∙◌, subst, true, false, Option, none, some,
  arith, ◌==◌, if◌then◌else◌, Float, Bool-cases, inl, inr,
}
use meetily_local.Diarization.Clusters.{
  Clustering, closer_pair, closest_from, merge_clusters, merge_loop, singletons,
}
use meetily_local.Diarization.Clusters.Neighbours.{
  AllAim, ArePair, closest_from-ArePair, merge_clusters-AllAim, singletons-AllAim,
}
use meetily_local.Diarization.Clusters.Merging.{Stops, Grouped}
use meetily_local.Diarization.Clusters.Merging.{
  joined, merge_clusters-Grouped, active-bound, singletons-Grouped,
}
use meetily_local.Diarization.Clusters.Numbers.{merge_loop-Stops}
use meetily_local.Diarization.Clusters.Nearest.{IsExact, Within}
use meetily_local.Diarization.Clusters.Distances.{Proper, merge_clusters-Proper, singletons-Proper}

module _ (f : Float) (x : IsExact f) where
  -- The closest pair is not farther than `d`.
  abbrev Least : f.F → Option (ℕ × ℕ × f.F) → Type 0
  Least d none = ⊥
  Least d (some (i, j, b)) = f.lt d b ≡ false

  closer_pair-keeps :
      (d : f.F) (i : ℕ) (near : Option (ℕ × f.F)) (best : Option (ℕ × ℕ × f.F))
      → Least d best
      → Least d (closer_pair f i near best)
  closer_pair-keeps d i none best h = h
  closer_pair-keeps d i (some (j, c)) none h = absurd h
  closer_pair-keeps d i (some (j, c)) (some (s, t, b)) h = elim (Bool-cases (f.lt c b)) [
    | inl e ↦ rw e (x.trans d b c h (x.asym c b e))
    | inr e ↦ rw e h
  ]

  closer_pair-Least :
      (d : f.F) (i : ℕ) (near : Option (ℕ × f.F)) (best : Option (ℕ × ℕ × f.F))
      → Within f x d near
      → Least d (closer_pair f i near best)
  closer_pair-Least d i none best h = absurd h
  closer_pair-Least d i (some (j, c)) none h = h
  closer_pair-Least d i (some (j, c)) (some (s, t, b)) h = elim (Bool-cases (f.lt c b)) [
    | inl e ↦ rw e h
    | inr e ↦ rw e (x.trans d c b h e)
  ]

  closest_from-keeps :
      (s : Clustering f) (d : f.F) (r i : ℕ) (best : Option (ℕ × ℕ × f.F))
      → Least d best
      → Least d (closest_from f s r i best)
  unfolding closest_from
  closest_from-keeps s d zero i best h = h
  closest_from-keeps s d (suc r) i best h =
      closest_from-keeps s d r (suc i) (if s.active i then closer_pair f i (s.nn i) best else best)
        (elim (Bool-cases (s.active i)) [
          | inl e ↦ rw e (closer_pair-keeps d i (s.nn i) best h)
          | inr e ↦ rw e h
        ])

  closest_from-Least :
      (s : Clustering f) (d : f.F) (r i k : ℕ) (best : Option (ℕ × ℕ × f.F))
      → i ≤ k
      → k < i + r
      → s.active k ≡ true
      → Within f x d (s.nn k)
      → Least d (closest_from f s r i best)
  unfolding closest_from
  closest_from-Least s d zero i k best l u a w = absurd (omega (arith, l, u))
  closest_from-Least s d (suc r) i k best l u a w = elim (Bool-cases (k == i)) [
    | inl e ↦
        let same : k ≡ i = ground (arith, e) in
        let b : s.active i ≡ true = ap s.active (sym same) ∙ a in
        closest_from-keeps s d r (suc i)
          (if s.active i then closer_pair f i (s.nn i) best else best)
          (rw b (closer_pair-Least d i (s.nn i) best (subst (λ t. Within f x d (s.nn t)) same w)))
    | inr e ↦
        closest_from-Least s d r (suc i) k
          (if s.active i then closer_pair f i (s.nn i) best else best) (ground (arith, l, e))
          (omega (arith, u)) a w
  ]

  -- No two clusters are closer than the greatest distance.
  abbrev AreApart : ℕ → f.F → Clustering f → Type 0
  AreApart n max_distance s =
      (a b : ℕ)
      → s.active a ≡ true
      → s.active b ≡ true
      → a < n
      → b < n
      → b ≢ a
      → f.lt (s.dist a b) max_distance ≡ false

  Stops-AreApart :
      (n : ℕ) (max_distance : f.F) (s : Clustering f)
      → Proper f x n s
      → Stops f max_distance (closest_from f s n 0 none)
      → AreApart n max_distance s
  Stops-AreApart n max_distance s v stops a b aa ab la lb d =
      end (closest_from f s n 0 none) stops (
        closest_from-Least s (s.dist a b) n 0 a none (omega arith) (omega (arith, la)) aa
          (v.nearest a b aa ab lb d))
    where
      end :
          (o : Option (ℕ × ℕ × f.F))
          → Stops f max_distance o
          → Least (s.dist a b) o
          → f.lt (s.dist a b) max_distance ≡ false
      end none t h = absurd h
      end (some (i, j, c)) t h = x.trans (s.dist a b) c max_distance h (x.le_lt max_distance c t)

  merge_loop-Proper :
      (fuel n : ℕ) (max_distance : f.F) (s : Clustering f) (rep : ℕ → ℕ)
      → AllAim f s
      → Grouped f n s rep
      → Proper f x n s
      → Proper f x n (merge_loop f fuel n max_distance s)
  unfolding merge_loop
  merge_loop-Proper zero n max_distance s rep h g v = v
  merge_loop-Proper (suc fuel) n max_distance s rep h g v =
      go (closest_from f s n 0 none) refl (closest_from-ArePair f s n 0 none h tt) (λ i j a b d.
        merge_loop-Proper fuel n max_distance (merge_clusters f n i j s) (joined f i j rep)
          (merge_clusters-AllAim f n i j s h) (merge_clusters-Grouped f n i j s rep a b d g)
          (merge_clusters-Proper f x n i j s a b (active-bound f n s rep i g a)
            (active-bound f n s rep j g b) v))
    where
      go :
          (o : Option (ℕ × ℕ × f.F))
          → closest_from f s n 0 none ≡ o
          → ArePair f s o
          → ((i j : ℕ)
              → s.active i ≡ true
              → s.active j ≡ true
              → j ≢ i
              → Proper f x n (merge_loop f fuel n max_distance (merge_clusters f n i j s)))
          → Proper f x n (merge_loop f (suc fuel) n max_distance s)
      go none e p next = rw (merge_loop, e) v
      go (some (i, j, d)) e p next = elim (Bool-cases (f.le max_distance d)) [
        | inl q ↦ rw (merge_loop, e, q) v
        | inr q ↦ rw (merge_loop, e, q) (next i j p.0 p.1 p.2)
      ]

  -- In exact arithmetic without NaN, for any number of embeddings: no two clusters that are left when
  -- the loop over merges ends are closer than the greatest distance, though the loop looks only at the
  -- neighbours that are kept.
  pub merge_loop_apart :
      (distance : ℕ → ℕ → f.F) (max_distance : f.F) (n a b : ℕ)
      → let end = merge_loop f n n max_distance (singletons f n distance) in
        end.active a ≡ true
        → end.active b ≡ true
        → a < n
        → b < n
        → b ≢ a
        → f.lt (end.dist a b) max_distance ≡ false
  merge_loop_apart distance max_distance n =
      let s = singletons f n distance in
      Stops-AreApart n max_distance (merge_loop f n n max_distance s)
        (merge_loop-Proper n n max_distance s (λ m. m) (singletons-AllAim f n distance)
          (singletons-Grouped f n distance) (singletons-Proper f x n distance))
        (merge_loop-Stops f distance max_distance n)
