-- ===== src/Diarization/Clusters/Neighbours.antt =====
-- The neighbours that are looked at are other clusters.
use meetily_local.Common.{
  ℕ, zero, suc, ◌≡◌, ◌≢◌, Bool, true, false, not, ◌||◌, Option, none, some, arith, ◌==◌, ltb,
  if◌then◌else◌, Float, Bool-cases, inl, inr,
}
use meetily_local.Diarization.Clusters.{
  Clustering, update, closer, nearest_from, nearest_neighbour, closer_pair, closest_from,
  merged_dist, is_stale, merge_clusters, singletons, pairs,
}

module _ (f : Float) where
  -- A cluster's neighbour is another cluster.
  abbrev pub Aims : (ℕ → Bool) → ℕ → Option (ℕ × f.F) → Type 0
  Aims active k none = Unit
  Aims active k (some (j, d)) = (active j ≡ true) × (j ≢ k)

  nearest_from-Aims :
      (dist : ℕ → ℕ → f.F) (active : ℕ → Bool) (i r j : ℕ) (best : Option (ℕ × f.F))
      → Aims active i best
      → Aims active i (nearest_from f dist active i r j best)
  unfolding nearest_from
  nearest_from-Aims dist active i zero j best h = h
  nearest_from-Aims dist active i (suc r) j best h =
      nearest_from-Aims dist active i r (suc j)
        (if not (active j) || (j == i) then best else closer f j (dist i j) best)
        (elim (Bool-cases (not (active j) || (j == i))) [
          | inl e ↦ rw e h
          | inr e ↦ rw e (pick best (ground (arith, e)) (ground (arith, e)) h)
        ])
    where
      pick :
          (best : Option (ℕ × f.F))
          → active j ≡ true
          → j ≢ i
          → Aims active i best
          → Aims active i (closer f j (dist i j) best)
      pick none a n h = (a, n)
      pick (some (b, bd)) a n h = elim (Bool-cases (f.lt (dist i j) bd)) [
        | inl e ↦ rw e (a, n)
        | inr e ↦ rw e h
      ]

  nearest_neighbour-Aims :
      (n i : ℕ) (dist : ℕ → ℕ → f.F) (active : ℕ → Bool)
      → Aims active i (nearest_neighbour f n i dist active)
  unfolding nearest_neighbour
  nearest_neighbour-Aims n i dist active = elim (Bool-cases (active i)) [
    | inl e ↦ rw e (nearest_from-Aims dist active i n 0 none tt)
    | inr e ↦ rw e tt
  ]

  -- The pair that is closest is one of two clusters.
  abbrev pub ArePair : Clustering f → Option (ℕ × ℕ × f.F) → Type 0
  ArePair s none = Unit
  ArePair s (some (i, j, d)) = (s.active i ≡ true) × (s.active j ≡ true) × (j ≢ i)

  abbrev pub AllAim : Clustering f → Type 0
  AllAim s = (k : ℕ) → s.active k ≡ true → Aims s.active k (s.nn k)

  closer_pair-ArePair :
      (s : Clustering f) (i : ℕ) (near : Option (ℕ × f.F)) (best : Option (ℕ × ℕ × f.F))
      → s.active i ≡ true
      → Aims s.active i near
      → ArePair s best
      → ArePair s (closer_pair f i near best)
  closer_pair-ArePair s i none best a h p = p
  closer_pair-ArePair s i (some (j, d)) none a h p = (a, h.0, h.1)
  closer_pair-ArePair s i (some (j, d)) (some (x, y, bd)) a h p = elim (Bool-cases (f.lt d bd)) [
    | inl e ↦ rw e (a, h.0, h.1)
    | inr e ↦ rw e p
  ]

  pub closest_from-ArePair :
      (s : Clustering f) (r i : ℕ) (best : Option (ℕ × ℕ × f.F))
      → AllAim s
      → ArePair s best
      → ArePair s (closest_from f s r i best)
  unfolding closest_from
  closest_from-ArePair s zero i best h p = p
  closest_from-ArePair s (suc r) i best h p =
      closest_from-ArePair s r (suc i) (if s.active i then closer_pair f i (s.nn i) best else best)
        h
        (elim (Bool-cases (s.active i)) [
          | inl e ↦ rw e (closer_pair-ArePair s i (s.nn i) best e (h i e) p)
          | inr e ↦ rw e p
        ])

  pub still :
      (active : ℕ → Bool) (j k : ℕ)
      → update j false active k ≡ true
      → ((k == j) ≡ false) × (active k ≡ true)
  still active j k h = ground (arith, h)

  keeps_aim :
      (active : ℕ → Bool) (i j k : ℕ) (o : Option (ℕ × f.F))
      → Aims active k o
      → is_stale f i j o ≡ false
      → Aims (update j false active) k o
  keeps_aim active i j k none h e = tt
  keeps_aim active i j k (some (t, d)) h e =
      let other : (t == j) ≡ false = ground (arith, e) in (rw other h.0, h.1)

  pub merge_clusters-AllAim :
      (n i j : ℕ) (s : Clustering f) → AllAim s → AllAim (merge_clusters f n i j s)
  unfolding merge_clusters
  merge_clusters-AllAim n i j s h k a =
      let (other, was) = still s.active j k a in
      elim (Bool-cases ((k == i) || is_stale f i j (s.nn k))) [
        | inl e ↦
            rw (a, e)
              (nearest_from-Aims (merged_dist f s i j) (update j false s.active) k n 0 none tt)
        | inr e ↦ rw (a, e, other) (keeps_aim s.active i j k (s.nn k) (h k was) (ground (arith, e)))
      ]

  pub singletons-AllAim : (n : ℕ) (distance : ℕ → ℕ → f.F) → AllAim (singletons f n distance)
  unfolding singletons
  singletons-AllAim n distance k a = nearest_neighbour-Aims n k (pairs f distance) (λ m. ltb m n)
