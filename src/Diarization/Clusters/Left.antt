-- ===== src/Diarization/Clusters/Left.antt =====
-- meetily-core/src/speaker_diarization/refinement.rs: how the loop over the merges ends.
use mathlib.Core.Bool.{false≢true}
use meetily_local.Common.{
  ℕ, zero, suc, ◌+◌, ◌≤◌, ◌<◌, ◌≡◌, ◌≢◌, refl, sym, ap, ◌∙◌, subst, Bool, true, false, not, ◌||◌,
  Option, none, some, arith, ◌==◌, ltb, if◌then◌else◌, Float, Bool-cases, inl, inr,
}
use meetily_local.Diarization.Clusters.{
  Clustering, update, closer, nearest_from, nearest_neighbour, closer_pair, closest_from,
  merged_dist, is_stale, merge_clusters, merge_loop, singletons, pairs,
}
use meetily_local.Diarization.Clusters.Neighbours.{
  ArePair, AllAim, closest_from-ArePair, merge_clusters-AllAim, singletons-AllAim, still,
}
use meetily_local.Diarization.Clusters.Merging.{Stops}
use meetily_local.Diarization.Clusters.Numbers.{merge_loop-Stops}

module _ (f : Float) where
  -- A cluster without a neighbour is the only one.
  abbrev Reaches : ℕ → (ℕ → Bool) → ℕ → Option (ℕ × f.F) → Type 0
  Reaches n active k o = o ≡ none → (m : ℕ) → m < n → active m ≡ true → m ≡ k

  closer-some : (j : ℕ) (d : f.F) (best : Option (ℕ × f.F)) → closer f j d best ≢ none
  closer-some j d none h = ground (arith, h)
  closer-some j d (some (b, bd)) h = ground (arith, h)

  nearest_from-none :
      (dist : ℕ → ℕ → f.F) (active : ℕ → Bool) (i r j : ℕ) (best : Option (ℕ × f.F))
      → nearest_from f dist active i r j best ≡ none
      → (best ≡ none) × ((m : ℕ) → j ≤ m → m < j + r → active m ≡ true → m ≡ i)
  unfolding nearest_from
  nearest_from-none dist active i zero j best h = (h, (λ m a b c. absurd (omega (arith, a, b))))
  nearest_from-none dist active i (suc r) j best h =
      elim (Bool-cases (not (active j) || (j == i))) [
        | inl e ↦
            let (b, later) =
              nearest_from-none dist active i r (suc j) best (nearest_step best (rw e refl) h) in
            (b, (λ m l u a. skipped e later m l u a))
        | inr e ↦
            let (b, later) =
              nearest_from-none dist active i r (suc j) (closer f j (dist i j) best)
                (nearest_step (closer f j (dist i j) best) (rw e refl) h) in
            absurd (closer-some j (dist i j) best b)
      ]
    where
      nearest_step :
          (o : Option (ℕ × f.F))
          → (if not (active j) || (j == i) then best else closer f j (dist i j) best) ≡ o
          → nearest_from f dist active i r
              (suc j)
              (if not (active j) || (j == i) then best else closer f j (dist i j) best)
            ≡ none
          → nearest_from f dist active i r (suc j) o ≡ none
      nearest_step o e g = subst (λ u. nearest_from f dist active i r (suc j) u ≡ none) e g

      skipped :
          (not (active j) || (j == i)) ≡ true
          → ((m : ℕ) → suc j ≤ m → m < suc j + r → active m ≡ true → m ≡ i)
          → (m : ℕ) → j ≤ m
          → m < j + suc r
          → active m ≡ true
          → m ≡ i
      skipped e later m l u a = elim (Bool-cases (m == j)) [
        | inl q ↦ let same : m ≡ j = ground (arith, q) in ground (arith, e, same, a)
        | inr q ↦ later m (ground (arith, q, l)) (omega (arith, u)) a
      ]

  nearest_neighbour-Reaches :
      (n i : ℕ) (dist : ℕ → ℕ → f.F) (active : ℕ → Bool)
      → active i ≡ true
      → Reaches n active i (nearest_neighbour f n i dist active)
  unfolding nearest_neighbour
  nearest_neighbour-Reaches n i dist active a = rw a (λ h m l c.
      (nearest_from-none dist active i n 0 none h).1 m (omega arith) (omega (arith, l)) c)

  abbrev AllReach : ℕ → Clustering f → Type 0
  AllReach n s = (k : ℕ) → s.active k ≡ true → Reaches n s.active k (s.nn k)

  merge_clusters-AllReach :
      (n i j : ℕ) (s : Clustering f) → AllReach n s → AllReach n (merge_clusters f n i j s)
  unfolding merge_clusters
  merge_clusters-AllReach n i j s v k a =
      let (other, was) = still f s.active j k a in
      elim (Bool-cases ((k == i) || is_stale f i j (s.nn k))) [
        | inl e ↦
            rw (a, e)
              (λ h m l c.
                (nearest_from-none (merged_dist f s i j) (update j false s.active) k n 0 none h).1 m
                  (omega arith) (omega (arith, l)) c)
        | inr e ↦ rw (a, e, other) (λ h m l c. v k was h m l ((still f s.active j m c).1))
      ]

  singletons-AllReach : (n : ℕ) (distance : ℕ → ℕ → f.F) → AllReach n (singletons f n distance)
  unfolding singletons
  singletons-AllReach n distance k a =
      nearest_neighbour-Reaches n k (pairs f distance) (λ m. ltb m n) a

  merge_loop-AllReach :
      (fuel n : ℕ) (max_distance : f.F) (s : Clustering f)
      → AllAim f s
      → AllReach n s
      → AllAim f (merge_loop f fuel n max_distance s)
        × AllReach n (merge_loop f fuel n max_distance s)
  unfolding merge_loop
  merge_loop-AllReach zero n max_distance s h v = (h, v)
  merge_loop-AllReach (suc fuel) n max_distance s h v = go (closest_from f s n 0 none) refl (λ i j.
      merge_loop-AllReach fuel n max_distance (merge_clusters f n i j s)
        (merge_clusters-AllAim f n i j s h) (merge_clusters-AllReach n i j s v))
    where
      go :
          (o : Option (ℕ × ℕ × f.F))
          → closest_from f s n 0 none ≡ o
          → ((i j : ℕ)
              → let end = merge_loop f fuel n max_distance (merge_clusters f n i j s) in
                AllAim f end × AllReach n end)
          → let end = merge_loop f (suc fuel) n max_distance s in AllAim f end × AllReach n end
      go none e next = rw (merge_loop, e) (h, v)
      go (some (i, j, d)) e next = elim (Bool-cases (f.le max_distance d)) [
        | inl q ↦ rw (merge_loop, e, q) (h, v)
        | inr q ↦ rw (merge_loop, e, q) (next i j)
      ]

  closer_pair-none :
      (i : ℕ) (near : Option (ℕ × f.F)) (best : Option (ℕ × ℕ × f.F))
      → closer_pair f i near best ≡ none
      → (near ≡ none) × (best ≡ none)
  closer_pair-none i none best h = (refl, h)
  closer_pair-none i (some (j, d)) none h = absurd (ground (arith, h))
  closer_pair-none i (some (j, d)) (some (a, b, bd)) h = absurd (ground (arith, h))

  closest_from-none :
      (s : Clustering f) (r i : ℕ) (best : Option (ℕ × ℕ × f.F))
      → closest_from f s r i best ≡ none
      → (best ≡ none) × ((m : ℕ) → i ≤ m → m < i + r → s.active m ≡ true → s.nn m ≡ none)
  unfolding closest_from
  closest_from-none s zero i best h = (h, (λ m a b c. absurd (omega (arith, a, b))))
  closest_from-none s (suc r) i best h =
      let (b, later) =
        closest_from-none s r (suc i) (if s.active i then closer_pair f i (s.nn i) best else best)
          h in
      elim (Bool-cases (s.active i)) [
        | inl e ↦
            let (near, before) = closer_pair-none i (s.nn i) best (rw e at b) in
            (before, (λ m l u a. here near later m l u a))
        | inr e ↦ (rw e at b, (λ m l u a. elsewhere e later m l u a))
      ]
    where
      here :
          s.nn i ≡ none
          → ((m : ℕ) → suc i ≤ m → m < suc i + r → s.active m ≡ true → s.nn m ≡ none)
          → (m : ℕ) → i ≤ m
          → m < i + suc r
          → s.active m ≡ true
          → s.nn m ≡ none
      here e later m l u a = elim (Bool-cases (m == i)) [
        | inl q ↦ let same : m ≡ i = ground (arith, q) in ap s.nn same ∙ e
        | inr q ↦ later m (ground (arith, q, l)) (omega (arith, u)) a
      ]

      elsewhere :
          s.active i ≡ false
          → ((m : ℕ) → suc i ≤ m → m < suc i + r → s.active m ≡ true → s.nn m ≡ none)
          → (m : ℕ) → i ≤ m
          → m < i + suc r
          → s.active m ≡ true
          → s.nn m ≡ none
      elsewhere e later m l u a = elim (Bool-cases (m == i)) [
        | inl q ↦
            let same : m ≡ i = ground (arith, q) in
            absurd (false≢true (sym e ∙ ap s.active (sym same) ∙ a))
        | inr q ↦ later m (ground (arith, q, l)) (omega (arith, u)) a
      ]

  -- At most one cluster is left, or two clusters are the closest pair and are not closer than the
  -- greatest distance.
  abbrev pub Ends : ℕ → f.F → Clustering f → Option (ℕ × ℕ × f.F) → Type 0
  Ends n max_distance s none =
      (a b : ℕ) → a < n → b < n → s.active a ≡ true → s.active b ≡ true → a ≡ b
  Ends n max_distance s (some (i, j, d)) =
      (s.active i ≡ true) × (s.active j ≡ true) × (j ≢ i) × (f.le max_distance d ≡ true)

  Stops-Ends :
      (n : ℕ) (max_distance : f.F) (s : Clustering f) (o : Option (ℕ × ℕ × f.F))
      → closest_from f s n 0 none ≡ o
      → AllReach n s
      → ArePair f s o
      → Stops f max_distance o
      → Ends n max_distance s o
  Stops-Ends n max_distance s none e v p t = λ a b la lb aa ab.
      v b ab ((closest_from-none s n 0 none e).1 b (omega arith) (omega (arith, lb)) ab) a la aa
  Stops-Ends n max_distance s (some (i, j, d)) e v p t = (p.0, p.1, p.2, t)

  -- For any number of embeddings, with any arithmetic, even if NaN occurs: as many rounds as there
  -- are embeddings are enough for the loop over merges. When it ends, at most one cluster is left, or
  -- the closest pair by the neighbours that are kept are two clusters that are left, and their
  -- distance is not below the greatest distance.
  pub merge_loop-Ends :
      (distance : ℕ → ℕ → f.F) (max_distance : f.F) (n : ℕ)
      → let end = merge_loop f n n max_distance (singletons f n distance) in
        Ends n max_distance end (closest_from f end n 0 none)
  merge_loop-Ends distance max_distance n =
      let s = singletons f n distance in
      let end = merge_loop f n n max_distance s in
      let (aim, reach) =
        merge_loop-AllReach n n max_distance s (singletons-AllAim f n distance)
          (singletons-AllReach n distance) in
      Stops-Ends n max_distance end (closest_from f end n 0 none) refl reach
        (closest_from-ArePair f end n 0 none aim tt) (merge_loop-Stops f distance max_distance n)
