-- ===== src/Diarization/Clusters/Distances.antt =====
-- The distances after merges.
use mathlib.Core.Bool.{false≢true}
use meetily_local.Common.{
  ℕ, ◌<◌, ◌≡◌, ◌≢◌, refl, sym, subst, Bool, true, false, not, ◌&&◌, ◌||◌, Option, none, some, arith,
  ◌==◌, ltb, if◌then◌else◌, Float, Bool-cases, inl, inr,
}
use meetily_local.Diarization.Clusters.{
  Clustering, update, is_stale, merge_clusters, merged_dist, singletons, pairs,
}
use meetily_local.Diarization.Clusters.Nearest.{
  IsExact, Within, nearest_from-Within, nearest_neighbour-Within, Nearest,
}

module _ (f : Float) (x : IsExact f) where
  pub record Proper (n : ℕ) (s : Clustering f) : Type 0 where
    pub nearest : Nearest f x n s
    pub symmetric : (a b : ℕ) → s.dist a b ≡ s.dist b a
    pub sizes : (k : ℕ) → x.IsSize (s.size k)

  abbrev is_other : Clustering f → ℕ → ℕ → ℕ → Bool
  is_other s i j k = s.active k && (not (k == i) && not (k == j))

  abbrev average_to : Clustering f → ℕ → ℕ → ℕ → f.F
  average_to s i j k =
      f.div (f.add (f.mul (s.size i) (s.dist i k)) (f.mul (s.size j) (s.dist j k)))
        (f.add (s.size i) (s.size j))

  merged_dist-symmetric :
      (s : Clustering f) (i j a b : ℕ)
      → s.dist a b ≡ s.dist b a
      → merged_dist f s i j a b ≡ merged_dist f s i j b a
  unfolding merged_dist
  merged_dist-symmetric s i j a b h =
      pick (a == i) (is_other s i j b) (b == i) (is_other s i j a) (ground arith)
    where
      pick :
          (p q r t : Bool)
          → (q && r ≡ false)
          → (if p && q
              then average_to s i j b
              else if r && t
              then average_to s i j a
              else s.dist a b)
            ≡ (if r && t
                then average_to s i j a
                else if p && q
                then average_to s i j b
                else s.dist b a)
      pick true true true t n = absurd (ground (arith, n))
      pick true true false t n = refl
      pick true false true true n = refl
      pick true false true false n = h
      pick true false false t n = h
      pick false q true true n = refl
      pick false q true false n = h
      pick false q false t n = h

  stays :
      (active : ℕ → Bool) (j k : ℕ) → update j false active k ≡ true → (k ≢ j) × (active k ≡ true)
  stays active j k h = (ground (arith, h), ground (arith, h))

  -- A distance to another cluster after the merge.
  merged-Within :
      (n i j k t : ℕ) (s : Clustering f) (d : f.F)
      → Proper n s
      → s.active k ≡ true
      → k ≢ i
      → k ≢ j
      → f.lt (s.dist k i) d ≡ false
      → f.lt (s.dist k j) d ≡ false
      → f.lt (s.dist k t) d ≡ false
      → f.lt (merged_dist f s i j k t) d ≡ false
  unfolding merged_dist
  merged-Within n i j k t s d v a ni nj p q r =
      let off : (k == i) ≡ false = ground (arith, ni) in
      let other : is_other s i j k ≡ true = ground (arith, a, ni, nj) in
      let mean =
        x.average (s.size i) (s.size j) (s.dist i k) (s.dist j k) d (v.sizes i) (v.sizes j)
          (subst (λ e. f.lt e d ≡ false) (v.symmetric k i) p)
          (subst (λ e. f.lt e d ≡ false) (v.symmetric k j) q) in
      choose ((k == i) && is_other s i j t) ((t == i) && is_other s i j k) (ground (arith, off))
        mean
    where
      choose :
          (b c : Bool)
          → b ≡ false
          → f.lt (average_to s i j k) d ≡ false
          → f.lt (if b then average_to s i j t else if c then average_to s i j k else s.dist k t) d
            ≡ false
      choose true c e m = absurd (false≢true (sym e))
      choose false true e m = m
      choose false false e m = r

  kept-Within :
      (n i j k t : ℕ) (s : Clustering f) (o : Option (ℕ × f.F))
      → Proper n s
      → s.active k ≡ true
      → k ≢ i
      → k ≢ j
      → Within f x (s.dist k i) o
      → Within f x (s.dist k j) o
      → Within f x (s.dist k t) o
      → Within f x (merged_dist f s i j k t) o
  kept-Within n i j k t s none v a ni nj p q r = p
  kept-Within n i j k t s (some (b, d)) v a ni nj p q r =
      merged-Within n i j k t s d v a ni nj p q r

  nn_kept :
      (n i j k : ℕ) (s : Clustering f)
      → update j false s.active k ≡ true
      → ((k == i) || is_stale f i j (s.nn k)) ≡ false
      → (k == j) ≡ false
      → (merge_clusters f n i j s).nn k ≡ s.nn k
  unfolding merge_clusters
  nn_kept n i j k s a e other = rw (a, e, other) refl

  merge_clusters-Nearest :
      (n i j : ℕ) (s : Clustering f)
      → s.active i ≡ true
      → s.active j ≡ true
      → i < n
      → j < n
      → Proper n s
      → Nearest f x n (merge_clusters f n i j s)
  unfolding merge_clusters
  merge_clusters-Nearest n i j s ai aj li lj v k t a b l d =
      let (nk, ak) = stays s.active j k a in
      let (nt, at) = stays s.active j t b in
      let other : (k == j) ≡ false = ground (arith, nk) in
      elim (Bool-cases ((k == i) || is_stale f i j (s.nn k))) [
        | inl e ↦
            rw (a, e)
              (nearest_from-Within f x (merged_dist f s i j) (update j false s.active) k n 0 t none
                (omega arith) (omega (arith, l)) b d)
        | inr e ↦
            let ni : k ≢ i = ground (arith, e) in
            subst (Within f x (merged_dist f s i j k t)) (sym (nn_kept n i j k s a e other)) (
              kept-Within n i j k t s (s.nn k) v ak ni nk (v.nearest k i ak ai li (λ q. ni (sym q)))
                (v.nearest k j ak aj lj (λ q. nk (sym q))) (v.nearest k t ak at l d))
      ]

  pub merge_clusters-Proper :
      (n i j : ℕ) (s : Clustering f)
      → s.active i ≡ true
      → s.active j ≡ true
      → i < n
      → j < n
      → Proper n s
      → Proper n (merge_clusters f n i j s)
  unfolding merge_clusters
  merge_clusters-Proper n i j s ai aj li lj v = record {
    nearest = merge_clusters-Nearest n i j s ai aj li lj v;
    symmetric = λ a b. merged_dist-symmetric s i j a b (v.symmetric a b);
    sizes = λ k. elim (Bool-cases (k == i)) [
      | inl e ↦ rw e (x.sum (s.size i) (s.size j) (v.sizes i) (v.sizes j))
      | inr e ↦ rw e (v.sizes k)
    ];
  }

  pairs-symmetric : (distance : ℕ → ℕ → f.F) (a b : ℕ) → pairs f distance a b ≡ pairs f distance b a
  pairs-symmetric distance a b = ground arith

  pub singletons-Proper : (n : ℕ) (distance : ℕ → ℕ → f.F) → Proper n (singletons f n distance)
  unfolding singletons
  singletons-Proper n distance = record {
    nearest =
        λ k j a b l d. nearest_neighbour-Within f x n k j (pairs f distance) (λ m. ltb m n) a b l d;
    symmetric = pairs-symmetric distance;
    sizes = λ k. x.one;
  }
