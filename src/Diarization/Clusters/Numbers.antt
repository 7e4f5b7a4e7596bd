-- ===== src/Diarization/Clusters/Numbers.antt =====
-- The numbers that the clusters get.
use meetily_local.Common.{
  ℕ, zero, suc, ◌+◌, ◌≤◌, ◌<◌, ◌≡◌, ◌≢◌, refl, sym, ap, ◌∙◌, subst, Bool, true, false, ◌||◌, Option,
  none, some, List, [], ◌∷◌, arith, ◌==◌, ltb, if◌then◌else◌, Float, Bool-cases, inl, inr, length,
  set, replicate,
}
use meetily_local.Diarization.Clusters.{
  Clustering, write_members, number_clusters, singletons, merge_loop, agglomerative_cluster,
  closest_from,
}
use meetily_local.Diarization.Clusters.Neighbours.{singletons-AllAim}
use meetily_local.Diarization.Clusters.Merging.{
  has, Grouped, merge_loop-Grouped, singletons-Grouped, Stops, count,
}

abbrev pub get_elem? : List ℕ → ℕ → Option ℕ
get_elem? [] m = none
get_elem? (x ∷ xs) zero = some x
get_elem? (x ∷ xs) (suc m) = get_elem? xs m

length-set : (xs : List ℕ) (i v : ℕ) → length (set xs i v) ≡ length xs
length-set [] i v = refl
length-set (x ∷ xs) zero v = refl
length-set (x ∷ xs) (suc i) v = ap suc (length-set xs i v)

get-set :
    (xs : List ℕ) (i v m : ℕ)
    → m < length xs
    → get_elem? (set xs i v) m ≡ (if m == i then some v else get_elem? xs m)
get-set [] i v m h = absurd (omega (arith, h))
get-set (x ∷ xs) zero v zero h = refl
get-set (x ∷ xs) zero v (suc m) h = ground arith
get-set (x ∷ xs) (suc i) v zero h = ground arith
get-set (x ∷ xs) (suc i) v (suc m) h = ground (arith, get-set xs i v m (omega (arith, h)))

length-write_members :
    (ms : List ℕ) (c : ℕ) (out : List ℕ) → length (write_members ms c out) ≡ length out
unfolding write_members
length-write_members [] c out = refl
length-write_members (m ∷ ms) c out = length-write_members ms c (set out m c) ∙ length-set out m c

get-write_members :
    (ms : List ℕ) (c : ℕ) (out : List ℕ) (m : ℕ)
    → m < length out
    → get_elem? (write_members ms c out) m ≡ (if has m ms then some c else get_elem? out m)
unfolding write_members
get-write_members [] c out m h = refl
get-write_members (x ∷ ms) c out m h =
    get-write_members ms c (set out x c) m (subst (λ n. m < n) (sym (length-set out x c)) h)
    ∙ rw (get-set out x c m h) (choose (m == x) (has m ms) c (get_elem? out m))
  where
    choose :
        (a b : Bool) (c : ℕ) (o : Option ℕ)
        → (if b then some c else if a then some c else o) ≡ (if a || b then some c else o)
    choose true true c o = refl
    choose true false c o = refl
    choose false true c o = refl
    choose false false c o = refl

-- How many are in themselves below `k`.
abbrev pub representatives_below : (ℕ → ℕ) → ℕ → ℕ
representatives_below rep zero = 0
representatives_below rep (suc k) = (if rep k == k then 1 else 0) + representatives_below rep k

number_step :
    (rep : ℕ → ℕ) (x i c : ℕ) (o p : Option ℕ) (b : Bool)
    → b ≡ (x == i)
    → p ≡ (if b then some c else o)
    → c ≡ representatives_below rep i
    → (if ltb x (suc i) then p else some (representatives_below rep x))
      ≡ (if ltb x i then o else some (representatives_below rep x))
number_step rep x i c o p b h g q = elim (Bool-cases (x == i)) [
  | inl e ↦
      let same : x ≡ i = ground (arith, e) in
      let there : b ≡ true = h ∙ e in
      let wrote : p ≡ some (representatives_below rep x) =
        g ∙ rw there (ap some (q ∙ ap (representatives_below rep) (sym same))) in
      ground (arith, same, wrote)
  | inr e ↦
      let there : b ≡ false = h ∙ e in
      let left : p ≡ o = g ∙ rw there refl in ground (arith, e, left)
]

skip_step :
    (rep : ℕ → ℕ) (x i : ℕ) (o : Option ℕ)
    → x ≢ i
    → (if ltb x (suc i) then o else some (representatives_below rep x))
      ≡ (if ltb x i then o else some (representatives_below rep x))
skip_step rep x i o h = ground (arith, h)

module _ (f : Float) (n : ℕ) (s : Clustering f) (rep : ℕ → ℕ) (g : Grouped f n s rep) where
  length-number_clusters :
      (r i c : ℕ) (out : List ℕ) → length (number_clusters f s r i c out) ≡ length out
  unfolding number_clusters
  length-number_clusters zero i c out = refl
  length-number_clusters (suc r) i c out = elim (Bool-cases (s.active i)) [
    | inl e ↦ rw e (
        length-number_clusters r (suc i) (suc c) (write_members (s.members i) c out)
        ∙ length-write_members (s.members i) c out)
    | inr e ↦ rw e (length-number_clusters r (suc i) c out)
  ]

  -- From cluster `i` on, of which `c` have been numbered.
  get-number_clusters :
      (r i c : ℕ) (out : List ℕ) (m : ℕ)
      → i + r ≡ n
      → c ≡ representatives_below rep i
      → length out ≡ n
      → m < n
      → get_elem? (number_clusters f s r i c out) m
        ≡ (if ltb (rep m) i then get_elem? out m else some (representatives_below rep (rep m)))
  unfolding number_clusters
  get-number_clusters zero i c out m e q l h = ground (arith, g.bound m h)
  get-number_clusters (suc r) i c out m e q l h = elim (Bool-cases (s.active i)) [
    | inl a ↦
        let rest =
          get-number_clusters r (suc i) (suc c) (write_members (s.members i) c out) m
            (omega (arith, e)) (ground (arith, g.is_active i (omega (arith, e)), a, q))
            (length-write_members (s.members i) c out ∙ l) h in
        rw a (
          rest
          ∙ number_step rep (rep m) i c (get_elem? out m)
              (get_elem? (write_members (s.members i) c out) m) (has m (s.members i))
              (ground (arith, g.contents i m a, h))
              (get-write_members (s.members i) c out m (omega (arith, l, h))) q)
    | inr a ↦
        let rest =
          get-number_clusters r (suc i) c out m (omega (arith, e))
            (ground (arith, g.is_active i (omega (arith, e)), a, q)) l h in
        rw a (rest ∙ skip_step rep (rep m) i (get_elem? out m) (not_in r i e a))
  ]
    where
      not_in : (r i : ℕ) → i + suc r ≡ n → s.active i ≡ false → rep m ≢ i
      not_in r i e a x =
          let fix : rep i ≡ i = ap rep (sym x) ∙ g.fixed m h ∙ x in
          ground (arith, g.is_active i (omega (arith, e)), a, fix)

count-bound : (active : ℕ → Bool) (n : ℕ) → count active n ≤ n
count-bound active zero = omega arith
count-bound active (suc n) = elim (Bool-cases (active n)) [
  | inl e ↦ rw e (omega (arith, count-bound active n))
  | inr e ↦ rw e (omega (arith, count-bound active n))
]

length-zeros : (n : ℕ) → length {A = ℕ} (replicate n 0) ≡ n
length-zeros zero = refl
length-zeros (suc n) = ap suc (length-zeros n)

module _ (f : Float) (distance : ℕ → ℕ → f.F) (max_distance : f.F) where
  merged_from :
      (n : ℕ)
      → let end = merge_loop f n n max_distance (singletons f n distance) in
        ((rep : ℕ → ℕ) × Grouped f n end rep) × Stops f max_distance (closest_from f end n 0 none)
  merged_from n =
      let s = singletons f n distance in
      merge_loop-Grouped f n n max_distance s (λ m. m) (singletons-AllAim f n distance)
        (singletons-Grouped f n distance) (count-bound s.active n)

  -- The loop does not run out of fuel.
  pub merge_loop-Stops :
      (n : ℕ)
      → Stops f max_distance
          (closest_from f (merge_loop f n n max_distance (singletons f n distance)) n 0 none)
  merge_loop-Stops n = (merged_from n).1

  -- Of the first `k` embeddings out of `n`: each is a member of exactly one cluster of those that are
  -- left, and its index is the number of clusters that are left before that one.
  abbrev pub IsNumbered : ℕ → Clustering f → List ℕ → ℕ → Type 0
  IsNumbered n s out zero = Unit
  IsNumbered n s out (suc k) =
      ((i : ℕ) × (i < n)
        × (s.active i ≡ true)
        × (has k (s.members i) ≡ true)
        × ((j : ℕ) → s.active j ≡ true → has k (s.members j) ≡ true → j ≡ i)
        × (get_elem? out k ≡ some (count s.active i)))
      × IsNumbered n s out k

  count_representatives :
      (n : ℕ) (s : Clustering f) (rep : ℕ → ℕ) (i : ℕ)
      → Grouped f n s rep
      → i ≤ n
      → count s.active i ≡ representatives_below rep i
  count_representatives n s rep zero g h = refl
  count_representatives n s rep (suc i) g h =
      rw (g.is_active i (omega (arith, h)), count_representatives n s rep i g (omega (arith, h)))
        refl

  in_cluster :
      (n : ℕ) (s : Clustering f) (rep : ℕ → ℕ) (out : List ℕ) (k : ℕ)
      → Grouped f n s rep
      → k < n
      → get_elem? out k ≡ some (representatives_below rep (rep k))
      → IsNumbered n s out k
      → IsNumbered n s out (suc k)
  in_cluster n s rep out k g l e rest =
      let bound = g.bound k l in
      let fixed = g.fixed k l in
      let a : s.active (rep k) ≡ true = ground (arith, g.is_active (rep k) bound, fixed) in
      (
        (
          rep k,
          bound,
          a,
          ground (arith, g.contents (rep k) k a, l),
          (λ j b h. ground (arith, g.contents j k b, h)),
          e ∙ ap some (sym (count_representatives n s rep (rep k) g (omega (arith, bound)))),
        ),
        rest,
      )

  numbered :
      (n : ℕ) (s : Clustering f) (rep : ℕ → ℕ) (k : ℕ)
      → Grouped f n s rep
      → k ≤ n
      → IsNumbered n s (number_clusters f s n 0 0 (replicate n 0)) k
  numbered n s rep zero g h = tt
  numbered n s rep (suc k) g h =
      let l : k < n = omega (arith, h) in
      let found =
        get-number_clusters f n s rep g n 0 0 (replicate n 0) k (omega arith) refl (length-zeros n)
          l in
      in_cluster n s rep (number_clusters f s n 0 0 (replicate n 0)) k g l (found ∙ ground arith)
        (numbered n s rep k g (omega (arith, h)))

  -- For any number of embeddings, with any arithmetic: the result has an index for each embedding.
  -- Each embedding is a member of exactly one of the clusters that the merges leave, and its index is
  -- the number of clusters left before that one: so embeddings get the same index where they are in
  -- the same cluster, and the indices count the clusters from 0 on.
  pub agglomerative_cluster-IsNumbered :
      (n : ℕ)
      → let out = agglomerative_cluster f n distance max_distance in
        let end = merge_loop f n n max_distance (singletons f n distance) in
        (length out ≡ n) × IsNumbered n end out n
  unfolding agglomerative_cluster
  agglomerative_cluster-IsNumbered zero = (refl, tt)
  agglomerative_cluster-IsNumbered (suc zero) =
      let s = merge_loop f 1 1 max_distance (singletons f 1 distance) in
      let (rep, g) = (merged_from 1).0 in
      let first : rep 0 ≡ 0 = omega (arith, g.bound 0 (omega arith)) in
      (
        refl,
        in_cluster 1 s rep (0 ∷ []) 0 g (omega arith)
            (ap some (sym (ap (representatives_below rep) first))) tt,
      )
  agglomerative_cluster-IsNumbered (suc (suc k)) =
      let n = suc (suc k) in
      let s = merge_loop f n n max_distance (singletons f n distance) in
      let (rep, g) = (merged_from n).0 in
      (
        length-number_clusters f n s rep g n 0 0 (replicate n 0) ∙ length-zeros n,
        numbered n s rep n g (omega arith),
      )
