-- ===== src/Diarization/Clusters.antt =====
-- meetily-core/src/speaker_diarization/refinement.rs: agglomerative_cluster, which groups the
-- embeddings of a recording. The distance of two normalized embeddings is an argument; the arrays
-- are functions of the index.
pub mod Neighbours
pub mod Merging
pub mod Numbers
pub mod Nearest
pub mod Distances
pub mod Cut
pub mod Left
use meetily_local.Common.{
  ℕ, zero, suc, ◌+◌, Bool, true, false, not, ◌&&◌, ◌||◌, Option, none, some, List, [], ◌∷◌, ◌++◌,
  ◌==◌, if◌then◌else◌, Float, set, replicate, ltb,
}

-- `nn` has the nearest neighbour of an active cluster and its distance.
pub record Clustering (f : Float) : Type 0 where
  pub dist : ℕ → ℕ → f.F
  pub active : ℕ → Bool
  pub size : ℕ → f.F
  pub members : ℕ → List ℕ
  pub nn : ℕ → Option (ℕ × f.F)

-- An assignment to an element.
abbrev pub update {ℓ} : {A : Type ℓ} → ℕ → A → (ℕ → A) → ℕ → A
update i v a k = if k == i then v else a k

unfoldable pub write_members : List ℕ → ℕ → List ℕ → List ℕ
write_members [] c out = out
write_members (m ∷ ms) c out = write_members ms c (set out m c)

module _ (f : Float) where
  abbrev pub closer : ℕ → f.F → Option (ℕ × f.F) → Option (ℕ × f.F)
  closer j d none = some (j, d)
  closer j d (some (b, bd)) = if f.lt d bd then some (j, d) else some (b, bd)

  -- The loop over the clusters from `j` on, of which `r` are left.
  unfoldable pub nearest_from :
      (ℕ → ℕ → f.F) → (ℕ → Bool) → ℕ → ℕ → ℕ → Option (ℕ × f.F) → Option (ℕ × f.F)
  nearest_from dist active i zero j best = best
  nearest_from dist active i (suc r) j best =
      nearest_from dist active i r (suc j)
        (if not (active j) || (j == i) then best else closer j (dist i j) best)

  unfoldable pub nearest_neighbour : ℕ → ℕ → (ℕ → ℕ → f.F) → (ℕ → Bool) → Option (ℕ × f.F)
  unfolding nearest_from
  nearest_neighbour n i dist active =
      let found = nearest_from dist active i n 0 none in if active i then found else none

  abbrev pub closer_pair : ℕ → Option (ℕ × f.F) → Option (ℕ × ℕ × f.F) → Option (ℕ × ℕ × f.F)
  closer_pair i none best = best
  closer_pair i (some (j, d)) none = some (i, j, d)
  closer_pair i (some (j, d)) (some (a, b, bd)) =
      if f.lt d bd then some (i, j, d) else some (a, b, bd)

  -- The closest pair, by the neighbours that are kept.
  unfoldable pub closest_from : Clustering f → ℕ → ℕ → Option (ℕ × ℕ × f.F) → Option (ℕ × ℕ × f.F)
  closest_from s zero i best = best
  closest_from s (suc r) i best =
      closest_from s r (suc i) (if s.active i then closer_pair i (s.nn i) best else best)

  -- The distances after the merge of `j` into `i`.
  unfoldable pub merged_dist : Clustering f → ℕ → ℕ → ℕ → ℕ → f.F
  merged_dist s i j a b =
      let is_other = λ (k : ℕ). s.active k && (not (k == i) && not (k == j)) in
      let merged = λ (k : ℕ).
        f.div (f.add (f.mul (s.size i) (s.dist i k)) (f.mul (s.size j) (s.dist j k)))
          (f.add (s.size i) (s.size j)) in
      if (a == i) && is_other b
      then merged b
      else if (b == i) && is_other a
      then merged a
      else s.dist a b

  abbrev pub is_stale : ℕ → ℕ → Option (ℕ × f.F) → Bool
  is_stale i j none = false
  is_stale i j (some (t, d)) = (t == i) || (t == j)

  unfoldable pub merge_clusters : ℕ → ℕ → ℕ → Clustering f → Clustering f
  unfolding merged_dist nearest_neighbour
  merge_clusters n i j s =
      let dist = merged_dist s i j in
      let active = update j false s.active in
      record {
        dist = dist;
        active = active;
        size = update i (f.add (s.size i) (s.size j)) s.size;
        members = update j [] (update i (s.members i ++ s.members j) s.members);
        nn = λ k.
            if active k && ((k == i) || is_stale i j (s.nn k))
            then nearest_neighbour n k dist active
            else update j none s.nn k;
      }

  -- On fuel: the number of clusters that are left.
  unfoldable pub merge_loop : ℕ → ℕ → f.F → Clustering f → Clustering f
  unfolding closest_from merge_clusters
  merge_loop zero n max_distance s = s
  merge_loop (suc fuel) n max_distance s = elim (closest_from s n 0 none) [
    | none ↦ s
    | some (i, j, d) ↦ elim (f.le max_distance d) [
      | true ↦ s
      | false ↦ merge_loop fuel n max_distance (merge_clusters n i j s)
    ]
  ]

  unfoldable pub number_clusters : Clustering f → ℕ → ℕ → ℕ → List ℕ → List ℕ
  unfolding write_members
  number_clusters s zero i c out = out
  number_clusters s (suc r) i c out =
      let skipped = number_clusters s r (suc i) c out in
      let numbered = number_clusters s r (suc i) (suc c) (write_members (s.members i) c out) in
      if s.active i then numbered else skipped

  -- The distance of each pair, computed once.
  abbrev pub pairs : (ℕ → ℕ → f.F) → ℕ → ℕ → f.F
  pairs distance a b =
      if a == b then f.literal 0 0 else if ltb a b then distance a b else distance b a

  -- Every embedding on its own.
  unfoldable pub singletons : ℕ → (ℕ → ℕ → f.F) → Clustering f
  unfolding nearest_neighbour
  singletons n distance =
      let active = λ (k : ℕ). ltb k n in
      record {
        dist = pairs distance;
        active = active;
        size = λ k. f.literal 1 0;
        members = λ k. k ∷ [];
        nn = λ k. nearest_neighbour n k (pairs distance) active;
      }

  -- For `n` embeddings.
  unfoldable pub agglomerative_cluster : ℕ → (ℕ → ℕ → f.F) → f.F → List ℕ
  unfolding singletons merge_loop number_clusters
  agglomerative_cluster zero distance max_distance = []
  agglomerative_cluster (suc zero) distance max_distance = 0 ∷ []
  agglomerative_cluster (suc (suc k)) distance max_distance =
      let n = suc (suc k) in
      number_clusters (merge_loop n n max_distance (singletons n distance)) n 0 0 (replicate n 0)
