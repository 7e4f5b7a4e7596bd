-- ===== src/Diarization/Records.antt =====
-- meetily-core/src/speaker_diarization/refinement.rs: refine with the clusters of the records' own
-- embeddings.
use mathlib.Core.Option
use meetily_local.Common.{
  ℕ, zero, suc, ◌≡◌, refl, sym, ap, ◌∙◌, subst, arith, Option, none, some, List, [], ◌∷◌, map,
  length, Float, Bool, true, ◌&&◌, ◌==◌, is_some, if◌then◌else◌,
}
use meetily_local.Diarization.{
  EmbeddingRecord, RefinedAssignment, Identities, embeddings, identity_of, refine,
}
use meetily_local.Diarization.Names.{Named, Row, refine-Named}
use meetily_local.Diarization.Embeddings.{l2_normalize, cosine_distance, dot}
use meetily_local.Diarization.Online.Labels.{HaveLength, length-l2_normalize}
use meetily_local.Transcripts.{unwrap_or}
use meetily_local.Diarization.Clusters.{agglomerative_cluster}

abbrev pub nth {ℓ} : {A : Type ℓ} → List A → ℕ → Option A
nth [] i = none
nth (a ∷ as') zero = some a
nth (a ∷ as') (suc i) = nth as' i

abbrev vector_at {ℓ} : {A : Type ℓ} → List (List A) → ℕ → List A
vector_at [] i = []
vector_at (v ∷ vs) zero = v
vector_at (v ∷ vs) (suc i) = vector_at vs i

module _ (f : Float) (sqrt : f.F → f.F) where
  abbrev works_with : List f.F → List (List f.F) → Bool
  works_with v [] = true
  works_with v (w ∷ ws) = is_some (cosine_distance f sqrt v w) && works_with v ws

  -- The loop over all pairs does not panic.
  abbrev pub pairs_work : List (List f.F) → Bool
  pairs_work [] = true
  pairs_work (v ∷ vs) = works_with v vs && pairs_work vs

  -- `none` is a panic, which comes before any merge.
  unfoldable pub cluster_embeddings : List (List f.F) → f.F → Option (List ℕ)
  unfolding l2_normalize cosine_distance agglomerative_cluster
  cluster_embeddings es max_distance =
      let normed = map (l2_normalize f sqrt) es in
      let distance : ℕ → ℕ → f.F = λ i j.
        unwrap_or (f.literal 0 0)
          (cosine_distance f sqrt (vector_at normed i) (vector_at normed j)) in
      if pairs_work normed
      then some (agglomerative_cluster f (length es) distance max_distance)
      else none

  abbrev pub with_clusters :
      List (EmbeddingRecord (List f.F)) → List ℕ → List (EmbeddingRecord (List f.F) × ℕ)
  with_clusters [] cs = []
  with_clusters (r ∷ rs) [] = []
  with_clusters (r ∷ rs) (c ∷ cs) = (r, c) ∷ with_clusters rs cs

  unfoldable pub cluster_of : List (EmbeddingRecord (List f.F)) → f.F → Option (List ℕ)
  unfolding cluster_embeddings
  cluster_of history threshold =
      cluster_embeddings (embeddings history) (f.sub (f.literal 1 0) threshold)

  unfoldable pub refine_records :
      Option (List (List f.F) → Option (List ℕ × List ℕ))
      → List (EmbeddingRecord (List f.F))
      → f.F
      → Option (List RefinedAssignment)
  unfolding cluster_of refine
  refine_records matcher history threshold =
      Option.map (λ cluster_ids. refine matcher (with_clusters history cluster_ids))
        (cluster_of history threshold)

  nth-with_clusters :
      (rs : List (EmbeddingRecord (List f.F))) (cs : List ℕ) (i c : ℕ)
      (r : EmbeddingRecord (List f.F))
      → nth rs i ≡ some r
      → nth cs i ≡ some c
      → nth (with_clusters rs cs) i ≡ some (r, c)
  nth-with_clusters [] cs i c r h g = absurd (ground (arith, h))
  nth-with_clusters (s ∷ rs) [] i c r h g = absurd (ground (arith, g))
  nth-with_clusters (s ∷ rs) (d ∷ cs) zero c r h g =
      cc (Option.some-injective s r h, Option.some-injective d c g)
  nth-with_clusters (s ∷ rs) (d ∷ cs) (suc i) c r h g = nth-with_clusters rs cs i c r h g

  -- The name of an unpinned record is that of its cluster.
  name_at :
      (ids : Identities) (hs history : List (EmbeddingRecord (List f.F) × ℕ))
      (matcher : Option (List (List f.F) → Option (List ℕ × List ℕ))) (bs : List RefinedAssignment)
      (i c : ℕ) (r : EmbeddingRecord (List f.F))
      → Named matcher history ids hs bs
      → nth hs i ≡ some (r, c)
      → r.voice_profile_id ≡ none
      → (b : RefinedAssignment) × (nth bs i ≡ some b)
        × (identity_of c ids ≡ some (b.speaker, b.voice_profile_id))
  name_at ids [] history matcher bs i c r n h p = absurd (ground (arith, h))
  name_at ids ((s, d) ∷ hs) history matcher [] i c r n h p = absurd n
  name_at ids ((s, d) ∷ hs) history matcher (b ∷ bs) (suc i) c r n h p =
      name_at ids hs history matcher bs i c r n.3 h p
  name_at ids ((s, d) ∷ hs) history matcher (b ∷ bs) zero c r n h p =
      let e : (s, d) ≡ (r, c) = Option.some-injective (s, d) (r, c) h in
      (
        b,
        refl,
        subst (λ o. Row matcher history ids r c o b) p
            (subst
              (λ (q : EmbeddingRecord (List f.F) × ℕ).
                Row matcher history ids q.0 q.1 q.0.voice_profile_id b)
              e n.2),
      )

  pairs_work-HaveLength :
      (d : ℕ) (vs : List (List f.F)) → HaveLength f sqrt d vs → pairs_work vs ≡ true
  unfolding cosine_distance dot
  pairs_work-HaveLength d [] h = refl
  pairs_work-HaveLength d (v ∷ vs) h = rw (same v vs h.0 h.1, pairs_work-HaveLength d vs h.1) refl
    where
      same :
          (v : List f.F) (ws : List (List f.F))
          → length v ≡ d
          → HaveLength f sqrt d ws
          → works_with v ws ≡ true
      same v [] e k = refl
      same v (w ∷ ws) e k =
          let one : (length v == length w) ≡ true = ground (arith, e, k.0) in
          rw (one, same v ws e k.1) refl

  normed-HaveLength :
      (d : ℕ) (es : List (List f.F))
      → HaveLength f sqrt d es
      → HaveLength f sqrt d (map (l2_normalize f sqrt) es)
  normed-HaveLength d [] h = tt
  normed-HaveLength d (e ∷ es) h = (length-l2_normalize f sqrt e ∙ h.0, normed-HaveLength d es h.1)

  -- Embeddings of one length are clustered without a panic.
  cluster_of-HaveLength :
      (d : ℕ) (history : List (EmbeddingRecord (List f.F))) (threshold : f.F)
      → HaveLength f sqrt d (embeddings history)
      → (cluster_ids : List ℕ) × (cluster_of history threshold ≡ some cluster_ids)
  unfolding cluster_of cluster_embeddings
  cluster_of-HaveLength d history threshold h =
      rw
        (pairs_work-HaveLength d (map (l2_normalize f sqrt) (embeddings history))
          (normed-HaveLength d (embeddings history) h))
        (_, refl)

  -- Two records at the positions `i` and `j` whose embeddings are put in the same cluster, by a
  -- clustering that does not panic, and that no stored profile is pinned to: the refinement gives
  -- them the same speaker and the same profile.
  pub refine_records-together :
      (matcher : Option (List (List f.F) → Option (List ℕ × List ℕ)))
      (history : List (EmbeddingRecord (List f.F))) (threshold : f.F) (cluster_ids : List ℕ)
      (i j c : ℕ) (r s : EmbeddingRecord (List f.F))
      → cluster_of history threshold ≡ some cluster_ids
      → nth history i ≡ some r
      → nth history j ≡ some s
      → nth cluster_ids i ≡ some c
      → nth cluster_ids j ≡ some c
      → r.voice_profile_id ≡ none
      → s.voice_profile_id ≡ none
      → (out : List RefinedAssignment) × (a : RefinedAssignment) × (b : RefinedAssignment)
        × (refine_records matcher history threshold ≡ some out)
        × (nth out i ≡ some a)
        × (nth out j ≡ some b)
        × (a.speaker ≡ b.speaker)
        × (a.voice_profile_id ≡ b.voice_profile_id)
  unfolding refine_records
  refine_records-together matcher history threshold cs i j c r s e hi hj ci cj pi pj =
      let pairs = with_clusters history cs in
      let (ids, m, x, named) = refine-Named matcher pairs in
      let (a, ai, an) =
        name_at ids pairs pairs matcher (refine matcher pairs) i c r named
          (nth-with_clusters history cs i c r hi ci) pi in
      let (b, bj, bn) =
        name_at ids pairs pairs matcher (refine matcher pairs) j c s named
          (nth-with_clusters history cs j c s hj cj) pj in
      let same : (a.speaker, a.voice_profile_id) ≡ (b.speaker, b.voice_profile_id) =
        Option.some-injective (a.speaker, a.voice_profile_id) (b.speaker, b.voice_profile_id)
          (sym an ∙ bn) in
      (
        refine matcher pairs,
        a,
        b,
        rw e refl,
        ai,
        bj,
        ap (λ (q : List ℕ × Option (List ℕ)). q.0) same,
        ap (λ (q : List ℕ × Option (List ℕ)). q.1) same,
      )
