-- ===== src/Diarization/Online.antt =====
-- meetily-core/src/speaker_diarization/clusterer.rs: the speakers of a recording while it goes on.
pub mod Labels
use mathlib.Core.Option
use meetily_local.Common.{
  ℕ, zero, suc, ◌+◌, ◌-◌, ◌^◌, ◌<◌, ◌≡◌, ◌⊎◌, refl, sym, ap, ◌∙◌, subst, Bool, true, false, Option,
  none, some, List, [], ◌∷◌, ◌++◌, map, min, codes, length, length-append, arith, Float, ◌==◌,
  if◌then◌else◌, Bool-cases, Option-cases, inl, inr,
}
use meetily_local.Saver.{digits_within}
use meetily_local.Diarization.Embeddings.{dot, l2_normalize}

pub record Centroid (f : Float) : Type 0 where
  pub id : ℕ
  pub embedding : List f.F
  pub sample_count : ℕ

pub record OnlineSpeakerClusterer (f : Float) : Type 0 where
  pub centroids : List (Centroid f)
  pub threshold : f.F
  pub next_id : ℕ

module _ (f : Float) (sqrt : f.F → f.F) where
  unfoldable pub fresh : f.F → OnlineSpeakerClusterer f
  fresh threshold = record { centroids = []; threshold = threshold; next_id = 0 }

  abbrev weighted : f.F → List f.F → List f.F → List f.F
  weighted n [] es = []
  weighted n (c ∷ cs) [] = c ∷ cs
  weighted n (c ∷ cs) (e ∷ es) =
      f.div (f.add (f.mul c n) e) (f.add n (f.literal 1 0)) ∷ weighted n cs es

  -- `none` is the panic of the assertion on the lengths, as in `dot`.
  unfoldable pub merge_into_centroid : List f.F → List f.F → ℕ → Option (List f.F)
  unfolding l2_normalize
  merge_into_centroid centroid new_emb prev_count =
      if length centroid == length new_emb
      then some (l2_normalize f sqrt (weighted (f.of_usize prev_count) centroid new_emb))
      else none

  abbrev pub more_similar : ℕ → f.F → Option (ℕ × f.F) → Option (ℕ × f.F)
  more_similar idx sim none = some (idx, sim)
  more_similar idx sim (some (b, s)) = if f.lt s sim then some (idx, sim) else some (b, s)

  unfoldable pub best_from :
      List f.F → ℕ → List (Centroid f) → Option (ℕ × f.F) → Option (Option (ℕ × f.F))
  unfolding dot
  best_from embedding idx [] best = some best
  best_from embedding idx (c ∷ cs) best = elim (dot f sqrt c.embedding embedding) [
    | none ↦ none
    | some sim ↦ best_from embedding (suc idx) cs (more_similar idx sim best)
  ]

  unfoldable pub join_centroid : List f.F → Centroid f → Option (Centroid f)
  unfolding merge_into_centroid
  join_centroid embedding c =
      Option.map
        (λ merged. record c {
          embedding = merged;
          sample_count = min (c.sample_count + 1) (2 ^ 32 - 1);
        })
        (merge_into_centroid c.embedding embedding c.sample_count)

  -- The id of the centroid at an index, and the centroids after it is updated; `none` is a panic, on
  -- the lengths or out of range.
  unfoldable pub join_at : List f.F → ℕ → List (Centroid f) → Option (ℕ × List (Centroid f))
  unfolding join_centroid
  join_at embedding idx [] = none
  join_at embedding zero (c ∷ cs) =
      Option.map (λ joined. (c.id, joined ∷ cs)) (join_centroid embedding c)
  join_at embedding (suc idx) (c ∷ cs) = Option.map (λ r. (r.0, c ∷ r.1)) (join_at embedding idx cs)

  unfoldable pub new_speaker : List f.F → OnlineSpeakerClusterer f → ℕ × OnlineSpeakerClusterer f
  new_speaker embedding s = (
    s.next_id,
    record s {
      centroids =
          s.centroids ++ record { id = s.next_id; embedding = embedding; sample_count = 1 } ∷ [];
      next_id = s.next_id + 1;
    },
  )

  -- With the most similar centroid.
  unfoldable pub place :
      List f.F → OnlineSpeakerClusterer f → Option (ℕ × f.F) → Option (ℕ × OnlineSpeakerClusterer f)
  unfolding join_at new_speaker
  place embedding s none = some (new_speaker embedding s)
  place embedding s (some (idx, sim)) =
      if f.le s.threshold sim
      then Option.map (λ r. (r.0, record s { centroids = r.1 })) (join_at embedding idx s.centroids)
      else some (new_speaker embedding s)

  unfoldable pub assign_normalized :
      List f.F → OnlineSpeakerClusterer f → Option (ℕ × OnlineSpeakerClusterer f)
  unfolding best_from place
  assign_normalized embedding s = elim (best_from embedding 0 s.centroids none) [
    | none ↦ none
    | some best ↦ place embedding s best
  ]

  -- The id of the speaker.
  unfoldable pub assign :
      List f.F → OnlineSpeakerClusterer f → Option (ℕ × OnlineSpeakerClusterer f)
  unfolding assign_normalized l2_normalize
  assign embedding s = assign_normalized (l2_normalize f sqrt embedding) s

  unfoldable pub assign_all :
      List (List f.F) → OnlineSpeakerClusterer f → Option (List ℕ × OnlineSpeakerClusterer f)
  unfolding assign
  assign_all [] s = some ([], s)
  assign_all (e ∷ es) s = elim (assign e s) [
    | none ↦ none
    | some (id, s') ↦ Option.map (λ r. (id ∷ r.0, r.1)) (assign_all es s')
  ]

-- 1 for the first.
unfoldable pub label_for : ℕ → List ℕ
unfolding digits_within
label_for cluster_id = codes "Speaker " ++ digits_within 20 (cluster_id + 1)
