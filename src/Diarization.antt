-- ===== src/Diarization.antt =====
-- meetily-core/src/speaker_diarization/refinement.rs: the names that the segments of a recording get
-- once it has stopped, from the clusters of their voices. The clusters, and what the stored profiles
-- answer to the centroid of some embeddings, are arguments; texts are lists of code points.
pub mod Dominant
pub mod Names
pub mod Clusters
pub mod Embeddings
pub mod Online
pub mod Records
mod Examples
use meetily_local.Common.{
  ℕ, zero, suc, ◌+◌, Bool, true, false, not, ◌||◌, Option, none, some, List, [], ◌∷◌, ◌++◌, ltb,
  ◌==◌, if◌then◌else◌, codes, same_text,
}
use meetily_local.Saver.{digits_within}

pub record EmbeddingRecord (E : Type 0) : Type 0 where
  pub sequence_id : ℕ
  pub embedding : E
  pub label : List ℕ
  pub voice_profile_id : Option (List ℕ)

pub record RefinedAssignment : Type 0 where
  pub sequence_id : ℕ
  pub speaker : List ℕ
  pub voice_profile_id : Option (List ℕ)
  pub changed : Bool
  pub previous_speaker : List ℕ

-- `counts.entry(id).or_insert(0)`, raised by one: the new count, and the map.
unfoldable pub raised : List ℕ → List (List ℕ × ℕ) → ℕ × List (List ℕ × ℕ)
raised id [] = (1, (id, 1) ∷ [])
raised id ((k, n) ∷ counts) =
    let (count, rest) = raised id counts in
    if same_text k id then (n + 1, (k, n + 1) ∷ counts) else (count, (k, n) ∷ rest)

module _ {E : Type 0} where
  abbrev pub exceeds : ℕ → Option (EmbeddingRecord E × ℕ) → Bool
  exceeds count none = true
  exceeds count (some (r, c)) = ltb c count

  -- The loop over the members of a cluster.
  unfoldable pub dominant :
      List (EmbeddingRecord E)
      → List (List ℕ × ℕ)
      → Option (EmbeddingRecord E × ℕ)
      → Option (EmbeddingRecord E × ℕ)
  dominant [] counts best = best
  dominant (r ∷ rs) counts best = elim r.voice_profile_id [
    | none ↦ dominant rs counts best
    | some id ↦
        let (count, counts') = raised id counts in
        dominant rs counts' (if exceeds count best then some (r, count) else best)
  ]

  abbrev pub embeddings : List (EmbeddingRecord E) → List E
  embeddings [] = []
  embeddings (r ∷ rs) = r.embedding ∷ embeddings rs

  -- `search` is the matcher, with the centroid of the embeddings before it.
  unfoldable pub cluster_identity :
      Option (List E → Option (List ℕ × List ℕ))
      → List (EmbeddingRecord E)
      → Option (List ℕ × Option (List ℕ))
  unfolding dominant
  cluster_identity matcher rs = elim (dominant rs [] none) [
    | some (r, count) ↦ some (r.label, r.voice_profile_id)
    | none ↦ elim matcher [
      | none ↦ none
      | some search ↦ elim (search (embeddings rs)) [
        | none ↦ none
        | some (name, id) ↦ some (name, some id)
      ]
    ]
  ]

  -- The records of a cluster, in the order of the history.
  unfoldable pub members : ℕ → List (EmbeddingRecord E × ℕ) → List (EmbeddingRecord E)
  members cluster [] = []
  members cluster ((r, c) ∷ rs) =
      let rest = members cluster rs in if c == cluster then r ∷ rest else rest

abbrev pub Identities : Type 0
Identities = List (ℕ × (List ℕ × Option (List ℕ)))

unfoldable pub identity_of : ℕ → Identities → Option (List ℕ × Option (List ℕ))
identity_of cluster [] = none
identity_of cluster ((c, identity) ∷ rest) =
    let other = identity_of cluster rest in if c == cluster then some identity else other

abbrev pub speaker_label : ℕ → List ℕ
speaker_label n = codes "Speaker " ++ digits_within 20 n

-- A cluster that has no identity yet gets its own, or else the next number.
abbrev pub add_identity :
    ℕ
    → Option (List ℕ × Option (List ℕ))
    → Option (List ℕ × Option (List ℕ))
    → Identities × ℕ
    → Identities × ℕ
add_identity cluster (some known) own (ids, next_label) = (ids, next_label)
add_identity cluster none (some identity) (ids, next_label) =
    (ids ++ (cluster, identity) ∷ [], next_label)
add_identity cluster none none (ids, next_label) =
    (ids ++ (cluster, (speaker_label next_label, none)) ∷ [], next_label + 1)

abbrev pub is_some : Option (List ℕ) → Bool
is_some none = false
is_some (some id) = true

module _ {E : Type 0} where
  -- The loop over the clusters, with the whole history.
  unfoldable pub identities :
      Option (List E → Option (List ℕ × List ℕ))
      → List (EmbeddingRecord E × ℕ)
      → List ℕ
      → Identities × ℕ
      → Identities × ℕ
  unfolding identity_of cluster_identity members
  identities matcher history [] s = s
  identities matcher history (cluster ∷ clusters) s = identities matcher history clusters (
      add_identity cluster (identity_of cluster s.0)
        (cluster_identity matcher (members cluster history)) s)

  -- A record that a profile is pinned to stays as it is.
  abbrev pub assigned :
      EmbeddingRecord E → Option (List ℕ) → Option (List ℕ × Option (List ℕ)) → RefinedAssignment
  assigned r (some id) identity = record {
    sequence_id = r.sequence_id;
    speaker = r.label;
    voice_profile_id = some id;
    changed = false;
    previous_speaker = r.label;
  }
  assigned r none (some (label, id)) = record {
    sequence_id = r.sequence_id;
    speaker = label;
    voice_profile_id = id;
    changed = not (same_text label r.label) || is_some id;
    previous_speaker = r.label;
  }
  -- Every cluster has an identity.
  assigned r none none = record {
    sequence_id = r.sequence_id;
    speaker = r.label;
    voice_profile_id = none;
    changed = false;
    previous_speaker = r.label;
  }

  unfoldable pub assign : Identities → List (EmbeddingRecord E × ℕ) → List RefinedAssignment
  unfolding identity_of
  assign ids [] = []
  assign ids ((r, c) ∷ rs) = assigned r r.voice_profile_id (identity_of c ids) ∷ assign ids rs

  abbrev pub clusters_of : List (EmbeddingRecord E × ℕ) → List ℕ
  clusters_of [] = []
  clusters_of ((r, c) ∷ rs) = c ∷ clusters_of rs

  -- The history, every record with the index of its cluster.
  unfoldable pub refine :
      Option (List E → Option (List ℕ × List ℕ))
      → List (EmbeddingRecord E × ℕ)
      → List RefinedAssignment
  unfolding identities assign
  refine matcher history =
      assign (identities matcher history (clusters_of history) ([], 1)).0 history
