-- ===== src/Diarization/Examples.antt =====
-- The theorems of the refinement of speakers at a concrete history, and tests.
use mathlib.Core.Option
use meetily_local.Common.{
  ℕ, ◌≤◌, ◌≡◌, refl, Option, none, some, List, [], ◌∷◌, map, codes, String, ◌+◌, ◌%◌, ◌==◌,
  if◌then◌else◌, milliseconds, length, Float, max, ◌-◌, leb, ltb, arith, true, false,
}
use meetily_local.Saver.{digits_within}
use meetily_local.Diarization.{
  EmbeddingRecord, RefinedAssignment, Identities, raised, dominant, cluster_identity, members,
  identity_of, identities, assign, refine,
}
use meetily_local.Diarization.Dominant.{count_of, dominant_greatest}
use meetily_local.Diarization.Clusters.{
  Clustering, agglomerative_cluster, closest_from, merge_loop, singletons,
}
use meetily_local.Diarization.Clusters.Numbers.{IsNumbered, agglomerative_cluster-IsNumbered}
use meetily_local.Diarization.Clusters.Nearest.{IsExact}
use meetily_local.Diarization.Clusters.Left.{Ends, merge_loop-Ends}
use meetily_local.Diarization.Clusters.Cut.{merge_loop_apart}
use meetily_local.Diarization.Online.{OnlineSpeakerClusterer, fresh, assign_all}
use meetily_local.Diarization.Online.Labels.{InOrder, assign_all-InOrder}
use meetily_local.Diarization.Records.{nth, cluster_of, refine_records, refine_records-together}
use meetily_local.Diarization.Names.{Numbered, Named, refine-Named}

abbrev heard : ℕ → String → Option (List ℕ) → EmbeddingRecord ℕ
heard n label id = record {
  sequence_id = n;
  embedding = n;
  label = codes label;
  voice_profile_id = id;
}

-- Two voices that nobody knows, and one that a profile is pinned to.
abbrev history : List (EmbeddingRecord ℕ × ℕ)
history =
    (heard 0 "Speaker 3" none, 2)
    ∷ (heard 1 "John" (some (codes "p1")), 0)
    ∷ (heard 2 "Speaker 1" none, 0)
    ∷ (heard 3 "Speaker 3" none, 1)
    ∷ (heard 4 "Speaker 4" none, 2)
    ∷ []

refine-Named_example :
    (ids : Identities) × (m : ℕ) × Numbered none history 1 ids m
    × Named none history ids history (refine none history)
refine-Named_example = refine-Named none history

names :
    map (λ (a : RefinedAssignment). a.speaker) (refine none history)
    ≡ codes "Speaker 1" ∷ codes "John" ∷ codes "John" ∷ codes "Speaker 2" ∷ codes "Speaker 1" ∷ []
unfolding refine identities assign identity_of cluster_identity members dominant raised
    digits_within
names = refl

abbrev pinned : List (EmbeddingRecord ℕ)
pinned =
    heard 0 "Ann" (some (codes "p2"))
    ∷ heard 1 "John" (some (codes "p1"))
    ∷ heard 2 "Speaker 1" none
    ∷ heard 3 "John" (some (codes "p1"))
    ∷ []

john : dominant pinned [] none ≡ some (heard 3 "John" (some (codes "p1")), 2)
unfolding dominant raised
john = refl

dominant_greatest_example :
    (id : List ℕ) × (some (codes "p1") ≡ some id)
    × (2 ≡ count_of id pinned)
    × (count_of (codes "p2") pinned ≤ 2)
dominant_greatest_example =
    dominant_greatest pinned (heard 3 "John" (some (codes "p1"))) 2 (codes "p2") john

-- Four voices in two groups, in thousandths.
abbrev apart : ℕ → ℕ → ℕ
apart i j = if i % 2 == j % 2 then 100 + i else 900

two_groups : agglomerative_cluster milliseconds 4 apart 500 ≡ 0 ∷ 1 ∷ 0 ∷ 1 ∷ []
unfolding agglomerative_cluster
two_groups = refl

merge_loop-Ends_example :
    let end = merge_loop milliseconds 4 4 500 (singletons milliseconds 4 apart) in
    Ends milliseconds 4 500 end (closest_from milliseconds end 4 0 none)
merge_loop-Ends_example = merge_loop-Ends milliseconds apart 500 4

agglomerative_cluster-IsNumbered_example :
    let out = agglomerative_cluster milliseconds 4 apart 500 in
    let end = merge_loop milliseconds 4 4 500 (singletons milliseconds 4 apart) in
    (length out ≡ 4) × IsNumbered milliseconds apart 500 4 end out 4
agglomerative_cluster-IsNumbered_example = agglomerative_cluster-IsNumbered milliseconds apart 500 4

-- Averages that are exact: the greater of the two.
abbrev greater : Float
greater = record {
  F = ℕ;
  literal = λ n k. n;
  of_usize = λ n. n;
  as_secs_f64 = λ n. n;
  add = max;
  sub = λ a b. a - b;
  mul = λ a b. b;
  div = λ a b. a;
  le = leb;
  lt = ltb;
}

greater-IsExact : IsExact greater
greater-IsExact = record {
  IsSize = λ a. Unit;
  one = tt;
  sum = λ a b h g. tt;
  asym = λ a b h. ground (arith, h);
  trans = λ a b c h g. ground (arith, h, g);
  le_lt = λ a b h. ground (arith, h);
  average = λ s t a b d h g p q. ground (arith, p, q);
}

abbrev four_merged : Clustering greater
four_merged = merge_loop greater 4 4 500 (singletons greater 4 apart)

four_active : (four_merged.active 0 ≡ true) × (four_merged.active 1 ≡ true)
unfolding merge_loop singletons
four_active = (refl, refl)

merge_loop_apart_example : ltb (four_merged.dist 0 1) 500 ≡ false
merge_loop_apart_example =
    merge_loop_apart greater greater-IsExact apart 500 4 0 1 four_active.0 four_active.1
      (omega arith) (omega arith) (λ e. omega (arith, e))

-- Two voices, with a square root that is 1.
abbrev voices : List (List ℕ)
voices = (1000 ∷ 0 ∷ []) ∷ (0 ∷ 1000 ∷ []) ∷ (900 ∷ 100 ∷ []) ∷ []

voices_heard :
    Option.map
      (λ r. r.0)
      (assign_all milliseconds (λ a. 1000) voices (fresh milliseconds (λ a. 1000) 500))
    ≡ some (0 ∷ 1 ∷ 0 ∷ [])
unfolding assign_all fresh
voices_heard = refl

assign_all-InOrder_example :
    (ids : List ℕ) × (end : OnlineSpeakerClusterer milliseconds) × (assign_all milliseconds
        (λ a. 1000)
        voices
        (fresh milliseconds (λ a. 1000) 500)
      ≡ some (ids, end))
    × (length ids ≡ 3)
    × InOrder milliseconds (λ a. 1000) 0 ids (length end.centroids)
assign_all-InOrder_example =
    assign_all-InOrder milliseconds (λ a. 1000) 2 voices 500 (refl, (refl, (refl, tt)))

abbrev spoken : ℕ → List ℕ → EmbeddingRecord (List ℕ)
spoken n voice = record {
  sequence_id = n;
  embedding = voice;
  label = codes "Speaker 7";
  voice_profile_id = none;
}

abbrev recorded : List (EmbeddingRecord (List ℕ))
recorded = spoken 0 (1000 ∷ 0 ∷ []) ∷ spoken 1 (0 ∷ 1000 ∷ []) ∷ spoken 2 (900 ∷ 100 ∷ []) ∷ []

recorded_clusters : cluster_of milliseconds (λ a. 1000) recorded 500 ≡ some (0 ∷ 1 ∷ 0 ∷ [])
unfolding cluster_of
recorded_clusters = refl

refine_records-together_example :
    (out : List RefinedAssignment) × (a : RefinedAssignment) × (b : RefinedAssignment)
    × (refine_records milliseconds (λ a. 1000) none recorded 500 ≡ some out)
    × (nth out 0 ≡ some a)
    × (nth out 2 ≡ some b)
    × (a.speaker ≡ b.speaker)
    × (a.voice_profile_id ≡ b.voice_profile_id)
refine_records-together_example =
    refine_records-together milliseconds (λ a. 1000) none recorded 500 (0 ∷ 1 ∷ 0 ∷ []) 0 2 0
      (spoken 0 (1000 ∷ 0 ∷ [])) (spoken 2 (900 ∷ 100 ∷ [])) recorded_clusters refl refl refl refl
      refl refl
