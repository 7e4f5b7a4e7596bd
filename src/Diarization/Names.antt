-- ===== src/Diarization/Names.antt =====
-- The names that the records of a history get.
use meetily_local.Common.{
  ℕ, ◌+◌, ◌≡◌, ◌⊎◌, refl, sym, ap, false, Bool-cases, inl, inr, Option, none, some, List, [], ◌∷◌,
  ◌++◌, arith, ◌==◌,
}
use meetily_local.Diarization.{
  EmbeddingRecord, RefinedAssignment, Identities, identity_of, add_identity, speaker_label,
  cluster_identity, members, identities, assigned, assign, clusters_of, refine,
}

abbrev pub Identity : Type 0
Identity = List ℕ × Option (List ℕ)

identity_of_append :
    (c d : ℕ) (i j : Identity) (ids : Identities)
    → identity_of c ids ≡ some j
    → identity_of c (ids ++ (d, i) ∷ []) ≡ some j
unfolding identity_of
identity_of_append c d i j [] h = absurd (ground (arith, h))
identity_of_append c d i j ((e, k) ∷ ids) h = elim (Bool-cases (e == c)) [
  | inl g ↦ rw g (rw g at h)
  | inr g ↦ rw g (identity_of_append c d i j ids (rw g at h))
]

identity_of_last :
    (c : ℕ) (i : Identity) (ids : Identities)
    → identity_of c ids ≡ none
    → identity_of c (ids ++ (c, i) ∷ []) ≡ some i
unfolding identity_of
identity_of_last c i [] h = ground arith
identity_of_last c i ((e, k) ∷ ids) h = elim (Bool-cases (e == c)) [
  | inl g ↦ absurd (ground (arith, h, g))
  | inr g ↦ rw g (identity_of_last c i ids (rw g at h))
]

add_keeps :
    (c d : ℕ) (known own : Option Identity) (ids : Identities) (n : ℕ) (j : Identity)
    → identity_of c ids ≡ some j
    → identity_of c (add_identity d known own (ids, n)).0 ≡ some j
add_keeps c d (some k) own ids n j h = h
add_keeps c d none (some i) ids n j h = identity_of_append c d i j ids h
add_keeps c d none none ids n j h = identity_of_append c d (speaker_label n, none) j ids h

add_found :
    (c : ℕ) (known own : Option Identity) (ids : Identities) (n : ℕ)
    → identity_of c ids ≡ known
    → (i : Identity) × (identity_of c (add_identity c known own (ids, n)).0 ≡ some i)
add_found c (some k) own ids n h = (k, h)
add_found c none (some i) ids n h = (i, identity_of_last c i ids h)
add_found c none none ids n h =
    ((speaker_label n, none), identity_of_last c (speaker_label n, none) ids h)

module _ {E : Type 0} (matcher : Option (List E → Option (List ℕ × List ℕ)))
    (history : List (EmbeddingRecord E × ℕ)) where
  -- Names of clusters in order: a cluster's own identity, or the next number from `n` to `m` if it
  -- has none.
  abbrev pub Numbered : ℕ → Identities → ℕ → Type 0
  Numbered n [] m = n ≡ m
  Numbered n ((c, i) ∷ ids) m =
      ((cluster_identity matcher (members c history) ≡ some i) × Numbered n ids m)
      ⊎ ((cluster_identity matcher (members c history) ≡ none)
          × (i ≡ (speaker_label n, none))
          × Numbered (n + 1) ids m)

  Numbered-own :
      (n m c : ℕ) (i : Identity) (ids : Identities)
      → Numbered n ids m
      → cluster_identity matcher (members c history) ≡ some i
      → Numbered n (ids ++ (c, i) ∷ []) m
  Numbered-own n m c i [] a h = inl (h, a)
  Numbered-own n m c i ((d, j) ∷ ids) (inl (x, a)) h = inl (x, Numbered-own n m c i ids a h)
  Numbered-own n m c i ((d, j) ∷ ids) (inr (x, y, a)) h =
      inr (x, y, Numbered-own (n + 1) m c i ids a h)

  Numbered-next :
      (n m c : ℕ) (ids : Identities)
      → Numbered n ids m
      → cluster_identity matcher (members c history) ≡ none
      → Numbered n (ids ++ (c, (speaker_label m, none)) ∷ []) (m + 1)
  Numbered-next n m c [] a h = inr (h, ap (λ k. (speaker_label k, none)) (sym a), ap (λ k. k + 1) a)
  Numbered-next n m c ((d, j) ∷ ids) (inl (x, a)) h = inl (x, Numbered-next n m c ids a h)
  Numbered-next n m c ((d, j) ∷ ids) (inr (x, y, a)) h =
      inr (x, y, Numbered-next (n + 1) m c ids a h)

  Numbered-add :
      (c : ℕ) (known o : Option Identity) (ids : Identities) (m : ℕ)
      → cluster_identity matcher (members c history) ≡ o
      → Numbered 1 ids m
      → let s = add_identity c known o (ids, m) in Numbered 1 s.0 s.1
  Numbered-add c (some k) o ids m h a = a
  Numbered-add c none (some i) ids m h a = Numbered-own 1 m c i ids a h
  Numbered-add c none none ids m h a = Numbered-next 1 m c ids a h

  identities-Numbered :
      (cs : List ℕ) (s : Identities × ℕ)
      → Numbered 1 s.0 s.1
      → let s' = identities matcher history cs s in Numbered 1 s'.0 s'.1
  unfolding identities
  identities-Numbered [] s a = a
  identities-Numbered (c ∷ cs) s a =
      let o = cluster_identity matcher (members c history) in
      identities-Numbered cs (add_identity c (identity_of c s.0) o s)
        (Numbered-add c (identity_of c s.0) o s.0 s.1 refl a)

  identities_keeps :
      (cs : List ℕ) (s : Identities × ℕ) (c : ℕ) (i : Identity)
      → identity_of c s.0 ≡ some i
      → identity_of c (identities matcher history cs s).0 ≡ some i
  unfolding identities
  identities_keeps [] s c i h = h
  identities_keeps (d ∷ cs) s c i h =
      let o = cluster_identity matcher (members d history) in
      identities_keeps cs (add_identity d (identity_of d s.0) o s) c i
        (add_keeps c d (identity_of d s.0) o s.0 s.1 i h)

  Found : Identities → List ℕ → Type 0
  Found ids [] = Unit
  Found ids (c ∷ cs) = ((i : Identity) × (identity_of c ids ≡ some i)) × Found ids cs

  identities-Found :
      (cs : List ℕ) (s : Identities × ℕ) → Found (identities matcher history cs s).0 cs
  unfolding identities Found
  identities-Found [] s = tt
  identities-Found (c ∷ cs) s =
      let o = cluster_identity matcher (members c history) in
      let s' = add_identity c (identity_of c s.0) o s in
      let (i, h) = add_found c (identity_of c s.0) o s.0 s.1 refl in
      ((i, identities_keeps cs s' c i h), identities-Found cs s')

  -- One assignment for a record of the cluster `c`: a pinned record keeps its label and its profile;
  -- another gets the name of its cluster.
  abbrev pub Row : Identities → EmbeddingRecord E → ℕ → Option (List ℕ) → RefinedAssignment → Type 0
  Row ids r c (some id) a =
      (a.speaker ≡ r.label) × (a.voice_profile_id ≡ some id) × (a.changed ≡ false)
  Row ids r c none a = identity_of c ids ≡ some (a.speaker, a.voice_profile_id)

  abbrev pub Named : Identities → List (EmbeddingRecord E × ℕ) → List RefinedAssignment → Type 0
  Named ids [] [] = Unit
  Named ids [] (a ∷ bs) = ⊥
  Named ids ((r, c) ∷ rs) [] = ⊥
  Named ids ((r, c) ∷ rs) (a ∷ bs) =
      (a.sequence_id ≡ r.sequence_id)
      × (a.previous_speaker ≡ r.label)
      × Row ids r c r.voice_profile_id a
      × Named ids rs bs

  assigned-Row :
      (ids : Identities) (r : EmbeddingRecord E) (c : ℕ) (p : Option (List ℕ)) (i : Identity)
      → identity_of c ids ≡ some i
      → ((assigned r p (identity_of c ids)).sequence_id ≡ r.sequence_id)
        × ((assigned r p (identity_of c ids)).previous_speaker ≡ r.label)
        × Row ids r c p (assigned r p (identity_of c ids))
  assigned-Row ids r c (some id) i h = (refl, refl, (refl, refl, refl))
  assigned-Row ids r c none i h = rw h (refl, refl, refl)

  assign-Named :
      (ids : Identities) (rs : List (EmbeddingRecord E × ℕ))
      → Found ids (clusters_of rs)
      → Named ids rs (assign ids rs)
  unfolding assign Found
  assign-Named ids [] h = tt
  assign-Named ids ((r, c) ∷ rs) h =
      let (x, y, z) = assigned-Row ids r c r.voice_profile_id h.0.0 h.0.1 in
      (x, y, z, assign-Named ids rs h.1)

  -- The refinement gives every record of the history one assignment, in order: a record that a stored
  -- profile is pinned to keeps its label and its profile; the others get the name of their cluster,
  -- which is the cluster's own identity, or "Speaker" with the next number from 1 on and no profile
  -- if the cluster has none.
  pub refine-Named :
      (ids : Identities) × (m : ℕ) × Numbered 1 ids m × Named ids history (refine matcher history)
  unfolding refine
  refine-Named =
      let (ids, m) = identities matcher history (clusters_of history) ([], 1) in
      (
        ids,
        m,
        identities-Numbered (clusters_of history) ([], 1) refl,
        assign-Named ids history (identities-Found (clusters_of history) ([], 1)),
      )
