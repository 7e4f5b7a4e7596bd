-- ===== src/Diarization/Online/Labels.antt =====
-- The ids that the speakers of a recording get.
use mathlib.Core.Option
use meetily_local.Common.{
  ℕ, zero, suc, ◌+◌, ◌<◌, ◌≡◌, ◌⊎◌, refl, sym, ap, ◌∙◌, subst, Option, none, some, List, [], ◌∷◌,
  ◌++◌, map, length, length-append, arith, Float, Bool-cases, inl, inr, ◌==◌, true,
}
use meetily_local.Diarization.Embeddings.{sum_from, products, dot, l2_normalize}
use meetily_local.Diarization.Online.{
  Centroid, OnlineSpeakerClusterer, fresh, more_similar, best_from, join_at, new_speaker,
  assign_normalized, assign, assign_all, join_centroid, merge_into_centroid, weighted, place,
}

module _ (f : Float) (sqrt : f.F → f.F) where
  length-map : (g : f.F → f.F) (v : List f.F) → length (map g v) ≡ length v
  length-map g [] = refl
  length-map g (a ∷ v) = ap suc (length-map g v)

  pub length-l2_normalize : (v : List f.F) → length (l2_normalize f sqrt v) ≡ length v
  unfolding l2_normalize
  length-l2_normalize v =
      let norm = sqrt (sum_from f sqrt (f.literal 0 0) (products f sqrt v v)) in
      let inv = f.div (f.literal 1 0) norm in
      elim (Bool-cases (f.lt (f.literal 1 8) norm)) [
        | inl e ↦ rw e (length-map (λ a. f.mul a inv) v)
        | inr e ↦ rw e refl
      ]

  length-weighted : (n : f.F) (cs es : List f.F) → length (weighted f sqrt n cs es) ≡ length cs
  length-weighted n [] es = refl
  length-weighted n (c ∷ cs) [] = refl
  length-weighted n (c ∷ cs) (e ∷ es) = ap suc (length-weighted n cs es)

  same_length : (m n : ℕ) → m ≡ n → (m == n) ≡ true
  same_length m n e = ground (arith, e)

  dot-same :
      (a b : List f.F)
      → length a ≡ length b
      → (similarity : f.F) × (dot f sqrt a b ≡ some similarity)
  unfolding dot
  dot-same a b e = rw (same_length (length a) (length b) e) (_, refl)

  join_centroid-same :
      (embedding : List f.F) (c : Centroid f)
      → length c.embedding ≡ length embedding
      → (c' : Centroid f) × (join_centroid f sqrt embedding c ≡ some c')
        × (c'.id ≡ c.id)
        × (length c'.embedding ≡ length c.embedding)
  unfolding join_centroid merge_into_centroid
  join_centroid-same embedding c e =
      let merged = weighted f sqrt (f.of_usize c.sample_count) c.embedding embedding in
      rw (same_length (length c.embedding) (length embedding) e) (
        _,
        refl,
        refl,
        length-l2_normalize merged
            ∙ length-weighted (f.of_usize c.sample_count) c.embedding embedding,
      )

  -- The centroids' ids are the numbers from `k` on, and their embeddings have `d` components.
  abbrev Numbered : ℕ → ℕ → List (Centroid f) → Type 0
  Numbered d k [] = Unit
  Numbered d k (c ∷ cs) = (c.id ≡ k) × (length c.embedding ≡ d) × Numbered d (suc k) cs

  Numbered-append :
      (d k : ℕ) (cs : List (Centroid f)) (c : Centroid f)
      → Numbered d k cs
      → length c.embedding ≡ d
      → c.id ≡ k + length cs
      → Numbered d k (cs ++ c ∷ [])
  Numbered-append d k [] c h l e = (omega (arith, e), l, tt)
  Numbered-append d k (b ∷ cs) c h l e =
      (h.0, h.1, Numbered-append d (suc k) cs c h.2 l (omega (arith, e)))

  abbrev Indexed : ℕ → Option (ℕ × f.F) → Type 0
  Indexed n none = Unit
  Indexed n (some (idx, sim)) = idx < n

  more_similar-Indexed :
      (n idx : ℕ) (sim : f.F) (best : Option (ℕ × f.F))
      → idx < n
      → Indexed n best
      → Indexed n (more_similar f sqrt idx sim best)
  more_similar-Indexed n idx sim none l h = l
  more_similar-Indexed n idx sim (some (b, s)) l h = elim (Bool-cases (f.lt s sim)) [
    | inl e ↦ rw e l
    | inr e ↦ rw e h
  ]

  best_from-Indexed :
      (embedding : List f.F) (n k idx : ℕ) (cs : List (Centroid f)) (best : Option (ℕ × f.F))
      → idx + length cs ≡ n
      → Numbered (length embedding) k cs
      → Indexed n best
      → (found : Option (ℕ × f.F)) × (best_from f sqrt embedding idx cs best ≡ some found)
        × Indexed n found
  unfolding best_from
  best_from-Indexed embedding n k idx [] best e v h = (best, refl, h)
  best_from-Indexed embedding n k idx (c ∷ cs) best e v h =
      let (sim, q) = dot-same c.embedding embedding v.1 in
      rw (best_from, q)
        (best_from-Indexed embedding n (suc k) (suc idx) cs (more_similar f sqrt idx sim best)
          (omega (arith, e)) v.2 (more_similar-Indexed n idx sim best (omega (arith, e)) h))

  join_at-Numbered :
      (embedding : List f.F) (k idx : ℕ) (cs : List (Centroid f))
      → idx < length cs
      → Numbered (length embedding) k cs
      → (cs' : List (Centroid f)) × (join_at f sqrt embedding idx cs ≡ some (k + idx, cs'))
        × Numbered (length embedding) k cs'
        × (length cs' ≡ length cs)
  unfolding join_at
  join_at-Numbered embedding k idx [] l h = absurd (omega (arith, l))
  join_at-Numbered embedding k zero (c ∷ cs) l h =
      let (c', e, g, m) = join_centroid-same embedding c h.1 in
      (
        c' ∷ cs,
        rw e (ap (λ i. some (i, c' ∷ cs)) (h.0 ∙ omega arith)),
        (g ∙ h.0, m ∙ h.1, h.2),
        refl,
      )
  join_at-Numbered embedding k (suc idx) (c ∷ cs) l h =
      let (cs', e, g, m) = join_at-Numbered embedding (suc k) idx cs (omega (arith, l)) h.2 in
      (c ∷ cs', rw e (ap (λ i. some (i, c ∷ cs')) (omega arith)), (h.0, h.1, g), ap suc m)

  abbrev WellNumbered : ℕ → OnlineSpeakerClusterer f → Type 0
  WellNumbered d s = Numbered d 0 s.centroids × (s.next_id ≡ length s.centroids)

  -- The id of a known speaker, or the next one.
  abbrev Follows : ℕ → ℕ → ℕ → Type 0
  Follows n id m = ((id < n) × (m ≡ n)) ⊎ ((id ≡ n) × (m ≡ n + 1))

  Assigned : ℕ → OnlineSpeakerClusterer f → Option (ℕ × OnlineSpeakerClusterer f) → Type 0
  Assigned d s none = ⊥
  Assigned d s (some (id, s')) = WellNumbered d s' × Follows s.next_id id s'.next_id

  new_speaker-Assigned :
      (embedding : List f.F) (s : OnlineSpeakerClusterer f)
      → WellNumbered (length embedding) s
      → Assigned (length embedding) s (some (new_speaker f sqrt embedding s))
  unfolding new_speaker Assigned
  new_speaker-Assigned embedding s h =
      let c : Centroid f = record { id = s.next_id; embedding = embedding; sample_count = 1 } in
      (
        (
          Numbered-append (length embedding) 0 s.centroids c h.0 refl (h.1 ∙ omega arith),
          ap (λ n. n + 1) h.1 ∙ sym (length-append s.centroids (c ∷ [])),
        ),
        inr (refl, refl),
      )

  place-Assigned :
      (embedding : List f.F) (s : OnlineSpeakerClusterer f) (best : Option (ℕ × f.F))
      → WellNumbered (length embedding) s
      → Indexed (length s.centroids) best
      → Assigned (length embedding) s (place f sqrt embedding s best)
  unfolding place Assigned
  place-Assigned embedding s none h l = new_speaker-Assigned embedding s h
  place-Assigned embedding s (some (idx, sim)) h l = elim (Bool-cases (f.le s.threshold sim)) [
    | inl t ↦
        let (cs', e, g, m) = join_at-Numbered embedding 0 idx s.centroids l h.0 in
        rw (t, e) ((g, h.1 ∙ sym m), inl (omega (arith, l, h.1), refl))
    | inr t ↦ rw t (new_speaker-Assigned embedding s h)
  ]

  assign_normalized-Assigned :
      (embedding : List f.F) (s : OnlineSpeakerClusterer f)
      → WellNumbered (length embedding) s
      → Assigned (length embedding) s (assign_normalized f sqrt embedding s)
  unfolding assign_normalized
  assign_normalized-Assigned embedding s h =
      let (best, e, l) =
        best_from-Indexed embedding (length s.centroids) 0 0 s.centroids none (omega arith) h.0
          tt in
      rw (assign_normalized, e) (place-Assigned embedding s best h l)

  assign-Assigned :
      (d : ℕ) (embedding : List f.F) (s : OnlineSpeakerClusterer f)
      → length embedding ≡ d
      → WellNumbered d s
      → Assigned d s (assign f sqrt embedding s)
  unfolding assign
  assign-Assigned d embedding s e h =
      let v = l2_normalize f sqrt embedding in
      let same : length v ≡ d = length-l2_normalize embedding ∙ e in
      subst (λ n. Assigned n s (assign_normalized f sqrt v s)) same
        (assign_normalized-Assigned v s (subst (λ n. WellNumbered n s) (sym same) h))

  -- Embeddings with `d` components.
  abbrev pub HaveLength : ℕ → List (List f.F) → Type 0
  HaveLength d [] = Unit
  HaveLength d (e ∷ es) = (length e ≡ d) × HaveLength d es

  -- Ids that are known or the next ones, from `n` speakers to `m`.
  abbrev pub InOrder : ℕ → List ℕ → ℕ → Type 0
  InOrder n [] m = n ≡ m
  InOrder n (id ∷ ids) m = ((id < n) × InOrder n ids m) ⊎ ((id ≡ n) × InOrder (n + 1) ids m)

  in_order :
      (n id n' m : ℕ) (ids : List ℕ) → Follows n id n' → InOrder n' ids m → InOrder n (id ∷ ids) m
  in_order n id n' m ids (inl (l, e)) h = inl (l, subst (λ k. InOrder k ids m) e h)
  in_order n id n' m ids (inr (g, e)) h = inr (g, subst (λ k. InOrder k ids m) e h)

  abbrev AllAssigned :
      List (List f.F)
      → OnlineSpeakerClusterer f
      → Option (List ℕ × OnlineSpeakerClusterer f)
      → Type 0
  AllAssigned es s none = ⊥
  AllAssigned es s (some (ids, s')) =
      (length ids ≡ length es) × InOrder s.next_id ids (length s'.centroids)

  assign_all-AllAssigned :
      (d : ℕ) (es : List (List f.F)) (s : OnlineSpeakerClusterer f)
      → HaveLength d es
      → WellNumbered d s
      → AllAssigned es s (assign_all f sqrt es s)
  unfolding assign_all Assigned
  assign_all-AllAssigned d [] s l h = (refl, h.1)
  assign_all-AllAssigned d (e ∷ es) s l h =
      go (assign f sqrt e s) refl (assign-Assigned d e s l.0 h)
        (λ s'. assign_all-AllAssigned d es s' l.1)
    where
      rest :
          (id : ℕ) (s' : OnlineSpeakerClusterer f) (o : Option (List ℕ × OnlineSpeakerClusterer f))
          → Follows s.next_id id s'.next_id
          → AllAssigned es s' o
          → AllAssigned (e ∷ es) s (Option.map (λ r. (id ∷ r.0, r.1)) o)
      rest id s' none g a = a
      rest id s' (some (ids, end)) g a =
          (ap suc a.0, in_order s.next_id id s'.next_id (length end.centroids) ids g a.1)

      go :
          (o : Option (ℕ × OnlineSpeakerClusterer f))
          → assign f sqrt e s ≡ o
          → Assigned d s o
          → ((s' : OnlineSpeakerClusterer f)
              → WellNumbered d s'
              → AllAssigned es s' (assign_all f sqrt es s'))
          → AllAssigned (e ∷ es) s (assign_all f sqrt (e ∷ es) s)
      go none q a next = absurd a
      go (some (id, s')) q a next =
          rw (assign_all, q) (rest id s' (assign_all f sqrt es s') a.1 (next s' a.0))

  -- From a fresh clusterer, for embeddings that all have the same number of components and any
  -- arithmetic, even if NaN occurs: no assertion on the lengths fails, so that the clusterer does not
  -- panic, and it gives an id to each embedding; the first is 0, each is one that was given before or the
  -- next number, and there is one centroid for each id.
  pub assign_all-InOrder :
      (d : ℕ) (es : List (List f.F)) (threshold : f.F)
      → HaveLength d es
      → (ids : List ℕ) × (end : OnlineSpeakerClusterer f) × (assign_all f sqrt es
            (fresh f sqrt threshold)
          ≡ some (ids, end))
        × (length ids ≡ length es)
        × InOrder 0 ids (length end.centroids)
  unfolding fresh
  assign_all-InOrder d es threshold l =
      let s = fresh f sqrt threshold in
      go (assign_all f sqrt es s) refl (assign_all-AllAssigned d es s l (tt, refl))
    where
      go :
          (o : Option (List ℕ × OnlineSpeakerClusterer f))
          → assign_all f sqrt es (fresh f sqrt threshold) ≡ o
          → AllAssigned es (fresh f sqrt threshold) o
          → (ids : List ℕ) × (end : OnlineSpeakerClusterer f) × (assign_all f sqrt es
                (fresh f sqrt threshold)
              ≡ some (ids, end))
            × (length ids ≡ length es)
            × InOrder 0 ids (length end.centroids)
      go none e a = absurd a
      go (some (ids, end)) e a = (ids, end, e, a.0, a.1)
