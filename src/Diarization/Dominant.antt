-- ===== src/Diarization/Dominant.antt =====
-- The profile that a cluster takes its name from.
use mathlib.Core.Bool.{false≢true}
use meetily_local.Common.{
  ℕ, ◌+◌, ◌≤◌, ◌≡◌, refl, sym, ap, ◌∙◌, subst, Bool, true, false, Bool-cases, inl, inr, Option,
  none, some, List, [], ◌∷◌, arith, ltb, if◌then◌else◌, same_text, same_text_refl, same_text_sound,
}
use meetily_local.Diarization.{EmbeddingRecord, raised, dominant, exceeds}

abbrev lookup : List ℕ → List (List ℕ × ℕ) → ℕ
lookup id [] = 0
lookup id ((k, n) ∷ counts) = if same_text k id then n else lookup id counts

raised-lookup :
    (id : List ℕ) (counts : List (List ℕ × ℕ)) → (raised id counts).0 ≡ lookup id counts + 1
unfolding raised
raised-lookup id [] = refl
raised-lookup id ((k, n) ∷ counts) = ground (arith, raised-lookup id counts)

apart : (id k k' : List ℕ) → same_text k' id ≡ false → k' ≡ k → same_text id k ≡ false
apart id k k' h e = elim (Bool-cases (same_text id k)) [
  | inl g ↦
      absurd (
        false≢true (sym h ∙ ap (same_text k') (same_text_sound id k g ∙ sym e) ∙ same_text_refl k'))
  | inr g ↦ g
]

bump : (b : Bool) (n l : ℕ) → (if b then n + 1 else l) ≡ (if b then n else l) + (if b then 1 else 0)
bump true n l = refl
bump false n l = omega arith

lookup-raised :
    (id k : List ℕ) (counts : List (List ℕ × ℕ))
    → lookup k (raised id counts).1 ≡ lookup k counts + (if same_text id k then 1 else 0)
unfolding raised
lookup-raised id k [] = ground arith
lookup-raised id k ((k', n) ∷ counts) = elim (Bool-cases (same_text k' id)) [
  | inl e ↦ rw (e, same_text_sound k' id e) (bump (same_text id k) n (lookup k counts))
  | inr e ↦ elim (Bool-cases (same_text k' k)) [
    | inl g ↦ rw (e, g, apart id k k' e (same_text_sound k' k g)) (omega arith)
    | inr g ↦ rw (e, g) (lookup-raised id k counts)
  ]
]

raised_own :
    (id : List ℕ) (counts : List (List ℕ × ℕ))
    → (raised id counts).0 ≡ lookup id (raised id counts).1
raised_own id counts =
    let kept = lookup-raised id id counts in
    raised-lookup id counts ∙ sym (rw (same_text_refl id) at kept)

-- A bound of the old counts and of the new one bounds the new counts.
raised_bound :
    (id k : List ℕ) (counts : List (List ℕ × ℕ)) (c : ℕ)
    → lookup k counts ≤ c
    → (raised id counts).0 ≤ c
    → lookup k (raised id counts).1 ≤ c
raised_bound id k counts c h b = elim (Bool-cases (same_text id k)) [
  | inl g ↦
      let own = raised_own id counts in
      let same = ap (λ j. lookup j (raised id counts).1) (same_text_sound id k g) in
      omega (arith, own, same, b)
  | inr g ↦ let kept = lookup-raised id k counts in omega (arith, rw g at kept, h)
]

module _ {E : Type 0} where
  -- How many of the records the profile is pinned to.
  abbrev pub count_of : List ℕ → List (EmbeddingRecord E) → ℕ
  count_of k [] = 0
  count_of k (r ∷ rs) = elim r.voice_profile_id [
    | none ↦ count_of k rs
    | some id ↦ (if same_text id k then 1 else 0) + count_of k rs
  ]

  -- The best record is pinned to a profile that is counted as often as any.
  Inv : List (List ℕ × ℕ) → Option (EmbeddingRecord E × ℕ) → Type 0
  Inv counts none = (k : List ℕ) → lookup k counts ≡ 0
  Inv counts (some (r, c)) =
      (id : List ℕ) × (r.voice_profile_id ≡ some id)
      × (c ≡ lookup id counts)
      × ((k : List ℕ) → lookup k counts ≤ c)

  Inv-raised :
      (counts : List (List ℕ × ℕ)) (best : Option (EmbeddingRecord E × ℕ)) (r : EmbeddingRecord E)
      (id : List ℕ)
      → r.voice_profile_id ≡ some id
      → Inv counts best
      → Inv
          (raised id counts).1
          (if exceeds (raised id counts).0 best then some (r, (raised id counts).0) else best)
  unfolding Inv
  Inv-raised counts none r id p h = (
    id,
    p,
    raised_own id counts,
    λ k. raised_bound id k counts (raised id counts).0 (omega (arith, h k)) (omega arith),
  )
  Inv-raised counts (some (s, c)) r id p (j, q, e, b) =
      elim (Bool-cases (ltb c (raised id counts).0)) [
        | inl g ↦ rw g (
          id,
          p,
          raised_own id counts,
          λ k. raised_bound id k counts (raised id counts).0 (ground (arith, b k, g)) (omega arith),
        )
        | inr g ↦ rw g (
          j,
          q,
          elim (Bool-cases (same_text id j)) [
            | inl t ↦
                let same = ap (λ i. lookup i counts) (same_text_sound id j t) in
                absurd (ground (arith, same, raised-lookup id counts, e, g))
            | inr t ↦ let kept = lookup-raised id j counts in omega (arith, rw t at kept, e)
          ],
          λ k. raised_bound id k counts c (b k) (ground (arith, g)),
        )
      ]

  dominant_from :
      (rs : List (EmbeddingRecord E)) (counts : List (List ℕ × ℕ))
      (best : Option (EmbeddingRecord E × ℕ)) (r : EmbeddingRecord E) (c : ℕ)
      → Inv counts best
      → dominant rs counts best ≡ some (r, c)
      → (id : List ℕ) × (r.voice_profile_id ≡ some id)
        × (c ≡ lookup id counts + count_of id rs)
        × ((k : List ℕ) → lookup k counts + count_of k rs ≤ c)
  unfolding dominant Inv
  dominant_from [] counts best r c h e =
      let (id, p, x, b) = subst (Inv counts) e h in
      (id, p, omega (arith, x), λ k. omega (arith, b k))
  dominant_from (s ∷ rs) counts best r c h e =
      go (λ counts' best'. dominant_from rs counts' best' r c) s.voice_profile_id refl
    where
      go :
          ((counts' : List (List ℕ × ℕ)) (best' : Option (EmbeddingRecord E × ℕ))
            → Inv counts' best'
            → dominant rs counts' best' ≡ some (r, c)
            → (id : List ℕ) × (r.voice_profile_id ≡ some id)
              × (c ≡ lookup id counts' + count_of id rs)
              × ((k : List ℕ) → lookup k counts' + count_of k rs ≤ c))
          → (o : Option (List ℕ)) → s.voice_profile_id ≡ o
          → (id : List ℕ) × (r.voice_profile_id ≡ some id)
            × (c ≡ lookup id counts + count_of id (s ∷ rs))
            × ((k : List ℕ) → lookup k counts + count_of k (s ∷ rs) ≤ c)
      go rest none q = rw q (rest counts best h (rw q at e))
      go rest (some i) q =
          let (id, p, x, b) =
            rest (raised i counts).1
              (if exceeds (raised i counts).0 best then some (s, (raised i counts).0) else best)
              (Inv-raised counts best s i q h) (rw q at e) in
          rw q (
            id,
            p,
            omega (arith, x, lookup-raised i id counts),
            λ k. omega (arith, b k, lookup-raised i k counts),
          )

  -- The record that a cluster takes its name from is pinned to a profile, its count is the number of
  -- members that this profile is pinned to, and no profile is pinned to more members.
  pub dominant_greatest :
      (rs : List (EmbeddingRecord E)) (r : EmbeddingRecord E) (c : ℕ) (k : List ℕ)
      → dominant rs [] none ≡ some (r, c)
      → (id : List ℕ) × (r.voice_profile_id ≡ some id) × (c ≡ count_of id rs) × (count_of k rs ≤ c)
  unfolding Inv
  dominant_greatest rs r c k e =
      let (id, p, x, b) = dominant_from rs [] none r c (λ j. refl) e in
      (id, p, omega (arith, x), omega (arith, b k))
