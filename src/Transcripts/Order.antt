-- ===== src/Transcripts/Order.antt =====
-- The order in which segments are written.
use Prim.Native.Nat.{compare, Ordering}
use mathlib.Core.List.{Permᴰ}
use meetily_local.Common.{
  ℕ, ◌^◌, ◌<◌, ◌≡◌, ◌≢◌, refl, ap, sym, ◌∙◌, true, false, Bool, Option, some, List, [], ◌∷◌, arith,
  ltb, Float, ◌⊎◌, inl, inr,
}
use meetily_local.Common.Sorting.{
  sort_by_unique, sort_by-IsSorted, IsSorted, Apart, AllApart, Pairwise,
}
use meetily_local.Recording.Service.{TranscriptSegment, upsert}
use meetily_local.Transcripts.{
  Platform, is_later, sort_segments_chronologically, unwrap_or, u64_max,
}

module _ {f : Float} where
  -- Segments of a live recording: each has a number of 64 bits.
  abbrev pub HasId : TranscriptSegment f → Type 0
  HasId t = (n : ℕ) × (t.sequence_id ≡ some n) × (n < 2 ^ 64)

  abbrev pub HaveIds : List (TranscriptSegment f) → Type 0
  HaveIds [] = Unit
  HaveIds (t ∷ ts) = HasId t × HaveIds ts

  abbrev pub Lacks : Option ℕ → List (TranscriptSegment f) → Type 0
  Lacks id [] = Unit
  Lacks id (t ∷ ts) = (t.sequence_id ≢ id) × Lacks id ts

  abbrev pub Distinct : List (TranscriptSegment f) → Type 0
  Distinct [] = Unit
  Distinct (t ∷ ts) = Lacks t.sequence_id ts × Distinct ts

  abbrev pub upsert_all :
      List (TranscriptSegment f) → List (TranscriptSegment f) → List (TranscriptSegment f)
  upsert_all [] held = held
  upsert_all (t ∷ ts) held = upsert_all ts (upsert f t held)

abbrev later_by : ℕ → ℕ → ℕ → ℕ → Bool
later_by r n s m = elim (compare r s) [
  | Ordering.lt ↦ false
  | Ordering.eq ↦ ltb m n
  | Ordering.gt ↦ true
]

later_by_asym : (r n s m : ℕ) → later_by r n s m ≡ true → later_by s m r n ≡ false
later_by_asym r n s m h = ground arith

later_by_trans :
    (r n s m t k : ℕ) → later_by r n s m ≡ true → later_by s m t k ≡ true → later_by r n t k ≡ true
later_by_trans r n s m t k h g = ground arith

later_by_total : (r n s m : ℕ) → n ≢ m → (later_by r n s m ≡ true) ⊎ (later_by s m r n ≡ true)
later_by_total r n s m h = ground arith

module _ {f : Float} (p : Platform f) where
  -- No time is NaN: the comparison is that of a number for each time.
  abbrev pub Ranked : Type 0
  Ranked = (rank : f.F → ℕ) × ((a b : f.F) → p.partial_cmp a b ≡ some (compare (rank a) (rank b)))

  abbrev time : TranscriptSegment f → f.F
  time t = unwrap_or p.f64_max t.audio_start_time

  abbrev number : TranscriptSegment f → ℕ
  number t = unwrap_or u64_max t.sequence_id

  module _ (ranked : Ranked) where
    abbrev rank : TranscriptSegment f → ℕ
    rank t = ranked.0 (time t)

    is_later-rank :
        (a b : TranscriptSegment f)
        → is_later p a b ≡ later_by (rank a) (number a) (rank b) (number b)
    unfolding is_later
    is_later-rank a b = rw (is_later, ranked.1 (time a) (time b)) refl

    asym : (a b : TranscriptSegment f) → is_later p a b ≡ true → is_later p b a ≡ false
    asym a b h =
        is_later-rank b a
        ∙ later_by_asym (rank a) (number a) (rank b) (number b) (sym (is_later-rank a b) ∙ h)

    trans :
        (a b c : TranscriptSegment f)
        → is_later p a b ≡ true
        → is_later p b c ≡ true
        → is_later p a c ≡ true
    trans a b c h g =
        is_later-rank a c
        ∙ later_by_trans (rank a) (number a) (rank b) (number b) (rank c) (number c)
            (sym (is_later-rank a b) ∙ h) (sym (is_later-rank b c) ∙ g)

    apart :
        (a b : TranscriptSegment f)
        → HasId a
        → HasId b
        → b.sequence_id ≢ a.sequence_id
        → Apart (is_later p) asym trans a b
    apart a b (n, e, l) (m, g, k) h =
        elim (later_by_total (rank a) n (rank b) m (λ q. h (g ∙ ap some (sym q) ∙ sym e))) [
          | inl x ↦ inl (is_later-rank a b ∙ rw (e, g) x)
          | inr x ↦ inr (is_later-rank b a ∙ rw (e, g) x)
        ]

    AllApart-Lacks :
        (a : TranscriptSegment f) (ts : List (TranscriptSegment f))
        → HasId a
        → HaveIds ts
        → Lacks a.sequence_id ts
        → AllApart (is_later p) asym trans a ts
    AllApart-Lacks a [] h hs l = tt
    AllApart-Lacks a (t ∷ ts) h hs l = (apart a t h hs.0 l.0, AllApart-Lacks a ts h hs.1 l.1)

    Pairwise-Distinct :
        (ts : List (TranscriptSegment f))
        → HaveIds ts
        → Distinct ts
        → Pairwise (is_later p) asym trans ts
    Pairwise-Distinct [] hs d = tt
    Pairwise-Distinct (t ∷ ts) hs d =
        (AllApart-Lacks t ts hs.0 hs.1 d.0, Pairwise-Distinct ts hs.1 d.1)

    -- Segments with distinct numbers come out in one order, however they are given.
    pub sort_segments_unique :
        {ts us : List (TranscriptSegment f)}
        → Permᴰ ts us
        → HaveIds ts
        → Distinct ts
        → sort_segments_chronologically p ts ≡ sort_segments_chronologically p us
    unfolding sort_segments_chronologically
    sort_segments_unique {ts} q hs d =
        sort_by_unique (is_later p) asym trans q (Pairwise-Distinct ts hs d)

    pub sort_segments-IsSorted :
        (ts : List (TranscriptSegment f))
        → IsSorted (is_later p) (sort_segments_chronologically p ts)
    unfolding sort_segments_chronologically
    sort_segments-IsSorted ts = sort_by-IsSorted (is_later p) asym ts
