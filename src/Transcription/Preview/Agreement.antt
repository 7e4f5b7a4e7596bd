-- ===== src/Transcription/Preview/Agreement.antt =====
-- LocalAgreement: what the preview commits to, and when it is taken back.
use text.Mathlib.TextEquality.{eq_iff}
use meetily_local.Common.{
  ℕ, ◌-◌, ◌≤◌, ◌<◌, min, max, ◌≡◌, refl, ◌≢◌, ◌⊎◌, inl, inr, String, List, [], ◌∷◌, ◌++◌, arith,
  length, take, take-append-drop, length-take, length-drop, leb, take-take, Bool-cases,
}
use meetily_local.Transcription.Preview.{sliding_window, common_prefix_len, SourceState, agree}

common_prefix_len-le : (a b : List String) → common_prefix_len a b ≤ length b
unfolding common_prefix_len
common_prefix_len-le [] b = omega arith
common_prefix_len-le (x ∷ a) [] = omega arith
common_prefix_len-le (x ∷ a) (y ∷ b) = ground (arith, common_prefix_len-le a b)

take-common_prefix_len :
    (a b : List String) → take (common_prefix_len a b) a ≡ take (common_prefix_len a b) b
unfolding common_prefix_len
take-common_prefix_len [] b = refl
take-common_prefix_len (x ∷ a) [] = refl
take-common_prefix_len (x ∷ a) (y ∷ b) = ground (arith, take-common_prefix_len a b, eq_iff x y)

-- The hypotheses of one utterance, oldest first.
unfoldable pub agree_all : List (List String) → SourceState → SourceState
agree_all [] s = s
agree_all (h ∷ hs) s = agree_all hs (agree h s)

-- The longest prefix that two hypotheses in a row share; `p` is the hypothesis before.
abbrev pub longest : List String → List (List String) → ℕ
longest p [] = 0
longest p (h ∷ hs) = max (common_prefix_len p h) (longest h hs)

-- Two hypotheses in a row begin with `c`.
abbrev pub Confirmed : List String → List String → List (List String) → Type 0
Confirmed c p [] = ⊥
Confirmed c p (h ∷ hs) = ((take (length c) p ≡ c) × (take (length c) h ≡ c)) ⊎ Confirmed c h hs

length-agree_all :
    (hs : List (List String)) (s : SourceState)
    → length (agree_all hs s).committed ≡ max (length s.committed) (longest s.prev_words hs)
unfolding agree_all agree
length-agree_all [] s = omega arith
length-agree_all (h ∷ hs) s = ground (
  arith,
  length-agree_all hs (agree h s),
  common_prefix_len-le s.prev_words h,
  length-take (common_prefix_len s.prev_words h) h,
)

take-agreed :
    (p h : List String)
    → let c = take (common_prefix_len p h) h in (take (length c) p ≡ c) × (take (length c) h ≡ c)
take-agreed p h =
    let e : length (take (common_prefix_len p h) h) ≡ common_prefix_len p h =
      omega (arith, length-take (common_prefix_len p h) h, common_prefix_len-le p h) in
    (rw e (take-common_prefix_len p h), rw e)

Confirmed-agree_all :
    (hs : List (List String)) (s : SourceState)
    → ((agree_all hs s).committed ≡ s.committed)
      ⊎ Confirmed (agree_all hs s).committed s.prev_words hs
unfolding agree_all agree
Confirmed-agree_all [] s = inl refl
Confirmed-agree_all (h ∷ hs) s =
    ground (arith, Confirmed-agree_all hs (agree h s), take-agreed s.prev_words h)

-- For the hypotheses of one utterance, from its first: as many words are committed as any two
-- hypotheses in a row agree on from their start; and the words
-- are the beginning of two hypotheses in a row, or there are none.
pub agree_all-Confirmed :
    (hs : List (List String)) (id : ℕ)
    → let s = agree_all hs (record { utterance_id = id; prev_words = []; committed = [] }) in
      (length s.committed ≡ longest [] hs) × ((s.committed ≡ []) ⊎ Confirmed s.committed [] hs)
agree_all-Confirmed hs id =
    let s : SourceState = record { utterance_id = id; prev_words = []; committed = [] } in
    (omega (arith, length-agree_all hs s), Confirmed-agree_all hs s)

-- Words that were shown are taken back when the last two hypotheses agree on more words than were
-- committed and do not begin with those: the committed prefix is replaced, not extended.
agree_replaces :
    (s : SourceState) (words : List String)
    → length s.committed < common_prefix_len s.prev_words words
    → take (length s.committed) words ≢ s.committed
    → take (length s.committed) (agree words s).committed ≢ s.committed
unfolding agree
agree_replaces s words longer differs =
    ground (arith, take-take (length s.committed) (common_prefix_len s.prev_words words) words)

-- Only the newest samples are decoded, at most `window` of them, and all where there are fewer.
sliding_window_suffix {ℓ} :
    {A : Type ℓ} (samples : List A) (window : ℕ)
    → (take (length samples - window) samples ++ sliding_window samples window ≡ samples)
      × (length (sliding_window samples window) ≡ min window (length samples))
unfolding sliding_window
sliding_window_suffix samples window = elim (Bool-cases (leb (length samples) window)) [
  | inl short ↦
      let none_left : length samples - window ≡ 0 = ground arith in
      rw (none_left, short) (refl, ground arith)
  | inr long ↦ rw long (
    take-append-drop (length samples - window) samples,
    ground (arith, length-drop (length samples - window) samples),
  )
]
