-- ===== src/Transcripts/Keys.antt =====
-- The keys of the journal's replay tell the numbers of segments apart.
use meetily_local.Common.{
  ℕ, zero, suc, ◌+◌, ◌-◌, ◌*◌, ◌/◌, ◌%◌, ◌^◌, ◌<◌, ◌≡◌, refl, sym, ap, ◌∙◌, some, List, [], ◌∷◌,
  ◌++◌, arith, Float, Bool-cases, inl, inr, ltb, ◌==◌, same_text, same_text_refl, same_text_sound,
}
use meetily_local.Saver.{digits_within}
use meetily_local.Recording.Service.{TranscriptSegment}
use meetily_local.Transcripts.{journal_replay_key}

abbrev tens : ℕ → ℕ
tens zero = 1
tens (suc f) = 10 * tens f

-- The number that digits stand for, after `acc`.
abbrev value : ℕ → List ℕ → ℕ
value acc [] = acc
value acc (d ∷ ds) = value (acc * 10 + (d - 48)) ds

value-append :
    (acc : ℕ) (xs : List ℕ) (d : ℕ) → value acc (xs ++ d ∷ []) ≡ value acc xs * 10 + (d - 48)
value-append acc [] d = refl
value-append acc (x ∷ xs) d = value-append (acc * 10 + (x - 48)) xs d

value-digits_within : (f n : ℕ) → n < tens f → value 0 (digits_within f n) ≡ n
unfolding digits_within
value-digits_within zero n h = omega (arith, h)
value-digits_within (suc f) n h = elim (Bool-cases (ltb n 10)) [
  | inl e ↦ rw e (omega arith)
  | inr e ↦
      rw
        (
          e,
          value-append 0 (digits_within f (n / 10)) (48 + n % 10),
          value-digits_within f (n / 10) (omega (arith, h)),
        )
        (omega arith)
]

-- A 64-bit number has at most twenty digits.
same_text-digits_within :
    (n m : ℕ)
    → n < 2 ^ 64
    → m < 2 ^ 64
    → same_text (digits_within 20 n) (digits_within 20 m) ≡ (n == m)
same_text-digits_within n m h g = elim (Bool-cases (n == m)) [
  | inl e ↦
      let same : n ≡ m = ground (arith, e) in
      rw same (same_text_refl (digits_within 20 m) ∙ sym (ground (arith, e)))
  | inr e ↦ elim (Bool-cases (same_text (digits_within 20 n) (digits_within 20 m))) [
    | inl a ↦
        let same =
          sym (value-digits_within 20 n (omega (arith, h)))
          ∙ ap (value 0) (same_text_sound (digits_within 20 n) (digits_within 20 m) a)
          ∙ value-digits_within 20 m (omega (arith, g)) in
        absurd (ground (arith, same, e))
    | inr a ↦ a ∙ sym e
  ]
]

module _ {f : Float} where
  pub same_key :
      (s t : TranscriptSegment f) (n m : ℕ)
      → s.sequence_id ≡ some n
      → t.sequence_id ≡ some m
      → n < 2 ^ 64
      → m < 2 ^ 64
      → same_text (journal_replay_key s) (journal_replay_key t) ≡ (n == m)
  unfolding journal_replay_key
  same_key s t n m e g h k = rw (e, g) (same_text-digits_within n m h k)
