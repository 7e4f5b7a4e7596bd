-- ===== src/Transcription/Worker/Hallucination.antt =====
-- meetily-core/src/audio/transcription/worker.rs: the phrases that Whisper invents.
use meetily_local.Common.{
  ℕ, Bool, true, false, ◌&&◌, ◌||◌, List, [], ◌∷◌, ◌==◌, if◌then◌else◌, codes, Float, same_text,
}
use meetily_local.Transcription.Echo.{Unicode, split_whitespace, join_words}

-- `trim_start_matches`, `trim_end_matches` and `trim_matches` for a class of characters.
unfoldable pub trim_start : (ℕ → Bool) → List ℕ → List ℕ
trim_start p [] = []
trim_start p (c ∷ cs) = let rest = trim_start p cs in if p c then rest else c ∷ cs

abbrev pub cons_unless : (ℕ → Bool) → ℕ → List ℕ → List ℕ
cons_unless p c [] = if p c then [] else c ∷ []
cons_unless p c (d ∷ ds) = c ∷ d ∷ ds

unfoldable pub trim_end : (ℕ → Bool) → List ℕ → List ℕ
trim_end p [] = []
trim_end p (c ∷ cs) = cons_unless p c (trim_end p cs)

unfoldable pub trim : (ℕ → Bool) → List ℕ → List ℕ
unfolding trim_start trim_end
trim p text = trim_end p (trim_start p text)

abbrev pub is_empty : List ℕ → Bool
is_empty [] = true
is_empty (c ∷ cs) = false

abbrev pub starts_with : ℕ → List ℕ → Bool
starts_with c [] = false
starts_with c (d ∷ ds) = c == d

abbrev pub ends_with : ℕ → List ℕ → Bool
ends_with c [] = false
ends_with c (d ∷ []) = c == d
ends_with c (d ∷ e ∷ ds) = ends_with c (e ∷ ds)

-- A sound marker: in brackets, in parentheses, or between notes.
unfoldable pub bracket_only : List ℕ → Bool
bracket_only t =
    (starts_with 91 t && ends_with 93 t)
    || ((starts_with 40 t && ends_with 41 t) || (starts_with 9834 t && ends_with 9834 t))

abbrev pub stock_phrases : List (List ℕ)
stock_phrases =
    codes "you"
    ∷ codes "bye"
    ∷ codes "thank you"
    ∷ codes "thanks for watching"
    ∷ codes "thank you for watching"
    ∷ codes "thank you very much"
    ∷ codes "please subscribe"
    ∷ codes "subtitles by the amara.org community"
    ∷ codes "www.mooji.org"
    ∷ []

abbrev pub contains : List (List ℕ) → List ℕ → Bool
contains [] t = false
contains (p ∷ ps) t = same_text p t || contains ps t

-- `trim_matches('.')` of every word, without the empty ones.
unfoldable pub without_dots : List (List ℕ) → List (List ℕ)
without_dots [] = []
without_dots (w ∷ ws) =
    let rest = without_dots ws in
    let w' = trim (λ c. c == 46) w in if is_empty w' then rest else w' ∷ rest

abbrev pub words_and_dots : (ℕ → Bool) → List ℕ → List ℕ
words_and_dots is_alphanumeric [] = []
words_and_dots is_alphanumeric (c ∷ cs) =
    (if is_alphanumeric c || c == 46 then c else 32) ∷ words_and_dots is_alphanumeric cs

module _ (f : Float) (u : Unicode) where
  open u use {to_lowercase, is_alphanumeric, is_whitespace}

  unfoldable pub normalized_phrase : List ℕ → List ℕ
  unfolding without_dots
  normalized_phrase trimmed = join_words (
      without_dots
        (split_whitespace is_whitespace [] (words_and_dots is_alphanumeric (to_lowercase trimmed))))

  unfoldable pub is_likely_hallucination : List ℕ → f.F → Bool
  unfolding normalized_phrase bracket_only trim
  is_likely_hallucination text confidence =
      let trimmed = trim is_whitespace text in
      if is_empty trimmed
      then false
      else (if bracket_only trimmed
          then true
          else (if f.le (f.literal 5 1) confidence
              then false
              else contains stock_phrases (normalized_phrase trimmed)))
