-- ===== src/Transcription/Echo/Words.antt =====
-- The words of a normalized text.
use meetily_local.Common.{
  ℕ, ◌≡◌, ◌≢◌, refl, sym, ap, ◌∙◌, Bool, true, false, List, [], ◌∷◌, ◌++◌, append-nil, append_assoc,
  arith, Bool-cases, inl, inr,
}
use meetily_local.Transcription.Echo.{
  Unicode, finish_word, split_whitespace, join_words, spaced, normalize_for_comparison,
}

module _ (is_whitespace : ℕ → Bool) where
  -- Characters none of which is a space; a word has one at least.
  abbrev pub IsSolid : List ℕ → Type 0
  IsSolid [] = Unit
  IsSolid (c ∷ cs) = (is_whitespace c ≡ false) × IsSolid cs

  abbrev pub AreWords : List (List ℕ) → Type 0
  AreWords [] = Unit
  AreWords (w ∷ ws) = (w ≢ []) × IsSolid w × AreWords ws

  append-IsSolid :
      (w : List ℕ) (c : ℕ) → IsSolid w → is_whitespace c ≡ false → IsSolid (w ++ c ∷ [])
  append-IsSolid [] c h e = (e, tt)
  append-IsSolid (d ∷ w) c h e = (h.0, append-IsSolid w c h.1 e)

  finish_word-AreWords :
      (w : List ℕ) (ws : List (List ℕ)) → IsSolid w → AreWords ws → AreWords (finish_word w ws)
  finish_word-AreWords [] ws h k = k
  finish_word-AreWords (c ∷ w) ws h k = ((λ e. absurd (ground (arith, e))), h, k)

  split_whitespace-AreWords :
      (w text : List ℕ) → IsSolid w → AreWords (split_whitespace is_whitespace w text)
  unfolding split_whitespace
  split_whitespace-AreWords w [] h = finish_word-AreWords w [] h tt
  split_whitespace-AreWords w (c ∷ text) h = elim (Bool-cases (is_whitespace c)) [
    | inl e ↦ rw e (
        finish_word-AreWords w (split_whitespace is_whitespace [] text) h
          (split_whitespace-AreWords [] text tt))
    | inr e ↦ rw e (split_whitespace-AreWords (w ++ c ∷ []) text (append-IsSolid w c h e))
  ]

  split_whitespace-append :
      (w v rest : List ℕ)
      → IsSolid v
      → split_whitespace is_whitespace w (v ++ rest) ≡ split_whitespace is_whitespace (w ++ v) rest
  unfolding split_whitespace
  split_whitespace-append w [] rest h =
      ap (λ x. split_whitespace is_whitespace x rest) (sym (append-nil w))
  split_whitespace-append w (c ∷ v) rest h = rw h.0 (
      split_whitespace-append (w ++ c ∷ []) v rest h.1
      ∙ ap (λ x. split_whitespace is_whitespace x rest) (append_assoc w (c ∷ []) v))

  finish_some : (w : List ℕ) (ws : List (List ℕ)) → w ≢ [] → finish_word w ws ≡ w ∷ ws
  finish_some [] ws h = absurd (h refl)
  finish_some (c ∷ w) ws h = refl

  -- Words that are joined by spaces are split into the same words.
  pub split_whitespace-join_words :
      (ws : List (List ℕ))
      → is_whitespace 32 ≡ true
      → AreWords ws
      → split_whitespace is_whitespace [] (join_words ws) ≡ ws
  unfolding join_words split_whitespace
  split_whitespace-join_words [] s h = refl
  split_whitespace-join_words (w ∷ []) s h =
      ap (split_whitespace is_whitespace []) (sym (append-nil w))
      ∙ split_whitespace-append [] w [] h.1
      ∙ finish_some w [] h.0
  split_whitespace-join_words (w ∷ v ∷ ws) s h =
      split_whitespace-append [] w (32 ∷ join_words (v ∷ ws)) h.1
      ∙ rw s (ap (finish_word w) (split_whitespace-join_words (v ∷ ws) s h.2))
      ∙ finish_some w (v ∷ ws) h.0

-- The words of a normalized text are those of the text in lower case, with a space for every
-- character that is no letter or digit: normalizing joins them so that they are split again as they
-- were.
split_whitespace-normalize :
    (u : Unicode) (text : List ℕ)
    → u.is_whitespace 32 ≡ true
    → split_whitespace u.is_whitespace [] (normalize_for_comparison u text)
      ≡ split_whitespace u.is_whitespace [] (spaced u.is_alphanumeric (u.to_lowercase text))
unfolding normalize_for_comparison
split_whitespace-normalize u text s =
    split_whitespace-join_words u.is_whitespace
      (split_whitespace u.is_whitespace [] (spaced u.is_alphanumeric (u.to_lowercase text))) s
      (split_whitespace-AreWords u.is_whitespace [] (spaced u.is_alphanumeric (u.to_lowercase text))
        tt)
