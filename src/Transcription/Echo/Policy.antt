-- ===== src/Transcription/Echo/Policy.antt =====
-- Which segments a session suppresses.
use meetily_local.Common.{
  ℕ, suc, ◌≤◌, ◌≡◌, refl, ap, ◌∙◌, true, false, List, [], ◌∷◌, ◌++◌, length, ltb, arith, Bool-cases,
  inl, inr, Float,
}
use meetily_local.Recording.Session.{DeviceType, microphone, system}
use meetily_local.Transcription.Echo.{
  Unicode, AcceptedSegment, EchoDecision, accept, drop_as_mic_echo, same_source,
  is_cross_source_match, find_match, prune, segment, decide, decide_segment, check, keep_last,
  push_segment, record_segment,
}

-- A segment as it comes to the session.
pub record Heard (f : Float) : Type 0 where
  pub source : DeviceType
  pub text : List ℕ
  pub start : f.F
  pub end : f.F

module _ (f : Float) (u : Unicode) where
  open f use {F, literal, le, lt, sub}

  -- One segment: it is checked, and recorded if it is accepted.
  after_check :
      Heard f → EchoDecision × List (AcceptedSegment f) → EchoDecision × List (AcceptedSegment f)
  after_check h (accept, buffer) = (accept, record_segment f u h.source h.text h.start h.end buffer)
  after_check h (drop_as_mic_echo, buffer) = (drop_as_mic_echo, buffer)

  unfoldable pub hear : Heard f → List (AcceptedSegment f) → EchoDecision × List (AcceptedSegment f)
  unfolding after_check
  hear h buffer = after_check h (check f u h.source h.text h.start h.end buffer)

  unfoldable pub hear_all :
      List (Heard f) → List (AcceptedSegment f) → List EchoDecision × List (AcceptedSegment f)
  hear_all [] buffer = ([], buffer)
  hear_all (h ∷ hs) buffer =
      let (d, buffer') = hear h buffer in
      let (ds, buffer'') = hear_all hs buffer' in (d ∷ ds, buffer'')

  length-prune : (t : F) (bs : List (AcceptedSegment f)) → length (prune f u t bs) ≤ length bs
  unfolding prune
  length-prune t [] = omega arith
  length-prune t (b ∷ bs) = ground (arith, length-prune t bs)

  length-keep_last : (bs : List (AcceptedSegment f)) → length (keep_last f u bs) ≤ 12
  unfolding keep_last
  length-keep_last [] = omega arith
  length-keep_last (b ∷ bs) = ground (arith, length-keep_last bs)

  length-push :
      (a : AcceptedSegment f) (buffer : List (AcceptedSegment f)) (t : List ℕ)
      → length buffer ≤ 12
      → length (push_segment f u a buffer t) ≤ 12
  unfolding push_segment
  length-push a buffer [] h = h
  length-push a buffer (c ∷ t) h = length-keep_last (buffer ++ a ∷ [])

  length-after_check :
      (h : Heard f) (d : EchoDecision) (buffer : List (AcceptedSegment f))
      → length buffer ≤ 12
      → length (after_check h (d, buffer)).1 ≤ 12
  unfolding after_check record_segment
  length-after_check h accept buffer b =
      let a = segment f u h.source h.text h.start h.end in length-push a buffer a.text_normalized b
  length-after_check h drop_as_mic_echo buffer b = b

  length-hear :
      (h : Heard f) (buffer : List (AcceptedSegment f))
      → length buffer ≤ 12
      → length (hear h buffer).1 ≤ 12
  unfolding hear check
  length-hear h buffer b =
      let a = segment f u h.source h.text h.start h.end in
      length-after_check h (decide_segment f u a (prune f u h.start buffer) a.text_normalized)
        (prune f u h.start buffer) (omega (arith, length-prune h.start buffer, b))

  -- However many segments a session hears, at most twelve are kept for comparison.
  length-hear_all :
      (hs : List (Heard f)) (buffer : List (AcceptedSegment f))
      → length buffer ≤ 12
      → length (hear_all hs buffer).1 ≤ 12
  unfolding hear_all
  length-hear_all [] buffer b = b
  length-hear_all (h ∷ hs) buffer b = length-hear_all hs (hear h buffer).1 (length-hear h buffer b)

  -- Segments of one source.
  abbrev pub AllFrom : DeviceType → List (AcceptedSegment f) → Type 0
  AllFrom s [] = Unit
  AllFrom s (b ∷ bs) = (b.source ≡ s) × AllFrom s bs

  abbrev pub HeardFrom : DeviceType → List (Heard f) → Type 0
  HeardFrom s [] = Unit
  HeardFrom s (h ∷ hs) = (h.source ≡ s) × HeardFrom s hs

  abbrev pub accept_all : List (Heard f) → List EchoDecision
  accept_all [] = []
  accept_all (h ∷ hs) = accept ∷ accept_all hs

  prune-AllFrom :
      (s : DeviceType) (t : F) (bs : List (AcceptedSegment f))
      → AllFrom s bs
      → AllFrom s (prune f u t bs)
  unfolding prune
  prune-AllFrom s t [] h = tt
  prune-AllFrom s t (b ∷ bs) h = elim (Bool-cases (lt (literal 30 0) (sub t b.audio_end_time))) [
    | inl e ↦ rw e (prune-AllFrom s t bs h.1)
    | inr e ↦ rw e h
  ]

  keep_last-AllFrom :
      (s : DeviceType) (bs : List (AcceptedSegment f)) → AllFrom s bs → AllFrom s (keep_last f u bs)
  unfolding keep_last
  keep_last-AllFrom s [] h = tt
  keep_last-AllFrom s (b ∷ bs) h = elim (Bool-cases (ltb 12 (suc (length bs)))) [
    | inl e ↦ rw e (keep_last-AllFrom s bs h.1)
    | inr e ↦ rw e h
  ]

  append-AllFrom :
      (s : DeviceType) (bs : List (AcceptedSegment f)) (a : AcceptedSegment f)
      → AllFrom s bs
      → a.source ≡ s
      → AllFrom s (bs ++ a ∷ [])
  append-AllFrom s [] a h e = (e, tt)
  append-AllFrom s (b ∷ bs) a h e = (h.0, append-AllFrom s bs a h.1 e)

  same_source_refl : (s : DeviceType) → same_source s s ≡ true
  same_source_refl microphone = refl
  same_source_refl system = refl

  find_match-AllFrom :
      (s : DeviceType) (a : AcceptedSegment f) (bs : List (AcceptedSegment f))
      → a.source ≡ s
      → AllFrom s bs
      → find_match f u a bs ≡ false
  unfolding find_match is_cross_source_match
  find_match-AllFrom s a [] e h = refl
  find_match-AllFrom s a (b ∷ bs) e h =
      let same : same_source a.source b.source ≡ true =
        ap (λ x. same_source x b.source) e ∙ ap (same_source s) h.0 ∙ same_source_refl s in
      rw same (find_match-AllFrom s a bs e h.1)

  decide-none : (s : DeviceType) → decide f u s false ≡ accept
  decide-none microphone = refl
  decide-none system = refl

  decide_segment-AllFrom :
      (s : DeviceType) (a : AcceptedSegment f) (bs : List (AcceptedSegment f)) (t : List ℕ)
      → a.source ≡ s
      → AllFrom s bs
      → decide_segment f u a bs t ≡ accept
  unfolding decide_segment
  decide_segment-AllFrom s a bs [] e h = refl
  decide_segment-AllFrom s a bs (c ∷ t) e h =
      ap (decide f u a.source) (find_match-AllFrom s a bs e h) ∙ decide-none a.source

  push-AllFrom :
      (s : DeviceType) (a : AcceptedSegment f) (bs : List (AcceptedSegment f)) (t : List ℕ)
      → a.source ≡ s
      → AllFrom s bs
      → AllFrom s (push_segment f u a bs t)
  unfolding push_segment
  push-AllFrom s a bs [] e h = h
  push-AllFrom s a bs (c ∷ t) e h = keep_last-AllFrom s (bs ++ a ∷ []) (append-AllFrom s bs a h e)

  hear-AllFrom :
      (s : DeviceType) (h : Heard f) (bs : List (AcceptedSegment f))
      → h.source ≡ s
      → AllFrom s bs
      → ((hear h bs).0 ≡ accept) × AllFrom s (hear h bs).1
  unfolding hear check after_check record_segment
  hear-AllFrom s h bs e b =
      let a = segment f u h.source h.text h.start h.end in
      let kept = prune-AllFrom s h.start bs b in
      rw (decide_segment-AllFrom s a (prune f u h.start bs) a.text_normalized e kept, after_check)
        (refl, push-AllFrom s a (prune f u h.start bs) a.text_normalized e kept)

  -- A session that hears one source alone suppresses nothing.
  hear_all-AllFrom :
      (s : DeviceType) (hs : List (Heard f)) (bs : List (AcceptedSegment f))
      → HeardFrom s hs
      → AllFrom s bs
      → (hear_all hs bs).0 ≡ accept_all hs
  unfolding hear_all
  hear_all-AllFrom s [] bs e b = refl
  hear_all-AllFrom s (h ∷ hs) bs e b =
      let (d, b') = hear-AllFrom s h bs e.0 b in cc (d, hear_all-AllFrom s hs (hear h bs).1 e.1 b')
