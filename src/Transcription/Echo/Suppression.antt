-- ===== src/Transcription/Echo/Suppression.antt =====
-- Why a segment is suppressed.
use meetily_local.Common.{
  ℕ, ◌≤◌, ◌≡◌, ◌⊎◌, refl, sym, ap, ◌∙◌, Bool, true, false, List, [], ◌∷◌, if◌then◌else◌, arith,
  Bool-cases, inl, inr, Float,
}
use meetily_local.Recording.Session.{DeviceType, microphone, system}
use meetily_local.Transcription.Echo.{
  Unicode, AcceptedSegment, drop_as_mic_echo, min_match_word_count, same_source, similarity_ratio,
  threshold, below_floor, intervals_overlap, is_cross_source_match, find_match, prune, segment,
  decide, decide_segment, check, word_count,
}

module _ (f : Float) (u : Unicode) where
  open f use {F, literal, le, lt, sub}

  -- What a segment of the microphone must share with one of the system's audio.
  abbrev pub IsEcho : AcceptedSegment f → AcceptedSegment f → Type 0
  IsEcho a b =
      (b.source ≡ system)
      × (intervals_overlap f a.audio_start_time a.audio_end_time b.audio_start_time b.audio_end_time
            (literal 15 1)
          ≡ true)
      × (min_match_word_count ≤ word_count u a.text_normalized)
      × (min_match_word_count ≤ word_count u b.text_normalized)
      × (lt (sub a.audio_end_time a.audio_start_time) (literal 1 0) ≡ false)
      × (le (threshold f (word_count u a.text_normalized) (word_count u b.text_normalized))
            (similarity_ratio f a.text_normalized b.text_normalized)
          ≡ true)

  abbrev pub Any : (AcceptedSegment f → Type 0) → List (AcceptedSegment f) → Type 0
  Any P [] = ⊥
  Any P (b ∷ bs) = P b ⊎ Any P bs

  other_source : (s : DeviceType) → same_source microphone s ≡ false → s ≡ system
  other_source microphone h = absurd (ground (arith, h))
  other_source system h = refl

  match-IsEcho :
      (a b : AcceptedSegment f)
      → a.source ≡ microphone
      → is_cross_source_match f u a b ≡ true
      → IsEcho a b
  unfolding is_cross_source_match below_floor
  match-IsEcho a b m h =
      let other : same_source microphone b.source ≡ false =
        ap (λ s. same_source s b.source) (sym m) ∙ ground (arith, h) in
      (
        other_source b.source other,
        ground (arith, h),
        ground (arith, h),
        ground (arith, h),
        ground (arith, h),
        ground (arith, h),
      )

  find_match-Any :
      (a : AcceptedSegment f) (bs : List (AcceptedSegment f))
      → a.source ≡ microphone
      → find_match f u a bs ≡ true
      → Any (IsEcho a) bs
  unfolding find_match
  find_match-Any a [] m h = absurd (ground (arith, h))
  find_match-Any a (b ∷ bs) m h = elim (Bool-cases (is_cross_source_match f u a b)) [
    | inl e ↦ inl (match-IsEcho a b m e)
    | inr e ↦ inr (find_match-Any a bs m (ground (arith, h, e)))
  ]

  Any-prune :
      (P : AcceptedSegment f → Type 0) (t : F) (bs : List (AcceptedSegment f))
      → Any P (prune f u t bs)
      → Any P bs
  unfolding prune
  Any-prune P t [] h = h
  Any-prune P t (b ∷ bs) h =
      go (λ k. Any-prune P t bs k) (lt (literal 30 0) (sub t b.audio_end_time)) h
    where
      go :
          (Any P (prune f u t bs) → Any P bs)
          → (x : Bool) → Any P (if x then prune f u t bs else b ∷ bs)
          → Any P (b ∷ bs)
      go rest true h = inr (rest h)
      go rest false h = h

  decide-drop :
      (s : DeviceType) (x : Bool)
      → decide f u s x ≡ drop_as_mic_echo
      → (s ≡ microphone) × (x ≡ true)
  decide-drop microphone true h = (refl, refl)
  decide-drop microphone false h = absurd (ground (arith, h))
  decide-drop system x h = absurd (ground (arith, h))

  decide_segment-drop :
      (a : AcceptedSegment f) (bs : List (AcceptedSegment f)) (t : List ℕ)
      → decide_segment f u a bs t ≡ drop_as_mic_echo
      → (a.source ≡ microphone) × Any (IsEcho a) bs
  unfolding decide_segment
  decide_segment-drop a bs [] h = absurd (ground (arith, h))
  decide_segment-drop a bs (c ∷ t) h =
      let (m, found) = decide-drop a.source (find_match f u a bs) h in
      (m, find_match-Any a bs m found)

  -- A segment is suppressed only if it is of the microphone and a segment of the system's audio is
  -- kept that is at most 1.5 seconds apart from it, where both have three words, it lasts a second,
  -- and the texts are as similar as two of their numbers of words must be.
  pub check-dropped :
      (source : DeviceType) (text : List ℕ) (start end : F) (buffer : List (AcceptedSegment f))
      → (check f u source text start end buffer).0 ≡ drop_as_mic_echo
      → (source ≡ microphone) × Any (IsEcho (segment f u source text start end)) buffer
  unfolding check
  check-dropped source text start end buffer h =
      let a = segment f u source text start end in
      let (m, found) = decide_segment-drop a (prune f u start buffer) a.text_normalized h in
      (m, Any-prune (IsEcho a) start buffer found)
