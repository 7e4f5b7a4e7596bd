-- ===== src/Batch/Transcribe/Numbered.antt =====
-- The numbers of the transcripts of a batch.
use meetily_local.Common.{
  ℕ, suc, ◌≡◌, ◌⊎◌, refl, sym, ◌∙◌, Bool, true, false, Option, none, some, List, [], ◌∷◌, ◌++◌, ltb,
  length, length-append, append_assoc, append-nil, subst, arith, Float, Bool-cases, inl, inr,
}
use meetily_local.Transcription.Worker.Hallucination.{trim}
use meetily_local.Batch.{SpeechSegment}
use meetily_local.Batch.Transcribe.{
  BatchTranscript, BatchTools, BatchResult, failed, transcribed, transcript_of, is_accepted,
  transcribe_from, run_batch_transcription, extend_context, processable_segments, prompt_of,
}

module _ {f : Float} (t : BatchTools f) where
  -- The engine gave the text for the segment, after some prompt, and it is kept.
  abbrev pub IsHeard : ℕ → SpeechSegment f → List ℕ → Type 0
  IsHeard i s text =
      (prompt : Option (List ℕ)) × (conf : f.F) × (t.transcribe i s prompt ≡ some (text, conf))
      × (is_accepted t text conf ≡ true)

  -- The transcripts of segments from index `i` on, in their order, at most one for each, with the numbers from `n` on.
  abbrev pub Made : ℕ → List (SpeechSegment f) → ℕ → List (BatchTranscript f) → Type 0
  Made i [] n ts = ts ≡ []
  Made i (s ∷ ss) n ts =
      Made (suc i) ss n ts
      ⊎ ((text : List ℕ) × (rest : List (BatchTranscript f)) × (ts
            ≡ transcript_of t i s n text ∷ rest)
          × IsHeard i s text
          × Made (suc i) ss (suc n) rest)

  abbrev After : ℕ → List (SpeechSegment f) → List (BatchTranscript f) → BatchResult f → Type 0
  After i ss done (failed e) = Unit
  After i ss done (transcribed ts) =
      (more : List (BatchTranscript f)) × (ts ≡ done ++ more) × Made i ss (length done) more

  skip_After :
      (i : ℕ) (s : SpeechSegment f) (ss : List (SpeechSegment f)) (done : List (BatchTranscript f))
      (r : BatchResult f)
      → After (suc i) ss done r
      → After i (s ∷ ss) done r
  skip_After i s ss done (failed e) h = tt
  skip_After i s ss done (transcribed ts) (more, e, m) = (more, e, inl m)

  accept_After :
      (i : ℕ) (s : SpeechSegment f) (ss : List (SpeechSegment f)) (done : List (BatchTranscript f))
      (text : List ℕ) (r : BatchResult f)
      → IsHeard i s text
      → After (suc i) ss (done ++ transcript_of t i s (length done) text ∷ []) r
      → After i (s ∷ ss) done r
  accept_After i s ss done text (failed e) g h = tt
  accept_After i s ss done text (transcribed ts) g (more, e, m) =
      let own = transcript_of t i s (length done) text in
      let n : length (done ++ own ∷ []) ≡ suc (length done) =
        length-append done (own ∷ []) ∙ omega arith in
      (
        own ∷ more,
        e ∙ append_assoc done (own ∷ []) more,
        inr (text, more, refl, g, subst (λ k. Made (suc i) ss k more) n m),
      )

  transcribe_from-After :
      (i : ℕ) (ss : List (SpeechSegment f)) (done : List (BatchTranscript f)) (context : List ℕ)
      → After i ss done (transcribe_from t i ss done context)
  unfolding transcribe_from
  transcribe_from-After i [] done context = elim (Bool-cases (t.cancelled i)) [
    | inl e ↦ rw e tt
    | inr e ↦ rw e ([], sym (append-nil done), refl)
  ]
  transcribe_from-After i (s ∷ ss) done context =
      go (t.transcribe i s (prompt_of t context)) refl
        (λ text.
          transcribe_from-After (suc i) ss (done ++ transcript_of t i s (length done) text ∷ [])
            (extend_context t (trim t.unicode.is_whitespace text) context))
        (skip_After i s ss done (transcribe_from t (suc i) ss done context)
          (transcribe_from-After (suc i) ss done context))
    where
      go :
          (o : Option (List ℕ × f.F))
          → t.transcribe i s (prompt_of t context) ≡ o
          → ((text : List ℕ)
              → After (suc i) ss (done ++ transcript_of t i s (length done) text ∷ []) (
                  transcribe_from t
                    (suc i)
                    ss
                    (done ++ transcript_of t i s (length done) text ∷ [])
                    (extend_context t (trim t.unicode.is_whitespace text) context)))
          → After i (s ∷ ss) done (transcribe_from t (suc i) ss done context)
          → After i (s ∷ ss) done (transcribe_from t i (s ∷ ss) done context)
      go none e next skip = elim (Bool-cases (t.cancelled i)) [
        | inl c ↦ rw (transcribe_from, c) tt
        | inr c ↦ elim (Bool-cases (ltb (length s.samples) 1600)) [
          | inl l ↦ rw (transcribe_from, c, l) skip
          | inr l ↦ rw (transcribe_from, c, l, e) tt
        ]
      ]
      go (some (text, conf)) e next skip = elim (Bool-cases (t.cancelled i)) [
        | inl c ↦ rw (transcribe_from, c) tt
        | inr c ↦ elim (Bool-cases (ltb (length s.samples) 1600)) [
          | inl l ↦ rw (transcribe_from, c, l) skip
          | inr l ↦ elim (Bool-cases (is_accepted t text conf)) [
            | inl a ↦
                rw (transcribe_from, c, l, e, a)
                  (accept_After i s ss done text
                    (transcribe_from t (suc i) ss
                      (done ++ transcript_of t i s (length done) text ∷ [])
                      (extend_context t (trim t.unicode.is_whitespace text) context))
                    (prompt_of t context, conf, e, a) (next text))
            | inr a ↦ rw (transcribe_from, c, l, e, a) skip
          ]
        ]
      ]

  -- A batch that succeeds gives, for the segments after the splitting of long ones and in their order,
  -- at most one transcript each, with the segment's times and a text that the engine gave for it and
  -- that is neither blank nor a likely hallucination; their sequence ids are 0, 1 and so on.
  pub run_batch_transcription-Made :
      (cancelled_before : Bool) (speech : List (SpeechSegment f)) (ts : List (BatchTranscript f))
      → run_batch_transcription t cancelled_before speech ≡ transcribed ts
      → Made 0 (processable_segments t speech) 0 ts
  unfolding run_batch_transcription
  run_batch_transcription-Made true speech ts h = absurd (ground (arith, h))
  run_batch_transcription-Made false speech ts h =
      let segments = processable_segments t speech in
      let (more, e, m) : After 0 segments [] (transcribed ts) =
        subst (After 0 segments []) h (transcribe_from-After 0 segments [] []) in
      subst (Made 0 segments 0) (sym e) m
