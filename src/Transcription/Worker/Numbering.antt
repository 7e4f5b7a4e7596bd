-- ===== src/Transcription/Worker/Numbering.antt =====
-- What a session publishes, and how it is numbered.
use native.Mathlib.Nat.{add-zero}
use native.Mathlib.Numerals.{unary_clauses}
use Prim.Native.Nat.{min}
use mathlib.Core.Bool.{false≢true}
use meetily_local.Common.{
  ℕ, zero, suc, ◌+◌, ◌^◌, ◌≤◌, ◌<◌, ◌≡◌, ◌⊎◌, refl, sym, ap, ◌∙◌, Bool, true, false, List, [], ◌∷◌,
  ◌++◌, append-nil, append_assoc, length, length-append, arith, if◌then◌else◌, inl, inr, Float,
}
use meetily_local.Transcription.Echo.{Unicode, range}
use meetily_local.Transcription.Worker.{
  PendingChunk, Surroundings, TranscriptUpdate, Sent, published, transcript_update, speech_detected,
  WorkerState, process_chunk, process_all, reset_speech_detected_flag,
}
use meetily_local.Transcription.Worker.Sending.{
  IsQuiet, bus, client, announcements, sequence_ids, bus-append, client-append,
  announcements-append, quiet, Outcome, silent, spoke, chunk-Outcome,
}

module _ (f : Float) where
  sequence_ids-append :
      (ts us : List (TranscriptUpdate f))
      → sequence_ids f (ts ++ us) ≡ sequence_ids f ts ++ sequence_ids f us
  sequence_ids-append [] us = refl
  sequence_ids-append (t ∷ ts) us = ap (◌∷◌ t.sequence_id) (sequence_ids-append ts us)

  -- What one chunk adds to the bus and to the client.
  OneMore : List (TranscriptUpdate f) → ℕ → WorkerState f → WorkerState f → Type 0
  OneMore ts a w w' =
      (bus f w'.sent ≡ bus f w.sent ++ ts)
      × (client f w'.sent ≡ client f w.sent ++ ts)
      × (announcements f w'.sent ≡ announcements f w.sent + a)

  -- Quiet events followed by others add what the others add.
  adds :
      (es gs : List (Sent f)) (w w' : WorkerState f)
      → IsQuiet f es
      → w'.sent ≡ (w.sent ++ es) ++ gs
      → (bus f w'.sent ≡ bus f w.sent ++ bus f gs)
        × (client f w'.sent ≡ client f w.sent ++ client f gs)
        × (announcements f w'.sent ≡ announcements f w.sent + announcements f gs)
  adds es gs w w' q e =
      let (b, c, a) = quiet f es q in
      (
        ap (bus f) e
            ∙ bus-append f (w.sent ++ es) gs
            ∙ ap (λ x. x ++ bus f gs)
                (bus-append f w.sent es ∙ ap (◌++◌ (bus f w.sent)) b ∙ append-nil (bus f w.sent)),
        ap (client f) e
            ∙ client-append f (w.sent ++ es) gs
            ∙ ap (λ x. x ++ client f gs)
                (client-append f w.sent es
                  ∙ ap (◌++◌ (client f w.sent)) c
                  ∙ append-nil (client f w.sent)),
        ap (announcements f) e
            ∙ announcements-append f (w.sent ++ es) gs
            ∙ ap (λ x. x + announcements f gs)
                (announcements-append f w.sent es
                  ∙ ap (◌+◌ (announcements f w.sent)) a
                  ∙ add-zero (announcements f w.sent)),
      )

  silent_adds :
      (es : List (Sent f)) (w w' : WorkerState f)
      → IsQuiet f es
      → w'.sent ≡ w.sent ++ es
      → OneMore [] 0 w w'
  unfolding OneMore bus client announcements
  silent_adds es w w' q e = adds es [] w w' q (e ∙ sym (append-nil (w.sent ++ es)))

  spoken_adds :
      (es : List (Sent f)) (t : TranscriptUpdate f) (x : Bool) (w w' : WorkerState f)
      → IsQuiet f es
      → w'.sent
        ≡ (w.sent ++ es)
          ++ ((if x then [] else speech_detected ∷ []) ++ published t ∷ transcript_update t ∷ [])
      → OneMore (t ∷ []) (if x then 0 else 1) w w'
  unfolding OneMore bus client announcements
  spoken_adds es t true w w' q e = adds es (published t ∷ transcript_update t ∷ []) w w' q e
  spoken_adds es t false w w' q e =
      adds es (speech_detected ∷ published t ∷ transcript_update t ∷ []) w w' q e

  -- Between two states, `n` transcripts were published and numbered on from the first counter.
  abbrev pub Numbers : WorkerState f → WorkerState f → ℕ → Type 0
  Numbers w w' n =
      (w'.sequence_counter ≡ w.sequence_counter + n)
      × (sequence_ids f (bus f w'.sent)
          ≡ sequence_ids f (bus f w.sent) ++ range w.sequence_counter n)

  Outcome-Numbers :
      (w w' : WorkerState f)
      → Outcome f w w'
      → w.sequence_counter + 1 < 2 ^ 64
      → Numbers w w' 0 ⊎ Numbers w w' 1
  unfolding OneMore range
  Outcome-Numbers w w' (silent es q e n d) h =
      let (b, c, a) = silent_adds es w w' q e in
      inl (omega (arith, n), ap (sequence_ids f) b ∙ sequence_ids-append (bus f w.sent) [])
  Outcome-Numbers w w' (spoke es t q i e n d) h =
      let (b, c, a) = spoken_adds es t w.speech_detected_emitted w w' q e in
      inr (
        omega (arith, n, h),
        ap (sequence_ids f) b
            ∙ sequence_ids-append (bus f w.sent) (t ∷ [])
            ∙ ap (λ x. sequence_ids f (bus f w.sent) ++ x ∷ []) i,
      )

  zero_more :
      (w w' w'' : WorkerState f) (n : ℕ) → Numbers w w' 0 → Numbers w' w'' n → Numbers w w'' n
  unfolding range
  zero_more w w' w'' n (c, i) (d, j) = (
    omega (arith, c, d),
    j
        ∙ ap (λ x. x ++ range w'.sequence_counter n)
            (i ∙ append-nil (sequence_ids f (bus f w.sent)))
        ∙ ap (λ x. sequence_ids f (bus f w.sent) ++ range x n) (c ∙ add-zero w.sequence_counter),
  )

  next_number :
      (w w' w'' : WorkerState f) (n : ℕ) → Numbers w w' 1 → Numbers w' w'' n → Numbers w w'' (suc n)
  unfolding range
  next_number w w' w'' n (c, i) (d, j) = (
    omega (arith, c, d),
    j
        ∙ ap (λ x. x ++ range w'.sequence_counter n) i
        ∙ append_assoc (sequence_ids f (bus f w.sent)) (w.sequence_counter ∷ [])
            (range w'.sequence_counter n)
        ∙ ap (λ x. sequence_ids f (bus f w.sent) ++ w.sequence_counter ∷ range x n) c,
  )

  module _ (u : Unicode) where
    -- As long as the 64-bit counter does not reach its end, what a session publishes on the
    -- transcript bus is numbered without gaps or repetitions: of the pending chunks at most each one
    -- is published, `n` in all, the counter grows by `n`, and the sequence ids that are published
    -- are the next `n` numbers from where the counter was, in order.
    pub process_all-Numbers :
        (items : List (Surroundings f × PendingChunk f)) (w : WorkerState f)
        → w.sequence_counter + length items < 2 ^ 64
        → (n : ℕ) × (n ≤ length items) × Numbers w (process_all f u items w) n
    unfolding process_all range
    process_all-Numbers [] w h =
        (0, omega arith, (omega arith, sym (append-nil (sequence_ids f (bus f w.sent)))))
    process_all-Numbers ((env, item) ∷ rest) w h =
        let w' = process_chunk f u env item w in
        elim (Outcome-Numbers w w' (chunk-Outcome f u env item w) (omega (arith, h))) [
          | inl m ↦
              let (n, b, k) = process_all-Numbers rest w' (omega (arith, h, m.0)) in
              (n, omega (arith, b), zero_more w w' (process_all f u rest w') n m k)
          | inr m ↦
              let (n, b, k) = process_all-Numbers rest w' (omega (arith, h, m.0)) in
              (suc n, omega (arith, b), next_number w w' (process_all f u rest w') n m k)
        ]

    agrees_after :
        (w w' : WorkerState f)
        → Outcome f w w'
        → bus f w.sent ≡ client f w.sent
        → bus f w'.sent ≡ client f w'.sent
    unfolding OneMore
    agrees_after w w' (silent es q e n d) h =
        let (b, c, a) = silent_adds es w w' q e in b ∙ ap (λ x. x ++ []) h ∙ sym c
    agrees_after w w' (spoke es t q i e n d) h =
        let (b, c, a) = spoken_adds es t w.speech_detected_emitted w w' q e in
        b ∙ ap (λ x. x ++ t ∷ []) h ∙ sym c

    -- The clients of the events and the subscribers of the transcript bus see the same transcripts
    -- in the same order, whatever chunks are processed, if they did before.
    bus-client :
        (items : List (Surroundings f × PendingChunk f)) (w : WorkerState f)
        → bus f w.sent ≡ client f w.sent
        → bus f (process_all f u items w).sent ≡ client f (process_all f u items w).sent
    unfolding process_all
    bus-client [] w h = h
    bus-client ((env, item) ∷ rest) w h =
        let w' = process_chunk f u env item w in
        bus-client rest w' (agrees_after w w' (chunk-Outcome f u env item w) h)

    abbrev is_positive : ℕ → Bool
    is_positive zero = false
    is_positive (suc n) = true

    -- Speech was announced once if something was published, and the flag tells.
    abbrev pub Announced : WorkerState f → Type 0
    Announced w =
        (announcements f w.sent ≡ min 1 (length (bus f w.sent)))
        × (w.speech_detected_emitted ≡ is_positive (length (bus f w.sent)))

    said_Announced :
        (x : Bool) (a l : ℕ)
        → a ≡ min 1 l
        → x ≡ is_positive l
        → (a + (if x then 0 else 1) ≡ min 1 (l + 1)) × (true ≡ is_positive (l + 1))
    said_Announced true a zero h k = absurd (false≢true (sym k))
    said_Announced false a zero h k = (omega (arith, h), refl)
    said_Announced true a (suc l) h k = (omega (arith, h), simp unary_clauses refl)
    said_Announced false a (suc l) h k = absurd (false≢true k)

    Outcome-Announced : (w w' : WorkerState f) → Outcome f w w' → Announced w → Announced w'
    unfolding OneMore
    Outcome-Announced w w' (silent es q e n d) (h, k) =
        let (b, c, a) = silent_adds es w w' q e in
        rw (d, a, b, append-nil (bus f w.sent)) (omega (arith, h), k)
    Outcome-Announced w w' (spoke es t q i e n d) (h, k) =
        let (b, c, a) = spoken_adds es t w.speech_detected_emitted w w' q e in
        rw (d, a, b, length-append (bus f w.sent) (t ∷ []))
          (said_Announced w.speech_detected_emitted (announcements f w.sent) (length (bus f w.sent))
            h k)

    process_all-Announced :
        (items : List (Surroundings f × PendingChunk f)) (w : WorkerState f)
        → Announced w
        → Announced (process_all f u items w)
    unfolding process_all
    process_all-Announced [] w h = h
    process_all-Announced ((env, item) ∷ rest) w h =
        let w' = process_chunk f u env item w in
        process_all-Announced rest w' (Outcome-Announced w w' (chunk-Outcome f u env item w) h)

    -- In a session that starts with the flag reset and nothing sent, `speech-detected` is sent
    -- exactly once if a transcript is published, and never if none is, whatever chunks are processed.
    pub announced_once :
        (items : List (Surroundings f × PendingChunk f)) (w : WorkerState f)
        → w.sent ≡ []
        → announcements f (process_all f u items (reset_speech_detected_flag f w)).sent
          ≡ min 1 (length (bus f (process_all f u items (reset_speech_detected_flag f w)).sent))
    unfolding reset_speech_detected_flag bus announcements
    announced_once items w h =
        (process_all-Announced items (reset_speech_detected_flag f w) (rw h (refl, refl))).0
