-- ===== src/Transcription/Worker/Sending.antt =====
-- What the worker sends for one chunk.
use meetily_local.Common.{
  ℕ, suc, ◌+◌, ◌%◌, ◌^◌, ◌≡◌, refl, sym, ap, true, ◌&&◌, Option, none, some, List, [], ◌∷◌, ◌++◌,
  ◌==◌, append-nil, arith, if◌then◌else◌, Bool-cases, inl, inr, Float,
}
use meetily_local.Recording.Session.{DeviceType, AudioChunk}
use meetily_local.Transcription.Echo.{
  Unicode, AcceptedSegment, EchoDecision, accept, drop_as_mic_echo, check,
}
use meetily_local.Transcription.Worker.{
  TranscriptionError, PendingChunk, Surroundings, TranscriptUpdate, Sent, published,
  transcript_update, speech_detected, transcription_error, transcription_warning, WorkerState,
  sends, Transcribed, ok, err, EngineAnswer, answer, answered, no_model_loaded, failed_otherwise,
  transcribe_samples, transcribe_chunk_with_provider, warning, is_kept, update_of, emit,
  emit_unless_echo, process_transcript, process_chunk, model_not_loaded, audio_too_short,
  engine_failed, unsupported_language, is_system,
}

module _ (f : Float) where
  -- Events that are no transcript and no speech.
  abbrev pub IsQuiet : List (Sent f) → Type 0
  IsQuiet [] = Unit
  IsQuiet (transcription_error e ∷ es) = IsQuiet es
  IsQuiet (transcription_warning e ∷ es) = IsQuiet es
  IsQuiet (published t ∷ es) = ⊥
  IsQuiet (transcript_update t ∷ es) = ⊥
  IsQuiet (speech_detected ∷ es) = ⊥

  -- What went to the bus, what went to the client, and how often speech was announced.
  unfoldable pub bus : List (Sent f) → List (TranscriptUpdate f)
  bus [] = []
  bus (published t ∷ es) = t ∷ bus es
  bus (transcript_update t ∷ es) = bus es
  bus (speech_detected ∷ es) = bus es
  bus (transcription_error e ∷ es) = bus es
  bus (transcription_warning e ∷ es) = bus es

  unfoldable pub client : List (Sent f) → List (TranscriptUpdate f)
  client [] = []
  client (published t ∷ es) = client es
  client (transcript_update t ∷ es) = t ∷ client es
  client (speech_detected ∷ es) = client es
  client (transcription_error e ∷ es) = client es
  client (transcription_warning e ∷ es) = client es

  unfoldable pub announcements : List (Sent f) → ℕ
  announcements [] = 0
  announcements (published t ∷ es) = announcements es
  announcements (transcript_update t ∷ es) = announcements es
  announcements (speech_detected ∷ es) = suc (announcements es)
  announcements (transcription_error e ∷ es) = announcements es
  announcements (transcription_warning e ∷ es) = announcements es

  abbrev pub sequence_ids : List (TranscriptUpdate f) → List ℕ
  sequence_ids [] = []
  sequence_ids (t ∷ ts) = t.sequence_id ∷ sequence_ids ts

  pub bus-append : (es gs : List (Sent f)) → bus (es ++ gs) ≡ bus es ++ bus gs
  unfolding bus
  bus-append [] gs = refl
  bus-append (published t ∷ es) gs = ap (◌∷◌ t) (bus-append es gs)
  bus-append (transcript_update t ∷ es) gs = bus-append es gs
  bus-append (speech_detected ∷ es) gs = bus-append es gs
  bus-append (transcription_error e ∷ es) gs = bus-append es gs
  bus-append (transcription_warning e ∷ es) gs = bus-append es gs

  pub client-append : (es gs : List (Sent f)) → client (es ++ gs) ≡ client es ++ client gs
  unfolding client
  client-append [] gs = refl
  client-append (published t ∷ es) gs = client-append es gs
  client-append (transcript_update t ∷ es) gs = ap (◌∷◌ t) (client-append es gs)
  client-append (speech_detected ∷ es) gs = client-append es gs
  client-append (transcription_error e ∷ es) gs = client-append es gs
  client-append (transcription_warning e ∷ es) gs = client-append es gs

  pub announcements-append :
      (es gs : List (Sent f)) → announcements (es ++ gs) ≡ announcements es + announcements gs
  unfolding announcements
  announcements-append [] gs = omega arith
  announcements-append (published t ∷ es) gs = announcements-append es gs
  announcements-append (transcript_update t ∷ es) gs = announcements-append es gs
  announcements-append (speech_detected ∷ es) gs = omega (arith, announcements-append es gs)
  announcements-append (transcription_error e ∷ es) gs = announcements-append es gs
  announcements-append (transcription_warning e ∷ es) gs = announcements-append es gs

  IsQuiet-append : (es gs : List (Sent f)) → IsQuiet es → IsQuiet gs → IsQuiet (es ++ gs)
  IsQuiet-append [] gs h k = k
  IsQuiet-append (published t ∷ es) gs h k = h
  IsQuiet-append (transcript_update t ∷ es) gs h k = h
  IsQuiet-append (speech_detected ∷ es) gs h k = h
  IsQuiet-append (transcription_error e ∷ es) gs h k = IsQuiet-append es gs h k
  IsQuiet-append (transcription_warning e ∷ es) gs h k = IsQuiet-append es gs h k

  pub quiet :
      (es : List (Sent f)) → IsQuiet es → (bus es ≡ []) × (client es ≡ []) × (announcements es ≡ 0)
  unfolding bus client announcements
  quiet [] h = (refl, refl, refl)
  quiet (published t ∷ es) h = absurd h
  quiet (transcript_update t ∷ es) h = absurd h
  quiet (speech_detected ∷ es) h = absurd h
  quiet (transcription_error e ∷ es) h = quiet es h
  quiet (transcription_warning e ∷ es) h = quiet es h

  -- What one chunk does to the state: nothing but errors, or one transcript.
  pub data Outcome (w : WorkerState f) (w' : WorkerState f) : Type 0 where
    silent :
        (es : List (Sent f))
        → IsQuiet es
        → w'.sent ≡ w.sent ++ es
        → w'.sequence_counter ≡ w.sequence_counter
        → w'.speech_detected_emitted ≡ w.speech_detected_emitted
        → Outcome w w'
    spoke :
        (es : List (Sent f)) (t : TranscriptUpdate f)
        → IsQuiet es
        → t.sequence_id ≡ w.sequence_counter
        → w'.sent
          ≡ (w.sent ++ es)
            ++ ((if w.speech_detected_emitted then [] else speech_detected ∷ [])
                ++ published t ∷ transcript_update t ∷ [])
        → w'.sequence_counter ≡ (w.sequence_counter + 1) % 2 ^ 64
        → w'.speech_detected_emitted ≡ true
        → Outcome w w'

  module _ (u : Unicode) where
    answer-IsQuiet : (a : EngineAnswer f) → IsQuiet (answer f u a).1
    unfolding answer
    answer-IsQuiet (answered text confidence partial) = tt
    answer-IsQuiet no_model_loaded = tt
    answer-IsQuiet failed_otherwise = tt

    samples-IsQuiet :
        (env : Surroundings f) (chunk : AudioChunk f.F) (xs : Option (List f.F))
        → IsQuiet (transcribe_samples f u env chunk xs).1
    unfolding transcribe_samples
    samples-IsQuiet env chunk none = tt
    samples-IsQuiet env chunk (some []) = tt
    samples-IsQuiet env chunk (some (x ∷ xs)) =
        elim (Bool-cases
          (is_system f chunk.device_type && f.lt (env.energy (x ∷ xs)) (f.literal 5 4))) [
            | inl e ↦ rw e tt
            | inr e ↦ rw e (answer-IsQuiet (env.transcribe (x ∷ xs)))
          ]

    warning-IsQuiet : (e : TranscriptionError) → IsQuiet (warning f u e)
    unfolding warning
    warning-IsQuiet model_not_loaded = tt
    warning-IsQuiet (audio_too_short samples minimum) = tt
    warning-IsQuiet engine_failed = tt
    warning-IsQuiet (unsupported_language l) = tt

    emit-Outcome :
        (source : DeviceType) (t : TranscriptUpdate f) (es : List (Sent f)) (w : WorkerState f)
        (d : EchoDecision × List (AcceptedSegment f))
        → IsQuiet es
        → t.sequence_id ≡ w.sequence_counter
        → Outcome w (emit_unless_echo f u source t (sends f es w) d)
    unfolding emit_unless_echo emit sends
    emit-Outcome source t es w (accept, buffer) q n = spoke es t q n refl refl refl
    emit-Outcome source t es w (drop_as_mic_echo, buffer) q n = silent es q refl refl refl

    transcript-Outcome :
        (env : Surroundings f) (item : PendingChunk f) (w : WorkerState f)
        (r : Transcribed f × List (Sent f))
        → IsQuiet r.1
        → Outcome w (process_transcript f u env item w r)
    unfolding process_transcript sends update_of
    transcript-Outcome env item w (err e, es) q =
        silent (es ++ warning f u e) (IsQuiet-append es (warning f u e) q (warning-IsQuiet e)) refl
          refl refl
    transcript-Outcome env item w (ok text confidence partial, es) q =
        elim (Bool-cases (is_kept f u text confidence)) [
          | inl k ↦
              let t = update_of f u env item text confidence partial w.sequence_counter in
              rw k (
                emit-Outcome item.chunk.device_type t es w
                  (check f u item.chunk.device_type text t.audio_start_time t.audio_end_time
                    w.echo_buffer)
                  q refl)
          | inr k ↦ rw k (silent es q refl refl refl)
        ]

    pub chunk-Outcome :
        (env : Surroundings f) (item : PendingChunk f) (w : WorkerState f)
        → Outcome w (process_chunk f u env item w)
    unfolding process_chunk transcribe_chunk_with_provider
    chunk-Outcome env item w = elim (Bool-cases env.is_model_loaded) [
      | inr e ↦ rw e (silent [] tt (sym (append-nil w.sent)) refl refl)
      | inl e ↦ rw e (
          transcript-Outcome env item w (transcribe_chunk_with_provider f u env item.chunk) (
            samples-IsQuiet env item.chunk (
              if item.chunk.sample_rate == 16000
              then some item.chunk.samples
              else env.resample item.chunk.samples item.chunk.sample_rate)))
    ]
