-- ===== src/Recording/Phase/History.antt =====
-- Sessions: what the phase state and the emitted snapshots are after any sequence of the calls
-- that change them.
use meetily_local.Common.{
  ℕ, zero, suc, ◌+◌, ◌^◌, ◌<◌, ◌≡◌, refl, Bool, true, false, ◌||◌, Option, none, some, String, List,
  [], ◌∷◌, ◌++◌, map, append-nil, append_assoc, arith, length, if◌then◌else◌,
}
use meetily_local.Recording.Phase.{
  RecordingPhase, idle, recording, RecordingSnapshot, Statics, Live, initial, set_phase, apply,
  build_snapshot, set_meeting_info, set_error_message,
}

pub data Call (F : Type 0) : Type 0 where
  enter : RecordingPhase → Live F → Call F
  info : Option String → Option String → Option String → Call F
  message : Option String → Call F

abbrev pub first : List ℕ → Option ℕ
first [] = none
first (t ∷ ts) = some t

abbrev pub newest {ℓ} : {A : Type ℓ} → A → List A → A
newest a [] = a
newest a (b ∷ bs) = newest b bs

-- `n`, `n + 1`, and so on: `k` numbers.
abbrev pub numbers : ℕ → ℕ → List ℕ
numbers n zero = []
numbers n (suc k) = n ∷ numbers (n + 1) k

abbrev or_else : Option ℕ → Option ℕ → Option ℕ
or_else none o = o
or_else (some t) o = some t

module _ {F : Type 0} where
  pub step : Call F → Statics × List (RecordingSnapshot F) → Statics × List (RecordingSnapshot F)
  unfolding set_phase set_meeting_info set_error_message
  step (enter p l) w = set_phase p l w
  step (info name folder id) (s, sent) = (set_meeting_info name folder id s, sent)
  step (message m) (s, sent) = (set_error_message m s, sent)

  unfoldable pub run :
      List (Call F) → Statics × List (RecordingSnapshot F) → Statics × List (RecordingSnapshot F)
  unfolding step
  run [] w = w
  run (c ∷ cs) w = run cs (step c w)

  -- The calls after the last one that entered `idle`.
  abbrev ends_session : Call F → Bool
  ends_session (enter idle l) = true
  ends_session _ = false

  abbrev any_end : List (Call F) → Bool
  any_end [] = false
  any_end (c ∷ cs) = ends_session c || any_end cs

  abbrev pub this_session : List (Call F) → List (Call F)
  this_session [] = []
  this_session (c ∷ cs) =
      let rest = this_session cs in
      if any_end cs then rest else (if ends_session c then cs else c ∷ cs)

  -- The clock readings at which the calls entered `recording`.
  abbrev pub recording_times : List (Call F) → List ℕ
  recording_times [] = []
  recording_times (enter recording l ∷ cs) = l.now ∷ recording_times cs
  recording_times (_ ∷ cs) = recording_times cs

  started_from :
      (cs : List (Call F)) (w : Statics × List (RecordingSnapshot F))
      → (run cs w).0.state.started_at_ms ≡ (
          if any_end cs
          then first (recording_times (this_session cs))
          else or_else w.0.state.started_at_ms (first (recording_times cs)))
  unfolding run
  started_from [] w = ground arith
  started_from (c ∷ cs) w = ground (arith, started_from cs (step c w))

  this_session_whole : (cs : List (Call F)) → any_end cs ≡ false → this_session cs ≡ cs
  this_session_whole [] h = refl
  this_session_whole (c ∷ cs) h = ground arith

  -- After any calls since the program started, the recording's start time is the clock reading of
  -- the first entry into `recording` since `idle` was last entered; pausing, resuming, errors and
  -- the setters leave it, and there is none if `recording` was not entered since.
  started_at-run :
      (cs : List (Call F))
      → (run cs (initial, [])).0.state.started_at_ms ≡ first (recording_times (this_session cs))
  started_at-run cs = ground (arith, started_from cs (initial, []), this_session_whole cs)

  -- The error messages that the calls set.
  abbrev pub messages : List (Call F) → List (Option String)
  messages [] = []
  messages (message m ∷ cs) = m ∷ messages cs
  messages (_ ∷ cs) = messages cs

  error_from :
      (cs : List (Call F)) (w : Statics × List (RecordingSnapshot F))
      → (run cs w).0.state.error ≡ (
          if any_end cs
          then newest none (messages (this_session cs))
          else newest w.0.state.error (messages cs))
  unfolding run
  error_from [] w = ground arith
  error_from (c ∷ cs) w = ground (arith, error_from cs (step c w))

  -- After any calls since the program started, the error shown is the message set last since
  -- `idle` was last entered, and none if none was set.
  error-run :
      (cs : List (Call F))
      → (run cs (initial, [])).0.state.error ≡ newest none (messages (this_session cs))
  error-run cs = ground (arith, error_from cs (initial, []), this_session_whole cs)

  -- The phases entered, in order.
  abbrev pub phases : List (Call F) → List RecordingPhase
  phases [] = []
  phases (enter p l ∷ cs) = p ∷ phases cs
  phases (_ ∷ cs) = phases cs

  sent_from :
      (cs : List (Call F)) (s : Statics) (sent : List (RecordingSnapshot F))
      → (run cs (s, sent)).1 ≡ sent ++ (run cs (s, [])).1
  unfolding run
  sent_from [] s sent = simp append-nil
  sent_from (enter p l ∷ cs) s sent =
      let s' = apply l.now p s in
      let r = build_snapshot l.active l.pauses l.chunks s' in
      ground (
        arith,
        sent_from cs s' (sent ++ r ∷ []),
        sent_from cs s' (r ∷ []),
        append_assoc sent (r ∷ []) (run cs (s', [])).1,
      )
  sent_from (info n f i ∷ cs) s sent = sent_from cs (set_meeting_info n f i s) sent
  sent_from (message m ∷ cs) s sent = sent_from cs (set_error_message m s) sent

  -- Every call that enters a phase emits one snapshot, in order, with the phase entered; and while
  -- the 64-bit counter does not wrap, the snapshots are numbered consecutively.
  emitted-run :
      (cs : List (Call F)) (s : Statics)
      → s.seq + length (phases cs) < 2 ^ 64
      → (map (λ r. r.phase) (run cs (s, [])).1 ≡ phases cs)
        × (map (λ r. r.seq) (run cs (s, [])).1 ≡ numbers (s.seq + 1) (length (phases cs)))
  unfolding run
  emitted-run [] s h = (refl, refl)
  emitted-run (enter p l ∷ cs) s h =
      let s' = apply l.now p s in
      let r = build_snapshot l.active l.pauses l.chunks s' in
      ground (arith, sent_from cs s' (r ∷ []), emitted-run cs s')
  emitted-run (info n f i ∷ cs) s h = emitted-run cs (set_meeting_info n f i s) h
  emitted-run (message m ∷ cs) s h = emitted-run cs (set_error_message m s) h
