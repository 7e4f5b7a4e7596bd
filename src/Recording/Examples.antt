-- ===== src/Recording/Examples.antt =====
-- The theorems of the recording lifecycle at concrete sessions, and tests.
use meetily_local.Common.{
  ℕ, ◌+◌, ◌≡◌, ◌↔◌, refl, false, none, some, List, [], ◌∷◌, arith, is_some, Float, milliseconds,
}
use meetily_local.Recording.Phase.{
  idle, starting, recording, paused, stopping, finalising, error, Live, ok, err, next_phase,
}
use meetily_local.Recording.Phase.Table.{◌⟶◌, next_phase-⟶}
use meetily_local.Recording.Phase.History.{Call, enter, message}
use meetily_local.Recording.Session.{
  AudioError, device_disconnected, stream_failed, permission_denied, RecordingState,
  start_recording, cleanup, get_active_recording_duration, is_recoverable,
}
use meetily_local.Recording.Session.Errors.{
  report_all, deciding, called, newest_error, report_all-start_recording,
}
use meetily_local.Recording.Session.Pauses.{
  Action, pauses, resumes, reports, act_all, Measures, active_duration-act_all,
}
use meetily_local.Recording.Manager.{
  not_saved, Peers, stop_streams_and_force_flush, save_recording_only,
}
use meetily_local.Recording.Manager.Durations.{save-flush_none}

abbrev at : ℕ → Live ℕ
at n = record { now = n; active = none; pauses = 0; chunks = 0 }

-- Two sessions: the first fails, the second is paused and resumed.
abbrev two_sessions : List (Call ℕ)
two_sessions =
    enter starting (at 1)
    ∷ enter recording (at 2)
    ∷ enter error (at 3)
    ∷ message (some "Audio stream encountered an error")
    ∷ enter stopping (at 4)
    ∷ enter finalising (at 5)
    ∷ enter idle (at 6)
    ∷ enter starting (at 7)
    ∷ enter recording (at 8)
    ∷ enter paused (at 9)
    ∷ enter recording (at 10)
    ∷ []

next_phase-⟶_example :
    ((next_phase idle recording ≡ ok recording) ↔ (idle ⟶ recording))
    × ((next_phase idle recording ≡ err idle recording) ↔ (¬ (idle ⟶ recording)))
next_phase-⟶_example = next_phase-⟶ idle recording

abbrev fresh : RecordingState ℕ ℕ ℕ
fresh = record {
  recording = false;
  paused = false;
  microphone_device = none;
  system_device = none;
  audio_sender = none;
  error_count = 0;
  recoverable_error_count = 0;
  last_error = none;
  error_callback = some 7;
  errored = false;
  recording_start = none;
  pause_start = none;
  total_pause_duration = 0;
}

-- Two errors that can be recovered from, then two that cannot.
abbrev troubles : List AudioError
troubles = device_disconnected ∷ stream_failed ∷ permission_denied ∷ permission_denied ∷ []

report_all-start_recording_example :
    let (t, calls) = report_all troubles (start_recording 5 fresh) in
    (t.errored ≡ is_some (deciding 0 troubles))
    × (calls ≡ called 7 (deciding 0 troubles))
    × (t.last_error ≡ newest_error none troubles)
report_all-start_recording_example =
    report_all-start_recording troubles fresh 7 5 refl (omega arith)

one_call : (report_all troubles (start_recording 5 fresh)).1 ≡ (7, permission_denied) ∷ []
unfolding is_recoverable
one_call = report_all-start_recording_example.1

-- Durations in nanoseconds, which are not made seconds.
abbrev nanoseconds : Float
nanoseconds = record milliseconds { as_secs_f64 = λ n. n }

-- Paused from 20 to 50, with a second pause and a second resume out of turn.
abbrev breaks : List (ℕ × Action)
breaks =
    (20, pauses) ∷ (30, pauses) ∷ (50, resumes) ∷ (60, resumes) ∷ (70, reports stream_failed) ∷ []

active_duration-act_all_example :
    Measures nanoseconds
      (get_active_recording_duration nanoseconds 100 101
        (act_all breaks (start_recording 10 (cleanup fresh))))
      90
      60
      0
active_duration-act_all_example =
    active_duration-act_all nanoseconds fresh breaks 10 100 101 (omega arith) (omega arith)

abbrev peers : Peers ℕ ℕ ℕ
peers = record {
  stop_streams = λ s. s;
  stop_pipeline = λ s. s;
  force_flush_and_stop = λ s. record s { error_count = s.error_count + 1 };
}

save-flush_none_example :
    (save_recording_only nanoseconds
      (λ d. not_saved)
      100
      100
      (act_all
        ((90, reports stream_failed) ∷ [])
        (stop_streams_and_force_flush peers (act_all breaks (start_recording 10 fresh))))).1
    ≡ none
save-flush_none_example =
    save-flush_none nanoseconds peers (λ d. not_saved) (act_all breaks (start_recording 10 fresh))
      ((90, reports stream_failed) ∷ []) 100 100
