-- ===== src/Recording/Manager/Durations.antt =====
-- The duration with which each stop path saves a recording.
use meetily_local.Common.{ℕ, ◌≡◌, refl, Option, none, List, [], ◌∷◌, Float, arith}
use meetily_local.Recording.Session.{
  RecordingState, pause_recording, resume_recording, report_error, cleanup,
  get_active_recording_duration,
}
use meetily_local.Recording.Session.Pauses.{Action, pauses, resumes, reports, act, act_all}
use meetily_local.Recording.Manager.{
  SaveResult, Peers, stop_streams_and_force_flush, save_recording_only,
}

module _ {D S C : Type 0} where
  recording_start-act_all :
      (calls : List (ℕ × Action)) (s : RecordingState D S C)
      → (act_all calls s).recording_start ≡ s.recording_start
  unfolding act_all act pause_recording resume_recording report_error
  recording_start-act_all [] s = refl
  recording_start-act_all ((u, pauses) ∷ rest) s =
      ground (arith, recording_start-act_all rest (act u pauses s))
  recording_start-act_all ((u, resumes) ∷ rest) s =
      ground (arith, recording_start-act_all rest (act u resumes s))
  recording_start-act_all ((u, reports e) ∷ rest) s =
      ground (arith, recording_start-act_all rest (act u (reports e) s))

  -- stop() flushes, drains and saves. Whatever was recorded, whatever the components do to the
  -- state, and whatever calls pause, resume or report errors during the drain, the save has no
  -- duration.
  pub save-flush_none :
      (f : Float) (peers : Peers D S C) (save : Option f.F → SaveResult) (s : RecordingState D S C)
      (drain : List (ℕ × Action)) (now later : ℕ)
      → (save_recording_only f save now later
          (act_all drain (stop_streams_and_force_flush peers s))).1
        ≡ none
  unfolding stop_streams_and_force_flush save_recording_only cleanup get_active_recording_duration
  save-flush_none f peers save s drain now later =
      ground (arith, recording_start-act_all drain (stop_streams_and_force_flush peers s))
