-- ===== src/Recording/Manager.antt =====
-- meetily-core/src/audio/recording_manager.rs: what the manager's stop paths do to the shared
-- session state, and the duration that they save with; the calls of stop() in
-- meetily-core/src/audio/recording_service.rs around them. The stream manager, the pipeline and the
-- saver are arguments: they may change the session state in any way.
pub mod Durations
use meetily_local.Common.{ℕ, Bool, true, false, Option, none, some, String, if◌then◌else◌, Float}
use meetily_local.Recording.Session.{
  RecordingState, stop_recording, cleanup, get_active_recording_duration,
}

-- `stop_and_save`: a path, nothing saved, or an error.
pub data SaveResult : Type 0 where
  saved : String → SaveResult
  not_saved : SaveResult
  save_error : String → SaveResult

saved_path : SaveResult → Option String
saved_path (saved p) = some p
saved_path not_saved = none
saved_path (save_error e) = none

-- The components that share the session state.
pub record Peers (D S C : Type 0) : Type 0 where
  pub stop_streams : RecordingState D S C → RecordingState D S C
  pub stop_pipeline : RecordingState D S C → RecordingState D S C
  pub force_flush_and_stop : RecordingState D S C → RecordingState D S C

module _ {D S C : Type 0} where
  unfoldable pub stop_streams_only : Peers D S C → RecordingState D S C → RecordingState D S C
  stop_streams_only peers s = peers.stop_pipeline (peers.stop_streams (stop_recording s))

  unfoldable pub stop_streams_and_force_flush :
      Peers D S C → RecordingState D S C → RecordingState D S C
  stop_streams_and_force_flush peers s =
      cleanup (peers.force_flush_and_stop (peers.stop_streams (stop_recording s)))

  unfoldable pub cleanup_without_save : Peers D S C → RecordingState D S C → RecordingState D S C
  cleanup_without_save peers s = cleanup (if s.recording then stop_streams_only peers s else s)

module _ (f : Float) {D S C : Type 0} where
  -- The saved path, and the duration that was given to the saver.
  unfoldable pub save_recording_only :
      (Option f.F → SaveResult)
      → (now later : ℕ) → RecordingState D S C
      → Option String × Option f.F
  unfolding saved_path
  save_recording_only stop_and_save now later s =
      let duration = get_active_recording_duration f now later s in
      (saved_path (stop_and_save duration), duration)

  -- The older path: the state after it, and the duration that was given to the saver.
  unfoldable pub stop_manager :
      Peers D S C
      → (Option f.F → SaveResult)
      → (now later : ℕ) → RecordingState D S C
      → RecordingState D S C × Option String × Option f.F
  unfolding saved_path
  stop_manager peers stop_and_save now later s =
      let duration = get_active_recording_duration f now later s in
      (stop_streams_only peers s, saved_path (stop_and_save duration), duration)
