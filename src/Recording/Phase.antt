-- ===== src/Recording/Phase.antt =====
-- The recording phase machine: meetily-core/src/audio/recording_phase.rs, and the buttons that
-- meetily-gpui/src/views/recording/logic.rs derives from a phase. The process-wide `PHASE_STATE`
-- and `SEQ` are one record that each operation returns; the wall clock is an argument.
pub mod Table
pub mod History
use meetily_local.Common.{
  ℕ, ◌+◌, ◌%◌, ◌^◌, Bool, true, false, ◌||◌, Option, none, some, String, List, [], ◌∷◌, ◌++◌,
}

pub data RecordingPhase : Type 0 where
  idle starting recording paused stopping finalising error : RecordingPhase

-- `RecordingSnapshot`; `F` stands for `f64`, whose values are passed through.
pub record RecordingSnapshot (F : Type 0) : Type 0 where
  pub phase : RecordingPhase
  pub started_at_ms : Option ℕ
  pub active_duration_secs : Option F
  pub total_pause_secs : F
  pub meeting_name : Option String
  pub folder_path : Option String
  pub meeting_id : Option String
  pub chunks_in_queue : ℕ
  pub error : Option String
  pub seq : ℕ

pub record PhaseState : Type 0 where
  pub phase : RecordingPhase
  pub started_at_ms : Option ℕ
  pub meeting_name : Option String
  pub folder_path : Option String
  pub meeting_id : Option String
  pub error : Option String

-- The two statics: the state behind its lock, and the counter of changes (a `u64`).
pub record Statics : Type 0 where
  pub state : PhaseState
  pub seq : ℕ

abbrev pub u64 : ℕ → ℕ
u64 n = n % 2 ^ 64

abbrev pub initial : Statics
initial = record {
  state = record {
    phase = idle;
    started_at_ms = none;
    meeting_name = none;
    folder_path = none;
    meeting_id = none;
    error = none;
  };
  seq = 0;
}

pub data PhaseResult : Type 0 where
  ok : RecordingPhase → PhaseResult
  -- `invalid recording phase transition: {current} -> {target}`
  err : RecordingPhase → RecordingPhase → PhaseResult

-- `target == Error`
abbrev is_error : RecordingPhase → Bool
is_error error = true
is_error _ = false

-- The `matches!` of `next_phase`.
abbrev listed : RecordingPhase → RecordingPhase → Bool
listed idle starting = true
listed starting recording = true
listed starting idle = true
listed recording paused = true
listed paused recording = true
listed recording stopping = true
listed paused stopping = true
listed stopping finalising = true
listed finalising idle = true
listed error stopping = true
listed error idle = true
listed _ _ = false

unfoldable pub next_phase : RecordingPhase → RecordingPhase → PhaseResult
next_phase current target = elim (is_error target || listed current target) [
  | true ↦ ok target
  | false ↦ err current target
]

pub current_phase : Statics → RecordingPhase
current_phase s = s.state.phase

-- The `match phase` of `apply`: the guard of its first arm reads `started_at_ms`.
stamp : RecordingPhase → Option ℕ → ℕ → PhaseState → PhaseState
stamp recording none now state = record state { started_at_ms = some now }
stamp idle _ now state = record state {
  started_at_ms = none;
  meeting_name = none;
  folder_path = none;
  meeting_id = none;
  error = none;
}
stamp _ _ now state = state

-- A transition outside the table is logged and applied all the same.
unfoldable pub apply : ℕ → RecordingPhase → Statics → Statics
unfolding stamp
apply now phase s =
    let stamped = stamp phase s.state.started_at_ms now s.state in
    record { state = record stamped { phase = phase }; seq = u64 (s.seq + 1) }

pub set_meeting_info : Option String → Option String → Option String → Statics → Statics
set_meeting_info name folder id s = record s {
  state = record state { meeting_name = name; folder_path = folder; meeting_id = id };
}
  where
    open s use {state}

pub set_error_message : Option String → Statics → Statics
set_error_message message s = record s { state = record state { error = message } }
  where
    open s use {state}

-- The live figures that a caller of `set_phase` supplies, and the clock's reading.
pub record Live (F : Type 0) : Type 0 where
  pub now : ℕ
  pub active : Option F
  pub pauses : F
  pub chunks : ℕ

module _ {F : Type 0} where
  unfoldable pub build_snapshot : Option F → F → ℕ → Statics → RecordingSnapshot F
  build_snapshot active pauses chunks s = record {
    phase = s.state.phase;
    started_at_ms = s.state.started_at_ms;
    active_duration_secs = active;
    total_pause_secs = pauses;
    meeting_name = s.state.meeting_name;
    folder_path = s.state.folder_path;
    meeting_id = s.state.meeting_id;
    chunks_in_queue = chunks;
    error = s.state.error;
    seq = s.seq;
  }

  -- The sink is the list of what was emitted, oldest first: a sink's failure is only logged.
  unfoldable pub set_phase :
      RecordingPhase
      → Live F
      → Statics × List (RecordingSnapshot F)
      → Statics × List (RecordingSnapshot F)
  unfolding apply build_snapshot
  set_phase phase l (s, sent) =
      let s' = apply l.now phase s in
      (s', sent ++ build_snapshot l.active l.pauses l.chunks s' ∷ [])

pub record ButtonState : Type 0 where
  pub can_start : Bool
  pub can_pause : Bool
  pub can_resume : Bool
  pub can_stop : Bool

-- `ButtonState::default()`
abbrev no_buttons : ButtonState
no_buttons = record { can_start = false; can_pause = false; can_resume = false; can_stop = false }

unfoldable pub button_state : RecordingPhase → ButtonState
button_state idle = record no_buttons { can_start = true }
button_state error = record no_buttons { can_start = true }
button_state starting = no_buttons
button_state stopping = no_buttons
button_state finalising = no_buttons
button_state recording = record no_buttons { can_pause = true; can_stop = true }
button_state paused = record no_buttons { can_resume = true; can_stop = true }
