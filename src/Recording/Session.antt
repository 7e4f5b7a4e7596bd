-- ===== src/Recording/Session.antt =====
-- meetily-core/src/audio/recording_state.rs: the state that one recording session shares between
-- its threads, each method as a function that returns the new state. An `Instant` is a number of
-- nanoseconds, read from the clock by the caller of a function and passed as `now`; a difference of
-- instants stops at 0, as `elapsed` does. A duration is a number of nanoseconds until `as_secs_f64`
-- makes it an `f64`. The devices, the channel's sender and the callback are types of the environment.
pub mod Errors
pub mod Pauses
use meetily_local.Common.{
  ℕ, ◌+◌, ◌-◌, ◌%◌, ◌^◌, Bool, true, false, not, ◌&&◌, ◌||◌, Option, none, some, String, List, leb,
  ltb, if◌then◌else◌, Float,
}

pub data DeviceType : Type 0 where
  microphone system : DeviceType

-- `AudioChunk`, with `F` for the sample and timestamp types `f32` and `f64`.
pub record AudioChunk (F : Type 0) : Type 0 where
  pub samples : List F
  pub sample_rate : ℕ
  pub timestamp : F
  pub chunk_id : ℕ
  pub device_type : DeviceType

pub data AudioError : Type 0 where
  device_disconnected stream_failed processing_failed transcription_failed : AudioError
  channel_closed initialization_failed configuration_error permission_denied : AudioError
  buffer_overflow sample_rate_unsupported : AudioError

unfoldable pub is_recoverable : AudioError → Bool
is_recoverable device_disconnected = true
is_recoverable stream_failed = true
is_recoverable processing_failed = true
is_recoverable transcription_failed = true
is_recoverable channel_closed = false
is_recoverable initialization_failed = false
is_recoverable configuration_error = false
is_recoverable permission_denied = false
is_recoverable buffer_overflow = true
is_recoverable sample_rate_unsupported = false

pub user_message : AudioError → String
user_message device_disconnected = "Audio device was disconnected"
user_message stream_failed = "Audio stream encountered an error"
user_message processing_failed = "Audio processing failed"
user_message transcription_failed = "Speech transcription failed"
user_message channel_closed = "Audio channel was closed unexpectedly"
user_message initialization_failed = "Failed to initialize audio system"
user_message configuration_error = "Audio configuration error"
user_message permission_denied = "Microphone permission denied"
user_message buffer_overflow = "Audio buffer overflow"
user_message sample_rate_unsupported = "Audio sample rate not supported"

pub record RecordingState (Device Sender Callback : Type 0) : Type 0 where
  pub recording : Bool
  pub paused : Bool
  pub microphone_device : Option Device
  pub system_device : Option Device
  pub audio_sender : Option Sender
  pub error_count : ℕ
  pub recoverable_error_count : ℕ
  pub last_error : Option AudioError
  pub error_callback : Option Callback
  pub errored : Bool
  pub recording_start : Option ℕ
  pub pause_start : Option ℕ
  pub total_pause_duration : ℕ

pub data ControlError : Type 0 where
  cannot_pause already_paused cannot_resume not_paused : ControlError

-- What a fallible method returns: the error, or nothing, beside the state.
pub data SendError : Type 0 where
  send_failed not_ready : SendError

abbrev pub u32 : ℕ → ℕ
u32 n = n % 2 ^ 32

module _ {D S C : Type 0} where
  unfoldable pub new : RecordingState D S C
  new = record {
    recording = false;
    paused = false;
    microphone_device = none;
    system_device = none;
    audio_sender = none;
    error_count = 0;
    recoverable_error_count = 0;
    last_error = none;
    error_callback = none;
    errored = false;
    recording_start = none;
    pause_start = none;
    total_pause_duration = 0;
  }

  unfoldable pub start_recording : ℕ → RecordingState D S C → RecordingState D S C
  start_recording now s = record s {
    recording = true;
    recording_start = some now;
    error_count = 0;
    recoverable_error_count = 0;
    last_error = none;
    errored = false;
  }

  unfoldable pub stop_recording : RecordingState D S C → RecordingState D S C
  stop_recording s = record s {
    recording = false;
    paused = false;
    pause_start = none;
    audio_sender = none;
    microphone_device = none;
    system_device = none;
  }

  unfoldable pub pause_recording :
      ℕ → RecordingState D S C → RecordingState D S C × Option ControlError
  pause_recording now s =
      if not s.recording
      then (s, some cannot_pause)
      else (if s.paused
          then (s, some already_paused)
          else (record s { paused = true; pause_start = some now }, none))

  -- `pause_start.take()`, and the time since is added to the total.
  end_pause : ℕ → Option ℕ → RecordingState D S C → RecordingState D S C
  end_pause now none s = s
  end_pause now (some p) s = record s {
    pause_start = none;
    total_pause_duration = s.total_pause_duration + (now - p);
  }

  unfoldable pub resume_recording :
      ℕ → RecordingState D S C → RecordingState D S C × Option ControlError
  unfolding end_pause
  resume_recording now s =
      if not s.recording
      then (s, some cannot_resume)
      else (if not s.paused
          then (s, some not_paused)
          else (let t = end_pause now s.pause_start s in record t { paused = false }, none))

  unfoldable pub is_active : RecordingState D S C → Bool
  is_active s = s.recording && not s.paused

  pub set_microphone_device : D → RecordingState D S C → RecordingState D S C
  set_microphone_device d s = record s { microphone_device = some d }

  pub set_system_device : D → RecordingState D S C → RecordingState D S C
  set_system_device d s = record s { system_device = some d }

  pub set_audio_sender : S → RecordingState D S C → RecordingState D S C
  set_audio_sender sender s = record s { audio_sender = some sender }

  unfoldable pub set_error_callback : C → RecordingState D S C → RecordingState D S C
  set_error_callback c s = record s { error_callback = some c }

  -- `W` is what lies behind the channel, and `send` answers `none` if its receiver is gone.
  pub send_audio_chunk {ℓ} :
      {F : Type 0} {W : Type ℓ}
      → (S → AudioChunk F → W → Option W)
      → AudioChunk F
      → RecordingState D S C
      → W
      → W × Option SendError
  send_audio_chunk send chunk s w = if s.paused then (w, none) else (elim s.audio_sender [
    | none ↦ (w, some not_ready)
    | some sender ↦ elim (send sender chunk w) [
      | none ↦ (w, some send_failed)
      | some w' ↦ (w', none)
    ]
  ])

  -- Count the error, and say whether it is fatal.
  count_error : AudioError → RecordingState D S C → RecordingState D S C × Bool
  count_error e s =
      let count = u32 (s.error_count + 1) in
      let recoverable_count = u32 (s.recoverable_error_count + 1) in
      let t = record s { error_count = count; last_error = some e } in
      if is_recoverable e
      then (
        record t { recoverable_error_count = recoverable_count },
        leb 10 recoverable_count || leb 15 count,
      )
      else (t, true)

  -- The error flag is swapped: the callback runs if it was down. `none` is no run of a callback.
  unfoldable pub report_error :
      AudioError → RecordingState D S C → RecordingState D S C × Option (C × AudioError)
  unfolding count_error
  report_error e s =
      let (t, fatal) = count_error e s in
      if fatal
      then (
        record t { errored = true },
        if t.errored then none else (elim t.error_callback [ none ↦ none | some c ↦ some (c, e) ]),
      )
      else (t, none)

  pub has_fatal_error : RecordingState D S C → Bool
  has_fatal_error s = elim s.last_error [
    | none ↦ false
    | some e ↦ not (is_recoverable e) && ltb 0 s.error_count
  ]

  unfoldable pub cleanup : RecordingState D S C → RecordingState D S C
  unfolding stop_recording
  cleanup s = record (stop_recording s) {
    microphone_device = none;
    system_device = none;
    audio_sender = none;
    last_error = none;
    error_callback = none;
    recording_start = none;
    pause_start = none;
    total_pause_duration = 0;
    error_count = 0;
    recoverable_error_count = 0;
    errored = false;
  }

module _ (f : Float) {D S C : Type 0} where
  pub get_recording_duration : ℕ → RecordingState D S C → Option f.F
  get_recording_duration now s = elim s.recording_start [
    | none ↦ none
    | some t ↦ some (f.as_secs_f64 (now - t))
  ]

  unfoldable pub get_total_pause_duration : RecordingState D S C → f.F
  get_total_pause_duration s = f.as_secs_f64 s.total_pause_duration

  -- The pause that is going on.
  unfoldable pub get_current_pause_duration : ℕ → RecordingState D S C → Option f.F
  get_current_pause_duration now s =
      if s.paused
      then (elim s.pause_start [ none ↦ none | some p ↦ some (f.as_secs_f64 (now - p)) ])
      else none

  -- The local `current_pause`.
  unfoldable pub current_pause : ℕ → RecordingState D S C → f.F
  current_pause now s =
      if s.paused
      then (elim s.pause_start [ none ↦ f.literal 0 0 | some p ↦ f.as_secs_f64 (now - p) ])
      else f.literal 0 0

  -- The clock is read twice: at `now` since the start, and at `later` since the pause.
  unfoldable pub get_active_recording_duration : ℕ → ℕ → RecordingState D S C → Option f.F
  unfolding current_pause get_total_pause_duration
  get_active_recording_duration now later s = elim s.recording_start [
    | none ↦ none
    | some t ↦ some (
        f.sub (f.sub (f.as_secs_f64 (now - t)) (get_total_pause_duration s))
          (current_pause later s))
  ]
