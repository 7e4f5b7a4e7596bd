-- ===== src/Recording/Service.antt =====
-- meetily-core/src/audio/recording_service.rs, with transcript_bus.rs and add_transcript_segment of
-- recording_saver.rs beside it: the service that owns the process-wide slots of a recording. Its
-- statics are one record. A function stands for a stretch of start() or stop() that the others see
-- as one step; durations are integers. What only logs is left out.
pub mod Start
pub mod Stop
pub mod Segments
pub mod Phases
pub mod Overlap
pub mod Rows
mod Examples
use meetily_local.Common.{
  ℕ, zero, suc, ◌+◌, Bool, true, false, not, ◌&&◌, Option, none, some, String, List, [], ◌∷◌, ◌++◌,
  ◌==◌, if◌then◌else◌, codes, Float,
}
use meetily_local.Recording.Phase.{
  RecordingPhase, recording, paused, error, RecordingSnapshot, Statics, Live, set_phase,
  set_error_message,
}
use meetily_local.Recording.Session.{
  AudioError, user_message, RecordingState, ControlError, pause_recording, resume_recording,
  get_active_recording_duration, get_total_pause_duration,
}
use meetily_local.Saver.{digits_within}
use meetily_local.Transcription.Worker.{TranscriptUpdate}

-- The clock, and the length of the transcription queue.
pub record Reading : Type 0 where
  pub now : ℕ
  pub later : ℕ
  pub chunks : ℕ

pub data ServiceError : Type 0 where
  start_in_progress still_finalising already_recording not_recording : ServiceError
  stop_in_progress : ServiceError
  no_model cannot_open streams_failed sink_failed : String → ServiceError
  control : ControlError → ServiceError

module _ (f : Float) where
  pub record TranscriptSegment : Type 0 where
    pub id : List ℕ
    pub text : List ℕ
    pub timestamp : Option String
    pub audio_start_time : Option f.F
    pub audio_end_time : Option f.F
    pub duration : Option f.F
    pub display_time : Option String
    pub confidence : Option f.F
    pub sequence_id : Option ℕ
    pub speaker : Option String
    pub voice_profile_id : Option String
    pub source : Option String

  unfoldable pub segment_of : TranscriptUpdate f → TranscriptSegment
  segment_of update = record {
    id = codes "seg_" ++ digits_within 20 update.sequence_id;
    text = update.text;
    timestamp = none;
    audio_start_time = some update.audio_start_time;
    audio_end_time = some update.audio_end_time;
    duration = some update.duration;
    display_time = some update.timestamp;
    confidence = some update.confidence;
    sequence_id = some update.sequence_id;
    speaker = update.speaker;
    voice_profile_id = update.voice_profile_id;
    source = some update.source;
  }

  abbrev pub same_id : Option ℕ → Option ℕ → Bool
  same_id none none = true
  same_id none (some m) = false
  same_id (some n) none = false
  same_id (some n) (some m) = n == m

  -- The segment with the same id is replaced, or else the segment comes last.
  unfoldable pub upsert : TranscriptSegment → List TranscriptSegment → List TranscriptSegment
  upsert segment [] = segment ∷ []
  upsert segment (t ∷ ts) =
      let rest = upsert segment ts in
      if same_id t.sequence_id segment.sequence_id then segment ∷ ts else t ∷ rest

  -- What is sent to the sink, asked of the database, and asked of the other components.
  pub data Effect : Type 0 where
    recording_started : String → String → String → Effect
    recording_stopped : Option String → Option String → Option String → Effect
    recording_paused recording_resumed : Effect
    recording_error transcription_error transcription_warning : String → Effect
    shutdown_progress : String → ℕ → Effect
    created_row : String → String → Option String → Effect
    marked_interrupted : String → Effect
    marked_completed : String → Option f.F → Option String → Effect
    reset_speech_flag transcription_started partials_started : Effect
    transcription_awaited diarizer_shut_down model_unloaded : Effect
    -- All that went through the writer's channel, which is closed.
    writer_closed : List (String × TranscriptSegment) → Effect
    -- What the manager holds when its recording is saved.
    saved : List TranscriptSegment → Effect

  module _ (D S C : Type 0) where
    -- The manager, with what its saver holds; `journal` is what was sent to its journal writer.
    pub record Manager : Type 0 where
      pub state : RecordingState D S C
      pub meeting_id : Option String
      pub meeting_name : Option String
      pub meeting_folder : Option String
      pub transcript_segments : List TranscriptSegment
      pub journal : Option (List TranscriptSegment)

    -- `subscriber` is the meeting's id that the subscriber of the transcript bus holds, and `writer`
    -- what was enqueued for the database.
    pub record Service : Type 0 where
      pub start_in_progress : Bool
      pub stop_in_progress : Bool
      pub manager : Option Manager
      pub transcription_task : Bool
      pub writer : Option (List (String × TranscriptSegment))
      pub pending_segments : List TranscriptSegment
      pub subscriber : Option String
      pub phases : Statics × List (RecordingSnapshot f.F)
      pub effects : List Effect

  module _ {D S C : Type 0} where
    unfoldable pub emits : List Effect → Service D S C → Service D S C
    emits es s = record s { effects = s.effects ++ es }

    unfoldable pub add_transcript_segment : TranscriptSegment → Manager D S C → Manager D S C
    unfolding upsert
    add_transcript_segment segment m = record m {
      transcript_segments = upsert segment m.transcript_segments;
      journal = elim m.journal [ none ↦ none | some sent ↦ some (sent ++ segment ∷ []) ];
    }

    unfoldable pub replay_buffered_segments : List TranscriptSegment → Manager D S C → Manager D S C
    unfolding add_transcript_segment
    replay_buffered_segments [] m = m
    replay_buffered_segments (t ∷ ts) m = replay_buffered_segments ts (add_transcript_segment t m)

    -- What the subscriber does: to the writer, and to the manager or the buffer.
    unfoldable pub deliver : String → TranscriptSegment → Service D S C → Service D S C
    unfolding add_transcript_segment
    deliver id segment s =
        let s' = record s {
          writer = elim s.writer [ none ↦ none | some sent ↦ some (sent ++ (id, segment) ∷ []) ];
        } in
        elim s.manager [
          | some m ↦ record s' { manager = some (add_transcript_segment segment m) }
          | none ↦ record s' { pending_segments = s.pending_segments ++ segment ∷ [] }
        ]

    unfoldable pub publish : TranscriptUpdate f → Service D S C → Service D S C
    unfolding deliver segment_of
    publish update s = elim s.subscriber [ none ↦ s | some id ↦ deliver id (segment_of update) s ]

    unfoldable pub publish_all : List (TranscriptUpdate f) → Service D S C → Service D S C
    publish_all [] s = s
    publish_all (u ∷ us) s = publish_all us (publish u s)

    unfoldable pub is_recording : Service D S C → Bool
    is_recording s = elim s.manager [ none ↦ false | some m ↦ m.state.recording ]

    live : Reading → Option (Manager D S C) → Live f.F
    live r none = record { now = r.now; active = none; pauses = f.literal 0 0; chunks = r.chunks }
    live r (some m) = record {
      now = r.now;
      active = get_active_recording_duration f r.now r.later m.state;
      pauses = get_total_pause_duration f m.state;
      chunks = r.chunks;
    }

    unfoldable pub emit_phase : Reading → RecordingPhase → Service D S C → Service D S C
    unfolding live set_phase
    emit_phase r phase s = record s { phases = set_phase phase (live r s.manager) s.phases }

    unfoldable pub set_message : String → Service D S C → Service D S C
    set_message message s = record s {
      phases = (set_error_message (some message) s.phases.0, s.phases.1);
    }

    -- The stop that it spawns is another step.
    unfoldable pub spawn_fatal_error_stop : Reading → AudioError → Service D S C → Service D S C
    unfolding emits set_message emit_phase
    spawn_fatal_error_stop r e s =
        emit_phase r error
          (set_message (user_message e) (emits (recording_error (user_message e) ∷ []) s))

    -- The sink answers `some` to an event that it cannot emit.
    announce :
        Reading
        → RecordingPhase
        → Effect
        → Option String
        → Service D S C
        → Service D S C × Option ServiceError
    announce r phase e none s = (emit_phase r phase (emits (e ∷ []) s), none)
    announce r phase e (some problem) s = (emits (e ∷ []) s, some (sink_failed problem))

    changed :
        Reading
        → RecordingPhase
        → Effect
        → Option String
        → Service D S C
        → Manager D S C
        → RecordingState D S C × Option ControlError
        → Service D S C × Option ServiceError
    changed r phase e sink s m (state, some problem) = (s, some (control problem))
    changed r phase e sink s m (state, none) =
        announce r phase e sink (record s { manager = some (record m { state = state }) })

    unfoldable pub pause :
        Reading → Option String → Service D S C → Service D S C × Option ServiceError
    unfolding changed announce emits emit_phase
    pause r sink s = if not (is_recording s) then (s, some not_recording) else (elim s.manager [
      | none ↦ (s, some not_recording)
      | some m ↦ changed r paused recording_paused sink s m (pause_recording r.now m.state)
    ])

    unfoldable pub resume :
        Reading → Option String → Service D S C → Service D S C × Option ServiceError
    unfolding changed announce emits emit_phase
    resume r sink s = if not (is_recording s) then (s, some not_recording) else (elim s.manager [
      | none ↦ (s, some not_recording)
      | some m ↦ changed r recording recording_resumed sink s m (resume_recording r.now m.state)
    ])
