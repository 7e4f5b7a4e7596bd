-- ===== src/Recording/Service/Stop.antt =====
-- stop() of meetily-core/src/audio/recording_service.rs, as the stretches between which segments are
-- published: its entry up to the flush, the replay of the buffered segments, the manager's return to
-- its slot, and what follows the drain of the transcription queue.
use meetily_local.Common.{
  ℕ, Bool, true, false, not, ◌&&◌, Option, none, some, String, List, [], ◌∷◌, ◌++◌, if◌then◌else◌,
  Float,
}
use meetily_local.Recording.Phase.{RecordingPhase, error, idle, stopping, finalising}
use meetily_local.Recording.Manager.{
  Peers, SaveResult, stop_streams_and_force_flush, save_recording_only,
}
use meetily_local.Recording.Service.{
  Reading, ServiceError, stop_in_progress, streams_failed, sink_failed, TranscriptSegment, Effect,
  recording_stopped, shutdown_progress, marked_interrupted, marked_completed, transcription_awaited,
  writer_closed, diarizer_shut_down, model_unloaded, saved, Manager, Service, emits, emit_phase,
  set_message, publish_all, replay_buffered_segments,
}
use meetily_local.Transcription.Worker.{TranscriptUpdate}

-- What a stop meets: the answers of the saver (`none` is a save that takes more than five minutes),
-- of the settings and of the sink. The flush of this manager never fails.
pub record Ending (f : Float) (D S C : Type 0) : Type 0 where
  pub peers : Peers D S C
  pub flush_error : Option String
  pub save : Option (Option f.F → SaveResult)
  pub save_time : ℕ
  pub save_later : ℕ
  pub unload_model : Bool
  pub has_pool : Bool
  pub sink : Option String

abbrev pub is_error : RecordingPhase → Bool
is_error error = true
is_error _ = false

abbrev pub fst_none : Option String → Option String → Option String
fst_none none b = none
fst_none (some a) none = none
fst_none (some a) (some b) = some a

module _ (f : Float) where
  abbrev pub closed_writer : Option (List (String × TranscriptSegment f)) → List (Effect f)
  closed_writer none = []
  closed_writer (some sent) = writer_closed sent ∷ []

  -- Where there is a transcription task, a model to unload and a writer.
  abbrev pub drain_effects :
      Bool → Bool → Option (List (String × TranscriptSegment f)) → List (Effect f)
  drain_effects has_task unloads w =
      (if has_task then transcription_awaited ∷ [] else [])
      ++ (closed_writer w
          ++ diarizer_shut_down
            ∷ ((if unloads
                  then shutdown_progress "unloading_model" 70 ∷ model_unloaded ∷ []
                  else [])
                ++ shutdown_progress "finalizing" 90 ∷ []))

  unfoldable pub interrupted_best_effort : Bool → Option String → List (Effect f)
  interrupted_best_effort has_pool none = []
  interrupted_best_effort false (some id) = []
  interrupted_best_effort true (some id) = marked_interrupted id ∷ []

  -- What is published while the flush runs, between the replay and the manager's return, and during
  -- the drain.
  pub record Published : Type 0 where
    pub during_flush : List (TranscriptUpdate f)
    pub between : List (TranscriptUpdate f)
    pub during_drain : List (TranscriptUpdate f)

  module _ (D S C : Type 0) where
    -- The locals of a stop that is going on, with the manager that it took.
    pub record Stopping : Type 0 where
      pub was_fatal_error : Bool
      pub meeting_id : Option String
      pub taken : Option (Manager f D S C)

    pub data Begun : Type 0 where
      inactive refused : Begun
      begun : Stopping → Begun

module _ (f : Float) {D S C : Type 0} where
  unfoldable pub take_manager : Reading → Service f D S C → Service f D S C × Begun f D S C
  take_manager r s =
      let s' =
        emits f (shutdown_progress "stopping_audio" 20 ∷ [])
          (emit_phase f r stopping (record s { stop_in_progress = true })) in
      (
        record s' { manager = none },
        begun (record {
          was_fatal_error = is_error s.phases.0.state.phase;
          meeting_id = elim s.manager [ none ↦ none | some m ↦ m.meeting_id ];
          taken = s.manager;
        }),
      )

  abbrev pub is_present : Option (Manager f D S C) → Bool
  is_present none = false
  is_present (some m) = true

  unfoldable pub begin_stop : Reading → Service f D S C → Service f D S C × Begun f D S C
  unfolding take_manager
  begin_stop r s =
      if not (is_present s.manager) && not s.stop_in_progress
      then (s, inactive)
      else (if s.stop_in_progress then (s, refused) else take_manager r s)

  -- The flush ended: what was published in the meantime is replayed.
  unfoldable pub replay :
      Ending f D S C → Stopping f D S C → Service f D S C → Service f D S C × Stopping f D S C
  unfolding stop_streams_and_force_flush
  replay env l s = elim l.taken [
    | none ↦ (s, l)
    | some m ↦ (
      record s { pending_segments = [] },
      record l {
        taken = some (
            replay_buffered_segments f s.pending_segments
              (record m { state = stop_streams_and_force_flush env.peers m.state }));
      },
    )
  ]

  unfoldable pub into_slot : Option (Manager f D S C) → Service f D S C → Service f D S C
  into_slot none s = s
  into_slot (some m) s = record s { manager = some m }

  unfoldable pub after_flush :
      Reading
      → Bool
      → Option String
      → Option String
      → Service f D S C
      → Service f D S C × Option ServiceError
  unfolding interrupted_best_effort
  after_flush r has_pool id none s = (
    emits f (shutdown_progress "processing_transcripts" 40 ∷ []) (emit_phase f r finalising s),
    none,
  )
  after_flush r has_pool id (some problem) s = (
    record (emits f (interrupted_best_effort f has_pool id)
        (emit_phase f r error (set_message f problem s))) { stop_in_progress = false },
    some (streams_failed problem),
  )

  -- The manager is back in its slot.
  unfoldable pub put_back :
      Reading
      → Ending f D S C
      → Stopping f D S C
      → Service f D S C
      → Service f D S C × Option ServiceError
  unfolding into_slot after_flush
  put_back r env l s = after_flush r env.has_pool l.meeting_id env.flush_error (into_slot l.taken s)

  -- The transcription task has ended or was given up.
  unfoldable pub drained :
      Ending f D S C → Stopping f D S C → Service f D S C → Service f D S C × Stopping f D S C
  unfolding emits
  drained env l s = (
    emits f (drain_effects f s.transcription_task env.unload_model s.writer)
        (record s { transcription_task = false; subscriber = none; writer = none; manager = none }),
    record l { taken = s.manager },
  )

  unfoldable pub saved_result : Ending f D S C → Manager f D S C → Option String × Option f.F
  saved_result env m = elim env.save [
    | none ↦ (none, none)
    | some stop_and_save ↦ save_recording_only f stop_and_save env.save_time env.save_later m.state
  ]

  unfoldable pub final_row :
      Ending f D S C → Stopping f D S C → Option String × Option f.F → List (Effect f)
  final_row env l (path, duration) = elim l.meeting_id [
    | none ↦ []
    | some id ↦
        if not env.has_pool
        then []
        else (if l.was_fatal_error
            then marked_interrupted id ∷ []
            else marked_completed id duration path ∷ [])
  ]

  -- The save, the meeting's row and the last events.
  unfoldable pub ending_effects : Ending f D S C → Stopping f D S C → List (Effect f)
  unfolding saved_result final_row
  ending_effects env l = elim l.taken [
    | none ↦
        final_row env l (none, none)
        ++ shutdown_progress "complete" 100 ∷ recording_stopped none none l.meeting_id ∷ []
    | some m ↦
        saved m.transcript_segments
        ∷ (final_row env l (saved_result env m)
            ++ shutdown_progress "complete" 100
              ∷ recording_stopped (fst_none m.meeting_folder m.meeting_name)
                  (fst_none m.meeting_name m.meeting_folder) l.meeting_id
              ∷ [])
  ]

  unfoldable pub announce_stopped :
      Reading → Option String → Service f D S C → Service f D S C × Option ServiceError
  announce_stopped r (some problem) s =
      (record s { stop_in_progress = false }, some (sink_failed problem))
  announce_stopped r none s = (record (emit_phase f r idle s) { stop_in_progress = false }, none)

  unfoldable pub finish_stop :
      Reading
      → Ending f D S C
      → Stopping f D S C
      → Service f D S C
      → Service f D S C × Option ServiceError
  unfolding ending_effects announce_stopped
  finish_stop r env l s = announce_stopped r env.sink (emits f (ending_effects env l) s)

  unfoldable pub drain_and_finish :
      Reading
      → Ending f D S C
      → List (TranscriptUpdate f)
      → Stopping f D S C
      → Service f D S C × Option ServiceError
      → Service f D S C × Option ServiceError
  drain_and_finish r env tail l (s, some e) = (s, some e)
  drain_and_finish r env tail l (s, none) =
      let (s', l') = drained env l (publish_all f tail s) in finish_stop r env l' s'

  unfoldable pub stop_begun :
      Reading
      → Ending f D S C
      → Published f
      → Service f D S C × Begun f D S C
      → Service f D S C × Option ServiceError
  unfolding drain_and_finish
  stop_begun r env p (s, inactive) = (s, none)
  stop_begun r env p (s, refused) = (s, some stop_in_progress)
  stop_begun r env p (s, begun l) =
      let (s', l') = replay env l (publish_all f p.during_flush s) in
      drain_and_finish r env p.during_drain l' (put_back r env l' (publish_all f p.between s'))

  unfoldable pub stop :
      Reading
      → Ending f D S C
      → Published f
      → Service f D S C
      → Service f D S C × Option ServiceError
  unfolding begin_stop stop_begun
  stop r env p s = stop_begun r env p (begin_stop r s)
