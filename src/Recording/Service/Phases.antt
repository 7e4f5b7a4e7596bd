-- ===== src/Recording/Service/Phases.antt =====
-- The phases that the calls of the service go through.
pub mod Starts
pub mod Stops
pub mod Sessions
use meetily_local.Common.{
  ℕ, ◌+◌, ◌-◌, ◌≡◌, refl, sym, subst, ap, ◌∙◌, Bool, true, false, Option, none, some, String, List,
  [], ◌∷◌, ◌++◌, arith, Float, ◌⊎◌, inl, inr, Bool-cases,
}
use meetily_local.Recording.Phase.{
  RecordingPhase, idle, starting, recording, paused, stopping, finalising, error, RecordingSnapshot,
  Statics, Live, next_phase, ok, set_phase,
}
use meetily_local.Recording.Session.{
  AudioError, RecordingState, new, set_error_callback, pause_recording, resume_recording,
}
use meetily_local.Recording.Manager.{stop_streams_and_force_flush}
use meetily_local.Recording.Service.{
  Reading, ServiceError, TranscriptSegment, replay_buffered_segments, shutdown_progress, no_model,
  cannot_open, Effect, transcription_error, Manager, Service, recording_paused, recording_resumed,
  emits, emit_phase, is_recording, publish_all, publish, deliver, pause, resume,
  spawn_fatal_error_stop,
}
use meetily_local.Recording.Service.Start.{
  StartRequest, Surroundings, Opened, opened, open_error, begin_start, prepare, finish_start, start,
  then_start, store_opened, announce_started, release_start, store, new_manager, fail_start,
  devices,
}
use meetily_local.Recording.Service.Stop.{
  Stopping, ending_effects, is_error, Ending, Published, stop, stop_begun, begin_stop, take_manager,
  replay, put_back, after_flush, into_slot, drain_and_finish, drained, finish_stop,
  announce_stopped,
}
use meetily_local.Transcription.Worker.{TranscriptUpdate}

-- Snapshots whose phases follow each other as `next_phase` allows, up to the phase.
pub data Reached {F : Type 0} : RecordingPhase → List (RecordingSnapshot F) → Type 0 where
  initially : Reached idle []
  accepted :
      {p : RecordingPhase} {sent : List (RecordingSnapshot F)} (r : RecordingSnapshot F)
      → Reached p sent
      → next_phase p r.phase ≡ ok r.phase
      → Reached r.phase (sent ++ r ∷ [])

module _ (f : Float) {D S C : Type 0} where
  abbrev pub Valid : Service f D S C → Type 0
  Valid s = Reached s.phases.0.state.phase s.phases.1

  Valid-emit_phase :
      (r : Reading) (p : RecordingPhase) (s : Service f D S C)
      → Valid s
      → next_phase s.phases.0.state.phase p ≡ ok p
      → Valid (emit_phase f r p s)
  unfolding emit_phase set_phase
  Valid-emit_phase r p s v h = accepted _ v h

  -- A manager whose session records, paused or not.
  abbrev pub running : Bool → Manager f D S C → Manager f D S C
  running b m = record m { state = record m.state { recording = true; paused = b } }

  -- What the phase says of the manager's slot.
  pub data Shows : RecordingPhase → Option (Manager f D S C) → Type 0 where
    shows_idle : Shows idle none
    shows_recording : (m : Manager f D S C) → Shows recording (some (running false m))
    shows_paused : (m : Manager f D S C) → Shows paused (some (running true m))

  -- No start or stop is going on.
  pub record Settled (s : Service f D S C) : Type 0 where
    pub not_starting : s.start_in_progress ≡ false
    pub not_stopping : s.stop_in_progress ≡ false
    pub shows : Shows s.phases.0.state.phase s.manager
    pub valid : Valid s

  publish_one :
      (u : TranscriptUpdate f) (s : Service f D S C) (mgr : Option (Manager f D S C))
      (w : Option (List (String × TranscriptSegment f))) (ps : List (TranscriptSegment f))
      → ◌≡◌ {A = Service f D S C}
          (record (publish f u s) { manager = mgr; writer = w; pending_segments = ps })
          (record s { manager = mgr; writer = w; pending_segments = ps })
  unfolding publish deliver
  publish_one u s mgr w ps = ground arith

  publish_each :
      (us : List (TranscriptUpdate f)) (s : Service f D S C) (mgr : Option (Manager f D S C))
      (w : Option (List (String × TranscriptSegment f))) (ps : List (TranscriptSegment f))
      → ◌≡◌ {A = Service f D S C}
          (record (publish_all f us s) { manager = mgr; writer = w; pending_segments = ps })
          (record s { manager = mgr; writer = w; pending_segments = ps })
  unfolding publish_all
  publish_each [] s mgr w ps = refl
  publish_each (u ∷ us) s mgr w ps =
      publish_each us (publish f u s) mgr w ps ∙ publish_one u s mgr w ps

  -- What is published changes the manager, the writer and the buffer alone.
  pub only :
      (P : Service f D S C → Type 0) (us : List (TranscriptUpdate f)) (s : Service f D S C)
      → ((mgr : Option (Manager f D S C)) (w : Option (List (String × TranscriptSegment f)))
            (ps : List (TranscriptSegment f))
          → P (record s { manager = mgr; writer = w; pending_segments = ps }))
      → P (publish_all f us s)
  only P us s h =
      let t = publish_all f us s in
      subst P (sym (publish_each us s t.manager t.writer t.pending_segments))
        (h t.manager t.writer t.pending_segments)

  -- The service with these in its slot and as its phase, where no start or stop is going on.
  abbrev at : RecordingPhase → Option (Manager f D S C) → Service f D S C → Service f D S C
  at p mgr s = record s {
    start_in_progress = false;
    stop_in_progress = false;
    manager = mgr;
    phases = (record s.phases.0 { state = record s.phases.0.state { phase = p } }, s.phases.1);
  }

  -- A call that ends by changing the phase and its manager.
  enters :
      (r : Reading) (p : RecordingPhase) (s : Service f D S C)
      → s.start_in_progress ≡ false
      → s.stop_in_progress ≡ false
      → Shows p s.manager
      → Valid s
      → next_phase s.phases.0.state.phase p ≡ ok p
      → Settled (emit_phase f r p s)
  unfolding emit_phase
  enters r p s a b h v n = record {
    not_starting = a;
    not_stopping = b;
    shows = h;
    valid = Valid-emit_phase r p s v n;
  }

  pause_at :
      (r : Reading) {p : RecordingPhase} {mgr : Option (Manager f D S C)} (s : Service f D S C)
      → Shows p mgr
      → Settled (at p mgr s)
      → Settled (pause f r none (at p mgr s)).0
  unfolding pause is_recording pause_recording next_phase emits
  pause_at r s shows_idle h = h
  pause_at r s (shows_recording m) h =
      let m' = record m { state = record m.state { pause_start = some r.now } } in
      enters r paused (emits f (recording_paused ∷ []) (at recording (some (running true m')) s))
        refl refl (shows_paused m') h.valid refl
  pause_at r s (shows_paused m) h = h

  resume_paused :
      (r : Reading) (ps : Option ℕ) (m : Manager f D S C) (s : Service f D S C)
      → let t =
          at paused
            (some (running true (record m { state = record m.state { pause_start = ps } })))
            s in
        Settled t → Settled (resume f r none t).0
  unfolding resume is_recording resume_recording next_phase emits
  resume_paused r none m s h =
      let m' = record m { state = record m.state { pause_start = none } } in
      enters r recording (emits f (recording_resumed ∷ []) (at paused (some (running false m')) s))
        refl refl (shows_recording m') h.valid refl
  resume_paused r (some t) m s h =
      let m' = record m {
        state = record m.state {
          pause_start = none;
          total_pause_duration = m.state.total_pause_duration + (r.now - t);
        };
      } in
      enters r recording (emits f (recording_resumed ∷ []) (at paused (some (running false m')) s))
        refl refl (shows_recording m') h.valid refl

  resume_at :
      (r : Reading) {p : RecordingPhase} {mgr : Option (Manager f D S C)} (s : Service f D S C)
      → Shows p mgr
      → Settled (at p mgr s)
      → Settled (resume f r none (at p mgr s)).0
  unfolding resume is_recording resume_recording
  resume_at r s shows_idle h = h
  resume_at r s (shows_recording m) h = h
  resume_at r s (shows_paused m) h = resume_paused r m.state.pause_start m s h
