-- ===== src/Recording/Service/Phases/Starts.antt =====
-- The phases of a start.
use meetily_local.Common.{
  ◌≡◌, refl, sym, subst, ap, ◌∙◌, Bool, true, false, Option, none, some, String, List, [], ◌∷◌,
  Float,
}
use meetily_local.Recording.Phase.{RecordingPhase, idle, starting, next_phase}
use meetily_local.Recording.Session.{RecordingState, new, set_error_callback}
use meetily_local.Recording.Service.{
  Reading, ServiceError, no_model, cannot_open, Effect, transcription_error, Manager, Service,
  emits, emit_phase, is_recording,
}
use meetily_local.Recording.Service.Start.{
  StartRequest, Surroundings, Opened, opened, open_error, begin_start, prepare, finish_start, start,
  then_start, store_opened, announce_started, release_start, store, new_manager, fail_start,
  devices,
}
use meetily_local.Recording.Service.Phases.{
  accepted, Valid, Shows, shows_idle, shows_recording, shows_paused, Settled, at,
}

module _ (f : Float) {D S C : Type 0} where
  -- What the stream manager and the others make of a start is a session that records.
  abbrev pub Opens : Opened D S C → Type 0
  Opens (opened state folder journal) = (state.recording ≡ true) × (state.paused ≡ false)
  Opens (open_error problem) = Unit

  module _ (r r' : Reading) (env : Surroundings D S C) (req : StartRequest)
      (s : Service f D S C) where
    -- The service after the entry of a start.
    abbrev begun_start : Service f D S C
    begun_start = emit_phase f r starting (record (at f idle none s) { start_in_progress = true })

    opened_running :
        (state : RecordingState D S C) (folder : Option String) (journal : Bool)
        → env.sink ≡ none
        → Valid f (at f idle none s)
        → Settled f
            (then_start f (finish_start f r' env req) (
              store_opened f r' env req begun_start
                (opened (record state { recording = true; paused = false }) folder journal))).0
    unfolding then_start finish_start store_opened announce_started release_start emits store
        new_manager next_phase emit_phase
    opened_running state folder journal e v = rw e (record {
      not_starting = refl;
      not_stopping = refl;
      shows = shows_recording (new_manager f env req state folder journal);
      valid = accepted _ (accepted _ v refl) refl;
    })

    failed :
        (es : List (Effect f)) (e : ServiceError)
        → Valid f (at f idle none s)
        → Settled f (then_start f (finish_start f r' env req) (fail_start f r' es e begun_start)).0
    unfolding then_start fail_start release_start emits next_phase emit_phase
    failed es e v = record {
      not_starting = refl;
      not_stopping = refl;
      shows = shows_idle;
      valid = accepted _ (accepted _ v refl) refl;
    }

    opened_at :
        (o : Opened D S C)
        → env.sink ≡ none
        → Opens o
        → Valid f (at f idle none s)
        → Settled f
            (then_start f (finish_start f r' env req) (store_opened f r' env req begun_start o)).0
    unfolding store_opened
    opened_at (open_error problem) e h v = failed [] (cannot_open problem) v
    opened_at (opened state folder journal) e h v =
        subst
          (λ st.
            Settled f
              (then_start f (finish_start f r' env req)
                (store_opened f r' env req begun_start (opened st folder journal))).0)
          (ap (λ b. record state { recording = b; paused = false }) (sym h.0)
            ∙ ap (λ b. record state { paused = b }) (sym h.1))
          (opened_running state folder journal e v)

    prepared :
        (v : Option String)
        → env.validation ≡ v
        → env.sink ≡ none
        → ((mic sys : Option String) (auto partials : Bool) (state : RecordingState D S C)
            → Opens (env.start_recording mic sys auto partials state))
        → Valid f (at f idle none s)
        → Settled f (then_start f (finish_start f r' env req) (prepare f r' env req begun_start)).0
    unfolding prepare finish_start
    prepared (some problem) x e o v =
        rw x (failed (transcription_error problem ∷ []) (no_model problem) v)
    prepared none x e o v =
        let (mic, sys) = devices env.same env.known_ids env.preferences req in
        rw x (
          opened_at
            (env.start_recording mic sys env.preferences.auto_save
              env.preferences.streaming_partials (set_error_callback env.callback new))
            e
            (o mic sys env.preferences.auto_save env.preferences.streaming_partials
              (set_error_callback env.callback new))
            v)

    pub start_at :
        {p : RecordingPhase} {mgr : Option (Manager f D S C)}
        → env.sink ≡ none
        → ((mic sys : Option String) (auto partials : Bool) (state : RecordingState D S C)
            → Opens (env.start_recording mic sys auto partials state))
        → Shows f p mgr
        → Settled f (at f p mgr s)
        → Settled f (start f r r' env req (at f p mgr s)).0
    unfolding start begin_start is_recording then_start
    start_at e o (shows_recording m) h = h
    start_at e o (shows_paused m) h = h
    start_at e o shows_idle h = prepared env.validation refl e o h.valid
