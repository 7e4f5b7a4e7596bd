-- ===== src/Recording/Service/Phases/Sessions.antt =====
-- Sessions: what any calls of the service, one after the other, do to the phase.
use meetily_local.Common.{
  ◌≡◌, refl, sym, subst, ap, ◌∙◌, Bool, true, false, Option, none, some, String, List, [], ◌∷◌,
  Float,
}
use meetily_local.Recording.Phase.{RecordingPhase, error, recording, paused, next_phase}
use meetily_local.Recording.Session.{AudioError, RecordingState}
use meetily_local.Recording.Service.{
  Reading, Manager, Service, emit_phase, set_message, emits, pause, resume, spawn_fatal_error_stop,
}
use meetily_local.Recording.Service.Start.{StartRequest, Surroundings, start}
use meetily_local.Recording.Service.Stop.{Ending, Published, stop, begin_stop}
use meetily_local.Recording.Service.Phases.{
  accepted, running, Shows, shows_idle, shows_recording, shows_paused, Settled, at, pause_at,
  resume_at,
}
use meetily_local.Recording.Service.Phases.Starts.{Opens, start_at}
use meetily_local.Recording.Service.Phases.Stops.{stop_at}

module _ (f : Float) (D S C : Type 0) where
  -- A call with what it meets. A fatal error of the session stops it.
  pub data Command : Type 0 where
    starts : Reading → Reading → Surroundings D S C → StartRequest → Command
    pauses resumes : Reading → Command
    stops : Reading → Ending f D S C → Published f → Command
    fails : Reading → AudioError → Reading → Ending f D S C → Published f → Command

module _ (f : Float) {D S C : Type 0} where
  -- The sink takes every event, the flush succeeds, and a start that opens the streams records.
  abbrev pub IsOrderly : Command f D S C → Type 0
  IsOrderly (starts r r' env req) =
      (env.sink ≡ none)
      × ((mic sys : Option String) (auto partials : Bool) (state : RecordingState D S C)
          → Opens f (env.start_recording mic sys auto partials state))
  IsOrderly (pauses r) = Unit
  IsOrderly (resumes r) = Unit
  IsOrderly (stops r env p) = (env.flush_error ≡ none) × (env.sink ≡ none)
  IsOrderly (fails r e r' env p) = (env.flush_error ≡ none) × (env.sink ≡ none)

  abbrev pub AreOrderly : List (Command f D S C) → Type 0
  AreOrderly [] = Unit
  AreOrderly (c ∷ cs) = IsOrderly c × AreOrderly cs

  pub fail :
      Reading
      → AudioError
      → Reading
      → Ending f D S C
      → Published f
      → Service f D S C
      → Service f D S C
  fail r e r' env p s = elim s.manager [
    | none ↦ s
    | some m ↦ (stop f r' env p (spawn_fatal_error_stop f r e s)).0
  ]

  pub perform : Command f D S C → Service f D S C → Service f D S C
  unfolding fail
  perform (starts r r' env req) s = (start f r r' env req s).0
  perform (pauses r) s = (pause f r none s).0
  perform (resumes r) s = (resume f r none s).0
  perform (stops r env p) s = (stop f r env p s).0
  perform (fails r e r' env p) s = fail r e r' env p s

  unfoldable pub perform_all : List (Command f D S C) → Service f D S C → Service f D S C
  unfolding perform
  perform_all [] s = s
  perform_all (c ∷ cs) s = perform_all cs (perform c s)

  perform_at :
      (c : Command f D S C) {p : RecordingPhase} {mgr : Option (Manager f D S C)}
      (s : Service f D S C)
      → IsOrderly c
      → Shows f p mgr
      → Settled f (at f p mgr s)
      → Settled f (perform c (at f p mgr s))
  unfolding perform fail stop begin_stop next_phase spawn_fatal_error_stop emit_phase set_message
      emits
  perform_at (starts r r' env req) s o w h = start_at f r r' env req s o.0 o.1 w h
  perform_at (pauses r) s o w h = pause_at f r s w h
  perform_at (resumes r) s o w h = resume_at f r s w h
  perform_at (stops r env p) s o shows_idle h = h
  perform_at (stops r env p) s o (shows_recording m) h =
      stop_at f r env recording (running f false m) s p o.0 o.1 refl h.valid
  perform_at (stops r env p) s o (shows_paused m) h =
      stop_at f r env paused (running f true m) s p o.0 o.1 refl h.valid
  perform_at (fails r e r' env p) s o shows_idle h = h
  perform_at (fails r e r' env p) s o (shows_recording m) h =
      stop_at f r' env error (running f false m)
        (spawn_fatal_error_stop f r e (at f recording (some (running f false m)) s)) p o.0 o.1 refl
        (accepted _ h.valid refl)
  perform_at (fails r e r' env p) s o (shows_paused m) h =
      stop_at f r' env error (running f true m)
        (spawn_fatal_error_stop f r e (at f paused (some (running f true m)) s)) p o.0 o.1 refl
        (accepted _ h.valid refl)

  settled_at : (s : Service f D S C) → Settled f s → at f s.phases.0.state.phase s.manager s ≡ s
  settled_at s h =
      ap (λ b. record s { start_in_progress = b; stop_in_progress = false }) (sym h.not_starting)
      ∙ ap (λ b. record s { stop_in_progress = b }) (sym h.not_stopping)

  perform-Settled :
      (c : Command f D S C) (s : Service f D S C)
      → IsOrderly c
      → Settled f s
      → Settled f (perform c s)
  perform-Settled c s o h =
      let e = settled_at s h in
      subst (λ t. Settled f (perform c t)) e
        (perform_at c s o h.shows (subst (Settled f) (sym e) h))

  -- Any starts, stops, pauses, resumptions and fatal errors, one after the other, whatever is
  -- published during the stops, keep a service settled, where the sink takes every event, the flush
  -- succeeds and a start that opens the streams records: every change of phase is one that
  -- `next_phase` accepts, no start or stop is left unfinished, and at the end the phase is idle with
  -- no manager in the slot, or recording or paused with a manager whose session is that.
  pub perform_all-Settled :
      (cs : List (Command f D S C)) (s : Service f D S C)
      → AreOrderly cs
      → Settled f s
      → Settled f (perform_all cs s)
  unfolding perform_all
  perform_all-Settled [] s o h = h
  perform_all-Settled (c ∷ cs) s o h =
      perform_all-Settled cs (perform c s) o.1 (perform-Settled c s o.0 h)
