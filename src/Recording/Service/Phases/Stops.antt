-- ===== src/Recording/Service/Phases/Stops.antt =====
-- The phases of a stop.
use meetily_local.Common.{◌≡◌, refl, sym, subst, true, false, none, some, [], ◌∷◌, Float}
use meetily_local.Recording.Phase.{RecordingPhase, idle, stopping, next_phase, ok}
use meetily_local.Recording.Manager.{stop_streams_and_force_flush}
use meetily_local.Recording.Service.{
  Reading, replay_buffered_segments, shutdown_progress, Manager, Service, emits, emit_phase,
  publish_all,
}
use meetily_local.Recording.Service.Stop.{
  Stopping, ending_effects, is_error, Ending, Published, stop, stop_begun, begin_stop, take_manager,
  replay, put_back, after_flush, into_slot, drain_and_finish, drained, finish_stop,
  announce_stopped,
}
use meetily_local.Recording.Service.Phases.{
  accepted, Valid, Valid-emit_phase, shows_idle, Settled, only, at,
}

module _ (f : Float) {D S C : Type 0} where
  -- A stop of a session whose phase allows it, with the manager `m` in its slot.
  module _ (r : Reading) (env : Ending f D S C) (q : RecordingPhase) (m : Manager f D S C)
      (s : Service f D S C) where
    abbrev locals : Manager f D S C → Stopping f D S C
    locals n = record { was_fatal_error = is_error q; meeting_id = m.meeting_id; taken = some n }

    abbrev entered : Service f D S C
    entered =
        record (emits f (shutdown_progress "stopping_audio" 20 ∷ [])
          (emit_phase f r stopping (record (at f q (some m) s) { stop_in_progress = true }))) {
            manager = none;
          }

    ended :
        (l : Stopping f D S C) (t : Service f D S C)
        → env.sink ≡ none
        → t.start_in_progress ≡ false
        → t.manager ≡ none
        → Valid f t
        → next_phase t.phases.0.state.phase idle ≡ ok idle
        → Settled f (finish_stop f r env l t).0
    unfolding finish_stop announce_stopped emits emit_phase
    ended l t y a b v n = rw y (record {
      not_starting = a;
      not_stopping = refl;
      shows = rw b shows_idle;
      valid = Valid-emit_phase f r idle (emits f (ending_effects f env l) t) v n;
    })

    pub stop_at :
        (p : Published f)
        → env.flush_error ≡ none
        → env.sink ≡ none
        → next_phase q stopping ≡ ok stopping
        → Valid f (at f q (some m) s)
        → Settled f (stop f r env p (at f q (some m) s)).0
    unfolding stop stop_begun begin_stop take_manager replay put_back after_flush into_slot
        drain_and_finish drained emits emit_phase next_phase
    stop_at p x y n v =
        only f
          (λ t.
            Settled f
              (let (s', l') = replay f env (locals m) t in
                drain_and_finish f r env p.during_drain l'
                  (put_back f r env l' (publish_all f p.between s'))).0)
          p.during_flush entered
          (λ a b c.
            let k =
              replay_buffered_segments f c
                (record m { state = stop_streams_and_force_flush env.peers m.state }) in
            only f
              (λ t.
                Settled f
                  (drain_and_finish f r env p.during_drain (locals k)
                    (put_back f r env (locals k) t)).0)
              p.between (record entered { manager = a; writer = b; pending_segments = [] })
              (λ a' b' c'.
                subst
                  (λ e.
                    Settled f
                      (drain_and_finish f r env p.during_drain (locals k) (
                        after_flush f r env.has_pool m.meeting_id e (record entered {
                          manager = some k;
                          writer = b';
                          pending_segments = c';
                        }))).0)
                  (sym x)
                  (only f
                    (λ t.
                      Settled f
                        (let (s', l') = drained f env (locals k) t in finish_stop f r env l' s').0)
                    p.during_drain _
                    (λ a'' b'' c''.
                      ended _ _ y refl refl (accepted _ (accepted _ v n) refl) refl))))
