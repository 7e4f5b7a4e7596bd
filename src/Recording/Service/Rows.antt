-- ===== src/Recording/Service/Rows.antt =====
-- What a stop makes of the meeting's row.
use meetily_local.Common.{
  ◌≡◌, refl, sym, ap, ◌∙◌, Bool, true, false, ◌||◌, Option, none, some, String, List, [], ◌∷◌, ◌++◌,
  append-nil, append_assoc, Float, arith,
}
use meetily_local.Recording.Manager.{stop_streams_and_force_flush}
use meetily_local.Recording.Service.{
  Reading, TranscriptSegment, Effect, shutdown_progress, marked_interrupted, marked_completed,
  Manager, Service, emits, emit_phase, set_message, publish_all, replay_buffered_segments,
}
use meetily_local.Recording.Service.Stop.{
  Ending, Published, Stopping, is_error, stop, stop_begun, begin_stop, take_manager, replay,
  put_back, after_flush, into_slot, interrupted_best_effort, drain_and_finish, drained,
  drain_effects, finish_stop, announce_stopped, ending_effects, final_row,
}
use meetily_local.Recording.Service.Phases.{only}
use meetily_local.Transcription.Worker.{TranscriptUpdate}

pub data Mark : Type 0 where
  interrupted completed : String → Mark

-- How the row of a meeting ends: interrupted after an error, or else completed; without a database
-- there is none.
abbrev pub final_mark : Bool → Bool → Option String → List Mark
final_mark has_error has_pool none = []
final_mark has_error false (some id) = []
final_mark true true (some id) = interrupted id ∷ []
final_mark false true (some id) = completed id ∷ []

abbrev pub is_some : Option String → Bool
is_some none = false
is_some (some e) = true

module _ (f : Float) where
  abbrev pub mark_of : Effect f → List Mark
  mark_of (marked_interrupted id) = interrupted id ∷ []
  mark_of (marked_completed id duration path) = completed id ∷ []
  mark_of _ = []

  -- The last states of rows that were asked of the database.
  abbrev pub marks : List (Effect f) → List Mark
  marks [] = []
  marks (e ∷ es) = mark_of e ++ marks es

  marks-append : (es gs : List (Effect f)) → marks (es ++ gs) ≡ marks es ++ marks gs
  marks-append [] gs = refl
  marks-append (e ∷ es) gs =
      ap (◌++◌ (mark_of e)) (marks-append es gs)
      ∙ sym (append_assoc (mark_of e) (marks es) (marks gs))

  adds_marks :
      (es gs : List (Effect f)) (b c : List Mark)
      → marks es ≡ b
      → marks gs ≡ c
      → marks (es ++ gs) ≡ b ++ c
  adds_marks es gs b c h k = marks-append es gs ∙ ap (λ x. x ++ marks gs) h ∙ ap (◌++◌ b) k

  no_marks :
      (es gs : List (Effect f)) (b : List Mark)
      → marks es ≡ b
      → marks gs ≡ []
      → marks (es ++ gs) ≡ b
  no_marks es gs b h k = adds_marks es gs b [] h k ∙ append-nil b

  middle_marks :
      (a b : Bool) (w : Option (List (String × TranscriptSegment f)))
      → marks (drain_effects f a b w) ≡ []
  middle_marks a b w = ground arith

  best_effort_marks :
      (has_pool : Bool) (id : Option String)
      → marks (interrupted_best_effort f has_pool id) ≡ final_mark true has_pool id
  unfolding interrupted_best_effort
  best_effort_marks has_pool id = ground arith

  module _ {D S C : Type 0} where
    last_marks :
        (env : Ending f D S C) (l : Stopping f D S C)
        → marks (ending_effects f env l) ≡ final_mark l.was_fatal_error env.has_pool l.meeting_id
    unfolding ending_effects final_row
    last_marks env l = ground arith

    announced_effects :
        (r : Reading) (sink : Option String) (s : Service f D S C)
        → (announce_stopped f r sink s).0.effects ≡ s.effects
    unfolding announce_stopped emit_phase
    announced_effects r (some problem) s = refl
    announced_effects r none s = refl

    finish_marks :
        (r : Reading) (env : Ending f D S C) (l : Stopping f D S C) (t : Service f D S C)
        (b : List Mark)
        → marks t.effects ≡ b
        → marks (let (t', l') = drained f env l t in finish_stop f r env l' t').0.effects
          ≡ b ++ final_mark l.was_fatal_error env.has_pool l.meeting_id
    unfolding drained finish_stop emits
    finish_marks r env l t b h =
        let (t', l') = drained f env l t in
        ap marks (announced_effects r env.sink (emits f (ending_effects f env l') t'))
        ∙ adds_marks t'.effects (ending_effects f env l') b
            (final_mark l.was_fatal_error env.has_pool l.meeting_id)
            (no_marks t.effects (drain_effects f t.transcription_task env.unload_model t.writer) b h
              (middle_marks t.transcription_task env.unload_model t.writer))
            (last_marks env l')

    after_flush-marks :
        (r : Reading) (env : Ending f D S C) (tail : List (TranscriptUpdate f))
        (l : Stopping f D S C) (e : Option String) (t : Service f D S C) (b : List Mark)
        → marks t.effects ≡ b
        → marks
            (drain_and_finish f r env tail l
              (after_flush f r env.has_pool l.meeting_id e t)).0.effects
          ≡ b ++ final_mark (is_some e || l.was_fatal_error) env.has_pool l.meeting_id
    unfolding drain_and_finish after_flush emits emit_phase set_message
    after_flush-marks r env tail l (some problem) t b h =
        adds_marks t.effects (interrupted_best_effort f env.has_pool l.meeting_id) b
          (final_mark true env.has_pool l.meeting_id) h
          (best_effort_marks env.has_pool l.meeting_id)
    after_flush-marks r env tail l none t b h =
        only f
          (λ t'.
            marks (let (t'', l') = drained f env l t' in finish_stop f r env l' t'').0.effects
            ≡ b ++ final_mark l.was_fatal_error env.has_pool l.meeting_id)
          tail _
          (λ x y z.
            finish_marks r env l _ b
              (no_marks t.effects (shutdown_progress "processing_transcripts" 40 ∷ []) b h refl))

    -- The locals of a stop that has taken `m`, with the manager `n`.
    abbrev locals : Service f D S C → Manager f D S C → Manager f D S C → Stopping f D S C
    locals s m n = record {
      was_fatal_error = is_error s.phases.0.state.phase;
      meeting_id = m.meeting_id;
      taken = some n;
    }

    -- A stop of a session, whatever its flush, the saver and the sink answer and whatever is
    -- published, asks the database for one last state of the meeting's row if there is a database
    -- and the meeting has an id: interrupted if the phase was the error phase or the flush fails, and
    -- otherwise completed.
    pub stop-marks :
        (r : Reading) (env : Ending f D S C) (p : Published f) (m : Manager f D S C)
        (s : Service f D S C)
        → marks (stop f r env p (record s { manager = some m; stop_in_progress = false })).0.effects
          ≡ marks s.effects
            ++ final_mark
                (is_some env.flush_error || is_error s.phases.0.state.phase)
                env.has_pool
                m.meeting_id
    unfolding stop stop_begun begin_stop take_manager replay put_back into_slot emits emit_phase
    stop-marks r env p m s =
        let entry =
          no_marks s.effects (shutdown_progress "stopping_audio" 20 ∷ []) (marks s.effects) refl
            refl in
        only f
          (λ t.
            marks
              (let (s', l') = replay f env (locals s m m) t in
                drain_and_finish f r env p.during_drain l'
                  (put_back f r env l' (publish_all f p.between s'))).0.effects
            ≡ marks s.effects
              ++ final_mark (is_some env.flush_error || is_error s.phases.0.state.phase)
                  env.has_pool m.meeting_id)
          p.during_flush _
          (λ a b c.
            let k =
              replay_buffered_segments f c
                (record m { state = stop_streams_and_force_flush env.peers m.state }) in
            only f
              (λ t.
                marks
                  (drain_and_finish f r env p.during_drain (locals s m k)
                    (put_back f r env (locals s m k) t)).0.effects
                ≡ marks s.effects
                  ++ final_mark (is_some env.flush_error || is_error s.phases.0.state.phase)
                      env.has_pool m.meeting_id)
              p.between _
              (λ a' b' c'.
                after_flush-marks r env p.during_drain (locals s m k) env.flush_error _
                  (marks s.effects) entry))
