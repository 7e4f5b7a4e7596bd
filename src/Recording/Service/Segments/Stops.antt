-- ===== src/Recording/Service/Segments/Stops.antt =====
-- The stages of a stop, and what it leaves.
use meetily_local.Common.{
  ◌≡◌, refl, sym, ap, ◌∙◌, true, false, Option, none, some, String, List, [], ◌∷◌, ◌++◌, append-nil,
  arith, Float,
}
use meetily_local.Recording.Manager.{stop_streams_and_force_flush}
use meetily_local.Recording.Phase.{stopping, finalising}
use meetily_local.Recording.Service.{
  Reading, TranscriptSegment, shutdown_progress, Manager, Service, ServiceError, publish_all,
  replay_buffered_segments, emits, emit_phase,
}
use meetily_local.Recording.Service.Stop.{
  Ending, Published, stop, begin_stop, replay, put_back, drained, finish_stop, ending_effects,
  announce_stopped, drain_and_finish, is_error, take_manager, stop_begun, after_flush, into_slot,
  Stopping, final_row,
}
use meetily_local.Transcription.Worker.{TranscriptUpdate}
use meetily_local.Recording.Service.Segments.{
  segments, tagged, upsert_all, upsert_all-append, saves, written, three_saves, three_written,
  middle, slots, publish_all-empty, publish_all-full, held-replay,
}

module _ (f : Float) {D S C : Type 0} where
  announced :
      (r : Reading) (sink : Option String) (s : Service f D S C)
      → ((announce_stopped f r sink s).0.effects ≡ s.effects)
        × ((announce_stopped f r sink s).0.pending_segments ≡ s.pending_segments)
  unfolding announce_stopped emit_phase
  announced r (some problem) s = (refl, refl)
  announced r none s = (refl, refl)

  row_quiet :
      (env : Ending f D S C) (l : Stopping f D S C) (p : Option String × Option f.F)
      → (saves f (final_row f env l p) ≡ []) × (written f (final_row f env l p) ≡ [])
  unfolding final_row
  row_quiet env l p = ground arith

  last :
      (env : Ending f D S C) (l : Stopping f D S C) (m : Manager f D S C)
      → let es = ending_effects f env (record l { taken = some m }) in
        (saves f es ≡ m.transcript_segments ∷ []) × (written f es ≡ [])
  unfolding ending_effects
  last env l m = ground arith

  -- From the drain of the transcription queue on, with the manager in its slot.
  finish_lem :
      (r : Reading) (env : Ending f D S C) (l : Stopping f D S C) (m : Manager f D S C)
      (q : List (String × TranscriptSegment f)) (ps : List (TranscriptSegment f)) (id : String)
      (s : Service f D S C)
      → let (t, l') = drained f env l (slots f true (some m) (some q) ps id s) in
        let s' = (finish_stop f r env l' t).0 in
        (saves f s'.effects ≡ saves f s.effects ++ m.transcript_segments ∷ [])
        × (written f s'.effects ≡ written f s.effects ++ q ∷ [])
        × (s'.pending_segments ≡ ps)
  unfolding drained finish_stop emits
  finish_lem r env l m q ps id s =
      let (mid_saves, mid_written) = middle f s.transcription_task env.unload_model q in
      let (l_saves, l_written) = last env l m in
      let (t, l') = drained f env l (slots f true (some m) (some q) ps id s) in
      let (e, p) = announced r env.sink (emits f (ending_effects f env l') t) in
      (
        ap (saves f) e
            ∙ three_saves f s.effects _ _ [] (m.transcript_segments ∷ []) mid_saves l_saves,
        ap (written f) e
            ∙ three_written f s.effects _ _ (q ∷ []) [] mid_written l_written
            ∙ ap (◌++◌ (written f s.effects)) refl,
        p,
      )

  module _ (r : Reading) (env : Ending f D S C) (m : Manager f D S C) (id : String)
      (s : Service f D S C) where
    -- The stages of a stop: its locals with the manager `n`, and the service after its entry and
    -- after the manager's return.
    abbrev locals : Manager f D S C → Stopping f D S C
    locals n = record {
      was_fatal_error = is_error s.phases.0.state.phase;
      meeting_id = m.meeting_id;
      taken = some n;
    }

    abbrev flushed : Manager f D S C
    flushed = record m { state = stop_streams_and_force_flush env.peers m.state }

    abbrev entered : Service f D S C
    entered =
        emits f (shutdown_progress "stopping_audio" 20 ∷ [])
          (emit_phase f r stopping (record s { manager = some m; stop_in_progress = true }))

    abbrev restored : Manager f D S C → Service f D S C
    restored n =
        emits f (shutdown_progress "processing_transcripts" 40 ∷ [])
          (emit_phase f r finalising (record entered { manager = some n }))

    ending :
        List (TranscriptUpdate f)
        → Manager f D S C
        → List (String × TranscriptSegment f)
        → List (TranscriptSegment f)
        → Service f D S C × Option ServiceError
    ending tail n q ps =
        drain_and_finish f r env tail (locals n)
          (slots f true (some n) (some q) ps id (restored n), none)

    stages :
        (p : Published f) (q : List (String × TranscriptSegment f))
        (ps : List (TranscriptSegment f))
        → env.flush_error ≡ none
        → stop f r env p (slots f false (some m) (some q) ps id s)
          ≡ ending p.during_drain
              (replay_buffered_segments f (ps ++ segments f p.during_flush) flushed)
              ((q ++ tagged f id p.during_flush) ++ tagged f id p.between)
              (segments f p.between)
    unfolding stop stop_begun begin_stop take_manager replay emits emit_phase put_back after_flush
        into_slot ending
    stages p q ps h =
        let n = replay_buffered_segments f (ps ++ segments f p.during_flush) flushed in
        let q' = q ++ tagged f id p.during_flush in
        ap
          (λ x.
            let (s', l') = replay f env (locals m) x in
            drain_and_finish f r env p.during_drain l'
              (put_back f r env l' (publish_all f p.between s')))
          (publish_all-empty f true p.during_flush q ps id entered)
        ∙ ap
            (λ x.
              drain_and_finish f r env p.during_drain (locals n) (put_back f r env (locals n) x))
            (publish_all-empty f true p.between q' [] id entered)
        ∙ ap
            (λ e. drain_and_finish f r env p.during_drain (locals n) (
              after_flush f r env.has_pool m.meeting_id e (
                slots f true (some n) (some (q' ++ tagged f id p.between)) (segments f p.between) id
                  entered)))
            h

    restored_log :
        (n : Manager f D S C)
        → (saves f (restored n).effects ≡ saves f s.effects)
          × (written f (restored n).effects ≡ written f s.effects)
    unfolding emits emit_phase
    restored_log n = (
      three_saves f s.effects (shutdown_progress "stopping_audio" 20 ∷ [])
            (shutdown_progress "processing_transcripts" 40 ∷ []) [] [] refl refl
          ∙ append-nil (saves f s.effects),
      three_written f s.effects (shutdown_progress "stopping_audio" 20 ∷ [])
            (shutdown_progress "processing_transcripts" 40 ∷ []) [] [] refl refl
          ∙ append-nil (written f s.effects),
    )

    -- What a stop leaves: what is saved, what went to the database, and the buffer.
    abbrev pub Leaves :
        List (TranscriptSegment f)
        → List (String × TranscriptSegment f)
        → List (TranscriptSegment f)
        → Service f D S C
        → Type 0
    Leaves held sent ps s' =
        (saves f s'.effects ≡ saves f s.effects ++ held ∷ [])
        × (written f s'.effects ≡ written f s.effects ++ sent ∷ [])
        × (s'.pending_segments ≡ ps)

    ending_lem :
        (tail : List (TranscriptUpdate f)) (n : Manager f D S C)
        (q : List (String × TranscriptSegment f)) (ps : List (TranscriptSegment f))
        → Leaves
            (upsert_all f (segments f tail) n.transcript_segments)
            (q ++ tagged f id tail)
            ps
            (ending tail n q ps).0
    unfolding ending drain_and_finish
    ending_lem tail n q ps =
        let n' = replay_buffered_segments f (segments f tail) n in
        let (a, b, c) = finish_lem r env (locals n) n' (q ++ tagged f id tail) ps id (restored n) in
        let (x, y) = restored_log n in
        rw (publish_all-full f true tail n q ps id (restored n)) (
          a
              ∙ ap (λ z. z ++ n'.transcript_segments ∷ []) x
              ∙ ap (λ z. saves f s.effects ++ z ∷ []) (held-replay f (segments f tail) n),
          b ∙ ap (λ z. z ++ (q ++ tagged f id tail) ∷ []) y,
          c,
        )

    -- A stop of a recording whose flush succeeds, whatever the saver, the database and the sink
    -- answer: what is saved is what the manager held, then the segments left in the buffer from
    -- before, then those published during the flush, then those published during the drain, where a
    -- segment replaces one with its number; the database's writer receives every segment that is
    -- published during the stop, in order; and the segments published between the replay and the
    -- manager's return to its slot are not saved but stay in the buffer.
    pub stop-segments :
        (p : Published f) (q : List (String × TranscriptSegment f))
        (ps : List (TranscriptSegment f))
        → env.flush_error ≡ none
        → Leaves
            (upsert_all f
              ((ps ++ segments f p.during_flush) ++ segments f p.during_drain)
              m.transcript_segments)
            (((q ++ tagged f id p.during_flush) ++ tagged f id p.between)
              ++ tagged f id p.during_drain)
            (segments f p.between)
            (stop f r env p (slots f false (some m) (some q) ps id s)).0
    stop-segments p q ps h =
        let n = replay_buffered_segments f (ps ++ segments f p.during_flush) flushed in
        let (a, b, c) =
          ending_lem p.during_drain n ((q ++ tagged f id p.during_flush) ++ tagged f id p.between)
            (segments f p.between) in
        rw (stages p q ps h) (
          a
              ∙ ap (λ z. saves f s.effects ++ z ∷ [])
                  (ap (upsert_all f (segments f p.during_drain))
                      (held-replay f (ps ++ segments f p.during_flush) flushed)
                    ∙ sym (
                        upsert_all-append f (ps ++ segments f p.during_flush)
                          (segments f p.during_drain) m.transcript_segments)),
          b,
          c,
        )
