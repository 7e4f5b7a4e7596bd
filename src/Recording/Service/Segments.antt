-- ===== src/Recording/Service/Segments.antt =====
-- What becomes of the segments that are published around a stop.
pub mod Stops
use meetily_local.Common.{
  ℕ, ◌≡◌, refl, sym, ap, ◌∙◌, Bool, true, false, Option, none, some, String, List, [], ◌∷◌, ◌++◌,
  append-nil, append_assoc, arith, if◌then◌else◌, Float,
}
use meetily_local.Recording.Manager.{stop_streams_and_force_flush}
use meetily_local.Recording.Phase.{stopping, finalising, RecordingSnapshot, Statics}
use meetily_local.Recording.Service.{
  Reading, TranscriptSegment, segment_of, Effect, saved, writer_closed, transcription_awaited,
  diarizer_shut_down, model_unloaded, shutdown_progress, Manager, Service, ServiceError, upsert,
  publish_all, publish, deliver, add_transcript_segment, replay_buffered_segments, emits,
  emit_phase,
}
use meetily_local.Recording.Service.Stop.{
  Ending, Published, stop, begin_stop, replay, put_back, drained, drain_effects, finish_stop,
  ending_effects, announce_stopped, drain_and_finish, is_error, take_manager, stop_begun,
  after_flush, into_slot, Stopping, final_row, saved_result,
}
use meetily_local.Transcription.Worker.{TranscriptUpdate}

module _ (f : Float) where
  abbrev pub segments : List (TranscriptUpdate f) → List (TranscriptSegment f)
  segments [] = []
  segments (u ∷ us) = segment_of f u ∷ segments us

  abbrev pub tagged : String → List (TranscriptUpdate f) → List (String × TranscriptSegment f)
  tagged id [] = []
  tagged id (u ∷ us) = (id, segment_of f u) ∷ tagged id us

  -- The segments, one after the other.
  abbrev pub upsert_all :
      List (TranscriptSegment f) → List (TranscriptSegment f) → List (TranscriptSegment f)
  upsert_all [] held = held
  upsert_all (t ∷ ts) held = upsert_all ts (upsert f t held)

  upsert_all-append :
      (ts us held : List (TranscriptSegment f))
      → upsert_all (ts ++ us) held ≡ upsert_all us (upsert_all ts held)
  upsert_all-append [] us held = refl
  upsert_all-append (t ∷ ts) us held = upsert_all-append ts us (upsert f t held)

  abbrev pub saved_of : Effect f → List (List (TranscriptSegment f))
  saved_of (saved ts) = ts ∷ []
  saved_of _ = []

  abbrev pub closed_of : Effect f → List (List (String × TranscriptSegment f))
  closed_of (writer_closed sent) = sent ∷ []
  closed_of _ = []

  -- What was saved, and what the writers that were closed had received.
  abbrev pub saves : List (Effect f) → List (List (TranscriptSegment f))
  saves [] = []
  saves (e ∷ es) = saved_of e ++ saves es

  abbrev pub written : List (Effect f) → List (List (String × TranscriptSegment f))
  written [] = []
  written (e ∷ es) = closed_of e ++ written es

  saves-append : (es gs : List (Effect f)) → saves (es ++ gs) ≡ saves es ++ saves gs
  saves-append [] gs = refl
  saves-append (e ∷ es) gs =
      ap (◌++◌ (saved_of e)) (saves-append es gs)
      ∙ sym (append_assoc (saved_of e) (saves es) (saves gs))

  written-append : (es gs : List (Effect f)) → written (es ++ gs) ≡ written es ++ written gs
  written-append [] gs = refl
  written-append (e ∷ es) gs =
      ap (◌++◌ (closed_of e)) (written-append es gs)
      ∙ sym (append_assoc (closed_of e) (written es) (written gs))

  middle :
      (a b : Bool) (q : List (String × TranscriptSegment f))
      → let es = drain_effects f a b (some q) in (saves es ≡ []) × (written es ≡ q ∷ [])
  middle true true q = (refl, refl)
  middle true false q = (refl, refl)
  middle false true q = (refl, refl)
  middle false false q = (refl, refl)

  three_saves :
      (es gs hs : List (Effect f)) (b c : List (List (TranscriptSegment f)))
      → saves gs ≡ b
      → saves hs ≡ c
      → saves ((es ++ gs) ++ hs) ≡ saves es ++ (b ++ c)
  three_saves es gs hs b c h k =
      saves-append (es ++ gs) hs
      ∙ ap (λ x. x ++ saves hs) (saves-append es gs)
      ∙ append_assoc (saves es) (saves gs) (saves hs)
      ∙ cc (h, k)

  three_written :
      (es gs hs : List (Effect f)) (b c : List (List (String × TranscriptSegment f)))
      → written gs ≡ b
      → written hs ≡ c
      → written ((es ++ gs) ++ hs) ≡ written es ++ (b ++ c)
  three_written es gs hs b c h k =
      written-append (es ++ gs) hs
      ∙ ap (λ x. x ++ written hs) (written-append es gs)
      ∙ append_assoc (written es) (written gs) (written hs)
      ∙ cc (h, k)

  module _ {D S C : Type 0} where
    -- A service whose slots hold these, whose subscriber is installed, and which no stop holds.
    abbrev pub slots :
        Bool
        → Option (Manager f D S C)
        → Option (List (String × TranscriptSegment f))
        → List (TranscriptSegment f)
        → String
        → Service f D S C
        → Service f D S C
    slots b m w ps id s = record s {
      manager = m;
      writer = w;
      pending_segments = ps;
      subscriber = some id;
      stop_in_progress = b;
    }

    publish_all-empty :
        (b : Bool) (us : List (TranscriptUpdate f)) (q : List (String × TranscriptSegment f))
        (ps : List (TranscriptSegment f)) (id : String) (s : Service f D S C)
        → publish_all f us (slots b none (some q) ps id s)
          ≡ slots b none (some (q ++ tagged id us)) (ps ++ segments us) id s
    unfolding publish_all publish deliver
    publish_all-empty b [] q ps id s = rw (append-nil q, append-nil ps) refl
    publish_all-empty b (u ∷ us) q ps id s =
        publish_all-empty b us (q ++ (id, segment_of f u) ∷ []) (ps ++ segment_of f u ∷ []) id s
        ∙ rw
            (
              append_assoc q ((id, segment_of f u) ∷ []) (tagged id us),
              append_assoc ps (segment_of f u ∷ []) (segments us),
            )
            refl

    publish_all-full :
        (b : Bool) (us : List (TranscriptUpdate f)) (m : Manager f D S C)
        (q : List (String × TranscriptSegment f)) (ps : List (TranscriptSegment f)) (id : String)
        (s : Service f D S C)
        → publish_all f us (slots b (some m) (some q) ps id s)
          ≡ slots b
              (some (replay_buffered_segments f (segments us) m))
              (some (q ++ tagged id us))
              ps
              id
              s
    unfolding publish_all publish deliver replay_buffered_segments
    publish_all-full b [] m q ps id s = rw (append-nil q) refl
    publish_all-full b (u ∷ us) m q ps id s =
        publish_all-full b us (add_transcript_segment f (segment_of f u) m)
          (q ++ (id, segment_of f u) ∷ []) ps id s
        ∙ rw (append_assoc q ((id, segment_of f u) ∷ []) (tagged id us)) refl

    held-replay :
        (ts : List (TranscriptSegment f)) (m : Manager f D S C)
        → (replay_buffered_segments f ts m).transcript_segments
          ≡ upsert_all ts m.transcript_segments
    unfolding replay_buffered_segments add_transcript_segment
    held-replay [] m = refl
    held-replay (t ∷ ts) m = held-replay ts (add_transcript_segment f t m)
