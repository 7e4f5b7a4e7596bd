-- ===== src/Recording/Service/Overlap.antt =====
-- Calls of the service that overlap.
use meetily_local.Common.{◌≡◌, ap, Bool, true, ◌||◌, some, Float, Bool-cases, inl, inr, arith}
use meetily_local.Recording.Service.{
  Reading, ServiceError, start_in_progress, still_finalising, already_recording, stop_in_progress,
  Service, is_recording,
}
use meetily_local.Recording.Service.Start.{
  StartRequest, Surroundings, start, begin_start, prepare, finish_start, then_start,
}
use meetily_local.Recording.Service.Stop.{Ending, Published, stop, begin_stop, stop_begun, refused}

module _ (f : Float) {D S C : Type 0} where
  -- A start or a stop is going on, or a session records.
  abbrev pub is_busy : Service f D S C → Bool
  is_busy s = s.start_in_progress || (s.stop_in_progress || is_recording f s)

  begin_start-busy :
      (r : Reading) (s : Service f D S C)
      → is_busy s ≡ true
      → (e : ServiceError) × (begin_start f r s ≡ (s, some e))
  unfolding begin_start
  begin_start-busy r s h = elim (Bool-cases s.start_in_progress) [
    | inl a ↦ (start_in_progress, ground arith)
    | inr a ↦ elim (Bool-cases s.stop_in_progress) [
      | inl b ↦ (still_finalising, ground arith)
      | inr b ↦ (already_recording, ground arith)
    ]
  ]

  begin_stop-busy :
      (r : Reading) (s : Service f D S C)
      → begin_stop f r (record s { stop_in_progress = true })
        ≡ (record s { stop_in_progress = true }, refused)
  unfolding begin_stop
  begin_stop-busy r s = ground arith

  -- While a start or a stop is going on or a session records, a start changes nothing; and while a
  -- stop is going on, another stop is refused and changes nothing, whatever is published.
  start-busy :
      (r r' : Reading) (env : Surroundings D S C) (req : StartRequest) (e : Ending f D S C)
      (p : Published f) (s : Service f D S C)
      → is_busy s ≡ true
      → ((start f r r' env req s).0 ≡ s)
        × (stop f r e p (record s { stop_in_progress = true })
            ≡ (record s { stop_in_progress = true }, some stop_in_progress))
  unfolding start begin_start then_start stop begin_stop stop_begun
  start-busy r r' env req e p s h =
      let (x, a) = begin_start-busy r s h in
      (
        ap
            (λ t.
              (then_start f (finish_start f r' env req) (then_start f (prepare f r' env req) t)).0)
            a,
        ap (stop_begun f r e p) (begin_stop-busy r s),
      )
