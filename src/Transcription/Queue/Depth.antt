-- ===== src/Transcription/Queue/Depth.antt =====
-- The count and the order of the segments between the pipeline and the worker.
use meetily_local.Common.{
  ℕ, suc, ◌+◌, ◌^◌, ◌≤◌, ◌<◌, ◌≡◌, ◌≢◌, refl, sym, ap, ◌∙◌, List, [], ◌∷◌, ◌++◌, append-nil, length,
  length-append, arith, inl, inr,
}
use meetily_local.Transcription.Queue.{
  Channel, Forwarder, receiving, finished, taken, counted, Worker, idle, ended, aborted, got, Act,
  dispatches, stops, forwards, works, aborts, Backlog, fresh, dispatch, forward, work, act, act_all,
}
use meetily_local.Transcription.Queue.Steps.{
  held, ahead, owed, IsSteady, Ordered, recv_cases, dispatch-Ordered, forward-Ordered, work-Ordered,
}

module _ {A : Type 0} (ch : Channel A) where
  open ch use {Chan, empty, send, recv, waiting, waiting-empty, waiting-send, recv-nil, recv-cons}

  length-dispatch :
      (a : A) (b : Backlog ch) → length (dispatch ch a b).dispatched ≤ length b.dispatched + 1
  unfolding dispatch
  length-dispatch a b = ground (arith, length-append b.dispatched (a ∷ []))

  forward-dispatched :
      (f : Forwarder A) (b : Backlog ch) → (forward ch f b).dispatched ≡ b.dispatched
  unfolding forward
  forward-dispatched receiving b = elim (recv_cases ch b.raw) [
    | inl (r, w) ↦ rw (r, forward) (ground arith)
    | inr (a, raw', r, w) ↦ rw (r, forward) refl
  ]
  forward-dispatched (taken a) b = refl
  forward-dispatched (counted a) b = ground arith
  forward-dispatched finished b = refl

  work-dispatched : (w : Worker A) (b : Backlog ch) → (work ch w b).dispatched ≡ b.dispatched
  unfolding work
  work-dispatched idle b = elim (recv_cases ch b.counted_chan) [
    | inl (r, w) ↦ rw (r, work) (ground arith)
    | inr (a, chan', r, w) ↦ rw (r, work) refl
  ]
  work-dispatched (got a) b = refl
  work-dispatched ended b = refl
  work-dispatched aborted b = refl

  act-Ordered :
      (a : Act A) (b : Backlog ch) (n : ℕ)
      → a ≢ aborts
      → length b.dispatched ≤ n
      → n + 1 < 2 ^ 64
      → Ordered ch b
      → Ordered ch (act ch a b) × (length (act ch a b).dispatched ≤ suc n)
  unfolding act
  act-Ordered (dispatches a) b n s l k v =
      (dispatch-Ordered ch a b v, omega (arith, length-dispatch a b))
  act-Ordered stops b n s l k v = (
    record {
      depth = v.depth;
      all = v.all;
      drained = λ f. ((v.drained f).0, refl);
      done = v.done;
      steady = v.steady;
    },
    omega arith,
  )
  act-Ordered forwards b n s l k v = (
    forward-Ordered ch b.forwarder b refl (omega arith) v,
    omega (arith, ap length (forward-dispatched b.forwarder b)),
  )
  act-Ordered works b n s l k v =
      (work-Ordered ch b.worker b refl v, omega (arith, ap length (work-dispatched b.worker b)))
  act-Ordered aborts b n s l k v = absurd (s refl)

  act_all-Ordered :
      (acts : List (Act A)) (b : Backlog ch) (n : ℕ)
      → IsSteady acts
      → length b.dispatched ≤ n
      → n + length acts < 2 ^ 64
      → Ordered ch b
      → Ordered ch (act_all ch acts b)
  unfolding act_all
  act_all-Ordered [] b n s l k v = v
  act_all-Ordered (a ∷ later) b n s l k v =
      let (w, m) = act-Ordered a b n s.0 l (omega arith) v in
      act_all-Ordered later (act ch a b) (suc n) s.1 m (omega arith) w

  fresh-Ordered : Ordered ch (fresh ch)
  fresh-Ordered = record {
    depth = ground (arith, waiting-empty);
    all = ground (arith, waiting-empty);
    drained = λ f. absurd (ground (arith, f));
    done = λ w. absurd (ground (arith, w));
    steady = λ w. absurd (ground (arith, w));
  }

  -- From an empty queue with the counter reset, after any fewer than 2^64 steps of the pipeline,
  -- the forwarder and the worker in any order, none of which aborts the worker: the depth is the
  -- number of segments that wait for the worker, and one more each while the forwarder has counted
  -- a segment that it has not sent and while the worker has one that it has not uncounted.
  queue_depth-act_all :
      (acts : List (Act A))
      → IsSteady acts
      → length acts < 2 ^ 64
      → let b = act_all ch acts (fresh ch) in
        b.queue_depth ≡ length (waiting b.counted_chan) + (ahead b.forwarder + owed b.worker)
  queue_depth-act_all acts s k =
      (act_all-Ordered acts (fresh ch) 0 s (omega arith) (omega arith) fresh-Ordered).depth

  -- From an empty queue, after any fewer than 2^64 steps of the pipeline, the forwarder and the
  -- worker, none of which aborts the worker: what the worker took, the segments that wait, the one
  -- that the forwarder has and those before it are the dispatched segments in their order.
  processed-act_all :
      (acts : List (Act A))
      → IsSteady acts
      → length acts < 2 ^ 64
      → let b = act_all ch acts (fresh ch) in
        b.processed ++ (waiting b.counted_chan ++ (held b.forwarder ++ waiting b.raw))
        ≡ b.dispatched
  processed-act_all acts s k =
      (act_all-Ordered acts (fresh ch) 0 s (omega arith) (omega arith) fresh-Ordered).all

  -- From an empty queue with the counter reset, after any fewer than 2^64 steps of the pipeline, the
  -- forwarder and the worker, none of which aborts the worker: once the worker has seen the
  -- channel's end, it took all segments that were dispatched, in their order, and the depth is 0.
  pub processed-ended :
      (acts : List (Act A))
      → IsSteady acts
      → length acts < 2 ^ 64
      → (act_all ch acts (fresh ch)).worker ≡ ended
      → let b = act_all ch acts (fresh ch) in (b.processed ≡ b.dispatched) × (b.queue_depth ≡ 0)
  processed-ended acts s k w =
      let b = act_all ch acts (fresh ch) in
      let v = act_all-Ordered acts (fresh ch) 0 s (omega arith) (omega arith) fresh-Ordered in
      let (f, e) = v.done w in
      let (r, o) = v.drained f in
      (
        sym (append-nil b.processed)
            ∙ ap (λ rest. b.processed ++ rest) (sym (rw (e, f, r) refl))
            ∙ v.all,
        ground (arith, v.depth, w, f, e),
      )
