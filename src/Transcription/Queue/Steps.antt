-- ===== src/Transcription/Queue/Steps.antt =====
-- What each step keeps of the count and the order of the segments.
use meetily_local.Common.{
  ℕ, ◌+◌, ◌^◌, ◌≤◌, ◌<◌, ◌≡◌, ◌≢◌, ◌⊎◌, refl, sym, ap, ◌∙◌, Bool, true, false, none, some, List, [],
  ◌∷◌, ◌++◌, append_assoc, length, length-append, arith, if◌then◌else◌, inl, inr,
}
use meetily_local.Transcription.Queue.{
  Channel, Forwarder, receiving, finished, taken, counted, Worker, idle, ended, aborted, got, Act,
  aborts, Backlog, dispatch, forward, work, is_aborted, is_finished,
}

module _ {A : Type 0} where
  -- The segment that the forwarder has, and those that are counted outside the channel.
  abbrev pub held : Forwarder A → List A
  held receiving = []
  held finished = []
  held (taken a) = a ∷ []
  held (counted a) = a ∷ []

  abbrev pub ahead : Forwarder A → ℕ
  ahead (counted a) = 1
  ahead _ = 0

  abbrev pub owed : Worker A → ℕ
  owed (got a) = 1
  owed _ = 0

  -- Acts of a session that is not aborted.
  abbrev pub IsSteady : List (Act A) → Type 0
  IsSteady [] = Unit
  IsSteady (a ∷ later) = (a ≢ aborts) × IsSteady later

module _ {A : Type 0} (ch : Channel A) where
  open ch use {Chan, empty, send, recv, waiting, waiting-empty, waiting-send, recv-nil, recv-cons}

  pub recv_cases :
      (c : Chan)
      → ((recv c ≡ none) × (waiting c ≡ []))
        ⊎ ((a : A) × (c' : Chan) × (recv c ≡ some (a, c')) × (waiting c ≡ a ∷ waiting c'))
  recv_cases c = go (waiting c) refl
    where
      go :
          (w : List A)
          → waiting c ≡ w
          → ((recv c ≡ none) × (waiting c ≡ []))
            ⊎ ((a : A) × (c' : Chan) × (recv c ≡ some (a, c')) × (waiting c ≡ a ∷ waiting c'))
      go [] e = inl (recv-nil c e, e)
      go (a ∷ w) e = let (c', r, v) = recv-cons c a w e in inr (a, c', r, e ∙ ap (◌∷◌ a) (sym v))

  pub record Ordered (b : Backlog ch) : Type 0 where
    pub depth :
        b.queue_depth ≡ length (waiting b.counted_chan) + (ahead b.forwarder + owed b.worker)
    pub all :
        b.processed ++ (waiting b.counted_chan ++ (held b.forwarder ++ waiting b.raw))
        ≡ b.dispatched
    pub drained : b.forwarder ≡ finished → (waiting b.raw ≡ []) × (b.raw_open ≡ false)
    pub done : b.worker ≡ ended → (b.forwarder ≡ finished) × (waiting b.counted_chan ≡ [])
    pub steady : b.worker ≢ aborted

  shift4 : (p q r s t : List A) → p ++ (q ++ (r ++ (s ++ t))) ≡ (p ++ (q ++ (r ++ s))) ++ t
  shift4 p q r s t = sym (
      append_assoc p (q ++ (r ++ s)) t
      ∙ ap (◌++◌ p) (append_assoc q (r ++ s) t ∙ ap (◌++◌ q) (append_assoc r s t)))

  owed_one : (w : Worker A) → owed w ≤ 1
  owed_one idle = omega arith
  owed_one ended = omega arith
  owed_one aborted = omega arith
  owed_one (got a) = omega arith

  from_is_aborted : (w : Worker A) → is_aborted w ≡ true → w ≡ aborted
  from_is_aborted idle h = absurd (ground (arith, h))
  from_is_aborted ended h = absurd (ground (arith, h))
  from_is_aborted (got a) h = absurd (ground (arith, h))
  from_is_aborted aborted h = refl

  from_is_finished : (f : Forwarder A) → is_finished f ≡ true → f ≡ finished
  from_is_finished receiving h = absurd (ground (arith, h))
  from_is_finished (taken a) h = absurd (ground (arith, h))
  from_is_finished (counted a) h = absurd (ground (arith, h))
  from_is_finished finished h = refl

  few :
      (b : Backlog ch)
      → Ordered b
      → length (waiting b.counted_chan) + length (held b.forwarder) + owed b.worker
        ≤ length b.dispatched + 1
  few b v = omega (
    arith,
    ap length v.all,
    length-append b.processed (waiting b.counted_chan ++ (held b.forwarder ++ waiting b.raw)),
    length-append (waiting b.counted_chan) (held b.forwarder ++ waiting b.raw),
    length-append (held b.forwarder) (waiting b.raw),
    owed_one b.worker,
  )

  pub dispatch-Ordered : (a : A) (b : Backlog ch) → Ordered b → Ordered (dispatch ch a b)
  unfolding dispatch
  dispatch-Ordered a b v = go b.raw_open refl
    where
      go :
          (o : Bool)
          → b.raw_open ≡ o
          → Ordered (
              if o then record b { raw = send a b.raw; dispatched = b.dispatched ++ a ∷ [] } else b)
      go false o = v
      go true o = record {
        depth = v.depth;
        all =
            ap (λ w. b.processed ++ (waiting b.counted_chan ++ (held b.forwarder ++ w)))
              (waiting-send a b.raw)
            ∙ shift4 b.processed (waiting b.counted_chan) (held b.forwarder) (waiting b.raw)
                (a ∷ [])
            ∙ ap (λ (w : List A). w ++ a ∷ []) v.all;
        drained = λ f. absurd (ground (arith, o, (v.drained f).1));
        done = v.done;
        steady = v.steady;
      }

  pub forward-Ordered :
      (f : Forwarder A) (b : Backlog ch)
      → b.forwarder ≡ f
      → length b.dispatched + 1 < 2 ^ 64
      → Ordered b
      → Ordered (forward ch f b)
  unfolding forward
  forward-Ordered receiving b e n v = elim (recv_cases b.raw) [
    | inl (r, w) ↦ rw (r, forward) (go b.raw_open refl w)
    | inr (a, raw', r, w) ↦
        rw (r, forward)
          (record {
            depth =
                v.depth ∙ ap (λ f. length (waiting b.counted_chan) + (ahead f + owed b.worker)) e;
            all =
                ap (λ rest. b.processed ++ (waiting b.counted_chan ++ rest)) (sym w)
                ∙ ap (λ f. b.processed ++ (waiting b.counted_chan ++ (held f ++ waiting b.raw)))
                    (sym e)
                ∙ v.all;
            drained = λ f. absurd (ground (arith, f));
            done = λ x. absurd (ground (arith, (v.done x).0, e));
            steady = v.steady;
          })
  ]
    where
      go :
          (o : Bool)
          → b.raw_open ≡ o
          → waiting b.raw ≡ []
          → Ordered (if o then b else record b { forwarder = finished })
      go true o w = v
      go false o w = record {
        depth = v.depth ∙ ap (λ f. length (waiting b.counted_chan) + (ahead f + owed b.worker)) e;
        all =
            ap (λ f. b.processed ++ (waiting b.counted_chan ++ (held f ++ waiting b.raw))) (sym e)
            ∙ v.all;
        drained = λ f. (w, o);
        done = λ x. absurd (ground (arith, (v.done x).0, e));
        steady = v.steady;
      }
  forward-Ordered (taken a) b e n v = record {
    depth = ground (arith, v.depth, e, few b v);
    all =
        ap (λ f. b.processed ++ (waiting b.counted_chan ++ (held f ++ waiting b.raw))) (sym e)
        ∙ v.all;
    drained = λ f. absurd (ground (arith, f));
    done = λ w. absurd (ground (arith, (v.done w).0, e));
    steady = v.steady;
  }
  forward-Ordered (counted a) b e n v = go (is_aborted b.worker) refl
    where
      go :
          (x : Bool)
          → is_aborted b.worker ≡ x
          → Ordered (
              if x
              then record b { forwarder = finished }
              else record b { counted_chan = send a b.counted_chan; forwarder = receiving })
      go true x = absurd (v.steady (from_is_aborted b.worker x))
      go false x = record {
        depth = ground (
          arith,
          v.depth,
          e,
          waiting-send a b.counted_chan,
          length-append (waiting b.counted_chan) (a ∷ []),
        );
        all =
            ap (λ w. b.processed ++ (w ++ waiting b.raw)) (waiting-send a b.counted_chan)
            ∙ ap (◌++◌ b.processed) (append_assoc (waiting b.counted_chan) (a ∷ []) (waiting b.raw))
            ∙ ap (λ f. b.processed ++ (waiting b.counted_chan ++ (held f ++ waiting b.raw))) (sym e)
            ∙ v.all;
        drained = λ f. absurd (ground (arith, f));
        done = λ w. absurd (ground (arith, (v.done w).0, e));
        steady = v.steady;
      }
  forward-Ordered finished b e n v = v

  pub work-Ordered :
      (w : Worker A) (b : Backlog ch) → b.worker ≡ w → Ordered b → Ordered (work ch w b)
  unfolding work
  work-Ordered idle b e v = elim (recv_cases b.counted_chan) [
    | inl (r, w) ↦ rw (r, work) (go (is_finished b.forwarder) refl w)
    | inr (a, chan', r, w) ↦
        rw (r, work)
          (record {
            depth = ground (arith, v.depth, e, ap length w);
            all =
                append_assoc b.processed (a ∷ [])
                  (waiting chan' ++ (held b.forwarder ++ waiting b.raw))
                ∙ ap (λ c. b.processed ++ (c ++ (held b.forwarder ++ waiting b.raw))) (sym w)
                ∙ v.all;
            drained = v.drained;
            done = λ x. absurd (ground (arith, x));
            steady = λ x. absurd (ground (arith, x));
          })
  ]
    where
      go :
          (x : Bool)
          → is_finished b.forwarder ≡ x
          → waiting b.counted_chan ≡ []
          → Ordered (if x then record b { worker = ended } else b)
      go false x w = v
      go true x w = record {
        depth = ground (arith, v.depth, e);
        all = v.all;
        drained = v.drained;
        done = λ d. (from_is_finished b.forwarder x, w);
        steady = λ d. absurd (ground (arith, d));
      }
  work-Ordered (got a) b e v = record {
    depth = ground (arith, v.depth, e);
    all = v.all;
    drained = v.drained;
    done = λ x. absurd (ground (arith, x));
    steady = λ x. absurd (ground (arith, x));
  }
  work-Ordered ended b e v = v
  work-Ordered aborted b e v = v
