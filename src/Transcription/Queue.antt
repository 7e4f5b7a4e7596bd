-- ===== src/Transcription/Queue.antt =====
-- meetily-core/src/audio/transcription/queue.rs: the count of the segments that wait for the
-- transcription worker. The pipeline, the forwarding task and the worker interleave; each atomic
-- access and each channel operation is a step of its own. Tokio's unbounded channel is an
-- interface.
pub mod Steps
pub mod Depth
pub mod Warnings
mod Examples
use meetily_local.Common.{
  ℕ, zero, suc, ◌+◌, ◌-◌, ◌*◌, ◌%◌, ◌^◌, ◌≡◌, Bool, true, false, not, ◌||◌, Option, none, some,
  List, [], ◌∷◌, ◌++◌, leb, ltb, ◌==◌, if◌then◌else◌,
}

-- An unbounded channel: what is sent comes out in the order of the sends. `waiting` are the
-- messages in it.
pub record Channel (A : Type 0) : Type 1 where
  pub Chan : Type 0
  pub empty : Chan
  pub send : A → Chan → Chan
  pub recv : Chan → Option (A × Chan)
  pub waiting : Chan → List A
  pub waiting-empty : waiting empty ≡ []
  pub waiting-send : (a : A) (c : Chan) → waiting (send a c) ≡ waiting c ++ a ∷ []
  pub recv-nil : (c : Chan) → waiting c ≡ [] → recv c ≡ none
  pub recv-cons :
      (c : Chan) (a : A) (rest : List A)
      → waiting c ≡ a ∷ rest
      → (c' : Chan) × (recv c ≡ some (a, c')) × (waiting c' ≡ rest)

-- The forwarding task: in `recv`, with a segment before and after it is counted, or returned.
pub data Forwarder (A : Type 0) : Type 0 where
  receiving finished : Forwarder A
  taken counted : A → Forwarder A

-- The worker: in `recv`, with a segment before `dequeued()`, ended with the channel, or aborted.
pub data Worker (A : Type 0) : Type 0 where
  idle ended aborted : Worker A
  got : A → Worker A

pub data Act (A : Type 0) : Type 0 where
  dispatches : A → Act A
  stops forwards works aborts : Act A

module _ {A : Type 0} where
  abbrev pub is_aborted : Worker A → Bool
  is_aborted aborted = true
  is_aborted _ = false

  abbrev pub is_finished : Forwarder A → Bool
  is_finished finished = true
  is_finished _ = false

module _ {A : Type 0} (ch : Channel A) where
  open ch use {Chan, empty, send, recv}

  pub record Backlog : Type 0 where
    pub raw : Chan
    pub raw_open : Bool
    pub forwarder : Forwarder A
    pub queue_depth : ℕ
    pub counted_chan : Chan
    pub worker : Worker A
    -- What was dispatched, and what the worker took.
    pub dispatched : List A
    pub processed : List A

  -- After `reset_queue_depth`.
  abbrev pub fresh : Backlog
  fresh = record {
    raw = empty;
    raw_open = true;
    forwarder = receiving;
    queue_depth = 0;
    counted_chan = empty;
    worker = idle;
    dispatched = [];
    processed = [];
  }

  -- `pipeline.rs` sends until it drops its sender.
  unfoldable pub dispatch : A → Backlog → Backlog
  dispatch a b =
      if b.raw_open then record b { raw = send a b.raw; dispatched = b.dispatched ++ a ∷ [] } else b

  -- A step of the task of `spawn_counting_forwarder`.
  unfoldable pub forward : Forwarder A → Backlog → Backlog
  forward receiving b = elim (recv b.raw) [
    | none ↦ if b.raw_open then b else record b { forwarder = finished }
    | some (a, raw') ↦ record b { raw = raw'; forwarder = taken a }
  ]
  forward (taken a) b = record b {
    queue_depth = (b.queue_depth + 1) % 2 ^ 64;
    forwarder = counted a;
  }
  forward (counted a) b =
      if is_aborted b.worker
      then record b { forwarder = finished }
      else record b { counted_chan = send a b.counted_chan; forwarder = receiving }
  forward finished b = b

  -- `dequeued`
  unfoldable pub dequeued : Backlog → Backlog
  dequeued b = record b { queue_depth = b.queue_depth - 1 }

  -- The worker's `recv`, which ends once the forwarder has dropped its sender, and `dequeued()`.
  unfoldable pub work : Worker A → Backlog → Backlog
  unfolding dequeued
  work idle b = elim (recv b.counted_chan) [
    | none ↦ if is_finished b.forwarder then record b { worker = ended } else b
    | some (a, chan') ↦ record b {
      counted_chan = chan';
      worker = got a;
      processed = b.processed ++ a ∷ [];
    }
  ]
  work (got a) b = record (dequeued b) { worker = idle }
  work ended b = b
  work aborted b = b

  unfoldable pub act : Act A → Backlog → Backlog
  unfolding dispatch forward work
  act (dispatches a) b = dispatch a b
  act stops b = record b { raw_open = false }
  act forwards b = forward b.forwarder b
  act works b = work b.worker b
  act aborts b = record b { worker = aborted }

  unfoldable pub act_all : List (Act A) → Backlog → Backlog
  act_all [] b = b
  act_all (a ∷ later) b = act_all later (act a b)

-- The warning, with the time of the last one; instants are in nanoseconds.
abbrev pub backlog_warn_threshold : ℕ
backlog_warn_threshold = 10

abbrev pub warn_interval : ℕ
warn_interval = 30 * 10 ^ 9

-- The time of the last warning, and whether this one is given.
unfoldable pub maybe_warn_backlog : ℕ → ℕ → Option ℕ → Option ℕ × Bool
maybe_warn_backlog depth now last =
    if leb depth backlog_warn_threshold then (last, false) else (elim last [
      | none ↦ (some now, true)
      | some t ↦ if leb warn_interval (now - t) then (some now, true) else (some t, false)
    ])
