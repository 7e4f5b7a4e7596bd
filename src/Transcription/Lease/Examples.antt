-- ===== src/Transcription/Lease/Examples.antt =====
-- The theorems of the lease at a concrete interleaving, and tests.
use meetily_local.Common.{◌+◌, ◌<◌, ◌≡◌, refl, Bool, true, false, List, [], ◌∷◌, ◌++◌, arith}
use meetily_local.Transcription.Lease.{
  Notify, selecting, returned, new_lease, Event, acquires, drops, notifies, waits, happen,
  happen_all, is_live_leased, acquire_live, drop_guard, wake_waiters, wait_until_free, wait_step,
}
use meetily_local.Transcription.Lease.Waiting.{
  happen_all-selecting, happen-returned_true, happen_all-free,
}

-- A `Notified` as the flag of whether it has fired.
abbrev flag : Notify
flag = record {
  N = Bool;
  new_notify = false;
  notified = λ n. false;
  notify_waiters = λ n. true;
  is_fired = λ n. n;
  is_fired-notify_waiters = λ n. refl;
}

-- Two workers; the last guard is dropped between the job's check and its sleep.
abbrev race : List Event
race = acquires ∷ acquires ∷ waits false ∷ waits false ∷ drops ∷ waits false ∷ drops ∷ notifies ∷ []

woken : (happen_all flag race (new_lease flag)).job ≡ selecting
unfolding happen_all happen acquire_live drop_guard wake_waiters wait_until_free wait_step
    is_live_leased
woken = refl

abbrev held_once : List Event
held_once = acquires ∷ waits false ∷ waits false ∷ waits false ∷ drops ∷ []

happen_all-selecting_example :
    let l = happen_all flag held_once (new_lease flag) in 0 < l.guards + l.notifying
unfolding happen_all happen acquire_live drop_guard wake_waiters wait_until_free wait_step
    is_live_leased
happen_all-selecting_example = happen_all-selecting flag held_once (omega arith) refl refl

abbrev wakes_up : List Event
wakes_up = race ++ waits false ∷ []

happen-returned_true_example : (happen_all flag wakes_up (new_lease flag)).guards ≡ 0
unfolding happen_all happen acquire_live drop_guard wake_waiters wait_until_free wait_step
    is_live_leased
happen-returned_true_example =
    happen-returned_true flag wakes_up false (omega arith) (λ e. absurd (ground (arith, e))) refl

happen_all-free_example :
    (happen_all flag
      (waits false ∷ waits false ∷ waits false ∷ [])
      (happen_all flag race (new_lease flag))).job
    ≡ returned true
unfolding happen_all happen acquire_live drop_guard wake_waiters wait_until_free wait_step
    is_live_leased
happen_all-free_example =
    happen_all-free flag race (omega arith) refl refl (λ e. absurd (ground (arith, e)))
