-- ===== src/Transcription/Lease.antt =====
-- meetily-core/src/whisper_engine/lease.rs: the lease that live workers hold on the engine, and a
-- batch job that waits until it is free. Each atomic access is a step of its own, so that the
-- steps of the holders and of the job interleave. Tokio's `Notify` is an interface.
pub mod Waiting
mod Examples
use meetily_local.Common.{
  ◌≡◌, ℕ, zero, suc, ◌+◌, ◌-◌, ◌%◌, ◌^◌, Bool, true, false, Option, none, some, List, [], ◌∷◌, ltb,
  ◌==◌, if◌then◌else◌,
}

-- A `Notify` with the `Notified` that the job made last: `notify_waiters` fires every `Notified`
-- that was made before.
pub record Notify : Type 1 where
  pub N : Type 0
  pub new_notify : N
  pub notified : N → N
  pub notify_waiters : N → N
  pub is_fired : N → Bool
  pub is_fired-notify_waiters : (n : N) → is_fired (notify_waiters n) ≡ true

-- Where `wait_until_free` is. `checking` and `selecting` have a `Notified`.
pub data Job : Type 0 where
  entering registering checking selecting rechecking past_select : Job
  returned : Bool → Job

pub data Event : Type 0 where
  acquires drops notifies times_out : Event
  waits : Bool → Event

module _ (nt : Notify) where
  open nt use {N, new_notify, notified, notify_waiters, is_fired}

  pub record Lease : Type 0 where
    -- `count`, and the guards that are held.
    pub count : ℕ
    pub guards : ℕ
    -- Guards that were dropped last, before they notify.
    pub notifying : ℕ
    pub job : Job
    pub notify : N

  abbrev pub new_lease : Lease
  new_lease = record { count = 0; guards = 0; notifying = 0; job = entering; notify = new_notify }

  unfoldable pub is_live_leased : Lease → Bool
  is_live_leased l = ltb 0 l.count

  unfoldable pub acquire_live : Lease → Lease
  acquire_live l = record l { count = (l.count + 1) % 2 ^ 64; guards = l.guards + 1 }

  -- `fetch_sub` of a guard that is dropped. The notification is owed where it was the last.
  unfoldable pub drop_guard : Lease → Option Lease
  drop_guard l =
      if l.guards == 0
      then none
      else some (record l {
        count = (l.count + (2 ^ 64 - 1)) % 2 ^ 64;
        guards = l.guards - 1;
        notifying = if l.count == 1 then suc l.notifying else l.notifying;
      })

  unfoldable pub wake_waiters : Lease → Option Lease
  wake_waiters l =
      if l.notifying == 0
      then none
      else some (record l { notifying = l.notifying - 1; notify = notify_waiters l.notify })

  -- One step of `wait_until_free`; `late` is whether the deadline has passed. `none` waits. At the
  -- `select!` it takes the notification's branch where that is ready.
  unfoldable pub wait_step : Bool → Lease → Job → Option Lease
  unfolding is_live_leased
  wait_step late l entering =
      some (record l { job = if is_live_leased l then registering else returned true })
  wait_step late l registering = some (record l { job = checking; notify = notified l.notify })
  wait_step late l checking =
      some (record l { job = if is_live_leased l then selecting else returned true })
  wait_step late l selecting =
      if is_fired l.notify
      then some (record l { job = rechecking })
      else (if late then some (record l { job = returned false }) else none)
  wait_step late l rechecking =
      some (record l { job = if is_live_leased l then past_select else returned true })
  wait_step late l past_select =
      some (record l { job = if late then returned false else registering })
  wait_step late l (returned free) = none

  unfoldable pub wait_until_free : Bool → Lease → Option Lease
  unfolding wait_step
  wait_until_free late l = wait_step late l l.job

  -- The other branch of the `select!`, which is not biased: the deadline has passed, and its branch
  -- is taken whether the notification is ready or not.
  unfoldable pub time_out : Lease → Job → Option Lease
  time_out l selecting = some (record l { job = returned false })
  time_out l _ = none

  -- An event that cannot happen leaves the state.
  abbrev pub or_stay : Lease → Option Lease → Lease
  or_stay l none = l
  or_stay l (some l') = l'

  unfoldable pub happen : Event → Lease → Lease
  unfolding wait_until_free time_out wake_waiters drop_guard acquire_live
  happen acquires l = acquire_live l
  happen drops l = or_stay l (drop_guard l)
  happen notifies l = or_stay l (wake_waiters l)
  happen times_out l = or_stay l (time_out l l.job)
  happen (waits late) l = or_stay l (wait_until_free late l)

  unfoldable pub happen_all : List Event → Lease → Lease
  happen_all [] l = l
  happen_all (e ∷ es) l = happen_all es (happen e l)
