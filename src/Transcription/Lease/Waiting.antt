-- ===== src/Transcription/Lease/Waiting.antt =====
-- The count against the guards, and the job against the notifications.
use native.Mathlib.Nat.{add-zero}
use meetily_local.Common.{
  ℕ, suc, ◌+◌, ◌^◌, ◌≤◌, ◌<◌, ◌≡◌, ◌≢◌, refl, sym, subst, ◌∙◌, Bool, true, false, List, [], ◌∷◌,
  ◌==◌, length, arith, Bool-cases, inl, inr,
}
use meetily_local.Transcription.Lease.{
  Notify, Job, entering, registering, checking, selecting, rechecking, past_select, returned, Lease,
  new_lease, is_live_leased, acquire_live, drop_guard, wake_waiters, wait_step, wait_until_free,
  Event, acquires, drops, notifies, times_out, waits, time_out, happen, happen_all, or_stay,
}

module _ (nt : Notify) where
  open nt use {N, new_notify, notified, notify_waiters, is_fired, is_fired-notify_waiters}

  -- A job that sleeps is still to be woken: the lease is held, or a notification is owed or there.
  abbrev Awaited : Lease nt → Type 0
  Awaited l = l.job ≡ selecting → is_fired l.notify ≡ false → 0 < l.count + l.notifying

  abbrev pub Sound : ℕ → Lease nt → Type 0
  Sound n l = (l.count ≡ l.guards) × (l.guards ≤ n) × Awaited l

  drop-Sound :
      (n : ℕ) (l : Lease nt)
      → n + 1 < 2 ^ 64
      → Sound n l
      → Sound (suc n) (or_stay nt l (drop_guard nt l))
  unfolding drop_guard
  drop-Sound n l b (c, g, a) = elim (Bool-cases (l.guards == 0)) [
    | inl e ↦ rw e (c, omega (arith, g), a)
    | inr e ↦ rw e (ground (arith, c, g, e), omega (arith, g), (λ p q. ground (arith, c, g, e)))
  ]

  wake-Sound : (n : ℕ) (l : Lease nt) → Sound n l → Sound (suc n) (or_stay nt l (wake_waiters nt l))
  unfolding wake_waiters
  wake-Sound n l (c, g, a) = elim (Bool-cases (l.notifying == 0)) [
    | inl e ↦ rw e (c, omega (arith, g), a)
    | inr e ↦
        rw e (
          c,
          omega (arith, g),
          (λ p q. absurd (ground (arith, q, is_fired-notify_waiters l.notify))),
        )
  ]

  wait-Sound :
      (late : Bool) (n : ℕ) (job : Job) (l : Lease nt)
      → l.job ≡ job
      → Sound n l
      → Sound (suc n) (or_stay nt l (wait_step nt late l job))
  unfolding wait_step is_live_leased
  wait-Sound late n entering l e (c, g, a) =
      (c, omega (arith, g), (λ p q. absurd (ground (arith, p))))
  wait-Sound late n registering l e (c, g, a) =
      (c, omega (arith, g), (λ p q. absurd (ground (arith, p))))
  wait-Sound late n checking l e (c, g, a) = (c, omega (arith, g), (λ p q. ground (arith, p)))
  wait-Sound true n selecting l e (c, g, a) = elim (Bool-cases (is_fired l.notify)) [
    | inl f ↦ rw f (c, omega (arith, g), (λ p q. absurd (ground (arith, p))))
    | inr f ↦ rw f (c, omega (arith, g), (λ p q. absurd (ground (arith, p))))
  ]
  wait-Sound false n selecting l e (c, g, a) = elim (Bool-cases (is_fired l.notify)) [
    | inl f ↦ rw f (c, omega (arith, g), (λ p q. absurd (ground (arith, p))))
    | inr f ↦ rw f (c, omega (arith, g), a)
  ]
  wait-Sound late n rechecking l e (c, g, a) =
      (c, omega (arith, g), (λ p q. absurd (ground (arith, p))))
  wait-Sound late n past_select l e (c, g, a) =
      (c, omega (arith, g), (λ p q. absurd (ground (arith, p))))
  wait-Sound late n (returned free) l e (c, g, a) = (c, omega (arith, g), a)

  time_out-Sound :
      (n : ℕ) (job : Job) (l : Lease nt)
      → Sound n l
      → Sound (suc n) (or_stay nt l (time_out nt l job))
  unfolding time_out
  time_out-Sound n selecting l (c, g, a) =
      (c, omega (arith, g), (λ p q. absurd (ground (arith, p))))
  time_out-Sound n entering l (c, g, a) = (c, omega (arith, g), a)
  time_out-Sound n registering l (c, g, a) = (c, omega (arith, g), a)
  time_out-Sound n checking l (c, g, a) = (c, omega (arith, g), a)
  time_out-Sound n rechecking l (c, g, a) = (c, omega (arith, g), a)
  time_out-Sound n past_select l (c, g, a) = (c, omega (arith, g), a)
  time_out-Sound n (returned free) l (c, g, a) = (c, omega (arith, g), a)

  happen-Sound :
      (e : Event) (n : ℕ) (l : Lease nt)
      → n + 1 < 2 ^ 64
      → Sound n l
      → Sound (suc n) (happen nt e l)
  unfolding happen acquire_live wait_until_free
  happen-Sound acquires n l b (c, g, a) =
      (ground (arith, c, g), omega (arith, g), (λ p q. ground (arith, c, g)))
  happen-Sound drops n l b v = drop-Sound n l b v
  happen-Sound notifies n l b v = wake-Sound n l v
  happen-Sound times_out n l b v = time_out-Sound n l.job l v
  happen-Sound (waits late) n l b v = wait-Sound late n l.job l refl v

  happen_all-Sound :
      (es : List Event) (n : ℕ) (l : Lease nt)
      → n + length es < 2 ^ 64
      → Sound n l
      → Sound (n + length es) (happen_all nt es l)
  unfolding happen_all
  happen_all-Sound [] n l b v = rw (add-zero n) v
  happen_all-Sound (e ∷ es) n l b v =
      let more : n + suc (length es) ≡ suc n + length es = omega arith in
      rw more (
        happen_all-Sound es (suc n) (happen nt e l) (omega arith)
          (happen-Sound e n l (omega arith) v))

  from_start :
      (es : List Event)
      → length es < 2 ^ 64
      → Sound (0 + length es) (happen_all nt es (new_lease nt))
  from_start es b =
      happen_all-Sound es 0 (new_lease nt) (omega arith)
        (refl, omega arith, (λ p q. absurd (ground (arith, p))))

  -- After any fewer than 2^64 steps of the holders and of a job, however they interleave, the lease
  -- counts the guards that are held.
  happen_all-count :
      (es : List Event)
      → length es < 2 ^ 64
      → (happen_all nt es (new_lease nt)).count ≡ (happen_all nt es (new_lease nt)).guards
  happen_all-count es b = (from_start es b).0

  -- After any fewer than 2^64 steps of the holders and of a job, however they interleave: a job that
  -- sleeps without being fired is not forgotten, as a guard is held or a notification is owed.
  pub happen_all-selecting :
      (es : List Event)
      → length es < 2 ^ 64
      → (happen_all nt es (new_lease nt)).job ≡ selecting
      → is_fired (happen_all nt es (new_lease nt)).notify ≡ false
      → let l = happen_all nt es (new_lease nt) in 0 < l.guards + l.notifying
  happen_all-selecting es b p q = let (c, g, a) = from_start es b in rw⁻¹ c (a p q)

  -- The job's step alone.
  returns_free :
      (late : Bool) (job : Job) (l : Lease nt)
      → job ≢ returned true
      → (or_stay nt (record l { job = job }) (wait_step nt late l job)).job ≡ returned true
      → l.count ≡ 0
  unfolding wait_step is_live_leased
  returns_free late entering l n e = ground arith
  returns_free late registering l n e = ground arith
  returns_free late checking l n e = ground arith
  returns_free late selecting l n e = ground arith
  returns_free late rechecking l n e = ground arith
  returns_free late past_select l n e = ground arith
  returns_free late (returned free) l n e = absurd (n e)

  -- After any fewer than 2^64 steps of the holders and of a job: in the step in which the job returns
  -- that the lease is free, no guard is held.
  pub happen-returned_true :
      (es : List Event) (late : Bool)
      → length es < 2 ^ 64
      → (happen_all nt es (new_lease nt)).job ≢ returned true
      → (happen nt (waits late) (happen_all nt es (new_lease nt))).job ≡ returned true
      → (happen_all nt es (new_lease nt)).guards ≡ 0
  unfolding happen wait_until_free
  happen-returned_true es late b n e =
      let l = happen_all nt es (new_lease nt) in
      rw⁻¹ (from_start es b).0 (returns_free late l.job l n e)

  waits_on :
      (job : Job) (gs k : ℕ) (n : N)
      → (job ≡ selecting → is_fired n ≡ true)
      → job ≢ returned false
      → (happen_all nt
          (waits false ∷ waits false ∷ waits false ∷ [])
          (record { count = 0; guards = gs; notifying = k; job = job; notify = n })).job
        ≡ returned true
  unfolding happen_all happen wait_until_free wait_step is_live_leased
  waits_on entering gs k n f h = refl
  waits_on registering gs k n f h = refl
  waits_on checking gs k n f h = refl
  waits_on selecting gs k n f h = rw (f refl) refl
  waits_on rechecking gs k n f h = refl
  waits_on past_select gs k n f h = refl
  waits_on (returned true) gs k n f h = refl
  waits_on (returned false) gs k n f h = absurd (h refl)

  -- After any fewer than 2^64 steps of the holders and of a job: once no guard is held and no
  -- notification is owed, a job that has not timed out returns that the lease is free within three
  -- steps of its own, if the deadline does not pass.
  pub happen_all-free :
      (es : List Event)
      → length es < 2 ^ 64
      → (happen_all nt es (new_lease nt)).guards ≡ 0
      → (happen_all nt es (new_lease nt)).notifying ≡ 0
      → (happen_all nt es (new_lease nt)).job ≢ returned false
      → (happen_all nt
          (waits false ∷ waits false ∷ waits false ∷ [])
          (happen_all nt es (new_lease nt))).job
        ≡ returned true
  happen_all-free es b none_held none_owed n =
      let l = happen_all nt es (new_lease nt) in
      let (c, g, a) = from_start es b in
      let fires : l.job ≡ selecting → is_fired l.notify ≡ true = λ p.
        elim (Bool-cases (is_fired l.notify)) [
          | inl q ↦ q
          | inr q ↦ absurd (omega (arith, a p q, c, none_held, none_owed))
        ] in
      subst
        (λ n.
          (happen_all nt (waits false ∷ waits false ∷ waits false ∷ [])
            (record l { count = n })).job
          ≡ returned true)
        (sym (c ∙ none_held)) (waits_on l.job l.guards l.notifying l.notify fires n)
