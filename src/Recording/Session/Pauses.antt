-- ===== src/Recording/Session/Pauses.antt =====
-- The active duration against the intervals between the calls of a session.
use meetily_local.Common.{
  ℕ, ◌+◌, ◌-◌, ◌≤◌, ◌≡◌, refl, Bool, true, false, Option, none, some, List, [], ◌∷◌, arith,
  if◌then◌else◌, Float, ap, subst, ◌∙◌, Bool-cases, Option-cases, inl, inr,
}
use meetily_local.Recording.Session.{
  AudioError, RecordingState, start_recording, pause_recording, resume_recording, report_error,
  get_active_recording_duration, get_total_pause_duration, cleanup, current_pause,
}

pub data Action : Type 0 where
  pauses resumes : Action
  reports : AudioError → Action

module _ {D S C : Type 0} where
  unfoldable pub act : ℕ → Action → RecordingState D S C → RecordingState D S C
  act now pauses s = (pause_recording now s).0
  act now resumes s = (resume_recording now s).0
  act now (reports e) s = (report_error e s).0

  unfoldable pub act_all : List (ℕ × Action) → RecordingState D S C → RecordingState D S C
  act_all [] s = s
  act_all ((now, a) ∷ rest) s = act_all rest (act now a s)

-- Time does not run backwards: the calls start at `t` or later, and end by `now`.
abbrev pub InOrder : ℕ → List (ℕ × Action) → ℕ → Type 0
InOrder t [] now = t ≤ now
InOrder t ((u, a) ∷ rest) now = (t ≤ u) × InOrder u rest now

abbrev pub is_paused_after : Bool → Action → Bool
is_paused_after p pauses = true
is_paused_after p resumes = false
is_paused_after p (reports e) = p

-- The time from `t` to `now` during which the session is not paused.
abbrev pub active_time : Bool → ℕ → List (ℕ × Action) → ℕ → ℕ
active_time p t [] now = if p then 0 else now - t
active_time p t ((u, a) ∷ rest) now =
    (if p then 0 else u - t) + active_time (is_paused_after p a) u rest now

abbrev HeldSince : Bool → Option ℕ → ℕ → Type 0
HeldSince false o t = Unit
HeldSince true none t = ⊥
HeldSince true (some p) t = p ≤ t

-- The nanoseconds of the pause that is going on.
abbrev pause_so_far : {D S C : Type 0} → ℕ → RecordingState D S C → ℕ
pause_so_far now s = if s.paused then (elim s.pause_start [ none ↦ 0 | some p ↦ now - p ]) else 0

-- What the fields say at time `t`, when `active` nanoseconds of the session were active.
record Accounts {D S C : Type 0} (s : RecordingState D S C) (start t active : ℕ) : Type 0 where
  live : s.recording ≡ true
  started : s.recording_start ≡ some start
  held : HeldSince s.paused s.pause_start t
  balance : start + active + s.total_pause_duration + pause_so_far t s ≡ t

abbrev after_pauses : Bool → List (ℕ × Action) → Bool
after_pauses p [] = p
after_pauses p ((u, a) ∷ rest) = after_pauses (is_paused_after p a) rest

module _ {D S C : Type 0} (start : ℕ) where
  act-Accounts :
      (s : RecordingState D S C) (t u active : ℕ) (a : Action)
      → t ≤ u
      → Accounts s start t active
      → Accounts (act u a s) start u (active + (if s.paused then 0 else u - t))
        × ((act u a s).paused ≡ is_paused_after s.paused a)
  unfolding act pause_recording resume_recording report_error
  act-Accounts s t u active pauses h v = ground arith
  act-Accounts s t u active resumes h v = ground arith
  act-Accounts s t u active (reports e) h v = ground arith

  act_all-Accounts :
      (calls : List (ℕ × Action)) (s : RecordingState D S C) (t now active : ℕ)
      → InOrder t calls now
      → Accounts s start t active
      → Accounts (act_all calls s) start now (active + active_time s.paused t calls now)
  unfolding act_all
  act_all-Accounts [] s t now active h v = ground arith
  act_all-Accounts ((u, a) ∷ rest) s t now active h v =
      let (w, p) = act-Accounts s t u active a h.0 v in
      ground (
        arith,
        act_all-Accounts rest (act u a s) u now (active + (if s.paused then 0 else u - t)) h.1 w,
      )

abbrev or_zero : Option ℕ → ℕ
or_zero none = 0
or_zero (some n) = n

abbrev pub seconds_of : (f : Float) → Option ℕ → f.F
seconds_of f none = f.literal 0 0
seconds_of f (some n) = f.as_secs_f64 n

-- The code's value is the difference of the time that elapsed, that of the pauses that are over and
-- that of the pause going on, if there is one; and these durations add up: they leave the active
-- time, where `drift` passed between the two readings of the clock.
abbrev pub Measures : (f : Float) → Option f.F → (elapsed active drift : ℕ) → Type 0
Measures f value elapsed active drift =
    (over : ℕ) × (current : Option ℕ) × (value
      ≡ some (f.sub (f.sub (f.as_secs_f64 elapsed) (f.as_secs_f64 over)) (seconds_of f current)))
    × (elapsed + drift ≡ active + over + or_zero current)

zero-add : (n : ℕ) → 0 + n ≡ n
zero-add n = omega arith

module _ {D S C : Type 0} where
  paused-act_all :
      (start : ℕ) (calls : List (ℕ × Action)) (s : RecordingState D S C) (t now active : ℕ)
      → InOrder t calls now
      → Accounts s start t active
      → (act_all calls s).paused ≡ after_pauses s.paused calls
  unfolding act_all
  paused-act_all start [] s t now active h v = refl
  paused-act_all start ((u, a) ∷ rest) s t now active h v =
      let (w, p) = act-Accounts start s t u active a h.0 v in
      paused-act_all start rest (act u a s) u now (active + (if s.paused then 0 else u - t)) h.1 w
      ∙ ap (λ b. after_pauses b rest) p

  Accounts-Measures :
      (f : Float) (s : RecordingState D S C) (start now later active : ℕ)
      → now ≤ later
      → Accounts s start now active
      → Measures f
          (get_active_recording_duration f now later s)
          (now - start)
          active
          (if s.paused then later - now else 0)
  unfolding get_active_recording_duration current_pause get_total_pause_duration
  Accounts-Measures f s start now later active l v = elim (Bool-cases s.paused) [
    | inl p ↦ elim (Option-cases s.pause_start) [
      | inl q ↦ absurd (ground (arith, v.held, p, q))
      | inr (u, q) ↦
          rw (v.started, p, q)
            (
              s.total_pause_duration,
              some (later - u),
              refl,
              ground (arith, v.balance, v.held, p, q, l),
            )
    ]
    | inr p ↦ rw (v.started, p) (s.total_pause_duration, none, refl, ground (arith, v.balance, p))
  ]

-- From a cleaned-up state, started at `start`, and after any calls in time order that pause, resume
-- (also out of turn) and report errors: the active duration is the difference, in the arithmetic of
-- `f64`, of the seconds since `start`, of the pauses that are over and of the pause going on, and the
-- nanoseconds of these three leave the time outside the pauses exactly; a pause that goes on also has
-- the time between the two readings of the clock.
pub active_duration-act_all :
    (f : Float) {D S C : Type 0} (s : RecordingState D S C) (calls : List (ℕ × Action))
    (start now later : ℕ)
    → InOrder start calls now
    → now ≤ later
    → Measures f
        (get_active_recording_duration f now later
          (act_all calls (start_recording start (cleanup s))))
        (now - start)
        (active_time false start calls now)
        (if after_pauses false calls then later - now else 0)
unfolding start_recording cleanup
active_duration-act_all f s calls start now later h l =
    let v : Accounts (start_recording start (cleanup s)) start start 0 = record {
      live = refl;
      started = refl;
      held = tt;
      balance = omega arith;
    } in
    rw⁻¹ (paused-act_all start calls (start_recording start (cleanup s)) start now 0 h v) (
      Accounts-Measures f (act_all calls (start_recording start (cleanup s))) start now later
        (active_time false start calls now) l
        (subst (Accounts (act_all calls (start_recording start (cleanup s))) start now)
          (zero-add (active_time false start calls now))
          (act_all-Accounts start calls (start_recording start (cleanup s)) start now 0 h v)))
