-- ===== src/Recording/Phase/Table.antt =====
-- The table in the comment above `next_phase`, as a relation, and what the buttons ask of it.
use meetily_local.Common.{◌≡◌, refl, ◌↔◌, ◌⊎◌, inl, inr, Bool, true, arith}
use meetily_local.Recording.Phase.{
  RecordingPhase, idle, starting, recording, paused, stopping, finalising, error, ok, err,
  next_phase, ButtonState, button_state,
}

infix 40 ◌⟶◌
pub data ◌⟶◌ : RecordingPhase → RecordingPhase → Type 0 where
  begin : idle ⟶ starting
  open_streams : starting ⟶ recording
  start_failed : starting ⟶ idle
  pause : recording ⟶ paused
  resume : paused ⟶ recording
  stop : recording ⟶ stopping
  stop_paused : paused ⟶ stopping
  drain : stopping ⟶ finalising
  finish : finalising ⟶ idle
  auto_stop : error ⟶ stopping
  dismiss : error ⟶ idle
  fail : {p : RecordingPhase} → p ⟶ error

ruleset edges = (
  begin, open_streams, start_failed, pause, resume, stop, stop_paused, drain, finish, auto_stop,
  dismiss, fail,
)

accepted : {p q : RecordingPhase} → p ⟶ q → next_phase p q ≡ ok q
unfolding next_phase
accepted begin = refl
accepted open_streams = refl
accepted start_failed = refl
accepted pause = refl
accepted resume = refl
accepted stop = refl
accepted stop_paused = refl
accepted drain = refl
accepted finish = refl
accepted auto_stop = refl
accepted dismiss = refl
accepted fail = refl

listed_edge : (p q : RecordingPhase) → next_phase p q ≡ ok q → p ⟶ q
unfolding next_phase
listed_edge p q h = grind (arith, edges)

next_phase_cases : (p q : RecordingPhase) → (next_phase p q ≡ ok q) ⊎ (next_phase p q ≡ err p q)
unfolding next_phase
next_phase_cases p q = ground arith

-- `next_phase` accepts a move exactly when the documented table lists it, and otherwise reports
-- the two phases that it was asked about.
pub next_phase-⟶ :
    (p q : RecordingPhase)
    → ((next_phase p q ≡ ok q) ↔ (p ⟶ q)) × ((next_phase p q ≡ err p q) ↔ (¬ (p ⟶ q)))
next_phase-⟶ p q = elim (next_phase_cases p q) [
  | inl e ↦ ((listed_edge p q, accepted), ((λ f. cc), (λ f. absurd (f (listed_edge p q e)))))
  | inr e ↦ ((listed_edge p q, accepted), ((λ f edge. cc (accepted edge)), (λ f. e)))
]

-- A recording control, and the phase that its click asks for.
pub data Control : Type 0 where
  start_control pause_control resume_control stop_control : Control

abbrev pub enabled : ButtonState → Control → Bool
enabled b start_control = b.can_start
enabled b pause_control = b.can_pause
enabled b resume_control = b.can_resume
enabled b stop_control = b.can_stop

abbrev pub target : Control → RecordingPhase
target start_control = starting
target pause_control = paused
target resume_control = recording
target stop_control = stopping

-- An enabled control asks for a move of the table, except for start after a fatal error: that
-- move, from `error` to `starting`, is offered and the table refuses it.
enabled-next_phase :
    (p : RecordingPhase) (c : Control)
    → enabled (button_state p) c ≡ true
    → (next_phase p (target c) ≡ ok (target c))
      ⊎ ((p ≡ error) × (c ≡ start_control) × (next_phase p (target c) ≡ err error starting))
unfolding button_state next_phase
enabled-next_phase p c h = ground arith
