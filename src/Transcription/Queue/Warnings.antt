-- ===== src/Transcription/Queue/Warnings.antt =====
-- How often the backlog is warned about.
use meetily_local.Common.{
  ℕ, ◌+◌, ◌-◌, ◌≤◌, ◌<◌, Bool, true, false, Option, none, some, List, [], ◌∷◌, leb, Bool-cases, inl,
  inr, arith,
}
use meetily_local.Transcription.Queue.{maybe_warn_backlog, backlog_warn_threshold, warn_interval}

-- The warnings of a run: the depth and the clock at each call, from the time of the last one.
warned : ℕ → ℕ → List (ℕ × ℕ) → Bool → List (ℕ × ℕ)
warned depth now rest true = (depth, now) ∷ rest
warned depth now rest false = rest

unfoldable pub warn_all : List (ℕ × ℕ) → Option ℕ → List (ℕ × ℕ)
unfolding warned
warn_all [] last = []
warn_all ((depth, now) ∷ calls) last =
    let (last', now_warned) = maybe_warn_backlog depth now last in
    warned depth now (warn_all calls last') now_warned

-- Warnings about more than the threshold, each an interval after the one before.
abbrev After : Option ℕ → ℕ → Type 0
After none now = Unit
After (some t) now = t + warn_interval ≤ now

abbrev pub Spaced : Option ℕ → List (ℕ × ℕ) → Type 0
Spaced last [] = Unit
Spaced last ((depth, now) ∷ ws) =
    (backlog_warn_threshold < depth) × After last now × Spaced (some now) ws

-- For any calls: each warning is about more than ten segments, and at least 30 seconds after the one
-- before.
warn_all-Spaced : (calls : List (ℕ × ℕ)) (last : Option ℕ) → Spaced last (warn_all calls last)
unfolding warn_all maybe_warn_backlog warned
warn_all-Spaced [] last = tt
warn_all-Spaced ((depth, now) ∷ calls) none = elim (Bool-cases (leb depth backlog_warn_threshold)) [
  | inl low ↦ rw low (warn_all-Spaced calls none)
  | inr high ↦ rw high (ground (arith, high), tt, warn_all-Spaced calls (some now))
]
warn_all-Spaced ((depth, now) ∷ calls) (some t) =
    elim (Bool-cases (leb depth backlog_warn_threshold)) [
      | inl low ↦ rw low (warn_all-Spaced calls (some t))
      | inr high ↦ elim (Bool-cases (leb warn_interval (now - t))) [
        | inl due ↦
            rw (high, due)
              (ground (arith, high), ground (arith, due), warn_all-Spaced calls (some now))
        | inr soon ↦ rw (high, soon) (warn_all-Spaced calls (some t))
      ]
    ]
