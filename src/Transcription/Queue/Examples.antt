-- ===== src/Transcription/Queue/Examples.antt =====
-- The theorems of the queue at concrete runs, and tests.
use meetily_local.Common.{
  ℕ, ◌*◌, ◌^◌, ◌≡◌, refl, ap, Option, none, some, List, [], ◌∷◌, ◌++◌, arith,
}
use meetily_local.Transcription.Queue.{
  Channel, Act, dispatches, stops, forwards, works, ended, fresh, act, act_all, dispatch, forward,
  work, dequeued, maybe_warn_backlog,
}
use meetily_local.Transcription.Queue.Steps.{IsSteady}
use meetily_local.Transcription.Queue.Depth.{processed-ended}
use meetily_local.Transcription.Queue.Warnings.{warn_all}

abbrev uncons : List ℕ → Option (ℕ × List ℕ)
uncons [] = none
uncons (a ∷ rest) = some (a, rest)

-- A channel as the list of its messages.
abbrev list_channel : Channel ℕ
list_channel = record {
  Chan = List ℕ;
  empty = [];
  send = λ a c. c ++ a ∷ [];
  recv = uncons;
  waiting = λ c. c;
  waiting-empty = refl;
  waiting-send = λ a c. refl;
  recv-nil = λ c e. ap uncons e;
  recv-cons = λ c a rest e. (rest, ap uncons e, refl);
}

abbrev two_segments : List (Act ℕ)
two_segments =
    dispatches 5 ∷ forwards ∷ dispatches 6 ∷ forwards ∷ forwards ∷ works ∷ forwards ∷ forwards ∷ []

abbrev to_the_end : List (Act ℕ)
to_the_end = two_segments ++ works ∷ stops ∷ forwards ∷ forwards ∷ works ∷ works ∷ works ∷ []

one_behind : (act_all list_channel two_segments (fresh list_channel)).queue_depth ≡ 2
unfolding act_all act dispatch forward work dequeued
one_behind = refl

comes_to_the_end : (act_all list_channel to_the_end (fresh list_channel)).worker ≡ ended
unfolding act_all act dispatch forward work dequeued
comes_to_the_end = refl

two_segments-IsSteady : IsSteady two_segments
two_segments-IsSteady = ground arith

to_the_end-IsSteady : IsSteady to_the_end
to_the_end-IsSteady = ground arith

processed-ended_example :
    let b = act_all list_channel to_the_end (fresh list_channel) in
    (b.processed ≡ b.dispatched) × (b.queue_depth ≡ 0)
processed-ended_example =
    processed-ended list_channel to_the_end to_the_end-IsSteady (omega arith) comes_to_the_end

abbrev three_calls : List (ℕ × ℕ)
three_calls = (11, 10 ^ 9) ∷ (12, 2 * 10 ^ 9) ∷ (13, 40 * 10 ^ 9) ∷ []

warns_twice : warn_all three_calls none ≡ (11, 10 ^ 9) ∷ (13, 40 * 10 ^ 9) ∷ []
unfolding warn_all maybe_warn_backlog
warns_twice = refl
