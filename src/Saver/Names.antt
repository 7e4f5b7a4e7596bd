-- ===== src/Saver/Names.antt =====
-- The order of the checkpoints' names against the order of their numbers.
use Prim.Native.Nat.{Ordering}
use meetily_local.Common.{ℕ, ◌+◌, ◌/◌, ◌%◌, ◌≤◌, ◌<◌, ◌≡◌, [], ◌∷◌, arith, ltb}
use meetily_local.Saver.{pad3, checkpoint_name, compare_bytes, is_greater_name}

pad3_small : (n : ℕ) → n < 1000 → pad3 n ≡ (48 + n / 100) ∷ (48 + n / 10 % 10) ∷ (48 + n % 10) ∷ []
unfolding pad3
pad3_small n h = ground arith

pad3_large :
    (n : ℕ)
    → 1000 ≤ n
    → n < 10000
    → pad3 n ≡ (48 + n / 1000) ∷ (48 + n / 100 % 10) ∷ (48 + n / 10 % 10) ∷ (48 + n % 10) ∷ []
unfolding pad3
pad3_large n h k = ground arith

-- Up to a thousand checkpoints the names are in the order of the numbers.
compare_bytes-checkpoint_name :
    (n k : ℕ)
    → n < k
    → k < 1000
    → compare_bytes (checkpoint_name n) (checkpoint_name k) ≡ Ordering.lt
unfolding compare_bytes checkpoint_name
compare_bytes-checkpoint_name n k h b =
    rw (pad3_small n (omega arith), pad3_small k b) (ground arith)

-- The name of a checkpoint from number 1000 on sorts before that of an earlier one below 1000 whose
-- first digit is greater than its own.
checkpoint_name_misordered :
    (n k : ℕ)
    → n < 1000
    → 1000 ≤ k
    → k < 10000
    → k / 1000 < n / 100
    → compare_bytes (checkpoint_name k) (checkpoint_name n) ≡ Ordering.lt
unfolding compare_bytes checkpoint_name
checkpoint_name_misordered n k h l u d = rw (pad3_small n h, pad3_large k l u) (ground arith)

pub name_greater :
    (n k : ℕ)
    → n < 1000
    → k < 1000
    → is_greater_name (compare_bytes (checkpoint_name n) (checkpoint_name k)) ≡ ltb k n
unfolding compare_bytes checkpoint_name
name_greater n k h b = rw (pad3_small n h, pad3_small k b) (ground arith)
