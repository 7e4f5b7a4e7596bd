-- ===== src/Views/Examples.antt =====
-- The theorems of the pages' logic at concrete inputs, and tests.
use Prim.Native.Nat.{compare, Ordering}
use meetily_local.Common.{
  ℕ, Bool, Bool-cases, inl, inr, length, ◌≤◌, ◌≡◌, refl, Option, some, List, [], ◌∷◌, arith,
}
use meetily_local.Views.TranscriptRows.{
  TranscriptRow, upsert_row, repositioned, insert_position, PartitionPoint, leading, position,
}
use meetily_local.Views.TranscriptRows.Changes.{replay, replay-upsert_row}
use meetily_local.Views.TranscriptRows.Order.{IsSorted, Distinct, find, upsert_row-IsSorted}
use meetily_local.Views.TranscriptRows.Contents.{upsert_row-find}

-- Times in whole seconds.
abbrev seconds : ℕ → ℕ → Option Ordering
seconds a b = some (compare a b)

abbrev leading-le :
    (p : TranscriptRow ℕ → Bool) (rows : List (TranscriptRow ℕ)) → leading p rows ≤ length rows
leading-le p [] = omega arith
leading-le p (r ∷ rs) = elim (Bool-cases (p r)) [
  | inl e ↦ rw e (omega (arith, leading-le p rs))
  | inr e ↦ rw e (omega arith)
]

-- A search that looks at one row after the other.
abbrev scan : PartitionPoint ℕ
scan = record { partition_point = leading; bound = leading-le; partitioned = λ p rows h. refl }

abbrev row : ℕ → ℕ → TranscriptRow ℕ
row id time = record {
  sequence_id = id;
  audio_start_time = time;
  speaker = "Me";
  text = "Hi";
  source = "mic";
}

abbrev three_rows : List (TranscriptRow ℕ)
three_rows = row 1 10 ∷ row 0 20 ∷ row 2 30 ∷ []

-- A revised row that moves to the end.
moves_to_end :
    upsert_row scan seconds three_rows (row 0 40)
    ≡ (row 1 10 ∷ row 2 30 ∷ row 0 40 ∷ [], repositioned 1 2)
unfolding upsert_row position insert_position
moves_to_end = refl

replay-upsert_row_example :
    let (rows', change) = upsert_row scan seconds three_rows (row 0 40) in
    replay change (row 0 40) three_rows ≡ rows'
replay-upsert_row_example = replay-upsert_row scan seconds three_rows (row 0 40)

upsert_row-IsSorted_example : IsSorted (λ t. t) (upsert_row scan seconds three_rows (row 0 40)).0
upsert_row-IsSorted_example =
    upsert_row-IsSorted scan seconds (λ t. t) (λ a b. refl) three_rows (row 0 40) (omega arith)

upsert_row-find_example :
    let rows' = (upsert_row scan seconds three_rows (row 0 40)).0 in
    Distinct rows' × (find 0 rows' ≡ some (row 0 40))
upsert_row-find_example = upsert_row-find scan seconds three_rows (row 0 40) 0 (omega arith)
