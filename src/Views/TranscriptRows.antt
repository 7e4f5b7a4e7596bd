-- ===== src/Views/TranscriptRows.antt =====
-- meetily-gpui/src/views/recording/logic.rs: the ordering of the live transcript's rows, and the
-- insertion of a new or revised row. `F` is `f64`, and `partial_cmp` its comparison. The binary search
-- of the standard library is an interface.
pub mod Order
pub mod Contents
pub mod Changes
use Prim.Native.Nat.{compare, Ordering}
use meetily_local.Common.{
  ℕ, zero, suc, ◌-◌, ◌≤◌, ◌≡◌, Bool, true, false, not, ◌&&◌, Option, none, some, String, List, [],
  ◌∷◌, length, ◌==◌, if◌then◌else◌, remove_at, insert_at, set,
}

pub record TranscriptRow (F : Type 0) : Type 0 where
  pub sequence_id : ℕ
  pub audio_start_time : F
  pub speaker : String
  pub text : String
  pub source : String

pub data RowChange : Type 0 where
  appended : RowChange
  inserted_at replaced_at : ℕ → RowChange
  -- Where the row was removed, and where it was inserted.
  repositioned : ℕ → ℕ → RowChange

-- `partial_cmp` of pairs: the second components decide where the first are equal.
abbrev pub then_compare : Option Ordering → ℕ → ℕ → Option Ordering
then_compare none a b = none
then_compare (some Ordering.lt) a b = some Ordering.lt
then_compare (some Ordering.eq) a b = some (compare a b)
then_compare (some Ordering.gt) a b = some Ordering.gt

abbrev pub is_equal : Option Ordering → Bool
is_equal (some Ordering.eq) = true
is_equal _ = false

abbrev pub is_greater : Ordering → Bool
is_greater Ordering.gt = true
is_greater _ = false

abbrev unwrap_or_equal : Option Ordering → Ordering
unwrap_or_equal none = Ordering.eq
unwrap_or_equal (some o) = o

-- `position`: the index of the first row with the sequence number.
module _ {F : Type 0} where
  -- `position`: the index of the first row with the sequence number.
  unfoldable pub position : ℕ → List (TranscriptRow F) → Option ℕ
  position id [] = none
  position id (r ∷ rs) =
      if r.sequence_id == id
      then some 0
      else (elim (position id rs) [ none ↦ none | some i ↦ some (suc i) ])

  -- How many rows stand before the first that fails the test.
  abbrev pub leading : (TranscriptRow F → Bool) → List (TranscriptRow F) → ℕ
  leading p [] = 0
  leading p (r ∷ rs) = if p r then suc (leading p rs) else 0

  abbrev pub AllFail : (TranscriptRow F → Bool) → List (TranscriptRow F) → Type 0
  AllFail p [] = Unit
  AllFail p (r ∷ rs) = (p r ≡ false) × AllFail p rs

  -- All rows after one that fails the test fail it too.
  abbrev pub IsPartitioned : (TranscriptRow F → Bool) → List (TranscriptRow F) → Type 0
  IsPartitioned p [] = Unit
  IsPartitioned p (r ∷ rs) = (p r ≡ false → AllFail p rs) × IsPartitioned p rs

  -- `rows[idx]`
  abbrev pub row_at : List (TranscriptRow F) → ℕ → Option (TranscriptRow F)
  row_at [] i = none
  row_at (r ∷ rs) zero = some r
  row_at (r ∷ rs) (suc i) = row_at rs i

-- `slice::partition_point`: an index of the slice or its length, which is the partition point of rows
-- that are partitioned, and unspecified on others.
pub record PartitionPoint (F : Type 0) : Type 0 where
  pub partition_point : (TranscriptRow F → Bool) → List (TranscriptRow F) → ℕ
  pub bound :
      (p : TranscriptRow F → Bool) (rows : List (TranscriptRow F))
      → partition_point p rows ≤ length rows
  pub partitioned :
      (p : TranscriptRow F → Bool) (rows : List (TranscriptRow F))
      → IsPartitioned p rows
      → partition_point p rows ≡ leading p rows

module _ {F : Type 0} (partial_cmp : F → F → Option Ordering) where
  -- The comparison of two order keys.
  compare_keys : TranscriptRow F → TranscriptRow F → Option Ordering
  compare_keys a b =
      then_compare (partial_cmp a.audio_start_time b.audio_start_time) a.sequence_id b.sequence_id

  unfoldable pub compare_rows : TranscriptRow F → TranscriptRow F → Ordering
  unfolding compare_keys
  compare_rows a b = unwrap_or_equal (compare_keys a b)

module _ {F : Type 0} (search : PartitionPoint F) (partial_cmp : F → F → Option Ordering) where
  unfoldable pub insert_position : TranscriptRow F → List (TranscriptRow F) → ℕ
  unfolding compare_rows
  insert_position row rows =
      search.partition_point (λ r. not (is_greater (compare_rows partial_cmp r row))) rows

  -- The row with this number stands at `idx`.
  revise :
      List (TranscriptRow F)
      → TranscriptRow F
      → ℕ
      → Option (TranscriptRow F)
      → List (TranscriptRow F) × RowChange
  unfolding compare_keys insert_position
  revise rows row idx none = (rows, replaced_at idx)
  revise rows row idx (some old) =
      let rest = remove_at idx rows in
      let at = insert_position row rest in
      if is_equal (compare_keys partial_cmp old row)
      then (set rows idx row, replaced_at idx)
      else (insert_at at row rest, repositioned idx at)

  unfoldable pub upsert_row :
      List (TranscriptRow F) → TranscriptRow F → List (TranscriptRow F) × RowChange
  unfolding revise
  upsert_row rows row = elim (position row.sequence_id rows) [
    | some idx ↦ revise rows row idx (row_at rows idx)
    | none ↦
        let at = insert_position row rows in
        let rows' = insert_at at row rows in
        (rows', if at == length rows' - 1 then appended else inserted_at at)
  ]
