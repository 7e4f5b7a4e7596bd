-- ===== src/Views/TranscriptRows/Changes.antt =====
-- What a `RowChange` tells the view about the new list.
use Prim.Native.Nat.{Ordering}
use meetily_local.Common.{
  ℕ, zero, suc, ◌+◌, ◌≤◌, ◌≡◌, refl, Option, some, List, [], ◌∷◌, ◌++◌, length, arith, remove_at,
  insert_at, set, ◌==◌, Bool-cases, Option-cases, inl, inr,
}
use meetily_local.Views.TranscriptRows.{
  TranscriptRow, PartitionPoint, RowChange, appended, inserted_at, replaced_at, repositioned,
  position, row_at, insert_position, upsert_row,
}

module _ {F : Type 0} where
  -- The change, made on the view's own copy of the list.
  abbrev pub replay : RowChange → TranscriptRow F → List (TranscriptRow F) → List (TranscriptRow F)
  replay appended row rows = rows ++ row ∷ []
  replay (inserted_at i) row rows = insert_at i row rows
  replay (replaced_at i) row rows = set rows i row
  replay (repositioned i j) row rows = insert_at j row (remove_at i rows)

  pub position_found :
      (id : ℕ) (rows : List (TranscriptRow F)) (i : ℕ)
      → position id rows ≡ some i
      → (old : TranscriptRow F) × (row_at rows i ≡ some old) × (old.sequence_id ≡ id)
  unfolding position
  position_found id [] i h = cc
  position_found id (r ∷ rs) i h = elim (Bool-cases (r.sequence_id == id)) [
    | inl hit ↦ (r, ground arith, ground arith)
    | inr miss ↦ elim (Option-cases (position id rs)) [
      | inl e ↦ absurd (ground (arith))
      | inr (j, e) ↦ let (old, f, g) = position_found id rs j e in (old, ground (arith), g)
    ]
  ]

  insert_at-length :
      (row : TranscriptRow F) (rows : List (TranscriptRow F))
      → insert_at (length rows) row rows ≡ rows ++ row ∷ []
  insert_at-length row [] = refl
  insert_at-length row (r ∷ rs) = ground (arith, insert_at-length row rs)

  length-insert_at :
      (i : ℕ) (row : TranscriptRow F) (rows : List (TranscriptRow F))
      → i ≤ length rows
      → length (insert_at i row rows) ≡ length rows + 1
  length-insert_at zero row rows h = omega arith
  length-insert_at (suc i) row [] h = absurd (omega arith)
  length-insert_at (suc i) row (r ∷ rs) h = omega (arith, length-insert_at i row rs)

module _ {F : Type 0} (search : PartitionPoint F) (partial_cmp : F → F → Option Ordering) where
  pub insert_position-le :
      (row : TranscriptRow F) (rows : List (TranscriptRow F))
      → insert_position search partial_cmp row rows ≤ length rows
  unfolding insert_position
  insert_position-le row rows = search.bound _ rows

  -- The change that `upsert_row` reports, made on the old list, gives the new list: for any rows,
  -- sorted or not, and any comparison of times, as the binary search gives an index of the list or its
  -- length even where its answer is unspecified.
  pub replay-upsert_row :
      (rows : List (TranscriptRow F)) (row : TranscriptRow F)
      → let (rows', change) = upsert_row search partial_cmp rows row in
        replay change row rows ≡ rows'
  unfolding upsert_row
  replay-upsert_row rows row = elim (Option-cases (position row.sequence_id rows)) [
    | inl e ↦
        let at = insert_position search partial_cmp row rows in
        ground (
          arith,
          e,
          insert_position-le row rows,
          length-insert_at at row rows,
          insert_at-length row rows,
        )
    | inr (i, e) ↦ let (old, f, g) = position_found row.sequence_id rows i e in ground (arith, e, f)
  ]
