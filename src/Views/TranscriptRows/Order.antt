-- ===== src/Views/TranscriptRows/Order.antt =====
-- The order of the rows, and their sequence numbers.
use Prim.Native.Nat.{compare, Ordering}
use meetily_local.Common.{
  ℕ, zero, suc, ◌≤◌, ◌<◌, ◌≡◌, ◌≢◌, ◌⊎◌, subst, Bool, true, false, not, Option, none, some, List,
  [], ◌∷◌, arith, if◌then◌else◌, remove_at, insert_at, set, ◌==◌, Bool-cases, Option-cases, inl,
  inr,
}
use meetily_local.Views.TranscriptRows.{
  TranscriptRow, PartitionPoint, position, leading, AllFail, IsPartitioned, row_at, is_greater,
  compare_rows, insert_position, upsert_row, compare_keys, is_equal, revise,
}
use meetily_local.Views.TranscriptRows.Changes.{position_found}

module _ {F : Type 0} where
  abbrev pub find : ℕ → List (TranscriptRow F) → Option (TranscriptRow F)
  find id [] = none
  find id (r ∷ rs) = if r.sequence_id == id then some r else find id rs

  abbrev pub All {ℓ} : (TranscriptRow F → Type ℓ) → List (TranscriptRow F) → Type ℓ
  All P [] = Unit
  All P (r ∷ rs) = P r × All P rs

  -- No two rows have the same number.
  abbrev pub Distinct : List (TranscriptRow F) → Type 0
  Distinct [] = Unit
  Distinct (r ∷ rs) = All (λ s. r.sequence_id ≢ s.sequence_id) rs × Distinct rs

  pub All-insert_at :
      (P : TranscriptRow F → Type 0) (i : ℕ) (row : TranscriptRow F) (rows : List (TranscriptRow F))
      → P row
      → All P rows
      → All P (insert_at i row rows)
  All-insert_at P zero row rows p h = (p, h)
  All-insert_at P (suc i) row [] p h = tt
  All-insert_at P (suc i) row (r ∷ rs) p h = (h.0, All-insert_at P i row rs p h.1)

  pub All-remove_at :
      (P : TranscriptRow F → Type 0) (i : ℕ) (rows : List (TranscriptRow F))
      → All P rows
      → All P (remove_at i rows)
  All-remove_at P i [] h = tt
  All-remove_at P zero (r ∷ rs) h = h.1
  All-remove_at P (suc i) (r ∷ rs) h = (h.0, All-remove_at P i rs h.1)

  pub All-set :
      (P : TranscriptRow F → Type 0) (i : ℕ) (row : TranscriptRow F) (rows : List (TranscriptRow F))
      → P row
      → All P rows
      → All P (set rows i row)
  All-set P i row [] p h = tt
  All-set P zero row (r ∷ rs) p h = (p, h.1)
  All-set P (suc i) row (r ∷ rs) p h = (h.0, All-set P i row rs p h.1)

  pub All-row_at :
      (P : TranscriptRow F → Type 0) (i : ℕ) (rows : List (TranscriptRow F)) (old : TranscriptRow F)
      → row_at rows i ≡ some old
      → All P rows
      → P old
  All-row_at P i [] old e h = cc
  All-row_at P zero (r ∷ rs) old e h = subst P (ground arith) h.0
  All-row_at P (suc i) (r ∷ rs) old e h = All-row_at P i rs old e h.1

module _ {F : Type 0} (rank : F → ℕ) where
  abbrev pub Le : TranscriptRow F → TranscriptRow F → Type 0
  Le a b =
      (rank a.audio_start_time < rank b.audio_start_time)
      ⊎ ((rank a.audio_start_time ≡ rank b.audio_start_time) × (a.sequence_id ≤ b.sequence_id))

  -- Chronological, with the sequence number as the tiebreaker.
  abbrev pub IsSorted : List (TranscriptRow F) → Type 0
  IsSorted [] = Unit
  IsSorted (r ∷ rs) = All (Le r) rs × IsSorted rs

-- The comparison of times, where it agrees with an order of numbers: as for the bit patterns of
-- `f64` values that are neither negative nor NaN.
module _ {F : Type 0} (search : PartitionPoint F) (partial_cmp : F → F → Option Ordering)
    (rank : F → ℕ) (ranked : (a b : F) → partial_cmp a b ≡ some (compare (rank a) (rank b))) where
  compare_rows_le :
      (a b : TranscriptRow F) → is_greater (compare_rows partial_cmp a b) ≡ false → Le rank a b
  unfolding compare_rows
  compare_rows_le a b h = ground (arith, ranked a.audio_start_time b.audio_start_time)

  compare_rows_ge :
      (a b : TranscriptRow F) → is_greater (compare_rows partial_cmp a b) ≡ true → Le rank b a
  unfolding compare_rows
  compare_rows_ge a b h = ground (arith, ranked a.audio_start_time b.audio_start_time)

  Le-trans : (a b c : TranscriptRow F) → Le rank a b → Le rank b c → Le rank a c
  Le-trans a b c h k = ground arith

  All-Le :
      (a b : TranscriptRow F) (rows : List (TranscriptRow F))
      → Le rank a b
      → All (Le rank b) rows
      → All (Le rank a) rows
  All-Le a b [] h k = tt
  All-Le a b (r ∷ rs) h k = (Le-trans a b r h k.0, All-Le a b rs h k.1)

  -- Whether a row stands before a new one, as the code tests it.
  abbrev goes_before : TranscriptRow F → TranscriptRow F → Bool
  goes_before row r = not (is_greater (compare_rows partial_cmp r row))

  later_fails :
      (row r s : TranscriptRow F)
      → goes_before row r ≡ false
      → Le rank r s
      → goes_before row s ≡ false
  unfolding compare_rows
  later_fails row r s h k = ground (
    arith,
    ranked r.audio_start_time row.audio_start_time,
    ranked s.audio_start_time row.audio_start_time,
  )

  rest_AllFail :
      (row r : TranscriptRow F) (rows : List (TranscriptRow F))
      → goes_before row r ≡ false
      → All (Le rank r) rows
      → AllFail (goes_before row) rows
  rest_AllFail row r [] h k = tt
  rest_AllFail row r (s ∷ rows) h k = (later_fails row r s h k.0, rest_AllFail row r rows h k.1)

  sorted_IsPartitioned :
      (row : TranscriptRow F) (rows : List (TranscriptRow F))
      → IsSorted rank rows
      → IsPartitioned (goes_before row) rows
  sorted_IsPartitioned row [] h = tt
  sorted_IsPartitioned row (r ∷ rs) h =
      ((λ e. rest_AllFail row r rs e h.0), sorted_IsPartitioned row rs h.1)

  insert_leading-IsSorted :
      (row : TranscriptRow F) (rows : List (TranscriptRow F))
      → IsSorted rank rows
      → IsSorted rank (insert_at (leading (goes_before row) rows) row rows)
  insert_leading-IsSorted row [] h = (tt, tt)
  insert_leading-IsSorted row (r ∷ rs) h =
      elim (Bool-cases (is_greater (compare_rows partial_cmp r row))) [
        | inl gt ↦
            rw gt ((compare_rows_ge r row gt, All-Le row r rs (compare_rows_ge r row gt) h.0), h)
        | inr le ↦ rw le (
            (
              All-insert_at (Le rank r) (leading (goes_before row) rs) row rs
                  (compare_rows_le r row le) h.0,
              insert_leading-IsSorted row rs h.1,
            ))
      ]

  insert_position-IsSorted :
      (row : TranscriptRow F) (rows : List (TranscriptRow F))
      → IsSorted rank rows
      → IsSorted rank (insert_at (insert_position search partial_cmp row rows) row rows)
  unfolding insert_position
  insert_position-IsSorted row rows h =
      rw (search.partitioned (goes_before row) rows (sorted_IsPartitioned row rows h))
        (insert_leading-IsSorted row rows h)

  remove_at-IsSorted :
      (i : ℕ) (rows : List (TranscriptRow F))
      → IsSorted rank rows
      → IsSorted rank (remove_at i rows)
  remove_at-IsSorted i [] h = tt
  remove_at-IsSorted zero (r ∷ rs) h = h.1
  remove_at-IsSorted (suc i) (r ∷ rs) h =
      (All-remove_at (Le rank r) i rs h.0, remove_at-IsSorted i rs h.1)

  set-IsSorted :
      (i : ℕ) (rows : List (TranscriptRow F)) (old row : TranscriptRow F)
      → row_at rows i ≡ some old
      → Le rank old row
      → Le rank row old
      → IsSorted rank rows
      → IsSorted rank (set rows i row)
  set-IsSorted i [] old row e le ge h = tt
  set-IsSorted zero (r ∷ rs) old row e le ge h =
      (All-Le row r rs (subst (Le rank row) {x = old} {y = r} (ground arith) ge) h.0, h.1)
  set-IsSorted (suc i) (r ∷ rs) old row e le ge h = (
    All-set (Le rank r) i row rs (Le-trans r old row (All-row_at (Le rank r) i rs old e h.0) le)
        h.0,
    set-IsSorted i rs old row e le ge h.1,
  )

  compare_keys_equal :
      (a b : TranscriptRow F)
      → is_equal (compare_keys partial_cmp a b) ≡ true
      → Le rank a b × Le rank b a
  unfolding compare_keys
  compare_keys_equal a b h = ground (arith, ranked a.audio_start_time b.audio_start_time)

  revise-IsSorted :
      (rows : List (TranscriptRow F)) (row : TranscriptRow F) (i : ℕ) (old : TranscriptRow F)
      → row_at rows i ≡ some old
      → IsSorted rank rows
      → IsSorted rank (revise search partial_cmp rows row i (some old)).0
  unfolding revise
  revise-IsSorted rows row i old e h =
      elim (Bool-cases (is_equal (compare_keys partial_cmp old row))) [
        | inl same ↦
            let (le, ge) = compare_keys_equal old row same in
            rw same (set-IsSorted i rows old row e le ge h)
        | inr moved ↦
            rw moved (insert_position-IsSorted row (remove_at i rows) (remove_at-IsSorted i rows h))
      ]

  -- An upsert keeps the rows in chronological order, whether it appends, inserts, replaces or moves,
  -- if the comparison of times agrees with an order of numbers: as for `f64` values that are neither
  -- negative nor NaN.
  pub upsert_row-IsSorted :
      (rows : List (TranscriptRow F)) (row : TranscriptRow F)
      → IsSorted rank rows
      → IsSorted rank (upsert_row search partial_cmp rows row).0
  unfolding upsert_row
  upsert_row-IsSorted rows row h = elim (Option-cases (position row.sequence_id rows)) [
    | inl e ↦ rw (e, upsert_row) (insert_position-IsSorted row rows h)
    | inr (i, e) ↦
        let (old, f, g) = position_found row.sequence_id rows i e in
        rw (e, upsert_row, f) (revise-IsSorted rows row i old f h)
  ]
