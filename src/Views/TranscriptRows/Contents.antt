-- ===== src/Views/TranscriptRows/Contents.antt =====
-- The rows that an upsert leaves, by their sequence numbers.
use Prim.Native.Nat.{Ordering}
use meetily_local.Common.{
  ℕ, zero, suc, ◌≤◌, ◌≡◌, ◌≢◌, refl, sym, subst, Option, none, some, List, [], ◌∷◌, length, arith,
  if◌then◌else◌, remove_at, insert_at, set, ◌==◌, Bool-cases, Option-cases, inl, inr,
}
use meetily_local.Views.TranscriptRows.{
  TranscriptRow, PartitionPoint, position, insert_position, upsert_row, is_equal, compare_keys,
  revise,
}
use meetily_local.Views.TranscriptRows.Changes.{position_found, insert_position-le}
use meetily_local.Views.TranscriptRows.Order.{
  find, All, Distinct, All-insert_at, All-remove_at, All-set,
}

module _ {F : Type 0} where
  abbrev Lacks : ℕ → List (TranscriptRow F) → Type 0
  Lacks id = All (λ r. id ≢ r.sequence_id)

  position-none : (id : ℕ) (rows : List (TranscriptRow F)) → position id rows ≡ none → Lacks id rows
  unfolding position
  position-none id [] h = tt
  position-none id (r ∷ rs) h = (ground arith, position-none id rs (ground arith))

  find-insert_at :
      (id i : ℕ) (row : TranscriptRow F) (rows : List (TranscriptRow F))
      → i ≤ length rows
      → Lacks row.sequence_id rows
      → find id (insert_at i row rows) ≡ (if row.sequence_id == id then some row else find id rows)
  find-insert_at id zero row rows h k = refl
  find-insert_at id (suc i) row [] h k = absurd (omega arith)
  find-insert_at id (suc i) row (r ∷ rs) h k = ground (arith, find-insert_at id i row rs)

  find-Lacks : (id : ℕ) (rows : List (TranscriptRow F)) → Lacks id rows → find id rows ≡ none
  find-Lacks id [] h = refl
  find-Lacks id (r ∷ rs) h = ground (arith, find-Lacks id rs)

  find-remove_at :
      (id i : ℕ) (key : ℕ) (rows : List (TranscriptRow F))
      → position key rows ≡ some i
      → Distinct rows
      → (find id (remove_at i rows) ≡ (if key == id then none else find id rows))
        × Lacks key (remove_at i rows)
  unfolding position
  find-remove_at id i key [] h d = cc
  find-remove_at id zero key (r ∷ rs) h d =
      let hit : r.sequence_id ≡ key = ground arith in
      let lacks : Lacks key rs = subst (λ k. Lacks k rs) hit d.0 in
      (ground (arith, find-Lacks key rs lacks), lacks)
  find-remove_at id (suc i) key (r ∷ rs) h d =
      let miss : key ≢ r.sequence_id = ground arith in
      let (same, lacks) = find-remove_at id i key rs (ground arith) d.1 in
      (ground arith, (miss, lacks))

  find-set :
      (id i : ℕ) (row : TranscriptRow F) (rows : List (TranscriptRow F))
      → position row.sequence_id rows ≡ some i
      → find id (set rows i row) ≡ (if row.sequence_id == id then some row else find id rows)
  unfolding position
  find-set id i row [] h = cc
  find-set id zero row (r ∷ rs) h = ground arith
  find-set id (suc i) row (r ∷ rs) h = ground (arith, find-set id i row rs)

  insert_at-Distinct :
      (i : ℕ) (row : TranscriptRow F) (rows : List (TranscriptRow F))
      → Lacks row.sequence_id rows
      → Distinct rows
      → Distinct (insert_at i row rows)
  insert_at-Distinct zero row rows k d = (k, d)
  insert_at-Distinct (suc i) row [] k d = tt
  insert_at-Distinct (suc i) row (r ∷ rs) k d = (
    All-insert_at (λ s. r.sequence_id ≢ s.sequence_id) i row rs (λ e. k.0 (sym e)) d.0,
    insert_at-Distinct i row rs k.1 d.1,
  )

  remove_at-Distinct :
      (i : ℕ) (rows : List (TranscriptRow F)) → Distinct rows → Distinct (remove_at i rows)
  remove_at-Distinct i [] d = tt
  remove_at-Distinct zero (r ∷ rs) d = d.1
  remove_at-Distinct (suc i) (r ∷ rs) d =
      (All-remove_at (λ s. r.sequence_id ≢ s.sequence_id) i rs d.0, remove_at-Distinct i rs d.1)

  set-Distinct :
      (i : ℕ) (row : TranscriptRow F) (rows : List (TranscriptRow F))
      → position row.sequence_id rows ≡ some i
      → Distinct rows
      → Distinct (set rows i row)
  unfolding position
  set-Distinct i row [] h d = tt
  set-Distinct zero row (r ∷ rs) h d =
      let hit : r.sequence_id ≡ row.sequence_id = ground arith in
      (subst (λ k. Lacks k rs) hit d.0, d.1)
  set-Distinct (suc i) row (r ∷ rs) h d =
      let miss : r.sequence_id ≢ row.sequence_id = ground arith in
      (
        All-set (λ s. r.sequence_id ≢ s.sequence_id) i row rs miss d.0,
        set-Distinct i row rs (ground arith) d.1,
      )

module _ {F : Type 0} (search : PartitionPoint F) (partial_cmp : F → F → Option Ordering) where
  revise-find :
      (rows : List (TranscriptRow F)) (row : TranscriptRow F) (id i : ℕ) (old : TranscriptRow F)
      → position row.sequence_id rows ≡ some i
      → Distinct rows
      → let rows' = (revise search partial_cmp rows row i (some old)).0 in
        Distinct rows'
        × (find id rows' ≡ (if row.sequence_id == id then some row else find id rows))
  unfolding revise
  revise-find rows row id i old e d =
      elim (Bool-cases (is_equal (compare_keys partial_cmp old row))) [
        | inl same ↦ rw same (set-Distinct i row rows e d, find-set id i row rows e)
        | inr moved ↦
            let rest = remove_at i rows in
            let at = insert_position search partial_cmp row rest in
            let (found, lacks) = find-remove_at id i row.sequence_id rows e d in
            rw moved (
              insert_at-Distinct at row rest lacks (remove_at-Distinct i rows d),
              ground (
                arith,
                find-insert_at id at row rest (insert_position-le search partial_cmp row rest)
                    lacks,
              ),
            )
      ]

  -- From rows with distinct numbers, sorted or not, for any comparison of times and any search that
  -- gives an index of the list or its length: an upsert keeps the numbers
  -- distinct; the row's number then finds the row, and any other number what it found before.
  pub upsert_row-find :
      (rows : List (TranscriptRow F)) (row : TranscriptRow F) (id : ℕ)
      → Distinct rows
      → let rows' = (upsert_row search partial_cmp rows row).0 in
        Distinct rows'
        × (find id rows' ≡ (if row.sequence_id == id then some row else find id rows))
  unfolding upsert_row
  upsert_row-find rows row id d = elim (Option-cases (position row.sequence_id rows)) [
    | inl e ↦
        let lacks = position-none row.sequence_id rows e in
        let at = insert_position search partial_cmp row rows in
        rw (e, upsert_row)
          (
            insert_at-Distinct at row rows lacks d,
            find-insert_at id at row rows (insert_position-le search partial_cmp row rows) lacks,
          )
    | inr (i, e) ↦
        let (old, f, g) = position_found row.sequence_id rows i e in
        rw (e, upsert_row, f) (revise-find rows row id i old e d)
  ]
