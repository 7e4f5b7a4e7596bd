-- ===== src/Transcription/Writer/Rows.antt =====
-- The rows that a run leaves in a database whose statements succeed.
use meetily_local.Common.{
  ℕ, ◌+◌, ◌≡◌, refl, sym, ap, ◌∙◌, true, some, List, [], ◌∷◌, ◌++◌, concat, append-nil, arith,
}
use meetily_local.Transcription.Writer.{
  Database, Wake, execute_all, upsert_transcript_segments, write, run_writer,
}
use meetily_local.Transcription.Writer.Batches.{arrivals, is_closed, write_each, run_writer-batches}

abbrev pub put_all {ℓ} : {Item : Type 0} {R : Type ℓ} → (Item → R → R) → List Item → R → R
put_all put [] r = r
put_all put (i ∷ is) r = put_all put is (put i r)

put_all-append :
    {Item R : Type 0} (put : Item → R → R) (xs ys : List Item) (r : R)
    → put_all put (xs ++ ys) r ≡ put_all put ys (put_all put xs r)
put_all-append put [] ys r = refl
put_all-append put (x ∷ xs) ys r = put_all-append put xs ys (put x r)

module _ {Item : Type 0} (d : Database Item) where
  open d use {Db, Transaction, begin, execute, commit}

  -- Statements that succeed: a transaction begins with the database's rows, an upsert puts one row,
  -- and a commit publishes the transaction's rows.
  pub record Succeeds (R : Type 0) (put : Item → R → R) : Type 0 where
    pub rows : Db → R
    pub pending : Transaction → R
    pub begins : (db : Db) → (t : Transaction) × (begin db ≡ some t) × (pending t ≡ rows db)
    pub executes :
        (i : Item) (t : Transaction)
        → (t' : Transaction) × (n : ℕ) × (execute i t ≡ some (t', n))
          × (pending t' ≡ put i (pending t))
    pub commits : (t : Transaction) → (db : Db) × (commit t ≡ some db) × (rows db ≡ pending t)

module _ {Item : Type 0} (d : Database Item) {R : Type 0} {put : Item → R → R}
    (ok : Succeeds d R put) where
  open d use {Db, Transaction, begin, execute, commit}
  open ok use {rows, pending, begins, executes, commits}

  execute_all-put_all :
      (items : List Item) (t : Transaction) (n : ℕ)
      → (t' : Transaction) × (m : ℕ) × (execute_all d items t n ≡ some (t', m))
        × (pending t' ≡ put_all put items (pending t))
  unfolding execute_all
  execute_all-put_all [] t n = (t, n, refl, refl)
  execute_all-put_all (i ∷ is) t n =
      let (t₁, k, e, p) = executes i t in
      let (t₂, m, f, q) = execute_all-put_all is t₁ (n + k) in
      (t₂, m, rw (e, execute_all) f, q ∙ ap (put_all put is) p)

  write-put_all :
      (items : List Item) (db : Db) → rows (write d items db) ≡ put_all put items (rows db)
  unfolding write upsert_transcript_segments
  write-put_all [] db = refl
  write-put_all (i ∷ is) db =
      let (t, e, p) = begins db in
      let (t', m, f, q) = execute_all-put_all (i ∷ is) t 0 in
      let (db', g, r) = commits t' in ground (arith, e, f, g, r, q, p)

  write_each-put_all :
      (bs : List (List Item)) (db : Db)
      → rows (write_each d bs db) ≡ put_all put (concat bs) (rows db)
  write_each-put_all [] db = refl
  write_each-put_all (b ∷ bs) db =
      write_each-put_all bs (write d b db)
      ∙ ap (put_all put (concat bs)) (write-put_all b db)
      ∙ sym (put_all-append put b (concat bs) (rows db))

  -- Where the statements succeed, a run that ends with the channel closed leaves the rows that the
  -- segments give one by one in the order of their arrival: neither the timer's ticks nor the
  -- bounds of the batches make a difference.
  pub rows-run_writer :
      (ws : List (Wake Item)) (db : Db)
      → is_closed ws ≡ true
      → rows (run_writer d ws db []).0 ≡ put_all put (arrivals ws) (rows db)
  rows-run_writer ws db h =
      let (bs, waiting, result, complete, sized, few, none_left) =
        run_writer-batches d ws db [] (omega arith) in
      let whole : concat bs ≡ arrivals ws =
        sym (append-nil (concat bs)) ∙ ap (◌++◌ (concat bs)) (sym (none_left h)) ∙ complete in
      ap (λ p. rows p.0) result
      ∙ write_each-put_all bs db
      ∙ ap (λ items. put_all put items (rows db)) whole
