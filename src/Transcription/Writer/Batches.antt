-- ===== src/Transcription/Writer/Batches.antt =====
-- The batches that a run writes.
use meetily_local.Common.{
  ◌+◌, ◌≤◌, ◌<◌, ◌≡◌, refl, sym, ap, ◌∙◌, Bool, true, false, List, [], ◌∷◌, ◌++◌, length, leb,
  append-nil, append_assoc, arith, length-append, concat, Bool-cases, inl, inr,
}
use meetily_local.Transcription.Writer.{
  batch_size, Database, Wake, received, ticked, closed, write, flush, run_writer,
}

module _ {Item : Type 0} where
  -- The segments that arrive before the channel is closed.
  abbrev pub arrivals : List (Wake Item) → List Item
  arrivals [] = []
  arrivals (received i ∷ ws) = i ∷ arrivals ws
  arrivals (ticked ∷ ws) = arrivals ws
  arrivals (closed ∷ ws) = []

  abbrev pub is_closed : List (Wake Item) → Bool
  is_closed [] = false
  is_closed (received i ∷ ws) = is_closed ws
  is_closed (ticked ∷ ws) = is_closed ws
  is_closed (closed ∷ ws) = true

  -- Batches of one to twenty segments.
  abbrev pub AreSized : List (List Item) → Type 0
  AreSized [] = Unit
  AreSized (b ∷ bs) = (1 ≤ length b) × (length b ≤ batch_size) × AreSized bs

module _ {Item : Type 0} (d : Database Item) where
  open d use {Db}

  -- The writes of some batches, one after the other.
  abbrev pub write_each : List (List Item) → Db → Db
  write_each [] db = db
  write_each (b ∷ bs) db = write_each bs (write d b db)

  -- What a run that ends in `final` amounts to: batches of `items`, and those that still wait.
  record Outcome (final : Db × List Item) (db : Db) (items : List Item) (ended : Bool)
      : Type 0 where
    batches : List (List Item)
    waiting : List Item
    result : final ≡ (write_each batches db, waiting)
    complete : concat batches ++ waiting ≡ items
    sized : AreSized batches
    few_waiting : length waiting < batch_size
    none_left : ended ≡ true → waiting ≡ []

  prepend :
      (b : List Item) (final : Db × List Item) (db : Db) (items : List Item) (ended : Bool)
      → 1 ≤ length b
      → length b ≤ batch_size
      → Outcome final (write d b db) items ended
      → Outcome final db (b ++ items) ended
  prepend b final db items ended h k o = record {
    batches = b ∷ o.batches;
    waiting = o.waiting;
    result = o.result;
    complete = append_assoc b (concat o.batches) o.waiting ∙ ap (◌++◌ b) o.complete;
    sized = (h, k, o.sized);
    few_waiting = o.few_waiting;
    none_left = o.none_left;
  }

  nothing : (db : Db) → Outcome (db, []) db [] true
  nothing db = record {
    batches = [];
    waiting = [];
    result = refl;
    complete = refl;
    sized = tt;
    few_waiting = omega arith;
    none_left = λ e. refl;
  }

  flush_some : (b : List Item) (db : Db) → 1 ≤ length b → flush d b db ≡ (write d b db, [])
  unfolding flush
  flush_some [] db h = absurd (omega arith)
  flush_some (i ∷ is) db h = refl

  run_writer-Outcome :
      (ws : List (Wake Item)) (db : Db) (batch : List Item)
      → length batch < batch_size
      → Outcome (run_writer d ws db batch) db (batch ++ arrivals ws) (is_closed ws)
  unfolding run_writer flush
  run_writer-Outcome [] db batch h = record {
    batches = [];
    waiting = batch;
    result = refl;
    complete = sym (append-nil batch);
    sized = tt;
    few_waiting = h;
    none_left = λ e. cc;
  }
  run_writer-Outcome (received item ∷ ws) db batch h =
      let b = batch ++ item ∷ [] in
      let same : b ++ arrivals ws ≡ batch ++ item ∷ arrivals ws =
        append_assoc batch (item ∷ []) (arrivals ws) in
      let long : length b ≡ length batch + 1 = length-append batch (item ∷ []) in
      elim (Bool-cases (leb batch_size (length b))) [
        | inl full ↦
            rw (full, flush_some b db (omega arith), ← same)
              (prepend b (run_writer d ws (write d b db) []) db (arrivals ws) (is_closed ws)
                (omega arith) (omega arith) (run_writer-Outcome ws (write d b db) [] (omega arith)))
        | inr room ↦ rw (room, ← same) (run_writer-Outcome ws db b (ground arith))
      ]
  run_writer-Outcome (ticked ∷ ws) db [] h = run_writer-Outcome ws db [] h
  run_writer-Outcome (ticked ∷ ws) db (i ∷ is) h =
      (prepend (i ∷ is) (run_writer d ws (write d (i ∷ is) db) []) db (arrivals ws) (is_closed ws)
        (omega arith) (omega arith) (run_writer-Outcome ws (write d (i ∷ is) db) [] (omega arith)))
  run_writer-Outcome (closed ∷ ws) db [] h = nothing db
  run_writer-Outcome (closed ∷ ws) db (i ∷ is) h =
      (prepend (i ∷ is) (write d (i ∷ is) db, []) db [] true (omega arith) (omega arith)
        (nothing (write d (i ∷ is) db)))

  -- For any wakes, from a batch that is not full: the segments that arrive before the end are
  -- written in their order, after those of the batch, in batches of one to twenty; fewer than
  -- twenty wait, and once the channel is closed none does.
  pub run_writer-batches :
      (ws : List (Wake Item)) (db : Db) (batch : List Item)
      → length batch < batch_size
      → (batches : List (List Item)) × (waiting : List Item) × (run_writer d ws db batch
          ≡ (write_each batches db, waiting))
        × (concat batches ++ waiting ≡ batch ++ arrivals ws)
        × AreSized batches
        × (length waiting < batch_size)
        × (is_closed ws ≡ true → waiting ≡ [])
  run_writer-batches ws db batch h =
      let o = run_writer-Outcome ws db batch h in
      (o.batches, o.waiting, o.result, o.complete, o.sized, o.few_waiting, o.none_left)
