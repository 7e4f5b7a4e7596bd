-- ===== src/Transcription/Writer.antt =====
-- meetily-core/src/audio/transcript_db_writer.rs, with upsert_transcript_segments of
-- meetily-core/src/database/repositories/transcript.rs: the task that writes a live recording's
-- segments to SQLite in batches. The database is an interface; what the task waits for (a segment,
-- a tick of the timer, the channel's end) is a list of wakes.
pub mod Batches
pub mod Rows
use meetily_local.Common.{
  ℕ, ◌+◌, Bool, true, false, Option, none, some, List, [], ◌∷◌, ◌++◌, length, leb, if◌then◌else◌,
}

abbrev pub batch_size : ℕ
batch_size = 20

-- The SQLite pool as the writer uses it. `begin` takes a connection and opens a transaction;
-- `execute` is the upsert of one row, and counts the rows affected; a transaction that is rolled
-- back, or dropped, leaves the database as it was.
pub record Database (Item : Type 0) : Type 1 where
  pub Db : Type 0
  pub Transaction : Type 0
  pub begin : Db → Option Transaction
  pub execute : Item → Transaction → Option (Transaction × ℕ)
  pub commit : Transaction → Option Db

pub data Wake (Item : Type 0) : Type 0 where
  received : Item → Wake Item
  ticked : Wake Item
  closed : Wake Item

module _ {Item : Type 0} (d : Database Item) where
  open d use {Db, Transaction, begin, execute, commit}

  -- The loop over the items; `none` rolls back.
  unfoldable pub execute_all : List Item → Transaction → ℕ → Option (Transaction × ℕ)
  execute_all [] t affected = some (t, affected)
  execute_all (i ∷ is) t affected = elim (execute i t) [
    | none ↦ none
    | some (t', rows) ↦ execute_all is t' (affected + rows)
  ]

  commit_counted : Option (Transaction × ℕ) → Option (Db × ℕ)
  commit_counted none = none
  commit_counted (some (t, affected)) = elim (commit t) [
    | none ↦ none
    | some db ↦ some (db, affected)
  ]

  write_all : List Item → Option Transaction → Option (Db × ℕ)
  unfolding commit_counted
  write_all items none = none
  write_all items (some t) = commit_counted (execute_all items t 0)

  -- `none` is an error; the database is then as before.
  unfoldable pub upsert_transcript_segments : List Item → Db → Option (Db × ℕ)
  unfolding write_all
  upsert_transcript_segments [] db = some (db, 0)
  upsert_transcript_segments (i ∷ is) db = write_all (i ∷ is) (begin db)

  -- A batch that cannot be written is logged and dropped.
  unfoldable pub write : List Item → Db → Db
  write items db = elim (upsert_transcript_segments items db) [
    | none ↦ db
    | some (db', affected) ↦ db'
  ]

  -- The database, and the batch left empty.
  unfoldable pub flush : List Item → Db → Db × List Item
  flush [] db = (db, [])
  flush (i ∷ is) db = (write (i ∷ is) db, [])

  received_one : Item → List Item → Db → Db × List Item
  received_one item batch db =
      let batch' = batch ++ item ∷ [] in
      if leb batch_size (length batch') then flush batch' db else (db, batch')

  -- The task returns when the channel is closed; the wakes that are left do not happen.
  unfoldable pub run_writer : List (Wake Item) → Db → List Item → Db × List Item
  unfolding received_one
  run_writer [] db batch = (db, batch)
  run_writer (received item ∷ ws) db batch =
      let (db', batch') = received_one item batch db in run_writer ws db' batch'
  run_writer (ticked ∷ ws) db batch = let (db', batch') = flush batch db in run_writer ws db' batch'
  run_writer (closed ∷ ws) db batch = flush batch db
