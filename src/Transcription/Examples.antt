-- ===== src/Transcription/Examples.antt =====
-- The theorems of the live transcription at concrete inputs, and tests.
use meetily_local.Common.{
  ℕ, ◌<◌, ◌≡◌, ◌⊎◌, refl, true, none, some, String, List, [], ◌∷◌, ◌++◌, arith, length, concat,
}
use meetily_local.Recording.Session.{microphone}
use meetily_local.Transcription.Preview.{SourceState, PartialAudioChunk, BySource, Wake}
use meetily_local.Transcription.Preview.Agreement.{
  agree_all, longest, Confirmed, agree_all-Confirmed,
}
use meetily_local.Transcription.Writer.{
  Wake as WriterWake, Database, received, ticked, closed, run_writer, batch_size,
}
use meetily_local.Transcription.Writer.Batches.{AreSized, is_closed, write_each, run_writer-batches}
use meetily_local.Transcription.Writer.Rows.{Succeeds, rows-run_writer}

abbrev hypotheses : List (List String)
hypotheses = ("so" ∷ "we" ∷ []) ∷ ("so" ∷ "we" ∷ "can" ∷ []) ∷ ("so" ∷ "they" ∷ []) ∷ []

agree_all-Confirmed_example :
    let s = agree_all hypotheses (record { utterance_id = 3; prev_words = []; committed = [] }) in
    (length s.committed ≡ longest [] hypotheses)
    × ((s.committed ≡ []) ⊎ Confirmed s.committed [] hypotheses)
agree_all-Confirmed_example = agree_all-Confirmed hypotheses 3

-- The window has moved past the words that were committed.
abbrev moved_on : SourceState
moved_on = record { utterance_id = 3; prev_words = "now" ∷ "then" ∷ []; committed = "so" ∷ [] }

abbrev snapshot : ℕ → PartialAudioChunk ℕ
snapshot id = record { samples = 1 ∷ []; source = microphone; utterance_id = id }

abbrev two_waiting : Wake ℕ
two_waiting = record {
  waiting = snapshot 1 ∷ snapshot 2 ∷ [];
  queue_depth = 0;
  decode = λ samples. some ("so" ∷ []);
  mic_first = true;
}

abbrev showing : BySource SourceState
showing = record { mic = some moved_on; sys = none }

-- A database that keeps its rows in a list, the newest first.
abbrev table : Database ℕ
table = record {
  Db = List ℕ;
  Transaction = List ℕ;
  begin = some;
  execute = λ i t. some (i ∷ t, 1);
  commit = some;
}

abbrev put_row : ℕ → List ℕ → List ℕ
put_row i rows = i ∷ rows

abbrev table_succeeds : Succeeds table (List ℕ) put_row
table_succeeds = record {
  rows = λ db. db;
  pending = λ t. t;
  begins = λ db. (db, refl, refl);
  executes = λ i t. (i ∷ t, 1, refl, refl);
  commits = λ t. (t, refl, refl);
}

run_writer-batches_example :
    let ws : List (WriterWake ℕ) =
      received 1 ∷ received 2 ∷ ticked ∷ received 3 ∷ closed ∷ received 4 ∷ [] in
    (batches : List (List ℕ)) × (waiting : List ℕ) × (run_writer table ws [] []
      ≡ (write_each table batches [], waiting))
    × (concat batches ++ waiting ≡ 1 ∷ 2 ∷ 3 ∷ [])
    × AreSized batches
    × (length waiting < batch_size)
    × (is_closed ws ≡ true → waiting ≡ [])
run_writer-batches_example =
    run_writer-batches table
      (received 1 ∷ received 2 ∷ ticked ∷ received 3 ∷ closed ∷ received 4 ∷ []) [] [] (omega arith)

rows-run_writer_example :
    (run_writer table (received 1 ∷ ticked ∷ received 2 ∷ closed ∷ []) [] []).0 ≡ 2 ∷ 1 ∷ []
rows-run_writer_example =
    rows-run_writer table table_succeeds (received 1 ∷ ticked ∷ received 2 ∷ closed ∷ []) [] refl
