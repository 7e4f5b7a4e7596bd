-- ===== src/Lib.antt =====
-- Meetily: a meeting recorder that transcribes and summarises on the user's own machine.
--
-- The recording lifecycle. The phase machine (meetily-core/src/audio/recording_phase.rs) holds the
-- process-wide phase and emits a snapshot at every change, from which the clients derive their
-- buttons. The session state (audio/recording_state.rs) is shared by the capture threads, the
-- pipeline and the manager: pauses, errors, the channel to the pipeline, the active duration. The
-- manager (audio/recording_manager.rs) runs the stop paths over it. The recording service
-- (audio/recording_service.rs) owns the manager in a process-wide slot, calls it and the phase
-- machine when a recording starts, pauses, resumes, fails or stops, and hands the finished
-- segments of the transcript bus (audio/transcript_bus.rs) to the manager and to the database's
-- writer. The incremental saver (audio/incremental_saver.rs) takes the mixed audio and keeps it as
-- checkpoint files. The recording saver (audio/recording_saver.rs) keeps the segments in memory
-- and in the journal of the meeting's folder, from which the files of audio/common.rs are rebuilt
-- and, after a crash, replayed.
--
-- Live transcription. Segments of speech wait in a queue (audio/transcription/queue.rs) for the
-- worker (audio/transcription/worker.rs), which splits them by speaker, has them transcribed,
-- drops what the engine invents and what the microphone only repeats
-- (audio/transcription/echo_dedup.rs), numbers the rest and publishes it on the bus and to the
-- clients. While a live worker holds the lease of the engine (whisper_engine/lease.rs) no batch
-- job changes its model. The preview (audio/transcription/partial_worker.rs) decodes the newest
-- snapshot of each source and shows the words that two decodes agree on. Finished segments go to
-- the database in batches (audio/transcript_db_writer.rs), and to the client's list of rows
-- (meetily-gpui/src/views/recording/logic.rs). While the recording goes on, the speakers are told
-- apart by their voices (speaker_diarization/clusterer.rs). Afterwards they are named anew from
-- all voices of the recording (speaker_diarization/refinement.rs), and the transcript is split
-- into chunks for the language model (summary/processor.rs).
--
-- Import and retranscription decode a file and transcribe it as a batch (audio/common.rs).
--
-- Files (the paths without meetily-gpui are under meetily-core/src):
--   Common: shared names, Boolean tests, lists over native numbers, signed differences.
--   Batch: run_batch_transcription, split_segment_at_silence and create_transcript_segments of
--     audio/common.rs.
--   Recording/Phase: audio/recording_phase.rs, and button_state of views/recording/logic.rs.
--   Recording/Session: audio/recording_state.rs, one function for each method.
--   Recording/Manager: the stop paths of audio/recording_manager.rs.
--   Recording/Service: audio/recording_service.rs, with the transcript bus and
--     add_transcript_segment of audio/recording_saver.rs; Service/Start and Service/Stop are start
--     and stop.
--   Saver: audio/incremental_saver.rs from new to finalize, and in Saver/Recovery the recovery after
--     a crash.
--   Transcripts: audio/common.rs, the transcript in its files; Transcripts/JournalWriter and
--     Transcripts/Session: audio/recording_saver.rs.
--   Transcription/Preview: audio/transcription/partial_worker.rs.
--   Transcription/Writer: audio/transcript_db_writer.rs, and the batched upsert of
--     database/repositories/transcript.rs.
--   Transcription/Worker: audio/transcription/worker.rs; Worker/Hallucination is
--     is_likely_hallucination.
--   Transcription/Echo: audio/transcription/echo_dedup.rs.
--   Transcription/Queue: audio/transcription/queue.rs.
--   Transcription/Lease: whisper_engine/lease.rs.
--   Diarization: speaker_diarization/refinement.rs; Diarization/Clusters is agglomerative_cluster,
--     Diarization/Records puts the two together, Diarization/Online is clusterer.rs beside it and
--     Diarization/Embeddings embedding_math.rs.
--   Summary: chunk_text of summary/processor.rs.
--   Views/TranscriptRows: upsert_row of meetily-gpui/src/views/recording/logic.rs.
-- A module's children hold its theorems, and the modules called Examples hold tests and theorems at
-- concrete inputs.
--
-- Conventions. State that the source keeps in a static, a mutex or atomics is a record which each
-- operation takes and returns. Clocks, the file system, the encoder, the speech engine, SQLite,
-- the channels, UTF-8 and the binary search of slices are arguments or interfaces; they answer as
-- their documentation says, failures included. u32 and u64 counters wrap (`% 2 ^ 32`, `% 2 ^ 64`).
-- The atomic counters of usize wrap too (`% 2 ^ 64`); any other usize is a number without bound,
-- as it counts objects in memory. Text in UTF-8 is a list of characters, except in the journal,
-- whose bytes a crash may cut. The lengths that debug_assert compares in the vectors of embeddings
-- are checked, with the panic as an outcome. f64 arithmetic is an argument where a result depends
-- on it (Common/Floats). start and stop of the service are cut into stretches at the points where
-- the others act in the theorems; inside a stretch no other call comes in between. The decimal
-- digits of a u32 are computed on fuel 10, as it has at most ten of them; the loop over the chunks
-- of a text on the number of the text's characters, as each turn moves on by one at least. The
-- digits of a u64 have fuel 20, its greatest number of digits. The merges of clusters have as much
-- fuel as there are embeddings, as each leaves one cluster fewer.
--
-- Not modelled: capture, resampling, voice detection, the models that compute embeddings (floating
-- point signal processing and native bindings), the inference engines and their processes, HTTP
-- clients and prompts, SQL but for the batched upsert, rendering, codecs and the rest of import,
-- calendars, the MCP server, and the logging calls everywhere.
mod Common
pub mod Batch
pub mod Diarization
pub mod Recording
pub mod Saver
pub mod Summary
pub mod Transcription
pub mod Transcripts
pub mod Views
