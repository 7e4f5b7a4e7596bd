-- ===== src/Recording/Service/Examples.antt =====
-- The theorems of the recording service at concrete inputs, and tests.
use meetily_local.Common.{
  ℕ, ◌≡◌, refl, true, false, none, some, String, List, [], ◌∷◌, codes, milliseconds,
}
use meetily_local.Recording.Phase.{initial}
use meetily_local.Recording.Session.{new, device_disconnected}
use meetily_local.Recording.Manager.{Peers, saved}
use meetily_local.Recording.Service.{Reading, Manager, Service}
use meetily_local.Recording.Service.Start.{StartRequest, Surroundings, opened}
use meetily_local.Recording.Service.Stop.{Ending, Published, stop}
use meetily_local.Recording.Service.Segments.{segments, tagged, upsert_all, slots}
use meetily_local.Recording.Service.Segments.Stops.{Leaves, stop-segments}
use meetily_local.Recording.Service.Phases.{initially, Settled, shows_idle}
use meetily_local.Recording.Service.Phases.Sessions.{
  Command, starts, pauses, resumes, stops, fails, perform_all, perform_all-Settled,
}
use meetily_local.Recording.Service.Rows.{marks, interrupted, stop-marks}
use meetily_local.Transcription.Worker.{TranscriptUpdate}

abbrev reading : Reading
reading = record { now = 5; later = 5; chunks = 0 }

abbrev fresh : Service milliseconds String Unit Unit
fresh = record {
  start_in_progress = false;
  stop_in_progress = false;
  manager = none;
  transcription_task = false;
  writer = none;
  pending_segments = [];
  subscriber = none;
  phases = (initial, []);
  effects = [];
}

abbrev surroundings : Surroundings String Unit Unit
surroundings = record {
  validation = none;
  preferences = record {
    auto_save = true;
    streaming_partials = true;
    preferred_mic_device = none;
    preferred_system_device = none;
  };
  same = λ a b. true;
  known_ids = [];
  default_name = "Meeting";
  meeting_id = "m1";
  callback = tt;
  start_recording = λ mic sys auto_save partials state.
      opened (record new { recording = true }) (some "folder") true;
  has_ffmpeg = true;
  has_pool = true;
  sink = none;
}

abbrev request : StartRequest
request = record {
  mic_device_name = none;
  system_device_name = none;
  meeting_name = some "Stand-up";
}

abbrev peers : Peers String Unit Unit
peers = record { stop_streams = λ s. s; stop_pipeline = λ s. s; force_flush_and_stop = λ s. s }

abbrev ending : Ending milliseconds String Unit Unit
ending = record {
  peers = peers;
  flush_error = none;
  save = some (λ duration. saved "audio.mp4");
  save_time = 9;
  save_later = 9;
  unload_model = false;
  has_pool = true;
  sink = none;
}

abbrev update : ℕ → TranscriptUpdate milliseconds
update n = record {
  text = codes "so";
  timestamp = "12:00:00";
  source = "mic";
  sequence_id = n;
  chunk_start_time = 0;
  is_partial = false;
  confidence = 900;
  audio_start_time = 0;
  audio_end_time = 3000;
  duration = 3000;
  speaker = some "Me";
  voice_profile_id = none;
}

abbrev tail : Published milliseconds
tail = record {
  during_flush = update 1 ∷ [];
  between = update 2 ∷ [];
  during_drain = update 3 ∷ [];
}

abbrev holding : Manager milliseconds String Unit Unit
holding = record {
  state = record new { recording = true };
  meeting_id = some "m1";
  meeting_name = some "Stand-up";
  meeting_folder = some "folder";
  transcript_segments = segments milliseconds (update 0 ∷ []);
  journal = some [];
}

-- The segment that comes between the replay and the manager's return stays behind.
stop-segments_example :
    Leaves milliseconds reading ending holding "m1" fresh
      (upsert_all milliseconds
        (segments milliseconds (update 1 ∷ update 3 ∷ []))
        (segments milliseconds (update 0 ∷ [])))
      (tagged milliseconds "m1" (update 1 ∷ update 2 ∷ update 3 ∷ []))
      (segments milliseconds (update 2 ∷ []))
      (stop milliseconds reading ending tail
        (slots milliseconds false (some holding) (some []) [] "m1" fresh)).0
stop-segments_example = stop-segments milliseconds reading ending holding "m1" fresh tail [] [] refl

abbrev session : List (Command milliseconds String Unit Unit)
session =
    starts reading reading surroundings request
    ∷ pauses reading
    ∷ resumes reading
    ∷ fails reading device_disconnected reading ending tail
    ∷ starts reading reading surroundings request
    ∷ stops reading ending tail
    ∷ []

perform_all-Settled_example : Settled milliseconds (perform_all milliseconds session fresh)
unfolding new
perform_all-Settled_example =
    perform_all-Settled milliseconds session fresh
      (
        (refl, λ mic sys auto partials state. (refl, refl)),
        (
          tt,
          (
            tt,
            (
              (refl, refl),
              ((refl, λ mic sys auto partials state. (refl, refl)), ((refl, refl), tt)),
            ),
          ),
        ),
      )
      (record { not_starting = refl; not_stopping = refl; shows = shows_idle; valid = initially })

stop-marks_example :
    marks milliseconds
      (stop milliseconds reading
        (record ending { flush_error = some "busy" })
        tail
        (record fresh { manager = some holding; stop_in_progress = false })).0.effects
    ≡ interrupted "m1" ∷ []
stop-marks_example =
    stop-marks milliseconds reading (record ending { flush_error = some "busy" }) tail holding fresh
