-- ===== src/Recording/Service/Start.antt =====
-- start() of meetily-core/src/audio/recording_service.rs, as three stretches: its entry, what follows
-- the validation of the model up to the manager's slot, and what follows the diarizer's set-up.
use meetily_local.Common.{
  Bool, true, false, ◌&&◌, ◌||◌, Option, none, some, String, List, [], ◌∷◌, ◌++◌, if◌then◌else◌,
  Float,
}
use meetily_local.Recording.Phase.{starting, recording, idle, set_meeting_info}
use meetily_local.Recording.Session.{RecordingState, new, set_error_callback}
use meetily_local.Recording.Service.{
  Reading, ServiceError, start_in_progress, still_finalising, already_recording, no_model,
  cannot_open, sink_failed, Effect, recording_started, transcription_error, transcription_warning,
  created_row, reset_speech_flag, transcription_started, partials_started, Manager, Service, emits,
  is_recording, emit_phase,
}

pub record StartRequest : Type 0 where
  pub mic_device_name : Option String
  pub system_device_name : Option String
  pub meeting_name : Option String

pub record Preferences : Type 0 where
  pub auto_save : Bool
  pub streaming_partials : Bool
  pub preferred_mic_device : Option String
  pub preferred_system_device : Option String

abbrev pub one_of : (String → String → Bool) → String → List String → Bool
one_of same id [] = false
one_of same id (k ∷ ks) = same k id || one_of same id ks

abbrev pub is_none : Option String → Bool
is_none none = true
is_none (some d) = false

abbrev pub unwrap_or : Option String → String → String
unwrap_or none d = d
unwrap_or (some s) d = s

-- `resolve`: a preferred device that is known, where any is, or else the default.
unfoldable pub resolve : (String → String → Bool) → List String → Option String → String
resolve same [] none = "default"
resolve same [] (some id) = id
resolve same (k ∷ known) none = "default"
resolve same (k ∷ known) (some id) = if one_of same id (k ∷ known) then id else "default"

-- The ids of the two devices.
unfoldable pub devices :
    (String → String → Bool)
    → List String
    → Preferences
    → StartRequest
    → Option String × Option String
unfolding resolve
devices same known preferences req =
    if is_none req.mic_device_name && is_none req.system_device_name
    then (
      some (resolve same known preferences.preferred_mic_device),
      some (resolve same known preferences.preferred_system_device),
    )
    else (req.mic_device_name, req.system_device_name)

-- The device list of `recording-started`.
unfoldable pub reported : StartRequest → String × String
reported req = (
  unwrap_or req.mic_device_name "Default Microphone",
  unwrap_or req.system_device_name "Default System Audio",
)

-- What the stream manager, the pipeline and the saver make of a start: the session's state, the
-- meeting's folder, and whether there is a journal writer; or an error.
pub data Opened (D S C : Type 0) : Type 0 where
  opened : RecordingState D S C → Option String → Bool → Opened D S C
  open_error : String → Opened D S C

-- What a start meets. `known_ids` is empty where the devices cannot be listed; `meeting_id` is the
-- new id, and `default_name` names the date.
pub record Surroundings (D S C : Type 0) : Type 0 where
  pub validation : Option String
  pub preferences : Preferences
  pub same : String → String → Bool
  pub known_ids : List String
  pub default_name : String
  pub meeting_id : String
  pub callback : C
  pub start_recording :
      Option String → Option String → Bool → Bool → RecordingState D S C → Opened D S C
  pub has_ffmpeg : Bool
  pub has_pool : Bool
  pub sink : Option String

module _ (f : Float) {D S C : Type 0} where
  unfoldable pub release_start : Service f D S C → Service f D S C
  release_start s = record s { start_in_progress = false }

  -- `begin_start_phase`, and the first change of phase.
  unfoldable pub begin_start : Reading → Service f D S C → Service f D S C × Option ServiceError
  unfolding is_recording
  begin_start r s =
      if s.start_in_progress
      then (s, some start_in_progress)
      else (if s.stop_in_progress
          then (s, some still_finalising)
          else (if is_recording f s
              then (s, some already_recording)
              else (emit_phase f r starting (record s { start_in_progress = true }), none)))

  unfoldable pub fail_start :
      Reading
      → List (Effect f)
      → ServiceError
      → Service f D S C
      → Service f D S C × Option ServiceError
  fail_start r es e s = (release_start (emit_phase f r idle (emits f es s)), some e)

  -- The manager that is stored.
  unfoldable pub new_manager :
      Surroundings D S C
      → StartRequest
      → RecordingState D S C
      → Option String
      → Bool
      → Manager f D S C
  new_manager env req state folder has_journal = record {
    state = state;
    meeting_id = some env.meeting_id;
    meeting_name = some (unwrap_or req.meeting_name env.default_name);
    meeting_folder = folder;
    transcript_segments = [];
    journal = if has_journal then some [] else none;
  }

  unfoldable pub store :
      Surroundings D S C → StartRequest → Manager f D S C → Service f D S C → Service f D S C
  unfolding emits
  store env req m s =
      let name = unwrap_or req.meeting_name env.default_name in
      let (statics, sent) = s.phases in
      record s {
        phases =
            (set_meeting_info (some name) m.meeting_folder (some env.meeting_id) statics, sent);
        writer = if env.has_pool then some [] else s.writer;
        manager = some m;
        effects =
            s.effects
            ++ ((if env.has_ffmpeg
                  then []
                  else transcription_warning
                      "FFmpeg is not installed; the recording will be kept as PCM checkpoints until it is."
                    ∷ [])
                ++ ((if env.has_pool
                      then created_row env.meeting_id name m.meeting_folder ∷ []
                      else [])
                    ++ reset_speech_flag ∷ []));
      }

  unfoldable pub store_opened :
      Reading
      → Surroundings D S C
      → StartRequest
      → Service f D S C
      → Opened D S C
      → Service f D S C × Option ServiceError
  unfolding store fail_start
  store_opened r env req s (open_error problem) = fail_start r [] (cannot_open problem) s
  store_opened r env req s (opened state folder has_journal) =
      (store env req (new_manager env req state folder has_journal) s, none)

  -- After the validation.
  unfoldable pub prepare :
      Reading
      → Surroundings D S C
      → StartRequest
      → Service f D S C
      → Service f D S C × Option ServiceError
  unfolding store_opened fail_start release_start new_manager devices
  prepare r env req s = elim env.validation [
    | some problem ↦ fail_start r (transcription_error problem ∷ []) (no_model problem) s
    | none ↦
        let (mic, sys) = devices env.same env.known_ids env.preferences req in
        store_opened r env req s (
          env.start_recording mic sys env.preferences.auto_save env.preferences.streaming_partials
            (set_error_callback env.callback new))
  ]

  unfoldable pub announce_started :
      Reading → Option String → Service f D S C → Service f D S C × Option ServiceError
  unfolding release_start
  announce_started r none s = (release_start (emit_phase f r recording s), none)
  announce_started r (some problem) s = (release_start s, some (sink_failed problem))

  -- After the diarizer's set-up.
  unfoldable pub finish_start :
      Reading
      → Surroundings D S C
      → StartRequest
      → Service f D S C
      → Service f D S C × Option ServiceError
  unfolding announce_started emits reported
  finish_start r env req s =
      let (mic, sys) = reported req in
      announce_started r env.sink (record s {
        transcription_task = true;
        subscriber = some env.meeting_id;
        effects =
            s.effects
            ++ (transcription_started
                ∷ ((if env.preferences.streaming_partials then partials_started ∷ [] else [])
                    ++ recording_started mic sys env.meeting_id ∷ []));
      })

  unfoldable pub then_start :
      (Service f D S C → Service f D S C × Option ServiceError)
      → Service f D S C × Option ServiceError
      → Service f D S C × Option ServiceError
  then_start next (s, some e) = (s, some e)
  then_start next (s, none) = next s

  -- A start that nothing else comes between.
  unfoldable pub start :
      Reading
      → Reading
      → Surroundings D S C
      → StartRequest
      → Service f D S C
      → Service f D S C × Option ServiceError
  unfolding then_start begin_start prepare finish_start
  start r r' env req s =
      then_start (finish_start r' env req) (then_start (prepare r' env req) (begin_start r s))
