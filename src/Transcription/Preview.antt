-- ===== src/Transcription/Preview.antt =====
-- meetily-core/src/audio/transcription/partial_worker.rs: the streaming preview. The engine is an
-- argument that gives each snapshot's hypothesis, split into words, or fails; a table of states by
-- source is a pair, one for each source.
pub mod Agreement
pub mod Updates
use text.Mathlib.Text.{◌==◌ as str_eq}
use meetily_local.Common.{
  ℕ, zero, suc, ◌-◌, ◌*◌, Bool, true, false, Option, none, some, String, List, [], ◌∷◌, ◌++◌,
  length, leb, ltb, ◌==◌, if◌then◌else◌, drop, take,
}
use meetily_local.Recording.Session.{DeviceType, microphone, system}

abbrev pub partial_window_samples : ℕ
partial_window_samples = 6 * 16000

abbrev pub skip_partial_queue_depth : ℕ
skip_partial_queue_depth = 2

unfoldable pub sliding_window {ℓ} : {A : Type ℓ} → List A → ℕ → List A
sliding_window samples window =
    if leb (length samples) window then samples else drop (length samples - window) samples

-- `PartialUpdate`: the source, the words of the text, and the utterance. No words clear.
pub record PartialUpdate : Type 0 where
  pub source : DeviceType
  pub words : List String
  pub utterance_id : ℕ

pub record SourceState : Type 0 where
  pub utterance_id : ℕ
  pub prev_words : List String
  pub committed : List String

-- `PartialAudioChunk`
pub record PartialAudioChunk (F : Type 0) : Type 0 where
  pub samples : List F
  pub source : DeviceType
  pub utterance_id : ℕ

unfoldable pub common_prefix_len : List String → List String → ℕ
common_prefix_len [] b = 0
common_prefix_len (x ∷ a) [] = 0
common_prefix_len (x ∷ a) (y ∷ b) = if str_eq x y then suc (common_prefix_len a b) else 0

-- `or_default()`
abbrev pub no_state : SourceState
no_state = record { utterance_id = 0; prev_words = []; committed = [] }

-- A new utterance resets the stabilisation.
unfoldable pub enter_utterance : ℕ → SourceState → SourceState
enter_utterance id s =
    if s.utterance_id == id
    then s
    else record { utterance_id = id; prev_words = []; committed = [] }

-- LocalAgreement-2: commit the prefix that the last two hypotheses share, if it is longer.
unfoldable pub agree : List String → SourceState → SourceState
agree words s =
    let agreed = common_prefix_len s.prev_words words in
    record s {
      committed = if ltb (length s.committed) agreed then take agreed words else s.committed;
      prev_words = words;
    }

-- `HashMap<DeviceType, _>`
pub record BySource (A : Type 0) : Type 0 where
  pub mic : Option A
  pub sys : Option A

module _ {A : Type 0} where
  abbrev pub empty_map : BySource A
  empty_map = record { mic = none; sys = none }

  abbrev pub get : DeviceType → BySource A → Option A
  get microphone m = m.mic
  get system m = m.sys

  abbrev pub insert : DeviceType → A → BySource A → BySource A
  insert microphone a m = record m { mic = some a }
  insert system a m = record m { sys = some a }

abbrev pub or_default : Option SourceState → SourceState
or_default none = no_state
or_default (some s) = s

-- Nothing stable is not shown.
abbrev shown : DeviceType → ℕ → List String → Option PartialUpdate
shown source id [] = none
shown source id (w ∷ ws) = some (record { source = source; words = w ∷ ws; utterance_id = id })

abbrev pub emitted : Option PartialUpdate → List PartialUpdate
emitted none = []
emitted (some u) = u ∷ []

-- One wake of the task: the snapshots that were waiting, the depth of the final path's queue, and
-- the engine. `mic_first` is the map's order of iteration.
pub record Wake (F : Type 0) : Type 0 where
  pub waiting : List (PartialAudioChunk F)
  pub queue_depth : ℕ
  pub decode : List F → Option (List String)
  pub mic_first : Bool

module _ {F : Type 0} where
  -- A failure of the engine (`none`) leaves the states alone.
  unfoldable pub decode_and_emit :
      (List F → Option (List String))
      → BySource SourceState
      → PartialAudioChunk F
      → BySource SourceState × Option PartialUpdate
  unfolding agree enter_utterance
  decode_and_emit decode states chunk =
      elim (decode (sliding_window chunk.samples partial_window_samples)) [
        | none ↦ (states, none)
        | some words ↦
            let entered =
              enter_utterance chunk.utterance_id (or_default (get chunk.source states)) in
            let s = agree words entered in
            (insert chunk.source s states, shown chunk.source chunk.utterance_id s.committed)
      ]

  -- Latest wins: the newest snapshot of each source.
  unfoldable pub latest :
      BySource (PartialAudioChunk F) → List (PartialAudioChunk F) → BySource (PartialAudioChunk F)
  latest m [] = m
  latest m (c ∷ cs) = latest (insert c.source c m) cs

  decode_latest :
      (List F → Option (List String))
      → Option (PartialAudioChunk F)
      → BySource SourceState
      → BySource SourceState × List PartialUpdate
  decode_latest decode none states = (states, [])
  decode_latest decode (some chunk) states =
      let (states', update) = decode_and_emit decode states chunk in (states', emitted update)

  both :
      (List F → Option (List String))
      → Option (PartialAudioChunk F)
      → Option (PartialAudioChunk F)
      → BySource SourceState
      → BySource SourceState × List PartialUpdate
  unfolding decode_latest
  both decode a b states =
      let (states', first_updates) = decode_latest decode a states in
      let (states'', next_updates) = decode_latest decode b states' in
      (states'', first_updates ++ next_updates)

  unfoldable pub wake : Wake F → BySource SourceState → BySource SourceState × List PartialUpdate
  unfolding both latest
  wake t states =
      let chunks = latest empty_map t.waiting in
      if ltb skip_partial_queue_depth t.queue_depth
      then (states, [])
      else (if t.mic_first
          then both t.decode chunks.mic chunks.sys states
          else both t.decode chunks.sys chunks.mic states)

  unfoldable pub run_wakes :
      List (Wake F) → BySource SourceState → BySource SourceState × List PartialUpdate
  run_wakes [] states = (states, [])
  run_wakes (t ∷ ts) states =
      let (states', updates) = wake t states in
      let (states'', later) = run_wakes ts states' in (states'', updates ++ later)

-- The channel is closed: clear every preview that is not empty.
cleared : DeviceType → Option SourceState → List PartialUpdate
cleared source none = []
cleared source (some s) = elim s.committed [
  | [] ↦ []
  | w ∷ ws ↦ record { source = source; words = []; utterance_id = s.utterance_id } ∷ []
]

unfoldable pub clear_previews : Bool → BySource SourceState → List PartialUpdate
unfolding cleared
clear_previews mic_first states =
    if mic_first
    then cleared microphone states.mic ++ cleared system states.sys
    else cleared system states.sys ++ cleared microphone states.mic
