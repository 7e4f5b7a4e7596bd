-- ===== src/Transcription/Preview/Updates.antt =====
-- Which snapshots are decoded, and which previews the end of the recording clears.
use meetily_local.Common.{
  ◌≡◌, refl, ◌≢◌, inl, inr, Bool, true, false, Option, none, some, String, List, [], ◌∷◌, ◌++◌,
  arith, if◌then◌else◌, Bool-cases,
}
use meetily_local.Recording.Session.{DeviceType, microphone, system}
use meetily_local.Transcription.Preview.{
  partial_window_samples, sliding_window, common_prefix_len, SourceState, PartialUpdate,
  PartialAudioChunk, BySource, empty_map, get, insert, or_default, decode_and_emit, latest, Wake,
  wake, clear_previews,
}

abbrev pub same_source : DeviceType → DeviceType → Bool
same_source microphone microphone = true
same_source system system = true
same_source _ _ = false

abbrev pub about : DeviceType → List PartialUpdate → List PartialUpdate
about d [] = []
about d (u ∷ us) = let rest = about d us in if same_source d u.source then u ∷ rest else rest

module _ {F : Type 0} where
  -- The newest snapshot of a source among `cs`, or else `n`.
  abbrev pub newest_of :
      DeviceType
      → Option (PartialAudioChunk F)
      → List (PartialAudioChunk F)
      → Option (PartialAudioChunk F)
  newest_of d n [] = n
  newest_of d n (c ∷ cs) = newest_of d (if same_source d c.source then some c else n) cs

  abbrev pub listed : Option (PartialAudioChunk F) → List (PartialAudioChunk F)
  listed none = []
  listed (some c) = c ∷ []

  latest-newest_of :
      (m : BySource (PartialAudioChunk F)) (cs : List (PartialAudioChunk F))
      → latest m cs
        ≡ record { mic = newest_of microphone m.mic cs; sys = newest_of system m.sys cs }
  unfolding latest
  latest-newest_of m [] = refl
  latest-newest_of m (c ∷ cs) = ground (arith, latest-newest_of (insert c.source c m) cs)

  newest_of_source :
      (d : DeviceType) (n c : PartialAudioChunk F) (cs : List (PartialAudioChunk F))
      → same_source d n.source ≡ true
      → newest_of d (some n) cs ≡ some c
      → same_source d c.source ≡ true
  newest_of_source d n c [] h e = ground arith
  newest_of_source d n c (x ∷ cs) h e = elim (Bool-cases (same_source d x.source)) [
    | inl same ↦ newest_of_source d x c cs same (rw same at e)
    | inr other ↦ newest_of_source d n c cs h (rw other at e)
  ]

  newest_of-none :
      (d : DeviceType) (c : PartialAudioChunk F) (cs : List (PartialAudioChunk F))
      → newest_of d none cs ≡ some c
      → same_source d c.source ≡ true
  newest_of-none d c [] e = cc
  newest_of-none d c (x ∷ cs) e = elim (Bool-cases (same_source d x.source)) [
    | inl same ↦ newest_of_source d x c cs same (rw same at e)
    | inr other ↦ newest_of-none d c cs (rw other at e)
  ]

  latest_again :
      (mic sys : Option (PartialAudioChunk F))
      → ((c : PartialAudioChunk F) → mic ≡ some c → same_source microphone c.source ≡ true)
      → ((c : PartialAudioChunk F) → sys ≡ some c → same_source system c.source ≡ true)
      → latest empty_map (listed mic ++ listed sys) ≡ record { mic = mic; sys = sys }
  unfolding latest
  latest_again none none h k = refl
  latest_again none (some b) h k = ground (arith, k b refl)
  latest_again (some a) none h k = ground (arith, h a refl)
  latest_again (some a) (some b) h k = ground (arith, h a refl, k b refl)

  -- However many snapshots waited, a wake does what it would do for the newest of each source alone.
  wake-newest_of :
      (t : Wake F) (states : BySource SourceState)
      → wake t states
        ≡ wake
            (record t {
              waiting =
                  listed (newest_of microphone none t.waiting)
                  ++ listed (newest_of system none t.waiting);
            })
            states
  unfolding wake
  wake-newest_of t states =
      let mic = newest_of microphone none t.waiting in
      let sys = newest_of system none t.waiting in
      rw (
        latest-newest_of empty_map t.waiting,
        latest_again mic sys (λ c. newest_of-none microphone c t.waiting)
            (λ c. newest_of-none system c t.waiting),
      )

  -- The first snapshot of a new utterance empties the committed words and shows nothing, so if the
  -- recording ends before the next, the end clears no preview of that source.
  decode_and_emit_stale :
      (decode : List F → Option (List String)) (states : BySource SourceState)
      (chunk : PartialAudioChunk F) (words : List String) (mic_first : Bool)
      → decode (sliding_window chunk.samples partial_window_samples) ≡ some words
      → (or_default (get chunk.source states)).utterance_id ≢ chunk.utterance_id
      → let (states', update) = decode_and_emit decode states chunk in
        (update ≡ none) × (about chunk.source (clear_previews mic_first states') ≡ [])
  unfolding decode_and_emit clear_previews common_prefix_len
  decode_and_emit_stale decode states chunk words mic_first d new = ground arith
