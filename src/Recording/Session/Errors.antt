-- ===== src/Recording/Session/Errors.antt =====
-- Which errors end a session, and how often the error callback runs.
use meetily_local.Common.{
  ℕ, ◌+◌, ◌^◌, ◌<◌, ◌≡◌, refl, true, false, ◌&&◌, Option, none, some, List, [], ◌∷◌, arith, length,
  ltb, if◌then◌else◌, is_some,
}
use meetily_local.Recording.Session.{
  AudioError, RecordingState, is_recoverable, start_recording, report_error,
}

abbrev pub logged : {A : Type 0} → Option A → List A → List A
logged none calls = calls
logged (some call) calls = call ∷ calls

abbrev pub called : {C : Type 0} → C → Option AudioError → List (C × AudioError)
called c none = []
called c (some e) = (c, e) ∷ []

module _ {D S C : Type 0} where
  -- The errors of a session, oldest first, with the calls of the callback.
  unfoldable pub report_all :
      List AudioError → RecordingState D S C → RecordingState D S C × List (C × AudioError)
  report_all [] s = (s, [])
  report_all (e ∷ es) s =
      let (t, call) = report_error e s in let (u, calls) = report_all es t in (u, logged call calls)

-- The first error that cannot be recovered from, or the tenth; `n` errors came before.
abbrev pub deciding : ℕ → List AudioError → Option AudioError
deciding n [] = none
deciding n (e ∷ es) =
    let rest = deciding (n + 1) es in if is_recoverable e && ltb n 9 then rest else some e

abbrev pub newest_error : Option AudioError → List AudioError → Option AudioError
newest_error o [] = o
newest_error o (e ∷ es) = newest_error (some e) es

module _ {D S C : Type 0} where
  -- Once errored, a session stays errored and its callback never runs again.
  report_all_errored :
      (es : List AudioError) (s : RecordingState D S C)
      → s.errored ≡ true
      → ((report_all es s).0.errored ≡ true) × ((report_all es s).1 ≡ [])
  unfolding report_all report_error
  report_all_errored [] s h = (h, refl)
  report_all_errored (e ∷ es) s h = ground (arith, report_all_errored es (report_error e s).0)

  report_all_from :
      (es : List AudioError) (s : RecordingState D S C) (c : C)
      → s.errored ≡ false
      → s.error_callback ≡ some c
      → s.error_count ≡ s.recoverable_error_count
      → s.error_count + length es < 2 ^ 32
      → s.error_count < 10
      → ((report_all es s).0.errored ≡ is_some (deciding s.error_count es))
        × ((report_all es s).1 ≡ called c (deciding s.error_count es))
  unfolding report_all report_error
  report_all_from [] s c h k e b d = (h, refl)
  report_all_from (x ∷ es) s c h k e b d =
      ground (
        arith,
        report_all_errored es (report_error x s).0,
        report_all_from es (report_error x s).0 c,
      )

  last_error_from :
      (es : List AudioError) (s : RecordingState D S C)
      → (report_all es s).0.last_error ≡ newest_error s.last_error es
  unfolding report_all report_error
  last_error_from [] s = refl
  last_error_from (e ∷ es) s = ground (arith, last_error_from es (report_error e s).0)

  -- After a start, for any fewer than 2^32 errors and a callback that is set: the session is
  -- errored exactly when some error cannot be recovered from or ten were reported; the callback
  -- then ran once, with the first error that decided this, and otherwise not at all; and the last
  -- error is the newest.
  pub report_all-start_recording :
      (es : List AudioError) (s : RecordingState D S C) (c : C) (now : ℕ)
      → s.error_callback ≡ some c
      → length es < 2 ^ 32
      → let (t, calls) = report_all es (start_recording now s) in
        (t.errored ≡ is_some (deciding 0 es))
        × (calls ≡ called c (deciding 0 es))
        × (t.last_error ≡ newest_error none es)
  unfolding start_recording
  report_all-start_recording es s c now k b =
      let t = start_recording now s in
      let both = report_all_from es t c refl k refl (omega arith) (omega arith) in
      (both.0, both.1, last_error_from es t)
