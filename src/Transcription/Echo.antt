-- ===== src/Transcription/Echo.antt =====
-- meetily-core/src/audio/transcription/echo_dedup.rs: the suppression of microphone copies of what
-- the system's audio already said. Characters are code points; the Unicode tables of the standard
-- library and the arithmetic of f64 are arguments.
pub mod Distance
pub mod Words
pub mod Policy
pub mod Suppression
pub mod Examples
use Prim.Native.Nat.{min, max}
use meetily_local.Common.{
  ℕ, zero, suc, ◌+◌, ◌-◌, Bool, true, false, not, ◌&&◌, ◌||◌, Option, none, some, List, [], ◌∷◌,
  ◌++◌, length, drop, leb, ltb, ◌==◌, if◌then◌else◌, Float,
}
use meetily_local.Recording.Session.{DeviceType, microphone, system}

-- The cells of a row after its first: `left` is the cell before, and the last list the row above
-- from the column before. The row above is never too short.
unfoldable pub row_cells : ℕ → List ℕ → ℕ → List ℕ → List ℕ
row_cells ca [] left prev_row = []
row_cells ca (cb ∷ bs) left [] = []
row_cells ca (cb ∷ bs) left (diagonal ∷ []) = []
row_cells ca (cb ∷ bs) left (diagonal ∷ above ∷ prev_row) =
    let cost = if ca == cb then 0 else 1 in
    let cell = min (min (above + 1) (left + 1)) (diagonal + cost) in
    cell ∷ row_cells ca bs cell (above ∷ prev_row)

-- The loop over the rows, at row `i`.
unfoldable pub rows : ℕ → List ℕ → List ℕ → List ℕ → List ℕ
unfolding row_cells
rows i [] b prev_row = prev_row
rows i (ca ∷ a) b prev_row = rows (i + 1) a b ((i + 1) ∷ row_cells ca b (i + 1) prev_row)

-- `(from..from + n)`
unfoldable pub range : ℕ → ℕ → List ℕ
range from zero = []
range from (suc n) = from ∷ range (from + 1) n

-- `row[i]`; out of range, which does not happen, it is 0.
abbrev pub cell_at : List ℕ → ℕ → ℕ
cell_at [] i = 0
cell_at (c ∷ cs) zero = c
cell_at (c ∷ cs) (suc i) = cell_at cs i

unfoldable pub levenshtein_distance : List ℕ → List ℕ → ℕ
unfolding rows range
levenshtein_distance [] b = length b
levenshtein_distance (x ∷ a) [] = length (x ∷ a)
levenshtein_distance (x ∷ a) (y ∷ b) =
    cell_at (rows 0 (x ∷ a) (y ∷ b) (range 0 (length (y ∷ b) + 1))) (length (y ∷ b))

-- `char` as the standard library reads it, and text in lower case.
pub record Unicode : Type 0 where
  pub to_lowercase : List ℕ → List ℕ
  pub is_alphanumeric : ℕ → Bool
  pub is_whitespace : ℕ → Bool

-- `split_whitespace`: `word` is the word that is being read.
abbrev pub finish_word : List ℕ → List (List ℕ) → List (List ℕ)
finish_word [] ws = ws
finish_word (c ∷ word) ws = (c ∷ word) ∷ ws

unfoldable pub split_whitespace : (ℕ → Bool) → List ℕ → List ℕ → List (List ℕ)
split_whitespace is_whitespace word [] = finish_word word []
split_whitespace is_whitespace word (c ∷ cs) =
    let rest = split_whitespace is_whitespace [] cs in
    let longer = split_whitespace is_whitespace (word ++ c ∷ []) cs in
    if is_whitespace c then finish_word word rest else longer

-- `join(" ")`
unfoldable pub join_words : List (List ℕ) → List ℕ
join_words [] = []
join_words (w ∷ []) = w
join_words (w ∷ v ∷ ws) = w ++ 32 ∷ join_words (v ∷ ws)

abbrev pub spaced : (ℕ → Bool) → List ℕ → List ℕ
spaced is_alphanumeric [] = []
spaced is_alphanumeric (c ∷ cs) = (if is_alphanumeric c then c else 32) ∷ spaced is_alphanumeric cs

module _ (u : Unicode) where
  open u use {to_lowercase, is_alphanumeric, is_whitespace}

  unfoldable pub normalize_for_comparison : List ℕ → List ℕ
  unfolding split_whitespace join_words
  normalize_for_comparison text =
      join_words (split_whitespace is_whitespace [] (spaced is_alphanumeric (to_lowercase text)))

  unfoldable pub word_count : List ℕ → ℕ
  unfolding split_whitespace
  word_count text = length (split_whitespace is_whitespace [] text)

pub record AcceptedSegment (f : Float) : Type 0 where
  pub source : DeviceType
  pub text_normalized : List ℕ
  pub audio_start_time : f.F
  pub audio_end_time : f.F

pub data EchoDecision : Type 0 where
  accept drop_as_mic_echo : EchoDecision

abbrev pub max_buffer_len : ℕ
max_buffer_len = 12

abbrev pub min_match_word_count : ℕ
min_match_word_count = 3

abbrev pub short_text_word_count_max : ℕ
short_text_word_count_max = 5

abbrev pub same_source : DeviceType → DeviceType → Bool
same_source microphone microphone = true
same_source system system = true
same_source _ _ = false

module _ (f : Float) where
  open f use {F, literal, of_usize, add, sub, div, le, lt}

  unfoldable pub similarity_ratio : List ℕ → List ℕ → F
  similarity_ratio a b =
      let max_len = max (length a) (length b) in
      if max_len == 0
      then literal 1 0
      else sub (literal 1 0) (div (of_usize (levenshtein_distance a b)) (of_usize max_len))

  unfoldable pub intervals_overlap : F → F → F → F → F → Bool
  intervals_overlap a_start a_end b_start b_end tolerance =
      le a_start (add b_end tolerance) && le b_start (add a_end tolerance)

  -- The similarity that two texts of these numbers of words must have.
  unfoldable pub threshold : ℕ → ℕ → F
  threshold word_count_a word_count_b =
      if leb word_count_a short_text_word_count_max || leb word_count_b short_text_word_count_max
      then literal 95 2
      else literal 85 2

  -- Too few words, or too short.
  unfoldable pub below_floor : ℕ → ℕ → F → F → Bool
  below_floor word_count_a word_count_b duration_a duration_b =
      ltb word_count_a min_match_word_count
      || (ltb word_count_b min_match_word_count
          || (lt duration_a (literal 1 0) || lt duration_b (literal 1 0)))

  module _ (u : Unicode) where
    unfoldable pub is_cross_source_match : AcceptedSegment f → AcceptedSegment f → Bool
    unfolding similarity_ratio intervals_overlap threshold below_floor
    is_cross_source_match a b =
        let words_a = word_count u a.text_normalized in
        let words_b = word_count u b.text_normalized in
        if same_source a.source b.source
        then false
        else (if not (
              intervals_overlap a.audio_start_time a.audio_end_time b.audio_start_time
                b.audio_end_time (literal 15 1))
            then false
            else (if below_floor words_a words_b (sub a.audio_end_time a.audio_start_time)
                  (sub b.audio_end_time b.audio_start_time)
                then false
                else le (threshold words_a words_b)
                    (similarity_ratio a.text_normalized b.text_normalized)))

    -- `buffer.iter().find(...)`
    unfoldable pub find_match : AcceptedSegment f → List (AcceptedSegment f) → Bool
    find_match a [] = false
    find_match a (b ∷ bs) = if is_cross_source_match a b then true else find_match a bs

    unfoldable pub prune : F → List (AcceptedSegment f) → List (AcceptedSegment f)
    prune newest_start_time [] = []
    prune newest_start_time (front ∷ bs) =
        let rest = prune newest_start_time bs in
        if lt (literal 30 0) (sub newest_start_time front.audio_end_time) then rest else front ∷ bs

    abbrev pub segment : DeviceType → List ℕ → F → F → AcceptedSegment f
    segment source text start end = record {
      source = source;
      text_normalized = normalize_for_comparison u text;
      audio_start_time = start;
      audio_end_time = end;
    }

    abbrev pub decide : DeviceType → Bool → EchoDecision
    decide microphone true = drop_as_mic_echo
    decide _ _ = accept

    unfoldable pub decide_segment :
        AcceptedSegment f → List (AcceptedSegment f) → List ℕ → EchoDecision
    decide_segment a buffer [] = accept
    decide_segment a buffer (c ∷ normalized) = decide a.source (find_match a buffer)

    -- The decision, and the buffer after it.
    unfoldable pub check :
        DeviceType
        → List ℕ
        → F
        → F
        → List (AcceptedSegment f)
        → EchoDecision × List (AcceptedSegment f)
    unfolding decide_segment find_match prune
    check source text start end buffer =
        let a = segment source text start end in
        let buffer' = prune start buffer in (decide_segment a buffer' a.text_normalized, buffer')

    -- The loop that drops the front of a buffer that is too long.
    unfoldable pub keep_last : List (AcceptedSegment f) → List (AcceptedSegment f)
    keep_last [] = []
    keep_last (b ∷ bs) =
        let rest = keep_last bs in if ltb max_buffer_len (length (b ∷ bs)) then rest else b ∷ bs

    unfoldable pub push_segment :
        AcceptedSegment f → List (AcceptedSegment f) → List ℕ → List (AcceptedSegment f)
    push_segment a buffer [] = buffer
    push_segment a buffer (c ∷ normalized) = keep_last (buffer ++ a ∷ [])

    unfoldable pub record_segment :
        DeviceType → List ℕ → F → F → List (AcceptedSegment f) → List (AcceptedSegment f)
    unfolding push_segment keep_last
    record_segment source text start end buffer =
        let a = segment source text start end in push_segment a buffer a.text_normalized
