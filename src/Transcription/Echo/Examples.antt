-- ===== src/Transcription/Echo/Examples.antt =====
-- The theorems of the suppression of echoes at concrete inputs, and tests.
use meetily_local.Common.{ℕ, ◌≤◌, ◌≡◌, refl, ◌&&◌, List, [], ◌∷◌, leb, ◌==◌, codes, milliseconds}
use meetily_local.Recording.Session.{microphone, system}
use meetily_local.Transcription.Echo.{
  Unicode, levenshtein_distance, normalize_for_comparison, split_whitespace, drop_as_mic_echo,
  check, AcceptedSegment, segment, rows, row_cells, range, intervals_overlap, threshold,
  similarity_ratio, join_words, find_match, prune, is_cross_source_match, below_floor, word_count,
  decide_segment,
}
use meetily_local.Transcription.Echo.Distance.{
  Edits, keep, replace, done, levenshtein_distance-Edits,
}
use meetily_local.Transcription.Echo.Policy.{Heard}
use meetily_local.Transcription.Echo.Suppression.{IsEcho, Any, check-dropped}

abbrev pub ascii : Unicode
ascii = record {
  to_lowercase = λ text. text;
  is_alphanumeric = λ c. leb 97 c && leb c 122;
  is_whitespace = λ c. c == 32;
}

kitten : levenshtein_distance (codes "kitten") (codes "sitting") ≡ 3
unfolding levenshtein_distance rows row_cells range
kitten = refl

levenshtein_distance-Edits_example :
    Edits (1 ∷ 2 ∷ []) (1 ∷ 3 ∷ []) (levenshtein_distance (1 ∷ 2 ∷ []) (1 ∷ 3 ∷ []))
    × (levenshtein_distance (1 ∷ 2 ∷ []) (1 ∷ 3 ∷ []) ≤ 1)
levenshtein_distance-Edits_example =
    levenshtein_distance-Edits (1 ∷ 2 ∷ []) (1 ∷ 3 ∷ []) 1 (keep 1 (replace 2 3 done))

abbrev pub said : List ℕ
said = codes "so we can go on now then"

abbrev kept : AcceptedSegment milliseconds
kept = segment milliseconds ascii system said 10000 14000

echoed : (check milliseconds ascii microphone said 11000 15000 (kept ∷ [])).0 ≡ drop_as_mic_echo
unfolding check find_match prune is_cross_source_match decide_segment similarity_ratio
    intervals_overlap threshold below_floor word_count split_whitespace join_words
    normalize_for_comparison levenshtein_distance rows row_cells range
echoed = refl

check-dropped_example :
    (microphone ≡ microphone)
    × Any milliseconds ascii
        (IsEcho milliseconds ascii (segment milliseconds ascii microphone said 11000 15000))
        (kept ∷ [])
check-dropped_example =
    check-dropped milliseconds ascii microphone said 11000 15000 (kept ∷ []) echoed

abbrev from_system : Heard milliseconds
from_system = record { source = system; text = said; start = 10000; end = 14000 }
