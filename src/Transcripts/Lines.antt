-- ===== src/Transcripts/Lines.antt =====
-- The journal's text, line by line.
use mathlib.Core.List.{Permᴰ}
use mathlib.Core.Option
use meetily_local.Common.{
  ℕ, suc, ◌≤◌, ◌<◌, ◌≡◌, ◌≢◌, refl, ap, sym, ◌∙◌, true, Option, none, some, List, [], ◌∷◌, ◌++◌,
  append_assoc, arith, length, take, Float, Bool-cases, inl, inr, zero, ◌==◌,
}
use meetily_local.Recording.Service.{TranscriptSegment}
use meetily_local.Transcription.Worker.Hallucination.{trim}
use meetily_local.Transcripts.{
  Platform, lines, newline, journal_line, replay_lines, replay_line, insert_parsed,
}

abbrev pub IsOneLine : List ℕ → Type 0
IsOneLine [] = Unit
IsOneLine (c ∷ cs) = (c ≢ newline) × IsOneLine cs

lines-line : (l rest : List ℕ) → IsOneLine l → lines (l ++ newline ∷ rest) ≡ l ∷ lines rest
unfolding lines
lines-line [] rest h = refl
lines-line (c ∷ l) rest h = elim (Bool-cases (c == newline)) [
  | inl e ↦ absurd (h.0 (ground (arith, e)))
  | inr e ↦ rw (e, lines-line l rest h.1) refl
]

-- What is left of a line that was cut short.
abbrev one_line : List ℕ → List (List ℕ)
one_line [] = []
one_line (c ∷ cs) = (c ∷ cs) ∷ []

lines-one_line : (l : List ℕ) → IsOneLine l → lines l ≡ one_line l
unfolding lines
lines-one_line [] h = refl
lines-one_line (c ∷ []) h = elim (Bool-cases (c == newline)) [
  | inl e ↦ absurd (h.0 (ground (arith, e)))
  | inr e ↦ rw e refl
]
lines-one_line (c ∷ d ∷ l) h = elim (Bool-cases (c == newline)) [
  | inl e ↦ absurd (h.0 (ground (arith, e)))
  | inr e ↦ rw (e, lines-one_line (d ∷ l) h.1) refl
]

take-append_short : (n : ℕ) (l r : List ℕ) → n ≤ length l → take n (l ++ r) ≡ take n l
take-append_short zero l r h = refl
take-append_short (suc n) [] r h = absurd (omega (arith, h))
take-append_short (suc n) (c ∷ l) r h = ap (◌∷◌ c) (take-append_short n l r (omega (arith, h)))

module _ {f : Float} (p : Platform f) where
  -- What the code relies on: the values of a hash map come in some order, a text is encoded character
  -- by character and decodes as it was encoded, whatever follows it; and both files can be read.
  pub record Readable : Type 0 where
    pub shuffles : (ts : List (TranscriptSegment f)) → Permᴰ ts (p.values ts)
    pub concatenates : (s t : List ℕ) → p.as_bytes (s ++ t) ≡ p.as_bytes s ++ p.as_bytes t
    pub empty : p.from_utf8 [] ≡ some []
    pub decodes :
        (text bytes : List ℕ)
        → p.from_utf8 (p.as_bytes text ++ bytes)
          ≡ Option.map (λ rest. text ++ rest) (p.from_utf8 bytes)
    pub has_json : p.reads_json ≡ true
    pub has_journal : p.reads_journal ≡ true

  -- A segment whose JSON stands on one line, without white space around it, reads back as it was
  -- written, and does not parse when its bytes are cut short, if what is left is a text.
  pub record ReadsBack (t : TranscriptSegment f) : Type 0 where
    pub back : p.from_str (p.to_string t) ≡ some t
    pub one_line : IsOneLine (p.to_string t)
    pub trimmed : trim p.is_whitespace (p.to_string t) ≡ p.to_string t
    pub nonempty : p.to_string t ≢ []
    pub torn :
        (n : ℕ) (left : List ℕ)
        → n < length (p.as_bytes (p.to_string t))
        → p.from_utf8 (take n (p.as_bytes (p.to_string t))) ≡ some left
        → IsOneLine left × (p.from_str (trim p.is_whitespace left) ≡ none)

  abbrev pub ReadBack : List (TranscriptSegment f) → Type 0
  ReadBack [] = Unit
  ReadBack (t ∷ ts) = ReadsBack t × ReadBack ts

  -- The journal of segments that were appended one after the other.
  abbrev pub journal_of : List (TranscriptSegment f) → List ℕ
  journal_of [] = []
  journal_of (t ∷ ts) = journal_line p t ++ journal_of ts

  abbrev line_text : TranscriptSegment f → List ℕ
  line_text t = p.to_string t ++ newline ∷ []

  -- The same as a text.
  abbrev pub text_of_journal : List (TranscriptSegment f) → List ℕ
  text_of_journal [] = []
  text_of_journal (t ∷ ts) = line_text t ++ text_of_journal ts

  map-map :
      (g h : List ℕ → List ℕ) (k : List ℕ → List ℕ) (o : Option (List ℕ))
      → ((s : List ℕ) → g (h s) ≡ k s)
      → Option.map g (Option.map h o) ≡ Option.map k o
  map-map g h k none e = refl
  map-map g h k (some s) e = ap some (e s)

  map_same : (o : Option (List ℕ)) → o ≡ Option.map (λ s. s) o
  map_same none = refl
  map_same (some s) = refl

  pub from_utf8-journal_of :
      (ts : List (TranscriptSegment f)) (bytes : List ℕ)
      → Readable
      → p.from_utf8 (journal_of ts ++ bytes)
        ≡ Option.map (λ rest. text_of_journal ts ++ rest) (p.from_utf8 bytes)
  unfolding journal_line
  from_utf8-journal_of [] bytes h = map_same (p.from_utf8 bytes)
  from_utf8-journal_of (t ∷ ts) bytes h =
      ap p.from_utf8 (append_assoc (p.as_bytes (line_text t)) (journal_of ts) bytes)
      ∙ h.decodes (line_text t) (journal_of ts ++ bytes)
      ∙ ap (Option.map (λ rest. line_text t ++ rest)) (from_utf8-journal_of ts bytes h)
      ∙ map-map (λ rest. line_text t ++ rest) (λ rest. text_of_journal ts ++ rest)
          (λ rest. (line_text t ++ text_of_journal ts) ++ rest) (p.from_utf8 bytes)
          (λ rest. sym (append_assoc (line_text t) (text_of_journal ts) rest))

  abbrev pub insert_all :
      List (TranscriptSegment f)
      → List (List ℕ × TranscriptSegment f)
      → List (List ℕ × TranscriptSegment f)
  insert_all [] m = m
  insert_all (t ∷ ts) m = insert_all ts (insert_parsed (some t) m)

  replay_line-back :
      (l : List ℕ) (o : Option (TranscriptSegment f)) (m : List (List ℕ × TranscriptSegment f))
      → l ≢ []
      → p.from_str l ≡ o
      → replay_line p l m ≡ insert_parsed o m
  unfolding replay_line
  replay_line-back [] o m h e = absurd (h refl)
  replay_line-back (c ∷ l) o m h e = rw e refl

  replay_line-torn :
      (l : List ℕ) (m : List (List ℕ × TranscriptSegment f))
      → p.from_str l ≡ none
      → replay_line p l m ≡ m
  unfolding replay_line insert_parsed
  replay_line-torn [] m e = refl
  replay_line-torn (c ∷ l) m e = rw e refl

  replay_lines-one_line :
      (l : List ℕ) (m : List (List ℕ × TranscriptSegment f))
      → p.from_str (trim p.is_whitespace l) ≡ none
      → replay_lines p (one_line l) m ≡ m
  unfolding replay_lines
  replay_lines-one_line [] m e = refl
  replay_lines-one_line (c ∷ l) m e = replay_line-torn (trim p.is_whitespace (c ∷ l)) m e

  journal_split :
      (t : TranscriptSegment f) (js rest : List ℕ)
      → (line_text t ++ js) ++ rest ≡ p.to_string t ++ newline ∷ (js ++ rest)
  journal_split t js rest =
      append_assoc (p.to_string t ++ newline ∷ []) js rest
      ∙ append_assoc (p.to_string t) (newline ∷ []) (js ++ rest)

  replay_lines-first :
      (t : TranscriptSegment f) (ls : List (List ℕ)) (m : List (List ℕ × TranscriptSegment f))
      → ReadsBack t
      → replay_lines p (p.to_string t ∷ ls) m ≡ replay_lines p ls (insert_parsed (some t) m)
  unfolding replay_lines
  replay_lines-first t ls m h = ap (replay_lines p ls) (
      ap (λ l. replay_line p l m) h.trimmed
      ∙ replay_line-back (p.to_string t) (some t) m h.nonempty h.back)

  -- The lines that were written whole are inserted, and what is left of another is passed over.
  pub replay_lines-journal_of :
      (ts : List (TranscriptSegment f)) (rest : List ℕ) (m : List (List ℕ × TranscriptSegment f))
      → ReadBack ts
      → replay_lines p (lines (text_of_journal ts ++ rest)) m
        ≡ replay_lines p (lines rest) (insert_all ts m)
  replay_lines-journal_of [] rest m h = refl
  replay_lines-journal_of (t ∷ ts) rest m h =
      ap (λ s. replay_lines p (lines s) m) (journal_split t (text_of_journal ts) rest)
      ∙ ap (λ ls. replay_lines p ls m)
          (lines-line (p.to_string t) (text_of_journal ts ++ rest) h.0.one_line)
      ∙ replay_lines-first t (lines (text_of_journal ts ++ rest)) m h.0
      ∙ replay_lines-journal_of ts rest (insert_parsed (some t) m) h.1

  pub replay_lines-torn :
      (ts : List (TranscriptSegment f)) (left : List ℕ)
      → ReadBack ts
      → IsOneLine left
      → p.from_str (trim p.is_whitespace left) ≡ none
      → replay_lines p (lines (text_of_journal ts ++ left)) [] ≡ insert_all ts []
  replay_lines-torn ts left h g l =
      replay_lines-journal_of ts left [] h
      ∙ ap (λ ls. replay_lines p ls (insert_all ts [])) (lines-one_line left g)
      ∙ replay_lines-one_line left (insert_all ts []) l

  pub take-journal_line :
      (t : TranscriptSegment f) (n : ℕ)
      → Readable
      → n < length (p.as_bytes (p.to_string t))
      → take n (journal_line p t) ≡ take n (p.as_bytes (p.to_string t))
  unfolding journal_line
  take-journal_line t n h l =
      ap (take n) (h.concatenates (p.to_string t) (newline ∷ []))
      ∙ take-append_short n (p.as_bytes (p.to_string t)) (p.as_bytes (newline ∷ []))
          (omega (arith, l))
