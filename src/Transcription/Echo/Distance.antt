-- ===== src/Transcription/Echo/Distance.antt =====
-- The two rows of the distance against the edits that lead from one text to the other.
use Prim.Native.Nat.{min, max}
use meetily_local.Common.{
  ℕ, suc, ◌+◌, ◌≤◌, ◌≡◌, refl, sym, subst, ap, ◌∙◌, List, [], ◌∷◌, length, ◌==◌, if◌then◌else◌,
  arith, Bool-cases, ◌⊎◌, inl, inr,
}
use meetily_local.Transcription.Echo.{row_cells, rows, range, cell_at, levenshtein_distance}

-- The edits that make the second text from the first, and what they cost.
pub data Edits : List ℕ → List ℕ → ℕ → Type 0 where
  done : Edits [] [] 0
  keep : {a b : List ℕ} {n : ℕ} (x : ℕ) → Edits a b n → Edits (x ∷ a) (x ∷ b) n
  replace : {a b : List ℕ} {n : ℕ} (x y : ℕ) → Edits a b n → Edits (x ∷ a) (y ∷ b) (suc n)
  delete : {a b : List ℕ} {n : ℕ} (x : ℕ) → Edits a b n → Edits (x ∷ a) b (suc n)
  insert : {a b : List ℕ} {n : ℕ} (y : ℕ) → Edits a b n → Edits a (y ∷ b) (suc n)

-- The distance by recursion on the texts.
unfoldable pub lev : List ℕ → List ℕ → ℕ
lev [] b = length b
lev (x ∷ a) [] = suc (length a)
lev (x ∷ a) (y ∷ b) =
    let cost = if x == y then 0 else 1 in
    min (min (lev a (y ∷ b) + 1) (lev (x ∷ a) b + 1)) (lev a b + cost)

lev-nil : (a : List ℕ) → lev a [] ≡ length a
unfolding lev
lev-nil [] = refl
lev-nil (x ∷ a) = refl

-- A row of the table: the distances of `ra` from `rb` and its extensions by `b`.
lev_row : List ℕ → List ℕ → List ℕ → List ℕ
lev_row ra rb [] = lev ra rb ∷ []
lev_row ra rb (y ∷ b) = lev ra rb ∷ lev_row ra (y ∷ rb) b

reverse_onto : List ℕ → List ℕ → List ℕ
reverse_onto [] acc = acc
reverse_onto (x ∷ a) acc = reverse_onto a (x ∷ acc)

row_cells-lev_row :
    (x : ℕ) (ra rb b : List ℕ)
    → lev (x ∷ ra) rb ∷ row_cells x b (lev (x ∷ ra) rb) (lev_row ra rb b) ≡ lev_row (x ∷ ra) rb b
unfolding row_cells lev_row lev
row_cells-lev_row x ra rb [] = refl
row_cells-lev_row x ra rb (y ∷ []) = refl
row_cells-lev_row x ra rb (y ∷ z ∷ b) =
    ap (◌∷◌ (lev (x ∷ ra) rb)) (row_cells-lev_row x ra (y ∷ rb) (z ∷ b))

rows-lev_row :
    (a b ra : List ℕ) → rows (length ra) a b (lev_row ra [] b) ≡ lev_row (reverse_onto a ra) [] b
unfolding rows reverse_onto lev
rows-lev_row [] b ra = refl
rows-lev_row (x ∷ a) b ra =
    let next : length ra + 1 ≡ length (x ∷ ra) = omega arith in
    rw next
      (ap (rows (length (x ∷ ra)) a b) (row_cells-lev_row x ra [] b) ∙ rows-lev_row a b (x ∷ ra))

range-lev_row : (b rb : List ℕ) → range (length rb) (length b + 1) ≡ lev_row [] rb b
unfolding range lev_row lev
range-lev_row [] rb = refl
range-lev_row (y ∷ b) rb =
    let next : length rb + 1 ≡ length (y ∷ rb) = omega arith in
    let more : suc (length b) + 1 ≡ suc (length b + 1) = omega arith in
    rw (more, range, next) (ap (◌∷◌ (length rb)) (range-lev_row b (y ∷ rb)))

cell_at-lev_row :
    (a b rb : List ℕ) → cell_at (lev_row a rb b) (length b) ≡ lev a (reverse_onto b rb)
unfolding lev_row reverse_onto
cell_at-lev_row a [] rb = refl
cell_at-lev_row a (y ∷ b) rb = cell_at-lev_row a b (y ∷ rb)

length-reverse_onto : (a acc : List ℕ) → length (reverse_onto a acc) ≡ length a + length acc
unfolding reverse_onto
length-reverse_onto [] acc = omega arith
length-reverse_onto (x ∷ a) acc = omega (arith, length-reverse_onto a (x ∷ acc))

levenshtein_distance-reversed :
    (a b : List ℕ) → levenshtein_distance a b ≡ lev (reverse_onto a []) (reverse_onto b [])
unfolding levenshtein_distance reverse_onto lev
levenshtein_distance-reversed [] b = omega (arith, length-reverse_onto b [])
levenshtein_distance-reversed (x ∷ a) [] =
    omega (arith, length-reverse_onto a (x ∷ []), lev-nil (reverse_onto a (x ∷ [])))
levenshtein_distance-reversed (x ∷ a) (y ∷ b) =
    ap (λ r. cell_at (rows 0 (x ∷ a) (y ∷ b) r) (length (y ∷ b))) (range-lev_row (y ∷ b) [])
    ∙ ap (λ r. cell_at r (length (y ∷ b))) (rows-lev_row (x ∷ a) (y ∷ b) [])
    ∙ cell_at-lev_row (reverse_onto (x ∷ a) []) (y ∷ b) []

-- The same edits from the other end.
Edits-reverse :
    {a b : List ℕ} {n : ℕ} {c d : List ℕ} {k : ℕ}
    → Edits a b n
    → Edits c d k
    → Edits (reverse_onto a c) (reverse_onto b d) (n + k)
unfolding reverse_onto
Edits-reverse {k = k} done e = subst (Edits _ _) (omega arith) e
Edits-reverse (keep x es) e = Edits-reverse es (keep x e)
Edits-reverse (replace x y es) e =
    subst (Edits _ _) (omega arith) (Edits-reverse es (replace x y e))
Edits-reverse (delete x es) e = subst (Edits _ _) (omega arith) (Edits-reverse es (delete x e))
Edits-reverse (insert y es) e = subst (Edits _ _) (omega arith) (Edits-reverse es (insert y e))

deletes : (a : List ℕ) → Edits a [] (length a)
deletes [] = done
deletes (x ∷ a) = delete x (deletes a)

inserts : (b : List ℕ) → Edits [] b (length b)
inserts [] = done
inserts (y ∷ b) = insert y (inserts b)

least_of : (u v w : ℕ) → (min (min u v) w ≡ u) ⊎ ((min (min u v) w ≡ v) ⊎ (min (min u v) w ≡ w))
least_of u v w = ground arith

match_or_replace :
    {a b : List ℕ} {n : ℕ} (x y : ℕ)
    → Edits a b n
    → Edits (x ∷ a) (y ∷ b) (n + (if x == y then 0 else 1))
match_or_replace {a = a} {b = b} {n = n} x y e = elim (Bool-cases (x == y)) [
  | inl h ↦
      let same : x ≡ y = ground arith in
      rw h (
        subst (λ z. Edits (x ∷ a) (z ∷ b) (n + 0)) same
          (subst (Edits _ _) (omega arith) (keep x e)))
  | inr h ↦ rw h (subst (Edits _ _) (omega arith) (replace x y e))
]

at_cost : {a b : List ℕ} {n m : ℕ} → Edits a b n → n ≡ m → Edits a b m
at_cost {a} {b} e h = subst (Edits a b) h e

-- The distance is what some edits cost.
lev-Edits : (a b : List ℕ) → Edits a b (lev a b)
unfolding lev
lev-Edits [] b = inserts b
lev-Edits (x ∷ a) [] = deletes (x ∷ a)
lev-Edits (x ∷ a) (y ∷ b) =
    choose (lev a (y ∷ b)) (lev (x ∷ a) b) (lev a b) (lev-Edits a (y ∷ b)) (lev-Edits (x ∷ a) b)
      (lev-Edits a b)
  where
    choose :
        (u v w : ℕ)
        → Edits a (y ∷ b) u
        → Edits (x ∷ a) b v
        → Edits a b w
        → Edits (x ∷ a) (y ∷ b) (min (min (u + 1) (v + 1)) (w + (if x == y then 0 else 1)))
    choose u v w d i m = elim (least_of (u + 1) (v + 1) (w + (if x == y then 0 else 1))) [
      | inl h ↦ at_cost (delete x d) (omega (arith, h))
      | inr (inl h) ↦ at_cost (insert y i) (omega (arith, h))
      | inr (inr h) ↦ at_cost (match_or_replace x y m) (sym h)
    ]

-- No edits cost less.
lev-least : {a b : List ℕ} {n : ℕ} → Edits a b n → lev a b ≤ n
unfolding lev
lev-least done = omega arith
lev-least (keep x es) = ground (arith, lev-least es)
lev-least (replace x y es) = ground (arith, lev-least es)
lev-least (delete {a = a} {b = []} x es) = omega (arith, lev-least es, lev-nil a)
lev-least (delete {b = y ∷ b} x es) = ground (arith, lev-least es)
lev-least (insert {a = []} y es) = omega (arith, lev-least es)
lev-least (insert {a = x ∷ a} y es) = ground (arith, lev-least es)

reverse_twice : (a acc : List ℕ) → reverse_onto (reverse_onto a acc) [] ≡ reverse_onto acc a
unfolding reverse_onto
reverse_twice [] acc = refl
reverse_twice (x ∷ a) acc = reverse_twice a (x ∷ acc)

lev-reverse : (a b : List ℕ) → lev (reverse_onto a []) (reverse_onto b []) ≡ lev a b
unfolding lev reverse_onto
lev-reverse a b =
    let there = lev-least (Edits-reverse (lev-Edits a b) done) in
    let back = lev-least (Edits-reverse (lev-Edits (reverse_onto a []) (reverse_onto b [])) done) in
    omega (arith, there, rw (reverse_twice a [], reverse_twice b []) at back)

-- The two rows compute the distance that the recursion on the texts defines.
pub levenshtein_distance-lev : (a b : List ℕ) → levenshtein_distance a b ≡ lev a b
levenshtein_distance-lev a b = levenshtein_distance-reversed a b ∙ lev-reverse a b

-- Whatever edits lead from one text to the other, the two rows compute a cost that some edits
-- have, and those do not cost less: the result is the least number of characters to replace, delete
-- or insert.
pub levenshtein_distance-Edits :
    (a b : List ℕ) (n : ℕ)
    → Edits a b n
    → Edits a b (levenshtein_distance a b) × (levenshtein_distance a b ≤ n)
levenshtein_distance-Edits a b n es =
    rw (levenshtein_distance-lev a b) (lev-Edits a b, lev-least es)

lev-bound : (a b : List ℕ) → lev a b ≤ max (length a) (length b)
unfolding lev
lev-bound [] b = omega arith
lev-bound (x ∷ a) [] = omega arith
lev-bound (x ∷ a) (y ∷ b) = ground (arith, lev-bound a b)

-- The distance is at most the length of the longer text, so the similarity ratio is not negative.
pub levenshtein_distance-bound :
    (a b : List ℕ) → levenshtein_distance a b ≤ max (length a) (length b)
levenshtein_distance-bound a b = rw (levenshtein_distance-lev a b) (lev-bound a b)
