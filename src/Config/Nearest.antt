-- ===== src/Config/Nearest.antt =====
-- internal/config/validate_locate.go: the legal key that is meant by an unknown one, by the table of
-- Levenshtein, of which the code keeps one row.
pub mod Edits
pub mod Chosen
use pandion.Prelude.{
  ℕ, zero, suc, ◌+◌, ◌/◌, ◌^◌, String, Bool, List, [], ◌∷◌, ltb, leb, ◌==◌, if◌then◌else◌,
}
use pandion.Prelude.Text.{codes}

abbrev pub min : ℕ → ℕ → ℕ
min a b = if ltb b a then b else a

unfoldable pub min3 : ℕ → ℕ → ℕ → ℕ
min3 a b c = min (min a b) c

abbrev pub cost : ℕ → ℕ → ℕ
cost x y = if x == y then 0 else 1

-- The inner loop: `left` is cur[j-1], and the row is prev from j-1 on.
unfoldable pub fill : ℕ → ℕ → List ℕ → List ℕ → List ℕ
unfolding min3
fill x left (p ∷ q ∷ ps) (y ∷ ys) =
    let v = min3 (q + 1) (left + 1) (p + cost x y) in v ∷ fill x v (q ∷ ps) ys
fill x left (p ∷ q ∷ ps) [] = []
fill x left (p ∷ []) ys = []
fill x left [] ys = []

-- The outer loop.
unfoldable pub rows : ℕ → List ℕ → List ℕ → List ℕ → List ℕ
unfolding fill
rows i prev [] b = prev
rows i prev (x ∷ xs) b = rows (i + 1) (i ∷ fill x i prev b) xs b

-- The first row.
unfoldable pub first_row : ℕ → List ℕ → List ℕ
first_row j [] = j ∷ []
first_row j (y ∷ ys) = j ∷ first_row (j + 1) ys

abbrev pub last : List ℕ → ℕ
last [] = 0
last (x ∷ []) = x
last (x ∷ y ∷ ys) = last (y ∷ ys)

-- levenshtein, on the runes of its texts
unfoldable pub levenshtein : List ℕ → List ℕ → ℕ
unfolding rows first_row
levenshtein a b = last (rows 1 (first_row 0 b) a b)

pub record Best : Type 0 where
  pub key : String
  pub distance : ℕ

unfoldable pub nearest : String → Best → List String → Best
unfolding levenshtein
nearest bad best [] = best
nearest bad best (k ∷ ks) =
    let d = levenshtein (codes bad) (codes k) in
    nearest bad (if ltb d best.distance then record { key = k; distance = d } else best) ks

-- How many bytes UTF-8 takes for a character, and for a text.
abbrev pub width : ℕ → ℕ
width c = if ltb c 128 then 1 else if ltb c 2048 then 2 else if ltb c 65536 then 3 else 4

abbrev pub byte_len : List ℕ → ℕ
byte_len [] = 0
byte_len (c ∷ cs) = width c + byte_len cs

-- The limit of nearestKey: its `len` counts bytes.
abbrev pub limit : String → ℕ
limit bad = let l = byte_len (codes bad) / 3 + 1 in if ltb l 2 then 2 else l

unfoldable pub nearest_key : String → List String → String
unfolding nearest
nearest_key bad legal =
    let best = nearest bad (record { key = ""; distance = 2 ^ 30 }) legal in
    if leb best.distance (limit bad) then best.key else ""
