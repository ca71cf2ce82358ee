-- ===== src/Config/Nearest/Edits.antt =====
-- validate_locate.go, levenshtein: the least number of edits.
use pandion.Prelude.{
  ℕ, suc, ◌+◌, ◌≤◌, ◌≡◌, refl, sym, ap, ◌∙◌, ◌⊎◌, inl, inr, List, [], ◌∷◌, length, arith,
  Bool-cases, ◌==◌, ==_iff, subst,
}
use pandion.Config.Nearest.{min3, cost, fill, rows, first_row, last, levenshtein}

-- A text is made into another by so many edits: a character stays, is replaced, is left out, or is
-- put in.
pub data Edits : List ℕ → List ℕ → ℕ → Type 0 where
  done : Edits [] [] 0
  stay : {x : ℕ} {xs ys : List ℕ} {k : ℕ} → Edits xs ys k → Edits (x ∷ xs) (x ∷ ys) k
  replace : {x y : ℕ} {xs ys : List ℕ} {k : ℕ} → Edits xs ys k → Edits (x ∷ xs) (y ∷ ys) (suc k)
  remove : {x : ℕ} {xs ys : List ℕ} {k : ℕ} → Edits xs ys k → Edits (x ∷ xs) ys (suc k)
  insert : {y : ℕ} {xs ys : List ℕ} {k : ℕ} → Edits xs ys k → Edits xs (y ∷ ys) (suc k)

-- The distance by its recursion.
abbrev dist : List ℕ → List ℕ → ℕ
dist [] ys = length ys
dist (x ∷ xs) [] = suc (length xs)
dist (x ∷ xs) (y ∷ ys) = min3 (dist xs (y ∷ ys) + 1) (dist (x ∷ xs) ys + 1) (dist xs ys + cost x y)

dist-nil : (xs : List ℕ) → dist xs [] ≡ length xs
dist-nil [] = refl
dist-nil (x ∷ xs) = refl

dist-remove : (x : ℕ) (xs ys : List ℕ) → dist (x ∷ xs) ys ≤ dist xs ys + 1
unfolding min3
dist-remove x xs [] = omega (arith, dist-nil xs)
dist-remove x xs (y ∷ ys) = ground arith

dist-insert : (y : ℕ) (xs ys : List ℕ) → dist xs (y ∷ ys) ≤ dist xs ys + 1
unfolding min3
dist-insert y [] ys = omega arith
dist-insert y (x ∷ xs) ys = ground arith

dist-both : (x y : ℕ) (xs ys : List ℕ) → dist (x ∷ xs) (y ∷ ys) ≤ dist xs ys + cost x y
unfolding min3
dist-both x y xs ys = ground arith

dist-least : (xs ys : List ℕ) (k : ℕ) → Edits xs ys k → dist xs ys ≤ k
dist-least xs ys k done = omega arith
dist-least (x ∷ xs) (y ∷ ys) k (stay e) =
    ground (arith, dist-both x x xs ys, dist-least xs ys k e, (==_iff x x))
dist-least (x ∷ xs) (y ∷ ys) (suc k) (replace e) =
    ground (arith, dist-both x y xs ys, dist-least xs ys k e)
dist-least (x ∷ xs) ys (suc k) (remove e) = omega (arith, dist-remove x xs ys, dist-least xs ys k e)
dist-least xs (y ∷ ys) (suc k) (insert e) = omega (arith, dist-insert y xs ys, dist-least xs ys k e)

counted : {a b : List ℕ} (k m : ℕ) → k ≡ m → Edits a b k → Edits a b m
counted {a} {b} k m same e = subst (Edits a b) same e

all_inserted : (ys : List ℕ) → Edits [] ys (length ys)
all_inserted [] = done
all_inserted (y ∷ ys) = insert (all_inserted ys)

all_removed : (xs : List ℕ) → Edits xs [] (length xs)
all_removed [] = done
all_removed (x ∷ xs) = remove (all_removed xs)

both_edited :
    (x y : ℕ) (xs ys : List ℕ) (k : ℕ) → Edits xs ys k → Edits (x ∷ xs) (y ∷ ys) (k + cost x y)
both_edited x y xs ys k e = elim (Bool-cases (x == y)) [
  | inl same ↦ rw same (
      subst (λ z. Edits (x ∷ xs) (z ∷ ys) (k + 0)) ((==_iff x y).0 same)
        (counted k (k + 0) (omega arith) (stay e)))
  | inr other ↦ rw other (counted (suc k) (k + 1) (omega arith) (replace e))
]

min3-cases : (a b c : ℕ) → (min3 a b c ≡ a) ⊎ (min3 a b c ≡ b) ⊎ (min3 a b c ≡ c)
unfolding min3
min3-cases a b c = ground arith

dist-Edits : (xs ys : List ℕ) → Edits xs ys (dist xs ys)
dist-Edits [] ys = all_inserted ys
dist-Edits (x ∷ xs) [] = all_removed (x ∷ xs)
dist-Edits (x ∷ xs) (y ∷ ys) =
    elim (min3-cases (dist xs (y ∷ ys) + 1) (dist (x ∷ xs) ys + 1) (dist xs ys + cost x y)) [
      | inl e ↦
          counted (suc (dist xs (y ∷ ys))) _ (omega (arith, e)) (remove (dist-Edits xs (y ∷ ys)))
      | inr (inl e) ↦
          counted (suc (dist (x ∷ xs) ys)) _ (omega (arith, e)) (insert (dist-Edits (x ∷ xs) ys))
      | inr (inr e) ↦
          counted (dist xs ys + cost x y) _ (sym e)
            (both_edited x y xs ys (dist xs ys) (dist-Edits xs ys))
    ]

-- A text from its last character on, before another one.
abbrev rev_onto : List ℕ → List ℕ → List ℕ
rev_onto [] ys = ys
rev_onto (x ∷ xs) ys = rev_onto xs (x ∷ ys)

rev_onto-rev_onto : (xs ys : List ℕ) → rev_onto (rev_onto xs ys) [] ≡ rev_onto ys xs
rev_onto-rev_onto [] ys = refl
rev_onto-rev_onto (x ∷ xs) ys = rev_onto-rev_onto xs (x ∷ ys)

Edits-rev_onto :
    (a b c d : List ℕ) (k m : ℕ)
    → Edits a b k
    → Edits c d m
    → Edits (rev_onto a c) (rev_onto b d) (k + m)
Edits-rev_onto [] [] c d k m done f = counted m (0 + m) (omega arith) f
Edits-rev_onto (x ∷ a) (y ∷ b) c d k m (stay e) f =
    Edits-rev_onto a b (x ∷ c) (x ∷ d) k m e (stay f)
Edits-rev_onto (x ∷ a) (y ∷ b) c d (suc k) m (replace e) f =
    counted (k + suc m) (suc k + m) (omega arith)
      (Edits-rev_onto a b (x ∷ c) (y ∷ d) k (suc m) e (replace f))
Edits-rev_onto (x ∷ a) b c d (suc k) m (remove e) f =
    counted (k + suc m) (suc k + m) (omega arith)
      (Edits-rev_onto a b (x ∷ c) d k (suc m) e (remove f))
Edits-rev_onto a (y ∷ b) c d (suc k) m (insert e) f =
    counted (k + suc m) (suc k + m) (omega arith)
      (Edits-rev_onto a b c (y ∷ d) k (suc m) e (insert f))

-- The distances of a reversed text to the reversed beginnings of another, from one of them on.
abbrev from : List ℕ → List ℕ → List ℕ → List ℕ
from ra rb [] = dist ra rb ∷ []
from ra rb (y ∷ ys) = dist ra rb ∷ from ra (y ∷ rb) ys

abbrev after : List ℕ → List ℕ → List ℕ → List ℕ
after ra rb [] = []
after ra rb (y ∷ ys) = from ra (y ∷ rb) ys

from-after : (ra rb ys : List ℕ) → from ra rb ys ≡ dist ra rb ∷ after ra rb ys
from-after ra rb [] = refl
from-after ra rb (y ∷ ys) = refl

fill-cons :
    (x y l p : ℕ) (ra rb ys bs : List ℕ)
    → fill x l (p ∷ from ra rb ys) (y ∷ bs)
      ≡ min3 (dist ra rb + 1) (l + 1) (p + cost x y)
        ∷ fill x (min3 (dist ra rb + 1) (l + 1) (p + cost x y)) (from ra rb ys) bs
unfolding fill
fill-cons x y l p ra rb [] bs = refl
fill-cons x y l p ra rb (z ∷ ys) bs = refl

fill-after :
    (x : ℕ) (ra rb ys : List ℕ)
    → fill x (dist (x ∷ ra) rb) (from ra rb ys) ys ≡ after (x ∷ ra) rb ys
unfolding fill
fill-after x ra rb [] = refl
fill-after x ra rb (y ∷ ys) =
    fill-cons x y (dist (x ∷ ra) rb) (dist ra rb) ra (y ∷ rb) ys ys
    ∙ ap (λ l. dist (x ∷ ra) (y ∷ rb) ∷ l) (fill-after x ra (y ∷ rb) ys)
    ∙ sym (from-after (x ∷ ra) (y ∷ rb) ys)

rows-from :
    (i : ℕ) (ra xs b : List ℕ)
    → i ≡ suc (length ra)
    → rows i (from ra [] b) xs b ≡ from (rev_onto xs ra) [] b
unfolding rows
rows-from i ra [] b h = refl
rows-from i ra (x ∷ xs) b h =
    let head : i ≡ dist (x ∷ ra) [] = h in
    let row : (i ∷ fill x i (from ra [] b) b) ≡ from (x ∷ ra) [] b =
      subst (λ j. (j ∷ fill x j (from ra [] b) b) ≡ from (x ∷ ra) [] b) (sym head)
        (ap (λ l. dist (x ∷ ra) [] ∷ l) (fill-after x ra [] b) ∙ sym (from-after (x ∷ ra) [] b)) in
    ap (λ r. rows (i + 1) r xs b) row ∙ rows-from (i + 1) (x ∷ ra) xs b (omega (arith, h))

first_row-from : (rb ys : List ℕ) → first_row (length rb) ys ≡ from [] rb ys
unfolding first_row
first_row-from rb [] = refl
first_row-from rb (y ∷ ys) =
    ap (λ l. length rb ∷ l) (ap (λ j. first_row j ys) (omega arith) ∙ first_row-from (y ∷ rb) ys)

last-from : (ra rb ys : List ℕ) → last (from ra rb ys) ≡ dist ra (rev_onto ys rb)
last-from ra rb [] = refl
last-from ra rb (y ∷ ys) =
    rw (from-after ra (y ∷ rb) ys)
      (ap last (sym (from-after ra (y ∷ rb) ys)) ∙ last-from ra (y ∷ rb) ys)

levenshtein-dist : (a b : List ℕ) → levenshtein a b ≡ dist (rev_onto a []) (rev_onto b [])
unfolding levenshtein
levenshtein-dist a b =
    ap (λ r. last (rows 1 r a b)) (first_row-from [] b)
    ∙ ap last (rows-from 1 [] a b refl)
    ∙ last-from (rev_onto a []) [] b

-- The table of levenshtein computes the least number of edits that make one text into another: they
-- can be made with so many, and with no fewer.
pub levenshtein-Edits :
    (a b : List ℕ) (k : ℕ) → Edits a b k → Edits a b (levenshtein a b) × (levenshtein a b ≤ k)
levenshtein-Edits a b k e =
    let ra = rev_onto a [] in
    let rb = rev_onto b [] in
    let back = Edits-rev_onto ra rb [] [] (dist ra rb) 0 (dist-Edits ra rb) done in
    let there : Edits a b (dist ra rb + 0) =
      subst (λ x. Edits x b (dist ra rb + 0)) (rev_onto-rev_onto a [])
        (subst (λ y. Edits (rev_onto ra []) y (dist ra rb + 0)) (rev_onto-rev_onto b []) back) in
    let reversed = Edits-rev_onto a b [] [] k 0 e done in
    let same = levenshtein-dist a b in
    (
      counted (dist ra rb + 0) (levenshtein a b) (omega (arith, same)) there,
      omega (arith, same, dist-least ra rb (k + 0) reversed),
    )
