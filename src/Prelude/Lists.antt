-- ===== src/Prelude/Lists.antt =====
-- Lists measured by native numbers, tests over all entries, and filtering by a Boolean test.
use Prim.Native.Nat.{ℕ, zero, suc, ◌+◌, ◌≤◌}
use mathlib.Core.Path.{◌≡◌, refl, ap}
use mathlib.Core.Bool.{Bool, true, false, ◌&&◌, ◌||◌}
use mathlib.Core.List.{List, [], ◌∷◌, ◌++◌, map}
use mathlib.Core.Option.{Option, none, some}
use native.Mathlib.Omega.{arith}
use pandion.Prelude.Tests.{if◌then◌else◌}

abbrev pub one_if : Bool → ℕ
one_if true = 1
one_if false = 0

module _ {ℓ} {A : Type ℓ} where
  abbrev pub length : List A → ℕ
  length [] = 0
  length (x ∷ xs) = suc (length xs)

  abbrev pub get_elem? : List A → ℕ → Option A
  get_elem? [] i = none
  get_elem? (x ∷ xs) zero = some x
  get_elem? (x ∷ xs) (suc i) = get_elem? xs i

  -- A write out of bounds changes nothing.
  abbrev pub set : List A → ℕ → A → List A
  set [] i v = []
  set (x ∷ xs) zero v = v ∷ xs
  set (x ∷ xs) (suc i) v = x ∷ set xs i v

  pub length-append : (xs ys : List A) → length (xs ++ ys) ≡ length xs + length ys
  length-append [] ys = omega arith
  length-append (x ∷ xs) ys = omega (arith, length-append xs ys)

  -- A loop that keeps the entries that pass a test, in their order.
  abbrev pub select : (A → Bool) → List A → List A
  select p [] = []
  select p (x ∷ xs) = let rest = select p xs in if p x then x ∷ rest else rest

  abbrev pub all : (A → Bool) → List A → Bool
  all p [] = true
  all p (x ∷ xs) = p x && all p xs

  abbrev pub any : (A → Bool) → List A → Bool
  any p [] = false
  any p (x ∷ xs) = p x || any p xs

  abbrev pub count : (A → Bool) → List A → ℕ
  count p [] = 0
  count p (x ∷ xs) = one_if (p x) + count p xs

  abbrev pub All {κ} : (A → Type κ) → List A → Type κ
  All P [] = Unit
  All P (x ∷ xs) = P x × All P xs

module _ {ℓ} {A : Type ℓ} where
  pub select-append :
      (p : A → Bool) (xs ys : List A) → select p (xs ++ ys) ≡ select p xs ++ select p ys
  select-append p [] ys = refl
  select-append p (x ∷ xs) ys = ground (arith, select-append p xs ys)

  pub select-select :
      (p q : A → Bool) (xs : List A) → select p (select q xs) ≡ select q (select p xs)
  select-select p q [] = refl
  select-select p q (x ∷ xs) = ground (arith, select-select p q xs)

  pub select-same :
      (p q : A → Bool) (xs : List A) → ((x : A) → p x ≡ q x) → select p xs ≡ select q xs
  select-same p q [] h = refl
  select-same p q (x ∷ xs) h = ground (arith, h x, select-same p q xs h)

  pub length-select-le : (p : A → Bool) (xs : List A) → length (select p xs) ≤ length xs
  length-select-le p [] = omega arith
  length-select-le p (x ∷ xs) = ground (arith, length-select-le p xs)

  pub All-select {κ} :
      (P : A → Type κ) (p : A → Bool) (xs : List A)
      → ((x : A) → p x ≡ true → P x)
      → All P (select p xs)
  All-select P p [] h = tt
  All-select P p (x ∷ xs) h = ground (arith, h x, All-select P p xs h)

  pub All-select_of {κ} :
      (P : A → Type κ) (p : A → Bool) (xs : List A) → All P xs → All P (select p xs)
  All-select_of P p [] h = tt
  All-select_of P p (x ∷ xs) h = ground (arith, h.0, All-select_of P p xs h.1)

  pub All-append {κ} : (P : A → Type κ) (xs ys : List A) → All P xs → All P ys → All P (xs ++ ys)
  All-append P [] ys hx hy = hy
  All-append P (x ∷ xs) ys hx hy = (hx.0, All-append P xs ys hx.1 hy)

  pub All-imp {κ μ} :
      (P : A → Type κ) (Q : A → Type μ) (xs : List A) → ((x : A) → P x → Q x) → All P xs → All Q xs
  All-imp P Q [] f h = tt
  All-imp P Q (x ∷ xs) f h = (f x h.0, All-imp P Q xs f h.1)

pub length-map {ℓ κ} :
    {A : Type ℓ} {B : Type κ} (f : A → B) (xs : List A) → length (map f xs) ≡ length xs
length-map f [] = refl
length-map f (x ∷ xs) = ap suc (length-map f xs)

module _ {ℓ} {A : Type ℓ} where
  pub All-set {κ} :
      (P : A → Type κ) (xs : List A) (i : ℕ) (v : A) → All P xs → P v → All P (set xs i v)
  All-set P [] i v h k = tt
  All-set P (x ∷ xs) zero v h k = (k, h.1)
  All-set P (x ∷ xs) (suc i) v h k = (h.0, All-set P xs i v h.1 k)

  pub All-get_elem? {κ} :
      (P : A → Type κ) (xs : List A) (i : ℕ) (v : A) → All P xs → get_elem? xs i ≡ some v → P v
  All-get_elem? P [] i v h k = absurd (ground (arith, k))
  All-get_elem? P (x ∷ xs) zero v h k = ground (arith, h, k)
  All-get_elem? P (x ∷ xs) (suc i) v h k = All-get_elem? P xs i v h.1 k

  pub All-set_at {κ} :
      (P : A → Type κ) (xs : List A) (i : ℕ) (old v : A)
      → get_elem? xs i ≡ some old
      → All P (set xs i v)
      → P v
  All-set_at P [] i old v h k = absurd (ground (arith, h))
  All-set_at P (x ∷ xs) zero old v h k = k.0
  All-set_at P (x ∷ xs) (suc i) old v h k = All-set_at P xs i old v h k.1

  pub All-set_back {κ} :
      (P : A → Type κ) (xs : List A) (i : ℕ) (old v : A)
      → get_elem? xs i ≡ some old
      → P old
      → All P (set xs i v)
      → All P xs
  All-set_back P [] i old v h o k = tt
  All-set_back P (x ∷ xs) zero old v h o k = (ground (arith, h, o), k.1)
  All-set_back P (x ∷ xs) (suc i) old v h o k = (k.0, All-set_back P xs i old v h o k.1)

  -- A write over an entry that fails a test, and one of an entry that passes it.
  pub any-set :
      (p : A → Bool) (xs : List A) (i : ℕ) (old v : A)
      → get_elem? xs i ≡ some old
      → p old ≡ false
      → any p xs ≡ true
      → any p (set xs i v) ≡ true
  any-set p [] i old v h o a = a
  any-set p (x ∷ xs) zero old v h o a = ground (arith, h, o, a)
  any-set p (x ∷ xs) (suc i) old v h o a = ground (arith, a, any-set p xs i old v h o)

  pub any-set_hit :
      (p : A → Bool) (xs : List A) (i : ℕ) (old v : A)
      → get_elem? xs i ≡ some old
      → p v ≡ true
      → any p (set xs i v) ≡ true
  any-set_hit p [] i old v h t = absurd (ground (arith, h))
  any-set_hit p (x ∷ xs) zero old v h t = ground (arith, t)
  any-set_hit p (x ∷ xs) (suc i) old v h t = ground (arith, any-set_hit p xs i old v h t)

  -- The number of entries that pass a test, after a write.
  pub count-set :
      (p : A → Bool) (xs : List A) (i : ℕ) (old v : A)
      → get_elem? xs i ≡ some old
      → count p (set xs i v) + one_if (p old) ≡ count p xs + one_if (p v)
  count-set p [] i old v h = absurd (ground (arith, h))
  count-set p (x ∷ xs) zero old v h = ground (arith, h)
  count-set p (x ∷ xs) (suc i) old v h = omega (arith, count-set p xs i old v h)

-- A write that the function does not see.
pub map-set_same {ℓ κ} :
    {A : Type ℓ} {B : Type κ} (f : A → B) (xs : List A) (i : ℕ) (old v : A)
    → get_elem? xs i ≡ some old
    → f v ≡ f old
    → map f (set xs i v) ≡ map f xs
map-set_same f [] i old v h e = refl
map-set_same f (x ∷ xs) zero old v h e = ground (arith, h, e)
map-set_same f (x ∷ xs) (suc i) old v h e = ap (λ l. f x ∷ l) (map-set_same f xs i old v h e)
