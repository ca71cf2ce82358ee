-- ===== src/Prelude/Order.antt =====
-- Sorting, as `sort.Slice` and `sort.Strings` promise it: insertion by a test for "not after".
use Prim.Native.Nat.{ℕ, Ordering, compare as compare_ℕ}
use Prim.Native.Char.{code}
use Prim.Native.String.{String, compare, then as or_else}
use Prim.Native.String.compare
use text.Mathlib.TextEquality.{Char-path}
use mathlib.Core.Path.{◌≡◌, refl, sym, ap, ◌∙◌}
use mathlib.Core.Logic.{◌⊎◌, inl, inr}
use mathlib.Core.Bool.{Bool, true, false}
use mathlib.Core.List.{List, [], ◌∷◌, Perm, map}
use mathlib.Core.List.Perm
use native.Mathlib.Omega.{arith}
use pandion.Prelude.Lists.{select}
use pandion.Prelude.Tests.{if◌then◌else◌, Bool-cases}

-- Go's `s <= t` and `s < t` on strings: the order of the bytes.
abbrev pub str_leb : String → String → Bool
str_leb s t = elim (compare s t) [ Ordering.gt ↦ false | _ ↦ true ]

abbrev pub str_ltb : String → String → Bool
str_ltb s t = elim (compare s t) [ Ordering.lt ↦ true | _ ↦ false ]

abbrev flip : Ordering → Ordering
flip Ordering.lt = Ordering.gt
flip Ordering.eq = Ordering.eq
flip Ordering.gt = Ordering.lt

flip-compare_ℕ : (m n : ℕ) → compare_ℕ n m ≡ flip (compare_ℕ m n)
flip-compare_ℕ m n = ground arith

flip-or_else : (o r : Ordering) → or_else (flip o) (flip r) ≡ flip (or_else o r)
flip-or_else Ordering.lt r = refl
flip-or_else Ordering.eq r = refl
flip-or_else Ordering.gt r = refl

flip-compare : (s t : String) → compare t s ≡ flip (compare s t)
flip-compare String.[] String.[] = compare.nil-nil ∙ sym (ap flip compare.nil-nil)
flip-compare String.[] (String.◌∷◌ d t) =
    compare.cons-nil d t ∙ sym (ap flip (compare.nil-cons d t))
flip-compare (String.◌∷◌ c s) String.[] =
    compare.nil-cons c s ∙ sym (ap flip (compare.cons-nil c s))
flip-compare (String.◌∷◌ c s) (String.◌∷◌ d t) =
    rw (compare.cons-cons d c t s, compare.cons-cons c d s t)
      (rw (flip-compare_ℕ (code c) (code d), flip-compare s t)
        (flip-or_else (compare_ℕ (code c) (code d)) (compare s t)))

pub str_leb_total : (s t : String) → (str_leb s t ≡ true) ⊎ (str_leb t s ≡ true)
str_leb_total s t = ground (arith, flip-compare s t)

pub str_ltb_asym : (s t : String) → str_ltb s t ≡ true → str_ltb t s ≡ false
str_ltb_asym s t h = ground (arith, flip-compare s t)

pub str_leb_of_not_ltb : (s t : String) → str_ltb t s ≡ false → str_leb s t ≡ true
str_leb_of_not_ltb s t h = ground (arith, h, flip-compare s t)

pub str_leb_antisym : (s t : String) → str_leb s t ≡ true → str_leb t s ≡ true → s ≡ t
str_leb_antisym String.[] String.[] h k = refl
str_leb_antisym String.[] (String.◌∷◌ d t) h k = absurd (ground (arith, k, compare.cons-nil d t))
str_leb_antisym (String.◌∷◌ c s) String.[] h k = absurd (ground (arith, h, compare.cons-nil c s))
str_leb_antisym (String.◌∷◌ c s) (String.◌∷◌ d t) h k =
    let e : code c ≡ code d =
      ground (arith, h, k, compare.cons-cons c d s t, compare.cons-cons d c t s) in
    let tail : s ≡ t =
      str_leb_antisym s t (ground (arith, h, e, compare.cons-cons c d s t))
        (ground (arith, k, e, compare.cons-cons d c t s)) in
    ap (λ a. String.◌∷◌ a s) (Char-path c d e) ∙ ap (String.◌∷◌ d) tail

pub str_leb_trans : (s t u : String) → str_leb s t ≡ true → str_leb t u ≡ true → str_leb s u ≡ true
str_leb_trans String.[] t String.[] h k = ground (arith, compare.nil-nil)
str_leb_trans String.[] t (String.◌∷◌ e u) h k = ground (arith, compare.nil-cons e u)
str_leb_trans (String.◌∷◌ c s) String.[] u h k = absurd (ground (arith, h, compare.cons-nil c s))
str_leb_trans (String.◌∷◌ c s) (String.◌∷◌ d t) String.[] h k =
    absurd (ground (arith, k, compare.cons-nil d t))
str_leb_trans (String.◌∷◌ c s) (String.◌∷◌ d t) (String.◌∷◌ e u) h k = ground (
  arith,
  h,
  k,
  compare.cons-cons c d s t,
  compare.cons-cons d e t u,
  compare.cons-cons c e s u,
  str_leb_trans s t u,
)

module _ {ℓ} {A : Type ℓ} (le : A → A → Bool) where
  unfoldable pub insert_sorted : A → List A → List A
  insert_sorted x [] = x ∷ []
  insert_sorted x (y ∷ ys) =
      let rest = insert_sorted x ys in if le x y then x ∷ y ∷ ys else y ∷ rest

  unfoldable pub sort : List A → List A
  unfolding insert_sorted
  sort [] = []
  sort (x ∷ xs) = insert_sorted x (sort xs)

  -- Each entry is not after its neighbour.
  abbrev pub IsSorted : List A → Type 0
  IsSorted [] = Unit
  IsSorted (x ∷ []) = Unit
  IsSorted (x ∷ y ∷ l) = (le x y ≡ true) × IsSorted (y ∷ l)

module _ {ℓ} {A : Type ℓ} (le : A → A → Bool) where
  insert_sorted-perm : (x : A) (ys : List A) → Perm (insert_sorted le x ys) (x ∷ ys)
  unfolding insert_sorted
  insert_sorted-perm x [] = Perm.refl (x ∷ [])
  insert_sorted-perm x (y ∷ ys) = elim (Bool-cases (le x y)) [
    | inl h ↦ rw h (Perm.refl (x ∷ y ∷ ys))
    | inr h ↦ rw h (Perm.trans (Perm.cons y (insert_sorted-perm x ys)) (Perm.swap x y ys))
  ]

  pub sort-perm : (xs : List A) → Perm (sort le xs) xs
  unfolding sort
  sort-perm [] = Perm.refl []
  sort-perm (x ∷ xs) = Perm.trans (insert_sorted-perm x (sort le xs)) (Perm.cons x (sort-perm xs))

  module _ {κ} {B : Type κ} (f : A → B) where
    map-insert_sorted :
        (x : A) (ys : List A) → Perm (map f (insert_sorted le x ys)) (f x ∷ map f ys)
    unfolding insert_sorted
    map-insert_sorted x [] = Perm.refl (f x ∷ [])
    map-insert_sorted x (y ∷ ys) = elim (Bool-cases (le x y)) [
      | inl h ↦ rw h (Perm.refl (f x ∷ f y ∷ map f ys))
      | inr h ↦
          rw h (
            Perm.trans (Perm.cons (f y) (map-insert_sorted x ys))
              (Perm.swap (f x) (f y) (map f ys)))
    ]

    -- A column of a sorted list.
    pub map-sort : (xs : List A) → Perm (map f (sort le xs)) (map f xs)
    unfolding sort
    map-sort [] = Perm.refl []
    map-sort (x ∷ xs) =
        Perm.trans (map-insert_sorted x (sort le xs)) (Perm.cons (f x) (map-sort xs))

  module _ (p : A → Bool) where
    select-insert_sorted :
        (x : A) (ys : List A) → p x ≡ false → select p (insert_sorted le x ys) ≡ select p ys
    unfolding insert_sorted
    select-insert_sorted x [] h = ground arith
    select-insert_sorted x (y ∷ ys) h = ground (arith, select-insert_sorted x ys h)

    select-insert_sorted_hit :
        (x : A) (ys : List A)
        → p x ≡ true
        → select p ys ≡ []
        → select p (insert_sorted le x ys) ≡ x ∷ []
    unfolding insert_sorted
    select-insert_sorted_hit x [] h e = ground arith
    select-insert_sorted_hit x (y ∷ ys) h e = ground (arith, select-insert_sorted_hit x ys h)

    pub select-sort_nil : (xs : List A) → select p xs ≡ [] → select p (sort le xs) ≡ []
    unfolding sort
    select-sort_nil [] e = refl
    select-sort_nil (x ∷ xs) e =
        ground (arith, select-insert_sorted x (sort le xs), select-sort_nil xs)

    -- What a test picks out alone, it picks out of the sorted list.
    pub select-sort_one :
        (xs : List A) (a : A) → select p xs ≡ a ∷ [] → select p (sort le xs) ≡ a ∷ []
    unfolding sort
    select-sort_one [] a e = cc
    select-sort_one (x ∷ xs) a e = ground (
      arith,
      select-insert_sorted x (sort le xs),
      select-sort_one xs a,
      select-sort_nil xs,
      select-insert_sorted_hit x (sort le xs),
    )

  module _ (total : (a b : A) → (le a b ≡ true) ⊎ (le b a ≡ true)) where
    insert_below :
        (b x : A) (ys : List A)
        → le b x ≡ true
        → IsSorted le (b ∷ ys)
        → IsSorted le (x ∷ [])
        → IsSorted le (b ∷ insert_sorted le x ys)
    unfolding insert_sorted
    insert_below b x [] h s _ = (h, tt)
    insert_below b x (y ∷ ys) h s u = elim (Bool-cases (le x y)) [
      | inl e ↦ rw e (h, (e, s.1))
      | inr e ↦ rw e (s.0, insert_below y x ys (ground (arith, total x y)) s.1 tt)
    ]

    insert_sorted-IsSorted :
        (x : A) (ys : List A) → IsSorted le ys → IsSorted le (insert_sorted le x ys)
    unfolding insert_sorted
    insert_sorted-IsSorted x [] s = tt
    insert_sorted-IsSorted x (y ∷ ys) s = elim (Bool-cases (le x y)) [
      | inl e ↦ rw e (e, s)
      | inr e ↦ rw e (insert_below y x ys (ground (arith, total x y)) s tt)
    ]

    pub sort-IsSorted : (xs : List A) → IsSorted le (sort le xs)
    unfolding sort
    sort-IsSorted [] = tt
    sort-IsSorted (x ∷ xs) = insert_sorted-IsSorted x (sort le xs) (sort-IsSorted xs)
