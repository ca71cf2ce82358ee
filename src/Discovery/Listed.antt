-- ===== src/Discovery/Listed.antt =====
-- discovery.go: the sorted names are the same for each order in which the map's entries are listed.
use mathlib.Core.List.{Permᴰ}
use pandion.Prelude.{
  String, Bool, true, false, List, [], ◌∷◌, ◌≡◌, refl, sym, ap, ◌∙◌, ◌⊎◌, inl, inr, arith, map,
  Bool-cases,
}
use pandion.Prelude.Dict.{Dict}
use pandion.Prelude.Order.{
  sort, insert_sorted, str_leb, str_leb_total, str_leb_antisym, str_leb_trans,
}
use pandion.Discovery.{names_of}

module _ {ℓ} {A : Type ℓ} (le : A → A → Bool)
    (total : (a b : A) → (le a b ≡ true) ⊎ (le b a ≡ true))
    (antisym : (a b : A) → le a b ≡ true → le b a ≡ true → a ≡ b)
    (trans : (a b c : A) → le a b ≡ true → le b c ≡ true → le a c ≡ true) where
  insert_sorted-skip :
      (x z : A) (l : List A)
      → le x z ≡ false
      → insert_sorted le x (z ∷ l) ≡ z ∷ insert_sorted le x l
  unfolding insert_sorted
  insert_sorted-skip x z l h = rw h refl

  insert_below :
      (x y : A) (l : List A)
      → le x y ≡ true
      → le y x ≡ false
      → insert_sorted le x (insert_sorted le y l) ≡ insert_sorted le y (insert_sorted le x l)
  unfolding insert_sorted
  insert_below x y [] e f = rw (e, f) refl
  insert_below x y (z ∷ zs) e f = elim (Bool-cases (le y z)) [
    | inl g ↦ rw (g, e, trans x y z e g, f, g) refl
    | inr g ↦ elim (Bool-cases (le x z)) [
      | inl h ↦ rw (g, h, f, g) refl
      | inr h ↦
          ap (insert_sorted le x) (insert_sorted-skip y z zs g)
          ∙ insert_sorted-skip x z (insert_sorted le y zs) h
          ∙ ap (λ r. z ∷ r) (insert_below x y zs e f)
          ∙ sym (insert_sorted-skip y z (insert_sorted le x zs) g)
          ∙ ap (insert_sorted le y) (sym (insert_sorted-skip x z zs h))
    ]
  ]

  insert_sorted_comm :
      (x y : A) (l : List A)
      → insert_sorted le x (insert_sorted le y l) ≡ insert_sorted le y (insert_sorted le x l)
  insert_sorted_comm x y l = elim (Bool-cases (le x y)) [
    | inl e ↦ elim (Bool-cases (le y x)) [
      | inl f ↦
          ap (λ a. insert_sorted le a (insert_sorted le y l)) (antisym x y e f)
          ∙ ap (λ a. insert_sorted le y (insert_sorted le a l)) (sym (antisym x y e f))
      | inr f ↦ insert_below x y l e f
    ]
    | inr e ↦ sym (insert_below y x l (ground (arith, e, total x y)) e)
  ]

  sort-same : {xs ys : List A} → Permᴰ xs ys → sort le xs ≡ sort le ys
  unfolding sort
  sort-same Permᴰ.nil = refl
  sort-same (Permᴰ.cons {a = a} {l₂ = ys} e p) =
      ap (insert_sorted le a) (sort-same p) ∙ ap (λ b. insert_sorted le b (sort le ys)) e
  sort-same (Permᴰ.swap {a = a} {b = b} {a' = c} {l = l} e f) =
      insert_sorted_comm a b (sort le l)
      ∙ ap (λ d. insert_sorted le d (insert_sorted le a (sort le l))) f
      ∙ ap (λ d. insert_sorted le c (insert_sorted le d (sort le l))) e
  sort-same (Permᴰ.trans p q) = sort-same p ∙ sort-same q

map-Permᴰ {ℓ κ} :
    {A : Type ℓ} {B : Type κ} (f : A → B) {xs ys : List A}
    → Permᴰ xs ys
    → Permᴰ (map f xs) (map f ys)
map-Permᴰ f Permᴰ.nil = Permᴰ.nil
map-Permᴰ f (Permᴰ.cons e p) = Permᴰ.cons (ap f e) (map-Permᴰ f p)
map-Permᴰ f (Permᴰ.swap d e) = Permᴰ.swap (ap f d) (ap f e)
map-Permᴰ f (Permᴰ.trans p q) = Permᴰ.trans (map-Permᴰ f p) (map-Permᴰ f q)

-- The names of a map, listed in another order.
pub names_of-same : (ips jps : Dict String) → Permᴰ ips jps → names_of ips ≡ names_of jps
unfolding names_of
names_of-same ips jps p =
    sort-same str_leb str_leb_total str_leb_antisym str_leb_trans (map-Permᴰ (λ e. e.0) p)
