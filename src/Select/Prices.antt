-- ===== src/Select/Prices.antt =====
-- The comparison by which the packages of the clouds sort what they may order: by cost, then by
-- name.
use pandion.Prelude.{
  String, Bool, true, false, not, List, [], ◌∷◌, ◌≡◌, refl, sym, ◌⊎◌, inl, inr, arith,
  if◌then◌else◌, Bool-cases, All, select, select-same, subst,
}
use pandion.Prelude.Order.{
  str_ltb, str_ltb_asym, sort, insert_sorted, IsSorted, sort-IsSorted, sort-perm,
}
use mathlib.Core.List.{Perm}
use pandion.Select.{Ordered}

module _ {F A : Type 0} (o : Ordered F) (cost : A → F) (name : A → String) where
  -- The function that sort.Slice is given.
  unfoldable pub sorts_before : A → A → Bool
  sorts_before x y =
      if o.differs (cost x) (cost y) then o.less (cost x) (cost y) else str_ltb (name x) (name y)

  unfoldable pub cheapest_first : List A → List A
  unfolding sorts_before
  cheapest_first xs = sort (λ x y. not (sorts_before y x)) xs

module _ {A : Type 0} (le : A → A → Bool) (P : A → Type 0) where
  All-insert_sorted : (x : A) (ys : List A) → All P (insert_sorted le x ys) → P x × All P ys
  unfolding insert_sorted
  All-insert_sorted x [] h = h
  All-insert_sorted x (y ∷ ys) h = elim (Bool-cases (le x y)) [
    | inl e ↦ (let k = rw e at h in (k.0, k.1))
    | inr e ↦ let k = rw e at h in let (hx, hys) = All-insert_sorted x ys k.1 in (hx, (k.0, hys))
  ]

  -- What holds of the sorted entries holds of the entries.
  All-sort_back : (xs : List A) → All P (sort le xs) → All P xs
  unfolding sort
  All-sort_back [] h = tt
  All-sort_back (x ∷ xs) h =
      let (hx, hxs) = All-insert_sorted x (sort le xs) h in (hx, All-sort_back xs hxs)

  All-insert_into : (x : A) (ys : List A) → P x → All P ys → All P (insert_sorted le x ys)
  unfolding insert_sorted
  All-insert_into x [] h k = (h, tt)
  All-insert_into x (y ∷ ys) h k = elim (Bool-cases (le x y)) [
    | inl e ↦ rw e (h, k)
    | inr e ↦ rw e (k.0, All-insert_into x ys h k.1)
  ]

  All-sort : (xs : List A) → All P xs → All P (sort le xs)
  unfolding sort
  All-sort [] h = tt
  All-sort (x ∷ xs) h = All-insert_into x (sort le xs) h.0 (All-sort xs h.1)

module _ {F A : Type 0} (o : Ordered F) (cost : A → F) (name : A → String) where
  not_before_total :
      (x y : A)
      → (not (sorts_before o cost name y x) ≡ true) ⊎ (not (sorts_before o cost name x y) ≡ true)
  unfolding sorts_before
  not_before_total x y = ground (
    arith,
    o.differs_sym (cost x) (cost y),
    o.less_asym (cost x) (cost y),
    str_ltb_asym (name x) (name y),
  )

  no_cheaper :
      (x y : A) → not (sorts_before o cost name y x) ≡ true → o.less (cost y) (cost x) ≡ false
  unfolding sorts_before
  no_cheaper x y h = ground (arith, h, o.less_differs (cost y) (cost x))

  none_cheaper :
      (x : A) (ys : List A)
      → IsSorted (λ a b. not (sorts_before o cost name b a)) (x ∷ ys)
      → All (λ y. o.less (cost y) (cost x) ≡ false) ys
  none_cheaper x [] h = tt
  none_cheaper x (y ∷ ys) (h, k) = (no_cheaper x y h, raise ys (none_cheaper y ys k))
    where
      raise :
          (zs : List A)
          → All (λ z. o.less (cost z) (cost y) ≡ false) zs
          → All (λ z. o.less (cost z) (cost x) ≡ false) zs
      raise [] h' = tt
      raise (z ∷ zs) (h', k') =
          (o.not_less_trans (cost x) (cost y) (cost z) (no_cheaper x y h) h', raise zs k')

  -- Nothing that was sorted is cheaper than what comes first.
  head-cheapest_first :
      (xs : List A) (x : A) (rest : List A)
      → cheapest_first o cost name xs ≡ x ∷ rest
      → All (λ y. o.less (cost y) (cost x) ≡ false) xs
  unfolding cheapest_first
  head-cheapest_first xs x rest e =
      let le = λ (a b : A). not (sorts_before o cost name b a) in
      let s = subst (IsSorted le) e (sort-IsSorted le (λ a b. not_before_total a b) xs) in
      let self : o.less (cost x) (cost x) ≡ false = ground (arith, o.less_asym (cost x) (cost x)) in
      All-sort_back le (λ y. o.less (cost y) (cost x) ≡ false) xs
        (subst (All (λ y. o.less (cost y) (cost x) ≡ false)) (sym e) (self, none_cheaper x rest s))

-- A list with the same entries as another, the first of them one of the cheapest.
abbrev pub Cheapest : {F A : Type 0} → Ordered F → (A → F) → List A → List A → Type 0
Cheapest o cost xs [] = Perm [] xs
Cheapest o cost xs (x ∷ rest) = Perm (x ∷ rest) xs × All (λ y. o.less (cost y) (cost x) ≡ false) xs

module _ {F A : Type 0} (o : Ordered F) (cost : A → F) (name : A → String) where
  Cheapest-of :
      (xs ys : List A) → cheapest_first o cost name xs ≡ ys → Perm ys xs → Cheapest o cost xs ys
  Cheapest-of xs [] e p = p
  Cheapest-of xs (y ∷ ys) e p = (p, head-cheapest_first o cost name xs y ys e)

  -- The sorted entries of those that pass a test, against another form of the test.
  pub cheapest_first-Cheapest :
      (ok meets : A → Bool) (xs : List A)
      → ((x : A) → ok x ≡ meets x)
      → Cheapest o cost (select meets xs) (cheapest_first o cost name (select ok xs))
  unfolding cheapest_first
  cheapest_first-Cheapest ok meets xs h = rw (select-same ok meets xs h) (
      Cheapest-of (select meets xs) (cheapest_first o cost name (select meets xs)) refl
        (sort-perm (λ x y. not (sorts_before o cost name y x)) (select meets xs)))
