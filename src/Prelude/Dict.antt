-- ===== src/Prelude/Dict.antt =====
-- Go maps with string keys, as association lists. A loop over a map meets its entries in the order
-- of the list, which stands for any order.
use Prim.Native.String.{String}
use mathlib.Core.Path.{◌≡◌, refl}
use mathlib.Core.List.{List, [], ◌∷◌, map}
use mathlib.Core.Option.{Option, none, some}
use native.Mathlib.Omega.{arith}
use text.Mathlib.TextEquality.{eq_iff}
use pandion.Prelude.Tests.{str_eq, if◌then◌else◌}

abbrev pub Dict {ℓ} : Type ℓ → Type ℓ
Dict V = List (String × V)

module _ {ℓ} {V : Type ℓ} where
  -- m[k], with none for a key that is not there
  unfoldable pub lookup : Dict V → String → Option V
  lookup [] k = none
  lookup ((j, v) ∷ m) k = if str_eq j k then some v else lookup m k

  -- delete(m, k)
  unfoldable pub remove : Dict V → String → Dict V
  remove [] k = []
  remove ((j, v) ∷ m) k = let rest = remove m k in if str_eq j k then rest else (j, v) ∷ rest

  -- m[k] = v
  unfoldable pub insert : Dict V → String → V → Dict V
  insert [] k v = (k, v) ∷ []
  insert ((j, w) ∷ m) k v =
      let rest = insert m k v in if str_eq j k then (k, v) ∷ m else (j, w) ∷ rest

  abbrev pub values : Dict V → List V
  values = map (λ e. e.1)

  pub lookup-insert :
      (m : Dict V) (k j : String) (v : V)
      → lookup (insert m k v) j ≡ (if str_eq k j then some v else lookup m j)
  unfolding lookup insert
  lookup-insert [] k j v = refl
  lookup-insert ((i, w) ∷ m) k j v =
      ground (arith, eq_iff k j, eq_iff i k, eq_iff i j, lookup-insert m k j v)

  pub lookup-remove :
      (m : Dict V) (k j : String)
      → lookup (remove m k) j ≡ (if str_eq k j then none else lookup m j)
  unfolding lookup remove
  lookup-remove [] k j = ground arith
  lookup-remove ((i, w) ∷ m) k j =
      ground (arith, eq_iff k j, eq_iff i k, eq_iff i j, lookup-remove m k j)

module _ {ℓ} {V : Type ℓ} where
  -- No key stands in a map twice.
  abbrev pub Distinct : Dict V → Type ℓ
  Distinct [] = Unit
  Distinct ((k, v) ∷ m) = (lookup m k ≡ none) × Distinct m

  pub insert-Distinct : (m : Dict V) (k : String) (v : V) → Distinct m → Distinct (insert m k v)
  unfolding insert lookup
  insert-Distinct [] k v d = (refl, tt)
  insert-Distinct ((j, w) ∷ m) k v d =
      ground (arith, insert-Distinct m k v d.1, lookup-insert m k j v, eq_iff j k, eq_iff k j)

module _ {ℓ κ} {V : Type ℓ} (P : String → V → Type κ) where
  -- A property of every entry.
  abbrev pub Entries : Dict V → Type κ
  Entries [] = Unit
  Entries ((k, v) ∷ m) = P k v × Entries m

  pub Entries-lookup : (m : Dict V) (k : String) (v : V) → Entries m → lookup m k ≡ some v → P k v
  unfolding lookup
  Entries-lookup [] k v h e = absurd (ground (arith, e))
  Entries-lookup ((j, w) ∷ m) k v h e = ground (arith, h, e, eq_iff j k, Entries-lookup m k v h.1)

  pub insert-Entries :
      (m : Dict V) (k : String) (v : V) → Entries m → P k v → Entries (insert m k v)
  unfolding insert
  insert-Entries [] k v h p = (p, tt)
  insert-Entries ((j, w) ∷ m) k v h p = ground (arith, h, p, insert-Entries m k v h.1 p)

module _ {ℓ} {V : Type ℓ} where
  Entries-kept :
      (k : String) (v : V) (m l : Dict V)
      → lookup m k ≡ none
      → Entries (λ j w. lookup m j ≡ some w) l
      → Entries (λ j w. lookup ((k, v) ∷ m) j ≡ some w) l
  unfolding lookup
  Entries-kept k v m [] h e = tt
  Entries-kept k v m ((j, w) ∷ l) h e =
      (ground (arith, h, e.0, eq_iff k j), Entries-kept k v m l h e.1)

  -- Where no key stands twice, each entry is the one that is looked up.
  pub Entries-Distinct : (m : Dict V) → Distinct m → Entries (λ k v. lookup m k ≡ some v) m
  unfolding lookup
  Entries-Distinct [] d = tt
  Entries-Distinct ((k, v) ∷ m) d =
      (ground (arith, eq_iff k k), Entries-kept k v m m d.0 (Entries-Distinct m d.1))

pub ruleset dict_laws = (lookup-insert, lookup-remove)
