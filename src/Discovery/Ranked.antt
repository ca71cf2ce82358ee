-- ===== src/Discovery/Ranked.antt =====
-- The ranks of a cluster's nodes.
use mathlib.Core.List.{Permᴰ}
use pandion.Prelude.{
  ℕ, zero, suc, ◌+◌, ◌<◌, String, true, List, [], ◌∷◌, some, ◌≡◌, ◌⊎◌, inl, inr, refl, sym, ap, ◌∙◌,
  arith, map, length, ◌↔◌, get_elem?, str_eq, eq_iff, if◌then◌else◌, Bool-cases,
}
use pandion.Prelude.Unique.{contains}
use pandion.Prelude.Dict.{Dict, lookup}
use pandion.Prelude.Order.{sort, insert_sorted, str_leb}
use pandion.Discovery.Listed.{names_of-same}
use pandion.Discovery.{names_of, rank_from, rank_of}

-- The rank found is one of before, or an index of the name.
rank_from-at :
    (ns : List String) (self : String) (i rank : ℕ)
    → (rank_from ns self i rank ≡ rank)
      ⊎ ((k : ℕ) × (rank_from ns self i rank ≡ i + k) × (get_elem? ns k ≡ some self))
unfolding rank_from
rank_from-at [] self i rank = inl refl
rank_from-at (n ∷ ns) self i rank =
    elim (rank_from-at ns self (i + 1) (if str_eq n self then i else rank)) [
      | inr (k, e, g) ↦ inr (suc k, omega (arith, e), g)
      | inl e ↦ elim (Bool-cases (str_eq n self)) [
        | inl h ↦ inr (zero, ground (arith, e, h), ground (arith, h, eq_iff n self))
        | inr h ↦ inl (ground (arith, e, h))
      ]
    ]

rank_from-found :
    (ns : List String) (self : String) (i rank : ℕ)
    → contains ns self ≡ true
    → (k : ℕ) × (rank_from ns self i rank ≡ i + k) × (get_elem? ns k ≡ some self)
unfolding rank_from
rank_from-found [] self i rank c = absurd (ground (arith, c))
rank_from-found (n ∷ ns) self i rank c = elim (Bool-cases (contains ns self)) [
  | inl h ↦
      let (k, e, g) = rank_from-found ns self (i + 1) (if str_eq n self then i else rank) h in
      (suc k, omega (arith, e), g)
  | inr h ↦
      let s : str_eq n self ≡ true = ground (arith, c, h) in
      elim (rank_from-at ns self (i + 1) (if str_eq n self then i else rank)) [
        | inr (k, e, g) ↦ (suc k, omega (arith, e), g)
        | inl e ↦ (zero, ground (arith, e, s), ground (arith, s, eq_iff n self))
      ]
]

contains-insert_sorted :
    (x : String) (xs : List String) (v : String)
    → contains (insert_sorted str_leb x xs) v ≡ contains (x ∷ xs) v
unfolding insert_sorted
contains-insert_sorted x [] v = refl
contains-insert_sorted x (y ∷ ys) v = ground (arith, contains-insert_sorted x ys v)

contains-sort : (xs : List String) (v : String) → contains (sort str_leb xs) v ≡ contains xs v
unfolding sort
contains-sort [] v = refl
contains-sort (x ∷ xs) v =
    ground (arith, contains-insert_sorted x (sort str_leb xs) v, contains-sort xs v)

contains-keys :
    (ips : Dict String) (v ip : String)
    → lookup ips v ≡ some ip
    → contains (map (λ e. e.0) ips) v ≡ true
unfolding lookup
contains-keys [] v ip h = absurd (ground (arith, h))
contains-keys ((k, x) ∷ ips) v ip h = ground (arith, h, contains-keys ips v ip)

get_elem?-lt : (xs : List String) (k : ℕ) (x : String) → get_elem? xs k ≡ some x → k < length xs
get_elem?-lt [] k x h = absurd (ground (arith, h))
get_elem?-lt (y ∷ ys) zero x h = omega arith
get_elem?-lt (y ∷ ys) (suc k) x h = omega (arith, get_elem?-lt ys k x h)

rank_of-at :
    (ips : Dict String) (a x : String)
    → lookup ips a ≡ some x
    → (rank_of ips a < length (names_of ips)) × (get_elem? (names_of ips) (rank_of ips a) ≡ some a)
unfolding names_of
rank_of-at ips a x h =
    let names = names_of ips in
    let known = contains-sort (map (λ e. e.0) ips) a ∙ contains-keys ips a x h in
    let (k, e, g) = rank_from-found names a 0 0 known in
    let rank_k : rank_of ips a ≡ k = omega (arith, e) in
    (omega (arith, rank_k, get_elem?-lt names k a g), ap (get_elem? names) rank_k ∙ g)

-- Each node of a cluster has a rank below the number of names, and the name at its rank is its own.
-- Two nodes that list the same map, each in an order of its own, have the same names, and only the
-- same node has the same rank: so the ranks form a group, whichever node computes them.
pub rank_of-injective :
    (ips jps : Dict String) (a b x y : String)
    → Permᴰ ips jps
    → lookup ips a ≡ some x
    → lookup jps b ≡ some y
    → (names_of ips ≡ names_of jps)
      × (rank_of ips a < length (names_of ips))
      × (get_elem? (names_of ips) (rank_of ips a) ≡ some a)
      × ((a ≡ b) ↔ (rank_of ips a ≡ rank_of jps b))
rank_of-injective ips jps a b x y listed ha hb =
    let same = names_of-same ips jps listed in
    let (below, at_a) = rank_of-at ips a x ha in
    let (_, at_b) = rank_of-at jps b y hb in
    (
      same,
      below,
      at_a,
      (
        λ e. ap (rank_of ips) e ∙ ap (λ names. rank_from names b 0 0) same,
        λ e. ground (
          arith,
          sym at_a
              ∙ ap (get_elem? (names_of ips)) e
              ∙ ap (λ names. get_elem? names (rank_of jps b)) same
              ∙ at_b,
        ),
      ),
    )
