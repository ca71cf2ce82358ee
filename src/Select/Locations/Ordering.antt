-- ===== src/Select/Locations/Ordering.antt =====
-- What the ordered locations are.
use pandion.Prelude.{
  String, Bool, true, false, ◌&&◌, ◌||◌, List, [], ◌∷◌, ◌++◌, ◌≡◌, sym, arith, str_eq, eq_iff, not,
  Bool-cases, inl, inr,
}
use mathlib.Core.List.{append_assoc, append-nil}
use pandion.Prelude.Unique.{
  Gathered, gather, gather_all, contains, unique, IsGathered, nothing_gathered,
  nothing_gathered-IsGathered, gather_all-IsGathered, contains-gather_all,
}
use pandion.Select.Locations.{preferred_first, order_locations, gather_zones, order_zones}

-- Gathering only adds at the end.
gather_all-append :
    (ok : String → Bool) (xs : List String) (g : Gathered)
    → (rest : List String) × ((gather_all ok xs g).out ≡ g.out ++ rest)
unfolding gather_all gather
gather_all-append ok [] g = ([], sym (append-nil g.out))
gather_all-append ok (x ∷ xs) g =
    let (rest, e) = gather_all-append ok xs (gather ok x g) in
    elim (Bool-cases (ok x && not (contains g.seen x))) [
      | inl new ↦ (x ∷ rest, ground (arith, new, e, append_assoc g.out (x ∷ []) rest))
      | inr old ↦ (rest, ground (arith, old, e))
    ]

preferred_first-IsGathered :
    (all preferred : List String) → IsGathered (preferred_first all preferred)
unfolding preferred_first
preferred_first-IsGathered all preferred =
    gather_all-IsGathered (contains all) preferred nothing_gathered nothing_gathered-IsGathered

-- The ordered locations name each location once. If strict, they are those that exist and are
-- preferred; if not, those that exist, and the strict ones come first.
pub order_locations-contains :
    (all preferred : List String) (strict : Bool)
    → (unique (order_locations all preferred strict) ≡ true)
      × ((v : String)
          → contains (order_locations all preferred strict) v
            ≡ (contains all v && (not strict || contains preferred v)))
      × ((rest : List String) × (order_locations all preferred false
            ≡ order_locations all preferred true ++ rest))
unfolding order_locations preferred_first
order_locations-contains all preferred true =
    let h = preferred_first-IsGathered all preferred in
    let g = preferred_first all preferred in
    (
      h.1,
      λ v. ground (
        arith,
        contains-gather_all (contains all) preferred nothing_gathered v nothing_gathered-IsGathered,
      ),
      gather_all-append (λ a. true) all g,
    )
order_locations-contains all preferred false =
    let h = preferred_first-IsGathered all preferred in
    let g = preferred_first all preferred in
    (
      (gather_all-IsGathered (λ a. true) all g h).1,
      λ v. ground (
        arith,
        contains-gather_all (λ a. true) all g v h,
        contains-gather_all (contains all) preferred nothing_gathered v nothing_gathered-IsGathered,
      ),
      gather_all-append (λ a. true) all g,
    )

gather_zones-IsGathered :
    (all ps : List String) (g : Gathered) → IsGathered g → IsGathered (gather_zones all ps g)
unfolding gather_zones
gather_zones-IsGathered all [] g h = h
gather_zones-IsGathered all (p ∷ ps) g h =
    gather_zones-IsGathered all ps (gather_all (λ a. str_eq a p) all g)
      (gather_all-IsGathered (λ a. str_eq a p) all g h)

contains-gather_zones :
    (all ps : List String) (g : Gathered) (v : String)
    → IsGathered g
    → contains (gather_zones all ps g).out v
      ≡ (contains g.out v || (contains all v && contains ps v))
unfolding gather_zones
contains-gather_zones all [] g v h = ground arith
contains-gather_zones all (p ∷ ps) g v h = ground (
  arith,
  eq_iff v p,
  eq_iff p v,
  contains-gather_all (λ a. str_eq a p) all g v h,
  contains-gather_zones all ps (gather_all (λ a. str_eq a p) all g) v
      (gather_all-IsGathered (λ a. str_eq a p) all g h),
)

-- The ordered zones are all the zones, each once.
pub order_zones-contains :
    (all preferred : List String)
    → (unique (order_zones all preferred) ≡ true)
      × ((v : String) → contains (order_zones all preferred) v ≡ contains all v)
unfolding order_zones
order_zones-contains all preferred =
    let g = gather_zones all preferred nothing_gathered in
    let h = gather_zones-IsGathered all preferred nothing_gathered nothing_gathered-IsGathered in
    let (same, once) = gather_all-IsGathered (λ a. true) all g h in
    (
      once,
      λ v. ground (
        arith,
        contains-gather_all (λ a. true) all g v h,
        contains-gather_zones all preferred nothing_gathered v nothing_gathered-IsGathered,
      ),
    )
