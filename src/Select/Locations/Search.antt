-- ===== src/Select/Locations/Search.antt =====
-- The order of hetzner's search.
use pandion.Prelude.{
  ℕ, zero, suc, ◌+◌, ◌*◌, String, List, [], ◌∷◌, ◌++◌, some, ◌≡◌, refl, ap, ◌∙◌, arith, length,
  get_elem?,
}
use pandion.Select.Locations.{SearchMode, at_location, of_type, search_plan}

get_elem?-append_right :
    {A : Type 0} (xs ys : List A) (i k : ℕ)
    → k ≡ length xs + i
    → get_elem? (xs ++ ys) k ≡ get_elem? ys i
get_elem?-append_right [] ys i k e = ap (get_elem? ys) (omega (arith, e))
get_elem?-append_right (x ∷ xs) ys i zero e = absurd (omega (arith, e))
get_elem?-append_right (x ∷ xs) ys i (suc k) e = get_elem?-append_right xs ys i k (omega (arith, e))

get_elem?-append_left :
    {A : Type 0} (xs ys : List A) (i : ℕ) (a : A)
    → get_elem? xs i ≡ some a
    → get_elem? (xs ++ ys) i ≡ some a
get_elem?-append_left [] ys i a h = absurd (ground (arith, h))
get_elem?-append_left (x ∷ xs) ys zero a h = h
get_elem?-append_left (x ∷ xs) ys (suc i) a h = get_elem?-append_left xs ys i a h

length-at_location : (l : String) (ts : List String) → length (at_location l ts) ≡ length ts
length-at_location l [] = refl
length-at_location l (t ∷ ts) = ap suc (length-at_location l ts)

length-of_type : (t : String) (ls : List String) → length (of_type t ls) ≡ length ls
length-of_type t [] = refl
length-of_type t (l ∷ ls) = ap suc (length-of_type t ls)

get_elem?-at_location :
    (l : String) (ts : List String) (i : ℕ) (t : String)
    → get_elem? ts i ≡ some t
    → get_elem? (at_location l ts) i ≡ some (t, l)
get_elem?-at_location l [] i t h = absurd (ground (arith, h))
get_elem?-at_location l (x ∷ ts) zero t h = ground (arith, h)
get_elem?-at_location l (x ∷ ts) (suc i) t h = get_elem?-at_location l ts i t h

get_elem?-of_type :
    (t : String) (ls : List String) (i : ℕ) (l : String)
    → get_elem? ls i ≡ some l
    → get_elem? (of_type t ls) i ≡ some (t, l)
get_elem?-of_type t [] i l h = absurd (ground (arith, h))
get_elem?-of_type t (x ∷ ls) zero l h = ground (arith, h)
get_elem?-of_type t (x ∷ ls) (suc i) l h = get_elem?-of_type t ls i l h

region_first_at :
    (types locs : List String) (i j k : ℕ) (t l : String)
    → k ≡ j * length types + i
    → get_elem? types i ≡ some t
    → get_elem? locs j ≡ some l
    → get_elem? (search_plan types locs SearchMode.region_first) k ≡ some (t, l)
unfolding search_plan
region_first_at types [] i j k t l e h n = absurd (ground (arith, n))
region_first_at [] (x ∷ locs) i j k t l e h n = absurd (ground (arith, h))
region_first_at (y ∷ ts) (x ∷ locs) i zero k t l e h n =
    let rest = search_plan (y ∷ ts) locs SearchMode.region_first in
    let here =
      get_elem?-append_left (at_location x (y ∷ ts)) rest i (t, x)
        (get_elem?-at_location x (y ∷ ts) i t h) in
    ap (get_elem? (at_location x (y ∷ ts) ++ rest)) (omega (arith, e)) ∙ here ∙ ground (arith, n)
region_first_at (y ∷ ts) (x ∷ locs) i (suc j) k t l e h n =
    let len = length-at_location x (y ∷ ts) in
    get_elem?-append_right (at_location x (y ∷ ts))
      (search_plan (y ∷ ts) locs SearchMode.region_first) (j * length (y ∷ ts) + i) k
      (grind (arith, e, len))
    ∙ region_first_at (y ∷ ts) locs i j (j * length (y ∷ ts) + i) t l refl h n

cheapest_type_at :
    (types locs : List String) (i j k : ℕ) (t l : String)
    → k ≡ i * length locs + j
    → get_elem? types i ≡ some t
    → get_elem? locs j ≡ some l
    → get_elem? (search_plan types locs SearchMode.cheapest_type) k ≡ some (t, l)
unfolding search_plan
cheapest_type_at [] locs i j k t l e h n = absurd (ground (arith, h))
cheapest_type_at (y ∷ ts) locs zero j k t l e h n =
    let rest = search_plan ts locs SearchMode.cheapest_type in
    let here =
      get_elem?-append_left (of_type y locs) rest j (y, l) (get_elem?-of_type y locs j l n) in
    ap (get_elem? (of_type y locs ++ rest)) (omega (arith, e)) ∙ here ∙ ground (arith, h)
cheapest_type_at (y ∷ ts) locs (suc i) j k t l e h n =
    let len = length-of_type y locs in
    get_elem?-append_right (of_type y locs) (search_plan ts locs SearchMode.cheapest_type)
      (i * length locs + j) k (grind (arith, e, len))
    ∙ cheapest_type_at ts locs i j (i * length locs + j) t l refl h n

-- The search goes through every pair of a type and a location: region first, the types at a
-- location before the next location; cheapest type first, the locations for a type before the next
-- type.
pub search_plan-order :
    (types locs : List String) (i j : ℕ) (t l : String)
    → get_elem? types i ≡ some t
    → get_elem? locs j ≡ some l
    → (get_elem? (search_plan types locs SearchMode.region_first) (j * length types + i)
        ≡ some (t, l))
      × (get_elem? (search_plan types locs SearchMode.cheapest_type) (i * length locs + j)
          ≡ some (t, l))
search_plan-order types locs i j t l h n = (
  region_first_at types locs i j (j * length types + i) t l refl h n,
  cheapest_type_at types locs i j (i * length locs + j) t l refl h n,
)
