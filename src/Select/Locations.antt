-- ===== src/Select/Locations.antt =====
-- The order in which locations are tried: orderLocations (hetzner), orderRegions (digitalocean,
-- linode, vultr), orderZones (scaleway), and hetzner's search over types and locations.
pub mod Ordering
pub mod Search
use pandion.Prelude.{ℕ, String, Bool, true, List, [], ◌∷◌, ◌++◌, str_eq, if◌then◌else◌}
use pandion.Prelude.Unique.{Gathered, nothing_gathered, gather_all, contains}

module _ (all preferred : List String) where
  -- The preferred locations that exist.
  unfoldable pub preferred_first : Gathered
  preferred_first = gather_all (contains all) preferred nothing_gathered

  unfoldable pub order_locations : Bool → List String
  unfolding preferred_first
  order_locations strict =
      if strict then preferred_first.out else (gather_all (λ a. true) all preferred_first).out

-- The round of orderZones for each preferred zone.
unfoldable pub gather_zones : List String → List String → Gathered → Gathered
gather_zones all [] g = g
gather_zones all (p ∷ ps) g = gather_zones all ps (gather_all (λ a. str_eq a p) all g)

unfoldable pub order_zones : List String → List String → List String
unfolding gather_zones
order_zones all preferred =
    (gather_all (λ a. true) all (gather_zones all preferred nothing_gathered)).out

pub data SearchMode : Type 0 where
  region_first cheapest_type : SearchMode

-- The inner loops of searchPlan.
abbrev pub at_location : String → List String → List (String × String)
at_location l [] = []
at_location l (t ∷ ts) = (t, l) ∷ at_location l ts

abbrev pub of_type : String → List String → List (String × String)
of_type t [] = []
of_type t (l ∷ ls) = (t, l) ∷ of_type t ls

unfoldable pub search_plan : List String → List String → SearchMode → List (String × String)
search_plan [] locs SearchMode.cheapest_type = []
search_plan (t ∷ ts) locs SearchMode.cheapest_type =
    of_type t locs ++ search_plan ts locs SearchMode.cheapest_type
search_plan types [] SearchMode.region_first = []
search_plan types (l ∷ ls) SearchMode.region_first =
    at_location l types ++ search_plan types ls SearchMode.region_first
