-- ===== src/Select/Clouds/Digitalocean.antt =====
-- internal/provider/digitalocean/selectsize.go: sizes by price.
use pandion.Prelude.{
  ℕ, String, Bool, true, false, not, ◌&&◌, ◌||◌, List, [], ◌∷◌, arith, ltb, leb, str_eq,
  if◌then◌else◌, select,
}
use pandion.Prelude.Unique.{contains, Gathered, gather_all, nothing_gathered}
use pandion.Select.{Ordered}
use pandion.Select.Locations.{order_locations}
use pandion.Select.Prices.{cheapest_first, Cheapest, cheapest_first-Cheapest}

pub record SizeInfo (F : Type 0) : Type 0 where
  pub slug : String
  pub vcpus : ℕ
  pub mem_mb : ℕ
  pub price_hourly : F
  pub regions : List String
  pub available : Bool
  pub gpu : Bool
  pub gpu_model : String
  pub gpu_count : ℕ
  pub gpu_vram : ℕ

module _ {F : Type 0} where
  -- The body of the loop over the sizes.
  unfoldable pub is_orderable : ℕ → ℕ → String → SizeInfo F → Bool
  is_orderable min_cores min_ram_mb region s =
      if not s.available || s.gpu
      then false
      else if ltb s.vcpus min_cores || ltb s.mem_mb min_ram_mb
      then false
      else if not (str_eq region "") && not (contains s.regions region)
      then false
      else true

  unfoldable pub select_sizes : Ordered F → List (SizeInfo F) → ℕ → ℕ → String → List (SizeInfo F)
  unfolding is_orderable
  select_sizes o sizes min_cores min_ram_mb region =
      cheapest_first o (λ s. s.price_hourly) (λ s. s.slug)
        (select (is_orderable min_cores min_ram_mb region) sizes)

  abbrev gather_regions : List (SizeInfo F) → Gathered → Gathered
  gather_regions [] g = g
  gather_regions (s ∷ ss) g = gather_regions ss (gather_all (λ r. true) s.regions g)

  unfoldable pub regions_of : List (SizeInfo F) → List String
  regions_of sizes = (gather_regions sizes nothing_gathered).out

unfoldable pub order_regions : List String → List String → Bool → List String
unfolding order_locations
order_regions all preferred strict = order_locations all preferred strict

module _ {F : Type 0} where
  -- What the request asks of a size.
  abbrev pub meets : ℕ → ℕ → String → SizeInfo F → Bool
  meets min_cores min_ram_mb region s =
      s.available
      && not s.gpu
      && leb min_cores s.vcpus
      && leb min_ram_mb s.mem_mb
      && (str_eq region "" || contains s.regions region)

  -- DigitalOcean's selected sizes are those that are available, without a GPU, that have the cores
  -- and the memory and can be ordered in the region, where one is named; none is cheaper than the
  -- first.
  pub select_sizes-Cheapest :
      (o : Ordered F) (sizes : List (SizeInfo F)) (min_cores min_ram_mb : ℕ) (region : String)
      → Cheapest o
          (λ s. s.price_hourly)
          (select (meets min_cores min_ram_mb region) sizes)
          (select_sizes o sizes min_cores min_ram_mb region)
  unfolding select_sizes is_orderable
  select_sizes-Cheapest o sizes min_cores min_ram_mb region =
      cheapest_first-Cheapest o (λ s. s.price_hourly) (λ s. s.slug)
        (is_orderable min_cores min_ram_mb region) (meets min_cores min_ram_mb region) sizes
        (λ s. ground arith)
