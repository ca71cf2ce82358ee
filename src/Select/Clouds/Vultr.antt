-- ===== src/Select/Clouds/Vultr.antt =====
-- internal/provider/vultr/selectplan.go: plans by price.
use pandion.Prelude.{
  ℕ, String, Bool, true, false, not, ◌&&◌, ◌||◌, List, [], ◌∷◌, arith, ltb, leb, str_eq,
  if◌then◌else◌, select,
}
use pandion.Prelude.Unique.{contains, Gathered, gather_all, nothing_gathered}
use pandion.Select.{Ordered}
use pandion.Select.Locations.{order_locations}
use pandion.Select.Prices.{cheapest_first, Cheapest, cheapest_first-Cheapest}

pub record PlanInfo (F : Type 0) : Type 0 where
  pub id : String
  pub vcpu : ℕ
  pub ram_mb : ℕ
  pub monthly_cost : F
  pub regions : List String
  pub gpu : Bool

module _ {F : Type 0} where
  -- The body of the loop over the plans.
  unfoldable pub is_orderable : ℕ → ℕ → String → PlanInfo F → Bool
  is_orderable min_cores min_ram_mb region p =
      if p.gpu
      then false
      else if ltb p.vcpu min_cores || ltb p.ram_mb min_ram_mb
      then false
      else if not (str_eq region "") && not (contains p.regions region)
      then false
      else true

  unfoldable pub select_plans : Ordered F → List (PlanInfo F) → ℕ → ℕ → String → List (PlanInfo F)
  unfolding is_orderable
  select_plans o plans min_cores min_ram_mb region =
      cheapest_first o (λ p. p.monthly_cost) (λ p. p.id)
        (select (is_orderable min_cores min_ram_mb region) plans)

  abbrev gather_regions : List (PlanInfo F) → Gathered → Gathered
  gather_regions [] g = g
  gather_regions (p ∷ ps) g = gather_regions ps (gather_all (λ r. true) p.regions g)

  unfoldable pub regions_of : List (PlanInfo F) → List String
  regions_of plans = (gather_regions plans nothing_gathered).out

unfoldable pub order_regions : List String → List String → Bool → List String
unfolding order_locations
order_regions all preferred strict = order_locations all preferred strict

module _ {F : Type 0} where
  -- What the request asks of a plan.
  abbrev pub meets : ℕ → ℕ → String → PlanInfo F → Bool
  meets min_cores min_ram_mb region p =
      not p.gpu
      && leb min_cores p.vcpu
      && leb min_ram_mb p.ram_mb
      && (str_eq region "" || contains p.regions region)

  -- Vultr's selected plans are those without a GPU that have the cores and the memory and can be
  -- ordered in the region, where one is named; none of them is cheaper than the first.
  pub select_plans-Cheapest :
      (o : Ordered F) (plans : List (PlanInfo F)) (min_cores min_ram_mb : ℕ) (region : String)
      → Cheapest o
          (λ p. p.monthly_cost)
          (select (meets min_cores min_ram_mb region) plans)
          (select_plans o plans min_cores min_ram_mb region)
  unfolding select_plans is_orderable
  select_plans-Cheapest o plans min_cores min_ram_mb region =
      cheapest_first-Cheapest o (λ p. p.monthly_cost) (λ p. p.id)
        (is_orderable min_cores min_ram_mb region) (meets min_cores min_ram_mb region) plans
        (λ p. ground arith)
