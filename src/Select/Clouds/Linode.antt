-- ===== src/Select/Clouds/Linode.antt =====
-- internal/provider/linode/selecttype.go: types by price.
use pandion.Prelude.{
  ℕ, none, some, String, Bool, true, false, not, ◌&&◌, ◌||◌, List, arith, ltb, leb, if◌then◌else◌,
  select,
}
use pandion.Prelude.Dict.{Dict, lookup}
use pandion.Select.{Ordered}
use pandion.Select.Locations.{order_locations}
use pandion.Select.Prices.{cheapest_first, Cheapest, cheapest_first-Cheapest}

pub record TypeInfo (F : Type 0) : Type 0 where
  pub id : String
  pub vcpu : ℕ
  pub mem_mb : ℕ
  pub hourly_usd : F
  pub region_price : Dict F
  pub gpu : Bool

module _ {F : Type 0} where
  -- The price in a region: its own, where that is above zero.
  unfoldable pub hourly_in : Ordered F → TypeInfo F → String → F
  hourly_in o t region = elim (lookup t.region_price region) [
    | none ↦ t.hourly_usd
    | some p ↦ if o.less (o.of_ℕ 0) p then p else t.hourly_usd
  ]

  -- The body of the loop over the types.
  unfoldable pub is_orderable : ℕ → ℕ → TypeInfo F → Bool
  is_orderable min_cores min_ram_mb t =
      if t.gpu
      then false
      else if ltb t.vcpu min_cores || ltb t.mem_mb min_ram_mb
      then false
      else true

  unfoldable pub select_types : Ordered F → List (TypeInfo F) → ℕ → ℕ → List (TypeInfo F)
  unfolding is_orderable
  select_types o types min_cores min_ram_mb =
      cheapest_first o (λ t. t.hourly_usd) (λ t. t.id)
        (select (is_orderable min_cores min_ram_mb) types)

unfoldable pub order_regions : List String → List String → Bool → List String
unfolding order_locations
order_regions all preferred strict = order_locations all preferred strict

module _ {F : Type 0} where
  -- What the request asks of a type.
  abbrev pub meets : ℕ → ℕ → TypeInfo F → Bool
  meets min_cores min_ram_mb t = not t.gpu && leb min_cores t.vcpu && leb min_ram_mb t.mem_mb

  -- Linode's selected types are those without a GPU that have the cores and the memory; none of
  -- them is cheaper than the first.
  pub linode_types-Cheapest :
      (o : Ordered F) (types : List (TypeInfo F)) (min_cores min_ram_mb : ℕ)
      → Cheapest o
          (λ t. t.hourly_usd)
          (select (meets min_cores min_ram_mb) types)
          (select_types o types min_cores min_ram_mb)
  unfolding select_types is_orderable
  linode_types-Cheapest o types min_cores min_ram_mb =
      cheapest_first-Cheapest o (λ t. t.hourly_usd) (λ t. t.id) (is_orderable min_cores min_ram_mb)
        (meets min_cores min_ram_mb) types (λ t. ground arith)
