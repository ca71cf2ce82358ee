-- ===== src/Select/Clouds/Scaleway.antt =====
-- internal/provider/scaleway/selecttype.go: types by price.
use pandion.Prelude.{
  ℕ, String, Bool, true, false, not, ◌&&◌, ◌||◌, List, arith, ltb, leb, if◌then◌else◌, select,
}
use pandion.Select.{Ordered}
use pandion.Select.Prices.{cheapest_first, Cheapest, cheapest_first-Cheapest}

pub record TypeInfo (F : Type 0) : Type 0 where
  pub name : String
  pub n_cpus : ℕ
  pub ram_mb : ℕ
  pub hourly_eur : F
  pub gpu : Bool
  pub eos : Bool

module _ {F : Type 0} where
  -- The body of the loop over the types.
  unfoldable pub is_orderable : ℕ → ℕ → TypeInfo F → Bool
  is_orderable min_cores min_ram_mb t =
      if t.gpu || t.eos
      then false
      else if ltb t.n_cpus min_cores || ltb t.ram_mb min_ram_mb
      then false
      else true

  unfoldable pub select_types : Ordered F → List (TypeInfo F) → ℕ → ℕ → List (TypeInfo F)
  unfolding is_orderable
  select_types o types min_cores min_ram_mb =
      cheapest_first o (λ t. t.hourly_eur) (λ t. t.name)
        (select (is_orderable min_cores min_ram_mb) types)

module _ {F : Type 0} where
  -- What the request asks of a type.
  abbrev pub meets : ℕ → ℕ → TypeInfo F → Bool
  meets min_cores min_ram_mb t =
      not t.gpu && leb min_cores t.n_cpus && leb min_ram_mb t.ram_mb && not t.eos

  -- Scaleway's selected types are those without a GPU and not at the end of service that have the
  -- cores and the memory; none of them is cheaper than the first.
  pub scaleway_types-Cheapest :
      (o : Ordered F) (types : List (TypeInfo F)) (min_cores min_ram_mb : ℕ)
      → Cheapest o
          (λ t. t.hourly_eur)
          (select (meets min_cores min_ram_mb) types)
          (select_types o types min_cores min_ram_mb)
  unfolding select_types is_orderable
  scaleway_types-Cheapest o types min_cores min_ram_mb =
      cheapest_first-Cheapest o (λ t. t.hourly_eur) (λ t. t.name)
        (is_orderable min_cores min_ram_mb) (meets min_cores min_ram_mb) types (λ t. ground arith)
