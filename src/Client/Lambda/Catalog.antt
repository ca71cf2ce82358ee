-- ===== src/Client/Lambda/Catalog.antt =====
-- gpu.go: the offerings of GPUs as the cloud lists them, the one that a request resolves to, and
-- prices.
use pandion.Prelude.{String, List, none, some, str_eq, if◌then◌else◌}
use pandion.Provider.{Context, ServerSpec, GpuReq, GpuOffering, Float, Money, Pricer, wanted}
use pandion.Select.{Ordered}
use pandion.Select.Prices.{cheapest_first}
use pandion.Client.{Call, pure, fail, ◌>>=◌}
use pandion.Client.Lambda.{Api, Config, Client, Offering, get_types}
use pandion.Client.Lambda.Http.{request}
use pandion.Client.Lambda.Gpu.{to_offerings, first_offering, offering_named, price_of}

module _ {F C : Type 0} (fl : Float F) (o : Ordered F) (api : Api C) (cfg : Config)
    (ctx : Context) where
  unfoldable pub instance_types : Call (Client C) (List Offering)
  instance_types = do a ← request api cfg ctx get_types; pure a.types

  unfoldable pub gpu_offerings : Call (Client C) (List (GpuOffering F))
  unfolding instance_types to_offerings
  gpu_offerings = do
    types ← instance_types
    pure (cheapest_first o (λ g. g.hourly.amount) (λ g. g.server_type) (to_offerings fl types))

  unfoldable pub resolve_gpu_type : GpuReq → List String → Call (Client C) (String × String)
  unfolding gpu_offerings first_offering
  resolve_gpu_type req pref = do
    offs ← gpu_offerings
    elim (first_offering fl req pref offs) [
      | none ↦ fail "no GPU offering with capacity matches"
      | some found ↦ pure found
    ]

  unfoldable pub offering_for : String → Call (Client C) (GpuOffering F)
  unfolding gpu_offerings offering_named
  offering_for name = do
    offs ← gpu_offerings
    elim (offering_named fl name offs) [
      | none ↦ fail "unknown or unavailable instance type"
      | some g ↦ pure g
    ]

  unfoldable pub hourly_price : String → Call (Client C) (Money F)
  unfolding instance_types price_of
  hourly_price name = do types ← instance_types; pure (price_of fl name types)

  -- The type that is priced.
  unfoldable pub type_for : ServerSpec → Call (Client C) String
  unfolding resolve_gpu_type wanted
  type_for spec =
      if str_eq spec.type ""
      then (if wanted spec.gpu
          then (do found ← resolve_gpu_type spec.gpu spec.region_pref; pure found.0)
          else fail "cannot price a non-GPU request")
      else pure spec.type

  unfoldable pub estimate_hourly : ServerSpec → Call (Client C) (Money F)
  unfolding type_for hourly_price
  estimate_hourly spec = do name ← type_for spec; hourly_price name

abbrev pub pricer : {F C : Type 0} → Float F → Ordered F → Api C → Config → Pricer F (Client C)
pricer fl o api cfg = record {
  hourly_price = λ ctx name region. hourly_price fl o api cfg ctx name;
  estimate_hourly = λ ctx spec. estimate_hourly fl o api cfg ctx spec;
}
