-- ===== src/Client/Linode/Catalog.antt =====
-- linode.go: the catalogs of types and regions, fetched once, and prices.
use pandion.Prelude.{
  ◌*◌, String, Bool, true, false, not, ◌&&◌, ◌||◌, List, [], ◌∷◌, Option, none, some, str_eq, ltb,
  if◌then◌else◌, map, select,
}
use pandion.Prelude.Dict.{Dict, insert}
use pandion.Prelude.Unique.{contains}
use pandion.Provider.{Context, ServerSpec, Float, Money, Pricer}
use pandion.Select.{Ordered}
use pandion.Select.Clouds.Linode.{TypeInfo, hourly_in, select_types}
use pandion.Client.{Call, pure, fail, ask, cached, ◌>>=◌}
use pandion.Client.Request.{at_least, first_region}
use pandion.Client.Linode.{Api, LinodeType, Region, Client}

-- The loop over the prices by region: a later one of a region replaces an earlier.
unfoldable pub price_map : {F : Type 0} → List (String × F) → Dict F → Dict F
price_map [] m = m
price_map ((r, p) ∷ ps) m = price_map ps (insert m r p)

unfoldable pub to_type_info : {F : Type 0} → F → LinodeType F → TypeInfo F
unfolding price_map
to_type_info zero_price t = record {
  id = t.id;
  vcpu = t.vcpus;
  mem_mb = t.memory;
  hourly_usd = elim t.price [ none ↦ zero_price | some p ↦ p ];
  region_price = price_map t.region_prices [];
  gpu = ltb 0 t.gpus || str_eq t.class "gpu" || ltb 0 t.accelerated_devices;
}

-- The body of the loop of candidateRegions.
unfoldable pub is_candidate_region : Bool → Region → Bool
is_candidate_region need_metadata r =
    if not (str_eq r.status "ok") || not (contains r.capabilities "Linodes")
    then false
    else if need_metadata && not (contains r.capabilities "Metadata")
    then false
    else true

module _ {F C : Type 0} (fl : Float F) (api : Api F C) (ctx : Context) where
  unfoldable pub types : Call (Client F C) (List (TypeInfo F))
  unfolding to_type_info
  types =
      cached (λ k. k.types) (λ ts k. record k { types = some ts })
        (ask (do all ← api.list_types ctx; pure (map (to_type_info fl.zero_float) all)))

  unfoldable pub regions : Call (Client F C) (List Region)
  regions =
      cached (λ k. k.regions) (λ rs k. record k { regions = some rs }) (ask (api.list_regions ctx))

  unfoldable pub candidate_regions : Bool → Call (Client F C) (List String)
  unfolding regions is_candidate_region
  candidate_regions need_metadata = do
    regs ← regions
    elim (map (λ r. r.id) (select (is_candidate_region need_metadata) regs)) [
      | [] ↦ fail "no region supports the required capabilities"
      | r ∷ rs ↦ pure (r ∷ rs)
    ]

module _ {F : Type 0} (fl : Float F) (o : Ordered F) where
  abbrev pub no_money : Money F
  no_money = record { amount = fl.zero_float; currency = "" }

  -- The loop over the types.
  unfoldable pub price_of : String → String → List (TypeInfo F) → Money F
  price_of id region [] = no_money
  price_of id region (t ∷ ts) =
      let rest = price_of id region ts in
      if str_eq t.id id
      then (if fl.at_most (hourly_in o t region) fl.zero_float
          then no_money
          else record { amount = hourly_in o t region; currency = "USD" })
      else rest

  -- The type to price, where one fits.
  unfoldable pub id_for : ServerSpec → List (TypeInfo F) → Option String
  unfolding at_least
  id_for spec all =
      if not (str_eq spec.type "")
      then some spec.type
      else (elim (select_types o all (at_least spec.min_cores) (at_least spec.min_ram_gb * 1024)) [
        | [] ↦ none
        | t ∷ ts ↦ some t.id
      ])

module _ {F C : Type 0} (fl : Float F) (o : Ordered F) (api : Api F C) (ctx : Context) where
  unfoldable pub hourly_price : String → String → Call (Client F C) (Money F)
  unfolding types price_of
  hourly_price id region = do all ← types fl api ctx; pure (price_of fl o id region all)

  unfoldable pub estimate_hourly : ServerSpec → Call (Client F C) (Money F)
  unfolding id_for hourly_price
  estimate_hourly spec = do
    all ← types fl api ctx
    elim (id_for fl o spec all) [
      | none ↦ pure (no_money fl o)
      | some id ↦ hourly_price id (first_region spec)
    ]

abbrev pub pricer : {F C : Type 0} → Float F → Ordered F → Api F C → Pricer F (Client F C)
pricer fl o api = record {
  hourly_price = hourly_price fl o api;
  estimate_hourly = λ ctx spec. estimate_hourly fl o api ctx spec;
}
