-- ===== src/Client/Scaleway/Catalog.antt =====
-- scaleway.go: the types of a zone, fetched once, and prices.
use pandion.Prelude.{
  ℕ, ◌*◌, ◌/◌, String, Bool, not, List, [], ◌∷◌, Option, none, some, str_eq, ltb, if◌then◌else◌,
  map,
}
use pandion.Prelude.Dict.{lookup, insert}
use pandion.Provider.{ServerSpec, Float, Money}
use pandion.Select.{Ordered}
use pandion.Select.Clouds.Scaleway.{TypeInfo, select_types}
use pandion.Client.{Call, pure, ask, cached, ◌>>=◌}
use pandion.Client.Loops.{pages, waited}
use pandion.Client.Request.{at_least}
use pandion.Client.Scaleway.{Api, ServerType, Client, next_page}

abbrev above_zero : Option ℕ → Bool
above_zero none = Bool.false
above_zero (some n) = ltb 0 n

unfoldable pub to_type_info : {F : Type 0} → String × ServerType F → TypeInfo F
to_type_info (name, st) = record {
  name = name;
  n_cpus = st.ncpus;
  ram_mb = st.ram / (1024 * 1024);
  hourly_eur = st.hourly_price;
  gpu = above_zero st.gpu;
  eos = st.end_of_service;
}

module _ {F C : Type 0} (api : Api F C) (limit : ℕ) where
  unfoldable pub zone_types : String → Call (Client F C) (List (TypeInfo F))
  unfolding to_type_info
  zone_types zone =
      cached (λ k. lookup k zone) (λ ts k. insert k zone ts)
        (ask (do
          all ← waited (pages (next_page (api.list_types zone)) limit 1 [])
          pure (map to_type_info all)))

module _ {F : Type 0} (fl : Float F) where
  abbrev pub no_money : Money F
  no_money = record { amount = fl.zero_float; currency = "" }

  -- The loop over the types.
  unfoldable pub price_of : String → List (TypeInfo F) → Money F
  price_of name [] = no_money
  price_of name (t ∷ ts) =
      let rest = price_of name ts in
      if str_eq t.name name
      then (if fl.at_most t.hourly_eur fl.zero_float
          then no_money
          else record { amount = t.hourly_eur; currency = "EUR" })
      else rest

-- s.zones[0]: a client has a zone at least.
abbrev pub first_zone : List String → String
first_zone [] = ""
first_zone (z ∷ zs) = z

module _ {F C : Type 0} (fl : Float F) (o : Ordered F) (api : Api F C) (limit : ℕ)
    (zones : List String) where
  unfoldable pub hourly_price : String → String → Call (Client F C) (Money F)
  unfolding zone_types price_of
  hourly_price name region = do
    types ← zone_types api limit (if str_eq region "" then first_zone zones else region)
    pure (price_of fl name types)

  -- The type to price, where one fits.
  unfoldable pub name_for : ServerSpec → List (TypeInfo F) → Option String
  unfolding at_least
  name_for spec types =
      if not (str_eq spec.type "")
      then some spec.type
      else (elim (select_types o types (at_least spec.min_cores)
          (at_least spec.min_ram_gb * 1024)) [ [] ↦ none | t ∷ ts ↦ some t.name ])

  abbrev pub region_for : ServerSpec → String
  region_for spec = elim spec.region_pref [ [] ↦ first_zone zones | r ∷ rs ↦ r ]

  unfoldable pub estimate_hourly : ServerSpec → Call (Client F C) (Money F)
  unfolding name_for hourly_price
  estimate_hourly spec = do
    types ← zone_types api limit (region_for spec)
    elim (name_for spec types) [
      | none ↦ pure (no_money fl)
      | some name ↦ hourly_price name (region_for spec)
    ]
