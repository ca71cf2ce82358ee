-- ===== src/Client/Hetzner/Prices.antt =====
-- hetzner.go: what a type costs in a region, from prices that are fetched once.
use pandion.Prelude.{
  String, Bool, false, not, List, [], ◌∷◌, Option, none, some, str_eq, if◌then◌else◌,
}
use pandion.Errors.{calling}
use pandion.Provider.{Context, Float, Money, Pricer, ServerSpec}
use pandion.Select.{Ordered}
use pandion.Select.Clouds.Hetzner.{select_candidates}
use pandion.Client.{Call, pure, fail, wrapping, Cached, ask, cached, ◌>>=◌}
use pandion.Client.Names.{trim_space}
use pandion.Client.Request.{at_least}
use pandion.Client.Hetzner.{Api, LocationPrice, TypePricing, Pricing, arch}

-- A name that may be missing is the one asked for.
abbrev pub is_named : Option String → String → Bool
is_named none s = false
is_named (some n) s = str_eq n s

-- The loop over a type's prices: the region's own, or else the first that is not empty.
unfoldable pub gross_in : String → String → List LocationPrice → String
gross_in region gross [] = gross
gross_in region gross (lp ∷ lps) =
    let rest = gross_in region (if str_eq gross "" then lp.gross else gross) lps in
    if is_named lp.location region then lp.gross else rest

module _ {F : Type 0} (fl : Float F) (parse_float : String → Option F) where
  abbrev pub no_money : Money F
  no_money = record { amount = fl.zero_float; currency = "" }

  unfoldable pub priced : String → String → Money F
  priced gross currency = elim (parse_float (trim_space gross)) [
    | none ↦ no_money
    | some amt ↦
        if fl.at_most amt fl.zero_float
        then no_money
        else record { amount = amt; currency = currency }
  ]

  -- The loop over the types.
  unfoldable pub price_of : String → String → String → List TypePricing → Money F
  unfolding gross_in priced
  price_of type region currency [] = no_money
  price_of type region currency (st ∷ sts) =
      let rest = price_of type region currency sts in
      if is_named st.server_type type
      then priced (gross_in region "" st.pricings) currency
      else rest

module _ {F C : Type 0} (fl : Float F) (o : Ordered F) (parse_float : String → Option F)
    (api : Api F C) (ctx : Context) where
  unfoldable pub pricing : Call (Cached (Option Pricing) C) Pricing
  pricing = cached (λ k. k) (λ p k. some p) (ask (api.pricing ctx))

  unfoldable pub hourly_price : String → String → Call (Cached (Option Pricing) C) (Money F)
  unfolding pricing price_of
  hourly_price type region = do
    pr ← pricing
    pure (price_of fl parse_float type region pr.currency pr.server_types)

  -- The type that CreateServer would try first.
  unfoldable pub type_for : ServerSpec → Call C String
  unfolding at_least
  type_for spec = if not (str_eq spec.type "") then pure spec.type else (do
    types ← wrapping (calling "list server types") (api.server_types ctx)
    elim (select_candidates o types (at_least spec.min_cores) (at_least spec.min_ram_gb) arch) [
      | [] ↦ fail "no server type matches spec"
      | t ∷ ts ↦ pure t
    ])

  -- The region that is priced.
  abbrev pub region_for : List String → ServerSpec → String
  region_for pref spec = elim spec.region_pref [
    | r ∷ rs ↦ r
    | [] ↦ elim pref [ [] ↦ "" | r ∷ rs ↦ r ]
  ]

  unfoldable pub estimate_hourly :
      List String → ServerSpec → Call (Cached (Option Pricing) C) (Money F)
  unfolding type_for hourly_price
  estimate_hourly pref spec = do
    type ← ask (type_for spec)
    hourly_price type (region_for pref spec)

abbrev pub pricer :
    {F C : Type 0}
    → Float F
    → Ordered F
    → (String → Option F)
    → Api F C
    → List String
    → Pricer F (Cached (Option Pricing) C)
pricer fl o parse_float api pref = record {
  hourly_price = hourly_price fl o parse_float api;
  estimate_hourly = λ ctx spec. estimate_hourly fl o parse_float api ctx pref spec;
}
