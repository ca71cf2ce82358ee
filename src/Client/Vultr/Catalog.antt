-- ===== src/Client/Vultr/Catalog.antt =====
-- vultr.go: the catalog of plans, the system to install, and prices.
use pandion.Prelude.{
  ℕ, zero, suc, ◌*◌, String, Bool, true, false, not, ◌&&◌, ◌||◌, List, [], ◌∷◌, Option, none, some,
  str_eq, ltb, if◌then◌else◌, map,
}
use pandion.Prelude.Integer.{ℤ, pos, negsuc, parse_int}
use pandion.Errors.{ok, err}
use pandion.Provider.{Context, ServerSpec, Float, Money}
use pandion.Select.{Ordered}
use pandion.Select.Clouds.Vultr.{PlanInfo, select_plans}
use pandion.Client.{Call, pure, fail, try, ask, cached, ◌>>=◌}
use pandion.Client.Loops.{pages, waited}
use pandion.Client.Names.{lower_text, trim_space, contains_text}
use pandion.Client.Request.{at_least, first_region}
use pandion.Client.Vultr.{Api, Plan, Os, Client, default_os_id, next_cursor}

unfoldable pub to_plan_info : {F : Type 0} → Plan F → PlanInfo F
to_plan_info p = record {
  id = p.id;
  vcpu = p.vcpu_count;
  ram_mb = p.ram;
  monthly_cost = p.monthly_cost;
  regions = p.locations;
  gpu = not (str_eq p.gpu_type "") || ltb 0 p.gpu_vram;
}

-- A slice as a cache: an empty one is nil.
abbrev filled : {F : Type 0} → List (PlanInfo F) → Option (List (PlanInfo F))
filled [] = none
filled (p ∷ ps) = some (p ∷ ps)

-- The loop over a page of systems.
unfoldable pub ubuntu : List Os → Option ℤ
ubuntu [] = none
ubuntu (o ∷ os) =
    let rest = ubuntu os in
    if str_eq o.family "ubuntu" && contains_text (lower_text o.name) "24.04" && str_eq o.arch "x64"
    then some o.id
    else rest

unfoldable pub is_zero : ℤ → Bool
is_zero (pos zero) = true
is_zero (pos (suc n)) = false
is_zero (negsuc n) = false

module _ {F C : Type 0} (api : Api F C) (limit : ℕ) (ctx : Context) where
  unfoldable pub plans : Call (Client F C) (List (PlanInfo F))
  unfolding to_plan_info
  plans =
      cached (λ k. k.plans) (λ ps k. record k { plans = filled ps })
        (ask (do
          all ← waited (pages (λ t. next_cursor (api.plans ctx t)) limit "" [])
          pure (map to_plan_info all)))

  -- The rounds of the loop over the pages that are left: the id, and whether it is to be kept.
  unfoldable pub search_os : ℕ → String → Call C (ℤ × Bool)
  unfolding ubuntu
  search_os zero cursor = fail "the rounds of the model ran out"
  search_os (suc left) cursor = do
    r ← try (api.oses ctx cursor)
    elim r [
      | err e ↦ pure (default_os_id, false)
      | ok (page, next) ↦ elim (ubuntu page) [
        | some id ↦ pure (id, true)
        | none ↦ if str_eq next "" then pure (default_os_id, true) else search_os left next
      ]
    ]

  unfoldable pub keep_os : ℤ → Bool → Call (Client F C) ℤ
  keep_os id keeps n = (
    ok id,
    (if keeps
        then record n { cloud = record n.cloud { kept = record n.cloud.kept { os_id = id } } }
        else n),
  )

  unfoldable pub os_kept : Call (Client F C) ℤ
  unfolding search_os keep_os is_zero
  os_kept n =
      (if is_zero n.cloud.kept.os_id
          then (do found ← ask (search_os limit ""); keep_os found.0 found.1)
          else pure n.cloud.kept.os_id)
        n

  unfoldable pub resolve_os : String → Call (Client F C) ℤ
  unfolding os_kept
  resolve_os image =
      if not (str_eq image "")
      then (elim (parse_int (trim_space image)) [
        | none ↦ fail "vultr image must be a numeric os_id"
        | some id ↦ pure id
      ])
      else os_kept

module _ {F : Type 0} (fl : Float F) (hourly : F → F) where
  abbrev pub no_money : Money F
  no_money = record { amount = fl.zero_float; currency = "" }

  -- The loop over the plans; `hourly` divides by the hours of a month.
  unfoldable pub price_of : String → List (PlanInfo F) → Money F
  price_of id [] = no_money
  price_of id (p ∷ ps) =
      let rest = price_of id ps in
      if str_eq p.id id
      then (if fl.at_most p.monthly_cost fl.zero_float
          then no_money
          else record { amount = hourly p.monthly_cost; currency = "USD" })
      else rest

module _ {F C : Type 0} (fl : Float F) (hourly : F → F) (o : Ordered F) (api : Api F C) (limit : ℕ)
    (ctx : Context) where
  unfoldable pub hourly_price : String → Call (Client F C) (Money F)
  unfolding plans price_of
  hourly_price id = do all ← plans api limit ctx; pure (price_of fl hourly id all)

  -- The plan to price, where one fits.
  unfoldable pub id_for : ServerSpec → List (PlanInfo F) → Option String
  unfolding at_least
  id_for spec all =
      if not (str_eq spec.type "")
      then some spec.type
      else (elim (select_plans o all (at_least spec.min_cores) (at_least spec.min_ram_gb * 1024)
          (first_region spec)) [ [] ↦ none | p ∷ ps ↦ some p.id ])

  unfoldable pub estimate_hourly : ServerSpec → Call (Client F C) (Money F)
  unfolding id_for hourly_price
  estimate_hourly spec = do
    all ← plans api limit ctx
    elim (id_for spec all) [ none ↦ pure (no_money fl hourly) | some id ↦ hourly_price id ]
