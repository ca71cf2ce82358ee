-- ===== src/Orchestrator/Budget.antt =====
-- EstimateSpend, CheckBudget and PlanUp: what a cluster would cost, before anything is created.
-- `windows` holds the idle times after which the nodes are powered off, 0 for none; an index past
-- its end panics. The backend's prices are those of its Pricer, if it has one.
pub mod Closed
pub mod Agree
use pandion.Prelude.{
  ℕ, String, Bool, true, false, ◌||◌, List, [], ◌∷◌, ◌++◌, Option, none, some, ◌==◌, if◌then◌else◌,
}
use pandion.Errors.{
  Result, ok, err, no_pricing, unpriced, unbounded_spend, over_budget, index_panic,
}
use pandion.Provider.{Context, Net, ServerSpec, GpuReq, Float, Money, Pricer, known}
use pandion.Orchestrator.Up.{NodeSpec}

pub record CostEstimate (F : Type 0) : Type 0 where
  pub hourly : F
  pub projected : F
  pub currency : String
  pub unbounded : Bool

-- The request that is priced.
abbrev pub price_spec : NodeSpec → ServerSpec
price_spec s = record {
  name = s.name;
  cluster_id = "";
  type = s.type;
  min_cores = 0;
  min_ram_gb = 0;
  region_pref = s.region_pref;
  image = s.image;
  user_data = "";
  login_pub_key = "";
  gpu = s.gpu;
}

pub record DryRunNode (F : Type 0) : Type 0 where
  pub name : String
  pub size : String
  pub region : String
  pub hourly : Money F
  pub window : ℕ
  pub gpu : GpuReq

abbrev first_region : List String → String
first_region [] = ""
first_region (r ∷ rs) = r

module _ {F : Type 0} (fl : Float F) where
  abbrev pub no_cost : CostEstimate F
  no_cost = record {
    hourly = fl.zero_float;
    projected = fl.zero_float;
    currency = "";
    unbounded = false;
  }

  -- One node's price on the running estimate.
  unfoldable pub add_price : CostEstimate F → Money F → ℕ → CostEstimate F
  add_price est m window = record {
    hourly = fl.add est.hourly m.amount;
    projected =
        (if window == 0
          then est.projected
          else fl.add est.projected (fl.mul m.amount (fl.hours window)));
    currency = m.currency;
    unbounded = est.unbounded || window == 0;
  }

  -- The rest of a round of EstimateSpend, from what the pricer returned.
  unfoldable pub price_node :
      CostEstimate F → NodeSpec → List ℕ → Result (Money F) → Result (CostEstimate F × List ℕ)
  unfolding add_price
  price_node est s windows (err e) = err e
  price_node est s windows (ok m) =
      if known fl m
      then (elim windows [ [] ↦ err index_panic | w ∷ ws ↦ ok (add_price est m w, ws) ])
      else err (unpriced s.name)

  -- The rest of a round of PlanUp: a node without a price is shown and not counted.
  unfoldable pub plan_node :
      CostEstimate F
      → NodeSpec
      → List ℕ
      → Result (Money F)
      → Result (DryRunNode F × CostEstimate F × List ℕ)
  unfolding add_price
  plan_node est s windows (err e) = err e
  plan_node est s [] (ok m) = err index_panic
  plan_node est s (w ∷ ws) (ok m) = ok (
    record {
      name = s.name;
      size = s.type;
      region = first_region s.region_pref;
      hourly = m;
      window = w;
      gpu = s.gpu;
    },
    (if known fl m then add_price est m w else est),
    ws,
  )

module _ {F : Type 0} (fl : Float F) where
  -- The cap against an estimate.
  unfoldable pub within_cap : F → Result (CostEstimate F) → Result (Unit {0})
  within_cap max_cost (err e) = err e
  within_cap max_cost (ok est) =
      if est.unbounded
      then err unbounded_spend
      else if fl.less max_cost est.projected
      then err over_budget
      else ok tt

module _ {F C : Type 0} (fl : Float F) (pricer : Pricer F C) (ctx : Context) where
  unfoldable pub estimate_loop :
      CostEstimate F → List NodeSpec → List ℕ → Net C → Result (CostEstimate F) × Net C
  unfolding price_node
  estimate_loop est [] windows n = (ok est, n)
  estimate_loop est (s ∷ ss) windows n =
      let (r, n') = pricer.estimate_hourly ctx (price_spec s) n in
      elim (price_node fl est s windows r) [
        | err e ↦ (err e, n')
        | ok (est', ws) ↦ estimate_loop est' ss ws n'
      ]

  unfoldable pub plan_loop :
      List (DryRunNode F)
      → CostEstimate F
      → List NodeSpec
      → List ℕ
      → Net C
      → Result (List (DryRunNode F) × CostEstimate F) × Net C
  unfolding plan_node
  plan_loop nodes est [] windows n = (ok (nodes, est), n)
  plan_loop nodes est (s ∷ ss) windows n =
      let (r, n') = pricer.estimate_hourly ctx (price_spec s) n in
      elim (plan_node fl est s windows r) [
        | err e ↦ (err e, n')
        | ok (node, est', ws) ↦ plan_loop (nodes ++ node ∷ []) est' ss ws n'
      ]

module _ {F C : Type 0} (fl : Float F) (provider : String) (pricing : Option (Pricer F C))
    (ctx : Context) where
  unfoldable pub estimate_spend : List NodeSpec → List ℕ → Net C → Result (CostEstimate F) × Net C
  unfolding estimate_loop
  estimate_spend specs windows n = elim pricing [
    | none ↦ (err (no_pricing provider), n)
    | some pricer ↦ estimate_loop fl pricer ctx (no_cost fl) specs windows n
  ]

  unfoldable pub plan_up :
      List NodeSpec → List ℕ → Net C → Result (List (DryRunNode F) × CostEstimate F) × Net C
  unfolding plan_loop
  plan_up specs windows n = elim pricing [
    | none ↦ (err (no_pricing provider), n)
    | some pricer ↦ plan_loop fl pricer ctx [] (no_cost fl) specs windows n
  ]

  unfoldable pub check_budget : List NodeSpec → List ℕ → F → Net C → Result (Unit {0}) × Net C
  unfolding estimate_spend within_cap
  check_budget specs windows max_cost n =
      if fl.at_most max_cost fl.zero_float
      then (ok tt, n)
      else (let (r, n') = estimate_spend specs windows n in (within_cap fl max_cost r, n'))
