-- ===== src/Orchestrator/Budget/Closed.antt =====
-- The budget guard fails closed: a cluster that passes under a cap is priced node by node.
use pandion.Prelude.{
  ℕ, ◌<◌, ◌≡◌, refl, String, Bool, true, false, ◌||◌, List, [], ◌∷◌, Option, none, some, arith,
  ◌==◌, Bool-cases, inl, inr,
}
use pandion.Errors.{Result, ok, err, Result-cases}
use pandion.Provider.{Context, Net, Float, Money, Pricer, known}
use pandion.Orchestrator.Up.{NodeSpec}
use pandion.Orchestrator.Budget.{
  CostEstimate, add_price, estimate_loop, estimate_spend, within_cap, check_budget, no_cost,
  price_spec,
}

or-false : (a b : Bool) → (a || b) ≡ false → (a ≡ false) × (b ≡ false)
or-false true b h = cc
or-false false b h = (refl, h)

module _ {F C : Type 0} (fl : Float F) (pricer : Pricer F C) (ctx : Context) where
  -- The pricer has a known price for each node and each node has a window; on top of `acc` the
  -- prices for the windows add up to `total`.
  abbrev pub Spends : F → List NodeSpec → List ℕ → Net C → F → Type 0
  Spends acc [] ws n total = total ≡ acc
  Spends acc (s ∷ ss) [] n total = ⊥
  Spends acc (s ∷ ss) (w ∷ ws) n total =
      (m : Money F) × ((pricer.estimate_hourly ctx (price_spec s) n).0 ≡ ok m)
      × (known fl m ≡ true)
      × (0 < w)
      × Spends (fl.add acc (fl.mul m.amount (fl.hours w))) ss ws
          (pricer.estimate_hourly ctx (price_spec s) n).1 total

  estimate_loop-Spends :
      (est : CostEstimate F) (specs : List NodeSpec) (windows : List ℕ) (n : Net C)
      (est' : CostEstimate F)
      → (estimate_loop fl pricer ctx est specs windows n).0 ≡ ok est'
      → est'.unbounded ≡ false
      → (est.unbounded ≡ false) × Spends est.projected specs windows n est'.projected
  unfolding estimate_loop
  estimate_loop-Spends est [] windows n est' h b = ground arith
  estimate_loop-Spends est (s ∷ ss) [] n est' h b = absurd (ground arith)
  estimate_loop-Spends est (s ∷ ss) (w ∷ ws) n est' h b =
      let (r, n') = pricer.estimate_hourly ctx (price_spec s) n in
      elim (Result-cases r) [
        | inr (x, e) ↦ absurd (ground arith)
        | inl (m, e) ↦ elim (Bool-cases (known fl m)) [
          | inr unknown ↦ absurd (ground arith)
          | inl priced ↦
              let step : (estimate_loop fl pricer ctx (add_price fl est m w) ss ws n').0 ≡ ok est' =
                ground arith in
              let (bounded, spends) =
                estimate_loop-Spends (add_price fl est m w) ss ws n' est' step b in
              let windowed : (w == 0) ≡ false = (or-false est.unbounded (w == 0) bounded).1 in
              (
                (or-false est.unbounded (w == 0) bounded).0,
                (m, e, priced, ground arith, rw windowed at spends),
              )
        ]
      ]

within_cap-ok :
    {F : Type 0} (fl : Float F) (limit : F) (r : Result (CostEstimate F))
    → within_cap fl limit r ≡ ok tt
    → (est : CostEstimate F) × (r ≡ ok est)
      × (est.unbounded ≡ false)
      × (fl.less limit est.projected ≡ false)
unfolding within_cap
within_cap-ok fl limit (err e) h = cc
within_cap-ok fl limit (ok est) h = (est, refl, ground arith, ground arith)

-- Where a positive cap is set and the check passes, the backend has a pricer, the pricer has a
-- known price for every node, every node has a window, and the sum of the prices over the windows
-- does not exceed the cap.
pub check_budget-Spends :
    {F C : Type 0} (fl : Float F) (provider : String) (pricing : Option (Pricer F C))
    (ctx : Context) (specs : List NodeSpec) (windows : List ℕ) (limit : F) (n : Net C)
    → fl.at_most limit fl.zero_float ≡ false
    → (check_budget fl provider pricing ctx specs windows limit n).0 ≡ ok tt
    → (pricer : Pricer F C) × (pricing ≡ some pricer)
      × (total : F) × Spends fl pricer ctx fl.zero_float specs windows n total
      × (fl.less limit total ≡ false)
unfolding check_budget within_cap estimate_spend
check_budget-Spends fl provider none ctx specs windows limit n capped h = absurd (ground arith)
check_budget-Spends fl provider (some pricer) ctx specs windows limit n capped h =
    let (est, priced, bounded, below) =
      within_cap-ok fl limit (estimate_loop fl pricer ctx (no_cost fl) specs windows n).0
        (rw capped at h) in
    (
      pricer,
      refl,
      est.projected,
      (estimate_loop-Spends fl pricer ctx (no_cost fl) specs windows n est priced bounded).1,
      below,
    )
