-- ===== src/Orchestrator/Budget/Agree.antt =====
-- The dry run shows the estimate that the budget guard would use.
use pandion.Prelude.{
  ℕ, ◌≡◌, String, List, [], ◌∷◌, ◌++◌, Option, none, some, arith, Bool-cases, inl, inr, length,
  length-append, ◌+◌,
}
use pandion.Errors.{ok, Result-cases}
use pandion.Provider.{Context, Net, Float, Pricer, known}
use pandion.Orchestrator.Up.{NodeSpec}
use pandion.Orchestrator.Budget.{
  CostEstimate, DryRunNode, add_price, estimate_loop, estimate_spend, plan_loop, plan_up,
  price_spec, first_region, no_cost,
}

module _ {F C : Type 0} (fl : Float F) (pricer : Pricer F C) (ctx : Context) where
  plan_loop-estimate_loop :
      (nodes : List (DryRunNode F)) (est : CostEstimate F) (specs : List NodeSpec)
      (windows : List ℕ) (n n' : Net C) (est' : CostEstimate F)
      → estimate_loop fl pricer ctx est specs windows n ≡ (ok est', n')
      → (nodes' : List (DryRunNode F)) × (plan_loop fl pricer ctx nodes est specs windows n
          ≡ (ok (nodes', est'), n'))
        × (length nodes' ≡ length nodes + length specs)
  unfolding estimate_loop plan_loop
  plan_loop-estimate_loop nodes est [] windows n n' est' h = (nodes, ground arith, omega arith)
  plan_loop-estimate_loop nodes est (s ∷ ss) [] n n' est' h = absurd (ground arith)
  plan_loop-estimate_loop nodes est (s ∷ ss) (w ∷ ws) n n' est' h =
      let (r, x) = pricer.estimate_hourly ctx (price_spec s) n in
      elim (Result-cases r) [
        | inr (e, q) ↦ absurd (ground arith)
        | inl (m, q) ↦ elim (Bool-cases (known fl m)) [
          | inr unknown ↦ absurd (ground arith)
          | inl priced ↦
              let node : DryRunNode F = record {
                name = s.name;
                size = s.type;
                region = first_region s.region_pref;
                hourly = m;
                window = w;
                gpu = s.gpu;
              } in
              let (shown, same, many) =
                plan_loop-estimate_loop (nodes ++ node ∷ []) (add_price fl est m w) ss ws x n' est'
                  (ground arith) in
              (
                shown,
                rw (q, priced, plan_loop) same,
                omega (arith, many, length-append nodes (node ∷ [])),
              )
        ]
      ]

-- If the estimate for the budget guard succeeds, the dry run over the same backend succeeds with
-- the very same cost, ends in the same state of the backend, and shows one line for each node.
pub plan_up-estimate_spend :
    {F C : Type 0} (fl : Float F) (provider : String) (pricing : Option (Pricer F C))
    (ctx : Context) (specs : List NodeSpec) (windows : List ℕ) (n n' : Net C) (est : CostEstimate F)
    → estimate_spend fl provider pricing ctx specs windows n ≡ (ok est, n')
    → (nodes : List (DryRunNode F)) × (plan_up fl provider pricing ctx specs windows n
        ≡ (ok (nodes, est), n'))
      × (length nodes ≡ length specs)
unfolding estimate_spend plan_up
plan_up-estimate_spend fl provider none ctx specs windows n n' est h = absurd (ground arith)
plan_up-estimate_spend fl provider (some pricer) ctx specs windows n n' est h =
    let (nodes, same, many) =
      plan_loop-estimate_loop fl pricer ctx [] (no_cost fl) specs windows n n' est h in
    (nodes, same, omega (arith, many))
