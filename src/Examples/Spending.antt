-- ===== src/Examples/Spending.antt =====
-- Budgets at the mock's prices, and reap plans.
use pandion.Prelude.{
  String, ℕ, ◌*◌, ◌≡◌, refl, false, List, [], ◌∷◌, Option, none, some, length, arith,
}
use pandion.Errors.{ok}
use pandion.Provider.{Net, Float, Money, Pricer, Server, no_gpu, known}
use pandion.Mock.{list_all_tagged, mock, Mock, pricer, new, estimate_hourly}
use pandion.Orchestrator.Up.{NodeSpec}
use pandion.Orchestrator.Budget.{
  CostEstimate, DryRunNode, check_budget, estimate_spend, estimate_loop, price_node, add_price,
  plan_up, within_cap,
}
use pandion.Orchestrator.Budget.Closed.{Spends, check_budget-Spends}
use pandion.Orchestrator.Budget.Agree.{plan_up-estimate_spend}
use pandion.Orchestrator.Reap.{ReapCandidate, plan, max_duration}
use pandion.Orchestrator.Reap.Plan.{planned, tagged, plan_unknown_first}
use pandion.Orchestrator.Reap.Due.{Due, plan-Due}
use pandion.Prelude.Order.{IsSorted}
use pandion.Orchestrator.Status.{ClusterStatus, status, by_id}
use pandion.Orchestrator.Status.Shown.{Shows, with_id, status-Shows}
use pandion.Examples.{whole_float, server_of, two_clusters}

abbrev cpu_node : NodeSpec
cpu_node = record {
  name = "a";
  user_data = "";
  login_pub_key = "";
  type = "";
  image = "";
  region_pref = [];
  gpu = no_gpu;
}

abbrev at_hand : Net Mock
at_hand = record { cloud = new; now = 100 }

-- An hour, in nanoseconds.
abbrev hour : ℕ
hour = 3600000000000

abbrev prices : Option (Pricer ℕ Mock)
prices = some (pricer whole_float)

check_budget-Spends_example :
    (p : Pricer ℕ Mock) × (prices ≡ some p)
    × (total : ℕ) × Spends whole_float p none 0 (cpu_node ∷ []) (2 * hour ∷ []) at_hand total
    × (whole_float.less 3 total ≡ false)
unfolding check_budget within_cap estimate_spend estimate_loop price_node add_price estimate_hourly
    known pandion.Provider.wanted
check_budget-Spends_example =
    check_budget-Spends whole_float "mock" prices none (cpu_node ∷ []) (2 * hour ∷ []) 3 at_hand
      refl refl

abbrev two_hours : CostEstimate ℕ
two_hours = record { hourly = 1; projected = 2; currency = "EUR"; unbounded = false }

plan_up-estimate_spend_example :
    (nodes : List (DryRunNode ℕ)) × (plan_up whole_float "mock" prices none
        (cpu_node ∷ [])
        (2 * hour ∷ [])
        at_hand
      ≡ (ok (nodes, two_hours), at_hand))
    × (length nodes ≡ 1)
unfolding estimate_spend estimate_loop price_node add_price estimate_hourly known
    pandion.Provider.wanted
plan_up-estimate_spend_example =
    plan_up-estimate_spend whole_float "mock" prices none (cpu_node ∷ []) (2 * hour ∷ []) at_hand
      at_hand two_hours refl

abbrev unknown_age : Server
unknown_age = record (server_of "mock-9" "a") { created = none }

abbrev listed : List Server
listed = unknown_age ∷ server_of "mock-1" "b" ∷ server_of "mock-2" "a" ∷ []

plan-Due_example : Due 10 100 "b" (tagged "b" listed) (planned "b" (plan 10 100 listed))
plan-Due_example = plan-Due 10 100 listed "b"

abbrev three_alive : Net Mock
three_alive = record { cloud = two_clusters false 0; now = 100 }

abbrev alive_servers : List Server
alive_servers = server_of "mock-1" "a" ∷ server_of "mock-2" "b" ∷ server_of "mock-3" "a" ∷ []

status-Shows_example :
    (out : List (ClusterStatus ℕ)) × (currency : String) × ((status whole_float
        (mock whole_float)
        prices
        none
        three_alive).0
      ≡ ok (out, currency))
    × IsSorted by_id out
    × ((id : String) → Shows 100 (tagged id alive_servers) (with_id id out))
unfolding list_all_tagged
status-Shows_example =
    status-Shows whole_float (mock whole_float) prices none three_alive alive_servers refl

plan_unknown_first_example :
    (c : ReapCandidate) × (planned "a" (plan hour 100 listed) ≡ c ∷ [])
    × (c.oldest_age ≡ max_duration)
plan_unknown_first_example =
    plan_unknown_first hour 100 listed "a" unknown_age (server_of "mock-2" "a" ∷ []) refl refl
      (omega arith)
