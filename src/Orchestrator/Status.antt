-- ===== src/Orchestrator/Status.antt =====
-- Status: the clusters that are alive at the backend, with their nodes, ages and prices. The age
-- of a creation in the future is 0, where that of Go is below 0.
pub mod Gathered
pub mod Shown
use pandion.Prelude.{
  ℕ, ◌-◌, String, Bool, List, [], ◌∷◌, ◌++◌, Option, none, some, ltb, if◌then◌else◌, map,
}
use pandion.Prelude.Dict.{Dict, lookup, insert, values}
use pandion.Prelude.Order.{sort, str_leb}
use pandion.Errors.{Result, ok, err, Error}
use pandion.Provider.{Context, Net, Provider, Server, GpuInfo, Float, Money, Pricer, known}

pub record NodeStatus (F : Type 0) : Type 0 where
  pub name : String
  pub type : String
  pub region : String
  pub ip : String
  pub age : ℕ
  -- none is the zero Money
  pub hourly : Option (Money F)
  pub gpu : GpuInfo
  -- none is -1, not measured
  pub gpu_util : Option ℕ

pub record ClusterStatus (F : Type 0) : Type 0 where
  pub cluster_id : String
  pub nodes : List (NodeStatus F)
  pub hourly : F
  pub accrued : F
  pub oldest : ℕ

unfoldable pub node_age : ℕ → Option ℕ → ℕ
node_age now none = 0
node_age now (some t) = now - t

module _ {F : Type 0} (fl : Float F) where
  -- The entry of a cluster, new where it is the first server's.
  abbrev pub entry_or_new : String → Option (ClusterStatus F) → ClusterStatus F
  entry_or_new id none = record {
    cluster_id = id;
    nodes = [];
    hourly = fl.zero_float;
    accrued = fl.zero_float;
    oldest = 0;
  }
  entry_or_new id (some cs) = cs

  abbrev pub known_price : Result (Money F) → Option (Money F)
  known_price (err e) = none
  known_price (ok m) = if known fl m then some m else none

  abbrev pub node_status : ℕ → Server → Option (Money F) → NodeStatus F
  node_status now s price = record {
    name = s.name;
    type = s.type;
    region = s.region;
    ip = s.ip;
    age = node_age now s.created;
    hourly = price;
    gpu = s.gpu;
    gpu_util = none;
  }

  -- The amounts of a node with a price.
  abbrev pub add_amounts : ℕ → Option (Money F) → ClusterStatus F → ClusterStatus F
  add_amounts age none cs = cs
  add_amounts age (some m) cs = record cs {
    hourly = fl.add cs.hourly m.amount;
    accrued = fl.add cs.accrued (fl.mul m.amount (fl.hours age));
  }

  abbrev pub currency_after : Option (Money F) → String → String
  currency_after none currency = currency
  currency_after (some m) currency = m.currency

  -- One server onto its cluster's entry.
  unfoldable pub add_node :
      ℕ → Server → Option (Money F) → Option (ClusterStatus F) → ClusterStatus F
  unfolding node_age
  add_node now s price found =
      let age = node_age now s.created in
      let cs = add_amounts age price (entry_or_new s.cluster_id found) in
      record cs {
        oldest = (if ltb cs.oldest age then age else cs.oldest);
        nodes = cs.nodes ++ node_status now s price ∷ [];
      }

abbrev pub by_name : {F : Type 0} → NodeStatus F → NodeStatus F → Bool
by_name a b = str_leb a.name b.name

abbrev pub by_id : {F : Type 0} → ClusterStatus F → ClusterStatus F → Bool
by_id a b = str_leb a.cluster_id b.cluster_id

abbrev pub with_sorted_nodes : {F : Type 0} → ClusterStatus F → ClusterStatus F
with_sorted_nodes cs = record cs { nodes = sort by_name cs.nodes }

module _ {F C : Type 0} (fl : Float F) (pricing : Option (Pricer F C)) (ctx : Context) where
  -- A node's known price: a failure leaves it unpriced.
  unfoldable pub price_server : Server → Net C → Option (Money F) × Net C
  price_server s n = elim pricing [
    | none ↦ (none, n)
    | some pricer ↦
        (let (m, n') = pricer.hourly_price ctx s.type s.region n in (known_price fl m, n'))
  ]

  unfoldable pub status_loop :
      ℕ
      → Dict (ClusterStatus F)
      → String
      → List Server
      → Net C
      → (Dict (ClusterStatus F) × String) × Net C
  unfolding add_node price_server
  status_loop now m currency [] n = ((m, currency), n)
  status_loop now m currency (s ∷ ss) n =
      let (price, n') = price_server s n in
      status_loop now (insert m s.cluster_id (add_node fl now s price (lookup m s.cluster_id)))
        (currency_after fl price currency) ss n'

module _ {F C : Type 0} (fl : Float F) (p : Provider C) (pricing : Option (Pricer F C))
    (ctx : Context) where
  -- After the listing.
  unfoldable pub show_clusters :
      Result (List Server) → Net C → Result (List (ClusterStatus F) × String) × Net C
  unfolding status_loop
  show_clusters (err e) n = (err e, n)
  show_clusters (ok all) n =
      let (found, n') = status_loop fl pricing ctx n.now [] "" all n in
      (ok (sort by_id (map with_sorted_nodes (values found.0)), found.1), n')

  unfoldable pub status : Net C → Result (List (ClusterStatus F) × String) × Net C
  unfolding show_clusters
  status n = let (all, n') = p.list_all_tagged ctx n in show_clusters all n'
