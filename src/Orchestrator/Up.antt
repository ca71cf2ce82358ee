-- ===== src/Orchestrator/Up.antt =====
-- UpSpec: one node, journaled before and after it is created.
pub mod Journal
use pandion.Prelude.{ℕ, String, List, [], ◌∷◌, Option, none, some}
use pandion.Errors.{Result, ok, err, Error, wrapped, provisioning}
use pandion.Provider.{Context, Provider, Server, ServerSpec, GpuReq, no_gpu}
use pandion.State.{Phase, Node, Cluster, stamp}
use pandion.State
use pandion.Orchestrator.{World, journal}
use pandion.Orchestrator.Retry.{create_with_retry}

pub record NodeSpec : Type 0 where
  pub name : String
  pub user_data : String
  pub login_pub_key : String
  pub type : String
  pub image : String
  pub region_pref : List String
  pub gpu : GpuReq

-- A cluster of one node in a phase, with the server's id and address.
abbrev pub one_node : String → String → NodeSpec → String → String → Phase → Cluster
one_node provider cluster_id spec server_id ip phase = record {
  version = 0;
  id = cluster_id;
  provider = provider;
  nodes = record { name = spec.name; server_id = server_id; ip = ip; phase = phase } ∷ [];
  updated = 0;
}

-- The request that UpSpec makes of the backend.
abbrev pub server_spec : String → NodeSpec → String → String → ServerSpec
server_spec cluster_id spec user_data login_pub_key = record {
  name = spec.name;
  cluster_id = cluster_id;
  type = spec.type;
  min_cores = 0;
  min_ram_gb = 0;
  region_pref = spec.region_pref;
  image = "";
  user_data = user_data;
  login_pub_key = login_pub_key;
  gpu = spec.gpu;
}

module _ {C : Type 0} (p : Provider C) (delay : ℕ) (ctx : Context) (cluster_id : String) where
  -- From the create call on.
  unfoldable pub finish_up :
      NodeSpec → Result Server → World C → (Option Cluster × Option Error) × World C
  finish_up spec (err e) w =
      let c = one_node p.name cluster_id spec "" "" Phase.failed in
      let (_, w') = journal c w in
      ((some (stamp w.net.now c), some (wrapped (provisioning spec.name) e)), w')
  finish_up spec (ok srv) w =
      let c = one_node p.name cluster_id spec srv.id srv.ip Phase.running in
      let (r, w') = journal c w in
      elim r [ ok _ ↦ ((some (stamp w.net.now c), none), w') | err e ↦ ((none, some e), w') ]

  -- After the journal of PROVISIONING: the server is created only if that was written.
  unfoldable pub provision :
      NodeSpec
      → ServerSpec
      → Result (Unit {0})
      → World C
      → (Option Cluster × Option Error) × World C
  unfolding finish_up
  provision spec request (err e) w = ((none, some e), w)
  provision spec request (ok _) w =
      let (s, n) = create_with_retry p delay ctx request w.net in
      finish_up spec s (record w { net = n })

  -- After the journal of PLANNED.
  unfoldable pub begin :
      NodeSpec
      → ServerSpec
      → Result (Unit {0})
      → World C
      → (Option Cluster × Option Error) × World C
  unfolding provision
  begin spec request (err e) w = ((none, some e), w)
  begin spec request (ok _) w =
      let (r, w') = journal (one_node p.name cluster_id spec "" "" Phase.provisioning) w in
      provision spec request r w'

  unfoldable pub up_spec :
      NodeSpec → String → String → World C → (Option Cluster × Option Error) × World C
  unfolding begin
  up_spec spec user_data login_pub_key w =
      let (r, w') = journal (one_node p.name cluster_id spec "" "" Phase.planned) w in
      begin spec (server_spec cluster_id spec user_data login_pub_key) r w'

  -- Up: a node with a name alone.
  unfoldable pub up : String → String → String → World C → (Option Cluster × Option Error) × World C
  unfolding up_spec
  up node_name user_data login_pub_key w =
      up_spec
        (record {
          name = node_name;
          user_data = "";
          login_pub_key = "";
          type = "";
          image = "";
          region_pref = [];
          gpu = no_gpu;
        })
        user_data login_pub_key w
