-- ===== src/Orchestrator/Down/Others.antt =====
-- A teardown keeps to its own cluster.
use pandion.Prelude.{
  ℕ, ◌≡◌, refl, ◌∙◌, ap, inl, inr, String, false, List, [], ◌∷◌, arith, str_eq, All,
}
use pandion.Errors.{Result-cases}
use pandion.Provider.{Context, Net, Provider, Server}
use pandion.Orchestrator.{World}
use pandion.Orchestrator.Down.{down, reap_auxiliary}
use pandion.Orchestrator.Down.Contract.{Contract, tagged, tagged-without}
use pandion.Orchestrator.Down.Kept.{Harmless, down_keep}

-- None of the servers has the id of `t`.
abbrev pub Apart : List Server → Server → Type 0
Apart kept t = All (λ s. str_eq s.id t.id ≡ false) kept

-- The servers of a cluster `j`, none of which has the id of a server that is destroyed.
module _ {C : Type 0} (p : Provider C) (k : Contract p) (base_delay : ℕ) (ctx : Context)
    (j : String) (kept : List Server) where
  open k use {alive, valid, names, gives}

  abbrev Keeps : C → Type 0
  Keeps c = valid c × (tagged j (alive c) ≡ kept)

  destroy-Keeps : (t : Server) → Apart kept t → gives t.id → Harmless p base_delay ctx Keeps t
  destroy-Keeps t apart own n h =
      let gone = tagged-without t.id j (alive n.cloud) (rw h.1 apart) in
      (
        k.destroy_valid ctx t.id n h.0,
        elim (Result-cases (p.destroy_server ctx t.id n).0) [
          | inl (u, e) ↦ ground (arith, k.destroys ctx t.id n own h.0, gone, h.1)
          | inr (x, e) ↦ ground (arith, k.fails ctx t.id n x own h.0 e, gone, h.1)
        ],
      )

  All-Keeps :
      (l : List Server)
      → All (Apart kept) l
      → All (λ s. gives s.id) l
      → All (Harmless p base_delay ctx Keeps) l
  All-Keeps [] apart own = tt
  All-Keeps (t ∷ l) apart own = (destroy-Keeps t apart.0 own.0, All-Keeps l apart.1 own.1)

  list-Keeps : (id : String) (n : Net C) → Keeps n.cloud → Keeps (p.list_by_tag ctx id n).1.cloud
  list-Keeps id n h =
      let listed = k.list_keeps ctx id n h.0 in (listed.0, ap (tagged j) listed.1 ∙ h.1)

  reap-Keeps : (id : String) (n : Net C) → Keeps n.cloud → Keeps (reap_auxiliary p ctx id n).1.cloud
  reap-Keeps id n h =
      let reaped = k.reap_keeps ctx id n h.0 in (reaped.0, ap (tagged j) reaped.1 ∙ h.1)

  pub down-Keeps :
      (id : String) (w : World C)
      → names id
      → All (Apart kept) (tagged id (alive w.net.cloud))
      → Keeps w.net.cloud
      → Keeps (down p base_delay ctx id w).1.net.cloud
  down-Keeps id w name apart h =
      down_keep p base_delay ctx Keeps list-Keeps reap-Keeps id w
        (λ l e.
          let (same, own) = k.lists ctx id w.net l name h.0 e in All-Keeps l (rw same apart) own)
        h

-- Over a backend that keeps its contract, from a state that is valid by it, a teardown of one
-- cluster, whose id is one that the backend tells apart, leaves the servers of any other cluster
-- alone, whether it succeeds or fails anywhere on the way, provided that no server of the other has
-- the id of one that the backend has for the first.
pub down-keeps_others :
    {C : Type 0} (p : Provider C) (k : Contract p) (base_delay : ℕ) (ctx : Context) (id j : String)
    (w : World C)
    → k.names id
    → k.valid w.net.cloud
    → All (Apart (tagged j (k.alive w.net.cloud))) (tagged id (k.alive w.net.cloud))
    → tagged j (k.alive (down p base_delay ctx id w).1.net.cloud) ≡ tagged j (k.alive w.net.cloud)
down-keeps_others p k base_delay ctx id j w name v apart =
    (down-Keeps p k base_delay ctx j (tagged j (k.alive w.net.cloud)) id w name apart (v, refl)).1
