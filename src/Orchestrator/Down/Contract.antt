-- ===== src/Orchestrator/Down/Contract.antt =====
-- The contract between the orchestrator and a backend (internal/provider/provider.go), as a record
-- of laws over a view of the live servers.
use pandion.Prelude.{
  ◌≡◌, refl, ◌∙◌, ◌⊎◌, String, false, not, List, [], ◌∷◌, arith, str_eq, select, select-select, All,
}
use pandion.Errors.{ok, err, Error}
use pandion.Provider.{Context, Net, Provider, Server}
use pandion.Orchestrator.Down.{reap_auxiliary}

abbrev pub tagged : String → List Server → List Server
tagged id = select (λ s. str_eq s.cluster_id id)

abbrev pub without : String → List Server → List Server
without id = select (λ s. not (str_eq s.id id))

-- What provider.go asks of a backend: a view of the live servers that a listing by tag reports and
-- leaves as it is, that a destroy of a listed id removes that id from when it succeeds and at most
-- that id when it fails, and that the reaping of auxiliary resources leaves as it is; all of it in
-- the states that the backend's own operations reach. `names` are the cluster ids that the backend
-- tells apart, and `gives` the ids that it gives to servers.
pub record Contract {C : Type 0} (p : Provider C) : Type 1 where
  pub valid : C → Type 0
  pub alive : C → List Server
  pub names : String → Type 0
  pub gives : String → Type 0
  pub lists :
      (ctx : Context) (id : String) (n : Net C) (l : List Server)
      → names id
      → valid n.cloud
      → (p.list_by_tag ctx id n).0 ≡ ok l
      → (l ≡ tagged id (alive n.cloud)) × All (λ s. gives s.id) l
  pub list_keeps :
      (ctx : Context) (id : String) (n : Net C)
      → valid n.cloud
      → valid (p.list_by_tag ctx id n).1.cloud
        × (alive (p.list_by_tag ctx id n).1.cloud ≡ alive n.cloud)
  pub destroy_valid :
      (ctx : Context) (id : String) (n : Net C)
      → valid n.cloud
      → valid (p.destroy_server ctx id n).1.cloud
  pub destroys :
      (ctx : Context) (id : String) (n : Net C)
      → gives id
      → valid n.cloud
      → (p.destroy_server ctx id n).0 ≡ ok tt
      → alive (p.destroy_server ctx id n).1.cloud ≡ without id (alive n.cloud)
  pub fails :
      (ctx : Context) (id : String) (n : Net C) (e : Error)
      → gives id
      → valid n.cloud
      → (p.destroy_server ctx id n).0 ≡ err e
      → (alive (p.destroy_server ctx id n).1.cloud ≡ alive n.cloud)
        ⊎ (alive (p.destroy_server ctx id n).1.cloud ≡ without id (alive n.cloud))
  pub reap_keeps :
      (ctx : Context) (id : String) (n : Net C)
      → valid n.cloud
      → valid (reap_auxiliary p ctx id n).1.cloud
        × (alive (reap_auxiliary p ctx id n).1.cloud ≡ alive n.cloud)

pub without-apart :
    (id : String) (l : List Server) → All (λ s. str_eq s.id id ≡ false) l → without id l ≡ l
without-apart id [] h = refl
without-apart id (s ∷ l) h = ground (arith, without-apart id l h.1)

pub tagged-without :
    (id j : String) (l : List Server)
    → All (λ s. str_eq s.id id ≡ false) (tagged j l)
    → tagged j (without id l) ≡ tagged j l
tagged-without id j l h =
    select-select (λ s. str_eq s.cluster_id j) (λ s. not (str_eq s.id id)) l
    ∙ without-apart id (tagged j l) h
