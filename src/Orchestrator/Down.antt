-- ===== src/Orchestrator/Down.antt =====
-- Down: reconcile a cluster to empty, with the backend as the source of truth.
pub mod Contract
pub mod Kept
pub mod Verified
pub mod Others
use pandion.Prelude.{ℕ, String, List, [], ◌∷◌, Option, none, some, length, map, ltb, true, false}
use pandion.Errors.{
  Result, ok, err, Error, wrapped, listing, tearing_down, reaping_aux, servers_remain,
}
use pandion.Provider.{Context, Net, Provider, Server}
use pandion.State.{Phase, Node, Cluster, load, close}
use pandion.State
use pandion.Orchestrator.{World, journal}
use pandion.Orchestrator.Retry.{destroy_with_retry, destroy_attempts}

abbrev pub tear_down_node : Node → Node
tear_down_node n = record n { phase = Phase.tearing_down }

abbrev pub tearing : Cluster → Cluster
tearing c = record c { nodes = map tear_down_node c.nodes }

-- The best-effort journal of the intent: its errors are dropped.
unfoldable pub journal_teardown : {C : Type 0} → String → World C → World C
journal_teardown {C} id w =
    let (r, d) = load id w.disk in
    let w' : World C = record w { disk = d } in
    elim r [ ok c ↦ (journal (tearing c) w').1 | err _ ↦ w' ]

abbrev pub first_error : Option Error → Result (Unit {0}) → Option Error
first_error (some e) r = some e
first_error none (ok _) = none
first_error none (err e) = some e

module _ {C : Type 0} (p : Provider C) (base_delay : ℕ) (ctx : Context) where
  -- The loop over the servers: it goes on past a failure and keeps the first error.
  unfoldable pub destroy_all : Option Error → List Server → Net C → Option Error × Net C
  destroy_all first [] n = (first, n)
  destroy_all first (s ∷ rest) n =
      let (r, n') = destroy_with_retry p ctx s.id base_delay destroy_attempts n in
      destroy_all (first_error first r) rest n'

module _ {C : Type 0} (p : Provider C) (ctx : Context) where
  -- ReapAux, if the backend has it.
  unfoldable pub reap_auxiliary : String → Net C → Result (Unit {0}) × Net C
  reap_auxiliary id n = elim p.reap_aux [ none ↦ (ok tt, n) | some reap ↦ reap ctx id n ]

  -- After the second listing: nothing may be left.
  unfoldable pub confirm : String → Result (List Server) → World C → Result (Unit {0}) × World C
  unfolding reap_auxiliary
  confirm id (err e) w = (err e, w)
  confirm id (ok (s ∷ more)) w = (err (servers_remain (length (s ∷ more)) id), w)
  confirm id (ok []) w =
      let (r, n) = reap_auxiliary id w.net in
      elim r [
        | err e ↦ (err (wrapped (reaping_aux id) e), record w { net = n })
        | ok _ ↦ let (q, d) = close id w.disk in (q, record { net = n; disk = d })
      ]

  unfoldable pub verify_down : String → World C → Result (Unit {0}) × World C
  unfolding confirm
  verify_down id w =
      let (left, n) = p.list_by_tag ctx id w.net in confirm id left (record w { net = n })

  -- After the loop over the servers: a failure ends the teardown.
  unfoldable pub after_destroys : String → Option Error → World C → Result (Unit {0}) × World C
  unfolding verify_down
  after_destroys id (some e) w = (err (wrapped (tearing_down id) e), w)
  after_destroys id none w = verify_down id w

module _ {C : Type 0} (p : Provider C) (base_delay : ℕ) (ctx : Context) where
  -- After the first listing.
  unfoldable pub after_listing :
      String → Result (List Server) → World C → Result (Unit {0}) × World C
  unfolding after_destroys destroy_all journal_teardown
  after_listing id (err e) w = (err (wrapped (listing id) e), w)
  after_listing id (ok servers) w =
      let w1 = journal_teardown id w in
      let (first, n) = destroy_all p base_delay ctx none servers w1.net in
      after_destroys p ctx id first (record w1 { net = n })

  unfoldable pub down : String → World C → Result (Unit {0}) × World C
  unfolding after_listing
  down id w =
      let (servers, n) = p.list_by_tag ctx id w.net in
      after_listing id servers (record w { net = n })
