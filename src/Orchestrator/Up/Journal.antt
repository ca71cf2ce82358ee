-- ===== src/Orchestrator/Up/Journal.antt =====
-- What UpSpec leaves in the journal, under any failure of the disk and of the backend.
use pandion.Prelude.{ℕ, ◌≡◌, refl, ◌≢◌, ◌⊎◌, inl, inr, String, none, some, arith, eq_refl}
use pandion.Prelude.Dict.{lookup}
use pandion.Errors.{Result, ok, err, Error}
use pandion.Provider.{Context, Net, Provider, Server, ServerSpec}
use pandion.State.{Phase, Cluster, whole, stamp}
use pandion.State.Records.{records-save}
use pandion.Orchestrator.{World, journal}
use pandion.Orchestrator.Retry.{create_with_retry}
use pandion.Orchestrator.Up.{NodeSpec, one_node, server_spec, finish_up, provision, begin, up_spec}

module _ {C : Type 0} (c : Cluster) (w : World C) where
  pub net-journal : (journal c w).1.net ≡ w.net
  unfolding journal
  net-journal = refl

  -- A journal entry is written whole, or the records stay as they were.
  pub journal-cases :
      (((journal c w).0 ≡ ok tt)
        × (lookup (journal c w).1.disk.records c.id ≡ some (whole (stamp w.net.now c))))
      ⊎ ((e : Error) × ((journal c w).0 ≡ err e) × ((journal c w).1.disk.records ≡ w.disk.records))
  unfolding journal
  journal-cases = ground (arith, records-save w.net.now c w.disk c.id, eq_refl c.id)

-- The journal's record of a cluster of one node, in a phase after planning.
pub record IsJournaled {C : Type 0} (provider id : String) (spec : NodeSpec) (w : World C)
    : Type 0 where
  pub at : ℕ
  pub server_id : String
  pub ip : String
  pub phase : Phase
  pub begun : phase ≢ Phase.planned
  pub recorded :
      lookup w.disk.records id
      ≡ some (whole (stamp at (one_node provider id spec server_id ip phase)))

module _ {C : Type 0} (provider id : String) (spec : NodeSpec) where
  journal-IsJournaled :
      (server_id ip : String) (phase : Phase) (w : World C)
      → phase ≢ Phase.planned
      → (IsJournaled provider id spec w
          ⊎ ((journal (one_node provider id spec server_id ip phase) w).0 ≡ ok tt))
      → IsJournaled provider id spec (journal (one_node provider id spec server_id ip phase) w).1
  journal-IsJournaled server_id ip phase w begun h =
      elim (journal-cases (one_node provider id spec server_id ip phase) w) [
        | inl (_, written) ↦ record {
          at = w.net.now;
          server_id = server_id;
          ip = ip;
          phase = phase;
          begun = begun;
          recorded = written;
        }
        | inr (e, failed, same) ↦ elim h [
          | inl j ↦ record {
            at = j.at;
            server_id = j.server_id;
            ip = j.ip;
            phase = j.phase;
            begun = j.begun;
            recorded = rw same j.recorded;
          }
          | inr worked ↦ absurd (ground arith)
        ]
      ]

module _ {C : Type 0} (p : Provider C) (delay : ℕ) (ctx : Context) (id : String)
    (spec : NodeSpec) where
  world-finish_up :
      (srv : Server) (w : World C)
      → (finish_up p delay ctx id spec (ok srv) w).1
        ≡ (journal (one_node p.name id spec srv.id srv.ip Phase.running) w).1
  unfolding finish_up
  world-finish_up srv w = ground arith

  finish_up-IsJournaled :
      (s : Result Server) (w : World C)
      → IsJournaled p.name id spec w
      → IsJournaled p.name id spec (finish_up p delay ctx id spec s w).1
  unfolding finish_up
  finish_up-IsJournaled (err e) w h =
      journal-IsJournaled p.name id spec "" "" Phase.failed w (λ e. cc) (inl h)
  finish_up-IsJournaled (ok srv) w h =
      rw (world-finish_up srv w)
        (journal-IsJournaled p.name id spec srv.id srv.ip Phase.running w (λ e. cc) (inl h))

  provision-IsJournaled :
      (request : ServerSpec) (r : Result (Unit {0})) (w : World C)
      → (r ≡ ok tt → IsJournaled p.name id spec w)
      → ((provision p delay ctx id spec request r w).1.net ≡ w.net)
        ⊎ IsJournaled p.name id spec (provision p delay ctx id spec request r w).1
  unfolding provision
  provision-IsJournaled request (err e) w h = inl refl
  provision-IsJournaled request (ok u) w h =
      let (s, n) = create_with_retry p delay ctx request w.net in
      let j = h refl in
      inr (
        finish_up-IsJournaled s (record w { net = n })
          (record {
            at = j.at;
            server_id = j.server_id;
            ip = j.ip;
            phase = j.phase;
            begun = j.begun;
            recorded = j.recorded;
          }))

  begin-IsJournaled :
      (request : ServerSpec) (r : Result (Unit {0})) (w : World C)
      → ((begin p delay ctx id spec request r w).1.net ≡ w.net)
        ⊎ IsJournaled p.name id spec (begin p delay ctx id spec request r w).1
  unfolding begin journal
  begin-IsJournaled request (err e) w = inl refl
  begin-IsJournaled request (ok u) w =
      let c = one_node p.name id spec "" "" Phase.provisioning in
      let (r, w') = journal c w in
      provision-IsJournaled request r w'
        (λ e. journal-IsJournaled p.name id spec "" "" Phase.provisioning w (λ x. cc) (inr e))

-- No server is created behind the journal's back: whichever writes fail or stop halfway, and
-- whatever the backend answers, either the backend was never called, or the journal holds a whole
-- record of the cluster that says that provisioning had begun.
pub up_spec-IsJournaled :
    {C : Type 0} (p : Provider C) (delay : ℕ) (ctx : Context) (id : String) (spec : NodeSpec)
    (user_data login_pub_key : String) (w : World C)
    → ((up_spec p delay ctx id spec user_data login_pub_key w).1.net ≡ w.net)
      ⊎ IsJournaled p.name id spec (up_spec p delay ctx id spec user_data login_pub_key w).1
unfolding up_spec journal
up_spec-IsJournaled p delay ctx id spec user_data login_pub_key w =
    let c = one_node p.name id spec "" "" Phase.planned in
    let (r, w') = journal c w in
    begin-IsJournaled p delay ctx id spec (server_spec id spec user_data login_pub_key) r w'

-- What a successful UpSpec has done: created the server, and journaled it.
abbrev pub IsUp :
    {C : Type 0}
    → Provider C
    → String
    → NodeSpec
    → Result Server
    → Net C
    → Cluster
    → World C
    → Type 0
IsUp p id spec created n c w =
    (srv : Server) × (created ≡ ok srv)
    × (c ≡ stamp n.now (one_node p.name id spec srv.id srv.ip Phase.running))
    × (lookup w.disk.records id ≡ some (whole c))

module _ {C : Type 0} (p : Provider C) (delay : ℕ) (ctx : Context) (id : String) (spec : NodeSpec)
    (c : Cluster) where
  finish_up-IsUp :
      (s : Result Server) (w : World C)
      → (finish_up p delay ctx id spec s w).0 ≡ (some c, none)
      → IsUp p id spec s w.net c (finish_up p delay ctx id spec s w).1
  unfolding finish_up
  finish_up-IsUp (err e) w h = cc
  finish_up-IsUp (ok srv) w h = (
    srv,
    refl,
    ground arith,
    ground (arith, journal-cases (one_node p.name id spec srv.id srv.ip Phase.running) w),
  )

  provision-IsUp :
      (request : ServerSpec) (r : Result (Unit {0})) (w : World C)
      → (provision p delay ctx id spec request r w).0 ≡ (some c, none)
      → IsUp p id spec
          (create_with_retry p delay ctx request w.net).0
          (create_with_retry p delay ctx request w.net).1
          c
          (provision p delay ctx id spec request r w).1
  unfolding provision
  provision-IsUp request (err e) w h = cc
  provision-IsUp request (ok u) w h =
      let (s, n) = create_with_retry p delay ctx request w.net in
      finish_up-IsUp s (record w { net = n }) h

  begin-IsUp :
      (request : ServerSpec) (r : Result (Unit {0})) (w : World C)
      → (begin p delay ctx id spec request r w).0 ≡ (some c, none)
      → IsUp p id spec
          (create_with_retry p delay ctx request w.net).0
          (create_with_retry p delay ctx request w.net).1
          c
          (begin p delay ctx id spec request r w).1
  unfolding begin journal
  begin-IsUp request (err e) w h = cc
  begin-IsUp request (ok u) w h =
      let (r, w') = journal (one_node p.name id spec "" "" Phase.provisioning) w in
      provision-IsUp request r w' h

  -- If UpSpec returns a cluster and no error, then the backend created a server for the request,
  -- the cluster is the node RUNNING with that server's id and address, and the journal holds
  -- exactly it.
  pub up_spec-IsUp :
      (user_data login_pub_key : String) (w : World C)
      → (up_spec p delay ctx id spec user_data login_pub_key w).0 ≡ (some c, none)
      → IsUp p id spec
          (create_with_retry p delay ctx (server_spec id spec user_data login_pub_key) w.net).0
          (create_with_retry p delay ctx (server_spec id spec user_data login_pub_key) w.net).1
          c
          (up_spec p delay ctx id spec user_data login_pub_key w).1
  unfolding up_spec journal
  up_spec-IsUp user_data login_pub_key w h =
      let (r, w') = journal (one_node p.name id spec "" "" Phase.planned) w in
      begin-IsUp (server_spec id spec user_data login_pub_key) r w' h
