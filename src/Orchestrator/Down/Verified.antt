-- ===== src/Orchestrator/Down/Verified.antt =====
-- What a successful Down has verified.
use pandion.Prelude.{ℕ, ◌≡◌, String, List, [], ◌∷◌, Option, none, some, arith, eq_refl, All}
use pandion.Prelude.Dict.{lookup}
use pandion.Errors.{Result, ok, err, Error}
use pandion.Provider.{Context, Provider, Server}
use pandion.State.Records.{records-close}
use pandion.Orchestrator.{World}
use pandion.Orchestrator.Down.{
  down, verify_down, after_destroys, after_listing, destroy_all, journal_teardown,
}
use pandion.Orchestrator.Down.Contract.{Contract, tagged}
use pandion.Orchestrator.Down.Kept.{net-journal_teardown, Harmless, destroy_all_keep, down_keep}

module _ {C : Type 0} (p : Provider C) (k : Contract p) (base_delay : ℕ) (ctx : Context) where
  open k use {alive, valid, names}

  -- A success: the backend has nothing of the cluster, and its record is gone.
  abbrev pub IsGone : String → World C → Type 0
  IsGone id w = (tagged id (alive w.net.cloud) ≡ []) × (lookup w.disk.records id ≡ none)

  verify_down-IsGone :
      (id : String) (w : World C)
      → names id
      → valid w.net.cloud
      → (verify_down p ctx id w).0 ≡ ok tt
      → IsGone id (verify_down p ctx id w).1
  unfolding verify_down
  verify_down-IsGone id w name v h =
      let n = (p.list_by_tag ctx id w.net).1 in
      let kept = k.list_keeps ctx id w.net v in
      ground (
        arith,
        k.lists ctx id w.net [] name v,
        kept,
        k.reap_keeps ctx id n kept.0,
        records-close id id w.disk,
        eq_refl id,
      )

  after_destroys-IsGone :
      (id : String) (first : Option Error) (w : World C)
      → names id
      → valid w.net.cloud
      → (after_destroys p ctx id first w).0 ≡ ok tt
      → IsGone id (after_destroys p ctx id first w).1
  unfolding after_destroys
  after_destroys-IsGone id (some e) w name v h = cc
  after_destroys-IsGone id none w name v h = verify_down-IsGone id w name v h

  All-valid : (ss : List Server) → All (Harmless p base_delay ctx valid) ss
  All-valid [] = tt
  All-valid (s ∷ ss) = (k.destroy_valid ctx s.id, All-valid ss)

  pub down-valid :
      (id : String) (w : World C)
      → valid w.net.cloud
      → valid (down p base_delay ctx id w).1.net.cloud
  down-valid id w v =
      down_keep p base_delay ctx valid (λ i n h. (k.list_keeps ctx i n h).0)
        (λ i n h. (k.reap_keeps ctx i n h).0) id w (λ l e. All-valid l) v

  after_listing-IsGone :
      (id : String) (servers : Result (List Server)) (w : World C)
      → names id
      → valid w.net.cloud
      → (after_listing p base_delay ctx id servers w).0 ≡ ok tt
      → IsGone id (after_listing p base_delay ctx id servers w).1
  unfolding after_listing
  after_listing-IsGone id (err e) w name v h = cc
  after_listing-IsGone id (ok ss) w name v h =
      let w1 = journal_teardown id w in
      let (first, n) = destroy_all p base_delay ctx none ss w1.net in
      after_destroys-IsGone id first (record w1 { net = n }) name
        (destroy_all_keep p base_delay ctx valid none ss w1.net (All-valid ss)
          (rw (net-journal_teardown id w) v))
        h

  -- Where Down reports success, over a backend that keeps its contract, from a state that is valid by
  -- it and for a cluster id that it tells apart, the backend has no server of the cluster left,
  -- whatever the journal held, and the journal has no record of it. Nothing but the teardown acts on
  -- the backend while it runs.
  pub down-IsGone :
      (id : String) (w : World C)
      → names id
      → valid w.net.cloud
      → (down p base_delay ctx id w).0 ≡ ok tt
      → IsGone id (down p base_delay ctx id w).1
  unfolding down
  down-IsGone id w name v h =
      let (l, n) = p.list_by_tag ctx id w.net in
      after_listing-IsGone id l (record w { net = n }) name (k.list_keeps ctx id w.net v).0 h
