-- ===== src/Orchestrator/Down/Kept.antt =====
-- A property of the backend's state that listings and reapings keep, and the destroys of the listed
-- servers too, is kept by a teardown.
use pandion.Prelude.{ℕ, ◌≡◌, refl, String, List, [], ◌∷◌, Option, none, some, arith, All}
use pandion.Errors.{Result, ok, err, Error}
use pandion.Provider.{Context, Net, Provider, Server}
use pandion.Orchestrator.{World, journal}
use pandion.Orchestrator.Retry.{destroy_with_retry, destroy_attempts}
use pandion.Orchestrator.Retry.Laws.{destroy_rounds_keep}
use pandion.Orchestrator.Down.{
  down, verify_down, confirm, after_destroys, after_listing, destroy_all, journal_teardown,
  reap_auxiliary, first_error,
}

pub net-journal_teardown :
    {C : Type 0} (id : String) (w : World C) → (journal_teardown id w).net ≡ w.net
unfolding journal_teardown journal
net-journal_teardown id w = ground arith

module _ {C : Type 0} (p : Provider C) (base_delay : ℕ) (ctx : Context) (P : C → Type 0) where
  -- No destroy of the server breaks the property.
  abbrev pub Harmless : Server → Type 0
  Harmless s = (m : Net C) → P m.cloud → P (p.destroy_server ctx s.id m).1.cloud

  pub destroy_all_keep :
      (first : Option Error) (ss : List Server) (n : Net C)
      → All Harmless ss
      → P n.cloud
      → P (destroy_all p base_delay ctx first ss n).1.cloud
  unfolding destroy_all destroy_with_retry
  destroy_all_keep first [] n keep h = h
  destroy_all_keep first (s ∷ ss) n keep h =
      let (r, n') = destroy_with_retry p ctx s.id base_delay destroy_attempts n in
      destroy_all_keep (first_error first r) ss n' keep.1
        (destroy_rounds_keep p ctx s.id P destroy_attempts 0 base_delay [] n keep.0 h)

  module _ (list : (id : String) (n : Net C) → P n.cloud → P (p.list_by_tag ctx id n).1.cloud)
      (reap : (id : String) (n : Net C) → P n.cloud → P (reap_auxiliary p ctx id n).1.cloud) where
    confirm_keep :
        (id : String) (left : Result (List Server)) (w : World C)
        → P w.net.cloud
        → P (confirm p ctx id left w).1.net.cloud
    unfolding confirm
    confirm_keep id (err e) w h = h
    confirm_keep id (ok (s ∷ more)) w h = h
    confirm_keep id (ok []) w h = let reaped = reap id w.net h in ground arith

    after_destroys_keep :
        (id : String) (first : Option Error) (w : World C)
        → P w.net.cloud
        → P (after_destroys p ctx id first w).1.net.cloud
    unfolding after_destroys verify_down
    after_destroys_keep id (some e) w h = h
    after_destroys_keep id none w h =
        let (left, n) = p.list_by_tag ctx id w.net in
        confirm_keep id left (record w { net = n }) (list id w.net h)

    after_listing_keep :
        (id : String) (servers : Result (List Server)) (w : World C)
        → ((l : List Server) → servers ≡ ok l → All Harmless l)
        → P w.net.cloud
        → P (after_listing p base_delay ctx id servers w).1.net.cloud
    unfolding after_listing
    after_listing_keep id (err e) w keep h = h
    after_listing_keep id (ok ss) w keep h =
        let w1 = journal_teardown id w in
        let (first, n) = destroy_all p base_delay ctx none ss w1.net in
        after_destroys_keep id first (record w1 { net = n })
          (destroy_all_keep none ss w1.net (keep ss refl) (rw (net-journal_teardown id w) h))

    pub down_keep :
        (id : String) (w : World C)
        → ((l : List Server) → (p.list_by_tag ctx id w.net).0 ≡ ok l → All Harmless l)
        → P w.net.cloud
        → P (down p base_delay ctx id w).1.net.cloud
    unfolding down
    down_keep id w keep h =
        let (l, n) = p.list_by_tag ctx id w.net in
        after_listing_keep id l (record w { net = n }) keep (list id w.net h)
