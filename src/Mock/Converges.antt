-- ===== src/Mock/Converges.antt =====
-- The orchestrator over the mock: a teardown goes through while the injected failures fit the
-- retries, and so does a creation while the transient boots do.
use pandion.Prelude.{
  select-select, ℕ, zero, suc, ◌+◌, ◌*◌, ◌≤◌, ◌≡◌, refl, String, true, false, not, ◌⊎◌, inl, inr,
  List, [], ◌∷◌, ◌++◌, none, arith, str_eq, eq_refl, if◌then◌else◌, ap, ◌∙◌, ltb,
}
use pandion.Prelude.Dict.{values}
use pandion.Errors.{ok, err, Error, wrapped, attempt}
use pandion.Provider.{Net, Server, Float}
use pandion.State.{load, save, close}
use pandion.Orchestrator.{World, journal, pause}
use pandion.Orchestrator.Retry.{destroy_rounds, destroy_with_retry, destroy_attempts}
use pandion.Orchestrator.Down.{
  down, verify_down, confirm, after_listing, destroy_all, journal_teardown,
}
use pandion.Orchestrator.Down.Contract.{tagged, without}
use pandion.Orchestrator.Down.Kept.{net-journal_teardown}
use pandion.Mock.{Mock, mock, destroy, destroy_server, save_locked, list_by_tag, reap_aux}
use pandion.Mock.Valid.{IsValid, destroy-ok, destroy-IsValid}

faults-journal_teardown :
    {C : Type 0} (id : String) (w : World C)
    → w.disk.faults ≡ []
    → (journal_teardown id w).disk.faults ≡ []
unfolding journal_teardown journal save load
faults-journal_teardown id w f = ground arith

-- The destroys that are set to fail.
abbrev pub budget : Mock → ℕ
budget m = (if m.fail_destroy_once then 1 else 0) + m.fail_destroy_n

-- The servers left once each of a list has been destroyed.
abbrev pub without_all : List Server → List Server → List Server
without_all [] l = l
without_all (s ∷ ss) l = without_all ss (without s.id l)

without_all-nil : (ss : List Server) → without_all ss [] ≡ []
without_all-nil [] = refl
without_all-nil (s ∷ ss) = without_all-nil ss

without_all-without :
    (ss : List Server) (id : String) (l : List Server)
    → without_all ss (without id l) ≡ without id (without_all ss l)
without_all-without [] id l = refl
without_all-without (s ∷ ss) id l =
    ap (without_all ss) (select-select (λ x. not (str_eq x.id s.id)) (λ x. not (str_eq x.id id)) l)
    ∙ without_all-without ss id (without s.id l)

without_all_self : (ss : List Server) → without_all ss ss ≡ []
without_all_self [] = refl
without_all_self (s ∷ ss) =
    rw (eq_refl s.id) (without_all-without ss s.id ss ∙ ap (without s.id) (without_all_self ss))

tagged-without_all :
    (id : String) (ss l : List Server) → tagged id (without_all ss l) ≡ without_all ss (tagged id l)
tagged-without_all id [] l = refl
tagged-without_all id (s ∷ ss) l =
    tagged-without_all id ss (without s.id l)
    ∙ ap (without_all ss)
        (select-select (λ x. str_eq x.cluster_id id) (λ x. not (str_eq x.id s.id)) l)

-- The state after a destroy that goes through.
record Cleared (id : String) (before after : Mock) : Type 0 where
  pub valid : IsValid after
  pub spent : budget after ≡ 0
  pub reaps : after.fail_reap_aux ≡ before.fail_reap_aux
  pub left : values after.servers ≡ without id (values before.servers)

-- The state after a destroy that is set to fail.
record Spent (before after : Mock) : Type 0 where
  pub valid : IsValid after
  pub spent : budget after + 1 ≡ budget before
  pub reaps : after.fail_reap_aux ≡ before.fail_reap_aux
  pub left : values after.servers ≡ values before.servers

destroy-spends :
    (id : String) (m : Mock)
    → IsValid m
    → ((budget m ≡ 0) × ((destroy id m).0 ≡ ok tt) × Cleared id m (destroy id m).1)
      ⊎ ((e : Error) × ((destroy id m).0 ≡ err e) × Spent m (destroy id m).1)
unfolding destroy save_locked
destroy-spends id m v = ground (arith, destroy-ok id m v, destroy-IsValid id m v)

module _ {F : Type 0} (fl : Float F) where
  destroy_rounds-Cleared :
      (id : String) (left done delay : ℕ) (errs : List Error) (n : Net Mock)
      → IsValid n.cloud
      → budget n.cloud ≤ left
      → ((destroy_rounds (mock fl) none id (suc left) done delay errs n).0 ≡ ok tt)
        × Cleared id n.cloud (destroy_rounds (mock fl) none id (suc left) done delay errs n).1.cloud
  unfolding destroy_rounds destroy_server pause
  destroy_rounds-Cleared id zero done delay errs n v b = elim (destroy-spends id n.cloud v) [
    | inl (z, e, c) ↦ rw e (refl, c)
    | inr (x, e, c) ↦ absurd (omega arith)
  ]
  destroy_rounds-Cleared id (suc left) done delay errs n v b = elim (destroy-spends id n.cloud v) [
    | inl (z, e, c) ↦ rw e (refl, c)
    | inr (x, e, c) ↦
        let n' : Net Mock = record { cloud = (destroy id n.cloud).1; now = n.now + delay } in
        let es = errs ++ wrapped (attempt (done + 1)) x ∷ [] in
        let (r, d) =
          destroy_rounds-Cleared id left (done + 1) (delay * 3) es n' c.valid (omega arith) in
        let more : ltb 0 (suc left) ≡ true = ground arith in
        rw (e, more)
          (
            r,
            record {
              valid = d.valid;
              spent = d.spent;
              reaps = d.reaps ∙ c.reaps;
              left = d.left ∙ ap (without id) c.left;
            },
          )
  ]

  -- The loop over the servers of a listing destroys each of them.
  destroy_all-mock :
      (base_delay : ℕ) (ss : List Server) (n : Net Mock)
      → IsValid n.cloud
      → budget n.cloud ≤ 2
      → ((destroy_all (mock fl) base_delay none none ss n).0 ≡ none)
        × IsValid (destroy_all (mock fl) base_delay none none ss n).1.cloud
        × ((destroy_all (mock fl) base_delay none none ss n).1.cloud.fail_reap_aux
            ≡ n.cloud.fail_reap_aux)
        × (values (destroy_all (mock fl) base_delay none none ss n).1.cloud.servers
            ≡ without_all ss (values n.cloud.servers))
  unfolding destroy_all destroy_with_retry
  destroy_all-mock base_delay [] n v b = (refl, v, refl, refl)
  destroy_all-mock base_delay (s ∷ ss) n v b =
      let n' = (destroy_with_retry (mock fl) none s.id base_delay destroy_attempts n).1 in
      let (e, c) = destroy_rounds-Cleared s.id 2 0 base_delay [] n v b in
      let (none_failed, valid, reaps, left) =
        destroy_all-mock base_delay ss n' c.valid (omega arith) in
      rw (e, destroy_all) (none_failed, valid, reaps ∙ c.reaps, left ∙ ap (without_all ss) c.left)

  confirm-mock :
      (id : String) (w : World Mock)
      → w.net.cloud.fail_reap_aux ≡ false
      → w.disk.faults ≡ []
      → (confirm (mock fl) none id (ok []) w).0 ≡ ok tt
  unfolding confirm reap_aux close
  confirm-mock id w r f = ground arith

  after_listing-mock :
      (base_delay : ℕ) (id : String) (w : World Mock)
      → IsValid w.net.cloud
      → budget w.net.cloud ≤ 2
      → w.net.cloud.fail_reap_aux ≡ false
      → w.disk.faults ≡ []
      → (after_listing
          (mock fl)
          base_delay
          none
          id
          (ok (tagged id (values w.net.cloud.servers)))
          w).0
        ≡ ok tt
  unfolding after_listing verify_down list_by_tag
  after_listing-mock base_delay id w v b r f =
      let w1 = journal_teardown id w in
      let ss = tagged id (values w.net.cloud.servers) in
      let (none_failed, valid, reaps, left) = destroy_all-mock base_delay ss w.net v b in
      let n = (destroy_all (mock fl) base_delay none none ss w.net).1 in
      let gone : tagged id (values n.cloud.servers) ≡ [] =
        ap (tagged id) left
        ∙ tagged-without_all id ss (values w.net.cloud.servers)
        ∙ without_all_self ss in
      rw (net-journal_teardown id w, none_failed, gone)
        (confirm-mock id (record w1 { net = n }) (reaps ∙ r) (faults-journal_teardown id w f))

-- On the mock, from a state that is valid and with a context that is not cancelled, a teardown
-- goes through whenever the destroys that are set to fail number at most two, the reaping
-- of auxiliary resources is not set to fail and the disk works: each failure costs one retry, and
-- the loop over the servers leaves none that carries the cluster's tag.
pub down-mock :
    {F : Type 0} (fl : Float F) (base_delay : ℕ) (id : String) (w : World Mock)
    → IsValid w.net.cloud
    → budget w.net.cloud ≤ 2
    → w.net.cloud.fail_reap_aux ≡ false
    → w.disk.faults ≡ []
    → (down (mock fl) base_delay none id w).0 ≡ ok tt
unfolding down list_by_tag
down-mock fl base_delay id w v b r f = after_listing-mock fl base_delay id w v b r f
