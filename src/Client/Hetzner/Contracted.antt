-- ===== src/Client/Hetzner/Contracted.antt =====
-- The contract that the orchestrator relies on, kept by the Hetzner client.
use pandion.Prelude.{
  str_eq, ℕ, ◌≡◌, sym, ap, ◌∙◌, ◌⊎◌, inl, inr, String, List, [], ◌∷◌, none, false, arith,
  Bool-cases, All, All-select_of, select, map, subst,
}
use pandion.Prelude.Integer.{format_int}
use pandion.Errors.{Result, ok, err, Error, Result-cases}
use pandion.Provider.{Context, Net, Server}
use pandion.Select.{Ordered}
use pandion.Select.Locations.{SearchMode}
use pandion.Prelude.Dict.{lookup}
use pandion.Orchestrator.{World}
use pandion.Orchestrator.Down.{down, reap_auxiliary}
use pandion.Orchestrator.Down.Verified.{down-IsGone}
use pandion.Orchestrator.Down.Contract.{Contract, tagged, without}
use pandion.Client.Hetzner.{Api, Machine, to_server}
use pandion.Client.Hetzner.Teardown.{destroy_server, list_by_tag, reap_aux, hetzner}
use pandion.Client.Hetzner.Destroyed.{destroy_server-ok, destroy_server-err, destroy_server-HasId}
use pandion.Client.Hetzner.Reaped.{reap_aux-IsQuiet}
use pandion.Client.Hetzner.Refined.{
  Documented, HasId, IsServerId, servers_of, is_labelled, is_label, listed-tagged, label,
  list_by_tag-tagged, list_by_tag-IsQuiet,
}

nothing-All :
    (id : String) (ms : List Machine)
    → map (λ m. to_server m id) (select (λ m. is_label id (label m)) ms) ≡ []
    → All (λ m. is_label id (label m) ≡ false) ms
nothing-All id [] h = tt
nothing-All id (m ∷ ms) h = elim (Bool-cases (is_label id (label m))) [
  | inl e ↦ absurd (ground (arith, rw e at h))
  | inr e ↦ (e, nothing-All id ms (rw e at h))
]

seen-ids : (ms : List Machine) → All HasId ms → All (λ s. IsServerId s.id) (servers_of ms)
unfolding to_server
seen-ids [] h = tt
seen-ids (m ∷ ms) ((k, own, small), rest) = elim (Bool-cases (is_labelled (label m))) [
  | inl e ↦ rw e ((k, ap format_int own, small), seen-ids ms rest)
  | inr e ↦ rw e (seen-ids ms rest)
]

module _ {F C : Type 0} (o : Ordered F) (api : Api F C) (d : Documented api) (pref : List String)
    (mode : SearchMode) where
  open d use {machines}

  lists_own :
      (ctx : Context) (id : String) (n : Net C) (l : List Server)
      → d.is_value id
      → All HasId (machines n.cloud)
      → (list_by_tag api ctx id n).0 ≡ ok l
      → (l ≡ tagged id (servers_of (machines n.cloud))) × All (λ s. IsServerId s.id) l
  lists_own ctx id n l value ids h =
      let same = list_by_tag-tagged api d ctx id n l value h in
      (
        same,
        subst (All (λ s. IsServerId s.id)) (sym same) (
            All-select_of (λ s. IsServerId s.id) (λ s. str_eq s.cluster_id id)
              (servers_of (machines n.cloud)) (seen-ids (machines n.cloud) ids)),
      )

  unchanged :
      {a b : C}
      → All HasId (machines a)
      → machines b ≡ machines a
      → All HasId (machines b) × (servers_of (machines b) ≡ servers_of (machines a))
  unchanged v e = (subst (All HasId) (sym e) v, ap servers_of e)

  -- The laws of a backend for the Hetzner client, over the labelled machines.
  pub hetzner-Contract : Contract (hetzner o api pref mode)
  unfolding reap_auxiliary
  hetzner-Contract = record {
    valid = λ c. All HasId (machines c);
    alive = λ c. servers_of (machines c);
    names = d.is_value;
    gives = IsServerId;
    lists = lists_own;
    list_keeps = λ ctx id n v. unchanged v (list_by_tag-IsQuiet api d ctx id n);
    destroy_valid = λ ctx id n v. destroy_server-HasId api d ctx id n v;
    destroys = λ ctx id n own v h. destroy_server-ok api d ctx id n own v h;
    fails = λ ctx id n e own v h. destroy_server-err api d ctx id n e own v h;
    reap_keeps = λ ctx id n v. unchanged v (reap_aux-IsQuiet api d ctx id n);
  }

  -- A call that failed, or that answered with a value.
  abbrev pub Answers : {A : Type 0} → A → Result A → Type 0
  Answers a r = (r ≡ ok a) ⊎ ((e : Error) × (r ≡ err e))

  -- What the operations make of the abstract state, a list of servers.
  abbrev pub Refines : Context → String → String → Net C → Type 0
  Refines ctx cluster id n =
      let view = servers_of (machines n.cloud) in
      let listed = list_by_tag api ctx cluster n in
      let destroyed = destroy_server api ctx id n in
      let reaped = reap_aux api ctx cluster n in
      (Answers (tagged cluster view) listed.0 × (servers_of (machines listed.1.cloud) ≡ view))
      × (((destroyed.0 ≡ ok tt) × (servers_of (machines destroyed.1.cloud) ≡ without id view))
          ⊎ ((e : Error) × (destroyed.0 ≡ err e)
              × ((servers_of (machines destroyed.1.cloud) ≡ view)
                  ⊎ (servers_of (machines destroyed.1.cloud) ≡ without id view))))
      × (servers_of (machines reaped.1.cloud) ≡ view)

  -- Over a cloud that behaves as it is documented, with ids as it gives them, the Hetzner client
  -- implements the abstract backend, a list of servers: for a cluster id that is a label value, a
  -- listing answers with the cluster's servers or fails, and changes nothing; a destroy of an id of
  -- the cloud takes that server away, or fails and takes at most that one away; and the reaping of
  -- what else is registered for the cluster leaves the servers as they are.
  pub hetzner-Refines :
      (ctx : Context) (cluster id : String) (n : Net C)
      → d.is_value cluster
      → IsServerId id
      → All HasId (machines n.cloud)
      → Refines ctx cluster id n
  hetzner-Refines ctx cluster id n value own ids = (
    (
      elim (Result-cases (list_by_tag api ctx cluster n).0) [
        | inl (l, e) ↦ inl (e ∙ ap ok (lists_own ctx cluster n l value ids e).0)
        | inr failed ↦ inr failed
      ],
      ap servers_of (list_by_tag-IsQuiet api d ctx cluster n),
    ),
    elim (Result-cases (destroy_server api ctx id n).0) [
      | inl (u, e) ↦ inl (e, destroy_server-ok api d ctx id n own ids e)
      | inr (x, e) ↦ inr (x, e, destroy_server-err api d ctx id n x own ids e)
    ],
    ap servers_of (reap_aux-IsQuiet api d ctx cluster n),
  )

  -- No machine has the cluster's label.
  no_label :
      (id : String) (ms : List Machine)
      → tagged id (servers_of ms) ≡ []
      → All (λ m. is_label id (label m) ≡ false) ms
  no_label id ms h = nothing-All id ms (listed-tagged id ms ∙ h)

  -- Down over the Hetzner client, over a cloud that behaves as it is documented, with ids as it gives
  -- them, and for a cluster id that is a label value: where it reports success, the project has no
  -- machine with the cluster's label left, and the journal no record of the cluster.
  pub down-hetzner :
      (base_delay : ℕ) (ctx : Context) (id : String) (w : World C)
      → d.is_value id
      → All HasId (machines w.net.cloud)
      → (down (hetzner o api pref mode) base_delay ctx id w).0 ≡ ok tt
      → All
          (λ m. is_label id (label m) ≡ false)
          (machines (down (hetzner o api pref mode) base_delay ctx id w).1.net.cloud)
        × (lookup (down (hetzner o api pref mode) base_delay ctx id w).1.disk.records id ≡ none)
  unfolding hetzner-Contract
  down-hetzner base_delay ctx id w value ids h =
      let gone =
        down-IsGone (hetzner o api pref mode) hetzner-Contract base_delay ctx id w value ids h in
      (
        no_label id (machines (down (hetzner o api pref mode) base_delay ctx id w).1.net.cloud)
            gone.0,
        gone.1,
      )
