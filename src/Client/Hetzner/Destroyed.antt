-- ===== src/Client/Hetzner/Destroyed.antt =====
-- What a destroy by the Hetzner client makes of the servers that it lists.
use pandion.Prelude.{
  ◌≡◌, sym, ap, ◌∙◌, ◌⊎◌, inl, inr, String, Option, none, some, arith, All, subst,
}
use pandion.Prelude.Integer.{ℤ, parse_int}
use pandion.Errors.{ok, err, Error, Result-cases}
use pandion.Provider.{Context, Net}
use pandion.Orchestrator.Down.Contract.{without}
use pandion.Client.{>>=-cases}
use pandion.Client.Hetzner.{Api, Machine}
use pandion.Client.Hetzner.Teardown.{delete_found, destroy_parsed, destroy_server}
use pandion.Client.Hetzner.Refined.{
  Documented, HasId, IsServerId, servers_of, servers_of-drop_id, drop_id-HasId,
  destroy_server-Destroyed,
}

module _ {F C : Type 0} (api : Api F C) (d : Documented api) (ctx : Context) where
  open d use {machines}

  -- A destroy of an id that the cloud gave takes that server from the view or, where it fails, may
  -- leave the view as it is.
  pub destroy_server-ok :
      (id : String) (n : Net C)
      → IsServerId id
      → All HasId (machines n.cloud)
      → (destroy_server api ctx id n).0 ≡ ok tt
      → servers_of (machines (destroy_server api ctx id n).1.cloud)
        ≡ without id (servers_of (machines n.cloud))
  destroy_server-ok id n (k, own, small) ids =
      subst
        (λ i.
          (destroy_server api ctx i n).0 ≡ ok tt
          → servers_of (machines (destroy_server api ctx i n).1.cloud)
            ≡ without i (servers_of (machines n.cloud)))
        (sym own)
        (λ h. elim (destroy_server-Destroyed api d ctx k n small ids) [
          | inl (e, less) ↦ ap servers_of less ∙ servers_of-drop_id k (machines n.cloud) ids
          | inr (x, e, change) ↦ absurd (ground (arith, e, h))
        ])

  pub destroy_server-err :
      (id : String) (n : Net C) (x : Error)
      → IsServerId id
      → All HasId (machines n.cloud)
      → (destroy_server api ctx id n).0 ≡ err x
      → (servers_of (machines (destroy_server api ctx id n).1.cloud)
          ≡ servers_of (machines n.cloud))
        ⊎ (servers_of (machines (destroy_server api ctx id n).1.cloud)
            ≡ without id (servers_of (machines n.cloud)))
  destroy_server-err id n x (k, own, small) ids =
      subst
        (λ i.
          (destroy_server api ctx i n).0 ≡ err x
          → (servers_of (machines (destroy_server api ctx i n).1.cloud)
              ≡ servers_of (machines n.cloud))
            ⊎ (servers_of (machines (destroy_server api ctx i n).1.cloud)
                ≡ without i (servers_of (machines n.cloud))))
        (sym own)
        (λ h. elim (destroy_server-Destroyed api d ctx k n small ids) [
          | inl (e, less) ↦ absurd (ground (arith, e, h))
          | inr (y, e, inl same) ↦ inl (ap servers_of same)
          | inr (y, e, inr less) ↦
              inr (ap servers_of less ∙ servers_of-drop_id k (machines n.cloud) ids)
        ])

-- A destroy of any id keeps the ids that the cloud gives.
module _ {F C : Type 0} (api : Api F C) (d : Documented api) (ctx : Context) where
  open d use {machines}

  delete_found-HasId :
      (o : Option Machine) (n : Net C)
      → All HasId (machines n.cloud)
      → All HasId (machines (delete_found api ctx o n).1.cloud)
  unfolding delete_found
  delete_found-HasId none n ids = ids
  delete_found-HasId (some m) n ids =
      let fewer = drop_id-HasId m.id (machines n.cloud) ids in
      elim (Result-cases (api.delete ctx m.id n).0) [
        | inl (u, e) ↦ subst (All HasId) (sym (d.deletes ctx m.id n e)) fewer
        | inr (x, e) ↦ elim (d.delete_fails ctx m.id n x e) [
          | inl same ↦ subst (All HasId) (sym same) ids
          | inr less ↦ subst (All HasId) (sym less) fewer
        ]
      ]

  destroy_parsed-HasId :
      (o : Option ℤ) (n : Net C)
      → All HasId (machines n.cloud)
      → All HasId (machines (destroy_parsed api ctx o n).1.cloud)
  unfolding destroy_parsed
  destroy_parsed-HasId none n ids = ids
  destroy_parsed-HasId (some sid) n ids =
      let get = api.get_by_id ctx sid in
      let kept = subst (All HasId) (sym (d.quiet_get ctx sid n)) ids in
      elim (>>=-cases (delete_found api ctx) get n) [
        | inr (x, e, stop) ↦ subst (λ r. All HasId (machines r.1.cloud)) (sym stop) kept
        | inl (o, e, go) ↦
            subst (λ r. All HasId (machines r.1.cloud)) (sym go)
              (delete_found-HasId o (get n).1 kept)
      ]

  pub destroy_server-HasId :
      (id : String) (n : Net C)
      → All HasId (machines n.cloud)
      → All HasId (machines (destroy_server api ctx id n).1.cloud)
  unfolding destroy_server
  destroy_server-HasId id n ids = destroy_parsed-HasId (parse_int id) n ids
