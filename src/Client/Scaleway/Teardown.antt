-- ===== src/Client/Scaleway/Teardown.antt =====
-- scaleway.go: listing servers zone by zone, and destroying one with the volumes it leaves.
use pandion.Prelude.{
  ℕ, ◌*◌, String, List, [], ◌∷◌, ◌++◌, Option, none, some, if◌then◌else◌, map, select,
}
use pandion.Prelude.Unique.{contains}
use pandion.Errors.{Result, ok, err, wrapped, calling}
use pandion.Provider.{Server, Provider}
use pandion.Select.{Ordered}
use pandion.Client.{Call, pure, try, settle, first_err, ask, ◌>>=◌, ◌>>◌}
use pandion.Client.Loops.{pages, waited}
use pandion.Client.Names.{cluster_tag, tag_all}
use pandion.Client.Request.{second}
use pandion.Client.Scaleway.{
  Api, Client, Instance, Action, block_volume_ids, is_not_found_err, next_page, to_server,
}
use pandion.Client.Scaleway.Keys.{reap_aux}
use pandion.Client.Scaleway.Create.{create_server}

module _ {F C : Type 0} (api : Api F C) (limit : ℕ) where
  -- The zone of a server and its state, with the zones that are left. A zone that answers with an
  -- error is passed over.
  unfoldable pub locate : List String → String → Call C (Option (String × Instance))
  locate [] id = pure none
  locate (z ∷ zs) id = do
    r ← try (api.get z id)
    elim r [ ok (some s) ↦ pure (some (z, s)) | ok none ↦ locate zs id | err e ↦ locate zs id ]

  -- The error of a termination that counts.
  unfoldable pub terminated : Result (Unit {0}) → Result (Unit {0})
  unfolding is_not_found_err
  terminated (ok u) = ok tt
  terminated (err e) =
      if is_not_found_err api e then ok tt else err (wrapped (calling "terminate") e)

  -- The loop over the volumes.
  unfoldable pub delete_volumes :
      String → Result (Unit {0}) → List String → Call C (Result (Unit {0}))
  delete_volumes zone first [] = pure first
  delete_volumes zone first (v ∷ vs) = do
    r ← try (api.delete_volume zone v)
    delete_volumes zone
        (elim r [
          | ok u ↦ first
          | err e ↦ if is_not_found_err api e then first else first_err first (err e)
        ])
        vs

  unfoldable pub terminate_server : String → Instance → String → Call C (Unit {0})
  unfolding terminated delete_volumes block_volume_ids
  terminate_server zone s id = do
    r ← try (api.action_and_wait zone id Action.terminate (300 * second))
    settle (terminated r)
    first ← delete_volumes zone (ok tt) (block_volume_ids s.volumes)
    settle first

  unfoldable pub destroy_server : List String → String → Call C (Unit {0})
  unfolding locate terminate_server
  destroy_server zones id = do
    found ← locate zones id
    elim found [ none ↦ pure tt | some (z, s) ↦ terminate_server z s id ]

  unfoldable pub list_tagged : List String → String → Call C (List Server)
  list_tagged [] tag = pure []
  list_tagged (z ∷ zs) tag = do
    found ← waited (pages (next_page (api.list_servers z tag)) limit 1 [])
    rest ← list_tagged zs tag
    pure (map to_server (select (λ s. contains s.tags tag) found) ++ rest)

  unfoldable pub list_by_tag : List String → String → Call C (List Server)
  unfolding list_tagged
  list_by_tag zones cluster_id = list_tagged zones (cluster_tag cluster_id)

  unfoldable pub list_all_tagged : List String → Call C (List Server)
  unfolding list_tagged
  list_all_tagged zones = list_tagged zones tag_all

abbrev pub scaleway :
    {F C : Type 0} → Ordered F → Api F C → ℕ → String → List String → Provider (Client F C)
scaleway o api limit project zones = record {
  name = "scaleway";
  create_server = λ ctx spec. create_server o api limit project ctx zones spec;
  destroy_server = λ ctx id. ask (destroy_server api limit zones id);
  list_by_tag = λ ctx id. ask (list_by_tag api limit zones id);
  list_all_tagged = λ ctx. ask (list_all_tagged api limit zones);
  reap_aux = some (λ ctx id. ask (reap_aux api limit project ctx id));
}
