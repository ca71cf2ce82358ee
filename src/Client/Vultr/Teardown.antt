-- ===== src/Client/Vultr/Teardown.antt =====
-- vultr.go: destroying and listing instances, and the key that is left.
use pandion.Prelude.{ℕ, String, List, [], some, if◌then◌else◌, map, select, str_eq}
use pandion.Prelude.Unique.{contains}
use pandion.Errors.{ok, err}
use pandion.Provider.{Context, Server, Provider}
use pandion.Select.{Ordered}
use pandion.Client.{Call, pure, raise, try, settle, delete_each, ask, ◌>>=◌}
use pandion.Client.Loops.{pages, waited}
use pandion.Client.Names.{cluster_tag, tag_all, recover_cluster_id, login_key_name}
use pandion.Client.Vultr.{
  Api, Client, Instance, friendly_err, is_not_found_err, next_cursor, to_server,
}
use pandion.Client.Vultr.Keys.{all_keys}
use pandion.Client.Vultr.Create.{create_server}

module _ {F C : Type 0} (api : Api F C) (limit : ℕ) (ctx : Context) where
  -- A deletion of an instance that is not there succeeds.
  unfoldable pub destroy_server : String → Call C (Unit {0})
  unfolding is_not_found_err
  destroy_server id = do
    r ← try (api.delete ctx id)
    elim r [
      | ok u ↦ pure tt
      | err e ↦ if is_not_found_err (api.message e) then pure tt else raise e
    ]

  unfoldable pub instances_by_tag : String → Call C (List Instance)
  instances_by_tag tag = do
    r ← try (waited (pages (λ t. next_cursor (api.instances ctx t)) limit "" []))
    elim r [
      | err e ↦ raise (friendly_err (api.message e) e)
      | ok all ↦ pure (select (λ i. contains i.tags tag) all)
    ]

  unfoldable pub list_by_tag : String → Call C (List Server)
  unfolding instances_by_tag
  list_by_tag cluster_id = do
    found ← instances_by_tag (cluster_tag cluster_id)
    pure (map (λ i. to_server i cluster_id) found)

  unfoldable pub list_all_tagged : Call C (List Server)
  unfolding instances_by_tag
  list_all_tagged = do
    found ← instances_by_tag tag_all
    pure (map (λ i. to_server i (recover_cluster_id i.tags)) found)

  unfoldable pub reap_aux : String → Call C (Unit {0})
  reap_aux cluster_id = do
    keys ← all_keys api limit ctx
    first ←
        delete_each (λ k. api.delete_key ctx k.id) (ok tt)
          (select (λ k. str_eq k.name (login_key_name cluster_id)) keys)
    settle first

abbrev pub vultr : {F C : Type 0} → Ordered F → Api F C → ℕ → List String → Provider (Client F C)
vultr o api limit region_pref = record {
  name = "vultr";
  create_server = λ ctx spec. create_server o api limit ctx region_pref spec;
  destroy_server = λ ctx id. ask (destroy_server api limit ctx id);
  list_by_tag = λ ctx id. ask (list_by_tag api limit ctx id);
  list_all_tagged = λ ctx. ask (list_all_tagged api limit ctx);
  reap_aux = some (λ ctx id. ask (reap_aux api limit ctx id));
}
