-- ===== src/Client/Linode/Teardown.antt =====
-- linode.go: destroying and listing instances.
use pandion.Prelude.{String, List, none, some, if◌then◌else◌, map, select}
use pandion.Prelude.Integer.{ℤ, parse_int}
use pandion.Prelude.Unique.{contains}
use pandion.Errors.{ok, err}
use pandion.Provider.{Context, Server, Provider, Float}
use pandion.Select.{Ordered}
use pandion.Client.{Call, pure, raise, fail, try, ask, ◌>>=◌}
use pandion.Client.Names.{cluster_tag, tag_all, recover_cluster_id}
use pandion.Client.Linode.{Api, Client, Instance, is_not_found_err, to_server}
use pandion.Client.Linode.Create.{create_server}

module _ {F C : Type 0} (api : Api F C) (ctx : Context) where
  -- A deletion of an instance that is not there succeeds.
  unfoldable pub delete_instance : ℤ → Call C (Unit {0})
  unfolding is_not_found_err
  delete_instance id = do
    r ← try (api.delete_instance ctx id)
    elim r [
      | ok u ↦ pure tt
      | err e ↦ if is_not_found_err (api.code e) (api.message e) then pure tt else raise e
    ]

  unfoldable pub destroy_server : String → Call C (Unit {0})
  unfolding delete_instance
  destroy_server id = elim (parse_int id) [
    | none ↦ fail "invalid linode id"
    | some lid ↦ delete_instance lid
  ]

  unfoldable pub instances_by_tag : String → Call C (List Instance)
  instances_by_tag tag = do
    all ← api.list_instances ctx
    pure (select (λ i. contains i.tags tag) all)

  unfoldable pub list_by_tag : String → Call C (List Server)
  unfolding instances_by_tag
  list_by_tag cluster_id = do
    found ← instances_by_tag (cluster_tag cluster_id)
    pure (map (λ i. to_server i cluster_id) found)

  unfoldable pub list_all_tagged : Call C (List Server)
  unfolding instances_by_tag
  list_all_tagged = do
    found ← instances_by_tag tag_all
    pure (map (λ i. to_server i (recover_cluster_id i.tags)) found)

abbrev pub linode :
    {F C : Type 0} → Float F → Ordered F → Api F C → List String → Provider (Client F C)
linode fl o api region_pref = record {
  name = "linode";
  create_server = λ ctx spec. create_server fl o api ctx region_pref spec;
  destroy_server = λ ctx id. ask (destroy_server api ctx id);
  list_by_tag = λ ctx id. ask (list_by_tag api ctx id);
  list_all_tagged = λ ctx. ask (list_all_tagged api ctx);
  reap_aux = none;
}
