-- ===== src/Client/Lambda/Teardown.antt =====
-- lambda.go: terminating an instance, and the instances that still count.
use pandion.Prelude.{
  String, not, List, [], ◌∷◌, Option, none, some, str_eq, if◌then◌else◌, map, select,
}
use pandion.Errors.{ok, err}
use pandion.Provider.{Context, Server, GpuInfo, no_gpu_info}
use pandion.Client.{Call, pure, raise, try, ◌>>=◌}
use pandion.Client.Names.{sanitize_words}
use pandion.Client.Lambda.{
  Api, Config, Client, Instance, cluster_of, is_terminating, get_instances, terminate,
}
use pandion.Client.Lambda.Http.{request, is_not_found}
use pandion.Client.Lambda.Gpu.{parse_gpu}

abbrev gpu_or : Option GpuInfo → GpuInfo
gpu_or none = no_gpu_info
gpu_or (some g) = g

unfoldable pub to_server : Instance → String → Server
unfolding parse_gpu
to_server i cluster_id = record {
  id = i.id;
  name = i.name;
  cluster_id = cluster_id;
  type = i.instance_type.name;
  region = i.region;
  ip = i.ip;
  created = none;
  gpu = gpu_or (parse_gpu i.instance_type.name i.instance_type.description);
}

module _ {C : Type 0} (api : Api C) (cfg : Config) (ctx : Context) where
  -- A termination of an instance that is not there succeeds.
  unfoldable pub destroy_server : String → Call (Client C) (Unit {0})
  destroy_server id = do
    r ← try (request api cfg ctx (terminate (id ∷ [])))
    elim r [ ok a ↦ pure tt | err e ↦ if is_not_found e then pure tt else raise e ]

  unfoldable pub list_instances : Call (Client C) (List Instance)
  unfolding is_terminating
  list_instances = do
    a ← request api cfg ctx get_instances
    pure (select (λ i. not (is_terminating i.status)) a.instances)

  unfoldable pub list_by_tag : String → Call (Client C) (List Server)
  unfolding list_instances
  list_by_tag cluster_id = do
    found ← list_instances
    pure (
        map (λ i. to_server i cluster_id)
          (select (λ i. str_eq (cluster_of i.name) (sanitize_words cluster_id)) found))

  unfoldable pub list_all_tagged : Call (Client C) (List Server)
  unfolding list_instances
  list_all_tagged = do
    found ← list_instances
    pure (
        map (λ i. to_server i (cluster_of i.name))
          (select (λ i. not (str_eq (cluster_of i.name) "")) found))
