-- ===== src/Client/Lambda/Create.antt =====
-- lambda.go, CreateServer: the type and the region, the launch, and the wait until the instance is
-- active, which has no deadline of its own.
use pandion.Prelude.{
  ℕ, ◌*◌, String, not, ◌&&◌, ◌||◌, List, [], ◌∷◌, Option, none, some, str_eq, if◌then◌else◌,
}
use pandion.Prelude.Text.{equal_fold}
use pandion.Errors.{transient, reported, calling}
use pandion.Provider.{Context, Provider, Server, ServerSpec, Float, wanted}
use pandion.Select.{Ordered}
use pandion.Client.{Call, pure, raise, fail, wrapping, try, ◌>>=◌}
use pandion.Client.Loops.{poll, waited}
use pandion.Client.Request.{second}
use pandion.Client.Lambda.{
  Api, Config, Client, Instance, LaunchReq, server_name, get_instance, launch,
}
use pandion.Client.Lambda.Http.{request}
use pandion.Client.Lambda.Gpu.{pick_region}
use pandion.Client.Lambda.Catalog.{resolve_gpu_type, offering_for}
use pandion.Client.Lambda.Keys.{ensure_login_key}
use pandion.Client.Lambda.Teardown.{to_server, destroy_server, list_by_tag, list_all_tagged}

module _ {C : Type 0} (api : Api C) (cfg : Config) (ctx : Context) where
  -- A round of waitRunning: an instance that died while booting is cleaned up, and its failure is
  -- a transient one.
  unfoldable pub check_running : String → Call (Client C) (Option Instance)
  check_running id = do
    a ← request api cfg ctx (get_instance id)
    if equal_fold a.instance.status "active" && not (str_eq a.instance.ip "")
        then pure (some a.instance)
        else if equal_fold a.instance.status "terminated" || equal_fold a.instance.status "error"
        then (do
          ignored ← try (destroy_server api cfg ctx id)
          raise (transient (reported "instance terminated while booting")))
        else pure none

  -- `limit` rounds of the loop.
  unfoldable pub wait_running : ℕ → String → Call (Client C) (Option Instance)
  unfolding check_running
  wait_running limit id = poll ctx (5 * second) none "" (check_running id) limit

module _ {F C : Type 0} (fl : Float F) (o : Ordered F) (api : Api C) (cfg : Config) (limit : ℕ)
    (ctx : Context) where
  -- The region of an exact type.
  unfoldable pub exact_type : ServerSpec → Call (Client C) (String × String)
  exact_type spec = do
    g ← offering_for fl o api cfg ctx spec.type
    let region = pick_region g.regions spec.region_pref
    if str_eq region "" then fail "type has no region with capacity" else pure (spec.type, region)

  unfoldable pub resolve : ServerSpec → Call (Client C) (String × String)
  unfolding exact_type
  resolve spec =
      if str_eq spec.type ""
      then resolve_gpu_type fl o api cfg ctx spec.gpu spec.region_pref
      else exact_type spec

  abbrev pub launch_req : ServerSpec → String × String → List String → LaunchReq
  launch_req spec found keys = record {
    region_name = found.1;
    instance_type_name = found.0;
    ssh_key_names = keys;
    name = server_name spec.cluster_id spec.name;
    quantity = 1;
    user_data = spec.user_data;
  }

  -- After a launch that the cloud accepted.
  unfoldable pub launched : ServerSpec → List String → Call (Client C) Server
  launched spec [] = fail "launch returned no instance id"
  launched spec (id ∷ ids) = do
    i ← waited (wait_running api cfg ctx limit id)
    pure (to_server i spec.cluster_id)

  unfoldable pub create_server : ServerSpec → Call (Client C) Server
  unfolding resolve launched wanted
  create_server spec =
      if not (wanted spec.gpu) && str_eq spec.type ""
      then fail "lambda only provisions GPU instances"
      else (do
        found ← resolve spec
        keys ← ensure_login_key api cfg ctx spec.cluster_id spec.login_pub_key
        a ← wrapping (calling "launch") (request api cfg ctx (launch (launch_req spec found keys)))
        launched spec a.instance_ids)

abbrev pub lambda : {F C : Type 0} → Float F → Ordered F → Api C → Config → ℕ → Provider (Client C)
lambda fl o api cfg limit = record {
  name = "lambda";
  create_server = λ ctx spec. create_server fl o api cfg limit ctx spec;
  destroy_server = λ ctx id. destroy_server api cfg ctx id;
  list_by_tag = λ ctx id. list_by_tag api cfg ctx id;
  list_all_tagged = λ ctx. list_all_tagged api cfg ctx;
  reap_aux = none;
}
