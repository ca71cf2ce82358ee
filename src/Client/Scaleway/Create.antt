-- ===== src/Client/Scaleway/Create.antt =====
-- scaleway.go, CreateServer: the search over zones and types, and the boot of the server that was
-- created.
use pandion.Prelude.{ℕ, ◌*◌, String, not, List, [], ◌∷◌, Option, none, some, str_eq, if◌then◌else◌}
use pandion.Errors.{ok, err, wrapped, calling, creating}
use pandion.Provider.{Context, Server, ServerSpec}
use pandion.Select.{Ordered}
use pandion.Select.Locations.{order_zones}
use pandion.Select.Clouds.Scaleway.{TypeInfo, select_types}
use pandion.Client.{Call, pure, fail, raise, wrapping, try, ask, ◌>>=◌, ◌>>◌}
use pandion.Client.Loops.{wait_until, waited}
use pandion.Client.Names.{server_name, cluster_tag, tag_all}
use pandion.Client.Request.{at_least, image_or, is_strict, second}
use pandion.Client.Scaleway.{Api, Client, CreateRequest, Action, is_availability_err, to_server}
use pandion.Client.Scaleway.Catalog.{zone_types}
use pandion.Client.Scaleway.Keys.{ensure_login_key}

module _ {F : Type 0} where
  unfoldable pub named : String → List (TypeInfo F) → List (TypeInfo F)
  named name [] = []
  named name (t ∷ ts) = let rest = named name ts in if str_eq t.name name then t ∷ [] else rest

  unfoldable pub candidates_for : Ordered F → ServerSpec → List (TypeInfo F) → List (TypeInfo F)
  unfolding named at_least
  candidates_for o spec types =
      if not (str_eq spec.type "")
      then named spec.type types
      else select_types o types (at_least spec.min_cores) (at_least spec.min_ram_gb * 1024)

module _ {F C : Type 0} (o : Ordered F) (api : Api F C) (limit : ℕ) (project : String)
    (ctx : Context) where
  unfoldable pub check_address : String → String → Call C (Option Server)
  check_address zone id = do
    found ← api.get zone id
    elim found [
      | none ↦ fail "nil server"
      | some s ↦ pure (if str_eq (to_server s).ip "" then none else some (to_server s))
    ]

  unfoldable pub wait_address : String → String → Call C (Option Server)
  unfolding check_address
  wait_address zone id =
      wait_until ctx (120 * second) (4 * second) "server has no public IP within timeout"
        (check_address zone id)

  unfoldable pub finish_boot : String → String → ServerSpec → Call C Server
  unfolding wait_address
  finish_boot zone id spec = do
    if str_eq spec.user_data ""
        then pure tt
        else wrapping (calling "set user-data")
            (api.set_user_data zone id "cloud-init" spec.user_data)
    wrapping (calling "power on") (api.action_and_wait zone id Action.poweron (300 * second))
    waited (wait_address zone id)

  unfoldable pub create_request : ServerSpec → String → TypeInfo F → CreateRequest
  unfolding image_or
  create_request spec zone t = record {
    zone = zone;
    name = server_name 63 spec.cluster_id spec.name;
    commercial_type = t.name;
    image = image_or "ubuntu_noble" spec.image;
    tags = tag_all ∷ cluster_tag spec.cluster_id ∷ [];
  }

  -- The loop over a zone's types; `next` is the rest of the search.
  unfoldable pub try_types :
      Call (Client F C) Server → ServerSpec → String → List (TypeInfo F) → Call (Client F C) Server
  unfolding create_request finish_boot
  try_types next spec zone [] = next
  try_types next spec zone (t ∷ ts) = do
    r ← try (ask (api.create (create_request spec zone t)))
    elim r [
      | ok id ↦ ask (finish_boot zone id spec)
      | err e ↦
          if is_availability_err (api.message e)
          then try_types next spec zone ts
          else raise (wrapped (creating t.name zone) e)
    ]

  -- The loop over the zones: one whose types cannot be listed is passed over.
  unfoldable pub try_zones : ServerSpec → List String → Call (Client F C) Server
  unfolding candidates_for try_types
  try_zones spec [] = fail "no available type/zone for spec"
  try_zones spec (z ∷ zs) = do
    r ← try (zone_types api limit z)
    elim r [
      | err e ↦ try_zones spec zs
      | ok types ↦ try_types (try_zones spec zs) spec z (candidates_for o spec types)
    ]

  unfoldable pub create_server : List String → ServerSpec → Call (Client F C) Server
  unfolding try_zones
  create_server zones spec = do
    if str_eq spec.login_pub_key ""
        then pure tt
        else wrapping (calling "register login ssh key")
            (ask (ensure_login_key api limit project ctx spec.cluster_id spec.login_pub_key))
    try_zones spec (order_zones zones (if is_strict spec then spec.region_pref else zones))
