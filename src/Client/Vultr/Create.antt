-- ===== src/Client/Vultr/Create.antt =====
-- vultr.go, CreateServer: the search over regions and plans, and the wait until the instance is
-- active.
use pandion.Prelude.{
  ℕ, ◌*◌, String, not, ◌&&◌, List, [], ◌∷◌, Option, none, some, str_eq, if◌then◌else◌,
}
use pandion.Prelude.Integer.{ℤ}
use pandion.Prelude.Unique.{contains}
use pandion.Errors.{ok, err, wrapped, calling, creating}
use pandion.Provider.{Context, Server, ServerSpec}
use pandion.Select.{Ordered}
use pandion.Select.Clouds.Vultr.{PlanInfo, select_plans, regions_of, order_regions}
use pandion.Client.{Call, pure, fail, raise, try, ask, ◌>>=◌}
use pandion.Client.Loops.{search, wait_until, waited, region_plan}
use pandion.Client.Names.{server_name, cluster_tag, tag_all}
use pandion.Client.Request.{at_least, is_strict, second}
use pandion.Client.Vultr.{
  Api, Client, CreateReq, Instance, is_availability_err, friendly_err, to_server,
}
use pandion.Client.Vultr.Catalog.{plans, resolve_os}
use pandion.Client.Vultr.Keys.{ensure_login_key}

module _ {F : Type 0} where
  unfoldable pub named : String → List (PlanInfo F) → List (PlanInfo F)
  named id [] = []
  named id (p ∷ ps) = let rest = named id ps in if str_eq p.id id then p ∷ [] else rest

  abbrev pub found_or : {C : Type 0} → String → List (PlanInfo F) → Call C (List (PlanInfo F))
  found_or text [] = fail text
  found_or text (p ∷ ps) = pure (p ∷ ps)

  unfoldable pub candidates_for :
      {C : Type 0} → Ordered F → ServerSpec → List (PlanInfo F) → Call C (List (PlanInfo F))
  unfolding named at_least
  candidates_for o spec all =
      if not (str_eq spec.type "")
      then found_or "plan not found" (named spec.type all)
      else found_or "no plan matches spec"
          (select_plans o all (at_least spec.min_cores) (at_least spec.min_ram_gb * 1024) "")

  unfoldable pub plan_for :
      List String → ServerSpec → List (PlanInfo F) → List (String × PlanInfo F)
  plan_for region_pref spec cands =
      let strict = is_strict spec in
      region_plan (λ r p. contains p.regions r)
        (order_regions (regions_of cands) (if strict then spec.region_pref else region_pref) strict)
        cands

module _ {F C : Type 0} (o : Ordered F) (api : Api F C) (limit : ℕ) (ctx : Context) where
  unfoldable pub check_active : String → Call C (Option Instance)
  check_active id = do
    i ← api.get ctx id
    pure (
        if str_eq i.status "active" && not (str_eq i.main_ip "") && not (str_eq i.main_ip "0.0.0.0")
        then some i
        else none)

  unfoldable pub wait_active : String → Call C (Option Instance)
  unfolding check_active
  wait_active id =
      wait_until ctx (240 * second) (4 * second) "instance not active within timeout"
        (check_active id)

  unfoldable pub create_req : ServerSpec → ℤ → List String → String × PlanInfo F → CreateReq
  create_req spec os_id keys pair = record {
    region = pair.0;
    plan = pair.1.id;
    label = server_name 63 spec.cluster_id spec.name;
    hostname = server_name 63 spec.cluster_id spec.name;
    os_id = os_id;
    ssh_keys = keys;
    tags = tag_all ∷ cluster_tag spec.cluster_id ∷ [];
    user_data = (if str_eq spec.user_data "" then "" else api.base64 spec.user_data);
  }

  unfoldable pub login_keys : ServerSpec → Call C (List String)
  login_keys spec = if str_eq spec.login_pub_key "" then pure [] else (do
    r ← try (ensure_login_key api limit ctx spec.cluster_id spec.login_pub_key)
    elim r [
      | ok id ↦ pure (id ∷ [])
      | err e ↦ raise (wrapped (calling "register login ssh key") (friendly_err (api.message e) e))
    ])

  -- After a creation that the cloud accepted.
  abbrev pub started : ServerSpec → String × PlanInfo F → String → Call C Server
  started spec pair id = do i ← waited (wait_active id); pure (to_server i spec.cluster_id)

  unfoldable pub search_server :
      ServerSpec → ℤ → List String → List (String × PlanInfo F) → Call C Server
  unfolding create_req
  search_server spec os_id keys plan =
      search (λ pair. api.create ctx (create_req spec os_id keys pair))
        (λ e. is_availability_err (api.message e))
        (λ pair e. wrapped (creating pair.1.id pair.0) (friendly_err (api.message e) e))
        (started spec) "no available plan/region for spec" plan

  unfoldable pub create_server : List String → ServerSpec → Call (Client F C) Server
  unfolding candidates_for plan_for login_keys search_server
  create_server region_pref spec = do
    os_id ← resolve_os api limit ctx spec.image
    all ← plans api limit ctx
    cands ← candidates_for o spec all
    keys ← ask (login_keys spec)
    ask (search_server spec os_id keys (plan_for region_pref spec cands))
