-- ===== src/Client/Hetzner/Teardown.antt =====
-- hetzner.go: listing a cluster's servers, destroying one, and deleting what else is registered
-- for a cluster.
use pandion.Prelude.{String, List, [], Option, none, some, map}
use pandion.Prelude.Dict.{lookup}
use pandion.Prelude.Integer.{ℤ, parse_int}
use pandion.Errors.{Result, ok, err}
use pandion.Provider.{Context, Server, Provider}
use pandion.Select.{Ordered}
use pandion.Select.Locations.{SearchMode}
use pandion.Client.{Call, pure, fail, try, settle, first_err, delete_each, ◌>>=◌}
use pandion.Client.Hetzner.{Api, Machine, label_cluster_id, to_server}
use pandion.Client.Hetzner.Create.{create_server}
use pandion.Client.Hetzner.Walls.{selector, delete_firewall}

abbrev pub nothing_listed : {A : Type 0} → Result (List A) → List A
nothing_listed (ok l) = l
nothing_listed (err e) = []

abbrev pub outcome : {A : Type 0} → Result A → Result (Unit {0})
outcome (ok a) = ok tt
outcome (err e) = err e

-- A read of a label: "" where it is missing.
abbrev pub label_of : Option String → String
label_of none = ""
label_of (some v) = v

module _ {F C : Type 0} (api : Api F C) (ctx : Context) where
  -- A deletion of a machine that is not there succeeds.
  unfoldable pub delete_found : Option Machine → Call C (Unit {0})
  delete_found none = pure tt
  delete_found (some s) = api.delete ctx s.id

  unfoldable pub destroy_parsed : Option ℤ → Call C (Unit {0})
  unfolding delete_found
  destroy_parsed none = fail "invalid server id"
  destroy_parsed (some sid) = api.get_by_id ctx sid >>= delete_found

  unfoldable pub destroy_server : String → Call C (Unit {0})
  unfolding destroy_parsed
  destroy_server id = destroy_parsed (parse_int id)

  unfoldable pub list_by_tag : String → Call C (List Server)
  list_by_tag cluster_id = do
    found ← api.servers ctx (selector cluster_id)
    pure (map (λ s. to_server s cluster_id) found)

  unfoldable pub list_all_tagged : Call C (List Server)
  list_all_tagged = do
    found ← api.servers ctx label_cluster_id
    pure (map (λ s. to_server s (label_of (lookup s.labels label_cluster_id))) found)

  unfoldable pub reap_aux : String → Call C (Unit {0})
  unfolding delete_each first_err
  reap_aux cluster_id = do
    keys ← try (api.keys ctx (selector cluster_id))
    first ← delete_each (λ k. api.delete_key ctx k.id) (outcome keys) (nothing_listed keys)
    walls ← try (api.walls ctx (selector cluster_id))
    last ←
        delete_each (delete_firewall api ctx) (first_err first (outcome walls))
          (nothing_listed walls)
    settle last

abbrev pub hetzner : {F C : Type 0} → Ordered F → Api F C → List String → SearchMode → Provider C
hetzner o api pref mode = record {
  name = "hetzner";
  create_server = λ ctx spec. create_server o api ctx pref mode spec;
  destroy_server = destroy_server api;
  list_by_tag = list_by_tag api;
  list_all_tagged = list_all_tagged api;
  reap_aux = some (reap_aux api);
}
