-- ===== src/Client/Digitalocean/Keys.antt =====
-- digitalocean.go: the cluster's login key, found by its name or its material, or created.
use pandion.Prelude.{ℕ, String, ◌||◌, List, [], ◌∷◌, Option, none, some, str_eq, if◌then◌else◌}
use pandion.Errors.{ok, err, Error}
use pandion.Provider.{Context}
use pandion.Client.{Call, pure, raise, try, ◌>>=◌}
use pandion.Client.Loops.{pages, waited}
use pandion.Client.Names.{key_material, login_key_name}
use pandion.Client.Digitalocean.{Api, Key, next_page}

-- The loop of findKey.
unfoldable pub matching_key : String → String → List Key → Option Key
matching_key name want [] = none
matching_key name want (k ∷ ks) =
    let rest = matching_key name want ks in
    if str_eq k.name name || str_eq (key_material k.public_key) want then some k else rest

module _ {F C : Type 0} (api : Api F C) (limit : ℕ) (ctx : Context) where
  unfoldable pub all_keys : Call C (List Key)
  all_keys = waited (pages (λ t. next_page (api.keys ctx t)) limit 0 [])

  unfoldable pub find_key : String → String → Call C (Option Key)
  unfolding all_keys matching_key
  find_key name pub_key = do
    r ← try all_keys
    elim r [ err e ↦ pure none | ok keys ↦ pure (matching_key name (key_material pub_key) keys) ]

  -- After a creation that failed with `e`.
  unfoldable pub refetch_key : String → String → Error → Call C Key
  unfolding find_key
  refetch_key name pub_key e = do
    again ← find_key name pub_key
    elim again [ none ↦ raise e | some k ↦ pure k ]

  unfoldable pub ensure_login_key : String → String → Call C Key
  unfolding find_key refetch_key
  ensure_login_key cluster_id pub_key = do
    found ← find_key (login_key_name cluster_id) pub_key
    elim found [
      | some k ↦ pure k
      | none ↦ do
        made ← try (api.create_key ctx (login_key_name cluster_id) pub_key)
        elim made [ ok k ↦ pure k | err e ↦ refetch_key (login_key_name cluster_id) pub_key e ]
    ]
