-- ===== src/Client/Scaleway/Keys.antt =====
-- scaleway.go: the cluster's login key among the project's keys, found, created and deleted.
use pandion.Prelude.{
  ℕ, zero, suc, ◌+◌, String, ◌||◌, List, [], ◌∷◌, Option, none, some, str_eq, ltb, length,
  if◌then◌else◌,
}
use pandion.Errors.{Result, ok, err, Error}
use pandion.Provider.{Context}
use pandion.Client.{Call, pure, raise, fail, try, settle, first_err, ◌>>=◌}
use pandion.Client.Names.{key_material, login_key_name}
use pandion.Client.Scaleway.{Api, Key, is_not_found_err, per_page}

-- The loop over a page of findLoginKey.
unfoldable pub matching_key : String → String → List (Option Key) → Option Key
matching_key name want [] = none
matching_key name want (none ∷ ks) = matching_key name want ks
matching_key name want (some k ∷ ks) =
    let rest = matching_key name want ks in
    if str_eq k.name name || str_eq (key_material k.public_key) want then some k else rest

module _ {F C : Type 0} (api : Api F C) (limit : ℕ) (project : String) (ctx : Context) where
  -- The pages that are left to look at.
  unfoldable pub find_from : ℕ → ℕ → String → String → Call C (Option Key)
  unfolding matching_key
  find_from zero page name want = fail "the rounds of the model ran out"
  find_from (suc left) page name want = do
    r ← try (api.list_keys ctx project page)
    elim r [
      | err e ↦ pure none
      | ok keys ↦ elim (matching_key name want keys) [
        | some k ↦ pure (some k)
        | none ↦
            if ltb (length keys) per_page then pure none else find_from left (page + 1) name want
      ]
    ]

  unfoldable pub find_login_key : String → String → Call C (Option Key)
  unfolding find_from
  find_login_key name pub_key = find_from limit 1 name (key_material pub_key)

  -- After a creation that failed with `e`.
  unfoldable pub refetch_key : String → String → Error → Call C (Unit {0})
  unfolding find_login_key
  refetch_key name pub_key e = do
    again ← find_login_key name pub_key
    elim again [ none ↦ raise e | some k ↦ pure tt ]

  unfoldable pub ensure_login_key : String → String → Call C (Unit {0})
  unfolding find_login_key refetch_key
  ensure_login_key cluster_id pub_key = do
    found ← find_login_key (login_key_name cluster_id) pub_key
    elim found [
      | some k ↦ pure tt
      | none ↦ do
        made ← try (api.create_key ctx project (login_key_name cluster_id) pub_key)
        elim made [ ok u ↦ pure tt | err e ↦ refetch_key (login_key_name cluster_id) pub_key e ]
    ]

  -- firstErr after a deletion, for which a key that is gone is none.
  unfoldable pub after_delete : Result (Unit {0}) → Result (Unit {0}) → Result (Unit {0})
  after_delete first (ok u) = first
  after_delete first (err e) = if is_not_found_err api e then first else first_err first (err e)

  -- The loop over a page of ReapAux.
  unfoldable pub delete_named :
      String → Result (Unit {0}) → List (Option Key) → Call C (Result (Unit {0}))
  unfolding after_delete
  delete_named name first [] = pure first
  delete_named name first (none ∷ ks) = delete_named name first ks
  delete_named name first (some k ∷ ks) =
      if str_eq k.name name
      then (do r ← try (api.delete_key ctx k.id); delete_named name (after_delete first r) ks)
      else delete_named name first ks

  unfoldable pub reap_from : ℕ → ℕ → String → Result (Unit {0}) → Call C (Unit {0})
  unfolding delete_named
  reap_from zero page name first = fail "the rounds of the model ran out"
  reap_from (suc left) page name first = do
    r ← try (api.list_keys ctx project page)
    elim r [
      | err e ↦ settle (first_err first (err e))
      | ok keys ↦ do
        first' ← delete_named name first keys
        if ltb (length keys) per_page then settle first' else reap_from left (page + 1) name first'
    ]

  unfoldable pub reap_aux : String → Call C (Unit {0})
  unfolding reap_from
  reap_aux cluster_id = reap_from limit 1 (login_key_name cluster_id) (ok tt)
