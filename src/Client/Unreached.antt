-- ===== src/Client/Unreached.antt =====
-- scaleway.go, DestroyServer: a zone that answers with an error counts as one without the server.
use pandion.Prelude.{ℕ, ◌≡◌, refl, String, List, [], ◌∷◌, none}
use pandion.Errors.{ok, err, Error}
use pandion.Provider.{Net}
use pandion.Client.Scaleway.{Api}
use pandion.Client.Scaleway.Teardown.{locate, destroy_server}

module _ {F C : Type 0} (api : Api F C) (limit : ℕ) where
  -- The zones answer with errors, one after the other.
  abbrev pub Failing : List String → String → Net C → Net C → Type 0
  Failing [] id n m = n ≡ m
  Failing (z ∷ zs) id n m =
      ((e : Error) × ((api.get z id n).0 ≡ err e)) × Failing zs id (api.get z id n).1 m

  locate-Failing :
      (zones : List String) (id : String) (n m : Net C)
      → Failing zones id n m
      → locate api limit zones id n ≡ (ok none, m)
  unfolding locate
  locate-Failing [] id n m h = rw h refl
  locate-Failing (z ∷ zs) id n m ((e, failed), rest) =
      rw failed (locate-Failing zs id (api.get z id n).1 m rest)

  -- Where every zone answers the look for a server with an error, whatever the error, a destroy of
  -- the Scaleway client reports success, and has made no call but those.
  pub destroy_server-unreached :
      (zones : List String) (id : String) (n m : Net C)
      → Failing zones id n m
      → destroy_server api limit zones id n ≡ (ok tt, m)
  unfolding destroy_server
  destroy_server-unreached zones id n m h = rw (locate-Failing zones id n m h) refl
