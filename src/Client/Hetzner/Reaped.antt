-- ===== src/Client/Hetzner/Reaped.antt =====
-- The reaping of what is registered for a cluster leaves the machines as they are.
use pandion.Prelude.{ℕ, zero, suc, ◌*◌, refl, ◌∙◌, inl, inr, String, List, [], ◌∷◌}
use pandion.Prelude.Integer.{ℤ}
use pandion.Errors.{Result, ok, err, Result-cases}
use pandion.Provider.{Context}
use pandion.Client.{Call, try, rest_for, first_err, delete_each}
use pandion.Client.Quiet.{IsQuiet, >>=-IsQuiet, delete_each-IsQuiet, rest_for-IsQuiet}
use pandion.Client.Hetzner.{Api, Resource, Wall}
use pandion.Client.Request.{second}
use pandion.Client.Hetzner.Walls.{selector, delete_rounds, detach, detachable, delete_firewall}
use pandion.Client.Hetzner.Teardown.{reap_aux, outcome, nothing_listed}
use pandion.Client.Hetzner.Refined.{Documented}

module _ {F C : Type 0} (api : Api F C) (d : Documented api) (ctx : Context) where
  open d use {machines}

  try-IsQuiet : {A : Type 0} (m : Call C A) → IsQuiet machines m → IsQuiet machines (try m)
  try-IsQuiet m q n = q n

  delete_rounds-IsQuiet :
      (left : ℕ) (last : Result (Unit {0})) (id : ℤ)
      → IsQuiet machines (delete_rounds api ctx left last id)
  unfolding delete_rounds rest_for
  delete_rounds-IsQuiet zero last id n = refl
  delete_rounds-IsQuiet (suc left) last id n =
      let r = api.delete_wall ctx id n in
      let quiet = d.quiet_delete_wall ctx id n in
      elim (Result-cases r.0) [
        | inl (u, e) ↦ rw e quiet
        | inr (x, e) ↦ rw e (
            >>=-IsQuiet machines (rest_for ctx (3 * second)) _
              (rest_for-IsQuiet machines ctx (3 * second))
              (λ a. delete_rounds-IsQuiet left (err x) id) r.1
            ∙ quiet)
      ]

  detach-IsQuiet : (w : Wall) (rs : List Resource) → IsQuiet machines (detach api ctx w rs)
  unfolding detach
  detach-IsQuiet w [] n = refl
  detach-IsQuiet w (r ∷ rs) n = d.quiet_detach ctx w.id (r ∷ rs) n

  delete_firewall-IsQuiet : (w : Wall) → IsQuiet machines (delete_firewall api ctx w)
  unfolding delete_firewall
  delete_firewall-IsQuiet w =
      >>=-IsQuiet machines (detach api ctx w (detachable w.applied_to)) _
        (detach-IsQuiet w (detachable w.applied_to)) (λ a. delete_rounds-IsQuiet 10 (ok tt) w.id)

  pub reap_aux-IsQuiet : (id : String) → IsQuiet machines (reap_aux api ctx id)
  unfolding reap_aux
  reap_aux-IsQuiet id n =
      let keys = api.keys ctx (selector id) n in
      >>=-IsQuiet machines
        (delete_each (λ k. api.delete_key ctx k.id) (outcome keys.0) (nothing_listed keys.0)) _
        (delete_each-IsQuiet machines (λ k. api.delete_key ctx k.id)
          (λ k. d.quiet_delete_key ctx k.id) (outcome keys.0) (nothing_listed keys.0))
        (λ first m.
          let walls = api.walls ctx (selector id) m in
          >>=-IsQuiet machines
            (delete_each (delete_firewall api ctx) (first_err first (outcome walls.0))
              (nothing_listed walls.0))
            _
            (delete_each-IsQuiet machines (delete_firewall api ctx) delete_firewall-IsQuiet
              (first_err first (outcome walls.0)) (nothing_listed walls.0))
            (λ last k. refl) walls.1
          ∙ d.quiet_walls ctx (selector id) m)
        keys.1
      ∙ d.quiet_keys ctx (selector id) n
