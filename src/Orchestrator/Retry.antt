-- ===== src/Orchestrator/Retry.antt =====
-- createWithRetry and destroyWithRetry: bounded attempts with a pause between them.
pub mod Laws
use pandion.Prelude.{
  ℕ, zero, suc, ◌+◌, ◌*◌, String, List, [], ◌∷◌, ◌++◌, Option, none, some, ltb, if◌then◌else◌,
}
use pandion.Errors.{Result, ok, err, Error, wrapped, attempt, is_transient_provision}
use pandion.Provider.{Context, Net, Provider, Server, ServerSpec, no_gpu_info}
use pandion.Orchestrator.{pause, join}

abbrev pub max_provision_attempts : ℕ
max_provision_attempts = 3

abbrev pub destroy_attempts : ℕ
destroy_attempts = 3

-- provider.Server{}
abbrev pub no_server : Server
no_server = record {
  id = "";
  name = "";
  cluster_id = "";
  type = "";
  region = "";
  ip = "";
  created = none;
  gpu = no_gpu_info;
}

-- The `select` between two attempts: go on with the loop, or give up.
unfoldable pub wait_then :
    {A C : Type 0}
    → (Net C → Result A × Net C)
    → (Error → Result A)
    → Result (Unit {0}) × ℕ
    → Net C
    → Result A × Net C
wait_then again give_up (ok _, t) n = again (record n { now = t })
wait_then again give_up (err c, t) n = (give_up c, record n { now = t })

module _ {C : Type 0} (delay : ℕ) (ctx : Context) where
  -- The rest of a round, from what the create call returned; `again` is the next round.
  unfoldable pub after_create :
      (Error → Net C → Result Server × Net C) → ℕ → Result Server → Net C → Result Server × Net C
  unfolding wait_then
  after_create again left (ok srv) n = (ok srv, n)
  after_create again left (err e) n =
      if is_transient_provision e
      then (if ltb 0 left
          then wait_then (again e) (λ c. err c) (pause ctx delay n.now) n
          else again e n)
      else (err e, n)

module _ {C : Type 0} (p : Provider C) (delay : ℕ) (ctx : Context) where
  -- The rounds that are left; `last` is the error of the round before.
  unfoldable pub create_rounds : ℕ → Option Error → ServerSpec → Net C → Result Server × Net C
  unfolding after_create
  create_rounds zero none spec n = (ok no_server, n)
  create_rounds zero (some e) spec n = (err e, n)
  create_rounds (suc left) last spec n =
      let (r, n') = p.create_server ctx spec n in
      after_create delay ctx (λ e m. create_rounds left (some e) spec m) left r n'

  unfoldable pub create_with_retry : ServerSpec → Net C → Result Server × Net C
  unfolding create_rounds
  create_with_retry spec n = create_rounds max_provision_attempts none spec n

module _ {C : Type 0} (ctx : Context) where
  -- The rest of a round, from what the destroy call returned; `again` is the next round, with the
  -- errors so far and the next pause.
  unfoldable pub after_destroy :
      (ℕ → List Error → Net C → Result (Unit {0}) × Net C)
      → ℕ
      → ℕ
      → ℕ
      → List Error
      → Result (Unit {0})
      → Net C
      → Result (Unit {0}) × Net C
  unfolding wait_then
  after_destroy again left done delay errs (ok _) n = (ok tt, n)
  after_destroy again left done delay errs (err e) n =
      let errs' = errs ++ wrapped (attempt (done + 1)) e ∷ [] in
      if ltb 0 left
      then wait_then (again (delay * 3) errs') (λ c. join (errs' ++ c ∷ [])) (pause ctx delay n.now)
          n
      else again delay errs' n

module _ {C : Type 0} (p : Provider C) (ctx : Context) (id : String) where
  -- The rounds left and done, the next pause, and the errors so far, oldest first.
  unfoldable pub destroy_rounds : ℕ → ℕ → ℕ → List Error → Net C → Result (Unit {0}) × Net C
  unfolding after_destroy
  destroy_rounds zero done delay errs n = (join errs, n)
  destroy_rounds (suc left) done delay errs n =
      let (r, n') = p.destroy_server ctx id n in
      after_destroy ctx (λ d es m. destroy_rounds left (done + 1) d es m) left done delay errs r n'

  unfoldable pub destroy_with_retry : ℕ → ℕ → Net C → Result (Unit {0}) × Net C
  unfolding destroy_rounds
  destroy_with_retry base_delay attempts n = destroy_rounds attempts 0 base_delay [] n
