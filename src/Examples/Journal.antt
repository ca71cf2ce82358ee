-- ===== src/Examples/Journal.antt =====
-- The journal: writes that fail or stop halfway, and what is read back.
use pandion.Prelude.{◌≡◌, refl, ◌≢◌, [], ◌∷◌, arith}
use pandion.Prelude.Dict.{lookup, insert}
use pandion.Errors.{ok, err, malformed}
use pandion.State.{Cluster, Outcome, stamp, save, load}
use pandion.State.Atomic.{load-run-ne-malformed, load-save, run, saves}
use pandion.Examples.{empty_disk}

abbrev alpha : Cluster
alpha = record { version = 0; id = "alpha"; provider = "mock"; nodes = []; updated = 0 }

-- The second write stops halfway: the record of the first is still whole.
torn_write :
    (load "alpha" (
      run
        (empty_disk (Outcome.works ∷ Outcome.works ∷ Outcome.halfway ∷ []))
        (saves 7 alpha ∷ saves 9 alpha ∷ []))).0
    ≡ ok (stamp 7 alpha)
unfolding load run save lookup insert
torn_write = refl

load-run-ne-malformed_example :
    (load "alpha" (run (empty_disk (Outcome.halfway ∷ [])) (saves 7 alpha ∷ []))).0 ≢ err malformed
unfolding lookup
load-run-ne-malformed_example =
    load-run-ne-malformed (empty_disk (Outcome.halfway ∷ [])) (saves 7 alpha ∷ []) "alpha"
      (λ j e. absurd (ground arith))

load-save_example : (load "alpha" (save 7 alpha (empty_disk [])).1).0 ≡ ok (stamp 7 alpha)
unfolding save lookup insert
load-save_example = load-save 7 alpha (empty_disk []) refl refl
