-- ===== src/Orchestrator.antt =====
-- internal/orchestrator/orchestrator.go: the lifecycle of clusters over a backend and the journal.
-- What the children share: the world that an operation changes, waiting, and joined errors.
pub mod Retry
pub mod Up
pub mod Down
pub mod Reap
pub mod Status
pub mod Budget
pub mod UpCluster
use pandion.Prelude.{ℕ, ◌+◌, List, [], ◌∷◌, Option, none, some, leb, ltb, if◌then◌else◌}
use pandion.Errors.{Result, ok, err, Error, cancelled, join_one, join_more}
use pandion.Provider.{Context, Net}
use pandion.State.{Disk, Cluster, save}

pub record World (C : Type 0) : Type 0 where
  pub net : Net C
  pub disk : Disk

-- Store.Save at the world's time; a save that changes its cluster is `stamp`.
unfoldable pub journal : {C : Type 0} → Cluster → World C → Result (Unit {0}) × World C
journal c w = let (r, d) = save w.net.now c w.disk in (r, record w { disk = d })

-- `select { case <-ctx.Done(): case <-time.After(delay): }` at a time, with the time after it.
-- Where both come at once the context goes first; Go's select takes either then.
unfoldable pub pause : Context → ℕ → ℕ → Result (Unit {0}) × ℕ
pause none delay now = (ok tt, now + delay)
pause (some t) delay now =
    if leb t (now + delay)
    then (err cancelled, if ltb t now then now else t)
    else (ok tt, now + delay)

abbrev joined_error : Error → List Error → Error
joined_error e [] = join_one e
joined_error e (f ∷ es) = join_more e (joined_error f es)

-- errors.Join: nil for no errors
unfoldable pub join : List Error → Result (Unit {0})
join [] = ok tt
join (e ∷ es) = err (joined_error e es)
