-- ===== src/State/Atomic.antt =====
-- Crash safety of the journal: whatever calls of the operating system fail, and wherever they stop,
-- no record is ever half written.
use pandion.Prelude.{ℕ, String, ◌≡◌, ◌≢◌, List, [], ◌∷◌, some, arith, eq_refl}
use pandion.Prelude.Dict.{lookup, lookup-insert, lookup-remove}
use pandion.Errors.{ok, err, malformed}
use pandion.State.{Cluster, whole, torn, Disk, stamp, save, load, close}

-- What a program does to the journal.
pub data Op : Type 0 where
  saves : ℕ → Cluster → Op
  loads closes : String → Op

unfoldable pub step : Disk → Op → Disk
step d (saves now c) = (save now c d).1
step d (loads id) = (load id d).1
step d (closes id) = (close id d).1

unfoldable pub run : Disk → List Op → Disk
unfolding step
run d [] = d
run d (o ∷ os) = run (step d o) os

abbrev pub IsIntact : Disk → Type 0
IsIntact d = (j : String) → lookup d.records j ≢ some torn

save-IsIntact : (now : ℕ) (c : Cluster) (d : Disk) → IsIntact d → IsIntact (save now c d).1
unfolding save
save-IsIntact now c d h j = ground (
  arith,
  h j,
  lookup-insert d.temps c.id c.id (whole (stamp now c)),
  eq_refl c.id,
  lookup-insert d.records c.id j (whole (stamp now c)),
)

load-IsIntact : (id : String) (d : Disk) → IsIntact d → IsIntact (load id d).1
unfolding load
load-IsIntact id d h j = ground (arith, h j)

close-IsIntact : (id : String) (d : Disk) → IsIntact d → IsIntact (close id d).1
unfolding close
close-IsIntact id d h j = ground (arith, h j, lookup-remove d.records id j)

run-IsIntact : (d : Disk) (os : List Op) → IsIntact d → IsIntact (run d os)
unfolding run
run-IsIntact d [] h = h
run-IsIntact d (saves now c ∷ os) h = run-IsIntact (save now c d).1 os (save-IsIntact now c d h)
run-IsIntact d (loads id ∷ os) h = run-IsIntact (load id d).1 os (load-IsIntact id d h)
run-IsIntact d (closes id ∷ os) h = run-IsIntact (close id d).1 os (close-IsIntact id d h)

load-ne-malformed : (id : String) (d : Disk) → IsIntact d → (load id d).0 ≢ err malformed
unfolding load
load-ne-malformed id d h = ground (arith, h id)

-- After any sequence of saves, loads and closes, in which any call of the operating system may
-- fail or stop halfway through a write, a load of any cluster never meets a record that does not
-- decode, if no record was torn at the start.
pub load-run-ne-malformed :
    (d : Disk) (os : List Op) (id : String) → IsIntact d → (load id (run d os)).0 ≢ err malformed
load-run-ne-malformed d os id h = load-ne-malformed id (run d os) (run-IsIntact d os h)

-- A save that reports success is read back: the next load of that id, if the operating system does
-- not fail it, returns the cluster as it was saved, stamped with the time and the schema version.
pub load-save :
    (now : ℕ) (c : Cluster) (d : Disk)
    → (save now c d).0 ≡ ok tt
    → (save now c d).1.faults ≡ []
    → (load c.id (save now c d).1).0 ≡ ok (stamp now c)
unfolding load save
load-save now c d saved quiet = ground (
  arith,
  lookup-insert d.temps c.id c.id (whole (stamp now c)),
  eq_refl c.id,
  lookup-insert d.records c.id c.id (whole (stamp now c)),
)
