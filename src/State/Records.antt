-- ===== src/State/Records.antt =====
-- What the journal holds after each of its operations.
use pandion.Prelude.{ℕ, String, ◌≡◌, ◌⊎◌, none, some, arith, str_eq, eq_refl, eq_iff, if◌then◌else◌}
use pandion.Prelude.Dict.{lookup, lookup-insert, lookup-remove}
use pandion.Errors.{ok, err, Error}
use pandion.State.{Cluster, whole, Disk, stamp, save, close}

-- A save that reports success has put the stamped cluster into the record and left every other
-- record alone; a save that reports an error has changed no record.
pub records-save :
    (now : ℕ) (c : Cluster) (d : Disk) (j : String)
    → (((save now c d).0 ≡ ok tt)
        × (lookup (save now c d).1.records j
            ≡ (if str_eq c.id j then some (whole (stamp now c)) else lookup d.records j)))
      ⊎ ((e : Error) × ((save now c d).0 ≡ err e) × ((save now c d).1.records ≡ d.records))
unfolding save
records-save now c d j = ground (
  arith,
  lookup-insert d.temps c.id c.id (whole (stamp now c)),
  eq_refl c.id,
  lookup-insert d.records c.id j (whole (stamp now c)),
)

-- A close that reports success leaves no record of the id and every other record as it was.
pub records-close :
    (id j : String) (d : Disk)
    → (close id d).0 ≡ ok tt
    → lookup (close id d).1.records j ≡ (if str_eq id j then none else lookup d.records j)
unfolding close
records-close id j d h = ground (arith, lookup-remove d.records id j, eq_iff id j)
