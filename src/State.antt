-- ===== src/State.antt =====
-- internal/state/state.go: the journal of cluster states on disk. A disk holds for each cluster id
-- its record `<id>.json` and the temporary file `<id>.json.tmp`; an id stands for a plain file
-- name.
-- Each call of the operating system takes the next entry of `faults`, and succeeds where none is
-- left. JSON is written and read back as the value itself, and a file cut short does not decode.
pub mod Atomic
pub mod Records
use pandion.Prelude.{ℕ, String, List, [], ◌∷◌, Option, none, some}
use pandion.Prelude.Dict.{Dict, lookup, insert, remove}
use pandion.Errors.{Result, ok, err, Error, not_exist, os_failure, malformed}

pub data Phase : Type 0 where
  planned provisioning running tearing_down destroyed failed : Phase

pub record Node : Type 0 where
  pub name : String
  pub server_id : String
  pub ip : String
  pub phase : Phase

abbrev pub schema_version : ℕ
schema_version = 1

pub record Cluster : Type 0 where
  pub version : ℕ
  pub id : String
  pub provider : String
  pub nodes : List Node
  pub updated : ℕ

pub data File : Type 0 where
  whole : Cluster → File
  torn : File

-- How a call of the operating system ends: it works, does nothing, or stops halfway.
pub data Outcome : Type 0 where
  works refused halfway : Outcome

pub record Disk : Type 0 where
  pub records : Dict File
  pub temps : Dict File
  pub faults : List Outcome

abbrev pub next_outcome : List Outcome → Outcome
next_outcome [] = Outcome.works
next_outcome (o ∷ os) = o

abbrev pub later_outcomes : List Outcome → List Outcome
later_outcomes [] = []
later_outcomes (o ∷ os) = os

-- The disk after a call.
abbrev pub called : Disk → Disk
called d = record d { faults = later_outcomes d.faults }

-- os.WriteFile of the temporary file
unfoldable pub write_temp : String → Cluster → Disk → Result (Unit {0}) × Disk
write_temp id c d = elim (next_outcome d.faults) [
  | Outcome.works ↦ (ok tt, record (called d) { temps = insert d.temps id (whole c) })
  | Outcome.refused ↦ (err os_failure, called d)
  | Outcome.halfway ↦ (err os_failure, record (called d) { temps = insert d.temps id torn })
]

-- os.Rename of the temporary file over the record
abbrev move_temp : String → Option File → Disk → Result (Unit {0}) × Disk
move_temp id none d = (err not_exist, called d)
move_temp id (some f) d =
    (ok tt, record (called d) { records = insert d.records id f; temps = remove d.temps id })

unfoldable pub rename_temp : String → Disk → Result (Unit {0}) × Disk
rename_temp id d = elim (next_outcome d.faults) [
  | Outcome.works ↦ move_temp id (lookup d.temps id) d
  | _ ↦ (err os_failure, called d)
]

-- What `Save` writes into the caller's cluster before it marshals it.
abbrev pub stamp : ℕ → Cluster → Cluster
stamp now c = record c { updated = now; version = schema_version }

-- Store.Save: a temporary file, then a rename.
unfoldable pub save : ℕ → Cluster → Disk → Result (Unit {0}) × Disk
unfolding write_temp rename_temp
save now c d =
    let (r, d') = write_temp c.id (stamp now c) d in
    elim r [ ok _ ↦ rename_temp c.id d' | err e ↦ (err e, d') ]

abbrev decode : Option File → Result Cluster
decode none = err not_exist
decode (some torn) = err malformed
decode (some (whole c)) = ok c

-- Store.Load
unfoldable pub load : String → Disk → Result Cluster × Disk
load id d = elim (next_outcome d.faults) [
  | Outcome.works ↦ (decode (lookup d.records id), called d)
  | _ ↦ (err os_failure, called d)
]

-- os.Remove of the record
abbrev drop_record : String → Option File → Disk → Result (Unit {0}) × Disk
drop_record id none d = (err not_exist, called d)
drop_record id (some f) d = (ok tt, record (called d) { records = remove d.records id })

unfoldable pub remove_record : String → Disk → Result (Unit {0}) × Disk
remove_record id d = elim (next_outcome d.faults) [
  | Outcome.works ↦ drop_record id (lookup d.records id) d
  | _ ↦ (err os_failure, called d)
]

-- The test `os.IsNotExist` of `Close`.
abbrev absent_is_success : Result (Unit {0}) → Result (Unit {0})
absent_is_success (ok u) = ok u
absent_is_success (err not_exist) = ok tt
absent_is_success (err e) = err e

-- Store.Close
unfoldable pub close : String → Disk → Result (Unit {0}) × Disk
unfolding remove_record
close id d = let (r, d') = remove_record id d in (absent_is_success r, d')
