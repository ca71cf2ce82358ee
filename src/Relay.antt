-- ===== src/Relay.antt =====
-- internal/relay/relay.go: grants of a browser shell on one node, as files of a spool. The spool
-- holds for each key its file `<key>.json`; other files are passed over by the code and are not
-- here. The key of a token is `hash token`, the hexadecimal SHA-256 sum, a parameter. Each call of
-- the operating system takes the next entry of `faults`, and works where none is left.
pub mod Grants
pub mod Revoked
pub mod Server
use pandion.Prelude.{
  ℕ, ◌+◌, String, Bool, true, false, ◌||◌, List, [], ◌∷◌, Option, none, some, ltb, str_eq,
  if◌then◌else◌,
}
use pandion.Prelude.Dict.{Dict, lookup, insert, remove}
use pandion.Errors.{Result, ok, err, os_failure, incomplete_session}
use pandion.State.{Outcome, next_outcome, later_outcomes}

pub record Session : Type 0 where
  pub id : String
  pub token : String
  pub cluster_id : String
  pub node : String
  pub target : String
  pub host_pub : String
  pub user : String
  pub ssh_key_pem : String
  pub expiry : ℕ
  pub read_only : Bool
  pub record_session : Bool

-- now.After(s.Expiry)
unfoldable pub expired : Session → ℕ → Bool
expired s now = ltb s.expiry now

pub data Content : Type 0 where
  session : Session → Content
  garbled : Content

pub record Store : Type 0 where
  pub files : Dict Content
  pub faults : List Outcome

abbrev pub called : Store → Store
called st = record st { faults = later_outcomes st.faults }

module _ (hash : String → String) where
  -- os.WriteFile: one that stops halfway leaves a file that does not decode.
  unfoldable pub put : Session → Store → Result (Unit {0}) × Store
  put s st =
      if str_eq s.token "" || str_eq s.id ""
      then (err incomplete_session, st)
      else elim (next_outcome st.faults) [
        | Outcome.works ↦
            (ok tt, record (called st) { files = insert st.files (hash s.token) (session s) })
        | Outcome.refused ↦ (err os_failure, called st)
        | Outcome.halfway ↦
            (err os_failure, record (called st) { files = insert st.files (hash s.token) garbled })
      ]

  -- os.ReadFile and the decoding
  unfoldable pub read : String → Store → Option Session × Store
  read key st = elim (next_outcome st.faults) [
    | Outcome.works ↦ (
      elim (lookup st.files key) [
        | none ↦ none
        | some c ↦ elim c [ session s ↦ some s | garbled ↦ none ]
      ],
      called st,
    )
    | _ ↦ (none, called st)
  ]

  -- os.Remove, and whether it worked
  unfoldable pub remove_file : String → Store → Bool × Store
  remove_file key st = elim (next_outcome st.faults) [
    | Outcome.works ↦ elim (lookup st.files key) [
      | none ↦ (false, called st)
      | some c ↦ (true, record (called st) { files = remove st.files key })
    ]
    | _ ↦ (false, called st)
  ]

  -- What Get does with the session it read.
  unfoldable pub unless_expired : String → ℕ → Option Session → Store → Option Session × Store
  unfolding expired remove_file
  unless_expired token now none st = (none, st)
  unless_expired token now (some s) st =
      if expired s now then (none, (remove_file (hash token) st).1) else (some s, st)

  unfoldable pub get : String → ℕ → Store → Option Session × Store
  unfolding read unless_expired
  get token now st = let (s, st') = read (hash token) st in unless_expired token now s st'

  abbrev pub cons_some : Option Session → List Session → List Session
  cons_some none l = l
  cons_some (some s) l = s ∷ l

  -- The loop of List over the entries of the directory.
  unfoldable pub read_all : Dict Content → Store → List Session × Store
  unfolding read
  read_all [] st = ([], st)
  read_all ((key, c) ∷ m) st =
      let (s, st') = read key st in let (l, st'') = read_all m st' in (cons_some s l, st'')

  -- os.ReadDir and the loop
  unfoldable pub list : Store → Result (List Session) × Store
  unfolding read_all
  list st = elim (next_outcome st.faults) [
    | Outcome.works ↦ (let (l, st') = read_all st.files (called st) in (ok l, st'))
    | _ ↦ (err os_failure, called st)
  ]

  unfoldable pub delete_loop : String → Bool → List Session → Store → Bool × Store
  unfolding remove_file
  delete_loop id found [] st = (found, st)
  delete_loop id found (s ∷ ss) st =
      let skipped = delete_loop id found ss st in
      let (worked, st') = remove_file (hash s.token) st in
      let removed = delete_loop id (found || worked) ss st' in
      if str_eq s.id id then removed else skipped

  unfoldable pub delete : String → Store → Result Bool × Store
  unfolding list delete_loop
  delete id st =
      let (r, st') = list st in
      elim r [
        | err e ↦ (err e, st')
        | ok ss ↦ (let (found, st'') = delete_loop id false ss st' in (ok found, st''))
      ]

  abbrev pub count_if : ℕ → Bool → ℕ
  count_if n b = if b then n + 1 else n

  unfoldable pub reap_loop : ℕ → ℕ → List Session → Store → ℕ × Store
  unfolding remove_file expired
  reap_loop now n [] st = (n, st)
  reap_loop now n (s ∷ ss) st =
      let skipped = reap_loop now n ss st in
      let (worked, st') = remove_file (hash s.token) st in
      let removed = reap_loop now (count_if n worked) ss st' in
      if expired s now then removed else skipped

  unfoldable pub reap : ℕ → Store → Result ℕ × Store
  unfolding list reap_loop
  reap now st =
      let (r, st') = list st in
      elim r [
        | err e ↦ (err e, st')
        | ok ss ↦ (let (n, st'') = reap_loop now 0 ss st' in (ok n, st''))
      ]
