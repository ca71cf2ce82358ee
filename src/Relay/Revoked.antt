-- ===== src/Relay/Revoked.antt =====
-- What a revocation and a sweep leave, on a disk that works.
use pandion.Prelude.{
  subst, ℕ, String, Bool, false, ◌&&◌, ◌||◌, List, [], ◌∷◌, Option, none, some, ◌≡◌, refl, sym, ◌∙◌,
  arith, str_eq, eq_iff, if◌then◌else◌, any,
}
use pandion.Prelude.Dict.{Dict, lookup, lookup-remove, Distinct, Entries, Entries-Distinct}
use pandion.Errors.{ok}
use pandion.Relay.{
  Session, Store, Content, session, garbled, expired, read, remove_file, read_all, list,
  delete_loop, delete, reap_loop, reap, count_if,
}
use pandion.Relay.Grants.{Belongs, IsKept}

-- The sessions of the files that decode.
abbrev pub sessions : Dict Content → List Session
sessions [] = []
sessions ((k, session s) ∷ m) = s ∷ sessions m
sessions ((k, garbled) ∷ m) = sessions m

-- Whether a file holds a session that passes a test.
abbrev pub on_session : (Session → Bool) → Option Content → Bool
on_session p none = false
on_session p (some (session s)) = p s
on_session p (some garbled) = false

read-works :
    (hash : String → String) (key : String) (c : Content) (st : Store)
    → st.faults ≡ []
    → lookup st.files key ≡ some c
    → ((read hash key st).0 ≡ elim c [ session s ↦ some s | garbled ↦ none ])
      × ((read hash key st).1.files ≡ st.files)
      × ((read hash key st).1.faults ≡ [])
unfolding read
read-works hash key c st works found = ground (arith, works, found)

module _ (hash : String → String) where
  read_all-works :
      (m : Dict Content) (st : Store)
      → st.faults ≡ []
      → Entries (λ k c. lookup st.files k ≡ some c) m
      → ((read_all hash m st).0 ≡ sessions m)
        × ((read_all hash m st).1.files ≡ st.files)
        × ((read_all hash m st).1.faults ≡ [])
  unfolding read_all
  read_all-works [] st works h = (refl, refl, works)
  read_all-works ((k, session s) ∷ m) st works h =
      let (e, same, works') = read-works hash k (session s) st works h.0 in
      let (l, same', works'') =
        read_all-works m (read hash k st).1 works'
          (subst (λ f. Entries (λ j c. lookup f j ≡ some c) m) (sym same) h.1) in
      (rw (e, l), same' ∙ same, works'')
  read_all-works ((k, garbled) ∷ m) st works h =
      let (e, same, works') = read-works hash k garbled st works h.0 in
      let (l, same', works'') =
        read_all-works m (read hash k st).1 works'
          (subst (λ f. Entries (λ j c. lookup f j ≡ some c) m) (sym same) h.1) in
      (rw (e, l), same' ∙ same, works'')

  list-works :
      (st : Store)
      → st.faults ≡ []
      → Distinct st.files
      → ((list hash st).0 ≡ ok (sessions st.files))
        × ((list hash st).1.files ≡ st.files)
        × ((list hash st).1.faults ≡ [])
  unfolding list
  list-works st works d = ground (
    arith,
    works,
    read_all-works st.files (record st { faults = [] }) refl (Entries-Distinct st.files d),
  )

  -- A test of the sessions that are stored under a key.
  abbrev stored_as : (Session → Bool) → String → Session → Bool
  stored_as p key s = p s && str_eq (hash s.token) key

  any-sessions :
      (p : Session → Bool) (key : String) (m : Dict Content)
      → Distinct m
      → Entries (Belongs hash) m
      → any (stored_as p key) (sessions m) ≡ on_session p (lookup m key)
  unfolding lookup
  any-sessions p key [] d h = refl
  any-sessions p key ((k, session s) ∷ m) d h =
      ground (arith, d.0, h.0, eq_iff k key, any-sessions p key m d.1 h.1)
  any-sessions p key ((k, garbled) ∷ m) d h =
      ground (arith, d.0, eq_iff k key, any-sessions p key m d.1 h.1)

  remove_file-works :
      (key j : String) (st : Store)
      → st.faults ≡ []
      → (lookup (remove_file hash key st).1.files j
          ≡ (if str_eq key j then none else lookup st.files j))
        × ((remove_file hash key st).1.faults ≡ [])
  unfolding remove_file
  remove_file-works key j st works =
      ground (arith, works, lookup-remove st.files key j, eq_iff key j)

  delete_loop-works :
      (id key : String) (found : Bool) (ss : List Session) (st : Store)
      → st.faults ≡ []
      → lookup (delete_loop hash id found ss st).1.files key
        ≡ (if any (stored_as (λ s. str_eq s.id id) key) ss then none else lookup st.files key)
  unfolding delete_loop
  delete_loop-works id key found [] st works = refl
  delete_loop-works id key found (s ∷ ss) st works =
      let (worked, st') = remove_file hash (hash s.token) st in
      let (looked, works') = remove_file-works (hash s.token) key st works in
      ground (
        arith,
        looked,
        delete_loop-works id key found ss st works,
        delete_loop-works id key (found || worked) ss st' works',
      )

  reap_loop-works :
      (now n : ℕ) (key : String) (ss : List Session) (st : Store)
      → st.faults ≡ []
      → lookup (reap_loop hash now n ss st).1.files key
        ≡ (if any (stored_as (λ s. expired s now) key) ss then none else lookup st.files key)
  unfolding reap_loop
  reap_loop-works now n key [] st works = refl
  reap_loop-works now n key (s ∷ ss) st works =
      let (worked, st') = remove_file hash (hash s.token) st in
      let (looked, works') = remove_file-works (hash s.token) key st works in
      ground (
        arith,
        looked,
        reap_loop-works now n key ss st works,
        reap_loop-works now (count_if hash n worked) key ss st' works',
      )

  -- On a disk that works, with one file for each key and each session under its own token's, a
  -- revocation removes the files of exactly the sessions with the share id, and leaves every other
  -- file.
  pub delete-revokes :
      (id : String) (st : Store) (key : String)
      → st.faults ≡ []
      → Distinct st.files
      → IsKept hash st
      → lookup (delete hash id st).1.files key ≡ (
          if on_session (λ s. str_eq s.id id) (lookup st.files key)
          then none
          else lookup st.files key)
  unfolding delete
  delete-revokes id st key works d kept =
      let (l, same, works') = list-works st works d in
      let done = delete_loop-works id key false (sessions st.files) (list hash st).1 works' in
      let picked = any-sessions (λ s. str_eq s.id id) key st.files d kept in
      ground (arith, l, done, same, picked)

  -- On a disk that works, with one file for each key and each session under its own token's, a
  -- sweep removes the files of exactly the expired sessions, and leaves every other file.
  pub reap-sweeps :
      (now : ℕ) (st : Store) (key : String)
      → st.faults ≡ []
      → Distinct st.files
      → IsKept hash st
      → lookup (reap hash now st).1.files key ≡ (
          if on_session (λ s. expired s now) (lookup st.files key)
          then none
          else lookup st.files key)
  unfolding reap
  reap-sweeps now st key works d kept =
      let (l, same, works') = list-works st works d in
      let done = reap_loop-works now 0 key (sessions st.files) (list hash st).1 works' in
      let picked = any-sessions (λ s. expired s now) key st.files d kept in
      ground (arith, l, done, same, picked)
