-- ===== src/Relay/Grants.antt =====
-- Which session a token gets.
use pandion.Prelude.{ℕ, String, false, [], none, some, ◌≡◌, refl, arith, eq_refl, if◌then◌else◌}
use pandion.Prelude.Dict.{lookup, lookup-insert, Entries, Entries-lookup, insert-Entries}
use pandion.Errors.{ok}
use pandion.Relay.{
  Session, Store, Content, session, garbled, expired, put, read, get, unless_expired,
}

module _ (hash : String → String) where
  -- A file's session belongs to the file's key.
  abbrev pub Belongs : String → Content → Type 0
  Belongs key (session s) = hash s.token ≡ key
  Belongs key garbled = Unit

  abbrev pub IsKept : Store → Type 0
  IsKept st = Entries Belongs st.files

  -- Where a hash belongs to one token, and each file's session to the file's key, a token gets only
  -- a session of that very token, and only until the session's expiry, whatever calls of the
  -- operating system fail.
  pub get-token :
      (token : String) (now : ℕ) (st : Store) (s : Session)
      → ((a b : String) → hash a ≡ hash b → a ≡ b)
      → IsKept st
      → (get hash token now st).0 ≡ some s
      → (s.token ≡ token) × (expired s now ≡ false)
  unfolding get read unless_expired
  get-token token now st s injective kept h =
      let found : (lookup st.files (hash token) ≡ some (session s)) × (expired s now ≡ false) =
        ground (arith, h) in
      (
        injective s.token token
            (Entries-lookup Belongs st.files (hash token) (session s) kept found.0),
        found.1,
      )

  -- A put keeps every file's session with its key.
  put-IsKept : (s : Session) (st : Store) → IsKept st → IsKept (put hash s st).1
  unfolding put
  put-IsKept s st kept = ground (
    arith,
    kept,
    insert-Entries Belongs st.files (hash s.token) (session s) kept refl,
    insert-Entries Belongs st.files (hash s.token) garbled kept tt,
  )

  -- A session that was put is got by its token until it expires, if no call of the operating system
  -- after the writing fails.
  pub get-put :
      (s : Session) (st : Store) (now : ℕ)
      → (put hash s st).0 ≡ ok tt
      → (put hash s st).1.faults ≡ []
      → (get hash s.token now (put hash s st).1).0 ≡ (if expired s now then none else some s)
  unfolding put get read unless_expired
  get-put s st now h works = ground (
    arith,
    h,
    works,
    eq_refl (hash s.token),
    lookup-insert st.files (hash s.token) (hash s.token) (session s),
  )
