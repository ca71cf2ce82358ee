-- ===== src/Client/Loops.antt =====
-- The loops of the clients: polling until a server runs, the search over types and locations, and
-- listings by page. Polling and paging are on fuel, and end with `none` where it does not suffice.
pub mod Ends
pub mod Searched
use pandion.Prelude.{
  ℕ, zero, suc, ◌+◌, ◌/◌, String, Bool, false, List, [], ◌∷◌, ◌++◌, Option, none, some, ltb,
  if◌then◌else◌,
}
use pandion.Errors.{ok, err, Error}
use pandion.Provider.{Context, Net}
use pandion.Client.{Call, pure, raise, fail, try, time_now, rest_for, ◌>>=◌, ◌>>◌}

-- time.Now().After(deadline), for a loop that has a deadline.
unfoldable pub expired : Option ℕ → ℕ → Bool
expired none t = false
expired (some d) t = ltb d t

module _ {C A : Type 0} (ctx : Context) (interval : ℕ) (deadline : Option ℕ) (late : String)
    (check : Call C (Option A)) where
  -- The rounds of a loop that looks, gives up after the deadline and else waits.
  unfoldable pub poll : ℕ → Call C (Option A)
  unfolding expired rest_for
  poll zero = pure none
  poll (suc left) = do
    found ← check
    elim found [
      | some a ↦ pure (some a)
      | none ↦ do
        t ← time_now
        if expired deadline t then fail late else (do rest_for ctx interval; poll left)
    ]

-- Enough rounds for a loop that gives up after `timeout`.
abbrev pub rounds : ℕ → ℕ → ℕ
rounds timeout interval = suc (timeout / interval + 1)

module _ {C A : Type 0} where
  unfoldable pub wait_until : Context → ℕ → ℕ → String → Call C (Option A) → Call C (Option A)
  unfolding poll
  wait_until ctx timeout interval late check = do
    t ← time_now
    poll ctx interval (some (t + timeout)) late check (rounds timeout interval)

  -- The value, where the rounds sufficed.
  abbrev pub waited : Call C (Option A) → Call C A
  waited m = do o ← m; elim o [ none ↦ fail "the rounds of the model ran out" | some a ↦ pure a ]

module _ {C P A B : Type 0} (create : P → Call C A) (unavailable : Error → Bool)
    (explain : P → Error → Error) (finish : P → A → Call C B) (exhausted : String) where
  -- The loop over the combinations: the next one after an error that says that this one is not to
  -- be had, and the end of the search after any other answer.
  unfoldable pub search : List P → Call C B
  search [] = fail exhausted
  search (p ∷ ps) = do
    r ← try (create p)
    elim r [ ok a ↦ finish p a | err e ↦ if unavailable e then search ps else raise (explain p e) ]

module _ {C T A : Type 0} (page : T → Call C (List A × Option T)) where
  -- A listing by pages, from the page that `t` names; a page tells of the next one.
  unfoldable pub pages : ℕ → T → List A → Call C (Option (List A))
  pages zero t acc = pure none
  pages (suc left) t acc = do
    p ← page t
    elim p.1 [ none ↦ pure (some (acc ++ p.0)) | some t' ↦ pages left t' (acc ++ p.0) ]

-- The pairs of the two loops of a search, region first, in which a size that is not offered in a
-- region is passed over.
unfoldable pub offered_at : {A : Type 0} → (A → Bool) → String → List A → List (String × A)
offered_at fits r [] = []
offered_at fits r (a ∷ as') =
    let rest = offered_at fits r as' in if fits a then (r, a) ∷ rest else rest

unfoldable pub region_plan :
    {A : Type 0} → (String → A → Bool) → List String → List A → List (String × A)
unfolding offered_at
region_plan fits [] as' = []
region_plan fits (r ∷ rs) as' = offered_at (fits r) r as' ++ region_plan fits rs as'
