-- ===== src/Client/Loops/Ends.antt =====
-- The loops that poll end: enough rounds for a deadline, and for a context that is cancelled.
use pandion.Prelude.{
  Option-cases, inr, ℕ, zero, suc, ◌+◌, ◌*◌, ◌/◌, ◌≤◌, ◌<◌, ◌≡◌, refl, ◌≢◌, ◌⊎◌, inl, String,
  Option, none, some, arith,
}
use native.Mathlib.Nat.{lt-div-mul-add}
use pandion.Errors.{Result, ok, err, Error}
use pandion.Provider.{Context, Net}
use pandion.Orchestrator.{pause}
use pandion.Client.{Call, rest_for, ◌>>=◌, >>=-ok, >>=-cases}
use pandion.Client.Loops.{expired, poll, rounds, wait_until, waited}

-- A call that does not turn the clock back.
abbrev pub IsForward : {C A : Type 0} → Call C A → Type 0
IsForward m = (n : _) → n.now ≤ (m n).1.now

-- A chain whose calls do not turn the clock back.
pub >>=-IsForward :
    {C A B : Type 0} (m : Call C A) (f : A → Call C B)
    → IsForward m
    → ((a : A) → IsForward (f a))
    → IsForward (m >>= f)
>>=-IsForward m f hm hf n = elim (>>=-cases f m n) [
  | inl (a, e, same) ↦ rw same (omega (arith, hm n, hf a (m n).1))
  | inr (x, e, same) ↦ rw same (hm n)
]

-- The rounds did not run out.
abbrev pub IsOver : {A C : Type 0} → Result (Option A) × Net C → Type 0
IsOver r = r.0 ≢ ok none

rest_for-cases :
    {C : Type 0} (ctx : Context) (delay : ℕ) (n : Net C)
    → (rest_for ctx delay n ≡ (ok tt, record n { now = n.now + delay }))
      ⊎ ((e : Error) × ((rest_for ctx delay n).0 ≡ err e))
unfolding rest_for pause
rest_for-cases none delay n = inl refl
rest_for-cases (some t) delay n = ground arith

module _ {C A : Type 0} (ctx : Context) (interval : ℕ) (late : String)
    (check : Call C (Option A)) where
  pub poll-IsOver :
      (d : ℕ) (left : ℕ) (n : Net C)
      → IsForward check
      → d < n.now + left * interval
      → IsOver (poll ctx interval (some d) late check (suc left) n)
  unfolding poll expired
  poll-IsOver d zero n f h = ground (arith, f n)
  poll-IsOver d (suc left) n f h = ground (
    arith,
    f n,
    rest_for-cases ctx interval (check n).1,
    poll-IsOver d left (record (check n).1 { now = (check n).1.now + interval }) f,
  )

  -- The same for a context that is cancelled, whether there is a deadline or not.
  pub poll-IsOver_cancelled :
      (c : ℕ) (deadline : Option ℕ) (left : ℕ) (n : Net C)
      → IsForward check
      → c < n.now + left * interval
      → IsOver (poll (some c) interval deadline late check (suc left) n)
  unfolding poll expired rest_for pause
  poll-IsOver_cancelled c deadline zero n f h = ground (arith, f n)
  poll-IsOver_cancelled c deadline (suc left) n f h = ground (
    arith,
    f n,
    poll-IsOver_cancelled c deadline left (record (check n).1 { now = (check n).1.now + interval })
        f,
  )

  -- A check that never answers polls for ever, where no deadline stands and no context is
  -- cancelled.
  pub poll-never :
      (left : ℕ) (n : Net C)
      → ((m : Net C) → (check m).0 ≡ ok none)
      → (poll none interval none late check left n).0 ≡ ok none
  unfolding poll expired rest_for pause
  poll-never zero n h = refl
  poll-never (suc left) n h =
      ground
        (arith, h n, poll-never left (record (check n).1 { now = (check n).1.now + interval }) h)

-- Waiting with a timeout comes to an end within the rounds that the timeout and the interval give,
-- whatever the checks return, where no check turns the clock back and the interval is not zero.
pub wait_until-ends :
    {C A : Type 0} (ctx : Context) (timeout interval : ℕ) (late : String)
    (check : Call C (Option A)) (n : Net C)
    → IsForward check
    → 0 < interval
    → IsOver (wait_until ctx timeout interval late check n)
unfolding wait_until
wait_until-ends ctx timeout interval late check n f h =
    poll-IsOver ctx interval late check (n.now + timeout) (timeout / interval + 1) n f (
      let enough : timeout < (timeout / interval + 1) * interval =
        omega (arith, lt-div-mul-add {a = timeout} {b = interval} h) in
      omega (arith, enough))

module _ {C A : Type 0} (ctx : Context) (interval : ℕ) (late : String)
    (check : Call C (Option A)) where
  -- What a poll finds is what a check answered.
  pub poll-found :
      (deadline : Option ℕ) (left : ℕ) (n : Net C) (a : A)
      → (poll ctx interval deadline late check left n).0 ≡ ok (some a)
      → (m : Net C) × ((check m).0 ≡ ok (some a))
  unfolding poll expired
  poll-found deadline zero n a h = absurd (ground (arith, h))
  poll-found deadline (suc left) n a h =
      let again = rest_for ctx interval (check n).1 in
      let (o, e, rest) = >>=-ok _ check n (some a) h in
      elim (Option-cases o) [
        | inl none_yet ↦ poll-found deadline left again.1 a (ground (arith, rest, none_yet))
        | inr (b, found) ↦ (n, ground (arith, e, rest, found))
      ]

  -- The same for a wait with a timeout.
  pub waited-found :
      (timeout : ℕ) (n : Net C) (a : A)
      → (waited (wait_until ctx timeout interval late check) n).0 ≡ ok a
      → (m : Net C) × ((check m).0 ≡ ok (some a))
  unfolding wait_until
  waited-found timeout n a h =
      let (o, e, rest) = >>=-ok _ (wait_until ctx timeout interval late check) n a h in
      poll-found (some (n.now + timeout)) (rounds timeout interval) n a (elim (Option-cases o) [
        | inl nothing ↦ absurd (ground (arith, rest, nothing))
        | inr (b, found) ↦ ground (arith, e, rest, found)
      ])
