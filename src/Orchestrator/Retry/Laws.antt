-- ===== src/Orchestrator/Retry/Laws.antt =====
-- The retry loops: what they keep, how often they call the backend, and what a success means.
use pandion.Prelude.{
  ℕ, zero, suc, ◌+◌, ◌*◌, ◌≤◌, ◌<◌, ◌≡◌, refl, ◌⊎◌, inl, inr, String, false, List, [], ◌∷◌, ◌++◌,
  Option, none, some, arith, ltb, Bool-cases, ◌≢◌,
}
use pandion.Errors.{Result, ok, err, Error, wrapped, attempt, is_transient_provision}
use pandion.Provider.{Context, Net, Provider, Server, ServerSpec}
use pandion.Orchestrator.{pause, join}
use pandion.Orchestrator.Retry.{
  after_create, wait_then, after_destroy, create_rounds, create_with_retry, destroy_rounds,
}

-- A state property that no create call breaks is kept by the loop.
module _ {C : Type 0} (p : Provider C) (delay : ℕ) (ctx : Context) (P : C → Type 0) where
  after_create_keep :
      (again : Error → Net C → Result Server × Net C) (left : ℕ) (r : Result Server) (n : Net C)
      → ((e : Error) (m : Net C) → P m.cloud → P (again e m).1.cloud)
      → P n.cloud
      → P (after_create delay ctx again left r n).1.cloud
  unfolding after_create
  after_create_keep again left (ok srv) n next h = h
  after_create_keep again left (err e) n next h =
      ground (arith, next e n h, next e (record n { now = (pause ctx delay n.now).1 }) h)

  pub create_rounds_keep :
      (left : ℕ) (last : Option Error) (spec : ServerSpec) (n : Net C)
      → ((m : Net C) → P m.cloud → P (p.create_server ctx spec m).1.cloud)
      → P n.cloud
      → P (create_rounds p delay ctx left last spec n).1.cloud
  unfolding create_rounds
  create_rounds_keep zero none spec n keep h = h
  create_rounds_keep zero (some e) spec n keep h = h
  create_rounds_keep (suc left) last spec n keep h =
      after_create_keep (λ e m. create_rounds p delay ctx left (some e) spec m) left
        (p.create_server ctx spec n).0 (p.create_server ctx spec n).1
        (λ e m hm. create_rounds_keep left (some e) spec m keep hm) (keep n h)

module _ {C : Type 0} (p : Provider C) (ctx : Context) (id : String) (P : C → Type 0) where
  after_destroy_keep :
      (again : ℕ → List Error → Net C → Result (Unit {0}) × Net C) (left done delay : ℕ)
      (errs : List Error) (r : Result (Unit {0})) (n : Net C)
      → ((d : ℕ) (es : List Error) (m : Net C) → P m.cloud → P (again d es m).1.cloud)
      → P n.cloud
      → P (after_destroy ctx again left done delay errs r n).1.cloud
  unfolding after_destroy
  after_destroy_keep again left done delay errs (ok u) n next h = h
  after_destroy_keep again left done delay errs (err e) n next h =
      let es = errs ++ wrapped (attempt (done + 1)) e ∷ [] in
      ground (
        arith,
        next delay es n h,
        next (delay * 3) es (record n { now = (pause ctx delay n.now).1 }) h,
      )

  pub destroy_rounds_keep :
      (left done delay : ℕ) (errs : List Error) (n : Net C)
      → ((m : Net C) → P m.cloud → P (p.destroy_server ctx id m).1.cloud)
      → P n.cloud
      → P (destroy_rounds p ctx id left done delay errs n).1.cloud
  unfolding destroy_rounds
  destroy_rounds_keep zero done delay errs n keep h = h
  destroy_rounds_keep (suc left) done delay errs n keep h =
      after_destroy_keep (λ d es m. destroy_rounds p ctx id left (done + 1) d es m) left done delay
        errs (p.destroy_server ctx id n).0 (p.destroy_server ctx id n).1
        (λ d es m hm. destroy_rounds_keep left (done + 1) d es m keep hm) (keep n h)

join-ne-ok : (e : Error) (es fs : List Error) → join (es ++ e ∷ fs) ≢ ok tt
unfolding join
join-ne-ok e [] fs = cc
join-ne-ok e (x ∷ es) fs = cc

wait_then_ok :
    {C : Type 0} (Q : C → Type 0) (again : Net C → Result (Unit {0}) × Net C)
    (give_up : Error → Result (Unit {0})) (q : Result (Unit {0}) × ℕ) (n : Net C)
    → ((m : Net C) → (again m).0 ≡ ok tt → Q (again m).1.cloud)
    → ((c : Error) → give_up c ≢ ok tt)
    → (wait_then again give_up q n).0 ≡ ok tt
    → Q (wait_then again give_up q n).1.cloud
unfolding wait_then
wait_then_ok Q again give_up (ok _, t) n next never h = next (record n { now = t }) h
wait_then_ok Q again give_up (err c, t) n next never h = absurd (never c h)

-- A success of the destroy loop is the success of one of its calls.
module _ {C : Type 0} (p : Provider C) (ctx : Context) (id : String) (Q : C → Type 0) where
  after_destroy_ok :
      (again : ℕ → List Error → Net C → Result (Unit {0}) × Net C) (left done delay : ℕ)
      (errs : List Error) (r : Result (Unit {0})) (n : Net C)
      → ((d : ℕ) (es : List Error) (e : Error) (m : Net C)
          → (again d (es ++ e ∷ []) m).0 ≡ ok tt
          → Q (again d (es ++ e ∷ []) m).1.cloud)
      → (r ≡ ok tt → Q n.cloud)
      → (after_destroy ctx again left done delay errs r n).0 ≡ ok tt
      → Q (after_destroy ctx again left done delay errs r n).1.cloud
  unfolding after_destroy
  after_destroy_ok again left done delay errs (ok u) n next here h = here refl
  after_destroy_ok again left done delay errs (err e) n next here h =
      let w = wrapped (attempt (done + 1)) e in
      elim (Bool-cases (ltb 0 left)) [
        | inl more ↦ rw more (
            wait_then_ok Q (again (delay * 3) (errs ++ w ∷ []))
              (λ c. join ((errs ++ w ∷ []) ++ c ∷ [])) (pause ctx delay n.now) n
              (next (delay * 3) errs w) (λ c. join-ne-ok c (errs ++ w ∷ []) []) (rw more at h))
        | inr last ↦ rw last (next delay errs w n (rw last at h))
      ]

  pub destroy_rounds_ok :
      (left done delay : ℕ) (errs : List Error) (n : Net C)
      → ((m : Net C)
          → (p.destroy_server ctx id m).0 ≡ ok tt
          → Q (p.destroy_server ctx id m).1.cloud)
      → (0 < left) ⊎ ((e : Error) × (es : List Error) × (errs ≡ es ++ e ∷ []))
      → (destroy_rounds p ctx id left done delay errs n).0 ≡ ok tt
      → Q (destroy_rounds p ctx id left done delay errs n).1.cloud
  unfolding destroy_rounds
  destroy_rounds_ok zero done delay errs n post (inl lt) h = absurd (omega arith)
  destroy_rounds_ok zero done delay errs n post (inr (e, es, q)) h =
      absurd (join-ne-ok e es [] (rw q at h))
  destroy_rounds_ok (suc left) done delay errs n post room h =
      after_destroy_ok (λ d es m. destroy_rounds p ctx id left (done + 1) d es m) left done delay
        errs (p.destroy_server ctx id n).0 (p.destroy_server ctx id n).1
        (λ d es e m. destroy_rounds_ok left (done + 1) d (es ++ e ∷ []) m post (inr (e, es, refl)))
        (post n) h

-- An answer that the create loop does not retry.
abbrev pub IsFinal : Result Server → Type 0
IsFinal (ok s) = Unit
IsFinal (err e) = is_transient_provision e ≡ false

-- How many calls a loop makes: the backend with a counter of its calls beside its state.
abbrev pub counted :
    {A C : Type 0} → (Net C → Result A × Net C) → Net (C × ℕ) → Result A × Net (C × ℕ)
counted f n =
    let (r, m) = f (record { cloud = n.cloud.0; now = n.now }) in
    (r, record { cloud = (m.cloud, suc n.cloud.1); now = m.now })

abbrev pub counting : {C : Type 0} → Provider C → Provider (C × ℕ)
counting p = record {
  name = p.name;
  create_server = λ ctx spec. counted (p.create_server ctx spec);
  destroy_server = λ ctx id. counted (p.destroy_server ctx id);
  list_by_tag = λ ctx id. counted (p.list_by_tag ctx id);
  list_all_tagged = λ ctx. counted (p.list_all_tagged ctx);
  reap_aux = none;
}

module _ {C : Type 0} (p : Provider C) (delay : ℕ) (ctx : Context) where
  after_create_calls :
      (again : Error → Net (C × ℕ) → Result Server × Net (C × ℕ)) (left k : ℕ) (r : Result Server)
      (n : Net (C × ℕ))
      → ((e : Error) (m : Net (C × ℕ)) → (again e m).1.cloud.1 ≤ m.cloud.1 + k)
      → (after_create delay ctx again left r n).1.cloud.1 ≤ n.cloud.1 + k
  unfolding after_create
  after_create_calls again left k (ok srv) n next = omega arith
  after_create_calls again left k (err e) n next =
      ground (arith, next e n, next e (record n { now = (pause ctx delay n.now).1 }))

  create_rounds_calls :
      (left : ℕ) (last : Option Error) (spec : ServerSpec) (n : Net (C × ℕ))
      → (create_rounds (counting p) delay ctx left last spec n).1.cloud.1 ≤ n.cloud.1 + left
  unfolding create_rounds
  create_rounds_calls zero none spec n = omega arith
  create_rounds_calls zero (some e) spec n = omega arith
  create_rounds_calls (suc left) last spec n =
      let (r, m) = (counting p).create_server ctx spec n in
      omega (
        arith,
        after_create_calls (λ e x. create_rounds (counting p) delay ctx left (some e) spec x) left
            left r m (λ e x. create_rounds_calls left (some e) spec x),
      )

  -- A create is attempted at most three times, whatever the backend answers and however the
  -- context ends.
  pub create_with_retry_calls :
      (spec : ServerSpec) (n : Net (C × ℕ))
      → (create_with_retry (counting p) delay ctx spec n).1.cloud.1 ≤ n.cloud.1 + 3
  unfolding create_with_retry
  create_with_retry_calls spec n = create_rounds_calls 3 none spec n

  -- A success, or an error that is not transient, is returned as it is after one call.
  pub create_with_retry_final :
      (spec : ServerSpec) (n : Net C)
      → IsFinal (p.create_server ctx spec n).0
      → create_with_retry p delay ctx spec n ≡ p.create_server ctx spec n
  unfolding create_with_retry
  create_with_retry_final spec n f = ground arith
