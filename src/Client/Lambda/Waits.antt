-- ===== src/Client/Lambda/Waits.antt =====
-- lambda.go, waitRunning: it has no deadline, so that it ends by the context or not at all.
use pandion.Prelude.{
  ℕ, zero, suc, ◌+◌, ◌*◌, ◌/◌, ◌^◌, ◌<◌, ◌≡◌, inl, inr, String, none, some, arith, Bool-cases, [],
  ◌∷◌,
}
use pandion.Errors.{ok, Error, Result-cases}
use pandion.Provider.{Context, Net}
use pandion.Orchestrator.{pause}
use pandion.Client.{Call, ask, rest_for, raise}
use pandion.Client.Loops.Ends.{IsForward, IsOver, >>=-IsForward, poll-IsOver_cancelled, poll-never}
use pandion.Client.Request.{second}
use pandion.Client.Lambda.{Api, Answer, Config, Client, Request, get_instance, terminate}
use pandion.Client.Lambda.Http.{
  is_not_found, min, throttle, reserve, do_once, backoff_delay, attempt_once, do_rounds, request,
  retryable,
}
use pandion.Client.Lambda.Teardown.{destroy_server}
use pandion.Client.Lambda.Create.{check_running, wait_running}

module _ {C : Type 0} (api : Api C) (cfg : Config) (ctx : Context) where
  -- The transport and the random source do not turn the clock back.
  abbrev pub IsTimely : Type 0
  IsTimely = ((req : Request) → IsForward (api.send ctx req)) × ((k : ℕ) → IsForward (api.random k))

  ask-IsForward : {A : Type 0} (m : Call C A) → IsForward m → IsForward {C = Client C} (ask m)
  unfolding ask
  ask-IsForward m f n = f (record { cloud = n.cloud.remote; now = n.now })

  rest_for-IsForward : (delay : ℕ) → IsForward {C = Client C} (rest_for ctx delay)
  unfolding rest_for pause
  rest_for-IsForward delay n = ground arith

  throttle-IsForward : IsForward (throttle api cfg ctx)
  unfolding throttle reserve rest_for pause
  throttle-IsForward n = ground arith

  do_once-IsForward : (req : Request) → IsTimely → IsForward (do_once api cfg ctx req)
  unfolding do_once
  do_once-IsForward req t n = elim (Result-cases (api.send ctx req n).0) [
    | inl (a, e) ↦ rw e (t.0 req n)
    | inr (x, e) ↦ rw e (t.0 req n)
  ]

  attempt_once-IsForward :
      (again : Error → ℕ → Call (Client C) Answer) (req : Request)
      → IsTimely
      → ((e : Error) (delay : ℕ) → IsForward (again e delay))
      → IsForward (attempt_once api cfg ctx again req)
  unfolding attempt_once
  attempt_once-IsForward again req t h =
      >>=-IsForward (throttle api cfg ctx) _ throttle-IsForward (λ u.
        >>=-IsForward (ask (do_once api cfg ctx req)) _
          (ask-IsForward (do_once api cfg ctx req) (do_once-IsForward req t))
          (λ r n. elim (Result-cases r.0) [
            | inl (a, e) ↦ rw e (omega arith)
            | inr (x, e) ↦ elim (Bool-cases (retryable x)) [
              | inl more ↦ rw (e, more) (h x r.1 n)
              | inr final ↦ rw (e, final) (omega arith)
            ]
          ]))

  backoff_delay-IsForward :
      (attempt delay : ℕ) → IsTimely → IsForward (backoff_delay api cfg ctx attempt delay)
  unfolding backoff_delay
  backoff_delay-IsForward attempt delay t =
      let d = min (cfg.backoff_base * 2 ^ attempt) cfg.backoff_max in
      >>=-IsForward (api.random (d / 2 + 1)) _ (t.1 (d / 2 + 1)) (λ a n. omega arith)

  do_rounds-IsForward :
      (left attempt : ℕ) (req : Request)
      → IsTimely
      → IsForward (do_rounds api cfg ctx left attempt req)
  unfolding do_rounds
  do_rounds-IsForward zero attempt req t =
      attempt_once-IsForward (λ e delay. raise e) req t (λ e delay n. omega arith)
  do_rounds-IsForward (suc left) attempt req t = attempt_once-IsForward _ req t (λ e delay.
      >>=-IsForward (ask (backoff_delay api cfg ctx attempt delay)) _
        (ask-IsForward (backoff_delay api cfg ctx attempt delay)
          (backoff_delay-IsForward attempt delay t))
        (λ wait.
          >>=-IsForward (rest_for ctx wait) _ (rest_for-IsForward wait)
            (λ u. do_rounds-IsForward left (attempt + 1) req t)))

  request-IsForward : (req : Request) → IsTimely → IsForward (request api cfg ctx req)
  unfolding request
  request-IsForward req t = do_rounds-IsForward cfg.max_retry 0 req t

  destroy_server-IsForward : (id : String) → IsTimely → IsForward (destroy_server api cfg ctx id)
  unfolding destroy_server
  destroy_server-IsForward id t n =
      let call = request api cfg ctx (terminate (id ∷ [])) in
      let f = request-IsForward (terminate (id ∷ [])) t n in
      elim (Result-cases (call n).0) [
        | inl (a, e) ↦ rw e f
        | inr (x, e) ↦ elim (Bool-cases (is_not_found x)) [
          | inl gone ↦ rw (e, gone) f
          | inr other ↦ rw (e, other) f
        ]
      ]

  check_running-IsForward : (id : String) → IsTimely → IsForward (check_running api cfg ctx id)
  unfolding check_running
  check_running-IsForward id t =
      >>=-IsForward (request api cfg ctx (get_instance id)) _
        (request-IsForward (get_instance id) t)
        (λ a n. ground (arith, destroy_server-IsForward id t n))

module _ {C : Type 0} (api : Api C) (cfg : Config) where
  -- A wait for an instance to run ends once its context is cancelled, within the rounds that the
  -- time until then gives, whatever the cloud answers, where no answer turns the clock back.
  pub wait_running-ends :
      (c left : ℕ) (id : String) (n : Net (Client C))
      → IsTimely api cfg (some c)
      → c < n.now + left * (5 * second)
      → IsOver (wait_running api cfg (some c) (suc left) id n)
  unfolding wait_running
  wait_running-ends c left id n t h =
      poll-IsOver_cancelled (some c) (5 * second) "" (check_running api cfg (some c) id) c none left
        n (check_running-IsForward api cfg (some c) id t) h

  -- A wait for an instance has no end of its own: where the context is never cancelled and every
  -- look at the instance finds it neither running nor failed, no number of rounds is enough.
  pub wait_running-never :
      (limit : ℕ) (id : String) (n : Net (Client C))
      → ((m : Net (Client C)) → (check_running api cfg none id m).0 ≡ ok none)
      → (wait_running api cfg none limit id n).0 ≡ ok none
  unfolding wait_running
  wait_running-never limit id n h =
      poll-never none (5 * second) "" (check_running api cfg none id) limit n h
