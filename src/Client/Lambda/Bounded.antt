-- ===== src/Client/Lambda/Bounded.antt =====
-- lambda.go: how many requests a call makes, and how far apart they are.
use pandion.Prelude.{
  ℕ, zero, suc, ◌+◌, ◌≤◌, ◌<◌, ◌≡◌, ◌*◌, ◌/◌, ◌^◌, ap, inl, inr, some, Option-cases, Bool-cases,
  arith,
}
use pandion.Errors.{ok, Error, Result-cases}
use pandion.Provider.{Context, Net}
use pandion.Orchestrator.{pause}
use pandion.Client.{Call, ask, rest_for, ◌>>=◌, ◌>>◌, >>=-cases, raise}
use pandion.Client.Quiet.{rest_for-IsQuiet}
use pandion.Client.Lambda.{Api, Answer, Config, Client, Request}
use pandion.Client.Lambda.Http.{
  gap_left, reserve, throttle, do_once, backoff_delay, attempt_once, do_rounds, request, min,
  retryable,
}

module _ {C : Type 0} (api : Api C) (cfg : Config) (ctx : Context) where
  -- Where a gap is configured, a request that is let through takes its slot at the time it goes out,
  -- and the slot before, if there was one, is at least the gap ago.
  pub throttle-spaced :
      (n : Net (Client C))
      → 0 < cfg.min_gap
      → (throttle api cfg ctx n).0 ≡ ok tt
      → ((throttle api cfg ctx n).1.cloud.kept ≡ some (throttle api cfg ctx n).1.now)
        × (gap_left cfg.min_gap n.cloud.kept (throttle api cfg ctx n).1.now ≡ 0)
  unfolding throttle reserve gap_left rest_for pause
  throttle-spaced n positive h = elim (Option-cases n.cloud.kept) [
    | inl first ↦ ground (arith, positive, h, first)
    | inr (last, has) ↦ ground (arith, positive, h, has)
  ]

  throttle-remote : (n : Net (Client C)) → (throttle api cfg ctx n).1.cloud.remote ≡ n.cloud.remote
  unfolding throttle reserve rest_for
  throttle-remote n = ground arith

module _ {C : Type 0} (api : Api C) (cfg : Config) (ctx : Context) (sent : C → ℕ) where
  -- The measure counts the requests that were sent, and nothing else.
  abbrev pub Counts : Type 0
  Counts =
      ((req : Request) (n : Net C) → sent (api.send ctx req n).1.cloud ≡ sent n.cloud + 1)
      × ((k : ℕ) (n : Net C) → sent (api.random k n).1.cloud ≡ sent n.cloud)

  abbrev total : Net (Client C) → ℕ
  total n = sent n.cloud.remote

  do_once-sent :
      (req : Request) (n : Net (Client C))
      → Counts
      → total (ask (do_once api cfg ctx req) n).1 ≡ total n + 1
  unfolding ask do_once
  do_once-sent req n counts =
      let m : Net C = record { cloud = n.cloud.remote; now = n.now } in
      elim (Result-cases (api.send ctx req m).0) [
        | inl (a, e) ↦ rw e (counts.0 req m)
        | inr (x, e) ↦ rw e (counts.0 req m)
      ]

  backoff_delay-sent :
      (attempt delay : ℕ) (n : Net (Client C))
      → Counts
      → total (ask (backoff_delay api cfg ctx attempt delay) n).1 ≡ total n
  unfolding ask backoff_delay
  backoff_delay-sent attempt delay n counts =
      let m : Net C = record { cloud = n.cloud.remote; now = n.now } in
      let d = min (cfg.backoff_base * 2 ^ attempt) cfg.backoff_max in
      elim (Result-cases (api.random (d / 2 + 1) m).0) [
        | inl (a, e) ↦ rw e (counts.1 (d / 2 + 1) m)
        | inr (x, e) ↦ rw e (counts.1 (d / 2 + 1) m)
      ]

  -- At most `k` requests more than before.
  abbrev AtMost : {A : Type 0} → ℕ → Call (Client C) A → Type 0
  AtMost k m = (n : Net (Client C)) → total (m n).1 ≤ total n + k

  >>=-AtMost :
      {A B : Type 0} (j k : ℕ) (m : Call (Client C) A) (f : A → Call (Client C) B)
      → AtMost j m
      → ((a : A) → AtMost k (f a))
      → AtMost (j + k) (m >>= f)
  >>=-AtMost j k m f hm hf n = elim (>>=-cases f m n) [
    | inl (a, e, same) ↦ rw same (omega (arith, hm n, hf a (m n).1))
    | inr (x, e, same) ↦ rw same (omega (arith, hm n))
  ]

  attempt_once-AtMost :
      (k : ℕ) (again : Error → ℕ → Call (Client C) Answer) (req : Request)
      → Counts
      → ((e : Error) (delay : ℕ) → AtMost k (again e delay))
      → AtMost (0 + (1 + k)) (attempt_once api cfg ctx again req)
  unfolding attempt_once
  attempt_once-AtMost k again req counts h =
      >>=-AtMost 0 (1 + k) (throttle api cfg ctx) _
        (λ n. omega (arith, ap sent (throttle-remote api cfg ctx n)))
        (λ u.
          >>=-AtMost 1 k (ask (do_once api cfg ctx req)) _
            (λ n. omega (arith, do_once-sent req n counts))
            (λ r n. elim (Result-cases r.0) [
              | inl (a, e) ↦ rw e (omega arith)
              | inr (x, e) ↦ elim (Bool-cases (retryable x)) [
                | inl again_ ↦ rw (e, again_) (h x r.1 n)
                | inr final ↦ rw (e, final) (omega arith)
              ]
            ]))

  do_rounds-AtMost :
      (left attempt : ℕ) (req : Request)
      → Counts
      → AtMost (left + 1) (do_rounds api cfg ctx left attempt req)
  unfolding do_rounds
  do_rounds-AtMost zero attempt req counts n =
      omega
        (arith, attempt_once-AtMost 0 (λ e delay. raise e) req counts (λ e delay m. omega arith) n)
  do_rounds-AtMost (suc left) attempt req counts n =
      let rest = do_rounds-AtMost left (attempt + 1) req counts in
      let again : Error → ℕ → Call (Client C) Answer = λ e delay. (do
        wait ← ask (backoff_delay api cfg ctx attempt delay)
        rest_for ctx wait
        do_rounds api cfg ctx left (attempt + 1) req) in
      omega (
        arith,
        attempt_once-AtMost (0 + (0 + (left + 1))) again req counts
            (λ e delay.
              >>=-AtMost 0 (0 + (left + 1)) (ask (backoff_delay api cfg ctx attempt delay)) _
                (λ m. omega (arith, backoff_delay-sent attempt delay m counts))
                (λ wait.
                  >>=-AtMost 0 (left + 1) (rest_for ctx wait) _
                    (λ m. omega (arith, rest_for-IsQuiet (λ c. sent c.remote) ctx wait m))
                    (λ u. rest)))
            n,
      )

  -- A call sends its request at most once more than the configuration has retries, whatever the
  -- answers are, where the measure counts the requests that are sent.
  pub request-sent_le :
      (req : Request) (n : Net (Client C))
      → Counts
      → sent (request api cfg ctx req n).1.cloud.remote ≤ sent n.cloud.remote + (cfg.max_retry + 1)
  unfolding request
  request-sent_le req n counts = do_rounds-AtMost cfg.max_retry 0 req counts n
