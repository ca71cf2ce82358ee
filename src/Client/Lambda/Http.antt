-- ===== src/Client/Lambda/Http.antt =====
-- lambda.go: requests, spaced from each other and repeated after a backoff. Times are in
-- nanoseconds.
use pandion.Prelude.{
  ℕ, zero, suc, ◌+◌, ◌-◌, ◌*◌, ◌/◌, ◌%◌, ◌^◌, String, Bool, false, ◌||◌, Option, none, some, str_eq,
  ltb, leb, ◌==◌, if◌then◌else◌,
}
use pandion.Prelude.Integer.{ℤ, pos, negsuc, parse_int}
use pandion.Errors.{Result, ok, err, Error, api_error}
use pandion.Provider.{Context}
use pandion.Client.{Call, pure, raise, try, rest_for, ask, ◌>>=◌, ◌>>◌}
use pandion.Client.Names.{trim_space, contains_text}
use pandion.Client.Request.{second}
use pandion.Client.Lambda.{Api, Answer, Config, Client, Request, Response}

unfoldable pub is_not_found : Error → Bool
is_not_found (api_error status code msg) = status == 404 || contains_text code "not-found"
is_not_found _ = false

unfoldable pub retryable : Error → Bool
retryable (api_error status code msg) = status == 429 || leb 500 status
retryable _ = false

-- A number of seconds as a time.Duration. A product past the range of int64 wraps around; one that
-- wraps to a negative number counts as no delay, as the callers take it.
unfoldable pub seconds : ℕ → ℕ
seconds n = let d = (n * second) % 2 ^ 64 in if ltb d (2 ^ 63) then d else 0

unfoldable pub delay_of : Option ℤ → ℕ
unfolding seconds
delay_of none = 0
delay_of (some (negsuc n)) = 0
delay_of (some (pos n)) = seconds n

unfoldable pub parse_retry_after : String → ℕ
unfolding delay_of
parse_retry_after v = delay_of (parse_int (trim_space v))

abbrev pub min : ℕ → ℕ → ℕ
min a b = if ltb a b then a else b

abbrev pub max : ℕ → ℕ → ℕ
max a b = if ltb a b then b else a

-- The apiError of an answer that is not a success.
unfoldable pub error_of : Response → Error
error_of r = elim r.error [
  | none ↦ api_error r.status "" (trim_space r.text)
  | some (code, message) ↦
      if str_eq message ""
      then api_error r.status "" (trim_space r.text)
      else api_error r.status code message
]

-- What a request came to: its error or its answer, and the delay that the server asks for.
unfoldable pub read_response : Response → Result Answer × ℕ
unfolding error_of parse_retry_after
read_response r =
    if ltb r.status 200 || leb 300 r.status
    then (err (error_of r), parse_retry_after r.retry_after)
    else (r.answer, 0)

-- The wait before a request, from the time of the last one and the time now.
unfoldable pub gap_left : ℕ → Option ℕ → ℕ → ℕ
gap_left min_gap none now = 0
gap_left min_gap (some last) now = (last + min_gap) - now

module _ {C : Type 0} (api : Api C) (cfg : Config) (ctx : Context) where
  -- Under the lock: the slot of this request.
  unfoldable pub reserve : Call (Client C) ℕ
  unfolding gap_left
  reserve n =
      let wait = gap_left cfg.min_gap n.cloud.kept n.now in
      (ok wait, record n { cloud = record n.cloud { kept = some (n.now + wait) } })

  unfoldable pub throttle : Call (Client C) (Unit {0})
  unfolding reserve
  throttle =
      if cfg.min_gap == 0
      then pure tt
      else (do wait ← reserve; if wait == 0 then pure tt else rest_for ctx wait)

  unfoldable pub do_once : Request → Call C (Result Answer × ℕ)
  unfolding read_response
  do_once req = do
    r ← try (api.send ctx req)
    elim r [ err e ↦ pure (err e, 0) | ok a ↦ pure (read_response a) ]

  unfoldable pub backoff_delay : ℕ → ℕ → Call C ℕ
  backoff_delay attempt retry_after = do
    let d = min (cfg.backoff_base * 2 ^ attempt) cfg.backoff_max
    jitter ← api.random (d / 2 + 1)
    pure (max (d + jitter) retry_after)

  -- One attempt; `again` is what follows an error that is worth another one.
  unfoldable pub attempt_once :
      (Error → ℕ → Call (Client C) Answer) → Request → Call (Client C) Answer
  unfolding throttle do_once retryable
  attempt_once again req = do
    throttle
    r ← ask (do_once req)
    elim r.0 [ ok a ↦ pure a | err e ↦ if retryable e then again e r.1 else raise e ]

  -- The attempts that are left after this one.
  unfoldable pub do_rounds : ℕ → ℕ → Request → Call (Client C) Answer
  unfolding attempt_once backoff_delay
  do_rounds zero attempt req = attempt_once (λ e delay. raise e) req
  do_rounds (suc left) attempt req =
      attempt_once
        (λ e delay. do
          wait ← ask (backoff_delay attempt delay)
          rest_for ctx wait
          do_rounds left (attempt + 1) req)
        req

  unfoldable pub request : Request → Call (Client C) Answer
  unfolding do_rounds
  request req = do_rounds cfg.max_retry 0 req
