-- ===== src/Errors.antt =====
-- Errors as values: what `fmt.Errorf`, `errors.Join` and the packages' own errors build, with the
-- texts replaced by constructors. A result is a value or an error.
use pandion.Prelude.{ℕ, String, ◌≡◌, refl, ◌⊎◌, inl, inr, Bool, true, false, ◌||◌}

-- What a `%w` wrap says around its cause.
pub data Stage : Type 0 where
  listing provisioning tearing_down reaping_aux : String → Stage
  attempt : ℕ → Stage
  -- a call of a cloud's interface, and a creation of a type in a location
  calling : String → Stage
  creating : String → String → Stage

pub data Error : Type 0 where
  -- an absent file, any other failure of the operating system, a file that does not decode
  not_exist os_failure malformed : Error
  -- ctx.Err()
  cancelled : Error
  -- an error of a backend, by its text
  reported : String → Error
  -- lambda's apiError: the status, the code and the message
  api_error : ℕ → String → String → Error
  -- provider.TransientProvisionError
  transient : Error → Error
  wrapped : Stage → Error → Error
  -- errors.Join of one error, and of one in front of others
  join_one : Error → Error
  join_more : Error → Error → Error
  -- the orchestrator's own
  servers_remain : ℕ → String → Error
  no_pricing unpriced : String → Error
  unbounded_spend over_budget : Error
  -- an index out of range
  index_panic : Error
  -- the relay store's own
  incomplete_session : Error

pub data Result {ℓ} (A : Type ℓ) : Type ℓ where
  ok : A → Result A
  err : Error → Result A

-- errors.As for a *TransientProvisionError: looks through wraps and joins
unfoldable pub is_transient_provision : Error → Bool
is_transient_provision (transient e) = true
is_transient_provision (wrapped s e) = is_transient_provision e
is_transient_provision (join_one e) = is_transient_provision e
is_transient_provision (join_more e f) = is_transient_provision e || is_transient_provision f
is_transient_provision _ = false

pub Result-cases {ℓ} :
    {A : Type ℓ} (r : Result A) → ((a : A) × (r ≡ ok a)) ⊎ ((e : Error) × (r ≡ err e))
Result-cases (ok a) = inl (a, refl)
Result-cases (err e) = inr (e, refl)
