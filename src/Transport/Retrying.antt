-- ===== src/Transport/Retrying.antt =====
-- mcp_fuzzer/transport/retrying.py: the retry policy and the retry loop around a transport call.
pub mod Attempts
use mcp_server_fuzzer.Prelude.{
  ◌≡◌, ℕ, zero, suc, ◌-◌, Bool, true, false, not, ◌&&◌, ◌||◌, List, [], ◌∷◌, Option, none, some,
  any, if◌then◌else◌, leb, Result, ok, err,
}
use mcp_server_fuzzer.Json.{ℤ, pos, negsuc}
use mcp_server_fuzzer.Errors.{ErrorClass, transport_error, payload_validation_error, is_subclass}

-- What the policy needs of Python's floats: `a < b`, arithmetic, `a ** n`, and whether one is not zero.
-- A power that is too large raises OverflowError: `none`. The law of `<` holds of NaN too.
pub record Floats : Type 1 where
  pub F : Type 0
  pub nil : F
  pub one : F
  pub less : F → F → Bool
  pub add : F → F → F
  pub mul : F → F → F
  pub power : F → ℕ → Option F
  pub truthy : F → Bool
  pub less_irreflexive : (a : F) → less a a ≡ false

-- max(1, int(n))
abbrev pub at_least_one : ℤ → ℕ
at_least_one (pos zero) = 1
at_least_one (pos (suc n)) = suc n
at_least_one (negsuc n) = 1

module _ (floats : Floats) where
  open floats use {F, nil, one, less, add, mul, power, truthy}

  -- max(a, b) and min(a, b), which keep `a` where the comparison fails, as it does with NaN
  abbrev pub maximum : F → F → F
  maximum a b = if less a b then b else a

  abbrev pub minimum : F → F → F
  minimum a b = if less b a then b else a

  pub record RetryPolicy : Type 0 where
    pub max_attempts : ℤ
    pub base_delay : F
    pub max_delay : F
    pub backoff_factor : F
    pub jitter : F

  unfoldable pub clamp : RetryPolicy → RetryPolicy
  clamp policy = record {
    max_attempts = pos (at_least_one policy.max_attempts);
    base_delay = maximum nil policy.base_delay;
    max_delay = maximum nil policy.max_delay;
    backoff_factor = maximum one policy.backoff_factor;
    jitter = maximum nil policy.jitter;
  }

  abbrev jittered : F → (F → F) → F → F
  jittered jitter noise delay =
      maximum (if truthy jitter then add delay (noise (mul delay jitter)) else delay) nil

  -- `noise jitter` is the draw of `random.uniform(-jitter, jitter)`; `none` where the power raises.
  unfoldable pub next_delay : RetryPolicy → (F → F) → ℕ → Option F
  next_delay policy noise attempt = elim (power policy.backoff_factor (attempt - 1)) [
    | none ↦ none
    | some factor ↦
        some
          (jittered policy.jitter noise (minimum (mul policy.base_delay factor) policy.max_delay))
  ]

-- An exception: one of the program's classes, or another.
pub data Raised : Type 0 where
  program : ErrorClass → Raised
  foreign : Raised

abbrev pub isinstance : Raised → ErrorClass → Bool
isinstance (program c) d = is_subclass c d
isinstance foreign d = false

-- What the wrapper did: how it ended, and the attempts after which it slept.
pub record Trace (A : Type 0) : Type 0 where
  pub result : Result Raised A
  pub sleeps : List ℕ

pub should_retry : List ErrorClass → Raised → Bool
should_retry retry_on e =
    if isinstance e payload_validation_error then false else any (isinstance e) retry_on

abbrev slept : {A : Type 0} → ℕ → Trace A → Trace A
slept attempt t = record { result = t.result; sleeps = attempt ∷ t.sleeps }

abbrev ended : {A : Type 0} → Result Raised A → Trace A
ended r = record { result = r; sleeps = [] }

module _ {A : Type 0} (retry_on : List ErrorClass) (max_attempts : ℕ)
    (call : ℕ → Result Raised A) where
  -- `for attempt in range(...)`, with the rounds that are left; `call attempt` is the outcome of the
  -- attempt. Behind the loop stands the last `raise`.
  with_retries_from : ℕ → ℕ → Trace A
  unfolding should_retry
  with_retries_from zero attempt = ended (err (program transport_error))
  with_retries_from (suc left) attempt = elim (call attempt) [
    | ok value ↦ ended (ok value)
    | err e ↦
        let again = with_retries_from left (suc attempt) in
        if not (should_retry retry_on e) || leb max_attempts attempt
        then ended (err e)
        else slept attempt again
  ]

  pub with_retries : Trace A
  unfolding with_retries_from
  with_retries = with_retries_from max_attempts 1
