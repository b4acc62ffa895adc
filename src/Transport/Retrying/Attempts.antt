-- ===== src/Transport/Retrying/Attempts.antt =====
-- How often the wrapper calls, and how it ends.
use mathlib.Core.Path.{subst}
use native.Mathlib.Decide.{ℕ_discrete}
use mcp_server_fuzzer.Prelude.{
  ℕ, zero, suc, ◌+◌, ◌≤◌, ◌<◌, ◌≡◌, refl, ◌∙◌, ◌⊎◌, inl, inr, true, false, List, arith, leb, length,
  ◌-◌, some, Option-cases, Result, err, Bool-cases, Result-cases,
}
use mcp_server_fuzzer.Errors.{ErrorClass, payload_validation_error}
use mcp_server_fuzzer.Transport.Retrying.{
  Floats, RetryPolicy, next_delay, Raised, program, Trace, should_retry, with_retries_from,
  with_retries, slept, ended,
}

module _ {A : Type 0} (retry_on : List ErrorClass) (max_attempts : ℕ)
    (call : ℕ → Result Raised A) where
  -- An attempt after which the wrapper goes on.
  abbrev pub Transient : ℕ → Type 0
  Transient i = (e : Raised) × (call i ≡ err e) × (should_retry retry_on e ≡ true)

  -- The loop from the attempt `first` ended with the attempt `last`.
  pub record Ended (first last : ℕ) (t : Trace A) : Type 0 where
    pub made : first ≤ last
    pub allowed : last ≤ max_attempts
    pub slept_between : first + length t.sleeps ≡ last
    pub result : t.result ≡ call last
    pub before : (i : ℕ) → first ≤ i → i < last → Transient i
    pub final : (last ≡ max_attempts) ⊎ ¬ Transient last

  Ended-here :
      (first : ℕ)
      → first ≤ max_attempts
      → (first ≡ max_attempts) ⊎ ¬ Transient first
      → Ended first first (ended (call first))
  Ended-here first le final = record {
    made = omega arith;
    allowed = le;
    slept_between = omega arith;
    result = refl;
    before = λ i h k. absurd (omega arith);
    final = final;
  }

  Ended-later :
      {first last : ℕ} {t : Trace A}
      → Transient first
      → Ended (suc first) last t
      → Ended first last (slept first t)
  Ended-later {first} {last} failed rest = record {
    made = omega (arith, rest.made);
    allowed = rest.allowed;
    slept_between = omega (arith, rest.slept_between);
    result = rest.result;
    before = λ i h k. elim (ℕ_discrete first i) [
      | yes same ↦ subst Transient same failed
      | no other ↦ rest.before i (omega arith) k
    ];
    final = rest.final;
  }

  with_retries_from-Ended :
      (left first : ℕ)
      → first + left ≡ suc max_attempts
      → first ≤ max_attempts
      → (last : ℕ) × Ended first last (with_retries_from retry_on max_attempts call left first)
  unfolding with_retries_from
  with_retries_from-Ended zero first e le = absurd (omega arith)
  with_retries_from-Ended (suc left) first e le = elim (Result-cases (call first)) [
    | inl (value, returned) ↦ (
      first,
      rw (returned, with_retries_from)
          (rw returned at (Ended-here first le (inr (λ t. cc (t.1, returned))))),
    )
    | inr (raised, failed) ↦ elim (Bool-cases (should_retry retry_on raised)) [
      | inl retried ↦ elim (Bool-cases (leb max_attempts first)) [
        | inl spent ↦ (
          first,
          rw (failed, with_retries_from)
              (rw (retried, spent) (rw failed at (Ended-here first le (inl (ground arith))))),
        )
        | inr more ↦
            let (last, rest) =
              with_retries_from-Ended left (suc first) (omega arith) (ground arith) in
            (
              last,
              rw (failed, with_retries_from)
                  (rw (retried, more) (Ended-later (raised, failed, retried) rest)),
            )
      ]
      | inr refused ↦ (
        first,
        rw (failed, with_retries_from)
            (rw refused (rw failed at (Ended-here first le (inr (λ (e, f, y). cc))))),
      )
    ]
  ]

  pub with_retries-Ended :
      1 ≤ max_attempts → (last : ℕ) × Ended 1 last (with_retries retry_on max_attempts call)
  unfolding with_retries
  with_retries-Ended h = with_retries_from-Ended max_attempts 1 (omega arith) h

  -- A payload that is invalid is never sent again.
  pub with_retries-payload_error :
      1 ≤ max_attempts
      → call 1 ≡ err (program payload_validation_error)
      → ((with_retries retry_on max_attempts call).result ≡ err (program payload_validation_error))
        × (length (with_retries retry_on max_attempts call).sleeps ≡ 0)
  unfolding should_retry
  with_retries-payload_error h e =
      let (last, run) = with_retries-Ended h in
      elim (ℕ_discrete 1 last) [
        | yes same ↦ (run.result ∙ rw (← same) e, omega (arith, run.slept_between))
        | no later ↦
            let (raised, failed, retried) = run.before 1 (omega arith) (omega (arith, run.made)) in
            absurd (cc)
      ]

module _ (floats : Floats) (noise : floats.F → floats.F) (attempt : ℕ) where
  -- A delay is never below zero, whatever the random draw.
  pub next_delay-not_negative :
      (policy : RetryPolicy floats) {delay : floats.F}
      → next_delay floats policy noise attempt ≡ some delay
      → floats.less delay floats.nil ≡ false
  unfolding next_delay
  next_delay-not_negative policy e =
      elim (Option-cases (floats.power policy.backoff_factor (attempt - 1))) [
        | inl large ↦ ground (arith, e, large)
        | inr (factor, power) ↦ ground (arith, e, power, floats.less_irreflexive floats.nil)
      ]
