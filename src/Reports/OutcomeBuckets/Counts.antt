-- ===== src/Reports/OutcomeBuckets/Counts.antt =====
-- Every run is counted once, in the bucket of what it is.
use mathlib.Core.Path.{subst}
use mcp_server_fuzzer.Prelude.{
  ℕ, suc, ◌+◌, ◌≡◌, ◌↔◌, ◌⊎◌, refl, Bool, true, false, ◌||◌, any, List, [], ◌∷◌, Option, none, some,
  arith, if◌then◌else◌, Option-cases, length, inl, inr,
}
use mcp_server_fuzzer.Json.{Value, Fields, str, obj, get, truthy, equals_text}
use mcp_server_fuzzer.Json.Laws.{equals_text_iff}
use mcp_server_fuzzer.Reports.OutcomeBuckets.{
  Bucket, is_outcome, run_has_exception, anomaly_outcomes, server_rejected, accepted_malformed,
  anomaly, crashed, exceptions, safety_blocked, Buckets, no_runs, increment, bucket_of, count_run,
  count_runs, summarize_tool_outcomes,
}

abbrev pub count_in : Bucket → Buckets → ℕ
count_in server_rejected b = b.rejected_runs
count_in accepted_malformed b = b.accepted_runs
count_in anomaly b = b.anomalous_runs
count_in crashed b = b.crashed_runs
count_in exceptions b = b.exception_runs
count_in safety_blocked b = b.blocked_runs

-- The run was stopped by the safety system.
abbrev pub IsBlocked : Fields → Type 0
IsBlocked run =
    (truthy (get run "safety_blocked") ≡ true) ⊎ (get run "outcome" ≡ str "safety_blocked")

abbrev pub IsCrashed : Fields → Type 0
IsCrashed run = (get run "outcome" ≡ str "crashed") ⊎ (get run "error" ≡ str "server_crashed")

abbrev pub IsAccepted : Fields → Type 0
IsAccepted run =
    (get run "outcome" ≡ str "accepted_malformed") ⊎ (truthy (get run "accepted_malformed") ≡ true)

-- The run has an error, of the client or of the server, or one of the five outcomes of a failure.
abbrev pub IsAnomalous : Fields → Type 0
IsAnomalous run =
    (truthy (get run "error") ≡ true)
    ⊎ ((truthy (get run "server_error") ≡ true)
        ⊎ ((get run "outcome" ≡ str "transport_error")
            ⊎ ((get run "outcome" ≡ str "timeout")
                ⊎ ((get run "outcome" ≡ str "phase_failed")
                    ⊎ ((get run "outcome" ≡ str "mutation_failed")
                        ⊎ (get run "outcome" ≡ str "oversized_response"))))))

-- The bucket of the first of six properties that holds, or none.
abbrev pub FirstOf : (A B C D E F : Type 0) → Option Bucket → Type 0
FirstOf A B C D E F (some safety_blocked) = A
FirstOf A B C D E F (some crashed) = (¬ A) × B
FirstOf A B C D E F (some server_rejected) = (¬ A) × (¬ B) × C
FirstOf A B C D E F (some accepted_malformed) = (¬ A) × (¬ B) × (¬ C) × D
FirstOf A B C D E F (some exceptions) = (¬ A) × (¬ B) × (¬ C) × (¬ D) × E
FirstOf A B C D E F (some anomaly) = (¬ A) × (¬ B) × (¬ C) × (¬ D) × (¬ E) × F
FirstOf A B C D E F none = (¬ A) × (¬ B) × (¬ C) × (¬ D) × (¬ E) × (¬ F)

-- What a run is to count as: in a bucket, or in none. What is no dict is an anomaly.
abbrev pub CountsAs : Option Bucket → Value → Type 0
CountsAs bucket (obj run) =
    FirstOf (IsBlocked run) (IsCrashed run) (get run "outcome" ≡ str "server_rejected")
      (IsAccepted run) (truthy (get run "exception") ≡ true) (IsAnomalous run) bucket
CountsAs (some anomaly) _ = Unit
CountsAs _ _ = ⊥

-- The list has so many values with the property.
pub data Tally (P : Value → Type 0) : List Value → ℕ → Type 0 where
  empty : Tally P [] 0
  counted : {v : Value} {vs : List Value} {n : ℕ} → P v → Tally P vs n → Tally P (v ∷ vs) (suc n)
  passed : {v : Value} {vs : List Value} {n : ℕ} → ¬ P v → Tally P vs n → Tally P (v ∷ vs) n

abbrev pub same_bucket : Bucket → Bucket → Bool
same_bucket server_rejected server_rejected = true
same_bucket accepted_malformed accepted_malformed = true
same_bucket anomaly anomaly = true
same_bucket crashed crashed = true
same_bucket exceptions exceptions = true
same_bucket safety_blocked safety_blocked = true
same_bucket _ _ = false

abbrev pub is_for : Bucket → Option Bucket → Bool
is_for bucket none = false
is_for bucket (some b) = same_bucket bucket b

-- How many runs are for a bucket.
abbrev pub runs_for : Bucket → List Value → ℕ
runs_for bucket [] = 0
runs_for bucket (run ∷ runs) =
    let rest = runs_for bucket runs in if is_for bucket (bucket_of run) then suc rest else rest

count_in-increment :
    (bucket b : Bucket) (buckets : Buckets)
    → count_in bucket (increment b buckets)
      ≡ (if same_bucket bucket b then suc (count_in bucket buckets) else count_in bucket buckets)
count_in-increment bucket b buckets = ground arith

count_in-count_run :
    (bucket : Bucket) (run : Value) (buckets : Buckets)
    → count_in bucket (count_run run buckets) ≡ (
        if is_for bucket (bucket_of run)
        then suc (count_in bucket buckets)
        else count_in bucket buckets)
unfolding count_run
count_in-count_run bucket run buckets = elim (Option-cases (bucket_of run)) [
  | inl plain ↦ rw (plain, count_run) refl
  | inr (b, same) ↦ rw (same, count_run) (count_in-increment bucket b buckets)
]

count_in-count_runs :
    (bucket : Bucket) (runs : List Value) (buckets : Buckets)
    → count_in bucket (count_runs runs buckets) ≡ runs_for bucket runs + count_in bucket buckets
unfolding count_runs
count_in-count_runs bucket [] buckets = omega arith
count_in-count_runs bucket (run ∷ runs) buckets = ground (
  arith,
  count_in-count_runs bucket runs (count_run run buckets),
  count_in-count_run bucket run buckets,
)

-- How many runs are for none.
abbrev pub one_if_none : Option Bucket → ℕ
one_if_none none = 1
one_if_none (some b) = 0

abbrev pub uncounted : List Value → ℕ
uncounted [] = 0
uncounted (run ∷ runs) = one_if_none (bucket_of run) + uncounted runs

abbrev pub total : Buckets → ℕ
total b =
    b.rejected_runs
    + (b.accepted_runs
        + (b.anomalous_runs + (b.crashed_runs + (b.exception_runs + b.blocked_runs))))

total-increment :
    (b : Bucket) (buckets : Buckets) → total (increment b buckets) ≡ suc (total buckets)
total-increment b buckets = ground arith

total-count_run :
    (run : Value) (buckets : Buckets)
    → total (count_run run buckets) + one_if_none (bucket_of run) ≡ suc (total buckets)
unfolding count_run
total-count_run run buckets = elim (Option-cases (bucket_of run)) [
  | inl plain ↦ rw (plain, count_run) (omega arith)
  | inr (b, same) ↦ rw (same, count_run) (omega (arith, total-increment b buckets))
]

total-count_runs :
    (runs : List Value) (buckets : Buckets)
    → total (count_runs runs buckets) + uncounted runs ≡ length runs + total buckets
unfolding count_runs
total-count_runs [] buckets = omega arith
total-count_runs (run ∷ runs) buckets =
    omega (arith, total-count_runs runs (count_run run buckets), total-count_run run buckets)

module _ (run : Fields) where
  IsBlocked-iff :
      ((truthy (get run "safety_blocked") || is_outcome run "safety_blocked") ≡ true)
      ↔ IsBlocked run
  IsBlocked-iff = ground (arith, equals_text_iff (get run "outcome") "safety_blocked")

  IsCrashed-iff :
      ((is_outcome run "crashed" || equals_text (get run "error") "server_crashed") ≡ true)
      ↔ IsCrashed run
  IsCrashed-iff = ground (
    arith,
    equals_text_iff (get run "outcome") "crashed",
    equals_text_iff (get run "error") "server_crashed",
  )

  IsAccepted-iff :
      ((is_outcome run "accepted_malformed" || truthy (get run "accepted_malformed")) ≡ true)
      ↔ IsAccepted run
  IsAccepted-iff = ground (arith, equals_text_iff (get run "outcome") "accepted_malformed")

  IsAnomalous-iff :
      ((truthy (get run "error")
          || (truthy (get run "server_error") || any (is_outcome run) anomaly_outcomes))
        ≡ true)
      ↔ IsAnomalous run
  IsAnomalous-iff = ground (
    arith,
    equals_text_iff (get run "outcome") "transport_error",
    equals_text_iff (get run "outcome") "timeout",
    equals_text_iff (get run "outcome") "phase_failed",
    equals_text_iff (get run "outcome") "mutation_failed",
    equals_text_iff (get run "outcome") "oversized_response",
  )

  exception_iff :
      ¬ IsBlocked run → (run_has_exception run ≡ true) ↔ (truthy (get run "exception") ≡ true)
  exception_iff free = ground (arith, free)

choose_iff :
    {A B C D E F : Type 0} (o : Option Bucket) (a b c d e f : Bool)
    → (a ≡ true) ↔ A
    → (b ≡ true) ↔ B
    → (c ≡ true) ↔ C
    → (d ≡ true) ↔ D
    → (¬ A → (e ≡ true) ↔ E)
    → (f ≡ true) ↔ F
    → ((if a
          then some safety_blocked
          else if b
          then some crashed
          else if c
          then some server_rejected
          else if d
          then some accepted_malformed
          else if e
          then some exceptions
          else if f
          then some anomaly
          else none)
        ≡ o)
      ↔ FirstOf A B C D E F o
choose_iff o true b c d e f ha hb hc hd he hf = ground arith
choose_iff o false true c d e f ha hb hc hd he hf = ground arith
choose_iff o false false true d e f ha hb hc hd he hf = ground arith
choose_iff o false false false true e f ha hb hc hd he hf = ground arith
choose_iff o false false false false true f ha hb hc hd he hf = ground arith
choose_iff o false false false false false true ha hb hc hd he hf = ground arith
choose_iff o false false false false false false ha hb hc hd he hf = ground arith

bucket_of_iff : (b : Option Bucket) (run : Value) → (bucket_of run ≡ b) ↔ CountsAs b run
unfolding bucket_of
bucket_of_iff b (obj run) =
    choose_iff b _ _ _ _ _ _ (IsBlocked-iff run) (IsCrashed-iff run)
      (equals_text_iff (get run "outcome") "server_rejected") (IsAccepted-iff run)
      (exception_iff run) (IsAnomalous-iff run)
bucket_of_iff b _ = ground arith

same_bucket_iff : (a b : Bucket) → (same_bucket a b ≡ true) ↔ (a ≡ b)
same_bucket_iff a b = ground arith

is_for_iff : (b : Bucket) (o : Option Bucket) → (is_for b o ≡ true) ↔ (o ≡ some b)
is_for_iff b none = ground arith
is_for_iff b (some c) = ground (arith, same_bucket_iff b c)

Tally-next :
    {P : Value → Type 0} {v : Value} {vs : List Value} {n : ℕ} (t : Bool)
    → (t ≡ true) ↔ P v
    → Tally P vs n
    → Tally P (v ∷ vs) (if t then suc n else n)
Tally-next true iff rest = counted (iff.0 refl) rest
Tally-next false iff rest = passed (λ h. ground (arith, iff, h)) rest

Tally-runs_for : (b : Bucket) (runs : List Value) → Tally (CountsAs (some b)) runs (runs_for b runs)
Tally-runs_for b [] = empty
Tally-runs_for b (run ∷ runs) =
    Tally-next (is_for b (bucket_of run))
      (ground (arith, is_for_iff b (bucket_of run), bucket_of_iff (some b) run))
      (Tally-runs_for b runs)

Tally-uncounted : (runs : List Value) → Tally (CountsAs none) runs (uncounted runs)
Tally-uncounted [] = empty
Tally-uncounted (run ∷ runs) = elim (Option-cases (bucket_of run)) [
  | inl plain ↦
      subst (Tally (CountsAs none) (run ∷ runs)) (ground (arith, plain))
        (counted ((bucket_of_iff none run).0 plain) (Tally-uncounted runs))
  | inr (b, same) ↦ subst (Tally (CountsAs none) (run ∷ runs)) (ground (arith, same)) (
      passed (λ h. let none_of = (bucket_of_iff none run).1 h in cc (none_of, same))
        (Tally-uncounted runs))
]

-- The summary counts in every bucket the runs that are to count in it, told from the run: as blocked
-- by the safety system, else as crashed, else as rejected by the server, else as accepted though
-- malformed, else as an exception, else as an anomaly. Its six counts and the number of the runs that
-- are none of these add up to the number of runs.
pub summarize_tool_outcomes-Tally :
    (bucket : Bucket) (runs : List Value)
    → Tally (CountsAs (some bucket)) runs (count_in bucket (summarize_tool_outcomes runs))
      × ((rest : ℕ) × Tally (CountsAs none) runs rest
          × (total (summarize_tool_outcomes runs) + rest ≡ length runs))
unfolding summarize_tool_outcomes
summarize_tool_outcomes-Tally bucket runs = (
  subst (Tally (CountsAs (some bucket)) runs)
      (ground (arith, count_in-count_runs bucket runs no_runs)) (Tally-runs_for bucket runs),
  (uncounted runs, Tally-uncounted runs, omega (arith, total-count_runs runs no_runs)),
)
