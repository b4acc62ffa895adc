-- ===== src/Reports/SpecSummary/Balance.antt =====
-- The totals of the summary, its buckets and the checks agree.
use mathlib.Core.Path.{subst}
use mcp_server_fuzzer.Prelude.{
  ℕ, suc, ◌+◌, ◌≡◌, refl, ◌⊎◌, inl, inr, Any, Bool-cases, false, String, List, [], ◌∷◌, arith,
  length, ok, err,
}
use mcp_server_fuzzer.Json.{Value, Fields, obj, is_hashable}
use mcp_server_fuzzer.Json.Keys.{Keys}
use mcp_server_fuzzer.Reports.Collector.{ReportCollector}
use mcp_server_fuzzer.Reports.SpecSummary.{
  Counts, no_counts, Verdict, count_verdict, SpecBucket, SpecSummary, SummaryError, attribute_error,
  type_error, verdict_on, spec_id_of, count_in_bucket, count_dict, count_check, count_checks,
  collect_spec_checks, build_spec_summary,
}

-- The counts of all buckets together.
abbrev pub sum_counts : List (Value × SpecBucket) → Counts
sum_counts [] = no_counts
sum_counts ((k, bucket) ∷ buckets) =
    let rest = sum_counts buckets in
    record {
      total = bucket.counts.total + rest.total;
      failed = bucket.counts.failed + rest.failed;
      warned = bucket.counts.warned + rest.warned;
      passed = bucket.counts.passed + rest.passed;
    }

abbrev pub Same : Counts → Counts → Type 0
Same a b =
    (a.total ≡ b.total) × (a.failed ≡ b.failed) × (a.warned ≡ b.warned) × (a.passed ≡ b.passed)

-- A summary of so many checks: every check failed, warned or passed, and is in one bucket.
abbrev pub IsBalanced : ℕ → SpecSummary → Type 0
IsBalanced n s =
    (s.totals.total ≡ n)
    × (s.totals.failed + (s.totals.warned + s.totals.passed) ≡ n)
    × Same (sum_counts s.by_spec_id) s.totals

abbrev plus : Counts → Counts → Counts
plus a b = record {
  total = a.total + b.total;
  failed = a.failed + b.failed;
  warned = a.warned + b.warned;
  passed = a.passed + b.passed;
}

count_verdict-plus :
    (v : Verdict) (a b : Counts) → Same (plus (count_verdict v a) b) (count_verdict v (plus a b))
count_verdict-plus v a b = ground arith

count_verdict-plus_right :
    (v : Verdict) (a b c : Counts)
    → Same c (count_verdict v b)
    → Same (plus a c) (count_verdict v (plus a b))
count_verdict-plus_right v a b c h = ground arith

count_verdict-IsBalanced :
    (v : Verdict) (n : ℕ) (a b c : Counts)
    → (a.total ≡ n) × (a.failed + (a.warned + a.passed) ≡ n) × Same b a
    → Same c (count_verdict v b)
    → let later = count_verdict v a in
      (later.total ≡ suc n) × (later.failed + (later.warned + later.passed) ≡ suc n) × Same c later
count_verdict-IsBalanced v n a b c h same = ground arith

module _ (keys : Keys) (upper_text : Value → String) where
  sum_counts-count_in_bucket :
      (spec_id : Value) (check : Fields) (buckets : List (Value × SpecBucket))
      → Same
          (sum_counts (count_in_bucket keys upper_text spec_id check buckets))
          (count_verdict (verdict_on keys upper_text check) (sum_counts buckets))
  unfolding count_in_bucket
  sum_counts-count_in_bucket spec_id check [] =
      count_verdict-plus (verdict_on keys upper_text check) no_counts no_counts
  sum_counts-count_in_bucket spec_id check ((k, bucket) ∷ buckets) =
      elim (Bool-cases (keys.same k spec_id)) [
        | inl same ↦ rw same (
            count_verdict-plus (verdict_on keys upper_text check) bucket.counts
              (sum_counts buckets))
        | inr other ↦ rw other (
            count_verdict-plus_right (verdict_on keys upper_text check) bucket.counts
              (sum_counts buckets) _ (sum_counts-count_in_bucket spec_id check buckets))
      ]

  count_dict-IsBalanced :
      (n : ℕ) (check : Fields) (s : SpecSummary)
      → IsBalanced n s
      → IsBalanced (suc n) (count_dict keys upper_text check s)
  count_dict-IsBalanced n check s h =
      count_verdict-IsBalanced (verdict_on keys upper_text check) n s.totals
        (sum_counts s.by_spec_id) _ h
        (sum_counts-count_in_bucket (spec_id_of check) check s.by_spec_id)

  -- A check that is no dict, or whose id cannot be hashed.
  abbrev pub IsRefused : Value → Type 0
  IsRefused (obj check) = is_hashable (spec_id_of check) ≡ false
  IsRefused _ = Unit

  count_check-cases :
      (n : ℕ) (check : Value) (s : SpecSummary)
      → IsBalanced n s
      → ((next : SpecSummary) × (count_check keys upper_text check s ≡ ok next)
          × IsBalanced (suc n) next)
        ⊎ (IsRefused check × ((e : SummaryError) × (count_check keys upper_text check s ≡ err e)))
  count_check-cases n (obj check) s h = elim (Bool-cases (is_hashable (spec_id_of check))) [
    | inl hashable ↦
        inl
          (count_dict keys upper_text check s, rw hashable refl, count_dict-IsBalanced n check s h)
    | inr unhashable ↦ inr (unhashable, (type_error, rw unhashable refl))
  ]
  count_check-cases n _ s h = inr (tt, (attribute_error, refl))

  count_checks-cases :
      (n : ℕ) (checks : List Value) (s : SpecSummary)
      → IsBalanced n s
      → ((last : SpecSummary) × (count_checks keys upper_text checks s ≡ ok last)
          × IsBalanced (length checks + n) last)
        ⊎ (Any IsRefused checks
            × ((e : SummaryError) × (count_checks keys upper_text checks s ≡ err e)))
  unfolding count_checks
  count_checks-cases n [] s h = inl (s, refl, subst (λ m. IsBalanced m s) (omega arith) h)
  count_checks-cases n (check ∷ checks) s h = elim (count_check-cases n check s h) [
    | inr (refused, (e, raised)) ↦ inr (inl refused, (e, rw raised refl))
    | inl (next, done, balanced) ↦ elim (count_checks-cases (suc n) checks next balanced) [
      | inr (refused, (e, raised)) ↦ inr (inr refused, (e, rw (done, raised) refl))
      | inl (last, finished, so) ↦
          inl (last, rw (done, finished) refl, subst (λ m. IsBalanced m last) (omega arith) so)
    ]
  ]

  -- The summary of the checks that are collected: in it every check failed, warned or passed, the totals
  -- count all checks, and the buckets together have the counts of the totals. It raises only if some
  -- check is no dict or has an id that cannot be hashed.
  pub build_spec_summary-IsBalanced :
      (c : ReportCollector)
      → ((s : SpecSummary) × (build_spec_summary keys upper_text c ≡ ok s)
          × IsBalanced (length (collect_spec_checks c)) s)
        ⊎ (Any IsRefused (collect_spec_checks c)
            × ((e : SummaryError) × (build_spec_summary keys upper_text c ≡ err e)))
  unfolding build_spec_summary
  build_spec_summary-IsBalanced c =
      elim (count_checks-cases 0 (collect_spec_checks c)
        (record { totals = no_counts; by_spec_id = [] }) (refl, refl, (refl, refl, refl, refl))) [
          | inl (s, done, balanced) ↦
              inl (s, done, subst (λ m. IsBalanced m s) (omega arith) balanced)
          | inr failed ↦ inr failed
        ]
