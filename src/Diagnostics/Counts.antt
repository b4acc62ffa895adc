-- ===== src/Diagnostics/Counts.antt =====
-- No finding is lost or counted twice: by the summary, by the merging of duplicates, by the sort.
use mcp_server_fuzzer.Prelude.{
  ℕ, suc, ◌+◌, ◌≡◌, refl, String, Bool, true, not, List, [], ◌∷◌, ◌++◌, arith, All, length, ◌==◌,
  eq_iff, if◌then◌else◌,
}
use mcp_server_fuzzer.Json.Laws.{get-put}
use mcp_server_fuzzer.Json.Table.{lookup, insert, lookup-insert}
use mcp_server_fuzzer.Diagnostics.{Finding, count_or_zero, count_findings, summarize_findings}
use mcp_server_fuzzer.Diagnostics.Scans.{Texts}
use mcp_server_fuzzer.Diagnostics.Classify.{
  count_of, number_or_one, merge_duplicate_finding, dedupe_key, put_or_merge, group, values,
  dedupe_findings, insert_finding, sort_findings, is_accepted, keep, order_findings,
}

-- How many findings have a category.
abbrev pub occurrences : String → List Finding → ℕ
occurrences category [] = 0
occurrences category (f ∷ fs) =
    let rest = occurrences category fs in if f.category == category then suc rest else rest

-- The counts of the findings with a category, added up.
abbrev pub total_count : String → List Finding → ℕ
total_count category [] = 0
total_count category (f ∷ fs) =
    let rest = total_count category fs in if f.category == category then count_of f + rest else rest

-- A finding that stands for one run.
abbrev pub CountsOnce : Finding → Type 0
CountsOnce f = count_of f ≡ 1

count_or_zero-count_findings :
    (category : String) (findings : List Finding) (counts : List (String × ℕ))
    → count_or_zero (lookup category (count_findings findings counts))
      ≡ occurrences category findings + count_or_zero (lookup category counts)
unfolding count_findings
count_or_zero-count_findings category [] counts = omega arith
count_or_zero-count_findings category (f ∷ findings) counts =
    let n = suc (count_or_zero (lookup f.category counts)) in
    ground (
      arith,
      count_or_zero-count_findings category findings (insert f.category n counts),
      lookup-insert f.category category n counts,
      eq_iff f.category category,
    )

abbrev pub sum_of : List (String × ℕ) → ℕ
sum_of [] = 0
sum_of ((k, n) ∷ rest) = n + sum_of rest

sum_of-insert :
    (key : String) (counts : List (String × ℕ))
    → sum_of (insert key (suc (count_or_zero (lookup key counts))) counts) ≡ suc (sum_of counts)
unfolding insert lookup
sum_of-insert key [] = omega arith
sum_of-insert key ((k, n) ∷ rest) = ground (arith, sum_of-insert key rest)

sum_of-count_findings :
    (findings : List Finding) (counts : List (String × ℕ))
    → sum_of (count_findings findings counts) ≡ length findings + sum_of counts
unfolding count_findings
sum_of-count_findings [] counts = omega arith
sum_of-count_findings (f ∷ findings) counts = omega (
  arith,
  sum_of-insert f.category counts,
  sum_of-count_findings findings
      (insert f.category (suc (count_or_zero (lookup f.category counts))) counts),
)

-- The summary gives each category the number of its findings, and its numbers add up to the number of
-- all findings.
pub count_or_zero-summarize_findings :
    (category : String) (findings : List Finding)
    → (count_or_zero (lookup category (summarize_findings findings))
        ≡ occurrences category findings)
      × (sum_of (summarize_findings findings) ≡ length findings)
unfolding summarize_findings lookup
count_or_zero-summarize_findings category findings = (
  omega (arith, count_or_zero-count_findings category findings []),
  omega (arith, sum_of-count_findings findings []),
)

count_of-merge_duplicate_finding :
    (existing incoming : Finding)
    → count_of (merge_duplicate_finding existing incoming) ≡ suc (count_of existing)
unfolding count_of merge_duplicate_finding
count_of-merge_duplicate_finding existing incoming =
    rw (get-put _ "count" "count" _, count_of, number_or_one) refl

category-merge_duplicate_finding :
    (existing incoming : Finding)
    → (merge_duplicate_finding existing incoming).category ≡ existing.category
unfolding merge_duplicate_finding
category-merge_duplicate_finding existing incoming = refl

total_count-insert_finding :
    (category : String) (f : Finding) (fs : List Finding)
    → total_count category (insert_finding f fs) ≡ total_count category (f ∷ fs)
unfolding insert_finding
total_count-insert_finding category f [] = refl
total_count-insert_finding category f (g ∷ gs) =
    ground (arith, total_count-insert_finding category f gs)

total_count-sort_findings :
    (category : String) (fs : List Finding)
    → total_count category (sort_findings fs) ≡ total_count category fs
unfolding sort_findings
total_count-sort_findings category [] = refl
total_count-sort_findings category (f ∷ fs) = ground (
  arith,
  total_count-insert_finding category f (sort_findings fs),
  total_count-sort_findings category fs,
)

total_count-append :
    (category : String) (fs gs : List Finding)
    → total_count category (fs ++ gs) ≡ total_count category fs + total_count category gs
total_count-append category [] gs = omega arith
total_count-append category (f ∷ fs) gs = ground (arith, total_count-append category fs gs)

total_count-keep :
    (category : String) (p : Finding → Bool) (fs : List Finding)
    → total_count category (keep p fs) + total_count category (keep (λ f. not (p f)) fs)
      ≡ total_count category fs
unfolding keep
total_count-keep category p [] = omega arith
total_count-keep category p (f ∷ fs) = ground (arith, total_count-keep category p fs)

total_count_once :
    (category : String) (fs : List Finding)
    → All CountsOnce fs
    → total_count category fs ≡ occurrences category fs
total_count_once category [] h = refl
total_count_once category (f ∷ fs) (once, rest) =
    ground (arith, once, total_count_once category fs rest)

All-keep :
    (P : Finding → Type 0) (p : Finding → Bool) (fs : List Finding) → All P fs → All P (keep p fs)
unfolding keep
All-keep P p [] h = tt
All-keep P p (f ∷ fs) (here, rest) = ground (arith, here, All-keep P p fs rest)

keep_passes : (p : Finding → Bool) (fs : List Finding) → All (λ f. p f ≡ true) (keep p fs)
unfolding keep
keep_passes p [] = tt
keep_passes p (f ∷ fs) = ground (arith, keep_passes p fs)

AllAccepted : List Finding → Type 0
AllAccepted = All (λ f. is_accepted f ≡ true)

module _ (texts : Texts) where
  -- A finding that is put or merged under its key counts as one more.
  total_count-insert :
      (category key : String) (f : Finding) (grouped : List (String × Finding))
      → is_accepted f ≡ true
      → CountsOnce f
      → AllAccepted (values texts grouped)
      → let later = insert key (put_or_merge texts f (lookup key grouped)) grouped in
        (total_count category (values texts later)
          ≡ total_count category (f ∷ values texts grouped))
        × AllAccepted (values texts later)
  unfolding insert lookup AllAccepted
  total_count-insert category key f [] a once h = (refl, (a, tt))
  total_count-insert category key f ((k, g) ∷ rest) a once (here, later) = ground (
    arith,
    a,
    once,
    here,
    later,
    total_count-insert category key f rest a once later,
    count_of-merge_duplicate_finding g f,
    category-merge_duplicate_finding g f,
    eq_iff f.category "accepted_malformed",
    eq_iff g.category "accepted_malformed",
  )

  total_count-group :
      (category : String) (findings : List Finding) (grouped : List (String × Finding))
      → AllAccepted findings
      → All CountsOnce findings
      → AllAccepted (values texts grouped)
      → total_count category (values texts (group texts findings grouped))
        ≡ total_count category findings + total_count category (values texts grouped)
  unfolding group AllAccepted
  total_count-group category [] grouped a once h = omega arith
  total_count-group category (f ∷ findings) grouped (a, more) (once, rest) h =
      let key = dedupe_key texts f in
      let (same, accepted) = total_count-insert category key f grouped a once h in
      ground (
        arith,
        same,
        total_count-group category findings
            (insert key (put_or_merge texts f (lookup key grouped)) grouped) more rest accepted,
      )

  -- If each finding stands for one run, the counts of the findings of a category in the ordered list
  -- add up to the number of findings of the category.
  pub total_count-order_findings :
      (category : String) (findings : List Finding)
      → All CountsOnce findings
      → total_count category (order_findings texts findings) ≡ occurrences category findings
  unfolding order_findings dedupe_findings AllAccepted
  total_count-order_findings category findings once =
      let accepted = keep is_accepted findings in
      let others = keep (λ f. not (is_accepted f)) findings in
      omega (
        arith,
        total_count-sort_findings category (dedupe_findings texts accepted ++ others),
        total_count-append category (dedupe_findings texts accepted) others,
        total_count-group category accepted [] (keep_passes is_accepted findings)
            (All-keep CountsOnce is_accepted findings once) tt,
        total_count-keep category is_accepted findings,
        total_count_once category findings once,
      )
