-- ===== src/Prelude/Lists.antt =====
-- Lists measured by native numbers, predicates on lists, and loops that collect lists.
use Prim.Native.Nat.{ℕ, zero, suc, ◌+◌}
use mathlib.Core.Path.{◌≡◌, refl}
use mathlib.Core.Logic.{◌↔◌, ◌⊎◌}
use mathlib.Core.Bool.{Bool, true, false, ◌&&◌, ◌||◌}
use mathlib.Core.List.{List, [], ◌∷◌, ◌++◌, map}
use mathlib.Core.Option.{Option, none, some}
use native.Mathlib.Omega.{arith}

module _ {ℓ} {A : Type ℓ} where
  abbrev pub length : List A → ℕ
  length [] = 0
  length (x ∷ xs) = suc (length xs)

  pub length-append : (xs ys : List A) → length (xs ++ ys) ≡ length xs + length ys
  length-append [] ys = omega arith
  length-append (x ∷ xs) ys = omega (arith, length-append xs ys)

  abbrev pub any : (A → Bool) → List A → Bool
  any p [] = false
  any p (x ∷ xs) = p x || any p xs

  abbrev pub all : (A → Bool) → List A → Bool
  all p [] = true
  all p (x ∷ xs) = p x && all p xs

  -- A predicate by recursion computes to tuples, which the tactics read and build.
  abbrev pub All {κ} : (A → Type κ) → List A → Type κ
  All P [] = Unit
  All P (x ∷ xs) = P x × All P xs

  abbrev pub Any : (A → Type 0) → List A → Type 0
  Any P [] = ⊥
  Any P (x ∷ xs) = P x ⊎ Any P xs

  pub All-append {κ} : (P : A → Type κ) (xs ys : List A) → All P xs → All P ys → All P (xs ++ ys)
  All-append P [] ys h k = k
  All-append P (x ∷ xs) ys (p, h) k = (p, All-append P xs ys h k)

  pub append-eq-nil_iff : (xs ys : List A) → (xs ++ ys ≡ []) ↔ ((xs ≡ []) × (ys ≡ []))
  append-eq-nil_iff [] ys = ground arith
  append-eq-nil_iff (x ∷ xs) ys = ground arith

  -- A list put together from parts is empty exactly when each part is.
  pub nil_and {κ} :
      {P Q : Type κ} {xs ys : List A} → (xs ≡ []) ↔ P → (ys ≡ []) ↔ Q → (xs ++ ys ≡ []) ↔ (P × Q)
  nil_and {xs = xs} {ys = ys} p q = (
    (λ e. let (ex, ey) = (append-eq-nil_iff xs ys).0 e in (p.0 ex, q.0 ey)),
    (λ (hp, hq). (append-eq-nil_iff xs ys).1 (p.1 hp, q.1 hq)),
  )

  pub nil_and3 {κ} :
      {P Q R : Type κ} {xs ys zs : List A}
      → (xs ≡ []) ↔ P
      → (ys ≡ []) ↔ Q
      → (zs ≡ []) ↔ R
      → (xs ++ (ys ++ zs) ≡ []) ↔ (P × Q × R)
  nil_and3 p q r =
      let pqr = nil_and p (nil_and q r) in
      ((λ e. let (a, (b, c)) = pqr.0 e in (a, b, c)), (λ (a, b, c). pqr.1 (a, (b, c))))

  pub nil_and4 {κ} :
      {P Q R S : Type κ} {xs ys zs ws : List A}
      → (xs ≡ []) ↔ P
      → (ys ≡ []) ↔ Q
      → (zs ≡ []) ↔ R
      → (ws ≡ []) ↔ S
      → (xs ++ (ys ++ (zs ++ ws)) ≡ []) ↔ (P × Q × R × S)
  nil_and4 p q r s =
      let pqrs = nil_and p (nil_and3 q r s) in
      (
        (λ e. let (a, (b, c, d)) = pqrs.0 e in (a, b, c, d)),
        (λ (a, b, c, d). pqrs.1 (a, (b, c, d))),
      )

module _ {ℓ κ} {A : Type ℓ} {B : Type κ} where
  -- for idx, item in enumerate(items, i): found.extend(f(idx, item))
  abbrev pub extend_from : (ℕ → A → List B) → ℕ → List A → List B
  extend_from f i [] = []
  extend_from f i (x ∷ xs) = f i x ++ extend_from f (suc i) xs

  -- The loop finds nothing exactly when no item has a finding.
  pub extend_from-eq-nil_iff {μ} :
      (P : A → Type μ) (f : ℕ → A → List B)
      → ((i : ℕ) (x : A) → (f i x ≡ []) ↔ P x)
      → (i : ℕ) (xs : List A) → (extend_from f i xs ≡ []) ↔ All P xs
  extend_from-eq-nil_iff P f iff i [] = ((λ _. tt), (λ _. refl))
  extend_from-eq-nil_iff P f iff i (x ∷ xs) = (
    (λ e.
        let (here, later) = (append-eq-nil_iff (f i x) (extend_from f (suc i) xs)).0 e in
        ((iff i x).0 here, (extend_from-eq-nil_iff P f iff (suc i) xs).0 later)),
    (λ (p, ps).
        (append-eq-nil_iff (f i x) (extend_from f (suc i) xs)).1
          ((iff i x).1 p, (extend_from-eq-nil_iff P f iff (suc i) xs).1 ps)),
  )

  -- What holds of each finding of an item holds of each finding of the loop.
  pub All-extend_from {μ} :
      (Q : B → Type μ) (f : ℕ → A → List B)
      → ((i : ℕ) (x : A) → All Q (f i x))
      → (i : ℕ) (xs : List A) → All Q (extend_from f i xs)
  All-extend_from Q f h i [] = tt
  All-extend_from Q f h i (x ∷ xs) =
      All-append Q (f i x) (extend_from f (suc i) xs) (h i x) (All-extend_from Q f h (suc i) xs)

  pub length-map : (f : A → B) (xs : List A) → length (map f xs) ≡ length xs
  length-map f [] = refl
  length-map f (x ∷ xs) = omega (arith, length-map f xs)

module _ {ℓ} {A : Type ℓ} where
  abbrev pub get_elem? : List A → ℕ → Option A
  get_elem? [] i = none
  get_elem? (x ∷ xs) zero = some x
  get_elem? (x ∷ xs) (suc i) = get_elem? xs i

  -- A test that passes on a list passes on each of its items.
  pub all-get_elem? :
      (p : A → Bool) (xs : List A) (i : ℕ) {x : A}
      → all p xs ≡ true
      → get_elem? xs i ≡ some x
      → p x ≡ true
  all-get_elem? p [] i h e = cc
  all-get_elem? p (y ∷ ys) zero h e = ground arith
  all-get_elem? p (y ∷ ys) (suc i) h e = all-get_elem? p ys i (ground arith) e
