-- ===== src/Base/Rows.antt =====
-- Counts and sums over the rows of a table that pass a test, under the statements that change it.
use Prim.Native.Nat.{ℕ, ◌+◌, ◌≤◌, max}
use mathlib.Core.Path.{◌≡◌, refl}
use mathlib.Core.Logic.{◌↔◌}
use mathlib.Core.Bool.{Bool, true, false, not, ◌&&◌}
use mathlib.Core.List.{List, [], ◌∷◌, ◌++◌}
use native.Mathlib.Omega.{arith}
use enterprise_multi_tenant.Base.Tests.{if◌then◌else◌}
use enterprise_multi_tenant.Base.Lists.{count, filter, All}

module _ {ℓ} {A : Type ℓ} where
  -- `SUM(size) … WHERE p`, 0 over no rows.
  abbrev pub sum_of : (A → ℕ) → (A → Bool) → List A → ℕ
  sum_of size p [] = 0
  sum_of size p (x ∷ xs) = let rest = sum_of size p xs in if p x then size x + rest else rest

  -- `MAX(size) … WHERE p`, 0 over no rows.
  abbrev pub max_of : (A → ℕ) → (A → Bool) → List A → ℕ
  max_of size p [] = 0
  max_of size p (x ∷ xs) = let rest = max_of size p xs in if p x then max (size x) rest else rest

  pub count-append : (p : A → Bool) (xs ys : List A) → count p (xs ++ ys) ≡ count p xs + count p ys
  count-append p [] ys = omega arith
  count-append p (x ∷ xs) ys = ground (arith, count-append p xs ys)

  pub sum_of-append :
      (size : A → ℕ) (p : A → Bool) (xs ys : List A)
      → sum_of size p (xs ++ ys) ≡ sum_of size p xs + sum_of size p ys
  sum_of-append size p [] ys = omega arith
  sum_of-append size p (x ∷ xs) ys = ground (arith, sum_of-append size p xs ys)

  pub filter-append :
      (p : A → Bool) (xs ys : List A) → filter p (xs ++ ys) ≡ filter p xs ++ filter p ys
  filter-append p [] ys = refl
  filter-append p (x ∷ xs) ys = ground (arith, filter-append p xs ys)

  -- What `DELETE … WHERE q` leaves of the rows that pass `p`.
  pub count-delete :
      (p q : A → Bool) (xs : List A)
      → count p (filter (λ x. not (q x)) xs) + count (λ x. p x && q x) xs ≡ count p xs
  count-delete p q [] = omega arith
  count-delete p q (x ∷ xs) = ground (arith, count-delete p q xs)

  pub sum_of-delete :
      (size : A → ℕ) (p q : A → Bool) (xs : List A)
      → sum_of size p (filter (λ x. not (q x)) xs) + sum_of size (λ x. p x && q x) xs
        ≡ sum_of size p xs
  sum_of-delete size p q [] = omega arith
  sum_of-delete size p q (x ∷ xs) = ground (arith, sum_of-delete size p q xs)

  pub count_mono :
      (p q : A → Bool) (xs : List A) → ((x : A) → p x ≡ true → q x ≡ true) → count p xs ≤ count q xs
  count_mono p q [] h = omega arith
  count_mono p q (x ∷ xs) h = ground (arith, count_mono p q xs h, h x)

  pub count-filter-le : (p q : A → Bool) (xs : List A) → count p (filter q xs) ≤ count p xs
  count-filter-le p q [] = omega arith
  count-filter-le p q (x ∷ xs) = ground (arith, count-filter-le p q xs)

  pub sum_of-none :
      (size : A → ℕ) (p : A → Bool) (xs : List A)
      → count p xs ≡ 0
      → (sum_of size p xs ≡ 0) × (max_of size p xs ≡ 0)
  sum_of-none size p [] h = (refl, refl)
  sum_of-none size p (x ∷ xs) h = ground (arith, sum_of-none size p xs)

  -- Over at most one row the sum is the maximum.
  pub sum_of-eq-max_of :
      (size : A → ℕ) (p : A → Bool) (xs : List A)
      → count p xs ≤ 1
      → sum_of size p xs ≡ max_of size p xs
  sum_of-eq-max_of size p [] h = refl
  sum_of-eq-max_of size p (x ∷ xs) h =
      ground (arith, sum_of-eq-max_of size p xs, sum_of-none size p xs)

  -- A positive size shows that there is a row.
  pub max_of-eq-zero_iff :
      (size : A → ℕ) (p : A → Bool) (xs : List A)
      → All (λ x. 1 ≤ size x) xs
      → (max_of size p xs ≡ 0) ↔ (count p xs ≡ 0)
  max_of-eq-zero_iff size p [] h = ground arith
  max_of-eq-zero_iff size p (x ∷ xs) h = ground (arith, max_of-eq-zero_iff size p xs h.1, h.0)

  pub All-delete {κ} :
      (P : A → Type κ) (q : A → Bool) (xs : List A) → All P xs → All P (filter q xs)
  All-delete P q [] h = tt
  All-delete P q (x ∷ xs) h = ground (arith, All-delete P q xs h.1, h.0)

  -- Rows that no test of the two has in common are untouched by a deletion.
  pub filter-delete_other :
      (p q : A → Bool) (xs : List A)
      → ((x : A) → p x ≡ true → q x ≡ false)
      → filter p (filter (λ x. not (q x)) xs) ≡ filter p xs
  filter-delete_other p q [] h = refl
  filter-delete_other p q (x ∷ xs) h = ground (arith, filter-delete_other p q xs h, h x)

  pub count-filter :
      (p q : A → Bool) (xs : List A) → count p (filter q xs) ≡ count (λ x. q x && p x) xs
  count-filter p q [] = refl
  count-filter p q (x ∷ xs) = ground (arith, count-filter p q xs)
