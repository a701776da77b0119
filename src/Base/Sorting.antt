-- ===== src/Base/Sorting.antt =====
-- Python's `sorted` on numbers, as insertion sort, with what an index into a sorted list says.
use Prim.Native.Nat.{ℕ, zero, suc, ◌+◌, ◌≤◌, ◌<◌}
use mathlib.Core.Path.{◌≡◌, refl}
use mathlib.Core.Bool.{Bool}
use mathlib.Core.List.{List, [], ◌∷◌}
use native.Mathlib.Omega.{arith}
use enterprise_multi_tenant.Base.Tests.{leb, if◌then◌else◌}
use enterprise_multi_tenant.Base.Lists.{length, count, All}

abbrev pub get_or {ℓ} : {A : Type ℓ} → List A → ℕ → A → A
get_or [] i d = d
get_or (x ∷ xs) zero d = x
get_or (x ∷ xs) (suc i) d = get_or xs i d

unfoldable pub insert : ℕ → List ℕ → List ℕ
insert x [] = x ∷ []
insert x (y ∷ ys) = let rest = insert x ys in if leb x y then x ∷ y ∷ ys else y ∷ rest

unfoldable pub sort : List ℕ → List ℕ
unfolding insert
sort [] = []
sort (x ∷ xs) = insert x (sort xs)

abbrev pub IsSorted : List ℕ → Type 0
IsSorted [] = Unit
IsSorted (x ∷ xs) = All (λ y. x ≤ y) xs × IsSorted xs

All-weaken : (x y : ℕ) (xs : List ℕ) → x ≤ y → All (λ z. y ≤ z) xs → All (λ z. x ≤ z) xs
All-weaken x y [] h a = tt
All-weaken x y (z ∷ xs) h a = (omega arith, All-weaken x y xs h a.1)

All-insert : (b x : ℕ) (xs : List ℕ) → b ≤ x → All (λ z. b ≤ z) xs → All (λ z. b ≤ z) (insert x xs)
unfolding insert
All-insert b x [] h a = (h, tt)
All-insert b x (y ∷ ys) h a = ground (arith, All-insert b x ys h a.1)

insert-IsSorted : (x : ℕ) (xs : List ℕ) → IsSorted xs → IsSorted (insert x xs)
unfolding insert
insert-IsSorted x [] h = (tt, tt)
insert-IsSorted x (y ∷ ys) h =
    ground (arith, insert-IsSorted x ys h.1, All-weaken x y ys, All-insert y x ys)

pub sort-IsSorted : (xs : List ℕ) → IsSorted (sort xs)
unfolding sort
sort-IsSorted [] = tt
sort-IsSorted (x ∷ xs) = insert-IsSorted x (sort xs) (sort-IsSorted xs)

count-insert :
    (p : ℕ → Bool) (x : ℕ) (xs : List ℕ)
    → count p (insert x xs) ≡ (if p x then suc (count p xs) else count p xs)
unfolding insert
count-insert p x [] = refl
count-insert p x (y ∷ ys) = ground (arith, count-insert p x ys)

-- Sorting keeps how many elements pass any test.
pub count-sort : (p : ℕ → Bool) (xs : List ℕ) → count p (sort xs) ≡ count p xs
unfolding sort
count-sort p [] = refl
count-sort p (x ∷ xs) = ground (arith, count-insert p x (sort xs), count-sort p xs)

length-insert : (x : ℕ) (xs : List ℕ) → length (insert x xs) ≡ suc (length xs)
unfolding insert
length-insert x [] = refl
length-insert x (y ∷ ys) = ground (arith, length-insert x ys)

pub length-sort : (xs : List ℕ) → length (sort xs) ≡ length xs
unfolding sort
length-sort [] = refl
length-sort (x ∷ xs) = ground (arith, length-insert x (sort xs), length-sort xs)

All-get : (b : ℕ) (xs : List ℕ) (i : ℕ) → All (λ z. b ≤ z) xs → i < length xs → b ≤ get_or xs i 0
All-get b [] i a h = elim h [ ]
All-get b (x ∷ xs) zero a h = a.0
All-get b (x ∷ xs) (suc i) a h = All-get b xs i a.1 (omega arith)

count-All : (b : ℕ) (xs : List ℕ) → All (λ z. b ≤ z) xs → count (leb b) xs ≡ length xs
count-All b [] a = refl
count-All b (x ∷ xs) a = ground (arith, count-All b xs a.1)

-- At index `i` of a sorted list stands an element that `i + 1` elements do not exceed, and that
-- does not exceed the elements from `i` on.
pub rank_bounds :
    (xs : List ℕ) (i : ℕ)
    → IsSorted xs
    → i < length xs
    → (i < count (λ x. leb x (get_or xs i 0)) xs) × (length xs ≤ count (leb (get_or xs i 0)) xs + i)
rank_bounds [] i s h = elim h [ ]
rank_bounds (x ∷ xs) zero s h = (ground arith, ground (arith, count-All x xs s.0))
rank_bounds (x ∷ xs) (suc i) s h = ground (arith, rank_bounds xs i s.1, All-get x xs i s.0)

module _ {A : Type 0} where
  -- A stable sort: `le x y` says that `x` may stand before `y`.
  unfoldable pub insert_by : (A → A → Bool) → A → List A → List A
  insert_by le x [] = x ∷ []
  insert_by le x (y ∷ ys) = let rest = insert_by le x ys in if le x y then x ∷ y ∷ ys else y ∷ rest

  unfoldable pub sort_by : (A → A → Bool) → List A → List A
  unfolding insert_by
  sort_by le [] = []
  sort_by le (x ∷ xs) = insert_by le x (sort_by le xs)

  pub count-insert_by :
      (p : A → Bool) (le : A → A → Bool) (x : A) (xs : List A)
      → count p (insert_by le x xs) ≡ (if p x then suc (count p xs) else count p xs)
  unfolding insert_by
  count-insert_by p le x [] = refl
  count-insert_by p le x (y ∷ ys) = ground (arith, count-insert_by p le x ys)

  pub count-sort_by :
      (p : A → Bool) (le : A → A → Bool) (xs : List A) → count p (sort_by le xs) ≡ count p xs
  unfolding sort_by
  count-sort_by p le [] = refl
  count-sort_by p le (x ∷ xs) =
      ground (arith, count-insert_by p le x (sort_by le xs), count-sort_by p le xs)
