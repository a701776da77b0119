-- ===== src/Base/Lists.antt =====
-- Lists measured, cut and filtered over the native numbers and Boolean tests.
use Prim.Native.Nat.{ℕ, zero, suc, ◌+◌, ◌-◌, ◌≤◌, min}
use mathlib.Core.Path.{◌≡◌, refl, ap, sym, ◌∙◌}
use mathlib.Core.Bool.{Bool, true, false, not, ◌&&◌, ◌||◌}
use mathlib.Core.List.{List, [], ◌∷◌, ◌++◌, append_assoc}
use native.Mathlib.Omega.{arith}
use enterprise_multi_tenant.Base.Tests.{if◌then◌else◌}

module _ {ℓ} {A : Type ℓ} where
  abbrev pub length : List A → ℕ
  length [] = 0
  length (x ∷ xs) = suc (length xs)

  abbrev pub take : ℕ → List A → List A
  take zero xs = []
  take (suc n) [] = []
  take (suc n) (x ∷ xs) = x ∷ take n xs

  abbrev pub drop : ℕ → List A → List A
  drop zero xs = xs
  drop (suc n) [] = []
  drop (suc n) (x ∷ xs) = drop n xs

  -- Python's comprehension `[x for x in xs if p(x)]`.
  abbrev pub filter : (A → Bool) → List A → List A
  filter p [] = []
  filter p (x ∷ xs) = let rest = filter p xs in if p x then x ∷ rest else rest

  -- Python's `any`.
  abbrev pub any : (A → Bool) → List A → Bool
  any p [] = false
  any p (x ∷ xs) = p x || any p xs

  -- Python's `all`.
  abbrev pub all : (A → Bool) → List A → Bool
  all p [] = true
  all p (x ∷ xs) = p x && all p xs

  -- How many elements pass the test.
  abbrev pub count : (A → Bool) → List A → ℕ
  count p [] = 0
  count p (x ∷ xs) = let rest = count p xs in if p x then suc rest else rest

  -- Every element has the property.
  abbrev pub All {κ} : (A → Type κ) → List A → Type κ
  All P [] = Unit
  All P (x ∷ xs) = P x × All P xs

  -- `"".join`, on lists.
  abbrev pub flatten : List (List A) → List A
  flatten [] = []
  flatten (xs ∷ xss) = xs ++ flatten xss

  pub length-append : (xs ys : List A) → length (xs ++ ys) ≡ length xs + length ys
  length-append [] ys = omega arith
  length-append (x ∷ xs) ys = omega (arith, length-append xs ys)

  pub length-take : (n : ℕ) (xs : List A) → length (take n xs) ≡ min n (length xs)
  length-take zero xs = omega arith
  length-take (suc n) [] = omega arith
  length-take (suc n) (x ∷ xs) = omega (arith, length-take n xs)

  pub length-drop : (n : ℕ) (xs : List A) → length (drop n xs) ≡ length xs - n
  length-drop zero xs = omega arith
  length-drop (suc n) [] = omega arith
  length-drop (suc n) (x ∷ xs) = omega (arith, length-drop n xs)

  pub take-append-drop : (n : ℕ) (xs : List A) → take n xs ++ drop n xs ≡ xs
  take-append-drop zero xs = refl
  take-append-drop (suc n) [] = refl
  take-append-drop (suc n) (x ∷ xs) = ap (λ r. x ∷ r) (take-append-drop n xs)

  pub length-filter : (p : A → Bool) (xs : List A) → length (filter p xs) ≡ count p xs
  length-filter p [] = refl
  length-filter p (x ∷ xs) = ground (arith, length-filter p xs)

  -- Keeping and dropping by one test splits the list.
  pub count_split :
      (p : A → Bool) (xs : List A) → count p xs + count (λ x. not (p x)) xs ≡ length xs
  count_split p [] = omega arith
  count_split p (x ∷ xs) = ground (arith, count_split p xs)

  pub length-filter-le : (p : A → Bool) (xs : List A) → length (filter p xs) ≤ length xs
  length-filter-le p [] = omega arith
  length-filter-le p (x ∷ xs) = ground (arith, length-filter-le p xs)

  pub All-filter : (p : A → Bool) (xs : List A) → All (λ x. p x ≡ true) (filter p xs)
  All-filter p [] = tt
  All-filter p (x ∷ xs) = ground (arith, All-filter p xs)

  pub All-take {κ} : (P : A → Type κ) (n : ℕ) (xs : List A) → All P xs → All P (take n xs)
  All-take P zero xs h = tt
  All-take P (suc n) [] h = tt
  All-take P (suc n) (x ∷ xs) h = (h.0, All-take P n xs h.1)

  pub All-append {κ} : (P : A → Type κ) (xs ys : List A) → All P xs → All P ys → All P (xs ++ ys)
  All-append P [] ys hx hy = hy
  All-append P (x ∷ xs) ys hx hy = (hx.0, All-append P xs ys hx.1 hy)

  pub take_all : (n : ℕ) (xs : List A) → length xs ≤ n → take n xs ≡ xs
  take_all zero [] h = refl
  take_all zero (x ∷ xs) h = elim h [ ]
  take_all (suc n) [] h = refl
  take_all (suc n) (x ∷ xs) h = ap (λ r. x ∷ r) (take_all n xs (omega arith))

  -- A filter that follows a filter by a test which fails on all that the second keeps.
  pub filter-filter_disjoint :
      (p q : A → Bool) (xs : List A)
      → ((x : A) → p x ≡ true → q x ≡ true → ⊥)
      → filter q (filter p xs) ≡ []
  filter-filter_disjoint p q [] h = refl
  filter-filter_disjoint p q (x ∷ xs) h = ground (arith, filter-filter_disjoint p q xs h, h x)

  -- A filter that follows one which keeps all that it keeps.
  pub filter-filter_of_imp :
      (p q : A → Bool) (xs : List A)
      → ((x : A) → q x ≡ true → p x ≡ true)
      → filter q (filter p xs) ≡ filter q xs
  filter-filter_of_imp p q [] h = refl
  filter-filter_of_imp p q (x ∷ xs) h = ground (arith, filter-filter_of_imp p q xs h, h x)

  pub take-append_left : (xs ys : List A) → take (length xs) (xs ++ ys) ≡ xs
  take-append_left [] ys = refl
  take-append_left (x ∷ xs) ys = ap (λ r. x ∷ r) (take-append_left xs ys)

  pub drop_all : (n : ℕ) (xs : List A) → length xs ≤ n → drop n xs ≡ []
  drop_all zero [] h = refl
  drop_all zero (x ∷ xs) h = elim h [ ]
  drop_all (suc n) [] h = refl
  drop_all (suc n) (x ∷ xs) h = drop_all n xs (omega arith)

pub take-nil {ℓ} : {A : Type ℓ} (n : ℕ) → take {A = A} n [] ≡ []
take-nil zero = refl
take-nil (suc n) = refl

pub flatten-append {ℓ} :
    {A : Type ℓ} (xss yss : List (List A)) → flatten (xss ++ yss) ≡ flatten xss ++ flatten yss
flatten-append [] yss = refl
flatten-append (xs ∷ xss) yss =
    ap (λ r. xs ++ r) (flatten-append xss yss) ∙ sym (append_assoc xs (flatten xss) (flatten yss))
