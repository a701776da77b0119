-- ===== src/Base/Members.antt =====
-- Membership in a list, with the lemmas on the ways in which tables are changed.
use mathlib.Core.Path.{◌≡◌, ap, refl, subst}
use mathlib.Core.Logic.{◌⊎◌, inl, inr}
use native.Mathlib.Omega.{arith}
use mathlib.Core.Bool.{Bool, true, false, not}
use mathlib.Core.List.{List, [], ◌∷◌, ◌++◌, map}
use enterprise_multi_tenant.Base.Tests.{Bool-cases}
use enterprise_multi_tenant.Base.Lists.{filter}

module _ {A : Type 0} where
  abbrev pub In : A → List A → Type 0
  In x [] = ⊥
  In x (y ∷ ys) = (x ≡ y) ⊎ In x ys

  pub In-append : (x : A) (xs ys : List A) → In x (xs ++ ys) → In x xs ⊎ In x ys
  In-append x [] ys h = inr h
  In-append x (z ∷ xs) ys (inl e) = inl (inl e)
  In-append x (z ∷ xs) ys (inr h) = elim (In-append x xs ys h) [
    | inl l ↦ inl (inr l)
    | inr r ↦ inr r
  ]

  pub append-In_left : (x : A) (xs ys : List A) → In x xs → In x (xs ++ ys)
  append-In_left x [] ys h = absurd h
  append-In_left x (z ∷ xs) ys (inl e) = inl e
  append-In_left x (z ∷ xs) ys (inr h) = inr (append-In_left x xs ys h)

  pub append-In_right : (x : A) (xs ys : List A) → In x ys → In x (xs ++ ys)
  append-In_right x [] ys h = h
  append-In_right x (z ∷ xs) ys h = inr (append-In_right x xs ys h)

  pub In-filter : (p : A → Bool) (x : A) (xs : List A) → In x (filter p xs) → In x xs × (p x ≡ true)
  In-filter p x [] h = absurd h
  In-filter p x (y ∷ ys) h = elim (Bool-cases (p y)) [
    | inr no_y ↦ let (i, t) = In-filter p x ys (rw no_y at h) in (inr i, t)
    | inl yes_y ↦ elim (rw yes_y at h) as (λ _. In x (y ∷ ys) × (p x ≡ true)) [
      | inl e ↦ (inl e, rw e yes_y)
      | inr i ↦ let (j, t) = In-filter p x ys i in (inr j, t)
    ]
  ]

  pub filter-In : (p : A → Bool) (x : A) (xs : List A) → In x xs → p x ≡ true → In x (filter p xs)
  filter-In p x [] h t = absurd h
  filter-In p x (y ∷ ys) (inl e) t = rw (subst (λ z. p z ≡ true) e t) (inl e)
  filter-In p x (y ∷ ys) (inr h) t = elim (Bool-cases (p y)) [
    | inl yes_y ↦ rw yes_y (inr (filter-In p x ys h t))
    | inr no_y ↦ rw no_y (filter-In p x ys h t)
  ]

-- A member of a mapped list is the value of a member.
pub In-map :
    {A B : Type 0} (f : A → B) (y : B) (xs : List A)
    → In y (map f xs)
    → (x : A) × In x xs × (y ≡ f x)
In-map f y [] h = absurd h
In-map f y (x ∷ xs) (inl e) = (x, inl refl, e)
In-map f y (x ∷ xs) (inr h) = let (z, i, e) = In-map f y xs h in (z, inr i, e)

module _ {A : Type 0} where
  -- Two tests that agree on the members.
  pub filter-congr :
      (p q : A → Bool) (xs : List A) → ((x : A) → In x xs → p x ≡ q x) → filter p xs ≡ filter q xs
  filter-congr p q [] h = refl
  filter-congr p q (x ∷ xs) h =
      ground (arith, h x (inl refl), filter-congr p q xs (λ y i. h y (inr i)))

  -- A deletion that matches no member, and one that matches each.
  pub delete_none :
      (p : A → Bool) (xs : List A)
      → ((x : A) → In x xs → p x ≡ false)
      → filter (λ x. not (p x)) xs ≡ xs
  delete_none p [] h = refl
  delete_none p (x ∷ xs) h =
      rw (h x (inl refl)) (ap (λ ys. x ∷ ys) (delete_none p xs (λ y i. h y (inr i))))

  pub delete_every :
      (p : A → Bool) (xs : List A)
      → ((x : A) → In x xs → p x ≡ true)
      → filter (λ x. not (p x)) xs ≡ []
  delete_every p [] h = refl
  delete_every p (x ∷ xs) h = rw (h x (inl refl)) (delete_every p xs (λ y i. h y (inr i)))
