-- ===== src/Base/Members.antt =====
-- Membership in a list under a function, and in the two parts that a test cuts it into.
use mathlib.Core.Path.{◌≡◌, refl, subst}
use mathlib.Core.Logic.{inl, inr}
use mathlib.Core.Bool.{Bool, true, false, not, ◌&&◌, ◌||◌}
use mathlib.Core.List.{List, [], ◌∷◌, map}
use native.Mathlib.Omega.{arith}
use code_suit.Base.Tests.{Bool-cases}
use code_suit.Base.Lists.{In, any, filter}
use code_suit.Base.Equality.{Eq, ◌==◌, contains, nodup, eq_of_==}

module _ {A : Type 0} where
  pub any-congr :
      (p q : A → Bool) (xs : List A) → ((a : A) → In a xs → p a ≡ q a) → any p xs ≡ any q xs
  any-congr p q [] h = refl
  any-congr p q (x ∷ xs) h = cc (h x (inl refl), any-congr p q xs (λ a m. h a (inr m)))

  pub In-of-any : (p : A → Bool) (xs : List A) → any p xs ≡ true → (a : A) × In a xs × (p a ≡ true)
  In-of-any p [] h = absurd cc
  In-of-any p (x ∷ xs) h = elim (Bool-cases (p x)) [
    | inl holds ↦ (x, inl refl, holds)
    | inr fails ↦ let (a, m, holds) = In-of-any p xs (ground arith) in (a, inr m, holds)
  ]

  pub any_of-In : (p : A → Bool) (a : A) (xs : List A) → In a xs → p a ≡ true → any p xs ≡ true
  any_of-In p a [] m h = absurd m
  any_of-In p a (x ∷ xs) (inl e) h = let first = subst (λ y. p y ≡ true) e h in ground arith
  any_of-In p a (x ∷ xs) (inr m) h = ground (arith, any_of-In p a xs m h)

module _ {A K : Type 0} ⦃e : Eq K⦄ (f : A → K) where
  pub contains-map : (j : K) (xs : List A) → contains (map f xs) j ≡ any (λ a. j == f a) xs
  contains-map j [] = refl
  contains-map j (x ∷ xs) = ground (arith, contains-map j xs)

  -- Cut by a test, the two parts have the elements of the list.
  pub contains-map-filter :
      (p : A → Bool) (j : K) (xs : List A)
      → (contains (map f (filter p xs)) j || contains (map f (filter (λ a. not (p a)) xs)) j)
        ≡ contains (map f xs) j
  contains-map-filter p j [] = refl
  contains-map-filter p j (x ∷ xs) = ground (arith, contains-map-filter p j xs)

  -- Where no image occurs twice, the two parts have no image in common.
  pub contains-map-filter-both :
      (p : A → Bool) (j : K) (xs : List A)
      → nodup (map f xs) ≡ true
      → (contains (map f (filter p xs)) j && contains (map f (filter (λ a. not (p a)) xs)) j)
        ≡ false
  contains-map-filter-both p j [] h = refl
  contains-map-filter-both p j (x ∷ xs) h =
      ground (arith, contains-map-filter-both p j xs, contains-map-filter p j xs, eq_of_== j (f x))
