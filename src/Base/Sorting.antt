-- ===== src/Base/Sorting.antt =====
-- What sorting keeps, and the first element of a sorted list.
use mathlib.Core.Path.{◌≡◌, refl, sym, subst}
use mathlib.Core.Logic.{inl, inr}
use mathlib.Core.Bool.{Bool, true}
use mathlib.Core.List.{List, [], ◌∷◌, map}
use native.Mathlib.Omega.{arith}
use code_suit.Base.Tests.{Bool-cases}
use code_suit.Base.Lists.{In, In-of-filter, filter}
use code_suit.Base.Equality.{Eq, nodup}
use code_suit.Base.Order.{
  sorted, insert_sorted, IsSorted, IsTotalOrder, contains-sorted, contains-insert_sorted,
}

module _ {A : Type 0} (le : A → A → Bool) where
  In-insert_sorted : (a x : A) (xs : List A) → In a (x ∷ xs) → In a (insert_sorted le x xs)
  unfolding insert_sorted
  In-insert_sorted a x [] m = m
  In-insert_sorted a x (y ∷ ys) m = elim (Bool-cases (le x y)) [
    | inl first ↦ rw first m
    | inr later ↦ rw later (at_later m (In-insert_sorted a x ys))
  ]
    where
      at_later :
          In a (x ∷ (y ∷ ys))
          → (In a (x ∷ ys) → In a (insert_sorted le x ys))
          → In a (y ∷ insert_sorted le x ys)
      at_later (inl e) go = inr (go (inl e))
      at_later (inr (inl e)) go = inl e
      at_later (inr (inr m)) go = inr (go (inr m))

  In-of-insert_sorted : (a x : A) (xs : List A) → In a (insert_sorted le x xs) → In a (x ∷ xs)
  unfolding insert_sorted
  In-of-insert_sorted a x [] m = m
  In-of-insert_sorted a x (y ∷ ys) m = elim (Bool-cases (le x y)) [
    | inl first ↦ rw first at m
    | inr later ↦ at_later (rw later at m) (In-of-insert_sorted a x ys)
  ]
    where
      at_later :
          In a (y ∷ insert_sorted le x ys)
          → (In a (insert_sorted le x ys) → In a (x ∷ ys))
          → In a (x ∷ (y ∷ ys))
      at_later (inl e) go = inr (inl e)
      at_later (inr m) go = swapped (go m)
        where
          swapped : In a (x ∷ ys) → In a (x ∷ (y ∷ ys))
          swapped (inl e) = inl e
          swapped (inr m) = inr (inr m)

  pub In-sorted : (a : A) (xs : List A) → In a xs → In a (sorted le xs)
  unfolding sorted
  In-sorted a [] m = m
  In-sorted a (x ∷ xs) (inl e) = In-insert_sorted a x (sorted le xs) (inl e)
  In-sorted a (x ∷ xs) (inr m) = In-insert_sorted a x (sorted le xs) (inr (In-sorted a xs m))

  pub In-of-sorted : (a : A) (xs : List A) → In a (sorted le xs) → In a xs
  unfolding sorted
  In-of-sorted a [] m = m
  In-of-sorted a (x ∷ xs) m = at (In-of-insert_sorted a x (sorted le xs) m) (In-of-sorted a xs)
    where
      at : In a (x ∷ sorted le xs) → (In a (sorted le xs) → In a xs) → In a (x ∷ xs)
      at (inl e) go = inl e
      at (inr m) go = inr (go m)

  -- The first of a sorted list is below every element.
  pub IsSorted-first :
      IsTotalOrder le
      → (x : A) (xs : List A) → IsSorted le (x ∷ xs)
      → (a : A) → In a (x ∷ xs)
      → le x a ≡ true
  IsSorted-first o x xs s a (inl e) =
      let both = o.total x x in subst (λ y. le x y ≡ true) (sym e) (ground arith)
  IsSorted-first o x [] s a (inr m) = absurd m
  IsSorted-first o x (y ∷ ys) s a (inr m) = o.trans x y a s.0 (IsSorted-first o y ys s.1 a m)

  IsSorted-cons :
      (x : A) (ys : List A)
      → ((a : A) → In a ys → le x a ≡ true)
      → IsSorted le ys
      → IsSorted le (x ∷ ys)
  IsSorted-cons x [] h s = tt
  IsSorted-cons x (y ∷ ys) h s = (h y (inl refl), s)

  IsSorted-tail : (x : A) (xs : List A) → IsSorted le (x ∷ xs) → IsSorted le xs
  IsSorted-tail x [] s = tt
  IsSorted-tail x (y ∷ ys) s = s.1

  pub IsSorted-filter :
      IsTotalOrder le → (p : A → Bool) (xs : List A) → IsSorted le xs → IsSorted le (filter p xs)
  IsSorted-filter o p [] s = tt
  IsSorted-filter o p (x ∷ xs) s = elim (Bool-cases (p x)) [
    | inl kept ↦ rw kept (
        IsSorted-cons x (filter p xs)
          (λ a m. IsSorted-first o x xs s a (inr ((In-of-filter p a xs m).0)))
          (IsSorted-filter o p xs (IsSorted-tail x xs s)))
    | inr gone ↦ rw gone (IsSorted-filter o p xs (IsSorted-tail x xs s))
  ]

module _ {A B : Type 0} (le : B → B → Bool) (f : A → B) where
  pub IsSorted-of-map : (xs : List A) → IsSorted le (map f xs) → IsSorted (λ a b. le (f a) (f b)) xs
  IsSorted-of-map [] s = tt
  IsSorted-of-map (x ∷ []) s = tt
  IsSorted-of-map (x ∷ (y ∷ ys)) s = (s.0, IsSorted-of-map (y ∷ ys) s.1)

module _ {A : Type 0} ⦃e : Eq A⦄ (le : A → A → Bool) where
  nodup-insert_sorted :
      (a : A) (xs : List A) → nodup (a ∷ xs) ≡ true → nodup (insert_sorted le a xs) ≡ true
  unfolding insert_sorted
  nodup-insert_sorted a [] h = h
  nodup-insert_sorted a (x ∷ xs) h =
      ground (arith, nodup-insert_sorted a xs, contains-insert_sorted le x a xs)

  pub nodup-sorted : (xs : List A) → nodup xs ≡ true → nodup (sorted le xs) ≡ true
  unfolding sorted
  nodup-sorted [] h = refl
  nodup-sorted (x ∷ xs) h =
      nodup-insert_sorted x (sorted le xs)
        (ground (arith, contains-sorted le x xs, nodup-sorted xs))
