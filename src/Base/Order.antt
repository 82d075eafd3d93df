-- ===== src/Base/Order.antt =====
-- The order of texts by code points, and Python's `sorted` as a stable insertion sort.
use Prim.Native.Nat.{ℕ}
use Prim.Native.Char.{code}
use Prim.Native.String.{String}
use mathlib.Core.Path.{◌≡◌, refl}
use mathlib.Core.Bool.{Bool, true, false, ◌||◌, ◌&&◌}
use mathlib.Core.List.{List, [], ◌∷◌}
use native.Mathlib.Omega.{arith}
use text.Mathlib.TextEquality.{Char-path}
use code_suit.Base.Tests.{if◌then◌else◌, ltb}
use code_suit.Base.Lists.{length, All}
use code_suit.Base.Equality.{Eq, contains}

unfoldable pub codes : String → List ℕ
codes String.[] = []
codes (String.◌∷◌ c s) = code c ∷ codes s

unfoldable pub lex_le : List ℕ → List ℕ → Bool
lex_le [] ys = true
lex_le (x ∷ xs) [] = false
lex_le (x ∷ xs) (y ∷ ys) =
    let rest = lex_le xs ys in if ltb x y then true else if ltb y x then false else rest

-- `a <= b` on texts
unfoldable pub str_le : String → String → Bool
unfolding lex_le codes
str_le s t = lex_le (codes s) (codes t)

lex_le_refl : (xs : List ℕ) → lex_le xs xs ≡ true
unfolding lex_le
lex_le_refl [] = refl
lex_le_refl (x ∷ xs) = ground (arith, lex_le_refl xs)

lex_le_total : (xs ys : List ℕ) → (lex_le xs ys || lex_le ys xs) ≡ true
unfolding lex_le
lex_le_total [] ys = ground arith
lex_le_total (x ∷ xs) [] = ground arith
lex_le_total (x ∷ xs) (y ∷ ys) = ground (arith, lex_le_total xs ys)

lex_le_trans : (xs ys zs : List ℕ) → lex_le xs ys ≡ true → lex_le ys zs ≡ true → lex_le xs zs ≡ true
unfolding lex_le
lex_le_trans [] ys zs h k = refl
lex_le_trans (x ∷ xs) [] zs h k = cc
lex_le_trans (x ∷ xs) (y ∷ ys) [] h k = cc
lex_le_trans (x ∷ xs) (y ∷ ys) (z ∷ zs) h k = ground (arith, lex_le_trans xs ys zs)

lex_le_antisym : (xs ys : List ℕ) → lex_le xs ys ≡ true → lex_le ys xs ≡ true → xs ≡ ys
unfolding lex_le
lex_le_antisym [] [] h k = refl
lex_le_antisym [] (y ∷ ys) h k = cc
lex_le_antisym (x ∷ xs) [] h k = cc
lex_le_antisym (x ∷ xs) (y ∷ ys) h k = ground (arith, lex_le_antisym xs ys)

codes_injective : (s t : String) → codes s ≡ codes t → s ≡ t
unfolding codes
codes_injective String.[] String.[] h = refl
codes_injective String.[] (String.◌∷◌ d t) h = cc
codes_injective (String.◌∷◌ c s) String.[] h = cc
codes_injective (String.◌∷◌ c s) (String.◌∷◌ d t) h =
    let same : code c ≡ code d = cc in
    let rest : codes s ≡ codes t = cc in cc (Char-path c d same, codes_injective s t rest)

pub str_le_antisym : (s t : String) → str_le s t ≡ true → str_le t s ≡ true → s ≡ t
unfolding str_le
str_le_antisym s t h k = codes_injective s t (lex_le_antisym (codes s) (codes t) h k)

-- A total preorder given as a Boolean test.
pub record IsTotalOrder {ℓ} {A : Type ℓ} (le : A → A → Bool) : Type ℓ where
  pub total : (a b : A) → (le a b || le b a) ≡ true
  pub trans : (a b c : A) → le a b ≡ true → le b c ≡ true → le a c ≡ true

pub str_le-IsTotalOrder : IsTotalOrder str_le
unfolding str_le
str_le-IsTotalOrder = record {
  total = λ s t. lex_le_total (codes s) (codes t);
  trans = λ s t u. lex_le_trans (codes s) (codes t) (codes u);
}

module _ {ℓ} {A : Type ℓ} (le : A → A → Bool) where
  -- Before the first element that is not smaller, so equal elements keep their order.
  unfoldable pub insert_sorted : A → List A → List A
  insert_sorted a [] = a ∷ []
  insert_sorted a (x ∷ xs) =
      let rest = insert_sorted a xs in if le a x then a ∷ x ∷ xs else x ∷ rest

  unfoldable pub sorted : List A → List A
  unfolding insert_sorted
  sorted [] = []
  sorted (x ∷ xs) = insert_sorted x (sorted xs)

  abbrev pub IsSorted : List A → Type 0
  IsSorted [] = Unit
  IsSorted (x ∷ []) = Unit
  IsSorted (x ∷ (y ∷ ys)) = (le x y ≡ true) × IsSorted (y ∷ ys)

  -- The test `xs == sorted(xs)` passes exactly on such lists.
  unfoldable pub is_sorted : List A → Bool
  is_sorted [] = true
  is_sorted (x ∷ []) = true
  is_sorted (x ∷ (y ∷ ys)) = le x y && is_sorted (y ∷ ys)

  pub length-insert_sorted : (a : A) (xs : List A) → length (insert_sorted a xs) ≡ length (a ∷ xs)
  unfolding insert_sorted
  length-insert_sorted a [] = refl
  length-insert_sorted a (x ∷ xs) = ground (arith, length-insert_sorted a xs)

  pub length-sorted : (xs : List A) → length (sorted xs) ≡ length xs
  unfolding sorted
  length-sorted [] = refl
  length-sorted (x ∷ xs) = ground (arith, length-insert_sorted x (sorted xs), length-sorted xs)

  insert_sorted-IsSorted :
      IsTotalOrder le → (a : A) (xs : List A) → IsSorted xs → IsSorted (insert_sorted a xs)
  unfolding insert_sorted
  insert_sorted-IsSorted o a [] s = tt
  insert_sorted-IsSorted o a (x ∷ []) s = ground (arith, o.total a x)
  insert_sorted-IsSorted o a (x ∷ (y ∷ ys)) s =
      ground (arith, o.total a x, insert_sorted-IsSorted o a (y ∷ ys) s.1)

  pub sorted-IsSorted : IsTotalOrder le → (xs : List A) → IsSorted (sorted xs)
  unfolding sorted
  sorted-IsSorted o [] = tt
  sorted-IsSorted o (x ∷ xs) = insert_sorted-IsSorted o x (sorted xs) (sorted-IsSorted o xs)

  pub is_sorted_of_IsSorted : (xs : List A) → IsSorted xs → is_sorted xs ≡ true
  unfolding is_sorted
  is_sorted_of_IsSorted [] s = refl
  is_sorted_of_IsSorted (x ∷ []) s = refl
  is_sorted_of_IsSorted (x ∷ (y ∷ ys)) s = ground (arith, is_sorted_of_IsSorted (y ∷ ys) s.1)

  pub All-insert_sorted {κ} :
      (P : A → Type κ) (a : A) (xs : List A) → P a → All P xs → All P (insert_sorted a xs)
  unfolding insert_sorted
  All-insert_sorted P a [] p h = (p, tt)
  All-insert_sorted P a (x ∷ xs) p h =
      let rest : All P (insert_sorted a xs) = All-insert_sorted P a xs p h.1 in
      elim (le a x) as (λ b. All P (if b then a ∷ x ∷ xs else x ∷ insert_sorted a xs)) [
        | true ↦ (p, h)
        | false ↦ (h.0, rest)
      ]

  pub All-sorted {κ} : (P : A → Type κ) (xs : List A) → All P xs → All P (sorted xs)
  unfolding sorted
  All-sorted P [] h = tt
  All-sorted P (x ∷ xs) h = All-insert_sorted P x (sorted xs) h.0 (All-sorted P xs h.1)

module _ {ℓ} {A : Type ℓ} ⦃e : Eq A⦄ (le : A → A → Bool) where
  pub contains-insert_sorted :
      (j a : A) (xs : List A) → contains (insert_sorted le a xs) j ≡ contains (a ∷ xs) j
  unfolding insert_sorted
  contains-insert_sorted j a [] = refl
  contains-insert_sorted j a (x ∷ xs) = ground (arith, contains-insert_sorted j a xs)

  pub contains-sorted : (j : A) (xs : List A) → contains (sorted le xs) j ≡ contains xs j
  unfolding sorted
  contains-sorted j [] = refl
  contains-sorted j (x ∷ xs) =
      ground (arith, contains-insert_sorted j x (sorted le xs), contains-sorted j xs)
