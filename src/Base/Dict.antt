-- ===== src/Base/Dict.antt =====
-- Python's dict in insertion order, which also serves for the rows of a table under a primary key.
pub mod Sorted
use mathlib.Core.Path.{◌≡◌, refl, sym, subst, ◌∙◌}
use mathlib.Core.Logic.{inl, inr}
use mathlib.Core.Bool.{Bool, true, false}
use mathlib.Core.Option.{Option, none, some, some-injective}
use mathlib.Core.List.{List, [], ◌∷◌}
use native.Mathlib.Omega.{arith}
use Prim.Native.Nat.{◌≤◌, ◌+◌}
use code_suit.Base.Tests.{if◌then◌else◌, Bool-cases}
use code_suit.Base.Lists.{length}
use code_suit.Base.Equality.{Eq, ◌==◌, contains, eq_of_==}

abbrev pub Dict {ℓ κ} : Type ℓ → Type κ → Type (ℓ ⊔ κ)
Dict K V = List (K × V)

module _ {ℓ κ} {K : Type ℓ} {V : Type κ} where
  unfoldable pub keys : Dict K V → List K
  keys [] = []
  keys ((k, _) ∷ d) = k ∷ keys d

  unfoldable pub values : Dict K V → List V
  values [] = []
  values ((_, v) ∷ d) = v ∷ values d

module _ {ℓ} {V : Type ℓ} where
  abbrev pub keep_if : Bool → V → Option V
  keep_if true v = some v
  keep_if false v = none

  abbrev pub filter_option : (V → Bool) → Option V → Option V
  filter_option p none = none
  filter_option p (some v) = keep_if (p v) v

module _ {ℓ κ} {K : Type ℓ} {V : Type κ} ⦃e : Eq K⦄ where
  -- `d.get(k)`
  unfoldable pub lookup : K → Dict K V → Option V
  lookup k [] = none
  lookup k ((j, v) ∷ d) = if k == j then some v else lookup k d

  -- `d[k] = v`
  unfoldable pub insert : K → V → Dict K V → Dict K V
  insert k v [] = (k, v) ∷ []
  insert k v ((j, w) ∷ d) = if k == j then (k, v) ∷ d else (j, w) ∷ insert k v d

  -- `d.pop(k, None)`
  unfoldable pub erase : K → Dict K V → Dict K V
  erase k [] = []
  erase k ((j, w) ∷ d) = let rest = erase k d in if k == j then rest else (j, w) ∷ rest

  -- Drops several keys, one after the other.
  unfoldable pub erase_all : List K → Dict K V → Dict K V
  erase_all [] d = d
  erase_all (k ∷ ks) d = erase_all ks (erase k d)

  abbrev pub NodupKeys : Dict K V → Type κ
  NodupKeys [] = Unit
  NodupKeys ((k, _) ∷ d) = (lookup k d ≡ none) × NodupKeys d

  pub lookup-insert :
      (j k : K) (v : V) (d : Dict K V)
      → lookup j (insert k v d) ≡ (if j == k then some v else lookup j d)
  unfolding insert lookup
  lookup-insert j k v [] = refl
  lookup-insert j k v (_ ∷ d) = ground (arith, lookup-insert j k v d)

  pub lookup-erase :
      (j k : K) (d : Dict K V) → lookup j (erase k d) ≡ (if j == k then none else lookup j d)
  unfolding erase lookup
  lookup-erase j k [] = ground arith
  lookup-erase j k (_ ∷ d) = ground (arith, lookup-erase j k d)

  pub lookup-erase_all :
      (j : K) (ks : List K) (d : Dict K V)
      → lookup j (erase_all ks d) ≡ (if contains ks j then none else lookup j d)
  unfolding erase_all
  lookup-erase_all j [] d = refl
  lookup-erase_all j (k ∷ ks) d =
      ground (arith, lookup-erase_all j ks (erase k d), lookup-erase j k d)

  pub insert-NodupKeys : (k : K) (v : V) (d : Dict K V) → NodupKeys d → NodupKeys (insert k v d)
  unfolding insert lookup
  insert-NodupKeys k v [] _ = (refl, tt)
  insert-NodupKeys k v ((j, _) ∷ d) (fresh, u) =
      ground (arith, insert-NodupKeys k v d u, lookup-insert j k v d)

  pub erase-NodupKeys : (k : K) (d : Dict K V) → NodupKeys d → NodupKeys (erase k d)
  unfolding erase
  erase-NodupKeys k [] _ = tt
  erase-NodupKeys k ((j, _) ∷ d) (fresh, u) =
      ground (arith, erase-NodupKeys k d u, lookup-erase j k d)

  pub erase_all-NodupKeys : (ks : List K) (d : Dict K V) → NodupKeys d → NodupKeys (erase_all ks d)
  unfolding erase_all
  erase_all-NodupKeys [] d u = u
  erase_all-NodupKeys (k ∷ ks) d u = erase_all-NodupKeys ks (erase k d) (erase-NodupKeys k d u)

  pub length-insert_new :
      (k : K) (v : V) (d : Dict K V) → lookup k d ≡ none → length (insert k v d) ≡ length d + 1
  unfolding insert lookup
  length-insert_new k v [] h = ground arith
  length-insert_new k v (_ ∷ d) h = ground (arith, length-insert_new k v d)

  pub length-keys : (d : Dict K V) → length (keys d) ≡ length d
  unfolding keys
  length-keys [] = refl
  length-keys (_ ∷ d) = ground (arith, length-keys d)

  pub length-erase-le : (k : K) (d : Dict K V) → length (erase k d) ≤ length d
  unfolding erase
  length-erase-le k [] = ground arith
  length-erase-le k (_ ∷ d) = ground (arith, length-erase-le k d)

  pub contains-keys : (k : K) (d : Dict K V) → contains (keys d) k ≡ false → lookup k d ≡ none
  unfolding keys lookup
  contains-keys k [] h = refl
  contains-keys k ((j, v) ∷ d) h = ground (arith, contains-keys k d)

  -- The entries that pass a test, `DELETE ... WHERE NOT p` or `SELECT ... WHERE p`.
  unfoldable pub select : (K → V → Bool) → Dict K V → Dict K V
  select p [] = []
  select p ((k, v) ∷ d) = let rest = select p d in if p k v then (k, v) ∷ rest else rest

  pub lookup-select-none :
      (p : K → V → Bool) (j : K) (d : Dict K V) → lookup j d ≡ none → lookup j (select p d) ≡ none
  unfolding select lookup
  lookup-select-none p j [] h = refl
  lookup-select-none p j ((k, v) ∷ d) h = ground (arith, lookup-select-none p j d)

  pub lookup-select :
      (p : K → V → Bool) (j : K) (d : Dict K V)
      → NodupKeys d
      → lookup j (select p d) ≡ filter_option (p j) (lookup j d)
  unfolding select lookup
  lookup-select p j [] u = refl
  lookup-select p j ((k, v) ∷ d) u =
      ground (arith, lookup-select p j d u.1, lookup-select-none p j d)

  pub select-NodupKeys : (p : K → V → Bool) (d : Dict K V) → NodupKeys d → NodupKeys (select p d)
  unfolding select
  select-NodupKeys p [] u = tt
  select-NodupKeys p ((k, v) ∷ d) u =
      ground (arith, select-NodupKeys p d u.1, lookup-select-none p k d u.0)

  -- Membership among the selected keys, read off the dictionary.
  pub contains-keys-select :
      (p : K → V → Bool) (j : K) (d : Dict K V)
      → NodupKeys d
      → contains (keys (select p d)) j ≡ (elim (lookup j d) [ none ↦ false | some v ↦ p j v ])
  unfolding select lookup keys
  contains-keys-select p j [] u = refl
  contains-keys-select p j ((k, v) ∷ d) u = ground (arith, contains-keys-select p j d u.1)

-- A statement about every entry that a lookup can find.
module _ {K V : Type 0} ⦃e : Eq K⦄ where
  abbrev pub AllRows : (K → V → Type 0) → Dict K V → Type 0
  AllRows P d = (k : K) (v : V) → lookup k d ≡ some v → P k v

  pub AllRows-insert :
      (P : K → V → Type 0) (k : K) (v : V) (d : Dict K V)
      → P k v
      → AllRows P d
      → AllRows P (insert k v d)
  AllRows-insert P k v d p h j w found =
      let at : (if j == k then some v else lookup j d) ≡ some w =
        sym (lookup-insert j k v d) ∙ found in
      elim (Bool-cases (j == k)) [
        | inl same ↦
            let e = eq_of_== j k same in
            subst (λ i. P i w) (sym e) (subst (P k) (some-injective v w (rw same at at)) p)
        | inr other ↦ h j w (rw other at at)
      ]

  pub AllRows-erase :
      (P : K → V → Type 0) (k : K) (d : Dict K V) → AllRows P d → AllRows P (erase k d)
  AllRows-erase P k d h j w found = h j w (ground (arith, lookup-erase j k d))

  pub AllRows-select :
      (P : K → V → Type 0) (p : K → V → Bool) (d : Dict K V)
      → NodupKeys d
      → AllRows P d
      → AllRows P (select p d)
  AllRows-select P p d u h j w found = h j w (ground (arith, lookup-select p j d u))
