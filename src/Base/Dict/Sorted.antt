-- ===== src/Base/Dict/Sorted.antt =====
-- Dictionaries whose entries are sorted, and membership among keys.
use mathlib.Core.Path.{◌≡◌, refl}
use mathlib.Core.Logic.{inl, inr}
use mathlib.Core.Bool.{Bool, true, false}
use mathlib.Core.Option.{none, some}
use mathlib.Core.List.{[], ◌∷◌}
use native.Mathlib.Omega.{arith}
use code_suit.Base.Tests.{Option-cases}
use code_suit.Base.Lists.{length}
use code_suit.Base.Equality.{Eq, contains}
use code_suit.Base.Order.{sorted, insert_sorted}
use code_suit.Base.Dict.{Dict, keys, values, lookup}

module _ {K V : Type 0} ⦃e : Eq K⦄ where
  contains-keys-insert_sorted :
      (le : K × V → K × V → Bool) (j : K) (a : K × V) (d : Dict K V)
      → contains (keys (insert_sorted le a d)) j ≡ contains (keys (a ∷ d)) j
  unfolding insert_sorted keys
  contains-keys-insert_sorted le j a [] = refl
  contains-keys-insert_sorted le j (k, v) ((i, w) ∷ d) =
      ground (arith, contains-keys-insert_sorted le j (k, v) d)

  pub contains-keys-sorted :
      (le : K × V → K × V → Bool) (j : K) (d : Dict K V)
      → contains (keys (sorted le d)) j ≡ contains (keys d) j
  unfolding sorted keys
  contains-keys-sorted le j [] = refl
  contains-keys-sorted le j ((k, v) ∷ d) =
      ground
        (arith, contains-keys-insert_sorted le j (k, v) (sorted le d), contains-keys-sorted le j d)

  keys_of_lookup-none : (k : K) (d : Dict K V) → lookup k d ≡ none → contains (keys d) k ≡ false
  unfolding keys lookup
  keys_of_lookup-none k [] h = refl
  keys_of_lookup-none k ((j, w) ∷ d) h = ground (arith, keys_of_lookup-none k d)

  -- A key has a value.
  pub lookup_of_mem :
      (k : K) (d : Dict K V) → contains (keys d) k ≡ true → (v : V) × (lookup k d ≡ some v)
  lookup_of_mem k d h = elim (Option-cases (lookup k d)) [
    | inl absent ↦ absurd (cc (keys_of_lookup-none k d absent))
    | inr found ↦ found
  ]

module _ {K V : Type 0} where
  pub length-values : (d : Dict K V) → length (values d) ≡ length d
  unfolding values
  length-values [] = refl
  length-values ((_, _) ∷ d) = ground (arith, length-values d)
