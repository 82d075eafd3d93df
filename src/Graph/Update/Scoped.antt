-- ===== src/Graph/Update/Scoped.antt =====
-- One table under a refresh: the rows that the writer put, then the rows of the scope that it did
-- not put dropped. The table is any dictionary whose values carry a scope.
use code_suit.Base.{
  String, true, false, not, ◌&&◌, Option, none, some, List, [], ◌∷◌, ◌≡◌, refl, ◌==◌, contains,
  if◌then◌else◌, Eq, string_eq, arith,
}
use code_suit.Base.Dict.{
  Dict, keys, lookup, insert, erase_all, select, NodupKeys, filter_option, lookup-insert,
  lookup-erase_all, insert-NodupKeys, contains-keys-select,
}
use code_suit.Graph.Store.{unseen}

module _ {K : Type 0} ⦃e : Eq K⦄ where
  pub contains-unseen :
      (seen ks : List K) (j : K)
      → contains (unseen seen ks) j ≡ (contains ks j && not (contains seen j))
  unfolding unseen
  contains-unseen seen [] j = refl
  contains-unseen seen (k ∷ ks) j = ground (arith, contains-unseen seen ks j)

module _ {K V : Type 0} ⦃e : Eq K⦄ where
  -- The upserts of a list of rows, in order.
  unfoldable pub inserts : List (K × V) → Dict K V → Dict K V
  inserts [] d = d
  inserts ((k, v) ∷ rows) d = inserts rows (insert k v d)

  pub inserts-NodupKeys :
      (rows : List (K × V)) (d : Dict K V) → NodupKeys d → NodupKeys (inserts rows d)
  unfolding inserts
  inserts-NodupKeys [] d u = u
  inserts-NodupKeys ((k, v) ∷ rows) d u =
      inserts-NodupKeys rows (insert k v d) (insert-NodupKeys k v d u)

  pub lookup-inserts_other :
      (j : K) (rows : List (K × V)) (d : Dict K V)
      → contains (keys rows) j ≡ false
      → lookup j (inserts rows d) ≡ lookup j d
  unfolding inserts keys
  lookup-inserts_other j [] d h = refl
  lookup-inserts_other j ((k, v) ∷ rows) d h =
      ground (arith, lookup-inserts_other j rows (insert k v d), lookup-insert j k v d)

-- The first value that there is.
abbrev pub or_else : {V : Type 0} → Option V → Option V → Option V
or_else none b = b
or_else (some v) b = some v

module _ {K V : Type 0} ⦃e : Eq K⦄ where
  -- The last row of a list for a key.
  unfoldable pub last_row : K → List (K × V) → Option V
  last_row j [] = none
  last_row j ((k, v) ∷ rows) = or_else (last_row j rows) (if j == k then some v else none)

  pub lookup-inserts :
      (j : K) (rows : List (K × V)) (d : Dict K V)
      → lookup j (inserts rows d) ≡ or_else (last_row j rows) (lookup j d)
  unfolding inserts last_row
  lookup-inserts j [] d = refl
  lookup-inserts j ((k, v) ∷ rows) d =
      ground (arith, lookup-inserts j rows (insert k v d), lookup-insert j k v d)

  pub last_row-some :
      (j : K) (rows : List (K × V)) (d : Option V)
      → contains (keys rows) j ≡ true
      → or_else (last_row j rows) d ≡ or_else (last_row j rows) none
  unfolding keys last_row
  last_row-some j [] d h = cc
  last_row-some j ((k, v) ∷ rows) d h = ground (arith, last_row-some j rows d)

  pub last_row-none :
      (j : K) (rows : List (K × V)) → contains (keys rows) j ≡ false → last_row j rows ≡ none
  unfolding keys last_row
  last_row-none j [] h = refl
  last_row-none j ((k, v) ∷ rows) h = ground (arith, last_row-none j rows)

module _ {V : Type 0} (scope_of : V → String) where
  -- The scope of the row that a lookup finds.
  abbrev pub scope_at : Option V → Option String
  scope_at none = none
  scope_at (some v) = some (scope_of v)

module _ {K V : Type 0} ⦃e : Eq K⦄ (scope_of : V → String) (scope : String) where
  -- Every row is of the scope.
  abbrev pub InScope : List (K × V) → Type 0
  InScope [] = Unit
  InScope ((k, v) ∷ rows) = (scope_of v ≡ scope) × InScope rows

  lookup-inserts_keeps :
      (j : K) (rows : List (K × V)) (d : Dict K V)
      → InScope rows
      → scope_at scope_of (lookup j d) ≡ some scope
      → scope_at scope_of (lookup j (inserts rows d)) ≡ some scope
  unfolding inserts
  lookup-inserts_keeps j [] d s h = h
  lookup-inserts_keeps j ((k, v) ∷ rows) d s h =
      lookup-inserts_keeps j rows (insert k v d) s.1 (ground (arith, lookup-insert j k v d))

  pub lookup-inserts_put :
      (j : K) (rows : List (K × V)) (d : Dict K V)
      → InScope rows
      → contains (keys rows) j ≡ true
      → scope_at scope_of (lookup j (inserts rows d)) ≡ some scope
  unfolding inserts keys
  lookup-inserts_put j [] d s h = cc
  lookup-inserts_put j ((k, v) ∷ rows) d s h = ground (
    arith,
    lookup-inserts_put j rows (insert k v d) s.1,
    lookup-inserts_keeps j rows (insert k v d) s.1,
    lookup-insert j k v d,
  )

  -- The keys of the scope's rows that were not seen.
  abbrev pub victims : List K → Dict K V → List K
  victims seen d = unseen seen (keys (select (λ _ v. scope_of v == scope) d))

  -- After the purge a key that was seen has the row that was put for it, and any other key has
  -- the row that it had before, unless that row was of the scope.
  pub lookup-replaced :
      (j : K) (seen dropped : List K) (rows : List (K × V)) (d : Dict K V)
      → NodupKeys d
      → InScope rows
      → contains seen j ≡ contains (keys rows) j
      → contains dropped j ≡ contains (victims seen (inserts rows d)) j
      → lookup j (erase_all dropped (inserts rows d)) ≡ (
          if contains seen j
          then lookup j (inserts rows d)
          else filter_option (λ v. not (scope_of v == scope)) (lookup j d))
  lookup-replaced j seen dropped rows d u s h k = ground (
    arith,
    lookup-erase_all j dropped (inserts rows d),
    contains-unseen seen (keys (select (λ (_ : K) (v : V). scope_of v == scope) (inserts rows d)))
        j,
    contains-keys-select (λ (_ : K) (v : V). scope_of v == scope) j (inserts rows d)
        (inserts-NodupKeys rows d u),
    lookup-inserts_other j rows d,
    lookup-inserts_put j rows d s,
  )
