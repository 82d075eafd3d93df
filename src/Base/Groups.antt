-- ===== src/Base/Groups.antt =====
-- `groups.setdefault(key(x), []).append(x)` over a list: the buckets of a dictionary, in order.
use mathlib.Core.Path.{◌≡◌, refl}
use mathlib.Core.Bool.{Bool, true, ◌||◌}
use mathlib.Core.Option.{Option, none, some}
use mathlib.Core.List.{List, [], ◌∷◌, ◌++◌, append_assoc, append-nil}
use native.Mathlib.Omega.{arith}
use code_suit.Base.Tests.{if◌then◌else◌}
use code_suit.Base.Lists.{filter, any}
use code_suit.Base.Equality.{Eq, ◌==◌, contains, nodup}
use code_suit.Base.Dict.{Dict, values, keys, lookup, insert, lookup-insert}

module _ {A : Type 0} where
  -- A missing key has an empty bucket.
  abbrev pub bucket_of : Option (List A) → List A
  bucket_of none = []
  bucket_of (some xs) = xs

module _ {K A : Type 0} ⦃e : Eq K⦄ where
  abbrev pub bucket : K → Dict K (List A) → List A
  bucket k d = bucket_of (lookup k d)

module _ {K A : Type 0} ⦃e : Eq K⦄ (key : A → K) where
  unfoldable pub group_into : Dict K (List A) → List A → Dict K (List A)
  group_into d [] = d
  group_into d (x ∷ xs) = group_into (insert (key x) (bucket (key x) d ++ x ∷ []) d) xs

  unfoldable pub group_by : List A → Dict K (List A)
  unfolding group_into
  group_by xs = group_into [] xs

  bucket-insert :
      (j k : K) (v : List A) (d : Dict K (List A))
      → bucket j (insert k v d) ≡ (if j == k then v else bucket j d)
  bucket-insert j k v d = ground (arith, lookup-insert j k v d)

  bucket-group_into :
      (j : K) (d : Dict K (List A)) (xs : List A)
      → bucket j (group_into d xs) ≡ bucket j d ++ filter (λ x. j == key x) xs
  unfolding group_into
  bucket-group_into j d [] = ground (arith, append-nil (bucket j d))
  bucket-group_into j d (x ∷ xs) = ground (
    arith,
    bucket-group_into j (insert (key x) (bucket (key x) d ++ x ∷ []) d) xs,
    bucket-insert j (key x) (bucket (key x) d ++ x ∷ []) d,
    append_assoc (bucket j d) (x ∷ []) (filter (λ y. j == key y) xs),
  )

  -- The bucket of a key holds the elements with that key, in their order.
  pub bucket-group_by : (j : K) (xs : List A) → bucket j (group_by xs) ≡ filter (λ x. j == key x) xs
  unfolding group_by lookup
  bucket-group_by j xs = bucket-group_into j [] xs

  contains-keys-insert :
      (j k : K) (v : List A) (d : Dict K (List A))
      → contains (keys (insert k v d)) j ≡ (j == k || contains (keys d) j)
  unfolding insert keys
  contains-keys-insert j k v [] = ground arith
  contains-keys-insert j k v (_ ∷ d) = ground (arith, contains-keys-insert j k v d)

  contains-keys-group_into :
      (j : K) (d : Dict K (List A)) (xs : List A)
      → contains (keys (group_into d xs)) j ≡ (contains (keys d) j || any (λ x. j == key x) xs)
  unfolding group_into
  contains-keys-group_into j d [] = ground arith
  contains-keys-group_into j d (x ∷ xs) = ground (
    arith,
    contains-keys-group_into j (insert (key x) (bucket (key x) d ++ x ∷ []) d) xs,
    contains-keys-insert j (key x) (bucket (key x) d ++ x ∷ []) d,
  )

  -- A key has a bucket exactly when an element has the key.
  pub contains-keys-group_by :
      (j : K) (xs : List A) → contains (keys (group_by xs)) j ≡ any (λ x. j == key x) xs
  unfolding group_by keys
  contains-keys-group_by j xs = contains-keys-group_into j [] xs

  nodup-keys-insert :
      (k : K) (v : List A) (d : Dict K (List A))
      → nodup (keys d) ≡ true
      → nodup (keys (insert k v d)) ≡ true
  unfolding insert keys
  nodup-keys-insert k v [] h = ground arith
  nodup-keys-insert k v ((j, _) ∷ d) h =
      ground (arith, nodup-keys-insert k v d, contains-keys-insert j k v d)

  nodup-keys-group_into :
      (d : Dict K (List A)) (xs : List A)
      → nodup (keys d) ≡ true
      → nodup (keys (group_into d xs)) ≡ true
  unfolding group_into
  nodup-keys-group_into d [] h = h
  nodup-keys-group_into d (x ∷ xs) h =
      nodup-keys-group_into (insert (key x) (bucket (key x) d ++ x ∷ []) d) xs
        (nodup-keys-insert (key x) (bucket (key x) d ++ x ∷ []) d h)

  pub nodup-keys-group_by : (xs : List A) → nodup (keys (group_by xs)) ≡ true
  unfolding group_by keys
  nodup-keys-group_by xs = nodup-keys-group_into [] xs refl

module _ {A : Type 0} where
  any-append : (P : A → Bool) (xs ys : List A) → any P (xs ++ ys) ≡ (any P xs || any P ys)
  any-append P [] ys = refl
  any-append P (x ∷ xs) ys = ground (arith, any-append P xs ys)

module _ {K A : Type 0} ⦃e : Eq K⦄ (key : A → K) (P : A → Bool) where
  any-values-insert :
      (k : K) (x : A) (d : Dict K (List A))
      → any (any P) (values (insert k (bucket k d ++ x ∷ []) d)) ≡ (any (any P) (values d) || P x)
  unfolding lookup insert values
  any-values-insert k x [] = ground arith
  any-values-insert k x ((j, xs) ∷ d) =
      ground (arith, any-values-insert k x d, any-append P xs (x ∷ []))

  any-values-group_into :
      (d : Dict K (List A)) (xs : List A)
      → any (any P) (values (group_into key d xs)) ≡ (any (any P) (values d) || any P xs)
  unfolding group_into
  any-values-group_into d [] = ground arith
  any-values-group_into d (x ∷ xs) = ground (
    arith,
    any-values-group_into (insert (key x) (bucket (key x) d ++ x ∷ []) d) xs,
    any-values-insert (key x) x d,
  )

  -- The buckets hold the elements of the list, and no other.
  pub any-values-group_by : (xs : List A) → any (any P) (values (group_by key xs)) ≡ any P xs
  unfolding group_by values
  any-values-group_by xs = any-values-group_into [] xs
