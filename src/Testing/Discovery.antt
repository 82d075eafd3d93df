-- ===== src/Testing/Discovery.antt =====
-- What the caches of `TestIntelligence` hold, and what they are good for.
use code_suit.Base.{
  String, ◌||◌, Option, none, some, List, [], ◌∷◌, ◌≡◌, refl, subst, ◌==◌, contains, map, string_eq,
  is_some, Option-cases, inl, inr, arith,
}
use code_suit.Base.Dict.{Dict, lookup, insert, values, lookup-insert}
use code_suit.Base.Order.{
  sorted, insert_sorted, IsSorted, IsTotalOrder, sorted-IsSorted, str_le-IsTotalOrder,
}
use code_suit.Base.Result.{Result, ok, err, and_then}
use code_suit.Testing
use code_suit.Testing.{
  DiscoveredTest, Provider, TestError, TestIntelligence, TestTargetDescription, Found, by_test_id,
  calling, key_error, add_discovered, add_all_discovered, discover, get_discovered_tests,
  provider_for_test_id, provider_index, describe_in, describe_test_target, discovered_or, fill,
  indexed, unknown_test, raised, duplicate_test, invalid, mismatched_description,
  unexpected_results, duplicate_result,
}

abbrev pub ids : List DiscoveredTest → List String
ids = map (λ t. t.test_id)

-- What a discovery can raise.
abbrev pub DiscoveryError : {E : Type 0} → TestError E → Type 0
DiscoveryError (raised e) = Unit
DiscoveryError duplicate_test = Unit
DiscoveryError (invalid e) = ⊥
DiscoveryError unknown_test = ⊥
DiscoveryError mismatched_description = ⊥
DiscoveryError unexpected_results = ⊥
DiscoveryError duplicate_result = ⊥
DiscoveryError key_error = ⊥

module _ {E : Type 0} where
  -- Every test is stored under its id, and has a provider under the same id.
  pub record Agree (found : Found E) : Type 0 where
    pub named : (id : String) → contains (ids (values (found.0))) id ≡ is_some (lookup id (found.0))
    pub indexed : (id : String) → is_some (lookup id (found.1)) ≡ is_some (lookup id (found.0))

  abbrev Keeps : Result (TestError E) (Found E) → Type 0
  Keeps (ok found) = Agree found
  Keeps (err e) = DiscoveryError e

  Keeps-and_then :
      (m : Result (TestError E) (Found E)) (f : Found E → Result (TestError E) (Found E))
      → Keeps m
      → ((found : Found E) → Agree found → Keeps (f found))
      → Keeps (and_then m f)
  Keeps-and_then (ok a) f h k = k a h
  Keeps-and_then (err e) f h k = h

contains-ids-insert :
    (t : DiscoveredTest) (d : Dict String DiscoveredTest) (id : String)
    → lookup t.test_id d ≡ none
    → contains (ids (values (insert t.test_id t d))) id
      ≡ (id == t.test_id || contains (ids (values d)) id)
unfolding insert values lookup
contains-ids-insert t [] id h = ground arith
contains-ids-insert t ((j, u) ∷ d) id h = ground (arith, contains-ids-insert t d id)

module _ {E : Type 0} where
  add_discovered-Keeps :
      (p : Provider E) (t : DiscoveredTest) (found : Found E)
      → Agree found
      → Keeps (add_discovered p t found)
  unfolding add_discovered
  add_discovered-Keeps p t (by_id, index) a = elim (Option-cases (lookup t.test_id by_id)) [
    | inr (old, there) ↦ rw (there, Keeps) tt
    | inl fresh ↦
        rw (fresh, Keeps)
          (record {
            named = λ id. ground (
              arith,
              a.named id,
              contains-ids-insert t by_id id,
              lookup-insert id t.test_id t by_id,
            );
            indexed = λ id. ground (
              arith,
              a.indexed id,
              lookup-insert id t.test_id t by_id,
              lookup-insert id t.test_id p index,
            );
          })
  ]

  add_all_discovered-Keeps :
      (p : Provider E) (ts : List DiscoveredTest) (found : Found E)
      → Agree found
      → Keeps (add_all_discovered p ts found)
  unfolding add_all_discovered
  add_all_discovered-Keeps p [] found a = a
  add_all_discovered-Keeps p (t ∷ ts) found a =
      Keeps-and_then (add_discovered p t found) (add_all_discovered p ts)
        (add_discovered-Keeps p t found a) (add_all_discovered-Keeps p ts)

  discover-Keeps :
      (ps : List (Provider E)) (found : Found E) → Agree found → Keeps (discover ps found)
  unfolding discover
  discover-Keeps [] found a = a
  discover-Keeps (p ∷ ps) found a = go (discover-Keeps ps) p.discovered
    where
      go :
          ((found' : Found E) → Agree found' → Keeps (discover ps found'))
          → (m : Result E (List DiscoveredTest))
          → Keeps
              (and_then (calling m) (λ ts. and_then (add_all_discovered p ts found) (discover ps)))
      go rest (err e) = tt
      go rest (ok ts) =
          Keeps-and_then (add_all_discovered p ts found) (discover ps)
            (add_all_discovered-Keeps p ts found a) rest

contains-ids-insert_sorted :
    (id : String) (t : DiscoveredTest) (ts : List DiscoveredTest)
    → contains (ids (insert_sorted by_test_id t ts)) id ≡ contains (ids (t ∷ ts)) id
unfolding insert_sorted
contains-ids-insert_sorted id t [] = refl
contains-ids-insert_sorted id t (u ∷ ts) = ground (arith, contains-ids-insert_sorted id t ts)

contains-ids-sorted :
    (id : String) (ts : List DiscoveredTest)
    → contains (ids (sorted by_test_id ts)) id ≡ contains (ids ts) id
unfolding sorted
contains-ids-sorted id [] = refl
contains-ids-sorted id (t ∷ ts) =
    ground
      (arith, contains-ids-insert_sorted id t (sorted by_test_id ts), contains-ids-sorted id ts)

by_test_id-IsTotalOrder : IsTotalOrder by_test_id
by_test_id-IsTotalOrder = record {
  total = λ a b. str_le-IsTotalOrder.total a.test_id b.test_id;
  trans = λ a b c. str_le-IsTotalOrder.trans a.test_id b.test_id c.test_id;
}

-- What the caches hold: the tests sorted by id, and an index with their ids.
pub record AreTests {E : Type 0} (tests : List DiscoveredTest) (index : Dict String (Provider E))
    : Type 0 where
  pub in_order : IsSorted by_test_id tests
  pub indexed : (id : String) → is_some (lookup id index) ≡ contains (ids tests) id

-- Both caches are empty, or both are filled.
abbrev pub CachesAgree :
    {E : Type 0} → Option (List DiscoveredTest) → Option (Dict String (Provider E)) → Type 0
CachesAgree none none = Unit
CachesAgree none (some index) = ⊥
CachesAgree (some tests) none = ⊥
CachesAgree (some tests) (some index) = AreTests tests index

abbrev pub IsConsistent : {E : Type 0} → TestIntelligence E → Type 0
IsConsistent s = CachesAgree s.discovered_tests_cache s.provider_index_by_test_id

-- A discovery that returns has filled the caches with what it returns; one that raises has left
-- them as they were.
abbrev pub Discovered :
    {E : Type 0}
    → TestIntelligence E
    → Result (TestError E) (List DiscoveredTest) × TestIntelligence E
    → Type 0
Discovered s (ok tests, s') =
    (s'.discovered_tests_cache ≡ some tests) × IsConsistent s' × IsSorted by_test_id tests
Discovered s (err e, s') = (s' ≡ s) × (DiscoveryError e)

module _ {E : Type 0} where
  Agree-AreTests :
      (found : Found E) → Agree found → AreTests (sorted by_test_id (values (found.0))) (found.1)
  Agree-AreTests (by_id, index) a = record {
    in_order = sorted-IsSorted by_test_id by_test_id-IsTotalOrder (values by_id);
    indexed = λ id. ground (arith, a.named id, a.indexed id, contains-ids-sorted id (values by_id));
  }

  fill-Discovered :
      (s : TestIntelligence E) (out : Result (TestError E) (Found E))
      → Keeps out
      → Discovered s (fill s out)
  fill-Discovered s (err e) h = (refl, h)
  fill-Discovered s (ok (by_id, index)) h =
      let are = Agree-AreTests (by_id, index) h in (refl, are, are.in_order)

  fresh-Discovered :
      (ps : List (Provider E)) (s : TestIntelligence E)
      → Discovered s (fill s (discover ps ([], [])))
  unfolding values lookup
  fresh-Discovered ps s =
      fill-Discovered s (discover ps ([], []))
        (discover-Keeps ps ([], []) (record { named = λ id. refl; indexed = λ id. refl }))

  -- On consistent caches a discovery returns the tests sorted by id, and leaves consistent caches
  -- that hold what it returned, with a provider for exactly their ids; or it raises, and leaves the
  -- caches as they were.
  pub get_discovered_tests-Discovered :
      (ps : List (Provider E)) (s : TestIntelligence E)
      → IsConsistent s
      → Discovered s (get_discovered_tests ps s)
  unfolding get_discovered_tests
  get_discovered_tests-Discovered ps s c =
      go s.discovered_tests_cache s.provider_index_by_test_id refl refl c
    where
      go :
          (cache : Option (List DiscoveredTest)) (index : Option (Dict String (Provider E)))
          → s.discovered_tests_cache ≡ cache
          → s.provider_index_by_test_id ≡ index
          → CachesAgree cache index
          → Discovered s (discovered_or cache s (fill s (discover ps ([], []))))
      go none index e d h = fresh-Discovered ps s
      go (some tests) (some index) e d h = (e, rw (e, d, CachesAgree) h, h.in_order)
      go (some tests) none e d h = absurd h

  -- The index is there, with a provider for exactly the discovered ids, or the discovery raised.
  abbrev pub Indexed : Result (TestError E) (Dict String (Provider E)) × TestIntelligence E → Type 0
  Indexed (ok index, s) =
      (tests : List DiscoveredTest) × (s.discovered_tests_cache ≡ some tests) × AreTests tests index
  Indexed (err e, s) = DiscoveryError e

  pub provider_index-Indexed :
      (ps : List (Provider E)) (s : TestIntelligence E)
      → IsConsistent s
      → Indexed (provider_index ps s)
  unfolding provider_index
  provider_index-Indexed ps s c =
      go s.discovered_tests_cache s.provider_index_by_test_id refl refl c
        (get_discovered_tests ps s) (get_discovered_tests-Discovered ps s c)
    where
      filled :
          (tests : List DiscoveredTest) (s' : TestIntelligence E)
          → s'.discovered_tests_cache ≡ some tests
          → IsConsistent s'
          → Indexed (ok (Testing.index_of s'), s')
      filled tests s' e c' =
          cases s'.provider_index_by_test_id refl
            (subst (λ o. CachesAgree o s'.provider_index_by_test_id) e c')
        where
          cases :
              (index : Option (Dict String (Provider E)))
              → s'.provider_index_by_test_id ≡ index
              → CachesAgree (some tests) index
              → Indexed (ok (Testing.index_of s'), s')
          cases none d h = absurd h
          cases (some index) d h = rw d (tests, e, h)

      go :
          (cache : Option (List DiscoveredTest)) (index : Option (Dict String (Provider E)))
          → s.discovered_tests_cache ≡ cache
          → s.provider_index_by_test_id ≡ index
          → CachesAgree cache index
          → (fresh : Result (TestError E) (List DiscoveredTest) × TestIntelligence E)
          → Discovered s fresh
          → Indexed (indexed index s fresh)
      go (some tests) (some index) e d h fresh f = (tests, e, h)
      go none none e d h (ok tests, s') f = filled tests s' f.0 f.1
      go none none e d h (err x, s') f = f.1
      go none (some index) e d h fresh f = absurd h
      go (some tests) none e d h fresh f = absurd h
