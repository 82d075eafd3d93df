-- ===== src/Testing/Describe.antt =====
-- What `describe_test_target` answers for a test, discovered or not.
use code_suit.Base.{
  String, true, false, some, List, ◌≡◌, contains, string_eq, ◌==◌, Option-cases, Bool-cases, inl,
  inr, eq_of_==, arith,
}
use code_suit.Base.Dict.{Dict, lookup}
use code_suit.Base.Result.{Result, ok, err, and_then}
use code_suit.Testing.{
  DiscoveredTest, Provider, TestError, TestIntelligence, TestTargetDescription, raised, invalid,
  duplicate_test, unknown_test, mismatched_description, unexpected_results, duplicate_result,
  key_error, calling, check_description, provider_for_test_id, describe_in, describe_test_target,
  provider_index,
}
use code_suit.Testing.Discovery.{ids, IsConsistent, Indexed, provider_index-Indexed}

module _ {E : Type 0} where
  -- A description is of the test that was asked for, which is a discovered one; where the discovery
  -- went well, the unknown test is one that was not discovered.
  abbrev pub Described :
      String → Result (TestError E) TestTargetDescription × TestIntelligence E → Type 0
  Described id (ok d, s) =
      (d.test_id ≡ id)
      × (tests : List DiscoveredTest) × (s.discovered_tests_cache ≡ some tests)
      × (contains (ids tests) id ≡ true)
  Described id (err unknown_test, s) =
      (tests : List DiscoveredTest) × (s.discovered_tests_cache ≡ some tests)
      × (contains (ids tests) id ≡ false)
  Described id (err key_error, s) = ⊥
  Described id (err (raised e), s) = Unit
  Described id (err (invalid e), s) = ⊥
  Described id (err duplicate_test, s) = Unit
  Described id (err mismatched_description, s) = Unit
  Described id (err unexpected_results, s) = ⊥
  Described id (err duplicate_result, s) = ⊥

  Described-by :
      (id : String) (p : Provider E) (s : TestIntelligence E) (tests : List DiscoveredTest)
      → s.discovered_tests_cache ≡ some tests
      → contains (ids tests) id ≡ true
      → (m : Result E TestTargetDescription)
      → Described id (and_then (calling m) (check_description id), s)
  Described-by id p s tests e m (err x) = tt
  Described-by id p s tests e m (ok d) = elim (Bool-cases (d.test_id == id)) [
    | inl same ↦ rw (same, Described) (eq_of_== d.test_id id same, tests, e, m)
    | inr differ ↦ rw (differ, Described) tt
  ]

  Described-in :
      (id : String) (out : Result (TestError E) (Dict String (Provider E))) (s : TestIntelligence E)
      → Indexed (out, s)
      → Described id (and_then out (describe_in id), s)
  unfolding describe_in provider_for_test_id
  Described-in id (err (raised e)) s h = tt
  Described-in id (err duplicate_test) s h = tt
  Described-in id (err (invalid e)) s h = absurd h
  Described-in id (err unknown_test) s h = absurd h
  Described-in id (err mismatched_description) s h = absurd h
  Described-in id (err unexpected_results) s h = absurd h
  Described-in id (err duplicate_result) s h = absurd h
  Described-in id (err key_error) s h = absurd h
  Described-in id (ok index) s (tests, e, are) = elim (Option-cases (lookup id index)) [
    | inl missing ↦ rw (missing, Described) (tests, e, ground (arith, are.indexed id))
    | inr (p, found) ↦
        rw (found, Described)
          (Described-by id p s tests e (ground (arith, are.indexed id)) (p.describe id))
  ]

  -- On consistent caches: a description that is returned is of the test that was asked for, and
  -- that test was discovered; a test is reported as unknown only if it was not discovered; and no
  -- other error is made up than a mismatched description, a duplicate found by the discovery, or
  -- what a provider raises.
  pub describe_test_target-Described :
      (ps : List (Provider E)) (id : String) (s : TestIntelligence E)
      → IsConsistent s
      → Described id (describe_test_target ps id s)
  unfolding describe_test_target
  describe_test_target-Described ps id s c =
      Described-in id (provider_index ps s).0 (provider_index ps s).1
        (provider_index-Indexed ps s c)
