-- ===== src/Testing.antt =====
-- src/suitcode/core/tests: the tests that the providers find, and how they are described and run.
-- Providers and their answers are the model's `Provider`: they run external tools. A provider is told
-- apart from another by its number, as Python tells objects apart.
pub mod Runs
pub mod Discovery
pub mod Describe
mod Tests
use code_suit.Base.{
  ℕ, String, Bool, true, false, not, ◌&&◌, Option, none, some, List, [], ◌∷◌, ◌==◌, contains, any,
  all, map, string_eq, nat_eq, if◌then◌else◌,
}
use code_suit.Base.Int.{ℤ}
use code_suit.Base.Dict.{Dict, lookup, insert, values}
use code_suit.Base.Groups.{group_by}
use code_suit.Base.Order.{sorted, str_le}
use code_suit.Base.Result.{Result, ok, err, and_then, map_ok}
use code_suit.Provenance.{ProvenanceEntry, has_mode, authoritative, confidence_eq}
use code_suit.Validation.{ValidationError, validate_exact_batch, validate_timeout_seconds}

-- core/tests/provenance.py
unfoldable pub is_authoritative_test_provenance : List ProvenanceEntry → Bool
unfolding confidence_eq
is_authoritative_test_provenance = any (has_mode authoritative)

-- `DiscoveredTestDefinition`; of the definition only its id is read.
pub record DiscoveredTest : Type 0 where
  pub test_id : String
  pub provenance : List ProvenanceEntry

pub data TestExecutionStatus : Type 0 where
  passed failed test_error timed_out : TestExecutionStatus

pub record TestExecutionResult : Type 0 where
  pub test_id : String
  pub status : TestExecutionStatus

-- `TestTargetDescription`
pub record TestTargetDescription : Type 0 where
  pub test_id : String
  pub command_argv : List String
  pub is_authoritative : Bool
  pub provenance : List ProvenanceEntry

-- `raised` is what a provider raises; `key_error` is a lookup that finds nothing.
pub data TestError (E : Type 0) : Type 0 where
  raised : E → TestError E
  invalid : ValidationError → TestError E
  duplicate_test unknown_test mismatched_description unexpected_results : TestError E
  duplicate_result key_error : TestError E

pub record Provider (E : Type 0) : Type 0 where
  pub object : ℕ
  pub discovered : Result E (List DiscoveredTest)
  pub describe : String → Result E TestTargetDescription
  pub run : List String → ℤ → Result E (List TestExecutionResult)

-- The two caches of `TestIntelligence`.
pub record TestIntelligence (E : Type 0) : Type 0 where
  pub discovered_tests_cache : Option (List DiscoveredTest)
  pub provider_index_by_test_id : Option (Dict String (Provider E))

-- `by_id` and `provider_index`
abbrev pub Found : Type 0 → Type 0
Found E = Dict String DiscoveredTest × Dict String (Provider E)

abbrev pub by_test_id : DiscoveredTest → DiscoveredTest → Bool
by_test_id a b = str_le a.test_id b.test_id

module _ {E : Type 0} where
  -- What a provider raises goes through.
  abbrev pub calling : {A : Type 0} → Result E A → Result (TestError E) A
  calling (ok a) = ok a
  calling (err e) = err (raised e)

  -- `by_id` and `provider_index` after one more test.
  unfoldable pub add_discovered :
      Provider E → DiscoveredTest → Found E → Result (TestError E) (Found E)
  unfolding lookup insert string_eq
  add_discovered p t (by_id, index) = elim (lookup t.test_id by_id) [
    | some _ ↦ err duplicate_test
    | none ↦ ok (insert t.test_id t by_id, insert t.test_id p index)
  ]

  unfoldable pub add_all_discovered :
      Provider E → List DiscoveredTest → Found E → Result (TestError E) (Found E)
  unfolding add_discovered
  add_all_discovered p [] found = ok found
  add_all_discovered p (t ∷ ts) found =
      and_then (add_discovered p t found) (add_all_discovered p ts)

  unfoldable pub discover : List (Provider E) → Found E → Result (TestError E) (Found E)
  unfolding add_all_discovered
  discover [] found = ok found
  discover (p ∷ ps) found =
      and_then (calling p.discovered) (λ ts. and_then (add_all_discovered p ts found) (discover ps))

  abbrev pub cached : Found E → Result (TestError E) (List DiscoveredTest) × TestIntelligence E
  cached (by_id, index) =
      let tests : List DiscoveredTest = sorted by_test_id (values by_id) in
      (
        ok tests,
        record { discovered_tests_cache = some tests; provider_index_by_test_id = some index },
      )

  -- The caches are written when every provider has answered.
  abbrev pub fill :
      TestIntelligence E
      → Result (TestError E) (Found E)
      → Result (TestError E) (List DiscoveredTest) × TestIntelligence E
  fill s (err e) = (err e, s)
  fill s (ok found) = cached found

  abbrev pub discovered_or :
      Option (List DiscoveredTest)
      → TestIntelligence E
      → Result (TestError E) (List DiscoveredTest) × TestIntelligence E
      → Result (TestError E) (List DiscoveredTest) × TestIntelligence E
  discovered_or (some tests) s fresh = (ok tests, s)
  discovered_or none s fresh = fresh

  unfoldable pub get_discovered_tests :
      List (Provider E)
      → TestIntelligence E
      → Result (TestError E) (List DiscoveredTest) × TestIntelligence E
  unfolding discover
  get_discovered_tests providers s =
      discovered_or s.discovered_tests_cache s (fill s (discover providers ([], [])))

  -- `_provider_for_test_id`, in an index that is there.
  unfoldable pub provider_for_test_id :
      Dict String (Provider E) → String → Result (TestError E) (Provider E)
  unfolding lookup string_eq
  provider_for_test_id index id = elim (lookup id index) [ none ↦ err unknown_test | some p ↦ ok p ]

  -- The index, after the discovery that makes it where it is missing.
  abbrev pub index_of : TestIntelligence E → Dict String (Provider E)
  index_of s = elim s.provider_index_by_test_id [ none ↦ [] | some index ↦ index ]

  abbrev pub indexed :
      Option (Dict String (Provider E))
      → TestIntelligence E
      → Result (TestError E) (List DiscoveredTest) × TestIntelligence E
      → Result (TestError E) (Dict String (Provider E)) × TestIntelligence E
  indexed (some index) s fresh = (ok index, s)
  indexed none s (err e, s') = (err e, s')
  indexed none s (ok _, s') = (ok (index_of s'), s')

  unfoldable pub provider_index :
      List (Provider E)
      → TestIntelligence E
      → Result (TestError E) (Dict String (Provider E)) × TestIntelligence E
  unfolding get_discovered_tests
  provider_index providers s =
      indexed s.provider_index_by_test_id s (get_discovered_tests providers s)

  abbrev pub check_description :
      String → TestTargetDescription → Result (TestError E) TestTargetDescription
  check_description id d = if d.test_id == id then ok d else err mismatched_description

  unfoldable pub describe_in :
      String → Dict String (Provider E) → Result (TestError E) TestTargetDescription
  unfolding provider_for_test_id string_eq
  describe_in id index =
      and_then (provider_for_test_id index id)
        (λ p. and_then (calling (p.describe id)) (check_description id))

  unfoldable pub describe_test_target :
      List (Provider E)
      → String
      → TestIntelligence E
      → Result (TestError E) TestTargetDescription × TestIntelligence E
  unfolding provider_index describe_in
  describe_test_target providers id s =
      let (index, s') = provider_index providers s in (and_then index (describe_in id), s')
