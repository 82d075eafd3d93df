-- ===== src/Testing/Tests.antt =====
-- Two providers with three tests, and the theorems at them.
use code_suit.Base.{ℕ, String, Bool, false, none, List, [], ◌∷◌, ◌≡◌, refl, nat_eq, string_eq}
use code_suit.Base.Int.{pos}
use code_suit.Base.Dict.{lookup, values, insert}
use code_suit.Base.Result.{Result, ok, err}
use code_suit.Testing.{
  Provider, TestError, TestExecutionResult, TestIntelligence, TestTargetDescription, passed,
  duplicate_test, unknown_test, unexpected_results, mismatched_description, invalid,
  describe_test_target, get_discovered_tests,
}
use code_suit.Validation.{duplicate_value}
use code_suit.Testing.Discovery.{Discovered, get_discovered_tests-Discovered}
use code_suit.Testing.Describe.{Described, describe_test_target-Described}
use code_suit.Testing.Runs.{ids_of, run_test_targets}
use code_suit.Testing.Runs.Order.{Safe, run_test_targets-Safe}

abbrev passes : String → TestExecutionResult
passes id = record { test_id = id; status = passed }

abbrev described : String → TestTargetDescription
described id = record {
  test_id = id;
  command_argv = "run" ∷ id ∷ [];
  is_authoritative = false;
  provenance = [];
}

-- Its answers are in the order that it was asked in.
abbrev pytest : Provider ℕ
pytest = record {
  object = 1;
  discovered =
      ok (
        record { test_id = "c"; provenance = [] } ∷ record { test_id = "a"; provenance = [] } ∷ []);
  describe = λ id. ok (described id);
  run = λ asked limit. elim asked [
    | [] ↦ ok []
    | id ∷ [] ↦ ok (passes id ∷ [])
    | id ∷ (jd ∷ _) ↦ ok (passes jd ∷ passes id ∷ [])
  ];
}

-- It describes another test than it is asked for, and answers nothing when it runs.
abbrev jest : Provider ℕ
jest = record {
  object = 2;
  discovered = ok (record { test_id = "b"; provenance = [] } ∷ []);
  describe = λ id. ok (described "other");
  run = λ asked limit. ok [];
}

abbrev both : List (Provider ℕ)
both = pytest ∷ jest ∷ []

abbrev unfilled : TestIntelligence ℕ
unfilled = record { discovered_tests_cache = none; provider_index_by_test_id = none }

abbrev never : String → Bool
never s = false

abbrev ids_or_none :
    Result (TestError ℕ) (List TestExecutionResult) → Result (TestError ℕ) (List String)
ids_or_none (ok rs) = ok (ids_of rs)
ids_or_none (err e) = err e

request_order :
    ids_or_none (run_test_targets never both ("a" ∷ "c" ∷ []) (pos 60) unfilled).0
    ≡ ok ("a" ∷ "c" ∷ [])
unfolding run_test_targets values lookup insert
request_order = refl

missing_answer :
    ids_or_none (run_test_targets never both ("a" ∷ "b" ∷ []) (pos 60) unfilled).0
    ≡ err unexpected_results
unfolding run_test_targets values lookup insert
missing_answer = refl

repeated_request :
    ids_or_none (run_test_targets never both ("a" ∷ "a" ∷ []) (pos 60) unfilled).0
    ≡ err (invalid duplicate_value)
unfolding run_test_targets values lookup insert
repeated_request = refl

same_test_twice :
    ids_or_none (run_test_targets never (pytest ∷ pytest ∷ []) ("a" ∷ []) (pos 60) unfilled).0
    ≡ err duplicate_test
unfolding run_test_targets values lookup insert
same_test_twice = refl

other_description : (describe_test_target both "b" unfilled).0 ≡ err mismatched_description
unfolding describe_test_target values lookup insert
other_description = refl

not_discovered : (describe_test_target both "d" unfilled).0 ≡ err unknown_test
unfolding describe_test_target values lookup insert
not_discovered = refl

get_discovered_tests-Discovered_example : Discovered unfilled (get_discovered_tests both unfilled)
get_discovered_tests-Discovered_example = get_discovered_tests-Discovered both unfilled tt

describe_test_target-Described_example : Described "a" (describe_test_target both "a" unfilled)
describe_test_target-Described_example = describe_test_target-Described both "a" unfilled tt

run_test_targets-Safe_example :
    Safe
      (λ rs. ids_of rs ≡ "a" ∷ "b" ∷ [])
      (run_test_targets never both ("a" ∷ "b" ∷ []) (pos 60) unfilled).0
run_test_targets-Safe_example =
    run_test_targets-Safe never both ("a" ∷ "b" ∷ []) (pos 60) unfilled tt
