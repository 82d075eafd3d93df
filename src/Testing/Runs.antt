-- ===== src/Testing/Runs.antt =====
-- src/suitcode/core/tests/test_intelligence.py: `run_test_targets`. `limit` is its timeout.
pub mod Order
use code_suit.Base.{
  ℕ, String, Bool, true, false, ◌&&◌, Option, none, some, List, [], ◌∷◌, contains, all, map,
  string_eq, nat_eq, if◌then◌else◌,
}
use code_suit.Base.Int.{ℤ}
use code_suit.Base.Dict.{Dict, lookup, insert, values}
use code_suit.Base.Groups.{group_by}
use code_suit.Base.Result.{Result, ok, err, and_then}
use code_suit.Validation.{ValidationError, validate_exact_batch, validate_timeout_seconds}
use code_suit.Testing.{
  Provider, TestError, TestExecutionResult, TestIntelligence, calling, invalid, unexpected_results,
  duplicate_result, key_error, provider_for_test_id, provider_index,
}

abbrev pub ids_of : List TestExecutionResult → List String
ids_of = map (λ r. r.test_id)

-- `expected != actual`, of two sets
unfoldable pub same_ids : List String → List String → Bool
unfolding string_eq
same_ids expected actual = all (contains actual) expected && all (contains expected) actual

module _ {E : Type 0} where
  -- Each requested test with its provider.
  unfoldable pub with_providers :
      Dict String (Provider E) → List String → Result (TestError E) (List (Provider E × String))
  unfolding provider_for_test_id
  with_providers index [] = ok []
  with_providers index (id ∷ ids) =
      and_then (provider_for_test_id index id)
        (λ p. and_then (with_providers index ids) (λ rest. ok ((p, id) ∷ rest)))

  unfoldable pub add_result :
      TestExecutionResult
      → Dict String TestExecutionResult
      → Result (TestError E) (Dict String TestExecutionResult)
  unfolding lookup insert string_eq
  add_result r results = elim (lookup r.test_id results) [
    | some _ ↦ err duplicate_result
    | none ↦ ok (insert r.test_id r results)
  ]

  unfoldable pub add_results :
      List TestExecutionResult
      → Dict String TestExecutionResult
      → Result (TestError E) (Dict String TestExecutionResult)
  unfolding add_result
  add_results [] results = ok results
  add_results (r ∷ rs) results = and_then (add_result r results) (add_results rs)

  abbrev pub check_results :
      List String
      → Dict String TestExecutionResult
      → List TestExecutionResult
      → Result (TestError E) (Dict String TestExecutionResult)
  check_results expected results rs =
      if same_ids expected (ids_of rs) then add_results rs results else err unexpected_results

  -- One provider's tests. A group is not empty.
  unfoldable pub run_group :
      ℤ
      → List (Provider E × String)
      → Dict String TestExecutionResult
      → Result (TestError E) (Dict String TestExecutionResult)
  unfolding add_results same_ids
  run_group limit [] results = ok results
  run_group limit ((p, id) ∷ group) results =
      let expected : List String = id ∷ map (λ x. x.1) group in
      and_then (calling (p.run expected limit)) (check_results expected results)

  unfoldable pub run_groups :
      ℤ
      → List (List (Provider E × String))
      → Dict String TestExecutionResult
      → Result (TestError E) (Dict String TestExecutionResult)
  unfolding run_group
  run_groups limit [] results = ok results
  run_groups limit (g ∷ gs) results = and_then (run_group limit g results) (run_groups limit gs)

  abbrev pub object_of : Provider E × String → ℕ
  object_of (p, _) = p.object

  -- `results_by_id[test_id]` for each requested id
  unfoldable pub pick_results :
      Dict String TestExecutionResult
      → List String
      → Result (TestError E) (List TestExecutionResult)
  unfolding lookup string_eq
  pick_results results [] = ok []
  pick_results results (id ∷ ids) = elim (lookup id results) [
    | none ↦ err key_error
    | some r ↦ and_then (pick_results results ids) (λ rest. ok (r ∷ rest))
  ]

  unfoldable pub run_in :
      List String → ℤ → Dict String (Provider E) → Result (TestError E) (List TestExecutionResult)
  unfolding with_providers group_by run_groups pick_results nat_eq
  run_in ids limit index = and_then (with_providers index ids) λ pairs.
      and_then (run_groups limit (values (group_by object_of pairs)) [])
        λ results. pick_results results ids

  abbrev pub validated : {A : Type 0} → Result ValidationError A → Result (TestError E) A
  validated (ok a) = ok a
  validated (err e) = err (invalid e)

  abbrev pub after_checks :
      Result (TestError E) (Unit {0})
      → TestIntelligence E
      → Result (TestError E) (List TestExecutionResult) × TestIntelligence E
      → Result (TestError E) (List TestExecutionResult) × TestIntelligence E
  after_checks (err e) s out = (err e, s)
  after_checks (ok _) s out = out

  unfoldable pub run_test_targets :
      (is_blank : String → Bool)
      → List (Provider E)
      → List String
      → ℤ
      → TestIntelligence E
      → Result (TestError E) (List TestExecutionResult) × TestIntelligence E
  unfolding validate_exact_batch validate_timeout_seconds provider_index run_in
  run_test_targets is_blank providers ids limit s =
      after_checks
        (and_then (validated (validate_exact_batch is_blank ids))
          (λ _. and_then (validated (validate_timeout_seconds limit)) (λ _. ok tt)))
        s (let (index, s') = provider_index providers s in (and_then index (run_in ids limit), s'))
