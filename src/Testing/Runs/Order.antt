-- ===== src/Testing/Runs/Order.antt =====
-- A run returns one result for each requested test, in the order of the request.
use code_suit.Base.{
  String, Bool, true, List, [], ◌∷◌, ◌≡◌, ◌≢◌, refl, sym, ap, ◌∙◌, ◌==◌, contains, all, any, map,
  string_eq, nat_eq, is_some, and-eq-true, Option-cases, Bool-cases, inl, inr, arith, eq_of_==,
  ==-refl,
}
use code_suit.Base.Int.{ℤ}
use code_suit.Base.Dict.{Dict, lookup, insert, values, AllRows, AllRows-insert, lookup-insert}
use code_suit.Base.Groups.{group_by, any-values-group_by}
use code_suit.Base.Result.{Result, ok, err, and_then}
use code_suit.Validation.{ValidationError, validate_exact_batch, validate_timeout_seconds}
use code_suit.Testing.{
  Provider, TestError, TestExecutionResult, TestIntelligence, calling, key_error, raised, invalid,
  duplicate_test, unknown_test, mismatched_description, unexpected_results, duplicate_result,
  provider_for_test_id, provider_index,
}
use code_suit.Testing.Discovery.{IsConsistent, DiscoveryError, Indexed, provider_index-Indexed}
use code_suit.Testing.Runs.{
  ids_of, same_ids, with_providers, add_result, add_results, check_results, run_group, run_groups,
  object_of, pick_results, run_in, run_test_targets, after_checks, validated,
}

-- The results are stored under their ids.
abbrev Keyed : Dict String TestExecutionResult → Type 0
Keyed = AllRows (λ id r. r.test_id ≡ id)

module _ {E A : Type 0} where
  -- What holds of a value; an error is not a lookup that found nothing.
  abbrev pub Safe : (A → Type 0) → Result (TestError E) A → Type 0
  Safe P (ok a) = P a
  Safe P (err e) = e ≢ key_error

module _ {E A B : Type 0} where
  Safe-and_then :
      (P : A → Type 0) (Q : B → Type 0) (m : Result (TestError E) A)
      (f : A → Result (TestError E) B)
      → Safe P m
      → ((a : A) → P a → Safe Q (f a))
      → Safe Q (and_then m f)
  Safe-and_then P Q (ok a) f h k = k a h
  Safe-and_then P Q (err e) f h k = h

module _ {E A : Type 0} where
  Safe-calling : (m : Result E A) → Safe (λ _. Unit {0}) (calling m)
  Safe-calling (ok a) = tt
  Safe-calling (err e) = λ h. cc

-- A dictionary of results grew by the ids.
record Grown (ids : List String) (old new : Dict String TestExecutionResult) : Type 0 where
  keyed : Keyed new
  kept : (j : String) → is_some (lookup j old) ≡ true → is_some (lookup j new) ≡ true
  added : (j : String) → contains ids j ≡ true → is_some (lookup j new) ≡ true

add_results-Grown :
    (E : Type 0) (rs : List TestExecutionResult) (d : Dict String TestExecutionResult)
    → Keyed d
    → Safe {E = E} (Grown (ids_of rs) d) (add_results rs d)
unfolding add_results add_result
add_results-Grown E [] d h = record { keyed = h; kept = λ j k. k; added = λ j m. absurd cc }
add_results-Grown E (r ∷ rs) d h = elim (Option-cases (lookup r.test_id d)) [
  | inr (old, found) ↦ rw (found, Safe) (λ x. cc)
  | inl fresh ↦
      rw (fresh, Safe)
        (weaken (add_results rs (insert r.test_id r d)) (
          add_results-Grown E rs (insert r.test_id r d)
            (AllRows-insert (λ id s. s.test_id ≡ id) r.test_id r d refl h)))
]
  where
    weaken :
        (out : Result (TestError E) (Dict String TestExecutionResult))
        → Safe (Grown (ids_of rs) (insert r.test_id r d)) out
        → Safe (Grown (ids_of (r ∷ rs)) d) out
    weaken (err x) g = g
    weaken (ok new) g = record {
      keyed = g.keyed;
      kept = λ j k. ground (arith, g.kept j, lookup-insert j r.test_id r d);
      added = λ j m. ground (arith, g.kept j, g.added j, lookup-insert j r.test_id r d);
    }

contains_of_all :
    (ids actual : List String) (j : String)
    → all (contains actual) ids ≡ true
    → contains ids j ≡ true
    → contains actual j ≡ true
contains_of_all [] actual j h m = cc
contains_of_all (id ∷ ids) actual j h m =
    ground (arith, contains_of_all ids actual j, eq_of_== j id)

check_results-Grown :
    (E : Type 0) (expected : List String) (d : Dict String TestExecutionResult)
    (rs : List TestExecutionResult)
    → Keyed d
    → Safe {E = E} (Grown expected d) (check_results expected d rs)
unfolding same_ids
check_results-Grown E expected d rs h = elim (Bool-cases (same_ids expected (ids_of rs))) [
  | inr differ ↦ rw differ (λ x. cc)
  | inl same ↦ rw same (weaken same (add_results rs d) (add_results-Grown E rs d h))
]
  where
    weaken :
        same_ids expected (ids_of rs) ≡ true
        → (out : Result (TestError E) (Dict String TestExecutionResult))
        → Safe (Grown (ids_of rs) d) out
        → Safe (Grown expected d) out
    weaken same (err x) g = g
    weaken same (ok new) g = record {
      keyed = g.keyed;
      kept = g.kept;
      added = λ j m. g.added j (
          contains_of_all expected (ids_of rs) j
            (and-eq-true (all (contains (ids_of rs)) expected) (all (contains expected) (ids_of rs))
              same).0
            m);
    }

contains_head : (id : String) (ids : List String) → contains (id ∷ ids) id ≡ true
contains_head id ids = ground (arith, ==-refl id)

contains_tail :
    (id j : String) (ids : List String) → contains ids j ≡ true → contains (id ∷ ids) j ≡ true
contains_tail id j ids m = ground arith

pick_results-ids :
    (E : Type 0) (d : Dict String TestExecutionResult) (ids : List String)
    → Keyed d
    → ((j : String) → contains ids j ≡ true → is_some (lookup j d) ≡ true)
    → Safe {E = E} (λ out. ids_of out ≡ ids) (pick_results d ids)
unfolding pick_results
pick_results-ids E d [] h k = refl
pick_results-ids E d (id ∷ ids) h k = elim (Option-cases (lookup id d)) [
  | inl missing ↦ absurd (cc (k id (contains_head id ids), missing))
  | inr (r, found) ↦
      rw (found, Safe)
        (Safe-and_then (λ out. ids_of out ≡ ids) (λ out. ids_of out ≡ id ∷ ids) (pick_results d ids)
          (λ rest. ok (r ∷ rest))
          (pick_results-ids E d ids h (λ j m. k j (contains_tail id j ids m)))
          (λ rest e. ground (arith, h id r found)))
]

module _ {E : Type 0} where
  abbrev pairs_ids : List (Provider E × String) → List String
  pairs_ids = map (λ x. x.1)

  run_group-Grown :
      (limit : ℤ) (group : List (Provider E × String)) (d : Dict String TestExecutionResult)
      → Keyed d
      → Safe (Grown (pairs_ids group) d) (run_group limit group d)
  unfolding run_group
  run_group-Grown limit [] d h = record { keyed = h; kept = λ j k. k; added = λ j m. absurd cc }
  run_group-Grown limit ((p, id) ∷ group) d h =
      Safe-and_then (λ _. Unit {0}) (Grown (pairs_ids ((p, id) ∷ group)) d)
        (calling (p.run (id ∷ pairs_ids group) limit)) (check_results (id ∷ pairs_ids group) d)
        (Safe-calling (p.run (id ∷ pairs_ids group) limit))
        (λ rs _. check_results-Grown E (id ∷ pairs_ids group) d rs h)

  abbrev of_id : String → Provider E × String → Bool
  of_id j x = j == x.1

  -- The dictionary after all groups.
  record Covered (groups : List (List (Provider E × String)))
      (old new : Dict String TestExecutionResult) : Type 0 where
    keyed : Keyed new
    kept : (j : String) → is_some (lookup j old) ≡ true → is_some (lookup j new) ≡ true
    added : (j : String) → any (any (of_id j)) groups ≡ true → is_some (lookup j new) ≡ true

  contains-pairs_ids :
      (j : String) (group : List (Provider E × String))
      → contains (pairs_ids group) j ≡ any (of_id j) group
  contains-pairs_ids j [] = refl
  contains-pairs_ids j (x ∷ group) = ground (arith, contains-pairs_ids j group)

  run_groups-Covered :
      (limit : ℤ) (groups : List (List (Provider E × String))) (d : Dict String TestExecutionResult)
      → Keyed d
      → Safe (Covered groups d) (run_groups limit groups d)
  unfolding run_groups
  run_groups-Covered limit [] d h = record { keyed = h; kept = λ j k. k; added = λ j m. absurd cc }
  run_groups-Covered limit (g ∷ gs) d h =
      Safe-and_then (Grown (pairs_ids g) d) (Covered (g ∷ gs) d) (run_group limit g d)
        (run_groups limit gs) (run_group-Grown limit g d h)
        (λ d' grown.
          weaken d' grown (run_groups limit gs d') (run_groups-Covered limit gs d' grown.keyed))
    where
      weaken :
          (d' : Dict String TestExecutionResult)
          → Grown (pairs_ids g) d d'
          → (out : Result (TestError E) (Dict String TestExecutionResult))
          → Safe (Covered gs d') out
          → Safe (Covered (g ∷ gs) d) out
      weaken d' grown (err x) c = c
      weaken d' grown (ok new) c = record {
        keyed = c.keyed;
        kept = λ j k. c.kept j (grown.kept j k);
        added = λ j m. ground (arith, c.kept j, c.added j, grown.added j, contains-pairs_ids j g);
      }

  with_providers-ids :
      (index : Dict String (Provider E)) (ids : List String)
      → Safe (λ pairs. pairs_ids pairs ≡ ids) (with_providers index ids)
  unfolding with_providers provider_for_test_id
  with_providers-ids index [] = refl
  with_providers-ids index (id ∷ ids) = elim (Option-cases (lookup id index)) [
    | inl missing ↦ rw (missing, Safe) (λ x. cc)
    | inr (p, found) ↦
        rw (found, Safe)
          (Safe-and_then (λ pairs. pairs_ids pairs ≡ ids) (λ pairs. pairs_ids pairs ≡ id ∷ ids)
            (with_providers index ids) (λ rest. ok ((p, id) ∷ rest)) (with_providers-ids index ids)
            (λ rest e. ap (λ xs. id ∷ xs) e))
  ]

  -- Run from an index, each requested test has one result, in the order of the request; and no
  -- lookup of a result fails.
  run_in-Safe :
      (ids : List String) (limit : ℤ) (index : Dict String (Provider E))
      → Safe (λ out. ids_of out ≡ ids) (run_in ids limit index)
  unfolding run_in lookup
  run_in-Safe ids limit index =
      Safe-and_then (λ pairs. pairs_ids pairs ≡ ids) _ (with_providers index ids) _
        (with_providers-ids index ids)
        λ pairs e.
          Safe-and_then (Covered (values (group_by object_of pairs)) []) _
            (run_groups limit (values (group_by object_of pairs)) []) _
            (run_groups-Covered limit (values (group_by object_of pairs)) [] (λ k v h. absurd cc))
            λ results c. pick_results-ids E results ids c.keyed λ j m. c.added j (
              any-values-group_by object_of (of_id j) pairs
              ∙ sym (contains-pairs_ids j pairs)
              ∙ ap (λ xs. contains xs j) e
              ∙ m)

  discovery_error_lem : (e : TestError E) → DiscoveryError e → e ≢ key_error
  discovery_error_lem (raised e) h = λ x. cc
  discovery_error_lem duplicate_test h = λ x. cc
  discovery_error_lem key_error h = absurd h
  discovery_error_lem (invalid e) h = absurd h
  discovery_error_lem unknown_test h = absurd h
  discovery_error_lem mismatched_description h = absurd h
  discovery_error_lem unexpected_results h = absurd h
  discovery_error_lem duplicate_result h = absurd h

  run-Indexed :
      (ids : List String) (limit : ℤ) (out : Result (TestError E) (Dict String (Provider E)))
      (s : TestIntelligence E)
      → Indexed (out, s)
      → Safe (λ rs. ids_of rs ≡ ids) (and_then out (run_in ids limit))
  run-Indexed ids limit (ok index) s h = run_in-Safe ids limit index
  run-Indexed ids limit (err e) s h = discovery_error_lem e h

  -- On consistent caches a run that returns has one result for each requested test, in the order of
  -- the request, whatever the providers do; and it never raises a missing key.
  pub run_test_targets-Safe :
      (is_blank : String → Bool) (ps : List (Provider E)) (ids : List String) (limit : ℤ)
      (s : TestIntelligence E)
      → IsConsistent s
      → Safe (λ rs. ids_of rs ≡ ids) (run_test_targets is_blank ps ids limit s).0
  unfolding run_test_targets
  run_test_targets-Safe is_blank ps ids limit s c =
      go (validate_exact_batch is_blank ids) (validate_timeout_seconds limit)
    where
      go :
          (batch : Result ValidationError (List String)) (time : Result ValidationError ℤ)
          → Safe
              (λ rs. ids_of rs ≡ ids)
              (after_checks
                (and_then (validated batch) (λ _. and_then (validated time) (λ _. ok tt)))
                s
                (let (index, s') = provider_index ps s in
                  (and_then index (run_in ids limit), s'))).0
      go (err e) time = λ x. cc
      go (ok b) (err e) = λ x. cc
      go (ok b) (ok t) =
          run-Indexed ids limit (provider_index ps s).0 (provider_index ps s).1
            (provider_index-Indexed ps s c)
