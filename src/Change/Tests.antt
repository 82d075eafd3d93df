-- ===== src/Change/Tests.antt =====
-- A small repository, its change sets, and the theorems at them.
use code_suit.Base.{
  ℕ, String, Bool, true, false, Option, none, some, List, [], ◌∷◌, ◌≡◌, refl, map, string_eq,
  filter,
}
use code_suit.Base.Dict.{keys, values, lookup, insert}
use code_suit.Base.Result.{Result, ok, err, Ensures}
use code_suit.Ids.{Python}
use code_suit.Provenance.{ProvenanceEntry, authoritative, test_tool}
use code_suit.Testing.{TestTargetDescription}
use code_suit.Change.{
  RelatedTest, RelationReason, same_owner, repository_default_suite, component_target,
  repository_target, BuildTargetDescription, OwnedNodeInfo, Component, ChangeError, raised,
  no_surfaces, lint, format,
}
use code_suit.Change.Quality.{build_operations}
use code_suit.Change.Quality.Planned.{AreOperations, build_operations-AreOperations}
use code_suit.Change.Minimize.{TestItem, item_id, minimize_tests}
use code_suit.Change.Minimize.Items.{DescribesAsked, broad_ids}
use code_suit.Change.Minimize.Kept.{IsMinimized, minimize_tests-IsMinimized}
use code_suit.Change.Minimize.Builds.{
  minimize_build_targets, component_targets, narrow_owner_targets, deduped_targets, is_repository,
}
use code_suit.Change.Minimize.Builds.Narrowest.{
  AreOf, first_level, dependents_of, minimize_build_targets-AreOf,
}
use code_suit.Change.Resolve.{Repository, of_file}
use code_suit.Change.Plan.{ChangeSet, get_minimum_verified_change_set}
use code_suit.Change.Plan.Explained.{IsReturned, get_minimum_verified_change_set-IsReturned}

-- Texts without blanks or dots, on which Python's functions do nothing.
abbrev plain : Python
plain = record { strip = λ s. s; posix_path = λ s. s; lower = λ s. s }

abbrev blank : String → Bool
blank s = elim s [ String.[] ↦ true | String.◌∷◌ _ _ ↦ false ]

abbrev entry : ProvenanceEntry
entry = record {
  confidence_mode = authoritative;
  source_kind = test_tool;
  source_tool = none;
  evidence_summary = "collected";
  evidence_paths = [];
}

abbrev match_of : ℕ → String → RelationReason → Option String → RelatedTest
match_of n id reason path = record {
  object = n;
  test_id = id;
  relation_reason = reason;
  matched_owner_id = none;
  matched_repository_rel_path = path;
  provenance = entry ∷ [];
}

-- A suite, and a test of a file that is found twice.
abbrev matches : List RelatedTest
matches =
    match_of 1 "suite" repository_default_suite none
    ∷ match_of 2 "app" repository_default_suite none
    ∷ match_of 3 "app" same_owner (some "app.py")
    ∷ []

abbrev description : String → TestTargetDescription
description id = record {
  test_id = id;
  command_argv = "run" ∷ [];
  is_authoritative = true;
  provenance = entry ∷ [];
}

abbrev describe : String → Result ℕ TestTargetDescription
describe id = ok (description id)

describe-DescribesAsked : DescribesAsked describe
describe-DescribesAsked id = refl

abbrev summary :
    Result (ChangeError ℕ) (List TestItem × List code_suit.Change.Excluded)
    → List String × List String
summary (err e) = ([], [])
summary (ok (kept, gone)) = (map item_id kept, broad_ids gone)

only_the_file_test :
    summary (minimize_tests blank describe "change" matches) ≡ ("app" ∷ [], "suite" ∷ [])
unfolding minimize_tests keys lookup insert
only_the_file_test = refl

minimize_tests-IsMinimized_example :
    Ensures (IsMinimized blank matches) (minimize_tests blank describe "change" matches)
minimize_tests-IsMinimized_example =
    minimize_tests-IsMinimized ℕ blank describe "change" matches refl describe-DescribesAsked
      (refl, (refl, (refl, tt)))

abbrev web : Component
web = record { id = "web"; source_roots = "web/src" ∷ []; artifact_paths = "web/dist" ∷ [] }

abbrev owner : OwnedNodeInfo
owner = record { id = "web"; kind = "component" }

abbrev build : BuildTargetDescription
build = record {
  action_id = "build:web";
  provider_id = "npm";
  target_id = "web";
  target_kind = component_target;
  owner_ids = [];
  provenance = entry ∷ [];
}

abbrev build_all : BuildTargetDescription
build_all = record {
  action_id = "build:all";
  provider_id = "npm";
  target_id = "all";
  target_kind = repository_target;
  owner_ids = [];
  provenance = entry ∷ [];
}

minimize_build_targets-AreOf_example :
    Ensures
      (AreOf (
        first_level
          (component_targets (some web) (build_all ∷ build ∷ []))
          (narrow_owner_targets owner (some web) (build_all ∷ build ∷ []))
          (dependents_of (some web) (deduped_targets (build_all ∷ build ∷ []) []))
          (filter is_repository (build_all ∷ build ∷ []))))
      (minimize_build_targets {E = ℕ} blank owner (some web) (build_all ∷ build ∷ []) [])
minimize_build_targets-AreOf_example =
    minimize_build_targets-AreOf ℕ blank owner (some web) (build_all ∷ build ∷ []) []

build_operations-AreOperations_example :
    Ensures
      (λ out.
        AreOperations plain ("app.py" ∷ []) lint ("ruff" ∷ []) (out.0)
        × AreOperations plain ("app.py" ∷ []) format ("ruff" ∷ []) (out.1))
      (build_operations {E = ℕ} plain "change" ("app.py" ∷ []) ("ruff" ∷ []))
build_operations-AreOperations_example =
    build_operations-AreOperations ℕ plain "change" ("app.py" ∷ []) ("ruff" ∷ [])

-- One component without tests, with the two build targets.
abbrev repository : Repository ℕ
repository = record {
  get_file_owner = λ path. ok (path, owner);
  describe_symbol_context = λ id. err 1;
  resolve_owner = λ id. ok owner;
  list_files_by_owner = λ id. ok ("web/src/app.ts" ∷ []);
  primary_component_id_for_file = λ path id. ok (some "web");
  primary_component_id_for_owner = λ id. ok (some "web");
  get_components = ok (web ∷ []);
  get_component_dependents = λ id. ok [];
  get_component_dependency_edges = λ id. ok [];
  related_tests_of_owner = λ id. ok [];
  related_tests_of_file = λ path. ok [];
  describe_test_target = describe;
  list_build_targets = ok (build_all ∷ build ∷ []);
  list_runner_actions = λ id. ok [];
  provider_ids_for_files = λ paths. ok ("npm" ∷ []);
  describe_structured_artifact = λ path. ok none;
}

abbrev shown : Result (ChangeError ℕ) ChangeSet → List String × List String
shown (err e) = ([], [])
shown (ok c) =
    (map (λ i. i.target.action_id) c.surfaces.build_targets, map (λ x. x.item_id) c.excluded_items)

-- The build of the component, instead of the whole; and a note that there are no tests.
build_only :
    shown (get_minimum_verified_change_set plain repository (of_file "web/src/app.ts"))
    ≡ ("build:web" ∷ [], "build:all" ∷ "test_surface:web" ∷ [])
unfolding get_minimum_verified_change_set keys lookup insert values
build_only = refl

-- A file of the artifacts: nothing to run.
artifact_only :
    shown (get_minimum_verified_change_set plain repository (of_file "web/dist/app.js"))
    ≡ ([], "validation_surface:artifact:web/dist/app.js" ∷ [])
unfolding get_minimum_verified_change_set keys lookup insert values
artifact_only = refl

get_minimum_verified_change_set-IsReturned_example :
    Ensures IsReturned (get_minimum_verified_change_set plain repository (of_file "web/src/app.ts"))
get_minimum_verified_change_set-IsReturned_example =
    get_minimum_verified_change_set-IsReturned ℕ plain repository (of_file "web/src/app.ts")
