-- ===== src/Change/Resolve.antt =====
-- core/minimum_verified_change_set_service.py: MinimumVerifiedCandidateResolver, over what it asks
-- of the repository and of the resolver of component contexts.
use code_suit.Base.{
  String, Bool, ◌&&◌, Option, none, some, List, [], ◌∷◌, ◌++◌, ◌==◌, contains, filter, map,
  string_eq, if◌then◌else◌,
}
use code_suit.Base.Order.{sorted, str_le}
use code_suit.Base.Result.{Result, ok, err, and_then}
use code_suit.Provenance.{ProvenanceEntry, merge_unique_provenance, merge_into}
use code_suit.Testing.{TestTargetDescription}
use code_suit.Change.{
  RelatedTest, dependent_component, BuildTargetDescription, RepositoryAction, OwnedNodeInfo,
  Component, ComponentDependencyEdge, DependentComponent, ChangeError, unknown_component, raising,
  text,
}

-- `ChangeTarget`, which names exactly one of the three.
pub data ChangeTarget : Type 0 where
  of_file of_symbol of_owner : String → ChangeTarget

pub data TargetKind : Type 0 where
  file_target symbol_target owner_target : TargetKind

-- What the service asks of the repository; each answer may be an exception. A file owner is the
-- file's path and its owner; a symbol context, its owner and path; the answer for an artifact is
-- the value of its kind.
pub record Repository (E : Type 0) : Type 0 where
  pub get_file_owner : String → Result E (String × OwnedNodeInfo)
  pub describe_symbol_context : String → Result E (OwnedNodeInfo × String)
  pub resolve_owner : String → Result E OwnedNodeInfo
  pub list_files_by_owner : String → Result E (List String)
  pub primary_component_id_for_file : String → String → Result E (Option String)
  pub primary_component_id_for_owner : String → Result E (Option String)
  pub get_components : Result E (List Component)
  pub get_component_dependents : String → Result E (List String)
  pub get_component_dependency_edges : String → Result E (List ComponentDependencyEdge)
  pub related_tests_of_owner : String → Result E (List RelatedTest)
  pub related_tests_of_file : String → Result E (List RelatedTest)
  pub describe_test_target : String → Result E TestTargetDescription
  pub list_build_targets : Result E (List BuildTargetDescription)
  pub list_runner_actions : String → Result E (List RepositoryAction)
  pub provider_ids_for_files : List String → Result E (List String)
  pub describe_structured_artifact : String → Result E (Option String)

-- `_ResolvedMinimumTarget`; the files of the owner are looked up, but not read again.
pub record ResolvedTarget : Type 0 where
  pub target_kind : TargetKind
  pub target_anchor_id : String
  pub owner : OwnedNodeInfo
  pub primary_component : Option Component
  pub evidence_path : Option String
  pub relevant_files : List String

-- `next(item for item in components if item.id == id)`
unfoldable pub find_component : String → List Component → Option Component
unfolding string_eq
find_component id [] = none
find_component id (c ∷ cs) = let rest = find_component id cs in if c.id == id then some c else rest

-- `{component.id: component for component in components}.get(id)`: the last one counts.
unfoldable pub last_component : String → List Component → Option Component
unfolding string_eq
last_component id [] = none
last_component id (c ∷ cs) = elim (last_component id cs) [
  | some d ↦ some d
  | none ↦ if c.id == id then some c else none
]

unfoldable pub is_on : Component → ComponentDependencyEdge → Bool
unfolding string_eq
is_on primary e = e.target_kind == "component" && e.target_id == primary.id

abbrev pub by_component : DependentComponent → DependentComponent → Bool
by_component a b = str_le a.component.id b.component.id

-- Sorted and each once: `sorted({...})`.
unfoldable pub sorted_set : List String → List String
unfolding sorted str_le merge_into string_eq
sorted_set xs = sorted str_le (merge_into [] xs)

abbrev pub as_dependent : String → RelatedTest → RelatedTest
as_dependent component_id t = record t {
  relation_reason = dependent_component;
  matched_owner_id = some component_id;
  matched_repository_rel_path = none;
}

-- The related tests that are not seen yet, as matches of the dependent component.
unfoldable pub unseen_tests :
    String
    → List ProvenanceEntry
    → List String
    → List RelatedTest
    → List (RelatedTest × List ProvenanceEntry) × List String
unfolding string_eq
unseen_tests component_id why seen [] = ([], seen)
unseen_tests component_id why seen (t ∷ ts) =
    let old = contains seen t.test_id in
    let (more, now) = unseen_tests component_id why (if old then seen else t.test_id ∷ seen) ts in
    (if old then more else (as_dependent component_id t, why) ∷ more, now)

module _ {E : Type 0} (repository : Repository E) where
  unfoldable pub component_by_id : Option String → Result (ChangeError E) (Option Component)
  unfolding find_component
  component_by_id none = ok none
  component_by_id (some id) =
      and_then (raising repository.get_components)
        λ cs. elim (find_component id cs) [ none ↦ err unknown_component | some c ↦ ok (some c) ]

  unfoldable pub primary_component_for_file :
      String → String → Result (ChangeError E) (Option Component)
  unfolding component_by_id
  primary_component_for_file path owner_id =
      and_then (raising (repository.primary_component_id_for_file path owner_id)) component_by_id

  unfoldable pub primary_component_for_owner : String → Result (ChangeError E) (Option Component)
  unfolding component_by_id
  primary_component_for_owner owner_id =
      and_then (raising (repository.primary_component_id_for_owner owner_id)) component_by_id

  -- The last steps for a file and for a symbol.
  unfoldable pub resolved_at :
      TargetKind → String → OwnedNodeInfo → String → Result (ChangeError E) ResolvedTarget
  unfolding primary_component_for_file
  resolved_at kind anchor owner path =
      and_then (primary_component_for_file path owner.id) λ primary.
        and_then (raising (repository.list_files_by_owner owner.id)) λ _. ok (record {
          target_kind = kind;
          target_anchor_id = anchor;
          owner = owner;
          primary_component = primary;
          evidence_path = some path;
          relevant_files = path ∷ [];
        })

  unfoldable pub resolve_target : ChangeTarget → Result (ChangeError E) ResolvedTarget
  unfolding resolved_at primary_component_for_owner sorted_set text
  resolve_target (of_file path) =
      and_then (raising (repository.get_file_owner path)) λ (found, owner).
        resolved_at file_target (text ("change_target:file:" ∷ found ∷ [])) owner found
  resolve_target (of_symbol id) =
      and_then (raising (repository.describe_symbol_context id)) λ (owner, path).
        resolved_at symbol_target (text ("change_target:symbol:" ∷ id ∷ [])) owner path
  resolve_target (of_owner id) = and_then (raising (repository.resolve_owner id)) λ owner.
      and_then (raising (repository.list_files_by_owner owner.id)) λ files.
        and_then (primary_component_for_owner owner.id) λ primary. ok (record {
          target_kind = owner_target;
          target_anchor_id = text ("change_target:owner:" ∷ owner.id ∷ []);
          owner = owner;
          primary_component = primary;
          evidence_path = none;
          relevant_files = sorted_set files;
        })

  abbrev pub related_tests : ResolvedTarget → Result (ChangeError E) (List RelatedTest)
  related_tests target = elim target.evidence_path [
    | none ↦ raising (repository.related_tests_of_owner target.owner.id)
    | some path ↦ raising (repository.related_tests_of_file path)
  ]

  -- The dependents that are known components with an edge on the primary component.
  unfoldable pub dependents_among :
      Component → List Component → List String → Result (ChangeError E) (List DependentComponent)
  unfolding last_component is_on
  dependents_among primary components [] = ok []
  dependents_among primary components (id ∷ ids) =
      let rest = dependents_among primary components ids in
      elim (last_component id components) [
        | none ↦ rest
        | some c ↦ and_then (raising (repository.get_component_dependency_edges id)) λ edges.
            elim (filter (is_on primary) edges) [
              | [] ↦ rest
              | e ∷ es ↦
                  and_then rest
                    (λ ds. ok (record { component = c; dependency_edges = e ∷ es } ∷ ds))
            ]
      ]

  unfoldable pub direct_dependent_components :
      ResolvedTarget → Result (ChangeError E) (List DependentComponent)
  unfolding dependents_among sorted str_le
  direct_dependent_components target = elim target.primary_component [
    | none ↦ ok []
    | some primary ↦ and_then (raising repository.get_components) λ components.
        and_then (raising (repository.get_component_dependents primary.id)) λ ids.
          and_then (dependents_among primary components ids) (λ ds. ok (sorted by_component ds))
  ]

  unfoldable pub tests_of_dependents :
      List String
      → List DependentComponent
      → Result (ChangeError E) (List (RelatedTest × List ProvenanceEntry))
  unfolding unseen_tests merge_unique_provenance
  tests_of_dependents seen [] = ok []
  tests_of_dependents seen (d ∷ ds) =
      and_then (raising (repository.related_tests_of_owner d.component.id)) λ related.
        let why = merge_unique_provenance (map (λ e. e.provenance) d.dependency_edges) in
        let (found, seen_now) = unseen_tests d.component.id why seen related in
        and_then (tests_of_dependents seen_now ds) (λ rest. ok (found ++ rest))

  -- `related_tests_for_dependent_components`
  abbrev pub related_tests_for_dependent_components :
      List DependentComponent → Result (ChangeError E) (List (RelatedTest × List ProvenanceEntry))
  related_tests_for_dependent_components = tests_of_dependents []
