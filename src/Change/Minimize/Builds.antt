-- ===== src/Change/Minimize/Builds.antt =====
-- core/minimum_verified_change_set_service.py: `minimize_build_targets`.
pub mod Narrowest
use code_suit.Base.{
  String, Bool, true, false, ◌&&◌, ◌||◌, Option, none, some, List, [], ◌∷◌, ◌++◌, ◌==◌, filter, map,
  contains, string_eq, if◌then◌else◌,
}
use code_suit.Base.Dict.{Dict, values, insert, lookup}
use code_suit.Base.Order.{sorted, str_le}
use code_suit.Base.Result.{Result, ok, err, and_then, map_ok, traverse}
use code_suit.Provenance.{ProvenanceEntry, merge_unique_provenance}
use code_suit.Change.{
  ActionTargetKind, repository_target, component_target, BuildTargetDescription, OwnedNodeInfo,
  Component, DependentComponent, build_target, repository_build_replaced_by_narrower_build,
  EdgeKind, component_build_target, owner_build_target, InclusionReason, component_scoped_build,
  owner_associated_build, dependent_build, repository_wide_build, Included, Excluded, ChangeError,
}
use code_suit.Change.Evidence.{build_item, dependent_build_item, exclusion}

abbrev pub BuildItem : Type 0
BuildItem = Included BuildTargetDescription

abbrev pub is_component : BuildTargetDescription → Bool
is_component t = elim t.target_kind [ component_target ↦ true | _ ↦ false ]

abbrev pub is_repository : BuildTargetDescription → Bool
is_repository t = elim t.target_kind [ repository_target ↦ true | _ ↦ false ]

unfoldable pub of_component : String → BuildTargetDescription → Bool
unfolding string_eq
of_component id t = is_component t && t.target_id == id

unfoldable pub component_targets :
    Option Component → List BuildTargetDescription → List BuildTargetDescription
unfolding of_component
component_targets none targets = []
component_targets (some c) targets = filter (of_component c.id) targets

unfoldable pub owned_by : OwnedNodeInfo → Option Component → BuildTargetDescription → Bool
unfolding string_eq
owned_by owner primary t =
    is_component t
    && (contains t.owner_ids owner.id
        || (elim primary [ none ↦ false | some c ↦ contains t.owner_ids c.id ]))

abbrev pub by_action_id : BuildTargetDescription → BuildTargetDescription → Bool
by_action_id a b = str_le a.action_id b.action_id

-- `{target.action_id: target for target in targets}`
unfoldable pub under_action_ids :
    Dict String BuildTargetDescription
    → List BuildTargetDescription
    → Dict String BuildTargetDescription
unfolding insert string_eq
under_action_ids d [] = d
under_action_ids d (t ∷ ts) = under_action_ids (insert t.action_id t d) ts

unfoldable pub narrow_owner_targets :
    OwnedNodeInfo → Option Component → List BuildTargetDescription → List BuildTargetDescription
unfolding owned_by under_action_ids sorted values str_le
narrow_owner_targets owner primary targets =
    sorted by_action_id (values (under_action_ids [] (filter (owned_by owner primary) targets)))

abbrev pub Dependent : Type 0
Dependent = DependentComponent × BuildTargetDescription

unfoldable pub dependent_targets :
    List BuildTargetDescription → List DependentComponent → List Dependent
unfolding of_component
dependent_targets targets [] = []
dependent_targets targets (d ∷ ds) =
    map (λ t. (d, t)) (filter (of_component d.component.id) targets) ++ dependent_targets targets ds

abbrev pub dependent_le : Dependent → Dependent → Bool
dependent_le a b = by_action_id (a.1) (b.1)

-- `deduped.setdefault(...)` over the sorted pairs.
unfoldable pub first_of_each : Dict String Dependent → List Dependent → Dict String Dependent
unfolding lookup insert string_eq
first_of_each d [] = d
first_of_each d (p ∷ ps) =
    first_of_each (elim (lookup p.1.action_id d) [ none ↦ insert p.1.action_id p d | some _ ↦ d ])
      ps

unfoldable pub deduped_targets :
    List BuildTargetDescription → List DependentComponent → List Dependent
unfolding dependent_targets first_of_each sorted values str_le
deduped_targets targets dependents =
    values (first_of_each [] (sorted dependent_le (dependent_targets targets dependents)))

-- `*(edge.provenance for edge in dependent.dependency_edges)`, merged.
unfoldable pub dependency_provenance : DependentComponent → List ProvenanceEntry
unfolding merge_unique_provenance
dependency_provenance d = merge_unique_provenance (map (λ e. e.provenance) d.dependency_edges)

module _ {E : Type 0} (is_blank : String → Bool) where
  -- The included targets, beside the repository's that they replace.
  unfoldable pub instead_of :
      String
      → String
      → InclusionReason
      → EdgeKind
      → String
      → List BuildTargetDescription
      → List BuildTargetDescription
      → Result (ChangeError E) (List BuildItem × List Excluded)
  unfolding traverse exclusion build_item
  instead_of kind id reason edge_kind because included replaced =
      and_then
        (traverse
          (λ t.
            exclusion is_blank build_target t.action_id repository_build_replaced_by_narrower_build
              because (map (λ i. i.action_id) included) t.provenance)
          replaced)
        λ gone.
          and_then (traverse (λ t. build_item is_blank kind id t reason edge_kind) included)
            λ items. ok (items, gone)

  abbrev pub no_exclusions :
      Result (ChangeError E) (List BuildItem)
      → Result (ChangeError E) (List BuildItem × List Excluded)
  no_exclusions = map_ok (λ items. (items, []))

  unfoldable pub repository_wide :
      OwnedNodeInfo
      → List BuildTargetDescription
      → Result (ChangeError E) (List BuildItem × List Excluded)
  unfolding traverse build_item
  repository_wide owner targets = no_exclusions (
      traverse
        (λ t. build_item is_blank "owner" owner.id t repository_wide_build owner_build_target)
        targets)

  unfoldable pub dependent_item : Component → Dependent → Result (ChangeError E) BuildItem
  unfolding dependent_build_item dependency_provenance
  dependent_item c (d, t) =
      dependent_build_item is_blank c.id t (dependency_provenance d) dependent_build

  -- The last two cases: the dependents of the primary component, or the whole repository.
  unfoldable pub minimize_dependents :
      OwnedNodeInfo
      → Option Component
      → List Dependent
      → List BuildTargetDescription
      → Result (ChangeError E) (List BuildItem × List Excluded)
  unfolding traverse dependent_item repository_wide
  minimize_dependents owner none dependents repository = repository_wide owner repository
  minimize_dependents owner (some c) [] repository = repository_wide owner repository
  minimize_dependents owner (some c) (p ∷ ps) repository =
      no_exclusions (traverse (dependent_item c) (p ∷ ps))

  unfoldable pub minimize_owner_targets :
      OwnedNodeInfo
      → Option Component
      → List BuildTargetDescription
      → List Dependent
      → List BuildTargetDescription
      → Result (ChangeError E) (List BuildItem × List Excluded)
  unfolding instead_of minimize_dependents
  minimize_owner_targets owner primary (t ∷ ts) dependents repository =
      instead_of "owner" owner.id owner_associated_build owner_build_target
        "repository-wide build target replaced by narrower owner-associated build target" (t ∷ ts)
        repository
  minimize_owner_targets owner primary [] dependents repository =
      minimize_dependents owner primary dependents repository

  unfoldable pub minimize_component_targets :
      OwnedNodeInfo
      → Option Component
      → List BuildTargetDescription
      → List BuildTargetDescription
      → List Dependent
      → List BuildTargetDescription
      → Result (ChangeError E) (List BuildItem × List Excluded)
  unfolding instead_of minimize_owner_targets
  minimize_component_targets owner (some c) (t ∷ ts) narrow dependents repository =
      instead_of "component" c.id component_scoped_build component_build_target
        "repository-wide build target replaced by narrower component-scoped build target" (t ∷ ts)
        repository
  minimize_component_targets owner (some c) [] narrow dependents repository =
      minimize_owner_targets owner (some c) narrow dependents repository
  minimize_component_targets owner none component narrow dependents repository =
      minimize_owner_targets owner none narrow dependents repository

  unfoldable pub minimize_build_targets :
      OwnedNodeInfo
      → Option Component
      → List BuildTargetDescription
      → List DependentComponent
      → Result (ChangeError E) (List BuildItem × List Excluded)
  unfolding component_targets narrow_owner_targets deduped_targets minimize_component_targets
  minimize_build_targets owner primary targets dependents =
      minimize_component_targets owner primary (component_targets primary targets)
        (narrow_owner_targets owner primary targets) (deduped_targets targets dependents)
        (filter is_repository targets)
