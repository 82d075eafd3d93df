-- ===== src/Change/Minimize/Builds/Narrowest.antt =====
-- The build targets that are kept are those of the narrowest level that has any.
use code_suit.Base.{
  String, Bool, Option, none, some, List, [], ◌∷◌, ◌≡◌, refl, filter, map, string_eq,
}
use code_suit.Base.Result.{
  Result, ok, err, Ensures, Ensures-and_then, traverse, traverse-Each, Each, Each-map,
  Each-map_back, Each-weaken,
}
use code_suit.Change.{
  BuildTargetDescription, OwnedNodeInfo, Component, DependentComponent, EdgeKind, InclusionReason,
  Excluded, ChangeError, repository_build_replaced_by_narrower_build, build_target, dependent_build,
  owner_build_target, repository_wide_build, owner_associated_build, component_build_target,
  component_scoped_build,
}
use code_suit.Change.Evidence.Items.{
  Holds, Excludes, build_item-Holds, dependent_build_item-Holds, exclusion-Excludes,
}
use code_suit.Change.Minimize.Builds.{
  BuildItem, Dependent, component_targets, narrow_owner_targets, deduped_targets, is_repository,
  instead_of, repository_wide, minimize_dependents, minimize_owner_targets,
  minimize_component_targets, minimize_build_targets, dependency_provenance, dependent_item,
  no_exclusions,
}

-- The targets of the first of four levels that has any, and the repository's targets where a
-- narrower level of the component or of the owner replaces them.
abbrev pub first_level :
    List BuildTargetDescription
    → List BuildTargetDescription
    → List BuildTargetDescription
    → List BuildTargetDescription
    → List BuildTargetDescription × List BuildTargetDescription
first_level (t ∷ ts) owned dependents repository = (t ∷ ts, repository)
first_level [] (t ∷ ts) dependents repository = (t ∷ ts, repository)
first_level [] [] (t ∷ ts) repository = (t ∷ ts, [])
first_level [] [] [] repository = (repository, [])

-- Without a primary component there are no dependents to build.
abbrev pub dependents_of : Option Component → List Dependent → List BuildTargetDescription
dependents_of none ps = []
dependents_of (some c) ps = map (λ p. p.1) ps

abbrev pub action_ids : List BuildTargetDescription → List String
action_ids = map (λ t. t.action_id)

abbrev pub kept_targets : List BuildItem → List BuildTargetDescription
kept_targets = map (λ i. i.target)

-- The items are for the targets of the level, each replaced target is excluded, in favour of them.
pub record AreOf (level : List BuildTargetDescription × List BuildTargetDescription)
    (out : List BuildItem × List Excluded) : Type 0 where
  pub kept : kept_targets (out.0) ≡ level.0
  pub gone : map (λ x. x.item_id) (out.1) ≡ action_ids (level.1)
  pub replaced : map (λ x. x.replaced_by_ids) (out.1) ≡ map (λ _. action_ids (level.0)) (level.1)

module _ (E : Type 0) (is_blank : String → Bool) where
  instead_of-AreOf :
      (kind id : String) (reason : InclusionReason) (edge_kind : EdgeKind) (because : String)
      (included replaced : List BuildTargetDescription)
      → Ensures
          (AreOf (included, replaced))
          (instead_of {E = E} is_blank kind id reason edge_kind because included replaced)
  unfolding instead_of
  instead_of-AreOf kind id reason edge_kind because included replaced =
      let ids = action_ids included in
      Ensures-and_then
        (Each
          (λ t x. Excludes is_blank t.action_id repository_build_replaced_by_narrower_build ids x)
          replaced)
        (AreOf (included, replaced)) (traverse _ replaced) _
        (traverse-Each _ _ replaced (λ t.
          exclusion-Excludes E is_blank build_target t.action_id
            repository_build_replaced_by_narrower_build because ids t.provenance))
        λ gone _ g.
          Ensures-and_then (Each (λ t i. Holds is_blank t reason t.action_id i) included)
            (AreOf (included, replaced)) (traverse _ included) _
            (traverse-Each _ _ included
              (λ t. build_item-Holds E is_blank kind id t reason edge_kind))
            λ items _ k. record {
              kept =
                  Each-map_back (λ i. i.target) included items
                    (Each-weaken _ _ included items (λ t i h. h.target) k);
              gone =
                  Each-map (λ t. t.action_id) (λ x. x.item_id) replaced gone
                    (Each-weaken _ _ replaced gone (λ t x e. e.id) g);
              replaced =
                  Each-map (λ _. ids) (λ x. x.replaced_by_ids) replaced gone
                    (Each-weaken _ _ replaced gone (λ t x e. e.replaced_by_ids) g);
            }

  repository_wide-AreOf :
      (owner : OwnedNodeInfo) (repository : List BuildTargetDescription)
      → Ensures (AreOf (repository, [])) (repository_wide {E = E} is_blank owner repository)
  unfolding repository_wide
  repository_wide-AreOf owner repository = all_kept repository (traverse _ repository) (
      traverse-Each _ _ repository (λ t.
        build_item-Holds E is_blank "owner" owner.id t repository_wide_build owner_build_target))
    where
      all_kept :
          (ts : List BuildTargetDescription) (out : Result (ChangeError E) (List BuildItem))
          → Ensures (Each (λ t i. Holds is_blank t repository_wide_build t.action_id i) ts) out
          → Ensures (AreOf (ts, [])) (no_exclusions is_blank out)
      all_kept ts (err e) h = tt
      all_kept ts (ok items) h = record {
        kept =
            Each-map_back (λ i. i.target) ts items (Each-weaken _ _ ts items (λ t i k. k.target) h);
        gone = refl;
        replaced = refl;
      }

  abbrev IsFor : Dependent → BuildItem → Type 0
  IsFor (d, t) = Holds is_blank t dependent_build t.action_id

  dependent_item-IsFor :
      (c : Component) (p : Dependent) → Ensures (IsFor p) (dependent_item {E = E} is_blank c p)
  unfolding dependent_item
  dependent_item-IsFor c (d, t) =
      dependent_build_item-Holds E is_blank c.id t (dependency_provenance d) dependent_build

  minimize_dependents-AreOf :
      (owner : OwnedNodeInfo) (primary : Option Component) (ps : List Dependent)
      (repository : List BuildTargetDescription)
      → Ensures
          (AreOf (first_level [] [] (dependents_of primary ps) repository))
          (minimize_dependents {E = E} is_blank owner primary ps repository)
  unfolding minimize_dependents
  minimize_dependents-AreOf owner none ps repository = repository_wide-AreOf owner repository
  minimize_dependents-AreOf owner (some c) [] repository = repository_wide-AreOf owner repository
  minimize_dependents-AreOf owner (some c) (p ∷ ps) repository =
      all_kept (traverse (dependent_item is_blank c) (p ∷ ps))
        (traverse-Each IsFor (dependent_item is_blank c) (p ∷ ps) (dependent_item-IsFor c))
    where
      all_kept :
          (out : Result (ChangeError E) (List BuildItem))
          → Ensures (Each IsFor (p ∷ ps)) out
          → Ensures (AreOf (map (λ q. q.1) (p ∷ ps), [])) (no_exclusions is_blank out)
      all_kept (err e) h = tt
      all_kept (ok items) h = record {
        kept =
            Each-map (λ q. q.1) (λ i. i.target) (p ∷ ps) items
              (Each-weaken IsFor (λ q i. i.target ≡ q.1) (p ∷ ps) items (λ q i k. k.target) h);
        gone = refl;
        replaced = refl;
      }

  minimize_owner_targets-AreOf :
      (owner : OwnedNodeInfo) (primary : Option Component) (owned : List BuildTargetDescription)
      (ps : List Dependent) (repository : List BuildTargetDescription)
      → Ensures
          (AreOf (first_level [] owned (dependents_of primary ps) repository))
          (minimize_owner_targets {E = E} is_blank owner primary owned ps repository)
  unfolding minimize_owner_targets
  minimize_owner_targets-AreOf owner primary [] ps repository =
      minimize_dependents-AreOf owner primary ps repository
  minimize_owner_targets-AreOf owner primary (t ∷ ts) ps repository =
      instead_of-AreOf "owner" owner.id owner_associated_build owner_build_target _ (t ∷ ts)
        repository

  minimize_component_targets-AreOf :
      (owner : OwnedNodeInfo) (primary : Option Component)
      (targets owned : List BuildTargetDescription) (ps : List Dependent)
      (repository : List BuildTargetDescription)
      → Ensures
          (AreOf (
            first_level
              (component_targets primary targets)
              owned
              (dependents_of primary ps)
              repository))
          (minimize_component_targets {E = E} is_blank owner primary
            (component_targets primary targets)
            owned
            ps
            repository)
  unfolding minimize_component_targets component_targets
  minimize_component_targets-AreOf owner none targets owned ps repository =
      minimize_owner_targets-AreOf owner none owned ps repository
  minimize_component_targets-AreOf owner (some c) targets owned ps repository =
      at (component_targets (some c) targets)
    where
      at :
          (ts : List BuildTargetDescription)
          → Ensures
              (AreOf (first_level ts owned (dependents_of (some c) ps) repository))
              (minimize_component_targets {E = E} is_blank owner (some c) ts owned ps repository)
      at [] = minimize_owner_targets-AreOf owner (some c) owned ps repository
      at (t ∷ ts) =
          instead_of-AreOf "component" c.id component_scoped_build component_build_target _ (t ∷ ts)
            repository

  -- What is returned are items for the targets of the first level that has any: the primary
  -- component's, the owner's, those of the primary component's dependents, the repository's. At the
  -- first two levels each repository target is excluded in favour of all kept ones; at the others
  -- nothing is excluded.
  pub minimize_build_targets-AreOf :
      (owner : OwnedNodeInfo) (primary : Option Component) (targets : List BuildTargetDescription)
      (dependents : List DependentComponent)
      → Ensures
          (AreOf (
            first_level
              (component_targets primary targets)
              (narrow_owner_targets owner primary targets)
              (dependents_of primary (deduped_targets targets dependents))
              (filter is_repository targets)))
          (minimize_build_targets {E = E} is_blank owner primary targets dependents)
  unfolding minimize_build_targets
  minimize_build_targets-AreOf owner primary targets dependents =
      minimize_component_targets-AreOf owner primary targets
        (narrow_owner_targets owner primary targets) (deduped_targets targets dependents)
        (filter is_repository targets)
