-- ===== src/Change/Surfaces.antt =====
-- core/minimum_verified_change_set_service.py: why a change set has no tests, or has only those of
-- dependent components, from `_availability_exclusions` to `_artifact_member_for_target`.
use Prim.Native.String
use code_suit.Base.{
  String, Bool, true, false, not, ◌&&◌, ◌||◌, Option, none, some, List, [], ◌∷◌, ◌++◌, ◌==◌, any,
  all, filter, take, ltb, string_eq, if◌then◌else◌,
}
use code_suit.Base.Result.{Result, ok, and_then}
use code_suit.Ids.{Python, with_slashes, remove_prefix, ends_with, is_under, before_last_slash}
use code_suit.Change.{
  RepositoryAction, Component, inclusion_reason_eq, Included, QualityOperation, ChangeError,
  raising, text,
}
use code_suit.Change.Minimize.{TestItem, text_or}
use code_suit.Change.Minimize.Builds.{BuildItem}
use code_suit.Change.Resolve.{Repository, ResolvedTarget, TargetKind, file_target, find_component}

-- What validates a change.
pub record Surfaces : Type 0 where
  pub tests : List TestItem
  pub build_targets : List BuildItem
  pub runner_actions : List (Included RepositoryAction)
  pub quality_validation_operations : List QualityOperation
  pub quality_hygiene_operations : List QualityOperation

-- `bool(items)`
abbrev pub has {ℓ} : {A : Type ℓ} → List A → Bool
has [] = false
has (_ ∷ _) = true

-- `resolved.evidence_path or resolved.owner.id`
abbrev pub target_descriptor : ResolvedTarget → String
target_descriptor target = text_or target.evidence_path target.owner.id

-- The first ten files, or the evidence path.
abbrev pub surface_paths : ResolvedTarget → List String
surface_paths target = elim target.relevant_files [
  | [] ↦ elim target.evidence_path [ none ↦ [] | some path ↦ path ∷ [] ]
  | f ∷ fs ↦ take 10 (f ∷ fs)
]

abbrev pub is_file : TargetKind → Bool
is_file k = elim k [ file_target ↦ true | _ ↦ false ]

-- `", ".join(labels)`
unfoldable pub joined : List String → String
unfolding text
joined [] = ""
joined (s ∷ []) = s
joined (s ∷ (t ∷ ts)) = text (s ∷ ", " ∷ joined (t ∷ ts) ∷ [])

abbrev pub remaining_surfaces : Surfaces → List String
remaining_surfaces s =
    (if has s.build_targets then "build" ∷ [] else [])
    ++ (if has s.runner_actions then "runner" ∷ [] else [])
    ++ (if has s.quality_validation_operations || has s.quality_hygiene_operations
        then "quality" ∷ []
        else [])

-- The end of the reason, for one, two or three surfaces that remain.
unfoldable pub only_surfaces : List String → String
unfolding text
only_surfaces [] = ""
only_surfaces (a ∷ []) = text (a ∷ " surface is the only deterministic validation available" ∷ [])
only_surfaces (a ∷ (b ∷ [])) =
    text (a ∷ " and " ∷ b ∷ " surfaces are the only deterministic validation available" ∷ [])
only_surfaces (a ∷ (b ∷ (c ∷ _))) =
    text (
      a ∷ ", " ∷ b ∷ ", and " ∷ c ∷ " surfaces are the only deterministic validation available"
      ∷ [])

-- The longest of the roots, the first among equals: `max(roots, key=len)`.
unfoldable pub longest : String → List String → String
longest best [] = best
longest best (r ∷ rs) = longest (if ltb (String.count best) (String.count r) then r else best) rs

module _ (py : Python) where
  -- `_is_frontend_source_path`
  unfoldable pub is_frontend_source_path : String → Bool
  unfolding with_slashes ends_with
  is_frontend_source_path path =
      let normalized = py.lower (with_slashes path) in
      any (λ suffix. ends_with suffix normalized)
        (".tsx" ∷ ".jsx" ∷ ".ts" ∷ ".js" ∷ ".mts" ∷ ".cts" ∷ ".mjs" ∷ ".cjs" ∷ [])

  -- `_is_frontend_build_primary_surface`
  unfoldable pub is_frontend_build_primary_surface : ResolvedTarget → Surfaces → Bool
  unfolding is_frontend_source_path string_eq
  is_frontend_build_primary_surface target s =
      has s.build_targets
      && not (has s.runner_actions)
      && all (λ i. i.target.provider_id == "npm") s.build_targets
      && all (λ o. o.provider_id == "npm") s.quality_validation_operations
      && all (λ o. o.provider_id == "npm") s.quality_hygiene_operations
      && has target.relevant_files
      && all is_frontend_source_path target.relevant_files

  unfoldable pub no_tests_reason : ResolvedTarget → Surfaces → String
  unfolding is_frontend_build_primary_surface only_surfaces text
  no_tests_reason target s =
      if is_frontend_build_primary_surface target s
      then text (
          "no finer deterministic frontend test target was discovered for this target; "
          ∷ "build is the primary deterministic frontend validation surface currently available"
          ∷ [])
      else text (
          "no deterministic test targets were discovered for this target; "
          ∷ only_surfaces (remaining_surfaces s)
          ∷ [])

  -- The directory of the artifact, below the root that holds it.
  unfoldable pub artifact_root : String → String → String
  unfolding before_last_slash string_eq
  artifact_root normalized root =
      if root == normalized
      then root
      else elim (before_last_slash normalized) [ none ↦ root | some directory ↦ directory ]

  unfoldable pub member_of : Component → String → Option (String × String)
  unfolding with_slashes remove_prefix is_under longest artifact_root
  member_of c path =
      let normalized = remove_prefix "./" (py.strip (with_slashes path)) in
      if any (λ root. is_under root normalized) c.source_roots
      then none
      else elim (filter (λ root. is_under root normalized) c.artifact_paths) [
        | [] ↦ none
        | r ∷ rs ↦ some (c.id, artifact_root normalized (longest r rs))
      ]

module _ {E : Type 0} (repository : Repository E) where
  -- The kinds of the artifacts that the files are, or none where a file is no artifact.
  unfoldable pub artifact_kinds : List String → List String → Result (ChangeError E) (List String)
  artifact_kinds kinds [] = ok kinds
  artifact_kinds kinds (f ∷ fs) =
      and_then (raising (repository.describe_structured_artifact f))
        λ kind. elim kind [ none ↦ ok [] | some k ↦ artifact_kinds (kinds ++ k ∷ []) fs ]

  -- `_structured_artifacts_for_target`
  abbrev pub structured_artifacts_for_target : ResolvedTarget → Result (ChangeError E) (List String)
  structured_artifacts_for_target target = artifact_kinds [] target.relevant_files

module _ {E : Type 0} (py : Python) (repository : Repository E) where
  -- `_artifact_member_for_target`: the component and the root of the artifact.
  unfoldable pub artifact_member_for_target :
      ResolvedTarget → Result (ChangeError E) (Option (String × String))
  unfolding string_eq find_component member_of
  artifact_member_for_target target =
      elim (if is_file target.target_kind then target.evidence_path else none) [
        | none ↦ ok none
        | some path ↦
            if not (target.owner.kind == "component")
            then ok none
            else and_then (raising repository.get_components) (λ cs.
              elim (find_component target.owner.id cs) [
                | none ↦ ok none
                | some c ↦ ok (member_of py c path)
              ])
      ]
