-- ===== src/Change/Plan/Explained.antt =====
-- A change set that is returned says why it has no tests.
use code_suit.Base.{
  String, Bool, true, false, not, ◌||◌, Option, none, some, List, [], ◌∷◌, ◌++◌, ◌≡◌, refl, ◌==◌,
  any, length, string_eq, Bool-cases, inl, inr, ◌⊎◌, arith, if◌then◌else◌, is_some,
}
use code_suit.Base.Result.{Result, ok, err, and_then, Ensures, Ensures-and_then, Ensures-nothing}
use code_suit.Ids.{Python, is_blank}
use code_suit.Provenance.{ProvenanceEntry, ownership, document}
use code_suit.Change.{
  ItemKind, ExclusionReason, no_deterministic_test_targets_available,
  no_deterministic_validation_surface_for_artifact_member,
  no_deterministic_validation_surfaces_for_provider_owned_artifact, validation_surface, test_target,
  RepositoryAction, OwnedNodeInfo, Included, Excluded, ChangeError, raising,
}
use code_suit.Change.Evidence.{exclusion, no_entries, runner_item}
use code_suit.Change.Evidence.Items.{Excludes, exclusion-Excludes}
use code_suit.Change.Quality.{derived_summary_provenance, alone}
use code_suit.Change.Minimize.{runner_items}
use code_suit.Change.Resolve.{Repository, ResolvedTarget, ChangeTarget, resolve_target}
use code_suit.Change.Surfaces.{
  Surfaces, has, surface_paths, remaining_surfaces, structured_artifacts_for_target,
  artifact_member_for_target,
}
use code_suit.Change.Explain.{
  explained, explain_artifact_member, explain_structured, no_tests_exclusion, explain_no_tests,
  explain_kinds, availability_exclusions, shared_file_surface_explanations,
}
use code_suit.Change.Plan.{
  ChangeSet, Validations, has_surface, change_set, overall_provenance,
  validate_non_empty_change_set, validations, runner_surface, quality_surface, surfaces_of,
  concluded, dependents_unless, get_minimum_verified_change_set,
}

-- The reasons for which a target has no tests.
abbrev pub is_availability : Excluded → Bool
is_availability x = elim x.reason_code [
  | no_deterministic_test_targets_available ↦ true
  | no_deterministic_validation_surface_for_artifact_member ↦ true
  | no_deterministic_validation_surfaces_for_provider_owned_artifact ↦ true
  | _ ↦ false
]

abbrev code_of : ExclusionReason → Bool
code_of r = elim r [
  | no_deterministic_test_targets_available ↦ true
  | no_deterministic_validation_surface_for_artifact_member ↦ true
  | no_deterministic_validation_surfaces_for_provider_owned_artifact ↦ true
  | _ ↦ false
]

any-append-right :
    (xs ys : List Excluded) → any is_availability ys ≡ true → any is_availability (xs ++ ys) ≡ true
any-append-right [] ys h = h
any-append-right (x ∷ xs) ys h = ground (arith, any-append-right xs ys h)

-- Without tests: an explanation, or nothing at all.
abbrev Explains : Surfaces → List Excluded → Type 0
Explains s xs =
    has s.tests ≡ false
    → (any is_availability xs ≡ true) ⊎ ((has xs ≡ false) × (has_surface s ≡ false))

pub record IsExplained (s : Surfaces) (target : ResolvedTarget) (c : ChangeSet) : Type 0 where
  pub same_surfaces : c.surfaces ≡ s
  pub same_target : c.target ≡ target
  pub explained : has s.tests ≡ false → any is_availability c.excluded_items ≡ true
  pub has_provenance : no_entries c.provenance ≡ false

nothing_remains :
    (s : Surfaces)
    → has s.tests ≡ false
    → (has s.tests || not (has (remaining_surfaces s))) ≡ true
    → has_surface s ≡ false
nothing_remains s h k = ground arith

explained_when :
    (s : Surfaces) (xs : List Excluded)
    → Explains s xs
    → (has_surface s || has xs) ≡ true
    → has s.tests ≡ false
    → any is_availability xs ≡ true
explained_when s xs why enough h = at (why h)
  where
    at :
        (any is_availability xs ≡ true) ⊎ ((has xs ≡ false) × (has_surface s ≡ false))
        → any is_availability xs ≡ true
    at (inl e) = e
    at (inr (empty, nothing)) = absurd (ground arith)

module _ (E : Type 0) (py : Python) where
  explained-is_availability :
      (kind : ItemKind) (id : String) (code : ExclusionReason) (reason : String)
      (provenance : Result (ChangeError E) (List ProvenanceEntry))
      → code_of code ≡ true
      → Ensures
          (λ xs. any is_availability xs ≡ true)
          (explained {E = E} py kind id code reason provenance)
  unfolding explained
  explained-is_availability kind id code reason provenance h =
      Ensures-and_then (λ _. Unit {0}) (λ xs. any is_availability xs ≡ true) provenance _
        (Ensures-nothing provenance)
        λ ps _ _.
          Ensures-and_then (Excludes (is_blank py) id code []) (λ xs. any is_availability xs ≡ true)
            (exclusion (is_blank py) kind id code reason [] ps) _
            (exclusion-Excludes E (is_blank py) kind id code reason [] ps)
            (λ x _ e. rw (e.reason_code, h) refl)

  one-Explains :
      (s : Surfaces) (out : Result (ChangeError E) (List Excluded))
      → Ensures (λ xs. any is_availability xs ≡ true) out
      → Ensures (Explains s) out
  one-Explains s (ok xs) h = λ _. inl h
  one-Explains s (err e) h = tt

  no_tests_exclusion-is_availability :
      (target : ResolvedTarget) (s : Surfaces)
      → Ensures (λ xs. any is_availability xs ≡ true) (no_tests_exclusion {E = E} py target s)
  unfolding no_tests_exclusion
  no_tests_exclusion-is_availability target s =
      explained-is_availability test_target _ no_deterministic_test_targets_available _
        (alone (
          derived_summary_provenance py ownership none
            "absence of deterministic test targets established from provider-owned validation surfaces"
            (surface_paths target)))
        refl

  explain_structured-is_availability :
      (target : ResolvedTarget) (kinds : List String)
      → Ensures (λ xs. any is_availability xs ≡ true) (explain_structured {E = E} py target kinds)
  unfolding explain_structured
  explain_structured-is_availability target kinds =
      explained-is_availability validation_surface _
        no_deterministic_validation_surfaces_for_provider_owned_artifact _
        (alone (
          derived_summary_provenance py document (some "structured_artifact")
            "provider-owned structured artifact target has no deterministic validation surface"
            (surface_paths target)))
        refl

  explain_artifact_member-is_availability :
      (target : ResolvedTarget) (member : String × String)
      → Ensures
          (λ xs. any is_availability xs ≡ true)
          (explain_artifact_member {E = E} py target member)
  unfolding explain_artifact_member
  explain_artifact_member-is_availability target (id, root) =
      explained-is_availability validation_surface _
        no_deterministic_validation_surface_for_artifact_member _
        (alone (
          derived_summary_provenance py ownership none
            "explicit artifact member target has no inherited deterministic source validation surface"
            (surface_paths target)))
        refl

  explain_no_tests-Explains :
      (target : ResolvedTarget) (s : Surfaces)
      → Ensures (Explains s) (explain_no_tests {E = E} py target s)
  unfolding explain_no_tests
  explain_no_tests-Explains target s =
      elim (Bool-cases (has s.tests || not (has (remaining_surfaces s)))) [
        | inl nothing ↦
            rw (nothing, Ensures) (λ no_tests. inr (refl, nothing_remains s no_tests nothing))
        | inr missing ↦ rw missing (
            one-Explains s (no_tests_exclusion py target s)
              (no_tests_exclusion-is_availability target s))
      ]

  availability_exclusions-Explains :
      (repository : Repository E) (target : ResolvedTarget) (member : Option (String × String))
      (s : Surfaces)
      → Ensures (Explains s) (availability_exclusions py repository target member s)
  unfolding availability_exclusions
  availability_exclusions-Explains repository target (some member) s =
      one-Explains s (explain_artifact_member py target member)
        (explain_artifact_member-is_availability target member)
  availability_exclusions-Explains repository target none s =
      Ensures-and_then (λ _. Unit {0}) (Explains s)
        (structured_artifacts_for_target repository target) (explain_kinds py target s)
        (Ensures-nothing (structured_artifacts_for_target repository target))
        (λ kinds _ _. of_kinds kinds)
    where
      of_kinds :
          (kinds : List String) → Ensures (Explains s) (explain_kinds {E = E} py target s kinds)
      of_kinds [] = explain_no_tests-Explains target s
      of_kinds (k ∷ ks) =
          one-Explains s (explain_structured py target (k ∷ ks))
            (explain_structured-is_availability target (k ∷ ks))

  -- The last step of the service.
  concluded-IsExplained :
      (repository : Repository E) (target : ResolvedTarget) (member : Option (String × String))
      (v : Validations) (s : Surfaces)
      → Ensures (IsExplained s target) (concluded py repository target member v s)
  unfolding concluded validate_non_empty_change_set change_set
  concluded-IsExplained repository target member v s =
      Ensures-and_then (Explains s) (IsExplained s target)
        (availability_exclusions py repository target member s) _
        (availability_exclusions-Explains repository target member s)
        λ availability _ why.
          Ensures-and_then (λ _. Unit {0}) (IsExplained s target)
            (shared_file_surface_explanations py target s) _
            (Ensures-nothing (shared_file_surface_explanations py target s))
            λ breadth _ _.
              let excluded : List Excluded =
                v.test_exclusions ++ v.dependent_test_exclusions ++ v.build_exclusions ++ breadth
                ++ availability in
              Ensures-and_then (λ _. Unit {0}) (IsExplained s target)
                (overall_provenance py s (has excluded)) _
                (Ensures-nothing (overall_provenance py s (has excluded)))
                λ provenance _ _. elim (Bool-cases (has_surface s || has availability)) [
                  | inr empty ↦ rw (empty, Ensures) tt
                  | inl enough ↦ rw enough (
                      checked
                        (record {
                          target = target;
                          surfaces = s;
                          excluded_items = excluded;
                          provenance = provenance;
                        })
                        (λ none_there.
                          any-append-right
                            (v.test_exclusions ++ v.dependent_test_exclusions ++ v.build_exclusions
                              ++ breadth)
                            availability (explained_when s availability why enough none_there)))
                ]
    where
      checked :
          (c : ChangeSet)
          → (has c.surfaces.tests ≡ false → any is_availability c.excluded_items ≡ true)
          → Ensures (IsExplained c.surfaces c.target) (change_set {E = E} c)
      checked c because =
          elim (Bool-cases
            (no_entries c.provenance || not (has_surface c.surfaces || has c.excluded_items))) [
              | inl bad ↦ rw (bad, Ensures) tt
              | inr good ↦
                  rw (good, Ensures)
                    (record {
                      same_surfaces = refl;
                      same_target = refl;
                      explained = because;
                      has_provenance = ground arith;
                    })
            ]

  -- A runner has exactly one action, other owners none.
  abbrev RunsOnce : ResolvedTarget → List (Included RepositoryAction) → Type 0
  RunsOnce target rs = length rs ≡ (if target.owner.kind == "runner" then 1 else 0)

  runner_items-one :
      (owner : OwnedNodeInfo) (actions : List RepositoryAction)
      → Ensures (λ rs. length rs ≡ 1) (runner_items {E = E} (is_blank py) owner actions)
  unfolding runner_items
  runner_items-one owner [] = tt
  runner_items-one owner (a ∷ []) =
      Ensures-and_then (λ _. Unit {0}) (λ rs. length rs ≡ 1) (runner_item (is_blank py) owner.id a)
        _ (Ensures-nothing (runner_item (is_blank py) owner.id a)) (λ item _ _. refl)
  runner_items-one owner (a ∷ (b ∷ rest)) = tt

  runner_surface-RunsOnce :
      (repository : Repository E) (target : ResolvedTarget)
      → Ensures (RunsOnce target) (runner_surface py repository target)
  unfolding runner_surface
  runner_surface-RunsOnce repository target = at (target.owner.kind == "runner")
    where
      at :
          (runs : Bool)
          → Ensures
              (λ rs. length rs ≡ (if runs then 1 else 0))
              (if runs
                then and_then
                    (raising (repository.list_runner_actions target.owner.id))
                    (runner_items (is_blank py) target.owner)
                else ok [])
      at true =
          Ensures-and_then (λ _. Unit {0}) (λ rs. length rs ≡ 1)
            (raising (repository.list_runner_actions target.owner.id)) _
            (Ensures-nothing (raising (repository.list_runner_actions target.owner.id)))
            (λ actions _ _. runner_items-one target.owner actions)
      at false = refl

-- What holds of a change set that is returned.
pub record IsReturned (c : ChangeSet) : Type 0 where
  pub explained : has c.surfaces.tests ≡ false → any is_availability c.excluded_items ≡ true
  pub has_provenance : no_entries c.provenance ≡ false
  pub one_runner :
      length c.surfaces.runner_actions ≡ (if c.target.owner.kind == "runner" then 1 else 0)

-- A change set that is returned has provenance; without tests, one of its excluded items says why
-- there are none; and it has exactly one runner action where the owner is a runner, otherwise none.
pub get_minimum_verified_change_set-IsReturned :
    (E : Type 0) (py : Python) (repository : Repository E) (asked : ChangeTarget)
    → Ensures IsReturned (get_minimum_verified_change_set py repository asked)
unfolding get_minimum_verified_change_set
get_minimum_verified_change_set-IsReturned E py repository asked =
    nothing_about (resolve_target repository asked) _ λ target.
      nothing_about (artifact_member_for_target py repository target) _ λ member.
        nothing_about (structured_artifacts_for_target repository target) _ λ kinds.
          nothing_about (dependents_unless py repository (has kinds || is_some member) target) _
            λ dependents. nothing_about (validations py repository target member dependents) _ λ v.
              Ensures-and_then (RunsOnce E py target) IsReturned
                (runner_surface py repository target) _
                (runner_surface-RunsOnce E py repository target)
                λ runners _ once.
                  nothing_about (quality_surface py repository target member) _ λ operations.
                    returned target (surfaces_of py repository v runners operations) once
                      (concluded py repository target member v
                        (surfaces_of py repository v runners operations))
                      (concluded-IsExplained E py repository target member v
                        (surfaces_of py repository v runners operations))
  where
    nothing_about :
        {A : Type 0} (m : Result (ChangeError E) A) (f : A → Result (ChangeError E) ChangeSet)
        → ((a : A) → Ensures IsReturned (f a))
        → Ensures IsReturned (and_then m f)
    nothing_about (ok a) f h = h a
    nothing_about (err e) f h = tt

    returned :
        (target : ResolvedTarget) (s : Surfaces)
        → RunsOnce E py target s.runner_actions
        → (out : Result (ChangeError E) ChangeSet) → Ensures (IsExplained s target) out
        → Ensures IsReturned out
    returned target s once (err e) h = tt
    returned target s once (ok c) h = record {
      explained = rw (h.same_surfaces) h.explained;
      has_provenance = h.has_provenance;
      one_runner = rw (h.same_surfaces, h.same_target) once;
    }
