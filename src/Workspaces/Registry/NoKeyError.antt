-- ===== src/Workspaces/Registry/NoKeyError.antt =====
-- While no workspace is closed, opening a path raises no KeyError.
use code_suit.Base.{
  String, Bool, true, false, Option, some, List, [], ◌∷◌, if◌then◌else◌, ◌≡◌, ◌≢◌, string_eq,
  Option-cases, Bool-cases, inl, inr,
}
use code_suit.Base.Dict.{lookup}
use code_suit.Base.Result.{Result, Result-cases, ok, err, and_then}
use code_suit.Workspaces.{
  Disk, DetectionError, value_error, os_error, file_system_error, first_supported, probe_ancestors,
  is_boundary, WorkspaceError, key_error, Repository, Workspace, root_candidate, check_support,
  next_repository_id, new_repository, repository_ids, add_repository, empty_workspace,
  new_workspace,
}
use code_suit.Workspaces.Registry.{
  WorkspaceRegistry, RegistryCall, registry_calls, new_registry, store_reopened, store_new, reopen,
  open_new, open_workspace, as_open,
}
use code_suit.Workspaces.Registry.Led.{IsLed, closes_nothing, registry_calls-IsLed}

abbrev pub NoKeyError : {A : Type 0} → Result WorkspaceError A → Type 0
NoKeyError (ok a) = Unit
NoKeyError (err e) = e ≢ key_error

NoKeyError-and_then :
    {A B : Type 0} (m : Result WorkspaceError A) (f : A → Result WorkspaceError B)
    → NoKeyError m
    → ((a : A) → NoKeyError (f a))
    → NoKeyError (and_then m f)
NoKeyError-and_then (ok a) f h k = k a
NoKeyError-and_then (err e) f h k = h

first_supported-NoKeyError : (disk : Disk) (ps : List String) → NoKeyError (first_supported disk ps)
unfolding first_supported
first_supported-NoKeyError disk [] = tt
first_supported-NoKeyError disk (p ∷ ps) =
    answered (disk.supported p) (first_supported disk ps) (first_supported-NoKeyError disk ps)
  where
    answered :
        (answer : Result DetectionError Bool) (later : Result WorkspaceError (Option String))
        → NoKeyError later
        → NoKeyError (elim answer as (λ _. Result WorkspaceError (Option String)) [
          | ok b ↦ if b then ok (some p) else later
          | err value_error ↦ later
          | err os_error ↦ err file_system_error
        ])
    answered (ok true) later h = tt
    answered (ok false) later h = h
    answered (err value_error) later h = h
    answered (err os_error) later h = λ x. cc

root_candidate-NoKeyError : (disk : Disk) (path : String) → NoKeyError (root_candidate disk path)
unfolding root_candidate
root_candidate-NoKeyError disk path = elim (Bool-cases (disk.exists (disk.resolve path))) [
  | inr missing ↦ rw (missing, NoKeyError) (λ x. cc)
  | inl there ↦ elim (Bool-cases (disk.is_dir (disk.resolve path))) [
    | inr file ↦ rw (there, file, NoKeyError) (λ x. cc)
    | inl directory ↦
        let path' = disk.resolve path in
        rw (there, directory)
          (NoKeyError-and_then
            (first_supported disk (probe_ancestors (is_boundary disk) (path' ∷ disk.parents path')))
            _ (first_supported-NoKeyError disk _) (λ supported. tt))
  ]
]

check_support-NoKeyError : (disk : Disk) (path : String) → NoKeyError (check_support disk path)
unfolding check_support
check_support-NoKeyError disk path =
    NoKeyError-and_then (root_candidate disk path) _ (root_candidate-NoKeyError disk path) λ root.
      elim (Result-cases (disk.supported root)) [
        | inl (value_error, raises) ↦ rw (raises, NoKeyError) (λ x. cc)
        | inl (os_error, raises) ↦ rw (raises, NoKeyError) (λ x. cc)
        | inr (b, found) ↦ elim (Bool-cases b) [
          | inl yes_it_is ↦ rw (found, yes_it_is, NoKeyError) tt
          | inr it_is_not ↦ rw (found, it_is_not, NoKeyError) (λ x. cc)
        ]
      ]

new_repository-NoKeyError :
    (disk : Disk) (path id : String) → NoKeyError (new_repository disk path id)
unfolding new_repository
new_repository-NoKeyError disk path id =
    NoKeyError-and_then (root_candidate disk path) _ (root_candidate-NoKeyError disk path) λ root.
      NoKeyError-and_then (check_support disk root) _ (check_support-NoKeyError disk root) λ _.
        elim (Bool-cases (disk.attaches root)) [
          | inl attaches ↦ rw (attaches, NoKeyError) tt
          | inr fails ↦ rw (fails, NoKeyError) (λ x. cc)
        ]

add_repository-NoKeyError :
    (disk : Disk) (path : String) (w : Workspace) → NoKeyError (add_repository disk path w)
unfolding add_repository
add_repository-NoKeyError disk path w =
    NoKeyError-and_then (root_candidate disk path) _ (root_candidate-NoKeyError disk path) λ root.
      NoKeyError-and_then (check_support disk root) _ (check_support-NoKeyError disk root) λ _.
        elim (Option-cases (lookup root w.repositories_by_root)) [
          | inr (r, there) ↦ rw (there, NoKeyError) tt
          | inl absent ↦
              elim (Option-cases
                (next_repository_id disk (repository_ids w.repositories_by_root) root)) [
                  | inl endless ↦ rw (absent, endless, NoKeyError) (λ x. cc)
                  | inr (id, found) ↦
                      rw (absent, found, NoKeyError)
                        (NoKeyError-and_then (new_repository disk root id) _
                          (new_repository-NoKeyError disk root id) (λ r. tt))
                ]
        ]

new_workspace-NoKeyError : (disk : Disk) (path : String) → NoKeyError (new_workspace disk path)
unfolding new_workspace
new_workspace-NoKeyError disk path =
    NoKeyError-and_then (root_candidate disk path) _ (root_candidate-NoKeyError disk path) λ root.
      NoKeyError-and_then (check_support disk root) _ (check_support-NoKeyError disk root)
        λ _. add_repository-NoKeyError disk path (empty_workspace disk root)

reopened-NoKeyError :
    (s : WorkspaceRegistry) (id : String) (out : Result WorkspaceError (Repository × Workspace))
    → NoKeyError out
    → NoKeyError (as_open (store_reopened id s out) id).0
reopened-NoKeyError s id (err e) h = h
reopened-NoKeyError s id (ok (r, w)) h = tt

new-NoKeyError :
    (s : WorkspaceRegistry) (out : Result WorkspaceError (Repository × Workspace))
    → NoKeyError out
    → NoKeyError (store_new s out).0
new-NoKeyError s (err e) h = h
new-NoKeyError s (ok (r, w)) h = tt

open_led :
    (disk : Disk) (path : String) (s : WorkspaceRegistry)
    → IsLed s
    → NoKeyError (open_workspace disk path s).0
unfolding open_workspace open_new reopen
open_led disk path s h = elim (Result-cases (root_candidate disk path)) [
  | inl (e, failed) ↦
      let why : NoKeyError (root_candidate disk path) = root_candidate-NoKeyError disk path in
      rw (failed, open_workspace) (rw (failed, NoKeyError) at why)
  | inr (root, found) ↦ elim (Option-cases (lookup root s.workspace_ids_by_root)) [
    | inl new ↦
        rw (found, new, open_workspace)
          (new-NoKeyError s (new_workspace disk root) (new_workspace-NoKeyError disk root))
    | inr (id, old) ↦ elim (Option-cases (lookup id s.workspaces_by_id)) [
      | inl missing ↦ absurd (cc (h root id old, missing))
      | inr (w, known) ↦
          rw (found, old, open_workspace, reopen, known)
            (reopened-NoKeyError s id (add_repository disk root w)
              (add_repository-NoKeyError disk root w))
    ]
  ]
]

-- After calls that close no workspace, opening a path returns or raises an error, but not a missing
-- key, whatever the file system is then.
pub open_workspace-NoKeyError :
    (cs : List RegistryCall) (disk : Disk) (path : String)
    → closes_nothing cs ≡ true
    → NoKeyError (open_workspace disk path (registry_calls cs new_registry)).0
unfolding lookup
open_workspace-NoKeyError cs disk path h =
    open_led disk path (registry_calls cs new_registry) (
      registry_calls-IsLed cs new_registry h (λ id w found. absurd cc) (λ root id found. absurd cc))
