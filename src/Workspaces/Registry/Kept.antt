-- ===== src/Workspaces/Registry/Kept.antt =====
-- What every call keeps: the name of a workspace, and its repositories' ids.
use code_suit.Base.{
  String, Bool, true, false, none, List, [], ◌∷◌, ◌++◌, ◌≡◌, refl, nodup, nodup-append_one,
  string_eq, Option-cases, inl, inr, arith, if◌then◌else◌,
}
use code_suit.Base.Dict.{Dict, lookup, insert, values, AllRows, AllRows-insert, AllRows-erase}
use code_suit.Base.Result.{
  Result, Result-cases, ok, err, Ensures, Ensures-and_then, Ensures-nothing,
}
use code_suit.Workspaces.{
  Disk, WorkspaceError, Repository, Workspace, root_candidate, check_support, next_repository_id,
  attach_error, new_repository, repository_ids, add_repository, empty_workspace, new_workspace,
}
use code_suit.Workspaces.Fresh.{next_repository_id-fresh}
use code_suit.Workspaces.Registry.{
  WorkspaceRegistry, RegistryCall, open_call, attach_call, close_call, registry_call,
  registry_calls, new_registry, get_workspace, store_reopened, store_new, store_attached, reopen,
  open_new, open_workspace, attach_new, attach_repository, close_workspace, as_open, as_attached,
  OpenState,
}

-- The ids of the repositories are distinct.
abbrev pub IsWorkspace : String → Workspace → Type 0
IsWorkspace id w = (w.id ≡ id) × (nodup (repository_ids w.repositories_by_root) ≡ true)

-- Every workspace is stored under its id.
abbrev pub AreWorkspaces : WorkspaceRegistry → Type 0
AreWorkspaces s = AllRows IsWorkspace s.workspaces_by_id

values-insert_new :
    (k : String) (v : Repository) (d : Dict String Repository)
    → lookup k d ≡ none
    → repository_ids (insert k v d) ≡ repository_ids d ++ v.id ∷ []
unfolding lookup insert values
values-insert_new k v [] h = refl
values-insert_new k v ((j, w) ∷ d) h = ground (arith, values-insert_new k v d)

abbrev Named : String → Repository → Type 0
Named id r = r.id ≡ id

-- The repository has the id that was found for it.
new_repository-id :
    (disk : Disk) (path id : String) → Ensures (Named id) (new_repository disk path id)
unfolding new_repository
new_repository-id disk path id =
    Ensures-and_then (λ _. Unit {0}) (Named id) (root_candidate disk path) _
      (Ensures-nothing (root_candidate disk path))
      λ root _ _.
        Ensures-and_then (λ _. Unit {0}) (Named id) (check_support disk root) _
          (Ensures-nothing (check_support disk root)) (λ _ _ _. made root (disk.attaches root))
  where
    made :
        (root : String) (b : Bool)
        → Ensures (Named id) (if b then ok (record { id = id; root = root }) else err attach_error)
    made root true = refl
    made root false = tt

abbrev pub KeptWorkspace : String → Repository × Workspace → Type 0
KeptWorkspace id (r, w) = IsWorkspace id w

pub add_repository-IsWorkspace :
    (disk : Disk) (path id : String) (w : Workspace)
    → IsWorkspace id w
    → Ensures (KeptWorkspace id) (add_repository disk path w)
unfolding add_repository
add_repository-IsWorkspace disk path id w is =
    Ensures-and_then (λ _. Unit {0}) (KeptWorkspace id) (root_candidate disk path) _
      (Ensures-nothing (root_candidate disk path))
      λ root _ _.
        Ensures-and_then (λ _. Unit {0}) (KeptWorkspace id) (check_support disk root) _
          (Ensures-nothing (check_support disk root))
          λ _ _ _. elim (Option-cases (lookup root w.repositories_by_root)) [
            | inr (r, there) ↦ rw (there, Ensures) is
            | inl absent ↦
                elim (Option-cases
                  (next_repository_id disk (repository_ids w.repositories_by_root) root)) [
                    | inl endless ↦ rw (absent, endless, Ensures) tt
                    | inr (new, found) ↦
                        rw (absent, found, Ensures)
                          (Ensures-and_then (Named new) (KeptWorkspace id)
                            (new_repository disk root new) _ (new_repository-id disk root new)
                            λ r _ named. (
                              is.0,
                              rw (values-insert_new root r w.repositories_by_root absent, named)
                                  (nodup-append_one (repository_ids w.repositories_by_root) new is.1
                                    (next_repository_id-fresh disk
                                      (repository_ids w.repositories_by_root) root new found)),
                            ))
                  ]
          ]

new_workspace-IsWorkspace :
    (disk : Disk) (path : String)
    → Ensures (λ ((r, w) : Repository × Workspace). IsWorkspace w.id w) (new_workspace disk path)
unfolding new_workspace values
new_workspace-IsWorkspace disk path =
    Ensures-and_then (λ _. Unit {0}) _ (root_candidate disk path) _
      (Ensures-nothing (root_candidate disk path))
      λ root _ _.
        Ensures-and_then (λ _. Unit {0}) _ (check_support disk root) _
          (Ensures-nothing (check_support disk root))
          λ _ _ _. under _ (add_repository disk path (empty_workspace disk root)) (
            add_repository-IsWorkspace disk path (empty_workspace disk root).id
              (empty_workspace disk root) (refl, refl))
  where
    under :
        (id : String) (out : Result WorkspaceError (Repository × Workspace))
        → Ensures (KeptWorkspace id) out
        → Ensures (λ ((r, w) : Repository × Workspace). IsWorkspace w.id w) out
    under id (err e) h = tt
    under id (ok (r, w)) h = (refl, h.1)

reopen-AreWorkspaces :
    (disk : Disk) (id root : String) (s : WorkspaceRegistry)
    → AreWorkspaces s
    → AreWorkspaces (reopen disk id root s).1
unfolding reopen
reopen-AreWorkspaces disk id root s h = elim (Option-cases (lookup id s.workspaces_by_id)) [
  | inl missing ↦ rw (missing, reopen) h
  | inr (w, found) ↦
      rw (found, reopen)
        (after (add_repository disk root w)
          (add_repository-IsWorkspace disk root id w (h id w found)))
]
  where
    after :
        (out : Result WorkspaceError (Repository × Workspace))
        → Ensures (KeptWorkspace id) out
        → AreWorkspaces (store_reopened id s out).1
    after (err e) k = h
    after (ok (r, w)) k = AllRows-insert IsWorkspace id w s.workspaces_by_id k h

attach_new-AreWorkspaces :
    (disk : Disk) (root id : String) (w : Workspace) (s : WorkspaceRegistry)
    → IsWorkspace id w
    → AreWorkspaces s
    → AreWorkspaces (attach_new disk root id w s).1
unfolding attach_new
attach_new-AreWorkspaces disk root id w s is h =
    after (add_repository disk root w) (add_repository-IsWorkspace disk root id w is)
  where
    after :
        (out : Result WorkspaceError (Repository × Workspace))
        → Ensures (KeptWorkspace id) out
        → AreWorkspaces (store_attached id s out).1
    after (err e) k = h
    after (ok (r, w')) k = AllRows-insert IsWorkspace id w' s.workspaces_by_id k h

open_new-AreWorkspaces :
    (disk : Disk) (root : String) (s : WorkspaceRegistry)
    → AreWorkspaces s
    → AreWorkspaces (open_new disk root s).1
unfolding open_new
open_new-AreWorkspaces disk root s h =
    after (new_workspace disk root) (new_workspace-IsWorkspace disk root)
  where
    after :
        (out : Result WorkspaceError (Repository × Workspace))
        → Ensures (λ ((r, w) : Repository × Workspace). IsWorkspace w.id w) out
        → AreWorkspaces (store_new s out).1
    after (err e) k = h
    after (ok (r, w)) k = AllRows-insert IsWorkspace w.id w s.workspaces_by_id k h

pub as_open-registry :
    (out : Result WorkspaceError (Repository × Workspace) × WorkspaceRegistry) (id : String)
    → (as_open out id).1 ≡ out.1
as_open-registry (err e, s) id = refl
as_open-registry (ok (r, w), s) id = refl

pub as_attached-registry :
    (id : String) (out : Result WorkspaceError OpenState × WorkspaceRegistry)
    → (as_attached id out).1 ≡ out.1
as_attached-registry id (err e, s) = refl
as_attached-registry id (ok o, s) = elim (Option-cases (lookup id s.workspaces_by_id)) [
  | inl missing ↦ rw (missing, as_attached) refl
  | inr (w, found) ↦ rw (found, as_attached) refl
]

pub open_workspace-AreWorkspaces :
    (disk : Disk) (path : String) (s : WorkspaceRegistry)
    → AreWorkspaces s
    → AreWorkspaces (open_workspace disk path s).1
unfolding open_workspace
open_workspace-AreWorkspaces disk path s h = elim (Result-cases (root_candidate disk path)) [
  | inl (e, failed) ↦ rw (failed, open_workspace) h
  | inr (root, found) ↦ elim (Option-cases (lookup root s.workspace_ids_by_root)) [
    | inl new ↦ rw (found, new, open_workspace) (open_new-AreWorkspaces disk root s h)
    | inr (id, old) ↦
        rw (found, old, open_workspace, as_open-registry (reopen disk id root s) id)
          (reopen-AreWorkspaces disk id root s h)
  ]
]

pub attach_repository-AreWorkspaces :
    (disk : Disk) (id path : String) (s : WorkspaceRegistry)
    → AreWorkspaces s
    → AreWorkspaces (attach_repository disk id path s).1
unfolding attach_repository get_workspace
attach_repository-AreWorkspaces disk id path s h = elim (Result-cases (root_candidate disk path)) [
  | inl (e, failed) ↦ rw (failed, attach_repository) h
  | inr (root, found) ↦ elim (Option-cases (lookup id s.workspaces_by_id)) [
    | inl unknown ↦ rw (found, unknown, attach_repository) h
    | inr (w, known) ↦ elim (Option-cases (lookup root s.workspace_ids_by_root)) [
      | inl new ↦
          rw (found, known, new, attach_repository)
            (attach_new-AreWorkspaces disk root id w s (h id w known) h)
      | inr (owner, old) ↦
          rw
            (
              found,
              known,
              old,
              attach_repository,
              as_attached-registry id (as_open (reopen disk owner root s) owner),
              as_open-registry (reopen disk owner root s) owner,
            )
            (reopen-AreWorkspaces disk owner root s h)
    ]
  ]
]

close_workspace-AreWorkspaces :
    (id : String) (s : WorkspaceRegistry) → AreWorkspaces s → AreWorkspaces (close_workspace id s).1
unfolding close_workspace
close_workspace-AreWorkspaces id s h = elim (Option-cases (lookup id s.workspaces_by_id)) [
  | inl unknown ↦ rw (unknown, close_workspace) h
  | inr (w, known) ↦ rw (known, close_workspace) (AllRows-erase IsWorkspace id s.workspaces_by_id h)
]

registry_calls_keep :
    (cs : List RegistryCall) (s : WorkspaceRegistry)
    → AreWorkspaces s
    → AreWorkspaces (registry_calls cs s)
unfolding registry_calls registry_call
registry_calls_keep [] s h = h
registry_calls_keep (open_call disk path ∷ cs) s h =
    registry_calls_keep cs _ (open_workspace-AreWorkspaces disk path s h)
registry_calls_keep (attach_call disk id path ∷ cs) s h =
    registry_calls_keep cs _ (attach_repository-AreWorkspaces disk id path s h)
registry_calls_keep (close_call id ∷ cs) s h =
    registry_calls_keep cs _ (close_workspace-AreWorkspaces id s h)

-- After any calls on a new registry, on whatever the file system was at each of them, every
-- workspace is stored under its id, and the ids of its repositories are distinct.
pub registry_calls-AreWorkspaces :
    (cs : List RegistryCall) → AreWorkspaces (registry_calls cs new_registry)
unfolding lookup
registry_calls-AreWorkspaces cs = registry_calls_keep cs new_registry (λ id w found. absurd cc)
