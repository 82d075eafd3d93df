-- ===== src/Workspaces/Registry/Led.antt =====
-- While no workspace is closed, every root leads to an open workspace.
use code_suit.Base.{
  String, Bool, true, false, List, [], ◌∷◌, ◌≡◌, sym, subst, is_some, string_eq, ==-refl,
  Option-cases, inl, inr, arith,
}
use code_suit.Base.Dict.{Dict, lookup, insert, values, lookup-insert, AllRows, AllRows-insert}
use code_suit.Base.Result.{Result, Result-cases, ok, err, Ensures}
use code_suit.Workspaces.{
  Disk, WorkspaceError, Repository, Workspace, root_candidate, add_repository, new_workspace,
}
use code_suit.Workspaces.Registry.{
  WorkspaceRegistry, RegistryCall, open_call, attach_call, close_call, registry_call,
  registry_calls, register_roots, store_reopened, store_new, store_attached, reopen, open_new,
  open_workspace, attach_new, attach_repository, get_workspace, as_open,
}
use code_suit.Workspaces.Registry.Kept.{
  IsWorkspace, KeptWorkspace, AreWorkspaces, add_repository-IsWorkspace,
  open_workspace-AreWorkspaces, attach_repository-AreWorkspaces, as_open-registry,
  as_attached-registry,
}

abbrev IsThere : Dict String Workspace → String → String → Type 0
IsThere workspaces root id = is_some (lookup id workspaces) ≡ true

abbrev pub IsLed : WorkspaceRegistry → Type 0
IsLed s = AllRows (IsThere s.workspaces_by_id) s.workspace_ids_by_root

IsLed-insert :
    (id : String) (w : Workspace) (d : Dict String Workspace) (roots : Dict String String)
    → AllRows (IsThere d) roots
    → AllRows (IsThere (insert id w d)) roots
IsLed-insert id w d roots h root j found =
    let old = h root j found in ground (arith, lookup-insert j id w d)

there_after-insert :
    (id : String) (w : Workspace) (d : Dict String Workspace)
    → is_some (lookup id (insert id w d)) ≡ true
there_after-insert id w d = ground (arith, lookup-insert id id w d, ==-refl id)

IsLed-register_roots :
    (id : String) (rs : List Repository) (d : Dict String Workspace) (roots : Dict String String)
    → is_some (lookup id d) ≡ true
    → AllRows (IsThere d) roots
    → AllRows (IsThere d) (register_roots id rs roots)
unfolding register_roots
IsLed-register_roots id [] d roots there h = h
IsLed-register_roots id (r ∷ rs) d roots there h =
    IsLed-register_roots id rs d (insert r.root id roots) there
      (AllRows-insert (IsThere d) r.root id roots there h)

reopen-IsLed :
    (disk : Disk) (id root : String) (s : WorkspaceRegistry)
    → IsLed s
    → IsLed (reopen disk id root s).1
unfolding reopen
reopen-IsLed disk id root s h = elim (Option-cases (lookup id s.workspaces_by_id)) [
  | inl missing ↦ rw (missing, reopen) h
  | inr (w, found) ↦ rw (found, reopen) (after (add_repository disk root w))
]
  where
    after :
        (out : Result WorkspaceError (Repository × Workspace)) → IsLed (store_reopened id s out).1
    after (err e) = h
    after (ok (r, w)) = IsLed-insert id w s.workspaces_by_id s.workspace_ids_by_root h

open_new-IsLed :
    (disk : Disk) (root : String) (s : WorkspaceRegistry) → IsLed s → IsLed (open_new disk root s).1
unfolding open_new
open_new-IsLed disk root s h = after (new_workspace disk root)
  where
    after : (out : Result WorkspaceError (Repository × Workspace)) → IsLed (store_new s out).1
    after (err e) = h
    after (ok (r, w)) =
        IsLed-register_roots w.id (values w.repositories_by_root) (insert w.id w s.workspaces_by_id)
          s.workspace_ids_by_root (there_after-insert w.id w s.workspaces_by_id)
          (IsLed-insert w.id w s.workspaces_by_id s.workspace_ids_by_root h)

attach_new-IsLed :
    (disk : Disk) (root id : String) (w : Workspace) (s : WorkspaceRegistry)
    → IsWorkspace id w
    → IsLed s
    → IsLed (attach_new disk root id w s).1
unfolding attach_new
attach_new-IsLed disk root id w s is h =
    after (add_repository disk root w) (add_repository-IsWorkspace disk root id w is)
  where
    after :
        (out : Result WorkspaceError (Repository × Workspace))
        → Ensures (KeptWorkspace id) out
        → IsLed (store_attached id s out).1
    after (err e) k = h
    after (ok (r, w')) k =
        AllRows-insert (IsThere (insert id w' s.workspaces_by_id)) r.root w'.id
          s.workspace_ids_by_root
          (subst (λ j. is_some (lookup j (insert id w' s.workspaces_by_id)) ≡ true) (sym k.0)
            (there_after-insert id w' s.workspaces_by_id))
          (IsLed-insert id w' s.workspaces_by_id s.workspace_ids_by_root h)

open_workspace-IsLed :
    (disk : Disk) (path : String) (s : WorkspaceRegistry)
    → IsLed s
    → IsLed (open_workspace disk path s).1
unfolding open_workspace
open_workspace-IsLed disk path s h = elim (Result-cases (root_candidate disk path)) [
  | inl (e, failed) ↦ rw (failed, open_workspace) h
  | inr (root, found) ↦ elim (Option-cases (lookup root s.workspace_ids_by_root)) [
    | inl new ↦ rw (found, new, open_workspace) (open_new-IsLed disk root s h)
    | inr (id, old) ↦
        rw (found, old, open_workspace, as_open-registry (reopen disk id root s) id)
          (reopen-IsLed disk id root s h)
  ]
]

attach_repository-IsLed :
    (disk : Disk) (id path : String) (s : WorkspaceRegistry)
    → AreWorkspaces s
    → IsLed s
    → IsLed (attach_repository disk id path s).1
unfolding attach_repository get_workspace
attach_repository-IsLed disk id path s are h = elim (Result-cases (root_candidate disk path)) [
  | inl (e, failed) ↦ rw (failed, attach_repository) h
  | inr (root, found) ↦ elim (Option-cases (lookup id s.workspaces_by_id)) [
    | inl unknown ↦ rw (found, unknown, attach_repository) h
    | inr (w, known) ↦ elim (Option-cases (lookup root s.workspace_ids_by_root)) [
      | inl new ↦
          rw (found, known, new, attach_repository)
            (attach_new-IsLed disk root id w s (are id w known) h)
      | inr (owner, old) ↦
          rw
            (
              found,
              known,
              old,
              attach_repository,
              as_attached-registry id (as_open (reopen disk owner root s) owner),
              as_open-registry (reopen disk owner root s) owner,
            )
            (reopen-IsLed disk owner root s h)
    ]
  ]
]

-- The calls that close nothing.
abbrev pub closes_nothing : List RegistryCall → Bool
closes_nothing [] = true
closes_nothing (open_call disk path ∷ cs) = closes_nothing cs
closes_nothing (attach_call disk id path ∷ cs) = closes_nothing cs
closes_nothing (close_call id ∷ cs) = false

pub registry_calls-IsLed :
    (cs : List RegistryCall) (s : WorkspaceRegistry)
    → closes_nothing cs ≡ true
    → AreWorkspaces s
    → IsLed s
    → IsLed (registry_calls cs s)
unfolding registry_calls registry_call
registry_calls-IsLed [] s k are h = h
registry_calls-IsLed (open_call disk path ∷ cs) s k are h =
    registry_calls-IsLed cs _ k (open_workspace-AreWorkspaces disk path s are)
      (open_workspace-IsLed disk path s h)
registry_calls-IsLed (attach_call disk id path ∷ cs) s k are h =
    registry_calls-IsLed cs _ k (attach_repository-AreWorkspaces disk id path s are)
      (attach_repository-IsLed disk id path s are h)
registry_calls-IsLed (close_call id ∷ cs) s k are h = cc
