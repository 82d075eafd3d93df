-- ===== src/Workspaces/Registry.antt =====
-- src/suitcode/mcp/state.py: WorkspaceRegistry, the workspaces that are open.
pub mod Kept
pub mod Led
pub mod NoKeyError
use code_suit.Base.{
  String, Bool, true, false, Option, none, some, List, [], ◌∷◌, string_eq, if◌then◌else◌,
}
use code_suit.Base.Dict.{Dict, lookup, insert, erase, erase_all, values}
use code_suit.Base.Order.{sorted, str_le}
use code_suit.Base.Result.{Result, ok, err, and_then, Exec, continue}
use code_suit.Workspaces.{
  Disk, WorkspaceError, unknown_workspace, unknown_repository, key_error, Repository, Workspace,
  root_candidate, add_repository, new_workspace, repository_by_id,
}

pub record WorkspaceRegistry : Type 0 where
  pub workspaces_by_id : Dict String Workspace
  pub workspace_ids_by_root : Dict String String

abbrev pub by_id : Workspace → Workspace → Bool
by_id a b = str_le a.id b.id

unfoldable pub list_workspaces : WorkspaceRegistry → List Workspace
unfolding sorted str_le values
list_workspaces s = sorted by_id (values s.workspaces_by_id)

unfoldable pub get_workspace : String → WorkspaceRegistry → Result WorkspaceError Workspace
unfolding lookup string_eq
get_workspace id s = elim (lookup id s.workspaces_by_id) [
  | none ↦ err unknown_workspace
  | some w ↦ ok w
]

unfoldable pub get_repository :
    String → String → WorkspaceRegistry → Result WorkspaceError Repository
unfolding get_workspace repository_by_id values
get_repository workspace_id id s = and_then (get_workspace workspace_id s) λ w.
    elim (repository_by_id id (values w.repositories_by_root)) [
      | none ↦ err unknown_repository
      | some r ↦ ok r
    ]

-- `WorkspaceOpenState` and `RepositoryAttachState`: the workspace, the id of the one that owns the
-- repository, the repository, and whether it was open.
pub record OpenState : Type 0 where
  pub workspace : Workspace
  pub owning_workspace_id : String
  pub repository : Repository
  pub reused : Bool

-- The new entries for the roots of a workspace.
unfoldable pub register_roots : String → List Repository → Dict String String → Dict String String
unfolding insert string_eq
register_roots id [] d = d
register_roots id (r ∷ rs) d = register_roots id rs (insert r.root id d)

-- The workspace has changed where the repository was not in it.
abbrev pub store_reopened :
    String
    → WorkspaceRegistry
    → Result WorkspaceError (Repository × Workspace)
    → Result WorkspaceError (Repository × Workspace) × WorkspaceRegistry
store_reopened id s (err e) = (err e, s)
store_reopened id s (ok (r, w)) =
    (ok (r, w), record s { workspaces_by_id = insert id w s.workspaces_by_id })

-- A repository that is open already, in the workspace that its root leads to.
unfoldable pub reopen :
    Disk
    → String
    → String
    → WorkspaceRegistry
    → Result WorkspaceError (Repository × Workspace) × WorkspaceRegistry
unfolding lookup insert add_repository string_eq
reopen disk id root s = elim (lookup id s.workspaces_by_id) [
  | none ↦ (err key_error, s)
  | some w ↦ store_reopened id s (add_repository disk root w)
]

abbrev pub store_new :
    WorkspaceRegistry
    → Result WorkspaceError (Repository × Workspace)
    → Result WorkspaceError OpenState × WorkspaceRegistry
store_new s (err e) = (err e, s)
store_new s (ok (r, w)) = (
  ok (record { workspace = w; owning_workspace_id = w.id; repository = r; reused = false }),
  record {
    workspaces_by_id = insert w.id w s.workspaces_by_id;
    workspace_ids_by_root =
        register_roots w.id (values w.repositories_by_root) s.workspace_ids_by_root;
  },
)

unfoldable pub open_new :
    Disk → String → WorkspaceRegistry → Result WorkspaceError OpenState × WorkspaceRegistry
unfolding new_workspace insert register_roots values string_eq
open_new disk root s = store_new s (new_workspace disk root)

abbrev pub as_open :
    Result WorkspaceError (Repository × Workspace) × WorkspaceRegistry
    → String
    → Result WorkspaceError OpenState × WorkspaceRegistry
as_open (err e, s) id = (err e, s)
as_open (ok (r, w), s) id =
    (ok (record { workspace = w; owning_workspace_id = id; repository = r; reused = true }), s)

unfoldable pub open_workspace : Disk → String → Exec WorkspaceError WorkspaceRegistry OpenState
unfolding root_candidate reopen open_new lookup string_eq
open_workspace disk path s = elim (root_candidate disk path) [
  | err e ↦ (err e, s)
  | ok root ↦ elim (lookup root s.workspace_ids_by_root) [
    | none ↦ open_new disk root s
    | some id ↦ as_open (reopen disk id root s) id
  ]
]

abbrev pub store_attached :
    String
    → WorkspaceRegistry
    → Result WorkspaceError (Repository × Workspace)
    → Result WorkspaceError OpenState × WorkspaceRegistry
store_attached id s (err e) = (err e, s)
store_attached id s (ok (r, w)) = (
  ok (record { workspace = w; owning_workspace_id = w.id; repository = r; reused = false }),
  record {
    workspaces_by_id = insert id w s.workspaces_by_id;
    workspace_ids_by_root = insert r.root w.id s.workspace_ids_by_root;
  },
)

-- The repository is added to the workspace that was asked for.
unfoldable pub attach_new :
    Disk
    → String
    → String
    → Workspace
    → WorkspaceRegistry
    → Result WorkspaceError OpenState × WorkspaceRegistry
unfolding add_repository insert string_eq
attach_new disk root id w s = store_attached id s (add_repository disk root w)

-- The state names the workspace that was asked for beside the one that owns the repository, which
-- may be the same object and have changed.
abbrev pub as_attached :
    String
    → Result WorkspaceError OpenState × WorkspaceRegistry
    → Result WorkspaceError OpenState × WorkspaceRegistry
as_attached workspace_id (err e, s) = (err e, s)
as_attached workspace_id (ok o, s) = elim (lookup workspace_id s.workspaces_by_id) [
  | none ↦ (ok o, s)
  | some w ↦ (ok (record o { workspace = w }), s)
]

unfoldable pub attach_repository :
    Disk → String → String → Exec WorkspaceError WorkspaceRegistry OpenState
unfolding root_candidate get_workspace reopen attach_new lookup string_eq
attach_repository disk workspace_id path s = elim (root_candidate disk path) [
  | err e ↦ (err e, s)
  | ok root ↦ elim (get_workspace workspace_id s) [
    | err e ↦ (err e, s)
    | ok w ↦ elim (lookup root s.workspace_ids_by_root) [
      | none ↦ attach_new disk root workspace_id w s
      | some id ↦ as_attached workspace_id (as_open (reopen disk id root s) id)
    ]
  ]
]

abbrev pub roots_of : List Repository → List String
roots_of [] = []
roots_of (r ∷ rs) = r.root ∷ roots_of rs

unfoldable pub close_workspace : String → Exec WorkspaceError WorkspaceRegistry (Unit {0})
unfolding lookup erase erase_all values string_eq
close_workspace id s = elim (lookup id s.workspaces_by_id) [
  | none ↦ (err unknown_workspace, s)
  | some w ↦ (
    ok tt,
    record {
      workspaces_by_id = erase id s.workspaces_by_id;
      workspace_ids_by_root =
          erase_all (roots_of (values w.repositories_by_root)) s.workspace_ids_by_root;
    },
  )
]

-- The calls that change the registry.
pub data RegistryCall : Type 0 where
  open_call : Disk → String → RegistryCall
  attach_call : Disk → String → String → RegistryCall
  close_call : String → RegistryCall

unfoldable pub registry_call : RegistryCall → WorkspaceRegistry → WorkspaceRegistry
unfolding open_workspace attach_repository close_workspace
registry_call (open_call disk path) s = (open_workspace disk path s).1
registry_call (attach_call disk id path) s = (attach_repository disk id path s).1
registry_call (close_call id) s = (close_workspace id s).1

unfoldable pub registry_calls : List RegistryCall → WorkspaceRegistry → WorkspaceRegistry
unfolding registry_call
registry_calls [] s = s
registry_calls (c ∷ cs) s = registry_calls cs (registry_call c s)

-- `__init__`
abbrev pub new_registry : WorkspaceRegistry
new_registry = record { workspaces_by_id = []; workspace_ids_by_root = [] }
