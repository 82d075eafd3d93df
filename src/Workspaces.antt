-- ===== src/Workspaces.antt =====
-- src/suitcode/core/workspace.py, with the root of a repository from core/repository.py. A path is
-- its text; the file system is the model's Disk, an argument of each operation.
pub mod Fresh
pub mod Registry
mod Tests
use Prim.Native.String
use code_suit.Base.{
  ℕ, zero, suc, ◌+◌, String, Bool, true, false, not, Option, none, some, List, [], ◌∷◌, ◌==◌,
  contains, length, map, string_eq, if◌then◌else◌,
}
use code_suit.Base.Dict.{Dict, lookup, insert, keys, values}
use code_suit.Base.Result.{Result, ok, err, and_then}

-- How the detection of the providers ends where it gives no answer: in a `ValueError`, which the
-- search for the root passes over, or in an error of the file system, which it does not.
pub data DetectionError : Type 0 where
  value_error os_error : DetectionError

-- What the code asks of the file system and of the providers. `supported` is the detection's answer
-- or what it raises; `attaches` tells whether the providers of a repository can be built.
pub record Disk : Type 0 where
  pub resolve : String → String
  pub exists : String → Bool
  pub is_dir : String → Bool
  pub parents : String → List String
  pub name : String → String
  pub has_vc_marker : String → Bool
  pub has_ide_marker : String → Bool
  pub has_suit : String → Bool
  pub has_suit_dir : String → Bool
  pub supported : String → Result DetectionError Bool
  pub attaches : String → Bool
  pub decimal : ℕ → String

pub data WorkspaceError : Type 0 where
  missing_path not_a_directory support_error file_system_error unsupported attach_error :
      WorkspaceError
  unknown_workspace unknown_repository key_error no_repository : WorkspaceError

-- The ancestors up to the first with a marker, or all.
unfoldable pub probe_ancestors : (String → Bool) → List String → List String
probe_ancestors marked [] = []
probe_ancestors marked (p ∷ ps) = if marked p then p ∷ [] else p ∷ probe_ancestors marked ps

unfoldable pub first_with : (String → Bool) → List String → Option String
first_with p [] = none
first_with p (x ∷ xs) = if p x then some x else first_with p xs

abbrev pub or_else : Option String → Option String → Option String
or_else none o = o
or_else (some x) o = some x

abbrev pub or_path : Option String → String → String
or_path none path = path
or_path (some x) path = x

-- What a detection raises, as the caller meets it.
abbrev pub raised : DetectionError → WorkspaceError
raised value_error = support_error
raised os_error = file_system_error

-- The first candidate with support; a candidate whose detection raises a `ValueError` is passed
-- over, and another error ends the search.
unfoldable pub first_supported : Disk → List String → Result WorkspaceError (Option String)
first_supported disk [] = ok none
first_supported disk (p ∷ ps) =
    let later = first_supported disk ps in
    elim (disk.supported p) [
      | ok b ↦ if b then ok (some p) else later
      | err value_error ↦ later
      | err os_error ↦ err file_system_error
    ]

abbrev pub is_boundary : Disk → String → Bool
is_boundary disk p =
    if disk.has_vc_marker p then true else if disk.has_ide_marker p then true else disk.has_suit p

-- `Repository.root_candidate`
unfoldable pub root_candidate : Disk → String → Result WorkspaceError String
unfolding probe_ancestors first_with first_supported
root_candidate disk repository_path =
    let path = disk.resolve repository_path in
    let probe = probe_ancestors (is_boundary disk) (path ∷ disk.parents path) in
    if not (disk.exists path)
    then err missing_path
    else if not (disk.is_dir path)
    then err not_a_directory
    else and_then (first_supported disk probe) (λ supported. ok (
        or_path
          (or_else supported (
            or_else (first_with disk.has_vc_marker probe) (
              or_else (first_with disk.has_suit_dir probe) (first_with disk.has_ide_marker probe))))
          path))

-- `Repository.support_for_path`, and the error for a repository that has none.
unfoldable pub check_support : Disk → String → Result WorkspaceError (Unit {0})
unfolding root_candidate
check_support disk path = and_then (root_candidate disk path) λ root. elim (disk.supported root) [
  | err e ↦ err (raised e)
  | ok b ↦ if b then ok tt else err unsupported
]

pub record Repository : Type 0 where
  pub id : String
  pub root : String

-- `_repositories_by_root`, and the workspace's id.
pub record Workspace : Type 0 where
  pub id : String
  pub repositories_by_root : Dict String Repository

abbrev pub repository_ids : Dict String Repository → List String
repository_ids d = map (λ r. r.id) (values d)

-- The candidates of `_next_repository_id` from the second on.
unfoldable pub numbered : Disk → String → ℕ → String
numbered disk base n = String.◌++◌ "repo:" (String.◌++◌ base (String.◌++◌ "-" (disk.decimal n)))

-- `while True`, on fuel; none where it runs out.
unfoldable pub next_numbered : (ℕ → String) → List String → ℕ → ℕ → Option String
unfolding string_eq
next_numbered candidate existing zero n = none
next_numbered candidate existing (suc fuel) n =
    let later = next_numbered candidate existing fuel (n + 1) in
    if contains existing (candidate n) then later else some (candidate n)

-- `_next_repository_id`; a round more than there are ids is enough.
unfoldable pub next_repository_id : Disk → List String → String → Option String
unfolding next_numbered numbered
next_repository_id disk existing root =
    let first = String.◌++◌ "repo:" (disk.name root) in
    if contains existing first
    then next_numbered (numbered disk (disk.name root)) existing (length existing + 1) 2
    else some first

-- `Repository.__init__`, as far as the id and the root.
unfoldable pub new_repository : Disk → String → String → Result WorkspaceError Repository
unfolding root_candidate check_support
new_repository disk path id = and_then (root_candidate disk path) λ root.
    and_then (check_support disk root)
      λ _. if disk.attaches root then ok (record { id = id; root = root }) else err attach_error

-- `add_repository`, which is also `get_repository`; `no_repository` stands for a loop without end.
unfoldable pub add_repository :
    Disk → String → Workspace → Result WorkspaceError (Repository × Workspace)
unfolding root_candidate check_support lookup insert next_repository_id new_repository
add_repository disk path w = and_then (root_candidate disk path) λ root.
    and_then (check_support disk root) λ _. elim (lookup root w.repositories_by_root) [
      | some r ↦ ok (r, w)
      | none ↦ elim (next_repository_id disk (repository_ids w.repositories_by_root) root) [
        | none ↦ err no_repository
        | some id ↦
            and_then (new_repository disk root id)
              λ r. ok (r, record w { repositories_by_root = insert root r w.repositories_by_root })
      ]
    ]

abbrev pub empty_workspace : Disk → String → Workspace
empty_workspace disk root = record {
  id = String.◌++◌ "workspace:" (disk.name root);
  repositories_by_root = [];
}

-- `Workspace.__init__`
unfoldable pub new_workspace : Disk → String → Result WorkspaceError (Repository × Workspace)
unfolding root_candidate check_support add_repository
new_workspace disk path = and_then (root_candidate disk path) λ root.
    and_then (check_support disk root) λ _. add_repository disk path (empty_workspace disk root)

-- `get_repository_by_id`
unfoldable pub repository_by_id : String → List Repository → Option Repository
unfolding string_eq
repository_by_id id [] = none
repository_by_id id (r ∷ rs) =
    let rest = repository_by_id id rs in if r.id == id then some r else rest
