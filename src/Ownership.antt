-- ===== src/Ownership.antt =====
-- src/suitcode/core/ownership_index.py: which node owns a file.
pub mod Files
mod Tests
use code_suit.Base.{
  String, Bool, true, false, Option, none, some, List, [], ◌∷◌, ◌++◌, string_eq, if◌then◌else◌,
}
use code_suit.Base.Dict.{Dict, lookup, insert}
use code_suit.Base.Groups.{bucket}
use code_suit.Base.Order.{sorted, str_le}
use code_suit.Base.Result.{Result, ok, err, and_then}

-- `OwnedNodeInfo`, of a node, and `FileInfo`.
pub record Owner : Type 0 where
  pub id : String
  pub kind : String
  pub name : String

pub record FileInfo : Type 0 where
  pub repository_rel_path : String
  pub owner_id : String

pub data OwnershipError : Type 0 where
  duplicate_owner unknown_owner_of_file duplicate_file unknown_file unknown_owner : OwnershipError

-- `_owners`, `_files_by_path` and `_files_by_owner`.
pub record OwnershipIndex : Type 0 where
  pub owners : Dict String Owner
  pub files_by_path : Dict String FileInfo
  pub files_by_owner : Dict String (List FileInfo)

-- `_build_owner_index`, over the nodes of all kinds.
unfoldable pub build_owner_index :
    Dict String Owner → List Owner → Result OwnershipError (Dict String Owner)
unfolding lookup insert string_eq
build_owner_index owners [] = ok owners
build_owner_index owners (n ∷ ns) = elim (lookup n.id owners) [
  | some _ ↦ err duplicate_owner
  | none ↦ build_owner_index (insert n.id n owners) ns
]

abbrev pub FileIndexes : Type 0
FileIndexes = Dict String FileInfo × Dict String (List FileInfo)

-- The two indexes after one more file.
abbrev pub with_file : FileInfo → FileIndexes → FileIndexes
with_file f (by_path, by_owner) = (
  insert f.repository_rel_path f by_path,
  insert f.owner_id (bucket f.owner_id by_owner ++ f ∷ []) by_owner,
)

unfoldable pub index_files :
    Dict String Owner → FileIndexes → List FileInfo → Result OwnershipError FileIndexes
unfolding lookup insert string_eq
index_files owners indexes [] = ok indexes
index_files owners indexes (f ∷ fs) = elim (lookup f.owner_id owners) [
  | none ↦ err unknown_owner_of_file
  | some _ ↦ elim (lookup f.repository_rel_path indexes.0) [
    | some _ ↦ err duplicate_file
    | none ↦ index_files owners (with_file f indexes) fs
  ]
]

abbrev pub by_path : FileInfo → FileInfo → Bool
by_path a b = str_le a.repository_rel_path b.repository_rel_path

-- `sorted_files_by_owner`
unfoldable pub sort_files : Dict String (List FileInfo) → Dict String (List FileInfo)
unfolding sorted str_le
sort_files [] = []
sort_files ((id, fs) ∷ d) = (id, sorted by_path fs) ∷ sort_files d

-- `_build_file_indexes`
unfoldable pub build_file_indexes :
    Dict String Owner → List FileInfo → Result OwnershipError FileIndexes
unfolding index_files sort_files
build_file_indexes owners files =
    and_then (index_files owners ([], []) files)
      (λ (paths, by_owner). ok (paths, sort_files by_owner))

-- `__init__`
unfoldable pub new_index : List Owner → List FileInfo → Result OwnershipError OwnershipIndex
unfolding build_owner_index build_file_indexes
new_index nodes files = and_then (build_owner_index [] nodes) λ owners.
    and_then (build_file_indexes owners files) λ (paths, by_owner).
      ok (record { owners = owners; files_by_path = paths; files_by_owner = by_owner })

unfoldable pub owner_info : OwnershipIndex → String → Result OwnershipError Owner
unfolding lookup string_eq
owner_info index id = elim (lookup id index.owners) [ none ↦ err unknown_owner | some n ↦ ok n ]

unfoldable pub owner_for_file : OwnershipIndex → String → Result OwnershipError (FileInfo × Owner)
unfolding lookup string_eq owner_info
owner_for_file index path = elim (lookup path index.files_by_path) [
  | none ↦ err unknown_file
  | some f ↦ and_then (owner_info index f.owner_id) (λ owner. ok (f, owner))
]

unfoldable pub files_for_owner : OwnershipIndex → String → Result OwnershipError (List FileInfo)
unfolding lookup string_eq owner_info
files_for_owner index id = and_then (owner_info index id) (λ _. ok (bucket id index.files_by_owner))
