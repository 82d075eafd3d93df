-- ===== src/Ownership/Tests.antt =====
-- Two owners and three files.
use code_suit.Base.{String, List, [], ◌∷◌, ◌≡◌, refl, string_eq}
use code_suit.Base.Dict.{lookup, insert}
use code_suit.Base.Result.{Result, ok, err, Ensures, and_then}
use code_suit.Ownership.{
  Owner, FileInfo, OwnershipError, duplicate_file, duplicate_owner, unknown_owner, new_index,
  files_for_owner,
}
use code_suit.Ownership.Files.{IsIndex, new_index-IsIndex, paths_of}

abbrev node : String → Owner
node id = record { id = id; kind = "component"; name = id }

abbrev file : String → String → FileInfo
file path id = record { repository_rel_path = path; owner_id = id }

abbrev nodes : List Owner
nodes = node "web" ∷ node "api" ∷ []

abbrev files : List FileInfo
files = file "web/b" "web" ∷ file "api/a" "api" ∷ file "web/a" "web" ∷ []

abbrev answered : Result OwnershipError (List FileInfo) → Result OwnershipError (List String)
answered (ok fs) = ok (paths_of fs)
answered (err e) = err e

files_of_web :
    answered (and_then (new_index nodes files) (λ index. files_for_owner index "web"))
    ≡ ok ("web/a" ∷ "web/b" ∷ [])
unfolding new_index files_for_owner lookup insert
files_of_web = refl

files_of_nobody :
    answered (and_then (new_index nodes files) (λ index. files_for_owner index "cli"))
    ≡ err unknown_owner
unfolding new_index files_for_owner lookup insert
files_of_nobody = refl

file_given_twice :
    new_index nodes (file "web/a" "web" ∷ file "web/a" "api" ∷ []) ≡ err duplicate_file
unfolding new_index
file_given_twice = refl

owner_given_twice : new_index (node "web" ∷ node "web" ∷ []) [] ≡ err duplicate_owner
unfolding new_index
owner_given_twice = refl

new_index-IsIndex_example : Ensures (IsIndex nodes files) (new_index nodes files)
new_index-IsIndex_example = new_index-IsIndex nodes files
