-- ===== src/Ownership/Files.antt =====
-- What the index answers, read off the nodes and the files that it was built from.
use code_suit.Base.{
  String, true, false, ◌||◌, List, [], ◌∷◌, ◌==◌, ◌≡◌, refl, sym, ap, ◌∙◌, contains, filter, map,
  is_some, string_eq, Option-cases, inl, inr, arith, if◌then◌else◌,
}
use code_suit.Base.Dict.{Dict, lookup, insert, lookup-insert, AllRows, AllRows-insert}
use code_suit.Base.Groups.{bucket, group_into, group_by, bucket-group_by}
use code_suit.Base.Order.{sorted}
use code_suit.Base.Result.{Result, ok, err, and_then, Ensures, Ensures-and_then}
use code_suit.Ownership.{
  Owner, FileInfo, OwnershipError, OwnershipIndex, duplicate_owner, unknown_owner_of_file,
  duplicate_file, unknown_file, unknown_owner, FileIndexes, with_file, build_owner_index,
  index_files, by_path, sort_files, build_file_indexes, new_index, owner_info, owner_for_file,
  files_for_owner,
}

abbrev pub owner_ids : List Owner → List String
owner_ids = map (λ n. n.id)

abbrev pub paths_of : List FileInfo → List String
paths_of = map (λ f. f.repository_rel_path)

abbrev owner_of : FileInfo → String
owner_of f = f.owner_id

-- The index of the owners holds each node under its id.
abbrev AreOwners : Dict String Owner → List Owner → Dict String Owner → Type 0
AreOwners old nodes owners =
    ((id : String)
      → is_some (lookup id owners) ≡ (is_some (lookup id old) || contains (owner_ids nodes) id))
    × AllRows (λ id n. n.id ≡ id) owners

build_owner_index-AreOwners :
    (old : Dict String Owner) (nodes : List Owner)
    → AllRows (λ id n. n.id ≡ id) old
    → Ensures (AreOwners old nodes) (build_owner_index old nodes)
unfolding build_owner_index
build_owner_index-AreOwners old [] h = (λ id. ground arith, h)
build_owner_index-AreOwners old (n ∷ ns) h = elim (Option-cases (lookup n.id old)) [
  | inr (m, there) ↦ rw (there, Ensures) tt
  | inl new ↦
      rw (new, Ensures)
        (more (build_owner_index (insert n.id n old) ns) (
          build_owner_index-AreOwners (insert n.id n old) ns
            (AllRows-insert (λ id m. m.id ≡ id) n.id n old refl h)))
]
  where
    more :
        (out : Result OwnershipError (Dict String Owner))
        → Ensures (AreOwners (insert n.id n old) ns) out
        → Ensures (AreOwners old (n ∷ ns)) out
    more (err e) k = tt
    more (ok owners) k = (λ id. ground (arith, k.0 id, lookup-insert id n.id n old), k.1)

abbrev IsFileOf : Dict String Owner → String → FileInfo → Type 0
IsFileOf owners path f =
    (f.repository_rel_path ≡ path) × (is_some (lookup f.owner_id owners) ≡ true)

-- The two indexes of the files.
record AreFiles (owners : Dict String Owner) (old : FileIndexes) (files : List FileInfo)
    (out : FileIndexes) : Type 0 where
  grouped : out.1 ≡ group_into owner_of (old.1) files
  covered :
      (p : String)
      → is_some (lookup p (out.0)) ≡ (is_some (lookup p (old.0)) || contains (paths_of files) p)
  rows : AllRows (IsFileOf owners) (out.0)

index_files-AreFiles :
    (owners : Dict String Owner) (old : FileIndexes) (files : List FileInfo)
    → AllRows (IsFileOf owners) (old.0)
    → Ensures (AreFiles owners old files) (index_files owners old files)
unfolding index_files group_into
index_files-AreFiles owners old [] h = record {
  grouped = refl;
  covered = λ p. ground arith;
  rows = h;
}
index_files-AreFiles owners old (f ∷ fs) h = elim (Option-cases (lookup f.owner_id owners)) [
  | inl missing ↦ rw (missing, Ensures) tt
  | inr (n, there) ↦ elim (Option-cases (lookup f.repository_rel_path (old.0))) [
    | inr (g, twice) ↦ rw (there, twice, Ensures) tt
    | inl new ↦
        rw (there, new, Ensures)
          (more (index_files owners (with_file f old) fs) (
            index_files-AreFiles owners (with_file f old) fs (
              AllRows-insert (IsFileOf owners) f.repository_rel_path f (old.0) (refl, rw there refl)
                h)))
  ]
]
  where
    more :
        (out : Result OwnershipError FileIndexes)
        → Ensures (AreFiles owners (with_file f old) fs) out
        → Ensures (AreFiles owners old (f ∷ fs)) out
    more (err e) k = tt
    more (ok out) k = record {
      grouped = k.grouped;
      covered = λ p. ground (arith, k.covered p, lookup-insert p f.repository_rel_path f (old.0));
      rows = k.rows;
    }

bucket-sort_files :
    (id : String) (d : Dict String (List FileInfo))
    → bucket id (sort_files d) ≡ sorted by_path (bucket id d)
unfolding sort_files lookup sorted
bucket-sort_files id [] = refl
bucket-sort_files id ((j, fs) ∷ d) = ground (arith, bucket-sort_files id d)

-- An owner that is found is the one of the file with the path; a file is unknown only if it is none
-- of the files.
abbrev pub OwnerOf : List FileInfo → String → Result OwnershipError (FileInfo × Owner) → Type 0
OwnerOf files path (ok (f, n)) = (f.repository_rel_path ≡ path) × (n.id ≡ f.owner_id)
OwnerOf files path (err unknown_file) = contains (paths_of files) path ≡ false
OwnerOf files path (err duplicate_owner) = ⊥
OwnerOf files path (err unknown_owner_of_file) = ⊥
OwnerOf files path (err duplicate_file) = ⊥
OwnerOf files path (err unknown_owner) = ⊥

pub record IsIndex (nodes : List Owner) (files : List FileInfo) (index : OwnershipIndex)
    : Type 0 where
  pub of_owner :
      (id : String)
      → files_for_owner index id ≡ (
          if contains (owner_ids nodes) id
          then ok (sorted by_path (filter (λ f. id == f.owner_id) files))
          else err unknown_owner)
  pub of_file : (path : String) → OwnerOf files path (owner_for_file index path)

-- What the two builders have made.
record AreIndexes (nodes : List Owner) (files : List FileInfo) (index : OwnershipIndex)
    : Type 0 where
  owners : AreOwners [] nodes index.owners
  grouped :
      (id : String)
      → bucket id index.files_by_owner ≡ sorted by_path (filter (λ f. id == f.owner_id) files)
  covered : (p : String) → is_some (lookup p index.files_by_path) ≡ contains (paths_of files) p
  rows : AllRows (IsFileOf index.owners) index.files_by_path

new_index-AreIndexes :
    (nodes : List Owner) (files : List FileInfo)
    → Ensures (AreIndexes nodes files) (new_index nodes files)
unfolding new_index build_file_indexes lookup group_into group_by
new_index-AreIndexes nodes files =
    Ensures-and_then (AreOwners [] nodes) (AreIndexes nodes files) (build_owner_index [] nodes) _
      (build_owner_index-AreOwners [] nodes (λ id n found. absurd cc))
      λ owners _ are.
        files_of owners are (index_files owners ([], []) files)
          (index_files-AreFiles owners ([], []) files (λ p f found. absurd cc))
  where
    files_of :
        (owners : Dict String Owner)
        → AreOwners [] nodes owners
        → (out : Result OwnershipError FileIndexes) → Ensures (AreFiles owners ([], []) files) out
        → Ensures (AreIndexes nodes files) (
            and_then
              (and_then out (λ (paths, by_owner). ok (paths, sort_files by_owner)))
              (λ (paths, by_owner).
                ok (record { owners = owners; files_by_path = paths; files_by_owner = by_owner })))
    files_of owners are (err e) h = tt
    files_of owners are (ok (paths, by_owner)) h = record {
      owners = are;
      grouped = λ id.
          bucket-sort_files id by_owner
          ∙ ap (λ d. sorted by_path (bucket id d)) h.grouped
          ∙ ap (sorted by_path) (bucket-group_by owner_of id files);
      covered = h.covered;
      rows = h.rows;
    }

AreIndexes-IsIndex :
    (nodes : List Owner) (files : List FileInfo) (index : OwnershipIndex)
    → AreIndexes nodes files index
    → IsIndex nodes files index
unfolding files_for_owner owner_for_file owner_info
AreIndexes-IsIndex nodes files index are = record {
  of_owner = λ id. elim (Option-cases (lookup id index.owners)) [
    | inl missing ↦
        let absent : contains (owner_ids nodes) id ≡ false =
          sym (are.owners.0 id) ∙ ap is_some missing in
        rw (missing, absent, files_for_owner, owner_info) refl
    | inr (n, there) ↦
        let present : contains (owner_ids nodes) id ≡ true =
          sym (are.owners.0 id) ∙ ap is_some there in
        rw (there, present, files_for_owner, owner_info) (ap ok (are.grouped id))
  ];
  of_file = λ path. elim (Option-cases (lookup path index.files_by_path)) [
    | inl missing ↦ rw (missing, OwnerOf) (sym (are.covered path) ∙ ap is_some missing)
    | inr (f, found) ↦
        let (same, owned) = are.rows path f found in
        elim (Option-cases (lookup f.owner_id index.owners)) [
          | inl missing ↦ absurd (cc (owned, missing))
          | inr (n, there) ↦ rw (found, there, OwnerOf) (same, are.owners.1 f.owner_id n there)
        ]
  ];
}

-- From an index that could be built, the files of an owner are those of the given files that name
-- it, sorted by path, and only a node that was not given is an unknown owner; a file that is found has
-- the path that was asked for and the owner that it names; only a path of no given file is unknown.
pub new_index-IsIndex :
    (nodes : List Owner) (files : List FileInfo)
    → Ensures (IsIndex nodes files) (new_index nodes files)
new_index-IsIndex nodes files = after (new_index nodes files) (new_index-AreIndexes nodes files)
  where
    after :
        (out : Result OwnershipError OwnershipIndex)
        → Ensures (AreIndexes nodes files) out
        → Ensures (IsIndex nodes files) out
    after (err e) h = tt
    after (ok index) h = AreIndexes-IsIndex nodes files index h
