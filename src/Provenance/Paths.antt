-- ===== src/Provenance/Paths.antt =====
-- src/suitcode/core/provenance_summary.py: the evidence paths of several entries.
use code_suit.Base.{
  nodup, ℕ, zero, suc, ◌≤◌, String, Bool, true, ◌||◌, List, [], ◌∷◌, ◌≡◌, refl, Eq, contains, any,
  take, length, length-take, string_eq, arith,
}
use code_suit.Base.Result.{Ensures}
use code_suit.Provenance.{
  ProvenanceEntry, merge_into, merge_paths, merge_provenance_paths, as_tuple,
}
use code_suit.Provenance.Merging.{nodup-merge_into, contains-merge_into}

module _ {A : Type 0} ⦃e : Eq A⦄ where
  contains-take :
      (a : A) (n : ℕ) (xs : List A) → contains (take n xs) a ≡ true → contains xs a ≡ true
  contains-take a zero xs h = absurd cc
  contains-take a (suc n) [] h = h
  contains-take a (suc n) (x ∷ xs) h = ground (arith, contains-take a n xs)

  nodup-take : (n : ℕ) (xs : List A) → nodup xs ≡ true → nodup (take n xs) ≡ true
  nodup-take zero xs h = refl
  nodup-take (suc n) [] h = refl
  nodup-take (suc n) (x ∷ xs) h = ground (arith, nodup-take n xs, contains-take x n xs)

-- Does any of the entries name the path?
abbrev pub in_paths : List ProvenanceEntry → String → Bool
in_paths ps j = any (λ p. contains p.evidence_paths j) ps

merge_paths_lem :
    (ps : List ProvenanceEntry) (merged : List String)
    → nodup merged ≡ true
    → (nodup (merge_paths merged ps) ≡ true)
      × ((j : String) → contains (merge_paths merged ps) j ≡ (contains merged j || in_paths ps j))
unfolding merge_paths
merge_paths_lem [] merged h = (h, λ j. ground arith)
merge_paths_lem (p ∷ ps) merged h =
    let (once, all_in) =
      merge_paths_lem ps (merge_into merged p.evidence_paths)
        (nodup-merge_into merged p.evidence_paths h) in
    (once, λ j. ground (arith, all_in j, contains-merge_into j merged p.evidence_paths))

-- The paths that are returned are at most `limit`, none of them twice, and each is a path of one of
-- the entries.
pub merge_provenance_paths_lem :
    (entries : List ProvenanceEntry) (limit : ℕ)
    → Ensures
        (λ out.
          (length out ≤ limit)
          × (nodup out ≡ true)
          × ((j : String) → contains out j ≡ true → in_paths entries j ≡ true))
        (merge_provenance_paths entries limit)
unfolding merge_provenance_paths as_tuple
merge_provenance_paths_lem entries zero = tt
merge_provenance_paths_lem [] (suc n) = tt
merge_provenance_paths_lem (p ∷ ps) (suc n) =
    let (once, all_in) = merge_paths_lem (p ∷ ps) [] refl in
    (
      omega (arith, length-take (suc n) (merge_paths [] (p ∷ ps))),
      nodup-take (suc n) (merge_paths [] (p ∷ ps)) once,
      λ j h. ground (arith, all_in j, contains-take j (suc n) (merge_paths [] (p ∷ ps))),
    )
