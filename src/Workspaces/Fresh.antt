-- ===== src/Workspaces/Fresh.antt =====
-- `_next_repository_id` ends, with an id that is not there yet.
use text.Mathlib.TextLemmas.{append_cancel_left}
use Prim.Native.String
use code_suit.Base.{
  ℕ, zero, suc, ◌+◌, ◌<◌, String, true, false, not, some, List, [], ◌∷◌, ◌==◌, ◌≡◌, refl, sym,
  subst, ◌∙◌, contains, filter, length, string_eq, eq_of_==, ==-refl, Bool-cases, inl, inr, arith,
  length-filter-le,
}
use mathlib.Core.Option.{some-injective}
use code_suit.Workspaces.{Disk, numbered, next_numbered, next_repository_id}

-- Different numbers have different texts.
abbrev pub IsInjective : (ℕ → String) → Type 0
IsInjective f = (m n : ℕ) → f m ≡ f n → m ≡ n

numbered-IsInjective :
    (disk : Disk) (base : String) → IsInjective disk.decimal → IsInjective (numbered disk base)
unfolding numbered
numbered-IsInjective disk base h m n e =
    h m n
      (append_cancel_left "-" _ _ (append_cancel_left base _ _ (append_cancel_left "repo:" _ _ e)))

-- The list without an element.
abbrev without : String → List String → List String
without s = filter (λ x. not (x == s))

contains-without :
    (s x : String) (xs : List String) → (x == s) ≡ false → contains (without s xs) x ≡ contains xs x
contains-without s x [] h = refl
contains-without s x (y ∷ xs) h =
    ground (arith, contains-without s x xs, eq_of_== x y, eq_of_== y s)

length-without :
    (s : String) (xs : List String) → contains xs s ≡ true → length (without s xs) < length xs
length-without s [] h = absurd cc
length-without s (x ∷ xs) h =
    ground
      (arith, length-without s xs, length-filter-le (λ y. not (y == s)) xs, eq_of_== s x, ==-refl s)

-- Ids that the search has passed do not count.
next_numbered-without :
    (f : ℕ → String) (existing : List String) (fuel n k : ℕ)
    → IsInjective f
    → k < n
    → next_numbered f (without (f k) existing) fuel n ≡ next_numbered f existing fuel n
unfolding next_numbered
next_numbered-without f existing zero n k inj h = refl
next_numbered-without f existing (suc fuel) n k inj h =
    let differ : (f n == f k) ≡ false = elim (Bool-cases (f n == f k)) [
      | inl same ↦ absurd (omega (arith, h, inj n k (eq_of_== (f n) (f k) same)))
      | inr other ↦ other
    ] in
    cc (
      contains-without (f k) (f n) existing differ,
      next_numbered-without f existing fuel (n + 1) k inj (omega (arith, h)),
    )

-- What the search returns is none of the ids.
pub next_numbered-fresh :
    (f : ℕ → String) (existing : List String) (fuel n : ℕ) (id : String)
    → next_numbered f existing fuel n ≡ some id
    → contains existing id ≡ false
unfolding next_numbered
next_numbered-fresh f existing zero n id h = cc
next_numbered-fresh f existing (suc fuel) n id h = elim (Bool-cases (contains existing (f n))) [
  | inr free ↦
      let found : some (f n) ≡ some id = rw free at h in
      subst (λ j. contains existing j ≡ false) (some-injective (f n) id found) free
  | inl taken ↦ next_numbered-fresh f existing fuel (n + 1) id (rw taken at h)
]

-- The search ends with fuel for a round more than there are ids.
next_numbered_ends :
    (f : ℕ → String) (existing : List String) (fuel n : ℕ)
    → IsInjective f
    → length existing < fuel
    → (id : String) × (next_numbered f existing fuel n ≡ some id)
unfolding next_numbered
next_numbered_ends f existing zero n inj h = absurd (omega (arith, h))
next_numbered_ends f existing (suc fuel) n inj h = elim (Bool-cases (contains existing (f n))) [
  | inr free ↦ rw free (f n, refl)
  | inl taken ↦
      let (id, found) =
        next_numbered_ends f (without (f n) existing) fuel (n + 1) inj
          (omega (arith, h, length-without (f n) existing taken)) in
      rw taken (id, sym (next_numbered-without f existing fuel (n + 1) n inj (omega arith)) ∙ found)
]

-- Where different numbers have different texts, the search for an id ends, and the id that it
-- returns is none of those that the repositories of the workspace have.
pub next_repository_id-IsFresh :
    (disk : Disk) (existing : List String) (root : String)
    → IsInjective disk.decimal
    → (id : String) × (next_repository_id disk existing root ≡ some id)
      × (contains existing id ≡ false)
unfolding next_repository_id
next_repository_id-IsFresh disk existing root inj =
    elim (Bool-cases (contains existing (String.◌++◌ "repo:" (disk.name root)))) [
      | inr free ↦ rw free (String.◌++◌ "repo:" (disk.name root), refl, free)
      | inl taken ↦
          let f = numbered disk (disk.name root) in
          let (id, found) =
            next_numbered_ends f existing (length existing + 1) 2
              (numbered-IsInjective disk (disk.name root) inj) (omega arith) in
          rw taken (id, found, next_numbered-fresh f existing (length existing + 1) 2 id found)
    ]

-- An id that is returned is new.
pub next_repository_id-fresh :
    (disk : Disk) (existing : List String) (root id : String)
    → next_repository_id disk existing root ≡ some id
    → contains existing id ≡ false
unfolding next_repository_id
next_repository_id-fresh disk existing root id h =
    elim (Bool-cases (contains existing (String.◌++◌ "repo:" (disk.name root)))) [
      | inr free ↦
          let found : some (String.◌++◌ "repo:" (disk.name root)) ≡ some id = rw free at h in
          subst (λ j. contains existing j ≡ false) (some-injective _ id found) free
      | inl taken ↦
          next_numbered-fresh (numbered disk (disk.name root)) existing (length existing + 1) 2 id
            (rw taken at h)
    ]
