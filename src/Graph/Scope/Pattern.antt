-- ===== src/Graph/Scope/Pattern.antt =====
-- The scope test accepts exactly the texts of the regular expression.
use code_suit.Base.{
  ℕ, String, Bool, true, false, ◌&&◌, List, [], ◌∷◌, ◌++◌, ◌≡◌, ◌≢◌, ◌↔◌, refl, ap, ◌∙◌, all, arith,
  Bool-cases, inl, inr, ◌==◌, nat_eq, and-eq-true, eq_of_==, ==-refl,
}
use code_suit.Base.Order.{codes}
use code_suit.Graph.Scope.{name_char, match_profile, match_name, match_prefix, scope_valid}

match_profile-all :
    (seen : Bool) (cs : List ℕ) → match_profile seen cs ≡ true → all name_char cs ≡ true
unfolding match_profile
match_profile-all seen [] h = refl
match_profile-all seen (c ∷ cs) h = ground (arith, match_profile-all true cs)

match_profile-ne-nil : (cs : List ℕ) → match_profile false cs ≡ true → cs ≢ []
unfolding match_profile
match_profile-ne-nil [] h = λ _. cc
match_profile-ne-nil (c ∷ cs) h = λ e. cc

all-match_profile :
    (seen : Bool) (cs : List ℕ)
    → (seen ≡ false → cs ≢ [])
    → all name_char cs ≡ true
    → match_profile seen cs ≡ true
unfolding match_profile
all-match_profile true [] n h = refl
all-match_profile false [] n h = absurd (n refl refl)
all-match_profile seen (c ∷ cs) n h = ground (arith, all-match_profile true cs (λ e. absurd (cc)))

-- A name and the rest behind its colon.
abbrev NameSplit : Bool → List ℕ → Type 0
NameSplit seen cs =
    (name rest : List ℕ) × (cs ≡ name ++ b':' ∷ rest)
    × (all name_char name ≡ true)
    × (match_profile false rest ≡ true)
    × (seen ≡ false → name ≢ [])

split_at_colon :
    (seen : Bool) (c : ℕ) (cs : List ℕ)
    → c ≡ b':'
    → (seen && match_profile false cs) ≡ true
    → NameSplit seen (c ∷ cs)
split_at_colon seen c cs e h =
    let (was_seen, last) = and-eq-true seen (match_profile false cs) h in
    ([], cs, ap (λ d. d ∷ cs) e, refl, last, λ unseen. cc)

split_further :
    (seen : Bool) (c : ℕ) (cs : List ℕ)
    → name_char c ≡ true
    → NameSplit true cs
    → NameSplit seen (c ∷ cs)
split_further seen c cs h (name, rest, split, chars, last, _) =
    (c ∷ name, rest, ap (◌∷◌ c) split, rw (h, chars), last, λ _ e. cc)

match_name_split : (seen : Bool) (cs : List ℕ) → match_name seen cs ≡ true → NameSplit seen cs
unfolding match_name
match_name_split seen [] h = absurd (cc)
match_name_split seen (c ∷ cs) h =
    let later = match_name_split true cs in
    elim (Bool-cases (c == b':')) [
      | inl colon ↦ split_at_colon seen c cs (eq_of_== c b':' colon) (rw colon at h)
      | inr other ↦
          let (char, more) = and-eq-true (name_char c) (match_name true cs) (rw other at h) in
          split_further seen c cs char (later more)
    ]

colon_not_name_char : name_char b':' ≡ false
unfolding name_char
colon_not_name_char = refl

colon_test : (c : ℕ) → name_char c ≡ true → (c == b':') ≡ false
colon_test c h = elim (Bool-cases (c == b':')) [
  | inl colon ↦ let e = eq_of_== c b':' colon in cc (ap name_char e, colon_not_name_char)
  | inr other ↦ other
]

match_name_join :
    (seen : Bool) (name rest : List ℕ)
    → all name_char name ≡ true
    → match_profile false rest ≡ true
    → (seen ≡ false → name ≢ [])
    → match_name seen (name ++ b':' ∷ rest) ≡ true
unfolding match_name
match_name_join true [] rest a m n = rw (==-refl {A = ℕ} b':') m
match_name_join false [] rest a m n = absurd (n refl refl)
match_name_join seen (c ∷ cs) rest a m n =
    let (char, chars) = and-eq-true (name_char c) (all name_char cs) a in
    rw (colon_test c char, char) (match_name_join true cs rest chars m (λ e. absurd (cc)))

match_prefix_split :
    (ps cs : List ℕ)
    → match_prefix ps cs ≡ true
    → (rest : List ℕ) × (cs ≡ ps ++ rest) × (match_name false rest ≡ true)
unfolding match_prefix
match_prefix_split [] cs h = (cs, refl, h)
match_prefix_split (p ∷ ps) [] h = absurd (cc)
match_prefix_split (p ∷ ps) (c ∷ cs) h =
    let later = match_prefix_split ps cs in
    elim (Bool-cases (p == c)) [
      | inl same ↦
          let (rest, split, more) = later (rw same at h) in (rest, cc (eq_of_== p c same), more)
      | inr other ↦ absurd (cc (rw other at h))
    ]

match_prefix_join :
    (ps cs : List ℕ) → match_name false cs ≡ true → match_prefix ps (ps ++ cs) ≡ true
unfolding match_prefix
match_prefix_join [] cs h = h
match_prefix_join (p ∷ ps) cs h = rw (==-refl p) (match_prefix_join ps cs h)

-- A scope is valid exactly when its characters are `provider:`, a name, a colon and a profile, the
-- last two nonempty and made of the characters [a-zA-Z0-9_.-].
pub scope_valid_iff :
    (scope : String)
    → (scope_valid scope ≡ true) ↔ (
        (name profile : List ℕ) × (codes scope ≡ codes "provider:" ++ name ++ b':' ∷ profile)
        × (name ≢ [])
        × (profile ≢ [])
        × (all name_char name ≡ true)
        × (all name_char profile ≡ true))
unfolding scope_valid
scope_valid_iff scope = (
  λ h.
      let (rest, front, more) = match_prefix_split (codes "provider:") (codes scope) h in
      let (name, profile, split, chars, last, some_name) = match_name_split false rest more in
      (
        name,
        profile,
        front ∙ ap (◌++◌ (codes "provider:")) split,
        some_name refl,
        match_profile-ne-nil profile last,
        chars,
        match_profile-all false profile last,
      ),
  λ (name, profile, shape, some_name, some_profile, chars, chars'). rw shape (
      match_prefix_join (codes "provider:") (name ++ b':' ∷ profile) (
        match_name_join false name profile chars
          (all-match_profile false profile (λ _. some_profile) chars') (λ _. some_name))),
)
