-- ===== src/Graph/Scope.antt =====
-- core/models/provider_contract.py: the form of a scope, `provider:<name>:<profile>`.
pub mod Pattern
use Prim.Native.Nat.{ℕ}
use code_suit.Base.{
  String, Bool, true, false, ◌&&◌, ◌||◌, List, [], ◌∷◌, leb, ◌==◌, nat_eq, if◌then◌else◌,
}
use code_suit.Base.Order.{codes}

-- [a-zA-Z0-9_.-]
unfoldable pub name_char : ℕ → Bool
unfolding nat_eq
name_char c =
    leb b'a' c && leb c b'z'
    || leb b'A' c && leb c b'Z'
    || leb b'0' c && leb c b'9'
    || c == b'_'
    || c == b'.'
    || c == b'-'

-- [a-zA-Z0-9_.-]+ up to the end; `seen` tells whether a character was read.
unfoldable pub match_profile : Bool → List ℕ → Bool
unfolding name_char
match_profile seen [] = seen
match_profile seen (c ∷ cs) = name_char c && match_profile true cs

-- [a-zA-Z0-9_.-]+: and then the profile
unfoldable pub match_name : Bool → List ℕ → Bool
unfolding match_profile nat_eq
match_name seen [] = false
match_name seen (c ∷ cs) =
    let more = match_name true cs in
    if c == b':' then seen && match_profile false cs else name_char c && more

-- The literal text in front.
unfoldable pub match_prefix : List ℕ → List ℕ → Bool
unfolding match_name nat_eq
match_prefix [] cs = match_name false cs
match_prefix (p ∷ ps) [] = false
match_prefix (p ∷ ps) (c ∷ cs) = let more = match_prefix ps cs in if p == c then more else false

-- `SCOPE_PATTERN.fullmatch(scope)`
unfoldable pub scope_valid : String → Bool
unfolding match_prefix codes
scope_valid scope = match_prefix (codes "provider:") (codes scope)
