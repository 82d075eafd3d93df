-- ===== src/Ids.antt =====
-- src/suitcode/core/models/ids.py: relative paths in one spelling, and the ids made from them.
use Prim.Native.Char.{code}
use Prim.Native.String
use code_suit.Base.{
  ℕ, String, Bool, true, false, ◌||◌, Option, none, some, List, [], ◌∷◌, ◌==◌, nat_eq, string_eq,
  if◌then◌else◌,
}
use code_suit.Base.Order.{codes}

-- What the code uses of Python: `strip`, `str(PurePosixPath(_))` and `lower`.
pub record Python : Type 0 where
  pub strip : String → String
  pub posix_path : String → String
  pub lower : String → String

-- `not s.strip()`
abbrev pub is_blank : Python → String → Bool
is_blank py s = elim (py.strip s) [ String.[] ↦ true | String.◌∷◌ _ _ ↦ false ]

-- `path.replace("\\", "/")`
unfoldable pub with_slashes : String → String
unfolding nat_eq
with_slashes String.[] = String.[]
with_slashes (String.◌∷◌ c s) =
    let rest = with_slashes s in String.◌∷◌ (if code c == 92 then "/" else c) rest

-- `s.startswith(p)` and what follows the prefix.
unfoldable pub after_prefix : List ℕ → String → Option String
unfolding nat_eq
after_prefix [] s = some s
after_prefix (p ∷ ps) String.[] = none
after_prefix (p ∷ ps) (String.◌∷◌ c s) =
    let rest = after_prefix ps s in if p == code c then rest else none

unfoldable pub starts_with : String → String → Bool
unfolding after_prefix codes
starts_with p s = elim (after_prefix (codes p) s) [ none ↦ false | some _ ↦ true ]

unfoldable pub remove_prefix : String → String → String
unfolding after_prefix codes
remove_prefix p s = elim (after_prefix (codes p) s) [ none ↦ s | some rest ↦ rest ]

-- `s.endswith(p)`
unfoldable pub ends_with : String → String → Bool
unfolding string_eq
ends_with p String.[] = p == String.[]
ends_with p (String.◌∷◌ c s) = p == String.◌∷◌ c s || ends_with p s

-- `path == root or path.startswith(f"{root}/")`
unfoldable pub is_under : String → String → Bool
unfolding starts_with string_eq
is_under root path = path == root || starts_with (String.◌++◌ root "/") path

-- `s.rsplit("/", 1)[0]`, where there is a slash.
unfoldable pub before_last_slash : String → Option String
unfolding nat_eq
before_last_slash String.[] = none
before_last_slash (String.◌∷◌ c s) = elim (before_last_slash s) [
  | some t ↦ some (String.◌∷◌ c t)
  | none ↦ if code c == b'/' then some String.[] else none
]

module _ (py : Python) where
  -- A path out of the repository has none.
  unfoldable pub normalize_repository_relative_path : String → Option String
  unfolding with_slashes remove_prefix starts_with string_eq
  normalize_repository_relative_path path =
      let normalized = py.posix_path (remove_prefix "./" (py.strip (with_slashes path))) in
      if starts_with "/" normalized || normalized == ".." || starts_with "../" normalized
      then none
      else some normalized

  unfoldable pub make_file_id : String → Option String
  unfolding normalize_repository_relative_path
  make_file_id path = elim (normalize_repository_relative_path path) [
    | none ↦ none
    | some rel ↦ some (String.◌++◌ "file:" rel)
  ]
