-- ===== src/Validation.antt =====
-- src/suitcode/core/validation.py: the checks of the arguments that a caller gives.
use code_suit.Base.{
  ℕ, String, Bool, not, ◌||◌, List, [], ◌∷◌, any, length, ltb, nodup, string_eq, if◌then◌else◌,
}
use code_suit.Base.Int.{ℤ, to_ℕ, is_negative}
use code_suit.Base.Result.{Result, ok, err}

pub data ValidationError : Type 0 where
  out_of_range empty_batch batch_too_long empty_value duplicate_value : ValidationError

-- `value < min_value or value > max_value`, for bounds that are not negative.
unfoldable pub validate_between : ℕ → ℕ → ℤ → Result ValidationError ℤ
validate_between low high value =
    if is_negative value || ltb (to_ℕ value) low || ltb high (to_ℕ value)
    then err out_of_range
    else ok value

unfoldable pub validate_timeout_seconds : ℤ → Result ValidationError ℤ
unfolding validate_between
validate_timeout_seconds = validate_between 1 3600

unfoldable pub validate_preview_limit : ℤ → Result ValidationError ℤ
unfolding validate_between
validate_preview_limit = validate_between 1 50

unfoldable pub validate_change_preview_limit : ℤ → Result ValidationError ℤ
unfolding validate_between
validate_change_preview_limit = validate_between 1 100

abbrev pub max_batch : ℕ
max_batch = 25

module _ (is_blank : String → Bool) where
  -- `is_blank` is Python's `not item.strip()`.
  unfoldable pub validate_batch : List String → Result ValidationError (List String)
  unfolding string_eq
  validate_batch values =
      if ltb max_batch (length values)
      then err batch_too_long
      else if any is_blank values
      then err empty_value
      else if not (nodup values)
      then err duplicate_value
      else ok values

  unfoldable pub validate_exact_batch : List String → Result ValidationError (List String)
  unfolding validate_batch
  validate_exact_batch [] = err empty_batch
  validate_exact_batch (x ∷ xs) = validate_batch (x ∷ xs)
