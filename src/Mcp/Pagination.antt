-- ===== src/Mcp/Pagination.antt =====
-- mcp/pagination.py: the pages of a list result.
pub mod Pages
use code_suit.Base.{
  ℕ, ◌+◌, Bool, true, false, Option, none, some, List, length, take, drop, ltb, if◌then◌else◌,
}
use code_suit.Base.Int.{ℤ, pos, is_negative, is_nonpositive, to_ℕ}
use code_suit.Base.Result.{Result, ok, err, and_then}

pub data PageError : Type 0 where
  limit_not_positive limit_too_large offset_negative : PageError

pub record ListResult (A : Type 0) : Type 0 where
  pub items : List A
  pub limit : ℕ
  pub offset : ℕ
  pub total : ℕ
  pub truncated : Bool
  pub next_offset : Option ℕ

abbrev pub default_limit : ℤ
default_limit = pos 50

abbrev pub max_limit : ℕ
max_limit = 200

unfoldable pub normalize_limit : ℤ → ℤ → Result PageError (ℕ × ℕ)
normalize_limit limit offset =
    if is_nonpositive limit
    then err limit_not_positive
    else if ltb max_limit (to_ℕ limit)
    then err limit_too_large
    else if is_negative offset
    then err offset_negative
    else ok (to_ℕ limit, to_ℕ offset)

-- `limit=None` is the default.
unfoldable pub normalize : Option ℤ → ℤ → Result PageError (ℕ × ℕ)
unfolding normalize_limit
normalize none offset = normalize_limit default_limit offset
normalize (some limit) offset = normalize_limit limit offset

module _ {A : Type 0} where
  unfoldable pub page : List A → ℕ × ℕ → ListResult A
  page items (limit, offset) =
      let truncated : Bool = ltb (offset + limit) (length items) in
      record {
        items = take limit (drop offset items);
        limit = limit;
        offset = offset;
        total = length items;
        truncated = truncated;
        next_offset = if truncated then some (offset + limit) else none;
      }

  unfoldable pub paginate : List A → Option ℤ → ℤ → Result PageError (ListResult A)
  unfolding normalize page
  paginate items limit offset = and_then (normalize limit offset) (λ bounds. ok (page items bounds))
