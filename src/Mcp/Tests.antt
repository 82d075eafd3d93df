-- ===== src/Mcp/Tests.antt =====
-- Pages of a short list, and the theorems at them.
use code_suit.Base.{ℕ, none, some, List, [], ◌∷◌, ◌≡◌, refl, drop, arith}
use code_suit.Base.Int.{pos, negsuc}
use code_suit.Base.Result.{ok, err, Ensures}
use code_suit.Mcp.Pagination.{limit_not_positive, limit_too_large, offset_negative, paginate, page}
use code_suit.Mcp.Pagination.Pages.{IsPage, paginate-IsPage, read_pages, read_pages_all}

abbrev three : List ℕ
three = 7 ∷ 8 ∷ 9 ∷ []

second_page : paginate three (some (pos 2)) (pos 2) ≡ ok (page three (2, 2))
unfolding paginate
second_page = refl

zero_limit : paginate three (some (pos 0)) (pos 0) ≡ err limit_not_positive
unfolding paginate
zero_limit = refl

large_limit : paginate three (some (pos 201)) (pos 0) ≡ err limit_too_large
unfolding paginate
large_limit = refl

before_start : paginate three none (negsuc 0) ≡ err offset_negative
unfolding paginate
before_start = refl

paginate-IsPage_example : Ensures (IsPage three) (paginate three (some (pos 2)) (pos 0))
paginate-IsPage_example = paginate-IsPage three (some (pos 2)) (pos 0)

read_pages_all_example : read_pages 4 three (some (pos 2)) (pos 0) ≡ drop 0 three
read_pages_all_example = read_pages_all 4 1 0 three (omega arith) (omega arith)
