-- ===== src/Mcp/Pagination/Pages.antt =====
-- Following `next_offset` from the first page reads the whole list, in pages within the limits.
use code_suit.Base.{
  ℕ, zero, suc, ◌+◌, ◌-◌, ◌≤◌, ◌<◌, ◌⊎◌, true, false, Option, none, some, List, [], ◌++◌, ◌≡◌, refl,
  sym, ap, ◌∙◌, length, take, drop, ltb, arith, Bool-cases, inl, inr, ltb→lt, ltb→le, length-take,
  length-drop, min, take-append-drop, drop-drop, drop_of_length-le,
}
use code_suit.Base.Int.{ℤ, pos, negsuc, is_negative, to_ℕ}
use code_suit.Base.Result.{ok, err, and_then, Ensures}
use code_suit.Mcp.Pagination.{ListResult, max_limit, normalize_limit, page, paginate}

module _ {A : Type 0} where
  -- What a page says of its list: its size is within the limits, it is truncated exactly when items
  -- are left, and then the next offset lies behind it.
  pub record IsPage (items : List A) (p : ListResult A) : Type 0 where
    pub positive : 1 ≤ p.limit
    pub capped : p.limit ≤ max_limit
    pub size : length p.items ≡ min p.limit (length items - p.offset)
    pub content : p.items ++ drop (p.offset + p.limit) items ≡ drop p.offset items
    pub total : p.total ≡ length items
    pub next :
        ((p.truncated ≡ true)
          × (p.next_offset ≡ some (p.offset + p.limit))
          × (p.offset + p.limit < length items))
        ⊎ ((p.truncated ≡ false) × (p.next_offset ≡ none) × (drop (p.offset + p.limit) items ≡ []))

  page-IsPage :
      (items : List A) (limit offset : ℕ)
      → 1 ≤ limit
      → limit ≤ max_limit
      → IsPage items (page items (limit, offset))
  unfolding page
  page-IsPage items limit offset low high = record {
    positive = low;
    capped = high;
    size = omega (arith, length-take limit (drop offset items), length-drop offset items);
    content =
        ap (λ rest. take limit (drop offset items) ++ rest) (sym (drop-drop offset limit items))
        ∙ take-append-drop limit (drop offset items);
    total = refl;
    next = elim (Bool-cases (ltb (offset + limit) (length items))) [
      | inl more ↦ inl (more, rw more, ltb→lt (offset + limit) (length items) more)
      | inr last ↦ inr (
        last,
        rw last,
        drop_of_length-le (offset + limit) items (ltb→le (offset + limit) (length items) last),
      )
    ];
  }

  limit_page :
      (items : List A) (limit offset : ℤ)
      → Ensures (IsPage items) (and_then (normalize_limit limit offset) (λ b. ok (page items b)))
  unfolding normalize_limit
  limit_page items (negsuc n) offset = tt
  limit_page items (pos zero) offset = tt
  limit_page items (pos (suc n)) offset = elim (Bool-cases (ltb max_limit (suc n))) [
    | inl over ↦ rw over tt
    | inr fits ↦ rw fits (elim (Bool-cases (is_negative offset)) [
      | inl negative ↦ rw negative tt
      | inr natural ↦
          rw natural
            (page-IsPage items (suc n) (to_ℕ offset) (omega arith) (ltb→le max_limit (suc n) fits))
    ])
  ]

  -- Every page that is returned has between 1 and 200 items, fewer only at the end of the list,
  -- shows the items from its offset on, and names a next offset exactly when items are left.
  pub paginate-IsPage :
      (items : List A) (limit : Option ℤ) (offset : ℤ)
      → Ensures (IsPage items) (paginate items limit offset)
  unfolding paginate
  paginate-IsPage items none offset = limit_page items (pos 50) offset
  paginate-IsPage items (some limit) offset = limit_page items limit offset

  -- A client that follows `next_offset`, for at most `fuel` pages.
  pub read_pages : ℕ → List A → Option ℤ → ℤ → List A
  read_pages zero items limit offset = []
  read_pages (suc fuel) items limit offset = elim (paginate items limit offset) [
    | err _ ↦ []
    | ok p ↦
        p.items ++ (elim p.next_offset [ none ↦ [] | some n ↦ read_pages fuel items limit (pos n) ])
  ]

  paginate-ok :
      (items : List A) (n offset : ℕ)
      → suc n ≤ max_limit
      → paginate items (some (pos (suc n))) (pos offset) ≡ ok (page items (suc n, offset))
  unfolding paginate normalize_limit
  paginate-ok items n offset h = ground arith

  -- With a valid limit, following the next offsets reads every item from the start on, once and in
  -- order, in no more pages than items and one.
  pub read_pages_all :
      (fuel n offset : ℕ) (items : List A)
      → suc n ≤ max_limit
      → length items - offset < fuel
      → read_pages fuel items (some (pos (suc n))) (pos offset) ≡ drop offset items
  unfolding read_pages page
  read_pages_all zero n offset items h enough = absurd (omega arith)
  read_pages_all (suc fuel) n offset items h enough =
      let rest = read_pages_all fuel n (offset + suc n) items h in
      let whole =
        ap (λ xs. take (suc n) (drop offset items) ++ xs) (sym (drop-drop offset (suc n) items))
        ∙ take-append-drop (suc n) (drop offset items) in
      rw (paginate-ok items n offset h, read_pages)
        (elim (Bool-cases (ltb (offset + suc n) (length items))) [
          | inl more ↦
              let left = ltb→lt (offset + suc n) (length items) more in
              rw more (rw (rest (omega arith)) whole)
          | inr last ↦
              let none_left =
                drop_of_length-le (offset + suc n) items
                  (ltb→le (offset + suc n) (length items) last) in
              rw last (ap (λ xs. take (suc n) (drop offset items) ++ xs) (sym none_left) ∙ whole)
        ])
