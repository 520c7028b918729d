-- ===== src/Pagination/Laws.antt =====
-- A client that follows the cursors of mcp/pagination.go reads the whole list.
use morfx.Base.{
  ℕ, zero, suc, ◌+◌, ◌-◌, ◌≡◌, ◌≤◌, ◌<◌, refl, ap, ◌∙◌, ltb, leb, true, false, Option, none, some,
  List, [], ◌∷◌, ◌++◌, length, length-drop, length-take, if-split, take, drop, take-append-drop,
  ◌⊎◌, inl, inr, arith,
}
use morfx.Base.Bytes.{Bytes, is_empty}
use morfx.Pagination.{
  AtoiResult, number, PageError, list_limit, page_end, start_of, page_at, apply_pagination,
}

ℕ-cases : (a b : ℕ) → (a ≤ b) ⊎ (b < a)
ℕ-cases a b = ground arith

page_end-last : (count start limit : ℕ) → count ≤ start + limit → page_end count start limit ≡ count
unfolding page_end
page_end-last count start limit h = ground arith

page_end-next :
    (count start limit : ℕ) → start + limit < count → page_end count start limit ≡ start + limit
unfolding page_end
page_end-next count start limit h = ground arith

list_limit-bounds :
    (count limit : ℕ)
    → (list_limit count limit ≤ 200) × (0 < limit → list_limit count limit ≤ limit)
unfolding list_limit
list_limit-bounds count limit = ground arith

list_limit-positive : (count limit : ℕ) → 0 < count → 0 < list_limit count limit
unfolding list_limit
list_limit-positive count limit h = ground arith

module _ {ℓ} {A : Type ℓ} where
  drop-all : (n : ℕ) (xs : List A) → length xs ≤ n → drop n xs ≡ []
  drop-all zero [] h = refl
  drop-all zero (x ∷ xs) h = absurd (omega arith)
  drop-all (suc n) [] h = refl
  drop-all (suc n) (x ∷ xs) h = drop-all n xs (omega arith)

  take-all : (n : ℕ) (xs : List A) → length xs ≤ n → take n xs ≡ xs
  take-all zero [] h = refl
  take-all zero (x ∷ xs) h = absurd (omega arith)
  take-all (suc n) [] h = refl
  take-all (suc n) (x ∷ xs) h = ap (◌∷◌ x) (take-all n xs (omega arith))

  -- A list from `n` on is its next `k` items and the rest.
  take-drop-append : (n k : ℕ) (xs : List A) → take k (drop n xs) ++ drop (n + k) xs ≡ drop n xs
  take-drop-append zero k xs =
      let same : 0 + k ≡ k = omega arith in
      ap (λ m. take k xs ++ drop m xs) same ∙ take-append-drop k xs
  take-drop-append (suc n) zero [] = drop-all (suc n + 0) [] (omega arith)
  take-drop-append (suc n) (suc k) [] = drop-all (suc n + suc k) [] (omega arith)
  take-drop-append (suc n) k (x ∷ xs) =
      let same : suc n + k ≡ suc (n + k) = omega arith in
      ap (λ m. take k (drop n xs) ++ drop m (x ∷ xs)) same ∙ take-drop-append n k xs

module _ {ℓ} (atoi : Bytes → AtoiResult) (itoa : ℕ → Bytes) {A : Type ℓ} where
  abbrev pub follow :
      (Bytes → Option (List A)) → PageError ⊎ (List A × Option Bytes) → Option (List A)
  follow read (inl e) = none
  follow read (inr (page, none)) = some page
  follow read (inr (page, some cursor)) = elim (read cursor) [
    | none ↦ none
    | some rest ↦ some (page ++ rest)
  ]

  -- What a client reads that asks for one page after the other, from a cursor on; `none` stands for
  -- an error, or for the end of its fuel.
  pub read_from : ℕ → List A → ℕ → Bytes → Option (List A)
  read_from zero items limit cursor = none
  read_from (suc fuel) items limit cursor =
      follow (read_from fuel items limit) (apply_pagination atoi itoa items cursor limit)

  page_at-end :
      (items : List A) (start limit : ℕ)
      → length items ≤ start
      → page_at atoi itoa items start limit ≡ ([], none)
  unfolding page_at
  page_at-end items start limit over = ground arith

  page_at-last :
      (items : List A) (start limit : ℕ)
      → start < length items
      → length items ≤ start + limit
      → page_at atoi itoa items start limit ≡ (drop start items, none)
  unfolding page_at
  page_at-last items start limit inside last =
      let long = length-drop start items in
      let all = take-all (length items - start) (drop start items) (omega (arith, long)) in
      let whole = page_end-last (length items) start limit last in
      let not_over : leb (length items) start ≡ false = ground arith in
      let at_end : leb (length items) (length items) ≡ true = ground arith in
      rw (whole, page_at, not_over, at_end, all) refl

  page_at-next :
      (items : List A) (start limit : ℕ)
      → start + limit < length items
      → page_at atoi itoa items start limit
        ≡ (take limit (drop start items), some (itoa (start + limit)))
  unfolding page_at
  page_at-next items start limit inside =
      let width : start + limit - start ≡ limit = omega arith in
      let cut = page_end-next (length items) start limit inside in
      let not_over : leb (length items) start ≡ false = ground arith in
      let before_end : leb (length items) (start + limit) ≡ false = ground arith in
      rw (cut, page_at, not_over, before_end, width) refl

  follow-some :
      (read : Bytes → Option (List A)) (page : List A) (cursor : Bytes) (rest : List A)
      → read cursor ≡ some rest
      → follow read (inr (page, some cursor)) ≡ some (page ++ rest)
  follow-some read page cursor rest h = rw (h, follow) refl

  follow-page_at :
      (items : List A) (start limit : ℕ) (read : Bytes → Option (List A))
      → 0 < limit
      → (start + limit < length items
          → read (itoa (start + limit)) ≡ some (drop (start + limit) items))
      → follow read (inr (page_at atoi itoa items start limit)) ≡ some (drop start items)
  follow-page_at items start limit read positive next = elim (ℕ-cases (length items) start) [
    | inl over ↦ rw (page_at-end items start limit over, drop-all start items over) refl
    | inr inside ↦ elim (ℕ-cases (length items) (start + limit)) [
      | inl last ↦ rw (page_at-last items start limit inside last) refl
      | inr more ↦
          ap (λ p. follow read (inr p)) (page_at-next items start limit more)
          ∙ follow-some read (take limit (drop start items)) (itoa (start + limit))
              (drop (start + limit) items) (next more)
          ∙ ap some (take-drop-append start limit items)
    ]
  ]

  page_at-bounded :
      (items : List A) (start limit : ℕ) → length (page_at atoi itoa items start limit).0 ≤ limit
  unfolding page_at page_end
  page_at-bounded items start limit =
      let cut = length-take (page_end (length items) start limit - start) (drop start items) in
      if-split (λ (p : List A × Option Bytes). length p.0 ≤ limit) (leb (length items) start)
        (λ over. omega arith) (λ inside. ground arith)

  -- No page has more than 200 items, nor more than a limit that is not 0.
  pub apply_pagination-bounded :
      (items : List A) (cursor : Bytes) (limit : ℕ) (page : List A) (next : Option Bytes)
      → apply_pagination atoi itoa items cursor limit ≡ inr (page, next)
      → (length page ≤ 200) × (0 < limit → length page ≤ limit)
  unfolding apply_pagination
  apply_pagination-bounded items cursor limit page next h =
      let bounds = list_limit-bounds (length items) limit in
      elim (start_of atoi itoa cursor (length items))
          as (λ o.
            (elim o as (λ x. PageError ⊎ (List A × Option Bytes)) [
              | inl e ↦ inl e
              | inr start ↦ inr (page_at atoi itoa items start (list_limit (length items) limit))
            ])
              ≡ inr (page, next)
            → (length page ≤ 200) × (0 < limit → length page ≤ limit)) [
              | inl e ↦ λ wrong. ground arith
              | inr start ↦ λ right.
                  (let size = page_at-bounded items start (list_limit (length items) limit) in
                    ground arith)
            ]
        h

  module _ (itoa_is_number : (n : ℕ) → atoi (itoa n) ≡ number n)
      (itoa_not_empty : (n : ℕ) → is_empty (itoa n) ≡ false) where
    apply_pagination-itoa :
        (items : List A) (start limit : ℕ)
        → start ≤ length items
        → apply_pagination atoi itoa items (itoa start) limit
          ≡ inr (page_at atoi itoa items start (list_limit (length items) limit))
    unfolding apply_pagination start_of
    apply_pagination-itoa items start limit fits =
        let in_range : ltb (length items) start ≡ false = ground arith in
        rw (itoa_not_empty start, apply_pagination, start_of, itoa_is_number start, in_range) refl

    read_from-itoa :
        (fuel : ℕ) (items : List A) (start limit : ℕ)
        → 0 < length items
        → start ≤ length items
        → length items < fuel + start
        → read_from fuel items limit (itoa start) ≡ some (drop start items)
    unfolding read_from
    read_from-itoa zero items start limit some_item fits enough = absurd (omega arith)
    read_from-itoa (suc fuel) items start limit some_item fits enough =
        let positive = list_limit-positive (length items) limit some_item in
        ap (follow (read_from fuel items limit)) (apply_pagination-itoa items start limit fits)
        ∙ follow-page_at items start (list_limit (length items) limit) (read_from fuel items limit)
            positive
            (λ more.
              read_from-itoa fuel items (start + list_limit (length items) limit) limit some_item
                (omega (arith, more)) (omega (arith, positive)))

    -- A client that starts without a cursor and asks for page after page gets the whole list, whatever
    -- limit it asks for, and needs at most one page more than there are items. The section assumes
    -- that strconv.Atoi reads back what strconv.Itoa prints, which is not empty.
    pub read_from-all :
        (items : List A) (limit : ℕ) → read_from (suc (length items)) items limit [] ≡ some items
    unfolding read_from apply_pagination start_of is_empty
    read_from-all [] limit =
        ap (λ p. follow (read_from 0 [] limit) (inr p))
          (page_at-end [] 0 (list_limit 0 limit) (omega arith))
    read_from-all (x ∷ xs) limit =
        let positive = list_limit-positive (length (x ∷ xs)) limit (omega arith) in
        follow-page_at (x ∷ xs) 0 (list_limit (length (x ∷ xs)) limit)
          (read_from (length (x ∷ xs)) (x ∷ xs) limit) positive
          (λ more.
            read_from-itoa (length (x ∷ xs)) (x ∷ xs) (0 + list_limit (length (x ∷ xs)) limit) limit
              (omega arith) (omega (arith, more)) (omega (arith, positive)))
