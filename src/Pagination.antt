-- ===== src/Pagination.antt =====
-- mcp/pagination.go: pages of the lists that the server returns.
pub mod Laws
mod Samples
use morfx.Base.{
  ℕ, ◌+◌, ◌-◌, ◌==◌, ltb, leb, Bool, true, false, Option, none, some, List, [], length, take, drop,
  if◌then◌else◌, ◌⊎◌, inl, inr,
}
use morfx.Base.Bytes.{Bytes, is_empty}

abbrev pub default_list_limit : ℕ
default_list_limit = 50

abbrev pub max_list_limit : ℕ
max_list_limit = 200

-- what `strconv.Atoi` returns: an error, or a number below 0 or not
pub data AtoiResult : Type 0 where
  not_a_number negative : AtoiResult
  number : ℕ → AtoiResult

pub data PageError : Type 0 where
  invalid_cursor cursor_out_of_range : PageError

-- the limit that is used, for a list of `count` items; a limit that is not positive is 0
pub list_limit : ℕ → ℕ → ℕ
list_limit count limit =
    let chosen =
      if limit == 0
      then (if ltb count default_list_limit then count else default_list_limit)
      else limit in
    if ltb max_list_limit chosen then max_list_limit else chosen

-- where the page from `start` ends
pub page_end : ℕ → ℕ → ℕ → ℕ
page_end count start limit = if ltb count (start + limit) then count else start + limit

-- `atoi` and `itoa` are those of package strconv.
module _ (atoi : Bytes → AtoiResult) (itoa : ℕ → Bytes) where
  pub start_of : Bytes → ℕ → PageError ⊎ ℕ
  start_of cursor count = if is_empty cursor then inr 0 else elim (atoi cursor) [
    | not_a_number ↦ inl invalid_cursor
    | negative ↦ inl cursor_out_of_range
    | number index ↦ if ltb count index then inl cursor_out_of_range else inr index
  ]

  module _ {ℓ} {A : Type ℓ} where
    -- the page from `start`, and the next cursor
    pub page_at : List A → ℕ → ℕ → List A × Option Bytes
    page_at items start limit =
        if leb (length items) start
        then ([], none)
        else (let end = page_end (length items) start limit in
            (
              take (end - start) (drop start items),
              if leb (length items) end then none else some (itoa end),
            ))

    unfoldable pub apply_pagination : List A → Bytes → ℕ → PageError ⊎ (List A × Option Bytes)
    unfolding page_at page_end start_of list_limit
    apply_pagination items cursor limit = elim (start_of cursor (length items)) [
      | inl e ↦ inl e
      | inr start ↦ inr (page_at items start (list_limit (length items) limit))
    ]
