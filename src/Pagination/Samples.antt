-- ===== src/Pagination/Samples.antt =====
-- Tests of pages, and the theorem on them with concrete cursors.
use morfx.Base.{length, ◌≤◌, ◌<◌, ℕ, ◌≡◌, refl, false, none, some, List, [], ◌∷◌, inl, inr}
use morfx.Base.Bytes.{Bytes, is_empty}
use morfx.Pagination.{AtoiResult, not_a_number, number, cursor_out_of_range, apply_pagination}
use morfx.Pagination.Laws.{read_from, read_from-all, apply_pagination-bounded}

-- Numbers as texts of one character.
abbrev itoa : ℕ → Bytes
itoa n = n ∷ []

abbrev atoi : Bytes → AtoiResult
atoi (n ∷ []) = number n
atoi _ = not_a_number

abbrev three : List ℕ
three = 10 ∷ 20 ∷ 30 ∷ []

second_page : apply_pagination atoi itoa three (itoa 2) 2 ≡ inr (30 ∷ [], none)
unfolding apply_pagination is_empty
second_page = refl

past_the_end : apply_pagination atoi itoa three (itoa 4) 2 ≡ inl cursor_out_of_range
unfolding apply_pagination is_empty
past_the_end = refl

itoa_not_empty : (n : ℕ) → is_empty (itoa n) ≡ false
unfolding is_empty
itoa_not_empty n = refl

read_from-all_example : read_from atoi itoa 4 three 2 [] ≡ some three
read_from-all_example = read_from-all atoi itoa (λ n. refl) itoa_not_empty three 2

second_page_of_one : apply_pagination atoi itoa three (itoa 1) 1 ≡ inr (20 ∷ [], some (itoa 2))
unfolding apply_pagination is_empty
second_page_of_one = refl

apply_pagination-bounded_example :
    (length {A = ℕ} (20 ∷ []) ≤ 200) × (0 < 1 → length {A = ℕ} (20 ∷ []) ≤ 1)
apply_pagination-bounded_example =
    apply_pagination-bounded atoi itoa three (itoa 1) 1 (20 ∷ []) (some (itoa 2)) second_page_of_one
