-- ===== src/Dsl/Tokens/Total.antt =====
-- The tokenizer of core/dsl.go consumes at least one byte in each round, so its fuel is enough.
use morfx.Base.{ℕ, zero, suc, ◌≤◌, ◌≡◌, refl, some, [], ◌∷◌, length, arith, false}
use morfx.Base.Bytes.{Bytes, is_space, trim_space}
use morfx.Dsl.Tokens.{
  Tokens, push, is_mark, word, operator_token, scan_word, next_token, tokenize_loop, tokenize_dsl,
}

word-shorter : (s : Bytes) → length (word s).1 ≤ length s
unfolding word
word-shorter [] = omega arith
word-shorter (ch ∷ s) = ground (arith, word-shorter s)

operator_token-shorter : (c : ℕ) (s : Bytes) → length (operator_token c s).1 ≤ length s
unfolding operator_token
operator_token-shorter c [] = omega arith
operator_token-shorter c (d ∷ s) = ground arith

scan_word-shorter :
    (c : ℕ) (s : Bytes)
    → is_space c ≡ false
    → is_mark c ≡ false
    → length (scan_word c s).1 ≤ length s
unfolding scan_word word
scan_word-shorter c s h k = rw (h, k) (word-shorter s)

next_token-shorter : (c : ℕ) (s : Bytes) → length (next_token c s).1 ≤ length s
unfolding next_token is_mark
next_token-shorter c s = ground (arith, scan_word-shorter c s, operator_token-shorter c s)

tokenize_loop_total :
    (fuel : ℕ) (s : Bytes) (tokens : Tokens)
    → length s ≤ fuel
    → (out : Tokens) × (tokenize_loop fuel s tokens ≡ some out)
unfolding tokenize_loop
tokenize_loop_total fuel [] tokens h = (tokens, refl)
tokenize_loop_total zero (c ∷ s) tokens h = absurd (omega arith)
tokenize_loop_total (suc fuel) (c ∷ s) tokens h =
    tokenize_loop_total fuel (next_token c s).1 (push tokens (next_token c s).0)
      (omega (arith, next_token-shorter c s))

pub tokenize_dsl_total : (input : Bytes) → (out : Tokens) × (tokenize_dsl input ≡ some out)
unfolding tokenize_dsl
tokenize_dsl_total input =
    let trimmed = trim_space input in tokenize_loop_total (length trimmed) trimmed [] (omega arith)
