-- ===== src/Dsl/Tokens.antt =====
-- `tokenizeDSL` of core/dsl.go.
pub mod Total
use morfx.Base.{
  ℕ, zero, suc, Bool, ◌||◌, ◌&&◌, not, Option, none, some, List, [], ◌∷◌, ◌++◌, length, ◌==◌,
  if◌then◌else◌,
}
use morfx.Base.Bytes.{Bytes, codes, contains, is_space, is_empty, trim_space}

pub data TokenKind : Type 0 where
  selector operator lparen rparen attribute : TokenKind

pub data Token : Type 0 where
  token : TokenKind → Bytes → Token

abbrev pub Tokens : Type 0
Tokens = List Token

-- the characters that end a word, besides white space
pub is_mark : ℕ → Bool
is_mark ch = ch == b'(' || ch == b')' || ch == b'!' || ch == b'&' || ch == b'|' || ch == b'>'

-- the inner loop: the bytes up to the next white space or mark, and the rest
pub word : Bytes → Bytes × Bytes
word [] = ([], [])
word (ch ∷ s) =
    let (w, rest) = word s in if is_space ch || is_mark ch then ([], ch ∷ s) else (ch ∷ w, rest)

pub word_token : Bytes → Option Token
word_token value =
    if is_empty value
    then none
    else some (
        token (if contains value b':' && not (contains value b'=') then selector else attribute)
          value)

pub operator_token : ℕ → Bytes → Option Token × Bytes
operator_token c [] = (some (token operator (c ∷ [])), [])
operator_token c (d ∷ s) =
    if c == b'>' && d == b'>'
    then (some (token operator (codes ">>")), s)
    else (some (token operator (c ∷ [])), d ∷ s)

-- the part of the loop that reads a word, at its first byte `c`
pub scan_word : ℕ → Bytes → Option Token × Bytes
scan_word c s = let (w, rest) = word (c ∷ s) in (word_token (trim_space w), rest)

-- One round of the loop at a text that begins with `c`: the token that it appends, if any, and the
-- text from the new `i` on.
pub next_token : ℕ → Bytes → Option Token × Bytes
next_token c s =
    if is_space c
    then (none, s)
    else if c == b'('
    then (some (token lparen (codes "(")), s)
    else if c == b')'
    then (some (token rparen (codes ")")), s)
    else if c == b'!' || c == b'&' || c == b'|' || c == b'>'
    then operator_token c s
    else scan_word c s

abbrev pub push : Tokens → Option Token → Tokens
push ts none = ts
push ts (some t) = ts ++ t ∷ []

-- The loop, with fuel for its rounds; `none` means that the fuel ran out.
pub tokenize_loop : ℕ → Bytes → Tokens → Option Tokens
tokenize_loop fuel [] tokens = some tokens
tokenize_loop zero (c ∷ s) tokens = none
tokenize_loop (suc fuel) (c ∷ s) tokens =
    let (t, rest) = next_token c s in tokenize_loop fuel rest (push tokens t)

unfoldable pub tokenize_dsl : Bytes → Option Tokens
unfolding tokenize_loop next_token is_space word_token operator_token scan_word word is_mark
    trim_space is_empty contains
tokenize_dsl input = let trimmed = trim_space input in tokenize_loop (length trimmed) trimmed []
