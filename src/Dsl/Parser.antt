-- ===== src/Dsl/Parser.antt =====
-- `dslParser` and `ParseDSL` of core/dsl.go. The position in the tokens is the list of those left.
pub mod Steps
pub mod Total
pub mod Simple
pub mod Sound
pub mod Complete
use morfx.Base.{
  ℕ, zero, suc, ◌+◌, ◌*◌, Bool, true, false, ◌||◌, Option, none, some, List, [], ◌∷◌, ◌++◌, length,
  if◌then◌else◌,
}
use morfx.Base.Bytes.{Bytes, codes, beq, cut_byte, is_empty, join, trim_space}
use morfx.Dsl.Query.{
  AgentQuery, Attributes, no_child, nil, cons, agent_query, compound, op_and, op_or, op_not,
  merge_binary_query, attach_contains,
}
use morfx.Dsl.Tokens.{Tokens, token, selector, operator, lparen, rparen, attribute, tokenize_dsl}

-- The messages of `fmt.Errorf`; a wrapped error is an argument.
pub data DslError : Type 0 where
  query_required selector_required missing_paren selector_syntax type_with_shorthand : DslError
  unexpected_token invalid_attribute duplicate_attribute : Bytes → DslError
  invalid_or invalid_and invalid_child invalid_not : DslError → DslError

-- `out_of_fuel` belongs to the model only.
pub data Result {ℓ} (X : Type ℓ) : Type ℓ where
  out_of_fuel : Result X
  err : DslError → Result X
  ok : X → Result X

infixl 5 ◌>>=◌
abbrev pub ◌>>=◌ {ℓ κ} : {X : Type ℓ} {Y : Type κ} → Result X → (X → Result Y) → Result Y
out_of_fuel >>= next = out_of_fuel
err message >>= next = err message
ok value >>= next = next value

-- `if err != nil { return fmt.Errorf("…: %w", err) }`
abbrev pub wrap {ℓ} : {A : Type ℓ} → (DslError → DslError) → Result A → Result A
wrap g (ok a) = ok a
wrap g (err e) = err (g e)
wrap g out_of_fuel = out_of_fuel

abbrev pub Parsed : Type 0
Parsed = Result (AgentQuery × Tokens)

pub match_operator : Bytes → Tokens → Option Tokens
unfolding beq
match_operator op (token operator value ∷ ts) = if beq value op then some ts else none
match_operator op _ = none

pub match_rparen : Tokens → Option Tokens
match_rparen (token rparen value ∷ ts) = some ts
match_rparen _ = none

pub has_key : Bytes → Attributes → Bool
unfolding beq
has_key k [] = false
has_key k ((j, v) ∷ m) = beq j k || has_key k m

-- one round of the loop of `parseAttributes`: the shorthand words and the attributes so far
pub add_attribute : Bytes → List Bytes × Attributes → Result (List Bytes × Attributes)
unfolding has_key
add_attribute word (shorthand, attributes) = elim (cut_byte b'=' word) [
  | none ↦ ok (shorthand ++ word ∷ [], attributes)
  | some (before, after) ↦
      let key = trim_space before in
      let value = trim_space after in
      if is_empty key || is_empty value
      then err (invalid_attribute word)
      else if has_key key attributes
      then err (duplicate_attribute key)
      else ok (shorthand, attributes ++ (key, value) ∷ [])
]

abbrev pub type_key : Bytes
type_key = codes "type"

-- what follows the loop of `parseAttributes`
pub close_attributes : List Bytes × Attributes → Result Attributes
unfolding has_key join
close_attributes ([], attributes) = ok attributes
close_attributes (w ∷ ws, attributes) =
    if has_key type_key attributes
    then err type_with_shorthand
    else ok (attributes ++ (type_key, join (w ∷ ws) (codes " ")) ∷ [])

pub parse_attributes : Tokens → List Bytes × Attributes → Result (Attributes × Tokens)
unfolding add_attribute close_attributes
parse_attributes (token attribute value ∷ ts) found = do
  found' ← add_attribute value found
  parse_attributes ts found'
parse_attributes ts found = do attributes ← close_attributes found; ok (attributes, ts)

-- `Type` and `Name` of a selector; the name defaults to `*`
pub selector_query : Bytes → Bytes → Attributes → AgentQuery
unfolding is_empty trim_space
selector_query kind name attributes =
    agent_query (trim_space kind) (let n = trim_space name in if is_empty n then codes "*" else n)
      no_child false [] nil attributes

pub parse_simple : Tokens → Parsed
unfolding parse_attributes selector_query cut_byte trim_space is_empty
parse_simple (token selector value ∷ ts) = elim (cut_byte b':' value) [
  | none ↦ err selector_syntax
  | some (kind, name) ↦ if is_empty (trim_space kind) then err selector_syntax else (do
    (attributes, rest) ← parse_attributes ts ([], [])
    ok (selector_query kind name attributes, rest))
]
parse_simple _ = err selector_syntax

abbrev pub op_greater : Bytes
op_greater = codes ">"

abbrev pub op_direct : Bytes
op_direct = codes ">>"

-- the `switch` of `parseContains`: whether the child is direct, and the tokens behind the operator
pub match_contains : Tokens → Option (Bool × Tokens)
unfolding match_operator
match_contains ts = elim (match_operator op_direct ts) [
  | some rest ↦ some (true, rest)
  | none ↦ elim (match_operator op_greater ts) [ some rest ↦ some (false, rest) | none ↦ none ]
]

-- what `parsePrimary` does behind a parenthesised expression
pub close_group : AgentQuery × Tokens → Parsed
unfolding match_rparen
close_group (query, rest) = elim (match_rparen rest) [
  | some rest' ↦ ok (query, rest')
  | none ↦ err missing_paren
]

-- `parseOr`, its loop, `parseAnd` and so on; each call takes one unit of fuel.
unfoldable mutual
  pub parse_or : ℕ → Tokens → Parsed
  parse_or zero ts = out_of_fuel
  parse_or (suc n) ts = parse_and n ts >>= λ (left, rest). or_loop n left rest

  pub or_loop : ℕ → AgentQuery → Tokens → Parsed
  or_loop zero left ts = out_of_fuel
  or_loop (suc n) left ts = elim (match_operator (codes "|") ts) [
    | none ↦ ok (left, ts)
    | some rest ↦ wrap invalid_or (parse_and n rest) >>= λ (right, rest').
        or_loop n (merge_binary_query op_or left right) rest'
  ]

  pub parse_and : ℕ → Tokens → Parsed
  parse_and zero ts = out_of_fuel
  parse_and (suc n) ts = parse_contains n ts >>= λ (left, rest). and_loop n left rest

  pub and_loop : ℕ → AgentQuery → Tokens → Parsed
  and_loop zero left ts = out_of_fuel
  and_loop (suc n) left ts = elim (match_operator (codes "&") ts) [
    | none ↦ ok (left, ts)
    | some rest ↦ wrap invalid_and (parse_contains n rest) >>= λ (right, rest').
        and_loop n (merge_binary_query op_and left right) rest'
  ]

  pub parse_contains : ℕ → Tokens → Parsed
  parse_contains zero ts = out_of_fuel
  parse_contains (suc n) ts = parse_unary n ts >>= λ (left, rest). contains_loop n left rest

  pub contains_loop : ℕ → AgentQuery → Tokens → Parsed
  contains_loop zero left ts = out_of_fuel
  contains_loop (suc n) left ts = elim (match_contains ts) [
    | none ↦ ok (left, ts)
    | some (direct, rest) ↦ wrap invalid_child (parse_unary n rest) >>= λ (right, rest').
        contains_loop n (attach_contains left right direct) rest'
  ]

  pub parse_unary : ℕ → Tokens → Parsed
  parse_unary zero ts = out_of_fuel
  parse_unary (suc n) ts = elim (match_operator (codes "!") ts) [
    | none ↦ parse_primary n ts
    | some rest ↦ wrap invalid_not (parse_unary n rest) >>= λ (operand, rest').
        ok (compound op_not (cons operand nil), rest')
  ]

  pub parse_primary : ℕ → Tokens → Parsed
  parse_primary zero ts = out_of_fuel
  parse_primary (suc n) [] = err selector_required
  parse_primary (suc n) (token lparen value ∷ ts) = parse_or n ts >>= close_group
  parse_primary (suc n) (token kind value ∷ ts) = parse_simple (token kind value ∷ ts)

abbrev pub fuel_for : Tokens → ℕ
fuel_for ts = 5 * length ts + 5

pub all_used : AgentQuery × Tokens → Result AgentQuery
all_used (query, []) = ok query
all_used (query, token kind value ∷ ts) = err (unexpected_token value)

-- `parser.parse`: all tokens have to be used.
unfoldable pub parse : Tokens → Result AgentQuery
unfolding parse_or or_loop parse_and and_loop parse_contains contains_loop parse_unary parse_primary
    parse_simple match_operator all_used close_group match_contains
parse ts = parse_or (fuel_for ts) ts >>= all_used

-- the length test of `newDSLParser`, and `parse`
pub parse_tokens : Tokens → Result AgentQuery
parse_tokens [] = err query_required
parse_tokens (t ∷ ts) = parse (t ∷ ts)

-- `ParseDSL`
unfoldable pub parse_dsl : Bytes → Result AgentQuery
unfolding parse_tokens parse tokenize_dsl
parse_dsl dsl = elim (tokenize_dsl dsl) [ none ↦ out_of_fuel | some tokens ↦ parse_tokens tokens ]
