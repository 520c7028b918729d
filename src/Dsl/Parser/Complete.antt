-- ===== src/Dsl/Parser/Complete.antt =====
-- What the grammar derives is what the parser of core/dsl.go returns.
use mathlib.Core.Path.{subst}
use morfx.Base.{
  ℕ, zero, suc, ◌+◌, ◌*◌, ◌≤◌, ◌<◌, ◌≡◌, refl, ap, true, false, none, some, [], ◌∷◌, length, arith,
}
use morfx.Dsl.Query.{AgentQuery}
use morfx.Dsl.Tokens.{Tokens, token, lparen}
use morfx.Dsl.Grammar.{
  Or, OrTail, And, AndTail, Chain, ChainTail, Unary, Primary, or_operands, or_stop, or_more,
  and_operands, and_stop, and_more, chain_operands, chain_stop, chain_more, chain_more_direct,
  negation, primary, group, simple, Next, NotNext,
}
use morfx.Dsl.Parser.Simple.{Selector-parse_simple}
use morfx.Dsl.Parser.Steps.{
  Ends, parse_simple-Ends, close_group-rparen, some-match_operator, none-match_operator,
}
use morfx.Dsl.Parser.{
  ok, match_operator, match_contains, parse_or, or_loop, parse_and, and_loop, parse_simple,
  parse_contains, contains_loop, parse_unary, parse_primary, parse, all_used, fuel_for, op_direct,
  op_greater,
}

mutual
  Or-shorter : {ts rest : Tokens} {q : AgentQuery} → Or ts q rest → length rest < length ts
  Or-shorter (or_operands first tail) = omega (arith, And-shorter first, OrTail-shorter tail)

  OrTail-shorter :
      {ts rest : Tokens} {left q : AgentQuery} → OrTail left ts q rest → length rest ≤ length ts
  OrTail-shorter (or_stop _ _ end) = omega (arith, ap length end)
  OrTail-shorter (or_more next first tail) =
      omega (arith, ap length next, And-shorter first, OrTail-shorter tail)

  And-shorter : {ts rest : Tokens} {q : AgentQuery} → And ts q rest → length rest < length ts
  And-shorter (and_operands first tail) = omega (arith, Chain-shorter first, AndTail-shorter tail)

  AndTail-shorter :
      {ts rest : Tokens} {left q : AgentQuery} → AndTail left ts q rest → length rest ≤ length ts
  AndTail-shorter (and_stop _ _ end) = omega (arith, ap length end)
  AndTail-shorter (and_more next first tail) =
      omega (arith, ap length next, Chain-shorter first, AndTail-shorter tail)

  Chain-shorter : {ts rest : Tokens} {q : AgentQuery} → Chain ts q rest → length rest < length ts
  Chain-shorter (chain_operands first tail) =
      omega (arith, Unary-shorter first, ChainTail-shorter tail)

  ChainTail-shorter :
      {ts rest : Tokens} {left q : AgentQuery} → ChainTail left ts q rest → length rest ≤ length ts
  ChainTail-shorter (chain_stop _ _ _ end) = omega (arith, ap length end)
  ChainTail-shorter (chain_more next first tail) =
      omega (arith, ap length next, Unary-shorter first, ChainTail-shorter tail)
  ChainTail-shorter (chain_more_direct next first tail) =
      omega (arith, ap length next, Unary-shorter first, ChainTail-shorter tail)

  Unary-shorter : {ts rest : Tokens} {q : AgentQuery} → Unary ts q rest → length rest < length ts
  Unary-shorter (negation next operand _) = omega (arith, ap length next, Unary-shorter operand)
  Unary-shorter (primary _ first) = Primary-shorter first

  Primary-shorter :
      {ts rest : Tokens} {q : AgentQuery} → Primary ts q rest → length rest < length ts
  Primary-shorter (group open_paren inner close) =
      omega (arith, ap length open_paren, Or-shorter inner, ap length close)
  Primary-shorter (simple {ts} d) =
      subst (Ends (length ts)) (Selector-parse_simple d) (parse_simple-Ends ts)

match_contains-some :
    (ts : Tokens) {rest : Tokens} → Next op_greater ts rest → match_contains ts ≡ some (false, rest)
unfolding match_contains match_operator
match_contains-some ts h = rw h

match_contains-some_direct :
    (ts : Tokens) {rest : Tokens} → Next op_direct ts rest → match_contains ts ≡ some (true, rest)
unfolding match_contains match_operator
match_contains-some_direct ts h = rw h

match_contains-stop :
    (ts : Tokens) → NotNext op_direct ts → NotNext op_greater ts → match_contains ts ≡ none
unfolding match_contains
match_contains-stop ts d g =
    ground (arith, none-match_operator op_direct ts d, none-match_operator op_greater ts g)

-- a selector does not begin with a mark
parse_primary-simple :
    (n : ℕ) (ts : Tokens) {q : AgentQuery} {rest : Tokens}
    → parse_simple ts ≡ ok (q, rest)
    → parse_primary (suc n) ts ≡ ok (q, rest)
unfolding parse_primary parse_simple
parse_primary-simple n [] h = cc
parse_primary-simple n (token lparen v ∷ ts) h = cc
parse_primary-simple n (token _ v ∷ ts) h = h

mutual
  unfolding parse_or or_loop parse_and and_loop parse_contains contains_loop parse_unary
      parse_primary

  Or-parse_or :
      {ts rest : Tokens} {q : AgentQuery} (d : Or ts q rest) (n : ℕ)
      → 5 * length ts + 4 < n
      → parse_or n ts ≡ ok (q, rest)
  Or-parse_or d zero h = absurd (omega arith)
  Or-parse_or (or_operands first tail) (suc n) h =
      rw (And-parse_and first n (omega arith))
        (OrTail-or_loop tail n (omega (arith, And-shorter first)))

  OrTail-or_loop :
      {ts rest : Tokens} {left q : AgentQuery} (d : OrTail left ts q rest) (n : ℕ)
      → 5 * length ts < n
      → or_loop n left ts ≡ ok (q, rest)
  OrTail-or_loop d zero h = absurd (omega arith)
  OrTail-or_loop (or_stop no_more same end) (suc n) h =
      rw (none-match_operator _ _ no_more, or_loop) (cc)
  OrTail-or_loop (or_more next first tail) (suc n) h =
      rw (some-match_operator _ _ next, or_loop)
        (rw (And-parse_and first n (omega (arith, ap length next)))
          (OrTail-or_loop tail n (omega (arith, ap length next, And-shorter first))))

  And-parse_and :
      {ts rest : Tokens} {q : AgentQuery} (d : And ts q rest) (n : ℕ)
      → 5 * length ts + 3 < n
      → parse_and n ts ≡ ok (q, rest)
  And-parse_and d zero h = absurd (omega arith)
  And-parse_and (and_operands first tail) (suc n) h =
      rw (Chain-parse_contains first n (omega arith))
        (AndTail-and_loop tail n (omega (arith, Chain-shorter first)))

  AndTail-and_loop :
      {ts rest : Tokens} {left q : AgentQuery} (d : AndTail left ts q rest) (n : ℕ)
      → 5 * length ts < n
      → and_loop n left ts ≡ ok (q, rest)
  AndTail-and_loop d zero h = absurd (omega arith)
  AndTail-and_loop (and_stop no_more same end) (suc n) h =
      rw (none-match_operator _ _ no_more, and_loop) (cc)
  AndTail-and_loop (and_more next first tail) (suc n) h =
      rw (some-match_operator _ _ next, and_loop)
        (rw (Chain-parse_contains first n (omega (arith, ap length next)))
          (AndTail-and_loop tail n (omega (arith, ap length next, Chain-shorter first))))

  Chain-parse_contains :
      {ts rest : Tokens} {q : AgentQuery} (d : Chain ts q rest) (n : ℕ)
      → 5 * length ts + 2 < n
      → parse_contains n ts ≡ ok (q, rest)
  Chain-parse_contains d zero h = absurd (omega arith)
  Chain-parse_contains (chain_operands first tail) (suc n) h =
      rw (Unary-parse_unary first n (omega arith))
        (ChainTail-contains_loop tail n (omega (arith, Unary-shorter first)))

  ChainTail-contains_loop :
      {ts rest : Tokens} {left q : AgentQuery} (d : ChainTail left ts q rest) (n : ℕ)
      → 5 * length ts < n
      → contains_loop n left ts ≡ ok (q, rest)
  ChainTail-contains_loop d zero h = absurd (omega arith)
  ChainTail-contains_loop (chain_stop no_direct no_more same end) (suc n) h =
      rw (match_contains-stop _ no_direct no_more, contains_loop) (cc)
  ChainTail-contains_loop (chain_more next first tail) (suc n) h =
      rw (match_contains-some _ next, contains_loop)
        (rw (Unary-parse_unary first n (omega (arith, ap length next)))
          (ChainTail-contains_loop tail n (omega (arith, ap length next, Unary-shorter first))))
  ChainTail-contains_loop (chain_more_direct next first tail) (suc n) h =
      rw (match_contains-some_direct _ next, contains_loop)
        (rw (Unary-parse_unary first n (omega (arith, ap length next)))
          (ChainTail-contains_loop tail n (omega (arith, ap length next, Unary-shorter first))))

  Unary-parse_unary :
      {ts rest : Tokens} {q : AgentQuery} (d : Unary ts q rest) (n : ℕ)
      → 5 * length ts + 1 < n
      → parse_unary n ts ≡ ok (q, rest)
  Unary-parse_unary d zero h = absurd (omega arith)
  Unary-parse_unary (negation next operand same) (suc n) h =
      rw (some-match_operator _ _ next, parse_unary)
        (rw (Unary-parse_unary operand n (omega (arith, ap length next))) (cc))
  Unary-parse_unary (primary no_not first) (suc n) h =
      rw (none-match_operator _ _ no_not, parse_unary) (Primary-parse_primary first n (omega arith))

  Primary-parse_primary :
      {ts rest : Tokens} {q : AgentQuery} (d : Primary ts q rest) (n : ℕ)
      → 5 * length ts < n
      → parse_primary n ts ≡ ok (q, rest)
  Primary-parse_primary d zero h = absurd (omega arith)
  Primary-parse_primary (group open_paren inner close) (suc n) h = rw open_paren (
      rw (Or-parse_or inner n (omega (arith, ap length open_paren)))
        (rw close (close_group-rparen _ _ _)))
  Primary-parse_primary (simple d) (suc n) h = parse_primary-simple n _ (Selector-parse_simple d)

pub derives-parse : (ts : Tokens) {q : AgentQuery} → Or ts q [] → parse ts ≡ ok q
unfolding parse
derives-parse ts d = rw (Or-parse_or d (fuel_for ts) (omega arith)) (unfold all_used in refl)
