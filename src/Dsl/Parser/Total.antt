-- ===== src/Dsl/Parser/Total.antt =====
-- The parser of core/dsl.go returns for every list of tokens, and every text: the fuel is enough.
use morfx.Base.{ℕ, zero, suc, ◌+◌, ◌*◌, ◌<◌, ◌≢◌, Option-cases, inl, inr, [], ◌∷◌, length, arith}
use morfx.Base.Bytes.{codes}
use morfx.Dsl.Query.{AgentQuery, merge_binary_query, attach_contains, op_or, op_and}
use morfx.Dsl.Tokens.{Tokens, token, lparen}
use morfx.Dsl.Parser.Steps.{
  Ends, Ends-bind, Ends-wrap, parse_simple-Ends, match_operator-shorter, match_contains-shorter,
  close_group-Ends,
}
use morfx.Dsl.Parser.{
  out_of_fuel, match_operator, match_contains, parse_or, or_loop, parse_and, and_loop,
  parse_contains, contains_loop, parse_unary, parse_primary, parse, parse_tokens, all_used,
  fuel_for, wrap, invalid_or, invalid_and, invalid_child, invalid_not,
}

mutual
  unfolding parse_or or_loop parse_and and_loop parse_contains contains_loop parse_unary
      parse_primary

  parse_or-Ends : (n : ℕ) (ts : Tokens) → 5 * length ts + 4 < n → Ends (length ts) (parse_or n ts)
  parse_or-Ends zero ts h = absurd (omega arith)
  parse_or-Ends (suc n) ts h =
      Ends-bind _ _ (parse_and n ts) _ (parse_and-Ends n ts (omega arith))
        λ left rest s. or_loop-Ends n _ left rest s (omega arith)

  or_loop-Ends :
      (n k : ℕ) (left : AgentQuery) (ts : Tokens)
      → length ts < k
      → 5 * length ts < n
      → Ends k (or_loop n left ts)
  or_loop-Ends zero k left ts s h = absurd (omega arith)
  or_loop-Ends (suc n) k left ts s h = elim (Option-cases (match_operator (codes "|") ts)) [
    | inl e ↦ rw (e, Ends, or_loop) s
    | inr (u, e) ↦
        rw (e, Ends, or_loop)
          (let shorter = match_operator-shorter _ ts e in
            Ends-bind _ _ (wrap invalid_or (parse_and n u)) _
              (Ends-wrap _ _ (parse_and n u) (parse_and-Ends n u (omega arith)))
              λ right v s'.
                or_loop-Ends n k (merge_binary_query op_or left right) v (omega arith)
                  (omega arith))
  ]

  parse_and-Ends : (n : ℕ) (ts : Tokens) → 5 * length ts + 3 < n → Ends (length ts) (parse_and n ts)
  parse_and-Ends zero ts h = absurd (omega arith)
  parse_and-Ends (suc n) ts h =
      Ends-bind _ _ (parse_contains n ts) _ (parse_contains-Ends n ts (omega arith))
        λ left rest s. and_loop-Ends n _ left rest s (omega arith)

  and_loop-Ends :
      (n k : ℕ) (left : AgentQuery) (ts : Tokens)
      → length ts < k
      → 5 * length ts < n
      → Ends k (and_loop n left ts)
  and_loop-Ends zero k left ts s h = absurd (omega arith)
  and_loop-Ends (suc n) k left ts s h = elim (Option-cases (match_operator (codes "&") ts)) [
    | inl e ↦ rw (e, Ends, and_loop) s
    | inr (u, e) ↦
        rw (e, Ends, and_loop)
          (let shorter = match_operator-shorter _ ts e in
            Ends-bind _ _ (wrap invalid_and (parse_contains n u)) _
              (Ends-wrap _ _ (parse_contains n u) (parse_contains-Ends n u (omega arith)))
              λ right v s'.
                and_loop-Ends n k (merge_binary_query op_and left right) v (omega arith)
                  (omega arith))
  ]

  parse_contains-Ends :
      (n : ℕ) (ts : Tokens) → 5 * length ts + 2 < n → Ends (length ts) (parse_contains n ts)
  parse_contains-Ends zero ts h = absurd (omega arith)
  parse_contains-Ends (suc n) ts h =
      Ends-bind _ _ (parse_unary n ts) _ (parse_unary-Ends n ts (omega arith))
        λ left rest s. contains_loop-Ends n _ left rest s (omega arith)

  contains_loop-Ends :
      (n k : ℕ) (left : AgentQuery) (ts : Tokens)
      → length ts < k
      → 5 * length ts < n
      → Ends k (contains_loop n left ts)
  contains_loop-Ends zero k left ts s h = absurd (omega arith)
  contains_loop-Ends (suc n) k left ts s h = elim (Option-cases (match_contains ts)) [
    | inl e ↦ rw (e, Ends, contains_loop) s
    | inr ((direct, u), e) ↦
        rw (e, Ends, contains_loop)
          (let shorter = match_contains-shorter ts e in
            Ends-bind _ _ (wrap invalid_child (parse_unary n u)) _
              (Ends-wrap _ _ (parse_unary n u) (parse_unary-Ends n u (omega arith)))
              λ right v s'.
                contains_loop-Ends n k (attach_contains left right direct) v (omega arith)
                  (omega arith))
  ]

  parse_unary-Ends :
      (n : ℕ) (ts : Tokens) → 5 * length ts + 1 < n → Ends (length ts) (parse_unary n ts)
  parse_unary-Ends zero ts h = absurd (omega arith)
  parse_unary-Ends (suc n) ts h = elim (Option-cases (match_operator (codes "!") ts)) [
    | inl e ↦ rw (e, Ends, parse_unary) (parse_primary-Ends n ts (omega arith))
    | inr (u, e) ↦
        rw (e, Ends, parse_unary)
          (let shorter = match_operator-shorter _ ts e in
            Ends-bind _ _ (wrap invalid_not (parse_unary n u)) _
              (Ends-wrap _ _ (parse_unary n u) (parse_unary-Ends n u (omega arith)))
              λ operand v s. omega arith)
  ]

  parse_primary-Ends :
      (n : ℕ) (ts : Tokens) → 5 * length ts < n → Ends (length ts) (parse_primary n ts)
  parse_primary-Ends zero ts h = absurd (omega arith)
  parse_primary-Ends (suc n) [] h = tt
  parse_primary-Ends (suc n) (token lparen value ∷ ts) h =
      Ends-bind _ _ (parse_or n ts) _ (parse_or-Ends n ts (omega arith))
        λ q u s. close_group-Ends _ q u (omega arith)
  parse_primary-Ends (suc n) (token kind value ∷ ts) h = parse_simple-Ends (token kind value ∷ ts)

pub parse_or_total : (ts : Tokens) → Ends (length ts) (parse_or (fuel_for ts) ts)
parse_or_total ts = parse_or-Ends (fuel_for ts) ts (omega arith)

pub parse-ne-out_of_fuel : (ts : Tokens) → parse ts ≢ out_of_fuel
unfolding parse all_used
parse-ne-out_of_fuel ts h = ground (arith, parse_or_total ts)

pub parse_tokens-ne-out_of_fuel : (ts : Tokens) → parse_tokens ts ≢ out_of_fuel
unfolding parse_tokens
parse_tokens-ne-out_of_fuel [] h = cc
parse_tokens-ne-out_of_fuel (t ∷ ts) h = parse-ne-out_of_fuel (t ∷ ts) h
