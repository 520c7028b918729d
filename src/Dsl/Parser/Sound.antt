-- ===== src/Dsl/Parser/Sound.antt =====
-- What the parser of core/dsl.go returns is what the grammar derives.
use morfx.Base.{
  ℕ, zero, suc, ◌≡◌, refl, true, false, Option-cases, inl, inr, none, some, [], ◌∷◌, arith,
}
use morfx.Base.Bytes.{codes}
use morfx.Dsl.Query.{AgentQuery, merge_binary_query, attach_contains, op_or, op_and}
use morfx.Dsl.Tokens.{Tokens, token, lparen}
use morfx.Dsl.Grammar.{
  Or, OrTail, And, AndTail, Chain, ChainTail, Unary, Primary, or_operands, or_stop, or_more,
  and_operands, and_stop, and_more, chain_operands, chain_stop, chain_more, chain_more_direct,
  negation, primary, group, simple, Next,
}
use morfx.Dsl.Parser.Simple.{parse_simple-Selector}
use morfx.Dsl.Parser.Steps.{
  >>=-eq-ok, wrap-eq-ok, close_group-eq-ok, match_operator-some, match_operator-none,
}
use morfx.Dsl.Parser.{
  Result, ok, match_operator, match_contains, parse_or, or_loop, parse_and, and_loop,
  parse_contains, contains_loop, parse_unary, parse_primary, parse, all_used, fuel_for, wrap,
  invalid_or, invalid_and, invalid_child, invalid_not, op_direct, op_greater,
}

ok-injective {ℓ κ} :
    {A : Type ℓ} {B : Type κ} {a c : A} {b d : B}
    → ◌≡◌ {A = Result (A × B)} (ok (a, b)) (ok (c, d))
    → (a ≡ c) × (b ≡ d)
ok-injective h = (cc, cc)

match_contains-direct :
    (ts : Tokens) {rest : Tokens} → match_contains ts ≡ some (true, rest) → Next op_direct ts rest
unfolding match_contains
match_contains-direct ts h = ground (arith, match_operator-some op_direct ts)

match_contains-greater :
    (ts : Tokens) {rest : Tokens} → match_contains ts ≡ some (false, rest) → Next op_greater ts rest
unfolding match_contains
match_contains-greater ts h = ground (arith, match_operator-some op_greater ts)

match_contains-none :
    (ts : Tokens)
    → match_contains ts ≡ none
    → (match_operator op_direct ts ≡ none) × (match_operator op_greater ts ≡ none)
unfolding match_contains
match_contains-none ts h = ground arith

mutual
  unfolding parse_or or_loop parse_and and_loop parse_contains contains_loop parse_unary
      parse_primary

  parse_or-Or :
      (n : ℕ) (ts : Tokens) {q : AgentQuery} {rest : Tokens}
      → parse_or n ts ≡ ok (q, rest)
      → Or ts q rest
  parse_or-Or zero ts h = cc
  parse_or-Or (suc n) ts h =
      let ((left, u), first, after) = >>=-eq-ok (parse_and n ts) _ h in
      or_operands (parse_and-And n ts first) (or_loop-OrTail n left u after)

  or_loop-OrTail :
      (n : ℕ) (left : AgentQuery) (ts : Tokens) {q : AgentQuery} {rest : Tokens}
      → or_loop n left ts ≡ ok (q, rest)
      → OrTail left ts q rest
  or_loop-OrTail zero left ts h = cc
  or_loop-OrTail (suc n) left ts h = elim (Option-cases (match_operator (codes "|") ts)) [
    | inl e ↦
        let (same, end) = ok-injective (rw (e, or_loop) at h) in
        or_stop (match_operator-none _ ts e) same end
    | inr (u, e) ↦
        let ((right, v), first, after) =
          >>=-eq-ok (wrap invalid_or (parse_and n u)) _ (rw (e, or_loop) at h) in
        or_more (match_operator-some _ ts e)
          (parse_and-And n u (wrap-eq-ok _ (parse_and n u) first))
          (or_loop-OrTail n (merge_binary_query op_or left right) v after)
  ]

  parse_and-And :
      (n : ℕ) (ts : Tokens) {q : AgentQuery} {rest : Tokens}
      → parse_and n ts ≡ ok (q, rest)
      → And ts q rest
  parse_and-And zero ts h = cc
  parse_and-And (suc n) ts h =
      let ((left, u), first, after) = >>=-eq-ok (parse_contains n ts) _ h in
      and_operands (parse_contains-Chain n ts first) (and_loop-AndTail n left u after)

  and_loop-AndTail :
      (n : ℕ) (left : AgentQuery) (ts : Tokens) {q : AgentQuery} {rest : Tokens}
      → and_loop n left ts ≡ ok (q, rest)
      → AndTail left ts q rest
  and_loop-AndTail zero left ts h = cc
  and_loop-AndTail (suc n) left ts h = elim (Option-cases (match_operator (codes "&") ts)) [
    | inl e ↦
        let (same, end) = ok-injective (rw (e, and_loop) at h) in
        and_stop (match_operator-none _ ts e) same end
    | inr (u, e) ↦
        let ((right, v), first, after) =
          >>=-eq-ok (wrap invalid_and (parse_contains n u)) _ (rw (e, and_loop) at h) in
        and_more (match_operator-some _ ts e)
          (parse_contains-Chain n u (wrap-eq-ok _ (parse_contains n u) first))
          (and_loop-AndTail n (merge_binary_query op_and left right) v after)
  ]

  parse_contains-Chain :
      (n : ℕ) (ts : Tokens) {q : AgentQuery} {rest : Tokens}
      → parse_contains n ts ≡ ok (q, rest)
      → Chain ts q rest
  parse_contains-Chain zero ts h = cc
  parse_contains-Chain (suc n) ts h =
      let ((left, u), first, after) = >>=-eq-ok (parse_unary n ts) _ h in
      chain_operands (parse_unary-Unary n ts first) (contains_loop-ChainTail n left u after)

  contains_loop-ChainTail :
      (n : ℕ) (left : AgentQuery) (ts : Tokens) {q : AgentQuery} {rest : Tokens}
      → contains_loop n left ts ≡ ok (q, rest)
      → ChainTail left ts q rest
  contains_loop-ChainTail zero left ts h = cc
  contains_loop-ChainTail (suc n) left ts h = elim (Option-cases (match_contains ts)) [
    | inl e ↦
        let (same, end) = ok-injective (rw (e, contains_loop) at h) in
        let (d, g) = match_contains-none ts e in
        chain_stop (match_operator-none _ ts d) (match_operator-none _ ts g) same end
    | inr ((true, u), e) ↦
        let ((right, v), first, after) =
          >>=-eq-ok (wrap invalid_child (parse_unary n u)) _ (rw (e, contains_loop) at h) in
        chain_more_direct (match_contains-direct ts e)
          (parse_unary-Unary n u (wrap-eq-ok _ (parse_unary n u) first))
          (contains_loop-ChainTail n (attach_contains left right true) v after)
    | inr ((false, u), e) ↦
        let ((right, v), first, after) =
          >>=-eq-ok (wrap invalid_child (parse_unary n u)) _ (rw (e, contains_loop) at h) in
        chain_more (match_contains-greater ts e)
          (parse_unary-Unary n u (wrap-eq-ok _ (parse_unary n u) first))
          (contains_loop-ChainTail n (attach_contains left right false) v after)
  ]

  parse_unary-Unary :
      (n : ℕ) (ts : Tokens) {q : AgentQuery} {rest : Tokens}
      → parse_unary n ts ≡ ok (q, rest)
      → Unary ts q rest
  parse_unary-Unary zero ts h = cc
  parse_unary-Unary (suc n) ts h = elim (Option-cases (match_operator (codes "!") ts)) [
    | inl e ↦
        primary (match_operator-none _ ts e) (parse_primary-Primary n ts (rw (e, parse_unary) at h))
    | inr (u, e) ↦
        let ((operand, v), first, after) =
          >>=-eq-ok (wrap invalid_not (parse_unary n u)) _ (rw (e, parse_unary) at h) in
        let (same, end) = ok-injective after in
        negation (match_operator-some _ ts e)
          (rw end at (parse_unary-Unary n u (wrap-eq-ok _ (parse_unary n u) first))) same
  ]

  parse_primary-Primary :
      (n : ℕ) (ts : Tokens) {q : AgentQuery} {rest : Tokens}
      → parse_primary n ts ≡ ok (q, rest)
      → Primary ts q rest
  parse_primary-Primary zero ts h = cc
  parse_primary-Primary (suc n) [] h = cc
  parse_primary-Primary (suc n) (token lparen value ∷ ts) h =
      let ((query, u), first, after) = >>=-eq-ok (parse_or n ts) _ h in
      let (v, end, same) = close_group-eq-ok query u after in
      group refl (rw same at (parse_or-Or n ts first)) end
  parse_primary-Primary (suc n) (token kind value ∷ ts) h =
      simple (parse_simple-Selector (token kind value ∷ ts) _ _ h)

all_used-eq-ok :
    (query : AgentQuery) (rest : Tokens) {q : AgentQuery}
    → all_used (query, rest) ≡ ok q
    → (query ≡ q) × (rest ≡ [])
unfolding all_used
all_used-eq-ok query [] h = (ground arith, refl)
all_used-eq-ok query (token _ v ∷ ts) h = cc

pub parse-derives : (ts : Tokens) {q : AgentQuery} → parse ts ≡ ok q → Or ts q []
unfolding parse
parse-derives ts h =
    let ((query, rest), first, after) = >>=-eq-ok (parse_or (fuel_for ts) ts) _ h in
    let (same, end) = all_used-eq-ok query rest after in
    rw (same, end) at (parse_or-Or (fuel_for ts) ts first)
