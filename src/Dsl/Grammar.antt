-- ===== src/Dsl/Grammar.antt =====
-- The grammar of docs/dsl.md as an inductive relation, with the query that each rule builds.
-- `Or ts q rest` reads: an expression, whose query is `q`, stands at the front of `ts` before `rest`,
-- and every repetition is as long as it can be. Its leaf is `Selector`.
use morfx.Base.{true, false, ◌≡◌, ◌≢◌, ◌∷◌}
use morfx.Base.Bytes.{Bytes, codes}
use morfx.Dsl.Query.{
  AgentQuery, nil, cons, compound, op_and, op_or, op_not, merge_binary_query, attach_contains,
}
use morfx.Dsl.Tokens.{Tokens, token, operator, lparen, rparen}
use morfx.Dsl.Selector.{Selector}

abbrev pub Next : Bytes → Tokens → Tokens → Type 0
Next op ts rest = ts ≡ token operator op ∷ rest

abbrev pub NotNext : Bytes → Tokens → Type 0
NotNext op ts = (rest : Tokens) → ts ≢ token operator op ∷ rest

mutual
  pub data Or : Tokens → AgentQuery → Tokens → Type 0 where
    or_operands :
        {ts u rest : Tokens} {left q : AgentQuery}
        → And ts left u
        → OrTail left u q rest
        → Or ts q rest

  pub data OrTail : AgentQuery → Tokens → AgentQuery → Tokens → Type 0 where
    or_stop :
        {left q : AgentQuery} {ts rest : Tokens}
        → NotNext (codes "|") ts
        → left ≡ q
        → ts ≡ rest
        → OrTail left ts q rest
    or_more :
        {left right q : AgentQuery} {ts u v rest : Tokens}
        → Next (codes "|") ts u
        → And u right v
        → OrTail (merge_binary_query op_or left right) v q rest
        → OrTail left ts q rest

  pub data And : Tokens → AgentQuery → Tokens → Type 0 where
    and_operands :
        {ts u rest : Tokens} {left q : AgentQuery}
        → Chain ts left u
        → AndTail left u q rest
        → And ts q rest

  pub data AndTail : AgentQuery → Tokens → AgentQuery → Tokens → Type 0 where
    and_stop :
        {left q : AgentQuery} {ts rest : Tokens}
        → NotNext (codes "&") ts
        → left ≡ q
        → ts ≡ rest
        → AndTail left ts q rest
    and_more :
        {left right q : AgentQuery} {ts u v rest : Tokens}
        → Next (codes "&") ts u
        → Chain u right v
        → AndTail (merge_binary_query op_and left right) v q rest
        → AndTail left ts q rest

  pub data Chain : Tokens → AgentQuery → Tokens → Type 0 where
    chain_operands :
        {ts u rest : Tokens} {left q : AgentQuery}
        → Unary ts left u
        → ChainTail left u q rest
        → Chain ts q rest

  pub data ChainTail : AgentQuery → Tokens → AgentQuery → Tokens → Type 0 where
    chain_stop :
        {left q : AgentQuery} {ts rest : Tokens}
        → NotNext (codes ">>") ts
        → NotNext (codes ">") ts
        → left ≡ q
        → ts ≡ rest
        → ChainTail left ts q rest
    chain_more_direct :
        {left right q : AgentQuery} {ts u v rest : Tokens}
        → Next (codes ">>") ts u
        → Unary u right v
        → ChainTail (attach_contains left right true) v q rest
        → ChainTail left ts q rest
    chain_more :
        {left right q : AgentQuery} {ts u v rest : Tokens}
        → Next (codes ">") ts u
        → Unary u right v
        → ChainTail (attach_contains left right false) v q rest
        → ChainTail left ts q rest

  pub data Unary : Tokens → AgentQuery → Tokens → Type 0 where
    negation :
        {q q' : AgentQuery} {ts u rest : Tokens}
        → Next (codes "!") ts u
        → Unary u q rest
        → compound op_not (cons q nil) ≡ q'
        → Unary ts q' rest
    primary :
        {q : AgentQuery} {ts rest : Tokens}
        → NotNext (codes "!") ts
        → Primary ts q rest
        → Unary ts q rest

  pub data Primary : Tokens → AgentQuery → Tokens → Type 0 where
    group :
        {q : AgentQuery} {ts u v rest : Tokens} {value value' : Bytes}
        → ts ≡ token lparen value ∷ u
        → Or u q v
        → v ≡ token rparen value' ∷ rest
        → Primary ts q rest
    simple : {q : AgentQuery} {ts rest : Tokens} → Selector ts q rest → Primary ts q rest
