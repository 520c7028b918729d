-- ===== src/Dsl/Correct.antt =====
-- The parser of core/dsl.go is the grammar, and it returns for every text.
use morfx.Base.{◌≡◌, ◌≢◌, ◌↔◌, []}
use morfx.Base.Bytes.{Bytes}
use morfx.Dsl.Query.{AgentQuery}
use morfx.Dsl.Tokens.{Tokens}
use morfx.Dsl.Tokens.Total.{tokenize_dsl_total}
use morfx.Dsl.Grammar.{Or}
use morfx.Dsl.Parser.{ok, out_of_fuel, parse, parse_dsl}
use morfx.Dsl.Parser.Total.{parse_tokens-ne-out_of_fuel}
use morfx.Dsl.Parser.Sound.{parse-derives}
use morfx.Dsl.Parser.Complete.{derives-parse}

-- The parser accepts a list of tokens with the query `q` exactly when the grammar of docs/dsl.md
-- derives the whole list with the query `q`, where the grammar is restricted to attributes of which
-- none is empty or given twice, and no shorthand stands beside `type=`.
pub parse_iff : (ts : Tokens) (q : AgentQuery) → (parse ts ≡ ok q) ↔ Or ts q []
parse_iff ts q = (parse-derives ts, derives-parse ts)

-- For every text the parser returns a query or one of its errors: neither the tokenizer nor the
-- parser uses up its fuel.
pub parse_dsl_total : (dsl : Bytes) → parse_dsl dsl ≢ out_of_fuel
unfolding parse_dsl
parse_dsl_total dsl h =
    let (tokens, e) = tokenize_dsl_total dsl in
    parse_tokens-ne-out_of_fuel tokens (rw (e, parse_dsl) at h)
