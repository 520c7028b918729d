-- ===== src/Dsl/Samples.antt =====
-- Tests of the selector language, and its theorems at concrete inputs.
use morfx.Base.{◌≡◌, ◌≢◌, ◌↔◌, refl, true, false, [], ◌∷◌}
use morfx.Base.Bytes.{Bytes, codes, beq}
use morfx.Dsl.Query.{
  AgentQuery, agent_query, no_child, child, nil, cons, compound, op_or, op_not, merge_binary_query,
  attach_contains,
}
use morfx.Dsl.Query.Laws.{
  attach_contains-merge_binary_query, attach_each, nest, attach_each-eq-nest, merge_each,
  merge_each-flat,
}
use morfx.Dsl.Tokens.{Tokens, token, selector, operator}
use morfx.Dsl.Grammar.{Or}
use morfx.Dsl.Parser.{
  ok, err, out_of_fuel, parse, parse_dsl, missing_paren, type_with_shorthand, query_required,
}
use morfx.Dsl.Correct.{parse_iff, parse_dsl_total}

abbrev simple_query : Bytes → Bytes → AgentQuery
simple_query kind name = agent_query kind name no_child false [] nil []

abbrev func_a : AgentQuery
func_a = simple_query (codes "func") (codes "a")

abbrev call_b : AgentQuery
call_b = simple_query (codes "call") (codes "b")

union_and_negation :
    parse_dsl (codes "func:a | !m:*  string")
    ≡ ok (
        compound op_or (
          cons func_a (
            cons
              (compound op_not (
                cons
                  (agent_query
                    (codes "m")
                    (codes "*")
                    no_child
                    false
                    []
                    nil
                    ((codes "type", codes "string") ∷ []))
                  nil))
              nil)))
unfolding parse_dsl merge_binary_query attach_contains
union_and_negation = refl

unclosed : parse_dsl (codes "(func:a") ≡ err missing_paren
unfolding parse_dsl merge_binary_query attach_contains
unclosed = refl

two_types : parse_dsl (codes "field:x type=int string") ≡ err type_with_shorthand
unfolding parse_dsl merge_binary_query attach_contains
two_types = refl

blank : parse_dsl (codes " \t") ≡ err query_required
unfolding parse_dsl merge_binary_query attach_contains
blank = refl

-- `>` behind a negation is recorded on the negation itself, not on its operand.
negation_contains :
    parse_dsl (codes "!func:a > call:b")
    ≡ ok (agent_query [] [] (child call_b) false op_not (cons func_a nil) [])
unfolding parse_dsl merge_binary_query attach_contains
negation_contains = refl

abbrev union_tokens : Tokens
union_tokens =
    token selector (codes "func:a")
    ∷ token operator (codes "|")
    ∷ token selector (codes "call:b")
    ∷ []

parse_iff_example :
    (parse union_tokens ≡ ok (compound op_or (cons func_a (cons call_b nil))))
    ↔ Or union_tokens (compound op_or (cons func_a (cons call_b nil))) []
parse_iff_example = parse_iff union_tokens (compound op_or (cons func_a (cons call_b nil)))

parse_dsl_total_example : parse_dsl (codes "(func:a | !m:*) > call:b x=1") ≢ out_of_fuel
parse_dsl_total_example = parse_dsl_total (codes "(func:a | !m:*) > call:b x=1")

attach_contains-merge_binary_query_example :
    attach_contains (merge_binary_query op_or func_a call_b) func_a true
    ≡ merge_binary_query op_or
        (attach_contains func_a func_a true)
        (attach_contains call_b func_a true)
unfolding beq
attach_contains-merge_binary_query_example =
    attach_contains-merge_binary_query op_or func_a call_b func_a true refl

attach_each-eq-nest_example :
    attach_each func_a ((call_b, true) ∷ (func_a, false) ∷ [])
    ≡ nest func_a ((call_b, true) ∷ (func_a, false) ∷ [])
attach_each-eq-nest_example =
    attach_each-eq-nest func_a ((call_b, true) ∷ (func_a, false) ∷ []) (refl, refl)
      ((refl, refl), ((refl, refl), tt))

merge_each-flat_example :
    merge_each op_or func_a (cons call_b (cons func_a nil))
    ≡ compound op_or (cons func_a (cons call_b (cons func_a nil)))
unfolding beq
merge_each-flat_example = merge_each-flat op_or func_a call_b (cons func_a nil) refl
