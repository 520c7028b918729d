-- ===== src/Dsl/Parser/Steps.antt =====
-- Facts about single steps of the parser that its theorems share.
use morfx.Base.{ℕ, suc, ◌≤◌, ◌<◌, ◌≡◌, refl, ap, Bool, none, some, List, [], ◌∷◌, length, arith}
use morfx.Base.Bytes.{Bytes, beq_iff}
use morfx.Dsl.Query.{AgentQuery, Attributes}
use morfx.Dsl.Tokens.{Tokens, token, selector, operator, rparen, attribute}
use morfx.Dsl.Grammar.{Next, NotNext}
use morfx.Dsl.Parser.{
  DslError, Result, ok, err, out_of_fuel, ◌>>=◌, wrap, match_operator, close_group, match_contains,
  op_direct, op_greater, add_attribute, close_attributes, parse_attributes, parse_simple,
}

-- A chain that succeeds had a first step that did.
pub >>=-eq-ok {ℓ κ} :
    {X : Type ℓ} {Y : Type κ} (first : Result X) (next : X → Result Y) {result : Y}
    → (first >>= next) ≡ ok result
    → (value : X) × (first ≡ ok value) × (next value ≡ ok result)
>>=-eq-ok out_of_fuel next e = cc
>>=-eq-ok (err message) next e = cc
>>=-eq-ok (ok value) next e = (value, refl, e)

pub wrap-eq-ok {ℓ} :
    {A : Type ℓ} (g : DslError → DslError) (m : Result A) {a : A} → wrap g m ≡ ok a → m ≡ ok a
wrap-eq-ok g (ok a) h = h
wrap-eq-ok g (err e) h = cc
wrap-eq-ok g out_of_fuel h = cc

pub match_operator-some :
    (op : Bytes) (ts : Tokens) {rest : Tokens} → match_operator op ts ≡ some rest → Next op ts rest
unfolding match_operator
match_operator-some op [] h = cc
match_operator-some op (token operator v ∷ ts) h = ground (arith, beq_iff v op)
match_operator-some op (token _ v ∷ ts) h = cc

pub match_operator-shorter :
    (op : Bytes) (ts : Tokens) {rest : Tokens}
    → match_operator op ts ≡ some rest
    → length ts ≡ suc (length rest)
match_operator-shorter op ts h = ap length (match_operator-some op ts h)

-- What `match_contains` takes is one token.
pub match_contains-shorter :
    (ts : Tokens) {direct : Bool} {rest : Tokens}
    → match_contains ts ≡ some (direct, rest)
    → length ts ≡ suc (length rest)
unfolding match_contains
match_contains-shorter ts h =
    ground (arith, match_operator-shorter op_direct ts, match_operator-shorter op_greater ts)

pub match_operator-none : (op : Bytes) (ts : Tokens) → match_operator op ts ≡ none → NotNext op ts
unfolding match_operator
match_operator-none op [] h r e = cc
match_operator-none op (token operator v ∷ ts) h r e = ground (arith, beq_iff v op)
match_operator-none op (token _ v ∷ ts) h r e = cc

pub some-match_operator :
    (op : Bytes) (ts : Tokens) {rest : Tokens} → Next op ts rest → match_operator op ts ≡ some rest
unfolding match_operator
some-match_operator op [] h = cc
some-match_operator op (token operator v ∷ ts) h = ground (arith, beq_iff v op)
some-match_operator op (token _ v ∷ ts) h = cc

pub none-match_operator : (op : Bytes) (ts : Tokens) → NotNext op ts → match_operator op ts ≡ none
unfolding match_operator
none-match_operator op [] h = refl
none-match_operator op (token operator v ∷ ts) h = ground (arith, beq_iff v op, h ts)
none-match_operator op (token _ v ∷ ts) h = refl

-- The parser returned, and left fewer than `k` tokens if it succeeded.
abbrev pub Ends {ℓ} : {A : Type ℓ} → ℕ → Result (A × Tokens) → Type 0
Ends k (ok (_, rest)) = length rest < k
Ends k (err _) = Unit
Ends k out_of_fuel = ⊥

-- Like `Ends`, of a result without tokens.
abbrev Returns {ℓ} : {A : Type ℓ} → Result A → Type 0
Returns out_of_fuel = ⊥
Returns _ = Unit

pub Ends-bind {ℓ κ} :
    {A : Type ℓ} {B : Type κ} (j k : ℕ) (r : Result (A × Tokens))
    (f : A × Tokens → Result (B × Tokens))
    → Ends j r
    → ((a : A) (rest : Tokens) → length rest < j → Ends k (f (a, rest)))
    → Ends k (r >>= f)
Ends-bind j k (ok (a, rest)) f h next = next a rest h
Ends-bind j k (err e) f h next = tt
Ends-bind j k out_of_fuel f h next = h

Returns-bind {ℓ κ} :
    {A : Type ℓ} {B : Type κ} (k : ℕ) (r : Result A) (f : A → Result (B × Tokens))
    → Returns r
    → ((a : A) → Ends k (f a))
    → Ends k (r >>= f)
Returns-bind k (ok a) f h next = next a
Returns-bind k (err e) f h next = tt
Returns-bind k out_of_fuel f h next = h

pub Ends-wrap {ℓ} :
    {A : Type ℓ} (k : ℕ) (g : DslError → DslError) (r : Result (A × Tokens))
    → Ends k r
    → Ends k (wrap g r)
Ends-wrap k g (ok (a, rest)) h = h
Ends-wrap k g (err e) h = h
Ends-wrap k g out_of_fuel h = h

pub Ends-weaken {ℓ} : {A : Type ℓ} (j k : ℕ) (r : Result (A × Tokens)) → j ≤ k → Ends j r → Ends k r
Ends-weaken j k (ok (a, rest)) l h = omega arith
Ends-weaken j k (err e) l h = h
Ends-weaken j k out_of_fuel l h = h

add_attribute-Returns :
    (v : Bytes) (found : List Bytes × Attributes) → Returns (add_attribute v found)
unfolding add_attribute
add_attribute-Returns v (ws, m) = ground arith

close_attributes-Returns : (found : List Bytes × Attributes) → Returns (close_attributes found)
unfolding close_attributes
close_attributes-Returns ([], m) = tt
close_attributes-Returns (w ∷ ws, m) = ground arith

pub parse_attributes-Ends :
    (ts : Tokens) (found : List Bytes × Attributes)
    → Ends (suc (length ts)) (parse_attributes ts found)
unfolding parse_attributes
parse_attributes-Ends (token attribute v ∷ ts) found =
    Returns-bind _ (add_attribute v found) _ (add_attribute-Returns v found) λ found'.
      Ends-weaken _ _ (parse_attributes ts found') (omega arith) (parse_attributes-Ends ts found')
parse_attributes-Ends [] found = ground (arith, close_attributes-Returns found)
parse_attributes-Ends (token _ v ∷ ts) found = ground (arith, close_attributes-Returns found)

-- A selector takes at least its own token.
pub parse_simple-Ends : (ts : Tokens) → Ends (length ts) (parse_simple ts)
unfolding parse_simple
parse_simple-Ends (token selector v ∷ ts) = ground (arith, parse_attributes-Ends ts ([], []))
parse_simple-Ends [] = tt
parse_simple-Ends (token _ v ∷ ts) = tt

pub close_group-Ends :
    (k : ℕ) (q : AgentQuery) (ts : Tokens) → length ts < k → Ends k (close_group (q, ts))
unfolding close_group
close_group-Ends k q [] h = tt
close_group-Ends k q (token rparen v ∷ ts) h = omega arith
close_group-Ends k q (token _ v ∷ ts) h = tt

pub close_group-eq-ok :
    (q : AgentQuery) (ts : Tokens) {q' : AgentQuery} {rest : Tokens}
    → close_group (q, ts) ≡ ok (q', rest)
    → (value : Bytes) × (ts ≡ token rparen value ∷ rest) × (q ≡ q')
unfolding close_group
close_group-eq-ok q [] h = cc
close_group-eq-ok q (token rparen v ∷ ts) h = (v, ground arith, ground arith)
close_group-eq-ok q (token _ v ∷ ts) h = cc

pub close_group-rparen :
    (q : AgentQuery) (value : Bytes) (rest : Tokens)
    → close_group (q, token rparen value ∷ rest) ≡ ok (q, rest)
unfolding close_group
close_group-rparen q value rest = refl
