-- ===== src/Dsl/Query/Laws.antt =====
-- How the queries that core/dsl.go builds are shaped.
use mathlib.Core.Path.{subst}
use morfx.Base.{
  ◌≡◌, refl, ap, sym, ◌∙◌, ◌++◌, append-nil, append_assoc, Bool, true, false, ◌||◌, List, [], ◌∷◌,
  Bool-cases, inl, inr, arith,
}
use morfx.Base.Bytes.{Bytes, beq, beq_refl, beq→eq}
use morfx.Dsl.Query.{
  AgentQuery, agent_query, no_child, child, Queries, nil, cons, compound, op_and, op_or,
  append_query, merge_binary_query, attach_contains, attach_all,
}

abbrev pub operator_of : AgentQuery → Bytes
operator_of (agent_query _ _ _ _ op _ _) = op

operator_of-attach_contains :
    (q new : AgentQuery) (direct : Bool)
    → operator_of (attach_contains q new direct) ≡ operator_of q
unfolding attach_contains
operator_of-attach_contains (agent_query kind name no_child d op operands attrs) new direct =
    ground arith
operator_of-attach_contains (agent_query kind name (child q) d op operands attrs) new direct =
    ground arith

attach_all-append :
    (qs : Queries) (q new : AgentQuery) (direct : Bool)
    → attach_all (append_query qs q) new direct
      ≡ append_query (attach_all qs new direct) (attach_contains q new direct)
unfolding attach_all
attach_all-append nil q new direct = refl
attach_all-append (cons p ps) q new direct = rw (attach_all-append ps q new direct)

abbrev operands_of : AgentQuery → Queries
operands_of (agent_query _ _ _ _ _ qs _) = qs

operands_of-attach_contains :
    (q new : AgentQuery) (direct : Bool)
    → (beq (operator_of q) op_and || beq (operator_of q) op_or) ≡ true
    → operands_of (attach_contains q new direct) ≡ attach_all (operands_of q) new direct
unfolding attach_contains
operands_of-attach_contains (agent_query kind name no_child d op operands attrs) new direct h =
    ground arith
operands_of-attach_contains (agent_query kind name (child q) d op operands attrs) new direct h =
    ground arith

attach_contains-compound :
    (op : Bytes) (qs : Queries) (new : AgentQuery) (direct : Bool)
    → (beq op op_and || beq op op_or) ≡ true
    → attach_contains (compound op qs) new direct ≡ compound op (attach_all qs new direct)
unfolding attach_contains
attach_contains-compound op qs new direct h = ground arith

merge_same :
    (op : Bytes) (left right : AgentQuery)
    → beq (operator_of left) op ≡ true
    → merge_binary_query op left right ≡ compound op (append_query (operands_of left) right)
unfolding merge_binary_query
merge_same op (agent_query kind name c d lop qs attrs) right h = rw h

merge_other :
    (op : Bytes) (left right : AgentQuery)
    → beq (operator_of left) op ≡ false
    → merge_binary_query op left right ≡ compound op (cons left (cons right nil))
unfolding merge_binary_query
merge_other op (agent_query kind name c d lop qs attrs) right h = rw h

-- Where the left side of `>` or `>>` is a union or an intersection, the child is attached to each
-- operand: `(a | b) > c` builds the query of `(a > c) | (b > c)`, and the same holds for `&`.
pub attach_contains-merge_binary_query :
    (op : Bytes) (left right new : AgentQuery) (direct : Bool)
    → (beq op op_and || beq op op_or) ≡ true
    → attach_contains (merge_binary_query op left right) new direct
      ≡ merge_binary_query op (attach_contains left new direct) (attach_contains right new direct)
attach_contains-merge_binary_query op left right new direct h =
    let kept = operator_of-attach_contains left new direct in
    elim (Bool-cases (beq (operator_of left) op)) [
      | inl e ↦
          let compound_left =
            subst (λ x. (beq x op_and || beq x op_or) ≡ true) (sym (beq→eq _ op e)) h in
          rw
            (
              merge_same op left right e,
              attach_contains-compound op _ new direct h,
              attach_all-append,
            )
            (rw (
              merge_same op (attach_contains left new direct) _ (rw kept e),
              operands_of-attach_contains left new direct compound_left,
            ))
      | inr e ↦
          rw (merge_other op left right e, attach_contains-compound op _ new direct h)
            (rw
              (merge_other op (attach_contains left new direct) (attach_contains right new direct)
                (rw kept e))
              (unfold attach_contains in refl))
    ]

abbrev pub Plain : AgentQuery → Type 0
Plain (agent_query _ _ c _ op _ _) = (c ≡ no_child) × (op ≡ [])

-- Selectors `q₁ > … > qₙ` read as the parser does: each is attached to what stands before it.
abbrev pub attach_each : AgentQuery → List (AgentQuery × Bool) → AgentQuery
attach_each q [] = q
attach_each q ((p, direct) ∷ ps) = attach_each (attach_contains q p direct) ps

-- The same chain, each selector directly inside the one before.
abbrev pub nest : AgentQuery → List (AgentQuery × Bool) → AgentQuery
nest q [] = q
nest (agent_query kind name _ _ op qs attrs) ((p, direct) ∷ ps) =
    agent_query kind name (child (nest p ps)) direct op qs attrs

abbrev pub AllPlain : List (AgentQuery × Bool) → Type 0
AllPlain [] = Unit
AllPlain ((p, _) ∷ ps) = Plain p × AllPlain ps

AllPlain-snoc :
    (ps : List (AgentQuery × Bool)) (p : AgentQuery) (direct : Bool)
    → AllPlain ps
    → Plain p
    → AllPlain (ps ++ (p, direct) ∷ [])
AllPlain-snoc [] p direct hs hp = (hp, tt)
AllPlain-snoc ((q, d) ∷ ps) p direct (hq, hs) hp = (hq, AllPlain-snoc ps p direct hs hp)

attach_contains-nest :
    (q : AgentQuery) (ps : List (AgentQuery × Bool)) (p : AgentQuery) (direct : Bool)
    → Plain q
    → AllPlain ps
    → attach_contains (nest q ps) p direct ≡ nest q (ps ++ (p, direct) ∷ [])
unfolding attach_contains
attach_contains-nest (agent_query kind name c d op qs attrs) [] p direct (hc, ho) hs = rw (hc, ho)
attach_contains-nest (agent_query kind name c d op qs attrs) ((p', d') ∷ ps) p direct (hc, ho) hs =
    rw (ho, attach_contains-nest p' ps p direct hs.0 hs.1)

attach_each-from :
    (q : AgentQuery) (ps rs : List (AgentQuery × Bool))
    → Plain q
    → AllPlain ps
    → AllPlain rs
    → attach_each (nest q ps) rs ≡ nest q (ps ++ rs)
attach_each-from q ps [] h hs _ = rw append-nil
attach_each-from q ps ((r, d) ∷ rs) h hs (hr, hrs) = rw (attach_contains-nest q ps r d h hs) (
    attach_each-from q (ps ++ (r, d) ∷ []) rs h (AllPlain-snoc ps r d hs hr) hrs
    ∙ ap (nest q) (append_assoc ps ((r, d) ∷ []) rs))

-- A chain of plain selectors `q > p₁ >> p₂ …` builds a nest: each selector is contained in the one
-- before it, with the directness of the operator between the two.
pub attach_each-eq-nest :
    (q : AgentQuery) (ps : List (AgentQuery × Bool))
    → Plain q
    → AllPlain ps
    → attach_each q ps ≡ nest q ps
attach_each-eq-nest q ps h hs = attach_each-from q [] ps h tt hs

-- Operands `q₁ | … | qₙ` read as the parser does: each is merged with what stands before it.
abbrev pub merge_each : Bytes → AgentQuery → Queries → AgentQuery
merge_each op q nil = q
merge_each op q (cons p ps) = merge_each op (merge_binary_query op q p) ps

abbrev pub append_queries : Queries → Queries → Queries
append_queries nil rs = rs
append_queries (cons q qs) rs = cons q (append_queries qs rs)

append_queries-snoc :
    (qs : Queries) (p : AgentQuery) (ps : Queries)
    → append_queries (append_query qs p) ps ≡ append_queries qs (cons p ps)
append_queries-snoc nil p ps = refl
append_queries-snoc (cons q qs) p ps = rw (append_queries-snoc qs p ps)

append_queries-nil : (qs : Queries) → append_queries qs nil ≡ qs
append_queries-nil nil = refl
append_queries-nil (cons q qs) = rw (append_queries-nil qs)

merge_each-compound :
    (op : Bytes) (qs ps : Queries)
    → merge_each op (compound op qs) ps ≡ compound op (append_queries qs ps)
merge_each-compound op qs nil = ap (compound op) (sym (append_queries-nil qs))
merge_each-compound op qs (cons p ps) =
    rw (merge_same op (compound op qs) p (beq_refl op)) (
      merge_each-compound op (append_query qs p) ps
      ∙ ap (compound op) (append_queries-snoc qs p ps))

-- A union or an intersection of `n + 2` operands is one flat query with those operands in their
-- order; only a first operand that is itself such a query gives its operands instead.
pub merge_each-flat :
    (op : Bytes) (q p : AgentQuery) (ps : Queries)
    → beq (operator_of q) op ≡ false
    → merge_each op q (cons p ps) ≡ compound op (cons q (cons p ps))
merge_each-flat op q p ps h =
    rw (merge_other op q p h) (merge_each-compound op (cons q (cons p nil)) ps)
