-- ===== src/Dsl/Query.antt =====
-- `AgentQuery` of core/types.go, and the two operations by which core/dsl.go combines queries.
pub mod Laws
use morfx.Base.{Bool, false, ◌||◌, List, [], if◌then◌else◌}
use morfx.Base.Bytes.{Bytes, codes, beq}

abbrev pub Attributes : Type 0
Attributes = List (Bytes × Bytes)

-- The fields in the order of the struct: Type, Name, Contains, ContainsDirect, Operator, Operands,
-- Attributes. A nil pointer is `no_child`; a nil map is the empty list.
mutual
  pub data AgentQuery : Type 0 where
    agent_query : Bytes → Bytes → Contains → Bool → Bytes → Queries → Attributes → AgentQuery

  pub data Contains : Type 0 where
    no_child : Contains
    child : AgentQuery → Contains

  pub data Queries : Type 0 where
    nil : Queries
    cons : AgentQuery → Queries → Queries

abbrev pub op_and : Bytes
op_and = codes "AND"

abbrev pub op_or : Bytes
op_or = codes "OR"

abbrev pub op_not : Bytes
op_not = codes "NOT"

-- `AgentQuery{Operator: …, Operands: …}`
abbrev pub compound : Bytes → Queries → AgentQuery
compound operator operands = agent_query [] [] no_child false operator operands []

abbrev pub append_query : Queries → AgentQuery → Queries
append_query nil q = cons q nil
append_query (cons p ps) q = cons p (append_query ps q)

unfoldable pub merge_binary_query : Bytes → AgentQuery → AgentQuery → AgentQuery
unfolding beq
merge_binary_query operator (agent_query kind name c direct op operands attrs) right =
    compound operator (
      if beq op operator
      then append_query operands right
      else cons (agent_query kind name c direct op operands attrs) (cons right nil))

unfoldable mutual
  unfolding beq

  pub attach_contains : AgentQuery → AgentQuery → Bool → AgentQuery
  attach_contains (agent_query kind name no_child d op operands attrs) new direct =
      if beq op op_and || beq op op_or
      then agent_query kind name no_child d op (attach_all operands new direct) attrs
      else agent_query kind name (child new) direct op operands attrs
  attach_contains (agent_query kind name (child q) d op operands attrs) new direct =
      if beq op op_and || beq op op_or
      then agent_query kind name (child q) d op (attach_all operands new direct) attrs
      else agent_query kind name (child (attach_contains q new direct)) d op operands attrs

  pub attach_all : Queries → AgentQuery → Bool → Queries
  attach_all nil new direct = nil
  attach_all (cons q qs) new direct = cons (attach_contains q new direct) (attach_all qs new direct)
