-- ===== src/Search/Engine.antt =====
-- `findTargets` of providers/base/provider.go and the set operations below it.
pub mod Sets
pub mod Walk
pub mod Meaning
use morfx.Base.{
  ℕ, Bool, true, false, ◌&&◌, ◌||◌, not, Option, none, some, List, [], ◌∷◌, ◌++◌, if◌then◌else◌,
  map,
}
use morfx.Base.Bytes.{Bytes, codes, beq, is_empty, trim_space, to_upper}
use morfx.Dsl.Query.{
  AgentQuery, agent_query, no_child, child, Contains, Queries, nil, cons, op_and, op_or, op_not,
  Attributes,
}
use morfx.Search.{
  Node, node, Nodes, leaf, also, Match, Patterns, LanguageConfig, has, kind_of, semantic_target_key,
  type_of, candidate_targets,
}

-- `isTransparentContainer`
pub is_transparent_container : Bytes → Bool
unfolding has
is_transparent_container kind = has kind (
    codes "class_body"
    ∷ codes "declaration_list"
    ∷ codes "statement_block"
    ∷ codes "block"
    ∷ codes "compound_statement"
    ∷ codes "body"
    ∷ [])

-- `allQuery` of `findNegatedTargets`
abbrev pub all_query : AgentQuery → AgentQuery
all_query (agent_query kind name c direct op operands attributes) =
    agent_query kind (codes "*") no_child direct [] nil []

module _ {L : Type 0} where
  abbrev children_of : Node L → Nodes L
  children_of (node label children) = children

  abbrev pub listed : Nodes L → List (Node L)
  listed leaf = []
  listed (also n ns) = n ∷ listed ns

  abbrev concat_map : (Node L → List (Match L)) → List (Node L) → List (Match L)
  concat_map f [] = []
  concat_map f (n ∷ ns) = f n ++ concat_map f ns

  abbrev pub some_found : List (Match L) → Bool
  some_found [] = false
  some_found (m ∷ ms) = true

  abbrev pub any_node : (Node L → Bool) → List (Node L) → Bool
  any_node test [] = false
  any_node test (n ∷ ns) = test n || any_node test ns

module _ (patterns : Patterns) {L : Type 0} where
  abbrev pub own_key : Match L → Bytes
  own_key m = semantic_target_key patterns m.kind m.target

  abbrev pub keys : List (Match L) → List Bytes
  keys [] = []
  keys (m ∷ ms) = own_key m ∷ keys ms

  -- One round of the loops that keep a map `seen` beside the matches. The key is made from a type
  -- that the loop chooses.
  pub add_one :
      (Match L → Bytes) → Match L → List Bytes × List (Match L) → List Bytes × List (Match L)
  unfolding has
  add_one key m (seen, found) =
      if has (key m) seen then (seen, found) else (key m ∷ seen, found ++ m ∷ [])

  pub add_new :
      (Match L → Bytes) → List (Match L) → List Bytes × List (Match L) → List Bytes × List (Match L)
  unfolding add_one
  add_new key [] acc = acc
  add_new key (m ∷ ms) acc = add_new key ms (add_one key m acc)

  -- the closure `walk` of `findSimpleTargets`
  mutual
    unfolding add_new

    pub walk :
        (Node L → List (Match L))
        → Bytes
        → Node L
        → List Bytes × List (Match L)
        → List Bytes × List (Match L)
    walk candidates kind (node label children) acc = walk_children candidates kind children (
        add_new (λ m. semantic_target_key patterns kind m.target) (candidates (node label children))
          acc)

    pub walk_children :
        (Node L → List (Match L))
        → Bytes
        → Nodes L
        → List Bytes × List (Match L)
        → List Bytes × List (Match L)
    walk_children candidates kind leaf acc = acc
    walk_children candidates kind (also n ns) acc =
        walk_children candidates kind ns (walk candidates kind n acc)

  pub find_simple_targets : (Node L → List (Match L)) → Bytes → Node L → List (Match L)
  unfolding walk
  find_simple_targets candidates kind root = (walk candidates kind root ([], [])).1

  -- the loops of `findUnionTargets` on what its operands find
  pub add_each : List (List (Match L)) → List Bytes × List (Match L) → List Bytes × List (Match L)
  unfolding add_new
  add_each [] acc = acc
  add_each (found ∷ rest) acc = add_each rest (add_new own_key found acc)

  pub union_targets : List (List (Match L)) → List (Match L)
  unfolding add_each
  union_targets found = (add_each found ([], [])).1

  -- the matches whose key is among `ks`, or is not
  pub keep : Bool → List Bytes → List (Match L) → List (Match L)
  unfolding has
  keep wanted ks [] = []
  keep wanted ks (m ∷ ms) =
      let rest = keep wanted ks ms in
      if has (own_key m) ks
      then (if wanted then m ∷ rest else rest)
      else (if wanted then rest else m ∷ rest)

  -- the loop of `findIntersectionTargets`
  pub narrow : List (Match L) → List (List (Match L)) → List (Match L)
  unfolding keep
  narrow current [] = current
  narrow current (next ∷ rest) = narrow (keep true (keys next) current) rest

  pub intersection_targets : List (List (Match L)) → List (Match L)
  unfolding narrow
  intersection_targets [] = []
  intersection_targets (first ∷ rest) = narrow first rest

module _ (patterns : Patterns) {L : Type 0} (config : LanguageConfig L) (source : Bytes) where
  -- what `allQuery` finds
  pub all_targets : AgentQuery → Node L → List (Match L)
  unfolding find_simple_targets
  all_targets operand root =
      find_simple_targets patterns
        (candidate_targets patterns config source (λ m. true) (all_query operand)) (kind_of operand)
        root

  -- `findNegatedTargets` on what its operands find
  pub negated_targets : Queries → List (List (Match L)) → Node L → List (Match L)
  unfolding keep all_targets
  negated_targets (cons operand nil) (excluded ∷ []) root =
      if is_empty (trim_space (kind_of operand))
      then []
      else keep patterns false (keys patterns excluded) (all_targets operand root)
  negated_targets _ _ root = []

  pub targets_by_operator :
      Bytes → Queries → List (List (Match L)) → Node L → List (Match L) → List (Match L)
  unfolding beq
  targets_by_operator op operands found root simple =
      if beq op op_and
      then intersection_targets patterns found
      else if beq op op_or
      then union_targets patterns found
      else if beq op op_not
      then negated_targets operands found root
      else simple

  -- `directSemanticChildren`
  pub semantic_children : List (Node L) → List (Node L)
  unfolding is_transparent_container
  semantic_children [] = []
  semantic_children (n ∷ ns) =
      let rest = semantic_children ns in
      if is_transparent_container (type_of patterns config source n)
      then listed (children_of n) ++ rest
      else n ∷ rest

  -- `findTargetsBelow` for the query of which `find` gives the targets
  pub find_targets_below : (Node L → List (Match L)) → Node L → List (Match L)
  find_targets_below find n = concat_map find (listed (children_of n))

  unfoldable mutual
    unfolding find_targets_below find_simple_targets union_targets intersection_targets
        negated_targets targets_by_operator semantic_children

    pub find_targets : AgentQuery → Node L → List (Match L)
    find_targets (agent_query kind name c direct op operands attributes) root =
        targets_by_operator (to_upper (trim_space op)) operands (find_each operands root) root (
          find_simple_targets patterns
            (candidate_targets patterns config source (matches_contains c direct)
              (agent_query kind name c direct op operands attributes))
            kind root)

    -- what each of the operands finds
    pub find_each : Queries → Node L → List (List (Match L))
    find_each nil root = []
    find_each (cons q qs) root = find_targets q root ∷ find_each qs root

    pub matches_contains : Contains → Bool → Match L → Bool
    matches_contains no_child direct m = true
    matches_contains (child q) direct m = elim m.target.node [
      | none ↦ false
      | some n ↦
          if direct
          then matches_direct_child q n
          else some_found (find_targets_below (find_targets q) n)
    ]

    pub matches_direct_child : AgentQuery → Node L → Bool
    matches_direct_child (agent_query kind name c direct op operands attributes)
          (node label children) =
        any_node
          (λ n. some_found (
            candidate_targets patterns config source (matches_contains c direct)
              (agent_query kind name c direct op operands attributes) n))
          (semantic_children (listed children))
