-- ===== src/Search/Engine/Meaning.antt =====
-- The meaning of a query as a set of keys, and `findTargets` of providers/base/provider.go.
use morfx.Base.{
  ◌≡◌, refl, ap, ◌∙◌, Bool, true, false, ◌&&◌, ◌||◌, not, none, some, List, [], ◌∷◌, if◌then◌else◌,
  if-both, arith,
}
use morfx.Base.Bytes.{Bytes, beq, is_empty, trim_space, to_upper}
use morfx.Dsl.Query.{AgentQuery, agent_query, Queries, nil, cons, op_and, op_or, op_not}
use morfx.Search.{
  Node, node, Match, Patterns, LanguageConfig, has, kind_of, named, new_target, expand_matches,
  node_matches, filter_candidates, candidate_targets,
}
use morfx.Search.Engine.{
  keys, find_simple_targets, intersection_targets, negated_targets, all_query, all_targets,
  targets_by_operator, find_targets, find_each, matches_contains,
}
use morfx.Search.Engine.Sets.{AllKind, Distinct, in_all, in_any, has-keep, keep-Distinct}
use morfx.Search.Engine.Walk.{
  keys_each, AllDistinct, occurs, has-find_simple_targets, find_simple_targets-Distinct,
  has-union_targets, union_targets-Distinct, has-narrow, narrow-Distinct,
}

abbrev pub any_true : List Bool → Bool
any_true [] = false
any_true (b ∷ bs) = b || any_true bs

abbrev pub all_true : List Bool → Bool
all_true [] = true
all_true (b ∷ bs) = b && all_true bs

module _ (patterns : Patterns) {L : Type 0} (config : LanguageConfig L) (source : Bytes) where
  -- The expansions of a language give their matches the type of the query.
  abbrev pub KeepsKind : Type 0
  KeepsKind =
      (expand : Node L → Bytes → AgentQuery → List (Match L)) (n : Node L) (query : AgentQuery)
      → config.expand_matches ≡ some expand
      → AllKind patterns (kind_of query) (expand n source query)

  -- Some node below `root` is a candidate for the simple query, where `contains_child` tests its child.
  abbrev pub occurs_simple : (Match L → Bool) → AgentQuery → Node L → Bytes → Bool
  occurs_simple contains_child query root k =
      occurs patterns (candidate_targets patterns config source contains_child query) root k

  -- Of one operand with a type: what every pattern finds, less what the operand selects.
  abbrev pub negation : Queries → List Bool → Node L → Bytes → Bool
  negation (cons operand nil) (selected ∷ []) root k =
      not (is_empty (trim_space (kind_of operand)))
      && occurs_simple (λ m. true) (all_query operand) root k
      && not selected
  negation _ _ root k = false

  abbrev pub conjunction : List Bool → Bool
  conjunction [] = false
  conjunction (b ∷ bs) = b && all_true bs

  abbrev pub by_operator : Bytes → Queries → List Bool → Node L → Bytes → Bool → Bool
  by_operator op operands selected root k simple =
      if beq op op_and
      then conjunction selected
      else if beq op op_or
      then any_true selected
      else if beq op op_not
      then negation operands selected root k
      else simple

  -- The keys that a query selects: AND is an intersection, OR a union, NOT a complement.
  unfoldable mutual
    pub selects : AgentQuery → Node L → Bytes → Bool
    selects (agent_query kind name c direct op operands attributes) root k =
        by_operator (to_upper (trim_space op)) operands (selects_each operands root k) root k (
          occurs_simple (matches_contains patterns config source c direct)
            (agent_query kind name c direct op operands attributes) root k)

    pub selects_each : Queries → Node L → Bytes → List Bool
    selects_each nil root k = []
    selects_each (cons q qs) root k = selects q root k ∷ selects_each qs root k

  abbrev flags : Bytes → List (List (Match L)) → List Bool
  flags k [] = []
  flags k (ms ∷ rest) = has k (keys patterns ms) ∷ flags k rest

  in_any-flags :
      (k : Bytes) (found : List (List (Match L)))
      → in_any k (keys_each patterns found) ≡ any_true (flags k found)
  in_any-flags k [] = refl
  in_any-flags k (ms ∷ rest) = rw (in_any-flags k rest)

  in_all-flags :
      (k : Bytes) (found : List (List (Match L)))
      → in_all k (keys_each patterns found) ≡ all_true (flags k found)
  in_all-flags k [] = refl
  in_all-flags k (ms ∷ rest) = rw (in_all-flags k rest)

  module _ (keeps_kind : KeepsKind) where
    filter_candidates-AllKind :
        (test : Match L → Bool) (query : AgentQuery) (kind : Bytes) (ms : List (Match L))
        → AllKind patterns kind ms
        → AllKind patterns kind (filter_candidates patterns config source test query ms)
    unfolding filter_candidates named
    filter_candidates-AllKind test query kind [] all = tt
    filter_candidates-AllKind test query kind (m ∷ ms) all =
        let rest = filter_candidates-AllKind test query kind ms all.1 in
        let kept = all.0 in ground arith

    new_target-kind :
        (n : Node L) (kind name : Bytes)
        → (new_target patterns config source n kind name).kind ≡ kind
    unfolding new_target
    new_target-kind (node label children) kind name = refl

    expand_matches-AllKind :
        (query : AgentQuery) (n : Node L)
        → AllKind patterns (kind_of query) (expand_matches patterns config source n query)
    unfolding expand_matches new_target
    expand_matches-AllKind query n =
        elim config.expand_matches
            as (λ o.
              config.expand_matches ≡ o
              → AllKind patterns (kind_of query) (elim o as (λ x. List (Match L)) [
                | some expand ↦ expand n source query
                | none ↦
                    new_target patterns config source n (kind_of query)
                      (config.extract_node_name n source)
                    ∷ []
              ])) [
                | some expand ↦ λ e. keeps_kind expand n query e
                | none ↦
                    λ e. (new_target-kind n (kind_of query) (config.extract_node_name n source), tt)
              ]
          refl

    candidate_targets-AllKind :
        (test : Match L → Bool) (query : AgentQuery) (n : Node L)
        → AllKind patterns (kind_of query) (candidate_targets patterns config source test query n)
    unfolding candidate_targets
    candidate_targets-AllKind test query n =
        if-both (AllKind patterns (kind_of query))
          (node_matches patterns config source n (kind_of query))
          (filter_candidates-AllKind test query (kind_of query)
            (expand_matches patterns config source n query) (expand_matches-AllKind query n))
          tt

    module _ (test : Match L → Bool) (query : AgentQuery) (root : Node L) where
      abbrev simple_targets : List (Match L)
      simple_targets =
          find_simple_targets patterns (candidate_targets patterns config source test query)
            (kind_of query) root

      has-simple :
          (k : Bytes) → has k (keys patterns simple_targets) ≡ occurs_simple test query root k
      has-simple =
          has-find_simple_targets patterns (candidate_targets patterns config source test query)
            (kind_of query) (candidate_targets-AllKind test query) root

      simple-Distinct : Distinct (keys patterns simple_targets)
      simple-Distinct =
          find_simple_targets-Distinct patterns
            (candidate_targets patterns config source test query) (kind_of query)
            (candidate_targets-AllKind test query) root

    has-intersection :
        (found : List (List (Match L))) (k : Bytes)
        → has k (keys patterns (intersection_targets patterns found)) ≡ conjunction (flags k found)
    unfolding intersection_targets has
    has-intersection [] k = refl
    has-intersection (ms ∷ rest) k =
        has-narrow patterns ms rest k
        ∙ ap (λ b. has k (keys patterns ms) && b) (in_all-flags k rest)

    has-negated :
        (operands : Queries) (found : List (List (Match L))) (root : Node L) (k : Bytes)
        → has k (keys patterns (negated_targets patterns config source operands found root))
          ≡ negation operands (flags k found) root k
    unfolding negated_targets has all_targets
    has-negated nil found root k = refl
    has-negated (cons q (cons r qs)) found root k = refl
    has-negated (cons q nil) [] root k = refl
    has-negated (cons q nil) (a ∷ b ∷ rest) root k = refl
    has-negated (cons q nil) (excluded ∷ []) root k =
        let all = has-simple (λ m. true) (all_query q) root k in
        let kept =
          has-keep patterns false (keys patterns excluded)
            (all_targets patterns config source q root) k in
        ground arith

    has-by_operator :
        (op : Bytes) (operands : Queries) (found : List (List (Match L))) (root : Node L)
        (simple : List (Match L)) (k : Bytes)
        → has k (
            keys patterns
              (targets_by_operator patterns config source op operands found root simple))
          ≡ by_operator op operands (flags k found) root k (has k (keys patterns simple))
    unfolding targets_by_operator
    has-by_operator op operands found root simple k =
        let both = has-intersection found k in
        let either = has-union_targets patterns found k ∙ in_any-flags k found in
        let other = has-negated operands found root k in ground arith

    mutual
      unfolding find_targets selects

      has-find_targets :
          (q : AgentQuery) (root : Node L) (k : Bytes)
          → has k (keys patterns (find_targets patterns config source q root)) ≡ selects q root k
      has-find_targets (agent_query kind name c direct op operands attributes) root k =
          let query = agent_query kind name c direct op operands attributes in
          let test = matches_contains patterns config source c direct in
          has-by_operator (to_upper (trim_space op)) operands
            (find_each patterns config source operands root) root (simple_targets test query root) k
          ∙ ap
              (λ b.
                by_operator (to_upper (trim_space op)) operands
                  (flags k (find_each patterns config source operands root)) root k b)
              (has-simple test query root k)
          ∙ ap
              (λ bs.
                by_operator (to_upper (trim_space op)) operands bs root k
                  (occurs_simple test query root k))
              (flags-find_each operands root k)

      flags-find_each :
          (qs : Queries) (root : Node L) (k : Bytes)
          → flags k (find_each patterns config source qs root) ≡ selects_each qs root k
      flags-find_each nil root k = refl
      flags-find_each (cons q qs) root k =
          ap (λ b. b ∷ flags k (find_each patterns config source qs root))
            (has-find_targets q root k)
          ∙ ap (λ bs. selects q root k ∷ bs) (flags-find_each qs root k)

    -- Where the expansions of the language keep the type of the query, the keys of the targets that are
    -- found below a root are the keys that the query selects: AND is an intersection, OR a union, NOT a
    -- complement, and a simple query has the keys of the candidates of all nodes.
    pub find_targets-selects :
        (q : AgentQuery) (root : Node L) (k : Bytes)
        → has k (keys patterns (find_targets patterns config source q root)) ≡ selects q root k
    find_targets-selects q root k = has-find_targets q root k

    all-Distinct :
        (q : AgentQuery) (root : Node L)
        → Distinct (keys patterns (all_targets patterns config source q root))
    unfolding all_targets
    all-Distinct (agent_query kind name c direct op operands attributes) root =
        simple-Distinct (λ m. true)
          (all_query (agent_query kind name c direct op operands attributes)) root

    negated-Distinct :
        (operands : Queries) (found : List (List (Match L))) (root : Node L)
        → Distinct (keys patterns (negated_targets patterns config source operands found root))
    unfolding negated_targets
    negated-Distinct nil found root = tt
    negated-Distinct (cons q (cons r qs)) found root = tt
    negated-Distinct (cons q nil) [] root = tt
    negated-Distinct (cons q nil) (a ∷ b ∷ rest) root = tt
    negated-Distinct (cons q nil) (excluded ∷ []) root =
        if-both (λ (r : List (Match L)). Distinct (keys patterns r))
          (is_empty (trim_space (kind_of q))) tt
          (keep-Distinct patterns false (keys patterns excluded)
            (all_targets patterns config source q root) (all-Distinct q root))

    intersection-Distinct :
        (found : List (List (Match L)))
        → AllDistinct patterns found
        → Distinct (keys patterns (intersection_targets patterns found))
    unfolding intersection_targets
    intersection-Distinct [] d = tt
    intersection-Distinct (ms ∷ rest) d = narrow-Distinct patterns ms rest d.0

    mutual
      unfolding find_targets targets_by_operator

      has-no-copies :
          (q : AgentQuery) (root : Node L)
          → Distinct (keys patterns (find_targets patterns config source q root))
      has-no-copies (agent_query kind name c direct op operands attributes) root =
          let query = agent_query kind name c direct op operands attributes in
          let found = find_each patterns config source operands root in
          if-both (λ (r : List (Match L)). Distinct (keys patterns r))
            (beq (to_upper (trim_space op)) op_and)
            (intersection-Distinct found (find_each-AllDistinct operands root))
            (if-both (λ (r : List (Match L)). Distinct (keys patterns r))
              (beq (to_upper (trim_space op)) op_or) (union_targets-Distinct patterns found)
              (if-both (λ (r : List (Match L)). Distinct (keys patterns r))
                (beq (to_upper (trim_space op)) op_not) (negated-Distinct operands found root)
                (simple-Distinct (matches_contains patterns config source c direct) query root)))

      find_each-AllDistinct :
          (qs : Queries) (root : Node L)
          → AllDistinct patterns (find_each patterns config source qs root)
      find_each-AllDistinct nil root = tt
      find_each-AllDistinct (cons q qs) root = (has-no-copies q root, find_each-AllDistinct qs root)

    -- Where the expansions of the language keep the type of the query, no target is found twice.
    pub find_targets-Distinct :
        (q : AgentQuery) (root : Node L)
        → Distinct (keys patterns (find_targets patterns config source q root))
    find_targets-Distinct q root = has-no-copies q root
