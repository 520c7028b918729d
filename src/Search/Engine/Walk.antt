-- ===== src/Search/Engine/Walk.antt =====
-- The walk of `findSimpleTargets`, and the loops of the set operations, as sets of keys.
use morfx.Base.{◌≡◌, ap, Bool, true, false, ◌&&◌, ◌||◌, List, [], ◌∷◌, arith}
use morfx.Base.Bytes.{Bytes}
use morfx.Search.{Node, node, Nodes, leaf, also, Match, Patterns, has, semantic_target_key}
use morfx.Search.Engine.{
  own_key, keys, add_new, walk, walk_children, find_simple_targets, add_each, union_targets, keep,
  narrow,
}
use morfx.Search.Engine.Sets.{
  Acc, AllKind, IsSound, Adds, Distinct, in_all, in_any, empty-IsSound, add_new-IsSound,
  add_new-Adds, add_new-own, has-keep, keep-Distinct,
}

module _ (patterns : Patterns) {L : Type 0} where
  abbrev pub keys_each : List (List (Match L)) → List (List Bytes)
  keys_each [] = []
  keys_each (ms ∷ rest) = keys patterns ms ∷ keys_each rest

  abbrev pub AllDistinct : List (List (Match L)) → Type 0
  AllDistinct [] = Unit
  AllDistinct (ms ∷ rest) = Distinct (keys patterns ms) × AllDistinct rest

  -- Some node of the tree has a candidate with the key.
  unfoldable mutual
    unfolding has

    pub occurs : (Node L → List (Match L)) → Node L → Bytes → Bool
    occurs candidates (node label children) k =
        has k (keys patterns (candidates (node label children)))
        || occurs_below candidates children k

    pub occurs_below : (Node L → List (Match L)) → Nodes L → Bytes → Bool
    occurs_below candidates leaf k = false
    occurs_below candidates (also n ns) k = occurs candidates n k || occurs_below candidates ns k

  module _ (candidates : Node L → List (Match L)) (kind : Bytes)
      (same_kind : (n : Node L) → AllKind patterns kind (candidates n)) where
    -- The state behind the candidates of one node
    here-own :
        (n : Node L) (acc : Acc L)
        → add_new patterns (λ m. semantic_target_key patterns kind m.target) (candidates n) acc
          ≡ add_new patterns (own_key patterns) (candidates n) acc
    here-own n acc = add_new-own patterns kind (candidates n) acc (same_kind n)

    mutual
      unfolding walk

      walk-IsSound :
          (n : Node L) (acc : Acc L)
          → IsSound patterns acc
          → IsSound patterns (walk patterns candidates kind n acc)
      walk-IsSound (node label children) acc sound =
          walk_children-IsSound children
            (add_new patterns (λ m. semantic_target_key patterns kind m.target)
              (candidates (node label children)) acc)
            (rw (here-own (node label children) acc)
              (add_new-IsSound patterns (candidates (node label children)) acc sound))

      walk_children-IsSound :
          (ns : Nodes L) (acc : Acc L)
          → IsSound patterns acc
          → IsSound patterns (walk_children patterns candidates kind ns acc)
      walk_children-IsSound leaf acc sound = sound
      walk_children-IsSound (also n ns) acc sound =
          walk_children-IsSound ns (walk patterns candidates kind n acc) (walk-IsSound n acc sound)

    mutual
      unfolding walk occurs

      walk-Adds :
          (n : Node L) (acc : Acc L)
          → IsSound patterns acc
          → Adds patterns (occurs candidates n) acc (walk patterns candidates kind n acc)
      walk-Adds (node label children) acc sound k =
          let acc' =
            add_new patterns (λ m. semantic_target_key patterns kind m.target)
              (candidates (node label children)) acc in
          let own = here-own (node label children) acc in
          let sound' : IsSound patterns acc' =
            rw own (add_new-IsSound patterns (candidates (node label children)) acc sound) in
          let here = add_new-Adds patterns (candidates (node label children)) acc sound k in
          let below = walk_children-Adds children acc' sound' k in
          let moved = ap (λ (r : Acc L). has k (keys patterns r.1)) own in ground arith

      walk_children-Adds :
          (ns : Nodes L) (acc : Acc L)
          → IsSound patterns acc
          → Adds patterns
              (occurs_below candidates ns)
              acc
              (walk_children patterns candidates kind ns acc)
      walk_children-Adds leaf acc sound k = ground arith
      walk_children-Adds (also n ns) acc sound k =
          let here = walk-Adds n acc sound k in
          let rest =
            walk_children-Adds ns (walk patterns candidates kind n acc) (walk-IsSound n acc sound)
              k in
          ground arith

    pub has-find_simple_targets :
        (root : Node L) (k : Bytes)
        → has k (keys patterns (find_simple_targets patterns candidates kind root))
          ≡ occurs candidates root k
    unfolding find_simple_targets has
    has-find_simple_targets root k = walk-Adds root ([], []) (empty-IsSound patterns) k

    pub find_simple_targets-Distinct :
        (root : Node L)
        → Distinct (keys patterns (find_simple_targets patterns candidates kind root))
    unfolding find_simple_targets
    find_simple_targets-Distinct root =
        (walk-IsSound root ([], []) (empty-IsSound patterns)).distinct

  add_each-IsSound :
      (found : List (List (Match L))) (acc : Acc L)
      → IsSound patterns acc
      → IsSound patterns (add_each patterns found acc)
  unfolding add_each
  add_each-IsSound [] acc sound = sound
  add_each-IsSound (ms ∷ rest) acc sound =
      add_each-IsSound rest (add_new patterns (own_key patterns) ms acc)
        (add_new-IsSound patterns ms acc sound)

  add_each-Adds :
      (found : List (List (Match L))) (acc : Acc L)
      → IsSound patterns acc
      → Adds patterns (λ k. in_any k (keys_each found)) acc (add_each patterns found acc)
  unfolding add_each
  add_each-Adds [] acc sound k = ground arith
  add_each-Adds (ms ∷ rest) acc sound k =
      let here = add_new-Adds patterns ms acc sound k in
      let more =
        add_each-Adds rest (add_new patterns (own_key patterns) ms acc)
          (add_new-IsSound patterns ms acc sound) k in
      ground arith

  pub has-union_targets :
      (found : List (List (Match L))) (k : Bytes)
      → has k (keys patterns (union_targets patterns found)) ≡ in_any k (keys_each found)
  unfolding union_targets has
  has-union_targets found k = add_each-Adds found ([], []) (empty-IsSound patterns) k

  pub union_targets-Distinct :
      (found : List (List (Match L))) → Distinct (keys patterns (union_targets patterns found))
  unfolding union_targets
  union_targets-Distinct found = (add_each-IsSound found ([], []) (empty-IsSound patterns)).distinct

  pub has-narrow :
      (current : List (Match L)) (rest : List (List (Match L))) (k : Bytes)
      → has k (keys patterns (narrow patterns current rest))
        ≡ has k (keys patterns current) && in_all k (keys_each rest)
  unfolding narrow
  has-narrow current [] k = ground arith
  has-narrow current (next ∷ rest) k =
      let kept = has-keep patterns true (keys patterns next) current k in
      let more = has-narrow (keep patterns true (keys patterns next) current) rest k in ground arith

  pub narrow-Distinct :
      (current : List (Match L)) (rest : List (List (Match L)))
      → Distinct (keys patterns current)
      → Distinct (keys patterns (narrow patterns current rest))
  unfolding narrow
  narrow-Distinct current [] d = d
  narrow-Distinct current (next ∷ rest) d =
      narrow-Distinct (keep patterns true (keys patterns next) current) rest
        (keep-Distinct patterns true (keys patterns next) current d)
