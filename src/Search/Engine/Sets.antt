-- ===== src/Search/Engine/Sets.antt =====
-- The loops of providers/base/provider.go that keep the keys they have seen, as sets of keys.
use morfx.Base.{
  ◌≡◌, refl, sym, ap, ◌∙◌, Bool, true, false, ◌&&◌, ◌||◌, not, List, [], ◌∷◌, ◌++◌, if◌then◌else◌,
  if-split, if-both, arith,
}
use morfx.Base.Bytes.{Bytes, beq, beq→eq, beq_refl}
use morfx.Search.{Match, Patterns, has, semantic_target_key}
use morfx.Search.Engine.{own_key, keys, add_one, add_new, keep}

-- No key stands twice.
abbrev pub Distinct : List Bytes → Type 0
Distinct [] = Unit
Distinct (x ∷ xs) = (has x xs ≡ false) × Distinct xs

abbrev pub in_all : Bytes → List (List Bytes) → Bool
in_all k [] = true
in_all k (ks ∷ rest) = has k ks && in_all k rest

abbrev pub in_any : Bytes → List (List Bytes) → Bool
in_any k [] = false
in_any k (ks ∷ rest) = has k ks || in_any k rest

pub has-append : (k : Bytes) (xs ys : List Bytes) → has k (xs ++ ys) ≡ has k xs || has k ys
unfolding has
has-append k [] ys = refl
has-append k (x ∷ xs) ys = ground (arith, has-append k xs ys)

pub Distinct-append_one :
    (xs : List Bytes) (x : Bytes) → Distinct xs → has x xs ≡ false → Distinct (xs ++ x ∷ [])
unfolding has
Distinct-append_one [] x d h = (refl, tt)
Distinct-append_one (y ∷ ys) x d h =
    let split = has-append y ys (x ∷ []) in
    let turned : beq y x ≡ true → beq x y ≡ true = λ e. rw (beq→eq y x e) (beq_refl x) in
    (ground arith, Distinct-append_one ys x d.1 (ground arith))

-- A key is in a list or not, together with the keys that equal it.
pub has-beq : (k x : Bytes) (xs : List Bytes) → beq k x ≡ true → has k xs ≡ has x xs
has-beq k x xs e = ap (λ y. has y xs) (beq→eq k x e)

abbrev pub Acc : Type 0 → Type 0
Acc L = List Bytes × List (Match L)

module _ (patterns : Patterns) {L : Type 0} where
  abbrev pub AllKind : Bytes → List (Match L) → Type 0
  AllKind kind [] = Unit
  AllKind kind (m ∷ ms) = (m.kind ≡ kind) × AllKind kind ms

  -- The keys seen are those of the matches found, and no two matches have the same key.
  pub record IsSound (acc : Acc L) : Type 0 where
    pub accurate : (k : Bytes) → has k acc.0 ≡ has k (keys patterns acc.1)
    pub distinct : Distinct (keys patterns acc.1)

  -- The matches of `acc'` have the keys of those of `acc`, and the keys that the test accepts.
  abbrev pub Adds : (Bytes → Bool) → Acc L → Acc L → Type 0
  Adds test acc acc' =
      (k : Bytes) → has k (keys patterns acc'.1) ≡ has k (keys patterns acc.1) || test k

  pub keys-append :
      (xs ys : List (Match L)) → keys patterns (xs ++ ys) ≡ keys patterns xs ++ keys patterns ys
  keys-append [] ys = refl
  keys-append (x ∷ xs) ys = rw (keys-append xs ys)

  pub empty-IsSound : IsSound ([], [])
  unfolding has
  empty-IsSound = record { accurate = λ k. refl; distinct = tt }

  module _ (m : Match L) (acc : Acc L) (sound : IsSound acc) where
    add_one-IsSound : IsSound (add_one patterns (own_key patterns) m acc)
    unfolding add_one has
    add_one-IsSound =
        if-split IsSound (has (own_key patterns m) acc.0) (λ seen. sound)
          (λ fresh. record {
            accurate = λ k.
                let split = has-append k (keys patterns acc.1) (own_key patterns m ∷ []) in
                let before = sound.accurate k in rw (keys-append acc.1 (m ∷ [])) (ground arith);
            distinct = rw (keys-append acc.1 (m ∷ [])) (
                Distinct-append_one (keys patterns acc.1) (own_key patterns m) sound.distinct
                  (sym (sound.accurate (own_key patterns m)) ∙ fresh));
          })

    add_one-Adds :
        Adds (λ k. beq k (own_key patterns m)) acc (add_one patterns (own_key patterns) m acc)
    unfolding add_one has
    add_one-Adds k =
        let split = has-append k (keys patterns acc.1) (own_key patterns m ∷ []) in
        let before = sound.accurate k in
        let same = has-beq k (own_key patterns m) acc.0 in
        if-split
          (λ (r : Acc L).
            has k (keys patterns r.1) ≡ has k (keys patterns acc.1) || beq k (own_key patterns m))
          (has (own_key patterns m) acc.0) (λ seen. ground arith)
          (λ fresh. rw (keys-append acc.1 (m ∷ [])) (ground arith))

  pub add_new-IsSound :
      (ms : List (Match L)) (acc : Acc L)
      → IsSound acc
      → IsSound (add_new patterns (own_key patterns) ms acc)
  unfolding add_new
  add_new-IsSound [] acc sound = sound
  add_new-IsSound (m ∷ ms) acc sound =
      add_new-IsSound ms (add_one patterns (own_key patterns) m acc) (add_one-IsSound m acc sound)

  pub add_new-Adds :
      (ms : List (Match L)) (acc : Acc L)
      → IsSound acc
      → Adds (λ k. has k (keys patterns ms)) acc (add_new patterns (own_key patterns) ms acc)
  unfolding add_new has
  add_new-Adds [] acc sound k = ground arith
  add_new-Adds (m ∷ ms) acc sound k =
      let one = add_one-Adds m acc sound k in
      let rest =
        add_new-Adds ms (add_one patterns (own_key patterns) m acc) (add_one-IsSound m acc sound)
          k in
      ground arith

  -- A loop that makes its keys from a type of its own, on matches of this type
  pub add_new-own :
      (kind : Bytes) (ms : List (Match L)) (acc : Acc L)
      → AllKind kind ms
      → add_new patterns (λ m. semantic_target_key patterns kind m.target) ms acc
        ≡ add_new patterns (own_key patterns) ms acc
  unfolding add_new add_one
  add_new-own kind [] acc all = refl
  add_new-own kind (m ∷ ms) acc all =
      add_new-own kind ms (add_one patterns (λ x. semantic_target_key patterns kind x.target) m acc)
        all.1
      ∙ ap
          (λ q. add_new patterns (own_key patterns) ms (
            if has (semantic_target_key patterns q m.target) acc.0
            then (acc.0, acc.1)
            else (semantic_target_key patterns q m.target ∷ acc.0, acc.1 ++ m ∷ [])))
          (sym all.0)

  pub has-keep :
      (wanted : Bool) (ks : List Bytes) (ms : List (Match L)) (k : Bytes)
      → has k (keys patterns (keep patterns wanted ks ms))
        ≡ has k (keys patterns ms) && (if wanted then has k ks else not (has k ks))
  unfolding keep has
  has-keep true ks [] k = refl
  has-keep false ks [] k = refl
  has-keep true ks (m ∷ ms) k =
      let same = has-beq k (own_key patterns m) ks in
      let rest = has-keep true ks ms k in
      if-split
        (λ (r : List (Match L)).
          has k (keys patterns r)
          ≡ (beq k (own_key patterns m) || has k (keys patterns ms)) && has k ks)
        (has (own_key patterns m) ks) (λ there. ground arith) (λ absent. ground arith)
  has-keep false ks (m ∷ ms) k =
      let same = has-beq k (own_key patterns m) ks in
      let rest = has-keep false ks ms k in
      if-split
        (λ (r : List (Match L)).
          has k (keys patterns r)
          ≡ (beq k (own_key patterns m) || has k (keys patterns ms)) && not (has k ks))
        (has (own_key patterns m) ks) (λ there. ground arith) (λ absent. ground arith)

  pub keep-Distinct :
      (wanted : Bool) (ks : List Bytes) (ms : List (Match L))
      → Distinct (keys patterns ms)
      → Distinct (keys patterns (keep patterns wanted ks ms))
  unfolding keep has
  keep-Distinct wanted ks [] d = tt
  keep-Distinct wanted ks (m ∷ ms) d =
      let rest = keep-Distinct wanted ks ms d.1 in
      let kept = has-keep wanted ks ms (own_key patterns m) in
      let more : Distinct (keys patterns (m ∷ keep patterns wanted ks ms)) = (ground arith, rest) in
      if-both (λ (r : List (Match L)). Distinct (keys patterns r)) (has (own_key patterns m) ks)
        (if-both (λ (r : List (Match L)). Distinct (keys patterns r)) wanted more rest)
        (if-both (λ (r : List (Match L)). Distinct (keys patterns r)) wanted rest more)
