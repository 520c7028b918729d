-- ===== src/Search/Cache/Coherent.antt =====
-- The cache of trees is transparent: providers/base/cache.go gives what a parser gives.
use mathlib.Core.Path.{subst}
use morfx.Base.{
  ℕ, ◌-◌, ◌≤◌, ◌≡◌, refl, sym, ap, ◌∙◌, Bool, true, false, ◌||◌, not, Option, none, some, List, [],
  ◌∷◌, if-both, if-split, if◌then◌else◌, arith,
}
use morfx.Base.Bytes.{Bytes, beq, beq→eq, beq_refl}
use morfx.Search.Cache.{
  Entry, Cache, Others, Fetched, fetched, nil_tree, load, delete, load_or_store, is_expired,
  parse_and_store, use_entry, evict, count_hit, count_miss, get_or_parse, prune_expired,
}

module _ {T : Type 0} where
  abbrev pub is_tree : Option T → Bool
  is_tree none = false
  is_tree (some t) = true

module _ {T : Type 0} (hash : Bytes → Bytes) (parse : Bytes → Option T)
    (InUse : Bytes → Type 0) where
  abbrev pub IsParsed : Option T → Bytes → Type 0
  IsParsed tree s = (tree ≡ parse s) × (is_tree tree ≡ true)

  -- Every entry holds the tree that the parser gives of every source in use with its hash.
  abbrev pub Holds : List (Bytes × Entry T) → Type 0
  Holds [] = Unit
  Holds ((k, e) ∷ rest) = ((s : Bytes) → InUse s → hash s ≡ k → IsParsed e.tree s) × Holds rest

  load-Holds :
      (entries : List (Bytes × Entry T)) (s : Bytes) (e : Entry T)
      → InUse s
      → Holds entries
      → load (hash s) entries ≡ some e
      → IsParsed e.tree s
  unfolding load
  load-Holds [] s e in_use holds eq = absurd cc
  load-Holds ((k, f) ∷ rest) s e in_use holds eq =
      if-split (λ o. o ≡ some e → IsParsed e.tree s) (beq (hash s) k)
        (λ same found. let parsed = holds.0 s in_use (beq→eq _ _ same) in (cc, cc))
        (λ other found. load-Holds rest s e in_use holds.1 found) eq

  delete-Holds :
      (k : Bytes) (entries : List (Bytes × Entry T)) → Holds entries → Holds (delete k entries)
  unfolding delete
  delete-Holds k [] holds = tt
  delete-Holds k ((j, e) ∷ rest) holds =
      if-both Holds (beq k j) (delete-Holds k rest holds.1) (holds.0, delete-Holds k rest holds.1)

  prune_expired-Holds :
      (max_age now : ℕ) (entries : List (Bytes × Entry T))
      → Holds entries
      → Holds (prune_expired max_age now entries)
  unfolding prune_expired
  prune_expired-Holds max_age now [] holds = tt
  prune_expired-Holds max_age now ((k, e) ∷ rest) holds =
      if-both Holds (is_expired max_age now e) (prune_expired-Holds max_age now rest holds.1)
        (holds.0, prune_expired-Holds max_age now rest holds.1)

  module _ (copy : T → Option T) (copies : (t : T) → copy t ≡ some t) (max_age now : ℕ) where
    module _ (one_source : (s s' : Bytes) → InUse s → InUse s' → hash s ≡ hash s' → s ≡ s') where
      store-Holds :
          (source : Bytes) (t : T) (entries : List (Bytes × Entry T))
          → InUse source
          → parse source ≡ some t
          → Holds entries
          → Holds (load_or_store (hash source) (record { tree = copy t; timestamp = now }) entries)
      unfolding load_or_store
      store-Holds source t entries in_use parsed holds =
          elim (load (hash source) entries)
            as (λ o. Holds (elim o as (λ x. List (Bytes × Entry T)) [
              | none ↦ (hash source, record { tree = copy t; timestamp = now }) ∷ entries
              | some other ↦ entries
            ])) [
              | none ↦ (
                (λ s in_use' same.
                    let e = one_source s source in_use' in_use same in
                    let c = copies t in (cc, cc)),
                holds,
              )
              | some other ↦ holds
            ]

      module _ (others : Others T) (still_open : others.closes ≡ false)
          (keeps : (c : Cache T) → Holds c.entries → Holds (others.change c).entries) where
        -- The tree is the parser's, only the parser reports none, and the cache stays coherent.
        abbrev pub Transparent : Bytes → Fetched T × Cache T → Type 0
        Transparent source (fetched tree hit, c) =
            (tree ≡ parse source) × ((is_tree tree || not hit) ≡ true) × Holds c.entries
        Transparent source (nil_tree, c) = ⊥

        parse_and_store-Transparent :
            (source : Bytes) (c : Cache T)
            → InUse source
            → Holds c.entries
            → Transparent source (parse_and_store hash copy max_age now others parse source c)
        unfolding parse_and_store
        parse_and_store-Transparent source c in_use holds =
            elim (parse source)
                as (λ o.
                  parse source ≡ o
                  → Transparent source (elim o as (λ x. Fetched T × Cache T) [
                    | none ↦ (fetched none false, others.change c)
                    | some t ↦ (
                      fetched (some t) false,
                      record (others.change c) {
                        entries =
                            load_or_store (hash source) (record { tree = copy t; timestamp = now })
                              (others.change c).entries;
                      },
                    )
                  ])) [
                    | none ↦ λ e. (sym e, refl, keeps c holds)
                    | some t ↦ λ e. (
                      sym e,
                      refl,
                      store-Holds source t (others.change c).entries in_use e (keeps c holds),
                    )
                  ]
              refl

        use_entry-Transparent :
            (source : Bytes) (c : Cache T) (tree : Option T) (expired : Bool)
            → InUse source
            → Holds c.entries
            → IsParsed tree source
            → Transparent source
                (use_entry hash copy max_age now others parse source c tree expired)
        unfolding use_entry evict
        use_entry-Transparent source c none expired in_use holds parsed = absurd cc
        use_entry-Transparent source c (some t) true in_use holds parsed =
            parse_and_store-Transparent source (count_miss (evict (hash source) c)) in_use
              (delete-Holds (hash source) c.entries holds)
        use_entry-Transparent source c (some t) false in_use holds parsed =
            subst
              (λ b.
                Transparent source (if b then nil_tree else fetched (copy t) true, others.change c))
              (sym still_open)
              (copies t ∙ parsed.0, ap (λ o. is_tree o || false) (copies t), keeps c holds)

        -- Where a tree has a copy, no two sources in use have one hash, and what other goroutines do
        -- during the call keeps the entries trees of this parser and closes no tree that the call has
        -- found: on a source in use `get_or_parse` returns the tree of the parser, from the cache or
        -- not, no tree only as a miss, and keeps the entries trees of this parser.
        pub get_or_parse-Transparent :
            (source : Bytes) (c : Cache T)
            → InUse source
            → Holds c.entries
            → Transparent source (get_or_parse hash copy max_age now others parse source c)
        unfolding get_or_parse
        get_or_parse-Transparent source c in_use holds =
            elim (load (hash source) c.entries)
                as (λ o.
                  load (hash source) c.entries ≡ o
                  → Transparent source (elim o as (λ x. Fetched T × Cache T) [
                    | none ↦
                        parse_and_store hash copy max_age now others parse source (count_miss c)
                    | some e ↦
                        use_entry hash copy max_age now others parse source (count_hit c) e.tree
                          (is_expired max_age now e)
                  ])) [
                    | none ↦ λ e. parse_and_store-Transparent source (count_miss c) in_use holds
                    | some e ↦ λ eq.
                        use_entry-Transparent source (count_hit c) e.tree (is_expired max_age now e)
                          in_use holds (load-Holds c.entries source e in_use holds eq)
                  ]
              refl

module _ {T : Type 0} (hash : Bytes → Bytes) (copy : T → Option T)
    (copies : (t : T) → copy t ≡ some t) (max_age : ℕ) where
  abbrev pub alone : Others T
  alone = record { change = λ d. d; closes = false }

  -- Where a tree has a copy, no other goroutine runs and the cache has no entry of the source: a source
  -- that one parser has parsed at the time `now` is not parsed by a second parser up to `max_age`
  -- later, which gets the tree of the first.
  pub get_or_parse-mixes_parsers :
      (parse other : Bytes → Option T) (source : Bytes) (t : T) (c : Cache T) (now later : ℕ)
      → load (hash source) c.entries ≡ none
      → parse source ≡ some t
      → later - now ≤ max_age
      → (get_or_parse hash copy max_age later alone other source
          (get_or_parse hash copy max_age now alone parse source c).1).0
        ≡ fetched (some t) true
  unfolding get_or_parse parse_and_store load_or_store use_entry load is_expired
  get_or_parse-mixes_parsers parse other source t c now later absent parsed young =
      let same = beq_refl (hash source) in let copied = copies t in ground arith
