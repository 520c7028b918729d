-- ===== src/Search/Provider/Uncached.antt =====
-- `Query` and `Transform` of providers/base/provider.go through the cache and without it.
use morfx.Base.{ℕ, ◌≡◌, refl, ap, ◌∙◌, Bool, true, false, ◌||◌, not, Option, none, some}
use morfx.Base.Bytes.{Bytes}
use morfx.Dsl.Query.{AgentQuery}
use morfx.Recipe.{Floats}
use morfx.Search.{Node, Patterns, LanguageConfig}
use morfx.Search.Cache.{Cache, Others, Fetched, fetched, nil_tree, get_or_parse}
use morfx.Search.Cache.Coherent.{Holds, is_tree, get_or_parse-Transparent, Transparent}
use morfx.Search.Confidence.{Arithmetic}
use morfx.Search.Provider.{
  TransformOp, Surroundings, query_fetched, transform_fetched, query, transform,
}

module _ {L : Type 0} (patterns : Patterns) (config : LanguageConfig L)
    (around : Surroundings L) where
  module _ (F : Floats) (A : Arithmetic F) (parse : Bytes → Option (Node L)) where
    module _ (hash : Bytes → Bytes) (copy : Node L → Option (Node L))
        (copies : (t : Node L) → copy t ≡ some t) (InUse : Bytes → Type 0)
        (one_source : (s s' : Bytes) → InUse s → InUse s' → hash s ≡ hash s' → s ≡ s')
        (max_age now : ℕ) (others : Others (Node L)) (still_open : others.closes ≡ false)
        (keeps : (c : Cache (Node L))
          → Holds hash parse InUse c.entries
          → Holds hash parse InUse (others.change c).entries) where
      query_fetched-hit :
          (source : Bytes) (q : AgentQuery) (t : Option (Node L)) (hit : Bool)
          → (is_tree t || not hit) ≡ true
          → query_fetched patterns config around (fetched t hit) source q
            ≡ query_fetched patterns config around (fetched t false) source q
      unfolding query_fetched
      query_fetched-hit source q (some t) hit e = refl
      query_fetched-hit source q none false e = refl
      query_fetched-hit source q none true e = absurd cc

      transform_fetched-hit :
          (source : Bytes) (op : TransformOp) (t : Option (Node L)) (hit : Bool)
          → (is_tree t || not hit) ≡ true
          → transform_fetched patterns config around F A parse (fetched t hit) source op
            ≡ transform_fetched patterns config around F A parse (fetched t false) source op
      unfolding transform_fetched
      transform_fetched-hit source op (some t) hit e = refl
      transform_fetched-hit source op none false e = refl
      transform_fetched-hit source op none true e = absurd cc

      query-on_Transparent :
          (source : Bytes) (q : AgentQuery) (r : Fetched (Node L) × Cache (Node L))
          → Transparent hash parse InUse copy copies max_age now one_source others still_open keeps
              source r
          → (query_fetched patterns config around r.0 source q
              ≡ query_fetched patterns config around (fetched (parse source) false) source q)
            × Holds hash parse InUse r.1.entries
      query-on_Transparent source q (fetched t hit, c) fine = (
        query_fetched-hit source q t hit fine.1
            ∙ ap (λ o. query_fetched patterns config around (fetched o false) source q) fine.0,
        fine.2,
      )
      query-on_Transparent source q (nil_tree, c) fine = absurd fine

      -- Where a tree has a copy, no two sources in use have one hash, the cache holds trees of this
      -- parser only and does so after what other goroutines do during the call, and they close no tree
      -- that the call has found: on a source in use
      -- `query` gives what it gives without a cache, and the cache holds trees of this parser again.
      pub query-uncached :
          (source : Bytes)
          → InUse source
          → (q : AgentQuery) (c : Cache (Node L)) → Holds hash parse InUse c.entries
          → ((query patterns config around F A parse hash copy max_age now others source q c).0
              ≡ query_fetched patterns config around (fetched (parse source) false) source q)
            × Holds hash parse InUse
                (query patterns config around F A parse hash copy max_age now others source q
                  c).1.entries
      unfolding query
      query-uncached source in_use q c holds =
          query-on_Transparent source q (get_or_parse hash copy max_age now others parse source c) (
            get_or_parse-Transparent hash parse InUse copy copies max_age now one_source others
              still_open keeps source c in_use holds)

      transform-on_Transparent :
          (source : Bytes) (op : TransformOp) (r : Fetched (Node L) × Cache (Node L))
          → Transparent hash parse InUse copy copies max_age now one_source others still_open keeps
              source r
          → (transform_fetched patterns config around F A parse r.0 source op
              ≡ transform_fetched patterns config around F A parse
                  (fetched (parse source) false)
                  source
                  op)
            × Holds hash parse InUse r.1.entries
      transform-on_Transparent source op (fetched t hit, c) fine = (
        transform_fetched-hit source op t hit fine.1
            ∙ ap
                (λ o.
                  transform_fetched patterns config around F A parse (fetched o false) source op)
                fine.0,
        fine.2,
      )
      transform-on_Transparent source op (nil_tree, c) fine = absurd fine

      -- Where a tree has a copy, no two sources in use have one hash, the cache holds trees of this
      -- parser only and does so after what other goroutines do during the call, and they close no tree
      -- that the call has found: on a source in use
      -- `transform` gives what it gives without a cache, and the cache holds trees of this parser again.
      pub transform-uncached :
          (source : Bytes)
          → InUse source
          → (op : TransformOp) (c : Cache (Node L)) → Holds hash parse InUse c.entries
          → ((transform patterns config around F A parse hash copy max_age now others source op c).0
              ≡ transform_fetched patterns config around F A parse
                  (fetched (parse source) false)
                  source
                  op)
            × Holds hash parse InUse
                (transform patterns config around F A parse hash copy max_age now others source op
                  c).1.entries
      unfolding transform
      transform-uncached source in_use op c holds =
          transform-on_Transparent source op
            (get_or_parse hash copy max_age now others parse source c)
            (get_or_parse-Transparent hash parse InUse copy copies max_age now one_source others
              still_open keeps source c in_use holds)
