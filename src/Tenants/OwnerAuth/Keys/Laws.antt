-- ===== src/Tenants/OwnerAuth/Keys/Laws.antt =====
-- What the cache of the signing keys holds, when it fetches and what a failed fetch leaves.
use honest_agent.Prelude.{
  ℕ, zero, suc, ◌≡◌, refl, ◌∙◌, ap, ◌⊎◌, inl, inr, none, some, List, [], ◌∷◌, arith, Option-cases,
}
use honest_agent.Py.Str.{Str, codes}
use honest_agent.Py.Str.Laws.{eq_of_str_eq}
use honest_agent.Py.Dict.{Dict, lookup, lookup-assign}
use honest_agent.Py.Value.{Fields, get, nonempty_str}
use honest_agent.Py.Exec.{Exception, ok, raised, Result-cases}
use honest_agent.Py.Exec.Checked.{◌>>=◌, chain-ok}
use honest_agent.Tenants.OwnerAuth.Keys.{
  KeySource, Cache, add_entry, collect, refresh, after_refresh, get_key,
}

module _ {W Key : Type 0} (source : KeySource W Key) where
  -- A key that an entry of the key set carries under its own `kid`.
  pub data Published (kid : Str) (key : Key) : List Fields → Type 0 where
    first :
        {entry : Fields} {entries : List Fields}
        → nonempty_str (get (codes "kid") entry) ≡ some kid
        → source.from_dict entry ≡ ok key
        → Published kid key (entry ∷ entries)
    later :
        {entry : Fields} {entries : List Fields}
        → Published kid key entries
        → Published kid key (entry ∷ entries)

  add_entry-lookup :
      (keys keys' : Dict Key) (entry : Fields) (kid : Str) (key : Key)
      → add_entry source keys entry ≡ ok keys'
      → lookup kid keys' ≡ some key
      → (lookup kid keys ≡ some key)
        ⊎ ((nonempty_str (get (codes "kid") entry) ≡ some kid) × (source.from_dict entry ≡ ok key))
  unfolding add_entry
  add_entry-lookup keys keys' entry kid key h l =
      elim (Option-cases (nonempty_str (get (codes "kid") entry))) [
        | inl none' ↦ inl (ground arith)
        | inr (kid', named) ↦ elim (Result-cases (source.from_dict entry)) [
          | inr (e, failed) ↦ absurd (ground arith)
          | inl (key', made) ↦
              ground (arith, lookup-assign kid' kid key' keys, eq_of_str_eq kid' kid)
        ]
      ]

  -- After a refresh a key is cached only under the `kid` of a published entry that makes it.
  pub collect-Published :
      (keys keys' : Dict Key) (entries : List Fields) (kid : Str) (key : Key)
      → collect source keys entries ≡ ok keys'
      → lookup kid keys' ≡ some key
      → (lookup kid keys ≡ some key) ⊎ Published kid key entries
  unfolding collect
  collect-Published keys keys' [] kid key h l = inl (ground arith)
  collect-Published keys keys' (entry ∷ entries) kid key h l =
      let (middle, rest, added) =
        chain-ok (λ k. collect source k entries) (add_entry source keys entry) h in
      elim (collect-Published middle keys' entries kid key rest l) [
        | inr p ↦ inr (later p)
        | inl old ↦ elim (add_entry-lookup keys middle entry kid key added old) [
          | inl older ↦ inl older
          | inr (named, made) ↦ inr (first named made)
        ]
      ]

  -- A key that is cached is returned with nothing fetched.
  pub get_key-cached :
      (kid : Str) (key : Key) (cache : Cache W Key)
      → lookup kid cache.keys ≡ some key
      → get_key source kid cache ≡ (ok key, cache)
  unfolding get_key
  get_key-cached kid key cache h = ground arith

  -- A `kid` that is not cached: one fetch, and the cache is the published set.
  get_key-refreshed :
      (kid : Str) (cache : Cache W Key) (keys : Dict Key)
      → lookup kid cache.keys ≡ none
      → ((source.fetch cache.world).0 >>= collect source []) ≡ ok keys
      → get_key source kid cache
        ≡ after_refresh source kid
            (ok tt, record { keys = keys; world = (source.fetch cache.world).1 })
  unfolding get_key refresh
  get_key-refreshed kid cache keys h made = ground arith

  -- For a `kid` that is not cached, where the fetch or an entry fails, the exception goes on and
  -- the keys stay as they were.
  get_key-failed :
      (kid : Str) (cache : Cache W Key) (e : Exception)
      → lookup kid cache.keys ≡ none
      → ((source.fetch cache.world).0 >>= collect source []) ≡ raised e
      → get_key source kid cache
        ≡ (raised e, record { keys = cache.keys; world = (source.fetch cache.world).1 })
  unfolding get_key refresh
  get_key-failed kid cache e h failed = ground arith

  abbrev FromFetch : Str → Key → Cache W Key → Cache W Key → Type 0
  FromFetch kid key cache cache' =
      (entries : List Fields) × (source.fetch cache.world ≡ (ok entries, cache'.world))
      × Published kid key entries

  fetched_key :
      (kid : Str) (key : Key) (cache cache' : Cache W Key) (keys : Dict Key)
      → lookup kid cache.keys ≡ none
      → ((source.fetch cache.world).0 >>= collect source []) ≡ ok keys
      → get_key source kid cache ≡ (ok key, cache')
      → (lookup kid cache'.keys ≡ some key) × FromFetch kid key cache cache'
  unfolding after_refresh lookup
  fetched_key kid key cache cache' keys missing made h =
      let r = get_key-refreshed kid cache keys missing made in
      let (entries, rest, got) = chain-ok (collect source []) (source.fetch cache.world).0 made in
      let known : lookup kid keys ≡ some key = ground arith in
      elim (collect-Published [] keys entries kid key rest known) [
        | inl stale ↦ absurd (ground arith)
        | inr p ↦ (ground arith, (entries, ground arith, p))
      ]

  -- A key that is returned stands in the cache afterwards under the `kid` that was asked for. It
  -- stood there before, with the cache untouched, or an entry of the key set that was just fetched
  -- publishes it under this `kid`.
  pub get_key_sound :
      (kid : Str) (key : Key) (cache cache' : Cache W Key)
      → get_key source kid cache ≡ (ok key, cache')
      → (lookup kid cache'.keys ≡ some key) × ((cache' ≡ cache) ⊎ FromFetch kid key cache cache')
  unfolding get_key
  get_key_sound kid key cache cache' h = elim (Option-cases (lookup kid cache.keys)) [
    | inr (cached, found) ↦ (ground arith, inl (ground arith))
    | inl missing ↦ elim (Result-cases ((source.fetch cache.world).0 >>= collect source [])) [
      | inr (e, failed) ↦ absurd (ground (arith, get_key-failed kid cache e missing failed))
      | inl (keys, made) ↦
          let (stored, fetched) = fetched_key kid key cache cache' keys missing made h in
          (stored, inr fetched)
    ]
  ]

  -- `n` calls in a row, as far as the cache goes.
  abbrev pub asks : ℕ → Str → Cache W Key → Cache W Key
  asks zero kid cache = cache
  asks (suc n) kid cache = asks n kid (get_key source kid cache).1

  -- `n` fetches in a row.
  abbrev pub fetches : ℕ → W → W
  fetches zero world = world
  fetches (suc n) world = fetches n (source.fetch world).1

  get_key-absent :
      (kid : Str) (cache : Cache W Key)
      → ((world : W) (entries : List Fields) (key : Key)
          → (source.fetch world).0 ≡ ok entries
          → ¬ Published kid key entries)
      → lookup kid cache.keys ≡ none
      → (lookup kid (get_key source kid cache).1.keys ≡ none)
        × ((get_key source kid cache).1.world ≡ (source.fetch cache.world).1)
  unfolding after_refresh lookup
  get_key-absent kid cache unpublished missing =
      elim (Result-cases ((source.fetch cache.world).0 >>= collect source [])) [
        | inr (e, failed) ↦
            let r = get_key-failed kid cache e missing failed in (ground arith, ground arith)
        | inl (keys, made) ↦
            let r = get_key-refreshed kid cache keys missing made in
            let (entries, rest, got) =
              chain-ok (collect source []) (source.fetch cache.world).0 made in
            elim (Option-cases (lookup kid keys)) [
              | inl absent ↦ (ground arith, ground arith)
              | inr (key, found) ↦ elim (collect-Published [] keys entries kid key rest found) [
                | inl stale ↦ absurd (ground arith)
                | inr p ↦ absurd (unpublished cache.world entries key got p)
              ]
            ]
      ]

  -- A `kid` that is not cached and that no key set publishes is never cached, so each call with it
  -- fetches: after `n` calls the world is what `n` fetches make of it.
  pub asks-fetches :
      (n : ℕ) (kid : Str) (cache : Cache W Key)
      → ((world : W) (entries : List Fields) (key : Key)
          → (source.fetch world).0 ≡ ok entries
          → ¬ Published kid key entries)
      → lookup kid cache.keys ≡ none
      → (asks n kid cache).world ≡ fetches n cache.world
  asks-fetches zero kid cache unpublished missing = refl
  asks-fetches (suc n) kid cache unpublished missing =
      let (absent, moved) = get_key-absent kid cache unpublished missing in
      asks-fetches n kid (get_key source kid cache).1 unpublished absent ∙ ap (fetches n) moved
