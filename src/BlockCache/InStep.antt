-- ===== src/BlockCache/InStep.antt =====
-- src/block_cache.rs: the caches `hash_by_number` and `headers_by_number` are filled together, and
-- reads by number reorder one of them alone: what that means for `latest`.
use reth_sentry_node.Prelude.{
  ℕ, ◌≡◌, refl, sym, ap, ◌∙◌, inl, inr, Option, none, some, List, [], ◌∷◌, Bool, true, false,
  ℕ_discrete, All, lookup, Option-cases, OfSome, OfSome-map, is_some, take,
}
use reth_sentry_node.Chain.{Chain}
use reth_sentry_node.Lru.{LruCrate, IsLawful}
use reth_sentry_node.Lru.Laws
use reth_sentry_node.Lru.Keys.{keys, remove, is_some-lookup-seen, keys-push}
use reth_sentry_node.Lru.Assoc.{All-lookup}
use reth_sentry_node.BlockCache
use reth_sentry_node.BlockCache.{BlockCache, new, max_from, max_by_key, larger, with_header, latest}
use reth_sentry_node.BlockCache.Ops.{
  Op, insert, insert_header, insert_body, get_header_by_hash, get_header_by_number,
  get_body_by_hash, get_hash_by_number, apply, run, IsValid, new-IsValid, run-IsValid,
  apply-IsValid,
}
use reth_sentry_node.BlockCache.Latest.{max_by_key-OfSome}

-- An operation other than a read by number.
abbrev pub is_number_free : {chain : Chain} → Op chain → Bool
is_number_free (get_header_by_number n) = false
is_number_free (get_hash_by_number n) = false
is_number_free _ = true

module _ (lru : LruCrate) (laws : IsLawful lru) (chain : Chain) where
  open chain use {B256, b256_eq, Header, number, BlockBody}

  -- The numbers of the two caches, the most recent first.
  abbrev InStep : BlockCache lru chain → Type 0
  InStep c =
      keys ℕ_discrete (lru.iter c.hash_by_number) ≡ keys ℕ_discrete (lru.iter c.headers_by_number)

  push-InStep :
      {size : ℕ} (c : BlockCache lru chain) (hash : B256) (x : Header) (n : ℕ)
      → IsValid lru chain size c
      → InStep c
      → keys ℕ_discrete (lru.iter (lru.push ℕ_discrete c.hash_by_number n hash))
        ≡ keys ℕ_discrete (lru.iter (lru.push ℕ_discrete c.headers_by_number n x))
  push-InStep {size} c hash x n v h =
      pushed c.hash_by_number hash v.hash_by_number
      ∙ ap (λ l. take size (n ∷ remove ℕ_discrete n l)) h
      ∙ sym (pushed c.headers_by_number x v.headers_by_number)
    where
      pushed :
          {V : Type 0} (cache : lru.LruCache ℕ V) (w : V)
          → Laws.IsSized lru ℕ_discrete size cache
          → keys ℕ_discrete (lru.iter (lru.push ℕ_discrete cache n w))
            ≡ take size (n ∷ remove ℕ_discrete n (keys ℕ_discrete (lru.iter cache)))
      pushed cache w s =
          ap (keys ℕ_discrete) (laws.iter-push ℕ_discrete cache n w)
          ∙ keys-push ℕ_discrete (lru.cap cache) n w (lru.iter cache)
          ∙ ap (λ m. take m (n ∷ remove ℕ_discrete n (keys ℕ_discrete (lru.iter cache)))) s.capacity

  apply-InStep :
      {size : ℕ} (c : BlockCache lru chain) (op : Op chain)
      → is_number_free op ≡ true
      → IsValid lru chain size c
      → InStep c
      → InStep (apply lru chain c op)
  unfolding apply BlockCache.insert BlockCache.insert_header BlockCache.insert_body
      BlockCache.get_header_by_hash BlockCache.get_body_by_hash
  apply-InStep c (insert hash x b) f v h = push-InStep c hash x (number x) v h
  apply-InStep c (insert_header hash x) f v h = push-InStep c hash x (number x) v h
  apply-InStep c (insert_body hash b) f v h = h
  apply-InStep c (get_header_by_hash hash) f v h = h
  apply-InStep c (get_header_by_number n) f v h = cc
  apply-InStep c (get_body_by_hash hash) f v h = h
  apply-InStep c (get_hash_by_number n) f v h = cc

  run-InStep :
      {size : ℕ} (c : BlockCache lru chain) (ops : List (Op chain))
      → All (λ op. is_number_free op ≡ true) ops
      → IsValid lru chain size c
      → InStep c
      → InStep (run lru chain c ops)
  unfolding run
  run-InStep c [] f v h = h
  run-InStep c (op ∷ ops) f v h =
      run-InStep (apply lru chain c op) ops f.1 (apply-IsValid lru laws chain c op v)
        (apply-InStep c op f.0 v h)

  new-InStep : (capacity : ℕ) → InStep (new lru chain capacity)
  unfolding new
  new-InStep capacity =
      let size = BlockCache.effective_capacity lru chain capacity in
      ap (keys ℕ_discrete) (laws.iter-new {V = B256} size)
      ∙ sym (ap (keys ℕ_discrete) (laws.iter-new {V = Header} size))

  with_header-is_some :
      (c : BlockCache lru chain) (e : ℕ × B256)
      → InStep c
      → lookup ℕ_discrete e.0 (lru.iter c.hash_by_number) ≡ some e.1
      → is_some (with_header lru chain c e) ≡ true
  unfolding with_header
  with_header-is_some c e h found =
      elim (Option-cases (lru.peek ℕ_discrete c.headers_by_number e.0)) [
        | inl p ↦ cc (
          is_some-lookup-seen ℕ_discrete e.0 (lru.iter c.headers_by_number),
          is_some-lookup-seen ℕ_discrete e.0 (lru.iter c.hash_by_number),
          ap is_some p,
          ap is_some found,
          ap is_some (laws.peek-iter ℕ_discrete c.headers_by_number e.0),
          h,
        )
        | inr (x, p) ↦ rw (p, with_header)
      ]

  of_max :
      (c : BlockCache lru chain) (m : Option (ℕ × B256))
      → InStep c
      → OfSome (λ e. lookup ℕ_discrete e.0 (lru.iter c.hash_by_number) ≡ some e.1) m
      → is_some (elim m [ none ↦ none | some e ↦ with_header lru chain c e ]) ≡ is_some m
  of_max c none h found = refl
  of_max c (some e) h found = with_header-is_some c e h found

  max_by_key-is_some :
      {A : Type 0} (key : ℕ × A → ℕ) (l : List (ℕ × A)) (k : ℕ) {v : A}
      → lookup ℕ_discrete k l ≡ some v
      → is_some (max_by_key key l) ≡ true
  unfolding max_by_key lookup
  max_by_key-is_some key [] k e = cc
  max_by_key-is_some key (x ∷ l) k e = refl

  latest-is_some :
      {size : ℕ} (c : BlockCache lru chain) (n : ℕ) {hash : B256}
      → IsValid lru chain size c
      → InStep c
      → lookup ℕ_discrete n (lru.iter c.hash_by_number) ≡ some hash
      → is_some (latest lru chain c) ≡ true
  unfolding latest
  latest-is_some c n v h there =
      let l = lru.iter c.hash_by_number in
      let found = All-lookup ℕ_discrete l v.hash_by_number.valid.distinct in
      let first = λ (e : ℕ × B256). e.0 in
      of_max c (max_by_key first l) h
        (OfSome-map (λ e p. p.0) (max_by_key first l) (max_by_key-OfSome first _ l found))
      ∙ max_by_key-is_some first l n there

  -- After operations on a new cache none of which is `get_header_by_number` or `get_hash_by_number`,
  -- and then an `insert`, `latest` returns a block.
  pub latest-insert :
      (capacity : ℕ) (ops : List (Op chain)) (hash : B256) (x : Header) (b : BlockBody)
      → All (λ op. is_number_free op ≡ true) ops
      → is_some (
          latest lru chain
            (BlockCache.insert lru chain (run lru chain (new lru chain capacity) ops) hash x b))
        ≡ true
  unfolding apply BlockCache.insert
  latest-insert capacity ops hash x b free =
      let c = run lru chain (new lru chain capacity) ops in
      let v0 = new-IsValid lru laws chain capacity in
      let v = run-IsValid lru laws chain (new lru chain capacity) ops v0 in
      let step = run-InStep (new lru chain capacity) ops free v0 (new-InStep capacity) in
      latest-is_some (apply lru chain c (insert hash x b)) (number x)
        (apply-IsValid lru laws chain c (insert hash x b) v)
        (apply-InStep c (insert hash x b) refl v step)
        (Laws.entry-push_self lru laws ℕ_discrete c.hash_by_number (number x) hash
          v.hash_by_number.valid)
