-- ===== src/BlockCache/Coherence.antt =====
-- src/block_cache.rs: what the cache returns was inserted. `P` stands for what holds of a hash and
-- a header that are inserted together, and `Q` of a hash and a body.
use reth_sentry_node.Prelude.{
  ℕ, ◌≡◌, ◌≢◌, refl, sym, ◌∙◌, ◌⊎◌, inl, inr, some, List, [], ◌∷◌, ℕ_discrete, All, OfSome,
  OfSome-intro,
}
use reth_sentry_node.Chain.{Chain}
use reth_sentry_node.Lru.{LruCrate, IsLawful}
use reth_sentry_node.Lru.Laws
use reth_sentry_node.BlockCache
use reth_sentry_node.BlockCache.{BlockCache, new}
use reth_sentry_node.BlockCache.Ops.{
  Op, insert, insert_header, insert_body, get_header_by_hash, get_header_by_number,
  get_body_by_hash, get_hash_by_number, apply, run,
}

module _ (lru : LruCrate) (chain : Chain) (P : chain.B256 → chain.Header → Type 0)
    (Q : chain.B256 → chain.BlockBody → Type 0) where
  open chain use {B256, b256_eq, Header, number, BlockBody}

  -- What an operation inserts is as `P` and `Q` say.
  abbrev pub IsSound : Op chain → Type 0
  IsSound (insert hash header body) = P hash header × Q hash body
  IsSound (insert_header hash header) = P hash header
  IsSound (insert_body hash body) = Q hash body
  IsSound (get_header_by_hash hash) = Unit
  IsSound (get_header_by_number n) = Unit
  IsSound (get_body_by_hash hash) = Unit
  IsSound (get_hash_by_number n) = Unit

  pub record IsCoherent (c : BlockCache lru chain) : Type 0 where
    pub header_at_hash :
        (h : B256) (x : Header) → Laws.entry lru b256_eq c.headers_by_hash h ≡ some x → P h x
    pub header_at_number :
        (n : ℕ) (x : Header)
        → Laws.entry lru ℕ_discrete c.headers_by_number n ≡ some x
        → number x ≡ n
    pub hash_at_number :
        (n : ℕ) (h : B256) (x : Header)
        → Laws.entry lru ℕ_discrete c.hash_by_number n ≡ some h
        → Laws.entry lru ℕ_discrete c.headers_by_number n ≡ some x
        → P h x
    pub body_at_hash :
        (h : B256) (b : BlockBody) → Laws.entry lru b256_eq c.bodies_by_hash h ≡ some b → Q h b

-- After a push, an entry is the pushed one or an old one.
module _ (lru : LruCrate) (laws : IsLawful lru) {K V : Type 0} (dec : Discrete K)
    (R : K → V → Type 0) (c : lru.LruCache K V) where
  push_all :
      (k : K) (v : V)
      → R k v
      → ((j : K) (w : V) → Laws.entry lru dec c j ≡ some w → R j w)
      → (j : K) (w : V) → Laws.entry lru dec (lru.push dec c k v) j ≡ some w
      → R j w
  push_all k v r old j w e = elim (Laws.entry-push_some lru laws dec c k v j w e) [
    | inl (p, q) ↦ rw (← p, ← q) r
    | inr (ne, there) ↦ old j w there
  ]

  get_all :
      (k : K)
      → ((j : K) (w : V) → Laws.entry lru dec c j ≡ some w → R j w)
      → (j : K) (w : V) → Laws.entry lru dec (lru.get dec c k).1 j ≡ some w
      → R j w
  get_all k old j w e = old j w (sym (Laws.entry-get lru laws dec c k j) ∙ e)

module _ (lru : LruCrate) (laws : IsLawful lru) (chain : Chain)
    (P : chain.B256 → chain.Header → Type 0) (Q : chain.B256 → chain.BlockBody → Type 0) where
  open chain use {B256, b256_eq, Header, number, BlockBody}

  hash_at_number_push :
      (c : BlockCache lru chain) (hash : B256) (header : Header) (m : ℕ)
      → P hash header
      → IsCoherent lru chain P Q c
      → (n : ℕ) (h : B256) (x : Header)
      → Laws.entry lru ℕ_discrete (lru.push ℕ_discrete c.hash_by_number m hash) n ≡ some h
      → Laws.entry lru ℕ_discrete (lru.push ℕ_discrete c.headers_by_number m header) n ≡ some x
      → P h x
  hash_at_number_push c hash header m r co n h x eh ex =
      both (Laws.entry-push_some lru laws ℕ_discrete c.hash_by_number m hash n h eh)
        (Laws.entry-push_some lru laws ℕ_discrete c.headers_by_number m header n x ex)
    where
      both :
          ((m ≡ n) × (hash ≡ h))
            ⊎ ((m ≢ n) × (Laws.entry lru ℕ_discrete c.hash_by_number n ≡ some h))
          → ((m ≡ n) × (header ≡ x))
            ⊎ ((m ≢ n) × (Laws.entry lru ℕ_discrete c.headers_by_number n ≡ some x))
          → P h x
      both (inl (p, q)) (inl (p', q')) = rw (← q, ← q') r
      both (inl (p, q)) (inr (ne, _)) = absurd (ne p)
      both (inr (ne, _)) (inl (p, q)) = absurd (ne p)
      both (inr (ne, th)) (inr (ne', tx)) = co.hash_at_number n h x th tx

  apply-IsCoherent :
      (c : BlockCache lru chain) (op : Op chain)
      → IsSound lru chain P Q op
      → IsCoherent lru chain P Q c
      → IsCoherent lru chain P Q (apply lru chain c op)
  unfolding apply BlockCache.insert BlockCache.insert_header BlockCache.insert_body
      BlockCache.get_header_by_hash BlockCache.get_header_by_number BlockCache.get_body_by_hash
      BlockCache.get_hash_by_number
  apply-IsCoherent c (insert hash header body) s co = record {
    header_at_hash =
        push_all lru laws b256_eq P c.headers_by_hash hash header s.0 co.header_at_hash;
    header_at_number =
        push_all lru laws ℕ_discrete (λ n x. number x ≡ n) c.headers_by_number (number header)
          header refl co.header_at_number;
    hash_at_number = hash_at_number_push c hash header (number header) s.0 co;
    body_at_hash = push_all lru laws b256_eq Q c.bodies_by_hash hash body s.1 co.body_at_hash;
  }
  apply-IsCoherent c (insert_header hash header) s co = record {
    header_at_hash = push_all lru laws b256_eq P c.headers_by_hash hash header s co.header_at_hash;
    header_at_number =
        push_all lru laws ℕ_discrete (λ n x. number x ≡ n) c.headers_by_number (number header)
          header refl co.header_at_number;
    hash_at_number = hash_at_number_push c hash header (number header) s co;
    body_at_hash = co.body_at_hash;
  }
  apply-IsCoherent c (insert_body hash body) s co = record {
    header_at_hash = co.header_at_hash;
    header_at_number = co.header_at_number;
    hash_at_number = co.hash_at_number;
    body_at_hash = push_all lru laws b256_eq Q c.bodies_by_hash hash body s co.body_at_hash;
  }
  apply-IsCoherent c (get_header_by_hash hash) s co = record {
    header_at_hash = get_all lru laws b256_eq P c.headers_by_hash hash co.header_at_hash;
    header_at_number = co.header_at_number;
    hash_at_number = co.hash_at_number;
    body_at_hash = co.body_at_hash;
  }
  apply-IsCoherent c (get_header_by_number m) s co = record {
    header_at_hash = co.header_at_hash;
    header_at_number =
        get_all lru laws ℕ_discrete (λ n x. number x ≡ n) c.headers_by_number m co.header_at_number;
    hash_at_number = λ n h x eh ex.
        co.hash_at_number n h x eh
          (sym (Laws.entry-get lru laws ℕ_discrete c.headers_by_number m n) ∙ ex);
    body_at_hash = co.body_at_hash;
  }
  apply-IsCoherent c (get_body_by_hash hash) s co = record {
    header_at_hash = co.header_at_hash;
    header_at_number = co.header_at_number;
    hash_at_number = co.hash_at_number;
    body_at_hash = get_all lru laws b256_eq Q c.bodies_by_hash hash co.body_at_hash;
  }
  apply-IsCoherent c (get_hash_by_number m) s co = record {
    header_at_hash = co.header_at_hash;
    header_at_number = co.header_at_number;
    hash_at_number = λ n h x eh ex.
        co.hash_at_number n h x (sym (Laws.entry-get lru laws ℕ_discrete c.hash_by_number m n) ∙ eh)
          ex;
    body_at_hash = co.body_at_hash;
  }

  new-IsCoherent : (capacity : ℕ) → IsCoherent lru chain P Q (new lru chain capacity)
  unfolding new
  new-IsCoherent capacity = record {
    header_at_hash = λ h x e. cc (
        Laws.entry-new lru laws {V = Header} b256_eq
          (BlockCache.effective_capacity lru chain capacity) h);
    header_at_number = λ n x e. cc (
        Laws.entry-new lru laws {V = Header} ℕ_discrete
          (BlockCache.effective_capacity lru chain capacity) n);
    hash_at_number = λ n h x eh ex. cc (
        Laws.entry-new lru laws {V = Header} ℕ_discrete
          (BlockCache.effective_capacity lru chain capacity) n);
    body_at_hash = λ h b e. cc (
        Laws.entry-new lru laws {V = BlockBody} b256_eq
          (BlockCache.effective_capacity lru chain capacity) h);
  }

  run-IsCoherent :
      (c : BlockCache lru chain) (ops : List (Op chain))
      → All (IsSound lru chain P Q) ops
      → IsCoherent lru chain P Q c
      → IsCoherent lru chain P Q (run lru chain c ops)
  unfolding run
  run-IsCoherent c [] s co = co
  run-IsCoherent c (op ∷ ops) s co =
      run-IsCoherent (apply lru chain c op) ops s.1 (apply-IsCoherent c op s.0 co)

  -- From `BlockCache::new`, after any operations that insert under each hash only headers with `P` and
  -- bodies with `Q`.
  pub run_new-IsCoherent :
      (capacity : ℕ) (ops : List (Op chain))
      → All (IsSound lru chain P Q) ops
      → IsCoherent lru chain P Q (run lru chain (new lru chain capacity) ops)
  run_new-IsCoherent capacity ops s =
      run-IsCoherent (new lru chain capacity) ops s (new-IsCoherent capacity)

  -- After any operations on a new cache, where `P` holds of each hash and header inserted together and
  -- `Q` of each hash and body: a header read by its hash has `P` with it, a header read by a number
  -- has that number, and a body read by its hash has `Q` with it.
  pub run-reads :
      (capacity : ℕ) (ops : List (Op chain)) (hash : B256) (n : ℕ)
      → All (IsSound lru chain P Q) ops
      → OfSome
          (P hash)
          (BlockCache.get_header_by_hash lru chain
            (run lru chain (new lru chain capacity) ops)
            hash).0
        × OfSome
            (λ x. number x ≡ n)
            (BlockCache.get_header_by_number lru chain
              (run lru chain (new lru chain capacity) ops)
              n).0
        × OfSome
            (Q hash)
            (BlockCache.get_body_by_hash lru chain
              (run lru chain (new lru chain capacity) ops)
              hash).0
  unfolding BlockCache.get_header_by_hash BlockCache.get_header_by_number
      BlockCache.get_body_by_hash
  run-reads capacity ops hash n s =
      let c = run lru chain (new lru chain capacity) ops in
      let co = run_new-IsCoherent capacity ops s in
      (
        OfSome-intro (P hash) _ (λ x e.
            co.header_at_hash hash x (sym (laws.get-iter b256_eq c.headers_by_hash hash) ∙ e)),
        OfSome-intro (λ x. number x ≡ n) _
            (λ x e.
              co.header_at_number n x (sym (laws.get-iter ℕ_discrete c.headers_by_number n) ∙ e)),
        OfSome-intro (Q hash) _
            (λ b e. co.body_at_hash hash b (sym (laws.get-iter b256_eq c.bodies_by_hash hash) ∙ e)),
      )
