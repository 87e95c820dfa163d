-- ===== src/EthProxy/Bodies.antt =====
-- src/eth_proxy.rs: bodies from the cache and from a peer, put together in the order of the request.
use reth_sentry_node.Prelude.{
  ℕ, ◌≤◌, ◌≡◌, refl, ap, ◌∙◌, Option, none, some, is_none, List, [], ◌∷◌, arith, length,
  if◌then◌else◌,
}
use reth_sentry_node.Chain.{Chain}
use reth_sentry_node.Lru.{LruCrate, IsLawful}
use reth_sentry_node.Lru.Laws
use reth_sentry_node.BlockCache.{BlockCache, get_body_by_hash, insert_body}
use reth_sentry_node.EthProxy.{resolve_bodies_from_cache, missing_hashes, combine_bodies}

module _ (lru : LruCrate) (chain : Chain) where
  open chain use {B256, b256_eq, BlockBody}

  -- The body that the cache holds for a hash.
  abbrev pub body_of : BlockCache lru chain → B256 → Option BlockBody
  body_of c h = Laws.entry lru b256_eq c.bodies_by_hash h

  -- A cache with the same bodies, in an order of its own.
  pub record Reordered (n : ℕ) (c c' : BlockCache lru chain) : Type 0 where
    pub same : (h : B256) → body_of c' h ≡ body_of c h
    pub size : length (lru.iter c'.bodies_by_hash) ≤ length (lru.iter c.bodies_by_hash)
    pub valid : Laws.IsSized lru b256_eq n c'.bodies_by_hash

-- The hashes at which a function has nothing.
module _ {A B : Type 0} (at : A → Option B) where
  unfoldable pub absent : List A → List A
  absent [] = []
  absent (a ∷ l) = let rest = absent l in if is_none (at a) then a ∷ rest else rest

  pub absent-some : (a : A) (l : List A) {b : B} → at a ≡ some b → absent (a ∷ l) ≡ absent l
  unfolding absent
  absent-some a l e = rw (e, is_none)

  pub absent-none : (a : A) (l : List A) → at a ≡ none → absent (a ∷ l) ≡ a ∷ absent l
  unfolding absent
  absent-none a l e = rw (e, is_none)

  -- The body at hand, or the answer of a peer.
  abbrev pub or_answer : (A → B) → A → B
  or_answer answer a = elim (at a) [ none ↦ answer a | some b ↦ b ]

  module _ (answer : A → B) where
    pub or_answer-some : (a : A) {b : B} → at a ≡ some b → or_answer answer a ≡ b
    or_answer-some a e = rw (e, or_answer)

    pub or_answer-none : (a : A) → at a ≡ none → or_answer answer a ≡ answer a
    or_answer-none a e = rw (e, or_answer)

module _ (lru : LruCrate) (laws : IsLawful lru) (chain : Chain) where
  open chain use {B256, b256_eq, BlockBody}

  module _ (c : BlockCache lru chain) (h : B256) where
    pub found-body_of : (get_body_by_hash lru chain c h).0 ≡ body_of lru chain c h
    unfolding get_body_by_hash
    found-body_of = laws.get-iter b256_eq c.bodies_by_hash h

    pub Reordered-get :
        {n : ℕ}
        → Laws.IsSized lru b256_eq n c.bodies_by_hash
        → Reordered lru chain n c (get_body_by_hash lru chain c h).1
    unfolding get_body_by_hash
    Reordered-get v = record {
      same = Laws.entry-get lru laws b256_eq c.bodies_by_hash h;
      size = Laws.length-iter-get-le lru laws b256_eq c.bodies_by_hash h;
      valid = Laws.get-IsSized lru laws b256_eq c.bodies_by_hash h v;
    }

  pub Reordered-trans :
      {n : ℕ} {a b c : BlockCache lru chain}
      → Reordered lru chain n a b
      → Reordered lru chain n b c
      → Reordered lru chain n a c
  Reordered-trans r s = record {
    same = λ h. s.same h ∙ r.same h;
    size = omega (arith, r.size, s.size);
    valid = s.valid;
  }

  pub resolve-Reordered :
      {n : ℕ} (c : BlockCache lru chain) (hs : List B256)
      → Laws.IsSized lru b256_eq n c.bodies_by_hash
      → Reordered lru chain n c (resolve_bodies_from_cache lru chain c hs).1
  unfolding resolve_bodies_from_cache
  resolve-Reordered c [] v = record { same = λ h. refl; size = omega arith; valid = v }
  resolve-Reordered c (h ∷ hs) v =
      let first = Reordered-get c h v in
      Reordered-trans first (resolve-Reordered (get_body_by_hash lru chain c h).1 hs first.valid)

  pub missing-Reordered :
      {n : ℕ} (c : BlockCache lru chain) (hs : List B256)
      → Laws.IsSized lru b256_eq n c.bodies_by_hash
      → Reordered lru chain n c (missing_hashes lru chain c hs).1
  unfolding missing_hashes
  missing-Reordered c [] v = record { same = λ h. refl; size = omega arith; valid = v }
  missing-Reordered c (h ∷ hs) v =
      let first = Reordered-get c h v in
      Reordered-trans first (missing-Reordered (get_body_by_hash lru chain c h).1 hs first.valid)

  pub missing_hashes-absent :
      (at : B256 → Option BlockBody) (c : BlockCache lru chain) (hs : List B256)
      → ((h : B256) → body_of lru chain c h ≡ at h)
      → (missing_hashes lru chain c hs).0 ≡ absent at hs
  unfolding missing_hashes absent
  missing_hashes-absent at c [] e = refl
  missing_hashes-absent at c (h ∷ hs) e =
      let c' = (get_body_by_hash lru chain c h).1 in
      let ih = missing_hashes-absent at c' hs (λ j.
        unfold get_body_by_hash in Laws.entry-get lru laws b256_eq c.bodies_by_hash h j ∙ e j) in
      let test = ap is_none (found-body_of c h ∙ e h) in λ i. if test i then h ∷ ih i else ih i

  pub combine_bodies-some :
      (c : BlockCache lru chain) (h : B256) (hs : List B256) (fetched : List BlockBody)
      {b : BlockBody}
      → body_of lru chain c h ≡ some b
      → combine_bodies lru chain c (h ∷ hs) fetched ≡ (
        b ∷ (combine_bodies lru chain (get_body_by_hash lru chain c h).1 hs fetched).0,
        (combine_bodies lru chain (get_body_by_hash lru chain c h).1 hs fetched).1,
      )
  unfolding combine_bodies
  combine_bodies-some c h hs fetched e = rw (found-body_of c h ∙ e, combine_bodies)

  pub combine_bodies-none :
      (c : BlockCache lru chain) (h : B256) (hs : List B256) (b : BlockBody)
      (later : List BlockBody)
      → body_of lru chain c h ≡ none
      → combine_bodies lru chain c (h ∷ hs) (b ∷ later) ≡ (
          let c' = insert_body lru chain (get_body_by_hash lru chain c h).1 h b in
          let (rest, c'') = combine_bodies lru chain c' hs later in (b ∷ rest, c''))
  unfolding combine_bodies
  combine_bodies-none c h hs b later e = rw (found-body_of c h ∙ e, combine_bodies)
