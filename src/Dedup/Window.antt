-- ===== src/Dedup/Window.antt =====
-- The verdicts of src/dedup.rs against the stream of hashes: the cache is the window of the most
-- recently seen hashes, and a hash is skipped exactly when it is in the window.
use reth_sentry_node.Prelude.{
  ℕ, ◌≤◌, ◌<◌, ◌≡◌, refl, ap, sym, ◌∙◌, Bool, true, false, not, none, some, List, [], ◌∷◌, arith,
  lookup, length, take, take_of_length-le, take-nil, if◌then◌else◌, Bool-cases, Option-cases, inl,
  inr, ◌⊎◌,
}
use reth_sentry_node.Lru.{LruCrate, IsLawful}
use reth_sentry_node.Lru.Assoc.{to_front, to_front_present, length-to_front-le}
use reth_sentry_node.Lru.Laws.{IsValid, new-IsValid, push-IsValid, promote-IsValid}
use reth_sentry_node.Dedup.{
  DedupConfig, TxDedup, new, look_up_or_push, check_and_insert, after, accepted,
}
use reth_sentry_node.Lru.Keys.{
  seen, remove, IsNodup, keys, is_some-lookup-seen, keys-push, take-cons-remove-take,
  cons-remove-IsNodup,
}
use reth_sentry_node.Dedup.Recency.{recent, first_seen, length-recent-ge}

if-not {ℓ} : {A : Type ℓ} (b : Bool) (x y : A) → (if not b then x else y) ≡ (if b then y else x)
if-not true x y = refl
if-not false x y = refl

module _ (lru : LruCrate) (laws : IsLawful lru) {B256 : Type 0} (b256_eq : Discrete B256) where
  open lru use {LruCache, iter, cap}

  -- The cache holds the window of the `n` most recently seen hashes.
  pub record Tracks (n : ℕ) (cache : LruCache B256 (Unit {0})) (past : List B256) : Type 0 where
    pub valid : IsValid lru b256_eq cache
    pub capacity : cap cache ≡ n
    pub window : keys b256_eq (iter cache) ≡ take n past
    pub distinct : IsNodup b256_eq past

  verdict :
      {n : ℕ} (cache : LruCache B256 (Unit {0})) (past : List B256) (h : B256)
      → Tracks n cache past
      → lru.contains b256_eq cache h ≡ seen b256_eq h (take n past)
  verdict cache past h t =
      laws.contains-iter b256_eq cache h
      ∙ is_some-lookup-seen b256_eq h (iter cache)
      ∙ ap (seen b256_eq h) t.window

  module _ (cache : LruCache B256 (Unit {0})) (h : B256) where
    hit :
        lru.contains b256_eq cache h ≡ true
        → look_up_or_push lru b256_eq cache h ≡ (false, lru.promote b256_eq cache h)
    unfolding look_up_or_push
    hit e = rw (e, if◌then◌else◌)

    miss :
        lru.contains b256_eq cache h ≡ false
        → look_up_or_push lru b256_eq cache h ≡ (true, lru.push b256_eq cache h tt)
    unfolding look_up_or_push
    miss e = rw (e, if◌then◌else◌)

    pub is_new-look_up_or_push :
        (look_up_or_push lru b256_eq cache h).0 ≡ not (lru.contains b256_eq cache h)
    is_new-look_up_or_push = elim (Bool-cases (lru.contains b256_eq cache h)) [
      | inl e ↦ rw (hit e, e)
      | inr e ↦ rw (miss e, e)
    ]

  module _ (cache : LruCache B256 (Unit {0})) (h : B256) (valid : IsValid lru b256_eq cache) where
    next-IsValid : IsValid lru b256_eq (look_up_or_push lru b256_eq cache h).1
    next-IsValid = elim (Bool-cases (lru.contains b256_eq cache h)) [
      | inl e ↦ rw (hit cache h e) (promote-IsValid lru laws b256_eq cache h valid)
      | inr e ↦ rw (miss cache h e) (push-IsValid lru laws b256_eq cache h tt valid)
    ]

    cap-next : cap (look_up_or_push lru b256_eq cache h).1 ≡ cap cache
    cap-next = elim (Bool-cases (lru.contains b256_eq cache h)) [
      | inl e ↦ rw (hit cache h e) (laws.cap-promote b256_eq cache h)
      | inr e ↦ rw (miss cache h e) (laws.cap-push b256_eq cache h tt)
    ]

    promoted :
        (lookup b256_eq h (iter cache) ≡ none)
          ⊎ ((v : Unit {0}) × (lookup b256_eq h (iter cache) ≡ some v))
        → lru.contains b256_eq cache h ≡ true
        → keys b256_eq (iter (lru.promote b256_eq cache h))
          ≡ take (cap cache) (h ∷ remove b256_eq h (keys b256_eq (iter cache)))
    promoted (inl none_there) e = cc (laws.contains-iter b256_eq cache h)
    promoted (inr (v, there)) e =
        let fits : length (to_front b256_eq h (iter cache)) ≤ cap cache =
          omega (arith, length-to_front-le b256_eq h (iter cache), valid.bounded) in
        ap (keys b256_eq)
          (laws.iter-promote b256_eq cache h ∙ sym (take_of_length-le (cap cache) _ fits))
        ∙ ap (λ l. keys b256_eq (take (cap cache) l))
            (to_front_present b256_eq h (iter cache) v there)
        ∙ keys-push b256_eq (cap cache) h v (iter cache)

    keys-next :
        keys b256_eq (iter (look_up_or_push lru b256_eq cache h).1)
        ≡ take (cap cache) (h ∷ remove b256_eq h (keys b256_eq (iter cache)))
    keys-next = elim (Bool-cases (lru.contains b256_eq cache h)) [
      | inl e ↦ rw (hit cache h e) (promoted (Option-cases (lookup b256_eq h (iter cache))) e)
      | inr e ↦
          rw (miss cache h e, laws.iter-push) (keys-push b256_eq (cap cache) h tt (iter cache))
    ]

  next-Tracks :
      {n : ℕ} (cache : LruCache B256 (Unit {0})) (past : List B256) (h : B256)
      → Tracks n cache past
      → Tracks n (look_up_or_push lru b256_eq cache h).1 (h ∷ remove b256_eq h past)
  next-Tracks {n} cache past h t = record {
    valid = next-IsValid cache h t.valid;
    capacity = cap-next cache h t.valid ∙ t.capacity;
    window =
        rw (keys-next cache h t.valid, t.capacity, t.window)
          (take-cons-remove-take b256_eq n h past t.distinct);
    distinct = cons-remove-IsNodup b256_eq h past t.distinct;
  }

  next_state-Tracks :
      {n : ℕ} (d : TxDedup lru B256) (past : List B256) (h : B256)
      → Tracks n d.cache past
      → Tracks n (check_and_insert lru b256_eq d h).state.cache (h ∷ remove b256_eq h past)
  unfolding check_and_insert
  next_state-Tracks d past h t = next-Tracks d.cache past h t

  after-Tracks :
      {n : ℕ} (d : TxDedup lru B256) (past hs : List B256)
      → Tracks n d.cache past
      → Tracks n (after lru b256_eq d hs).cache (recent b256_eq past hs)
  unfolding after recent
  after-Tracks d past [] t = t
  after-Tracks d past (h ∷ hs) t =
      after-Tracks (check_and_insert lru b256_eq d h).state (h ∷ remove b256_eq h past) hs
        (next_state-Tracks d past h t)

  is_new-check_and_insert :
      {n : ℕ} (d : TxDedup lru B256) (past : List B256) (h : B256)
      → Tracks n d.cache past
      → (check_and_insert lru b256_eq d h).is_new ≡ not (seen b256_eq h (take n past))
  unfolding check_and_insert
  is_new-check_and_insert d past h t =
      is_new-look_up_or_push d.cache h ∙ ap not (verdict d.cache past h t)

  new-cache :
      (config : DedupConfig) {d : TxDedup lru B256}
      → new lru config ≡ some d
      → (0 < config.cache_size) × (d.cache ≡ lru.new config.cache_size)
  unfolding new
  new-cache config e = ground arith

  new-Tracks :
      (config : DedupConfig) {d : TxDedup lru B256}
      → new lru config ≡ some d
      → Tracks config.cache_size d.cache []
  new-Tracks config e =
      let n = config.cache_size in
      let (positive, made) = new-cache config e in
      rw made (record {
        valid = new-IsValid lru laws b256_eq n positive;
        capacity = laws.cap-new n;
        window = rw (laws.iter-new) (sym (take-nil n));
        distinct = tt;
      })

  -- From `TxDedup::new`, after any stream of hashes: a hash is accepted exactly when it is not among
  -- the `cache_size` most recently seen distinct hashes of the stream.
  pub check_and_insert-window :
      (config : DedupConfig) (d : TxDedup lru B256) (stream : List B256) (hash : B256)
      → new lru config ≡ some d
      → (check_and_insert lru b256_eq (after lru b256_eq d stream) hash).is_new
        ≡ not (seen b256_eq hash (take config.cache_size (recent b256_eq [] stream)))
  check_and_insert-window config d stream hash e =
      is_new-check_and_insert (after lru b256_eq d stream) (recent b256_eq [] stream) hash
        (after-Tracks d [] stream (new-Tracks config e))

  -- While the distinct hashes of the past and of the stream fit in the cache, the accepted hashes are
  -- the first occurrences.
  accepted-first_seen_from :
      {n : ℕ} (d : TxDedup lru B256) (past stream : List B256)
      → Tracks n d.cache past
      → length (recent b256_eq past stream) ≤ n
      → accepted lru b256_eq d stream ≡ first_seen b256_eq past stream
  unfolding accepted first_seen recent
  accepted-first_seen_from d past [] t fits = refl
  accepted-first_seen_from {n} d past (h ∷ hs) t fits =
      let shorter = length-recent-ge b256_eq past (h ∷ hs) t.distinct in
      let whole : take n past ≡ past = take_of_length-le n past (omega (arith, shorter)) in
      let new_there = is_new-check_and_insert d past h t ∙ ap (λ l. not (seen b256_eq h l)) whole in
      let ih =
        accepted-first_seen_from (check_and_insert lru b256_eq d h).state
          (h ∷ remove b256_eq h past) hs (next_state-Tracks d past h t) fits in
      rw (new_there, ih) (if-not (seen b256_eq h past) _ _)

  -- From `TxDedup::new`, while the distinct hashes of a stream are at most `cache_size`: what is
  -- accepted is the first occurrence of each hash of the stream, in order, and nothing else.
  pub accepted-first_seen :
      (config : DedupConfig) (d : TxDedup lru B256) (stream : List B256)
      → new lru config ≡ some d
      → length (recent b256_eq [] stream) ≤ config.cache_size
      → accepted lru b256_eq d stream ≡ first_seen b256_eq [] stream
  accepted-first_seen config d stream e fits =
      accepted-first_seen_from d [] stream (new-Tracks config e) fits
