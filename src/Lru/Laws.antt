-- ===== src/Lru/Laws.antt =====
-- What the code can rely on in a cache of the `lru` crate: lookups by key, the bound on the number
-- of entries, and one entry to a key.
use reth_sentry_node.Prelude.{
  ◌+◌, ap, inl, inr, Option-cases, length-take-le_length, ℕ, ◌≤◌, ◌<◌, ◌≡◌, ◌∙◌, ◌≢◌, ◌⊎◌, Option,
  none, some, List, ◌∷◌, arith, lookup, ite, length, length-take-le, take_of_length-le,
}
use reth_sentry_node.Lru.{LruCrate, IsLawful}
use reth_sentry_node.Lru.Assoc.{
  without, HasDistinctKeys, lookup-without, without-HasDistinctKeys, lookup-take, lookup-take_self,
  take-HasDistinctKeys, lookup-to_front, length-to_front-le, length-without-le,
  to_front-HasDistinctKeys,
}

module _ (lru : LruCrate) {K V : Type 0} (dec : Discrete K) where
  open lru use {LruCache, iter, cap, new, push, get, promote}

  -- What a cache holds for a key.
  abbrev pub entry : LruCache K V → K → Option V
  entry c k = lookup dec k (iter c)

  pub record IsValid (c : LruCache K V) : Type 0 where
    pub has_room : 0 < cap c
    pub bounded : length (iter c) ≤ cap c
    pub distinct : HasDistinctKeys dec (iter c)

  -- A valid cache of a given capacity.
  pub record IsSized (n : ℕ) (c : LruCache K V) : Type 0 where
    pub valid : IsValid c
    pub capacity : cap c ≡ n

module _ (lru : LruCrate) (laws : IsLawful lru) {K V : Type 0} (dec : Discrete K) where
  open lru use {LruCache, iter, cap, new, push, get, promote}

  pub new-IsValid : (n : ℕ) → 0 < n → IsValid lru {V = V} dec (new n)
  new-IsValid n h = record {
    has_room = rw (laws.cap-new) h;
    bounded = rw (laws.iter-new) (omega arith);
    distinct = rw (laws.iter-new) tt;
  }

  pub entry-new : (n : ℕ) (k : K) → entry lru {V = V} dec (new n) k ≡ none
  unfolding lookup
  entry-new n k = rw (laws.iter-new)

  module _ (c : LruCache K V) (k : K) where
    pub get-IsValid : IsValid lru dec c → IsValid lru dec (get dec c k).1
    get-IsValid h = record {
      has_room = rw (laws.cap-get) h.has_room;
      bounded =
          rw (laws.cap-get, laws.iter-get)
            (omega (arith, length-to_front-le dec k (iter c), h.bounded));
      distinct = rw (laws.iter-get) (to_front-HasDistinctKeys dec k (iter c) h.distinct);
    }

    pub promote-IsValid : IsValid lru dec c → IsValid lru dec (promote dec c k)
    promote-IsValid h = record {
      has_room = rw (laws.cap-promote) h.has_room;
      bounded =
          rw (laws.cap-promote, laws.iter-promote)
            (omega (arith, length-to_front-le dec k (iter c), h.bounded));
      distinct = rw (laws.iter-promote) (to_front-HasDistinctKeys dec k (iter c) h.distinct);
    }

    pub entry-get : (j : K) → entry lru dec (get dec c k).1 j ≡ entry lru dec c j
    entry-get j = rw (laws.iter-get) (lookup-to_front dec k j (iter c))

    pub entry-promote : (j : K) → entry lru dec (promote dec c k) j ≡ entry lru dec c j
    entry-promote j = rw (laws.iter-promote) (lookup-to_front dec k j (iter c))

    pub length-iter-get-le : length (iter (get dec c k).1) ≤ length (iter c)
    length-iter-get-le =
        omega (arith, ap length (laws.iter-get dec c k), length-to_front-le dec k (iter c))

    module _ (v : V) where
      abbrev pushed : List (K × V)
      pushed = (k, v) ∷ without dec k (iter c)

      pub push-IsValid : IsValid lru dec c → IsValid lru dec (push dec c k v)
      push-IsValid h = record {
        has_room = rw (laws.cap-push) h.has_room;
        bounded = rw (laws.cap-push, laws.iter-push) (length-take-le (cap c) pushed);
        distinct = rw (laws.iter-push) (
            take-HasDistinctKeys dec (cap c) pushed (
              unfold lookup in ground (arith, lookup-without dec k k (iter c)),
              without-HasDistinctKeys dec k (iter c) h.distinct,
            ));
      }

      pub entry-push_self : IsValid lru dec c → entry lru dec (push dec c k v) k ≡ some v
      entry-push_self h =
          rw (laws.iter-push) (lookup-take_self dec (cap c) k v (without dec k (iter c)) h.has_room)

      -- A push adds nothing but its own pair.
      pub entry-push_some :
          (j : K) (w : V)
          → entry lru dec (push dec c k v) j ≡ some w
          → ((k ≡ j) × (v ≡ w)) ⊎ ((k ≢ j) × (entry lru dec c j ≡ some w))
      unfolding lookup
      entry-push_some j w h =
          let e = lookup-take dec (cap c) j pushed w (rw (laws.iter-push) at h) in
          ground (arith, e, lookup-without dec k j (iter c))

      -- What is absent stays absent.
      pub entry-push_none :
          (j : K) → k ≢ j → entry lru dec c j ≡ none → entry lru dec (push dec c k v) j ≡ none
      entry-push_none j ne none_there = elim (Option-cases (entry lru dec (push dec c k v) j)) [
        | inl e ↦ e
        | inr (w, e) ↦ elim (entry-push_some j w e) [
          | inl p ↦ absurd (ne p.0)
          | inr p ↦ absurd (cc)
        ]
      ]

      pub length-iter-push-le : length (iter (push dec c k v)) ≤ length (iter c) + 1
      length-iter-push-le = omega (
        arith,
        ap length (laws.iter-push dec c k v),
        length-take-le_length (cap c) pushed,
        length-without-le dec k (iter c),
      )

      -- With room left, or at a key that is there, a push evicts nothing.
      pub entry-push_room :
          (j : K)
          → length (without dec k (iter c)) < cap c
          → entry lru dec (push dec c k v) j ≡ ite (dec k j) (some v) (entry lru dec c j)
      unfolding lookup
      entry-push_room j h =
          rw (laws.iter-push, take_of_length-le (cap c) pushed h)
            (ground (arith, lookup-without dec k j (iter c)))

module _ (lru : LruCrate) (laws : IsLawful lru) {K V : Type 0} (dec : Discrete K) where
  open lru use {LruCache, new, get, push}

  pub new-IsSized : (n : ℕ) → 0 < n → IsSized lru {V = V} dec n (new n)
  new-IsSized n h = record { valid = new-IsValid lru laws dec n h; capacity = laws.cap-new n }

  module _ {n : ℕ} (c : LruCache K V) (k : K) where
    pub get-IsSized : IsSized lru dec n c → IsSized lru dec n (get dec c k).1
    get-IsSized h = record {
      valid = get-IsValid lru laws dec c k h.valid;
      capacity = laws.cap-get dec c k ∙ h.capacity;
    }

    pub push-IsSized : (v : V) → IsSized lru dec n c → IsSized lru dec n (push dec c k v)
    push-IsSized v h = record {
      valid = push-IsValid lru laws dec c k v h.valid;
      capacity = laws.cap-push dec c k v ∙ h.capacity;
    }

module _ (lru : LruCrate) {K V : Type 0} (dec : Discrete K) where
  pub length-iter-le :
      {n : ℕ} {c : lru.LruCache K V} → IsSized lru dec n c → length (lru.iter c) ≤ n
  length-iter-le h = omega (arith, h.capacity, h.valid.bounded)
