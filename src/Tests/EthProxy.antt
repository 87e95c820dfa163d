-- ===== src/Tests/EthProxy.antt =====
-- Tests of src/eth_proxy.rs. A peer answers a body request in order, with the hash plus 1000 as the body.
use reth_sentry_node.Prelude.{
  ℕ, ◌+◌, ◌≡◌, ◌≤◌, refl, none, some, List, [], ◌∷◌, map, arith, length, ℕ_discrete, lookup,
}
use reth_sentry_node.Lru.Laws
use reth_sentry_node.Lru.Listed.{listed, listed-IsLawful}
use reth_sentry_node.BlockCache.{BlockCache, new, get_header_by_number}
use reth_sentry_node.BlockCache.Ops.{Op, insert, insert_header, run}
use reth_sentry_node.EthProxy.{
  rising, by_number, GetBlockHeaders, headers, bodies, block_headers, block_bodies, FetchClient,
  resolve_headers_from_cache, start, handle, start_number, walk_cache,
}
use reth_sentry_node.EthProxy.Headers.{IsWalk, first_number, header_of, walk}
use reth_sentry_node.EthProxy.Bound.{resolve_headers_from_cache-IsWalk}
use reth_sentry_node.EthProxy.Bodies.{body_of}
use reth_sentry_node.EthProxy.Single.{handle-unchecked}
use reth_sentry_node.EthProxy.Misplaced.{handle-misplaced}
use reth_sentry_node.EthProxy.Skip.{or_fetched, with_skip, handle-with_skip, handle-headers}
use reth_sentry_node.Tests.Sample.{SampleHeader, sample, header_at}

abbrev answer : ℕ → ℕ
answer hash = hash + 1000

abbrev peers : FetchClient sample
peers = record {
  get_headers = λ asked. some (header_at 9 ∷ []);
  get_block_bodies = λ asked. some (map answer asked);
}

abbrev fresh : BlockCache listed sample
fresh = record {
  headers_by_hash = record { cap = 3; iter = [] };
  headers_by_number = record { cap = 3; iter = [] };
  bodies_by_hash = record { cap = 3; iter = [] };
  hash_by_number = record { cap = 3; iter = [] };
  capacity = 3;
}

bodies-IsSized : Laws.IsSized listed ℕ_discrete 3 fresh.bodies_by_hash
bodies-IsSized = record {
  valid = record { has_room = omega arith; bounded = omega arith; distinct = tt };
  capacity = refl;
}

abbrev ops : List (Op sample)
ops = insert 105 (header_at 5) 1105 ∷ insert_header 106 (header_at 6) ∷ []

abbrev by_twos : GetBlockHeaders sample
by_twos = record { start_block = by_number 2; limit = 4; skip = 1; direction = rising }

resolve_headers_from_cache-IsWalk_example :
    IsWalk SampleHeader.number rising 2
      (first_number listed sample (run listed sample (new listed sample 3) ops) (by_number 2))
      (resolve_headers_from_cache listed sample
        (run listed sample (new listed sample 3) ops)
        by_twos).0
    × (length
          (resolve_headers_from_cache listed sample
            (run listed sample (new listed sample 3) ops)
            by_twos).0
        ≤ 4)
    × (length
          (resolve_headers_from_cache listed sample
            (run listed sample (new listed sample 3) ops)
            by_twos).0
        ≤ 3)
resolve_headers_from_cache-IsWalk_example =
    resolve_headers_from_cache-IsWalk listed listed-IsLawful sample (λ hash x. x.hash ≡ hash)
      (λ hash b. b ≡ hash + 1000) 3 ops by_twos (omega arith)

handle-headers_example :
    (handle listed sample peers fresh (block_headers by_twos)).0
    ≡ some (
        headers (
          or_fetched
            (walk 4 rising 2 (some 2) (header_of listed sample fresh))
            (some (header_at 9 ∷ []))))
handle-headers_example = handle-headers listed listed-IsLawful sample peers fresh by_twos

handle-with_skip_example :
    (start listed sample fresh (block_headers (with_skip listed sample by_twos 0))
      ≡ start listed sample fresh (block_headers by_twos))
    × (handle listed sample peers fresh (block_headers (with_skip listed sample by_twos 0))
        ≡ handle listed sample peers fresh (block_headers by_twos))
unfolding resolve_headers_from_cache start_number walk_cache get_header_by_number lookup
handle-with_skip_example = handle-with_skip listed sample peers fresh by_twos 0 refl

-- A cache with no room left, where the body of 104 is the next to be evicted.
abbrev full : BlockCache listed sample
full = record fresh {
  bodies_by_hash = record { cap = 3; iter = (101, 1101) ∷ (103, 1103) ∷ (104, 1104) ∷ [] };
}

handle-misplaced_example :
    ((handle listed sample peers fresh (block_bodies (101 ∷ 101 ∷ 102 ∷ []))).0
      ≡ some (bodies (1101 ∷ 1101 ∷ 1101 ∷ [])))
    × (body_of listed sample
          (handle listed sample peers fresh (block_bodies (101 ∷ 101 ∷ 102 ∷ []))).1
          102
        ≡ some 1101)
unfolding lookup
handle-misplaced_example =
    handle-misplaced listed listed-IsLawful sample peers answer (λ asked. refl) fresh 101 102 3
      bodies-IsSized (λ e. omega (arith, e)) refl refl

-- A peer that answers each request of bodies with a body of its own.
abbrev liar : FetchClient sample
liar = record { get_headers = λ asked. none; get_block_bodies = λ asked. some (666 ∷ []) }

handle-unchecked_example :
    (handle listed sample peers
      (handle listed sample liar fresh (block_bodies (101 ∷ []))).1
      (block_bodies (101 ∷ []))).0
    ≡ some (bodies (666 ∷ []))
unfolding lookup
handle-unchecked_example =
    handle-unchecked listed listed-IsLawful sample liar fresh 101 666 3 peers bodies-IsSized refl
      refl
