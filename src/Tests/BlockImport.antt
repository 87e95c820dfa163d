-- ===== src/Tests/BlockImport.antt =====
-- Tests of src/block_import.rs.
use reth_sentry_node.Prelude.{◌≡◌, refl, none, some, [], ◌∷◌, arith, ℕ_discrete}
use reth_sentry_node.Lru.Laws
use reth_sentry_node.Lru.Listed.{listed, listed-IsLawful}
use reth_sentry_node.BlockCache.{BlockCache}
use reth_sentry_node.EthProxy.{FetchClient, bodies, block_bodies, handle}
use reth_sentry_node.BlockImport.{NewBlockData, new_block, CachingBlockImport, on_new_block}
use reth_sentry_node.BlockImport.Served.{on_new_block-served}
use reth_sentry_node.Tests.Sample.{sample, header_at}

abbrev cache : BlockCache listed sample
cache = record {
  headers_by_hash = record { cap = 3; iter = [] };
  headers_by_number = record { cap = 3; iter = [] };
  hash_by_number = record { cap = 3; iter = [] };
  bodies_by_hash = record { cap = 3; iter = [] };
  capacity = 3;
}

abbrev import_start : CachingBlockImport listed sample
import_start = record { cache = cache; rebroadcast = [] }

abbrev announced : NewBlockData sample
announced = record { hash = 105; block = record { header = header_at 5; body = 1105 } }

abbrev no_peers : FetchClient sample
no_peers = record { get_headers = λ asked. none; get_block_bodies = λ asked. none }

bodies-IsSized : Laws.IsSized listed ℕ_discrete 3 cache.bodies_by_hash
bodies-IsSized = record {
  valid = record { has_room = omega arith; bounded = omega arith; distinct = tt };
  capacity = refl;
}

on_new_block-served_example :
    ((handle listed sample no_peers
        (on_new_block listed sample import_start (new_block announced)).cache
        (block_bodies (105 ∷ []))).0
      ≡ some (bodies (1105 ∷ [])))
    × ((on_new_block listed sample import_start (new_block announced)).rebroadcast ≡ announced ∷ [])
on_new_block-served_example =
    on_new_block-served listed listed-IsLawful sample 3 import_start announced no_peers
      bodies-IsSized
