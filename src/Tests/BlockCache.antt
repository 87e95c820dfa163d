-- ===== src/Tests/BlockCache.antt =====
-- Tests of src/block_cache.rs. The pairs that are inserted are a header with its own hash, and a body
-- that is the hash plus 1000.
use reth_sentry_node.Prelude.{
  ℕ, ◌+◌, ◌≡◌, ◌≤◌, refl, true, none, some, List, [], ◌∷◌, arith, length, ℕ_discrete, lookup, All,
  OfSome, is_some,
}
use reth_sentry_node.Lru.Listed.{listed, listed-IsLawful}
use reth_sentry_node.BlockCache
use reth_sentry_node.BlockCache.{BlockCache, CachedBlock, new, latest, drain_blocks}
use reth_sentry_node.BlockCache.Ops.{
  Op, insert, insert_header, insert_body, get_header_by_number, run,
}
use reth_sentry_node.BlockCache.Coherence.{run-reads}
use reth_sentry_node.BlockCache.Latest.{latest-max}
use reth_sentry_node.BlockCache.Drain.{IsSorted, run-drain_blocks}
use reth_sentry_node.BlockCache.InStep.{latest-insert}
use reth_sentry_node.BlockCache.Lost.{reordered, latest-lost}
use reth_sentry_node.Tests.Sample.{SampleHeader, sample, header_at}

abbrev OwnHash : ℕ → SampleHeader → Type 0
OwnHash hash header = header.hash ≡ hash

abbrev OwnBody : ℕ → ℕ → Type 0
OwnBody hash body = body ≡ hash + 1000

abbrev ops : List (Op sample)
ops =
    insert 105 (header_at 5) 1105
    ∷ insert_header 103 (header_at 3)
    ∷ insert_body 103 1103
    ∷ get_header_by_number 5
    ∷ insert 104 (header_at 4) 1104
    ∷ []

run-reads_example :
    OfSome
      (OwnHash 105)
      (BlockCache.get_header_by_hash listed sample
        (run listed sample (new listed sample 3) ops)
        105).0
    × OfSome
        (λ x. x.number ≡ 5)
        (BlockCache.get_header_by_number listed sample
          (run listed sample (new listed sample 3) ops)
          5).0
    × OfSome
        (OwnBody 105)
        (BlockCache.get_body_by_hash listed sample
          (run listed sample (new listed sample 3) ops)
          105).0
run-reads_example =
    run-reads listed listed-IsLawful sample OwnHash OwnBody 3 ops 105 5 (omega arith)

latest-max_example :
    OfSome
      (λ e.
        OwnHash e.0 e.1
        × All
            (λ m. m.0 ≤ e.1.number)
            (listed.iter (run listed sample (new listed sample 3) ops).hash_by_number))
      (latest listed sample (run listed sample (new listed sample 3) ops))
latest-max_example = latest-max listed listed-IsLawful sample OwnHash OwnBody 3 ops (omega arith)

run-drain_blocks_example :
    IsSorted
      (λ (b : CachedBlock listed sample). b.header.number)
      (drain_blocks listed sample (run listed sample (new listed sample 3) ops))
    × All
        (λ b. OwnHash b.hash b.header × OwnBody b.hash b.body)
        (drain_blocks listed sample (run listed sample (new listed sample 3) ops))
    × (length (drain_blocks listed sample (run listed sample (new listed sample 3) ops)) ≤ 3)
run-drain_blocks_example =
    run-drain_blocks listed listed-IsLawful sample OwnHash OwnBody 3 ops (omega arith)

abbrev free_ops : List (Op sample)
free_ops = insert 105 (header_at 5) 1105 ∷ insert_header 103 (header_at 3) ∷ []

latest-insert_example :
    is_some (
      latest listed sample (
        BlockCache.insert listed sample
          (run listed sample (new listed sample 2) free_ops)
          104
          (header_at 4)
          1104))
    ≡ true
latest-insert_example =
    latest-insert listed listed-IsLawful sample 2 free_ops 104 (header_at 4) 1104 (refl, (refl, tt))

latest-lost_example :
    (latest listed sample (
        reordered listed listed-IsLawful sample
          (101, header_at 1, 0)
          (105, header_at 5, 0)
          (103, header_at 3, 0))
      ≡ none)
    × (lookup ℕ_discrete 3 (
          listed.iter
            (reordered listed listed-IsLawful sample
              (101, header_at 1, 0)
              (105, header_at 5, 0)
              (103, header_at 3, 0)).headers_by_number)
        ≡ some (header_at 3))
latest-lost_example =
    latest-lost listed listed-IsLawful sample (101, header_at 1, 0) (105, header_at 5, 0)
      (103, header_at 3, 0) (omega arith) (omega arith) (omega arith)
