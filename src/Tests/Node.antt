-- ===== src/Tests/Node.antt =====
-- Tests of the tasks around the block cache, src/network.rs: a block is announced, a peer asks for headers
-- that are not cached, the block is rebroadcast to two peers, and a peer's answer comes.
use reth_sentry_node.Prelude.{ℕ, ◌≡◌, refl, none, some, List, [], ◌∷◌, OfSome, lookup, ℕ_discrete}
use reth_sentry_node.Lru.Assoc.{without}
use reth_sentry_node.Lru.Listed.{listed, listed-IsLawful}
use reth_sentry_node.BlockCache
use reth_sentry_node.BlockCache.{BlockCache, new, get_header_by_number}
use reth_sentry_node.BlockCache.Ops.{Op, IsBounded, insert, apply, run}
use reth_sentry_node.BlockImport.{NewBlockData, new_block, on_new_block}
use reth_sentry_node.Network.{rebroadcast}
use reth_sentry_node.EthProxy.{
  rising, by_number, GetBlockHeaders, block_headers, headers, start_number, await_headers,
}
use reth_sentry_node.EthProxy.Work.{
  starting, walking, caching, begin_work, take_headers, walk_on, cache_step,
}
use reth_sentry_node.Network.Node.{
  Node, announce, relay, call_cache, Input, announced, relayed, requested, headers_sent, nothing,
  announcement, rebroadcasting, request, cache_call, reply, headers_answer, Reach, here, next,
  begun, cache_of,
}
use reth_sentry_node.Network.Node.Cache.{Reach-reads}
use reth_sentry_node.Network.Node.Replies.{IsServed, exchanges, Reach-IsServed}
use reth_sentry_node.Tests.Sample.{SampleHeader, sample, header_at}

abbrev pub block_five : NewBlockData sample
block_five = record { hash = 105; block = record { header = header_at 5; body = 1105 } }

abbrev asked : GetBlockHeaders sample
asked = record { start_block = by_number 8; limit = 2; skip = 0; direction = rising }

abbrev ops : List (Op sample)
ops = insert 104 (header_at 4) 1104 ∷ []

abbrev at_start : Node listed sample ℕ
at_start = begun listed sample ℕ (run listed sample (new listed sample 3) ops)

abbrev after_announcement : Node listed sample ℕ
after_announcement = announce listed sample ℕ at_start (new_block block_five)

abbrev after_request : Node listed sample ℕ
after_request = record after_announcement {
  handler = some (begin_work listed sample (block_headers asked));
}

-- The handler's calls: the walk's start, and a round of it that finds nothing.
abbrev after_start : Node listed sample ℕ
after_start = call_cache listed sample ℕ after_request (starting asked)

abbrev after_relay : Node listed sample ℕ
after_relay = relay listed sample ℕ after_start block_five [] (some (1 ∷ 2 ∷ []))

abbrev after_walk : Node listed sample ℕ
after_walk = call_cache listed sample ℕ after_relay (walking asked 2 (some 8) [])

abbrev sent : List SampleHeader
sent = header_at 8 ∷ []

abbrev after_fetch : Node listed sample ℕ
after_fetch = record after_walk { handler = some (take_headers listed sample (some sent)) }

abbrev after_insertion : Node listed sample ℕ
after_insertion = call_cache listed sample ℕ after_fetch (caching sent sent)

abbrev after_loop : Node listed sample ℕ
after_loop = call_cache listed sample ℕ after_insertion (caching sent [])

abbrev at_end : Node listed sample ℕ
at_end = record after_loop { handler = none; replies = some (headers sent) ∷ [] }

abbrev inputs : List (Input listed sample ℕ)
inputs =
    announced (new_block block_five)
    ∷ requested (block_headers asked)
    ∷ nothing
    ∷ relayed block_five (some (1 ∷ 2 ∷ []))
    ∷ nothing
    ∷ headers_sent (some sent)
    ∷ nothing
    ∷ nothing
    ∷ nothing
    ∷ []

first_steps :
    Reach listed sample ℕ at_start
      (announced (new_block block_five)
        ∷ requested (block_headers asked)
        ∷ nothing
        ∷ relayed block_five (some (1 ∷ 2 ∷ []))
        ∷ [])
      after_relay
unfolding announce on_new_block begin_work call_cache cache_step start_number relay rebroadcast
first_steps =
    next
      (next
        (next (next here (announcement at_start (new_block block_five)))
          (request after_announcement (block_headers asked) refl))
        (cache_call after_request (starting asked) refl))
      (rebroadcasting after_start block_five [] (some (1 ∷ 2 ∷ [])) refl refl)

all_steps : Reach listed sample ℕ at_start inputs at_end
unfolding announce on_new_block begin_work take_headers call_cache cache_step start_number walk_on
    await_headers relay rebroadcast run apply new reth_sentry_node.BlockCache.insert
    get_header_by_number lookup ℕ_discrete without
all_steps =
    next
      (next
        (next
          (next (next first_steps (cache_call after_relay (walking asked 2 (some 8) []) refl)) (
            headers_answer after_walk
              (record { start = by_number 8; limit = 2; direction = rising }) (some sent) refl))
          (cache_call after_fetch (caching sent sent) refl))
        (cache_call after_insertion (caching sent []) refl))
      (reply after_loop (some (headers sent)) refl)

abbrev pub OwnHash : ℕ → SampleHeader → Type 0
OwnHash hash header = header.hash ≡ hash

Reach-reads_example :
    OfSome
      (OwnHash 105)
      (BlockCache.get_header_by_hash listed sample (cache_of listed sample ℕ at_end) 105).0
    × OfSome
        (λ x. x.number ≡ 8)
        (BlockCache.get_header_by_number listed sample (cache_of listed sample ℕ at_end) 8).0
    × IsBounded listed sample 3 (cache_of listed sample ℕ at_end)
Reach-reads_example =
    Reach-reads listed sample ℕ OwnHash (λ x. refl) listed-IsLawful 3 ops 105 8 ((refl, tt), tt)
      all_steps (refl, (tt, (tt, (tt, (tt, (tt, (tt, (tt, (tt, tt)))))))))

Reach-IsServed_example :
    IsServed listed sample ℕ OwnHash
      (exchanges listed sample ℕ OwnHash [] inputs)
      at_end.replies
      at_end.handler
Reach-IsServed_example =
    Reach-IsServed listed sample ℕ OwnHash (λ x. refl) listed-IsLawful 3 ops ((refl, tt), tt)
      all_steps (refl, (tt, (tt, (tt, (tt, (tt, (tt, (tt, (tt, tt)))))))))
