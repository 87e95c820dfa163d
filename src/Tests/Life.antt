-- ===== src/Tests/Life.antt =====
-- Tests of the node over restarts, src/network.rs: a block is announced, the file is cut off after that
-- block, a start fails, and one more comes up.
use reth_sentry_node.Prelude.{
  ℕ, ◌≡◌, refl, true, false, none, Option, List, [], ◌∷◌, OfSome, arith, ok, err, All,
}
use reth_sentry_node.Lru.Listed.{listed, listed-IsLawful}
use reth_sentry_node.BlockCache
use reth_sentry_node.BlockCache.Ops.{IsBounded}
use reth_sentry_node.BlockImport.{new_block}
use reth_sentry_node.Network.{SentryNetworkConfig, default}
use reth_sentry_node.Network.Launch.{
  Answers, Launch, no_manager, launch, start_network, stop_network,
}
use reth_sentry_node.Network.Life.{Run, Life, unborn, not_started, lived, IsSoundRun, Life-reads}
use reth_sentry_node.Network.Node.{
  Node, announced, announce, announcement, here, next, begun, cache_of,
}
use reth_sentry_node.Network.Sessions.{cut_off, HasShortEncodings}
use reth_sentry_node.Tests.File.{codec, codec-IsCodec}
use reth_sentry_node.Tests.Node.{OwnHash, block_five}
use reth_sentry_node.Tests.Sample.{sample}

abbrev config : SentryNetworkConfig
config = record default { block_cache_size = 3 }

abbrev key : ℕ
key = 1

abbrev works : Answers
works = record { runtime = true; manager = true; fetch_client = true; disconnects = true }

abbrev launch_from : Option (List ℕ) → Launch listed sample ℕ
launch_from file = launch listed sample codec config key file 1_700_000_000 0

comes_up :
    (file : Option (List ℕ))
    → start_network listed sample codec works config key file 1_700_000_000 0
      ≡ ok (launch_from file)
unfolding start_network
comes_up file = refl

refused :
    (file : Option (List ℕ))
    → start_network listed sample codec
        (record works { manager = false })
        config
        key
        file
        1_700_000_000
        0
      ≡ err no_manager
unfolding start_network
refused file = refl

abbrev runs : List (Run listed sample codec ℕ ℕ)
runs = (config, announced (new_block block_five) ∷ []) ∷ []

abbrev at_start : Node listed sample ℕ
at_start = begun listed sample ℕ (launch_from none).cache

abbrev at_end : Node listed sample ℕ
at_end = announce listed sample ℕ at_start (new_block block_five)

abbrev file : Option (List ℕ)
file =
    (stop_network listed sample codec works (cut_off 60) (cache_of listed sample ℕ at_end) none).1

life : Life listed sample codec ℕ ℕ runs file
life =
    not_started
      (lived unborn works config key 1_700_000_000 0 (launch_from none) (comes_up none)
        (next here (announcement at_start (new_block block_five))) (cut_off 60))
      (record works { manager = false }) config key 1_700_000_000 0 no_manager (refused file)

short : HasShortEncodings listed sample codec
short = record { header = λ x. omega arith; body = λ b. omega arith }

runs-IsSound : All (IsSoundRun listed sample codec ℕ ℕ OwnHash) runs
runs-IsSound = ((omega arith, (refl, tt)), tt)

abbrev again : Node listed sample ℕ
again = begun listed sample ℕ (launch_from file).cache

Life-reads_example :
    OfSome
      (OwnHash 105)
      (BlockCache.get_header_by_hash listed sample (cache_of listed sample ℕ again) 105).0
    × OfSome
        (λ x. x.number ≡ 5)
        (BlockCache.get_header_by_number listed sample (cache_of listed sample ℕ again) 5).0
    × IsBounded listed sample 3 (cache_of listed sample ℕ again)
Life-reads_example =
    Life-reads listed sample codec ℕ ℕ OwnHash (λ x. refl) listed-IsLawful codec-IsCodec short works
      config key 1_700_000_000 0 (launch_from file) 105 5 life runs-IsSound (comes_up file) here
      (omega arith, tt)
