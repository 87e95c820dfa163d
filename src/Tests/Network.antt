-- ===== src/Tests/Network.antt =====
-- Tests of src/network.rs: a start after one session with a block.
use reth_sentry_node.Prelude.{ℕ, ◌+◌, ◌≡◌, none, [], ◌∷◌, OfSome, arith}
use reth_sentry_node.Lru.Listed.{listed, listed-IsLawful}
use reth_sentry_node.BlockCache
use reth_sentry_node.BlockCache.{latest}
use reth_sentry_node.BlockCache.Ops.{insert, insert_header, get_header_by_number}
use reth_sentry_node.Network.{default, restore_cache, start_head}
use reth_sentry_node.Network.Sessions.{
  Session, session_cache, file_after, HasShortEncodings, IsSoundSession, written, cut_off,
}
use reth_sentry_node.Network.Sessions.Reads.{session_cache-reads}
use reth_sentry_node.Network.Sessions.Start.{IsHead, start_head-IsHead}
use reth_sentry_node.Tests.File.{codec, codec-IsCodec}
use reth_sentry_node.Tests.Sample.{SampleHeader, sample, header_at}

abbrev OwnHash : ℕ → SampleHeader → Type 0
OwnHash hash header = header.hash ≡ hash

abbrev OwnBody : ℕ → ℕ → Type 0
OwnBody hash body = body ≡ hash + 1000

abbrev first : Session sample
first = record {
  config = record default { block_cache_size = 2 };
  ops = insert 105 (header_at 5) 1105 ∷ insert 104 (header_at 4) 1104 ∷ [];
  ending = cut_off 60;
}

abbrev second : Session sample
second = record {
  config = default;
  ops = insert_header 107 (header_at 7) ∷ get_header_by_number 5 ∷ [];
  ending = written;
}

short : HasShortEncodings listed sample codec
short = record { header = λ x. omega arith; body = λ b. omega arith }

first-IsSound :
    IsSoundSession listed listed-IsLawful sample codec codec-IsCodec short OwnHash OwnBody first
first-IsSound = record { size = omega arith; ops = omega arith }

second-IsSound :
    IsSoundSession listed listed-IsLawful sample codec codec-IsCodec short OwnHash OwnBody second
second-IsSound = record { size = omega arith; ops = omega arith }

session_cache-reads_example :
    OfSome
      (OwnHash 105)
      (BlockCache.get_header_by_hash listed sample
        (session_cache listed sample codec second
          (file_after listed sample codec (first ∷ []) none))
        105).0
    × OfSome
        (λ x. x.number ≡ 5)
        (BlockCache.get_header_by_number listed sample
          (session_cache listed sample codec second
            (file_after listed sample codec (first ∷ []) none))
          5).0
    × OfSome
        (OwnBody 105)
        (BlockCache.get_body_by_hash listed sample
          (session_cache listed sample codec second
            (file_after listed sample codec (first ∷ []) none))
          105).0
session_cache-reads_example =
    session_cache-reads listed listed-IsLawful sample codec codec-IsCodec short OwnHash OwnBody
      (first ∷ []) second 105 5 (first-IsSound, tt) second-IsSound

start_head-IsHead_example :
    IsHead listed listed-IsLawful sample codec codec-IsCodec short OwnHash OwnBody 1_700_000_000 0
      (listed.iter
        (restore_cache listed sample codec default
          (file_after listed sample codec (first ∷ []) none)).hash_by_number)
      (latest listed sample (
        restore_cache listed sample codec default
          (file_after listed sample codec (first ∷ []) none)))
      (start_head listed sample codec default
        (file_after listed sample codec (first ∷ []) none)
        1_700_000_000
        0)
start_head-IsHead_example =
    start_head-IsHead listed listed-IsLawful sample codec codec-IsCodec short OwnHash OwnBody
      (first ∷ []) default 1_700_000_000 0 (first-IsSound, tt)
