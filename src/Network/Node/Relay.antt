-- ===== src/Network/Node/Relay.antt =====
-- src/block_import.rs with src/network.rs: what the rebroadcast task sends of what is announced.
use reth_sentry_node.Prelude.{◌≡◌, Option, none, some, List, [], ◌∷◌, ◌++◌, map}
use reth_sentry_node.Chain.{Chain}
use reth_sentry_node.Lru.{LruCrate}
use reth_sentry_node.BlockCache.{BlockCache}
use reth_sentry_node.BlockImport.{NewBlockData, new_block, new_block_hashes}
use reth_sentry_node.Network.{Head, block_head, send_to_all, rebroadcast}
use reth_sentry_node.Network.Node.{
  Node, Input, announced, relayed, requested, headers_sent, bodies_sent, nothing,
}

module _ (lru : LruCrate) (chain : Chain) (PeerId : Type 0) where
  -- The block of an announcement, if it is whole, and the block and peers of a rebroadcast round.
  abbrev pub announced_of : Input lru chain PeerId → List (NewBlockData chain)
  announced_of (announced (new_block msg)) = msg ∷ []
  announced_of (announced (new_block_hashes hashes)) = []
  announced_of (relayed block peers) = []
  announced_of (requested asked) = []
  announced_of (headers_sent fetched) = []
  announced_of (bodies_sent fetched) = []
  announced_of nothing = []

  abbrev pub round_of : Input lru chain PeerId → List (NewBlockData chain × Option (List PeerId))
  round_of (relayed block peers) = (block, peers) ∷ []
  round_of (announced event) = []
  round_of (requested asked) = []
  round_of (headers_sent fetched) = []
  round_of (bodies_sent fetched) = []
  round_of nothing = []

  -- The blocks that are announced whole, and the rebroadcast rounds, in order.
  abbrev pub blocks_announced : List (Input lru chain PeerId) → List (NewBlockData chain)
  blocks_announced [] = []
  blocks_announced (input ∷ inputs) = announced_of input ++ blocks_announced inputs

  abbrev pub rounds :
      List (Input lru chain PeerId) → List (NewBlockData chain × Option (List PeerId))
  rounds [] = []
  rounds (input ∷ inputs) = round_of input ++ rounds inputs

  -- What rounds send: each block to each peer that is listed in its round, none where the list failed.
  abbrev pub deliveries :
      List (NewBlockData chain × Option (List PeerId)) → List (PeerId × NewBlockData chain)
  deliveries [] = []
  deliveries ((block, none) ∷ more) = deliveries more
  deliveries ((block, some peers) ∷ more) = send_to_all lru chain peers block ++ deliveries more

  -- The head of the last round's block, if there was a round.
  abbrev pub last_head :
      Option (Head chain.B256)
      → List (NewBlockData chain × Option (List PeerId))
      → Option (Head chain.B256)
  last_head head [] = head
  last_head head ((block, peers) ∷ more) =
      last_head (some (block_head chain block.hash block.block.header)) more

  -- The state of the rebroadcast after some inputs.
  pub record IsRelayed (inputs : List (Input lru chain PeerId)) (node : Node lru chain PeerId)
      : Type 0 where
    pub channel :
        map (λ r. r.0) (rounds inputs) ++ node.network.imports.rebroadcast ≡ blocks_announced inputs
    pub sent : node.network.sent ≡ deliveries (rounds inputs)
    pub status : node.network.status ≡ last_head none (rounds inputs)
