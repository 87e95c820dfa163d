-- ===== src/Network/Startup.antt =====
-- src/network.rs: the numbers that the node starts with.
use reth_sentry_node.Prelude.{ℕ, ◌+◌, ◌-◌, ◌/◌, ◌%◌, ◌^◌, ◌≤◌, ◌<◌, ◌≡◌, arith}
use reth_sentry_node.Network.{SentryNetworkConfig, peers_config, estimated_number}

-- For any configuration: the most connections out and in are equal, and together they are the
-- configured peers, less one where that number is odd.
pub peers_config-total :
    (config : SentryNetworkConfig)
    → ((peers_config config).max_outbound ≡ (peers_config config).max_inbound)
      × ((peers_config config).max_outbound
            + (peers_config config).max_inbound
            + config.max_peers % 2
          ≡ config.max_peers)
unfolding peers_config
peers_config-total config = omega arith

-- For times in u64 from the anchor on: the estimate is the anchor's number plus one for each twelve
-- seconds since then, and a later time gives no lower estimate.
pub estimated_number-bounds :
    (now later : ℕ)
    → 1_681_338_455 ≤ now
    → now ≤ later
    → later < 2 ^ 64
    → (estimated_number now ≡ 17_034_870 + (now - 1_681_338_455) / 12)
      × (estimated_number now ≤ estimated_number later)
unfolding estimated_number
estimated_number-bounds now later h k l = omega arith

-- For times before the anchor: the subtraction wraps, and the estimate is above 1.5 * 10^18.
pub estimated_number-wraps :
    (now : ℕ) → now < 1_681_338_455 → 1_500_000_000_000_000_000 < estimated_number now
unfolding estimated_number
estimated_number-wraps now h = omega arith
