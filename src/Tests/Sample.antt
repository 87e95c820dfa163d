-- ===== src/Tests/Sample.antt =====
-- A sample of the types of alloy and reth: hashes are numbers, and a header carries its own hash.
use reth_sentry_node.Prelude.{ℕ, ◌+◌, ◌*◌, ℕ_discrete}
use reth_sentry_node.Chain.{Chain}

pub record SampleHeader : Type 0 where
  pub number : ℕ
  pub timestamp : ℕ
  pub hash : ℕ

abbrev pub sample : Chain
sample = record {
  B256 = ℕ;
  b256_eq = ℕ_discrete;
  Header = SampleHeader;
  number = λ h. h.number;
  timestamp = λ h. h.timestamp;
  hash_slow = λ h. h.hash;
  BlockBody = ℕ;
}

-- The header with the number `n`; its hash is `n + 100`.
abbrev pub header_at : ℕ → SampleHeader
header_at n = record { number = n; timestamp = n * 12; hash = n + 100 }
