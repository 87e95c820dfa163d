-- ===== src/Chain.antt =====
-- The types of alloy and reth that the code handles, with the fields and calls that it uses of them.
use reth_sentry_node.Prelude.{ℕ}

pub record Chain : Type 1 where
  pub B256 : Type 0
  pub b256_eq : Discrete B256
  pub Header : Type 0
  pub number : Header → ℕ
  pub timestamp : Header → ℕ
  pub hash_slow : Header → B256
  pub BlockBody : Type 0
