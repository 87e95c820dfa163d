-- ===== src/Validator/Spec.antt =====
-- src/validator.rs: what a transaction must be to pass, and which reason a rejection names.
use native.Mathlib.Nat.{mod-eq_of_lt}
use reth_sentry_node.Prelude.{
  ℕ, ◌+◌, ◌*◌, ◌-◌, ◌^◌, ◌≤◌, ◌<◌, ◌≡◌, ◌≢◌, ◌↔◌, true, false, some, OfSome, arith, ok, err,
  u64_mod, u128_mod, u256_mod, Result-cases, sym, ap, ◌∙◌, inl, inr,
}
use reth_sentry_node.Validator.{
  StatelessValidatorConfig, Tx, ValidationError, contract_creation, wrong_chain_id,
  gas_limit_too_low, gas_limit_too_high, priority_fee_above_max_fee, zero_gas_price, cost_overflow,
  zero_signer, max_nonce, mul256, validate_stateless, valid, invalid, validate_transaction,
}

-- The machine types of the accessors: u64, u128, U256.
pub record InRange {Address : Type 0} (tx : Tx Address) : Type 0 where
  pub gas_limit : tx.gas_limit < u64_mod
  pub max_fee_per_gas : tx.max_fee_per_gas < u128_mod
  pub value : tx.value < u256_mod
  pub nonce : tx.nonce < u64_mod

mul_mono : (a b m n : ℕ) → a ≤ m → b ≤ n → a * b ≤ m * n
mul_mono a b m n h k = grind arith

mul-lt-u256 : (a b : ℕ) → a < u64_mod → b < u128_mod → a * b < u256_mod
mul-lt-u256 a b ha hb = omega (arith, mul_mono a b u64_mod u128_mod (omega arith) (omega arith))

-- A product of a u64 and a u128 does not wrap in 256 bits.
mul256-exact : (a b : ℕ) → a < u64_mod → b < u128_mod → mul256 a b ≡ a * b
mul256-exact a b ha hb = mod-eq_of_lt (mul-lt-u256 a b ha hb)

module _ {Address : Type 0} (address_eq : Discrete Address) (zero_address : Address) where
  -- What a transaction must be, in mathematical numbers.
  pub record Accepts (config : StatelessValidatorConfig) (tx : Tx Address) : Type 0 where
    pub not_create : tx.is_create ≡ false
    pub chain_id : OfSome (λ id. id ≡ config.chain_id) tx.chain_id
    pub gas_limit_min : 21_000 ≤ tx.gas_limit
    pub gas_limit_max : tx.gas_limit ≤ config.max_tx_gas_limit
    pub priority_fee : OfSome (λ fee. fee ≤ tx.max_fee_per_gas) tx.max_priority_fee_per_gas
    pub gas_price : 0 < tx.max_fee_per_gas
    pub cost : tx.value + tx.gas_limit * tx.max_fee_per_gas < 2 ^ 256
    pub signer : tx.sender ≢ zero_address
    pub nonce : tx.nonce < 2 ^ 64 - 1

  complete :
      (config : StatelessValidatorConfig) (tx : Tx Address)
      → InRange tx
      → Accepts config tx
      → validate_stateless address_eq zero_address config tx ≡ ok tt
  unfolding validate_stateless
  complete config tx r a =
      ground (arith, mul256-exact tx.gas_limit tx.max_fee_per_gas r.gas_limit r.max_fee_per_gas)

  sound :
      (config : StatelessValidatorConfig) (tx : Tx Address)
      → InRange tx
      → validate_stateless address_eq zero_address config tx ≡ ok tt
      → Accepts config tx
  unfolding validate_stateless
  sound config tx r e =
      let exact = mul256-exact tx.gas_limit tx.max_fee_per_gas r.gas_limit r.max_fee_per_gas in
      record {
        not_create = ground arith;
        chain_id = ground arith;
        gas_limit_min = ground arith;
        gas_limit_max = ground arith;
        priority_fee = ground arith;
        gas_price = ground arith;
        cost = ground (arith, exact);
        signer = λ h. ground arith;
        nonce = ground arith;
      }

  -- What a reason says of the transaction, with the numbers that it carries.
  abbrev pub Explains : StatelessValidatorConfig → Tx Address → ValidationError → Type 0
  Explains config tx contract_creation = tx.is_create ≡ true
  Explains config tx (wrong_chain_id expected got) =
      (expected ≡ config.chain_id) × (tx.chain_id ≡ some got) × (got ≢ expected)
  Explains config tx (gas_limit_too_low gas least) =
      (gas ≡ tx.gas_limit) × (least ≡ 21_000) × (gas < least)
  Explains config tx (gas_limit_too_high gas most) =
      (gas ≡ tx.gas_limit) × (most ≡ config.max_tx_gas_limit) × (most < gas)
  Explains config tx (priority_fee_above_max_fee fee max_fee) =
      (tx.max_priority_fee_per_gas ≡ some fee) × (max_fee ≡ tx.max_fee_per_gas) × (max_fee < fee)
  Explains config tx zero_gas_price = tx.max_fee_per_gas ≡ 0
  Explains config tx cost_overflow = 2 ^ 256 ≤ tx.value + tx.gas_limit * tx.max_fee_per_gas
  Explains config tx zero_signer = tx.sender ≡ zero_address
  Explains config tx max_nonce = tx.nonce ≡ 2 ^ 64 - 1

  explain :
      (config : StatelessValidatorConfig) (tx : Tx Address) (reason : ValidationError)
      → InRange tx
      → validate_stateless address_eq zero_address config tx ≡ err reason
      → Explains config tx reason
  unfolding validate_stateless
  explain config tx contract_creation r e = ground arith
  explain config tx _ r e =
      ground (arith, mul256-exact tx.gas_limit tx.max_fee_per_gas r.gas_limit r.max_fee_per_gas)

  outcome-ok :
      (config : StatelessValidatorConfig) (tx : Tx Address)
      → validate_stateless address_eq zero_address config tx ≡ ok tt
      → validate_transaction address_eq zero_address config tx
        ≡ valid (2 ^ 256 - 1) tx.nonce tx true
  unfolding validate_transaction
  outcome-ok config tx q = rw (q, validate_transaction)

  outcome-err :
      (config : StatelessValidatorConfig) (tx : Tx Address) {reason : ValidationError}
      → validate_stateless address_eq zero_address config tx ≡ err reason
      → validate_transaction address_eq zero_address config tx ≡ invalid tx reason
  unfolding validate_transaction
  outcome-err config tx q = rw (q, validate_transaction)

  -- For a transaction with accessors in the ranges of their types: it is accepted, with the balance
  -- 2^256 - 1, its own nonce as the state's nonce and propagation on, exactly when it is no contract
  -- creation, its chain id, if any, is the configured one, its gas limit is between 21000 and the
  -- configured maximum, its priority fee, if any, is at most its fee, the fee is not zero, value plus
  -- gas limit times fee is below 2^256, the signer is not the zero address and the nonce is below
  -- 2^64 - 1.
  pub validate_transaction-valid_iff :
      (config : StatelessValidatorConfig) (tx : Tx Address)
      → InRange tx
      → (validate_transaction address_eq zero_address config tx
          ≡ valid (2 ^ 256 - 1) tx.nonce tx true)
        ↔ Accepts config tx
  validate_transaction-valid_iff config tx r = (
    λ e. elim (Result-cases (validate_stateless address_eq zero_address config tx)) [
      | inl (_, q) ↦ sound config tx r q
      | inr (reason, q) ↦ cc (outcome-err config tx q)
    ],
    λ a. outcome-ok config tx (complete config tx r a),
  )

  -- For a transaction with accessors in the ranges of their types: if it is rejected, it comes back
  -- unchanged, and the reason with the numbers in it is true of it.
  pub validate_transaction-Explains :
      (config : StatelessValidatorConfig) (tx tx' : Tx Address) (reason : ValidationError)
      → InRange tx
      → validate_transaction address_eq zero_address config tx ≡ invalid tx' reason
      → (tx' ≡ tx) × Explains config tx reason
  validate_transaction-Explains config tx tx' reason r e =
      elim (Result-cases (validate_stateless address_eq zero_address config tx)) [
        | inl (_, q) ↦ cc (outcome-ok config tx q)
        | inr (reason', q) ↦
            let same : invalid tx' reason ≡ invalid tx reason' = sym e ∙ outcome-err config tx q in
            (cc, explain config tx reason r (q ∙ ap err (cc)))
      ]
