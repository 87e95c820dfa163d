-- ===== src/Validator.antt =====
-- src/validator.rs: the stateless validator of pool transactions. A transaction is what the pool's
-- accessors return of it: addresses are a type with a zero, and amounts are native numbers.
pub mod Spec
use reth_sentry_node.Prelude.{
  ℕ, ◌+◌, ◌*◌, ◌-◌, ◌%◌, ◌^◌, Bool, true, false, not, Option, none, some, ltb, leb, ◌==◌, ite,
  is_none, if◌then◌else◌, Result, ok, err, ◌>>=◌, ◌>>◌, reject_if, u64_mod, u256_mod,
}

abbrev pub max_tx_gas_limit : ℕ
max_tx_gas_limit = 30_000_000

abbrev pub min_tx_gas_limit : ℕ
min_tx_gas_limit = 21_000

pub record StatelessValidatorConfig : Type 0 where
  pub chain_id : ℕ
  pub max_tx_gas_limit : ℕ

abbrev pub default : StatelessValidatorConfig
default = record { chain_id = 1; max_tx_gas_limit = max_tx_gas_limit }

pub record Tx (Address : Type 0) : Type 0 where
  pub sender : Address
  pub is_create : Bool
  pub chain_id : Option ℕ
  pub gas_limit : ℕ
  pub max_fee_per_gas : ℕ
  pub max_priority_fee_per_gas : Option ℕ
  pub value : ℕ
  pub nonce : ℕ

-- The reason of a rejection, with the numbers that its message shows.
pub data ValidationError : Type 0 where
  contract_creation : ValidationError
  wrong_chain_id : ℕ → ℕ → ValidationError
  gas_limit_too_low : ℕ → ℕ → ValidationError
  gas_limit_too_high : ℕ → ℕ → ValidationError
  priority_fee_above_max_fee : ℕ → ℕ → ValidationError
  zero_gas_price : ValidationError
  cost_overflow : ValidationError
  zero_signer : ValidationError
  max_nonce : ValidationError

-- `a * b` of U256 wraps; `a.checked_add(b)` is none on overflow.
abbrev pub mul256 : ℕ → ℕ → ℕ
mul256 a b = (a * b) % u256_mod

abbrev pub checked_add256 : ℕ → ℕ → Option ℕ
checked_add256 a b = if ltb (a + b) u256_mod then some (a + b) else none

-- 1. Chain ID check.
unfoldable pub check_chain_id :
    StatelessValidatorConfig → Option ℕ → Result ValidationError (Unit {0})
check_chain_id config none = ok tt
check_chain_id config (some id) =
    reject_if (not (id == config.chain_id)) (wrong_chain_id config.chain_id id)

-- 3. The priority fee is at most the fee.
unfoldable pub check_priority_fee : ℕ → Option ℕ → Result ValidationError (Unit {0})
check_priority_fee max_fee none = ok tt
check_priority_fee max_fee (some fee) =
    reject_if (ltb max_fee fee) (priority_fee_above_max_fee fee max_fee)

-- 5. The value and the gas cost fit in 256 bits.
unfoldable pub check_cost : ℕ → ℕ → ℕ → Result ValidationError (Unit {0})
check_cost value gas_limit gas_price =
    reject_if (is_none (checked_add256 value (mul256 gas_limit gas_price))) cost_overflow

module _ {Address : Type 0} (address_eq : Discrete Address) (zero_address : Address) where
  unfoldable pub validate_stateless :
      StatelessValidatorConfig → Tx Address → Result ValidationError (Unit {0})
  unfolding check_chain_id check_priority_fee check_cost
  validate_stateless config tx = do
    reject_if tx.is_create contract_creation
    check_chain_id config tx.chain_id
    reject_if (ltb tx.gas_limit min_tx_gas_limit) (gas_limit_too_low tx.gas_limit min_tx_gas_limit)
    reject_if (ltb config.max_tx_gas_limit tx.gas_limit)
        (gas_limit_too_high tx.gas_limit config.max_tx_gas_limit)
    check_priority_fee tx.max_fee_per_gas tx.max_priority_fee_per_gas
    reject_if (tx.max_fee_per_gas == 0) zero_gas_price
    check_cost tx.value tx.gas_limit tx.max_fee_per_gas
    reject_if (ite (address_eq tx.sender zero_address) true false) zero_signer
    reject_if (tx.nonce == u64_mod - 1) max_nonce
    ok tt

  -- `TransactionValidationOutcome`, with the fields that are not constant `None`.
  pub data Outcome : Type 0 where
    valid : (balance state_nonce : ℕ) (transaction : Tx Address) (propagate : Bool) → Outcome
    invalid : (transaction : Tx Address) (reason : ValidationError) → Outcome

  unfoldable pub validate_transaction : StatelessValidatorConfig → Tx Address → Outcome
  validate_transaction config tx = elim (validate_stateless config tx) [
    | ok _ ↦ valid (u256_mod - 1) tx.nonce tx true
    | err reason ↦ invalid tx reason
  ]
