-- ===== src/Tests/Validator.antt =====
-- Tests of src/validator.rs. Addresses are numbers here, with 0 as the zero address.
use reth_sentry_node.Prelude.{ℕ, ◌≡◌, ◌↔◌, ◌^◌, ◌-◌, refl, true, false, some, arith, ℕ_discrete}
use reth_sentry_node.Validator.{
  Tx, default, validate_transaction, valid, invalid, gas_limit_too_low, validate_stateless,
  check_chain_id, check_priority_fee, check_cost,
}
use reth_sentry_node.Validator.Spec.{
  Accepts, Explains, validate_transaction-valid_iff, validate_transaction-Explains,
}

abbrev pub transfer : Tx ℕ
transfer = record {
  sender = 7;
  is_create = false;
  chain_id = some 1;
  gas_limit = 21_000;
  max_fee_per_gas = 100;
  max_priority_fee_per_gas = some 2;
  value = 5;
  nonce = 3;
}

abbrev short_of_gas : Tx ℕ
short_of_gas = record transfer { gas_limit = 20_999 }

accepted : validate_transaction ℕ_discrete 0 default transfer ≡ valid (2 ^ 256 - 1) 3 transfer true
unfolding validate_transaction validate_stateless check_chain_id check_priority_fee check_cost
    ℕ_discrete
accepted = refl

rejected :
    validate_transaction ℕ_discrete 0 default short_of_gas
    ≡ invalid short_of_gas (gas_limit_too_low 20_999 21_000)
unfolding validate_transaction validate_stateless check_chain_id check_priority_fee check_cost
    ℕ_discrete
rejected = refl

validate_transaction-valid_iff_example :
    (validate_transaction ℕ_discrete 0 default transfer ≡ valid (2 ^ 256 - 1) 3 transfer true)
    ↔ Accepts ℕ_discrete 0 default transfer
validate_transaction-valid_iff_example =
    validate_transaction-valid_iff ℕ_discrete 0 default transfer (record {
      gas_limit = omega arith;
      max_fee_per_gas = omega arith;
      value = omega arith;
      nonce = omega arith;
    })

validate_transaction-Explains_example :
    (short_of_gas ≡ short_of_gas)
    × Explains ℕ_discrete 0 default short_of_gas (gas_limit_too_low 20_999 21_000)
validate_transaction-Explains_example =
    validate_transaction-Explains ℕ_discrete 0 default short_of_gas short_of_gas
      (gas_limit_too_low 20_999 21_000)
      (record {
        gas_limit = omega arith;
        max_fee_per_gas = omega arith;
        value = omega arith;
        nonce = omega arith;
      })
      rejected
