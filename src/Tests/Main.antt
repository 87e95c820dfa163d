-- ===== src/Tests/Main.antt =====
-- Tests of src/main.rs: starts without and with a configuration file.
use Prim.Native.String.{String}
use reth_sentry_node.Prelude.{
  ℕ, ◌≡◌, ◌≤◌, ◌^◌, ◌-◌, refl, Bool, true, Option, none, some, List, [], ◌∷◌, ok, OfSome, arith,
  ℕ_discrete,
}
use reth_sentry_node.NodeKey.{generate, load_or_generate}
use reth_sentry_node.Config.{to_network_config}
use reth_sentry_node.Config.File.{Tables}
use reth_sentry_node.Config.Main.{
  Cli, default_cli, from_backends, from_cli, load_config, map_err, start_websocket, prepare,
  Started, finish, main,
}
use reth_sentry_node.Config.Main.Start.{main-main, main-config_file, from_cli-validator}
use reth_sentry_node.Network.{validator_config}
use reth_sentry_node.Tests.NodeKey.{codec, codec-IsKeyCodec, empty_disk, disk_after}
use reth_sentry_node.Tests.Validator.{transfer}
use reth_sentry_node.Validator.{
  valid, validate_transaction, validate_stateless, check_chain_id, check_priority_fee, check_cost,
}
use reth_sentry_node.WsServer.Start.{start_ws_server}

abbrev parses : String → ℕ → Bool
parses addr port = true

abbrev binds : String → ℕ → Bool
binds addr port = true

abbrev toml : String → Option Tables
toml content = some (record { network = none; backend = none; websocket = none })

abbrev read : String → Option String
read path = some ""

abbrev cli : Cli
cli = record default_cli { backends = "http://one" ∷ []; max_peers = 9 }

abbrev started : Started (List ℕ)
started = record {
  websocket = some (from_cli cli).websocket;
  backend = (from_cli cli).backend;
  network = to_network_config (from_cli cli).network;
  key = 7 ∷ [];
  data_dir = "data";
}

first_start : main codec read toml parses binds cli empty_disk (7 ∷ []) ≡ (ok started, disk_after)
unfolding main prepare load_config map_err start_websocket start_ws_server load_or_generate generate
    finish from_cli from_backends
first_start = refl

main-main_example :
    main codec read toml parses binds cli disk_after (9 ∷ []) ≡ (ok started, disk_after)
main-main_example =
    main-main read toml parses binds codec codec-IsKeyCodec cli empty_disk disk_after (7 ∷ [])
      (9 ∷ []) started refl first_start

abbrev with_file : Cli
with_file = record default_cli { config = some "sentry.toml" }

main-config_file_example :
    main codec read toml parses binds with_file empty_disk (7 ∷ [])
    ≡ main codec read toml parses binds
        (record with_file { port = 1; no_ws = true })
        empty_disk
        (7 ∷ [])
main-config_file_example =
    main-config_file read toml parses binds codec with_file
      (record with_file { port = 1; no_ws = true }) "sentry.toml" empty_disk (7 ∷ []) refl refl refl

accepted :
    validate_transaction ℕ_discrete 0
      (validator_config (to_network_config (from_cli cli).network))
      transfer
    ≡ valid (2 ^ 256 - 1) 3 transfer true
unfolding validate_transaction validate_stateless check_chain_id check_priority_fee check_cost
    ℕ_discrete validator_config to_network_config from_cli
accepted = refl

from_cli-validator_example :
    OfSome (λ id. id ≡ cli.chain_id) transfer.chain_id
    × (21_000 ≤ transfer.gas_limit)
    × (transfer.gas_limit ≤ 30_000_000)
from_cli-validator_example =
    from_cli-validator ℕ_discrete 0 cli transfer
      (record {
        gas_limit = omega arith;
        max_fee_per_gas = omega arith;
        value = omega arith;
        nonce = omega arith;
      })
      accepted
