-- ===== src/Config/Main/Start.antt =====
-- src/main.rs: what a start depends on, and what the node then accepts.
use Prim.Native.String.{String}
use reth_sentry_node.Prelude.{
  ℕ, ◌^◌, ◌-◌, ◌≤◌, ◌≡◌, refl, sym, ap, ◌∙◌, Bool, true, Option, none, some, ok, err, Result,
  Result-cases, inl, inr, OfSome, arith,
}
use reth_sentry_node.Config.{SentryConfig, to_network_config}
use reth_sentry_node.Config.File.{Tables}
use reth_sentry_node.Config.Main.{
  Cli, from_cli, load_config, parse_file, MainError, Started, prepare, finish, main,
}
use reth_sentry_node.NodeKey.{KeyCodec, IsKeyCodec, Disk, KeyError, load_or_generate}
use reth_sentry_node.NodeKey.Restart.{load_or_generate-load_or_generate}
use reth_sentry_node.Network.{validator_config}
use reth_sentry_node.Validator.{Tx, validate_transaction, valid}
use reth_sentry_node.Validator.Spec.{InRange, validate_transaction-valid_iff}
use reth_sentry_node.WsServer.{WsConfig}

module _ (read : String → Option String) (toml : String → Option Tables)
    (parses binds : String → ℕ → Bool) where
  load_config-file :
      (cli : Cli) (path : String)
      → cli.config ≡ some path
      → load_config read toml cli ≡ parse_file toml (read path)
  unfolding load_config
  load_config-file cli path e =
      ap
        (λ (o : Option String). elim o [
          | none ↦ ok (from_cli cli)
          | some path ↦ parse_file toml (read path)
        ])
        e

  prepare-config_file :
      (cli cli' : Cli) (path : String)
      → cli.config ≡ some path
      → cli'.config ≡ some path
      → prepare read toml parses binds cli ≡ prepare read toml parses binds cli'
  unfolding prepare
  prepare-config_file cli cli' path e e' =
      let same = load_config-file cli path e ∙ sym (load_config-file cli' path e') in rw same refl

  module _ {SecretKey Text : Type 0} (codec : KeyCodec SecretKey Text) where
    main-ok :
        (cli : Cli) (disk : Disk Text) (key : SecretKey) {p : SentryConfig × Option WsConfig}
        → prepare read toml parses binds cli ≡ ok p
        → main codec read toml parses binds cli disk key ≡ (
          finish codec cli p (load_or_generate codec disk key).0,
          (load_or_generate codec disk key).1,
        )
    unfolding main
    main-ok cli disk key e = rw (e, main) refl

    main-err :
        (cli : Cli) (disk : Disk Text) (key : SecretKey) {e : MainError}
        → prepare read toml parses binds cli ≡ err e
        → main codec read toml parses binds cli disk key ≡ (err e, disk)
    unfolding main
    main-err cli disk key e = rw (e, main) refl

    finish-key :
        (cli : Cli) (p : SentryConfig × Option WsConfig) (loaded : Result KeyError SecretKey)
        {s : Started SecretKey}
        → finish codec cli p loaded ≡ ok s
        → loaded ≡ ok s.key
    unfolding finish
    finish-key cli p (err e) h = cc
    finish-key cli (config, websocket) (ok key) h = ground arith

    module _ (laws : IsKeyCodec codec) where
      -- For a codec with its laws and a key file that can be read: if a start with some command line
      -- brings the network up, then a later start with the same command line, files and listeners brings
      -- it up in the same way, with the same key, whatever key would be generated, and leaves the key's
      -- file as it is.
      pub main-main :
          (cli : Cli) (disk disk' : Disk Text) (key later : SecretKey) (s : Started SecretKey)
          → disk.reads ≡ true
          → main codec read toml parses binds cli disk key ≡ (ok s, disk')
          → main codec read toml parses binds cli disk' later ≡ (ok s, disk')
      main-main cli disk disk' key later s r e =
          elim (Result-cases (prepare read toml parses binds cli)) [
            | inl (p, q) ↦
                let first = sym (main-ok cli disk key q) ∙ e in
                let done = ap (λ x. x.0) first in
                let loaded = finish-key cli p (load_or_generate codec disk key).0 done in
                let again =
                  load_or_generate-load_or_generate codec laws disk disk' key later s.key r
                    (λ i. (loaded i, (first i).1)) in
                main-ok cli disk' later q
                ∙ ap (λ x. (finish codec cli p x.0, x.1)) again
                ∙ ap (λ x. (finish codec cli p x, disk')) (sym loaded)
                ∙ ap (λ (x : Result MainError (Started SecretKey)). (x, disk')) done
            | inr (x, q) ↦ let m = main-err cli disk key q in cc
          ]

    finish-data_dir :
        (cli cli' : Cli) (p : SentryConfig × Option WsConfig) (loaded : Result KeyError SecretKey)
        → cli.data_dir ≡ cli'.data_dir
        → finish codec cli p loaded ≡ finish codec cli' p loaded
    unfolding finish
    finish-data_dir cli cli' p (err e) same = refl
    finish-data_dir cli cli' (config, websocket) (ok key) same = rw same refl

    -- With a configuration file, only the path of that file and the data directory count of the command
    -- line: two command lines that have these in common make the same start, whatever their ports,
    -- peers, chain id, endpoints and other options.
    pub main-config_file :
        (cli cli' : Cli) (path : String) (disk : Disk Text) (key : SecretKey)
        → cli.config ≡ some path
        → cli'.config ≡ some path
        → cli.data_dir ≡ cli'.data_dir
        → main codec read toml parses binds cli disk key
          ≡ main codec read toml parses binds cli' disk key
    main-config_file cli cli' path disk key e e' same =
        let prepared = prepare-config_file cli cli' path e e' in
        elim (Result-cases (prepare read toml parses binds cli)) [
          | inl (p, q) ↦
              let (loaded, disk') = load_or_generate codec disk key in
              main-ok cli disk key q
              ∙ ap (λ (x : Result MainError (Started SecretKey)). (x, disk'))
                  (finish-data_dir cli cli' p loaded same)
              ∙ sym (main-ok cli' disk key (sym prepared ∙ q))
          | inr (x, q) ↦ main-err cli disk key q ∙ sym (main-err cli' disk key (sym prepared ∙ q))
        ]

-- For a command line without a configuration file, and a transaction with accessors in the ranges of
-- their types: if the validator that the network is started with accepts it, its chain id, if it has
-- one, is that of the command line, and its gas limit is between 21000 and 30 million.
pub from_cli-validator :
    {Address : Type 0} (address_eq : Discrete Address) (zero_address : Address) (cli : Cli)
    (tx : Tx Address)
    → InRange tx
    → validate_transaction address_eq zero_address
        (validator_config (to_network_config (from_cli cli).network))
        tx
      ≡ valid (2 ^ 256 - 1) tx.nonce tx true
    → OfSome (λ id. id ≡ cli.chain_id) tx.chain_id
      × (21_000 ≤ tx.gas_limit)
      × (tx.gas_limit ≤ 30_000_000)
unfolding validator_config to_network_config from_cli
from_cli-validator address_eq zero_address cli tx r e =
    let a =
      (validate_transaction-valid_iff address_eq zero_address
          (validator_config (to_network_config (from_cli cli).network)) tx r).0
        e in
    (a.chain_id, a.gas_limit_min, a.gas_limit_max)
