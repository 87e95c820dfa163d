-- ===== src/WsServer.antt =====
-- src/ws_server.rs: a client's connection. serde_json, the hex encoder and the client are parameters.
pub mod Sent
pub mod Start
pub mod Server
pub mod Broadcast
use text.Mathlib.Text.{◌==◌}
use Prim.Native.String.{String, ◌++◌ as ◌<>◌}
use reth_sentry_node.Prelude.{
  ℕ, suc, ◌+◌, Bool, true, false, ◌||◌, Option, none, some, List, [], ◌∷◌, if◌then◌else◌,
}

pub record PendingTxNotification (B256 : Type 0) : Type 0 where
  pub hash : B256
  pub raw_tx : List ℕ

pub record SubscribeRequest : Type 0 where
  pub subscribe : String
  pub mode : String

pub record HashNotification : Type 0 where
  pub hash : String

pub record RawTxNotification : Type 0 where
  pub hash : String
  pub raw_tx : String

pub record WsConfig : Type 0 where
  pub enabled : Bool
  pub addr : String
  pub port : ℕ
  pub capacity : ℕ

abbrev pub default : WsConfig
default = record { enabled = true; addr = "0.0.0.0"; port = 8546; capacity = 4096 }

-- serde_json, and the hex encoder; `parse` fills in the default mode, and `confirm` is the text of the
-- confirmation for a mode.
pub record Json (B256 : Type 0) : Type 0 where
  pub parse : String → Option SubscribeRequest
  pub confirm : String → String
  pub write_raw : RawTxNotification → Option String
  pub write_hash : HashNotification → Option String
  pub hex_hash : B256 → String
  pub hex : List ℕ → String

-- What the client sends first, within the timeout or not.
pub data First : Type 0 where
  timed_out ended errored non_text : First
  text_message : String → First

-- What the broadcast channel gives.
pub data Received (B256 : Type 0) : Type 0 where
  notified : PendingTxNotification B256 → Received B256
  lagged : ℕ → Received B256
  closed : Received B256

module _ {B256 : Type 0} (json : Json B256) where
  -- The mode of the client; an unknown subscription is served as if it were the known one.
  unfoldable pub wait_for_subscription : First → Option String
  wait_for_subscription timed_out = some "raw"
  wait_for_subscription ended = none
  wait_for_subscription errored = none
  wait_for_subscription non_text = some "raw"
  wait_for_subscription (text_message t) = elim (json.parse t) [
    | none ↦ some "raw"
    | some request ↦ some request.mode
  ]

  unfoldable pub uses_raw : String → Bool
  uses_raw mode = mode == "raw" || mode == "full"

  -- The text for a notification, none if it cannot be written.
  unfoldable pub to_message : Bool → PendingTxNotification B256 → Option String
  to_message use_raw n =
      if use_raw
      then json.write_raw
          (record { hash = "0x" <> json.hex_hash n.hash; raw_tx = "0x" <> json.hex n.raw_tx })
      else json.write_hash (record { hash = "0x" <> json.hex_hash n.hash })

  -- The loop of a connection: the texts that are sent. `accepts n` says that the client takes the n-th.
  unfoldable pub stream : (ℕ → Bool) → Bool → ℕ → List (Received B256) → List String
  stream accepts use_raw n [] = []
  stream accepts use_raw n (closed ∷ rs) = []
  stream accepts use_raw n (lagged k ∷ rs) = stream accepts use_raw n rs
  stream accepts use_raw n (notified x ∷ rs) = elim (to_message use_raw x) [
    | none ↦ stream accepts use_raw n rs
    | some msg ↦ if accepts n then msg ∷ stream accepts use_raw (n + 1) rs else []
  ]

  -- The connection after its handshake, if that succeeds.
  unfoldable pub handle_ws_connection :
      Bool → First → (ℕ → Bool) → List (Received B256) → List String
  handle_ws_connection false first accepts rs = []
  handle_ws_connection true first accepts rs = elim (wait_for_subscription first) [
    | none ↦ []
    | some mode ↦ if accepts 0 then json.confirm mode ∷ stream accepts (uses_raw mode) 1 rs else []
  ]
