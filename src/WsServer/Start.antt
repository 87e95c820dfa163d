-- ===== src/WsServer/Start.antt =====
-- src/ws_server.rs: the start of the server.
use Prim.Native.String.{String}
use reth_sentry_node.Prelude.{ℕ, Bool, not, ok, Result, ◌>>◌, reject_if, ◌==◌}
use reth_sentry_node.WsServer.{WsConfig}

-- Why the server does not start: a channel without room is a panic.
pub data WsError : Type 0 where
  no_capacity bad_address unbound : WsError

-- `start_ws_server` up to its accept loop: `parses` is the parser of socket addresses, and `binds` says
-- whether the listener gets the address.
unfoldable pub start_ws_server :
    (parses : String → ℕ → Bool) (binds : String → ℕ → Bool) → WsConfig → Result WsError (Unit {0})
start_ws_server parses binds config = do
  reject_if (config.capacity == 0) no_capacity
  reject_if (not (parses config.addr config.port)) bad_address
  reject_if (not (binds config.addr config.port)) unbound
  ok tt
