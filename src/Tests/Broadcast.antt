-- ===== src/Tests/Broadcast.antt =====
-- Tests from src/forwarder.rs to a client of src/ws_server.rs: one notification, after a lag of none.
use Prim.Native.String.{◌++◌ as ◌<>◌}
use reth_sentry_node.Prelude.{
  ℕ, ◌≡◌, refl, Bool, true, some, List, [], ◌∷◌, ◌++◌, map, arith, lookup, ℕ_discrete,
}
use reth_sentry_node.Lru.Keys.{IsNodup, remove}
use reth_sentry_node.Lru.Listed.{listed, listed-IsLawful}
use reth_sentry_node.Dedup.{check_and_insert, look_up_or_push}
use reth_sentry_node.Dedup.Recency.{recent}
use reth_sentry_node.Dedup.{new}
use reth_sentry_node.Forwarder.{
  BackendConfig, Forwarder, new_forwarder, forward, send, receive, Reach, here, next, take_tx,
  broadcast_to, await_permit,
}
use reth_sentry_node.WsServer.{
  Json, PendingTxNotification, text_message, Received, notified, lagged, handle_ws_connection,
}
use reth_sentry_node.WsServer.Server.{
  started, broadcast, accept, connected, not_connected, ServerEvent, broadcasts, accepts, serve,
  broadcast_of,
}
use reth_sentry_node.WsServer.Broadcast.{
  to_notification, unread, got, skipped, handle_ws_connection-IsNodup,
}
use reth_sentry_node.Tests.Forwarder.{config, start, tx_at, Returns}

abbrev json : Json ℕ
json = record {
  parse = λ t. some (record { subscribe = "pending_transactions"; mode = t });
  confirm = λ mode. "subscribed " <> mode;
  write_raw = λ n. some (n.hash <> n.raw_tx);
  write_hash = λ n. some n.hash;
  hex_hash = λ h. "07";
  hex = λ bytes. "00";
}

abbrev received : List (Received ℕ)
received = lagged 0 ∷ notified (to_notification (tx_at 7)) ∷ []

abbrev kept : List (PendingTxNotification ℕ)
kept = to_notification (tx_at 7) ∷ []

abbrev always : ℕ → Bool
always n = true

abbrev events : List (ServerEvent ℕ)
events = accepts not_connected ∷ accepts connected ∷ broadcasts (to_notification (tx_at 7)) ∷ []

-- A node that has no endpoint, only its WebSocket clients.
abbrev ws_only : BackendConfig
ws_only = record config { endpoints = [] }

made : new_forwarder listed ws_only ≡ some start
unfolding new_forwarder new
made = refl

abbrev taken_one : Forwarder listed ℕ
taken_one = take_tx listed ℕ_discrete ws_only true start (tx_at 7)

run : Reach listed ℕ_discrete ws_only true Returns start (tx_at 7 ∷ []) taken_one
unfolding forward
run =
    next (next here (send start (tx_at 7) (omega arith)))
      (receive (record start { channel = tx_at 7 ∷ [] }) (tx_at 7) [] refl refl)

sent : broadcast_of events ≡ map to_notification taken_one.broadcast
unfolding take_tx check_and_insert look_up_or_push broadcast_to await_permit lookup
sent = refl

subscribed : (serve started events).subscriptions ≡ [] ++ (kept ∷ [])
unfolding serve accept broadcast
subscribed = refl

handle_ws_connection-IsNodup_example :
    (handle_ws_connection json true (text_message "hash") always received
      ≡ handle_ws_connection json true (text_message "hash") always (map notified kept))
    × IsNodup ℕ_discrete (map (λ n. n.hash) kept)
unfolding recent remove
handle_ws_connection-IsNodup_example =
    handle_ws_connection-IsNodup listed ℕ_discrete ws_only Returns listed-IsLawful json start events
      [] [] kept true (text_message "hash") always made run (omega arith) sent subscribed
      (skipped [] (got (to_notification (tx_at 7)) (unread [])))
