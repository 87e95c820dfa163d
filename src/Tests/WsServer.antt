-- ===== src/Tests/WsServer.antt =====
-- Tests of src/ws_server.rs: a client that asks for hashes and takes two texts, and a lag on the way.
use Prim.Native.String.{String, ◌++◌ as ◌<>◌}
use reth_sentry_node.Prelude.{ℕ, ◌≡◌, refl, Bool, true, some, List, [], ◌∷◌, take, length, ltb}
use reth_sentry_node.WsServer.{
  Json, text_message, Received, notified, lagged, closed, wait_for_subscription, uses_raw,
  to_message, stream, handle_ws_connection,
}
use reth_sentry_node.WsServer.Sent.{unbroken, due, handle_ws_connection-due}

abbrev json : Json String
json = record {
  parse = λ t. some (record { subscribe = "pending_transactions"; mode = t });
  confirm = λ mode. "subscribed " <> mode;
  write_raw = λ n. some (n.hash <> n.raw_tx);
  write_hash = λ n. some n.hash;
  hex_hash = λ h. h;
  hex = λ bytes. "00";
}

abbrev received : List (Received String)
received =
    notified (record { hash = "aa"; raw_tx = [] })
    ∷ lagged 3
    ∷ notified (record { hash = "bb"; raw_tx = [] })
    ∷ closed
    ∷ []

abbrev takes_two : ℕ → Bool
takes_two n = ltb n 2

sent :
    handle_ws_connection json true (text_message "hash") takes_two received
    ≡ "subscribed hash" ∷ "0xaa" ∷ []
unfolding handle_ws_connection wait_for_subscription uses_raw to_message stream
sent = refl

handle_ws_connection-due_example :
    handle_ws_connection json true (text_message "hash") takes_two received
    ≡ take
        (unbroken takes_two 0
          (length (due json true (wait_for_subscription json (text_message "hash")) received)))
        (due json true (wait_for_subscription json (text_message "hash")) received)
handle_ws_connection-due_example =
    handle_ws_connection-due json true (text_message "hash") takes_two received
