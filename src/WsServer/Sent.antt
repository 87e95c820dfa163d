-- ===== src/WsServer/Sent.antt =====
-- src/ws_server.rs: the texts that a client is sent.
use Prim.Native.String.{String}
use reth_sentry_node.Prelude.{
  ℕ, zero, suc, ◌+◌, ◌≡◌, refl, ap, Bool, true, false, Option, none, some, List, [], ◌∷◌,
  if◌then◌else◌, length, take, Bool-cases, Option-cases, inl, inr,
}
use reth_sentry_node.WsServer.{
  Json, First, Received, notified, lagged, closed, wait_for_subscription, uses_raw, to_message,
  stream, handle_ws_connection,
}

-- How many of the next sends go through before the first that fails, of so many.
abbrev pub unbroken : (ℕ → Bool) → ℕ → ℕ → ℕ
unbroken accepts n zero = 0
unbroken accepts n (suc count) = if accepts n then suc (unbroken accepts (n + 1) count) else 0

module _ {B256 : Type 0} (json : Json B256) where
  -- The texts of all notifications before the channel closes; lags are passed over.
  abbrev pub messages : Bool → List (Received B256) → List String
  messages use_raw [] = []
  messages use_raw (closed ∷ rs) = []
  messages use_raw (lagged k ∷ rs) = messages use_raw rs
  messages use_raw (notified x ∷ rs) =
      let rest = messages use_raw rs in
      elim (to_message json use_raw x) [ none ↦ rest | some msg ↦ msg ∷ rest ]

  -- What is to be sent in a connection: the confirmation, and the notifications in the client's mode.
  abbrev pub due : Bool → Option String → List (Received B256) → List String
  due false mode rs = []
  due true none rs = []
  due true (some mode) rs = json.confirm mode ∷ messages (uses_raw json mode) rs

  stream-messages :
      (accepts : ℕ → Bool) (use_raw : Bool) (n : ℕ) (rs : List (Received B256))
      → stream json accepts use_raw n rs
        ≡ take (unbroken accepts n (length (messages use_raw rs))) (messages use_raw rs)
  unfolding stream
  stream-messages accepts use_raw n [] = refl
  stream-messages accepts use_raw n (closed ∷ rs) = refl
  stream-messages accepts use_raw n (lagged k ∷ rs) = stream-messages accepts use_raw n rs
  stream-messages accepts use_raw n (notified x ∷ rs) =
      elim (Option-cases (to_message json use_raw x)) [
        | inl e ↦ rw (e, stream, messages) (stream-messages accepts use_raw n rs)
        | inr (msg, e) ↦ elim (Bool-cases (accepts n)) [
          | inl a ↦
              rw (e, a, stream, messages, unbroken)
                (ap (◌∷◌ msg) (stream-messages accepts use_raw (n + 1) rs))
          | inr a ↦ rw (e, a, stream, messages, unbroken) refl
        ]
      ]

  -- For any connection: what the client is sent is the confirmation and then the texts of all
  -- notifications before the channel closes, in order and in its mode, without those that cannot be
  -- written, up to the first send that fails; nothing without a handshake or a subscription.
  pub handle_ws_connection-due :
      (shaken : Bool) (first : First) (accepts : ℕ → Bool) (rs : List (Received B256))
      → handle_ws_connection json shaken first accepts rs
        ≡ take
            (unbroken accepts 0 (length (due shaken (wait_for_subscription json first) rs)))
            (due shaken (wait_for_subscription json first) rs)
  unfolding handle_ws_connection
  handle_ws_connection-due false first accepts rs = refl
  handle_ws_connection-due true first accepts rs =
      elim (Option-cases (wait_for_subscription json first)) [
        | inl e ↦ rw (e, handle_ws_connection, due) refl
        | inr (mode, e) ↦ elim (Bool-cases (accepts 0)) [
          | inl a ↦
              rw (e, a, handle_ws_connection, due, unbroken)
                (ap (◌∷◌ (json.confirm mode)) (stream-messages accepts (uses_raw json mode) 1 rs))
          | inr a ↦ rw (e, a, handle_ws_connection, due, unbroken) refl
        ]
      ]
