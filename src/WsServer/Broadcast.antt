-- ===== src/WsServer/Broadcast.antt =====
-- src/ws_server.rs with src/forwarder.rs: from the forwarder's broadcasts to the texts of a client. tokio's
-- broadcast channel gives a receiver what is sent after it subscribes, in order; what the receiver is too
-- slow for is left out and counted.
use mathlib.Core.List.{map-append}
use mathlib.Core.Path.{subst}
use reth_sentry_node.Prelude.{
  ℕ, ◌+◌, ◌≤◌, ◌≡◌, refl, sym, ap, ◌∙◌, Bool, true, false, some, List, [], ◌∷◌, ◌++◌, map, length,
  arith, Option-cases, inl, inr, if◌then◌else◌,
}
use reth_sentry_node.Lru.{LruCrate, IsLawful}
use reth_sentry_node.Lru.Keys.{seen, IsNodup}
use reth_sentry_node.Dedup.Recency.{recent}
use reth_sentry_node.Dedup.Distinct.{first_seen-IsNodup, append-IsNodup, seen-append}
use reth_sentry_node.Forwarder.{Task, ForwardableTx, BackendConfig, Forwarder, new_forwarder, Reach}
use reth_sentry_node.Forwarder.Runs.{hashes, new_forwarder-initial, Reach-forwarded}
use reth_sentry_node.Dedup.{accepted}
use reth_sentry_node.Dedup.Window.{accepted-first_seen}
use reth_sentry_node.WsServer.Server.{
  started, ServerEvent, serve, broadcast_of, subscription-IsSince,
}
use reth_sentry_node.WsServer.{
  PendingTxNotification, Json, First, Received, notified, lagged, closed, wait_for_subscription,
  uses_raw, to_message, stream, handle_ws_connection,
}

-- The notification for a transaction that the forwarder broadcasts.
unfoldable pub to_notification : {B256 : Type 0} → ForwardableTx B256 → PendingTxNotification B256
to_notification tx = record { hash = tx.hash; raw_tx = tx.raw_tx }

module _ {B256 : Type 0} where
  -- What a receiver gets of what is sent after it subscribes, and which of it that is; it may stop reading.
  pub data Delivery
      : List (PendingTxNotification B256)
        → List (Received B256)
        → List (PendingTxNotification B256)
        → Type 0 where
    unread : (sent : List (PendingTxNotification B256)) → Delivery sent [] []
    ended : Delivery [] (closed ∷ []) []
    got :
        {sent kept : List (PendingTxNotification B256)} {rs : List (Received B256)}
        (x : PendingTxNotification B256)
        → Delivery sent rs kept
        → Delivery (x ∷ sent) (notified x ∷ rs) (x ∷ kept)
    skipped :
        {sent kept : List (PendingTxNotification B256)} {rs : List (Received B256)}
        (lost : List (PendingTxNotification B256))
        → Delivery sent rs kept
        → Delivery (lost ++ sent) (lagged (length lost) ∷ rs) kept

  abbrev notified_hashes : List (PendingTxNotification B256) → List B256
  notified_hashes = map (λ n. n.hash)

  module _ (json : Json B256) where
    -- A client is sent the same as if only what it gets were sent to it, with no lag.
    stream-kept :
        (accepts : ℕ → Bool) (use_raw : Bool) (n : ℕ)
        {sent kept : List (PendingTxNotification B256)} {rs : List (Received B256)}
        → Delivery sent rs kept
        → stream json accepts use_raw n rs ≡ stream json accepts use_raw n (map notified kept)
    unfolding stream
    stream-kept accepts use_raw n (unread sent) = refl
    stream-kept accepts use_raw n ended = refl
    stream-kept accepts use_raw n (skipped lost d) = stream-kept accepts use_raw n d
    stream-kept accepts use_raw n (got x d) =
        let rest = λ (m : ℕ). stream-kept accepts use_raw m d in
        elim (Option-cases (to_message json use_raw x)) [
          | inl e ↦ rw (e, stream) (rest n)
          | inr (msg, e) ↦
              rw (e, stream) (ap (λ l. if accepts n then msg ∷ l else []) (rest (n + 1)))
        ]

    handle-kept :
        (shaken : Bool) (first : First) (accepts : ℕ → Bool)
        {sent kept : List (PendingTxNotification B256)} {rs : List (Received B256)}
        → Delivery sent rs kept
        → handle_ws_connection json shaken first accepts rs
          ≡ handle_ws_connection json shaken first accepts (map notified kept)
    unfolding handle_ws_connection
    handle-kept false first accepts d = refl
    handle-kept true first accepts d = elim (Option-cases (wait_for_subscription json first)) [
      | inl e ↦ rw (e, handle_ws_connection) refl
      | inr (mode, e) ↦
          rw (e, handle_ws_connection)
            (ap (λ l. if accepts 0 then json.confirm mode ∷ l else [])
              (stream-kept accepts (uses_raw json mode) 1 d))
    ]

  module _ (b256_eq : Discrete B256) where
    Delivery-seen :
        (y : B256) {sent kept : List (PendingTxNotification B256)} {rs : List (Received B256)}
        → Delivery sent rs kept
        → seen b256_eq y (notified_hashes sent) ≡ false
        → seen b256_eq y (notified_hashes kept) ≡ false
    unfolding seen
    Delivery-seen y (unread sent) h = refl
    Delivery-seen y ended h = refl
    Delivery-seen y (got x d) h = ground (arith, h, Delivery-seen y d)
    Delivery-seen y (skipped {sent} lost d) h = Delivery-seen y d (
        seen-append b256_eq y (notified_hashes lost) (notified_hashes sent)
          (ap (seen b256_eq y) (sym (map-append (λ n. n.hash) lost sent)) ∙ h))

    Delivery-IsNodup :
        {sent kept : List (PendingTxNotification B256)} {rs : List (Received B256)}
        → Delivery sent rs kept
        → IsNodup b256_eq (notified_hashes sent)
        → IsNodup b256_eq (notified_hashes kept)
    Delivery-IsNodup (unread sent) h = tt
    Delivery-IsNodup ended h = tt
    Delivery-IsNodup (got x d) h = (Delivery-seen x.hash d h.0, Delivery-IsNodup d h.1)
    Delivery-IsNodup (skipped {sent} lost d) h = Delivery-IsNodup d (
        append-IsNodup b256_eq (notified_hashes lost) (notified_hashes sent)
          (subst (IsNodup b256_eq) (map-append (λ n. n.hash) lost sent) h))

module _ (lru : LruCrate) {B256 : Type 0} (b256_eq : Discrete B256) (config : BackendConfig)
    (returns : Task B256 → Type 0) (laws : IsLawful lru) (json : Json B256) where
  hashes-to_notification :
      (txs : List (ForwardableTx B256)) → notified_hashes (map to_notification txs) ≡ hashes txs
  unfolding to_notification
  hashes-to_notification [] = refl
  hashes-to_notification (tx ∷ txs) = ap (◌∷◌ tx.hash) (hashes-to_notification txs)

  broadcast-IsNodup :
      (start : Forwarder lru B256) {f : Forwarder lru B256} {taken : List (ForwardableTx B256)}
      → new_forwarder lru config ≡ some start
      → Reach lru b256_eq config true returns start taken f
      → length (recent b256_eq [] (hashes taken)) ≤ config.dedup.cache_size
      → IsNodup b256_eq (hashes f.broadcast)
  broadcast-IsNodup start {f} {taken} made run fits =
      let (d, e, same) = new_forwarder-initial lru b256_eq config start made in
      let first =
        (Reach-forwarded lru b256_eq config true returns start made run).1
        ∙ ap (λ s. accepted lru b256_eq s.dedup (hashes taken)) same
        ∙ accepted-first_seen lru laws b256_eq config.dedup d (hashes taken) e fits in
      subst (IsNodup b256_eq) (sym first) (first_seen-IsNodup b256_eq [] (hashes taken))

  -- In any run of a forwarder with a WebSocket server, with or without endpoints, over an LRU cache with its
  -- laws, while the distinct hashes taken fit in the deduplication's cache, with connections accepted at
  -- any time between its broadcasts: a client is sent the texts of the notifications that the channel
  -- delivers to it of those broadcast since it was accepted, as if it had no lag between them, and no two
  -- of these have the same hash.
  pub handle_ws_connection-IsNodup :
      (start : Forwarder lru B256) {f : Forwarder lru B256} {taken : List (ForwardableTx B256)}
      (events : List (ServerEvent B256)) (earlier later : List (List (PendingTxNotification B256)))
      (since : List (PendingTxNotification B256)) {rs : List (Received B256)}
      {kept : List (PendingTxNotification B256)} (shaken : Bool) (first : First)
      (accepts : ℕ → Bool)
      → new_forwarder lru config ≡ some start
      → Reach lru b256_eq config true returns start taken f
      → length (recent b256_eq [] (hashes taken)) ≤ config.dedup.cache_size
      → broadcast_of events ≡ map to_notification f.broadcast
      → (serve started events).subscriptions ≡ earlier ++ (since ∷ later)
      → Delivery since rs kept
      → (handle_ws_connection json shaken first accepts rs
          ≡ handle_ws_connection json shaken first accepts (map notified kept))
        × IsNodup b256_eq (map (λ n. n.hash) kept)
  handle_ws_connection-IsNodup start {f} events earlier later since shaken first accepts made run
        fits sent subscribed delivery =
      let (before, split) = subscription-IsSince events earlier later since subscribed in
      let distinct = broadcast-IsNodup start made run fits in
      let all = sym (ap notified_hashes (sym split ∙ sent) ∙ hashes-to_notification f.broadcast) in
      let rest =
        append-IsNodup b256_eq (notified_hashes before) (notified_hashes since)
          (subst (IsNodup b256_eq) (all ∙ map-append (λ n. n.hash) before since) distinct) in
      (handle-kept json shaken first accepts delivery, Delivery-IsNodup b256_eq delivery rest)
