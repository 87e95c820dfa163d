-- ===== src/WsServer/Server.antt =====
-- src/ws_server.rs: the accept loop and the broadcaster, which share the broadcast channel.
use mathlib.Core.List.{append_assoc, append-nil}
use mathlib.Core.Path.{subst}
use reth_sentry_node.Prelude.{◌≡◌, sym, ap, ◌∙◌, List, [], ◌∷◌, ◌++◌, map, All, All-append}
use reth_sentry_node.WsServer.{PendingTxNotification}

-- For each connection that was accepted, in order, what was broadcast since it subscribed.
pub record Server (B256 : Type 0) : Type 0 where
  pub subscriptions : List (List (PendingTxNotification B256))

-- A round of the accept loop: a connection subscribes, or the accept failed and is logged.
pub data Accepted : Type 0 where
  connected not_connected : Accepted

-- What happens at the server, in the order in which it does.
pub data ServerEvent (B256 : Type 0) : Type 0 where
  broadcasts : PendingTxNotification B256 → ServerEvent B256
  accepts : Accepted → ServerEvent B256

module _ {B256 : Type 0} where
  -- The server at its start.
  abbrev pub started : Server B256
  started = record { subscriptions = [] }

  -- `WsBroadcaster::broadcast`: to every subscription, if there is one.
  unfoldable pub broadcast : Server B256 → PendingTxNotification B256 → Server B256
  broadcast server notification = record {
    subscriptions = map (λ since. since ++ (notification ∷ [])) server.subscriptions;
  }

  unfoldable pub accept : Server B256 → Accepted → Server B256
  accept server connected = record { subscriptions = server.subscriptions ++ ([] ∷ []) }
  accept server not_connected = server

  unfoldable pub serve : Server B256 → List (ServerEvent B256) → Server B256
  unfolding broadcast accept
  serve server [] = server
  serve server (broadcasts notification ∷ events) = serve (broadcast server notification) events
  serve server (accepts accepted ∷ events) = serve (accept server accepted) events

  abbrev pub broadcast_of : List (ServerEvent B256) → List (PendingTxNotification B256)
  broadcast_of [] = []
  broadcast_of (broadcasts notification ∷ events) = notification ∷ broadcast_of events
  broadcast_of (accepts accepted ∷ events) = broadcast_of events

  -- A last part of a list.
  abbrev pub IsSince :
      List (PendingTxNotification B256) → List (PendingTxNotification B256) → Type 0
  IsSince all since = (before : List (PendingTxNotification B256)) × (all ≡ before ++ since)

  broadcast-IsSince :
      (all : List (PendingTxNotification B256)) (x : PendingTxNotification B256)
      (l : List (List (PendingTxNotification B256)))
      → All (IsSince all) l
      → All (IsSince (all ++ (x ∷ []))) (map (λ since. since ++ (x ∷ [])) l)
  broadcast-IsSince all x [] h = tt
  broadcast-IsSince all x (since ∷ l) h =
      let (before, e) = h.0 in
      (
        (before, ap (λ m. m ++ (x ∷ [])) e ∙ append_assoc before since (x ∷ [])),
        broadcast-IsSince all x l h.1,
      )

  serve-IsSince :
      (all : List (PendingTxNotification B256)) (server : Server B256)
      (events : List (ServerEvent B256))
      → All (IsSince all) server.subscriptions
      → All (IsSince (all ++ broadcast_of events)) (serve server events).subscriptions
  unfolding serve
  serve-IsSince all server [] h = rw (append-nil all) h
  serve-IsSince all server (broadcasts x ∷ events) h =
      rw (sym (append_assoc all (x ∷ []) (broadcast_of events))) (
        serve-IsSince (all ++ (x ∷ [])) (broadcast server x) events
          (unfold broadcast in broadcast-IsSince all x server.subscriptions h))
  serve-IsSince all server (accepts connected ∷ events) h =
      serve-IsSince all (accept server connected) events (
        unfold accept in
        All-append (IsSince all) server.subscriptions ([] ∷ []) h ((all, sym (append-nil all)), tt))
  serve-IsSince all server (accepts not_connected ∷ events) h =
      serve-IsSince all (accept server not_connected) events (unfold accept in h)

  All-middle :
      (R : List (PendingTxNotification B256) → Type 0)
      (l m : List (List (PendingTxNotification B256))) (x : List (PendingTxNotification B256))
      → All R (l ++ (x ∷ m))
      → R x
  All-middle R [] m x a = a.0
  All-middle R (y ∷ l) m x a = All-middle R l m x a.1

  -- A subscription from the start of the server on.
  pub subscription-IsSince :
      (events : List (ServerEvent B256)) (earlier later : List (List (PendingTxNotification B256)))
      (since : List (PendingTxNotification B256))
      → (serve started events).subscriptions ≡ earlier ++ (since ∷ later)
      → IsSince (broadcast_of events) since
  subscription-IsSince events earlier later since e =
      All-middle (IsSince (broadcast_of events)) earlier later since
        (subst (All (IsSince (broadcast_of events))) e (serve-IsSince [] started events tt))
