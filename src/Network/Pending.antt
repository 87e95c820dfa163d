-- ===== src/Network/Pending.antt =====
-- src/network.rs with src/forwarder.rs: the task that listens to the pool feeds the forwarder.
use mathlib.Core.List.{append_assoc, append-nil}
use mathlib.Core.Path.{subst}
use reth_sentry_node.Prelude.{
  ℕ, ◌≤◌, ◌<◌, ◌≡◌, refl, sym, ap, ◌∙◌, Bool, Option, none, some, List, [], ◌∷◌, ◌++◌, length,
  if◌then◌else◌,
}
use reth_sentry_node.Lru.{LruCrate, IsLawful}
use reth_sentry_node.Dedup.{accepted}
use reth_sentry_node.Dedup.Window.{accepted-first_seen}
use reth_sentry_node.Dedup.Recency.{recent, first_seen}
use reth_sentry_node.Forwarder.{
  Task, ForwardableTx, BackendConfig, Forwarder, new_forwarder, forward, spawn_task, Step, send,
  receive, permit, finish, Reach, here, next,
}
use reth_sentry_node.Forwarder.Drain.{IsWork, IsAtRest}
use reth_sentry_node.Forwarder.Permits.{take_tx-kept}
use reth_sentry_node.Forwarder.Runs.{
  hashes, task_hashes, pending, new_forwarder-initial, Reach-forwarded, to_endpoints,
}
use reth_sentry_node.Network.{forward_pending}

module _ (lru : LruCrate) {B256 : Type 0} (b256_eq : Discrete B256) (config : BackendConfig)
    (ws : Bool) (returns : Task B256 → Type 0) where
  -- What the pool's listener gives the task: a hash, and what the pool has for it when the task asks.
  abbrev Event : Type 0
  Event = B256 × Option (List ℕ)

  abbrev Tx : Type 0
  Tx = ForwardableTx B256

  -- The forwarder under the task, with the events and the transactions that its loop took.
  pub data Feed (start : Forwarder lru B256)
      : List Event → List Tx → Forwarder lru B256 → Type 0 where
    quiet : Feed start [] [] start
    gone :
        {events : List Event} {taken : List Tx} {f : Forwarder lru B256}
        → Feed start events taken f
        → (hash : B256) (found : Option (List ℕ)) → forward_pending hash found ≡ none
        → Feed start (events ++ ((hash, found) ∷ [])) taken f
    heard :
        {events : List Event} {taken : List Tx} {f : Forwarder lru B256}
        → Feed start events taken f
        → (hash : B256) (found : Option (List ℕ)) (tx : Tx) → forward_pending hash found ≡ some tx
        → length f.channel < config.buffer_size
        → Feed start (events ++ ((hash, found) ∷ [])) taken (forward lru b256_eq config ws f tx)
    worked :
        {events : List Event} {taken more : List Tx} {f g : Forwarder lru B256}
        → Feed start events taken f
        → (step : Step lru b256_eq config ws returns f more g)
        → IsWork lru b256_eq config ws returns step
        → Feed start events (taken ++ more) g

  abbrev of_option : Option Tx → List Tx
  of_option none = []
  of_option (some tx) = tx ∷ []

  -- What the pool still has of the events, in order.
  abbrev pub found_of : List Event → List Tx
  found_of [] = []
  found_of ((hash, none) ∷ events) = found_of events
  found_of ((hash, some raw_tx) ∷ events) =
      record { hash = hash; raw_tx = raw_tx } ∷ found_of events

  found_of-snoc :
      (events : List Event) (hash : B256) (found : Option (List ℕ))
      → found_of (events ++ ((hash, found) ∷ []))
        ≡ found_of events ++ of_option (forward_pending hash found)
  unfolding forward_pending
  found_of-snoc [] hash none = refl
  found_of-snoc [] hash (some raw_tx) = refl
  found_of-snoc ((h, none) ∷ events) hash found = found_of-snoc events hash found
  found_of-snoc ((h, some raw_tx) ∷ events) hash found =
      ap (◌∷◌ (record { hash = h; raw_tx = raw_tx })) (found_of-snoc events hash found)

  Feed-Reach :
      {start : Forwarder lru B256} {events : List Event} {taken : List Tx} {f : Forwarder lru B256}
      → Feed start events taken f
      → Reach lru b256_eq config ws returns start taken f
  Feed-Reach quiet = here
  Feed-Reach (gone before hash found e) = Feed-Reach before
  Feed-Reach {start} (heard {events} {taken} {f} before hash found tx e room) =
      subst (λ l. Reach lru b256_eq config ws returns start l (forward lru b256_eq config ws f tx))
        (append-nil taken) (next (Feed-Reach before) (send f tx room))
  Feed-Reach (worked before step w) = next (Feed-Reach before) step

  -- A step of the loop takes from the front of the channel.
  Step-channel :
      {more : List Tx} {f g : Forwarder lru B256}
      (step : Step lru b256_eq config ws returns f more g)
      → IsWork lru b256_eq config ws returns step
      → more ++ g.channel ≡ f.channel
  unfolding spawn_task
  Step-channel (send f tx room) w = absurd w
  Step-channel (receive f tx rest idle e) w =
      ap (◌∷◌ tx) (take_tx-kept lru b256_eq config ws returns (record f { channel = rest }) tx).1
      ∙ sym e
  Step-channel (permit f tx waits free) w = refl
  Step-channel (finish f before task later e back) w = refl

  Feed-channel :
      {start : Forwarder lru B256} {events : List Event} {taken : List Tx} {f : Forwarder lru B256}
      → start.channel ≡ []
      → Feed start events taken f
      → taken ++ f.channel ≡ found_of events
  unfolding forward
  Feed-channel empty quiet = empty
  Feed-channel empty (gone {events} {taken} {f} before hash found e) =
      Feed-channel empty before
      ∙ sym (
          found_of-snoc events hash found
          ∙ ap (λ o. found_of events ++ of_option o) e
          ∙ append-nil (found_of events))
  Feed-channel empty (heard {events} {taken} {f} before hash found tx e room) =
      sym (append_assoc taken f.channel (tx ∷ []))
      ∙ ap (λ l. l ++ (tx ∷ [])) (Feed-channel empty before)
      ∙ sym (found_of-snoc events hash found ∙ ap (λ o. found_of events ++ of_option o) e)
  Feed-channel empty (worked {events} {taken} {more} {f} {g} before step w) =
      append_assoc taken more g.channel
      ∙ ap (◌++◌ taken) (Step-channel step w)
      ∙ Feed-channel empty before

  -- In any interleaving of the pool's events with the forwarder's loop and tasks, from the start of a
  -- forwarder over an LRU cache with its laws: once nothing is left to do, and while the distinct hashes fit
  -- in the deduplication's cache, the hashes that got a task are, with one endpoint at least, the first
  -- occurrences of the hashes that the pool still had, each once and in order, and none without endpoints;
  -- the hashes that are broadcast are, with a WebSocket server, those first occurrences too, with or
  -- without endpoints, and none without a server.
  pub Feed-first_seen :
      (laws : IsLawful lru) (start : Forwarder lru B256) {events : List Event} {taken : List Tx}
      {f : Forwarder lru B256}
      → new_forwarder lru config ≡ some start
      → Feed start events taken f
      → IsAtRest lru b256_eq config ws returns f
      → length (recent b256_eq [] (hashes (found_of events))) ≤ config.dedup.cache_size
      → (task_hashes f.spawned
          ≡ to_endpoints config.endpoints (first_seen b256_eq [] (hashes (found_of events))))
        × (hashes f.broadcast
            ≡ (if ws then first_seen b256_eq [] (hashes (found_of events)) else []))
  Feed-first_seen laws start {events} {taken} {f} made feed rest fits =
      let (d, e, same) = new_forwarder-initial lru b256_eq config start made in
      let all : taken ≡ found_of events =
        sym (append-nil taken)
        ∙ ap (◌++◌ taken) (sym rest.channel)
        ∙ Feed-channel (ap (λ s. s.channel) same) feed in
      let forwarded = Reach-forwarded lru b256_eq config ws returns start made (Feed-Reach feed) in
      let first : accepted lru b256_eq start.dedup (hashes taken)
          ≡ first_seen b256_eq [] (hashes (found_of events)) =
        ap (λ l. accepted lru b256_eq start.dedup (hashes l)) all
        ∙ ap (λ s. accepted lru b256_eq s.dedup (hashes (found_of events))) same
        ∙ accepted-first_seen lru laws b256_eq config.dedup d (hashes (found_of events)) e fits in
      (
        sym (append-nil (task_hashes f.spawned))
            ∙ ap (λ w. task_hashes f.spawned ++ pending w) (sym rest.waiting)
            ∙ forwarded.0
            ∙ ap (to_endpoints config.endpoints) first,
        forwarded.1 ∙ ap (λ l. if ws then l else []) first,
      )
