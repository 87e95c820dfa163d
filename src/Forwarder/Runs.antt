-- ===== src/Forwarder/Runs.antt =====
-- src/forwarder.rs: what any run of the loop spawns and broadcasts.
use mathlib.Core.List.{append-nil, map-append}
use Prim.Native.String.{String}
use reth_sentry_node.Prelude.{
  ◌≤◌, ◌≡◌, sym, refl, ap, ◌∙◌, Bool, true, false, Option, List, [], ◌∷◌, ◌++◌, map, length,
  if◌then◌else◌, some, none, Bool-cases, inl, inr, Option-cases, ◌==◌,
}
use reth_sentry_node.Lru.{LruCrate, IsLawful}
use reth_sentry_node.Dedup.Recency.{recent, first_seen}
use reth_sentry_node.Dedup.Snoc.{after-snoc, accepted-snoc}
use reth_sentry_node.Dedup.Window.{accepted-first_seen}
use reth_sentry_node.Dedup.{TxDedup, new, check_and_insert, after, accepted}
use reth_sentry_node.Forwarder.{
  ForwardableTx, BackendConfig, Task, Forwarder, new_forwarder, forward, broadcast_to, await_permit,
  take_tx, spawn_task, Step, send, receive, permit, finish, Reach, here, next, initial,
}

abbrev pub hashes : {B256 : Type 0} → List (ForwardableTx B256) → List B256
hashes = map (λ tx. tx.hash)

abbrev pub task_hashes : {B256 : Type 0} → List (Task B256) → List B256
task_hashes = map (λ task. task.tx.hash)

both_if :
    {A : Type 0} (b : Bool) (l m : List A)
    → (if b then l else []) ++ (if b then m else []) ≡ (if b then l ++ m else [])
both_if true l m = refl
both_if false l m = refl

if_nil : {A : Type 0} (b : Bool) → let nil : List A = [] in (if b then nil else nil) ≡ nil
if_nil true = refl
if_nil false = refl

-- What goes to the endpoints of a list of hashes: all of it if there is one, else nothing.
abbrev pub to_endpoints : {A : Type 0} → List String → List A → List A
to_endpoints [] l = []
to_endpoints (endpoint ∷ endpoints) l = l

to_endpoints-append :
    {A : Type 0} (endpoints : List String) (l m : List A)
    → to_endpoints endpoints (l ++ m) ≡ to_endpoints endpoints l ++ to_endpoints endpoints m
to_endpoints-append [] l m = refl
to_endpoints-append (endpoint ∷ endpoints) l m = refl

to_endpoints-nil :
    {A : Type 0} (endpoints : List String)
    → let nil : List A = [] in to_endpoints endpoints nil ≡ nil
to_endpoints-nil [] = refl
to_endpoints-nil (endpoint ∷ endpoints) = refl

-- The hash for which the loop awaits a permit.
abbrev pub pending : {B256 : Type 0} → Option (ForwardableTx B256) → List B256
pending none = []
pending (some tx) = tx.hash ∷ []

module _ (lru : LruCrate) {B256 : Type 0} (b256_eq : Discrete B256) where
  pub new_forwarder-initial :
      (config : BackendConfig) (start : Forwarder lru B256)
      → new_forwarder lru config ≡ some start
      → (d : TxDedup lru B256) × (new lru config.dedup ≡ some d) × (start ≡ initial lru d)
  unfolding new_forwarder
  new_forwarder-initial config start made = elim (Bool-cases (config.buffer_size == 0)) [
    | inl full ↦ absurd (
        let n : new_forwarder lru {B256 = B256} config ≡ none = rw (full, new_forwarder) refl in cc)
    | inr room ↦ elim (Option-cases (new lru {B256 = B256} config.dedup)) [
      | inl e ↦ absurd (
          let n : new_forwarder lru {B256 = B256} config ≡ none =
            rw (room, e, new_forwarder) refl in
          cc)
      | inr (d, e) ↦ (
        d,
        e,
        let n : new_forwarder lru config ≡ some (initial lru d) =
              rw (room, e, new_forwarder) refl in
            cc,
      )
    ]
  ]

  module _ (config : BackendConfig) (ws : Bool) (returns : Task B256 → Type 0) where
    broadcast_to-fields :
        (server : Bool) (f : Forwarder lru B256) (tx : ForwardableTx B256)
        → let g = broadcast_to lru b256_eq config ws server f tx in
          (g.dedup ≡ f.dedup)
          × (g.spawned ≡ f.spawned)
          × (g.waiting ≡ f.waiting)
          × (hashes g.broadcast ≡ hashes f.broadcast ++ (if server then tx.hash ∷ [] else []))
    unfolding broadcast_to
    broadcast_to-fields false f tx = (refl, refl, refl, sym (append-nil (hashes f.broadcast)))
    broadcast_to-fields true f tx = (refl, refl, refl, map-append _ f.broadcast (tx ∷ []))

    take_tx-old :
        (f : Forwarder lru B256) (tx : ForwardableTx B256)
        → (check_and_insert lru b256_eq f.dedup tx.hash).is_new ≡ false
        → take_tx lru b256_eq config ws f tx
          ≡ record f { dedup = (check_and_insert lru b256_eq f.dedup tx.hash).state }
    unfolding take_tx
    take_tx-old f tx e = rw (e, take_tx) refl

    take_tx-new :
        (f : Forwarder lru B256) (tx : ForwardableTx B256)
        → (check_and_insert lru b256_eq f.dedup tx.hash).is_new ≡ true
        → take_tx lru b256_eq config ws f tx
          ≡ await_permit lru b256_eq config ws config.endpoints
              (broadcast_to lru b256_eq config ws ws
                (record f { dedup = (check_and_insert lru b256_eq f.dedup tx.hash).state })
                tx)
              tx
    unfolding take_tx
    take_tx-new f tx e = rw (e, take_tx) refl

    await_permit-fields :
        (endpoints : List String) (f : Forwarder lru B256) (tx : ForwardableTx B256)
        → f.waiting ≡ none
        → let g = await_permit lru b256_eq config ws endpoints f tx in
          (g.dedup ≡ f.dedup)
          × (hashes g.broadcast ≡ hashes f.broadcast)
          × (task_hashes g.spawned ++ pending g.waiting
              ≡ task_hashes f.spawned ++ to_endpoints endpoints (tx.hash ∷ []))
    unfolding await_permit
    await_permit-fields [] f tx idle =
        (refl, refl, ap (λ w. task_hashes f.spawned ++ pending w) idle)
    await_permit-fields (e ∷ es) f tx idle = (refl, refl, refl)

    -- What the loop has broadcast, and what it has spawned and awaits if there are endpoints, is what the
    -- deduplication accepts of what it took.
    pub record IsForwarded (d : TxDedup lru B256) (taken : List (ForwardableTx B256))
        (f : Forwarder lru B256) : Type 0 where
      pub dedup : f.dedup ≡ after lru b256_eq d (hashes taken)
      pub spawned :
          task_hashes f.spawned ++ pending f.waiting
          ≡ to_endpoints config.endpoints (accepted lru b256_eq d (hashes taken))
      pub broadcast :
          hashes f.broadcast ≡ (if ws then accepted lru b256_eq d (hashes taken) else [])

    module _ (d : TxDedup lru B256) where
      accepted_next :
          (f : Forwarder lru B256) (tx : ForwardableTx B256) (taken : List (ForwardableTx B256))
          (b : Bool)
          → f.dedup ≡ after lru b256_eq d (hashes taken)
          → (check_and_insert lru b256_eq f.dedup tx.hash).is_new ≡ b
          → accepted lru b256_eq d (hashes (taken ++ (tx ∷ [])))
            ≡ accepted lru b256_eq d (hashes taken) ++ (if b then tx.hash ∷ [] else [])
      accepted_next f tx taken b same e =
          ap (accepted lru b256_eq d) (map-append _ taken (tx ∷ []))
          ∙ accepted-snoc lru b256_eq d (hashes taken) tx.hash
          ∙ ap (λ b. accepted lru b256_eq d (hashes taken) ++ (if b then tx.hash ∷ [] else []))
              (ap (λ s. (check_and_insert lru b256_eq s tx.hash).is_new) (sym same) ∙ e)

      after_next :
          (f : Forwarder lru B256) (tx : ForwardableTx B256) (taken : List (ForwardableTx B256))
          → f.dedup ≡ after lru b256_eq d (hashes taken)
          → (check_and_insert lru b256_eq f.dedup tx.hash).state
            ≡ after lru b256_eq d (hashes (taken ++ (tx ∷ [])))
      after_next f tx taken same =
          ap (λ s. (check_and_insert lru b256_eq s tx.hash).state) same
          ∙ sym (after-snoc lru b256_eq d (hashes taken) tx.hash)
          ∙ ap (after lru b256_eq d) (sym (map-append _ taken (tx ∷ [])))

      take_tx-IsForwarded :
          (f : Forwarder lru B256) (tx : ForwardableTx B256) (taken : List (ForwardableTx B256))
          → f.waiting ≡ none
          → IsForwarded d taken f
          → IsForwarded d (taken ++ (tx ∷ [])) (take_tx lru b256_eq config ws f tx)
      take_tx-IsForwarded f tx taken idle i =
          elim (Bool-cases (check_and_insert lru b256_eq f.dedup tx.hash).is_new) [
            | inl e ↦
                let more = accepted_next f tx taken true i.dedup e in
                let g = record f { dedup = (check_and_insert lru b256_eq f.dedup tx.hash).state } in
                let h = broadcast_to lru b256_eq config ws ws g tx in
                let (dedup, spawned, waiting, broadcast) = broadcast_to-fields ws g tx in
                let put = await_permit-fields config.endpoints h tx (waiting ∙ idle) in
                let whole =
                  sym (append-nil (task_hashes f.spawned))
                  ∙ ap (λ w. task_hashes f.spawned ++ pending w) (sym idle)
                  ∙ i.spawned in
                rw (take_tx-new f tx e) (record {
                  dedup = put.0 ∙ dedup ∙ after_next f tx taken i.dedup;
                  spawned =
                      put.2
                      ∙ ap (λ l. task_hashes l ++ to_endpoints config.endpoints (tx.hash ∷ []))
                          spawned
                      ∙ ap (λ l. l ++ to_endpoints config.endpoints (tx.hash ∷ [])) whole
                      ∙ sym (
                          to_endpoints-append config.endpoints
                            (accepted lru b256_eq d (hashes taken)) (tx.hash ∷ []))
                      ∙ ap (to_endpoints config.endpoints) (sym more);
                  broadcast =
                      put.1
                      ∙ broadcast
                      ∙ ap (λ l. l ++ (if ws then tx.hash ∷ [] else [])) i.broadcast
                      ∙ both_if ws (accepted lru b256_eq d (hashes taken)) (tx.hash ∷ [])
                      ∙ ap (λ l. if ws then l else []) (sym more);
                })
            | inr e ↦
                let same = sym (append-nil _) ∙ sym (accepted_next f tx taken false i.dedup e) in
                rw (take_tx-old f tx e) (record {
                  dedup = after_next f tx taken i.dedup;
                  spawned = i.spawned ∙ ap (to_endpoints config.endpoints) same;
                  broadcast = i.broadcast ∙ ap (λ l. if ws then l else []) same;
                })
          ]

      Step-IsForwarded :
          {f g : Forwarder lru B256} {taken more : List (ForwardableTx B256)}
          → Step lru b256_eq config ws returns f more g
          → IsForwarded d taken f
          → IsForwarded d (taken ++ more) g
      unfolding forward spawn_task
      Step-IsForwarded {taken = taken} (send f tx room) i =
          rw (append-nil taken)
            (record { dedup = i.dedup; spawned = i.spawned; broadcast = i.broadcast })
      Step-IsForwarded {taken = taken} (receive f tx rest idle e) i =
          take_tx-IsForwarded (record f { channel = rest }) tx taken idle
            (record { dedup = i.dedup; spawned = i.spawned; broadcast = i.broadcast })
      Step-IsForwarded {taken = taken} (permit f tx waits free) i = rw (append-nil taken) (record {
        dedup = i.dedup;
        spawned =
            append-nil _
            ∙ map-append _ f.spawned _
            ∙ ap (λ w. task_hashes f.spawned ++ pending w) (sym waits)
            ∙ i.spawned;
        broadcast = i.broadcast;
      })
      Step-IsForwarded {taken = taken} (finish f before task later e back) i =
          rw (append-nil taken)
            (record { dedup = i.dedup; spawned = i.spawned; broadcast = i.broadcast })

      Reach-IsForwarded_from :
          {f : Forwarder lru B256} {taken : List (ForwardableTx B256)}
          → Reach lru b256_eq config ws returns (initial lru d) taken f
          → IsForwarded d taken f
      unfolding after accepted
      Reach-IsForwarded_from here = record {
        dedup = refl;
        spawned = sym (to_endpoints-nil config.endpoints);
        broadcast = sym (if_nil ws);
      }
      Reach-IsForwarded_from (next before step) =
          Step-IsForwarded step (Reach-IsForwarded_from before)

    -- In any run of the forwarder from its start, whatever senders, tasks and the semaphore do meanwhile:
    -- the hashes of the spawned tasks, with the one for which the loop awaits a permit, are the hashes that
    -- the deduplication accepts of the transactions taken so far, in order, if there is an endpoint, and
    -- none without one; the hashes broadcast to the WebSocket are those that it accepts, with or without
    -- endpoints, if there is a server, else none.
    pub Reach-forwarded :
        (start : Forwarder lru B256) {f : Forwarder lru B256} {taken : List (ForwardableTx B256)}
        → new_forwarder lru config ≡ some start
        → Reach lru b256_eq config ws returns start taken f
        → (task_hashes f.spawned ++ pending f.waiting
            ≡ to_endpoints config.endpoints (accepted lru b256_eq start.dedup (hashes taken)))
          × (hashes f.broadcast
              ≡ (if ws then accepted lru b256_eq start.dedup (hashes taken) else []))
    Reach-forwarded start {f} {taken} made run =
        let (d, e, same) = new_forwarder-initial config start made in
        let i = Reach-IsForwarded_from d (rw same at run) in rw same (i.spawned, i.broadcast)

    module _ (endpoint : String) (more : List String)
        (has : config.endpoints ≡ endpoint ∷ more) where
      -- In any run of the forwarder from its start, with one endpoint at least, over an LRU cache with
      -- its laws, while the distinct hashes taken fit in the deduplication's cache: the hashes spawned,
      -- with the awaited one, are the first occurrences of the hashes taken, in order.
      pub Reach-first_seen :
          (laws : IsLawful lru) (start : Forwarder lru B256) {f : Forwarder lru B256}
          {taken : List (ForwardableTx B256)}
          → new_forwarder lru config ≡ some start
          → Reach lru b256_eq config ws returns start taken f
          → length (recent b256_eq [] (hashes taken)) ≤ config.dedup.cache_size
          → task_hashes f.spawned ++ pending f.waiting ≡ first_seen b256_eq [] (hashes taken)
      Reach-first_seen laws start {f} {taken} made run fits =
          let (d, e, same) = new_forwarder-initial config start made in
          (Reach-forwarded start made run).0
          ∙ ap (λ es. to_endpoints es (accepted lru b256_eq start.dedup (hashes taken))) has
          ∙ ap (λ s. accepted lru b256_eq s.dedup (hashes taken)) same
          ∙ accepted-first_seen lru laws b256_eq config.dedup d (hashes taken) e fits
