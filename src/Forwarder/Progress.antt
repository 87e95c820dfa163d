-- ===== src/Forwarder/Progress.antt =====
-- src/forwarder.rs: when a waiting transaction gets its task, and what happens without any permit.
use Prim.Native.String.{String}
use reth_sentry_node.Prelude.{
  ◌≤◌, ◌<◌, ◌≡◌, sym, refl, ap, ◌∙◌, Bool, Option, List, [], ◌∷◌, ◌++◌, length, arith, some, none,
  dec_lt, add64,
}
use reth_sentry_node.Lru.{LruCrate}
use reth_sentry_node.Dedup.{accepted}
use reth_sentry_node.Forwarder.{
  ForwardableTx, BackendConfig, Task, Forwarder, new_forwarder, forward, spawn_task, Step, send,
  receive, permit, finish, Reach, here, next,
}
use reth_sentry_node.Forwarder.Permits.{take_tx-kept, Reach-IsWithin}
use reth_sentry_node.Forwarder.Runs.{
  hashes, task_hashes, pending, new_forwarder-initial, Reach-forwarded, to_endpoints,
}

module _ (lru : LruCrate) {B256 : Type 0} (b256_eq : Discrete B256) (config : BackendConfig)
    (ws : Bool) (returns : Task B256 → Type 0) where
  -- A run that takes nothing and ends with the task of `tx` spawned after those of before.
  abbrev pub CanSpawn : Forwarder lru B256 → ForwardableTx B256 → Type 0
  CanSpawn f tx =
      (g : Forwarder lru B256) × Reach lru b256_eq config ws returns f [] g
      × (g.waiting ≡ none)
      × (task_hashes g.spawned ≡ task_hashes f.spawned ++ (tx.hash ∷ []))

  spawned-hashes :
      (l : List (Task B256)) (task : Task B256)
      → task_hashes (l ++ (task ∷ [])) ≡ task_hashes l ++ (task.tx.hash ∷ [])
  spawned-hashes [] task = refl
  spawned-hashes (t ∷ l) task = ap (◌∷◌ t.tx.hash) (spawned-hashes l task)

  CanSpawn-free :
      (f : Forwarder lru B256) (tx : ForwardableTx B256)
      → f.waiting ≡ some tx
      → length f.in_flight < config.max_concurrent
      → CanSpawn f tx
  unfolding spawn_task
  CanSpawn-free f tx waits free = (
    spawn_task lru b256_eq config ws f tx,
    next here (permit f tx waits free),
    refl,
    spawned-hashes f.spawned (record { id = add64 f.id_counter 1; tx = tx }),
  )

  CanSpawn-full :
      (f : Forwarder lru B256) (tx : ForwardableTx B256) (tasks : List (Task B256))
      → f.in_flight ≡ tasks
      → f.waiting ≡ some tx
      → 0 < length tasks
      → length tasks ≤ config.max_concurrent
      → ((task : Task B256) → returns task)
      → CanSpawn f tx
  unfolding spawn_task
  CanSpawn-full f tx [] e waits some_task few all_return = absurd (omega (arith, some_task))
  CanSpawn-full f tx (task ∷ tasks) e waits some_task few all_return =
      let g = record f { in_flight = tasks } in
      (
        spawn_task lru b256_eq config ws g tx,
        next (next here (finish f [] task tasks e (all_return task)))
            (permit g tx waits (omega (arith, few))),
        refl,
        spawned-hashes f.spawned (record { id = add64 f.id_counter 1; tx = tx }),
      )

  -- In any run of the forwarder from its start, with `max_concurrent` above zero, if the posts of every
  -- task return: where the loop awaits a permit for a transaction, the run can go on, with nothing more taken, to a state in which the
  -- transaction's task is spawned after those of before and the loop awaits nothing.
  pub Reach-CanSpawn :
      (start : Forwarder lru B256) {f : Forwarder lru B256} {taken : List (ForwardableTx B256)}
      (tx : ForwardableTx B256)
      → 0 < config.max_concurrent
      → ((task : Task B256) → returns task)
      → new_forwarder lru config ≡ some start
      → Reach lru b256_eq config ws returns start taken f
      → f.waiting ≡ some tx
      → CanSpawn f tx
  Reach-CanSpawn start {f} tx permits all_return made run waits =
      let within = (Reach-IsWithin lru b256_eq config ws returns start made run).in_flight in
      elim (dec_lt (length f.in_flight) config.max_concurrent) [
        | yes free ↦ CanSpawn-free f tx waits free
        | no full ↦
            CanSpawn-full f tx f.in_flight refl waits (omega (arith, full, permits)) within
              all_return
      ]

  module _ (none_at_all : config.max_concurrent ≡ 0) where
    Step-spawned :
        {f g : Forwarder lru B256} {more : List (ForwardableTx B256)}
        → Step lru b256_eq config ws returns f more g
        → f.spawned ≡ []
        → g.spawned ≡ []
    unfolding forward spawn_task
    Step-spawned (send f tx room) e = e
    Step-spawned (receive f tx rest idle has) e =
        (take_tx-kept lru b256_eq config ws returns (record f { channel = rest }) tx).2 ∙ e
    Step-spawned (permit f tx waits free) e = absurd (omega (arith, free, none_at_all))
    Step-spawned (finish f before task later has back) e = e

    Reach-spawned :
        (start : Forwarder lru B256) {f : Forwarder lru B256} {taken : List (ForwardableTx B256)}
        → start.spawned ≡ []
        → Reach lru b256_eq config ws returns start taken f
        → f.spawned ≡ []
    Reach-spawned start e here = e
    Reach-spawned start e (next before step) = Step-spawned step (Reach-spawned start e before)

    length-pending : (waiting : Option (ForwardableTx B256)) → length (pending waiting) ≤ 1
    length-pending none = omega arith
    length-pending (some tx) = omega arith

    -- In any run of the forwarder from its start, with one endpoint at least and `max_concurrent` zero:
    -- nothing is ever spawned, and of all that the loop has taken the deduplication has accepted one
    -- transaction at most.
    pub Reach-stuck :
        (endpoint : String) (more : List String)
        → config.endpoints ≡ endpoint ∷ more
        → (start : Forwarder lru B256) {f : Forwarder lru B256} {taken : List (ForwardableTx B256)}
        → new_forwarder lru config ≡ some start
        → Reach lru b256_eq config ws returns start taken f
        → (f.spawned ≡ []) × (length (accepted lru b256_eq start.dedup (hashes taken)) ≤ 1)
    Reach-stuck endpoint more has start {f} {taken} made run =
        let (d, fresh, same) = new_forwarder-initial lru b256_eq config start made in
        let e = Reach-spawned start (ap (λ s. s.spawned) same) run in
        let whole =
          (Reach-forwarded lru b256_eq config ws returns start made run).0
          ∙ ap (λ es. to_endpoints es (accepted lru b256_eq start.dedup (hashes taken))) has in
        (
          e,
          omega (
            arith,
            length-pending f.waiting,
            ap length (ap (λ l. task_hashes l ++ pending f.waiting) (sym e) ∙ whole),
          ),
        )
