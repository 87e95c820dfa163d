-- ===== src/Forwarder/Drain.antt =====
-- src/forwarder.rs: the loop and its tasks come to rest when no more transactions are sent.
use Prim.Native.String.{String}
use reth_sentry_node.Prelude.{
  ℕ, zero, suc, ◌+◌, ◌*◌, ◌≤◌, ◌<◌, ◌≡◌, refl, ap, Bool, true, false, Option, List, [], ◌∷◌, length,
  length-append, arith, some, none, Bool-cases, inl, inr, ◌⊎◌, Option-cases, dec_lt,
}
use reth_sentry_node.Lru.{LruCrate}
use reth_sentry_node.Dedup.{check_and_insert}
use reth_sentry_node.Forwarder.{
  ForwardableTx, BackendConfig, Task, Forwarder, broadcast_to, await_permit, take_tx, spawn_task,
  Step, send, receive, permit, finish,
}

abbrev pub count_waiting : {A : Type 0} → Option A → ℕ
count_waiting none = 0
count_waiting (some tx) = 1

module _ (lru : LruCrate) {B256 : Type 0} (b256_eq : Discrete B256) (config : BackendConfig)
    (ws : Bool) (returns : Task B256 → Type 0) where
  -- A step of the loop or of a task: all but the sends.
  abbrev pub IsWork :
      {f g : Forwarder lru B256} {taken : List (ForwardableTx B256)}
      → Step lru b256_eq config ws returns f taken g
      → Type 0
  IsWork (send f tx room) = ⊥
  IsWork (receive f tx rest idle e) = Unit
  IsWork (permit f tx waits free) = Unit
  IsWork (finish f before task later e back) = Unit

  -- So many steps of the loop and of tasks, with nothing sent meanwhile.
  pub data Work (from : Forwarder lru B256) : ℕ → Forwarder lru B256 → Type 0 where
    at_first : Work from 0 from
    more :
        {n : ℕ} {f g : Forwarder lru B256} {taken : List (ForwardableTx B256)}
        → Work from n f
        → (step : Step lru b256_eq config ws returns f taken g) → IsWork step
        → Work from (suc n) g

  -- The steps that are left at most: three for a transaction in the channel, two for the one that awaits
  -- a permit, one for a task.
  abbrev pub work_left : Forwarder lru B256 → ℕ
  work_left f = 3 * length f.channel + 2 * count_waiting f.waiting + length f.in_flight

  broadcast_to-fields :
      (server : Bool) (f : Forwarder lru B256) (tx : ForwardableTx B256)
      → let g = broadcast_to lru b256_eq config ws server f tx in
        (g.channel ≡ f.channel) × (g.in_flight ≡ f.in_flight) × (g.waiting ≡ f.waiting)
  unfolding broadcast_to
  broadcast_to-fields false f tx = (refl, refl, refl)
  broadcast_to-fields true f tx = (refl, refl, refl)

  await_permit-work_left :
      (endpoints : List String) (f : Forwarder lru B256) (tx : ForwardableTx B256)
      → work_left (await_permit lru b256_eq config ws endpoints f tx) ≤ work_left f + 2
  unfolding await_permit
  await_permit-work_left [] f tx = omega arith
  await_permit-work_left (e ∷ es) f tx = omega arith

  take_tx-work_left :
      (f : Forwarder lru B256) (tx : ForwardableTx B256)
      → work_left (take_tx lru b256_eq config ws f tx) ≤ work_left f + 2
  unfolding take_tx
  take_tx-work_left f tx = elim (Bool-cases (check_and_insert lru b256_eq f.dedup tx.hash).is_new) [
    | inl e ↦
        let g = record f { dedup = (check_and_insert lru b256_eq f.dedup tx.hash).state } in
        let (channel, in_flight, waiting) = broadcast_to-fields ws g tx in
        rw (e, take_tx)
          (omega (
            arith,
            await_permit-work_left config.endpoints (broadcast_to lru b256_eq config ws ws g tx) tx,
            ap length channel,
            ap length in_flight,
            ap count_waiting waiting,
          ))
    | inr e ↦ rw (e, take_tx) (omega arith)
  ]

  Step-work_left :
      {f g : Forwarder lru B256} {taken : List (ForwardableTx B256)}
      → (step : Step lru b256_eq config ws returns f taken g) → IsWork step
      → work_left g < work_left f
  unfolding spawn_task
  Step-work_left (send f tx room) w = absurd w
  Step-work_left (receive f tx rest idle e) w =
      omega (arith, take_tx-work_left (record f { channel = rest }) tx, ap length e)
  Step-work_left (permit f tx waits free) w = omega (arith, ap count_waiting waits)
  Step-work_left (finish f before task later e back) w =
      omega (arith, ap length e, length-append before (task ∷ later), length-append before later)

  -- From any state, while nothing is sent: the steps of the loop and of the tasks, in any order, and the
  -- work that is left after them, are at most three for each transaction in the channel, two for the
  -- one that awaits a permit and one for each task in flight. So they come to an end.
  pub Work-le :
      {f : Forwarder lru B256} (n : ℕ) {g : Forwarder lru B256}
      → Work f n g
      → n + work_left g ≤ 3 * length f.channel + 2 * count_waiting f.waiting + length f.in_flight
  Work-le zero at_first = omega arith
  Work-le (suc n) (more before step w) = omega (arith, Work-le n before, Step-work_left step w)

  -- Nothing is left to do.
  pub record IsAtRest (f : Forwarder lru B256) : Type 0 where
    pub channel : f.channel ≡ []
    pub waiting : f.waiting ≡ none
    pub in_flight : f.in_flight ≡ []

  -- A step of the loop or of a task can be taken.
  abbrev pub CanWork : Forwarder lru B256 → Type 0
  CanWork f =
      (taken : List (ForwardableTx B256)) × (g : Forwarder lru B256) × (step : Step lru b256_eq
        config ws returns f taken g)
      × IsWork step

  finish_first :
      (f : Forwarder lru B256) (tasks : List (Task B256))
      → f.in_flight ≡ tasks
      → 0 < length tasks
      → ((task : Task B256) → returns task)
      → CanWork f
  finish_first f [] e some_task all_return = absurd (omega (arith, some_task))
  finish_first f (task ∷ tasks) e some_task all_return =
      ([], record f { in_flight = tasks }, finish f [] task tasks e (all_return task), tt)

  work_idle :
      (f : Forwarder lru B256) (channel : List (ForwardableTx B256)) (tasks : List (Task B256))
      → f.waiting ≡ none
      → f.channel ≡ channel
      → f.in_flight ≡ tasks
      → ((task : Task B256) → returns task)
      → IsAtRest f ⊎ CanWork f
  work_idle f [] [] idle empty e all_return =
      inl (record { channel = empty; waiting = idle; in_flight = e })
  work_idle f [] (task ∷ tasks) idle empty e all_return =
      inr (finish_first f (task ∷ tasks) e (omega arith) all_return)
  work_idle f (tx ∷ txs) tasks idle e _ all_return = inr (
    tx ∷ [],
    take_tx lru b256_eq config ws (record f { channel = txs }) tx,
    receive f tx txs idle e,
    tt,
  )

  IsAtRest-CanWork :
      (f : Forwarder lru B256)
      → 0 < config.max_concurrent
      → ((task : Task B256) → returns task)
      → IsAtRest f ⊎ CanWork f
  IsAtRest-CanWork f permits all_return = elim (Option-cases f.waiting) [
    | inl idle ↦ work_idle f f.channel f.in_flight idle refl refl all_return
    | inr (tx, waits) ↦ elim (dec_lt (length f.in_flight) config.max_concurrent) [
      | yes free ↦ inr ([], spawn_task lru b256_eq config ws f tx, permit f tx waits free, tt)
      | no full ↦ inr (finish_first f f.in_flight refl (omega (arith, full, permits)) all_return)
    ]
  ]

  -- At rest there is no step left: each needs work.
  pub IsAtRest-work_left : {f : Forwarder lru B256} → IsAtRest f → ¬ CanWork f
  IsAtRest-work_left {f} rest (taken, g, step, is_work) = omega (
    arith,
    Step-work_left step is_work,
    ap length rest.channel,
    ap count_waiting rest.waiting,
    ap length rest.in_flight,
  )

  -- From any state of the forwarder, with `max_concurrent` above zero, if the posts of every task return:
  -- however the steps of the loop and of the tasks are scheduled while nothing is sent, where none of them
  -- can take a further step the channel is empty, the loop awaits no permit and no task is in flight, and
  -- the steps taken are at most three for each transaction in the channel, two for the one that awaited a
  -- permit and one for each task in flight.
  pub Work-IsAtRest :
      (f : Forwarder lru B256) {n : ℕ} {g : Forwarder lru B256}
      → 0 < config.max_concurrent
      → ((task : Task B256) → returns task)
      → Work f n g
      → ¬ CanWork g
      → IsAtRest g × (n ≤ 3 * length f.channel + 2 * count_waiting f.waiting + length f.in_flight)
  Work-IsAtRest f {n} {g} permits all_return work ended =
      let few : n ≤ 3 * length f.channel + 2 * count_waiting f.waiting + length f.in_flight =
        omega (arith, Work-le n work) in
      elim (IsAtRest-CanWork g permits all_return) [
        | inl rest ↦ (rest, few)
        | inr can ↦ absurd (ended can)
      ]
