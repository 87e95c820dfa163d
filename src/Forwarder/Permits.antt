-- ===== src/Forwarder/Permits.antt =====
-- src/forwarder.rs: the semaphore's bound on the tasks in flight, and on the channel.
use reth_sentry_node.Prelude.{
  ◌≤◌, ◌≡◌, ◌∙◌, refl, ap, Bool, true, false, List, [], ◌∷◌, length, length-append, arith, some,
  Bool-cases, inl, inr,
}
use Prim.Native.String.{String}
use reth_sentry_node.Lru.{LruCrate}
use reth_sentry_node.Dedup.{check_and_insert}
use reth_sentry_node.Forwarder.{
  Task, ForwardableTx, BackendConfig, Forwarder, new_forwarder, forward, broadcast_to, await_permit,
  take_tx, spawn_task, Step, send, receive, permit, finish, Reach, here, next,
}
use reth_sentry_node.Forwarder.Runs.{new_forwarder-initial}

module _ (lru : LruCrate) {B256 : Type 0} (b256_eq : Discrete B256) (config : BackendConfig)
    (ws : Bool) (returns : Task B256 → Type 0) where
  -- The tasks in flight have a permit each, and the channel holds what its buffer has room for.
  pub record IsWithin (f : Forwarder lru B256) : Type 0 where
    pub in_flight : length f.in_flight ≤ config.max_concurrent
    pub channel : length f.channel ≤ config.buffer_size

  broadcast_to-kept :
      (server : Bool) (f : Forwarder lru B256) (tx : ForwardableTx B256)
      → ((broadcast_to lru b256_eq config ws server f tx).in_flight ≡ f.in_flight)
        × ((broadcast_to lru b256_eq config ws server f tx).channel ≡ f.channel)
        × ((broadcast_to lru b256_eq config ws server f tx).spawned ≡ f.spawned)
  unfolding broadcast_to
  broadcast_to-kept false f tx = (refl, refl, refl)
  broadcast_to-kept true f tx = (refl, refl, refl)

  await_permit-kept :
      (endpoints : List String) (f : Forwarder lru B256) (tx : ForwardableTx B256)
      → ((await_permit lru b256_eq config ws endpoints f tx).in_flight ≡ f.in_flight)
        × ((await_permit lru b256_eq config ws endpoints f tx).channel ≡ f.channel)
        × ((await_permit lru b256_eq config ws endpoints f tx).spawned ≡ f.spawned)
  unfolding await_permit
  await_permit-kept [] f tx = (refl, refl, refl)
  await_permit-kept (e ∷ es) f tx = (refl, refl, refl)

  pub take_tx-kept :
      (f : Forwarder lru B256) (tx : ForwardableTx B256)
      → ((take_tx lru b256_eq config ws f tx).in_flight ≡ f.in_flight)
        × ((take_tx lru b256_eq config ws f tx).channel ≡ f.channel)
        × ((take_tx lru b256_eq config ws f tx).spawned ≡ f.spawned)
  unfolding take_tx
  take_tx-kept f tx = elim (Bool-cases (check_and_insert lru b256_eq f.dedup tx.hash).is_new) [
    | inl e ↦
        let g = record f { dedup = (check_and_insert lru b256_eq f.dedup tx.hash).state } in
        let b = broadcast_to-kept ws g tx in
        let a =
          await_permit-kept config.endpoints (broadcast_to lru b256_eq config ws ws g tx) tx in
        rw (e, take_tx) (a.0 ∙ b.0, a.1 ∙ b.1, a.2 ∙ b.2)
    | inr e ↦ rw (e, take_tx) (refl, refl, refl)
  ]

  Step-IsWithin :
      {f g : Forwarder lru B256} {taken : List (ForwardableTx B256)}
      → Step lru b256_eq config ws returns f taken g
      → IsWithin f
      → IsWithin g
  unfolding forward spawn_task
  Step-IsWithin (send f tx room) w = record {
    in_flight = w.in_flight;
    channel = omega (arith, room, length-append f.channel (tx ∷ []));
  }
  Step-IsWithin (receive f tx rest idle e) w =
      let kept = take_tx-kept (record f { channel = rest }) tx in
      record {
        in_flight = omega (arith, ap length kept.0, w.in_flight);
        channel = omega (arith, ap length kept.1, ap length e, w.channel);
      }
  Step-IsWithin (permit f tx waits free) w = record {
    in_flight = omega (arith, free);
    channel = w.channel;
  }
  Step-IsWithin (finish f before task later e back) w = record {
    in_flight = omega (
      arith,
      w.in_flight,
      ap length e,
      length-append before (task ∷ later),
      length-append before later,
    );
    channel = w.channel;
  }

  -- In any run of the forwarder from its start: the tasks in flight are at most `max_concurrent`, and
  -- the transactions in the channel at most `buffer_size`.
  pub Reach-IsWithin :
      (start : Forwarder lru B256) {f : Forwarder lru B256} {taken : List (ForwardableTx B256)}
      → new_forwarder lru config ≡ some start
      → Reach lru b256_eq config ws returns start taken f
      → IsWithin f
  Reach-IsWithin start made here =
      let (d, e, same) = new_forwarder-initial lru b256_eq config start made in
      rw same (record { in_flight = omega arith; channel = omega arith })
  Reach-IsWithin start made (next before step) =
      Step-IsWithin step (Reach-IsWithin start made before)
