-- ===== src/Tests/Pending.antt =====
-- Tests of the task for pending transactions, src/network.rs: one that the pool has and one that is gone.
use reth_sentry_node.Prelude.{
  ℕ, ◌≡◌, ◌≤◌, ◌+◌, ◌*◌, refl, true, none, some, Option, List, [], ◌∷◌, arith, lookup, ℕ_discrete,
}
use reth_sentry_node.Lru.Keys.{remove}
use reth_sentry_node.Lru.Listed.{listed, listed-IsLawful}
use reth_sentry_node.Dedup.{check_and_insert, look_up_or_push}
use reth_sentry_node.Dedup.Recency.{recent, first_seen}
use reth_sentry_node.Forwarder.{
  Forwarder, forward, take_tx, spawn_task, broadcast_to, await_permit, receive, permit, finish,
}
use reth_sentry_node.Forwarder.Drain.{
  IsAtRest, Work, at_first, more, IsAtRest-work_left, Work-IsAtRest,
}
use reth_sentry_node.Forwarder.Runs.{hashes, task_hashes}
use reth_sentry_node.Network.{forward_pending}
use reth_sentry_node.Network.Pending.{Feed, quiet, gone, heard, worked, found_of, Feed-first_seen}
use reth_sentry_node.Tests.Forwarder.{config, start, tx_at, made, Returns}

abbrev events : List (ℕ × Option (List ℕ))
events = (7, some (7 ∷ [])) ∷ (9, none) ∷ []

abbrev taken : Forwarder listed ℕ
taken = take_tx listed ℕ_discrete config true start (tx_at 7)

abbrev at_end : Forwarder listed ℕ
at_end = record (spawn_task listed ℕ_discrete config true taken (tx_at 7)) { in_flight = [] }

fed : Feed listed ℕ_discrete config true Returns start events (tx_at 7 ∷ []) at_end
unfolding forward take_tx spawn_task check_and_insert look_up_or_push broadcast_to await_permit
    lookup forward_pending
fed =
    gone
      (worked
        (worked
          (worked (heard quiet 7 (some (7 ∷ [])) (tx_at 7) refl (omega arith))
            (receive (forward listed ℕ_discrete config true start (tx_at 7)) (tx_at 7) [] refl refl)
            tt)
          (permit taken (tx_at 7) refl (omega arith)) tt)
        (finish (spawn_task listed ℕ_discrete config true taken (tx_at 7)) []
          (record { id = 1; tx = tx_at 7 }) [] refl tt)
        tt)
      9 none refl

rests : IsAtRest listed ℕ_discrete config true Returns at_end
unfolding take_tx spawn_task check_and_insert look_up_or_push broadcast_to await_permit lookup
rests = record { channel = refl; waiting = refl; in_flight = refl }

Feed-first_seen_example :
    (task_hashes at_end.spawned
      ≡ first_seen ℕ_discrete [] (hashes (found_of listed ℕ_discrete config true Returns events)))
    × (hashes at_end.broadcast
        ≡ first_seen ℕ_discrete [] (hashes (found_of listed ℕ_discrete config true Returns events)))
unfolding recent remove forward_pending
Feed-first_seen_example =
    Feed-first_seen listed ℕ_discrete config true Returns listed-IsLawful start (made 2) fed rests
      (omega arith)

abbrev queued : Forwarder listed ℕ
queued = record start { channel = tx_at 7 ∷ [] }

worked_off : Work listed ℕ_discrete config true Returns queued 3 at_end
unfolding take_tx spawn_task check_and_insert look_up_or_push broadcast_to await_permit lookup
worked_off =
    more
      (more (more at_first (receive queued (tx_at 7) [] refl refl) tt)
        (permit taken (tx_at 7) refl (omega arith)) tt)
      (finish (spawn_task listed ℕ_discrete config true taken (tx_at 7)) []
        (record { id = 1; tx = tx_at 7 }) [] refl tt)
      tt

Work-IsAtRest_example :
    IsAtRest listed ℕ_discrete config true Returns at_end × (3 ≤ 3 * 1 + 2 * 0 + 0)
Work-IsAtRest_example =
    Work-IsAtRest listed ℕ_discrete config true Returns queued (omega arith) (λ task. tt) worked_off
      (IsAtRest-work_left listed ℕ_discrete config true Returns rests)
