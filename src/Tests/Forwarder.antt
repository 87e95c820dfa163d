-- ===== src/Tests/Forwarder.antt =====
-- Tests of src/forwarder.rs: a run that takes one transaction of two in the channel.
use reth_sentry_node.Prelude.{
  ℕ, ◌≡◌, ◌++◌, refl, true, some, [], ◌∷◌, arith, negsuc, ◌≤◌, ◌+◌, ◌*◌, lookup, length, ℕ_discrete,
  List,
}
use Prim.Native.String.{String}
use reth_sentry_node.Lru.Keys.{remove}
use reth_sentry_node.Lru.Listed.{listed, listed-IsLawful}
use reth_sentry_node.Dedup.{accepted, check_and_insert, look_up_or_push, new}
use reth_sentry_node.Dedup.Recency.{recent, first_seen}
use reth_sentry_node.Forwarder.{
  broadcast_to, await_permit, ForwardableTx, BackendConfig, Task, Forwarder, new_forwarder, initial,
  forward, take_tx, send, receive, Reach, here, next, answered, already_known, rejected, classify,
  contains, spawn_task,
}
use reth_sentry_node.Forwarder.Permits.{IsWithin, Reach-IsWithin}
use reth_sentry_node.Forwarder.Progress.{CanSpawn, Reach-CanSpawn, Reach-stuck}
use reth_sentry_node.Forwarder.Drain.{at_first, more, work_left, Work-le}
use reth_sentry_node.Forwarder.Runs.{
  hashes, task_hashes, pending, Reach-forwarded, Reach-first_seen,
}

abbrev pub config_with : ℕ → BackendConfig
config_with permits = record {
  endpoints = "http://one" ∷ "http://two" ∷ [];
  max_concurrent = permits;
  buffer_size = 2;
  dedup = record { cache_size = 2; log_interval = 3 };
}

abbrev pub config : BackendConfig
config = config_with 2

-- The posts of each task return.
abbrev pub Returns : Task ℕ → Type 0
Returns task = Unit

abbrev pub start : Forwarder listed ℕ
start = initial listed (record {
  cache = record { cap = 2; iter = [] };
  stats = record { total = 0; duplicates = 0; unique = 0 };
  log_interval = 3;
})

abbrev pub tx_at : ℕ → ForwardableTx ℕ
tx_at n = record { hash = n; raw_tx = n ∷ [] }

pub made : (permits : ℕ) → new_forwarder listed (config_with permits) ≡ some start
unfolding new_forwarder new
made permits = refl

abbrev queued : Forwarder listed ℕ
queued = record start { channel = tx_at 7 ∷ tx_at 8 ∷ [] }

abbrev pub taken_with : ℕ → Forwarder listed ℕ
taken_with permits =
    take_tx listed ℕ_discrete (config_with permits) true (record queued { channel = tx_at 8 ∷ [] })
      (tx_at 7)

abbrev pub taken_one : Forwarder listed ℕ
taken_one = taken_with 2

pub run :
    (permits : ℕ)
    → Reach listed ℕ_discrete
        (config_with permits)
        true
        Returns
        start
        (tx_at 7 ∷ [])
        (taken_with permits)
unfolding forward
run permits =
    next
      (next (next here (send start (tx_at 7) (omega arith)))
        (send (record start { channel = tx_at 7 ∷ [] }) (tx_at 8) (omega arith)))
      (receive queued (tx_at 7) (tx_at 8 ∷ []) refl refl)

known :
    classify (answered (some (record { code = negsuc 31_999; message = "tx already known" })))
    ≡ already_known
unfolding classify contains
known = refl

unknown :
    classify (answered (some (record { code = negsuc 31_999; message = "nonce too low" })))
    ≡ rejected (record { code = negsuc 31_999; message = "nonce too low" })
unfolding classify contains
unknown = refl

Reach-IsWithin_example : IsWithin listed ℕ_discrete config true Returns taken_one
Reach-IsWithin_example = Reach-IsWithin listed ℕ_discrete config true Returns start (made 2) (run 2)

Reach-forwarded_example :
    (task_hashes taken_one.spawned ++ pending taken_one.waiting
      ≡ accepted listed ℕ_discrete start.dedup (7 ∷ []))
    × (hashes taken_one.broadcast ≡ accepted listed ℕ_discrete start.dedup (7 ∷ []))
Reach-forwarded_example =
    Reach-forwarded listed ℕ_discrete config true Returns start (made 2) (run 2)

Reach-first_seen_example :
    task_hashes taken_one.spawned ++ pending taken_one.waiting ≡ first_seen ℕ_discrete [] (7 ∷ [])
unfolding recent remove
Reach-first_seen_example =
    Reach-first_seen listed ℕ_discrete config true Returns "http://one" ("http://two" ∷ []) refl
      listed-IsLawful start (made 2) (run 2) (omega arith)

waits : taken_one.waiting ≡ some (tx_at 7)
unfolding take_tx check_and_insert look_up_or_push broadcast_to await_permit lookup
waits = refl

Reach-CanSpawn_example : CanSpawn listed ℕ_discrete config true Returns taken_one (tx_at 7)
Reach-CanSpawn_example =
    Reach-CanSpawn listed ℕ_discrete config true Returns start (tx_at 7) (omega arith) (λ task. tt)
      (made 2) (run 2) waits

Reach-stuck_example :
    ((taken_with 0).spawned ≡ []) × (length (accepted listed ℕ_discrete start.dedup (7 ∷ [])) ≤ 1)
Reach-stuck_example =
    Reach-stuck listed ℕ_discrete (config_with 0) true Returns refl "http://one" ("http://two" ∷ [])
      refl start (made 0) (run 0)

Work-le_example : 1 + work_left listed ℕ_discrete config true Returns taken_one ≤ 3 * 2 + 2 * 0 + 0
Work-le_example =
    Work-le listed ℕ_discrete config true Returns 1
      (more at_first (receive queued (tx_at 7) (tx_at 8 ∷ []) refl refl) tt)

abbrev spawned_one : Forwarder listed ℕ
spawned_one = spawn_task listed ℕ_discrete config true taken_one (tx_at 7)

abbrev no_hex : List ℕ → String
no_hex bytes = "00"
