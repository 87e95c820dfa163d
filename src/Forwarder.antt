-- ===== src/Forwarder.antt =====
-- src/forwarder.rs: the forwarder of transactions. Its loop takes one transaction at a time from the
-- channel, and spawns a task for it once the semaphore has a permit; tasks end at any time.
pub mod Runs
pub mod Permits
pub mod Progress
pub mod Drain
pub mod Posts
use Prim.Native.String.{String, find, len, ◌++◌ as ◌<>◌}
use reth_sentry_node.Prelude.{
  ℕ, suc, ◌+◌, ◌<◌, ◌≡◌, Bool, true, false, Option, none, some, List, [], ◌∷◌, ◌++◌, map, length,
  if◌then◌else◌, add64, ℤ, leb, ◌||◌, ◌==◌,
}
use reth_sentry_node.Lru.{LruCrate}
use reth_sentry_node.Dedup.{DedupConfig, TxDedup, new, check_and_insert}

pub record ForwardableTx (B256 : Type 0) : Type 0 where
  pub hash : B256
  pub raw_tx : List ℕ

pub record BackendConfig : Type 0 where
  pub endpoints : List String
  pub max_concurrent : ℕ
  pub buffer_size : ℕ
  pub dedup : DedupConfig

abbrev pub default_max_concurrent : ℕ
default_max_concurrent = 64

abbrev pub default_buffer_size : ℕ
default_buffer_size = 4096

abbrev pub default : BackendConfig
default = record {
  endpoints = "http://localhost:8545" ∷ [];
  max_concurrent = default_max_concurrent;
  buffer_size = default_buffer_size;
  dedup = reth_sentry_node.Dedup.default;
}

pub record JsonRpcError : Type 0 where
  pub code : ℤ
  pub message : String

-- What comes of a post: it is not sent, its answer is no JSON-RPC, or the answer has an error or none.
pub data Posted : Type 0 where
  unsent unparsed : Posted
  answered : Option JsonRpcError → Posted

-- The log line of a post.
pub data Report : Type 0 where
  failed_to_send failed_to_parse already_known forwarded : Report
  rejected : JsonRpcError → Report

pub record JsonRpcRequest : Type 0 where
  pub jsonrpc : String
  pub method : String
  pub params : List String
  pub id : ℕ

-- `str::contains`: a text is found within the other's length.
unfoldable pub contains : String → String → Bool
contains text part = leb (find text part) (len text)

unfoldable pub classify : Posted → Report
unfolding contains
classify unsent = failed_to_send
classify unparsed = failed_to_parse
classify (answered none) = forwarded
classify (answered (some e)) =
    if contains e.message "already known" || contains e.message "already in pool"
    then already_known
    else rejected e

-- A spawned task, with its permit.
pub record Task (B256 : Type 0) : Type 0 where
  pub id : ℕ
  pub tx : ForwardableTx B256

-- The task's body: `hex` is the hex encoder, and `post` what comes of a post to an endpoint.
module _ {B256 : Type 0} (hex : List ℕ → String) (post : String → JsonRpcRequest → Posted) where
  unfoldable pub to_request : Task B256 → JsonRpcRequest
  to_request task = record {
    jsonrpc = "2.0";
    method = "eth_sendRawTransaction";
    params = ("0x" <> hex task.tx.raw_tx) ∷ [];
    id = task.id;
  }

  -- The posts in order, each with its endpoint, request and log line.
  unfoldable pub deliver : List String → Task B256 → List (String × JsonRpcRequest × Report)
  deliver [] task = []
  deliver (endpoint ∷ endpoints) task =
      let request = to_request task in
      (endpoint, request, classify (post endpoint request)) ∷ deliver endpoints task

module _ (lru : LruCrate) (B256 : Type 0) where
  -- The channel, the loop's own variables, the transaction for which the loop awaits a permit, and the
  -- tasks that hold one. `broadcast` and `spawned` are what was broadcast and spawned so far, in order.
  pub record Forwarder : Type 0 where
    pub channel : List (ForwardableTx B256)
    pub dedup : TxDedup lru B256
    pub id_counter : ℕ
    pub waiting : Option (ForwardableTx B256)
    pub in_flight : List (Task B256)
    pub broadcast : List (ForwardableTx B256)
    pub spawned : List (Task B256)

module _ (lru : LruCrate) {B256 : Type 0} where
  -- The loop's variables at its start.
  abbrev pub initial : TxDedup lru B256 → Forwarder lru B256
  initial dedup = record {
    channel = [];
    dedup = dedup;
    id_counter = 0;
    waiting = none;
    in_flight = [];
    broadcast = [];
    spawned = [];
  }

  -- `new` and the loop's start, none if one of them panics: a channel without room, or `TxDedup::new`.
  unfoldable pub new_forwarder : BackendConfig → Option (Forwarder lru B256)
  new_forwarder config =
      if config.buffer_size == 0
      then none
      else (elim (new lru config.dedup) [ none ↦ none | some dedup ↦ some (initial dedup) ])

module _ (lru : LruCrate) {B256 : Type 0} (b256_eq : Discrete B256) (config : BackendConfig)
    (ws : Bool) where
  -- `forward`: the send to the channel.
  unfoldable pub forward : Forwarder lru B256 → ForwardableTx B256 → Forwarder lru B256
  forward f tx = record f { channel = f.channel ++ (tx ∷ []) }

  -- The broadcast to the WebSocket subscribers, if there is a server.
  unfoldable pub broadcast_to : Bool → Forwarder lru B256 → ForwardableTx B256 → Forwarder lru B256
  broadcast_to false f tx = f
  broadcast_to true f tx = record f { broadcast = f.broadcast ++ (tx ∷ []) }

  -- The loop goes on at once without endpoints, and else awaits a permit.
  unfoldable pub await_permit :
      List String → Forwarder lru B256 → ForwardableTx B256 → Forwarder lru B256
  await_permit [] f tx = f
  await_permit (e ∷ es) f tx = record f { waiting = some tx }

  -- The loop's body up to the await of a permit.
  unfoldable pub take_tx : Forwarder lru B256 → ForwardableTx B256 → Forwarder lru B256
  take_tx f tx =
      let c = check_and_insert lru b256_eq f.dedup tx.hash in
      let f = record f { dedup = c.state } in
      if c.is_new then await_permit config.endpoints (broadcast_to ws f tx) tx else f

  -- The loop's body after the await: the id counter, and the task.
  unfoldable pub spawn_task : Forwarder lru B256 → ForwardableTx B256 → Forwarder lru B256
  spawn_task f tx =
      let id = add64 f.id_counter 1 in
      let task : Task B256 = record { id = id; tx = tx } in
      record f {
        id_counter = id;
        waiting = none;
        in_flight = task ∷ f.in_flight;
        spawned = f.spawned ++ (task ∷ []);
      }

-- `returns` says of which tasks the posts all return.
module _ (lru : LruCrate) {B256 : Type 0} (b256_eq : Discrete B256) (config : BackendConfig)
    (ws : Bool) (returns : Task B256 → Type 0) where
  -- One step of the loop, of a sender or of a task; the list is what the loop takes in the step. A task
  -- gives its permit back only if its posts return: they have no timeout.
  pub data Step : Forwarder lru B256 → List (ForwardableTx B256) → Forwarder lru B256 → Type 0 where
    send :
        (f : Forwarder lru B256) (tx : ForwardableTx B256)
        → length f.channel < config.buffer_size
        → Step f [] (forward lru b256_eq config ws f tx)
    receive :
        (f : Forwarder lru B256) (tx : ForwardableTx B256) (rest : List (ForwardableTx B256))
        → f.waiting ≡ none
        → f.channel ≡ tx ∷ rest
        → Step f (tx ∷ []) (take_tx lru b256_eq config ws (record f { channel = rest }) tx)
    permit :
        (f : Forwarder lru B256) (tx : ForwardableTx B256)
        → f.waiting ≡ some tx
        → length f.in_flight < config.max_concurrent
        → Step f [] (spawn_task lru b256_eq config ws f tx)
    finish :
        (f : Forwarder lru B256) (before : List (Task B256)) (task : Task B256)
        (later : List (Task B256))
        → f.in_flight ≡ before ++ (task ∷ later)
        → returns task
        → Step f [] (record f { in_flight = before ++ later })

  -- Any steps from a state, with all that the loop takes, in order.
  pub data Reach (start : Forwarder lru B256)
      : List (ForwardableTx B256) → Forwarder lru B256 → Type 0 where
    here : Reach start [] start
    next :
        {taken more : List (ForwardableTx B256)} {f g : Forwarder lru B256}
        → Reach start taken f
        → Step f more g
        → Reach start (taken ++ more) g
