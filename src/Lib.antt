-- ===== src/Lib.antt =====
-- Verification of the sentry node, a light Ethereum node that gossips transactions and blocks with peers
-- and keeps no chain.
--
-- The program's parts, and how they work together. Transactions that peers gossip pass the validator
-- (src/validator.rs) into the transaction pool; from there they go to the forwarder (src/forwarder.rs),
-- which drops repeated hashes with the deduplication (src/dedup.rs). Blocks that peers announce go
-- through the block import (src/block_import.rs) into the block cache (src/block_cache.rs). Requests of
-- peers for headers and bodies are answered from that cache by the request handler (src/eth_proxy.rs),
-- which fetches from other peers what the cache lacks and caches it. src/main.rs makes the configuration
-- (src/config.rs) and starts the node; src/network.rs chooses the head, starts the tasks, sends announced
-- blocks on to the peers, and keeps the block cache in a file from one start to the next.
--
-- Which file models which part.
--   Chain: the types of alloy and reth that the code only stores and compares (B256, Header, BlockBody),
--     with the fields it reads. They are a parameter of everything that uses them.
--   Lru: the `lru` crate as a record of operations, with its documented laws: `iter` lists the entries
--     from the most recently used one on, `push` puts an entry in front and drops the last one beyond
--     the capacity, `get` moves an entry to the front. Lru.Listed is a concrete cache with these laws.
--   Dedup: src/dedup.rs. `TxDedup::check_and_insert` is `check_and_insert`, in three steps: the lookup
--     or push under the lock of the cache, the counters, and the log line. The counters wrap at 2^64.
--     `TxDedup::new` is none where the source panics, at a cache size of zero.
--   BlockCache: src/block_cache.rs. `BlockCacheInner` with its four LRU caches; each method returns its
--     result beside the new state, as reads reorder the caches. `run` applies a list of operations.
--     BlockCache.File is its file as a list of bytes: `save_to_file`, `load_from_file` and
--     `read_block_entry`, with RLP (alloy_rlp) as a parameter whose decoders invert its encoders;
--     BlockCache.File.Truncated is about a file that was cut off.
--   Validator: src/validator.rs. The checks of `validate_stateless` in the order of the source, each with
--     its early return; a reason holds the numbers of its message. U256 arithmetic wraps at 2^256.
--   EthProxy: src/eth_proxy.rs. One request is handled in two parts, `start` up to its end or its await,
--     and `finish_headers` or `finish_bodies` after the await; `handle` is the whole, where no other task
--     changes the cache during it. EthProxy.Work is the same handler one cache call at a time
--     (`cache_step`), with its variables between two calls, for the runs among other tasks. Peers are a
--     parameter. EthProxy.Alone relates the two. EthProxy.Effects turns each call into an operation of the
--     cache; EthProxy.Kinds and EthProxy.Calls are about what reply the calls may come to, and
--     EthProxy.Front about which bodies a request's own insertions leave in the cache.
--   Forwarder: src/forwarder.rs. `forwarding_loop`, its senders and the tasks it spawns as a step
--     relation, `Step`: a send while the channel has room, the loop's body up to its await of a permit
--     (`take_tx`), the spawn once a permit is free (`spawn_task`), and the end of a task whose posts return
--     (they have no timeout, so which do is a parameter). The posts of
--     a task are `deliver`, with the HTTP client as a parameter. Forwarder.Drain is about the steps that
--     are left when nothing more is sent, Forwarder.Posts about what the tasks post.
--   WsServer: src/ws_server.rs. A client's connection: `wait_for_subscription` on each first message, and
--     the loop of `handle_ws_connection` as the texts it sends (`stream`). serde_json and the client's
--     side are parameters. WsServer.Start is `start_ws_server` with its errors, WsServer.Server the accept
--     loop and `WsBroadcaster::broadcast`, and WsServer.Broadcast goes from the forwarder's broadcasts to a
--     client's texts.
--   BlockImport: src/block_import.rs. `on_new_block` over the block cache and the rebroadcast channel.
--   NodeKey: src/node_key.rs. `load_or_generate` over the state of the key's file; secp256k1 and the hex
--     codec are parameters.
--   Config: src/config.rs. The records, their defaults, and what serde makes of the tables of a file
--     (Config.File), each field of which may be left out. Config.Main is src/main.rs: `main` from the
--     command line to what the network is started with, over the state of the key's file; the files,
--     the TOML parser and the listener are parameters.
--   Network: src/network.rs. The head at the start, `rebroadcast` as one round of
--     `rebroadcast_new_blocks`, and `forward_pending` as one round of the task for pending
--     transactions; Network.Pending is that task over the forwarder. Network.Sessions follows the cache
--     and its file over restarts, where a save may be cut off or not happen. Network.Launch is
--     `start_sentry_network` up to its tasks and its end, Network.Life the runs of the node one after the
--     other. Network.Node is the tasks that share the block cache (import, rebroadcast, request handler,
--     shutdown) as a step relation. They run on several threads, so a step of the request handler makes one
--     cache call at most, and the others run between any two of them.
--   Tests: the theorems at concrete inputs.
--
-- Bounds. Numbers are natural numbers; where the source's type bounds them the bound is written out
-- (Prelude.Words): u32, u64, u128 and U256. No definition has fuel: the loops run over lists
-- or over a count (`limit` of a request, the blocks of a file), so they end; the forwarder's endless loop
-- is a relation between states.
--
-- Not modelled. The text of log lines and error messages; the locks (each method takes its lock once, so
-- a method is one step); the panics of tokio's channel and semaphore above their largest capacity;
-- errors of the disk that reads the block cache's file; what only calls libraries:
-- the parsers of the command line (clap) and of TOML, the builders of reth's network and pool, the spawns
-- of tokio, the task for Ctrl+C, the logged peer count and the logged events of peers. The broadcast
-- channel of the WebSocket server is tokio's: its documented behaviour, that a receiver gets what is sent
-- after it subscribes, in order and but for counted lags, is the hypothesis `Delivery`.
pub mod Prelude
pub mod Chain
pub mod Lru
pub mod Dedup
pub mod BlockCache
pub mod Validator
pub mod EthProxy
pub mod BlockImport
pub mod Forwarder
pub mod WsServer
pub mod NodeKey
pub mod Config
pub mod Network
pub mod Tests
