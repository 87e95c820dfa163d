-- ===== src/Tests.antt =====
-- Tests: the theorems at concrete inputs, over a listed LRU cache and a sample chain.
mod Sample
mod Dedup
mod BlockCache
mod File
mod Validator
mod EthProxy
mod Forwarder
mod WsServer
mod NodeKey
mod BlockImport
mod Network
mod Node
mod Main
mod Pending
mod Broadcast
mod Life
