-- ===== src/Dedup.antt =====
-- src/dedup.rs: the deduplicator of transaction hashes over an LRU cache, with its statistics.
pub mod Recency
pub mod Distinct
pub mod Window
pub mod Snoc
pub mod Stats
use reth_sentry_node.Prelude.{
  ℕ, zero, suc, ◌+◌, ◌%◌, Bool, true, false, ◌&&◌, Option, none, some, List, [], ◌∷◌, ltb, ◌==◌,
  if◌then◌else◌, add64,
}
use reth_sentry_node.Lru.{LruCrate}

pub record DedupStats : Type 0 where
  pub total : ℕ
  pub duplicates : ℕ
  pub unique : ℕ

pub record DedupConfig : Type 0 where
  pub cache_size : ℕ
  pub log_interval : ℕ

abbrev pub default_cache_size : ℕ
default_cache_size = 100_000

abbrev pub default_log_interval : ℕ
default_log_interval = 1000

abbrev pub default : DedupConfig
default = record { cache_size = default_cache_size; log_interval = default_log_interval }

module _ (lru : LruCrate) where
  open lru use {LruCache}

  pub record TxDedup (B256 : Type 0) : Type 0 where
    pub cache : LruCache B256 (Unit {0})
    pub stats : DedupStats
    pub log_interval : ℕ

  -- The verdict of `check_and_insert`, the counters that it logged, if it did, and the state after.
  pub record Checked (B256 : Type 0) : Type 0 where
    pub is_new : Bool
    pub logged : Option DedupStats
    pub state : TxDedup B256

module _ (lru : LruCrate) {B256 : Type 0} where
  open lru use {LruCache}

  -- `none` is the panic of `expect` on a cache size of 0.
  unfoldable pub new : DedupConfig → Option (TxDedup lru B256)
  new config =
      if config.cache_size == 0
      then none
      else some (record {
        cache = lru.new config.cache_size;
        stats = record { total = 0; duplicates = 0; unique = 0 };
        log_interval = config.log_interval;
      })

module _ (lru : LruCrate) {B256 : Type 0} (b256_eq : Discrete B256) where
  open lru use {LruCache}

  -- The block under the lock.
  unfoldable pub look_up_or_push : LruCache B256 (Unit {0}) → B256 → Bool × LruCache B256 (Unit {0})
  look_up_or_push cache hash =
      if lru.contains b256_eq cache hash
      then (false, lru.promote b256_eq cache hash)
      else (true, lru.push b256_eq cache hash tt)

  -- The counters after a call with that verdict.
  unfoldable pub count_verdict : DedupStats → Bool → DedupStats
  count_verdict stats is_new =
      let total = add64 stats.total 1 in
      if is_new
      then record stats { total = total; unique = add64 stats.unique 1 }
      else record stats { total = total; duplicates = add64 stats.duplicates 1 }

  -- The periodic log line shows the counters and the rate that they make.
  unfoldable pub log_stats : ℕ → DedupStats → Option DedupStats
  log_stats interval stats =
      if ltb 0 interval && (stats.total % interval == 0) then some stats else none

  unfoldable pub check_and_insert : TxDedup lru B256 → B256 → Checked lru B256
  check_and_insert d hash =
      let (is_new, cache) = look_up_or_push d.cache hash in
      let stats = count_verdict d.stats is_new in
      record {
        is_new = is_new;
        logged = log_stats d.log_interval stats;
        state = record d { cache = cache; stats = stats };
      }

  -- The state after a stream of hashes.
  unfoldable pub after : TxDedup lru B256 → List B256 → TxDedup lru B256
  after d [] = d
  after d (h ∷ hs) = after (check_and_insert d h).state hs

  -- The hashes of a stream that are not skipped, in order.
  unfoldable pub accepted : TxDedup lru B256 → List B256 → List B256
  accepted d [] = []
  accepted d (h ∷ hs) =
      let c = check_and_insert d h in
      let rest = accepted c.state hs in if c.is_new then h ∷ rest else rest
