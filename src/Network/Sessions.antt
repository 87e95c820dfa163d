-- ===== src/Network/Sessions.antt =====
-- src/network.rs with src/block_cache.rs: the block cache over restarts of the node. A session restores
-- the cache from the file, runs, and saves the cache at shutdown.
pub mod Reads
pub mod Start
use reth_sentry_node.Prelude.{
  ℕ, zero, suc, ◌^◌, ◌≤◌, ◌<◌, ◌≡◌, refl, sym, ap, ◌∙◌, Option, none, some, List, [], ◌∷◌, ◌++◌,
  length, take, All, All-append, OfSome, arith, if◌then◌else◌, ◌==◌,
}
use reth_sentry_node.Chain.{Chain}
use reth_sentry_node.Lru.{LruCrate, IsLawful}
use reth_sentry_node.BlockCache
use reth_sentry_node.BlockCache.{BlockCache, CachedBlock, new, latest, drain_blocks}
use reth_sentry_node.BlockCache.Ops.{Op, insert, apply, run, run-append}
use reth_sentry_node.BlockCache.Coherence.{IsSound, run-reads}
use reth_sentry_node.BlockCache.Drain.{run-drain_blocks}
use reth_sentry_node.BlockCache.File.{Codec, IsCodec, load_from_file, save_to_file}
use reth_sentry_node.BlockCache.File.Truncated.{load_from_file-insert_blocks}
use reth_sentry_node.BlockCache.File.RoundTrip.{Fits, insert_blocks, load_from_file-save_to_file}
use reth_sentry_node.BlockCache.Latest.{latest-max}
use reth_sentry_node.Network.{
  SentryNetworkConfig, restore_cache, Head, block_head, choose_head, start_head, estimated_number,
}

-- How a session ends: its file is written, or only so many bytes of it, or the file is left as it was.
pub data Ending : Type 0 where
  written unwritten : Ending
  cut_off : ℕ → Ending

unfoldable pub write_file : Ending → List ℕ → Option (List ℕ) → Option (List ℕ)
write_file written bytes file = some bytes
write_file unwritten bytes file = file
write_file (cut_off n) bytes file = some (take n bytes)

-- A session: its configuration, the operations on its cache in order, and its end.
pub record Session (chain : Chain) : Type 0 where
  pub config : SentryNetworkConfig
  pub ops : List (Op chain)
  pub ending : Ending

module _ (lru : LruCrate) (chain : Chain) (codec : Codec chain) where
  -- The cache at the end of a session that finds this file.
  unfoldable pub session_cache : Session chain → Option (List ℕ) → BlockCache lru chain
  session_cache session file =
      run lru chain (restore_cache lru chain codec session.config file) session.ops

  -- The file after sessions one after the other, from no file on.
  unfoldable pub file_after : List (Session chain) → Option (List ℕ) → Option (List ℕ)
  unfolding write_file
  file_after [] file = file
  file_after (session ∷ sessions) file =
      file_after sessions
        (write_file session.ending (save_to_file lru chain codec (session_cache session file)) file)

  -- The encodings of all headers and bodies are shorter than 2^32 bytes.
  pub record HasShortEncodings : Type 0 where
    pub header : (x : chain.Header) → length (codec.encode_header x) < 2 ^ 32
    pub body : (b : chain.BlockBody) → length (codec.encode_body b) < 2 ^ 32

  All-Fits :
      HasShortEncodings
      → (blocks : List (CachedBlock lru chain)) → All (Fits lru chain codec) blocks
  All-Fits short [] = tt
  All-Fits short (b ∷ bs) =
      (record { header = short.header b.header; body = short.body b.body }, All-Fits short bs)

-- The insertions that a load makes.
module _ (lru : LruCrate) (chain : Chain) where
  abbrev insertions : List (CachedBlock lru chain) → List (Op chain)
  insertions [] = []
  insertions (b ∷ bs) = insert b.hash b.header b.body ∷ insertions bs

  insert_blocks-run :
      (codec : Codec chain) (c : BlockCache lru chain) (blocks : List (CachedBlock lru chain))
      → insert_blocks lru chain codec c blocks ≡ run lru chain c (insertions blocks)
  unfolding run apply
  insert_blocks-run codec c [] = refl
  insert_blocks-run codec c (b ∷ bs) =
      insert_blocks-run codec (BlockCache.insert lru chain c b.hash b.header b.body) bs

few : (n size : ℕ) → n ≤ (if size == 0 then 256 else size) → size < 2 ^ 32 → n < 2 ^ 32
few n size h small = ground arith

module _ (lru : LruCrate) (laws : IsLawful lru) (chain : Chain) (codec : Codec chain)
    (codec_laws : IsCodec codec) (short : HasShortEncodings lru chain codec)
    (P : chain.B256 → chain.Header → Type 0) (Q : chain.B256 → chain.BlockBody → Type 0) where
  -- There is no file, or it is what a new cache saves after sound operations, or its first bytes.
  pub data IsSaved : Option (List ℕ) → Type 0 where
    unsaved : IsSaved none
    saved :
        (size : ℕ) (ops : List (Op chain))
        → size < 2 ^ 32
        → All (IsSound lru chain P Q) ops
        → IsSaved (some (save_to_file lru chain codec (run lru chain (new lru chain size) ops)))
    cut :
        (size : ℕ) (ops : List (Op chain)) (n : ℕ)
        → size < 2 ^ 32
        → All (IsSound lru chain P Q) ops
        → IsSaved
            (some (take n (save_to_file lru chain codec (run lru chain (new lru chain size) ops))))

  -- The sizes of caches are below 2^32, and what the operations insert is as `P` and `Q` say.
  pub record IsSoundSession (session : Session chain) : Type 0 where
    pub size : session.config.block_cache_size < 2 ^ 32
    pub ops : All (IsSound lru chain P Q) session.ops

  insertions-IsSound :
      (n : ℕ) (blocks : List (CachedBlock lru chain))
      → All (λ b. P b.hash b.header × Q b.hash b.body) blocks
      → All (IsSound lru chain P Q) (insertions lru chain (take n blocks))
  insertions-IsSound zero blocks a = tt
  insertions-IsSound (suc n) [] a = tt
  insertions-IsSound (suc n) (b ∷ bs) a = (a.0, insertions-IsSound n bs a.1)

  -- A cache into which first blocks of a sound one are loaded is a new one after sound insertions.
  loaded-run :
      (config : SentryNetworkConfig) (size : ℕ) (ops : List (Op chain)) (file : List ℕ) (n : ℕ)
      → All (IsSound lru chain P Q) ops
      → (load_from_file lru chain codec (new lru chain config.block_cache_size) (some file)).1
        ≡ insert_blocks lru chain codec
            (new lru chain config.block_cache_size)
            (take n (drain_blocks lru chain (run lru chain (new lru chain size) ops)))
      → (ops' : List (Op chain)) × All (IsSound lru chain P Q) ops'
        × (restore_cache lru chain codec config (some file)
            ≡ run lru chain (new lru chain config.block_cache_size) ops')
  unfolding restore_cache
  loaded-run config size ops file n sound e =
      let blocks = drain_blocks lru chain (run lru chain (new lru chain size) ops) in
      let drained = run-drain_blocks lru laws chain P Q size ops sound in
      (
        insertions lru chain (take n blocks),
        insertions-IsSound n blocks drained.1,
        e
            ∙ insert_blocks-run lru chain codec (new lru chain config.block_cache_size)
                (take n blocks),
      )

  small_drain :
      (size : ℕ) (ops : List (Op chain))
      → size < 2 ^ 32
      → All (IsSound lru chain P Q) ops
      → length (drain_blocks lru chain (run lru chain (new lru chain size) ops)) < 2 ^ 32
  small_drain size ops small sound =
      few _ size (run-drain_blocks lru laws chain P Q size ops sound).2 small

  pub restore_cache-run :
      (config : SentryNetworkConfig) (file : Option (List ℕ))
      → IsSaved file
      → (ops : List (Op chain)) × All (IsSound lru chain P Q) ops
        × (restore_cache lru chain codec config file
            ≡ run lru chain (new lru chain config.block_cache_size) ops)
  unfolding restore_cache load_from_file run
  restore_cache-run config _ unsaved = ([], tt, refl)
  restore_cache-run config _ (saved size ops small sound) =
      let c = run lru chain (new lru chain size) ops in
      let d = new lru chain config.block_cache_size in
      loaded-run config size ops (save_to_file lru chain codec c) d.capacity sound (
        ap (λ r. r.1)
          (load_from_file-save_to_file lru chain codec codec_laws c d
            (All-Fits lru chain codec short (drain_blocks lru chain c))
            (small_drain size ops small sound)))
  restore_cache-run config _ (cut size ops k small sound) =
      let c = run lru chain (new lru chain size) ops in
      let d = new lru chain config.block_cache_size in
      let (n, e) =
        load_from_file-insert_blocks lru chain codec codec_laws c d k
          (All-Fits lru chain codec short (drain_blocks lru chain c))
          (small_drain size ops small sound) in
      loaded-run config size ops (take k (save_to_file lru chain codec c)) n sound e

  pub session_cache-run :
      (session : Session chain) (file : Option (List ℕ))
      → IsSoundSession session
      → IsSaved file
      → (ops : List (Op chain)) × All (IsSound lru chain P Q) ops
        × (session_cache lru chain codec session file
            ≡ run lru chain (new lru chain session.config.block_cache_size) ops)
  unfolding session_cache
  session_cache-run session file sound f =
      let (ops, s, e) = restore_cache-run session.config file f in
      (
        ops ++ session.ops,
        All-append (IsSound lru chain P Q) ops session.ops s sound.ops,
        ap (λ c. run lru chain c session.ops) e
            ∙ sym (
                run-append lru chain (new lru chain session.config.block_cache_size) ops
                  session.ops),
      )

  pub write_file-IsSaved :
      (ending : Ending) (size : ℕ) (ops : List (Op chain)) (file : Option (List ℕ))
      → size < 2 ^ 32
      → All (IsSound lru chain P Q) ops
      → IsSaved file
      → IsSaved (
          write_file ending
            (save_to_file lru chain codec (run lru chain (new lru chain size) ops))
            file)
  unfolding write_file
  write_file-IsSaved written size ops file small s f = saved size ops small s
  write_file-IsSaved unwritten size ops file small s f = f
  write_file-IsSaved (cut_off n) size ops file small s f = cut size ops n small s

  pub file_after-IsSaved :
      (sessions : List (Session chain)) (file : Option (List ℕ))
      → All IsSoundSession sessions
      → IsSaved file
      → IsSaved (file_after lru chain codec sessions file)
  unfolding file_after
  file_after-IsSaved [] file sound f = f
  file_after-IsSaved (session ∷ sessions) file sound f =
      let (ops, s, e) = session_cache-run session file sound.0 f in
      file_after-IsSaved sessions _ sound.1 (
        rw e (
          write_file-IsSaved session.ending session.config.block_cache_size ops file sound.0.size s
            f))
