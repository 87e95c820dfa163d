-- ===== src/BlockCache/File.antt =====
-- src/block_cache.rs: the cache's file. A file is the list of its bytes, and no file is none; errors
-- that the disk itself makes are left out. RLP, a parameter, is alloy_rlp's.
pub mod RoundTrip
pub mod Cut
pub mod Truncated
use reth_sentry_node.Prelude.{
  ℕ, zero, suc, ◌+◌, ◌*◌, ◌/◌, ◌%◌, ◌^◌, ◌<◌, ◌≡◌, Option, none, some, List, [], ◌∷◌, ◌++◌, map,
  length, min, u32_mod, Result, ok, err, ◌>>=◌,
}
use reth_sentry_node.Chain.{Chain}
use reth_sentry_node.Lru.{LruCrate}
use reth_sentry_node.BlockCache.{BlockCache, CachedBlock, insert, drain_blocks}

-- The bytes of hashes, headers and bodies.
pub record Codec (chain : Chain) : Type 0 where
  pub hash_bytes : chain.B256 → List ℕ
  pub hash_from : List ℕ → chain.B256
  pub encode_header : chain.Header → List ℕ
  pub decode_header : List ℕ → Option chain.Header
  pub encode_body : chain.BlockBody → List ℕ
  pub decode_body : List ℕ → Option chain.BlockBody

-- A hash has 32 bytes, and what is encoded decodes to itself.
pub record IsCodec {chain : Chain} (codec : Codec chain) : Type 0 where
  pub length-hash_bytes : (h : chain.B256) → length (codec.hash_bytes h) ≡ 32
  pub hash_from-hash_bytes : (h : chain.B256) → codec.hash_from (codec.hash_bytes h) ≡ h
  pub decode_header-encode_header :
      (x : chain.Header) → codec.decode_header (codec.encode_header x) ≡ some x
  pub decode_body-encode_body :
      (b : chain.BlockBody) → codec.decode_body (codec.encode_body b) ≡ some b

-- `(n as u32).to_le_bytes()` and `u32::from_le_bytes`.
unfoldable pub u32_to_le : ℕ → List ℕ
u32_to_le n = n % 256 ∷ n / 2 ^ 8 % 256 ∷ n / 2 ^ 16 % 256 ∷ n / 2 ^ 24 % 256 ∷ []

unfoldable pub u32_from_le : List ℕ → ℕ
u32_from_le [] = 0
u32_from_le (x ∷ xs) = x + 256 * u32_from_le xs

pub data ReadError : Type 0 where
  unexpected_eof bad_header bad_body : ReadError

-- `read_exact` of so many bytes: what is read, and what is left.
unfoldable pub read_exact : ℕ → List ℕ → Result ReadError (List ℕ × List ℕ)
read_exact zero file = ok ([], file)
read_exact (suc n) [] = err unexpected_eof
read_exact (suc n) (x ∷ file) = do (xs, rest) ← read_exact n file; ok (x ∷ xs, rest)

-- The result of a decoder, as `?` sees it.
unfoldable pub decoded : {A : Type 0} → ReadError → Option A → Result ReadError A
decoded e none = err e
decoded e (some a) = ok a

-- How a load ends: without a file, with so many blocks, or with an error in the count.
pub data Loaded : Type 0 where
  no_file : Loaded
  restored : ℕ → Loaded
  failed : ReadError → Loaded

module _ (lru : LruCrate) (chain : Chain) (codec : Codec chain) where
  -- A length or a count, as u32, and the bytes that it counts.
  unfoldable pub write_sized : List ℕ → List ℕ
  write_sized bytes = u32_to_le (length bytes) ++ bytes

  unfoldable pub write_block : CachedBlock lru chain → List ℕ
  write_block b =
      codec.hash_bytes b.hash
      ++ (write_sized (codec.encode_header b.header) ++ write_sized (codec.encode_body b.body))

  unfoldable pub write_blocks : List (CachedBlock lru chain) → List ℕ
  write_blocks [] = []
  write_blocks (b ∷ bs) = write_block b ++ write_blocks bs

  -- The bytes of the file that `save_to_file` makes.
  unfoldable pub save_to_file : BlockCache lru chain → List ℕ
  save_to_file c =
      let blocks = drain_blocks lru chain c in u32_to_le (length blocks) ++ write_blocks blocks

  -- A length, and as many bytes.
  unfoldable pub read_sized : List ℕ → Result ReadError (List ℕ × List ℕ)
  read_sized file = do (len, file) ← read_exact 4 file; read_exact (u32_from_le len) file

  unfoldable pub read_block_entry : List ℕ → Result ReadError (CachedBlock lru chain × List ℕ)
  read_block_entry file = do
    (hash, file) ← read_exact 32 file
    (header_rlp, file) ← read_sized file
    header ← decoded bad_header (codec.decode_header header_rlp)
    (body_rlp, file) ← read_sized file
    body ← decoded bad_body (codec.decode_body body_rlp)
    ok (record { hash = codec.hash_from hash; header = header; body = body }, file)

  -- The loop of `load_from_file`, with the rounds left and the blocks loaded so far, a u32.
  unfoldable pub load_entries :
      ℕ → List ℕ → ℕ → BlockCache lru chain → Loaded × BlockCache lru chain
  load_entries zero file loaded c = (restored loaded, c)
  load_entries (suc rounds) file loaded c = elim (read_block_entry file) [
    | err _ ↦ (restored loaded, c)
    | ok (b, rest) ↦
        load_entries rounds rest ((loaded + 1) % u32_mod)
          (insert lru chain c b.hash b.header b.body)
  ]

  unfoldable pub load_from_file :
      BlockCache lru chain → Option (List ℕ) → Loaded × BlockCache lru chain
  load_from_file c none = (no_file, c)
  load_from_file c (some file) = elim (read_exact 4 file) [
    | err e ↦ (failed e, c)
    | ok (count, rest) ↦ load_entries (min (u32_from_le count) c.capacity) rest 0 c
  ]
