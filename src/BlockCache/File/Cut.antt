-- ===== src/BlockCache/File/Cut.antt =====
-- src/block_cache.rs: reads at the end of a file that was cut off.
use mathlib.Core.List.{append_assoc}
use reth_sentry_node.Prelude.{
  ℕ, zero, suc, ◌+◌, ◌-◌, ◌^◌, ◌<◌, ◌≤◌, ◌≡◌, refl, ap, ◌∙◌, List, [], ◌∷◌, ◌++◌, length, take,
  take-append, take-nil, length-append, length-take-le, err, arith, dec_lt,
}
use reth_sentry_node.Chain.{Chain}
use reth_sentry_node.Lru.{LruCrate}
use reth_sentry_node.BlockCache.{CachedBlock}
use reth_sentry_node.BlockCache.File.{
  Codec, IsCodec, u32_to_le, read_exact, decoded, unexpected_eof, write_sized, write_block,
  read_sized, read_block_entry,
}
use reth_sentry_node.BlockCache.File.RoundTrip.{
  Fits, read_exact-append, read_exact-u32_to_le, u32_from_le-to_le, read_sized-write_sized,
}

read_exact-short :
    (n : ℕ) (file : List ℕ) → length file < n → read_exact n file ≡ err unexpected_eof
unfolding read_exact
read_exact-short zero file h = elim h [ ]
read_exact-short (suc n) [] h = refl
read_exact-short (suc n) (x ∷ file) h = rw (read_exact-short n file (omega (arith, h))) refl

pub read_exact-take :
    (n k : ℕ) (file : List ℕ) → k < n → read_exact n (take k file) ≡ err unexpected_eof
read_exact-take n k file h =
    read_exact-short n (take k file) (omega (arith, h, length-take-le k file))

pub take-u32_to_le :
    (k n : ℕ) (rest : List ℕ)
    → 4 ≤ k
    → take k (u32_to_le n ++ rest) ≡ u32_to_le n ++ take (k - 4) rest
unfolding u32_to_le
take-u32_to_le k n rest h = take-append k (u32_to_le n) rest h

module _ (lru : LruCrate) (chain : Chain) (codec : Codec chain) where
  read_sized-short :
      (file : List ℕ)
      → read_exact 4 file ≡ err unexpected_eof
      → read_sized lru chain codec file ≡ err unexpected_eof
  unfolding read_sized
  read_sized-short file e = rw e refl

  read_sized-take :
      (bytes rest : List ℕ) (k : ℕ)
      → length bytes < 2 ^ 32
      → k < 4 + length bytes
      → read_sized lru chain codec (take k (write_sized lru chain codec bytes ++ rest))
        ≡ err unexpected_eof
  unfolding read_sized write_sized
  read_sized-take bytes rest k small h = elim (dec_lt k 4) [
    | yes short ↦
        read_sized-short _ (read_exact-take 4 k ((u32_to_le (length bytes) ++ bytes) ++ rest) short)
    | no enough ↦
        rw
          (
            append_assoc (u32_to_le (length bytes)) bytes rest,
            take-u32_to_le k (length bytes) (bytes ++ rest) (omega (arith, enough)),
            read_exact-u32_to_le (length bytes) (take (k - 4) (bytes ++ rest)),
            u32_from_le-to_le (length bytes) small,
          )
          (read_exact-take (length bytes) (k - 4) (bytes ++ rest) (omega (arith, h, enough)))
  ]

  pub read_block_entry-nil :
      (k : ℕ) → read_block_entry lru chain codec (take k []) ≡ err unexpected_eof
  unfolding read_block_entry
  read_block_entry-nil k = rw (take-nil {A = ℕ} k, read_exact-short 32 [] (omega arith)) refl

  length-write_sized :
      (bytes : List ℕ) → length (write_sized lru chain codec bytes) ≡ 4 + length bytes
  unfolding write_sized u32_to_le
  length-write_sized bytes = omega (arith, length-append (u32_to_le (length bytes)) bytes)

  take-write_sized :
      (k : ℕ) (bytes rest : List ℕ)
      → 4 + length bytes ≤ k
      → take k (write_sized lru chain codec bytes ++ rest)
        ≡ write_sized lru chain codec bytes ++ take (k - (4 + length bytes)) rest
  take-write_sized k bytes rest h =
      take-append k (write_sized lru chain codec bytes) rest
        (omega (arith, h, length-write_sized bytes))
      ∙ ap (λ n. write_sized lru chain codec bytes ++ take (k - n) rest) (length-write_sized bytes)

  module _ (laws : IsCodec codec) where
    take-hash_bytes :
        (hash : chain.B256) (k : ℕ) (rest : List ℕ)
        → 32 ≤ k
        → take k (codec.hash_bytes hash ++ rest) ≡ codec.hash_bytes hash ++ take (k - 32) rest
    take-hash_bytes hash k rest h =
        take-append k (codec.hash_bytes hash) rest (omega (arith, h, laws.length-hash_bytes hash))
        ∙ ap (λ n. codec.hash_bytes hash ++ take (k - n) rest) (laws.length-hash_bytes hash)

    length-write_block :
        (b : CachedBlock lru chain)
        → length (write_block lru chain codec b)
          ≡ 32
            + ((4 + length (codec.encode_header b.header))
                + (4 + length (codec.encode_body b.body)))
    unfolding write_block
    length-write_block b =
        let hash = codec.hash_bytes b.hash in
        let header = write_sized lru chain codec (codec.encode_header b.header) in
        let body = write_sized lru chain codec (codec.encode_body b.body) in
        omega (
          arith,
          length-append hash (header ++ body),
          length-append header body,
          laws.length-hash_bytes b.hash,
          length-write_sized (codec.encode_header b.header),
          length-write_sized (codec.encode_body b.body),
        )

    -- A block that is cut off is not read.
    pub read_block_entry-take :
        (b : CachedBlock lru chain) (rest : List ℕ) (k : ℕ)
        → Fits lru chain codec b
        → k < length (write_block lru chain codec b)
        → read_block_entry lru chain codec (take k (write_block lru chain codec b ++ rest))
          ≡ err unexpected_eof
    unfolding read_block_entry write_block decoded
    read_block_entry-take b rest k fits h =
        let hash = codec.hash_bytes b.hash in
        let header = write_sized lru chain codec (codec.encode_header b.header) in
        let body = write_sized lru chain codec (codec.encode_body b.body) in
        let n = length (codec.encode_header b.header) in
        let m = length (codec.encode_body b.body) in
        let room : k < 32 + ((4 + n) + (4 + m)) = omega (arith, h, length-write_block b) in
        elim (dec_lt k 32) [
          | yes short ↦ rw (read_exact-take 32 k ((hash ++ (header ++ body)) ++ rest) short) refl
          | no hashed ↦ elim (dec_lt (k - 32) (4 + n)) [
            | yes short ↦
                rw
                  (
                    append_assoc hash (header ++ body) rest,
                    take-hash_bytes b.hash k ((header ++ body) ++ rest) (omega (arith, hashed)),
                    append_assoc header body rest,
                    read_exact-append hash (take (k - 32) (header ++ (body ++ rest))) 32
                        (laws.length-hash_bytes b.hash),
                    read_sized-take (codec.encode_header b.header) (body ++ rest) (k - 32)
                        fits.header short,
                  )
                  refl
            | no whole ↦
                rw
                  (
                    append_assoc hash (header ++ body) rest,
                    take-hash_bytes b.hash k ((header ++ body) ++ rest) (omega (arith, hashed)),
                    append_assoc header body rest,
                    take-write_sized (k - 32) (codec.encode_header b.header) (body ++ rest)
                        (omega (arith, whole)),
                    read_exact-append hash (header ++ take (k - 32 - (4 + n)) (body ++ rest)) 32
                        (laws.length-hash_bytes b.hash),
                    read_sized-write_sized lru chain codec (codec.encode_header b.header)
                        (take (k - 32 - (4 + n)) (body ++ rest)) fits.header,
                    laws.decode_header-encode_header b.header,
                    read_sized-take (codec.encode_body b.body) rest (k - 32 - (4 + n)) fits.body
                        (omega (arith, room, hashed, whole)),
                  )
                  refl
          ]
        ]
