-- ===== src/BlockCache/File/RoundTrip.antt =====
-- src/block_cache.rs: what `load_from_file` restores of a file that `save_to_file` made.
use mathlib.Core.List.{append_assoc}
use reth_sentry_node.Prelude.{
  ℕ, zero, suc, ◌+◌, ◌%◌, ◌^◌, ◌<◌, ◌≤◌, ◌≡◌, refl, sym, ap, ◌∙◌, some, List, [], ◌∷◌, ◌++◌, length,
  take, min, u32_mod, ok, arith, All, dec_lt, take_of_length-le,
}
use reth_sentry_node.Chain.{Chain}
use reth_sentry_node.Lru.{LruCrate}
use reth_sentry_node.BlockCache.{BlockCache, CachedBlock, insert, drain_blocks}
use reth_sentry_node.BlockCache.File.{
  Codec, IsCodec, u32_to_le, u32_from_le, read_exact, decoded, restored, write_sized, write_block,
  write_blocks, save_to_file, read_sized, read_block_entry, load_entries, load_from_file,
}

pub u32_from_le-to_le : (n : ℕ) → n < 2 ^ 32 → u32_from_le (u32_to_le n) ≡ n
unfolding u32_from_le u32_to_le
u32_from_le-to_le n h = omega arith

take-min {ℓ} : {A : Type ℓ} (n : ℕ) (l : List A) → take (min (length l) n) l ≡ take n l
take-min n l = elim (dec_lt n (length l)) [
  | yes h ↦ ap (λ k. take k l) (omega arith)
  | no h ↦
      take_of_length-le (min (length l) n) l (omega arith)
      ∙ sym (take_of_length-le n l (omega arith))
]

pub read_exact-append :
    (xs rest : List ℕ) (n : ℕ) → length xs ≡ n → read_exact n (xs ++ rest) ≡ ok (xs, rest)
unfolding read_exact
read_exact-append [] rest zero e = refl
read_exact-append [] rest (suc n) e = ground (arith, e)
read_exact-append (x ∷ xs) rest zero e = ground (arith, e)
read_exact-append (x ∷ xs) rest (suc n) e = rw (read_exact-append xs rest n (omega (arith, e)))

pub read_exact-u32_to_le :
    (n : ℕ) (rest : List ℕ) → read_exact 4 (u32_to_le n ++ rest) ≡ ok (u32_to_le n, rest)
unfolding u32_to_le
read_exact-u32_to_le n rest = read_exact-append (u32_to_le n) rest 4 refl

module _ (lru : LruCrate) (chain : Chain) (codec : Codec chain) where
  pub read_sized-write_sized :
      (bytes rest : List ℕ)
      → length bytes < 2 ^ 32
      → read_sized lru chain codec (write_sized lru chain codec bytes ++ rest) ≡ ok (bytes, rest)
  unfolding read_sized write_sized
  read_sized-write_sized bytes rest h =
      rw
        (
          append_assoc (u32_to_le (length bytes)) bytes rest,
          read_exact-u32_to_le (length bytes) (bytes ++ rest),
          u32_from_le-to_le (length bytes) h,
        )
        (read_exact-append bytes rest (length bytes) refl)

  pub load_from_file-read :
      (d : BlockCache lru chain) (file : List ℕ) {count rest : List ℕ}
      → read_exact 4 file ≡ ok (count, rest)
      → load_from_file lru chain codec d (some file)
        ≡ load_entries lru chain codec (min (u32_from_le count) d.capacity) rest 0 d
  unfolding load_from_file
  load_from_file-read d file e = rw (e, load_from_file) refl

  -- The lengths in the file are u32.
  pub record Fits (b : CachedBlock lru chain) : Type 0 where
    pub header : length (codec.encode_header b.header) < 2 ^ 32
    pub body : length (codec.encode_body b.body) < 2 ^ 32

  -- A cache after the blocks of a list are inserted in order.
  abbrev pub insert_blocks :
      BlockCache lru chain → List (CachedBlock lru chain) → BlockCache lru chain
  insert_blocks c [] = c
  insert_blocks c (b ∷ bs) = insert_blocks (insert lru chain c b.hash b.header b.body) bs

  module _ (laws : IsCodec codec) where
    pub read_block_entry-write_block :
        (b : CachedBlock lru chain) (rest : List ℕ)
        → Fits b
        → read_block_entry lru chain codec (write_block lru chain codec b ++ rest) ≡ ok (b, rest)
    unfolding read_block_entry write_block decoded
    read_block_entry-write_block b rest fits =
        let hash = codec.hash_bytes b.hash in
        let header = write_sized lru chain codec (codec.encode_header b.header) in
        let body = write_sized lru chain codec (codec.encode_body b.body) in
        rw
          (
            append_assoc hash (header ++ body) rest,
            append_assoc header body rest,
            read_exact-append hash (header ++ (body ++ rest)) 32 (laws.length-hash_bytes b.hash),
            read_sized-write_sized (codec.encode_header b.header) (body ++ rest) fits.header,
            laws.decode_header-encode_header b.header,
            read_sized-write_sized (codec.encode_body b.body) rest fits.body,
            laws.decode_body-encode_body b.body,
            laws.hash_from-hash_bytes b.hash,
          )
          refl

    load_entries-write_blocks :
        (rounds : ℕ) (bs : List (CachedBlock lru chain)) (loaded : ℕ) (c : BlockCache lru chain)
        → All Fits bs
        → rounds ≤ length bs
        → loaded + length bs < 2 ^ 32
        → load_entries lru chain codec rounds (write_blocks lru chain codec bs) loaded c
          ≡ (restored (loaded + rounds), insert_blocks c (take rounds bs))
    unfolding load_entries write_blocks
    load_entries-write_blocks zero bs loaded c fits few small =
        ap (λ n. (restored n, c)) (omega arith)
    load_entries-write_blocks (suc rounds) [] loaded c fits few small = ground (arith, few)
    load_entries-write_blocks (suc rounds) (b ∷ bs) loaded c fits few small =
        let d = insert lru chain c b.hash b.header b.body in
        let rest = write_blocks lru chain codec bs in
        let next : (loaded + 1) % u32_mod ≡ loaded + 1 = omega (arith, small) in
        rw (read_block_entry-write_block b rest fits.0, load_entries)
          (ap (λ n. load_entries lru chain codec rounds rest n d) next
            ∙ load_entries-write_blocks rounds bs (loaded + 1) d fits.1 (omega (arith, few))
                (omega (arith, small))
            ∙ ap (λ n. (restored n, insert_blocks d (take rounds bs))) (omega arith))

    -- For a codec with its laws and a cache whose saved blocks have encodings and a count below 2^32:
    -- what is loaded from its file into any cache is the first blocks of `drain_blocks`, in their order,
    -- as many as the capacity that the other cache was made with; the result is their number.
    pub load_from_file-save_to_file :
        (c d : BlockCache lru chain)
        → All Fits (drain_blocks lru chain c)
        → length (drain_blocks lru chain c) < 2 ^ 32
        → load_from_file lru chain codec d (some (save_to_file lru chain codec c)) ≡ (
          restored (min (length (drain_blocks lru chain c)) d.capacity),
          insert_blocks d (take d.capacity (drain_blocks lru chain c)),
        )
    unfolding save_to_file
    load_from_file-save_to_file c d fits small =
        let blocks = drain_blocks lru chain c in
        let rest = write_blocks lru chain codec blocks in
        let rounds = min (length blocks) d.capacity in
        load_from_file-read d (save_to_file lru chain codec c)
          (read_exact-u32_to_le (length blocks) rest)
        ∙ ap (λ n. load_entries lru chain codec (min n d.capacity) rest 0 d)
            (u32_from_le-to_le (length blocks) small)
        ∙ load_entries-write_blocks rounds blocks 0 d fits (omega arith) (omega (arith, small))
        ∙ ap (λ n. (restored n, insert_blocks d (take rounds blocks))) (omega arith)
        ∙ ap (λ bs. (restored rounds, insert_blocks d bs)) (take-min d.capacity blocks)
