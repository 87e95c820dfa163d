-- ===== src/Tests/File.antt =====
-- Tests of the block cache's file, src/block_cache.rs, with a codec of the sample chain.
use reth_sentry_node.Prelude.{
  ℕ, ◌≡◌, refl, some, none, Option, List, [], ◌∷◌, arith, length, take, min, All, lookup,
  ℕ_discrete,
}
use reth_sentry_node.Lru.Assoc.{without}
use reth_sentry_node.Lru.Listed.{listed}
use reth_sentry_node.BlockCache.{
  BlockCache, CachedBlock, new, insert, drain_blocks, sort_by_key, filter_map, cached_block,
}
use reth_sentry_node.BlockCache.File.{
  Codec, IsCodec, restored, save_to_file, load_from_file, write_block, write_sized, u32_to_le,
}
use reth_sentry_node.BlockCache.File.RoundTrip.{Fits, insert_blocks, load_from_file-save_to_file}
use reth_sentry_node.BlockCache.File.Truncated.{whole_blocks, loaded_first, load_from_file-take}
use reth_sentry_node.Tests.Sample.{SampleHeader, sample, header_at}

abbrev pub zeros : List ℕ
zeros =
    0 ∷ 0 ∷ 0 ∷ 0 ∷ 0 ∷ 0 ∷ 0 ∷ 0 ∷ 0 ∷ 0 ∷ 0 ∷ 0 ∷ 0 ∷ 0 ∷ 0 ∷ 0 ∷ 0 ∷ 0 ∷ 0 ∷ 0 ∷ 0 ∷ 0 ∷ 0 ∷ 0
    ∷ 0 ∷ 0 ∷ 0 ∷ 0 ∷ 0 ∷ 0 ∷ 0 ∷ []

abbrev pub hash_from : List ℕ → ℕ
hash_from [] = 0
hash_from (x ∷ xs) = x

abbrev pub decode_header : List ℕ → Option SampleHeader
decode_header (n ∷ t ∷ h ∷ xs) = some (record { number = n; timestamp = t; hash = h })
decode_header _ = none

abbrev pub decode_body : List ℕ → Option ℕ
decode_body [] = none
decode_body (b ∷ xs) = some b

abbrev pub codec : Codec sample
codec = record {
  hash_bytes = λ h. h ∷ zeros;
  hash_from = hash_from;
  encode_header = λ x. x.number ∷ x.timestamp ∷ x.hash ∷ [];
  decode_header = decode_header;
  encode_body = λ b. b ∷ [];
  decode_body = decode_body;
}

pub codec-IsCodec : IsCodec codec
codec-IsCodec = record {
  length-hash_bytes = λ h. refl;
  hash_from-hash_bytes = λ h. refl;
  decode_header-encode_header = λ x. refl;
  decode_body-encode_body = λ b. refl;
}

-- Three blocks out of order; the other cache has room for two.
abbrev cache : BlockCache listed sample
cache =
    insert listed sample
      (insert listed sample (insert listed sample (new listed sample 3) 105 (header_at 5) 1105) 103
        (header_at 3) 1103)
      104 (header_at 4) 1104

All-Fits : (blocks : List (CachedBlock listed sample)) → All (Fits listed sample codec) blocks
All-Fits [] = tt
All-Fits (b ∷ bs) = (record { header = omega arith; body = omega arith }, All-Fits bs)

abbrev other : BlockCache listed sample
other = record {
  headers_by_hash = record { cap = 2; iter = [] };
  headers_by_number = record { cap = 2; iter = [] };
  hash_by_number = record { cap = 2; iter = [] };
  bodies_by_hash = record { cap = 2; iter = [] };
  capacity = 2;
}

count : length (drain_blocks listed sample cache) ≡ 3
unfolding drain_blocks new insert sort_by_key filter_map cached_block lookup ℕ_discrete without
count = refl

load_from_file-save_to_file_example :
    load_from_file listed sample codec other (some (save_to_file listed sample codec cache)) ≡ (
      restored (min (length (drain_blocks listed sample cache)) 2),
      insert_blocks listed sample codec other (take 2 (drain_blocks listed sample cache)),
    )
load_from_file-save_to_file_example =
    load_from_file-save_to_file listed sample codec codec-IsCodec cache other
      (All-Fits (drain_blocks listed sample cache)) (omega (arith, count))

-- The first 60 bytes have one block of 44 bytes.
load_from_file-take_example :
    load_from_file listed sample codec other
      (some (take 60 (save_to_file listed sample codec cache)))
    ≡ loaded_first listed sample codec 0 other
        (drain_blocks listed sample cache)
        (min 2 (whole_blocks listed sample codec 56 (drain_blocks listed sample cache)))
load_from_file-take_example =
    load_from_file-take listed sample codec codec-IsCodec cache other 60
      (All-Fits (drain_blocks listed sample cache)) (omega (arith, count))

one_whole : whole_blocks listed sample codec 56 (drain_blocks listed sample cache) ≡ 1
unfolding drain_blocks new insert sort_by_key filter_map cached_block lookup ℕ_discrete without
    write_block write_sized u32_to_le
one_whole = refl
