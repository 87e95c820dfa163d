-- ===== src/BlockCache/File/Truncated.antt =====
-- src/block_cache.rs: `load_from_file` on the first bytes of a file, as a save that was cut off leaves them.
use reth_sentry_node.Prelude.{
  ℕ, zero, suc, ◌+◌, ◌-◌, ◌^◌, ◌<◌, ◌≤◌, ◌≡◌, refl, sym, ap, ◌∙◌, some, List, [], ◌∷◌, ◌++◌, length,
  take, take-append, min, ok, err, arith, All, dec_lt, if◌then◌else◌, ltb,
}
use reth_sentry_node.Chain.{Chain}
use reth_sentry_node.Lru.{LruCrate}
use reth_sentry_node.BlockCache.{BlockCache, CachedBlock, insert, drain_blocks}
use reth_sentry_node.BlockCache.File.{
  Codec, IsCodec, u32_to_le, read_exact, failed, restored, unexpected_eof, Loaded, write_block,
  write_blocks, save_to_file, read_block_entry, load_entries, load_from_file,
}
use reth_sentry_node.BlockCache.File.RoundTrip.{
  Fits, insert_blocks, read_exact-u32_to_le, u32_from_le-to_le, read_block_entry-write_block,
  load_from_file-read,
}
use reth_sentry_node.BlockCache.File.Cut.{
  read_exact-take, take-u32_to_le, read_block_entry-nil, read_block_entry-take,
}

same_min : (rounds left n : ℕ) → n ≡ suc left → suc (min rounds left) ≡ min (suc rounds) n
same_min rounds left n e = omega (arith, e)

module _ (lru : LruCrate) (chain : Chain) (codec : Codec chain) where
  -- How many of the first blocks have all their bytes among so many bytes.
  abbrev pub whole_blocks : ℕ → List (CachedBlock lru chain) → ℕ
  whole_blocks room [] = 0
  whole_blocks room (b ∷ bs) =
      let size = length (write_block lru chain codec b) in
      let more = whole_blocks (room - size) bs in if ltb room size then 0 else suc more

  whole_blocks-cut :
      (k : ℕ) (b : CachedBlock lru chain) (bs : List (CachedBlock lru chain))
      → k < length (write_block lru chain codec b)
      → whole_blocks k (b ∷ bs) ≡ 0
  whole_blocks-cut k b bs h = ground (arith, h)

  whole_blocks-cons :
      (k : ℕ) (b : CachedBlock lru chain) (bs : List (CachedBlock lru chain))
      → length (write_block lru chain codec b) ≤ k
      → whole_blocks k (b ∷ bs) ≡ suc (whole_blocks (k - length (write_block lru chain codec b)) bs)
  whole_blocks-cons k b bs h = ground (arith, h)

  whole_blocks-le : (k : ℕ) (bs : List (CachedBlock lru chain)) → whole_blocks k bs ≤ length bs
  whole_blocks-le k [] = omega arith
  whole_blocks-le k (b ∷ bs) =
      let n = whole_blocks-le (k - length (write_block lru chain codec b)) bs in
      elim (dec_lt k (length (write_block lru chain codec b))) [
        | yes cut ↦ omega (arith, whole_blocks-cut k b bs cut)
        | no whole ↦ omega (arith, n, whole_blocks-cons k b bs (omega (arith, whole)))
      ]

  load_from_file-short :
      (d : BlockCache lru chain) (file : List ℕ)
      → read_exact 4 file ≡ err unexpected_eof
      → load_from_file lru chain codec d (some file) ≡ (failed unexpected_eof, d)
  unfolding load_from_file
  load_from_file-short d file e = rw (e, load_from_file) refl

  -- A load that has inserted this many of the blocks.
  abbrev pub loaded_first :
      ℕ → BlockCache lru chain → List (CachedBlock lru chain) → ℕ → Loaded × BlockCache lru chain
  loaded_first loaded c blocks n =
      (restored (loaded + n), insert_blocks lru chain codec c (take n blocks))

  loaded_first-zero :
      (loaded : ℕ) (c : BlockCache lru chain) (bs : List (CachedBlock lru chain)) (n : ℕ)
      → n ≡ 0
      → loaded_first loaded c bs n ≡ (restored loaded, c)
  loaded_first-zero loaded c bs n e =
      ap (loaded_first loaded c bs) e ∙ ap (λ m. (restored m, c)) (omega arith)

  module _ (laws : IsCodec codec) where
    load_entries-err :
        (rounds : ℕ) (file : List ℕ) (loaded : ℕ) (c : BlockCache lru chain)
        → read_block_entry lru chain codec file ≡ err unexpected_eof
        → load_entries lru chain codec rounds file loaded c ≡ (restored loaded, c)
    unfolding load_entries
    load_entries-err zero file loaded c e = refl
    load_entries-err (suc rounds) file loaded c e = rw (e, load_entries) refl

    load_entries-ok :
        (rounds : ℕ) (file rest : List ℕ) (b : CachedBlock lru chain) (loaded : ℕ)
        (c : BlockCache lru chain)
        → read_block_entry lru chain codec file ≡ ok (b, rest)
        → loaded + 1 < 2 ^ 32
        → load_entries lru chain codec (suc rounds) file loaded c
          ≡ load_entries lru chain codec rounds rest
              (loaded + 1)
              (insert lru chain c b.hash b.header b.body)
    unfolding load_entries
    load_entries-ok rounds file rest b loaded c e small =
        rw (e, load_entries)
          (ap
            (λ n.
              load_entries lru chain codec rounds rest n
                (insert lru chain c b.hash b.header b.body))
            (omega (arith, small)))

    load_entries-take :
        (rounds : ℕ) (bs : List (CachedBlock lru chain)) (loaded : ℕ) (c : BlockCache lru chain)
        (k : ℕ)
        → All (Fits lru chain codec) bs
        → loaded + length bs < 2 ^ 32
        → load_entries lru chain codec rounds (take k (write_blocks lru chain codec bs)) loaded c
          ≡ loaded_first loaded c bs (min rounds (whole_blocks k bs))
    unfolding write_blocks
    load_entries-take rounds [] loaded c k fits small =
        load_entries-err rounds (take k []) loaded c (read_block_entry-nil lru chain codec k)
        ∙ sym (loaded_first-zero loaded c [] (min rounds 0) (omega arith))
    load_entries-take zero (b ∷ bs) loaded c k fits small =
        unfold load_entries in
        sym (loaded_first-zero loaded c (b ∷ bs) (min 0 (whole_blocks k (b ∷ bs))) (omega arith))
    load_entries-take (suc rounds) (b ∷ bs) loaded c k fits small =
        let size = length (write_block lru chain codec b) in
        let rest = write_blocks lru chain codec bs in
        let d = insert lru chain c b.hash b.header b.body in
        elim (dec_lt k size) [
          | yes cut ↦
              load_entries-err (suc rounds) (take k (write_block lru chain codec b ++ rest)) loaded
                c (read_block_entry-take lru chain codec laws b rest k fits.0 cut)
              ∙ sym (
                  loaded_first-zero loaded c (b ∷ bs) (min (suc rounds) (whole_blocks k (b ∷ bs)))
                    (omega (arith, whole_blocks-cut k b bs cut)))
          | no whole ↦
              let left = whole_blocks (k - size) bs in
              load_entries-ok rounds (take k (write_block lru chain codec b ++ rest))
                (take (k - size) rest) b loaded c
                (rw (take-append k (write_block lru chain codec b) rest (omega (arith, whole))) (
                  read_block_entry-write_block lru chain codec laws b (take (k - size) rest)
                    fits.0))
                (omega (arith, small))
              ∙ load_entries-take rounds bs (loaded + 1) d (k - size) fits.1 (omega (arith, small))
              ∙ ap (λ n. (restored n, insert_blocks lru chain codec d (take (min rounds left) bs)))
                  (omega arith)
              ∙ ap (λ n. loaded_first loaded c (b ∷ bs) n)
                  (same_min rounds left (whole_blocks k (b ∷ bs))
                    (whole_blocks-cons k b bs (omega (arith, whole))))
        ]

    -- For a codec with its laws and a cache whose saved blocks have encodings and a count below 2^32:
    -- of the first `k` bytes of its file, a load into any cache makes an error and no change when `k` is
    -- below 4; else it inserts the first blocks of `drain_blocks` in their order, as many as have all
    -- their bytes there and as the capacity that the other cache was made with.
    pub load_from_file-take :
        (c d : BlockCache lru chain) (k : ℕ)
        → All (Fits lru chain codec) (drain_blocks lru chain c)
        → length (drain_blocks lru chain c) < 2 ^ 32
        → load_from_file lru chain codec d (some (take k (save_to_file lru chain codec c))) ≡ (
            if ltb k 4
            then (failed unexpected_eof, d)
            else loaded_first 0 d
                (drain_blocks lru chain c)
                (min d.capacity (whole_blocks (k - 4) (drain_blocks lru chain c))))
    unfolding save_to_file
    load_from_file-take c d k fits small =
        let blocks = drain_blocks lru chain c in
        let rest = write_blocks lru chain codec blocks in
        elim (dec_lt k 4) [
          | yes cut ↦
              load_from_file-short d (take k (u32_to_le (length blocks) ++ rest))
                (read_exact-take 4 k (u32_to_le (length blocks) ++ rest) cut)
              ∙ ground (arith, cut)
          | no counted ↦
              let room = k - 4 in
              let rounds = min (length blocks) d.capacity in
              let whole = whole_blocks room blocks in
              let same : min rounds whole ≡ min d.capacity whole =
                omega (arith, whole_blocks-le room blocks) in
              load_from_file-read lru chain codec d (take k (u32_to_le (length blocks) ++ rest)) (
                rw (take-u32_to_le k (length blocks) rest (omega (arith, counted)))
                  (read_exact-u32_to_le (length blocks) (take room rest)))
              ∙ ap (λ n. load_entries lru chain codec (min n d.capacity) (take room rest) 0 d)
                  (u32_from_le-to_le (length blocks) small)
              ∙ load_entries-take rounds blocks 0 d room fits (omega (arith, small))
              ∙ ap (λ n. loaded_first 0 d blocks n) same
              ∙ ground (arith, counted)
        ]

    -- Whatever is left of the file, some first blocks are inserted.
    pub load_from_file-insert_blocks :
        (c d : BlockCache lru chain) (k : ℕ)
        → All (Fits lru chain codec) (drain_blocks lru chain c)
        → length (drain_blocks lru chain c) < 2 ^ 32
        → (n : ℕ) × ((load_from_file lru chain codec d
              (some (take k (save_to_file lru chain codec c)))).1
            ≡ insert_blocks lru chain codec d (take n (drain_blocks lru chain c)))
    load_from_file-insert_blocks c d k fits small =
        let n = min d.capacity (whole_blocks (k - 4) (drain_blocks lru chain c)) in
        let loaded = ap (λ r. r.1) (load_from_file-take c d k fits small) in
        elim (dec_lt k 4) [
          | yes cut ↦ (0, loaded ∙ ground (arith, cut))
          | no counted ↦ (n, loaded ∙ ground (arith, counted))
        ]
