-- ===== src/EthProxy/Effects.antt =====
-- src/eth_proxy.rs: what a request does to the cache is a run of the cache's operations, and what it
-- inserts under a hash are headers of that hash and bodies as the peers sent them.
use reth_sentry_node.Prelude.{
  ℕ, zero, suc, ◌≡◌, refl, sym, ap, ◌∙◌, ◌&&◌, none, some, List, [], ◌∷◌, ◌++◌, All, All-append,
  length, ltb, ◌==◌, Bool-cases, inl, inr,
}
use reth_sentry_node.Chain.{Chain}
use reth_sentry_node.Lru.{LruCrate}
use reth_sentry_node.BlockCache
use reth_sentry_node.BlockCache.{BlockCache}
use reth_sentry_node.BlockCache.Ops.{
  Op, insert_header, insert_body, get_header_by_hash, get_header_by_number, get_body_by_hash, apply,
  run, run-append,
}
use reth_sentry_node.BlockCache.Coherence.{IsSound}
use reth_sentry_node.EthProxy.{BlockHashOrNumber, by_hash, by_number, start_number}
use reth_sentry_node.EthProxy.Work.{
  Work, at, starting, walking, caching, resolving, filtering, combining, inserting, cache_step,
}

module _ (lru : LruCrate) (chain : Chain) (P : chain.B256 → chain.Header → Type 0) where
  open chain use {B256, Header, hash_slow, BlockBody}

  abbrev Cache : Type 0
  Cache = BlockCache lru chain

  -- What is inserted of headers is as `P` says; nothing is said of bodies.
  abbrev pub IsSoundOp : Op chain → Type 0
  IsSoundOp = IsSound lru chain P (λ hash body. Unit {0})

  -- The second cache comes from the first by operations with that.
  pub record IsRun (c c' : Cache) : Type 0 where
    pub ops : List (Op chain)
    pub sound : All IsSoundOp ops
    pub same : c' ≡ run lru chain c ops

  pub IsRun-refl : (c : Cache) → IsRun c c
  unfolding run
  IsRun-refl c = record { ops = []; sound = tt; same = refl }

  pub IsRun-apply : (c : Cache) (op : Op chain) → IsSoundOp op → IsRun c (apply lru chain c op)
  unfolding run
  IsRun-apply c op s = record { ops = op ∷ []; sound = (s, tt); same = refl }

  pub IsRun-trans : {c c' c'' : Cache} → IsRun c c' → IsRun c' c'' → IsRun c c''
  IsRun-trans {c} r s = record {
    ops = r.ops ++ s.ops;
    sound = All-append IsSoundOp r.ops s.ops r.sound s.sound;
    same =
        s.same ∙ ap (λ d. run lru chain d s.ops) r.same ∙ sym (run-append lru chain c r.ops s.ops);
  }

  by_number-IsRun : (c : Cache) (n : ℕ) → IsRun c (BlockCache.get_header_by_number lru chain c n).1
  unfolding apply
  by_number-IsRun c n = IsRun-apply c (get_header_by_number n) tt

  by_hash-IsRun : (c : Cache) (h : B256) → IsRun c (BlockCache.get_header_by_hash lru chain c h).1
  unfolding apply
  by_hash-IsRun c h = IsRun-apply c (get_header_by_hash h) tt

  body-IsRun : (c : Cache) (h : B256) → IsRun c (BlockCache.get_body_by_hash lru chain c h).1
  unfolding apply
  body-IsRun c h = IsRun-apply c (get_body_by_hash h) tt

  insert_body-IsRun :
      (c : Cache) (h : B256) (b : BlockBody) → IsRun c (BlockCache.insert_body lru chain c h b)
  unfolding apply
  insert_body-IsRun c h b = IsRun-apply c (insert_body h b) tt

  start_number-IsRun :
      (c : Cache) (s : BlockHashOrNumber chain) → IsRun c (start_number lru chain c s).1
  unfolding start_number
  start_number-IsRun c (by_number n) = IsRun-refl c
  start_number-IsRun c (by_hash h) = by_hash-IsRun c h

  -- A cache call of the handler. A fetched header is inserted under its own hash.
  pub cache_step-IsRun :
      ((x : Header) → P (hash_slow x) x)
      → (work : Work lru chain) (c : Cache) → IsRun c (cache_step lru chain work c).1
  unfolding cache_step apply
  cache_step-IsRun own (at phase) c = IsRun-refl c
  cache_step-IsRun own (starting request) c = start_number-IsRun c request.start_block
  cache_step-IsRun own (walking request zero current found) c = IsRun-refl c
  cache_step-IsRun own (walking request (suc rounds) none found) c = IsRun-refl c
  cache_step-IsRun own (walking request (suc rounds) (some num) found) c = by_number-IsRun c num
  cache_step-IsRun own (caching reply []) c = IsRun-refl c
  cache_step-IsRun own (caching reply (x ∷ xs)) c =
      IsRun-apply c (insert_header (hash_slow x) x) (own x)
  cache_step-IsRun own (resolving requested [] found) c =
      elim (Bool-cases (length found == length requested && ltb 0 (length requested))) [
        | inl e ↦ rw (e, cache_step) (IsRun-refl c)
        | inr e ↦ rw (e, cache_step) (IsRun-refl c)
      ]
  cache_step-IsRun own (resolving requested (h ∷ hs) found) c = body-IsRun c h
  cache_step-IsRun own (filtering requested found [] missing) c = IsRun-refl c
  cache_step-IsRun own (filtering requested found (h ∷ hs) missing) c = body-IsRun c h
  cache_step-IsRun own (combining [] fetched all_bodies) c = IsRun-refl c
  cache_step-IsRun own (combining (h ∷ hs) fetched all_bodies) c = body-IsRun c h
  cache_step-IsRun own (inserting hash body left fetched all_bodies) c =
      insert_body-IsRun c hash body
