-- ===== src/Dedup/Stats.antt =====
-- The counters and the periodic log line of src/dedup.rs.
use reth_sentry_node.Prelude.{
  ℕ, ◌+◌, ◌%◌, ◌<◌, ◌≡◌, refl, ap, ◌∙◌, Bool, true, false, ◌&&◌, none, some, List, [], ◌∷◌, arith,
  length, if◌then◌else◌, Bool-cases, inl, inr, ◌==◌, ltb, u64_mod,
}
use reth_sentry_node.Lru.{LruCrate}
use reth_sentry_node.Dedup.{
  DedupStats, DedupConfig, TxDedup, new, look_up_or_push, count_verdict, log_stats,
  check_and_insert, after, accepted,
}

-- The counters agree with a number of calls and of accepted hashes.
pub record Counts (stats : DedupStats) (calls news : ℕ) : Type 0 where
  pub total : stats.total ≡ calls
  pub unique : stats.unique ≡ news
  pub split : stats.unique + stats.duplicates ≡ stats.total

module _ (lru : LruCrate) {B256 : Type 0} (b256_eq : Discrete B256) where
  -- Whether a call accepts, as a number.
  abbrev one_if : Bool → ℕ
  one_if b = if b then 1 else 0

  count_verdict-Counts :
      (stats : DedupStats) (calls news : ℕ) (is_new : Bool)
      → calls + 1 < u64_mod
      → Counts stats calls news
      → Counts (count_verdict lru b256_eq stats is_new) (calls + 1) (news + one_if is_new)
  unfolding count_verdict
  count_verdict-Counts stats calls news true h c = record {
    total = ground arith;
    unique = ground arith;
    split = ground arith;
  }
  count_verdict-Counts stats calls news false h c = record {
    total = ground arith;
    unique = ground arith;
    split = ground arith;
  }

  next-Counts :
      (d : TxDedup lru B256) (calls news : ℕ) (h : B256)
      → calls + 1 < u64_mod
      → Counts d.stats calls news
      → Counts
          (check_and_insert lru b256_eq d h).state.stats
          (calls + 1)
          (news + one_if (check_and_insert lru b256_eq d h).is_new)
  unfolding check_and_insert
  next-Counts d calls news h room c =
      count_verdict-Counts d.stats calls news (look_up_or_push lru b256_eq d.cache h).0 room c

  length-accepted-cons :
      (d : TxDedup lru B256) (h : B256) (hs : List B256)
      → length (accepted lru b256_eq d (h ∷ hs))
        ≡ one_if (check_and_insert lru b256_eq d h).is_new
          + length (accepted lru b256_eq (check_and_insert lru b256_eq d h).state hs)
  unfolding accepted
  length-accepted-cons d h hs = elim (Bool-cases (check_and_insert lru b256_eq d h).is_new) [
    | inl e ↦ rw (e, one_if) (omega arith)
    | inr e ↦ rw (e, one_if) (omega arith)
  ]

  after-Counts :
      (d : TxDedup lru B256) (calls news : ℕ) (stream : List B256)
      → calls + length stream < u64_mod
      → Counts d.stats calls news
      → Counts
          (after lru b256_eq d stream).stats
          (calls + length stream)
          (news + length (accepted lru b256_eq d stream))
  unfolding after
  after-Counts d calls news [] room c = unfold accepted in omega (arith, c.total, c.unique, c.split)
  after-Counts d calls news (h ∷ hs) room c =
      let new_there = one_if (check_and_insert lru b256_eq d h).is_new in
      let rest =
        after-Counts (check_and_insert lru b256_eq d h).state (calls + 1) (news + new_there) hs
          (omega arith) (next-Counts d calls news h (omega arith) c) in
      omega (arith, rest.total, rest.unique, rest.split, length-accepted-cons d h hs)

  new-Counts :
      (config : DedupConfig) {d : TxDedup lru B256} → new lru config ≡ some d → Counts d.stats 0 0
  unfolding new
  new-Counts config e = record { total = ground arith; unique = ground arith; split = ground arith }

  -- From `TxDedup::new`, after a stream of fewer than 2^64 hashes: `total` is the number of hashes,
  -- `unique` the number of accepted ones, and `unique + duplicates = total`.
  pub after-stats :
      (config : DedupConfig) (d : TxDedup lru B256) (stream : List B256)
      → new lru config ≡ some d
      → length stream < u64_mod
      → Counts
          (after lru b256_eq d stream).stats
          (length stream)
          (length (accepted lru b256_eq d stream))
  after-stats config d stream e room =
      let all = after-Counts d 0 0 stream (omega arith) (new-Counts config e) in
      omega (arith, all.total, all.unique, all.split)

  interval-next :
      (d : TxDedup lru B256) (h : B256)
      → (check_and_insert lru b256_eq d h).state.log_interval ≡ d.log_interval
  unfolding check_and_insert
  interval-next d h = refl

  interval-after :
      (d : TxDedup lru B256) (stream : List B256)
      → (after lru b256_eq d stream).log_interval ≡ d.log_interval
  unfolding after
  interval-after d [] = refl
  interval-after d (h ∷ hs) =
      interval-after (check_and_insert lru b256_eq d h).state hs ∙ interval-next d h

  interval-new :
      (config : DedupConfig) {d : TxDedup lru B256}
      → new lru config ≡ some d
      → d.log_interval ≡ config.log_interval
  unfolding new
  interval-new config e = ground arith

  log_stats-at :
      (interval : ℕ) (stats : DedupStats) (k : ℕ)
      → stats.total ≡ k
      → log_stats lru b256_eq interval stats
        ≡ (if ltb 0 interval && (k % interval == 0) then some stats else none)
  unfolding log_stats
  log_stats-at interval stats k e =
      λ i. if ltb 0 interval && (e i % interval == 0) then some stats else none

  logged-log_stats :
      (d : TxDedup lru B256) (h : B256)
      → (check_and_insert lru b256_eq d h).logged
        ≡ log_stats lru b256_eq d.log_interval (check_and_insert lru b256_eq d h).state.stats
  unfolding check_and_insert
  logged-log_stats d h = refl

  -- From `TxDedup::new`, with `log_interval` positive: the call on the hash after a stream of `k`
  -- hashes, `k + 1 < 2^64`, logs exactly when `log_interval` divides `k + 1`, and then it logs the
  -- counters after the call. With `log_interval` 0 no call logs.
  pub check_and_insert-logged :
      (config : DedupConfig) (d : TxDedup lru B256) (stream : List B256) (h : B256)
      → new lru config ≡ some d
      → length stream + 1 < u64_mod
      → (check_and_insert lru b256_eq (after lru b256_eq d stream) h).logged ≡ (
          if ltb 0 config.log_interval && ((length stream + 1) % config.log_interval == 0)
          then some (check_and_insert lru b256_eq (after lru b256_eq d stream) h).state.stats
          else none)
  check_and_insert-logged config d stream h e room =
      let d' = after lru b256_eq d stream in
      let counts =
        next-Counts d' (length stream) (length (accepted lru b256_eq d stream)) h room
          (after-stats config d stream e (omega arith)) in
      let stats = (check_and_insert lru b256_eq d' h).state.stats in
      logged-log_stats d' h
      ∙ ap (λ t. log_stats lru b256_eq t stats) (interval-after d stream ∙ interval-new config e)
      ∙ log_stats-at config.log_interval stats (length stream + 1) counts.total
