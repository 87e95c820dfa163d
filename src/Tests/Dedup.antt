-- ===== src/Tests/Dedup.antt =====
-- Tests of src/dedup.rs.
use reth_sentry_node.Prelude.{
  ℕ, ◌≡◌, refl, not, some, List, [], ◌∷◌, arith, length, take, ℕ_discrete, lookup,
}
use reth_sentry_node.Lru.Assoc.{without, to_front}
use reth_sentry_node.Lru.Keys.{seen}
use reth_sentry_node.Lru.Listed.{listed, listed-IsLawful}
use reth_sentry_node.Dedup.{
  DedupConfig, TxDedup, new, look_up_or_push, count_verdict, log_stats, check_and_insert, after,
  accepted,
}
use reth_sentry_node.Dedup.Recency.{recent}
use reth_sentry_node.Dedup.Window.{check_and_insert-window}
use reth_sentry_node.Dedup.Stats.{Counts, after-stats, check_and_insert-logged}

abbrev config : DedupConfig
config = record { cache_size = 2; log_interval = 3 }

abbrev start : TxDedup listed ℕ
start = record {
  cache = record { cap = 2; iter = [] };
  stats = record { total = 0; duplicates = 0; unique = 0 };
  log_interval = 3;
}

abbrev stream : List ℕ
stream = 7 ∷ 8 ∷ 7 ∷ 9 ∷ []

made : new listed config ≡ some start
unfolding new
made = refl

program : Unit {0}
unfolding look_up_or_push count_verdict log_stats check_and_insert after accepted lookup without
    to_front ℕ_discrete
program = tt

-- 8 was evicted by 9, since 7 was used in between: it is accepted again.
evicted : accepted listed ℕ_discrete start (7 ∷ 8 ∷ 7 ∷ 9 ∷ 7 ∷ 8 ∷ []) ≡ 7 ∷ 8 ∷ 9 ∷ 8 ∷ []
unfolding program
evicted = refl

check_and_insert-window_example :
    (check_and_insert listed ℕ_discrete (after listed ℕ_discrete start stream) 8).is_new
    ≡ not (seen ℕ_discrete 8 (take 2 (recent ℕ_discrete [] stream)))
check_and_insert-window_example =
    check_and_insert-window listed listed-IsLawful ℕ_discrete config start stream 8 made

after-stats_example :
    Counts
      (after listed ℕ_discrete start stream).stats
      4
      (length (accepted listed ℕ_discrete start stream))
after-stats_example = after-stats listed ℕ_discrete config start stream made (omega arith)

check_and_insert-logged_example :
    (check_and_insert listed ℕ_discrete (after listed ℕ_discrete start (7 ∷ 8 ∷ [])) 7).logged
    ≡ some
        (check_and_insert listed ℕ_discrete
          (after listed ℕ_discrete start (7 ∷ 8 ∷ []))
          7).state.stats
check_and_insert-logged_example =
    check_and_insert-logged listed ℕ_discrete config start (7 ∷ 8 ∷ []) 7 made (omega arith)
