-- ===== src/Sqldb/Database/Tests.antt =====
-- Witnesses and tests of the pool.
use itex_demo.Sqldb.Database.Pool.{pool_shrink_timer_handler-drop, addresses}
use itex_demo.Sqldb.Database.{
  in_progress, connected, Status, bad, outside, Connection, Database, pool_shrink_timer_handler,
}
use itex_demo.Base.{
  refl, ◌∷◌, ◌+◌, ◌*◌, ◌<◌, length, ◌≤◌, take, zero, [], drop, suc, ◌≡◌, some, false, ℕ,
}

abbrev first : Connection
first = record { address = 0; session = outside }

abbrev second : Connection
second = record { address = 1; session = outside }

abbrev third : Connection
third = record { address = 2; session = outside }

-- The first connection is dead, the second connected, the third still connecting.
abbrev mixed : ℕ → Status
mixed zero = bad
mixed (suc zero) = connected
mixed (suc (suc n)) = in_progress

abbrev three : Database
three = record {
  pool_queue = some first ∷ some second ∷ some third ∷ [];
  pool_stats_per_period = record { cumulative_size = 2; counter = 2 };
  next_address = 3;
  freed = [];
}

pool_shrink_timer_handler-drop_example :
    (n average : ℕ) × (pool_shrink_timer_handler false three
      ≡ some (record three {
        pool_queue = drop n three.pool_queue;
        freed = addresses (take n three.pool_queue) three.freed;
        pool_stats_per_period = record { cumulative_size = 0; counter = 0 };
      }))
    × (three.pool_stats_per_period.counter ≡ 0 → average ≡ 0)
    × (0 < three.pool_stats_per_period.counter
        → (three.pool_stats_per_period.counter * average
            ≤ three.pool_stats_per_period.cumulative_size)
          × (three.pool_stats_per_period.cumulative_size
              < three.pool_stats_per_period.counter * average
                + three.pool_stats_per_period.counter))
    × (length three.pool_queue ≤ average → n ≡ 0)
    × (average < length three.pool_queue
        → (average + 2 * n ≤ length three.pool_queue)
          × (length three.pool_queue ≤ average + 2 * n + 1))
pool_shrink_timer_handler-drop_example = pool_shrink_timer_handler-drop three

-- Of three connections, with an average of one, the one that waited longest is deleted.
shrink_three :
    pool_shrink_timer_handler false three
    ≡ some (record {
      pool_queue = some second ∷ some third ∷ [];
      pool_stats_per_period = record { cumulative_size = 0; counter = 0 };
      next_address = 3;
      freed = 0 ∷ [];
    })
unfolding pool_shrink_timer_handler
shrink_three = refl
