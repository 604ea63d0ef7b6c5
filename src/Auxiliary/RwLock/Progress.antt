-- ===== src/Auxiliary/RwLock/Progress.antt =====
-- Who gets the lock, and who spins: a thread that runs alone, and one whose value is stale.
use itex_demo.Base.{ℕ, zero, suc, ◌≡◌, ◌≢◌, refl, Option, none, some, arith}
use itex_demo.Auxiliary.RwLock.{
  ℤ, pos, negsuc, add_one, Pc, idle, trying, waiting, reading, round, num_attempts, expected, step,
}

-- `n` rounds of one thread while no other thread moves; `none` where it has no round to run.
unfoldable pub rounds : ℕ → Pc → ℤ → Option (Pc × ℤ)
rounds zero pc lock = some (pc, lock)
rounds (suc n) pc lock = elim (step round pc lock) [
  | none ↦ none
  | some (pc', lock') ↦ rounds n pc' lock'
]

round_stale :
    (val lock : ℤ) → lock ≢ expected val → step round (waiting val) lock ≡ some (waiting val, lock)
unfolding step expected
round_stale (pos m) (pos n) h = ground arith
round_stale (pos m) (negsuc n) h = ground arith
round_stale (negsuc m) (pos n) h = ground arith
round_stale (negsuc m) (negsuc n) h = ground arith

round_fresh :
    (val : ℤ) → step round (waiting val) (expected val) ≡ some (reading, add_one (expected val))
unfolding step expected
round_fresh (pos m) = ground arith
round_fresh (negsuc m) = ground arith

-- The defect of `reader_lock`: the value that it loaded is never loaded anew. While the lock's
-- value is another than the one it expects, no number of rounds gets the thread out of its loop
-- or changes the lock; so it spins also when the lock has become free.
pub rounds-waiting_stale :
    (n : ℕ) (val lock : ℤ)
    → lock ≢ expected val
    → rounds n (waiting val) lock ≡ some (waiting val, lock)
unfolding rounds
rounds-waiting_stale zero val lock h = refl
rounds-waiting_stale (suc n) val lock h =
    rw (round_stale val lock h, rounds) (rounds-waiting_stale n val lock h)

rounds-reader_try_lock_free :
    (k : ℕ) → rounds 1 (trying (pos k) num_attempts) (pos k) ≡ some (reading, pos (suc k))
unfolding rounds step expected
rounds-reader_try_lock_free k = ground arith

rounds-trying_held :
    (left n : ℕ) → rounds (suc left) (trying (negsuc n) left) (negsuc n) ≡ some (idle, negsuc n)
unfolding rounds step expected
rounds-trying_held zero n = refl
rounds-trying_held (suc left) n = rounds-trying_held left n

-- A thread in `reader_try_lock` that runs alone: with k readers inside it gets the lock at its
-- first attempt and counts itself in; with a writer inside (any negative value) it gives up after
-- all its attempts, and the lock is as it was.
pub reader_try_lock_alone :
    (k n : ℕ)
    → (rounds 1 (trying (pos k) num_attempts) (pos k) ≡ some (reading, pos (suc k)))
      × (rounds (suc num_attempts) (trying (negsuc n) num_attempts) (negsuc n)
          ≡ some (idle, negsuc n))
reader_try_lock_alone k n = (rounds-reader_try_lock_free k, rounds-trying_held num_attempts n)
