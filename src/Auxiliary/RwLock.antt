-- ===== src/Auxiliary/RwLock.antt =====
-- platform/aux/include/aux/rw_lock.hpp: a spinning readers-writer lock on one atomic integer.
-- Each atomic operation on `lock_` is one step; threads interleave in any order, and memory is
-- sequentially consistent. The integer is an ℤ: it stays within the number of threads.
pub mod Exclusion
pub mod Progress
mod Tests
use itex_demo.Base.{
  ℕ, zero, suc, ◌≡◌, Bool, true, false, Option, none, some, List, get_elem?, set, ◌==◌,
  if◌then◌else◌,
}

-- `int64_t`; `negsuc n` is -(n + 1).
pub data ℤ : Type 0 where
  pos : ℕ → ℤ
  negsuc : ℕ → ℤ

unfoldable pub is_negative : ℤ → Bool
is_negative (pos n) = false
is_negative (negsuc n) = true

unfoldable pub add_one : ℤ → ℤ
add_one (pos n) = pos (suc n)
add_one (negsuc zero) = pos 0
add_one (negsuc (suc n)) = negsuc n

unfoldable pub sub_one : ℤ → ℤ
sub_one (pos zero) = negsuc 0
sub_one (pos (suc n)) = pos n
sub_one (negsuc n) = negsuc (suc n)

unfoldable pub same : ℤ → ℤ → Bool
same (pos m) (pos n) = m == n
same (pos m) (negsuc n) = false
same (negsuc m) (pos n) = false
same (negsuc m) (negsuc n) = m == n

-- Where a thread stands: outside; in the loop of `reader_try_lock` with the value it loaded and
-- the attempts left; in the loop of `reader_lock` with the value it loaded; with the lock held for
-- reading; in the loop of `writer_lock`; with the lock held for writing.
pub data Pc : Type 0 where
  idle : Pc
  trying : ℤ → ℕ → Pc
  waiting : ℤ → Pc
  reading : Pc
  claiming : Pc
  writing : Pc

-- What a thread may do next: call an operation, which makes its first load, or run one round of
-- the loop that it is in.
pub data Move : Type 0 where
  reader_try_lock reader_lock writer_lock round reader_unlock writer_unlock : Move

-- `const size_t num_attempts`
abbrev pub num_attempts : ℕ
num_attempts = 1000

-- The value that both reader loops expect: 0 where the loaded value was negative.
unfoldable pub expected : ℤ → ℤ
unfolding is_negative
expected val = if is_negative val then pos 0 else val

-- `lock_.compare_exchange_strong(expect, next)`
unfoldable pub compare_exchange : ℤ → ℤ → ℤ → Bool × ℤ
unfolding same
compare_exchange lock expect next = if same lock expect then (true, next) else (false, lock)

-- One step of a thread on the lock's value; `none` where it cannot make that move. A thread in
-- `trying` with no attempt left has returned false.
unfoldable pub step : Move → Pc → ℤ → Option (Pc × ℤ)
unfolding expected compare_exchange add_one sub_one
step reader_try_lock idle lock = some (trying lock num_attempts, lock)
step reader_lock idle lock = some (waiting lock, lock)
step writer_lock idle lock = some (claiming, lock)
step round (trying val zero) lock = some (idle, lock)
step round (trying val (suc left)) lock =
    let (res, lock') = compare_exchange lock (expected val) (add_one (expected val)) in
    some (if res then reading else trying val left, lock')
step round (waiting val) lock =
    let (res, lock') = compare_exchange lock (expected val) (add_one (expected val)) in
    some (if res then reading else waiting val, lock')
step round claiming lock =
    let (res, lock') = compare_exchange lock (pos 0) (negsuc 0) in
    some (if res then writing else claiming, lock')
step reader_unlock reading lock = some (idle, sub_one lock)
step writer_unlock writing lock = some (idle, pos 0)
step move pc lock = none

pub record System : Type 0 where
  pub lock : ℤ
  pub threads : List Pc

-- The system with thread `i`, at `before`, moved.
pub data Step (s : System) : System → Type 0 where
  pick :
      (i : ℕ) (move : Move) (before after : Pc) (lock : ℤ)
      → get_elem? s.threads i ≡ some before
      → step move before s.lock ≡ some (after, lock)
      → Step s (record { lock = lock; threads = set s.threads i after })
