-- ===== src/Auxiliary/RwLock/Exclusion.antt =====
-- What holds in every state that threads can reach by the operations of the lock.
use itex_demo.Base.{
  ℕ, zero, suc, ◌+◌, ◌≤◌, ◌≡◌, ◌≢◌, refl, ◌⊎◌, inl, inr, some, List, [], ◌∷◌, length, length-set,
  get_elem?, arith, replicate, length-replicate, ◌∙◌,
}
use itex_demo.Base.Family.{total, total-set, weight-le, weights-le}
use itex_demo.Auxiliary.RwLock.{
  ℤ, pos, negsuc, Pc, idle, trying, waiting, reading, claiming, writing, Move, reader_try_lock,
  reader_lock, writer_lock, round, reader_unlock, writer_unlock, step, System, Step, pick,
}

abbrev pub reads : Pc → ℕ
reads reading = 1
reads _ = 0

abbrev pub writes : Pc → ℕ
writes writing = 1
writes _ = 0

-- The lock's value tells who holds it: the number of readers, or -1 for one writer.
abbrev pub Balanced : ℤ → ℕ → ℕ → Type 0
Balanced lock readers writers =
    ((lock ≡ pos readers) × (writers ≡ 0)) ⊎ ((lock ≡ negsuc 0) × (readers ≡ 0) × (writers ≡ 1))

abbrev pub Inv : System → Type 0
Inv s = Balanced s.lock (total reads s.threads) (total writes s.threads)

module _ (r w r' w' : ℕ) (after : Pc) (lock lock' : ℤ) (held : Balanced lock r w) where
  step-Balanced :
      (m : Move) (before : Pc)
      → step m before lock ≡ some (after, lock')
      → reads before ≤ r
      → writes before ≤ w
      → r' + reads before ≡ r + reads after
      → w' + writes before ≡ w + writes after
      → Balanced lock' r' w'
  unfolding step
  step-Balanced reader_try_lock idle e p q a b = ground arith
  step-Balanced reader_lock idle e p q a b = ground arith
  step-Balanced writer_lock idle e p q a b = ground arith
  step-Balanced round (trying val zero) e p q a b = ground arith
  step-Balanced round (trying val (suc left)) e p q a b = ground arith
  step-Balanced round (waiting val) e p q a b = ground arith
  step-Balanced round claiming e p q a b = ground arith
  step-Balanced reader_unlock reading e p q a b = ground arith
  step-Balanced writer_unlock writing e p q a b = ground arith
  step-Balanced _ _ e p q a b = ground arith

-- `n` threads outside a new lock.
abbrev pub start : ℕ → System
start n = record { lock = pos 0; threads = replicate n idle }

pub data Reach (n : ℕ) : System → Type 0 where
  here : Reach n (start n)
  next : {s t : System} → Reach n s → Step s t → Reach n t

total-idle : (weight : Pc → ℕ) (n : ℕ) → weight idle ≡ 0 → total weight (replicate n idle) ≡ 0
total-idle weight zero h = refl
total-idle weight (suc n) h = omega (arith, total-idle weight n h)

Inv-start : (n : ℕ) → Inv (start n)
Inv-start n = ground (arith, total-idle reads n refl, total-idle writes n refl)

Step-Inv : {s t : System} → Inv s → Step s t → Inv t
Step-Inv {s} inv (pick i move before after lock e f) =
    step-Balanced _ _ _ _ after s.lock lock inv move before f (weight-le reads s.threads i before e)
      (weight-le writes s.threads i before e) (total-set reads s.threads i before after e)
      (total-set writes s.threads i before after e)

-- In every reachable state of `n` threads the lock's value is the number of threads that read,
-- with no writer, or -1, with one writer and no reader.
pub Reach-Inv : {n : ℕ} {s : System} → Reach n s → Inv s
Reach-Inv {n} here = Inv-start n
Reach-Inv (next r st) = Step-Inv (Reach-Inv r) st

-- In every reachable state, while one thread holds the lock for writing, no other thread holds it,
-- for reading or for writing.
pub mutual_exclusion :
    {n : ℕ} {s : System} (i j : ℕ) (other : Pc)
    → Reach n s
    → i ≢ j
    → get_elem? s.threads i ≡ some writing
    → get_elem? s.threads j ≡ some other
    → (other ≢ writing) × (other ≢ reading)
mutual_exclusion {s} i j other r h e f = (
  (λ g. grind (arith, Reach-Inv r, weights-le writes s.threads i j writing other h e f)),
  (λ g. grind (
    arith,
    Reach-Inv r,
    weight-le writes s.threads i writing e,
    weight-le reads s.threads j other f,
  )),
)

length-Reach : {n : ℕ} {s : System} → Reach n s → length s.threads ≡ n
length-Reach {n} here = length-replicate n idle
length-Reach (next {s = s} r (pick i move before after lock e f)) =
    length-set s.threads i after ∙ length-Reach r

total-le :
    (weight : Pc → ℕ) → ((p : Pc) → weight p ≤ 1) → (ps : List Pc) → total weight ps ≤ length ps
total-le weight h [] = omega arith
total-le weight h (p ∷ ps) = omega (arith, h p, total-le weight h ps)

reads-le : (p : Pc) → reads p ≤ 1
reads-le reading = omega arith
reads-le _ = omega arith

-- The `int64_t` of the lock never overflows: it lies between -1 and the number of threads.
pub lock_in_range :
    {n : ℕ} {s : System} → Reach n s → (s.lock ≡ negsuc 0) ⊎ ((k : ℕ) × (s.lock ≡ pos k) × (k ≤ n))
lock_in_range {s} r = elim (Reach-Inv r) [
  | inl h ↦
      inr (
        total reads s.threads,
        h.0,
        omega (arith, total-le reads reads-le s.threads, length-Reach r),
      )
  | inr h ↦ inl h.0
]
