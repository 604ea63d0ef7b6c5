-- ===== src/Auxiliary/RwLock/Tests.antt =====
-- Two threads: the first reads and leaves, and the second, which loaded the 1, is left spinning
-- on a free lock.
use itex_demo.Base.{◌≡◌, ◌≢◌, refl, some, [], ◌∷◌, arith}
use itex_demo.Auxiliary.RwLock.Exclusion.{Reach, here, next, mutual_exclusion}
use itex_demo.Auxiliary.RwLock.Progress.{rounds, rounds-waiting_stale}
use itex_demo.Auxiliary.RwLock.{
  pos, negsuc, idle, waiting, reading, claiming, writing, reader_lock, writer_lock, round,
  reader_unlock, expected, System, pick, step,
}

first_in : Reach 2 (record { lock = pos 1; threads = reading ∷ idle ∷ [] })
unfolding step
first_in =
    next (next here (pick 0 reader_lock idle (waiting (pos 0)) (pos 0) refl refl))
      (pick 0 round (waiting (pos 0)) reading (pos 1) refl refl)

abbrev stranded : System
stranded = record { lock = pos 0; threads = idle ∷ waiting (pos 1) ∷ [] }

stranded-Reach : Reach 2 stranded
unfolding step
stranded-Reach =
    next (next first_in (pick 1 reader_lock idle (waiting (pos 1)) (pos 1) refl refl))
      (pick 0 reader_unlock reading idle (pos 0) refl refl)

abbrev claimed : System
claimed = record { lock = negsuc 0; threads = writing ∷ waiting (pos 1) ∷ [] }

claimed-Reach : Reach 2 claimed
unfolding step
claimed-Reach =
    next (next stranded-Reach (pick 0 writer_lock idle claiming (pos 0) refl refl))
      (pick 0 round claiming writing (negsuc 0) refl refl)

rounds-waiting_stale_example : rounds 5000 (waiting (pos 1)) (pos 0) ≡ some (waiting (pos 1), pos 0)
unfolding expected
rounds-waiting_stale_example = rounds-waiting_stale 5000 (pos 1) (pos 0) (λ e. ground arith)

mutual_exclusion_example : (waiting (pos 1) ≢ writing) × (waiting (pos 1) ≢ reading)
mutual_exclusion_example =
    mutual_exclusion 0 1 (waiting (pos 1)) claimed-Reach (omega arith) refl refl
