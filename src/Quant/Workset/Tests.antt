-- ===== src/Quant/Workset/Tests.antt =====
-- A workset of capacity 2 over a list buffer, one subscriber, and a run on it.
use itex_demo.Base.{length, ◌<◌, ℕ, ◌≡◌, refl, true, some, List, [], ◌∷◌, arith}
use itex_demo.Quant.Workset.Buffer.{list_buffer}
use itex_demo.Quant.Workset.Invariant.{IsValid, make-IsValid, get_subscriber-IsValid}
use itex_demo.Quant.Workset.Mailbox.{
  Call, publish, receive, available, duplicate, leave, Reply, answers,
}
use itex_demo.Quant.Workset.Trace.{run, step, view}
use itex_demo.Quant.Workset.Refines.{run-answers}
use itex_demo.Quant.Workset.Overtaken.{clone-overtaken}
use itex_demo.Quant.Workset.{
  write_index, push_all, Workset, make, get_subscriber, push, try_pop, num_available, clone,
  release_subscriber, find, assign, remove, step_back,
}

abbrev small : Workset (list_buffer ℕ)
unfolding make get_subscriber
small = (get_subscriber (list_buffer ℕ) (make (list_buffer ℕ) 2)).0

small-IsValid : IsValid (list_buffer ℕ) small
unfolding make get_subscriber
small-IsValid =
    get_subscriber-IsValid (list_buffer ℕ) (make (list_buffer ℕ) 2) (make-IsValid (list_buffer ℕ) 2)

abbrev script : List (Call ℕ)
script =
    publish 7
    ∷ publish 8
    ∷ publish 9
    ∷ available 0
    ∷ receive true 0
    ∷ duplicate 0 []
    ∷ publish 4
    ∷ receive true 1
    ∷ receive true 0
    ∷ duplicate 0 (5 ∷ [])
    ∷ receive true 2
    ∷ receive true 0
    ∷ leave 0
    ∷ receive true 0
    ∷ []

-- The oldest entry, 7, is lost; the clone goes on where the original stands. A push while the second
-- clone is made costs it the entry 4, which the original still reads.
script_replies :
    run (list_buffer ℕ) small script
    ≡ Reply.done
      ∷ Reply.done
      ∷ Reply.done
      ∷ Reply.count 2
      ∷ Reply.received (some 8)
      ∷ Reply.created 1
      ∷ Reply.done
      ∷ Reply.received (some 9)
      ∷ Reply.received (some 9)
      ∷ Reply.created 2
      ∷ Reply.received (some 5)
      ∷ Reply.received (some 4)
      ∷ Reply.done
      ∷ Reply.fault
      ∷ []
unfolding small run step push try_pop num_available clone release_subscriber find assign remove
    step_back push_all write_index
script_replies = refl

run-answers_example : run (list_buffer ℕ) small script ≡ answers (view (list_buffer ℕ) small) script
unfolding make get_subscriber
run-answers_example = run-answers (list_buffer ℕ) small script (omega arith) small-IsValid

-- The window holds 7 and 8, and the subscriber has read 7.
abbrev one_read : Workset (list_buffer ℕ)
one_read = record {
  capacity = 2;
  workset = (2, 7 ∷ 8 ∷ []);
  publishers = [];
  subscribers = record { address = 0; current_index = 1 } ∷ [];
  next_address = 1;
}

clone-overtaken_example :
    (ws : Workset (list_buffer ℕ)) × (clone (list_buffer ℕ) one_read 0 (9 ∷ []) ≡ some (ws, 1))
    × (find 0 ws.subscribers ≡ some 0)
    × (find 1 ws.subscribers ≡ some 1)
    × (0 < length ws.workset.1)
unfolding find
clone-overtaken_example =
    clone-overtaken (list_buffer ℕ) one_read 0 0 9
      (record { sized = refl; bounded = omega arith; within = (omega arith, omega arith, tt) }) refl
      refl
