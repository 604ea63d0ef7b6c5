-- ===== src/Quant/Workset/Refines.antt =====
-- No sequence of calls tells a workset from the mailboxes that it stands for.
use itex_demo.Base.{◌^◌, ◌<◌, ◌≡◌, refl, ap, ap₂, ◌∙◌, List, [], ◌∷◌}
use itex_demo.Quant.Workset.Buffer.{CircularBuffer}
use itex_demo.Quant.Workset.Invariant.{IsValid}
use itex_demo.Quant.Workset.Mailbox.{
  Call, publish, subscribe, receive, available, duplicate, leave, answers,
}
use itex_demo.Quant.Workset.{Workset}
use itex_demo.Quant.Workset.Trace.{step, run, view, Agrees}
use itex_demo.Quant.Workset.Agreement.{
  publish-Agrees, subscribe-Agrees, leave-Agrees, receive-Agrees, available-Agrees,
  duplicate-Agrees,
}

module _ {A : Type 0} (cb : CircularBuffer A) where
  step-Agrees :
      (ws : Workset cb) (c : Call A) → ws.capacity < 2 ^ 64 → IsValid cb ws → Agrees cb ws c
  step-Agrees ws (publish entry) small v = publish-Agrees cb ws entry v
  step-Agrees ws subscribe small v = subscribe-Agrees cb ws v
  step-Agrees ws (receive locked address) small v = receive-Agrees cb ws locked address v
  step-Agrees ws (available address) small v = available-Agrees cb ws address small v
  step-Agrees ws (duplicate address between) small v = duplicate-Agrees cb ws address between v
  step-Agrees ws (leave address) small v = leave-Agrees cb ws address v

  -- A call keeps the invariant: every index stays within the window, the window within the
  -- capacity, and every subscriber's address below the next one to be given out. The capacity is
  -- a `size_t`.
  pub step-IsValid :
      (ws : Workset cb) (c : Call A)
      → ws.capacity < 2 ^ 64
      → IsValid cb ws
      → IsValid cb (step cb ws c).0 × ((step cb ws c).0.capacity ≡ ws.capacity)
  step-IsValid ws c small v = let (valid, _, _, kept) = step-Agrees ws c small v in (valid, kept)

  -- Whatever the order of pushes, reads, counts, clones and releases, a valid workset whose
  -- capacity is a `size_t` gives the replies of the mailboxes that it stands for: each subscriber
  -- reads, in order and once each, the entries pushed since it came, save that the oldest unread
  -- ones are lost when more than the capacity are waiting. Each call is one step but the clone, which
  -- holds no lock and may be overtaken by any number of pushes: the clone's mailbox is then the
  -- window without as many of its oldest entries as the original was past when it was read.
  pub run-answers :
      (ws : Workset cb) (cs : List (Call A))
      → ws.capacity < 2 ^ 64
      → IsValid cb ws
      → run cb ws cs ≡ answers (view cb ws) cs
  unfolding run answers
  run-answers ws [] small v = refl
  run-answers ws (c ∷ cs) small v =
      let (valid, reply, seen, kept) = step-Agrees ws c small v in
      ap₂ ◌∷◌ reply
        (run-answers (step cb ws c).0 cs (rw kept small) valid ∙ ap (λ m. answers m cs) seen)
