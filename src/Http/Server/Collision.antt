-- ===== src/Http/Server/Collision.antt =====
-- Two defects of the server's bookkeeping.
use itex_demo.Base.{◌+◌, ap₂, refl, sym, ◌∙◌, ap, true, ◌∷◌, [], ◌++◌, false, arith, some, ◌≡◌, ◌≢◌}
use itex_demo.Http.Server.Conserve.{at, standing, insert-replaces, kill_begin-Kept, process-Kept}
use itex_demo.Http.Server.{
  take_from_queue, reinit, erase_connection, move_found, move_connection_to_delete_queue_nolock,
  schedule_connection_delete, set_running, kill_end, take_connection, List, Connection, ℕ,
  insert_connection, put_connection, kill_begin, find_connection, update_object,
  process_sheduled_connection_delete, Server,
}

find-put : (id a : ℕ) (pool : List (ℕ × ℕ)) → find_connection id (put_connection id a pool) ≡ some a
unfolding find_connection put_connection
find-put id a [] = ground arith
find-put id a ((key, b) ∷ rest) = ground (arith, find-put id a rest)

-- The objects after an update, of the updated one and of another.
update_object-same : (a : ℕ) (c : Connection) (s : Server) → (update_object a c s).objects a ≡ c
unfolding update_object
update_object-same a c s = ground arith

pub update_object-other :
    (a b : ℕ) (c : Connection) (s : Server) → b ≢ a → (update_object a c s).objects b ≡ s.objects b
unfolding update_object
update_object-other a b c s n = ground arith

-- What `kill` does up to its last line, where the connection's id is in the pool.
kill_begin-found :
    (a b : ℕ) (s : Server)
    → (s.objects a).deletion_sheduled ≡ false
    → find_connection (s.objects a).id s.connection_pool ≡ some b
    → kill_begin a s ≡ record (set_running false a s) {
      connections_to_delete = s.connections_to_delete ++ (b ∷ []);
      connection_pool = erase_connection (s.objects a).id s.connection_pool;
    }
unfolding kill_begin schedule_connection_delete move_connection_to_delete_queue_nolock move_found
    set_running update_object
kill_begin-found a b s f e = rw (f, e) refl

insert-pool :
    (b : ℕ) (s : Server)
    → (insert_connection b s).connection_pool ≡ put_connection (s.objects b).id b s.connection_pool
unfolding insert_connection set_running update_object
insert-pool b s = refl

insert-lists :
    (a b : ℕ) (s : Server)
    → ((set_running false a (insert_connection b s)).deleted ≡ s.deleted)
      × ((insert_connection b s).connections_to_delete ≡ s.connections_to_delete)
unfolding insert_connection set_running update_object
insert-lists a b s = (refl, refl)

take-one :
    (a id : ℕ) (s : Server)
    → s.connections_to_delete ≡ a ∷ []
    → take_connection id s ≡ (reinit id a (record s { connections_to_delete = [] }), a)
unfolding take_connection take_from_queue
take-one a id s e = rw e refl

kill_begin-flagged :
    (a : ℕ) (s : Server) → (s.objects a).deletion_sheduled ≡ true → kill_begin a s ≡ s
unfolding kill_begin
kill_begin-flagged a s e = rw e refl

insert-kill_end :
    (a id : ℕ) (s : Server)
    → (s.objects a).id ≡ id
    → let u = kill_end a (insert_connection a s) in
      (find_connection id u.connection_pool ≡ some a) × (kill_begin a u ≡ u)
unfolding kill_end update_object insert_connection
insert-kill_end a id s e =
    let t = insert_connection a s in
    let marked = record (t.objects a) { deletion_sheduled = true } in
    let pool : (update_object a marked t).connection_pool ≡ put_connection id a s.connection_pool =
      insert-pool a s ∙ ap (λ k. put_connection k a s.connection_pool) e in
    (
      rw pool (find-put id a s.connection_pool),
      kill_begin-flagged a (update_object a marked t)
          (ap (λ (c : Connection). c.deletion_sheduled) (update_object-same a marked t)),
    )

reinit-id : (a id : ℕ) (s : Server) → ((reinit id a s).objects a).id ≡ id
unfolding reinit
reinit-id a id s = ap (λ (c : Connection). c.id) (update_object-same a _ s)

-- The defect of ids that are hashes of endpoints: a client whose id is that of another connection,
-- still in its coroutine, takes its place in the pool. When the other one ends, it is this client's
-- connection that goes to the queue and is deleted, while it runs; the other one, which stood in the
-- pool alone and once, is in none of the lists, and so is never deleted.
pub insert_connection-collision :
    (a b : ℕ) (s : Server)
    → a ≢ b
    → (s.objects b).id ≡ (s.objects a).id
    → (s.objects a).deletion_sheduled ≡ false
    → find_connection (s.objects a).id s.connection_pool ≡ some a
    → standing a s ≡ 1
    → let inserted = insert_connection b s in
      let t = process_sheduled_connection_delete (kill_begin a inserted) in
      (find_connection (s.objects a).id inserted.connection_pool ≡ some b)
      × (t.deleted ≡ s.deleted ++ (s.connections_to_delete ++ (b ∷ [])))
      × ((t.objects b).running ≡ true)
      × (standing a t ≡ 0)
unfolding process_sheduled_connection_delete insert_connection set_running
insert_connection-collision a b s n e f own once =
    let started = record (s.objects b) { running = true } in
    let t = insert_connection b s in
    let same : t.objects a ≡ s.objects a = update_object-other b a started _ n in
    let found : find_connection (t.objects a).id t.connection_pool ≡ some b =
      rw (same, ← e, insert-pool b s) (find-put (s.objects b).id b s.connection_pool) in
    let killed =
      kill_begin-found a b t (ap (λ (c : Connection). c.deletion_sheduled) same ∙ f) found in
    let (gone, queue) = insert-lists a b s in
    let left : standing a t + 1 ≡ standing a s + at a b = insert-replaces a b s (rw e own) in
    let apart : at a b ≡ 0 = ground arith in
    let kept = process-Kept a (kill_begin a t) in
    let kept_before = kill_begin-Kept a a t in
    let nowhere : standing a (process_sheduled_connection_delete (kill_begin a t)) ≡ 0 =
      omega (arith, left, apart, kept.0, kept_before.0, once) in
    (
      rw (← same) found,
      rw killed (ap₂ (λ xs ys. xs ++ (ys ++ (b ∷ []))) gone queue),
      rw killed (
          ap (λ (c : Connection). c.running)
            (update_object-other a b (record (t.objects a) { running = false }) t (λ h. n (sym h))
              ∙ update_object-same b started _)),
      nowhere,
    )

-- The defect of the last line of `kill`: the connection is in the queue before its flag is set. An
-- acceptor may take it in between for a new client, whose connection then carries the flag: when
-- that client is gone, `kill` does nothing, and the connection stays in the pool.
pub kill_end-reuse :
    (a id : ℕ) (s : Server)
    → (s.objects a).deletion_sheduled ≡ false
    → s.connections_to_delete ≡ []
    → find_connection (s.objects a).id s.connection_pool ≡ some a
    → let (t, b) = take_connection id (kill_begin a s) in
      let u = kill_end a (insert_connection b t) in
      (b ≡ a) × (find_connection id u.connection_pool ≡ some a) × (kill_begin a u ≡ u)
kill_end-reuse a id s f q e =
    let killed = record (set_running false a s) {
      connections_to_delete = a ∷ [];
      connection_pool = erase_connection (s.objects a).id s.connection_pool;
    } in
    let equal : kill_begin a s ≡ killed = kill_begin-found a a s f e ∙ rw q refl in
    let fresh = reinit id a (record killed { connections_to_delete = [] }) in
    let taken : take_connection id (kill_begin a s) ≡ (fresh, a) =
      ap (take_connection id) equal ∙ take-one a id killed refl in
    let reused = insert-kill_end a id fresh (reinit-id a id _) in
    rw taken (refl, reused.0, reused.1)
