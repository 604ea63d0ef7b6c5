-- ===== src/Http/Server/Conserve.antt =====
-- What each operation of the server does to the places where its connection objects stand.
use itex_demo.Base.{
  subst, some-injective, ◌>>=◌, length, zero, ◌∙◌, true, suc, ◌∷◌, some, false, ltb, ◌==◌, ◌≤◌,
  none, refl, Bool, arith, ◌≡◌,
}
use itex_demo.Http.Server.{
  take_from_queue, stop_one, reinit, insert_connection, take_connection, if◌then◌else◌, Option,
  erase_connection, schedule_connection_delete, ◌+◌, update_object, addresses_of, kill_begin,
  put_connection, stop, ℕ, List, move_connection_to_delete_queue_nolock, move_found,
  process_sheduled_connection_delete, [], stop_all, find_connection, set_running, kill_end, Server,
}
use itex_demo.Base.Family.{total, total-append}

abbrev pub at : ℕ → ℕ → ℕ
at a b = if b == a then 1 else 0

-- How often an address stands in the pool, in the queue, or among the deleted ones.
unfoldable pub standing : ℕ → Server → ℕ
standing a s =
    total (at a) (addresses_of s.connection_pool)
    + total (at a) s.connections_to_delete
    + total (at a) s.deleted

-- Whether an address was given out.
unfoldable pub given : ℕ → Server → ℕ
given a s = if ltb a s.made then 1 else 0

erase-total :
    (a id b : ℕ) (pool : List (ℕ × ℕ))
    → find_connection id pool ≡ some b
    → total (at a) (addresses_of (erase_connection id pool)) + at a b
      ≡ total (at a) (addresses_of pool)
unfolding find_connection erase_connection
erase-total a id b [] e = ground arith
erase-total a id b ((key, c) ∷ rest) e = ground (arith, erase-total a id b rest)

put-total :
    (a id b : ℕ) (pool : List (ℕ × ℕ))
    → total (at a) (addresses_of (put_connection id b pool))
      ≤ total (at a) (addresses_of pool) + at a b
unfolding put_connection
put-total a id b [] = ground arith
put-total a id b ((key, c) ∷ rest) = ground (arith, put-total a id b rest)

put-total_fresh :
    (a id b : ℕ) (pool : List (ℕ × ℕ))
    → find_connection id pool ≡ none
    → total (at a) (addresses_of (put_connection id b pool))
      ≡ total (at a) (addresses_of pool) + at a b
unfolding put_connection find_connection
put-total_fresh a id b [] e = ground arith
put-total_fresh a id b ((key, c) ∷ rest) e = ground (arith, put-total_fresh a id b rest)

put-total_found :
    (a id b c : ℕ) (pool : List (ℕ × ℕ))
    → find_connection id pool ≡ some c
    → total (at a) (addresses_of (put_connection id b pool)) + at a c
      ≡ total (at a) (addresses_of pool) + at a b
unfolding put_connection find_connection
put-total_found a id b c [] e = ground arith
put-total_found a id b c ((key, d) ∷ rest) e = ground (arith, put-total_found a id b c rest)

-- A connection put in another's place.
pub insert-replaces :
    (a b : ℕ) (s : Server)
    → find_connection (s.objects b).id s.connection_pool ≡ some a
    → standing a (insert_connection b s) + 1 ≡ standing a s + at a b
unfolding insert_connection set_running update_object standing
insert-replaces a b s e =
    let same : at a a ≡ 1 = ground arith in
    omega (arith, same, put-total_found a (s.objects b).id b a s.connection_pool e)

-- Nothing appears or is lost.
abbrev pub Kept : ℕ → Server → Server → Type 0
Kept a s t = (standing a t ≡ standing a s) × (t.made ≡ s.made)

move_found-Kept :
    (a id : ℕ) (s : Server) (found : Option ℕ)
    → find_connection id s.connection_pool ≡ found
    → Kept a s (move_found id found s)
unfolding move_found standing
move_found-Kept a id s none e = (refl, refl)
move_found-Kept a id s (some b) e = (
  omega (
    arith,
    erase-total a id b s.connection_pool e,
    total-append (at a) s.connections_to_delete (b ∷ []),
  ),
  refl,
)

move-Kept : (a id : ℕ) (s : Server) → Kept a s (move_connection_to_delete_queue_nolock id s)
unfolding move_connection_to_delete_queue_nolock
move-Kept a id s = move_found-Kept a id s (find_connection id s.connection_pool) refl

running-Kept : (a : ℕ) (running : Bool) (b : ℕ) (s : Server) → Kept a s (set_running running b s)
unfolding set_running update_object standing
running-Kept a running b s = (refl, refl)

if-Kept :
    (a : ℕ) (s t u : Server) (b : Bool) → Kept a s t → Kept a s u → Kept a s (if b then t else u)
if-Kept a s t u true h k = h
if-Kept a s t u false h k = k

pub kill_begin-Kept : (a b : ℕ) (s : Server) → Kept a s (kill_begin b s)
unfolding kill_begin schedule_connection_delete
kill_begin-Kept a b s =
    let stopped = set_running false b s in
    let (p, m) = move-Kept a (s.objects b).id stopped in
    let (q, n) = running-Kept a false b s in
    if-Kept a s s _ (s.objects b).deletion_sheduled (refl, refl) (p ∙ q, m ∙ n)

pub kill_end-Kept : (a b : ℕ) (s : Server) → Kept a s (kill_end b s)
unfolding kill_end update_object standing
kill_end-Kept a b s = (refl, refl)

pub process-Kept : (a : ℕ) (s : Server) → Kept a s (process_sheduled_connection_delete s)
unfolding process_sheduled_connection_delete standing
process-Kept a s = (omega (arith, total-append (at a) s.deleted s.connections_to_delete), refl)

stop_one-Kept : (a b : ℕ) (s : Server) → Kept a s (stop_one b s)
unfolding stop_one
stop_one-Kept a b s =
    let stopped = set_running false b s in
    let (p, m) = move-Kept a (stopped.objects b).id stopped in
    let (q, n) = running-Kept a false b s in (p ∙ q, m ∙ n)

stop_all-Kept : (a fuel : ℕ) (s t : Server) → stop_all fuel s ≡ some t → Kept a s t
unfolding stop_all
stop_all-Kept a zero s t e =
    elim (length s.connection_pool == 0)
        as (λ b. (if b then some s else none) ≡ some t → Kept a s t) [
          | true ↦ λ h. subst (λ u. Kept a s u) (some-injective _ _ h) (refl, refl)
          | false ↦ λ h. cc
        ]
      e
stop_all-Kept a (suc fuel) s t e =
    elim s.connection_pool
        as (λ (pool : List (ℕ × ℕ)).
          (elim pool [ [] ↦ some s | (key, b) ∷ rest ↦ stop_all fuel (stop_one b s) ]) ≡ some t
          → Kept a s t) [
            | [] ↦ λ h. subst (λ u. Kept a s u) (some-injective _ _ h) (refl, refl)
            | (key, b) ∷ rest ↦ λ h.
                let (p, m) = stop_all-Kept a fuel (stop_one b s) t h in
                let (q, n) = stop_one-Kept a b s in (p ∙ q, m ∙ n)
          ]
      e

pub stop-Kept : (a fuel : ℕ) (s t : Server) → stop fuel s ≡ some t → Kept a s t
unfolding stop
stop-Kept a fuel s t e = found-Kept (stop_all fuel s) refl e
  where
    found-Kept :
        (found : Option Server)
        → stop_all fuel s ≡ found
        → (do s' ← found; some (process_sheduled_connection_delete s')) ≡ some t
        → Kept a s t
    found-Kept none f h = cc
    found-Kept (some s') f h =
        let (p, m) = process-Kept a s' in
        let (q, n) = stop_all-Kept a fuel s s' f in
        subst (λ u. Kept a s u) (some-injective _ _ h) (p ∙ q, m ∙ n)

take_from_queue-exact :
    (a : ℕ) (s : Server) (queue : List ℕ)
    → s.connections_to_delete ≡ queue
    → standing a (take_from_queue queue s).0 + at a (take_from_queue queue s).1 + given a s
      ≡ standing a s + given a (take_from_queue queue s).0
unfolding take_from_queue standing given
take_from_queue-exact a s [] q = rw q (ground arith)
take_from_queue-exact a s (x ∷ queue) q = rw q (omega arith)

reinit-Kept : (a id b : ℕ) (s : Server) → Kept a s (reinit id b s)
unfolding reinit update_object standing
reinit-Kept a id b s = (refl, refl)

pub take_connection-exact :
    (a id : ℕ) (s : Server)
    → standing a (take_connection id s).0 + at a (take_connection id s).1 + given a s
      ≡ standing a s + given a (take_connection id s).0
unfolding take_connection given
take_connection-exact a id s =
    let taken = take_from_queue s.connections_to_delete s in
    let k = reinit-Kept a id taken.1 taken.0 in
    rw (k.0, k.1) (take_from_queue-exact a s s.connections_to_delete refl)

pub insert-places :
    (a b : ℕ) (s : Server) → standing a (insert_connection b s) ≤ standing a s + at a b
unfolding insert_connection set_running update_object standing
insert-places a b s = omega (arith, put-total a (s.objects b).id b s.connection_pool)

pub insert-exact :
    (a b : ℕ) (s : Server)
    → find_connection (s.objects b).id s.connection_pool ≡ none
    → standing a (insert_connection b s) ≡ standing a s + at a b
unfolding insert_connection set_running update_object standing
insert-exact a b s f = omega (arith, put-total_fresh a (s.objects b).id b s.connection_pool f)

pub insert-made : (b : ℕ) (s : Server) → (insert_connection b s).made ≡ s.made
unfolding insert_connection set_running update_object
insert-made b s = refl
