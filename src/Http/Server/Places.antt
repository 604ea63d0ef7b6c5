-- ===== src/Http/Server/Places.antt =====
-- Where the server's connection objects stand, however its acceptors, its connections and its timer
-- interleave. An acceptor holds its connection between taking it and putting it into the pool.
use itex_demo.Http.Server.Conserve.{
  at, standing, given, Kept, kill_begin-Kept, kill_end-Kept, process-Kept, stop-Kept,
  take_connection-exact, insert-places, insert-exact, insert-made,
}
use itex_demo.Base.{◌++◌, ◌∷◌, some, ◌≤◌, none, refl, arith, ◌≡◌}
use itex_demo.Http.Server.{
  insert_connection, take_connection, ◌+◌, kill_begin, stop, ℕ, List,
  process_sheduled_connection_delete, [], find_connection, kill_end, Server, new_server,
}
use itex_demo.Base.Family.{total, total-append}

-- The server and the connections that acceptors hold.
pub record System : Type 0 where
  pub server : Server
  pub accepted : List ℕ

-- The steps. A connection may be killed at any time, also more than once, and the last line of
-- `kill` may run late.
pub data Step (s : System) : System → Type 0 where
  accepts :
      (id : ℕ) (t : System)
      → t ≡ record {
        server = (take_connection id s.server).0;
        accepted = (take_connection id s.server).1 ∷ s.accepted;
      }
      → Step s t
  inserts :
      (a : ℕ) (before after : List ℕ) (t : System)
      → s.accepted ≡ before ++ (a ∷ after)
      → t ≡ record { server = insert_connection a s.server; accepted = before ++ after }
      → Step s t
  kills : (a : ℕ) (t : System) → t ≡ record s { server = kill_begin a s.server } → Step s t
  marks : (a : ℕ) (t : System) → t ≡ record s { server = kill_end a s.server } → Step s t
  deletes :
      (t : System)
      → t ≡ record s { server = process_sheduled_connection_delete s.server }
      → Step s t
  stops :
      (fuel : ℕ) (server : Server) (t : System)
      → stop fuel s.server ≡ some server
      → t ≡ record s { server = server }
      → Step s t

pub data Reach : System → Type 0 where
  start : Reach (record { server = new_server; accepted = [] })
  next : {s t : System} → Reach s → Step s t → Reach t

unfoldable pub places : ℕ → System → ℕ
places a s = standing a s.server + total (at a) s.accepted

-- A step in which a new client's id is not the id of a connection in the pool.
abbrev pub Fresh : {s t : System} → Step s t → Type 0
Fresh {s} (inserts a before after t e f) =
    find_connection (s.server.objects a).id s.server.connection_pool ≡ none
Fresh (accepts id t e) = Unit
Fresh (kills a t e) = Unit
Fresh (marks a t e) = Unit
Fresh (deletes t e) = Unit
Fresh (stops fuel server t f e) = Unit

Kept-places :
    (a : ℕ) (s t : System) (server : Server)
    → t ≡ record s { server = server }
    → Kept a s.server server
    → places a t + given a s.server ≡ places a s + given a t.server
unfolding places given
Kept-places a s t server e k = rw e (rw (k.0, k.1) refl)

Step-exact :
    (a : ℕ) {s t : System} (st : Step s t)
    → Fresh st
    → places a t + given a s.server ≡ places a s + given a t.server
unfolding places given standing
Step-exact a {s} (accepts id t e) c = rw e (omega (arith, take_connection-exact a id s.server))
Step-exact a {s} (inserts b before after t e f) c = rw f (
    rw (e, insert-made b s.server)
      (omega (
        arith,
        insert-exact a b s.server c,
        total-append (at a) before after,
        total-append (at a) before (b ∷ after),
      )))
Step-exact a {s} (kills b t e) c = Kept-places a s t _ e (kill_begin-Kept a b s.server)
Step-exact a {s} (marks b t e) c = Kept-places a s t _ e (kill_end-Kept a b s.server)
Step-exact a {s} (deletes t e) c = Kept-places a s t _ e (process-Kept a s.server)
Step-exact a {s} (stops fuel server t f e) c =
    Kept-places a s t server e (stop-Kept a fuel s.server server f)

Step-places :
    (a : ℕ) {s t : System}
    → Step s t
    → places a t + given a s.server ≤ places a s + given a t.server
unfolding places given standing
Step-places a {s} (inserts b before after t e f) = rw f (
    rw (e, insert-made b s.server)
      (omega (
        arith,
        insert-places a b s.server,
        total-append (at a) before after,
        total-append (at a) before (b ∷ after),
      )))
Step-places a (accepts id t e) = omega (arith, Step-exact a (accepts id t e) tt)
Step-places a (kills b t e) = omega (arith, Step-exact a (kills b t e) tt)
Step-places a (marks b t e) = omega (arith, Step-exact a (marks b t e) tt)
Step-places a (deletes t e) = omega (arith, Step-exact a (deletes t e) tt)
Step-places a (stops fuel server t f e) = omega (arith, Step-exact a (stops fuel server t f e) tt)

-- However acceptors, ending connections, the timer and `stop` interleave, and whatever the ids, a
-- connection object stands in one place at most: with one acceptor, in the pool once, in the queue
-- once, or it was deleted, once. One that was not made stands nowhere.
pub Reach-one_place : (a : ℕ) {s : System} → Reach s → places a s ≤ given a s.server
unfolding places standing new_server
Reach-one_place a start = omega arith
Reach-one_place a (next r st) = omega (arith, Reach-one_place a r, Step-places a st)

pub data FreshReach : System → Type 0 where
  fresh_start : FreshReach (record { server = new_server; accepted = [] })
  fresh_next : {s t : System} → FreshReach s → (st : Step s t) → Fresh st → FreshReach t

-- Where no client comes with the id of a connection in the pool, no connection object is lost: each
-- that was made is with an acceptor, in the pool, in the queue, or deleted, and in one place only.
pub FreshReach-one_place : (a : ℕ) {s : System} → FreshReach s → places a s ≡ given a s.server
unfolding places standing new_server given
FreshReach-one_place a fresh_start = ground arith
FreshReach-one_place a (fresh_next r st c) =
    omega (arith, FreshReach-one_place a r, Step-exact a st c)
