-- ===== src/Http/Server/Tests.antt =====
-- Witnesses and tests of the server's connections.
use itex_demo.Http.Server.Stopping.{stop-Reach}
use itex_demo.Http.Server.Collision.{kill_end-reuse, insert_connection-collision}
use itex_demo.Http.Server.{
  addresses_of, stop, put_connection, kill_end, reinit, update_object, kill_begin, new_server,
  set_running, take_from_queue, Server, insert_connection, take_connection, find_connection,
  process_sheduled_connection_delete,
}
use itex_demo.Base.{refl, ◌++◌, arith, some, false, true, ◌≡◌, ◌∷◌, ◌≤◌, []}
use itex_demo.Http.Server.Places.{
  Reach-one_place, Reach, start, next, accepts, inserts, kills, places, FreshReach, fresh_start,
  fresh_next,
}
use itex_demo.Http.Server.Conserve.{given, standing}

-- A server with one client; it was accepted with the id 7 and runs, and another one that is gone.
abbrev one_running : Server
one_running = insert_connection 0 (take_connection 7 new_server).0

abbrev one_gone : Server
one_gone = kill_begin 0 one_running

-- A client in the pool, and a connection that an acceptor made for a client with the same id.
abbrev two_alike : Server
two_alike = record {
  connection_pool = (7, 0) ∷ [];
  connections_to_delete = [];
  objects = λ _. record { id = 7; running = true; deletion_sheduled = false };
  made = 2;
  deleted = [];
}

run_one : Reach (record { server = one_running; accepted = [] })
unfolding take_connection take_from_queue new_server
run_one = next (next start (accepts 7 _ refl)) (inserts 0 [] [] _ refl refl)

run_gone : Reach (record { server = one_gone; accepted = [] })
run_gone = next run_one (kills 0 _ refl)

fresh_gone : FreshReach (record { server = one_gone; accepted = [] })
unfolding take_connection take_from_queue new_server find_connection reinit update_object
fresh_gone =
    fresh_next
      (fresh_next (fresh_next fresh_start (accepts 7 _ refl) tt) (inserts 0 [] [] _ refl refl) refl)
      (kills 0 _ refl) tt

Reach-one_place_example : places 0 (record { server = one_gone; accepted = [] }) ≤ given 0 one_gone
Reach-one_place_example = Reach-one_place 0 run_gone

stop-Reach_example :
    (t : Server) × (stop 1 one_running ≡ some t)
    × (t.connection_pool ≡ [])
    × (t.connections_to_delete ≡ [])
    × (t.deleted
        ≡ one_running.deleted
          ++ (one_running.connections_to_delete ++ addresses_of one_running.connection_pool))
unfolding insert_connection set_running update_object put_connection take_connection take_from_queue
    reinit new_server
stop-Reach_example = stop-Reach 1 run_one (omega arith)

insert_connection-collision_example :
    let inserted = insert_connection 1 two_alike in
    let t = process_sheduled_connection_delete (kill_begin 0 inserted) in
    (find_connection 7 inserted.connection_pool ≡ some 1)
    × (t.deleted ≡ 1 ∷ [])
    × ((t.objects 1).running ≡ true)
    × (standing 0 t ≡ 0)
unfolding find_connection standing
insert_connection-collision_example =
    insert_connection-collision 0 1 two_alike (λ e. omega (arith, e)) refl refl refl refl

kill_end-reuse_example :
    let (t, b) = take_connection 9 (kill_begin 0 two_alike) in
    let u = kill_end 0 (insert_connection b t) in
    (b ≡ 0) × (find_connection 9 u.connection_pool ≡ some 0) × (kill_begin 0 u ≡ u)
unfolding find_connection
kill_end-reuse_example = kill_end-reuse 0 9 two_alike refl refl refl
