-- ===== src/Http/Server/Keys.antt =====
-- The keys of the server's pool are the ids of the connections.
use itex_demo.Http.Server.Collision.{update_object-other}
use itex_demo.Base.{
  zero, suc, some-injective, subst, ◌>>=◌, length, ==_iff, sym, ap, if◌then◌else◌, ◌==◌, false, ◌≢◌,
  ◌∙◌, [], ◌∷◌, none, refl, arith, ◌≡◌,
}
use itex_demo.Http.Server.{
  stop_one, reinit, process_sheduled_connection_delete, take_connection, new_server,
  take_from_queue, stop_all, stop, find_connection, move_connection_to_delete_queue_nolock,
  addresses_of, some, List, schedule_connection_delete, true, update_object, Option, kill_end,
  set_running, erase_connection, Bool, put_connection, insert_connection, move_found, ℕ, kill_begin,
  Server, Connection,
}
use itex_demo.Http.Server.Places.{
  Reach, start, next, accepts, inserts, kills, marks, deletes, stops, Reach-one_place, places,
  System,
}
use itex_demo.Http.Server.Conserve.{at, standing, given}
use itex_demo.Base.Family.{total}

abbrev pub KeysFit : (ℕ → Connection) → List (ℕ × ℕ) → Type 0
KeysFit objects [] = Unit
KeysFit objects ((key, a) ∷ rest) = ((objects a).id ≡ key) × KeysFit objects rest

pub KeysFit-id :
    (f g : ℕ → Connection) (pool : List (ℕ × ℕ))
    → ((b : ℕ) → (g b).id ≡ (f b).id)
    → KeysFit f pool
    → KeysFit g pool
KeysFit-id f g [] e h = tt
KeysFit-id f g ((key, a) ∷ rest) e h = (e a ∙ h.0, KeysFit-id f g rest e h.1)

-- Of an object that the pool does not have, all may change.
KeysFit-update :
    (a : ℕ) (c : Connection) (s : Server) (pool : List (ℕ × ℕ))
    → total (at a) (addresses_of pool) ≡ 0
    → KeysFit s.objects pool
    → KeysFit (update_object a c s).objects pool
KeysFit-update a c s [] n h = tt
KeysFit-update a c s ((key, b) ∷ rest) n h =
    let other : b ≢ a = ground arith in
    (
      ap (λ (d : Connection). d.id) (update_object-other a b c s other) ∙ h.0,
      KeysFit-update a c s rest (omega (arith, n)) h.1,
    )

KeysFit-put :
    (f : ℕ → Connection) (id a : ℕ) (pool : List (ℕ × ℕ))
    → (f a).id ≡ id
    → KeysFit f pool
    → KeysFit f (put_connection id a pool)
unfolding put_connection
KeysFit-put f id a [] e h = (e, tt)
KeysFit-put f id a ((key, c) ∷ rest) e h =
    elim (key == id)
        as (λ b.
          ((key == id) ≡ b)
          → KeysFit f (if b then (key, a) ∷ rest else (key, c) ∷ put_connection id a rest)) [
            | true ↦ λ same. (e ∙ sym ((==_iff key id).0 same), h.1)
            | false ↦ λ other. (h.0, KeysFit-put f id a rest e h.1)
          ]
      refl

KeysFit-erase :
    (f : ℕ → Connection) (id : ℕ) (pool : List (ℕ × ℕ))
    → KeysFit f pool
    → KeysFit f (erase_connection id pool)
unfolding erase_connection
KeysFit-erase f id [] h = tt
KeysFit-erase f id ((key, b) ∷ rest) h =
    elim (key == id) as (λ t. KeysFit f (if t then rest else (key, b) ∷ erase_connection id rest)) [
      | true ↦ h.1
      | false ↦ (h.0, KeysFit-erase f id rest h.1)
    ]

-- A server whose pool's keys are its connections' ids.
abbrev pub Fits : Server → Type 0
Fits s = KeysFit s.objects s.connection_pool

pub running-id :
    (running : Bool) (a : ℕ) (s : Server) (b : ℕ)
    → ((set_running running a s).objects b).id ≡ (s.objects b).id
unfolding set_running update_object
running-id running a s b = ground arith

kill_end-id : (a : ℕ) (s : Server) (b : ℕ) → ((kill_end a s).objects b).id ≡ (s.objects b).id
unfolding kill_end update_object
kill_end-id a s b = ground arith

running-Fits : (running : Bool) (a : ℕ) (s : Server) → Fits s → Fits (set_running running a s)
unfolding set_running update_object
running-Fits running a s h =
    KeysFit-id s.objects (set_running running a s).objects s.connection_pool
      (running-id running a s) h

kill_end-Fits : (a : ℕ) (s : Server) → Fits s → Fits (kill_end a s)
unfolding kill_end update_object
kill_end-Fits a s h =
    KeysFit-id s.objects (kill_end a s).objects s.connection_pool (kill_end-id a s) h

move_found-Fits : (id : ℕ) (found : Option ℕ) (s : Server) → Fits s → Fits (move_found id found s)
unfolding move_found
move_found-Fits id none s h = h
move_found-Fits id (some a) s h = KeysFit-erase s.objects id s.connection_pool h

kill_begin-Fits : (a : ℕ) (s : Server) → Fits s → Fits (kill_begin a s)
unfolding kill_begin schedule_connection_delete move_connection_to_delete_queue_nolock
kill_begin-Fits a s h =
    let stopped = set_running false a s in
    let id = (s.objects a).id in
    elim (s.objects a).deletion_sheduled
      as (λ t.
        Fits
          (if t then s else move_found id (find_connection id stopped.connection_pool) stopped)) [
            | true ↦ h
            | false ↦
                move_found-Fits id (find_connection id stopped.connection_pool) stopped
                  (running-Fits false a s h)
          ]

insert-Fits : (a : ℕ) (s : Server) → Fits s → Fits (insert_connection a s)
unfolding insert_connection
insert-Fits a s h =
    let pool = put_connection (s.objects a).id a s.connection_pool in
    running-Fits true a (record s { connection_pool = pool })
      (KeysFit-put s.objects (s.objects a).id a s.connection_pool refl h)

-- A loop that ends leaves no connection in the pool.
pub stop_all-empty : (fuel : ℕ) (s t : Server) → stop_all fuel s ≡ some t → t.connection_pool ≡ []
unfolding stop_all
stop_all-empty zero s t e = empty_pool s.connection_pool refl e
  where
    empty_pool :
        (pool : List (ℕ × ℕ))
        → s.connection_pool ≡ pool
        → (if length pool == 0 then some s else none) ≡ some t
        → t.connection_pool ≡ []
    empty_pool [] p h = subst (λ u. u.connection_pool ≡ []) (some-injective _ _ h) p
    empty_pool (x ∷ pool) p h = ground arith
stop_all-empty (suc fuel) s t e =
    loop (λ a. stop_all-empty fuel (stop_one a s) t) s.connection_pool refl e
  where
    loop :
        ((a : ℕ) → stop_all fuel (stop_one a s) ≡ some t → t.connection_pool ≡ [])
        → (pool : List (ℕ × ℕ)) → s.connection_pool ≡ pool
        → (elim pool [ [] ↦ some s | (key, a) ∷ rest ↦ stop_all fuel (stop_one a s) ]) ≡ some t
        → t.connection_pool ≡ []
    loop ih [] p h = subst (λ u. u.connection_pool ≡ []) (some-injective _ _ h) p
    loop ih ((key, a) ∷ rest) p h = ih a h

stop-Fits : (fuel : ℕ) (s t : Server) → stop fuel s ≡ some t → Fits t
unfolding stop process_sheduled_connection_delete
stop-Fits fuel s t e = stopped (stop_all fuel s) refl e
  where
    stopped :
        (found : Option Server)
        → stop_all fuel s ≡ found
        → (do s' ← found; some (process_sheduled_connection_delete s')) ≡ some t
        → Fits t
    stopped none f h = cc
    stopped (some u) f h =
        subst (λ (v : Server). Fits v) (some-injective _ _ h) (rw (stop_all-empty fuel s u f) tt)

-- A connection that is in the queue, or not made yet, is not in the pool.
taken-absent :
    {s : System}
    → Reach s
    → (queue : List ℕ) → s.server.connections_to_delete ≡ queue
    → let a = (take_from_queue queue s.server).1 in
      total (at a) (addresses_of s.server.connection_pool) ≡ 0
unfolding take_from_queue places given standing
taken-absent {s} r [] q = ground (arith, Reach-one_place s.server.made r)
taken-absent {s} r (a ∷ queue) q =
    let front : total (at a) s.server.connections_to_delete ≡ total (at a) (a ∷ queue) =
      ap (total (at a)) q in
    ground (arith, Reach-one_place a r, front)

take_from-Fits :
    {s : System} (id : ℕ)
    → Reach s
    → Fits s.server
    → (queue : List ℕ) → s.server.connections_to_delete ≡ queue
    → Fits (reinit id (take_from_queue queue s.server).1 (take_from_queue queue s.server).0)
unfolding take_from_queue reinit update_object
take_from-Fits {s} id r h [] q =
    KeysFit-update s.server.made _ s.server s.server.connection_pool (taken-absent r [] q) h
take_from-Fits {s} id r h (a ∷ queue) q =
    KeysFit-update a _ s.server s.server.connection_pool (taken-absent r (a ∷ queue) q) h

take-Fits : {s : System} (id : ℕ) → Reach s → Fits s.server → Fits (take_connection id s.server).0
unfolding take_connection
take-Fits {s} id r h = take_from-Fits id r h s.server.connections_to_delete refl

process-Fits : (s : Server) → Fits s → Fits (process_sheduled_connection_delete s)
unfolding process_sheduled_connection_delete
process-Fits s h = h

-- In every reachable state a connection stands in the pool under its own id.
pub Reach-Fits_keys : {s : System} → Reach s → Fits s.server
unfolding new_server
Reach-Fits_keys start = tt
Reach-Fits_keys (next {s} r (accepts id t e)) = rw e (take-Fits id r (Reach-Fits_keys r))
Reach-Fits_keys (next {s} r (inserts a before after t e f)) =
    rw f (insert-Fits a s.server (Reach-Fits_keys r))
Reach-Fits_keys (next {s} r (kills a t e)) = rw e (kill_begin-Fits a s.server (Reach-Fits_keys r))
Reach-Fits_keys (next {s} r (marks a t e)) = rw e (kill_end-Fits a s.server (Reach-Fits_keys r))
Reach-Fits_keys (next {s} r (deletes t e)) = rw e (process-Fits s.server (Reach-Fits_keys r))
Reach-Fits_keys (next {s} r (stops fuel server t f e)) = rw e (stop-Fits fuel s.server server f)
