-- ===== src/Http/Server/Stopping.antt =====
-- `Server::stop` ends, since every connection of the pool stands there under its own id.
use itex_demo.Http.Server.Keys.{KeysFit, KeysFit-id, running-id, stop_all-empty, Reach-Fits_keys}
use itex_demo.Base.{
  append_assoc, ap₂, append-nil, ◌++◌, ◌≤◌, zero, suc, length, ==_iff, sym, ap, if◌then◌else◌, ◌==◌,
  false, ◌∙◌, [], ◌∷◌, none, refl, arith, ◌≡◌,
}
use itex_demo.Http.Server.{
  stop_one, process_sheduled_connection_delete, stop_all, stop, find_connection,
  move_connection_to_delete_queue_nolock, addresses_of, some, List, update_object, set_running,
  erase_connection, Bool, move_found, ℕ, Server,
}
use itex_demo.Http.Server.Places.{Reach, System}

find-first : (id a : ℕ) (rest : List (ℕ × ℕ)) → find_connection id ((id, a) ∷ rest) ≡ some a
unfolding find_connection
find-first id a rest = rw ((==_iff id id).1 refl) refl

erase-first : (id a : ℕ) (rest : List (ℕ × ℕ)) → erase_connection id ((id, a) ∷ rest) ≡ rest
unfolding erase_connection
erase-first id a rest = rw ((==_iff id id).1 refl) refl

-- Moving the first connection of the pool.
move-first :
    (id a : ℕ) (rest : List (ℕ × ℕ)) (s : Server)
    → s.connection_pool ≡ (id, a) ∷ rest
    → move_connection_to_delete_queue_nolock id s ≡ record s {
      connections_to_delete = s.connections_to_delete ++ (a ∷ []);
      connection_pool = rest;
    }
unfolding move_connection_to_delete_queue_nolock move_found
move-first id a rest s e =
    let moved : List (ℕ × ℕ) → Server = λ pool. record s {
      connections_to_delete = s.connections_to_delete ++ (a ∷ []);
      connection_pool = pool;
    } in
    ap (λ found. move_found id found s) (ap (find_connection id) e ∙ find-first id a rest)
    ∙ ap moved (ap (erase_connection id) e ∙ erase-first id a rest)

running-lists :
    (running : Bool) (a : ℕ) (s : Server)
    → let t = set_running running a s in
      (t.connection_pool ≡ s.connection_pool)
      × (t.connections_to_delete ≡ s.connections_to_delete)
      × (t.deleted ≡ s.deleted)
unfolding set_running update_object
running-lists running a s = (refl, refl, refl)

-- The first round of the loop.
stop_one-first :
    (key a : ℕ) (rest : List (ℕ × ℕ)) (s : Server)
    → s.connection_pool ≡ (key, a) ∷ rest
    → (s.objects a).id ≡ key
    → stop_one a s ≡ record (set_running false a s) {
      connections_to_delete = (set_running false a s).connections_to_delete ++ (a ∷ []);
      connection_pool = rest;
    }
unfolding stop_one
stop_one-first key a rest s e f =
    let stopped = set_running false a s in
    ap (λ id. move_connection_to_delete_queue_nolock id stopped) (running-id false a s a ∙ f)
    ∙ move-first key a rest stopped ((running-lists false a s).0 ∙ e)

stop_one-lists :
    (key a : ℕ) (rest : List (ℕ × ℕ)) (s : Server)
    → s.connection_pool ≡ (key, a) ∷ rest
    → (s.objects a).id ≡ key
    → ((stop_one a s).deleted ≡ s.deleted)
      × ((stop_one a s).connections_to_delete ≡ s.connections_to_delete ++ (a ∷ []))
stop_one-lists key a rest s e f =
    let one = stop_one-first key a rest s e f in
    let same = running-lists false a s in
    (
      ap (λ (u : Server). u.deleted) one ∙ same.2,
      ap (λ (u : Server). u.connections_to_delete) one ∙ ap (λ xs. xs ++ (a ∷ [])) same.1,
    )

stop_all-suc :
    (fuel key a : ℕ) (rest : List (ℕ × ℕ)) (s : Server)
    → s.connection_pool ≡ (key, a) ∷ rest
    → stop_all (suc fuel) s ≡ stop_all fuel (stop_one a s)
unfolding stop_all
stop_all-suc fuel key a rest s e =
    ap
      (λ (pool : List (ℕ × ℕ)). elim pool [
        | [] ↦ some s
        | (k, b) ∷ others ↦ stop_all fuel (stop_one b s)
      ])
      e

stop_all-none : (fuel : ℕ) (s : Server) → s.connection_pool ≡ [] → stop_all fuel s ≡ some s
unfolding stop_all
stop_all-none zero s e = ap (λ (pool : List (ℕ × ℕ)). if length pool == 0 then some s else none) e
stop_all-none (suc fuel) s e =
    ap
      (λ (pool : List (ℕ × ℕ)). elim pool [
        | [] ↦ some s
        | (k, b) ∷ others ↦ stop_all fuel (stop_one b s)
      ])
      e

-- The loop on a pool with fitting keys.
stop_all-ends :
    (fuel : ℕ) (pool : List (ℕ × ℕ)) (s : Server)
    → s.connection_pool ≡ pool
    → KeysFit s.objects pool
    → length pool ≤ fuel
    → (t : Server) × (stop_all fuel s ≡ some t)
      × (t.deleted ++ t.connections_to_delete
          ≡ s.deleted ++ (s.connections_to_delete ++ addresses_of pool))
stop_all-ends fuel [] s e h f = (
  s,
  stop_all-none fuel s e,
  ap (λ xs. s.deleted ++ xs) (sym (append-nil s.connections_to_delete)),
)
stop_all-ends zero (x ∷ pool) s e h f = absurd (omega arith)
stop_all-ends (suc fuel) ((key, a) ∷ rest) s e h f =
    let one = stop_one-first key a rest s e h.0 in
    let lists = stop_one-lists key a rest s e h.0 in
    let fit : KeysFit (stop_one a s).objects rest =
      rw one
        (KeysFit-id s.objects (set_running false a s).objects rest (running-id false a s) h.1) in
    let (t, ends, all) =
      stop_all-ends fuel rest (stop_one a s) (ap (λ (u : Server). u.connection_pool) one) fit
        (omega (arith, f)) in
    (
      t,
      stop_all-suc fuel key a rest s e ∙ ends,
      all
          ∙ ap₂ (λ xs ys. xs ++ (ys ++ addresses_of rest)) lists.0 lists.1
          ∙ ap (λ xs. s.deleted ++ xs)
              (append_assoc s.connections_to_delete (a ∷ []) (addresses_of rest)),
    )

-- In every reachable state `stop` ends, after one round of its loop for each connection of the pool:
-- the pool and the queue are empty, and what was in them is deleted, the queue first.
pub stop-Reach :
    (fuel : ℕ) {s : System}
    → Reach s
    → length s.server.connection_pool ≤ fuel
    → (t : Server) × (stop fuel s.server ≡ some t)
      × (t.connection_pool ≡ [])
      × (t.connections_to_delete ≡ [])
      × (t.deleted
          ≡ s.server.deleted
            ++ (s.server.connections_to_delete ++ addresses_of s.server.connection_pool))
unfolding stop process_sheduled_connection_delete
stop-Reach fuel {s} r f =
    let (t, ends, all) =
      stop_all-ends fuel s.server.connection_pool s.server refl (Reach-Fits_keys r) f in
    (
      process_sheduled_connection_delete t,
      rw ends refl,
      stop_all-empty fuel s.server t ends,
      refl,
      all,
    )
