-- ===== src/Sqldb/Connection/Timeout.antt =====
-- A timeout, and what is left of the connection behind it.
use itex_demo.Sqldb.Connection.Waiting.{wait_pg_results-fires, AllPartial}
use itex_demo.Base.{if◌then◌else◌, Option, refl, ◌++◌, some, [], none, false, Bool, true, ◌≡◌}
use itex_demo.Sqldb.Connection.{
  tries_again, query_exception, Arrival, Request, send_and_wait, poll_connection, async_pg_query,
  status_of, polling_ok, polling_failed, polling_active, connection_exception, polling_writing,
  connection_other, bad, throws, new_connection, polling_reading, after_poll, connect_again, ◌∷◌, ℕ,
  status, List, poll_loop, async_connect, connect_loop, Connection, Libpq, Attempt, Poll,
}

-- Polls without an error that do not end the loop.
abbrev pub AllPending : List Poll → Type 0
AllPending [] = Unit
AllPending (polling_reading fires read_error ∷ polls) =
    (fires ≡ false) × (read_error ≡ false) × AllPending polls
AllPending (polling_writing fires read_error ∷ polls) =
    (fires ≡ false) × (read_error ≡ false) × AllPending polls
AllPending (polling_active ∷ polls) = AllPending polls
AllPending (polling_failed ∷ polls) = ⊥
AllPending (polling_ok ∷ polls) = ⊥

-- The timer fires in a poll behind such polls.
poll_loop-fires :
    (before after : List Poll) (read_error : Bool)
    → AllPending before
    → poll_loop false (before ++ (polling_reading true read_error ∷ after))
      ≡ (throws connection_exception, true)
unfolding poll_loop after_poll
poll_loop-fires [] after e h = refl
poll_loop-fires (polling_reading f r ∷ polls) after e h =
    rw (h.0, h.1) (poll_loop-fires polls after e h.2)
poll_loop-fires (polling_writing f r ∷ polls) after e h =
    rw (h.0, h.1) (poll_loop-fires polls after e h.2)
poll_loop-fires (polling_active ∷ polls) after e h = poll_loop-fires polls after e h
poll_loop-fires (polling_failed ∷ polls) after e h = elim h [ ]
poll_loop-fires (polling_ok ∷ polls) after e h = elim h [ ]

module _ {H : Type 0} (pq : Libpq H) where
  status-timed_out : (c : Connection H) → c.timeout_occurred ≡ true → status pq c ≡ bad
  unfolding status
  status-timed_out c e =
      elim c.pg_handle
        as (λ (o : Option H).
          (elim o [
            | none ↦ bad
            | some h ↦ if c.timeout_occurred then bad else status_of pq (pq.pq_status h)
          ])
          ≡ bad) [ none ↦ refl | some h ↦ rw e refl ]

  connect-timed_out :
      (hex : List ℕ) (attempt : Attempt H) (c : Connection H)
      → c.timeout_occurred ≡ true
      → async_connect pq hex attempt c
        ≡ (throws connection_exception, record c { pg_handle = attempt.started })
  unfolding async_connect
  connect-timed_out hex attempt c e =
      rw (status-timed_out (record c { pg_handle = attempt.started }) e, async_connect) refl

  -- A connection whose timer fired once is never connected: however often `async_connect` is tried
  -- anew and whatever libpq then says, each try fails.
  connect_loop-timed_out :
      (hex : List ℕ) (attempts : List (Attempt H)) (c : Connection H)
      → c.timeout_occurred ≡ true
      → (c' : Connection H) × (connect_loop pq hex attempts c ≡ tries_again c')
        × (c'.timeout_occurred ≡ true)
        × (status pq c' ≡ bad)
  unfolding connect_loop connect_again
  connect_loop-timed_out hex [] c e =
      (c, rw (status-timed_out c e, connect_loop) refl, e, status-timed_out c e)
  connect_loop-timed_out hex (attempt ∷ attempts) c e =
      rw (status-timed_out c e, connect_loop)
        (rw (connect-timed_out hex attempt c e)
          (connect_loop-timed_out hex attempts (record c { pg_handle = attempt.started }) e))

  -- An attempt to connect in which the timer fires.
  abbrev pub slow : H → List Poll → Bool → List Poll → Attempt H
  slow h before read_error after = record {
    started = some h;
    nonblocking_fails = false;
    assign_fails = false;
    polls = before ++ (polling_reading true read_error ∷ after);
  }

  connect-fires :
      (hex : List ℕ) (h : H) (before after : List Poll) (read_error : Bool)
      → pq.pq_status h ≡ connection_other
      → AllPending before
      → async_connect pq hex (slow h before read_error after) new_connection ≡ (
        throws connection_exception,
        record { pg_handle = some h; prepared_statements = []; timeout_occurred = true },
      )
  unfolding async_connect new_connection status status_of poll_connection
  connect-fires hex h before after read_error e p =
      rw (e, async_connect) (rw (poll_loop-fires before after read_error p) refl)

  -- The defect of the loop that connects: the flag of a timeout is never taken back. Where the timer
  -- fires in the first attempt, while libpq is connecting, then behind any number of later attempts,
  -- whatever libpq makes of them, the loop is still trying: it has not ended with a connection, no
  -- exception has left it, it does not wait, and the connection is bad.
  pub connect_loop-first_timeout :
      (hex : List ℕ) (h : H) (before after : List Poll) (read_error : Bool)
      (attempts : List (Attempt H))
      → pq.pq_status h ≡ connection_other
      → AllPending before
      → (c : Connection H) × (connect_loop pq hex
            (slow h before read_error after ∷ attempts)
            new_connection
          ≡ tries_again c)
        × (c.timeout_occurred ≡ true)
        × (status pq c ≡ bad)
  unfolding connect_loop connect_again new_connection status
  connect_loop-first_timeout hex h before after read_error attempts e p =
      rw (connect-fires hex h before after read_error e p)
        (connect_loop-timed_out hex attempts _ refl)

  -- A query whose wait the timer ends throws, and the connection is bad from then on, which is when a
  -- transaction deletes it.
  pub async_pg_query-fires :
      (c : Connection H) (h h' : H) (request : Request) (before after : List Arrival) (a : Arrival)
      → c.pg_handle ≡ some h
      → c.timeout_occurred ≡ false
      → pq.exchange h request ≡ ((true, before ++ (a ∷ after)), h')
      → AllPartial before
      → a.fires ≡ true
      → let (done, c') = async_pg_query pq request c in
        (done ≡ throws query_exception) × (status pq c' ≡ bad)
  unfolding async_pg_query send_and_wait
  async_pg_query-fires c h h' request before after a e t x p f =
      rw (e, async_pg_query)
        (rw (x, t) (rw (wait_pg_results-fires before after a p f) (refl, status-timed_out _ refl)))
