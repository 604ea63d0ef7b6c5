-- ===== src/Sqldb/Connection/Waiting.antt =====
-- Waiting for the server's results.
use itex_demo.Base.{
  ◌∙◌, append_assoc, refl, arith, not, append-nil, true, [], ◌++◌, ◌||◌, if◌then◌else◌, ◌∷◌, false,
  ◌≡◌,
}
use itex_demo.Sqldb.Connection.{
  query_exception, throws, completes, List, Arrival, QueryResult, wait_pg_results,
}

-- An arrival without an error, and what it brings: nothing while libpq is busy.
pub record IsQuiet (a : Arrival) : Type 0 where
  pub in_time : a.fires ≡ false
  pub readable : a.read_error ≡ false
  pub well_read : a.consumed ≡ true

abbrev pub brought : Arrival → List QueryResult
brought a = if a.busy then [] else a.received

-- Arrivals without an error, none of which is the end.
abbrev pub AllPartial : List Arrival → Type 0
AllPartial [] = Unit
AllPartial (a ∷ arrivals) = (IsQuiet a × ((a.busy || not a.is_last) ≡ true)) × AllPartial arrivals

abbrev pub all_brought : List Arrival → List QueryResult
all_brought [] = []
all_brought (a ∷ arrivals) = brought a ++ all_brought arrivals

-- Such arrivals add what they bring, and the wait goes on.
pub wait_pg_results-append :
    (results : List QueryResult) (before after : List Arrival)
    → AllPartial before
    → wait_pg_results false results (before ++ after)
      ≡ wait_pg_results false (results ++ all_brought before) after
unfolding wait_pg_results
wait_pg_results-append results [] after h = rw (append-nil results) refl
wait_pg_results-append results (a ∷ before) after h =
    rw (h.0.0.in_time, h.0.0.readable, h.0.0.well_read, wait_pg_results)
      (ground (
        arith,
        h.0.1,
        wait_pg_results-append results before after h.1,
        wait_pg_results-append (results ++ a.received) before after h.1,
        append_assoc results a.received (all_brought before),
      ))

-- A wait that no error and no timeout ends gives all results that arrive, in order, up to the end.
pub wait_pg_results_complete :
    (before after : List Arrival) (end : Arrival)
    → AllPartial before
    → IsQuiet end
    → end.busy ≡ false
    → end.is_last ≡ true
    → wait_pg_results false [] (before ++ (end ∷ after))
      ≡ (completes (all_brought before ++ end.received), false)
unfolding wait_pg_results
wait_pg_results_complete before after end h q b l =
    wait_pg_results-append [] before (end ∷ after) h
    ∙ rw (q.in_time, q.readable, q.well_read, b, l, wait_pg_results) refl

-- The timer fires before the end.
pub wait_pg_results-fires :
    (before after : List Arrival) (a : Arrival)
    → AllPartial before
    → a.fires ≡ true
    → wait_pg_results false [] (before ++ (a ∷ after)) ≡ (throws query_exception, true)
unfolding wait_pg_results
wait_pg_results-fires before after a h f =
    wait_pg_results-append [] before (a ∷ after) h ∙ rw (f, wait_pg_results) refl
