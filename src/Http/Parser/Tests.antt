-- ===== src/Http/Parser/Tests.antt =====
-- A request in pieces, a header without a value, and copied messages.
use itex_demo.Http.Parser.Feeding.{feed-Ends}
use itex_demo.Http.Parser.Feed.{
  Executed, errno_failed, errno_ok, fed, errno_paused, one_more, unpaused, is_paused, add_used,
  feed_step, Takes, Ends, feed, Library,
}
use itex_demo.Base.{
  length-take, inl, ◌⊎◌, ◌<◌, zero, drop, take, ◌≤◌, ◌-◌, true, leb, if◌then◌else◌, length, suc,
  min, false, arith, ℕ, ◌≡◌, refl, none, some, Option, [], ◌∷◌,
}
use itex_demo.Base.Text.{Text, text}
use itex_demo.Http.Constants.{Method}
use itex_demo.Http.Url.{
  ParsedUrl, Url, make_url, assign_field_value, assign_port_value, assign_fields,
}
use itex_demo.Http.Message.{
  Request, new_request, copy_request, assign_request, clear_request, no_flags,
}
use itex_demo.Http.Parser.Headers.{
  Pieces, events_of, put_all, concat, value_text, AllFilled, after_headers, run-events_of,
  run-empty_value,
}
use itex_demo.Http.Parser.Whole.{request_events, complete, run-request_events}
use itex_demo.Http.Parser.Copies.{make_parser-copy_request}
use itex_demo.Http.Parser.{to_request, update, header_field, header_value, fresh, run, make_parser}

abbrev nothing_found : ParsedUrl
nothing_found = record { field = λ f. none; parsed_port = none }

abbrev parse : Text → Option ParsedUrl
parse t = some nothing_found

abbrev methods : ℕ → Option Method
methods n = some Method.get

abbrev host : Pieces
host = record {
  first = text "Ho";
  names = text "st" ∷ [];
  values = text "local" ∷ text "host" ∷ [];
}

abbrev accept : Pieces
accept = record { first = text "Accept"; names = []; values = text "*" ∷ [] }

both_filled : AllFilled (host ∷ accept ∷ [])
unfolding value_text concat
both_filled = (refl, (refl, tt))

run-events_of_example :
    run parse methods (events_of (host ∷ accept ∷ [])) (fresh, to_request new_request)
    ≡ some (after_headers, update (put_all (host ∷ accept ∷ [])) (to_request new_request))
run-events_of_example =
    run-events_of parse methods (host ∷ accept ∷ []) (to_request new_request) both_filled

run-empty_value_example :
    run parse methods
      (header_field (text "Cookie") ∷ header_value [] ∷ events_of (host ∷ accept ∷ []))
      (fresh, to_request new_request)
    ≡ some (
      after_headers,
      update
          (put_all (record host { first = text "CookieHo" } ∷ accept ∷ []))
          (to_request new_request),
    )
run-empty_value_example =
    run-empty_value parse methods (text "Cookie") host (accept ∷ []) (to_request new_request)
      both_filled

abbrev target : Url
target = record {
  full = text "/a";
  schema = [];
  host = [];
  port = 0;
  path = [];
  query = [];
  fragment = [];
  userinfo = [];
}

target_made : make_url parse (text "/a") ≡ some target
unfolding make_url assign_fields assign_field_value assign_port_value
target_made = refl

run-request_events_example :
    run parse methods
      (request_events 1 (text "/a") (host ∷ accept ∷ []) (text "x" ∷ text "y" ∷ []) no_flags)
      (fresh, to_request (clear_request new_request))
    ≡ some (
      complete,
      to_request (record (clear_request new_request) {
        method = some Method.get;
        url = target;
        message = record (put_all (host ∷ accept ∷ []) (clear_request new_request).message) {
          body = text "xy";
          flags = no_flags;
        };
      }),
    )
unfolding concat
run-request_events_example =
    run-request_events parse methods 1 (text "/a") (host ∷ accept ∷ []) (text "x" ∷ text "y" ∷ [])
      no_flags new_request Method.get target refl target_made both_filled

abbrev posted : Request
posted = record new_request {
  method = some Method.post;
  message = record new_request.message { body = text "xy" };
}

make_parser-copy_request_example :
    (make_parser (to_request (copy_request posted)) ≡ none)
    × ((copy_request posted).method ≡ posted.method)
    × ((copy_request posted).url ≡ posted.url)
    × ((copy_request posted).remote_endpoint ≡ posted.remote_endpoint)
    × ((copy_request posted).message.headers ≡ posted.message.headers)
    × ((copy_request posted).message.body ≡ posted.message.body)
    × ((copy_request posted).message.flags ≡ posted.message.flags)
    × (make_parser (to_request (assign_request new_request posted)) ≡ some fresh)
    × (make_parser (to_request (clear_request (assign_request new_request posted))) ≡ some fresh)
make_parser-copy_request_example = make_parser-copy_request posted

-- A parser that pauses before the first byte, then takes one byte more than its number says.
abbrev counted : ℕ → Text → Executed ℕ
counted zero bytes = record { used = 0; errno = errno_paused; complete = false; next = 2 }
counted (suc l) bytes = record {
  used = min (suc l) (length bytes);
  errno = if leb (suc l) (length bytes) then errno_paused else errno_ok;
  complete = leb (suc l) (length bytes);
  next = suc (l - length bytes);
}

abbrev counting : Library ℕ
counting = record { execute = counted; unpause = λ l. l }

counted-bounded : (l : ℕ) (bytes : Text) → (counted l bytes).used ≤ length bytes
counted-bounded zero bytes = omega arith
counted-bounded (suc l) bytes = omega arith

counted-resumes :
    (l : ℕ) (bytes : Text)
    → let e = counted l bytes in
      let f = counted e.next (take 1 (drop e.used bytes)) in
      e.errno ≡ errno_paused
      → e.complete ≡ false
      → e.used < length bytes
      → (0 < f.used) ⊎ (f.errno ≡ errno_failed)
counted-resumes zero bytes p c h = inl (omega (arith, h, length-take 1 bytes))
counted-resumes (suc l) bytes p c h =
    let ok : errno_ok ≡ errno_paused = rw c at p in absurd (ground arith)

counted-stays_failed :
    (l : ℕ) (bytes more : Text)
    → (counted l bytes).errno ≡ errno_failed
    → ((counted (counted l bytes).next more).used ≡ 0)
      × ((counted (counted l bytes).next more).errno ≡ errno_failed)
counted-stays_failed zero bytes more e = cc
counted-stays_failed (suc l) bytes more e = absurd (ground arith)

counting-Takes : Takes counting
counting-Takes = record {
  bounded = counted-bounded;
  resumes = counted-resumes;
  stays_failed = counted-stays_failed;
}

feed_counts : feed counting 5 false 0 (1 ∷ 2 ∷ 3 ∷ 4 ∷ []) ≡ fed 2 true 1
unfolding feed feed_step add_used is_paused unpaused one_more
feed_counts = refl

feed-Ends_example :
    Ends counting (1 ∷ 2 ∷ 3 ∷ 4 ∷ []) (feed counting 5 false 0 (1 ∷ 2 ∷ 3 ∷ 4 ∷ []))
feed-Ends_example = feed-Ends counting counting-Takes 5 false 0 (1 ∷ 2 ∷ 3 ∷ 4 ∷ []) (omega arith)
