-- ===== src/Http/Parser/Whole.antt =====
-- A whole request from the events of the library.
use itex_demo.Base.{
  ℕ, ◌≡◌, refl, ◌∙◌, ap, sym, true, Option, some, List, [], ◌∷◌, ◌++◌, map, ◌>>=◌, append-nil,
  append_assoc, Option-cases, inl, inr,
}
use itex_demo.Base.Text.{Text}
use itex_demo.Http.Constants.{Method}
use itex_demo.Http.Url.{ParsedUrl, Url, make_url}
use itex_demo.Http.Message.{Flags, Message, Request, clear_request}
use itex_demo.Http.Parser.Headers.{
  Pieces, name_text, value_text, concat, events_of, put_all, AllFilled, after_headers,
  run-events_of,
}
use itex_demo.Http.Parser.{
  to_request, Parser, fresh, put_header, Event, message_begin, url_data, body_data,
  message_complete, State, on_event, on_message_begin, on_url, on_body, on_message_complete, run,
}

-- The events of a request: its line, its headers, its body in pieces, its end.
unfoldable pub request_events : ℕ → Text → List Pieces → List Text → Flags → List Event
unfolding events_of
request_events number url hs body flags =
    message_begin
    ∷ url_data number url
    ∷ (events_of hs ++ (map body_data body ++ (message_complete flags ∷ [])))

-- The parser after a message.
abbrev pub complete : Parser
complete = record after_headers { parsing_complete = true }

abbrev with_body : Text → Request → Request
with_body body req = record req { message = record req.message { body = body } }

put_all-body : (hs : List Pieces) (msg : Message) → (put_all hs msg).body ≡ msg.body
unfolding put_all put_header
put_all-body [] msg = refl
put_all-body (h ∷ hs) msg = put_all-body hs (put_header (name_text h) (value_text h) msg)

module _ (parse_url : Text → Option ParsedUrl) (method_map : ℕ → Option Method) where
  run-append :
      (es fs : List Event) (s : State)
      → run parse_url method_map (es ++ fs) s
        ≡ (run parse_url method_map es s >>= λ t. run parse_url method_map fs t)
  unfolding run
  run-append [] fs s = refl
  run-append (e ∷ es) fs s = elim (Option-cases (on_event parse_url method_map e s)) [
    | inl n ↦ rw n
    | inr (t, n) ↦ rw n (run-append es fs t)
  ]

  run-body :
      (ts : List Text) (es : List Event) (p : Parser) (req : Request)
      → run parse_url method_map (map body_data ts ++ es) (p, to_request req)
        ≡ run parse_url method_map es
            (p, to_request (with_body (req.message.body ++ concat ts) req))
  unfolding run on_event on_body concat
  run-body [] es p req =
      ap (λ b. run parse_url method_map es (p, to_request (with_body b req)))
        (sym (append-nil req.message.body))
  run-body (x ∷ ts) es p req =
      run-body ts es p (with_body (req.message.body ++ x) req)
      ∙ ap (λ b. run parse_url method_map es (p, to_request (with_body b req)))
          (append_assoc req.message.body x (concat ts))

  -- A cleared request and a cleared parser get from the events of a request exactly what the
  -- events carry: method, URL, the headers in order, the body joined from its pieces, and the
  -- flags; the parser is then complete. The method is one that the program knows, the URL one that
  -- it can parse, and no header's value is empty.
  pub run-request_events :
      (number : ℕ) (url_text : Text) (hs : List Pieces) (body : List Text) (flags : Flags)
      (req : Request) (method : Method) (url : Url)
      → method_map number ≡ some method
      → make_url parse_url url_text ≡ some url
      → AllFilled hs
      → run parse_url method_map
          (request_events number url_text hs body flags)
          (fresh, to_request (clear_request req))
        ≡ some (
          complete,
          to_request (record (clear_request req) {
            method = some method;
            url = url;
            message = record (put_all hs (clear_request req).message) {
              body = concat body;
              flags = flags;
            };
          }),
        )
  unfolding run on_event on_message_begin on_url on_message_complete request_events put_all
      clear_request concat
  run-request_events number url_text hs body flags req method url em eu f =
      let started = record (clear_request req) { method = some method; url = url } in
      let headed = record started { message = put_all hs started.message } in
      let rest = map body_data body ++ (message_complete flags ∷ []) in
      rw (
        eu,
        em,
        run-append (events_of hs) rest,
        run-events_of parse_url method_map hs (to_request started) f,
        run-body body (message_complete flags ∷ []) after_headers headed,
        put_all-body hs started.message,
      )
