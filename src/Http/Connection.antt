-- ===== src/Http/Connection.antt =====
-- platform/http/src/connection.cpp: the coroutine of `Connection::start`. What the parser has read and
-- what the handler makes of it are a list of turns, which ends where no further request has come; a
-- read that fails or a stop from outside ends the coroutine there, as one that `closes`. Texts are
-- bytes, and headers come in the order in which the map gives them.
pub mod Reading
pub mod StatusLine
pub mod RoundTrip
pub mod Serving
mod Tests
use itex_demo.Base.Decimal.{to_string}
use itex_demo.Http.Constants.{code_500_internal_server_error, status_text}
use itex_demo.Http.Message.{
  f_connection_close, get_flag, clear_response, Request, assign_response, Response,
}
use itex_demo.Base.Text.{text, Text}
use itex_demo.Base.{
  zero, ◌%◌, ◌/◌, length, none, false, ◌+◌, ltb, if◌then◌else◌, [], ◌++◌, ◌>>=◌, ◌∷◌, suc, true,
  some, Option, List, ℕ, Bool,
}

-- What `create_handler` of the factory does.
pub data Creation : Type 0 where
  created not_ready : Creation
  creation_throws : Text → Creation

-- What `process_request` of the handler does, with the text of its exception.
pub data Outcome : Type 0 where
  responds : Response → Outcome
  process_throws : Text → Outcome

-- A request, and what comes of it: the creation of the handler, where there is none yet, the handler's
-- response, whether the timer fires before that, and whether the socket refuses what is written.
pub record Turn : Type 0 where
  pub request : Request
  pub creation : Creation
  pub outcome : Outcome
  pub fires : Bool
  pub write_error : Bool

-- The `catch` around the handler.
unfoldable pub internal_error : Text → Response → Response
internal_error what r = record {
  message = record (r.message) { body = what };
  status_code = some code_500_internal_server_error;
}

unfoldable pub process : Turn → Response → Response
process t response = elim t.outcome [
  | process_throws what ↦ internal_error what response
  | responds res ↦
      let assigned = assign_response response res in
      if t.fires then internal_error (text "Processing timeout") assigned else assigned
]

-- The inner `try`, with whether there is a handler before and behind it.
unfoldable pub handle : Bool → Turn → Response → Response × Bool
handle true t response = (process t response, true)
handle false t response = elim t.creation [
  | created ↦ (process t response, true)
  | not_ready ↦ (
    internal_error (text "Request handler not ready yet. Please try again later.") response,
    false,
  )
  | creation_throws what ↦ (internal_error what response, false)
]

abbrev pub crlf : Text
crlf = 13 ∷ 10 ∷ []

unfoldable pub header_lines : List (Text × Text) → Text → Text
header_lines [] rest = rest
header_lines ((name, value) ∷ headers) rest =
    name ++ (58 ∷ 32 ∷ (value ++ (13 ∷ 10 ∷ header_lines headers rest)))

-- The text that is written; `none` is `std::out_of_range`, thrown for a status without a text.
unfoldable pub response_text : Response → Option Text
response_text r = do
  code ← r.status_code
  status ← status_text code
  some (
      text "HTTP/1.1 "
      ++ (status
          ++ (13
              ∷ 10
              ∷ header_lines r.message.headers (
                  text "Content-Length: "
                  ++ (to_string (length r.message.body) ++ (13 ∷ 10 ∷ 13 ∷ 10 ∷ r.message.body))))))

pub data Ending : Type 0 where
  waits closes : Ending

-- The end of a turn: what is thrown for a missing status, the write, and whether the client asked to
-- close, with what the loop does behind it.
unfoldable pub deliver : Option Text → Bool → Bool → List Text × Ending → List Text × Ending
deliver none write_error drops more = ([], closes)
deliver (some written) true drops more = ([], closes)
deliver (some written) false true more = (written ∷ [], closes)
deliver (some written) false false (more, ending) = (written ∷ more, ending)

-- The loop: what is written, and how it ends.
unfoldable pub serve : Bool → Response → List Turn → List Text × Ending
serve has_handler response [] = ([], waits)
serve has_handler response (t ∷ turns) =
    let (res, has_handler') = handle has_handler t (clear_response response) in
    deliver (response_text res) t.write_error (get_flag f_connection_close t.request.message.flags)
      (serve has_handler' res turns)
