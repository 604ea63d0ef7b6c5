-- ===== src/Http/Parser.antt =====
-- platform/http/src/parser.cpp: the callbacks that turn the events of the http_parser library into
-- a message. The library is not part of the repository: its calls of the callbacks are a list of
-- events, and what it knows of methods and URLs is given by parameters.
-- `none` is an exception that leaves a callback or the constructor.
pub mod Feed
pub mod Feeding
pub mod Headers
pub mod Whole
pub mod Copies
mod Tests
use itex_demo.Base.{
  ℕ, Bool, true, false, Option, none, some, List, [], ◌∷◌, ◌++◌, if◌then◌else◌, ◌>>=◌,
}
use itex_demo.Base.Text.{Text, is_empty}
use itex_demo.Http.Constants.{Method, StatusCode, num_to_status_code, status_code_of}
use itex_demo.Http.Router.{put_param}
use itex_demo.Http.Url.{ParsedUrl, Url, make_url}
use itex_demo.Http.Message.{
  Flags, MessageType, base_message, request_message, response_message, Message, Request, Response,
}

-- The message of a parser, as the class that it is of.
pub data Target : Type 0 where
  to_request : Request → Target
  to_response : Response → Target

abbrev pub message_of : Target → Message
message_of (to_request req) = req.message
message_of (to_response res) = res.message

abbrev pub update : (Message → Message) → Target → Target
update change (to_request req) = to_request (record req { message = change req.message })
update change (to_response res) = to_response (record res { message = change res.message })

-- `class Parser`, without the library's objects; `current_header_` is a name and a value.
pub record Parser : Type 0 where
  pub current_name : Text
  pub current_value : Text
  pub parsing_complete : Bool
  pub headers_parsing_complete : Bool

-- What `clear` and the constructor leave.
abbrev pub fresh : Parser
fresh = record {
  current_name = [];
  current_value = [];
  parsing_complete = false;
  headers_parsing_complete = false;
}

-- The test on the message's type in the constructor and in `clear`.
unfoldable pub make_parser : Target → Option Parser
make_parser target = elim (message_of target).type [
  | base_message ↦ none
  | request_message ↦ some fresh
  | response_message ↦ some fresh
]

-- `message_->headers()[name] = value`
unfoldable pub put_header : Text → Text → Message → Message
unfolding put_param
put_header name value msg = record msg { headers = put_param name value msg.headers }

-- A call that the library makes; for a URL with the method's number, for a status with the code,
-- at the end with the flags.
pub data Event : Type 0 where
  message_begin : Event
  url_data : ℕ → Text → Event
  status_data : ℕ → Event
  header_field : Text → Event
  header_value : Text → Event
  headers_complete : Event
  body_data : Text → Event
  message_complete : Flags → Event

abbrev pub State : Type 0
State = Parser × Target

unfoldable pub on_message_begin : State → State
on_message_begin (p, target) =
    (record p { parsing_complete = false; headers_parsing_complete = false }, target)

-- The part that `on_header_field` and `on_headers_complete` share.
unfoldable pub store_header : State → State
unfolding put_header
store_header (p, target) = if is_empty p.current_value then (p, target) else (
  record p { current_name = []; current_value = [] },
  update (put_header p.current_name p.current_value) target,
)

unfoldable pub append_name : Text → State → State
append_name data_text (p, target) =
    (record p { current_name = p.current_name ++ data_text }, target)

unfoldable pub on_header_field : Text → State → State
unfolding store_header append_name
on_header_field data_text s = append_name data_text (store_header s)

unfoldable pub on_header_value : Text → State → State
on_header_value data_text (p, target) =
    (record p { current_value = p.current_value ++ data_text }, target)

unfoldable pub finish_headers : State → State
finish_headers (p, target) = (record p { headers_parsing_complete = true }, target)

unfoldable pub on_headers_complete : State → State
unfolding store_header finish_headers
on_headers_complete s = finish_headers (store_header s)

unfoldable pub on_body : Text → State → State
on_body data_text (p, target) =
    (p, update (λ msg. record msg { body = msg.body ++ data_text }) target)

unfoldable pub on_message_complete : Flags → State → State
on_message_complete flags (p, target) =
    (record p { parsing_complete = true }, update (λ msg. record msg { flags = flags }) target)

-- `on_status`, which is set for a response alone.
unfoldable pub on_status : ℕ → State → Option State
unfolding status_code_of
on_status code (p, to_request req) = some (p, to_request req)
on_status code (p, to_response res) = do
  known ← status_code_of code num_to_status_code
  some (p, to_response (record res { status_code = some known }))

module _ (parse_url : Text → Option ParsedUrl) (method_map : ℕ → Option Method) where
  -- `on_url`, which is set for a request alone.
  unfoldable pub on_url : ℕ → Text → State → Option State
  unfolding make_url
  on_url number data_text (p, to_response res) = some (p, to_response res)
  on_url number data_text (p, to_request req) = do
    url ← make_url parse_url data_text
    method ← method_map number
    some (p, to_request (record req { url = url; method = some method }))

  unfoldable pub on_event : Event → State → Option State
  unfolding on_url on_status on_message_begin on_header_field on_header_value on_headers_complete
      on_body on_message_complete
  on_event message_begin s = some (on_message_begin s)
  on_event (url_data number data_text) s = on_url number data_text s
  on_event (status_data code) s = on_status code s
  on_event (header_field data_text) s = some (on_header_field data_text s)
  on_event (header_value data_text) s = some (on_header_value data_text s)
  on_event headers_complete s = some (on_headers_complete s)
  on_event (body_data data_text) s = some (on_body data_text s)
  on_event (message_complete flags) s = some (on_message_complete flags s)

  -- The callbacks in the order of the events.
  unfoldable pub run : List Event → State → Option State
  unfolding on_event
  run [] s = some s
  run (e ∷ es) s = on_event e s >>= λ t. run es t
