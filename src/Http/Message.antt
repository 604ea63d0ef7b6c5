-- ===== src/Http/Message.antt =====
-- platform/http/src/message.cpp, request.cpp and response.cpp: the messages of the HTTP library.
-- A member that a constructor leaves without a value is `none` until it is assigned.
-- The bits of `flags_` are named by the http_parser library; here each has its own Boolean.
mod Tests
use itex_demo.Base.{ℕ, Bool, true, false, Option, none, some, List, [], ◌∷◌, ◌||◌}
use itex_demo.Base.Text.{Text}
use itex_demo.Http.Constants.{Method, StatusCode}
use itex_demo.Http.Url.{Url, empty_url}

-- The macros `F_...` that message.cpp names.
pub data Flag : Type 0 where
  f_chunked f_connection_keep_alive f_connection_close f_trailing f_upgrade f_skipbody : Flag

abbrev pub same_flag : Flag → Flag → Bool
same_flag f_chunked f_chunked = true
same_flag f_connection_keep_alive f_connection_keep_alive = true
same_flag f_connection_close f_connection_close = true
same_flag f_trailing f_trailing = true
same_flag f_upgrade f_upgrade = true
same_flag f_skipbody f_skipbody = true
same_flag _ _ = false

-- `class Message::Flags`
abbrev pub Flags : Type 0
Flags = Flag → Bool

-- `Flags(0)`
abbrev pub no_flags : Flags
no_flags f = false

-- `(flags_ & flag_name) != 0`
unfoldable pub get_flag : Flag → Flags → Bool
get_flag flag flags = flags flag

-- `flags_ |= flag_name`, the body of the functions that take a value.
unfoldable pub set_flag : Flag → Bool → Flags → Flags
set_flag flag val flags = λ f. same_flag flag f || flags f

-- `enum class Message::Type`
pub data MessageType : Type 0 where
  base_message request_message response_message : MessageType

abbrev pub HeadersMap : Type 0
HeadersMap = List (Text × Text)

-- `class Message`
pub record Message : Type 0 where
  pub type : MessageType
  pub headers : HeadersMap
  pub body : Text
  pub flags : Flags

-- `Message()`
abbrev pub new_message : Message
new_message = record { type = base_message; headers = []; body = []; flags = no_flags }

-- `Message::operator=(const Message&)`
unfoldable pub assign_message : Message → Message → Message
assign_message this msg = record this { headers = msg.headers; body = msg.body; flags = msg.flags }

-- `Message::clear`
unfoldable pub clear_message : Message → Message
clear_message msg = record msg { headers = []; body = []; flags = no_flags }

pub record RemoteEndpoint : Type 0 where
  pub address : Text
  pub port : Option ℕ

-- `class Request`
pub record Request : Type 0 where
  pub message : Message
  pub method : Option Method
  pub url : Url
  pub remote_endpoint : RemoteEndpoint

-- `Request()`
unfoldable pub new_request : Request
new_request = record {
  message = record new_message { type = request_message };
  method = none;
  url = empty_url;
  remote_endpoint = record { address = []; port = none };
}

-- `Request::operator=(const Request&)`
unfoldable pub assign_request : Request → Request → Request
unfolding assign_message
assign_request this req = record {
  message = assign_message this.message req.message;
  method = req.method;
  url = req.url;
  remote_endpoint = req.remote_endpoint;
}

-- `Request(const Request&)`: the base is made by `Message()`.
unfoldable pub copy_request : Request → Request
unfolding assign_request
copy_request req =
    assign_request
      (record {
        message = new_message;
        method = none;
        url = empty_url;
        remote_endpoint = record { address = []; port = none };
      })
      req

-- `Request::clear`
unfoldable pub clear_request : Request → Request
unfolding clear_message
clear_request req = record {
  message = clear_message req.message;
  method = some Method.unknown;
  url = empty_url;
  remote_endpoint = record { address = []; port = some 0 };
}

-- `class Response`
pub record Response : Type 0 where
  pub message : Message
  pub status_code : Option StatusCode

-- `Response()`
unfoldable pub new_response : Response
new_response = record {
  message = record new_message { type = response_message };
  status_code = none;
}

-- `Response::operator=(const Response&)`
unfoldable pub assign_response : Response → Response → Response
unfolding assign_message
assign_response this res = record {
  message = assign_message this.message res.message;
  status_code = res.status_code;
}

-- `Response(const Response&)`: the base is made by `Message()`.
unfoldable pub copy_response : Response → Response
unfolding assign_response
copy_response res = assign_response (record { message = new_message; status_code = none }) res

-- `Response::clear`
unfoldable pub clear_response : Response → Response
unfolding clear_message
clear_response res = record {
  message = clear_message res.message;
  status_code = some StatusCode.no_code;
}
