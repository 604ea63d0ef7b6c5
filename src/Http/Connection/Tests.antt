-- ===== src/Http/Connection/Tests.antt =====
-- Responses of platform/http/src/connection.cpp and their reading.
use itex_demo.Base.Text.{text_eq}
use itex_demo.Base.{arith, [], true, ◌∷◌, refl, ◌>>=◌, ◌++◌, some, ◌≡◌}
use itex_demo.Http.Connection.RoundTrip.{read_response-response_text}
use itex_demo.Http.Connection.Reading.{read_response, without}
use itex_demo.Http.Connection.Serving.{serve-unset, Served, serve-Served}
use itex_demo.Http.Connection.{
  text, false, Text, Bool, created, responds, Turn, response_text, header_lines, serve, closes,
}
use itex_demo.Base.Decimal.{to_string, digits_before}
use itex_demo.Http.Constants.{no_code, code_200_ok, status_text}
use itex_demo.Http.Message.{Response, new_message, new_response, new_request, get_flag}

abbrev hello : Response
hello = record {
  message = record new_message {
    headers = (text "Server", text "itex: demo") ∷ [];
    body = text "hi";
  };
  status_code = some code_200_ok;
}

abbrev hello_text : Text
hello_text =
    text "HTTP/1.1 200 OK"
    ++ (13
        ∷ 10
        ∷ (text "Server: itex: demo"
            ++ (13 ∷ 10 ∷ (text "Content-Length: 2" ++ (13 ∷ 10 ∷ 13 ∷ 10 ∷ text "hi")))))

hello_written : response_text hello ≡ some hello_text
unfolding response_text header_lines to_string digits_before status_text
hello_written = refl

many_digits : to_string 1048576 ≡ text "1048576"
unfolding to_string digits_before
many_digits = refl

read_response-response_text_example :
    (response_text hello >>= λ t. read_response 3 (t ++ text "HTTP"))
    ≡ some (
      (
        text "200 OK",
        (text "Server", text "itex: demo") ∷ (text "Content-Length", to_string 2) ∷ [],
      ),
      (text "hi", text "HTTP"),
    )
unfolding status_text without text_eq
read_response-response_text_example =
    read_response-response_text hello code_200_ok (text "200 OK") (text "HTTP") 3 refl refl
      (refl, refl, refl, refl, tt) (omega arith)

abbrev turn_with : Bool → Turn
turn_with close = record {
  request = record new_request { message = record new_message { flags = λ f. close } };
  creation = created;
  outcome = responds hello;
  fires = false;
  write_error = false;
}

turn_with-Served : (close : Bool) → Served (turn_with close) hello_text
turn_with-Served close = record {
  response = hello;
  outcome_is = refl;
  written_is = hello_written;
  creation_is = refl;
  in_time = refl;
  goes_out = refl;
}

serve-Served_example :
    serve false new_response (turn_with false ∷ turn_with true ∷ turn_with false ∷ [])
    ≡ (hello_text ∷ hello_text ∷ [], closes)
unfolding get_flag
serve-Served_example =
    serve-Served false new_response ((turn_with false, hello_text) ∷ []) (turn_with true) hello_text
      (turn_with false ∷ []) (turn_with-Served false, refl, tt) (turn_with-Served true) refl

abbrev forgets_status : Turn
forgets_status = record (turn_with false) {
  outcome = responds (record hello { status_code = some no_code });
}

serve-unset_example :
    serve false new_response (turn_with false ∷ forgets_status ∷ turn_with true ∷ [])
    ≡ (hello_text ∷ [], closes)
unfolding get_flag
serve-unset_example =
    serve-unset false new_response ((turn_with false, hello_text) ∷ []) forgets_status
      (record hello { status_code = some no_code }) (turn_with true ∷ [])
      (turn_with-Served false, refl, tt) refl refl refl refl
