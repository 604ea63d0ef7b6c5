-- ===== src/Http/Parser/Copies.antt =====
-- The type of a message that was copied or assigned, which the parser tests.
use itex_demo.Base.{◌≡◌, refl, none, some}
use itex_demo.Http.Message.{
  Request, new_request, assign_request, copy_request, assign_message, Response, new_response,
  assign_response, copy_response, clear_request, clear_message, clear_response,
}
use itex_demo.Http.Parser.{to_request, to_response, fresh, make_parser}

-- A copied request has the method, the URL, the endpoint, the headers, the body and the flags of the
-- original but not its type, so the parser refuses it; one assigned to a
-- request made by `Request()` is accepted, also after `clear`.
pub make_parser-copy_request :
    (req : Request)
    → (make_parser (to_request (copy_request req)) ≡ none)
      × ((copy_request req).method ≡ req.method)
      × ((copy_request req).url ≡ req.url)
      × ((copy_request req).remote_endpoint ≡ req.remote_endpoint)
      × ((copy_request req).message.headers ≡ req.message.headers)
      × ((copy_request req).message.body ≡ req.message.body)
      × ((copy_request req).message.flags ≡ req.message.flags)
      × (make_parser (to_request (assign_request new_request req)) ≡ some fresh)
      × (make_parser (to_request (clear_request (assign_request new_request req))) ≡ some fresh)
unfolding make_parser copy_request assign_request new_request clear_request assign_message
    clear_message
make_parser-copy_request req = (refl, refl, refl, refl, refl, refl, refl, refl, refl)

-- A copied response keeps its members but not its type, so the parser refuses it; one assigned to a
-- response made by `Response()` is accepted, also after `clear`.
pub make_parser-copy_response :
    (res : Response)
    → (make_parser (to_response (copy_response res)) ≡ none)
      × (assign_response new_response (copy_response res) ≡ assign_response new_response res)
      × (make_parser (to_response (assign_response new_response res)) ≡ some fresh)
      × (make_parser (to_response (clear_response (assign_response new_response res))) ≡ some fresh)
unfolding make_parser copy_response assign_response new_response clear_response assign_message
    clear_message
make_parser-copy_response res = (refl, refl, refl, refl)
