-- ===== src/Http/Connection/Serving.antt =====
-- The responses that platform/http/src/connection.cpp writes to its requests.
use itex_demo.Http.Constants.{no_code, status_text}
use itex_demo.Base.{none, ap, ◌∙◌, [], refl, ◌++◌, ◌∷◌, some, true, false, ◌≡◌}
use itex_demo.Http.Connection.{
  status_text, deliver, List, Bool, created, responds, Turn, process, handle, response_text, Ending,
  closes, serve,
}
use itex_demo.Http.Message.{
  Response, assign_response, assign_message, clear_response, get_flag, f_connection_close,
}
use itex_demo.Base.Text.{Text}

-- A turn whose handler is there and responds in time, and what is written for it.
pub record Served (t : Turn) (written : Text) : Type 0 where
  pub response : Response
  pub outcome_is : t.outcome ≡ responds response
  pub written_is : response_text response ≡ some written
  pub creation_is : t.creation ≡ created
  pub in_time : t.fires ≡ false
  pub goes_out : t.write_error ≡ false

abbrev pub asks_to_close : Turn → Bool
asks_to_close t = get_flag f_connection_close t.request.message.flags

abbrev pub AllServed : List (Turn × Text) → Type 0
AllServed [] = Unit
AllServed ((t, written) ∷ turns) = Served t written × (asks_to_close t ≡ false) × AllServed turns

abbrev pub turns_of : List (Turn × Text) → List Turn
turns_of [] = []
turns_of ((t, written) ∷ turns) = t ∷ turns_of turns

abbrev pub texts_of : List (Turn × Text) → List Text
texts_of [] = []
texts_of ((t, written) ∷ turns) = written ∷ texts_of turns

-- Nothing of an earlier response is left in what is written.
handle-Served :
    (has_handler : Bool) (t : Turn) (written : Text) (r : Response)
    → Served t written
    → (response_text (handle has_handler t r).0 ≡ some written)
      × ((handle has_handler t r).1 ≡ true)
unfolding handle process assign_response assign_message response_text
handle-Served true t written r s = (rw (s.outcome_is, s.in_time) s.written_is, refl)
handle-Served false t written r s =
    rw s.creation_is (rw (s.outcome_is, s.in_time) s.written_is, refl)

module _ (has_handler : Bool) (t : Turn) (written : Text) (r : Response) (turns : List Turn)
    (s : Served t written) where
  serve-goes_on :
      asks_to_close t ≡ false
      → serve has_handler r (t ∷ turns) ≡ (
          let (more, ending) = serve true (handle has_handler t (clear_response r)).0 turns in
          (written ∷ more, ending))
  unfolding serve deliver
  serve-goes_on keep =
      let (wrote, handler) = handle-Served has_handler t written (clear_response r) s in
      λ i.
        deliver (wrote i) (s.goes_out i) (keep i)
          (serve (handler i) (handle has_handler t (clear_response r)).0 turns)

  serve-closes : asks_to_close t ≡ true → serve has_handler r (t ∷ turns) ≡ (written ∷ [], closes)
  unfolding serve deliver
  serve-closes close =
      let (wrote, handler) = handle-Served has_handler t written (clear_response r) s in
      λ i. deliver (wrote i) (s.goes_out i) (close i) (
        serve (handle has_handler t (clear_response r)).1
          (handle has_handler t (clear_response r)).0 turns)

-- A connection is kept until the client asks to close it: where the handler responds in time to each
-- request and the socket takes it, one response is written for each request, in order and each that of
-- its own turn alone, up to and with the first request that asks to close, and the connection closes
-- there, whatever comes behind.
pub serve-Served :
    (has_handler : Bool) (r : Response) (turns : List (Turn × Text)) (t : Turn) (written : Text)
    (rest : List Turn)
    → AllServed turns
    → Served t written
    → asks_to_close t ≡ true
    → serve has_handler r (turns_of turns ++ (t ∷ rest))
      ≡ (texts_of turns ++ (written ∷ []), closes)
serve-Served has_handler r [] t written rest all s close =
    serve-closes has_handler t written r rest s close
serve-Served has_handler r ((u, w) ∷ turns) t written rest (one, keep, all) s close =
    serve-goes_on has_handler u w r (turns_of turns ++ (t ∷ rest)) one keep
    ∙ ap (λ (x : List Text × Ending). (w ∷ x.0, x.1))
        (serve-Served true (handle has_handler u (clear_response r)).0 turns t written rest all s
          close)

response_text-unset : (r : Response) → r.status_code ≡ some no_code → response_text r ≡ none
unfolding response_text status_text
response_text-unset r e = rw (e, response_text) refl

handle-unset :
    (has_handler : Bool) (t : Turn) (res r : Response)
    → t.outcome ≡ responds res
    → t.creation ≡ created
    → t.fires ≡ false
    → response_text res ≡ none
    → response_text (handle has_handler t r).0 ≡ none
unfolding handle process assign_response assign_message response_text
handle-unset true t res r o c f e = rw (o, f) e
handle-unset false t res r o c f e = rw c (rw (o, f) e)

-- A response without a status drops the connection: where a handler leaves the status of its response
-- at UNKNOWN, nothing is written for that request, not even an error, and the connection closes, though
-- the handler responded in time; what was written before for other requests is as it was.
pub serve-unset :
    (has_handler : Bool) (r : Response) (turns : List (Turn × Text)) (t : Turn) (res : Response)
    (rest : List Turn)
    → AllServed turns
    → t.outcome ≡ responds res
    → t.creation ≡ created
    → t.fires ≡ false
    → res.status_code ≡ some no_code
    → serve has_handler r (turns_of turns ++ (t ∷ rest)) ≡ (texts_of turns, closes)
unfolding serve deliver
serve-unset has_handler r [] t res rest all o c f e =
    let nothing =
      handle-unset has_handler t res (clear_response r) o c f (response_text-unset res e) in
    λ i. deliver (nothing i) t.write_error (asks_to_close t) (
      serve (handle has_handler t (clear_response r)).1 (handle has_handler t (clear_response r)).0
        rest)
serve-unset has_handler r ((u, w) ∷ turns) t res rest (one, keep, all) o c f e =
    serve-goes_on has_handler u w r (turns_of turns ++ (t ∷ rest)) one keep
    ∙ ap (λ (x : List Text × Ending). (w ∷ x.0, x.1))
        (serve-unset true (handle has_handler u (clear_response r)).0 turns t res rest all o c f e)
