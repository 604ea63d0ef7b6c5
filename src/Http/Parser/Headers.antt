-- ===== src/Http/Parser/Headers.antt =====
-- The headers of a message, whatever pieces the library cuts their names and values into.
use itex_demo.Base.{
  ℕ, ◌≡◌, refl, ◌∙◌, ap, sym, true, false, Option, some, List, [], ◌∷◌, ◌++◌, map, append-nil,
  append_assoc,
}
use itex_demo.Base.Text.{Text, is_empty}
use itex_demo.Http.Constants.{Method}
use itex_demo.Http.Url.{ParsedUrl}
use itex_demo.Http.Message.{Message}
use itex_demo.Http.Parser.{
  Target, to_request, to_response, update, Parser, fresh, put_header, Event, header_field,
  header_value, headers_complete, on_event, on_header_field, on_header_value, on_headers_complete,
  store_header, append_name, finish_headers, run,
}

-- A header as the library reports it: the pieces of its name, of which there is a first, and the
-- pieces of its value.
pub record Pieces : Type 0 where
  pub first : Text
  pub names : List Text
  pub values : List Text

unfoldable pub concat : List Text → Text
concat [] = []
concat (t ∷ ts) = t ++ concat ts

unfoldable pub name_text : Pieces → Text
unfolding concat
name_text h = h.first ++ concat h.names

unfoldable pub value_text : Pieces → Text
unfolding concat
value_text h = concat h.values

unfoldable pub events_of : List Pieces → List Event
events_of [] = headers_complete ∷ []
events_of (h ∷ hs) =
    header_field h.first ∷ (map header_field h.names ++ (map header_value h.values ++ events_of hs))

-- The headers stored one after another; a later value replaces an earlier one of the same name.
unfoldable pub put_all : List Pieces → Message → Message
put_all [] msg = msg
put_all (h ∷ hs) msg = put_all hs (put_header (name_text h) (value_text h) msg)

abbrev pub AllFilled : List Pieces → Type 0
AllFilled [] = Unit {0}
AllFilled (h ∷ hs) = (is_empty (value_text h) ≡ false) × AllFilled hs

-- A parser within the headers, with a header under way.
abbrev pub pending : Text → Text → Parser
pending name value = record {
  current_name = name;
  current_value = value;
  parsing_complete = false;
  headers_parsing_complete = false;
}

-- The parser after the last header.
abbrev pub after_headers : Parser
after_headers = record fresh { headers_parsing_complete = true }

update-put_all_nil : (t : Target) → update (put_all []) t ≡ t
unfolding put_all
update-put_all_nil (to_request req) = refl
update-put_all_nil (to_response res) = refl

update-put_all :
    (h : Pieces) (hs : List Pieces) (t : Target)
    → update (put_all hs) (update (put_header (name_text h) (value_text h)) t)
      ≡ update (put_all (h ∷ hs)) t
unfolding put_all
update-put_all h hs (to_request req) = refl
update-put_all h hs (to_response res) = refl

module _ (parse_url : Text → Option ParsedUrl) (method_map : ℕ → Option Method) where
  run-names :
      (ts : List Text) (es : List Event) (name : Text) (t : Target)
      → run parse_url method_map (map header_field ts ++ es) (pending name [], t)
        ≡ run parse_url method_map es (pending (name ++ concat ts) [], t)
  unfolding run on_event on_header_field store_header append_name concat
  run-names [] es name t = rw (append-nil name)
  run-names (x ∷ ts) es name t =
      run-names ts es (name ++ x) t ∙ rw (append_assoc name x (concat ts))

  run-values :
      (ts : List Text) (es : List Event) (name value : Text) (t : Target)
      → run parse_url method_map (map header_value ts ++ es) (pending name value, t)
        ≡ run parse_url method_map es (pending name (value ++ concat ts), t)
  unfolding run on_event on_header_value concat
  run-values [] es name value t = rw (append-nil value)
  run-values (x ∷ ts) es name value t =
      run-values ts es name (value ++ x) t ∙ rw (append_assoc value x (concat ts))

  -- One header from a parser that has none under way.
  run-header :
      (h : Pieces) (es : List Event) (t : Target)
      → run parse_url method_map
          (header_field h.first ∷ (map header_field h.names ++ (map header_value h.values ++ es)))
          (fresh, t)
        ≡ run parse_url method_map es (pending (name_text h) (value_text h), t)
  unfolding run on_event on_header_field store_header append_name name_text value_text
  run-header h es t = run-names h.names _ h.first t ∙ run-values h.values es _ [] t

  -- A header under way is stored when the next one starts, and at the end.
  run-pending :
      (hs : List Pieces) (name value : Text) (t : Target)
      → is_empty value ≡ false
      → run parse_url method_map (events_of hs) (pending name value, t)
        ≡ run parse_url method_map (events_of hs) (fresh, update (put_header name value) t)
  unfolding run on_event on_header_field on_headers_complete store_header append_name finish_headers
      events_of
  run-pending [] name value t e = rw e
  run-pending (h ∷ hs) name value t e = rw e

  -- From a parser with no header under way, the events of headers with values that are not empty,
  -- in whatever pieces, store each header under its name, in order, and end the headers.
  pub run-events_of :
      (hs : List Pieces) (t : Target)
      → AllFilled hs
      → run parse_url method_map (events_of hs) (fresh, t)
        ≡ some (after_headers, update (put_all hs) t)
  unfolding events_of run on_event on_headers_complete store_header finish_headers
  run-events_of [] t f = ap (λ u. some (after_headers, u)) (sym (update-put_all_nil t))
  run-events_of (h ∷ hs) t f =
      run-header h (events_of hs) t
      ∙ run-pending hs (name_text h) (value_text h) t f.0
      ∙ run-events_of hs (update (put_header (name_text h) (value_text h)) t) f.1
      ∙ ap (λ u. some (after_headers, u)) (update-put_all h hs t)

  -- The defect of `on_header_field`: it takes an empty value for a header that has not started. A
  -- header with an empty value is never stored, and its name is put in front of the next one's. The
  -- headers that follow it, of which there is a first, have values that are not empty.
  pub run-empty_value :
      (name : Text) (h : Pieces) (hs : List Pieces) (t : Target)
      → AllFilled (h ∷ hs)
      → run parse_url method_map
          (header_field name ∷ header_value [] ∷ events_of (h ∷ hs))
          (fresh, t)
        ≡ some (after_headers, update (put_all (record h { first = name ++ h.first } ∷ hs)) t)
  unfolding events_of run on_event on_header_field on_header_value store_header append_name
      value_text
  run-empty_value name h hs t f = run-events_of (record h { first = name ++ h.first } ∷ hs) t f
