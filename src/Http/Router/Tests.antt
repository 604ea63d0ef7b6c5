-- ===== src/Http/Router/Tests.antt =====
-- Rules and requests on small routers, with a concrete `split_url_path`.
use itex_demo.Base.{◌&&◌, ℕ, ◌≡◌, refl, some, List, [], ◌∷◌, ◌++◌, if◌then◌else◌, ◌==◌}
use itex_demo.Base.Text.{Text, text, text_eq}
use itex_demo.Http.Constants.{Method, method_index}
use itex_demo.Http.Router.Paths.{name_at, handler_at, handler_at-set_tokens, keys_of, texts_eq}
use itex_demo.Http.Router.Lookup.{get-set_literal, segments}
use itex_demo.Http.Router.Fresh.{get-single, answer, single, bind}
use itex_demo.Http.Router.{
  Node, node, child, no_children, set, get, set_tokens, empty_node, routed, no_route, get_tokens,
  with_child, find_child, put_handler, find_handler, has_child, url_key, rule_key, rule_name,
  is_literal, without_first, put_param, param_key,
}

-- `boost::algorithm::split` at "/", adjacent ones compressed.
split_at : Text → Text → List Text
split_at done [] = done ∷ []
split_at done (c ∷ rest) =
    if c == 47 then done ∷ split_at [] rest else split_at (done ++ (c ∷ [])) rest

abbrev split : Text → List Text
split path = split_at [] path

abbrev with_books : Node ℕ
unfolding set set_tokens split_at empty_node with_child put_handler rule_key rule_name is_literal
    without_first
with_books = set split (text "/books/:id") Method.get 1 (empty_node {H = ℕ} [])

books_seven :
    get split (text "/books/7") Method.get with_books ≡ routed 1 ((text "id", text "7") ∷ [])
unfolding set get set_tokens get_tokens split_at empty_node with_child find_child put_handler
    find_handler has_child url_key rule_key rule_name is_literal without_first put_param text_eq
    method_index
books_seven = refl

get-single_example :
    get {H = ℕ} split
      (text "/books/7")
      Method.put
      (set split (text "/books/:id") Method.get 1 (empty_node {H = ℕ} []))
    ≡ no_route (text "/books/7") 5
unfolding split_at segments bind single answer is_literal without_first text_eq method_index
get-single_example =
    get-single split (text "/books/:id") (text "/books/7") Method.get Method.put 1 []

get-set_literal_example :
    get split
      (text "/books/new/")
      Method.post
      (set split (text "/books/new") Method.post 2 with_books)
    ≡ routed 2 []
unfolding split_at segments is_literal
get-set_literal_example =
    get-set_literal split (text "/books/new") (text "/books/new/") Method.post 2 with_books
      (refl, (refl, tt)) refl

-- "books" holds a parameter, "id", and a second rule calls it "number".
abbrev below : Node ℕ
unfolding empty_node
below = node [] (child param_key (empty_node {H = ℕ} (text "id")) no_children) []

-- "number" is kept as "id", and its handler is the new one.
handler_at-set_tokens_example :
    ((m : ℕ)
      → handler_at {H = ℕ} (text ":" ∷ []) m (set_tokens (text ":number" ∷ []) 2 4 below) ≡ (
          if texts_eq (keys_of (text ":number" ∷ [])) (text ":" ∷ []) && (2 == m)
          then some 4
          else handler_at (text ":" ∷ []) m below))
    × ((name : Text)
        → name_at (text ":" ∷ []) below ≡ some name
        → name_at (text ":" ∷ []) (set_tokens (text ":number" ∷ []) 2 4 below) ≡ some name)
handler_at-set_tokens_example =
    handler_at-set_tokens (text ":number" ∷ []) 2 4 below (text ":" ∷ [])
