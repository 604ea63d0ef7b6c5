-- ===== src/Http/Router.antt =====
-- platform/http/src/router.cpp and include/http/router.hpp: a tree of URL path segments. A child
-- is found by its segment, or by ":" if it stands for a parameter; a node keeps the parameter's
-- name and a handler for each method.
-- Nodes have one owner each, so the pointer that `set` and `get` walk with is a recursion here.
-- `boost::algorithm::split` is a parameter; a handler is a value of any type.
pub mod Paths
pub mod Lookup
pub mod Fresh
mod Tests
use itex_demo.Base.{
  ℕ, Bool, true, false, not, Option, none, some, List, [], ◌∷◌, ◌==◌, if◌then◌else◌,
}
use itex_demo.Base.Text.{Text, is_empty, text_eq}
use itex_demo.Http.Constants.{Method, method_index}

-- `URLPathParameters`, read by name.
abbrev pub Params : Type 0
Params = List (Text × Text)

-- `class Router::Node`: `name_`, `children_` and `handlers_`.
mutual
  pub data Node (H : Type 0) : Type 0 where
    node : Text → Children H → List (ℕ × H) → Node H

  pub data Children (H : Type 0) : Type 0 where
    no_children : Children H
    child : Text → Node H → Children H → Children H

-- The parameter's marker.
abbrev pub colon : ℕ
colon = 58

abbrev pub param_key : Text
param_key = colon ∷ []

-- `token[0] != ':'`, for a token that is not empty.
unfoldable pub is_literal : Text → Bool
is_literal [] = true
is_literal (c ∷ rest) = not (c == colon)

-- `token.substr(1)`
unfoldable pub without_first : Text → Text
without_first [] = []
without_first (c ∷ rest) = rest

-- The key of a rule's token among the children, and the name of its node.
unfoldable pub rule_key : Text → Text
unfolding is_literal
rule_key token = if is_literal token then token else param_key

unfoldable pub rule_name : Text → Text
unfolding is_literal without_first
rule_name token = if is_literal token then token else without_first token

-- `params[name] = value`
unfoldable pub put_param : Text → Text → Params → Params
put_param name value [] = (name, value) ∷ []
put_param name value ((n, v) ∷ rest) =
    if text_eq n name then (n, value) ∷ rest else (n, v) ∷ put_param name value rest

-- What `Router::get` gives: the handler and the parameters, or a `RouterException`, which carries
-- the path and the method's number in its text.
pub data RoutingResult (H : Type 0) : Type 0 where
  routed : H → Params → RoutingResult H
  no_route : Text → ℕ → RoutingResult H

module _ {H : Type 0} where
  unfoldable pub empty_node : Text → Node H
  empty_node name = node name no_children []

  unfoldable pub find_child : Text → Children H → Option (Node H)
  find_child key no_children = none
  find_child key (child k n rest) = if text_eq k key then some n else find_child key rest

  -- `count(key) == 0`
  unfoldable pub has_child : Text → Children H → Bool
  has_child key no_children = false
  has_child key (child k n rest) = if text_eq k key then true else has_child key rest

  -- `node->children()[key]`, made with `name` if it is missing, and then changed by `change`.
  unfoldable pub with_child : Text → Text → (Node H → Node H) → Children H → Children H
  unfolding empty_node
  with_child key name change no_children = child key (change (empty_node name)) no_children
  with_child key name change (child k n rest) =
      if text_eq k key then child k (change n) rest else child k n (with_child key name change rest)

  -- `node->handlers()[method] = handler`
  unfoldable pub put_handler : ℕ → H → List (ℕ × H) → List (ℕ × H)
  put_handler method handler [] = (method, handler) ∷ []
  put_handler method handler ((m, h) ∷ rest) =
      if m == method then (m, handler) ∷ rest else (m, h) ∷ put_handler method handler rest

  -- `node->handlers().at(method)`
  unfoldable pub find_handler : ℕ → List (ℕ × H) → Option H
  find_handler method [] = none
  find_handler method ((m, h) ∷ rest) = if m == method then some h else find_handler method rest

  -- The loop of `Router::set` over the tokens of the rule.
  unfoldable pub set_tokens : List Text → ℕ → H → Node H → Node H
  set_tokens [] method handler (node name kids handlers) =
      node name kids (put_handler method handler handlers)
  set_tokens (token ∷ tokens) method handler (node name kids handlers) =
      let changed =
        with_child (rule_key token) (rule_name token) (set_tokens tokens method handler) kids in
      let skipped = set_tokens tokens method handler (node name kids handlers) in
      if is_empty token then skipped else node name changed handlers

  -- The key that `Router::get` follows at a token.
  unfoldable pub url_key : Text → Children H → Text
  url_key token kids = if has_child token kids then token else param_key

  abbrev pub name_of : Node H → Text
  name_of (node name kids handlers) = name

  -- The loop of `Router::get` over the tokens of the path; `none` is `std::out_of_range`.
  unfoldable pub get_tokens : List Text → ℕ → Params → Node H → Option (H × Params)
  get_tokens [] method params (node name kids handlers) = elim (find_handler method handlers) [
    | none ↦ none
    | some h ↦ some (h, params)
  ]
  get_tokens (token ∷ tokens) method params (node name kids handlers) =
      let skipped = get_tokens tokens method params (node name kids handlers) in
      let key = url_key token kids in
      let entered : Option (H × Params) = elim (find_child key kids) [
        | none ↦ none
        | some n ↦
            get_tokens tokens method
              (if text_eq key param_key then put_param (name_of n) token params else params) n
      ] in
      if is_empty token then skipped else entered

module _ {H : Type 0} (split_url_path : Text → List Text) where
  -- `Router::set`
  unfoldable pub set : Text → Method → H → Node H → Node H
  set url_path_rule method handler root =
      set_tokens (split_url_path url_path_rule) (method_index method) handler root

  -- `Router::get`
  unfoldable pub get : Text → Method → Node H → RoutingResult H
  get url_path method root =
      elim (get_tokens (split_url_path url_path) (method_index method) [] root) [
        | none ↦ no_route url_path (method_index method)
        | some (h, params) ↦ routed h params
      ]
