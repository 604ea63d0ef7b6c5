-- ===== src/Http/Router/Fresh.antt =====
-- A router with one rule against an independent account of what a rule matches.
use itex_demo.Base.{
  ℕ, ◌≡◌, refl, ◌∙◌, ap, Option, none, some, List, [], ◌∷◌, arith, ◌==◌, if◌then◌else◌, inl, inr,
  Bool-cases,
}
use itex_demo.Base.Text.{Text, text_eq, text_eq_iff, text_eq_refl}
use itex_demo.Http.Constants.{Method, method_index}
use itex_demo.Http.Router.Lookup.{
  segments, is_literal-param_key, get_tokens-skip, set_tokens-skip, name_of-set_tokens,
}
use itex_demo.Http.Router.{
  Params, Node, node, no_children, child, param_key, is_literal, without_first, rule_key, rule_name,
  put_param, empty_node, find_child, has_child, with_child, put_handler, find_handler, set_tokens,
  url_key, name_of, get_tokens, RoutingResult, routed, no_route, set, get,
}

-- The parameters that a rule's segments bind on a URL's segments: as many of them, a literal one
-- equal to the URL's, any other naming it.
unfoldable pub bind : List Text → List Text → Params → Option Params
bind [] [] params = some params
bind [] (segment ∷ url) params = none
bind (token ∷ rule) [] params = none
bind (token ∷ rule) (segment ∷ url) params =
    let same = bind rule url params in
    let named = bind rule url (put_param (without_first token) segment params) in
    if is_literal token then (if text_eq token segment then same else none) else named

-- What a single rule answers, of a method's number `m` for a request's `k`.
unfoldable pub single : {H : Type 0} → ℕ → H → ℕ → Option Params → Option (H × Params)
single m h k none = none
single m h k (some params) = if m == k then some (h, params) else none

unfoldable pub answer : {H : Type 0} → Text → Method → Option (H × Params) → RoutingResult H
answer url method none = no_route url (method_index method)
answer url method (some (h, params)) = routed h params

module _ {H : Type 0} where
  -- The step into the only child.
  get_tokens-child :
      (key : Text) (n : Node H) (d : ℕ) (ds : Text) (url : List Text) (k : ℕ) (ps : Params)
      (label : Text) (handlers : List (ℕ × H))
      → get_tokens ((d ∷ ds) ∷ url) k ps (node label (child key n no_children) handlers) ≡ (
          if text_eq key param_key
          then get_tokens url k (put_param (name_of n) (d ∷ ds) ps) n
          else (if text_eq key (d ∷ ds) then get_tokens url k ps n else none))
  unfolding get_tokens find_child has_child url_key
  get_tokens-child key n d ds url k ps label handlers =
      ground
        (arith, text_eq_iff key (d ∷ ds), text_eq_iff key param_key, text_eq_iff (d ∷ ds) param_key)

  -- The names that the rule's segment gives it.
  get_tokens-only :
      (c : ℕ) (cs : Text) (rule : List Text) (d : ℕ) (ds : Text) (url : List Text) (m k : ℕ) (h : H)
      (ps : Params) (label : Text)
      → let token = c ∷ cs in
        let segment = d ∷ ds in
        let below = set_tokens rule m h (empty_node (rule_name token)) in
        get_tokens (segment ∷ url) k ps (set_tokens (token ∷ rule) m h (empty_node label)) ≡ (
          if is_literal token
          then (if text_eq token segment then get_tokens url k ps below else none)
          else get_tokens url k (put_param (without_first token) segment ps) below)
  unfolding set_tokens empty_node with_child rule_key rule_name
  get_tokens-only c cs rule d ds url m k h ps label =
      let token = c ∷ cs in
      let below = set_tokens rule m h (empty_node (rule_name token)) in
      get_tokens-child (rule_key token) below d ds url k ps label []
      ∙ ap
          (λ l.
            if text_eq (rule_key token) param_key
            then get_tokens url k (put_param l (d ∷ ds) ps) below
            else (if text_eq (rule_key token) (d ∷ ds) then get_tokens url k ps below else none))
          (name_of-set_tokens rule m h (empty_node (rule_name token)))
      ∙ elim (Bool-cases (is_literal token)) [
        | inl l ↦ rw (l, is_literal-param_key token l refl)
        | inr l ↦ rw (l, rule_key, rule_name, text_eq_refl param_key)
      ]

  get_tokens-end :
      (m k : ℕ) (h : H) (ps : Params) (label : Text)
      → get_tokens [] k ps (set_tokens [] m h (empty_node label)) ≡ single m h k (some ps)
  unfolding get_tokens set_tokens empty_node put_handler find_handler single
  get_tokens-end m k h ps label = ground arith

  get_tokens-beyond :
      (d : ℕ) (ds : Text) (url : List Text) (m k : ℕ) (h : H) (ps : Params) (label : Text)
      → get_tokens ((d ∷ ds) ∷ url) k ps (set_tokens [] m h (empty_node label)) ≡ none
  unfolding get_tokens set_tokens empty_node find_child
  get_tokens-beyond d ds url m k h ps label = refl

  get_tokens-short :
      (c : ℕ) (cs : Text) (rule : List Text) (m k : ℕ) (h : H) (ps : Params) (label : Text)
      → get_tokens [] k ps (set_tokens ((c ∷ cs) ∷ rule) m h (empty_node label)) ≡ none
  unfolding get_tokens set_tokens empty_node find_handler
  get_tokens-short c cs rule m k h ps label = refl

  get_tokens-single :
      (rule url : List Text) (m k : ℕ) (h : H) (ps : Params) (label : Text)
      → get_tokens url k ps (set_tokens rule m h (empty_node label))
        ≡ single m h k (bind (segments rule) (segments url) ps)
  unfolding segments bind single
  get_tokens-single [] [] m k h ps label = get_tokens-end m k h ps label
  get_tokens-single [] ([] ∷ url) m k h ps label =
      get_tokens-skip url k ps _ ∙ get_tokens-single [] url m k h ps label
  get_tokens-single [] ((d ∷ ds) ∷ url) m k h ps label = get_tokens-beyond d ds url m k h ps label
  get_tokens-single ([] ∷ rule) url m k h ps label =
      ap (get_tokens url k ps) (set_tokens-skip rule m h (empty_node label))
      ∙ get_tokens-single rule url m k h ps label
  get_tokens-single ((c ∷ cs) ∷ rule) [] m k h ps label = get_tokens-short c cs rule m k h ps label
  get_tokens-single ((c ∷ cs) ∷ rule) ([] ∷ url) m k h ps label =
      get_tokens-skip url k ps _ ∙ get_tokens-single ((c ∷ cs) ∷ rule) url m k h ps label
  get_tokens-single ((c ∷ cs) ∷ rule) ((d ∷ ds) ∷ url) m k h ps label =
      let token = c ∷ cs in
      let label' = rule_name token in
      get_tokens-only c cs rule d ds url m k h ps label ∙ elim (Bool-cases (is_literal token)) [
        | inl l ↦ elim (Bool-cases (text_eq token (d ∷ ds))) [
          | inl e ↦ rw (l, e) (get_tokens-single rule url m k h ps label')
          | inr e ↦ rw (l, e)
        ]
        | inr l ↦
            rw l (
              get_tokens-single rule url m k h (put_param (without_first token) (d ∷ ds) ps) label')
      ]

module _ {H : Type 0} (split_url_path : Text → List Text) where
  -- A router with one rule answers a request exactly if the request has the rule's method and the
  -- rule's segments bind the URL's, with the parameters bound in order.
  pub get-single :
      (rule url : Text) (method asked : Method) (handler : H) (label : Text)
      → get split_url_path url asked (set split_url_path rule method handler (empty_node label))
        ≡ answer url asked (
            single
              (method_index method)
              handler
              (method_index asked)
              (bind (segments (split_url_path rule)) (segments (split_url_path url)) []))
  unfolding get set answer
  get-single rule url method asked handler label = ap (answer url asked) (
      get_tokens-single (split_url_path rule) (split_url_path url) (method_index method)
        (method_index asked) handler [] label)
