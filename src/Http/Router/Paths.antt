-- ===== src/Http/Router/Paths.antt =====
-- The router as a finite map: from a path of keys and a method to a handler.
use itex_demo.Base.{
  sym, subst, Bool-cases, ℕ, ◌≡◌, refl, Bool, true, false, ◌&&◌, Option, none, some, List, [], ◌∷◌,
  arith, ◌==◌, if◌then◌else◌, inl, inr, Option-cases,
}
use itex_demo.Base.Text.{Text, is_empty, text_eq, text_eq_iff}
use itex_demo.Http.Router.{
  Node, node, Children, no_children, child, rule_key, rule_name, empty_node, find_child, with_child,
  put_handler, find_handler, set_tokens,
}

-- The keys that `Router::set` follows for a rule.
unfoldable pub keys_of : List Text → List Text
keys_of [] = []
keys_of (token ∷ tokens) =
    if is_empty token then keys_of tokens else rule_key token ∷ keys_of tokens

unfoldable pub texts_eq : List Text → List Text → Bool
texts_eq [] [] = true
texts_eq [] (y ∷ ys) = false
texts_eq (x ∷ xs) [] = false
texts_eq (x ∷ xs) (y ∷ ys) = text_eq x y && texts_eq xs ys

module _ {H : Type 0} where
  -- The handler at a path of keys, with no fallback to parameters.
  unfoldable pub handler_at : List Text → ℕ → Node H → Option H
  handler_at [] method (node name kids handlers) = find_handler method handlers
  handler_at (key ∷ keys) method (node name kids handlers) = elim (find_child key kids) [
    | none ↦ none
    | some n ↦ handler_at keys method n
  ]

  -- The name of the node at a path of keys.
  unfoldable pub name_at : List Text → Node H → Option Text
  name_at [] (node name kids handlers) = some name
  name_at (key ∷ keys) (node name kids handlers) = elim (find_child key kids) [
    | none ↦ none
    | some n ↦ name_at keys n
  ]

  -- The child that `Router::set` goes on with.
  unfoldable pub child_or_new : Text → Text → Children H → Node H
  child_or_new key name kids = elim (find_child key kids) [ none ↦ empty_node name | some n ↦ n ]

  pub find_child-with_child :
      (key name k : Text) (change : Node H → Node H) (kids : Children H)
      → find_child k (with_child key name change kids)
        ≡ (if text_eq key k then some (change (child_or_new key name kids)) else find_child k kids)
  unfolding find_child with_child child_or_new
  find_child-with_child key name k change no_children = refl
  find_child-with_child key name k change (child j n rest) = ground (
    arith,
    text_eq_iff j key,
    text_eq_iff j k,
    text_eq_iff key k,
    find_child-with_child key name k change rest,
  )

  pub find_handler-put_handler :
      (m method : ℕ) (h : H) (handlers : List (ℕ × H))
      → find_handler m (put_handler method h handlers)
        ≡ (if method == m then some h else find_handler m handlers)
  unfolding find_handler put_handler
  find_handler-put_handler m method h [] = refl
  find_handler-put_handler m method h ((j, k) ∷ rest) =
      ground (arith, find_handler-put_handler m method h rest)

  handler_at-empty_node :
      (keys : List Text) (m : ℕ) (name : Text) → handler_at keys m (empty_node {H = H} name) ≡ none
  unfolding handler_at empty_node find_child find_handler
  handler_at-empty_node [] m name = refl
  handler_at-empty_node (k ∷ keys) m name = refl

  handler_at-child_or_new :
      (key name : Text) (keys : List Text) (m : ℕ) (kids : Children H)
      → handler_at keys m (child_or_new key name kids)
        ≡ elim (find_child key kids) [ none ↦ none | some n ↦ handler_at keys m n ]
  unfolding child_or_new
  handler_at-child_or_new key name keys m kids = elim (Option-cases (find_child key kids)) [
    | inl e ↦ rw (e, child_or_new) (handler_at-empty_node keys m name)
    | inr (n, e) ↦ rw (e, child_or_new)
  ]

  handler_at-set_tokens_lem :
      (tokens keys : List Text) (m method : ℕ) (h : H) (n : Node H)
      → handler_at keys m (set_tokens tokens method h n)
        ≡ (if texts_eq (keys_of tokens) keys && (method == m) then some h else handler_at keys m n)
  unfolding handler_at set_tokens keys_of texts_eq
  handler_at-set_tokens_lem [] [] m method h (node name kids handlers) =
      find_handler-put_handler m method h handlers
  handler_at-set_tokens_lem [] (k ∷ keys) m method h (node name kids handlers) = refl
  handler_at-set_tokens_lem ([] ∷ tokens) [] m method h (node name kids handlers) =
      handler_at-set_tokens_lem tokens [] m method h (node name kids handlers)
  handler_at-set_tokens_lem ([] ∷ tokens) (k ∷ keys) m method h (node name kids handlers) =
      handler_at-set_tokens_lem tokens (k ∷ keys) m method h (node name kids handlers)
  handler_at-set_tokens_lem ((c ∷ cs) ∷ tokens) [] m method h (node name kids handlers) = refl
  handler_at-set_tokens_lem ((c ∷ cs) ∷ tokens) (k ∷ keys) m method h (node name kids handlers) =
      let key = rule_key (c ∷ cs) in
      let label = rule_name (c ∷ cs) in
      ground (
        arith,
        find_child-with_child key label k (set_tokens tokens method h) kids,
        handler_at-set_tokens_lem tokens keys m method h (child_or_new key label kids),
        handler_at-child_or_new key label keys m kids,
        text_eq_iff key k,
      )

  name_at-child_or_new :
      (key label : Text) (keys : List Text) (kids : Children H) (name : Text)
      → (elim (find_child key kids) [ none ↦ none | some n ↦ name_at keys n ]) ≡ some name
      → name_at keys (child_or_new key label kids) ≡ some name
  unfolding child_or_new
  name_at-child_or_new key label keys kids name h = elim (Option-cases (find_child key kids)) [
    | inl e ↦ let g : none ≡ some name = rw e at h in cc
    | inr (n, e) ↦ rw (e, child_or_new) (rw e at h)
  ]

  name_at-set_tokens :
      (tokens keys : List Text) (method : ℕ) (h : H) (n : Node H) (name : Text)
      → name_at keys n ≡ some name
      → name_at keys (set_tokens tokens method h n) ≡ some name
  unfolding name_at set_tokens
  name_at-set_tokens [] [] method h (node label kids handlers) name e = e
  name_at-set_tokens [] (k ∷ keys) method h (node label kids handlers) name e = e
  name_at-set_tokens ([] ∷ tokens) [] method h (node label kids handlers) name e =
      name_at-set_tokens tokens [] method h (node label kids handlers) name e
  name_at-set_tokens ([] ∷ tokens) (k ∷ keys) method h (node label kids handlers) name e =
      name_at-set_tokens tokens (k ∷ keys) method h (node label kids handlers) name e
  name_at-set_tokens ((c ∷ cs) ∷ tokens) [] method h (node label kids handlers) name e = e
  name_at-set_tokens ((c ∷ cs) ∷ tokens) (k ∷ keys) method h (node label kids handlers) name e =
      let key = rule_key (c ∷ cs) in
      let made = rule_name (c ∷ cs) in
      let found = find_child-with_child key made k (set_tokens tokens method h) kids in
      elim (Bool-cases (text_eq key k)) [
        | inl same ↦
            let one = (text_eq_iff key k).0 same in
            rw (name_at, found, same)
              (name_at-set_tokens tokens keys method h (child_or_new key made kids) name (
                name_at-child_or_new key made keys kids name (
                  subst
                    (λ x.
                      (elim (find_child x kids) [ none ↦ none | some n ↦ name_at keys n ])
                      ≡ some name)
                    (sym one) e)))
        | inr other ↦ rw (name_at, found, other) e
      ]

  -- Registering a rule puts its handler at the rule's own path of keys and method, and keeps every
  -- other handler at its path and method, and the name of every node that there was, a parameter's
  -- included. Paths are read key by key here, without the fallback to a parameter; nothing is said
  -- of what other URLs are answered, as the rule's new nodes may take them from a parameter's node.
  pub handler_at-set_tokens :
      (tokens : List Text) (method : ℕ) (h : H) (n : Node H) (keys : List Text)
      → ((m : ℕ)
          → handler_at keys m (set_tokens tokens method h n) ≡ (
              if texts_eq (keys_of tokens) keys && (method == m)
              then some h
              else handler_at keys m n))
        × ((name : Text)
            → name_at keys n ≡ some name
            → name_at keys (set_tokens tokens method h n) ≡ some name)
  handler_at-set_tokens tokens method h n keys = (
    λ m. handler_at-set_tokens_lem tokens keys m method h n,
    λ name e. name_at-set_tokens tokens keys method h n name e,
  )
