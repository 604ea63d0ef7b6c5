-- ===== src/Http/Router/Lookup.antt =====
-- What `Router::get` finds after `Router::set`, whatever was registered before.
use itex_demo.Base.{
  ℕ, ◌≡◌, refl, ◌∙◌, ap, fun_ext, true, false, none, some, List, [], ◌∷◌, arith, sym, ◌||◌,
  if◌then◌else◌,
}
use itex_demo.Base.Text.{Text, is_empty, text_eq, text_eq_iff, text_eq_refl}
use itex_demo.Http.Constants.{Method, method_index}
use itex_demo.Http.Router.Paths.{child_or_new, find_child-with_child, find_handler-put_handler}
use itex_demo.Http.Router.{
  Params, Node, node, Children, no_children, child, param_key, is_literal, rule_key, rule_name,
  put_param, find_child, has_child, with_child, set_tokens, url_key, name_of, get_tokens, routed,
  set, get,
}

-- The tokens that `set` and `get` do not skip.
unfoldable pub segments : List Text → List Text
segments [] = []
segments (token ∷ tokens) = if is_empty token then segments tokens else token ∷ segments tokens

-- A rule without parameters: no segment starts with a colon.
abbrev pub AllLiteral : List Text → Type 0
AllLiteral [] = Unit {0}
AllLiteral (token ∷ tokens) = (is_literal token ≡ true) × AllLiteral tokens

pub is_literal-param_key :
    (t : Text) → is_literal t ≡ true → is_empty t ≡ false → text_eq t param_key ≡ false
unfolding is_literal text_eq
is_literal-param_key [] h e = ground arith
is_literal-param_key (c ∷ cs) h e = ground arith

pub rule_key_lem : (t : Text) → is_literal t ≡ true → rule_key t ≡ t
unfolding rule_key
rule_key_lem t h = ground arith

pub rule_name_lem : (t : Text) → is_literal t ≡ true → rule_name t ≡ t
unfolding rule_name
rule_name_lem t h = ground arith

module _ {H : Type 0} where
  has_child-find :
      (key : Text) (kids : Children H) (n : Node H)
      → find_child key kids ≡ some n
      → has_child key kids ≡ true
  unfolding find_child has_child
  has_child-find key no_children n e = ground arith
  has_child-find key (child k x rest) n e = ground (arith, has_child-find key rest n)

  pub set_tokens-segments :
      (ts : List Text) (m : ℕ) (h : H) (n : Node H)
      → set_tokens ts m h n ≡ set_tokens (segments ts) m h n
  unfolding set_tokens segments
  set_tokens-segments [] m h n = refl
  set_tokens-segments ([] ∷ ts) m h (node name kids handlers) =
      set_tokens-segments ts m h (node name kids handlers)
  set_tokens-segments ((c ∷ cs) ∷ ts) m h (node name kids handlers) =
      ap (λ f. node name (with_child (rule_key (c ∷ cs)) (rule_name (c ∷ cs)) f kids) handlers)
        (fun_ext (set_tokens-segments ts m h))

  pub get_tokens-segments :
      (ts : List Text) (m : ℕ) (ps : Params) (n : Node H)
      → get_tokens ts m ps n ≡ get_tokens (segments ts) m ps n
  unfolding get_tokens segments
  get_tokens-segments [] m ps n = refl
  get_tokens-segments ([] ∷ ts) m ps (node name kids handlers) =
      get_tokens-segments ts m ps (node name kids handlers)
  get_tokens-segments ((c ∷ cs) ∷ ts) m ps (node name kids handlers) = λ i.
      elim (find_child (url_key (c ∷ cs) kids) kids) [
        | none ↦ none
        | some n ↦
            get_tokens-segments ts m
              (if text_eq (url_key (c ∷ cs) kids) param_key
                then put_param (name_of n) (c ∷ cs) ps
                else ps)
              n i
      ]

  pub get_tokens-skip :
      (ts : List Text) (m : ℕ) (ps : Params) (n : Node H)
      → get_tokens ([] ∷ ts) m ps n ≡ get_tokens ts m ps n
  unfolding get_tokens
  get_tokens-skip ts m ps (node name kids handlers) = refl

  pub name_of-set_tokens :
      (ts : List Text) (m : ℕ) (h : H) (n : Node H) → name_of (set_tokens ts m h n) ≡ name_of n
  unfolding set_tokens
  name_of-set_tokens [] m h (node name kids handlers) = refl
  name_of-set_tokens ([] ∷ ts) m h (node name kids handlers) =
      name_of-set_tokens ts m h (node name kids handlers)
  name_of-set_tokens ((c ∷ cs) ∷ ts) m h (node name kids handlers) = refl

  -- One step of `get`, into the child at `key`.
  get_tokens-enter :
      (c : ℕ) (cs : Text) (us : List Text) (m : ℕ) (ps : Params) (name : Text) (kids : Children H)
      (handlers : List (ℕ × H)) (key : Text) (n : Node H)
      → url_key (c ∷ cs) kids ≡ key
      → find_child key kids ≡ some n
      → get_tokens ((c ∷ cs) ∷ us) m ps (node name kids handlers)
        ≡ get_tokens us m
            (if text_eq key param_key then put_param (name_of n) (c ∷ cs) ps else ps)
            n
  unfolding get_tokens
  get_tokens-enter c cs us m ps name kids handlers key n ek ef =
      rw (ek, get_tokens, ef, get_tokens) (rw ek)

  -- One step of `get` with the segment `d ∷ ds`, after a `set` with the segment `c ∷ cs` that goes
  -- to the same key.
  pub get_tokens-set_tokens_enter :
      (c : ℕ) (cs : Text) (ts : List Text) (d : ℕ) (ds : Text) (us : List Text) (m : ℕ) (h : H)
      (ps : Params) (name : Text) (kids : Children H) (handlers : List (ℕ × H))
      → let key = rule_key (c ∷ cs) in
        let label = rule_name (c ∷ cs) in
        let n = child_or_new key label kids in
        url_key (d ∷ ds) (with_child key label (set_tokens ts m h) kids) ≡ key
        → get_tokens ((d ∷ ds) ∷ us) m ps (set_tokens ((c ∷ cs) ∷ ts) m h (node name kids handlers))
          ≡ get_tokens us m
              (if text_eq key param_key then put_param (name_of n) (d ∷ ds) ps else ps)
              (set_tokens ts m h n)
  unfolding set_tokens
  get_tokens-set_tokens_enter c cs ts d ds us m h ps name kids handlers e =
      let key = rule_key (c ∷ cs) in
      let label = rule_name (c ∷ cs) in
      let n = child_or_new key label kids in
      let found : find_child key (with_child key label (set_tokens ts m h) kids)
          ≡ some (set_tokens ts m h n) =
        find_child-with_child key label key (set_tokens ts m h) kids ∙ rw (text_eq_refl key) in
      get_tokens-enter d ds us m ps name _ handlers key _ e found
      ∙ ap
          (λ l.
            get_tokens us m (if text_eq key param_key then put_param l (d ∷ ds) ps else ps)
              (set_tokens ts m h n))
          (name_of-set_tokens ts m h n)

  -- The child that `set` made or kept is there for `get`.
  pub has_child-with_child :
      (key label k : Text) (change : Node H → Node H) (kids : Children H)
      → has_child k (with_child key label change kids) ≡ (text_eq key k || has_child k kids)
  unfolding has_child with_child
  has_child-with_child key label k change no_children = ground arith
  has_child-with_child key label k change (child j n rest) = ground (
    arith,
    has_child-with_child key label k change rest,
    text_eq_iff j key,
    text_eq_iff j k,
    text_eq_iff key k,
  )

  pub set_tokens-skip :
      (ts : List Text) (m : ℕ) (h : H) (n : Node H)
      → set_tokens ([] ∷ ts) m h n ≡ set_tokens ts m h n
  unfolding set_tokens
  set_tokens-skip ts m h (node name kids handlers) = refl

  -- At the end of the path `get` finds the handler that `set` has put there.
  pub get_tokens-set_tokens_end :
      (m : ℕ) (h : H) (ps : Params) (n : Node H)
      → get_tokens [] m ps (set_tokens [] m h n) ≡ some (h, ps)
  unfolding get_tokens set_tokens
  get_tokens-set_tokens_end m h ps (node name kids handlers) =
      ground (arith, find_handler-put_handler m m h handlers)

  url_key-with_child :
      (token key label : Text) (change : Node H → Node H) (kids : Children H)
      → key ≡ token
      → url_key token (with_child key label change kids) ≡ key
  unfolding url_key
  url_key-with_child token key label change kids e =
      ground (arith, has_child-with_child key label token change kids, text_eq_iff key token)

  get_tokens-set_tokens :
      (ts : List Text) (m : ℕ) (h : H) (ps : Params) (n : Node H)
      → AllLiteral (segments ts)
      → get_tokens ts m ps (set_tokens ts m h n) ≡ some (h, ps)
  unfolding segments
  get_tokens-set_tokens [] m h ps (node name kids handlers) l =
      get_tokens-set_tokens_end m h ps (node name kids handlers)
  get_tokens-set_tokens ([] ∷ ts) m h ps (node name kids handlers) l =
      get_tokens-skip ts m ps (set_tokens ([] ∷ ts) m h (node name kids handlers))
      ∙ ap (get_tokens ts m ps) (set_tokens-skip ts m h (node name kids handlers))
      ∙ get_tokens-set_tokens ts m h ps (node name kids handlers) l
  get_tokens-set_tokens ((c ∷ cs) ∷ ts) m h ps (node name kids handlers) l =
      let token = c ∷ cs in
      let key = rule_key_lem token l.0 in
      get_tokens-set_tokens_enter c cs ts c cs ts m h ps name kids handlers
        (url_key-with_child token (rule_key token) _ _ kids key)
      ∙ rw (key, is_literal-param_key token l.0 refl) (get_tokens-set_tokens ts m h ps _ l.1)

  url_key-with_param :
      (token label : Text) (change : Node H → Node H) (kids : Children H)
      → has_child token kids ≡ false
      → url_key token (with_child param_key label change kids) ≡ param_key
  unfolding url_key
  url_key-with_param token label change kids e =
      ground
        (arith, has_child-with_child param_key label token change kids, text_eq_iff param_key token)

  child_or_new_found :
      (key name : Text) (kids : Children H) (n : Node H)
      → find_child key kids ≡ some n
      → child_or_new key name kids ≡ n
  unfolding child_or_new
  child_or_new_found key name kids n e = rw (e, child_or_new)

  get_tokens-set_param :
      (name : Text) (d : ℕ) (ds : Text) (m : ℕ) (h : H) (root : Text) (kids : Children H)
      (handlers : List (ℕ × H)) (param : Node H)
      → find_child param_key kids ≡ some param
      → has_child (d ∷ ds) kids ≡ false
      → get_tokens
          ((d ∷ ds) ∷ [])
          m
          []
          (set_tokens ((58 ∷ name) ∷ []) m h (node root kids handlers))
        ≡ some (h, (name_of param, d ∷ ds) ∷ [])
  unfolding rule_key rule_name put_param text_eq
  get_tokens-set_param name d ds m h root kids handlers param ef eh =
      get_tokens-set_tokens_enter 58 name [] d ds [] m h [] root kids handlers
        (url_key-with_param (d ∷ ds) _ _ kids eh)
      ∙ get_tokens-set_tokens_end m h _ _
      ∙ ap (λ n. some (h, (name_of n, d ∷ ds) ∷ []))
          (child_or_new_found param_key name kids param ef)

module _ {H : Type 0} (split_url_path : Text → List Text) where
  -- A rule without parameters serves its own URL, whatever was registered before it: `get` with a
  -- path of the same non-empty segments, and the same method, gives the handler just set, and no
  -- parameters.
  pub get-set_literal :
      (rule url : Text) (method : Method) (handler : H) (root : Node H)
      → AllLiteral (segments (split_url_path rule))
      → segments (split_url_path url) ≡ segments (split_url_path rule)
      → get split_url_path url method (set split_url_path rule method handler root)
        ≡ routed handler []
  unfolding get set
  get-set_literal rule url method handler root literal agree =
      let m = method_index method in
      let ts = split_url_path rule in
      let us = split_url_path url in
      let root' = set_tokens ts m handler root in
      let reached : get_tokens us m [] root' ≡ some (handler, []) =
        get_tokens-segments us m [] root'
        ∙ ap (λ l. get_tokens l m [] root') agree
        ∙ sym (get_tokens-segments ts m [] root')
        ∙ get_tokens-set_tokens ts m handler [] root literal in
      rw (reached, get)

  -- Where a parameter already stands, a rule that spells it otherwise does not rename it: the value
  -- is passed under the name that was registered first.
  pub get-set_param_name :
      (url rule name value : Text) (method : Method) (handler : H) (root : Text) (kids : Children H)
      (handlers : List (ℕ × H)) (param : Node H)
      → split_url_path rule ≡ (58 ∷ name) ∷ []
      → split_url_path url ≡ value ∷ []
      → is_empty value ≡ false
      → find_child param_key kids ≡ some param
      → has_child value kids ≡ false
      → get split_url_path url method
          (set split_url_path rule method handler (node root kids handlers))
        ≡ routed handler ((name_of param, value) ∷ [])
  unfolding get set
  get-set_param_name url rule name [] method handler root kids handlers param er eu ev ef eh =
      ground arith
  get-set_param_name url rule name (d ∷ ds) method handler root kids handlers param er eu ev ef eh =
      let m = method_index method in
      let reached : get_tokens (split_url_path url) m []
            (set_tokens (split_url_path rule) m handler (node root kids handlers))
          ≡ some (handler, (name_of param, d ∷ ds) ∷ []) =
        rw (er, eu) (get_tokens-set_param name d ds m handler root kids handlers param ef eh) in
      rw (reached, get)
