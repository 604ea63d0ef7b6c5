-- ===== src/Http/Connection/RoundTrip.antt =====
-- What is written is what a client reads, for platform/http/src/connection.cpp.
use itex_demo.Base.{
  ap₂, Option, ◌-◌, ◌>>=◌, ◌≤◌, ◌/◌, ◌%◌, inr, ◌==◌, inl, ltb, sym, ◌∙◌, some, refl, Bool-cases,
  zero, arith, suc, append_assoc, ap, false, [], ◌+◌, length, ◌&&◌, true, ◌∷◌, ◌≡◌, take, drop,
}
use itex_demo.Base.Text.{is_empty, text, text_eq}
use itex_demo.Http.Connection.StatusLine.{status_line}
use itex_demo.Http.Connection.Reading.{
  without, read_number, read_until, read_headers, find_header, read_response, read_until-append,
  read_number-to_string,
}
use itex_demo.Http.Connection.{Response, ◌++◌, ℕ, List, Text, header_lines, response_text}
use itex_demo.Base.Decimal.{digits_before, to_string}
use itex_demo.Http.Constants.{status_text, StatusCode}

-- Headers that stand on lines of their own, none of them the length.
abbrev pub AllPlain : List (Text × Text) → Type 0
AllPlain [] = Unit
AllPlain ((name, value) ∷ headers) =
    (without 13 name ≡ true)
    × (without 58 name ≡ true)
    × (without 13 value ≡ true)
    × (text_eq name (text "Content-Length") ≡ false)
    × AllPlain headers

without-append : (b : ℕ) (xs ys : Text) → without b (xs ++ ys) ≡ (without b xs && without b ys)
unfolding without
without-append b [] ys = refl
without-append b (x ∷ xs) ys = ground (arith, without-append b xs ys)

without-digits_before :
    (fuel n : ℕ) (rest : Text)
    → without 13 rest ≡ true
    → without 13 (digits_before fuel n rest) ≡ true
unfolding digits_before without
without-digits_before zero n rest h = h
without-digits_before (suc fuel) n rest h = elim (Bool-cases (ltb n 10)) [
  | inl small ↦
      let other : (48 + n == 13) ≡ false = ground arith in
      rw (small, digits_before) (rw (other, without) h)
  | inr large ↦
      let other : (48 + n % 10 == 13) ≡ false = ground arith in
      rw (large, digits_before)
        (without-digits_before fuel (n / 10) ((48 + n % 10) ∷ rest) (rw (other, without) h))
]

header_lines-append :
    (headers : List (Text × Text)) (xs ys : Text)
    → header_lines headers xs ++ ys ≡ header_lines headers (xs ++ ys)
unfolding header_lines
header_lines-append [] xs ys = refl
header_lines-append ((name, value) ∷ headers) xs ys =
    append_assoc name (58 ∷ 32 ∷ (value ++ (13 ∷ 10 ∷ header_lines headers xs))) ys
    ∙ ap (λ t. name ++ (58 ∷ 32 ∷ t))
        (append_assoc value (13 ∷ 10 ∷ header_lines headers xs) ys
          ∙ ap (λ t. value ++ (13 ∷ 10 ∷ t)) (header_lines-append headers xs ys))

-- One header line.
read_headers-line :
    (n : ℕ) (name value rest : Text) (headers : List (Text × Text)) (behind : Text)
    → without 13 name ≡ true
    → without 58 name ≡ true
    → without 13 value ≡ true
    → read_headers n rest ≡ (headers, behind)
    → read_headers (suc n) (name ++ (58 ∷ 32 ∷ (value ++ (13 ∷ 10 ∷ rest))))
      ≡ ((name, value) ∷ headers, behind)
unfolding read_headers
read_headers-line n name value rest headers behind h k l e =
    let line = name ++ (58 ∷ 32 ∷ value) in
    let whole : name ++ (58 ∷ 32 ∷ (value ++ (13 ∷ 10 ∷ rest))) ≡ line ++ (13 ∷ 10 ∷ rest) =
      sym (append_assoc name (58 ∷ 32 ∷ value) (13 ∷ 10 ∷ rest)) in
    let plain : without 13 line ≡ true =
      without-append 13 name (58 ∷ 32 ∷ value) ∙ (unfold without in rw (h, l) refl) in
    let first : read_until 13 1 (line ++ (13 ∷ 10 ∷ rest)) ≡ (line, rest) =
      read_until-append 13 1 line (10 ∷ rest) plain in
    let halves : read_until 58 1 line ≡ (name, value) =
      read_until-append 58 1 name (32 ∷ value) k in
    ap (read_headers (suc n)) whole
    ∙ by_line line (line ++ (13 ∷ 10 ∷ rest)) first halves (is_full name)
  where
    is_full : (name : Text) → is_empty (name ++ (58 ∷ 32 ∷ value)) ≡ false
    is_full [] = refl
    is_full (c ∷ cs) = refl

    by_line :
        (line t : Text)
        → read_until 13 1 t ≡ (line, rest)
        → read_until 58 1 line ≡ (name, value)
        → is_empty line ≡ false
        → read_headers (suc n) t ≡ ((name, value) ∷ headers, behind)
    by_line [] t f g i = cc
    by_line (c ∷ cs) t f g i =
        ap
          (λ (x : Text × Text). elim x.0 [
            | [] ↦ ([], x.1)
            | d ∷ ds ↦ let (hs, b) = read_headers n x.1 in (read_until 58 1 (d ∷ ds) ∷ hs, b)
          ])
          f
        ∙ ap₂ (λ (p : Text × Text) (x : List (Text × Text) × Text). (p ∷ x.0, x.1)) g e

read_headers-header_lines :
    (headers : List (Text × Text)) (n m : ℕ) (rest : Text) (more : List (Text × Text))
    (behind : Text)
    → AllPlain headers
    → n ≡ length headers + m
    → read_headers m rest ≡ (more, behind)
    → read_headers n (header_lines headers rest) ≡ (headers ++ more, behind)
unfolding header_lines
read_headers-header_lines [] n m rest more behind h l e =
    let same : n ≡ m = omega arith in rw same e
read_headers-header_lines ((name, value) ∷ headers) zero m rest more behind h l e =
    absurd (omega arith)
read_headers-header_lines ((name, value) ∷ headers) (suc n) m rest more behind (h, k, v, o, p) l e =
    read_headers-line n name value (header_lines headers rest) (headers ++ more) behind h k v
      (read_headers-header_lines headers n m rest more behind p (omega arith) e)

find_header-append :
    (headers : List (Text × Text)) (value : Text)
    → AllPlain headers
    → find_header (text "Content-Length") (headers ++ ((text "Content-Length", value) ∷ []))
      ≡ some value
unfolding find_header text_eq
find_header-append [] value h = refl
find_header-append ((name, v) ∷ headers) value (h, k, l, o, p) =
    rw (o, find_header) (find_header-append headers value p)

take-append_length : (xs ys : Text) → take (length xs) (xs ++ ys) ≡ xs
take-append_length [] ys = refl
take-append_length (x ∷ xs) ys = ap (λ t. x ∷ t) (take-append_length xs ys)

drop-append_length : (xs ys : Text) → drop (length xs) (xs ++ ys) ≡ ys
drop-append_length [] ys = refl
drop-append_length (x ∷ xs) ys = drop-append_length xs ys

-- The header of the length, and what stands behind.
read_headers-length :
    (n k : ℕ) (behind : Text)
    → read_headers
        (suc (suc n))
        (text "Content-Length: " ++ (to_string k ++ (13 ∷ 10 ∷ 13 ∷ 10 ∷ behind)))
      ≡ ((text "Content-Length", to_string k) ∷ [], behind)
read_headers-length n k behind =
    let plain : without 13 (to_string k) ≡ true =
      (unfold to_string in without-digits_before (suc k) k [] (unfold without in refl)) in
    read_headers-line (suc n) (text "Content-Length") (to_string k) (13 ∷ 10 ∷ behind) [] behind
      (unfold without in refl) (unfold without in refl) plain
      (unfold read_headers read_until in refl)

read_response-lines :
    (n size : ℕ) (t status after value behind : Text) (headers : List (Text × Text))
    → read_until 13 1 t ≡ (text "HTTP/1.1 " ++ status, after)
    → read_headers n after ≡ (headers, behind)
    → find_header (text "Content-Length") headers ≡ some value
    → (read_number 0 value).0 ≡ size
    → read_response n t ≡ some ((status, headers), (take size behind, drop size behind))
unfolding read_response
read_response-lines n size t status after value behind headers e f g h =
    rw (e, read_response)
      (rw f (rw g (ap (λ k. some ((status, headers), (take k behind, drop k behind))) h)))

-- A client reads what is written: of any response whose status has a text and whose headers stand on
-- lines of their own, none of them the length, it reads the status, the headers with the length of the
-- body behind them, the body byte for byte, and leaves what stands behind the response.
pub read_response-response_text :
    (r : Response) (code : StatusCode) (status rest : Text) (n : ℕ)
    → r.status_code ≡ some code
    → status_text code ≡ some status
    → AllPlain r.message.headers
    → length r.message.headers + 2 ≤ n
    → (response_text r >>= λ t. read_response n (t ++ rest))
      ≡ some (
        (
          status,
          r.message.headers ++ ((text "Content-Length", to_string (length r.message.body)) ∷ []),
        ),
        (r.message.body, rest),
      )
unfolding response_text header_lines
read_response-response_text r code status rest n e f h l =
    let headers = r.message.headers in
    let body = r.message.body in
    let size = to_string (length body) in
    let last : List (Text × Text) = (text "Content-Length", size) ∷ [] in
    let tail : Text → Text = λ b. text "Content-Length: " ++ (size ++ (13 ∷ 10 ∷ 13 ∷ 10 ∷ b)) in
    let first : Text = text "HTTP/1.1 " ++ status in
    let written : response_text r
        ≡ some (text "HTTP/1.1 " ++ (status ++ (13 ∷ 10 ∷ header_lines headers (tail body)))) =
      rw (e, response_text) (rw f refl) in
    let lines : header_lines headers (tail body) ++ rest
        ≡ header_lines headers (tail (body ++ rest)) =
      header_lines-append headers (tail body) rest
      ∙ ap (λ u. header_lines headers (text "Content-Length: " ++ u))
          (append_assoc size (13 ∷ 10 ∷ 13 ∷ 10 ∷ body) rest) in
    let whole : (text "HTTP/1.1 " ++ (status ++ (13 ∷ 10 ∷ header_lines headers (tail body))))
          ++ rest
        ≡ first ++ (13 ∷ 10 ∷ header_lines headers (tail (body ++ rest))) =
      ap (λ u. text "HTTP/1.1 " ++ u)
        (append_assoc status (13 ∷ 10 ∷ header_lines headers (tail body)) rest
          ∙ ap (λ u. status ++ (13 ∷ 10 ∷ u)) lines) in
    let line : without 13 first ≡ true =
      without-append 13 (text "HTTP/1.1 ") status ∙ (unfold without in status_line code status f) in
    let enough : n ≡ length headers + suc (suc (n - length headers - 2)) = omega arith in
    let read =
      read_response-lines n (length body)
        (first ++ (13 ∷ 10 ∷ header_lines headers (tail (body ++ rest)))) status
        (header_lines headers (tail (body ++ rest))) size (body ++ rest) (headers ++ last)
        (read_until-append 13 1 first (10 ∷ header_lines headers (tail (body ++ rest))) line)
        (read_headers-header_lines headers n (suc (suc (n - length headers - 2)))
          (tail (body ++ rest)) last (body ++ rest) h enough
          (read_headers-length (n - length headers - 2) (length body) (body ++ rest)))
        (find_header-append headers size h) (read_number-to_string (length body)) in
    ap (λ (o : Option Text). o >>= λ t. read_response n (t ++ rest)) written
    ∙ ap (read_response n) whole
    ∙ read
    ∙ ap₂ (λ (b u : Text). some ((status, headers ++ last), (b, u))) (take-append_length body rest)
        (drop-append_length body rest)
