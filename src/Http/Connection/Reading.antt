-- ===== src/Http/Connection/Reading.antt =====
-- Reading the text of a response, for platform/http/src/connection.cpp.
use itex_demo.Base.Text.{text_eq}
use itex_demo.Base.{
  refl, ◌∙◌, ◌/◌, ◌%◌, ◌≤◌, inr, ◌-◌, ◌+◌, ◌*◌, take, inl, ltb, zero, Bool-cases, false, some, drop,
  ◌&&◌, suc, not, if◌then◌else◌, ◌++◌, none, ap, arith, true, leb, ◌==◌, [], ◌>>=◌, ◌<◌, ◌≡◌,
}
use itex_demo.Http.Connection.{text, ◌∷◌, List, Bool, Option, Text, ℕ}
use itex_demo.Base.Decimal.{digits_before, to_string}

unfoldable pub without : ℕ → Text → Bool
without b [] = true
without b (c ∷ cs) = not (c == b) && without b cs

-- A number, from its digits so far, and what stands behind it.
unfoldable pub read_number : ℕ → Text → ℕ × Text
read_number n [] = (n, [])
read_number n (c ∷ cs) = elim (leb 48 c && ltb c 58) [
  | true ↦ read_number (n * 10 + (c - 48)) cs
  | false ↦ (n, c ∷ cs)
]

-- The bytes up to one, and what stands behind `skip` more.
unfoldable pub read_until : ℕ → ℕ → Text → Text × Text
read_until b skip [] = ([], [])
read_until b skip (c ∷ cs) = elim (c == b) [
  | true ↦ ([], drop skip cs)
  | false ↦ let (line, rest) = read_until b skip cs in (c ∷ line, rest)
]

-- Header lines, at most so many, up to an empty one.
unfoldable pub read_headers : ℕ → Text → List (Text × Text) × Text
read_headers zero t = ([], t)
read_headers (suc n) t =
    let (line, rest) = read_until 13 1 t in
    elim line [
      | [] ↦ ([], rest)
      | c ∷ cs ↦
          let (headers, behind) = read_headers n rest in
          (read_until 58 1 (c ∷ cs) ∷ headers, behind)
    ]

unfoldable pub find_header : Text → List (Text × Text) → Option Text
find_header name [] = none
find_header name ((n, value) ∷ headers) =
    if text_eq n name then some value else find_header name headers

-- A client's reading of a response of at most `n` header lines: the status, the headers, the body of as
-- many bytes as the header says, and the bytes behind it.
unfoldable pub read_response : ℕ → Text → Option ((Text × List (Text × Text)) × (Text × Text))
read_response n t =
    let (first, rest) = read_until 13 1 t in
    let (headers, behind) = read_headers n rest in
    do
      value ← find_header (text "Content-Length") headers
      let size = (read_number 0 value).0
      some ((drop 9 first, headers), (take size behind, drop size behind))

read_number-digits :
    (fuel n : ℕ) (rest : Text)
    → n < fuel
    → read_number 0 (digits_before fuel n rest) ≡ read_number n rest
unfolding read_number digits_before
read_number-digits zero n rest h = absurd (omega arith)
read_number-digits (suc fuel) n rest h = elim (Bool-cases (ltb n 10)) [
  | inl small ↦
      let digit : (leb 48 (48 + n) && ltb (48 + n) 58) ≡ true = ground arith in
      let value : 0 * 10 + (48 + n - 48) ≡ n = omega arith in
      rw (small, digits_before) (rw (digit, read_number) (ap (λ k. read_number k rest) value))
  | inr large ↦
      let ten : 10 ≤ n = ground arith in
      let digit : (leb 48 (48 + n % 10) && ltb (48 + n % 10) 58) ≡ true = ground arith in
      let value : n / 10 * 10 + (48 + n % 10 - 48) ≡ n = omega arith in
      rw (large, digits_before)
        (read_number-digits fuel (n / 10) ((48 + n % 10) ∷ rest) (omega arith)
          ∙ rw (digit, read_number) (ap (λ k. read_number k rest) value))
]

pub read_number-to_string : (n : ℕ) → (read_number 0 (to_string n)).0 ≡ n
unfolding to_string read_number
read_number-to_string n = ap (λ (x : ℕ × Text). x.0) (read_number-digits (suc n) n [] (omega arith))

pub read_until-append :
    (b skip : ℕ) (line rest : Text)
    → without b line ≡ true
    → read_until b skip (line ++ (b ∷ rest)) ≡ (line, drop skip rest)
unfolding read_until without
read_until-append b skip [] rest h =
    let same : (b == b) ≡ true = ground arith in rw (same, read_until) refl
read_until-append b skip (c ∷ line) rest h =
    let other : (c == b) ≡ false = ground arith in
    let more : without b line ≡ true = ground arith in
    rw (other, read_until)
      (ap (λ (x : Text × Text). (c ∷ x.0, x.1)) (read_until-append b skip line rest more))
