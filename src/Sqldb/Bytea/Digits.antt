-- ===== src/Sqldb/Bytea/Digits.antt =====
-- What is read is what the server wrote.
use itex_demo.Base.{
  refl, length-append, false, ◌∙◌, zero, append_assoc, ap, suc, true, sym, ◌++◌, arith, some, ◌%◌,
  get_elem?, ◌/◌, ◌+◌, [], ◌≡◌, ltb, length, ◌<◌, if◌then◌else◌, ◌*◌, ◌∷◌, Bool,
}
use itex_demo.Sqldb.Bytea.{ℕ, List, from_string, from_digits, decfromhex, int_of_char}

-- A digit as the server writes it, in either case.
unfoldable pub hex_digit : Bool → ℕ → ℕ
hex_digit upper d = if ltb d 10 then 48 + d else if upper then 55 + d else 87 + d

unfoldable pub hex_text : Bool → List ℕ → List ℕ
hex_text upper [] = []
hex_text upper (b ∷ bs) = hex_digit upper (b / 16) ∷ hex_digit upper (b % 16) ∷ hex_text upper bs

abbrev pub AllBytes : List ℕ → Type 0
AllBytes [] = Unit
AllBytes (b ∷ bs) = (b < 256) × AllBytes bs

decfromhex-hex_digit :
    (upper : Bool) (d : ℕ) → d < 16 → decfromhex (int_of_char (hex_digit upper d)) ≡ d
unfolding decfromhex int_of_char hex_digit
decfromhex-hex_digit true d h = ground arith
decfromhex-hex_digit false d h = ground arith

byte_of_digits : (b : ℕ) → b < 256 → (b / 16 * 16 + b % 16) % 4294967296 % 256 ≡ b
byte_of_digits b h = omega arith

length-hex_text : (upper : Bool) (bs : List ℕ) → length (hex_text upper bs) ≡ 2 * length bs
unfolding hex_text
length-hex_text upper [] = omega arith
length-hex_text upper (b ∷ bs) = omega (arith, length-hex_text upper bs)

-- A character of the text behind some others.
get_elem?-behind :
    (front : List ℕ) (x : ℕ) (rest : List ℕ) (i : ℕ)
    → length front ≡ i
    → get_elem? (front ++ (x ∷ rest)) i ≡ some x
get_elem?-behind [] x rest zero e = refl
get_elem?-behind [] x rest (suc i) e = ground arith
get_elem?-behind (y ∷ front) x rest zero e = ground arith
get_elem?-behind (y ∷ front) x rest (suc i) e = get_elem?-behind front x rest i (omega (arith, e))

from_digits-hex_text :
    (upper : Bool) (front bs : List ℕ) (i : ℕ)
    → length front ≡ 2 + 2 * i
    → AllBytes bs
    → from_digits (length bs) i (front ++ hex_text upper bs) ≡ some bs
unfolding from_digits hex_text
from_digits-hex_text upper front [] i e h = refl
from_digits-hex_text upper front (b ∷ bs) i e h =
    let high = hex_digit upper (b / 16) in
    let low = hex_digit upper (b % 16) in
    let text = hex_text upper bs in
    let one = get_elem?-behind front high (low ∷ text) (2 + 2 * i) e in
    let moved : front ++ (high ∷ low ∷ text) ≡ (front ++ (high ∷ [])) ++ (low ∷ text) =
      sym (append_assoc front (high ∷ []) (low ∷ text)) in
    let moved2 : front ++ (high ∷ low ∷ text) ≡ (front ++ (high ∷ low ∷ [])) ++ text =
      sym (append_assoc front (high ∷ low ∷ []) text) in
    let two : get_elem? (front ++ (high ∷ low ∷ text)) (2 + 2 * i + 1) ≡ some low = rw moved (
      get_elem?-behind (front ++ (high ∷ [])) low text (2 + 2 * i + 1)
        (omega (arith, e, length-append front (high ∷ [])))) in
    let rest : from_digits (length bs) (i + 1) (front ++ (high ∷ low ∷ text)) ≡ some bs =
      rw moved2 (
        from_digits-hex_text upper (front ++ (high ∷ low ∷ [])) bs (i + 1)
          (omega (arith, e, length-append front (high ∷ low ∷ []))) h.1) in
    rw
      (
        one,
        two,
        rest,
        decfromhex-hex_digit upper (b / 16) (omega (arith, h.0)),
        decfromhex-hex_digit upper (b % 16) (omega arith),
        byte_of_digits b h.0,
      )
      refl

-- A text that starts with two characters and has, for each of some bytes, its two hexadecimal digits,
-- in either case, is read as these bytes. Its size is a `size_t`.
pub from_string-hex_text :
    (upper : Bool) (x y : ℕ) (bs : List ℕ)
    → AllBytes bs
    → 2 * length bs + 2 < 18446744073709551616
    → from_string (x ∷ y ∷ hex_text upper bs) ≡ some bs
unfolding from_string
from_string-hex_text upper x y bs h f =
    let size : (length (x ∷ y ∷ hex_text upper bs) + 18446744073709551614)
          % 18446744073709551616
          / 2
        ≡ length bs =
      omega (arith, length-hex_text upper bs) in
    ap (λ n. from_digits n 0 (x ∷ y ∷ hex_text upper bs)) size
    ∙ from_digits-hex_text upper (x ∷ y ∷ []) bs 0 refl h
