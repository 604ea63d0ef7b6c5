-- ===== src/Sqldb/Bytea.antt =====
-- platform/sqldb/src/result.cpp: a `bytea` column's text, which the server writes as `\x` and two
-- hexadecimal digits for each byte, read back into bytes. A character is the number of its byte; an
-- `int` is the number with its 32 bits, negative from 2 ^ 31.
pub mod Digits
mod Tests
use itex_demo.Base.{
  zero, ◌∷◌, ◌*◌, get_elem?, ◌>>=◌, ◌/◌, ◌-◌, suc, [], ◌%◌, some, ◌+◌, length, ◌||◌, Option, leb,
  ltb, if◌then◌else◌, List, ℕ,
}

-- A `char`, which is signed, as an `int`.
unfoldable pub int_of_char : ℕ → ℕ
int_of_char c = if ltb c 128 then c else c + 4294967040

-- `decfromhex`
unfoldable pub decfromhex : ℕ → ℕ
decfromhex x =
    if leb 2147483648 x || ltb x 58
    then (x + 4294967248) % 4294967296
    else if ltb x 71
    then x - 55
    else (x + 4294967209) % 4294967296

-- The loop of `from_string` from `i` on; `none` is a read beyond the text.
unfoldable pub from_digits : ℕ → ℕ → List ℕ → Option (List ℕ)
from_digits zero i str = some []
from_digits (suc n) i str = do
  high ← get_elem? str (2 + 2 * i)
  low ← get_elem? str (2 + 2 * i + 1)
  rest ← from_digits n (i + 1) str
  some (
      (decfromhex (int_of_char high) * 16 + decfromhex (int_of_char low)) % 4294967296 % 256 ∷ rest)

-- `from_string<bytea>`; the size is a `size_t`, which wraps where the text is too short.
unfoldable pub from_string : List ℕ → Option (List ℕ)
from_string str = from_digits ((length str + 18446744073709551614) % 18446744073709551616 / 2) 0 str
