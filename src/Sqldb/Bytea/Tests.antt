-- ===== src/Sqldb/Bytea/Tests.antt =====
-- Witnesses and tests of `bytea` columns.
use itex_demo.Base.{arith, some, ◌≡◌, [], false}
use itex_demo.Sqldb.Bytea.{◌∷◌, from_string}
use itex_demo.Sqldb.Bytea.Digits.{from_string-hex_text, hex_text}

from_string-hex_text_example :
    from_string (92 ∷ 120 ∷ hex_text false (0 ∷ 171 ∷ 255 ∷ [])) ≡ some (0 ∷ 171 ∷ 255 ∷ [])
from_string-hex_text_example =
    from_string-hex_text false 92 120 (0 ∷ 171 ∷ 255 ∷ [])
      (omega arith, (omega arith, (omega arith, tt))) (omega arith)
