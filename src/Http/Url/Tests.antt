-- ===== src/Http/Url/Tests.antt =====
-- A parser that takes every text for a path.
use itex_demo.Base.{ℕ, ◌+◌, ◌≤◌, ◌≡◌, refl, ap, ◌∙◌, Option, none, some, length, arith}
use itex_demo.Base.Text.{Text, text}
use itex_demo.Http.Url.Parts.{WithinText, piece, make_url-parts}
use itex_demo.Http.Url.{Field, path_field, ParsedUrl, Url, make_url, part}

abbrev all_path : Text → Field → Option (ℕ × ℕ)
all_path full path_field = some (0, length full)
all_path full _ = none

abbrev parsed : Text → ParsedUrl
parsed full = record { field = all_path full; parsed_port = some 80 }

abbrev parse : Text → Option ParsedUrl
parse full = some (parsed full)

all_path_within :
    (full : Text) (f : Field) (off len : ℕ)
    → all_path full f ≡ some (off, len)
    → off + len ≤ length full
all_path_within full path_field off len e = ground arith
all_path_within full _ off len e = ground arith

parse-WithinText : WithinText parse
parse-WithinText full u f off len e g =
    let same : parsed full ≡ u = ap (λ o. elim o [ none ↦ parsed full | some v ↦ v ]) e in
    all_path_within full f off len (ap (λ v. v.field f) same ∙ g)

make_url-parts_example :
    (url : Url) × (make_url parse (text "/a") ≡ some url)
    × (url.full ≡ text "/a")
    × ((parsed (text "/a")).parsed_port ≡ none → url.port ≡ 0)
    × ((p : ℕ) → (parsed (text "/a")).parsed_port ≡ some p → url.port ≡ p)
    × ((f : Field) → part f url ≡ piece (all_path (text "/a") f) (text "/a"))
make_url-parts_example =
    make_url-parts parse (text "/a") (parsed (text "/a")) parse-WithinText refl refl
