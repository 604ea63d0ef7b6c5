-- ===== src/Http/Url/Parts.antt =====
-- The parts of a URL are pieces of its text.
use itex_demo.Base.{
  ℕ, ◌≤◌, ◌+◌, ◌≡◌, refl, true, false, Option, none, some, [], length, take, drop, leb, arith,
  Option-cases, inl, inr,
}
use itex_demo.Base.Text.{Text, is_empty}
use itex_demo.Http.Url.{
  Field, schema_field, host_field, path_field, query_field, fragment_field, userinfo_field,
  ParsedUrl, Url, assign_part, assign_field_value, assign_port_value, assign_fields, make_url, part,
}

-- Documented of `http_parser_parse_url`: what it reports lies within the text.
abbrev pub WithinText : (Text → Option ParsedUrl) → Type 0
WithinText parse_url =
    (full : Text) (u : ParsedUrl) (f : Field) (off len : ℕ)
    → parse_url full ≡ some u
    → u.field f ≡ some (off, len)
    → off + len ≤ length full

-- The piece that a report stands for, by its definition.
abbrev pub piece : Option (ℕ × ℕ) → Text → Text
piece none full = []
piece (some (off, len)) full = take len (drop off full)

within : (off len : ℕ) (full : Text) → off + len ≤ length full → leb off (length full) ≡ true
within off len full h = ground arith

assign_field_value_lem :
    (u : ParsedUrl) (full : Text) (f : Field)
    → ((off len : ℕ) → u.field f ≡ some (off, len) → off + len ≤ length full)
    → assign_field_value u full f ≡ some (piece (u.field f) full)
unfolding assign_field_value assign_part
assign_field_value_lem u full f h = elim (Option-cases (u.field f)) [
  | inl e ↦ rw (e, assign_field_value)
  | inr ((off, len), e) ↦ rw (e, assign_field_value, assign_part, within off len full (h off len e))
]

-- The URL of the pieces.
abbrev pieces : ParsedUrl → Text → Url
pieces u full = record {
  full = full;
  schema = piece (u.field schema_field) full;
  host = piece (u.field host_field) full;
  port = assign_port_value u;
  path = piece (u.field path_field) full;
  query = piece (u.field query_field) full;
  fragment = piece (u.field fragment_field) full;
  userinfo = piece (u.field userinfo_field) full;
}

part-pieces :
    (u : ParsedUrl) (full : Text) (f : Field) → part f (pieces u full) ≡ piece (u.field f) full
part-pieces u full schema_field = refl
part-pieces u full host_field = refl
part-pieces u full path_field = refl
part-pieces u full query_field = refl
part-pieces u full fragment_field = refl
part-pieces u full userinfo_field = refl

-- `Url(std::string)` of a text that is not empty and that `http_parser_parse_url` accepts, which
-- reports pieces within the text: no exception, the text kept whole, the port reported, or 0 where
-- none is, and each part the piece reported for it, or empty.
pub make_url-parts :
    (parse_url : Text → Option ParsedUrl) (full : Text) (u : ParsedUrl)
    → WithinText parse_url
    → is_empty full ≡ false
    → parse_url full ≡ some u
    → (url : Url) × (make_url parse_url full ≡ some url)
      × (url.full ≡ full)
      × (u.parsed_port ≡ none → url.port ≡ 0)
      × ((p : ℕ) → u.parsed_port ≡ some p → url.port ≡ p)
      × ((f : Field) → part f url ≡ piece (u.field f) full)
unfolding make_url assign_fields assign_port_value
make_url-parts parse_url full u within_text filled accepted =
    let reads : (f : Field) → assign_field_value u full f ≡ some (piece (u.field f) full) =
      λ f. assign_field_value_lem u full f (λ off len. within_text full u f off len accepted) in
    (
      pieces u full,
      rw (
        filled,
        accepted,
        reads schema_field,
        reads host_field,
        reads path_field,
        reads query_field,
        reads fragment_field,
        reads userinfo_field,
      ),
      refl,
      λ e. rw e refl,
      λ p e. rw e refl,
      part-pieces u full,
    )
