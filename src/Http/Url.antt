-- ===== src/Http/Url.antt =====
-- platform/http/src/url.cpp: a URL and its parts. `http_parser_parse_url` is a parameter: the
-- place and the length of each part that it found, and the port, or none if it refuses the text.
pub mod Parts
mod Tests
use itex_demo.Base.{
  ℕ, ◌≤◌, ◌+◌, Option, none, some, List, [], ◌++◌, length, take, drop, leb, if◌then◌else◌, ◌>>=◌,
}
use itex_demo.Base.Text.{Text, is_empty}

-- The fields of `http_parser_url` that are texts.
pub data Field : Type 0 where
  schema_field host_field path_field query_field fragment_field userinfo_field : Field

-- `http_parser_url`: a field's offset and length if its bit of `field_set` is 1.
pub record ParsedUrl : Type 0 where
  pub field : Field → Option (ℕ × ℕ)
  pub parsed_port : Option ℕ

-- `class Url`
pub record Url : Type 0 where
  pub full : Text
  pub schema : Text
  pub host : Text
  pub port : ℕ
  pub path : Text
  pub query : Text
  pub fragment : Text
  pub userinfo : Text

-- `Url()`
abbrev pub empty_url : Url
empty_url = record {
  full = [];
  schema = [];
  host = [];
  port = 0;
  path = [];
  query = [];
  fragment = [];
  userinfo = [];
}

-- `std::string::assign(str, off, len)`; none for `std::out_of_range`.
unfoldable pub assign_part : Text → ℕ → ℕ → Option Text
assign_part full off len = if leb off (length full) then some (take len (drop off full)) else none

-- `assign_field_value` into a field that is empty.
unfoldable pub assign_field_value : ParsedUrl → Text → Field → Option Text
unfolding assign_part
assign_field_value u full f = elim (u.field f) [
  | none ↦ some []
  | some (off, len) ↦ assign_part full off len
]

-- `assign_port_value` into a port that is 0.
unfoldable pub assign_port_value : ParsedUrl → ℕ
assign_port_value u = elim u.parsed_port [ none ↦ 0 | some p ↦ p ]

-- The fields that `Url(std::string)` reads, in its order.
unfoldable pub assign_fields : ParsedUrl → Text → Option Url
unfolding assign_field_value assign_port_value
assign_fields u full_text = do
  s ← assign_field_value u full_text schema_field
  h ← assign_field_value u full_text host_field
  p ← assign_field_value u full_text path_field
  q ← assign_field_value u full_text query_field
  f ← assign_field_value u full_text fragment_field
  i ← assign_field_value u full_text userinfo_field
  some (record {
    full = full_text;
    schema = s;
    host = h;
    port = assign_port_value u;
    path = p;
    query = q;
    fragment = f;
    userinfo = i;
  })

-- `Url(std::string full_url_str)`; none for the exceptions.
unfoldable pub make_url : (Text → Option ParsedUrl) → Text → Option Url
unfolding assign_fields
make_url parse_url full_url_str =
    if is_empty full_url_str
    then some empty_url
    else (parse_url full_url_str >>= λ u. assign_fields u full_url_str)

-- The part of a URL for a field.
abbrev pub part : Field → Url → Text
part schema_field url = url.schema
part host_field url = url.host
part path_field url = url.path
part query_field url = url.query
part fragment_field url = url.fragment
part userinfo_field url = url.userinfo
