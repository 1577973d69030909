-- ===== src/Util/Requests.antt =====
-- util/pagination.ts and util/origin.ts: the page that a request asks for, and its origin.
mod Laws
mod Tests
use genie_cloud.Base.{
  ℕ, Bool, true, false, List, [], ◌∷◌, Option, none, some, Text, if◌then◌else◌, ltb, has_text,
  to_lower, map, ℤ, pos, negsuc,
}

-- A number of the query, `none` where `parseInt` gives none, that is finite and not negative.
abbrev pub natural_or : ℕ → Option ℤ → ℕ
natural_or d none = d
natural_or d (some (pos n)) = n
natural_or d (some (negsuc n)) = d

-- `validatePageAndSize`, with `parseInt` as a parameter.
unfoldable pub validate_page_and_size :
    (Text → Option ℤ) → Option Text → Option Text → ℕ → ℕ → ℕ × ℕ
validate_page_and_size parse_int page page_size default_value max_value = (
  elim page [ none ↦ 0 | some t ↦ natural_or 0 (parse_int t) ],
  if ltb max_value size then max_value else size,
)
  where
    size : ℕ
    size = elim page_size [ none ↦ default_value | some t ↦ natural_or default_value (parse_int t) ]

-- The header `Origin`: not there, a text, or something else.
pub data OriginHeader : Type 0 where
  no_origin : OriginHeader
  origin : Text → OriginHeader
  other_origin : OriginHeader

-- `isOriginOk`; the allowed origins are of the configuration.
unfoldable pub is_origin_ok : List Text → OriginHeader → Bool
is_origin_ok allowed no_origin = true
is_origin_ok allowed other_origin = false
is_origin_ok allowed (origin o) = has_text allowed (map to_lower o)
