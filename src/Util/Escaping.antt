-- ===== src/Util/Escaping.antt =====
-- util/escaping.ts: a text as a string literal.
pub mod Reading
mod Tests
use genie_cloud.Base.{
  ℕ, Bool, true, false, ◌||◌, List, [], ◌∷◌, ◌++◌, Option, none, some, Text, codes, if◌then◌else◌,
  ◌==◌,
}

-- `replace(/(["\\])/g, '\\$1')` and `replace(/\n/g, '\\n')`
unfoldable pub escape_quotes : Text → Text
escape_quotes [] = []
escape_quotes (c ∷ s) =
    let rest = escape_quotes s in if c == b'"' || c == b'\\' then b'\\' ∷ c ∷ rest else c ∷ rest

unfoldable pub escape_newlines : Text → Text
escape_newlines [] = []
escape_newlines (c ∷ s) =
    let rest = escape_newlines s in if c == 10 then b'\\' ∷ b'n' ∷ rest else c ∷ rest

-- `stringEscape`; `none` is null and undefined.
unfoldable pub string_escape : Option Text → Text
string_escape none = codes "null"
string_escape (some s) = b'"' ∷ (escape_newlines (escape_quotes s) ++ b'"' ∷ [])
