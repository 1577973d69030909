-- ===== src/Util/Flags.antt =====
-- util/genie_flag_utils.ts and util/compat.ts: flags as a text, and code in the new or the old syntax.
mod Tests
use genie_cloud.Base.{
  ℕ, Bool, true, false, List, [], ◌∷◌, Text, codes, split, join, map, filter_of, text_eq,
  if◌then◌else◌, insert, Result, ok, err,
}

-- `parseFlags`, for names that are not numbers: each name between commas is set, in the order of their first places.
unfoldable pub parse_flags : Text → List (Text × Bool)
parse_flags flags = set_flags (split b',' flags) []
  where
    set_flags : List Text → List (Text × Bool) → List (Text × Bool)
    set_flags [] parsed = parsed
    set_flags (f ∷ fs) parsed = set_flags fs (insert f true parsed)

-- `makeFlags`
unfoldable pub make_flags : List (Text × Bool) → Text
make_flags flags = join (codes ",") (map (λ e. e.0) (filter_of (λ e. e.1) flags))

-- An error of a parser: a syntax error, or another.
pub record ParseError : Type 0 where
  pub is_syntax : Bool
  pub message : Text

-- `parseOldOrNewSyntax`, on what the two parsers give: the first error is thrown where both find
-- the syntax wrong.
unfoldable pub parse_old_or_new {ℓ} :
    {A : Type ℓ} → Result ParseError A → Result ParseError A → Result ParseError A
parse_old_or_new (ok a) legacy = ok a
parse_old_or_new (err e₁) legacy =
    if e₁.is_syntax
    then elim legacy [ ok a ↦ ok a | err e₂ ↦ if e₂.is_syntax then err e₁ else err e₂ ]
    else err e₁
