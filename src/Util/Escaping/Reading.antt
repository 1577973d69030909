-- ===== src/Util/Escaping/Reading.antt =====
-- util/escaping.ts: about the reading of a literal.
use genie_cloud.Base.{
  ℕ, ◌≡◌, refl, ap, append_assoc, ◌∙◌, Bool, true, false, [], ◌∷◌, ◌++◌, Option, none, some, Text,
  if◌then◌else◌, ◌==◌, arith,
}
use genie_cloud.Util.Escaping.{escape_quotes, escape_newlines, string_escape}

abbrev pub with_char : ℕ → Option (Text × Text) → Option (Text × Text)
with_char c none = none
with_char c (some (s, r)) = some (c ∷ s, r)

-- A reader of string literals, after the opening quote: the text, and what follows the closing
-- quote. The flag says whether the last character was a backslash.
unfoldable pub read_string : Bool → Text → Option (Text × Text)
read_string escaped [] = none
read_string true (c ∷ s) = with_char (if c == b'n' then 10 else c) (read_string false s)
read_string false (c ∷ s) =
    let plain = read_string false s in
    let after = read_string true s in
    if c == b'"' then some ([], s) else if c == b'\\' then after else with_char c plain

unfoldable pub read_literal : Text → Option (Text × Text)
read_literal [] = none
read_literal (c ∷ s) = if c == b'"' then read_string false s else none

read_string-escape :
    (s r : Text) → read_string false (escape_newlines (escape_quotes s) ++ b'"' ∷ r) ≡ some (s, r)
unfolding read_string escape_newlines escape_quotes
read_string-escape [] r = refl
read_string-escape (c ∷ s) r = let rest = read_string-escape s r in ground (arith, rest)

-- The literal of a text, with anything after it, reads as the text and what comes after.
pub read_literal-string_escape :
    (s r : Text) → read_literal (string_escape (some s) ++ r) ≡ some (s, r)
unfolding read_literal string_escape
read_literal-string_escape s r =
    ap (λ t. read_string false t) (append_assoc (escape_newlines (escape_quotes s)) (b'"' ∷ []) r)
    ∙ read_string-escape s r
