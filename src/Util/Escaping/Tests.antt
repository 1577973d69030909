-- ===== src/Util/Escaping/Tests.antt =====
-- util/escaping.ts: a text with a quote, a backslash and a line end.
use genie_cloud.Base.{◌≡◌, refl, ◌++◌, some, codes}
use genie_cloud.Util.Escaping.{string_escape, escape_quotes, escape_newlines}
use genie_cloud.Util.Escaping.Reading.{read_literal, read_literal-string_escape}

escaped : string_escape (some (codes "a\"b\\c\nd")) ≡ codes "\"a\\\"b\\\\c\\nd\""
unfolding string_escape escape_quotes escape_newlines
escaped = refl

read_literal-string_escape_example :
    read_literal (string_escape (some (codes "say \"n\"\n")) ++ codes " + 1")
    ≡ some (codes "say \"n\"\n", codes " + 1")
read_literal-string_escape_example = read_literal-string_escape (codes "say \"n\"\n") (codes " + 1")
