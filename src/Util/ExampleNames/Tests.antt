-- ===== src/Util/ExampleNames/Tests.antt =====
-- util/example_names.ts: the name of one expression.
use genie_cloud.Base.{◌≡◌, refl, Bool, false, any_of, codes, List, [], ◌∷◌, ok}
use genie_cloud.Util.ExampleNames.{
  is_separator, Expression, expression_name, invocation, filter, projection, atom, enum_value,
  undefined, var_ref,
}

-- The field of the tweets of an author whose language is an enum, with a required parameter that is open.
abbrev tweets : Expression
tweets =
    projection
      (filter
        (invocation (record {
          channel = codes "home_timeline";
          in_params =
              record { name = codes "count"; value = undefined }
              ∷ record { name = codes "lang"; value = enum_value (codes "en") }
              ∷ [];
          in_req = codes "count" ∷ [];
        }))
        (atom (codes "author name") (codes ">=") (var_ref (codes "x"))))
      (codes "text" ∷ []) []

tweets_name :
    expression_name tweets ≡ ok (codes "TextOfHomeTimelineWithLangEnByAuthorNameGreaterThan")
unfolding expression_name genie_cloud.Base.text_eq genie_cloud.Base.to_upper genie_cloud.Base.join
    is_separator genie_cloud.Base.has_text
tweets_name = refl
