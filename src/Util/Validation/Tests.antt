-- ===== src/Util/Validation/Tests.antt =====
-- util/validation.ts: names and utterances at concrete inputs.
use genie_cloud.Base.{
  ◌≡◌, refl, true, [], ◌∷◌, none, some, Text, codes, ok, err, has_text, to_lower, text_eq,
  starts_with, split,
}
use genie_cloud.Util.User.{Row, ends_with, has_file_extension}
use genie_cloud.Util.User.Role
use genie_cloud.Util.Tokenize.{
  split_params, split_from, match_param, match_braced, match_option, match_close, split_camel,
}
use genie_cloud.Util.Validation.{
  validate_tag, clean_kind, invalid_id, unsafe_keyword, reserved, no_period,
}
use genie_cloud.Util.Validation.Tags.{GoodTag, validate_tag-GoodTag}
use genie_cloud.Util.Validation.Utterances.{
  validate_utterance, has_blanks, invalid_placeholder, missing_placeholder,
}
use genie_cloud.Util.Validation.Placeholders.{Passed, validate_utterance-Passed}

abbrev developer : Row
developer = record {
  id = 5;
  username = codes "dev";
  human_name = none;
  email = codes "dev@example.com";
  email_verified = true;
  locale = codes "en-US";
  timezone = codes "UTC";
  password = none;
  salt = none;
  cloud_id = [];
  auth_token = [];
  storage_key = [];
  developer_org = some 9;
  developer_status = 1;
  roles = 0;
  profile_flags = 0;
  totp_key = none;
}

tags :
    (validate_tag (codes "com.xkcd") developer none ≡ none)
    × (validate_tag (codes "com.-xkcd") developer none ≡ some invalid_id)
    × (validate_tag (codes "com.eval") developer none ≡ some unsafe_keyword)
    × (validate_tag (codes "xkcd") developer none ≡ some no_period)
    × (validate_tag (codes "org.thingpedia.weather") developer none ≡ some reserved)
    × (validate_tag (codes "org.thingpedia.test.a") developer none ≡ none)
unfolding validate_tag has_file_extension ends_with text_eq to_lower split has_text
tags = (refl, refl, refl, refl, refl, refl)

validate_tag-GoodTag_example : GoodTag (codes "com.xkcd") developer (some Role.thingpedia_admin)
unfolding validate_tag has_file_extension ends_with text_eq to_lower split has_text
validate_tag-GoodTag_example =
    validate_tag-GoodTag (codes "com.xkcd") developer (some Role.thingpedia_admin) refl

kinds : clean_kind (codes "org.thingpedia.builtin.thingengine.phoneCall") ≡ codes "phone call"
unfolding clean_kind split_camel to_lower starts_with
kinds = refl

abbrev utterance : Text
utterance = codes "tweet $status to ${who:const}"

-- A name that every object has passes for an argument.
utterances :
    (validate_utterance [] (codes "status" ∷ []) utterance
      ≡ err (invalid_placeholder (codes "who")))
    × (validate_utterance [] (codes "status" ∷ codes "x" ∷ []) (codes "tweet $status")
        ≡ err (missing_placeholder (codes "x")))
    × (validate_utterance (codes "constructor" ∷ []) [] (codes "tweet $constructor")
        ≡ ok (codes "constructor" ∷ []))
unfolding validate_utterance has_blanks starts_with split_params split_from match_param match_braced
    match_option match_close has_text text_eq
utterances = (refl, refl, refl)

validate_utterance-Passed_example : Passed [] (codes "status" ∷ codes "who" ∷ []) utterance
unfolding validate_utterance has_blanks starts_with split_params split_from match_param match_braced
    match_option match_close has_text text_eq
validate_utterance-Passed_example =
    validate_utterance-Passed [] (codes "status" ∷ codes "who" ∷ []) utterance
      (codes "who" ∷ codes "status" ∷ []) refl
