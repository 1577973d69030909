-- ===== src/Util/InputValidation/Tests.antt =====
-- util/input_validation.ts: the check of two keys.
use genie_cloud.Base.{
  ◌≡◌, refl, Bool, true, false, List, [], ◌∷◌, some, Text, codes, if◌then◌else◌, text_eq, leb,
  all_of, ◌&&◌,
}
use genie_cloud.Util.InputValidation.{
  string_type, object_type, integer_type, TypeSpec, base, optional, Value, null, text_value,
  number_value, bad_parameter, bad_content_type, check_key, check_base, validate, validate_post,
  is_control,
}

abbrev all_digits : Text → Bool
all_digits s = all_of (λ c. leb b'0' c && leb c b'9') s

abbrev keys : List (Text × TypeSpec)
keys = (codes "name", base string_type) ∷ (codes "count", optional integer_type) ∷ []

abbrev body : Text → Value
body key = if text_eq key (codes "name") then text_value (codes "bob") else text_value (codes "12a")

answered : validate all_digits all_digits body keys true ≡ bad_parameter (codes "count") true
unfolding validate check_key check_base is_control text_eq
answered = refl

not_json :
    validate_post all_digits all_digits keys false
      (some (codes "application/json"))
      (λ t. false)
      body
    ≡ bad_content_type false
unfolding validate_post
not_json = refl

-- `null` passes as an object, and the number of a JSON body does not pass as an integer.
json_values :
    (check_key all_digits all_digits null (base object_type) ≡ true)
    × (check_key all_digits all_digits number_value (base integer_type) ≡ false)
unfolding check_key check_base
json_values = (refl, refl)
