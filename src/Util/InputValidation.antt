-- ===== src/Util/InputValidation.antt =====
-- util/input_validation.ts: the checks of the parameters of a request. A regular expression is its
-- `test`, and what `+value` makes of a text is a parameter.
pub mod Answers
mod Tests
use genie_cloud.Base.{
  ℕ, Bool, true, false, not, ◌&&◌, ◌||◌, List, [], ◌∷◌, Option, none, some, Text, leb, any_of,
  if◌then◌else◌,
}

-- The type of a parameter, an optional one (`?t`), a pattern, or a choice.
pub data BaseType : Type 0 where
  null_type string_type array_type boolean_type number_type integer_type object_type : BaseType

mutual
  pub data TypeSpec : Type 0 where
    base : BaseType → TypeSpec
    optional : BaseType → TypeSpec
    pattern_of : (Text → Bool) → TypeSpec
    choice : Specs → TypeSpec

  pub data Specs : Type 0 where
    no_specs : Specs
    cons_spec : TypeSpec → Specs → Specs

-- A value of a query or of a JSON body.
pub data Value : Type 0 where
  undefined null : Value
  text_value : Text → Value
  bool_value : Bool → Value
  number_value array_value object_value : Value

-- `/[\x00-\x08\x0e-\x1f\x7f-\x9f]/`
unfoldable pub is_control : ℕ → Bool
is_control c = leb c 0x08 || leb 0x0e c && leb c 0x1f || leb 0x7f c && leb c 0x9f

abbrev pub is_empty : Text → Bool
is_empty [] = true
is_empty (c ∷ s) = false

-- `value === undefined || value === '' || value === null`
abbrev pub is_blank : Value → Bool
is_blank undefined = true
is_blank null = true
is_blank (text_value s) = is_empty s
is_blank (bool_value b) = false
is_blank number_value = false
is_blank array_value = false
is_blank object_value = false

pub data Answer : Type 0 where
  -- `next()`
  passed : Answer
  -- status 400, in JSON or as a page
  bad_parameter : Text → Bool → Answer
  -- status 415
  bad_content_type : Bool → Answer

module _ (is_finite is_integer : Text → Bool) where
  unfoldable pub check_base : BaseType → Value → Bool
  check_base null_type null = true
  check_base null_type _ = false
  check_base array_type array_value = true
  check_base array_type _ = false
  check_base string_type (text_value s) = not (is_empty s) && not (any_of is_control s)
  check_base string_type _ = false
  check_base boolean_type undefined = true
  check_base boolean_type (text_value []) = true
  check_base boolean_type (text_value (c ∷ [])) = leb c b'1' && leb b'1' c
  check_base boolean_type (bool_value b) = true
  check_base boolean_type _ = false
  check_base number_type (text_value s) = not (is_empty s) && is_finite s
  check_base number_type _ = false
  check_base integer_type (text_value s) = not (is_empty s) && is_integer s
  check_base integer_type _ = false
  -- `typeof null` is `object`
  check_base object_type null = true
  check_base object_type object_value = true
  check_base object_type _ = false

  abbrev pub check_pattern : (Text → Bool) → Value → Bool
  check_pattern test undefined = test []
  check_pattern test (text_value s) = test s
  check_pattern test _ = false

  -- `checkKey`
  unfoldable mutual
    unfolding check_base

    pub check_key : Value → TypeSpec → Bool
    check_key value (choice options) = check_any value options
    check_key value (pattern_of test) = check_pattern test value
    check_key value (optional b) = is_blank value || check_base b value
    check_key value (base b) = check_base b value

    pub check_any : Value → Specs → Bool
    check_any value no_specs = false
    check_any value (cons_spec t ts) = check_key value t || check_any value ts

  -- `_validate`: the keys in their order, the value of each in the query or the body.
  unfoldable pub validate : (Text → Value) → List (Text × TypeSpec) → Bool → Answer
  validate body [] json = passed
  validate body ((key, spec) ∷ keys) json =
      let rest = validate body keys json in
      if not (check_key (body key) spec) then bad_parameter key json else rest

  unfoldable pub validate_get : List (Text × TypeSpec) → Bool → (Text → Value) → Answer
  validate_get keys json query = validate query keys json

  -- `accept` is the content type, where one is required, and `type_is` what `type-is` says of it.
  unfoldable pub validate_post :
      List (Text × TypeSpec) → Bool → Option Text → (Text → Bool) → (Text → Value) → Answer
  unfolding validate
  validate_post keys json accept type_is body =
      if (elim accept [ none ↦ false | some t ↦ not (is_empty t) && not (type_is t) ])
      then bad_content_type json
      else validate body keys json
