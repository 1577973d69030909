-- ===== src/Util/Validation/Manifest.antt =====
-- util/validation.ts: the functions of a class. What ThingTalk and Genie say of a canonical form is
-- a parameter; an annotation map is the list of its names, beside the annotations that are read.
pub mod Functions
mod Tests
use genie_cloud.Base.{
  ℕ, zero, Bool, true, false, not, ◌&&◌, ◌||◌, List, [], ◌∷◌, ◌++◌, Option, none, some, Text, codes,
  if◌then◌else◌, text_eq, has_text, all_of, Result, ok, err,
}
use genie_cloud.Util.Tokenize.{clean}
use genie_cloud.Util.Validation.{forbidden_names}

abbrev pub allowed_arg_metadata : List Text
allowed_arg_metadata =
    codes "canonical" ∷ codes "prompt" ∷ codes "question" ∷ codes "counted_object" ∷ []

abbrev pub allowed_function_metadata : List Text
allowed_function_metadata =
    codes "canonical"
    ∷ codes "canonical_short"
    ∷ codes "confirmation"
    ∷ codes "confirmation_remote"
    ∷ codes "result"
    ∷ codes "formatted"
    ∷ codes "on_error"
    ∷ []

unfoldable pub validate_annotations : List Text → Bool
validate_annotations names = all_of (λ n. not (has_text forbidden_names n)) names

unfoldable pub validate_metadata : List Text → List Text → Bool
validate_metadata names allowed = all_of (λ n. has_text allowed n) names

-- A type of ThingTalk, as far as it is looked at.
pub data ArgType : Type 0 where
  array_of : ArgType → ArgType
  entity_type : Text → ArgType
  string_type other_type : ArgType

-- A canonical form: a text or a list of them.
pub data Canonical : Type 0 where
  one : Text → Canonical
  many : List Text → Canonical

pub data Confirm : Type 0 where
  confirm_enum : Text → Confirm
  confirm_boolean : Bool → Confirm
  confirm_other : Confirm

pub record Arg : Type 0 where
  pub name : Text
  pub type : ArgType
  pub metadata : List Text
  pub annotations : List Text
  pub string_values : Option Text
  pub canonical : Option Canonical

pub record FunctionDef : Type 0 where
  pub name : Text
  pub metadata : List Text
  pub annotations : List Text
  pub canonical : Option Canonical
  pub confirm : Option Confirm
  pub is_monitorable : Bool
  -- the poll interval, by whether it is negative
  pub negative_poll_interval : Option Bool
  pub has_url : Bool
  pub args : List Arg

pub data What : Type 0 where
  action query : What

pub record Options : Type 0 where
  pub check_poll_interval : Bool
  pub check_url : Bool

pub data ManifestError : Type 0 where
  bad_function_name bad_function_metadata bad_function_annotation bad_canonical bad_confirm
        missing_poll_interval negative_interval missing_url bad_argument_name bad_argument_metadata
        bad_argument_annotation bad_string_values bad_argument_canonical :
      ManifestError

-- The entities and the string types seen.
pub record Seen : Type 0 where
  pub entities : List Text
  pub string_types : List Text

abbrev pub add_text : Text → List Text → List Text
add_text t ts = if has_text ts t then ts else ts ++ t ∷ []

abbrev pub add_option : Option Text → List Text → List Text
add_option none ts = ts
add_option (some t) ts = add_text t ts

-- A canonical form that is there and is no empty text.
abbrev pub canonical_or_null : Option Canonical → Option Canonical
canonical_or_null none = none
canonical_or_null (some (one [])) = none
canonical_or_null (some (one (c ∷ s))) = some (one (c ∷ s))
canonical_or_null (some (many l)) = some (many l)

abbrev pub elem_type : ArgType → ArgType
elem_type (array_of t) = elem_type t
elem_type (entity_type e) = entity_type e
elem_type string_type = string_type
elem_type other_type = other_type

-- What the type of an argument adds.
unfoldable pub see_type : ArgType → Option Text → Seen → Result ManifestError Seen
see_type (array_of t) values seen = see_type t values seen
see_type (entity_type e) values seen = ok record {
  entities = add_text e seen.entities;
  string_types = add_option values seen.string_types;
}
see_type string_type values seen =
    ok record { entities = seen.entities; string_types = add_option values seen.string_types }
see_type other_type none seen = ok seen
see_type other_type (some v) seen = err bad_string_values

abbrev pub is_confirm_word : Text → Bool
is_confirm_word t =
    text_eq t (codes "confirm") || text_eq t (codes "auto") || text_eq t (codes "display_result")

unfoldable pub check_confirm : What → Option Confirm → Result ManifestError Confirm
check_confirm what (some (confirm_enum t)) =
    if is_confirm_word t then ok (confirm_enum t) else err bad_confirm
check_confirm what (some (confirm_boolean b)) = ok (confirm_boolean b)
check_confirm what (some confirm_other) = err bad_confirm
check_confirm query none = ok (confirm_boolean false)
check_confirm action none = ok (confirm_boolean true)

unfoldable pub check_poll : Options → What → FunctionDef → Option ManifestError
check_poll options action f = none
check_poll options query f =
    if options.check_poll_interval && f.is_monitorable
    then elim f.negative_poll_interval [
      | none ↦ some missing_poll_interval
      | some negative ↦ if negative then some negative_interval else none
    ]
    else none

module _ (is_template : List Text → Bool) (preprocesses : Arg → Bool) where
  abbrev pub strings_of : Canonical → List Text
  strings_of (one t) = t ∷ []
  strings_of (many l) = l

  -- One turn of the loop over the arguments.
  unfoldable pub check_arg : Arg → Seen → Result ManifestError (Arg × Seen)
  check_arg arg seen =
      if has_text forbidden_names arg.name
      then err bad_argument_name
      else if not (validate_metadata arg.metadata allowed_arg_metadata)
      then err bad_argument_metadata
      else if not (validate_annotations arg.annotations)
      then err bad_argument_annotation
      else elim (see_type arg.type arg.string_values seen) [
        | err e ↦ err e
        | ok seen' ↦ if preprocesses named then ok (named, seen') else err bad_argument_canonical
      ]
    where
      named : Arg
      named = elim (canonical_or_null arg.canonical) [
        | none ↦ record arg { canonical = some (one (clean arg.name)) }
        | some c ↦ arg
      ]

  unfoldable pub check_args : List Arg → Seen → Result ManifestError (List Arg × Seen)
  check_args [] seen = ok ([], seen)
  check_args (arg ∷ args) seen = elim (check_arg arg seen) [
    | err e ↦ err e
    | ok (arg', seen') ↦ elim (check_args args seen') [
      | err e ↦ err e
      | ok (args', last) ↦ ok (arg' ∷ args', last)
    ]
  ]

  abbrev pub canonical_of : FunctionDef → Result ManifestError (List Text)
  canonical_of f = elim (canonical_or_null f.canonical) [
    | none ↦ ok (clean f.name ∷ [])
    | some c ↦ if is_template (strings_of c) then ok (strings_of c) else err bad_canonical
  ]

  -- One turn of the loop over the functions.
  unfoldable pub check_function :
      Options → What → FunctionDef → Seen → Result ManifestError (FunctionDef × Seen)
  check_function options what f seen =
      if has_text forbidden_names f.name
      then err bad_function_name
      else if not (validate_metadata f.metadata allowed_function_metadata)
      then err bad_function_metadata
      else if not (validate_annotations f.annotations)
      then err bad_function_annotation
      else elim (canonical_of f) [
        | err e ↦ err e
        | ok canonical ↦ elim (check_confirm what f.confirm) [
          | err e ↦ err e
          | ok confirm ↦ elim (check_poll options what f) [
            | some e ↦ err e
            | none ↦
                if options.check_url && not f.has_url
                then err missing_url
                else elim (check_args f.args seen) [
                  | err e ↦ err e
                  | ok (args, last) ↦ ok (
                    record f {
                      canonical = some (many canonical);
                      confirm = some confirm;
                      args = args;
                    },
                    last,
                  )
                ]
          ]
        ]
      ]

  -- `validateInvocation`
  unfoldable pub validate_invocation :
      Options → What → List FunctionDef → Seen → Result ManifestError (List FunctionDef × Seen)
  validate_invocation options what [] seen = ok ([], seen)
  validate_invocation options what (f ∷ fs) seen = elim (check_function options what f seen) [
    | err e ↦ err e
    | ok (f', seen') ↦ elim (validate_invocation options what fs seen') [
      | err e ↦ err e
      | ok (fs', last) ↦ ok (f' ∷ fs', last)
    ]
  ]

  -- `validateAllInvocations`: the actions, then the queries.
  unfoldable pub validate_all_invocations :
      Options
      → List FunctionDef
      → List FunctionDef
      → Result ManifestError (List FunctionDef × List FunctionDef × Seen)
  validate_all_invocations options actions queries =
      elim (validate_invocation options action actions
        record { entities = []; string_types = [] }) [
          | err e ↦ err e
          | ok (actions', seen) ↦ elim (validate_invocation options query queries seen) [
            | err e ↦ err e
            | ok (queries', last) ↦ ok (actions', queries', last)
          ]
        ]
