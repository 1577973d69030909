-- ===== src/Util/Errors.antt =====
-- util/errors.ts and util/error_handling.ts: the errors that the server raises, and the answers that
-- are made of an error, as a page and as JSON.
pub mod Answers
mod Tests
use genie_cloud.Base.{
  ℕ, Bool, true, false, not, ◌&&◌, ◌||◌, List, [], ◌∷◌, Option, none, some, Text, codes, text_eq,
  if◌then◌else◌,
}

-- The classes of other libraries that the handlers tell apart.
pub data ErrorClass : Type 0 where
  oauth_error implementation_error multer_error jwt_error other_error : ErrorClass

pub data Code : Type 0 where
  text_code : Text → Code
  number_code : ℕ → Code

-- An error, with the fields that the handlers read.
pub record ExtendedError : Type 0 where
  pub class_of : ErrorClass
  pub name : Text
  pub message : Text
  pub status : Option ℕ
  pub expose : Option Bool
  pub code : Option Code
  pub errno : Option Text
  pub sql_state : Option Text

abbrev pub plain_error : Text → Text → ExtendedError
plain_error name message = record {
  class_of = other_error;
  name = name;
  message = message;
  status = none;
  expose = none;
  code = none;
  errno = none;
  sql_state = none;
}

-- `HTTPError`
unfoldable pub http_error : ℕ → Text → Text → ExtendedError
http_error status code message = record (plain_error (codes "Error") message) {
  status = some status;
  code = some (text_code code);
}

unfoldable pub bad_request_error : Text → ExtendedError
unfolding http_error
bad_request_error message = http_error 400 (codes "EINVAL") message

unfoldable pub validation_error : Text → ExtendedError
unfolding http_error
validation_error message = http_error 400 (codes "EINVAL") message

unfoldable pub forbidden_error : Text → ExtendedError
unfolding http_error
forbidden_error message = http_error 403 (codes "EPERM") message

unfoldable pub authentication_error : Text → ExtendedError
unfolding http_error
authentication_error message = http_error 401 (codes "EACCESS") message

unfoldable pub not_found_error : ExtendedError
not_found_error = record (plain_error (codes "Error") (codes "Not Found")) {
  code = some (text_code (codes "ENOENT"));
}

unfoldable pub internal_error : Text → Text → ExtendedError
internal_error code message = record (plain_error (codes "Error") message) {
  code = some (text_code code);
}

-- What the page says: the error itself, a text of its own, or a text about a part of the error.
pub data PageMessage : Type 0 where
  account_problem : Text → PageMessage
  the_error : ExtendedError → PageMessage
  the_status : ℕ → PageMessage
  no_page already_used no_permission : PageMessage
  the_code : Code → PageMessage

abbrev pub code_is : Option Code → Text → Bool
code_is (some (text_code c)) t = text_eq c t
code_is (some (number_code n)) t = false
code_is none t = false

abbrev pub text_is : Option Text → Text → Bool
text_is none t = false
text_is (some s) t = text_eq s t

-- The first of the code, the state of SQL, the number and the name that is there and not empty or zero.
abbrev pub or_text : Option Text → Code → Code
or_text none c = c
or_text (some []) c = c
or_text (some (a ∷ s)) c = text_code (a ∷ s)

abbrev pub or_code : Option Code → Code → Code
or_code none c = c
or_code (some (text_code [])) c = c
or_code (some (text_code (a ∷ s))) c = text_code (a ∷ s)
or_code (some (number_code n)) c = number_code n

abbrev pub shown_code : ExtendedError → Code
shown_code e = or_code e.code (or_text e.sql_state (or_text e.errno (text_code e.name)))

-- The branches of `html` after those on the class.
abbrev pub html_other : ExtendedError → ℕ × PageMessage
html_other e = elim e.status [
  | some status ↦ (
    status,
    elim e.expose [
      | some shown ↦ if shown then the_error e else the_status status
      | none ↦ the_error e
    ],
  )
  | none ↦
      if code_is e.code (codes "EBADCSRFTOKEN")
      then (403, the_error e)
      else if code_is e.code (codes "ENOENT") || text_is e.errno (codes "ENOENT")
      then (404, no_page)
      else if text_is e.sql_state (codes "23000")
      then (400, already_used)
      else if code_is e.code (codes "EPERM")
          || code_is e.code (codes "EACCESS")
          || text_is e.sql_state (codes "42000")
      then (403, no_permission)
      else (500, the_code (shown_code e))
]

-- `html`: the status and the message of the page.
unfoldable pub html : ExtendedError → ℕ × PageMessage
html e = elim e.class_of [
  | oauth_error ↦ (500, account_problem e.message)
  | implementation_error ↦ (500, account_problem e.message)
  | multer_error ↦ (400, the_error e)
  | jwt_error ↦ (403, the_error e)
  | other_error ↦ html_other e
]

abbrev pub json_coded : Option Code → Text → ℕ × Text
json_coded (some (number_code n)) message = (n, message)
json_coded (some (text_code c)) message =
    if text_eq c (codes "ENOENT")
    then (404, message)
    else if text_eq c (codes "EPERM")
    then (403, message)
    else if text_eq c (codes "EINVAL")
    then (400, message)
    else (500, codes "Internal Server Error")
json_coded none message = (500, codes "Internal Server Error")

abbrev pub json_other : ExtendedError → ℕ × Text
json_other e = elim e.status [
  | some status ↦ (status, e.message)
  | none ↦ json_coded e.code e.message
]

-- `json`: the status and the message of the body, which has the code beside it.
unfoldable pub json : ExtendedError → ℕ × Text
json e = elim e.class_of [
  | multer_error ↦ (400, e.message)
  | jwt_error ↦ (403, e.message)
  | oauth_error ↦ json_other e
  | implementation_error ↦ json_other e
  | other_error ↦ json_other e
]
