-- ===== src/Util/Errors/Answers.antt =====
-- util/error_handling.ts: the page and the JSON that answer an error of the server.
use genie_cloud.Base.{
  ℕ, ◌≡◌, refl, Bool, true, false, not, ◌||◌, List, [], ◌∷◌, ◌++◌, Option, none, some, Text, codes,
  text_eq, if◌then◌else◌, if-elim,
}
use genie_cloud.Util.Errors.{
  ExtendedError, bad_request_error, validation_error, forbidden_error, authentication_error,
  not_found_error, internal_error, http_error, html, json,
}

-- An error that the code of the server raises; the code of an internal one begins with E_, or is one of
-- two others.
pub data Raised : Type 0 where
  bad_request validation forbidden authentication : Text → Raised
  not_found : Raised
  internal : Text → Text → Raised
  overflow timed_out : Text → Raised

unfoldable pub raised : Raised → ExtendedError
raised (bad_request m) = bad_request_error m
raised (validation m) = validation_error m
raised (forbidden m) = forbidden_error m
raised (authentication m) = authentication_error m
raised not_found = not_found_error
raised (internal code m) = internal_error (codes "E_" ++ code) m
raised (overflow m) = internal_error (codes "EOVERFLOW") m
raised (timed_out m) = internal_error (codes "ETIMEDOUT") m

-- The status that each is meant to have.
unfoldable pub meant_status : Raised → ℕ
meant_status (bad_request m) = 400
meant_status (validation m) = 400
meant_status (forbidden m) = 403
meant_status (authentication m) = 401
meant_status not_found = 404
meant_status (internal code m) = 500
meant_status (overflow m) = 500
meant_status (timed_out m) = 500

-- The message that the body is meant to have: none of an internal error.
unfoldable pub meant_message : Raised → Text
meant_message (bad_request m) = m
meant_message (validation m) = m
meant_message (forbidden m) = m
meant_message (authentication m) = m
meant_message not_found = codes "Not Found"
meant_message (internal code m) = codes "Internal Server Error"
meant_message (overflow m) = codes "Internal Server Error"
meant_message (timed_out m) = codes "Internal Server Error"

-- An error that the server raises has the status that is meant, as a page and as JSON, and as JSON the
-- message that is meant: its own, but for an internal error, whose message is kept back.
pub answers-meant_status :
    (e : Raised)
    → ((html (raised e)).0 ≡ meant_status e) × (json (raised e) ≡ (meant_status e, meant_message e))
unfolding raised meant_status meant_message html json bad_request_error validation_error
    forbidden_error authentication_error not_found_error internal_error http_error
    genie_cloud.Base.text_eq
answers-meant_status (bad_request m) = (refl, refl)
answers-meant_status (validation m) = (refl, refl)
answers-meant_status (forbidden m) = (refl, refl)
answers-meant_status (authentication m) = (refl, refl)
answers-meant_status not_found = (refl, refl)
answers-meant_status (internal code m) = (refl, refl)
answers-meant_status (overflow m) = (refl, refl)
answers-meant_status (timed_out m) = (refl, refl)
