-- ===== src/Util/User.antt =====
-- util/user.ts: accounts and the guards of the routes. `pbkdf2` and the random generator are not in
-- the repository: the hash is a parameter, and what was drawn an argument.
pub mod Role
pub mod Account
pub mod Guards
mod Tests
use genie_cloud.Base.{
  ℕ, suc, ◌+◌, Bool, true, false, not, ◌&&◌, ◌||◌, List, [], ◌∷◌, ◌++◌, Option, none, some, Text,
  codes, if◌then◌else◌, ◌==◌, ltb, leb, text_eq, has_text, starts_with, to_lower, map, length,
  any_of, bit_and, Result, ok, err,
}

unfoldable pub ends_with : Text → Text → Bool
ends_with suffix [] = text_eq suffix []
ends_with suffix (c ∷ s) = text_eq suffix (c ∷ s) || ends_with suffix s

abbrev pub is_digit : ℕ → Bool
is_digit c = leb b'0' c && leb c b'9'

abbrev pub is_letter : ℕ → Bool
is_letter c = leb b'A' c && leb c b'Z' || leb b'a' c && leb c b'z'

-- The class `[\w.-]`
unfoldable pub is_name_char : ℕ → Bool
is_name_char c = is_letter c || is_digit c || c == b'_' || c == b'.' || c == b'-'

abbrev pub file_extensions : List Text
file_extensions =
    codes ".js"
    ∷ codes ".json"
    ∷ codes ".css"
    ∷ codes ".htm"
    ∷ codes ".html"
    ∷ codes ".xml"
    ∷ codes ".jpg"
    ∷ codes ".jpeg"
    ∷ codes ".png"
    ∷ codes ".gif"
    ∷ codes ".bmp"
    ∷ codes ".ico"
    ∷ codes ".tif"
    ∷ codes ".tiff"
    ∷ codes ".woff"
    ∷ []

-- The pattern `/\.(js|json|…)$/i`
unfoldable pub has_file_extension : Text → Bool
has_file_extension s = any_of (λ e. ends_with e (map to_lower s)) file_extensions

abbrev pub invalid_usernames : List Text
invalid_usernames =
    codes "admin"
    ∷ codes "moderator"
    ∷ codes "administrator"
    ∷ codes "mod"
    ∷ codes "sys"
    ∷ codes "system"
    ∷ codes "community"
    ∷ codes "info"
    ∷ codes "you"
    ∷ codes "name"
    ∷ codes "username"
    ∷ codes "user"
    ∷ codes "nickname"
    ∷ codes "discourse"
    ∷ codes "discourseorg"
    ∷ codes "discourseforum"
    ∷ codes "support"
    ∷ codes "hp"
    ∷ codes "account-created"
    ∷ codes "password-reset"
    ∷ codes "admin-login"
    ∷ codes "confirm-admin"
    ∷ codes "account-created"
    ∷ codes "activate-account"
    ∷ codes "confirm-email-token"
    ∷ codes "authorize-email"
    ∷ codes "stanfordalmond"
    ∷ codes "almondstanford"
    ∷ codes "almond"
    ∷ codes "root"
    ∷ codes "noreply"
    ∷ codes "stanford"
    ∷ []

abbrev pub max_username_length : ℕ
max_username_length = 60

unfoldable pub validate_username : Text → Bool
validate_username username =
    if ltb max_username_length (length username)
      || has_text invalid_usernames (map to_lower username)
      || any_of (λ c. not (is_name_char c)) username
      || has_file_extension username
    then false
    else true

pub record Row : Type 0 where
  pub id : ℕ
  pub username : Text
  pub human_name : Option Text
  pub email : Text
  pub email_verified : Bool
  pub locale : Text
  pub timezone : Text
  pub password : Option Text
  pub salt : Option Text
  pub cloud_id : Text
  pub auth_token : Text
  pub storage_key : Text
  pub developer_org : Option ℕ
  pub developer_status : ℕ
  pub roles : ℕ
  pub profile_flags : ℕ
  pub totp_key : Option Text

pub record AuthInfo : Type 0 where
  pub auth_method : Text
  pub scope : List Text

pub record Request : Type 0 where
  pub method : Text
  pub original_url : Text
  pub user : Option Row
  pub auth_info : Option AuthInfo
  pub completed_2fa : Bool

-- `isAuthenticated`
unfoldable pub is_authenticated : Request → Bool
is_authenticated req = elim req.user [
  | none ↦ false
  | some user ↦
      (elim req.auth_info [ none ↦ false | some info ↦ text_eq info.auth_method (codes "oauth2") ])
      || (elim user.totp_key [ none ↦ true | some key ↦ req.completed_2fa ])
]

pub data Outcome : Type 0 where
  -- `next()`
  passed : Outcome
  -- a redirect, with the page to return to, where one is kept
  redirected : Text → Option Text → Outcome
  refused : ℕ → Outcome
  type_error : Outcome

-- `requireLogIn`
unfoldable pub require_log_in : Request → Outcome
unfolding is_authenticated
require_log_in req =
    if is_authenticated req
    then passed
    else if text_eq req.method (codes "GET") || text_eq req.method (codes "HEAD")
    then redirected target return_to
    else refused 401
  where
    target : Text
    target = elim req.user [ none ↦ codes "/user/login" | some u ↦ codes "/user/2fa/login" ]

    return_to : Option Text
    return_to =
        if not (starts_with (codes "/me/api") req.original_url)
          && not (starts_with (codes "/me/recording") req.original_url)
          && not (starts_with (codes "/me/ws") req.original_url)
        then some req.original_url
        else none

-- `requireRole` and `requireAnyRole`, behind a guard that sets the user.
unfoldable pub require_role : ℕ → Request → Outcome
require_role role req = elim req.user [
  | none ↦ type_error
  | some user ↦ if bit_and user.roles role == role then passed else refused 403
]

unfoldable pub require_any_role : ℕ → Request → Outcome
require_any_role roleset req = elim req.user [
  | none ↦ type_error
  | some user ↦ if bit_and user.roles roleset == 0 then refused 403 else passed
]

-- `requireDeveloper`, with the default status of a developer.
unfoldable pub require_developer : Option ℕ → Request → Outcome
require_developer required req = elim req.user [
  | none ↦ type_error
  | some user ↦ (elim user.developer_org [
    | none ↦ refused 403
    | some org ↦
        if ltb user.developer_status (elim required [ none ↦ 1 | some n ↦ n ])
        then refused 403
        else passed
  ])
]

unfoldable pub require_scope : Text → Request → Outcome
require_scope scope req = elim req.auth_info [
  | none ↦ passed
  | some info ↦ if has_text info.scope scope then passed else refused 403
]

-- The name of the anonymous user of a language.
unfoldable pub anonymous_name : Text → Text
anonymous_name lang =
    codes "anonymous" ++ (if text_eq lang (codes "en") then [] else codes "-" ++ lang)

abbrev pub oauth_scopes : List Text
oauth_scopes =
    codes "profile"
    ∷ codes "user-read"
    ∷ codes "user-read-results"
    ∷ codes "user-exec-command"
    ∷ codes "user-sync"
    ∷ codes "developer-read"
    ∷ codes "developer-upload"
    ∷ codes "developer-admin"
    ∷ []

pub data AnonymousOutcome : Type 0 where
  -- `next()`, `next(e)` with its error, and the login of a user
  goes_on : AnonymousOutcome
  fails : Text → AnonymousOutcome
  login_required : AnonymousOutcome
  logs_in : Row → AnonymousOutcome

-- `anonymousLogin`; `found` is what `getAnonymousUser` gives, an error or the user if there is one.
unfoldable pub anonymous_login : Bool → Result Text (Option Row) → Request → AnonymousOutcome
anonymous_login enabled found req = elim req.user [
  | some user ↦ goes_on
  | none ↦ if not enabled then login_required else elim found [
    | err e ↦ fails e
    | ok none ↦ fails (codes "E_INVALID_CONFIG")
    | ok (some user) ↦ logs_in user
  ]
]
