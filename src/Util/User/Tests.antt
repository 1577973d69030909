-- ===== src/Util/User/Tests.antt =====
-- util/user.ts: usernames, accounts and guards at concrete inputs.
use genie_cloud.Base.{
  ◌≡◌, ◌↔◌, refl, true, false, [], ◌∷◌, ◌++◌, none, some, Text, codes, map, ok, err, Bool, arith,
  ◌==◌, ◌&&◌, any_of, bit_and, text_eq, has_text, to_lower, starts_with,
}
use genie_cloud.Util.User.{
  Row, Request, validate_username, is_authenticated, is_name_char, has_file_extension, ends_with,
  require_log_in, require_role, require_any_role, redirected, refused, passed, anonymous_name,
}
use genie_cloud.Util.User.Role
use genie_cloud.Util.User.Account.{
  name_exists, RegisterOptions, Drawn, any_row, update_row, register, reset_password, update, Table,
}
use genie_cloud.Util.User.Account.Laws.{IsUnique, register-IsUnique}
use genie_cloud.Util.User.Guards.{
  LoggedIn, is_passed, single_roles, require_log_in-LoggedIn, require_any_role-require_role,
}

usernames :
    (validate_username (codes "bob.smith-1") ≡ true)
    × (validate_username (codes "Admin") ≡ false)
    × (validate_username (codes "bob smith") ≡ false)
    × (validate_username (codes "me.JSON") ≡ false)
unfolding validate_username has_text to_lower is_name_char has_file_extension ends_with text_eq
usernames = (refl, refl, refl, refl)

anonymous_names : anonymous_name (codes "it") ≡ codes "anonymous-it"
unfolding anonymous_name text_eq
anonymous_names = refl

abbrev salted : Text → Text → Text
salted salt password = salt ++ password

abbrev bob_options : RegisterOptions
bob_options = record {
  username = codes "bob";
  human_name = none;
  email = codes "bob@example.com";
  email_verified = none;
  password = codes "secret";
  locale = codes "en-US";
  timezone = codes "America/Los_Angeles";
  developer_org = some 0;
  developer_status = none;
  roles = some 4;
  profile_flags = none;
}

abbrev drawn : Drawn
drawn = record {
  salt = codes "s";
  cloud_id = codes "c";
  auth_token = codes "a";
  storage_key = codes "k";
}

abbrev bob : Row
bob = record {
  id = 7;
  username = codes "bob";
  human_name = none;
  email = codes "bob@example.com";
  email_verified = false;
  locale = codes "en-US";
  timezone = codes "America/Los_Angeles";
  password = some (codes "ssecret");
  salt = some (codes "s");
  cloud_id = codes "c";
  auth_token = codes "a";
  storage_key = codes "k";
  developer_org = none;
  developer_status = 0;
  roles = 4;
  profile_flags = 0;
  totp_key = some (codes "totp");
}

abbrev alice : Row
alice = record bob { id = 3; username = codes "alice"; email = codes "alice@example.com" }

abbrev two_rows : Table
two_rows = record bob { totp_key = none } ∷ alice ∷ []

-- Letters are compared without their case.
abbrev same_letters : Text → Text → Bool
unfolding to_lower text_eq
same_letters s t = text_eq (map to_lower s) (map to_lower t)

registered :
    register salted same_letters (alice ∷ []) 7 drawn bob_options
    ≡ ok (two_rows, record bob { totp_key = none })
unfolding register any_row text_eq to_lower same_letters
registered = refl

-- A name that another row has in capitals is taken.
taken :
    register salted same_letters
      (alice ∷ [])
      7
      drawn
      (record bob_options { username = codes "Alice" })
    ≡ err name_exists
unfolding register any_row text_eq to_lower same_letters
taken = refl

register-IsUnique_example :
    IsUnique same_letters two_rows
    × (two_rows ≡ two_rows)
    × (codes "bob" ≡ codes "bob")
    × (some (codes "ssecret") ≡ some (codes "ssecret"))
unfolding text_eq to_lower same_letters
register-IsUnique_example =
    register-IsUnique salted same_letters (alice ∷ []) 7 drawn bob_options (tt, tt) registered

abbrev changed_bob : Row
changed_bob = record bob { salt = some (codes "t"); password = some (codes "tnew") }

password_changed :
    update salted (bob ∷ []) bob (some (codes "secret")) (codes "t") (codes "new")
    ≡ ok (changed_bob ∷ [], changed_bob)
unfolding update reset_password update_row text_eq
password_changed = refl

abbrev request : Request
request = record {
  method = codes "GET";
  original_url = codes "/me";
  user = some bob;
  auth_info = none;
  completed_2fa = false;
}

guarded :
    (require_log_in request ≡ redirected (codes "/user/2fa/login") (some (codes "/me")))
    × (require_log_in (record request { method = codes "POST" }) ≡ refused 401)
    × (require_role Role.root request ≡ refused 403)
    × (require_any_role Role.all_admin request ≡ passed)
unfolding require_log_in require_role require_any_role is_authenticated text_eq starts_with
guarded = (refl, refl, refl, refl)

require_log_in-LoggedIn_example : (require_log_in request ≡ passed) ↔ LoggedIn request
require_log_in-LoggedIn_example = require_log_in-LoggedIn request

require_any_role-require_role_example :
    is_passed (require_any_role Role.all_admin request)
    ≡ any_of (λ r. bit_and Role.all_admin r == r && is_passed (require_role r request)) single_roles
require_any_role-require_role_example =
    require_any_role-require_role Role.all_admin request bob (omega arith) refl (omega arith)
