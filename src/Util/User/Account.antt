-- ===== src/Util/User/Account.antt =====
-- util/user.ts: accounts in the table of users. `hash` stands for `hashPassword`, which calls
-- `pbkdf2`; what was drawn at random is an argument, and so is the collation of the columns.
use genie_cloud.Base.{
  ℕ, zero, suc, Bool, true, false, not, ◌&&◌, List, [], ◌∷◌, Option, none, some, Text,
  if◌then◌else◌, ◌==◌, text_eq, any_of, Result, ok, err,
}
use genie_cloud.Util.User.{Row}
pub mod Laws

pub data UserError : Type 0 where
  name_exists email_exists invalid_old_password : UserError

pub record RegisterOptions : Type 0 where
  pub username : Text
  pub human_name : Option Text
  pub email : Text
  pub email_verified : Option Bool
  pub password : Text
  pub locale : Text
  pub timezone : Text
  pub developer_org : Option ℕ
  pub developer_status : Option ℕ
  pub roles : Option ℕ
  pub profile_flags : Option ℕ

-- What `register` draws: `makeRandom()` and `makeRandom(8)`.
pub record Drawn : Type 0 where
  pub salt : Text
  pub cloud_id : Text
  pub auth_token : Text
  pub storage_key : Text

-- `x || null` for a text and for a number, and `x || y`.
abbrev pub text_or_null : Option Text → Option Text
text_or_null none = none
text_or_null (some []) = none
text_or_null (some (c ∷ s)) = some (c ∷ s)

abbrev pub number_or_null : Option ℕ → Option ℕ
number_or_null none = none
number_or_null (some zero) = none
number_or_null (some (suc n)) = some (suc n)

abbrev pub or_default {ℓ} : {A : Type ℓ} → A → Option A → A
or_default d none = d
or_default d (some x) = x

abbrev pub Table : Type 0
Table = List Row

unfoldable pub any_row : (Row → Bool) → Table → Bool
any_row p rows = any_of p rows

abbrev pub truthy : Option Text → Bool
truthy none = false
truthy (some []) = false
truthy (some (c ∷ s)) = true

-- Rows with an id take new values.
unfoldable pub update_row : ℕ → (Row → Row) → Table → Table
update_row id f [] = []
update_row id f (r ∷ rows) = (if r.id == id then f r else r) ∷ update_row id f rows

module _ (hash : Text → Text → Text) where
  -- `register`; the database gives the new row an id, and `same` is how its collation compares names.
  unfoldable pub register :
      (Text → Text → Bool) → Table → ℕ → Drawn → RegisterOptions → Result UserError (Table × Row)
  unfolding any_row
  register same rows id drawn options =
      if any_row (λ r. same r.username options.username) rows
      then err name_exists
      else if any_row (λ r. same r.email options.email) rows
      then err email_exists
      else ok (created ∷ rows, created)
    where
      created : Row
      created = record {
        id = id;
        username = options.username;
        human_name = text_or_null options.human_name;
        password = some (hash drawn.salt options.password);
        email = options.email;
        email_verified = or_default false options.email_verified;
        locale = options.locale;
        timezone = options.timezone;
        salt = some drawn.salt;
        cloud_id = drawn.cloud_id;
        auth_token = drawn.auth_token;
        storage_key = drawn.storage_key;
        developer_org = number_or_null options.developer_org;
        developer_status = or_default 0 options.developer_status;
        roles = or_default 0 options.roles;
        profile_flags = or_default 0 options.profile_flags;
        totp_key = none;
      }

  -- `resetPassword`: the table, and the user object that the caller holds.
  unfoldable pub reset_password : Table → Row → Text → Text → Table × Row
  unfolding update_row
  reset_password rows user salt password = (
    update_row user.id (λ r. record r { salt = some salt; password = some (hash salt password) })
        rows,
    record user { salt = some salt; password = some (hash salt password) },
  )

  -- `user.password !== await hashPassword(user.salt, oldpassword)`
  abbrev pub matches : Option Text → Option Text → Text → Bool
  matches none stored password = false
  matches (some salt) none password = false
  matches (some salt) (some stored) password = text_eq stored (hash salt password)

  -- `update`: the same, behind a check of the old password where there is one.
  unfoldable pub update : Table → Row → Option Text → Text → Text → Result UserError (Table × Row)
  unfolding reset_password
  update rows user old_password salt password =
      if truthy user.salt && truthy user.password && not (old_matches old_password)
      then err invalid_old_password
      else ok (reset_password rows user salt password)
    where
      old_matches : Option Text → Bool
      old_matches none = false
      old_matches (some old) = truthy (some old) && matches user.salt user.password old

-- `makeDeveloper`
unfoldable pub make_developer : Table → ℕ → Option ℕ → ℕ → Table
unfolding update_row
make_developer rows id org status = elim org [
  | some o ↦
      update_row id (λ r. record r { developer_org = some o; developer_status = status }) rows
  | none ↦ update_row id (λ r. record r { developer_org = none; developer_status = 0 }) rows
]
