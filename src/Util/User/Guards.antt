-- ===== src/Util/User/Guards.antt =====
-- util/user.ts: whom the guards of the routes let through.
use genie_cloud.Base.{
  ℕ, zero, suc, ◌<◌, ◌≡◌, ◌≢◌, refl, sym, ◌↔◌, ◌⊎◌, inl, inr, Bool, true, false, not, ◌&&◌, ◌||◌,
  List, [], ◌∷◌, Option, none, some, Text, codes, if◌then◌else◌, ◌==◌, text_eq, text_eq_iff, any_of,
  bit_and, arith, ℕ_discrete, Option-cases,
}
use genie_cloud.Util.User.{
  Request, AuthInfo, Row, is_authenticated, Outcome, passed, redirected, refused, require_log_in,
  require_role, require_any_role,
}
use genie_cloud.Util.User.Role.{
  admin, blog_editor, thingpedia_admin, trusted_developer, discourse_admin, nlp_admin,
}

-- The three ways to be logged in.
pub data LoggedIn (req : Request) : Type 0 where
  by_token :
      (user : Row) (info : AuthInfo)
      → req.user ≡ some user
      → req.auth_info ≡ some info
      → info.auth_method ≡ codes "oauth2"
      → LoggedIn req
  without_2fa : (user : Row) → req.user ≡ some user → user.totp_key ≡ none → LoggedIn req
  with_2fa : (user : Row) → req.user ≡ some user → req.completed_2fa ≡ true → LoggedIn req

unfoldable pub is_passed : Outcome → Bool
is_passed passed = true
is_passed _ = false

-- The roles of one bit.
abbrev pub single_roles : List ℕ
single_roles =
    admin ∷ blog_editor ∷ thingpedia_admin ∷ trusted_developer ∷ discourse_admin ∷ nlp_admin ∷ []

abbrev any_passes : ℕ → ℕ → Bool
any_passes roles roleset = is_passed (if bit_and roles roleset == 0 then refused 403 else passed)

abbrev one_passes : ℕ → ℕ → Bool
one_passes roles roleset =
    any_of
      (λ r.
        bit_and roleset r == r && is_passed (if bit_and roles r == r then passed else refused 403))
      single_roles

abbrev same_bool : Bool → Bool → Bool
same_bool true b = b
same_bool false b = not b

same_bool_sound : (a b : Bool) → same_bool a b ≡ true → a ≡ b
same_bool_sound true b h = sym h
same_bool_sound false true h = h
same_bool_sound false false h = refl

abbrev all_below : (ℕ → Bool) → ℕ → Bool
all_below p zero = true
all_below p (suc n) = p n && all_below p n

and_left : (a b : Bool) → (a && b) ≡ true → a ≡ true
and_left a b h = ground arith

and_right : (a b : Bool) → (a && b) ≡ true → b ≡ true
and_right a b h = ground arith

all_below-get : (p : ℕ → Bool) (n : ℕ) → all_below p n ≡ true → (i : ℕ) → i < n → p i ≡ true
all_below-get p zero h i l = absurd (omega (arith, l))
all_below-get p (suc n) h i l = elim (ℕ_discrete i n) [
  | yes e ↦ rw e (and_left _ _ h)
  | no ne ↦ all_below-get p n (and_right _ _ h) i (omega (arith, ne))
]

bits_agree_below :
    all_below (λ u. all_below (λ s. same_bool (any_passes u s) (one_passes u s)) 64) 64 ≡ true
unfolding is_passed
bits_agree_below = refl

passes_below : (u s : ℕ) → u < 64 → s < 64 → any_passes u s ≡ one_passes u s
passes_below u s lu ls = same_bool_sound _ _ (
    all_below-get (λ s. same_bool (any_passes u s) (one_passes u s)) 64
      (all_below-get (λ u. all_below (λ s. same_bool (any_passes u s) (one_passes u s)) 64) 64
        bits_agree_below u lu)
      s ls)

passed_if : (b : Bool) (o : Outcome) → ((if b then passed else o) ≡ passed) → o ≢ passed → b ≡ true
passed_if true o h ne = refl
passed_if false o h ne = absurd (ne h)

stops :
    (b : Bool) (t : Text) (r : Option Text) → (if b then redirected t r else refused 401) ≢ passed
stops true t r h = cc
stops false t r h = cc

or_cases : (a b : Bool) → (a || b) ≡ true → (a ≡ true) ⊎ (b ≡ true)
or_cases true b h = inl refl
or_cases false b h = inr h

or_right : (a : Bool) → (a || true) ≡ true
or_right a = ground arith

authenticated-LoggedIn : (req : Request) → is_authenticated req ≡ true → LoggedIn req
unfolding is_authenticated
authenticated-LoggedIn req h = elim (Option-cases req.user) [
  | inl e ↦ absurd (no_user e)
  | inr (user, e) ↦ elim (or_cases (oauth req.auth_info) (second user.totp_key) (rw e at h)) [
    | inl a ↦ by_oauth user e req.auth_info refl a
    | inr b ↦ by_second user e user.totp_key refl b
  ]
]
  where
    oauth : Option AuthInfo → Bool
    oauth a = elim a [ none ↦ false | some info ↦ text_eq info.auth_method (codes "oauth2") ]

    second : Option Text → Bool
    second k = elim k [ none ↦ true | some key ↦ req.completed_2fa ]

    no_user : req.user ≢ none
    no_user e = let k = (rw e at h) in cc

    by_oauth :
        (user : Row)
        → req.user ≡ some user
        → (a : Option AuthInfo) → req.auth_info ≡ a
        → oauth a ≡ true
        → LoggedIn req
    by_oauth user e none a h = cc
    by_oauth user e (some info) a h = by_token user info e a ((text_eq_iff _ _).0 h)

    by_second :
        (user : Row)
        → req.user ≡ some user
        → (k : Option Text) → user.totp_key ≡ k
        → second k ≡ true
        → LoggedIn req
    by_second user e none k h = without_2fa user e k
    by_second user e (some key) k h = with_2fa user e h

LoggedIn-authenticated : (req : Request) → LoggedIn req → is_authenticated req ≡ true
unfolding is_authenticated
LoggedIn-authenticated req (by_token user info u a m) =
    rw u (rw a (rw ((text_eq_iff _ _).1 m) refl))
LoggedIn-authenticated req (without_2fa user u t) = rw u (rw t (or_right _))
LoggedIn-authenticated req (with_2fa user u t) = elim (Option-cases user.totp_key) [
  | inl k ↦ rw u (rw k (or_right _))
  | inr (key, k) ↦ rw u (rw k (rw t (or_right _)))
]

-- `requireLogIn` calls the handler exactly for a user who is logged in: by an OAuth token,
-- without a second factor set up, or with the second factor completed.
pub require_log_in-LoggedIn : (req : Request) → (require_log_in req ≡ passed) ↔ LoggedIn req
unfolding require_log_in is_authenticated
require_log_in-LoggedIn req = (
  λ h. authenticated-LoggedIn req (passed_if (is_authenticated req) _ h (stops _ _ _)),
  λ l. rw (LoggedIn-authenticated req l) refl,
)

-- Where roles and role set are those of the six bits, `requireAnyRole` lets a request through
-- exactly when `requireRole` of one of the roles in the set does.
pub require_any_role-require_role :
    (roleset : ℕ) (req : Request) (user : Row)
    → roleset < 64
    → req.user ≡ some user
    → user.roles < 64
    → is_passed (require_any_role roleset req)
      ≡ any_of (λ r. bit_and roleset r == r && is_passed (require_role r req)) single_roles
unfolding require_any_role require_role
require_any_role-require_role roleset req user l e lu = rw e (passes_below user.roles roleset lu l)
