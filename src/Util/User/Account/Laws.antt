-- ===== src/Util/User/Account/Laws.antt =====
-- util/user.ts: about the usernames and emails of the table, and about the change of a password.
use genie_cloud.Base.{
  ℕ, ◌||◌, ◌&&◌, Bool-cases, ◌≡◌, ◌≢◌, refl, sym, ap, ◌∙◌, subst, inl, inr, Bool, true, false, not,
  [], ◌∷◌, Option, none, some, Text, if◌then◌else◌, ◌==◌, text_eq, text_eq_iff, text_eq_refl,
  any_of, All, Result, ok, err, arith,
}
use genie_cloud.Util.User.{Row}
use genie_cloud.Util.User.Account.{
  UserError, invalid_old_password, RegisterOptions, Drawn, Table, any_row, truthy, update_row,
  register, reset_password, matches, update,
}

-- No two rows of a table share a username or an email, as the collation compares them.
abbrev pub IsUnique : (Text → Text → Bool) → Table → Type 0
IsUnique same [] = Unit
IsUnique same (r ∷ rows) =
    All (λ s. (same s.username r.username ≡ false) × (same s.email r.email ≡ false)) rows
    × IsUnique same rows

or_false : (a b : Bool) → (a || b) ≡ false → (a ≡ false) × (b ≡ false)
or_false a b h = ground arith

both_absent :
    (same : Text → Text → Bool) (name email : Text) (rows : Table)
    → any_of (λ r. same r.username name) rows ≡ false
    → any_of (λ r. same r.email email) rows ≡ false
    → All (λ s. (same s.username name ≡ false) × (same s.email email ≡ false)) rows
both_absent same name email [] h k = tt
both_absent same name email (r ∷ rows) h k =
    let (a, b) = or_false _ _ h in
    let (c, d) = or_false _ _ k in ((a, c), both_absent same name email rows b d)

-- The row of an id.
abbrev pub row_of : ℕ → Table → Option Row
row_of id [] = none
row_of id (r ∷ rows) = if r.id == id then some r else row_of id rows

abbrev pub changed : ℕ → (Row → Row) → Option Row → Option Row
changed id f none = none
changed id f (some r) = some (if r.id == id then f r else r)

row_of-update_row :
    (f : Row → Row) (keeps : (r : Row) → (f r).id ≡ r.id) (id j : ℕ) (rows : Table)
    → row_of j (update_row id f rows) ≡ changed id f (row_of j rows)
unfolding update_row
row_of-update_row f keeps id j [] = refl
row_of-update_row f keeps id j (r ∷ rows) =
    let rest = row_of-update_row f keeps id j rows in let k = keeps r in ground (arith, rest, k)

both_ways : (b : Bool) → not (b && false) ≡ true
both_ways b = ground arith

abbrev ok_of {ℓ} : {A : Type ℓ} → A → Result UserError A
ok_of x = ok x

if_err {ℓ} :
    {A : Type ℓ} (b : Bool) (e : UserError) (x : Result UserError A) (y : A)
    → (if b then err e else x) ≡ ok y
    → (b ≡ false) × (x ≡ ok y)
if_err b e x y h = ground arith

ok_value {ℓ} : {A : Type ℓ} {x y : A} → ok_of x ≡ ok_of y → x ≡ y
ok_value h = cc

if_ok {ℓ} :
    {A : Type ℓ} (b : Bool) (e : UserError) (x : Result UserError A)
    → b ≡ false
    → (if b then err e else x) ≡ x
if_ok b e x h = ground arith

if_refused {ℓ} :
    {A : Type ℓ} (b : Bool) (e : UserError) (x : Result UserError A)
    → b ≡ true
    → (if b then err e else x) ≡ err e
if_refused b e x h = ground arith

and_false : (a b c : Bool) → c ≡ false → (a && b && c) ≡ false
and_false a b c h = ground arith

old_accepted : (t h : Text) → t ≢ [] → not (truthy (some t) && text_eq h h) ≡ false
old_accepted [] h ne = absurd (ne refl)
old_accepted (c ∷ t) h ne = rw (text_eq_refl h) refl

is_truthy : (o : Option Text) {t : Text} → o ≡ some t → t ≢ [] → truthy o ≡ true
is_truthy none e ne = cc
is_truthy (some []) e ne = absurd (ne cc)
is_truthy (some (c ∷ t)) e ne = refl

not_eq : (s t : Text) → s ≢ t → text_eq s t ≡ false
not_eq s t ne = elim (Bool-cases (text_eq s t)) [
  | inl e ↦ absurd (ne ((text_eq_iff s t).0 e))
  | inr e ↦ e
]

module _ (hash : Text → Text → Text) where
  -- On a table where no two rows share a username or an email, as the collation compares them,
  -- `register` gives a table of the same kind, with the old rows and one for the name, which holds the hash of the password.
  pub register-IsUnique :
      (same : Text → Text → Bool) (rows : Table) (id : ℕ) (drawn : Drawn)
      (options : RegisterOptions) {rows' : Table} {row : Row}
      → IsUnique same rows
      → register hash same rows id drawn options ≡ ok (rows', row)
      → IsUnique same rows'
        × (rows' ≡ row ∷ rows)
        × (row.username ≡ options.username)
        × (row.password ≡ some (hash drawn.salt options.password))
  unfolding register any_row
  register-IsUnique same rows id drawn options {rows'} {row} u e =
      let (a, e₁) = if_err _ _ _ _ e in
      let (b, e₂) = if_err _ _ _ _ e₁ in
      let v = ok_value e₂ in
      let p = sym (ap (λ x. x.0) v) ∙ ap (λ r. r ∷ rows) (ap (λ x. x.1) v) in
      let q = sym (ap (λ x. x.1) v) in
      (
        subst (IsUnique same) (ap (λ x. x.0) v) (both_absent same _ _ rows a b, u),
        p,
        ap (λ r. r.username) q,
        ap (λ r. r.password) q,
      )

  -- Where `update` accepts a new password that is not empty, the next `update` accepts that password
  -- as the old one.
  pub update-again :
      (rows : Table) (user : Row) (old new : Text) (salt : Text) (next_salt next : Text)
      {rows' : Table} {user' : Row}
      → new ≢ []
      → update hash rows user (some old) salt new ≡ ok (rows', user')
      → update hash rows' user' (some new) next_salt next
        ≡ ok (reset_password hash rows' user' next_salt next)
  unfolding update reset_password
  update-again rows user old new salt next_salt next {rows'} {user'} ne e =
      let (_, e₁) = if_err _ _ _ _ e in
      let q = ap (λ x. x.1) (ok_value e₁) in
      subst
        (λ u.
          update hash rows' u (some new) next_salt next
          ≡ ok (reset_password hash rows' u next_salt next))
        q
        (if_ok _ invalid_old_password _ (
          and_false (truthy (some salt)) (truthy (some (hash salt new))) _
            (old_accepted new (hash salt new) ne)))

  -- Where the user has a salt and a password, and the old password that is given is none or has
  -- another hash, `update` throws the error of an invalid old password.
  pub update-refuses :
      (rows : Table) (user : Row) (old : Option Text) (salt new : Text) {stored_salt stored : Text}
      → user.salt ≡ some stored_salt
      → user.password ≡ some stored
      → stored_salt ≢ []
      → stored ≢ []
      → ((o : Text) → old ≡ some o → hash stored_salt o ≢ stored)
      → update hash rows user old salt new ≡ err invalid_old_password
  unfolding update
  update-refuses rows user old salt new {stored_salt = salt₀} {stored = stored} s p ns np bad =
      if_refused
        (truthy user.salt
          && truthy user.password
          && not (elim old [
            | none ↦ false
            | some t ↦ truthy (some t) && matches hash user.salt user.password t
          ]))
        invalid_old_password (ok (reset_password hash rows user salt new))
        (rw (is_truthy _ s ns) (rw (is_truthy _ p np) (refusal old bad)))
    where
      refusal :
          (o : Option Text)
          → ((t : Text) → o ≡ some t → hash salt₀ t ≢ stored)
          → not (elim o [
            | none ↦ false
            | some t ↦ truthy (some t) && matches hash user.salt user.password t
          ])
            ≡ true
      refusal none bad = refl
      refusal (some t) bad = rw s (
          rw p (
            rw (not_eq stored (hash salt₀ t) (λ e. bad t refl (sym e)))
              (both_ways (truthy (some t)))))

  -- After `reset_password` the row of the user has the new salt and hash, and the row of every other
  -- id is as it was.
  pub row_of-reset_password :
      (rows : Table) (user : Row) (salt password : Text) (j : ℕ)
      → row_of j (reset_password hash rows user salt password).0
        ≡ changed user.id
            (λ r. record r { salt = some salt; password = some (hash salt password) })
            (row_of j rows)
  unfolding reset_password
  row_of-reset_password rows user salt password j = row_of-update_row _ (λ r. refl) user.id j rows
