-- ===== src/Util/Validation/Manifest/Functions.antt =====
-- util/validation.ts: the functions of an accepted class.
use genie_cloud.Base.{
  ◌≡◌, refl, ap, subst, Bool, true, false, not, ◌&&◌, List, [], ◌∷◌, Option, none, some, Text,
  if◌then◌else◌, has_text, All, Result, ok, err, arith, ◌⊎◌, inl, inr, Bool-cases,
}
use genie_cloud.Util.Validation.{forbidden_names}
use genie_cloud.Util.Validation.Manifest.{
  many, Confirm, Arg, FunctionDef, What, action, query, missing_poll_interval, negative_interval,
  Options, Seen, ManifestError, check_poll, check_confirm, canonical_of, check_args, check_function,
  validate_invocation, validate_metadata, validate_annotations, allowed_function_metadata,
}

module _ {κ} {B : Type κ} where
  if_ok :
      (b : Bool) (e : ManifestError) (r : Result ManifestError B) (x : B)
      → (if b then err e else r) ≡ ok x
      → (b ≡ false) × (r ≡ ok x)
  if_ok b e r x h = ground arith

  none_ok :
      (o : Option ManifestError) (r : Result ManifestError B) (x : B)
      → elim o [ some e ↦ err e | none ↦ r ] ≡ ok x
      → (o ≡ none) × (r ≡ ok x)
  none_ok none r x h = (refl, h)
  none_ok (some e) r x h = cc

module _ {ℓ κ} {A : Type ℓ} {B : Type κ} where
  bind_ok :
      (r : Result ManifestError A) (k : A → Result ManifestError B) (x : B)
      → elim r [ err e ↦ err e | ok a ↦ k a ] ≡ ok x
      → (a : A) × (r ≡ ok a) × (k a ≡ ok x)
  bind_ok (err e) k x h = cc
  bind_ok (ok a) k x h = (a, refl, h)

abbrev checked : FunctionDef × Seen → Result ManifestError (FunctionDef × Seen)
checked p = ok p

checked_value : (p q : FunctionDef × Seen) → checked p ≡ checked q → p ≡ q
checked_value p q h = cc

abbrev listed : List FunctionDef × Seen → Result ManifestError (List FunctionDef × Seen)
listed p = ok p

listed_value : (p q : List FunctionDef × Seen) → listed p ≡ listed q → p ≡ q
listed_value p q h = cc

-- What `check_poll` lets through: an action, a query that needs no interval, or one that has an
-- interval that is not negative.
check_poll-none :
    (options : Options) (what : What) (f : FunctionDef)
    → check_poll options what f ≡ none
    → (what ≡ action)
      ⊎ ((options.check_poll_interval && f.is_monitorable) ≡ false)
      ⊎ (f.negative_poll_interval ≡ some false)
unfolding check_poll
check_poll-none options action f h = inl refl
check_poll-none options query f h =
    elim (Bool-cases (options.check_poll_interval && f.is_monitorable)) [
      | inr e ↦ inr (inl e)
      | inl e ↦ inr (inr (interval f.negative_poll_interval refl (rw e at h)))
    ]
  where
    interval :
        (o : Option Bool)
        → f.negative_poll_interval ≡ o
        → elim o [
          | none ↦ some missing_poll_interval
          | some negative ↦ if negative then some negative_interval else none
        ]
          ≡ none
        → f.negative_poll_interval ≡ some false
    interval none e h = cc
    interval (some true) e h = cc
    interval (some false) e h = e

-- A function that passed: its names are allowed, it says how to confirm and has a list of canonical
-- forms, and what the class needs of a poll interval and of a URL is there.
pub record GoodFunction (options : Options) (what : What) (f : FunctionDef) : Type 0 where
  pub safe : has_text forbidden_names f.name ≡ false
  pub metadata : validate_metadata f.metadata allowed_function_metadata ≡ true
  pub annotations : validate_annotations f.annotations ≡ true
  pub canonical : (l : List Text) × (f.canonical ≡ some (many l))
  pub confirm : (c : Confirm) × (f.confirm ≡ some c)
  pub poll :
      (what ≡ action)
      ⊎ ((options.check_poll_interval && f.is_monitorable) ≡ false)
      ⊎ (f.negative_poll_interval ≡ some false)
  pub url : (options.check_url && not f.has_url) ≡ false

not-false : (b : Bool) → not b ≡ false → b ≡ true
not-false b h = ground arith

module _ (is_template : List Text → Bool) (preprocesses : Arg → Bool) where
  check_function-Good :
      (options : Options) (what : What) (f f' : FunctionDef) (seen last : Seen)
      → check_function is_template preprocesses options what f seen ≡ ok (f', last)
      → GoodFunction options what f'
  unfolding check_function
  check_function-Good options what f f' seen last h =
      let (a, h₁) = if_ok (has_text forbidden_names f.name) _ _ (f', last) h in
      let (b, h₂) =
        if_ok (not (validate_metadata f.metadata allowed_function_metadata)) _ _ (f', last) h₁ in
      let (c, h₃) = if_ok (not (validate_annotations f.annotations)) _ _ (f', last) h₂ in
      let (l, d, h₄) = bind_ok (canonical_of is_template preprocesses f) _ (f', last) h₃ in
      let (w, e, h₅) = bind_ok (check_confirm what f.confirm) _ (f', last) h₄ in
      let (p, h₆) = none_ok (check_poll options what f) _ (f', last) h₅ in
      let (u, h₇) = if_ok (options.check_url && not f.has_url) _ _ (f', last) h₆ in
      let ((args, seen'), v, h₈) =
        bind_ok (check_args is_template preprocesses f.args seen) _ (f', last) h₇ in
      subst (GoodFunction options what) (ap (λ x. x.0) (checked_value _ _ h₈)) record {
        safe = a;
        metadata = not-false _ b;
        annotations = not-false _ c;
        canonical = (l, refl);
        confirm = (w, refl);
        poll = check_poll-none options what f p;
        url = u;
      }

  -- Of a class that `validateInvocation` lets through, every function that it gives is good: its
  -- names are allowed, it says how to confirm and has a list of canonical forms, and the poll interval
  -- and the URL that the class needs are there.
  pub validate_invocation-Good :
      (options : Options) (what : What) (fs : List FunctionDef) (seen : Seen)
      (fs' : List FunctionDef) (last : Seen)
      → validate_invocation is_template preprocesses options what fs seen ≡ ok (fs', last)
      → All (GoodFunction options what) fs'
  unfolding validate_invocation
  validate_invocation-Good options what [] seen fs' last h =
      subst (All (GoodFunction options what))
        (ap (λ x. x.0) (listed_value ([], seen) (fs', last) h)) tt
  validate_invocation-Good options what (f ∷ fs) seen fs' last h =
      let ((f₁, seen₁), a, h₁) =
        bind_ok (check_function is_template preprocesses options what f seen) _ (fs', last) h in
      let ((fs₂, seen₂), b, h₂) =
        bind_ok (validate_invocation is_template preprocesses options what fs seen₁) _ (fs', last)
          h₁ in
      subst (All (GoodFunction options what))
        (ap (λ x. x.0) (listed_value (f₁ ∷ fs₂, seen₂) (fs', last) h₂))
        (
          check_function-Good options what f f₁ seen seen₁ a,
          validate_invocation-Good options what fs seen₁ fs₂ seen₂ b,
        )
