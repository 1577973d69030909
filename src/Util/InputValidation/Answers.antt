-- ===== src/Util/InputValidation/Answers.antt =====
-- util/input_validation.ts: what an accepted value is, and which key is answered for.
use genie_cloud.Base.{
  ◌≡◌, ◌≢◌, refl, ap, ◌∙◌, ◌⊎◌, inl, inr, Bool, true, false, not, ◌||◌, List, [], ◌∷◌, ◌++◌, Text,
  any_of, All, Bool-cases, arith,
}
use genie_cloud.Util.InputValidation.{
  string_type, TypeSpec, base, Value, undefined, null, text_value, bool_value, number_value,
  array_value, object_value, is_control, passed, bad_parameter, check_base, check_key, validate,
}

or_false : (a b : Bool) → (a || b) ≡ false → (a ≡ false) × (b ≡ false)
or_false a b h = ground arith

not-true : (a : Bool) → not a ≡ true → a ≡ false
not-true a h = ground arith

module _ (is_finite is_integer : Text → Bool) where
  abbrev HoldsOf : (Text → Value) → Text × TypeSpec → Type 0
  HoldsOf body entry = check_key is_finite is_integer (body entry.0) entry.1 ≡ true

  -- Where `_validate` stops: the keys before have good values, this one has not.
  pub record Stops (body : Text → Value) (keys : List (Text × TypeSpec)) (json : Bool)
      : Type 0 where
    pub before : List (Text × TypeSpec)
    pub after : List (Text × TypeSpec)
    pub key : Text
    pub spec : TypeSpec
    pub cut : keys ≡ before ++ (key, spec) ∷ after
    pub good : All (HoldsOf body) before
    pub bad : check_key is_finite is_integer (body key) spec ≡ false
    pub answer : validate is_finite is_integer body keys json ≡ bad_parameter key json

  abbrev pub Accepts : (Text → Value) → List (Text × TypeSpec) → Bool → Type 0
  Accepts body keys json =
      (validate is_finite is_integer body keys json ≡ passed) × All (HoldsOf body) keys

  validate-bad :
      (body : Text → Value) (key : Text) (spec : TypeSpec) (keys : List (Text × TypeSpec))
      (json : Bool)
      → check_key is_finite is_integer (body key) spec ≡ false
      → validate is_finite is_integer body ((key, spec) ∷ keys) json ≡ bad_parameter key json
  unfolding validate
  validate-bad body key spec keys json e = rw e refl

  validate-good :
      (body : Text → Value) (key : Text) (spec : TypeSpec) (keys : List (Text × TypeSpec))
      (json : Bool)
      → check_key is_finite is_integer (body key) spec ≡ true
      → validate is_finite is_integer body ((key, spec) ∷ keys) json
        ≡ validate is_finite is_integer body keys json
  unfolding validate
  validate-good body key spec keys json e = rw e refl

  -- The request goes on, and every key has a value of its type; or it is answered for the first key
  -- whose value is not.
  pub validate_lem :
      (body : Text → Value) (keys : List (Text × TypeSpec)) (json : Bool)
      → Accepts body keys json ⊎ Stops body keys json
  unfolding validate
  validate_lem body [] json = inl (refl, tt)
  validate_lem body ((key, spec) ∷ keys) json =
      elim (Bool-cases (check_key is_finite is_integer (body key) spec)) [
        | inr e ↦ inr record {
          before = [];
          after = keys;
          key = key;
          spec = spec;
          cut = refl;
          good = tt;
          bad = e;
          answer = validate-bad body key spec keys json e;
        }
        | inl e ↦ elim (validate_lem body keys json) [
          | inl (a, h) ↦ inl (validate-good body key spec keys json e ∙ a, (e, h))
          | inr s ↦ inr record {
            before = (key, spec) ∷ s.before;
            after = s.after;
            key = s.key;
            spec = s.spec;
            cut = ap (λ l. (key, spec) ∷ l) s.cut;
            good = (e, s.good);
            bad = s.bad;
            answer = validate-good body key spec keys json e ∙ s.answer;
          }
        ]
      ]

  -- A text that fits `string` or `?string`.
  abbrev pub CleanText : Text → Type 0
  CleanText s = All (λ c. is_control c ≡ false) s

  no_control : (s : Text) → any_of is_control s ≡ false → CleanText s
  no_control [] h = tt
  no_control (c ∷ s) h = let (a, b) = or_false _ _ h in (a, no_control s b)

  -- A value that passes as `string` is a text that is not empty and has no control character but
  -- tab, line feed, vertical tab, form feed and carriage return.
  pub check_key-string :
      (value : Value)
      → check_key is_finite is_integer value (base string_type) ≡ true
      → (s : Text) × (value ≡ text_value s) × (s ≢ []) × CleanText s
  unfolding check_key check_base
  check_key-string (text_value []) h = cc
  check_key-string (text_value (c ∷ s)) h =
      (c ∷ s, refl, (λ e. cc), no_control (c ∷ s) (not-true _ h))
  check_key-string undefined h = cc
  check_key-string null h = cc
  check_key-string (bool_value b) h = cc
  check_key-string number_value h = cc
  check_key-string array_value h = cc
  check_key-string object_value h = cc
