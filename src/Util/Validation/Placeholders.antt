-- ===== src/Util/Validation/Placeholders.antt =====
-- util/validation.ts: about an utterance that is accepted.
use genie_cloud.Base.{
  ◌≡◌, refl, sym, subst, ◌⊎◌, inl, inr, Bool, true, false, not, ◌||◌, List, [], ◌∷◌, Text,
  if◌then◌else◌, has_text, text_eq, All, Result, ok, err, arith,
}
use genie_cloud.Util.Tokenize.{Chunk, literal, dollar, placeholder, split_params, trim}
use genie_cloud.Util.Validation.Utterances.{
  UtteranceError, blanks, has_blanks, good_option, check_chunks, check_args, is_in,
  validate_utterance,
}

-- The names of the placeholders.
abbrev pub params_of : List Chunk → List Text
params_of [] = []
params_of (literal s ∷ cs) = params_of cs
params_of (dollar ∷ cs) = params_of cs
params_of (placeholder param opt ∷ cs) = param ∷ params_of cs

-- A chunk that is text, or a placeholder of an argument with an option that is known.
abbrev pub GoodChunk : (Text → Bool) → Chunk → Type 0
GoodChunk is_arg (literal s) = Unit
GoodChunk is_arg dollar = Unit
GoodChunk is_arg (placeholder param opt) = (is_arg param ≡ true) × (good_option opt ≡ true)

if_ok :
    (b : Bool) (e : UtteranceError) (r : Result UtteranceError (List Text)) (l : List Text)
    → (if not b then err e else r) ≡ ok l
    → (b ≡ true) × (r ≡ ok l)
if_ok b e r l h = ground arith

if_blanks :
    (b : Bool) (e : UtteranceError) (r : Result UtteranceError (List Text)) (l : List Text)
    → (if b then err e else r) ≡ ok l
    → (b ≡ false) × (r ≡ ok l)
if_blanks b e r l h = ground arith

abbrev checked : List Text → Result UtteranceError (List Text)
checked l = ok l

ok_value : (l m : List Text) → checked l ≡ checked m → l ≡ m
ok_value l m h = cc

regroup : (a b c : Bool) → (b ≡ true) ⊎ ((a || c) ≡ true) → ((a || b) ≡ true) ⊎ (c ≡ true)
regroup true b c h = inl refl
regroup false true c h = inl refl
regroup false false c (inl h) = inl h
regroup false false c (inr h) = inr h

check_chunks-passed :
    (is_arg : Text → Bool) (cs : List Chunk) (seen l : List Text)
    → check_chunks is_arg cs seen ≡ ok l
    → All (GoodChunk is_arg) cs
      × ((t : Text)
          → has_text l t ≡ true
          → (has_text (params_of cs) t ≡ true) ⊎ (has_text seen t ≡ true))
unfolding check_chunks has_text
check_chunks-passed is_arg [] seen l h =
    (tt, λ t m. inr (subst (λ x. has_text x t ≡ true) (sym (ok_value seen l h)) m))
check_chunks-passed is_arg (literal s ∷ cs) seen l h =
    let (a, b) = check_chunks-passed is_arg cs seen l h in ((tt, a), b)
check_chunks-passed is_arg (dollar ∷ cs) seen l h =
    let (a, b) = check_chunks-passed is_arg cs seen l h in ((tt, a), b)
check_chunks-passed is_arg (placeholder param opt ∷ cs) seen l h =
    let (a, h₁) = if_ok (is_arg param) _ _ l h in
    let (b, h₂) = if_ok (good_option opt) _ _ l h₁ in
    let (c, d) = check_chunks-passed is_arg cs (param ∷ seen) l h₂ in
    (((a, b), c), λ t m. regroup (text_eq param t) _ _ (d t m))

check_args-passed :
    (seen args l : List Text)
    → check_args seen args ≡ ok l
    → (l ≡ seen) × All (λ arg. has_text seen arg ≡ true) args
unfolding check_args
check_args-passed seen [] l h = (sym (ok_value seen l h), tt)
check_args-passed seen (arg ∷ args) l h =
    let (a, h₁) = if_ok (has_text seen arg) _ _ l h in
    let (b, c) = check_args-passed seen args l h₁ in (b, (a, c))

pub record Passed (inherited args : List Text) (utterance : Text) : Type 0 where
  pub no_blanks : has_blanks utterance ≡ false
  pub chunks : All (GoodChunk (is_in inherited args)) (split_params (trim utterance))
  pub mentioned : All (λ arg. has_text (params_of (split_params (trim utterance))) arg ≡ true) args

all_mentioned :
    (seen ps args : List Text)
    → ((t : Text) → has_text seen t ≡ true → (has_text ps t ≡ true) ⊎ (has_text [] t ≡ true))
    → All (λ arg. has_text seen arg ≡ true) args
    → All (λ arg. has_text ps arg ≡ true) args
unfolding has_text
all_mentioned seen ps [] f h = tt
all_mentioned seen ps (arg ∷ args) f h =
    (elim (f arg h.0) [ inl m ↦ m | inr e ↦ cc ], all_mentioned seen ps args f h.1)

after_chunks :
    (r : Result UtteranceError (List Text)) (args l : List Text)
    → elim r [ err e ↦ err e | ok seen ↦ check_args seen args ] ≡ ok l
    → (seen : List Text) × (r ≡ ok seen) × (check_args seen args ≡ ok l)
after_chunks (err e) args l h = cc
after_chunks (ok seen) args l h = (seen, refl, h)

-- An utterance that `validateUtterance` lets through has no blank, each of its placeholders is found
-- among the arguments or among the names that every object inherits, and has a known option, and every
-- argument has a placeholder.
pub validate_utterance-Passed :
    (inherited args : List Text) (utterance : Text) (seen : List Text)
    → validate_utterance inherited args utterance ≡ ok seen
    → Passed inherited args utterance
unfolding validate_utterance
validate_utterance-Passed inherited args utterance seen h =
    let (a, h₁) = if_blanks (has_blanks utterance) blanks _ seen h in
    let (l, b, c) =
      after_chunks (check_chunks (is_in inherited args) (split_params (trim utterance)) []) args
        seen h₁ in
    let (d, f) = check_chunks-passed _ _ [] l b in
    let (_, g) = check_args-passed l args seen c in
    record { no_blanks = a; chunks = d; mentioned = all_mentioned l _ args f g }
