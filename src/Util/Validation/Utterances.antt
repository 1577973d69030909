-- ===== src/Util/Validation/Utterances.antt =====
-- util/validation.ts: the utterances of an example. The tokenizer is a parameter, and so are the
-- names that `param in args` finds in every object.
use genie_cloud.Base.{
  ℕ, Bool, true, false, not, ◌||◌, List, [], ◌∷◌, ◌++◌, Option, none, some, Text, codes,
  if◌then◌else◌, ◌==◌, text_eq, has_text, starts_with, Result, ok, err,
}
use genie_cloud.Util.Tokenize.{Chunk, literal, dollar, placeholder, split_params, trim}

pub data UtteranceError : Type 0 where
  blanks : UtteranceError
  invalid_placeholder invalid_option missing_placeholder : Text → UtteranceError

-- `/_{4}/`
unfoldable pub has_blanks : Text → Bool
has_blanks [] = false
has_blanks (c ∷ s) = starts_with (codes "____") (c ∷ s) || has_blanks s

abbrev pub good_option : Option Text → Bool
good_option none = true
good_option (some opt) = text_eq opt (codes "const") || text_eq opt (codes "no-undefined")

-- The loop over the chunks: the placeholders, or the first error.
unfoldable pub check_chunks :
    (Text → Bool) → List Chunk → List Text → Result UtteranceError (List Text)
check_chunks is_arg [] seen = ok seen
check_chunks is_arg (literal s ∷ cs) seen = check_chunks is_arg cs seen
check_chunks is_arg (dollar ∷ cs) seen = check_chunks is_arg cs seen
check_chunks is_arg (placeholder param opt ∷ cs) seen =
    let rest = check_chunks is_arg cs (param ∷ seen) in
    if not (is_arg param)
    then err (invalid_placeholder param)
    else if not (good_option opt)
    then err (invalid_option param)
    else rest

-- The loop over the arguments.
unfoldable pub check_args : List Text → List Text → Result UtteranceError (List Text)
check_args seen [] = ok seen
check_args seen (arg ∷ args) =
    let rest = check_args seen args in
    if not (has_text seen arg) then err (missing_placeholder arg) else rest

module _ (inherited : List Text) where
  -- `param in args`
  abbrev pub is_in : List Text → Text → Bool
  is_in args param = has_text args param || has_text inherited param

  -- `validateUtterance`: its placeholders, or the error that it throws.
  unfoldable pub validate_utterance : List Text → Text → Result UtteranceError (List Text)
  unfolding check_chunks check_args
  validate_utterance args utterance =
      if has_blanks utterance
      then err blanks
      else elim (check_chunks (is_in args) (split_params (trim utterance)) []) [
        | err e ↦ err e
        | ok seen ↦ check_args seen args
      ]

pub data ExampleError : Type 0 where
  has_entities type_error : ExampleError

-- The utterance with each placeholder as a blank, and the placeholders.
unfoldable pub blank_out : List Chunk → Text × List (Text × Option Text)
blank_out [] = ([], [])
blank_out (literal s ∷ cs) = let rest = blank_out cs in (s ++ rest.0, rest.1)
blank_out (dollar ∷ cs) = let rest = blank_out cs in (b'$' ∷ rest.0, rest.1)
blank_out (placeholder param opt ∷ cs) =
    let rest = blank_out cs in (codes "____ " ++ rest.0, (param, opt) ∷ rest.1)

abbrev pub show_param : Text × Option Text → Text
show_param (param, none) = codes "${" ++ param ++ codes "}"
show_param (param, some opt) = codes "${" ++ param ++ codes ":" ++ opt ++ codes "}"

-- The tokens, each blank with the next placeholder; a blank too many has none to take.
unfoldable pub fill_in : List Text → List (Text × Option Text) → Result ExampleError (List Text)
fill_in [] params = ok []
fill_in (token ∷ tokens) [] =
    let rest = fill_in tokens [] in
    if text_eq token (codes "____") then err type_error else elim rest [
      | err e ↦ err e
      | ok filled ↦ ok ((if text_eq token (codes "$") then codes "$$" else token) ∷ filled)
    ]
fill_in (token ∷ tokens) (p ∷ params) =
    let taken = fill_in tokens params in
    let kept = fill_in tokens (p ∷ params) in
    if text_eq token (codes "____")
    then elim taken [ err e ↦ err e | ok filled ↦ ok (show_param p ∷ filled) ]
    else elim kept [
      | err e ↦ err e
      | ok filled ↦ ok ((if text_eq token (codes "$") then codes "$$" else token) ∷ filled)
    ]

abbrev pub spaced : List Text → Text
spaced [] = []
spaced (t ∷ []) = t
spaced (t ∷ u ∷ ts) = t ++ (b' ' ∷ spaced (u ∷ ts))

-- `tokenizeOneExample`; the tokenizer gives the tokens and how many entities it found.
unfoldable pub tokenize_one_example : (Text → List Text × ℕ) → Text → Result ExampleError Text
unfolding blank_out fill_in
tokenize_one_example tokenizer utterance =
    let blanked = blank_out (split_params (trim utterance)) in
    let tokenized = tokenizer blanked.0 in
    if not (tokenized.1 == 0)
    then err has_entities
    else elim (fill_in tokenized.0 blanked.1) [ err e ↦ err e | ok filled ↦ ok (spaced filled) ]
