-- ===== src/Util/Validation/Dataset.antt =====
-- util/validation.ts: the examples of a dataset, and the names that they get. The conversion of an
-- example by ThingTalk is a parameter: it succeeds or throws.
pub mod Names
pub mod Distinct
mod Tests
use genie_cloud.Base.{
  ℕ, zero, suc, ◌+◌, Bool, true, false, not, List, [], ◌∷◌, ◌++◌, Option, none, some, Text, codes,
  text_eq, has_text, if◌then◌else◌, leb, length, decimal, Result, ok, err, ◌>>=◌,
}
use genie_cloud.Util.ExampleNames.{Expression, NameError, expression_name}
use genie_cloud.Util.Validation.Utterances.{UtteranceError, validate_utterance}
use genie_cloud.Util.Validation.Manifest.{validate_annotations}

-- The loop of `autogenExampleName`; `none` is a loop that ran out of fuel.
unfoldable pub find_free : ℕ → Text → ℕ → List Text → Option Text
find_free zero base counter names = none
find_free (suc fuel) base counter names =
    let rest = find_free fuel base (suc counter) names in
    if has_text names (base ++ decimal counter) then rest else some (base ++ decimal counter)

unfoldable pub autogen_name : Text → List Text → Option Text
unfolding find_free
autogen_name base names =
    let numbered = find_free (suc (length names)) base 1 names in
    if has_text names base then numbered else some base

-- The value of the annotation `name`.
pub data NameValue : Type 0 where
  name_string : Text → NameValue
  name_other : NameValue

pub record DatasetExample : Type 0 where
  pub annotations : List Text
  pub name : Option NameValue
  pub value : Expression
  pub args : List Text
  pub utterances : List Text

pub data DatasetCause : Type 0 where
  not_converted bad_annotation unnatural_utterances no_utterances name_not_string name_too_long
        duplicate_name :
      DatasetCause
  unnamed : NameError → DatasetCause
  bad_utterance : UtteranceError → DatasetCause
  endless : DatasetCause

abbrev pub require : Bool → DatasetCause → Result DatasetCause (Unit {0})
require holds e = if holds then ok tt else err e

unfoldable pub check_utterances_given : DatasetExample → Result DatasetCause (Unit {0})
check_utterances_given ex = elim ex.utterances [
  | [] ↦
      if has_text ex.annotations (codes "utterances")
      then err unnatural_utterances
      else err no_utterances
  | u ∷ us ↦ ok tt
]

abbrev pub or_endless : Option Text → Result DatasetCause Text
or_endless none = err endless
or_endless (some name) = ok name

abbrev pub made_name : List Text → Result NameError Text → Result DatasetCause Text
unfolding autogen_name
made_name names (err e) = err (unnamed e)
made_name names (ok base) = or_endless (autogen_name base names)

-- The name of an example: the one it has, or one that is made.
unfoldable pub name_of_example :
    List Text → Expression → Option NameValue → Result DatasetCause Text
name_of_example names value (some (name_string v)) =
    if not (leb (length v) 128)
    then err name_too_long
    else if has_text names v
    then err duplicate_name
    else ok v
name_of_example names value (some name_other) = err name_not_string
name_of_example names value none = made_name names (expression_name value)

module _ (inherited : List Text) (converts : DatasetExample → Bool) where
  unfoldable pub check_utterances : List Text → List Text → Result DatasetCause (Unit {0})
  check_utterances args [] = ok tt
  check_utterances args (u ∷ us) = elim (validate_utterance inherited args u) [
    | err e ↦ err (bad_utterance e)
    | ok seen ↦ check_utterances args us
  ]

  -- One example: its name, which the set of names then holds.
  unfoldable pub validate_example : List Text → DatasetExample → Result DatasetCause Text
  unfolding name_of_example check_utterances_given check_utterances
  validate_example names ex = require (converts ex) not_converted >>= λ _.
      require (validate_annotations ex.annotations) bad_annotation >>= λ _.
      check_utterances_given ex >>= λ _. name_of_example names ex.value ex.name >>= λ name.
      check_utterances ex.args ex.utterances >>= λ _. ok name

  -- The loop of `validateDataset`: the names of the examples, or the number of the example that an
  -- error is in, with its cause.
  unfoldable pub validate_examples :
      ℕ → List Text → List DatasetExample → Result (ℕ × DatasetCause) (List Text)
  unfolding validate_example
  validate_examples i names [] = ok []
  validate_examples i names (ex ∷ exs) = elim (validate_example names ex) [
    | err e ↦ err (suc i, e)
    | ok name ↦ validate_examples (suc i) (name ∷ names) exs >>= λ rest. ok (name ∷ rest)
  ]

  unfoldable pub validate_dataset : List DatasetExample → Result (ℕ × DatasetCause) (List Text)
  unfolding validate_examples
  validate_dataset exs = validate_examples 0 [] exs
