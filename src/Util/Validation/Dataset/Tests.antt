-- ===== src/Util/Validation/Dataset/Tests.antt =====
-- util/validation.ts: a dataset of three examples without names.
use genie_cloud.Base.{
  ℕ, ◌≡◌, refl, Bool, true, List, [], ◌∷◌, Option, none, some, Text, codes, ok, err, has_text,
  false, decimal,
}
use genie_cloud.Util.ExampleNames.{Expression, function_call, monitor}
use genie_cloud.Util.Validation.Dataset.{
  DatasetExample, autogen_name, validate_dataset, name_string,
}
use genie_cloud.Util.Validation.Dataset.Names.{autogen_name_new}
use genie_cloud.Util.Validation.Dataset.Distinct.{distinct, validate_dataset-distinct}

autogen_name_new_example :
    (name : Text) × (autogen_name (codes "Get") (codes "Get1" ∷ codes "Get" ∷ []) ≡ some name)
    × (has_text (codes "Get1" ∷ codes "Get" ∷ []) name ≡ false)
autogen_name_new_example = autogen_name_new (codes "Get") (codes "Get1" ∷ codes "Get" ∷ [])

abbrev example_of : Expression → DatasetExample
example_of e = record {
  annotations = [];
  name = none;
  value = e;
  args = [];
  utterances = codes "get it" ∷ [];
}

abbrev three_examples : List DatasetExample
three_examples =
    example_of (function_call (codes "get"))
    ∷ record {
      annotations = codes "name" ∷ [];
      name = some (name_string (codes "Get1"));
      value = function_call (codes "get");
      args = [];
      utterances = codes "a" ∷ [];
    }
    ∷ example_of (function_call (codes "get"))
    ∷ []

three_names :
    validate_dataset [] (λ ex. true) three_examples
    ≡ ok (codes "Get" ∷ codes "Get1" ∷ codes "Get2" ∷ [])
unfolding validate_dataset genie_cloud.Util.Validation.Manifest.validate_annotations
    genie_cloud.Util.Validation.Dataset.made_name genie_cloud.Util.ExampleNames.expression_name
    has_text genie_cloud.Util.Validation.Utterances.validate_utterance
    genie_cloud.Util.Validation.Utterances.has_blanks genie_cloud.Base.starts_with
    genie_cloud.Util.Tokenize.split_params genie_cloud.Util.Tokenize.split_from
    genie_cloud.Base.join genie_cloud.Util.ExampleNames.is_separator genie_cloud.Base.to_upper
    decimal
three_names = refl

validate_dataset-distinct_example : distinct (codes "Get" ∷ codes "Get1" ∷ codes "Get2" ∷ []) ≡ true
validate_dataset-distinct_example =
    validate_dataset-distinct [] (λ ex. true) three_examples _ three_names
