-- ===== src/Util/Validation/Manifest/Tests.antt =====
-- util/validation.ts: a class with one query.
use genie_cloud.Base.{
  ◌≡◌, refl, Bool, true, false, List, [], ◌∷◌, none, some, Text, codes, All, ok, err, has_text,
  text_eq, to_lower,
}
use genie_cloud.Util.Tokenize.{clean, split_camel}
use genie_cloud.Util.Validation.Manifest.{
  many, one, entity_type, array_of, confirm_boolean, Arg, FunctionDef, query, Options, Seen,
  missing_poll_interval, check_poll, check_confirm, check_args, check_arg, check_function,
  validate_invocation, validate_metadata, validate_annotations, see_type,
}
use genie_cloud.Util.Validation.Manifest.Functions.{GoodFunction, validate_invocation-Good}

abbrev any_template : List Text → Bool
any_template l = true

abbrev any_arg : Arg → Bool
any_arg a = true

abbrev options : Options
options = record { check_poll_interval = true; check_url = false }

abbrev arg : Arg
arg = record {
  name = codes "fileName";
  type = array_of (entity_type (codes "tt:path"));
  metadata = [];
  annotations = [];
  string_values = none;
  canonical = none;
}

abbrev list_files : FunctionDef
list_files = record {
  name = codes "listFiles";
  metadata = [];
  annotations = codes "url" ∷ [];
  canonical = none;
  confirm = none;
  is_monitorable = true;
  negative_poll_interval = some false;
  has_url = false;
  args = arg ∷ [];
}

abbrev listed_files : FunctionDef
listed_files = record list_files {
  canonical = some (many (codes "list files" ∷ []));
  confirm = some (confirm_boolean false);
  args = record arg { canonical = some (one (codes "file name")) } ∷ [];
}

abbrev nothing_seen : Seen
nothing_seen = record { entities = []; string_types = [] }

abbrev path_seen : Seen
path_seen = record { entities = codes "tt:path" ∷ []; string_types = [] }

accepted :
    validate_invocation any_template any_arg options query (list_files ∷ []) nothing_seen
    ≡ ok (listed_files ∷ [], path_seen)
unfolding validate_invocation check_function check_poll check_confirm check_args check_arg
    validate_metadata validate_annotations see_type clean split_camel to_lower has_text text_eq
accepted = refl

no_interval :
    validate_invocation any_template any_arg options query
      (record list_files { negative_poll_interval = none } ∷ [])
      nothing_seen
    ≡ err missing_poll_interval
unfolding validate_invocation check_function check_poll check_confirm check_args check_arg
    validate_metadata validate_annotations see_type clean split_camel to_lower has_text text_eq
no_interval = refl

validate_invocation-Good_example : All (GoodFunction options query) (listed_files ∷ [])
validate_invocation-Good_example =
    validate_invocation-Good any_template any_arg options query (list_files ∷ []) nothing_seen
      (listed_files ∷ []) path_seen accepted
