-- ===== src/Util/Validation/Device.antt =====
-- util/validation.ts: the class and the dataset of a device, as they are checked. What ThingTalk
-- parses and what the database and the language pack answer are parameters.
pub mod Accepted
mod Tests
use genie_cloud.Base.{
  ℕ, suc, ◌+◌, ◌-◌, Bool, true, false, not, ◌&&◌, ◌||◌, List, [], ◌∷◌, ◌++◌, map, Option, none,
  some, Text, codes, split, text_eq, has_text, any_of, all_of, filter_of, if◌then◌else◌, ltb,
  length, ◌==◌, Result, ok, err, ◌>>=◌,
}
use genie_cloud.Util.User.{Row}
use genie_cloud.Util.User.Role
use genie_cloud.Util.Validation.{TagError, validate_tag}
use genie_cloud.Util.Validation.Manifest.{
  FunctionDef, Canonical, one, many, canonical_or_null, ManifestError, Seen, Arg, validate_metadata,
  validate_annotations, validate_all_invocations,
}
use genie_cloud.Util.Validation.Dataset.{DatasetExample, DatasetCause, validate_dataset}
use genie_cloud.Util.Validation.Loading.{
  Entity, ClassDef, Dataset, Parsed, LoadError, load_class_def,
}

abbrev pub allowed_class_metadata : List Text
allowed_class_metadata =
    codes "name"
    ∷ codes "description"
    ∷ codes "thingpedia_name"
    ∷ codes "thingpedia_description"
    ∷ codes "canonical"
    ∷ codes "help"
    ∷ []

abbrev pub javascript_module_types : List Text
javascript_module_types =
    codes "org.thingpedia.v1"
    ∷ codes "org.thingpedia.v2"
    ∷ codes "org.thingpedia.builtin"
    ∷ codes "org.thingpedia.embedded"
    ∷ []

abbrev pub subcategories : List Text
subcategories =
    codes "service"
    ∷ codes "media"
    ∷ codes "social-network"
    ∷ codes "communication"
    ∷ codes "home"
    ∷ codes "health"
    ∷ codes "data-management"
    ∷ []

pub record DeviceMetadata : Type 0 where
  pub name : Text
  pub description : Text
  pub primary_kind : Text
  pub license : Text
  pub license_gplcompatible : Bool
  pub subcategory : Text
  pub website : Option Text
  pub repository : Option Text
  pub issue_tracker : Option Text

pub data DeviceError : Type 0 where
  missing_fields bad_category bad_metadata bad_annotation no_loader bad_template : DeviceError
  bad_tag : TagError → DeviceError
  not_loaded : LoadError → DeviceError
  no_description : Text → DeviceError
  bad_function : ManifestError → DeviceError
  invalid_entities : List Text → DeviceError
  bad_example : ℕ × DatasetCause → DeviceError

abbrev pub require : Bool → DeviceError → Result DeviceError (Unit {0})
require holds e = if holds then ok tt else err e

abbrev pub lift {ℓ κ} :
    {E : Type κ} {A : Type ℓ} → (E → DeviceError) → Result E A → Result DeviceError A
lift f (ok a) = ok a
lift f (err e) = err (f e)

abbrev pub tag_checked : Option TagError → Result DeviceError (Unit {0})
tag_checked none = ok tt
tag_checked (some e) = err (bad_tag e)

abbrev pub is_some {ℓ} : {A : Type ℓ} → Option A → Bool
is_some none = false
is_some (some a) = true

-- A text that is there and not empty.
abbrev pub text_or_null : Option Text → Option Text
text_or_null none = none
text_or_null (some []) = none
text_or_null (some (c ∷ s)) = some (c ∷ s)

abbrev pub or_else : Option Text → Text → Option Text
or_else o t = elim (text_or_null o) [ none ↦ some t | some s ↦ some s ]

abbrev pub if_given : Option Text → Option Text → Option Text
if_given given old = elim (text_or_null given) [ none ↦ old | some s ↦ some s ]

-- The loader that a class needs unless it is abstract, and the default configuration.
unfoldable pub with_config : ClassDef → Result DeviceError ClassDef
with_config c =
    if c.is_abstract
    then ok c
    else if not (is_some c.loader)
    then err no_loader
    else ok (record c { has_config = true })

abbrev pub is_full_code : ClassDef → Bool
is_full_code c =
    not c.is_abstract
    && not (elim c.loader [ none ↦ false | some m ↦ has_text javascript_module_types m ])

unfoldable pub check_entities : List Entity → Result DeviceError (Unit {0})
check_entities [] = ok tt
check_entities (e ∷ es) =
    let rest = check_entities es in
    if is_some (text_or_null e.description) then rest else err (no_description e.name)

abbrev pub qualified : Text → Text → Text
qualified kind name = kind ++ codes ":" ++ name

abbrev pub parent_names : Text → List Text → List Text
parent_names kind ps = map (λ p. if any_of (λ c. c == 58) p then p else qualified kind p) ps

unfoldable pub all_parents : Text → List Entity → List Text
all_parents kind [] = []
all_parents kind (e ∷ es) = parent_names kind e.parents ++ all_parents kind es

-- The entities that a class needs from elsewhere.
unfoldable pub foreign_entities : ClassDef → Seen → List Text
unfolding all_parents
foreign_entities c seen =
    filter_of (λ e. not (any_of (λ d. text_eq (qualified c.kind d.name) e) c.entities))
      (seen.entities ++ all_parents c.kind c.entities)

-- The annotations that the metadata of the device give.
unfoldable pub annotated : DeviceMetadata → Canonical → ClassDef → ClassDef
annotated options canonical c = record c {
  name = or_else c.name options.name;
  description = or_else c.description options.description;
  canonical = some canonical;
  thingpedia_name = some options.name;
  thingpedia_description = some options.description;
  subcategory = some options.subcategory;
  license = some options.license;
  license_gplcompatible = options.license_gplcompatible;
  website = if_given options.website c.website;
  repository = if_given options.repository c.repository;
  issue_tracker = if_given options.issue_tracker c.issue_tracker;
}

module _ (is_template : List Text → Bool) (preprocesses : Arg → Bool) where
  -- The functions of the class, with what they fill in.
  unfoldable pub with_functions : DeviceMetadata → ClassDef → Result DeviceError (ClassDef × Seen)
  with_functions options c =
      lift bad_function (
        validate_all_invocations is_template preprocesses
          (record { check_poll_interval = not c.is_abstract; check_url = is_full_code c }) c.actions
          c.queries)
      >>= λ r. ok (record c { actions = r.0; queries = r.1 }, r.2)

-- The canonical form of the class, by `validateTemplateString` where there is one.
abbrev pub template_strings : Canonical → List Text
template_strings (one t) = t ∷ []
template_strings (many l) = l

unfoldable pub validate_template_string : (Text → Bool) → Canonical → Result DeviceError (Unit {0})
validate_template_string is_replaceable value =
    require (all_of is_replaceable (template_strings value)) bad_template

unfoldable pub class_canonical :
    (Text → Text) → (Text → Bool) → Text → Option Canonical → Result DeviceError Canonical
unfolding validate_template_string
class_canonical tokenized is_replaceable name none = ok (one (tokenized name))
class_canonical tokenized is_replaceable name (some form) =
    validate_template_string is_replaceable form >>= λ _. ok form

-- What the parser, the template language, the language pack and the table of entities answer.
pub record Services : Type 0 where
  pub parse : Text → Text → Parsed
  pub is_template : List Text → Bool
  pub preprocesses : Arg → Bool
  pub is_replaceable : Text → Bool
  pub tokenized : Text → Text
  pub find_non_existing : List Text → List Text
  pub inherited : List Text
  pub converts : DatasetExample → Bool

abbrev pub has_fields : DeviceMetadata → Bool
has_fields o =
    not (text_eq o.name [])
    && not (text_eq o.description [])
    && not (text_eq o.primary_kind [])
    && not (text_eq o.license [])

abbrev pub entities_known : List Text → Result DeviceError (Unit {0})
entities_known [] = ok tt
entities_known (e ∷ es) = err (invalid_entities (e ∷ es))

module _ (s : Services) where
  -- The class once it is loaded.
  unfoldable pub check_class : DeviceMetadata → ClassDef → Result DeviceError ClassDef
  unfolding with_config check_entities with_functions foreign_entities class_canonical annotated
  check_class options loaded =
      require (validate_metadata loaded.metadata allowed_class_metadata) bad_metadata >>= λ _.
      require (validate_annotations loaded.annotations) bad_annotation >>= λ _.
      with_config loaded >>= λ c. check_entities c.entities >>= λ _.
      with_functions s.is_template s.preprocesses options c >>= λ r.
      entities_known (s.find_non_existing (foreign_entities r.0 r.1)) >>= λ _.
      class_canonical s.tokenized s.is_replaceable options.name (canonical_or_null c.canonical)
      >>= λ canonical. ok (annotated options canonical r.0)

  -- `validateDevice`: the class, the dataset and the names of its examples.
  unfoldable pub validate_device :
      Row → DeviceMetadata → Text → Text → Result DeviceError (ClassDef × Dataset × List Text)
  unfolding check_class load_class_def
  validate_device user options class_code dataset_code =
      require (has_fields options) missing_fields >>= λ _.
      tag_checked (validate_tag options.primary_kind user (some Role.thingpedia_admin)) >>= λ _.
      require (has_text subcategories options.subcategory) bad_category >>= λ _.
      lift not_loaded
        (load_class_def options.primary_kind class_code (s.parse class_code dataset_code))
      >>= λ loaded. check_class options loaded.0 >>= λ c.
          lift bad_example (validate_dataset s.inherited s.converts loaded.1.examples) >>= λ names.
          ok (c, loaded.1, names)
