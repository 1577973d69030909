-- ===== src/Util/Validation/Loading.antt =====
-- util/validation.ts: the class and the dataset of a device, as `loadClassDef` gives them. What
-- ThingTalk parses is an argument.
pub mod Location
use genie_cloud.Base.{
  ℕ, suc, ◌+◌, ◌-◌, Bool, true, false, not, ◌&&◌, ◌||◌, List, [], ◌∷◌, Option, none, some, Text,
  codes, split, text_eq, if◌then◌else◌, ltb, length, Result, ok, err, ◌>>=◌,
}
use genie_cloud.Util.Validation.Manifest.{FunctionDef, Canonical}
use genie_cloud.Util.Validation.Dataset.{DatasetExample}

-- A declaration of an entity; the description is none where it is no string.
pub record Entity : Type 0 where
  pub name : Text
  pub description : Option Text
  pub parents : List Text

pub record ClassDef : Type 0 where
  pub kind : Text
  pub is_abstract : Bool
  pub loader : Option Text
  pub has_config : Bool
  pub metadata : List Text
  pub annotations : List Text
  pub entities : List Entity
  pub actions : List FunctionDef
  pub queries : List FunctionDef
  pub name : Option Text
  pub description : Option Text
  pub canonical : Option Canonical
  pub thingpedia_name : Option Text
  pub thingpedia_description : Option Text
  pub subcategory : Option Text
  pub license : Option Text
  pub license_gplcompatible : Bool
  pub website : Option Text
  pub repository : Option Text
  pub issue_tracker : Option Text

pub record Dataset : Type 0 where
  pub name : Text
  pub language : Option Text
  pub examples : List DatasetExample

-- What the parser answers; a syntax error may have a line.
pub data Parsed : Type 0 where
  syntax_error : Option ℕ → Parsed
  no_library : Parsed
  library : List ClassDef → List Dataset → Parsed

pub data FileName : Type 0 where
  manifest_file dataset_file : FileName

pub data LoadError : Type 0 where
  syntax_in : FileName → ℕ → LoadError
  not_parsed bad_class bad_dataset bad_language : LoadError

-- The file and the line of a syntax error, by the counted lines of the class.
abbrev pub located : ℕ → ℕ → FileName × ℕ
located class_length line =
    if ltb class_length line then (dataset_file, line - class_length + 1) else (manifest_file, line)

unfoldable pub locate : Text → ℕ → FileName × ℕ
locate class_code line = located (1 + length (split 10 class_code)) line

abbrev pub is_english : Option Text → Bool
is_english none = true
is_english (some l) = text_eq l [] || text_eq l (codes "en")

abbrev pub dataset_of : Text → List Dataset → Result LoadError Dataset
dataset_of kind [] = ok record { name = kind; language = none; examples = [] }
dataset_of kind (d ∷ []) =
    if not (text_eq d.name kind)
    then err bad_dataset
    else if not (is_english d.language)
    then err bad_language
    else ok d
dataset_of kind (d ∷ e ∷ ds) = err bad_dataset

abbrev pub class_of : Text → List ClassDef → Result LoadError ClassDef
class_of kind [] = err bad_class
class_of kind (c ∷ []) = if text_eq c.kind kind then ok c else err bad_class
class_of kind (c ∷ d ∷ cs) = err bad_class

-- `loadClassDef`, on what the parser answers for both files.
unfoldable pub load_class_def : Text → Text → Parsed → Result LoadError (ClassDef × Dataset)
unfolding locate
load_class_def kind class_code (syntax_error (some line)) =
    let at = locate class_code line in err (syntax_in at.0 at.1)
load_class_def kind class_code (syntax_error none) = err not_parsed
load_class_def kind class_code no_library = err bad_class
load_class_def kind class_code (library classes datasets) = class_of kind classes >>= λ class_def.
    dataset_of kind datasets >>= λ dataset. ok (class_def, dataset)
