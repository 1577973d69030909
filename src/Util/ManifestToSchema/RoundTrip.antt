-- ===== src/Util/ManifestToSchema/RoundTrip.antt =====
-- util/manifest_to_schema.ts: about the class of a schema, and the schema of that class.
use genie_cloud.Base.{
  ◌≡◌, Bool, true, false, not, ◌||◌, List, [], map, Option, none, some, Text, All,
}
use genie_cloud.Util.ManifestToSchema.{
  Direction, in_req, in_opt, out, ArgumentDef, Columns, SchemaChannel, truthy, text_or, FunctionDef,
  direction_of, make_schema_function_def, function_to_schema,
}

-- The entries of one argument of a schema, and its type.
pub record Entry (T : Type 0) : Type 0 where
  pub type : Text
  pub value : T
  pub arg : Text
  pub required : Bool
  pub is_input : Bool
  pub argcanonical : Text
  pub question : Text
  pub string_value : Option Text

abbrev pub types_in : {T : Type 0} → List (Entry T) → List Text
types_in es = map (λ e. e.type) es

abbrev pub columns_of : {T : Type 0} → List (Entry T) → Columns
columns_of es = record {
  args = map (λ e. e.arg) es;
  required = map (λ e. e.required) es;
  is_input = map (λ e. e.is_input) es;
  argcanonicals = map (λ e. e.argcanonical) es;
  questions = map (λ e. e.question) es;
  string_values = map (λ e. e.string_value) es;
}

-- The arguments of the entries.
abbrev pub argument_of : {T : Type 0} → Entry T → ArgumentDef T
argument_of e = record {
  direction = direction_of e.required e.is_input;
  name = e.arg;
  type = e.value;
  canonical = some e.argcanonical;
  prompt = truthy (some e.question);
  string_values = truthy e.string_value;
}

abbrev pub arguments_of : {T : Type 0} → List (Entry T) → List (ArgumentDef T)
arguments_of es = map argument_of es

module _ {T : Type 0} (from_string : Text → Option T) (pretty_print : T → Text)
    (get_argument : List (ArgumentDef T) → Text → Option (ArgumentDef T)) where
  -- The type of an entry parses, and is written as ThingTalk prints it. An argument that is required is
  -- an input, its canonical form is not empty, and neither is the name of its values.
  pub record GoodEntry (e : Entry T) : Type 0 where
    pub parses : from_string e.type ≡ some e.value
    pub prints : pretty_print e.value ≡ e.type
    pub input : (not e.required || e.is_input) ≡ true
    pub canonical : truthy (some e.argcanonical) ≡ some e.argcanonical
    pub values : truthy e.string_value ≡ e.string_value

  -- A channel of a schema whose lists are the columns of entries, each found by its name; nothing that a
  -- class does not keep.
  pub record GoodChannel (s : SchemaChannel) : Type 0 where
    pub entries : List (Entry T)
    pub types : s.types ≡ some (types_in entries)
    pub schema : s.schema ≡ none
    pub columns : s.columns ≡ columns_of entries
    pub good : All GoodEntry entries
    pub finds :
        All (λ a. get_argument (arguments_of entries) a.name ≡ some a) (arguments_of entries)
    pub doc : s.doc ≡ []
    pub remote : s.confirmation_remote ≡ []
    pub canonical : some (text_or [] (truthy s.canonical)) ≡ s.canonical
    pub confirmation : some (text_or [] (truthy s.confirmation)) ≡ s.confirmation

-- What ThingTalk says of the direction of an argument.
pub record Directions (is_required is_input : Direction → Bool) : Type 0 where
  pub required :
      (is_required in_req ≡ true) × (is_required in_opt ≡ false) × (is_required out ≡ false)
  pub input : (is_input in_req ≡ true) × (is_input in_opt ≡ true) × (is_input out ≡ false)

module _ {T : Type 0} (from_string : Text → Option T) (pretty_print : T → Text)
    (is_required is_input : Direction → Bool)
    (get_argument : List (ArgumentDef T) → Text → Option (ArgumentDef T))
    (directions : Directions is_required is_input) where
  -- What a function becomes, and what it becomes again.
  FunctionBack : SchemaChannel → Type 0
  FunctionBack s =
      (f : FunctionDef T) × (make_schema_function_def from_string true s ≡ some f)
      × (function_to_schema pretty_print is_required is_input get_argument f ≡ some s)
