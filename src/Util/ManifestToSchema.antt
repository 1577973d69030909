-- ===== src/Util/ManifestToSchema.antt =====
-- util/manifest_to_schema.ts: the schema of a class as a class of ThingTalk, and back. Types of ThingTalk,
-- and what it says of an argument, are arguments. Lists that are read at one index are read in step.
pub mod RoundTrip
mod Tests
use genie_cloud.Base.{
  ℕ, Bool, true, false, not, ◌&&◌, List, [], ◌∷◌, map, Option, none, some, Text, codes,
  if◌then◌else◌, Result, ok, err, ◌>>=◌,
}
use genie_cloud.Util.Tokenize.{clean}

pub data Direction : Type 0 where
  in_req in_opt out : Direction

-- An argument with its metadata and its annotation.
pub record ArgumentDef (T : Type 0) : Type 0 where
  pub direction : Direction
  pub name : Text
  pub type : T
  pub canonical : Option Text
  pub prompt : Option Text
  pub string_values : Option Text

-- A canonical form, which may be a list.
pub data Canonical : Type 0 where
  no_canonical : Canonical
  canonical_text : Text → Canonical
  canonical_list : List Text → Canonical

pub record FunctionDef (T : Type 0) : Type 0 where
  pub name : Text
  pub extends : List Text
  pub is_list : Bool
  pub is_monitorable : Bool
  pub args : List (ArgumentDef T)
  pub canonical : Canonical
  pub confirmation : Option Text
  pub confirmation_remote : Option Text
  pub formatted : Option (List Text)
  pub doc : Option Text
  pub confirm : Option Bool

pub record ClassDef (T : Type 0) : Type 0 where
  pub kind : Text
  pub canonical : Option Text
  pub queries : List (FunctionDef T)
  pub actions : List (FunctionDef T)

-- The lists of a function of a schema, one entry for each argument.
pub record Columns : Type 0 where
  pub args : List Text
  pub required : List Bool
  pub is_input : List Bool
  pub argcanonicals : List Text
  pub questions : List Text
  pub string_values : List (Option Text)

pub record SchemaChannel : Type 0 where
  pub name : Text
  pub types : Option (List Text)
  pub schema : Option (List Text)
  pub columns : Columns
  pub extends : List Text
  pub is_list : Bool
  pub is_monitorable : Bool
  pub doc : Text
  pub canonical : Option Text
  pub confirmation : Option Text
  pub confirmation_remote : Text
  pub formatted : List Text
  pub confirm : Bool

pub record Schema : Type 0 where
  pub kind : Text
  pub kind_canonical : Text
  pub queries : List SchemaChannel
  pub actions : List SchemaChannel

abbrev pub truthy : Option Text → Option Text
truthy none = none
truthy (some []) = none
truthy (some (c ∷ s)) = some (c ∷ s)

abbrev pub text_or : Text → Option Text → Text
text_or d none = d
text_or d (some t) = t

abbrev pub first {ℓ} : {A : Type ℓ} → List A → Option A
first [] = none
first (x ∷ xs) = some x

abbrev pub rest {ℓ} : {A : Type ℓ} → List A → List A
rest [] = []
rest (x ∷ xs) = xs

abbrev pub is_true : Option Bool → Bool
is_true none = false
is_true (some b) = b

abbrev pub flat : Option (Option Text) → Option Text
flat none = none
flat (some o) = o

abbrev pub next_columns : Columns → Columns
next_columns c = record {
  args = rest c.args;
  required = rest c.required;
  is_input = rest c.is_input;
  argcanonicals = rest c.argcanonicals;
  questions = rest c.questions;
  string_values = rest c.string_values;
}

abbrev pub direction_of : Bool → Bool → Direction
direction_of true is_input = in_req
direction_of false true = in_opt
direction_of false false = out

abbrev pub nonempty : List Text → Option (List Text)
nonempty [] = none
nonempty (t ∷ ts) = some (t ∷ ts)

abbrev pub list_or : Option (List Text) → List Text
list_or none = []
list_or (some ts) = ts

abbrev pub canonical_of : Canonical → Option Text
canonical_of no_canonical = none
canonical_of (canonical_text t) = some t
canonical_of (canonical_list ts) = first ts

-- `schema.types || schema.schema`
abbrev pub types_of : SchemaChannel → Option (List Text)
types_of s = elim s.types [ none ↦ s.schema | some types ↦ some types ]

module _ {T : Type 0} where
  -- The argument of the first entries, with its type.
  unfoldable pub make_argument : Bool → T → Columns → ArgumentDef T
  make_argument is_meta type c = record {
    direction = direction_of (is_true (first c.required)) (is_true (first c.is_input));
    name = text_or [] (first c.args);
    type = type;
    canonical = if is_meta then first c.argcanonicals else none;
    prompt = if is_meta then truthy (first c.questions) else none;
    string_values = if is_meta then truthy (flat (first c.string_values)) else none;
  }

  -- The function of a channel, with its arguments.
  unfoldable pub function_def_of : Bool → SchemaChannel → List (ArgumentDef T) → FunctionDef T
  function_def_of is_meta s args = record {
    name = s.name;
    extends = s.extends;
    is_list = s.is_list;
    is_monitorable = s.is_monitorable;
    args = args;
    canonical = if is_meta then canonical_text (text_or [] (truthy s.canonical)) else no_canonical;
    confirmation = if is_meta then some (text_or [] (truthy s.confirmation)) else none;
    confirmation_remote = none;
    formatted = if is_meta then nonempty s.formatted else none;
    doc = none;
    confirm = if is_meta then some s.confirm else none;
  }

-- `Type.fromString` gives none where it throws; so do the functions that call it.
module _ {T : Type 0} (from_string : Text → Option T) where
  unfoldable pub make_arguments : Bool → List Text → Columns → Option (List (ArgumentDef T))
  unfolding make_argument
  make_arguments is_meta [] c = some []
  make_arguments is_meta (t ∷ ts) c = elim (from_string t) [
    | none ↦ none
    | some type ↦ elim (make_arguments is_meta ts (next_columns c)) [
      | none ↦ none
      | some more ↦ some (make_argument is_meta type c ∷ more)
    ]
  ]

  -- `makeSchemaFunctionDef`; a channel without types throws as well.
  unfoldable pub make_schema_function_def : Bool → SchemaChannel → Option (FunctionDef T)
  unfolding make_arguments function_def_of
  make_schema_function_def is_meta s = elim (types_of s) [
    | none ↦ none
    | some types ↦ elim (make_arguments is_meta types s.columns) [
      | none ↦ none
      | some args ↦ some (function_def_of is_meta s args)
    ]
  ]

  unfoldable pub make_functions : Bool → List SchemaChannel → Option (List (FunctionDef T))
  unfolding make_schema_function_def
  make_functions is_meta [] = some []
  make_functions is_meta (s ∷ ss) = elim (make_schema_function_def is_meta s) [
    | none ↦ none
    | some f ↦ elim (make_functions is_meta ss) [ none ↦ none | some fs ↦ some (f ∷ fs) ]
  ]

  -- `makeSchemaClassDef`
  unfoldable pub make_schema_class_def : Bool → Schema → Option (ClassDef T)
  unfolding make_functions
  make_schema_class_def is_meta s = elim (make_functions is_meta s.queries) [
    | none ↦ none
    | some queries ↦ elim (make_functions is_meta s.actions) [
      | none ↦ none
      | some actions ↦ some (record {
        kind = s.kind;
        canonical = if is_meta then truthy (some s.kind_canonical) else none;
        queries = queries;
        actions = actions;
      })
    ]
  ]

abbrev pub and_also :
    {T : Type 0} → ArgumentDef T × Bool → List (ArgumentDef T) × Bool → List (ArgumentDef T) × Bool
and_also a more = (a.0 ∷ more.0, a.1 && more.1)

module _ {T : Type 0} where
  -- One argument of `mergeFunctionDefAndSchema`, and whether it is complete.
  unfoldable pub merge_argument : ArgumentDef T → Option Text → Option Text → ArgumentDef T × Bool
  merge_argument a canonical question =
      let b : ArgumentDef T = elim (truthy question) [
        | none ↦ a
        | some q ↦ record a { prompt = some q }
      ] in
      elim (truthy canonical) [
        | none ↦ (b, false)
        | some c ↦ (record b { canonical = some c }, true)
      ]

  unfoldable pub merge_arguments :
      List (ArgumentDef T) → List Text → List Text → List (ArgumentDef T) × Bool
  unfolding merge_argument
  merge_arguments [] canonicals questions = ([], true)
  merge_arguments (a ∷ more) canonicals questions =
      and_also (merge_argument a (first canonicals) (first questions))
        (merge_arguments more (rest canonicals) (rest questions))

  -- `mergeFunctionDefAndSchema`
  unfoldable pub merge_function_def : FunctionDef T → SchemaChannel → FunctionDef T × Bool
  unfolding merge_arguments
  merge_function_def f s =
      let args = merge_arguments f.args s.columns.argcanonicals s.columns.questions in
      let g = record f {
        args = args.0;
        formatted = elim (nonempty s.formatted) [ none ↦ f.formatted | some ts ↦ some ts ];
      } in
      elim (truthy s.canonical) [
        | none ↦ (g, false)
        | some c ↦ (record g { canonical = canonical_text c }, args.1)
      ]

module _ {T : Type 0} (pretty_print : T → Text) (is_required is_input : Direction → Bool)
    (get_argument : List (ArgumentDef T) → Text → Option (ArgumentDef T)) where
  -- The entries of one argument, before those of the others.
  unfoldable pub add_argument : ArgumentDef T → List Text × Columns → List Text × Columns
  unfolding clean
  add_argument a cols = (
    pretty_print a.type ∷ cols.0,
    record {
      args = a.name ∷ cols.1.args;
      required = is_required a.direction ∷ cols.1.required;
      is_input = is_input a.direction ∷ cols.1.is_input;
      argcanonicals = text_or (clean a.name) (truthy a.canonical) ∷ cols.1.argcanonicals;
      questions = text_or [] a.prompt ∷ cols.1.questions;
      string_values = a.string_values ∷ cols.1.string_values;
    },
  )

  -- The loop over the names of the arguments.
  unfoldable pub argument_columns :
      List (ArgumentDef T) → List (ArgumentDef T) → Option (List Text × Columns)
  unfolding add_argument
  argument_columns all [] = some (
    [],
    record {
      args = [];
      required = [];
      is_input = [];
      argcanonicals = [];
      questions = [];
      string_values = [];
    },
  )
  argument_columns all (a ∷ more) = elim (get_argument all a.name) [
    | none ↦ none
    | some b ↦ elim (argument_columns all more) [
      | none ↦ none
      | some cols ↦ some (add_argument b cols)
    ]
  ]

  -- `classDefToSchema`, of one function; none is an error that is thrown.
  unfoldable pub function_to_schema : FunctionDef T → Option SchemaChannel
  unfolding argument_columns
  function_to_schema f = elim f.confirm [
    | none ↦ none
    | some confirm ↦ elim (argument_columns f.args f.args) [
      | none ↦ none
      | some cols ↦ some (record {
        name = f.name;
        types = some cols.0;
        schema = none;
        columns = cols.1;
        extends = f.extends;
        is_list = f.is_list;
        is_monitorable = f.is_monitorable;
        doc = text_or [] f.doc;
        canonical = canonical_of f.canonical;
        confirmation = f.confirmation;
        confirmation_remote = text_or [] f.confirmation_remote;
        formatted = list_or f.formatted;
        confirm = confirm;
      })
    ]
  ]

  unfoldable pub functions_to_schema : List (FunctionDef T) → Option (List SchemaChannel)
  unfolding function_to_schema
  functions_to_schema [] = some []
  functions_to_schema (f ∷ fs) = elim (function_to_schema f) [
    | none ↦ none
    | some c ↦ elim (functions_to_schema fs) [ none ↦ none | some cs ↦ some (c ∷ cs) ]
  ]

  -- `classDefToSchema`
  unfoldable pub class_def_to_schema : ClassDef T → Option Schema
  unfolding functions_to_schema
  class_def_to_schema c = elim (functions_to_schema c.actions) [
    | none ↦ none
    | some actions ↦ elim (functions_to_schema c.queries) [
      | none ↦ none
      | some queries ↦ some (record {
        kind = c.kind;
        kind_canonical = text_or [] (truthy c.canonical);
        queries = queries;
        actions = actions;
      })
    ]
  ]
