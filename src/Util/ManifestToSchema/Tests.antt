-- ===== src/Util/ManifestToSchema/Tests.antt =====
-- util/manifest_to_schema.ts: a schema of one query.
use genie_cloud.Base.{
  Bool, ◌||◌, true, false, List, [], ◌∷◌, Option, none, some, Text, codes, text_eq, if◌then◌else◌,
}
use genie_cloud.Util.ManifestToSchema.{
  Direction, in_req, in_opt, out, ArgumentDef, SchemaChannel, Schema,
}
use genie_cloud.Util.ManifestToSchema.RoundTrip.{Entry, columns_of}

-- Two types, and how they are written; blanks around a type are ignored.
data Kind : Type 0 where
  number string : Kind

abbrev from_string : Text → Option Kind
from_string t =
    if text_eq t (codes "Number") || text_eq t (codes " Number")
    then some number
    else if text_eq t (codes "String")
    then some string
    else none

abbrev pretty_print : Kind → Text
pretty_print number = codes "Number"
pretty_print string = codes "String"

abbrev is_required : Direction → Bool
is_required in_req = true
is_required in_opt = false
is_required out = false

abbrev is_input : Direction → Bool
is_input in_req = true
is_input in_opt = true
is_input out = false

abbrev first_named : List (ArgumentDef Kind) → Text → Option (ArgumentDef Kind)
first_named [] name = none
first_named (a ∷ more) name =
    let later = first_named more name in if text_eq a.name name then some a else later

abbrev count : Entry Kind
count = record {
  type = codes "Number";
  value = number;
  arg = codes "count";
  required = true;
  is_input = true;
  argcanonical = codes "count";
  question = [];
  string_value = none;
}

abbrev title : Entry Kind
title = record {
  type = codes "String";
  value = string;
  arg = codes "title";
  required = false;
  is_input = false;
  argcanonical = codes "title";
  question = codes "which?";
  string_value = some (codes "com.x:title");
}

abbrev search : SchemaChannel
search = record {
  name = codes "search";
  types = some (codes "Number" ∷ codes "String" ∷ []);
  schema = none;
  columns = columns_of (count ∷ title ∷ []);
  extends = [];
  is_list = true;
  is_monitorable = true;
  doc = [];
  canonical = some (codes "things");
  confirmation = some [];
  confirmation_remote = [];
  formatted = [];
  confirm = false;
}

abbrev schema : Schema
schema = record { kind = codes "com.x"; kind_canonical = []; queries = search ∷ []; actions = [] }
