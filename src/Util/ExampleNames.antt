-- ===== src/Util/ExampleNames.antt =====
-- util/example_names.ts: the name of an example, from its expression. The classes of ThingTalk are
-- data types with the fields that are read, and one constructor for every class that is not named.
pub mod Clean
mod Tests
use genie_cloud.Base.{
  ℕ, Bool, true, false, not, ◌&&◌, ◌||◌, List, [], ◌∷◌, ◌++◌, map, Text, codes, text_eq, has_text,
  join, to_upper, leb, ◌==◌, any_of, all_of, if◌then◌else◌, Result, ok, err, ◌>>=◌,
}

-- The class of the separators, `[\s,."'!?_()]`, on ASCII.
unfoldable pub is_separator : ℕ → Bool
is_separator c = leb 9 c && leb c 13 || any_of (λ d. c == d) (codes " ,.\"'!?_()")

-- `split` at the runs of separators; `in_run` says that the last character was one.
unfoldable pub pieces : Bool → Text → Text → List Text
pieces in_run piece [] = piece ∷ []
pieces in_run piece (c ∷ s) =
    let skipped = pieces true [] s in
    let longer = pieces false (piece ++ c ∷ []) s in
    if is_separator c then if in_run then skipped else piece ∷ skipped else longer

unfoldable pub capital : Text → Text
capital [] = []
capital (c ∷ s) = to_upper c ∷ s

unfoldable pub camel_case : Text → Text
unfolding pieces capital
camel_case s = join [] (map capital (pieces false [] s))

pub data Value : Type 0 where
  var_ref : Text → Value
  computation : Text → Value
  filter_value array_field : Value → Value
  enum_value : Text → Value
  undefined other_value : Value

pub record InParam : Type 0 where
  pub name : Text
  pub value : Value

-- An invocation, with the names that its schema requires.
pub record Invocation : Type 0 where
  pub channel : Text
  pub in_params : List InParam
  pub in_req : List Text

mutual
  pub data Filter : Type 0 where
    is_true is_false other_filter : Filter
    not_filter : Filter → Filter
    and_filter or_filter : Filters → Filter
    external : Invocation → Filter
    atom : Text → Text → Value → Filter
    compute : Value → Text → Value → Filter

  pub data Filters : Type 0 where
    nil : Filters
    cons : Filter → Filters → Filters

mutual
  pub data Expression : Type 0 where
    function_call : Text → Expression
    invocation : Invocation → Expression
    filter : Expression → Filter → Expression
    projection : Expression → List Text → List Value → Expression
    aggregation : Expression → Text → Text → Expression
    sort : Expression → Value → Text → Expression
    monitor index slice alias : Expression → Expression
    chain : Expressions → Expression
    other_expression : Expression

  pub data Expressions : Type 0 where
    nil : Expressions
    cons : Expression → Expressions → Expressions

-- What is thrown: a failed assertion, or a `TypeError`.
pub data NameError : Type 0 where
  assertion type_error : NameError

abbrev pub is_undefined : Value → Bool
is_undefined undefined = true
is_undefined _ = false

abbrev pub enum_name : Value → Text
enum_name (enum_value v) = camel_case v
enum_name _ = []

unfoldable pub param_name : List Text → InParam → Text
unfolding camel_case
param_name in_req p =
    if is_undefined p.value && has_text in_req p.name
    then []
    else codes "With" ++ camel_case p.name ++ enum_name p.value

unfoldable pub invocation_name : Invocation → Text
unfolding param_name camel_case
invocation_name i = camel_case i.channel ++ join [] (map (param_name i.in_req) i.in_params)

-- `/^[a-zA-Z0-9]+$/`
abbrev pub is_alphanumeric : Text → Bool
is_alphanumeric [] = false
is_alphanumeric (c ∷ s) =
    all_of (λ d. leb 97 d && leb d 122 || leb 65 d && leb d 90 || leb 48 d && leb d 57) (c ∷ s)

unfoldable pub scalar_name : Value → Text
scalar_name (var_ref n) = n
scalar_name (computation op) = if is_alphanumeric op then op else codes "result"
scalar_name (filter_value v) = scalar_name v
scalar_name (array_field v) = scalar_name v
scalar_name (enum_value v) = codes "result"
scalar_name undefined = codes "result"
scalar_name other_value = codes "result"

unfoldable pub operator_name : Text → Text
unfolding camel_case
operator_name op =
    if text_eq op (codes ">=")
    then codes "GreaterThan"
    else if text_eq op (codes "<=")
    then codes "LessThan"
    else if text_eq op (codes "starts_with") || text_eq op (codes "ends_with")
    then camel_case op
    else []

-- A comparison of a field or of a computed value.
unfoldable pub comparison_name : Text → Text → Value → Text
unfolding camel_case operator_name
comparison_name lhs op rhs = codes "By" ++ camel_case lhs ++ operator_name op ++ enum_name rhs

unfoldable mutual
  unfolding comparison_name scalar_name invocation_name

  pub filter_name : Filter → Result NameError Text
  filter_name is_true = ok (codes "True")
  filter_name is_false = ok (codes "False")
  filter_name other_filter = err assertion
  filter_name (not_filter f) = filter_name f >>= λ n. ok (codes "Not" ++ n)
  filter_name (and_filter fs) = filter_names fs >>= λ ns. ok (join (codes "And") ns)
  filter_name (or_filter fs) = filter_names fs >>= λ ns. ok (join (codes "Or") ns)
  filter_name (external i) = ok (codes "With" ++ invocation_name i)
  filter_name (atom name op v) = ok (comparison_name name op v)
  filter_name (compute lhs op rhs) = ok (comparison_name (scalar_name lhs) op rhs)

  pub filter_names : Filters → Result NameError (List Text)
  filter_names nil = ok []
  filter_names (cons f fs) = filter_name f >>= λ n. filter_names fs >>= λ ns. ok (n ∷ ns)

abbrev pub field_name : Text → Text
field_name field = if text_eq field (codes "*") then [] else camel_case field

unfoldable mutual
  unfolding filter_name invocation_name scalar_name camel_case

  pub expression_name : Expression → Result NameError Text
  expression_name (function_call name) = ok (camel_case name)
  expression_name (invocation i) = ok (invocation_name i)
  expression_name (filter e f) = expression_name e >>= λ n. filter_name f >>= λ m. ok (n ++ m)
  expression_name (projection e args computations) = expression_name e >>= λ n. ok (
      join [] (map camel_case args)
      ++ join [] (map (λ c. camel_case (scalar_name c)) computations)
      ++ codes "Of"
      ++ n)
  expression_name (aggregation e operator field) =
      expression_name e >>= λ n. ok (camel_case operator ++ field_name field ++ codes "Of" ++ n)
  expression_name (sort e value direction) = expression_name e >>= λ n.
      ok (codes "Sort" ++ camel_case (scalar_name value) ++ camel_case direction ++ n)
  expression_name (monitor e) = expression_name e >>= λ n. ok (codes "Monitor" ++ n)
  expression_name (index e) = expression_name e
  expression_name (slice e) = expression_name e
  expression_name (alias e) = expression_name e
  expression_name (chain es) = expression_names es >>= λ ns. ok (join (codes "And") ns)
  expression_name other_expression = err type_error

  pub expression_names : Expressions → Result NameError (List Text)
  expression_names nil = ok []
  expression_names (cons e es) =
      expression_name e >>= λ n. expression_names es >>= λ ns. ok (n ∷ ns)
