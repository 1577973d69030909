-- ===== src/Util/ExampleNames/Clean.antt =====
-- util/example_names.ts: about the separators in a name.
use genie_cloud.Base.{
  ℕ, ◌≡◌, refl, Bool, true, false, ◌&&◌, ◌||◌, List, [], ◌∷◌, ◌++◌, map, Text, codes, text_eq,
  has_text, join, to_upper, any_of, if-elim, All, ok, OnOk, OnOk-bind, OnOk-ok, arith,
}
use genie_cloud.Util.ExampleNames.{
  is_separator, pieces, capital, camel_case, Value, enum_value, InParam, Invocation, Filter,
  Filters, Expression, Expressions, is_undefined, enum_name, param_name, invocation_name,
  scalar_name, operator_name, comparison_name, filter_name, filter_names, field_name,
  expression_name, expression_names, is_true, is_false, other_filter, not_filter, and_filter,
  or_filter, external, atom, compute, nil, cons, function_call, invocation, filter, projection,
  aggregation, sort, monitor, index, slice, alias, chain, other_expression, var_ref, computation,
  filter_value, array_field, undefined, other_value,
}

-- A text without a separator.
pub record Clean (s : Text) : Type 0 where
  pub clear : any_of is_separator s ≡ false

lit : (s : Text) → any_of is_separator s ≡ false → Clean s
lit s h = record { clear = h }

neither : (a b : Bool) → (a || b) ≡ false → (a ≡ false) × (b ≡ false)
neither true b h = absurd (ground arith)
neither false b h = (refl, h)

Clean-cons : (c : ℕ) (s : Text) → is_separator c ≡ false → Clean s → Clean (c ∷ s)
Clean-cons c s e h = record { clear = rw e h.clear }

Clean-append : (s t : Text) → Clean s → Clean t → Clean (s ++ t)
Clean-append [] t h k = k
Clean-append (c ∷ s) t h k =
    let both = neither (is_separator c) _ h.clear in
    Clean-cons c (s ++ t) both.0 (Clean-append s t (lit s both.1) k)

Clean-join : (sep : Text) (ts : List Text) → Clean sep → All Clean ts → Clean (join sep ts)
unfolding join
Clean-join sep [] h a = lit _ refl
Clean-join sep (t ∷ []) h a = a.0
Clean-join sep (t ∷ u ∷ ts) h a =
    Clean-append (t ++ sep) _ (Clean-append t sep a.0 h) (Clean-join sep (u ∷ ts) h a.1)

separator-to_upper : (c : ℕ) → is_separator c ≡ false → is_separator (to_upper c) ≡ false
unfolding is_separator to_upper
separator-to_upper c h = ground arith

Clean-capital : (s : Text) → Clean s → Clean (capital s)
unfolding capital
Clean-capital [] h = lit _ refl
Clean-capital (c ∷ s) h =
    let both = neither (is_separator c) _ h.clear in
    Clean-cons (to_upper c) s (separator-to_upper c both.0) (lit s both.1)

pieces-Clean : (in_run : Bool) (piece s : Text) → Clean piece → All Clean (pieces in_run piece s)
unfolding pieces
pieces-Clean b piece [] h = (h, tt)
pieces-Clean b piece (c ∷ s) h =
    if-elim (All Clean) (is_separator c)
      (λ e.
        if-elim (All Clean) b (λ e'. pieces-Clean true [] s (lit _ refl))
          (λ e'. (h, pieces-Clean true [] s (lit _ refl))))
      (λ e.
        pieces-Clean false (piece ++ c ∷ []) s (Clean-append piece (c ∷ []) h (lit _ (rw e refl))))

All-each :
    {A : Type 0} (f : A → Text) → ((x : A) → Clean (f x)) → (xs : List A) → All Clean (map f xs)
All-each f h [] = tt
All-each f h (x ∷ xs) = (h x, All-each f h xs)

capitals-Clean : (ts : List Text) → All Clean ts → All Clean (map capital ts)
capitals-Clean [] a = tt
capitals-Clean (t ∷ ts) a = (Clean-capital t a.0, capitals-Clean ts a.1)

camel_case-Clean : (s : Text) → Clean (camel_case s)
unfolding camel_case
camel_case-Clean s =
    Clean-join [] _ (lit _ refl) (capitals-Clean _ (pieces-Clean false [] s (lit _ refl)))

enum_name-Clean : (v : Value) → Clean (enum_name v)
enum_name-Clean (var_ref n) = lit _ refl
enum_name-Clean (computation op) = lit _ refl
enum_name-Clean (filter_value v) = lit _ refl
enum_name-Clean (array_field v) = lit _ refl
enum_name-Clean (enum_value v) = camel_case-Clean v
enum_name-Clean undefined = lit _ refl
enum_name-Clean other_value = lit _ refl

param_name-Clean : (in_req : List Text) (p : InParam) → Clean (param_name in_req p)
unfolding param_name is_separator
param_name-Clean in_req p =
    if-elim Clean (is_undefined p.value && has_text in_req p.name) (λ e. lit _ refl)
      (λ e.
        Clean-append (codes "With" ++ camel_case p.name) _
          (Clean-append (codes "With") _ (lit _ refl) (camel_case-Clean p.name))
          (enum_name-Clean p.value))

invocation_name-Clean : (i : Invocation) → Clean (invocation_name i)
unfolding invocation_name
invocation_name-Clean i = Clean-append _ _ (camel_case-Clean i.channel) (
    Clean-join [] _ (lit _ refl)
      (All-each (param_name i.in_req) (param_name-Clean i.in_req) i.in_params))

operator_name-Clean : (op : Text) → Clean (operator_name op)
unfolding operator_name is_separator
operator_name-Clean op =
    if-elim Clean (text_eq op (codes ">=")) (λ e. lit _ refl)
      (λ e.
        if-elim Clean (text_eq op (codes "<=")) (λ e. lit _ refl)
          (λ e.
            if-elim Clean (text_eq op (codes "starts_with") || text_eq op (codes "ends_with"))
              (λ e. camel_case-Clean op) (λ e. lit _ refl)))

comparison_name-Clean : (lhs op : Text) (v : Value) → Clean (comparison_name lhs op v)
unfolding comparison_name is_separator
comparison_name-Clean lhs op v =
    Clean-append (codes "By" ++ camel_case lhs ++ operator_name op) _
      (Clean-append (codes "By" ++ camel_case lhs) _
        (Clean-append (codes "By") _ (lit _ refl) (camel_case-Clean lhs)) (operator_name-Clean op))
      (enum_name-Clean v)

mutual
  unfolding filter_name is_separator

  filter_name-Clean : (f : Filter) → OnOk Clean (filter_name f)
  filter_name-Clean is_true = lit _ refl
  filter_name-Clean is_false = lit _ refl
  filter_name-Clean other_filter = tt
  filter_name-Clean (not_filter f) =
      OnOk-bind Clean Clean (filter_name f) _ (filter_name-Clean f)
        (λ n h. Clean-append (codes "Not") n (lit _ refl) h)
  filter_name-Clean (and_filter fs) =
      OnOk-bind (All Clean) Clean (filter_names fs) _ (filter_names-Clean fs)
        (λ ns h. Clean-join (codes "And") ns (lit _ refl) h)
  filter_name-Clean (or_filter fs) =
      OnOk-bind (All Clean) Clean (filter_names fs) _ (filter_names-Clean fs)
        (λ ns h. Clean-join (codes "Or") ns (lit _ refl) h)
  filter_name-Clean (external i) =
      Clean-append (codes "With") _ (lit _ refl) (invocation_name-Clean i)
  filter_name-Clean (atom name op v) = comparison_name-Clean name op v
  filter_name-Clean (compute lhs op v) = comparison_name-Clean (scalar_name lhs) op v

  filter_names-Clean : (fs : Filters) → OnOk (All Clean) (filter_names fs)
  filter_names-Clean nil = tt
  filter_names-Clean (cons f fs) =
      OnOk-bind Clean (All Clean) (filter_name f) _ (filter_name-Clean f) (λ n h.
        OnOk-bind (All Clean) (All Clean) (filter_names fs) _ (filter_names-Clean fs)
          (λ ns k. (h, k)))

field_name-Clean : (field : Text) → Clean (field_name field)
field_name-Clean field =
    if-elim Clean (text_eq field (codes "*")) (λ e. lit _ refl) (λ e. camel_case-Clean field)

-- `Of` and the name of the expression, after a text.
of-Clean : (s n : Text) → Clean s → Clean n → Clean (s ++ codes "Of" ++ n)
unfolding is_separator
of-Clean s n h k = Clean-append (s ++ codes "Of") n (Clean-append s (codes "Of") h (lit _ refl)) k

mutual
  unfolding expression_name is_separator

  expression_name-Clean : (e : Expression) → OnOk Clean (expression_name e)
  expression_name-Clean (function_call name) = camel_case-Clean name
  expression_name-Clean (invocation i) = invocation_name-Clean i
  expression_name-Clean (filter e f) =
      OnOk-bind Clean Clean (expression_name e) _ (expression_name-Clean e) (λ n h.
        OnOk-bind Clean Clean (filter_name f) _ (filter_name-Clean f) (λ m k. Clean-append n m h k))
  expression_name-Clean (projection e args computations) =
      OnOk-bind Clean Clean (expression_name e) _ (expression_name-Clean e) (λ n h.
        of-Clean _ n
          (Clean-append _ _
            (Clean-join [] _ (lit _ refl) (All-each camel_case camel_case-Clean args))
            (Clean-join [] _ (lit _ refl) (
              All-each (λ c. camel_case (scalar_name c)) (λ c. camel_case-Clean (scalar_name c))
                computations)))
          h)
  expression_name-Clean (aggregation e operator field) =
      OnOk-bind Clean Clean (expression_name e) _ (expression_name-Clean e) (λ n h.
        of-Clean _ n (Clean-append _ _ (camel_case-Clean operator) (field_name-Clean field)) h)
  expression_name-Clean (sort e value direction) =
      OnOk-bind Clean Clean (expression_name e) _ (expression_name-Clean e) (λ n h.
        Clean-append _ n
          (Clean-append _ _
            (Clean-append (codes "Sort") _ (lit _ refl) (camel_case-Clean (scalar_name value)))
            (camel_case-Clean direction))
          h)
  expression_name-Clean (monitor e) =
      OnOk-bind Clean Clean (expression_name e) _ (expression_name-Clean e)
        (λ n h. Clean-append (codes "Monitor") n (lit _ refl) h)
  expression_name-Clean (index e) = expression_name-Clean e
  expression_name-Clean (slice e) = expression_name-Clean e
  expression_name-Clean (alias e) = expression_name-Clean e
  expression_name-Clean (chain es) =
      OnOk-bind (All Clean) Clean (expression_names es) _ (expression_names-Clean es)
        (λ ns h. Clean-join (codes "And") ns (lit _ refl) h)
  expression_name-Clean other_expression = tt

  expression_names-Clean : (es : Expressions) → OnOk (All Clean) (expression_names es)
  expression_names-Clean nil = tt
  expression_names-Clean (cons e es) =
      OnOk-bind Clean (All Clean) (expression_name e) _ (expression_name-Clean e) (λ n h.
        OnOk-bind (All Clean) (All Clean) (expression_names es) _ (expression_names-Clean es)
          (λ ns k. (h, k)))

-- A name that an expression has holds no white space and none of the punctuation that `camelCase`
-- splits at.
pub expression_name-ok :
    (e : Expression) (n : Text) → expression_name e ≡ ok n → any_of is_separator n ≡ false
expression_name-ok e n h = (OnOk-ok Clean (expression_name e) n (expression_name-Clean e) h).clear
