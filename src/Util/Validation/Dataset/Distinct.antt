-- ===== src/Util/Validation/Dataset/Distinct.antt =====
-- util/validation.ts: about the names of the examples of a dataset.
use genie_cloud.Base.{
  ℕ, suc, ◌≡◌, refl, Bool, true, false, not, ◌&&◌, ◌||◌, List, [], ◌∷◌, Option, none, some, subst,
  sym, Text, text_eq, has_text, all_of, if-elim, Result, ok, err, ◌>>=◌, OnOk, OnOk-bind, OnOk-ok,
  OnOk-any, All, leb, length, arith,
}
use genie_cloud.Util.ExampleNames.{NameError, expression_name, Expression}
use genie_cloud.Util.Validation.Dataset.{
  autogen_name, NameValue, name_string, name_other, DatasetExample, DatasetCause,
  check_utterances_given, or_endless, made_name, name_of_example, check_utterances, require,
  not_converted, bad_annotation, validate_example, validate_examples, validate_dataset,
}
use genie_cloud.Util.Validation.Manifest.{validate_annotations}
use genie_cloud.Util.Validation.Dataset.Names.{autogen_name_new}

-- Each text differs from the later ones.
unfoldable pub distinct : List Text → Bool
distinct [] = true
distinct (n ∷ ns) = all_of (λ m. not (text_eq n m)) ns && distinct ns

abbrev New : List Text → Text → Type 0
New names name = has_text names name ≡ false

made_name-New :
    (names : List Text) (made : Result NameError Text) → OnOk (New names) (made_name names made)
unfolding made_name autogen_name
made_name-New names (err e) = tt
made_name-New names (ok base) =
    let found = autogen_name_new base names in
    subst (λ o. OnOk (New names) (or_endless o)) (sym found.1) found.2

name_of_example-New :
    (names : List Text) (value : Expression) (name : Option NameValue)
    → OnOk (New names) (name_of_example names value name)
unfolding name_of_example
name_of_example-New names value none = made_name-New names (expression_name value)
name_of_example-New names value (some name_other) = tt
name_of_example-New names value (some (name_string v)) =
    if-elim (OnOk (New names)) (not (leb (length v) 128)) (λ e. tt)
      (λ e. if-elim (OnOk (New names)) (has_text names v) (λ e. tt) (λ e. e))

-- What is new beside a name differs from it.
not_either : (a b c : Bool) → (a || b) ≡ false → c ≡ true → ((not a && c) ≡ true) × (b ≡ false)
not_either true b c h k = absurd (ground arith)
not_either false b c h k = (k, h)

all_new :
    (names : List Text) (name : Text) (rest : List Text)
    → All (New (name ∷ names)) rest
    → (all_of (λ m. not (text_eq name m)) rest ≡ true) × All (New names) rest
unfolding has_text
all_new names name [] h = (refl, tt)
all_new names name (r ∷ rest) h =
    let later = all_new names name rest h.1 in
    let here = not_either (text_eq name r) (has_text names r) _ h.0 later.0 in
    (here.0, (here.1, later.1))

-- The names of the later examples are not those of the earlier ones.
record Later (names out : List Text) : Type 0 where
  apart : distinct out ≡ true
  new : All (New names) out

Later-cons :
    (names : List Text) (name : Text) (rest : List Text)
    → New names name
    → Later (name ∷ names) rest
    → Later names (name ∷ rest)
unfolding distinct
Later-cons names name rest n h =
    let both = all_new names name rest h.new in
    record { apart = rw (both.0, h.apart) refl; new = (n, both.1) }

module _ (inherited : List Text) (converts : DatasetExample → Bool) where
  validate_example-New :
      (names : List Text) (ex : DatasetExample)
      → OnOk (New names) (validate_example inherited converts names ex)
  unfolding validate_example
  validate_example-New names ex =
      let converted = require (converts ex) not_converted in
      let annotated = require (validate_annotations ex.annotations) bad_annotation in
      let given = check_utterances_given ex in
      let checked = check_utterances inherited converts ex.args ex.utterances in
      OnOk-bind (λ u. Unit) (New names) converted _ (OnOk-any converted)
        (λ u p.
          OnOk-bind (λ u. Unit) (New names) annotated _ (OnOk-any annotated)
            (λ u p.
              OnOk-bind (λ u. Unit) (New names) given _ (OnOk-any given)
                (λ u p.
                  OnOk-bind (New names) (New names) (name_of_example names ex.value ex.name) _
                    (name_of_example-New names ex.value ex.name)
                    (λ name n.
                      OnOk-bind (λ u. Unit) (New names) checked _ (OnOk-any checked) (λ u p. n)))))

  validate_examples-Later :
      (i : ℕ) (names : List Text) (exs : List DatasetExample)
      → OnOk (Later names) (validate_examples inherited converts i names exs)
  unfolding validate_examples distinct
  validate_examples-Later i names [] = record { apart = refl; new = tt }
  validate_examples-Later i names (ex ∷ exs) =
      with_first (validate_example inherited converts names ex)
        (λ name. validate_examples-Later (suc i) (name ∷ names) exs) (validate_example-New names ex)
    where
      with_first :
          (first : Result DatasetCause Text)
          → ((name : Text)
              → OnOk
                  (Later (name ∷ names))
                  (validate_examples inherited converts (suc i) (name ∷ names) exs))
          → OnOk (New names) first
          → OnOk (Later names) (elim first [
            | err e ↦ err (suc i, e)
            | ok name ↦ validate_examples inherited converts (suc i) (name ∷ names) exs >>= λ rest.
                ok (name ∷ rest)
          ])
      with_first (err e) rec n = tt
      with_first (ok name) rec n =
          OnOk-bind (Later (name ∷ names)) (Later names)
            (validate_examples inherited converts (suc i) (name ∷ names) exs) _ (rec name)
            (λ rest l. Later-cons names name rest n l)

  pub validate_dataset-OnOk :
      (exs : List DatasetExample)
      → OnOk (λ out. distinct out ≡ true) (validate_dataset inherited converts exs)
  unfolding validate_dataset
  validate_dataset-OnOk exs =
      apart_of (validate_examples inherited converts 0 [] exs) (validate_examples-Later 0 [] exs)
    where
      apart_of :
          (m : Result (ℕ × DatasetCause) (List Text))
          → OnOk (Later []) m
          → OnOk (λ out. distinct out ≡ true) m
      apart_of (ok out) l = l.apart
      apart_of (err e) l = tt

  -- The names of the examples of a dataset that is accepted, those that are given and those that are
  -- made, all differ.
  pub validate_dataset-distinct :
      (exs : List DatasetExample) (out : List Text)
      → validate_dataset inherited converts exs ≡ ok out
      → distinct out ≡ true
  validate_dataset-distinct exs out h =
      OnOk-ok (λ out. distinct out ≡ true) (validate_dataset inherited converts exs) out
        (validate_dataset-OnOk exs) h
