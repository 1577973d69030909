-- ===== src/Util/Validation/Device/Accepted.antt =====
-- util/validation.ts: what holds of a device that is accepted.
use genie_cloud.Base.{
  ℕ, ◌≡◌, refl, Bool, true, false, not, ◌&&◌, ◌||◌, List, [], ◌∷◌, Option, none, some, Text,
  text_eq, has_text, if-elim, Result, ok, err, ◌>>=◌, OnOk, OnOk-bind, OnOk-ok, OnOk-any, arith,
  text_eq_sound,
}
use genie_cloud.Util.User.{Row}
use genie_cloud.Util.User.Role
use genie_cloud.Util.Validation.{TagError, validate_tag}
use genie_cloud.Util.Validation.Loading.{
  ClassDef, Dataset, Parsed, class_of, dataset_of, load_class_def, syntax_error, no_library,
  library,
}
use genie_cloud.Util.Validation.Manifest.{
  canonical_or_null, validate_all_invocations, Seen, Arg, FunctionDef, ManifestError,
  validate_metadata, validate_annotations,
}
use genie_cloud.Util.Validation.Dataset.{DatasetCause, validate_dataset}
use genie_cloud.Util.Validation.Dataset.Distinct.{distinct, validate_dataset-OnOk}
use genie_cloud.Util.Validation.Device.{
  DeviceMetadata, DeviceError, Services, require, lift, tag_checked, is_some, with_config,
  with_functions, check_entities, foreign_entities, entities_known, class_canonical, annotated,
  check_class, validate_device, has_fields, subcategories, allowed_class_metadata, bad_metadata,
  bad_annotation, missing_fields, bad_category, not_loaded, bad_example, bad_function,
}

-- A class of a kind that can be loaded: it has a loader and a configuration, unless it is abstract.
pub record Loadable (kind : Text) (c : ClassDef) : Type 0 where
  pub same_kind : c.kind ≡ kind
  pub loader : (c.is_abstract || is_some c.loader && c.has_config) ≡ true

with_config-Loadable :
    (kind : Text) (c : ClassDef) → c.kind ≡ kind → OnOk (Loadable kind) (with_config c)
unfolding with_config
with_config-Loadable kind c k =
    if-elim (OnOk (Loadable kind)) c.is_abstract (λ e. record { same_kind = k; loader = rw e refl })
      (λ e.
        if-elim (OnOk (Loadable kind)) (not (is_some c.loader)) (λ f. tt)
          (λ f. record { same_kind = k; loader = has_loader c.is_abstract (is_some c.loader) f }))
  where
    has_loader : (a b : Bool) → not b ≡ false → (a || b && true) ≡ true
    has_loader true b h = refl
    has_loader false true h = refl
    has_loader false false h = absurd (ground arith)

class_of-kind : (kind : Text) (cs : List ClassDef) → OnOk (λ c. c.kind ≡ kind) (class_of kind cs)
class_of-kind kind [] = tt
class_of-kind kind (c ∷ []) =
    if-elim (OnOk (λ c. c.kind ≡ kind)) (text_eq c.kind kind) (λ e. text_eq_sound c.kind kind e)
      (λ e. tt)
class_of-kind kind (c ∷ d ∷ cs) = tt

load_class_def-kind :
    (kind code : Text) (p : Parsed) → OnOk (λ r. r.0.kind ≡ kind) (load_class_def kind code p)
unfolding load_class_def
load_class_def-kind kind code (syntax_error (some line)) = tt
load_class_def-kind kind code (syntax_error none) = tt
load_class_def-kind kind code no_library = tt
load_class_def-kind kind code (library classes datasets) =
    OnOk-bind (λ c. c.kind ≡ kind) (λ r. r.0.kind ≡ kind) (class_of kind classes) _
      (class_of-kind kind classes)
      (λ c k.
        OnOk-bind (λ d. Unit) (λ r. r.0.kind ≡ kind) (dataset_of kind datasets) _
          (OnOk-any (dataset_of kind datasets)) (λ d u. k))

require-holds : (b : Bool) (e : DeviceError) → OnOk (λ u. b ≡ true) (require b e)
require-holds true e = refl
require-holds false e = tt

tag_checked-none : (o : Option TagError) → OnOk (λ u. o ≡ none) (tag_checked o)
tag_checked-none none = refl
tag_checked-none (some e) = tt

OnOk-lift :
    {E A : Type 0} (P : A → Type 0) (f : E → DeviceError) (m : Result E A)
    → OnOk P m
    → OnOk P (lift f m)
OnOk-lift P f (ok a) p = p
OnOk-lift P f (err e) p = tt

abbrev LoadableOf : Text → ClassDef × Seen → Type 0
LoadableOf kind r = Loadable kind r.0

with_functions-Loadable :
    (is_template : List Text → Bool) (preprocesses : Arg → Bool) (options : DeviceMetadata)
    (kind : Text) (c : ClassDef)
    → Loadable kind c
    → OnOk (LoadableOf kind) (with_functions is_template preprocesses options c)
unfolding with_functions
with_functions-Loadable is_template preprocesses options kind c l =
    filled (validate_all_invocations is_template preprocesses _ c.actions c.queries)
  where
    filled :
        (r : Result ManifestError (List FunctionDef × List FunctionDef × Seen))
        → OnOk
            (LoadableOf kind)
            (lift bad_function r >>= λ r. ok (record c { actions = r.0; queries = r.1 }, r.2))
    filled (ok r) = record { same_kind = l.same_kind; loader = l.loader }
    filled (err e) = tt

-- A class that goes on with the metadata of a device.
pub record AcceptedClass (options : DeviceMetadata) (c : ClassDef) : Type 0 where
  pub loadable : Loadable options.primary_kind c
  pub license : c.license ≡ some options.license
  pub has_canonical : is_some c.canonical ≡ true

module _ (s : Services) where
  check_class-Accepted :
      (options : DeviceMetadata) (loaded : ClassDef)
      → loaded.kind ≡ options.primary_kind
      → OnOk (AcceptedClass options) (check_class s options loaded)
  unfolding check_class annotated
  check_class-Accepted options loaded k =
      let good = require (validate_metadata loaded.metadata allowed_class_metadata) bad_metadata in
      let named = require (validate_annotations loaded.annotations) bad_annotation in
      OnOk-bind (λ u. Unit) (AcceptedClass options) good _ (OnOk-any good)
        (λ u p.
          OnOk-bind (λ u. Unit) (AcceptedClass options) named _ (OnOk-any named)
            (λ u p.
              OnOk-bind (Loadable options.primary_kind) (AcceptedClass options) (with_config loaded)
                _ (with_config-Loadable options.primary_kind loaded k)
                (λ c l.
                  let described = check_entities c.entities in
                  let filled = with_functions s.is_template s.preprocesses options c in
                  let form =
                    class_canonical s.tokenized s.is_replaceable options.name
                      (canonical_or_null c.canonical) in
                  OnOk-bind (λ u. Unit) (AcceptedClass options) described _ (OnOk-any described)
                    (λ u p.
                      OnOk-bind (LoadableOf options.primary_kind) (AcceptedClass options) filled _
                        (with_functions-Loadable s.is_template s.preprocesses options
                          options.primary_kind c l)
                        (λ r m.
                          let known =
                            entities_known (s.find_non_existing (foreign_entities r.0 r.1)) in
                          OnOk-bind (λ u. Unit) (AcceptedClass options) known _ (OnOk-any known)
                            (λ u p.
                              OnOk-bind (λ u. Unit) (AcceptedClass options) form _ (OnOk-any form)
                                (λ canonical p. record {
                                  loadable = record { same_kind = m.same_kind; loader = m.loader };
                                  license = refl;
                                  has_canonical = refl;
                                })))))))

-- A device that was accepted.
pub record Accepted (user : Row) (options : DeviceMetadata) (r : ClassDef × Dataset × List Text)
    : Type 0 where
  pub fields : has_fields options ≡ true
  pub tag : validate_tag options.primary_kind user (some Role.thingpedia_admin) ≡ none
  pub category : has_text subcategories options.subcategory ≡ true
  pub class_def : AcceptedClass options r.0
  pub names : distinct r.2 ≡ true

module _ (s : Services) where
  validate_device-OnOk :
      (user : Row) (options : DeviceMetadata) (class_code dataset_code : Text)
      → OnOk (Accepted user options) (validate_device s user options class_code dataset_code)
  unfolding validate_device
  validate_device-OnOk user options class_code dataset_code =
      let Goal = Accepted user options in
      let kind = options.primary_kind in
      let parsed = s.parse class_code dataset_code in
      let loading = lift not_loaded (load_class_def kind class_code parsed) in
      OnOk-bind (λ u. has_fields options ≡ true) Goal (require (has_fields options) missing_fields)
        _ (require-holds (has_fields options) missing_fields)
        (λ u fields.
          OnOk-bind (λ u. validate_tag kind user (some Role.thingpedia_admin) ≡ none) Goal
            (tag_checked (validate_tag kind user (some Role.thingpedia_admin))) _
            (tag_checked-none (validate_tag kind user (some Role.thingpedia_admin)))
            (λ u tag.
              OnOk-bind (λ u. has_text subcategories options.subcategory ≡ true) Goal
                (require (has_text subcategories options.subcategory) bad_category) _
                (require-holds (has_text subcategories options.subcategory) bad_category)
                (λ u category.
                  OnOk-bind (λ (r : ClassDef × Dataset). r.0.kind ≡ kind) Goal loading _
                    (OnOk-lift (λ r. r.0.kind ≡ kind) not_loaded
                      (load_class_def kind class_code parsed)
                      (load_class_def-kind kind class_code parsed))
                    (λ loaded k.
                      OnOk-bind (AcceptedClass options) Goal (check_class s options loaded.0) _
                        (check_class-Accepted s options loaded.0 k)
                        (λ c a.
                          names_of c a loaded.1 fields tag category
                            (validate_dataset s.inherited s.converts loaded.1.examples)
                            (validate_dataset-OnOk s.inherited s.converts loaded.1.examples))))))
    where
      names_of :
          (c : ClassDef)
          → AcceptedClass options c
          → (d : Dataset) → has_fields options ≡ true
          → validate_tag options.primary_kind user (some Role.thingpedia_admin) ≡ none
          → has_text subcategories options.subcategory ≡ true
          → (checked : Result (ℕ × DatasetCause) (List Text))
          → OnOk (λ out. distinct out ≡ true) checked
          → OnOk (Accepted user options) (lift bad_example checked >>= λ names. ok (c, d, names))
      names_of c a d fields tag category (err e) h = tt
      names_of c a d fields tag category (ok out) h = record {
        fields = fields;
        tag = tag;
        category = category;
        class_def = a;
        names = h;
      }

  -- A device that is accepted has all required fields, an id that the user may take, and a known
  -- category; its class has that id, the given license, a canonical form, and, unless it is abstract,
  -- a loader and a configuration; and the names of the examples of its dataset all differ.
  pub validate_device-Accepted :
      (user : Row) (options : DeviceMetadata) (class_code dataset_code : Text)
      (r : ClassDef × Dataset × List Text)
      → validate_device s user options class_code dataset_code ≡ ok r
      → Accepted user options r
  validate_device-Accepted user options class_code dataset_code r h =
      OnOk-ok (Accepted user options) (validate_device s user options class_code dataset_code) r
        (validate_device-OnOk user options class_code dataset_code) h
