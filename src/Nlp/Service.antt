-- ===== src/Nlp/Service.antt =====
-- nlp/main.ts: class NLPInferenceServer, and the constructor of nlp/nlp_model.ts. A matcher is what was
-- added to it; whether there is a file of it is an argument.
pub mod Longest
pub mod Tests
use genie_cloud.Base.{
  ℕ, zero, suc, Bool, true, false, not, ◌&&◌, ◌||◌, List, [], ◌∷◌, ◌++◌, Option, none, some, Text,
  codes, text_eq, if◌then◌else◌, ◌==◌, length, lookup, insert, Result, ok, err, ◌>>=◌,
}
use genie_cloud.Util.I18n.{split_any, prefix, locale_to_language, or_else}

-- A value that is a text where it is there.
pub data Token : Type 0 where
  undefined null : Token
  token : Text → Token

-- The specification of a model, of the configuration.
pub record Spec : Type 0 where
  pub tag : Text
  pub locale : Text
  pub owner : Option ℕ
  pub model_url : Text
  pub access_token : Token
  pub contextual : Bool
  pub use_exact : Bool

-- The organization that a client of Thingpedia stands for.
pub record Organization : Type 0 where
  pub id : ℕ
  pub is_admin : Bool

-- Where a model matches exactly: with a matcher of the server, which may be missing, or with none.
pub data Exact : Type 0 where
  matcher_of : Option Text → Exact
  dummy : Exact

pub record NlpModel : Type 0 where
  pub id : Text
  pub url : Text
  pub access_token : Token
  pub locale : Text
  pub language_tag : Text
  pub contextual : Bool
  pub exact : Exact
  pub org : Organization

-- What an exact matcher was given: the parts of utterances with their code.
abbrev pub Matcher : Type 0
Matcher = List (List Text × List Text)

pub record Service : Type 0 where
  pub models : List (Text × NlpModel)
  pub exact_matchers : List (Text × Matcher)

-- `[_.-]`
abbrev pub splits_tag : ℕ → Bool
splits_tag c = c == b'_' || c == b'.' || c == b'-'

-- The loop of `getExact` and of `getModel`: the parts of the locale, then fewer and fewer of them.
unfoldable pub find_prefix : {A : Type 0} → (Text → Option A) → List Text → ℕ → Option A
find_prefix look parts zero = none
find_prefix look parts (suc n) = or_else (look (prefix (suc n) parts)) (find_prefix look parts n)

unfoldable pub by_locale : {A : Type 0} → (Text → Option A) → Text → Option A
unfolding find_prefix
by_locale look locale =
    let parts = split_any splits_tag locale in find_prefix look parts (length parts)

-- The name of a matcher that is found.
unfoldable pub named : {A : Type 0} → List (Text × A) → Text → Option Text
unfolding lookup
named table key = elim (lookup key table) [ none ↦ none | some m ↦ some key ]

-- `getExact`: the language of the matcher.
unfoldable pub get_exact : Service → Text → Option Text
unfolding by_locale named
get_exact s locale = by_locale (named s.exact_matchers) locale

-- The key of a model, which is its id.
abbrev pub model_key : Text → Text → Text
model_key tag locale = b'@' ∷ tag ++ b'/' ∷ locale

-- The tag of a model, and the one that stands for it by now.
unfoldable pub full_tag : Text → Text
unfolding text_eq
full_tag model_tag =
    if text_eq model_tag (codes "default") then codes "org.thingpedia.models.default" else model_tag

-- `getModel`
unfoldable pub get_model : Service → Text → Text → Option NlpModel
unfolding by_locale lookup full_tag
get_model s model_tag locale =
    by_locale (λ l. lookup (model_key (full_tag model_tag) l) s.models) locale

-- The organization of an owner, where Thingpedia is embedded.
abbrev pub org_of : Option ℕ → Organization
org_of none = record { id = 1; is_admin = true }
org_of (some owner) =
    if owner == 1
    then record { id = 1; is_admin = true }
    else record { id = owner; is_admin = false }

-- The constructor of a model, which leaves its access token as it is.
unfoldable pub new_model : Spec → Service → NlpModel
unfolding get_exact locale_to_language
new_model spec s = record {
  id = model_key spec.tag spec.locale;
  url = spec.model_url;
  access_token = undefined;
  locale = spec.locale;
  language_tag = locale_to_language spec.locale;
  contextual = spec.contextual;
  exact = if spec.use_exact then matcher_of (get_exact s spec.locale) else dummy;
  org = org_of spec.owner;
}

-- How the download of a matcher ends: with what the matcher holds once it has loaded the file, or with
-- an error of a code.
pub data Download : Type 0 where
  loaded : Matcher → Download
  failed : Text → Download

-- `loadExactMatcher`, into a matcher; the status 404 is written as text.
unfoldable pub load_exact_matcher : Matcher → Download → Result Text Matcher
unfolding text_eq
load_exact_matcher m (loaded entries) = ok entries
load_exact_matcher m (failed code) =
    if text_eq code (codes "ENOENT") || text_eq code (codes "404") then ok m else err code

-- The first loop of `load`.
unfoldable pub load_matchers : (Text → Download) → List Text → Service → Result Text Service
unfolding load_exact_matcher locale_to_language insert
load_matchers download [] s = ok s
load_matchers download (locale ∷ locales) s =
    let language = locale_to_language locale in
    load_exact_matcher [] (download language) >>= λ m.
    load_matchers download locales
      (record s { exact_matchers = insert language m s.exact_matchers })

-- Its second loop, where every model loads.
unfoldable pub load_models : List Spec → Service → Service
unfolding new_model insert
load_models [] s = s
load_models (spec ∷ specs) s =
    load_models specs
      (record s { models = insert (new_model spec s).id (new_model spec s) s.models })

unfoldable pub new_service : Service
new_service = record { models = []; exact_matchers = [] }

-- `load`
unfoldable pub load : (Text → Download) → List Text → List Spec → Result Text Service
unfolding load_matchers load_models new_service
load download locales specs =
    load_matchers download locales new_service >>= λ s. ok (load_models specs s)
