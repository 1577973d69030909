-- ===== src/Util/I18n.antt =====
-- util/i18n.ts: locales and the languages that are enabled. A pack of a language is known by its
-- locale; the translations themselves are not looked at. A locale that names a property which every
-- object inherits is not told apart.
pub mod Served
mod Tests
use genie_cloud.Base.{
  ℕ, zero, suc, Bool, true, false, ◌||◌, List, [], ◌∷◌, map, Option, none, some, Text, codes,
  text_eq, has_text, to_lower, join, split, cons_part, if◌then◌else◌, ◌==◌, length, take, lookup,
  insert, Result, ok, err,
}

-- `split` at any of several separators.
abbrev pub split_any : (ℕ → Bool) → Text → List Text
split_any is_separator [] = [] ∷ []
split_any is_separator (c ∷ s) =
    let rest = split_any is_separator s in if is_separator c then [] ∷ rest else cons_part c rest

abbrev pub dash : Text
dash = b'-' ∷ []

-- `[-_@.]`
abbrev pub splits_language : ℕ → Bool
splits_language c = c == b'-' || c == b'_' || c == b'@' || c == b'.'

-- `[-_@.,]`
abbrev pub splits_locale : ℕ → Bool
splits_locale c = splits_language c || c == b','

abbrev pub first_part : List Text → Text
first_part [] = []
first_part (p ∷ ps) = p

-- `localeToLanguage`
unfoldable pub locale_to_language : Text → Text
unfolding text_eq to_lower
locale_to_language locale =
    let lower = map to_lower locale in
    if text_eq lower (codes "zh-tw") || text_eq lower (codes "zh-cn")
    then lower
    else first_part (split_any splits_language lower)

-- `ALLOWED_LANGUAGES`
abbrev pub allowed_languages : List Text
allowed_languages =
    codes "en"
    ∷ codes "en-US"
    ∷ codes "en-GB"
    ∷ codes "it"
    ∷ codes "it-IT"
    ∷ codes "zh"
    ∷ codes "zh-CN"
    ∷ codes "zh-TW"
    ∷ codes "es"
    ∷ codes "es-ES"
    ∷ []

-- The first parts of a locale.
abbrev pub prefix : ℕ → List Text → Text
prefix n parts = join dash (take n parts)

abbrev pub Languages : Type 0
Languages = List (Text × Text)

-- The loop of `init` over the parts of one locale, from all of them to the first.
unfoldable pub bind_prefixes : Text → List Text → ℕ → Languages → Languages
bind_prefixes pack parts zero languages = languages
bind_prefixes pack parts (suc n) languages =
    bind_prefixes pack parts n (insert (prefix (suc n) parts) pack languages)

unfoldable pub bind_all : List Text → Languages → Result Text Languages
unfolding bind_prefixes has_text
bind_all [] languages = ok languages
bind_all (locale ∷ locales) languages =
    let parts = split b'-' locale in
    let rest = bind_all locales (bind_prefixes locale parts (length parts) languages) in
    if has_text allowed_languages locale then rest else err (codes "E_INVALID_CONFIG")

-- `init`
unfoldable pub init : List Text → Result Text Languages
unfolding bind_all
init [] = err (codes "E_INVALID_CONFIG")
init (locale ∷ locales) = bind_all (locale ∷ locales) []

abbrev pub or_else : {A : Type 0} → Option A → Option A → Option A
or_else none b = b
or_else (some a) b = some a

-- The loop of `get`: the parts of the locale, then fewer and fewer of them.
unfoldable pub get_from : Languages → List Text → ℕ → Option Text
unfolding lookup
get_from languages parts zero = lookup (prefix 0 parts) languages
get_from languages parts (suc n) =
    or_else (lookup (prefix (suc n) parts) languages) (get_from languages parts n)

-- `get`, with and without the fallback.
unfoldable pub get : Languages → Text → Bool → Option Text
unfolding get_from
get languages locale fallback =
    let parts = split_any splits_locale locale in
    or_else (get_from languages parts (length parts))
      (if fallback then lookup (codes "en-US") languages else none)

-- What `handler` reads of a request; an empty text counts as none.
pub record Request : Type 0 where
  pub query_locale : Option Text
  pub user_locale : Option Text
  pub has_session : Bool
  pub session_locale : Option Text
  pub accept_language : Option Text

abbrev pub truthy : Option Text → Option Text
truthy none = none
truthy (some []) = none
truthy (some (c ∷ s)) = some (c ∷ s)

-- The locale of the session afterwards, and the locale of the request by now.
abbrev pub use_session : Bool → Option Text → Option Text → Option Text × Option Text
use_session false session locale = (session, locale)
use_session true session none = (session, truthy session)
use_session true session (some l) = (some l, some l)

abbrev pub by_header : (Text → Option Text) → Option Text → Option Text
by_header accept none = none
by_header accept (some h) = truthy (accept h)

abbrev pub locale_or : Text → Option Text → Text
locale_or d none = d
locale_or d (some l) = l

-- `handler`: the locale of the request, and that of the session. What `acceptLanguage` gives for a
-- header is an argument, and so is the first language that is enabled.
unfoldable pub handler : (Text → Option Text) → Text → Request → Text × Option Text
handler accept enabled req =
    let asked = or_else (truthy req.query_locale) (truthy req.user_locale) in
    let s = use_session req.has_session req.session_locale asked in
    (locale_or enabled (or_else s.1 (by_header accept (truthy req.accept_language))), s.0)
