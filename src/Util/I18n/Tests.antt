-- ===== src/Util/I18n/Tests.antt =====
-- util/i18n.ts: two languages with a common beginning.
use genie_cloud.Base.{
  ◌≡◌, refl, true, false, List, [], ◌∷◌, none, some, Text, codes, ok, split, insert, join, text_eq,
}
use genie_cloud.Util.I18n.{Languages, locale_to_language, init, get, handler, Request}
use genie_cloud.Util.I18n.Served.{Served, get-Served}

abbrev locales : List Text
locales = codes "en" ∷ codes "en-US" ∷ codes "zh-CN" ∷ []

abbrev languages : Languages
languages =
    (codes "en", codes "en-US")
    ∷ (codes "en-US", codes "en-US")
    ∷ (codes "zh-CN", codes "zh-CN")
    ∷ (codes "zh", codes "zh-CN")
    ∷ []

init-locales : init locales ≡ ok languages
unfolding init split insert join
init-locales = refl

british : get languages (codes "en_GB.utf8") false ≡ some (codes "en-US")
unfolding get text_eq join
british = refl

traditional : locale_to_language (codes "zh-TW") ≡ codes "zh-tw"
unfolding locale_to_language
traditional = refl

abbrev request : Request
request = record {
  query_locale = some [];
  user_locale = some (codes "it");
  has_session = true;
  session_locale = some (codes "es");
  accept_language = none;
}

user_before_session : handler (λ h. none) (codes "en") request ≡ (codes "it", some (codes "it"))
unfolding handler
user_before_session = refl

get-Served_example : Served locales languages (codes "en_GB.utf8") (codes "en-US")
get-Served_example =
    get-Served locales languages (codes "en_GB.utf8") (codes "en-US") init-locales british
