-- ===== src/Nlp/Service/Tests.antt =====
-- nlp/main.ts: a server of two models, and the matcher of Traditional Chinese, which is not found.
use genie_cloud.Base.{◌≡◌, refl, [], ◌∷◌, none, some, Text, codes, ok, join, text_eq}
use genie_cloud.Nlp.Service.{Service, Download, failed, new_service, load_matchers, get_exact}

abbrev pub no_file : Text → Download
no_file t = failed (codes "ENOENT")

abbrev both : Service
both = record { models = []; exact_matchers = (codes "en", []) ∷ (codes "zh-tw", []) ∷ [] }

loads_both : load_matchers no_file (codes "en-US" ∷ codes "zh-TW" ∷ []) new_service ≡ ok both
unfolding load_matchers new_service
loads_both = refl

english : get_exact both (codes "en_US") ≡ some (codes "en")
unfolding get_exact text_eq join
english = refl

chinese : get_exact both (codes "zh-TW") ≡ none
unfolding get_exact text_eq join
chinese = refl
