-- ===== src/Util/Requests/Tests.antt =====
-- util/pagination.ts and util/origin.ts at concrete requests.
use genie_cloud.Base.{
  ◌≤◌, ◌≡◌, refl, true, false, [], ◌∷◌, Option, some, none, Text, codes, ℤ, pos, negsuc, has_text,
  text_eq, to_lower, if◌then◌else◌,
}
use genie_cloud.Util.Requests.{validate_page_and_size, is_origin_ok, origin, no_origin}
use genie_cloud.Util.Requests.Laws.{validate_page_and_size_lem}

abbrev parsed : Text → Option ℤ
parsed t = if text_eq t (codes "500") then some (pos 500) else some (negsuc 0)

pages :
    (validate_page_and_size parsed (some (codes "-1")) (some (codes "500")) 10 100 ≡ (0, 100))
    × (validate_page_and_size parsed none none 10 100 ≡ (0, 10))
unfolding validate_page_and_size text_eq
pages = (refl, refl)

origins :
    (is_origin_ok (codes "https://a.org" ∷ []) (origin (codes "https://A.org")) ≡ true)
    × (is_origin_ok (codes "https://a.org" ∷ []) (origin (codes "https://b.org")) ≡ false)
    × (is_origin_ok [] no_origin ≡ true)
unfolding is_origin_ok has_text text_eq to_lower
origins = (refl, refl, refl)

validate_page_and_size_lem_example :
    (validate_page_and_size parsed none (some (codes "500")) 10 100).1 ≤ 100
validate_page_and_size_lem_example =
    validate_page_and_size_lem parsed none (some (codes "500")) 10 100
