-- ===== src/Util/Requests/Laws.antt =====
-- util/pagination.ts: about the size of a page.
use genie_cloud.Base.{ℕ, ◌≤◌, Option, Text, if◌then◌else◌, ltb, ℤ, arith}
use genie_cloud.Util.Requests.{validate_page_and_size}

capped : (n d : ℕ) → (if ltb d n then d else n) ≤ d
capped n d = ground arith

-- Whatever the query says and `parseInt` makes of it, the size of a page is at most the maximum.
pub validate_page_and_size_lem :
    (parse_int : Text → Option ℤ) (page page_size : Option Text) (d max_value : ℕ)
    → (validate_page_and_size parse_int page page_size d max_value).1 ≤ max_value
unfolding validate_page_and_size
validate_page_and_size_lem parse_int page page_size d max_value = capped _ max_value
