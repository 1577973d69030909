-- ===== src/Util/TimedCache/Tests.antt =====
-- The cache on concrete operations, and its theorems at concrete inputs.
use genie_cloud.Base.{◌≡◌, refl, [], ◌∷◌, none, some}
use genie_cloud.Util.TimedCache.{TimedCache, new, set, get}
use genie_cloud.Util.TimedCache.Laws.{get-set}

abbrev one_entry : TimedCache
unfolding new set
one_entry = set 1 10 none (some 7) new

get-set_example :
    get 1 (set 1 20 none none one_entry)
    ≡ some (elim (get 1 one_entry) [ none ↦ 20 | some old ↦ old ])
get-set_example = get-set 1 1 20 none none one_entry

-- The second `set` of a key finalizes the old value, and the old value stays.
stale_value :
    (get 1 (set 1 20 none none one_entry) ≡ some 10)
    × ((set 1 20 none none one_entry).finalized ≡ (7, 10) ∷ [])
unfolding one_entry get set
stale_value = (refl, refl)
